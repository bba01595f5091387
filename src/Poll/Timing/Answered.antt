-- ===== src/Poll/Timing/Answered.antt =====
-- A service call is answered by the sweep of `pollThread` at the latest
-- (src/ros1_foxglove_bridge.cpp).
use foxglove_bridge_ros.Prelude.{
  ℕ, ◌+◌, ◌%◌, ◌^◌, ◌≤◌, ◌<◌, ◌≡◌, refl, ap, ◌∙◌, List, [], ◌∷◌, ◌++◌, lookup, max, leb, leb→le,
  All, nat_eq, string_eq, Bool-cases, inl, inr, arith,
}
use foxglove_bridge_ros.Poll.Backoff.{PollState, poke_poll, before_wait, after_wait}
use foxglove_bridge_ros.Poll.Backoff.Bounds.{update_period_bounds}
use foxglove_bridge_ros.Services.Advertised.{Services}
use foxglove_bridge_ros.Services.Calls.{
  CallState, ServiceRequest, GenericService, started, check_request, handle_service_request,
  timed_out, take_and_respond, sweep_collect, sweep_expire_all, sweep_expired_service_calls,
}
use foxglove_bridge_ros.Services.Calls.Once.{
  IsOnce, sweep_collect-IsOnce, answered, requests, run, run-IsOnce, step-IsOnce,
}
use foxglove_bridge_ros.Services.Calls.Deadline.{
  Watches, Follows, placed, sweep_answers, take-watched, expire_all-pending, expire_all-IsOnce,
  collect-Watches, run-Follows,
}
use foxglove_bridge_ros.Poll.Timing.{LoopState, Round, to_sweep, to_next, loop}

expire_all-watched :
    (ids : List ℕ) (s : CallState)
    → ((sweep_expire_all ids s).watched ≡ s.watched) × ((sweep_expire_all ids s).expired ≡ [])
unfolding sweep_expire_all
expire_all-watched [] s = (refl, refl)
expire_all-watched (id ∷ rest) s =
    let s' = take_and_respond id timed_out (lookup id s.calls) s in
    let kept = expire_all-watched rest s' in
    (kept.0 ∙ (take-watched id timed_out (lookup id s.calls) s).0, kept.1)

-- A sweep that is too early for a call keeps it on the list.
sweep-Follows :
    (now : ℕ) (s : CallState) (j deadline : ℕ)
    → IsOnce s
    → Follows j deadline s
    → Follows j deadline (sweep_expired_service_calls now s)
unfolding sweep_expired_service_calls Watches
sweep-Follows now s j deadline v (l, w) =
    let s₁ = sweep_collect now s in
    let w₁ = collect-Watches now s j deadline w in
    let (v₂, same) = expire_all-IsOnce s₁.expired s₁ (sweep_collect-IsOnce now s v) in
    let kept = expire_all-watched s₁.expired s₁ in
    (
      rw same (unfold sweep_collect in l),
      λ p. rw (kept.0, kept.1) (ground (arith, expire_all-pending s₁.expired s₁ j, w₁, p)),
    )

-- The longest wait between two polls.
abbrev pub longest_wait : PollState → ℕ
longest_wait p = max 100 p.max_update_period_ms

sweep-IsOnce : (now : ℕ) (s : CallState) → IsOnce s → IsOnce (sweep_expired_service_calls now s)
unfolding sweep_expired_service_calls
sweep-IsOnce now s v =
    (expire_all-IsOnce (sweep_collect now s).expired (sweep_collect now s)
      (sweep_collect-IsOnce now s v)).0

waits_at_most :
    (r : Round) (s : LoopState)
    → ((to_next r s).now ≤ s.now + longest_wait s.poll)
      × (longest_wait (to_next r s).poll ≡ longest_wait s.poll)
unfolding to_next before_wait after_wait poke_poll
waits_at_most r s =
    let bounds =
      update_period_bounds s.poll.max_update_period_ms ((s.poll.update_count + 1) % 2 ^ 64)
        ((s.poll.update_count + 1) % 2 ^ 64) (omega arith) in
    (omega (arith, bounds.1), ground arith)

-- One of the rounds sweeps by this time, and after its sweep the call is answered once.
pub AnsweredBy : ℕ → ℕ → List Round → LoopState → Type 0
AnsweredBy j latest rounds s =
    (earlier : List Round) × (r : Round) × (later : List Round) × (rounds ≡ earlier ++ r ∷ later)
    × ((to_sweep r (loop earlier s)).now ≤ latest)
    × (answered j (to_sweep r (loop earlier s)).calls.responses ≡ 1)

now_or_later :
    (j latest : ℕ) (r : Round) (rounds : List Round) (s : LoopState)
    → AnsweredBy j latest rounds (to_next r (to_sweep r s))
    → AnsweredBy j latest (r ∷ rounds) s
unfolding AnsweredBy loop
now_or_later j latest r rounds s (earlier, q, later, e, time, once) =
    (r ∷ earlier, q, later, ap (◌∷◌ r) e, time, once)

swept_by :
    (j deadline latest : ℕ) (r : Round) (rounds : List Round) (s : LoopState)
    → IsOnce s.calls
    → Follows j deadline s.calls
    → deadline ≤ s.now + r.work_ms
    → s.now + r.work_ms ≤ latest
    → AnsweredBy j latest (r ∷ rounds) s
unfolding AnsweredBy loop to_sweep
swept_by j deadline latest r rounds s v f overdue time = (
  [],
  r,
  rounds,
  refl,
  time,
  sweep_answers (s.now + r.work_ms) (run s.calls r.before_sweep) j deadline
      (run-IsOnce s.calls r.before_sweep v) (run-Follows s.calls r.before_sweep j deadline f)
      overdue,
)

-- A whole round keeps what is known of the call.
round-Follows :
    (r : Round) (s : LoopState) (j deadline : ℕ)
    → IsOnce s.calls
    → Follows j deadline s.calls
    → IsOnce (to_next r (to_sweep r s)).calls × Follows j deadline (to_next r (to_sweep r s)).calls
unfolding to_sweep to_next
round-Follows r s j deadline v f =
    let at = s.now + r.work_ms in
    let once = run-IsOnce s.calls r.before_sweep v in
    let follows = run-Follows s.calls r.before_sweep j deadline f in
    let swept = sweep_expired_service_calls at (run s.calls r.before_sweep) in
    (
      run-IsOnce swept r.while_waiting (sweep-IsOnce at (run s.calls r.before_sweep) once),
      run-Follows swept r.while_waiting j deadline
          (sweep-Follows at (run s.calls r.before_sweep) j deadline once follows),
    )

loop_answers :
    (rounds : List Round) (s : LoopState) (j deadline longest work : ℕ)
    → longest_wait s.poll ≡ longest
    → IsOnce s.calls
    → Follows j deadline s.calls
    → All (λ r. r.work_ms ≤ work) rounds
    → s.now ≤ deadline + longest
    → deadline + longest < (loop rounds s).now
    → AnsweredBy j (deadline + longest + work) rounds s
unfolding loop to_sweep
loop_answers [] s j deadline longest work p v f fast early late =
    absurd (omega (arith, early, late))
loop_answers (r ∷ rounds) s j deadline longest work p v f fast early late =
    let next = to_next r (to_sweep r s) in
    let wait = waits_at_most r (to_sweep r s) in
    let kept = round-Follows r s j deadline v f in
    elim (Bool-cases (leb deadline (s.now + r.work_ms))) [
      | inl due_now ↦
          swept_by j deadline (deadline + longest + work) r rounds s v f
            (leb→le deadline (s.now + r.work_ms) due_now) (omega (arith, early, fast.0))
      | inr not_yet ↦ now_or_later j (deadline + longest + work) r rounds s (
          loop_answers rounds next j deadline longest work (wait.1 ∙ p) kept.0 kept.1 fast.1
            (ground (arith, wait.0, p, not_yet)) late)
    ]

-- A client's request, while the poll thread is about to begin a round.
abbrev pub with_request : Services → ServiceRequest → ℕ → ℕ → LoopState → LoopState
with_request services q start timeout s = record s {
  calls = handle_service_request services s.calls q start timeout;
}

-- A service call that passes the guards, in a state in which each earlier one is pending or answered
-- once, is answered by a sweep of the poll thread at the latest: where the thread begins its rounds
-- no later than its longest wait after the call's deadline, goes on with them until later than that,
-- and no round's queries and updates take longer than `work`, one of its sweeps is made no later than
-- `work` and the longest wait after the deadline, and at its end the call is answered exactly once.
-- The longest wait is the configured maximum, or 100 ms where that is less. It does not matter what
-- requests, returning workers and pokes come in between.
pub loop-answered :
    (rounds : List Round) (s : LoopState) (services : Services) (q : ServiceRequest)
    (start timeout work : ℕ) (req : GenericService)
    → IsOnce s.calls
    → check_request (lookup q.service_name services) q ≡ started req
    → All (λ r. r.work_ms ≤ work) rounds
    → s.now ≤ start + timeout + longest_wait s.poll
    → start + timeout + longest_wait s.poll
      < (loop rounds (with_request services q start timeout s)).now
    → AnsweredBy s.calls.next_call
        (start + timeout + longest_wait s.poll + work)
        rounds
        (with_request services q start timeout s)
loop-answered rounds s services q start timeout work req v accepted fast early late =
    loop_answers rounds (with_request services q start timeout s) s.calls.next_call
      (start + timeout) (longest_wait s.poll) work refl
      (step-IsOnce s.calls (requests services q start timeout) v)
      (placed s.calls services q start timeout req accepted) fast early late
