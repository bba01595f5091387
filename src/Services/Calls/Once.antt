-- ===== src/Services/Calls/Once.antt =====
-- Each service call is answered exactly once, and by its deadline (src/ros1_foxglove_bridge.cpp).
use foxglove_bridge_ros.Prelude.{
  ℕ, ◌+◌, ◌≤◌, ◌≡◌, refl, true, false, Option, none, some, List, [], ◌∷◌, ◌++◌, lookup, leb,
  if◌then◌else◌, nat_eq, string_eq, ◌==◌, nat_beq_iff, lookup-assign, if-elim, arith,
}
use foxglove_bridge_ros.Services.Advertised.{Services}
use foxglove_bridge_ros.Services.Calls.{
  Bytes, Response, respond_ok, call_failed, timed_out, PendingServiceCall, CallState,
  ServiceRequest, Handling, refused, started, place_call, handle_service_request, take_and_respond,
  worker_returns, is_pending, sweep_collect, expire, sweep_expire_one,
}

-- How often a responder was used.
abbrev pub answered : ℕ → List (ℕ × Response) → ℕ
answered id [] = 0
answered id ((j, r) ∷ responses) =
    let rest = answered id responses in if j == id then rest + 1 else rest

answered-append :
    (id : ℕ) (xs ys : List (ℕ × Response))
    → answered id (xs ++ ys) ≡ answered id xs + answered id ys
answered-append id [] ys = omega arith
answered-append id ((j, r) ∷ xs) ys = ground (arith, answered-append id xs ys)

-- Of the calls that have started, each is pending and unanswered or is answered once; no other
-- number is in use.
pub record IsOnce (s : CallState) : Type 0 where
  pub once :
      (id : ℕ)
      → answered id s.responses + (if is_pending s.calls id then 1 else 0)
        ≡ (if leb s.next_call id then 0 else 1)
  pub known : (id : ℕ) → s.next_call ≤ id → lookup id s.calls ≡ none

pub place_call-IsOnce :
    (s : CallState) (q : ServiceRequest) (deadline : ℕ) (h : Handling)
    → IsOnce s
    → IsOnce (place_call s q deadline h)
unfolding place_call
place_call-IsOnce s q deadline (refused r) v = record {
  once = λ id. ground (arith, v.once id, answered-append id s.responses ((s.next_call, r) ∷ []));
  known = λ id h. v.known id (omega arith);
}
place_call-IsOnce s q deadline (started req) v = record {
  once = λ id. ground (
    arith,
    v.once id,
    v.known s.next_call (omega arith),
    nat_beq_iff s.next_call id,
    lookup-assign s.next_call id (record { has_responder = true; service_name = q.service_name })
        s.calls,
  );
  known = λ id h. ground (
    arith,
    v.known id,
    lookup-assign s.next_call id (record { has_responder = true; service_name = q.service_name })
        s.calls,
  );
}

pub take-IsOnce :
    (id : ℕ) (r : Response) (o : Option PendingServiceCall) (s : CallState)
    → lookup id s.calls ≡ o
    → IsOnce s
    → IsOnce (take_and_respond id r o s)
unfolding take_and_respond
take-IsOnce id r none s e v = v
take-IsOnce id r (some call) s e v =
    if-elim IsOnce call.has_responder
      (λ present. record {
        once = λ j. ground (
          arith,
          v.once j,
          answered-append j s.responses ((id, r) ∷ []),
          nat_beq_iff id j,
          lookup-assign id j (record call { has_responder = false }) s.calls,
        );
        known = λ j h. ground (
          arith,
          v.known j,
          nat_beq_iff id j,
          lookup-assign id j (record call { has_responder = false }) s.calls,
        );
      })
      (λ taken. v)

pub sweep_collect-IsOnce : (now : ℕ) (s : CallState) → IsOnce s → IsOnce (sweep_collect now s)
unfolding sweep_collect
sweep_collect-IsOnce now s v = record { once = v.once; known = v.known }

expire-IsOnce : (ids : List ℕ) (s : CallState) → IsOnce s → IsOnce (expire ids s)
unfolding expire
expire-IsOnce [] s v = v
expire-IsOnce (id ∷ rest) s v =
    take-IsOnce id timed_out _ (record s { expired = rest }) refl
      (record { once = v.once; known = v.known })

-- What the threads do, one lock at a time.
pub data Step : Type 0 where
  requests : Services → ServiceRequest → ℕ → ℕ → Step
  returns : ℕ → Option Bytes → Step
  collects : ℕ → Step
  expires : Step

abbrev pub step : CallState → Step → CallState
step s (requests services q now timeout) = handle_service_request services s q now timeout
step s (returns id result) = worker_returns id result s
step s (collects now) = sweep_collect now s
step s expires = sweep_expire_one s

abbrev pub run : CallState → List Step → CallState
run s [] = s
run s (a ∷ steps) = run (step s a) steps

worker_returns-IsOnce :
    (id : ℕ) (o : Option Bytes) (s : CallState) → IsOnce s → IsOnce (worker_returns id o s)
unfolding worker_returns
worker_returns-IsOnce id none s v = take-IsOnce id call_failed _ s refl v
worker_returns-IsOnce id (some content) s v = take-IsOnce id (respond_ok content) _ s refl v

pub step-IsOnce : (s : CallState) (a : Step) → IsOnce s → IsOnce (step s a)
unfolding handle_service_request sweep_expire_one
step-IsOnce s (requests services q now timeout) v = place_call-IsOnce s q (now + timeout) _ v
step-IsOnce s (returns id result) v = worker_returns-IsOnce id result s v
step-IsOnce s (collects now) v = sweep_collect-IsOnce now s v
step-IsOnce s expires v = expire-IsOnce s.expired s v

-- From a state in which each request is pending or answered once, however requests, returning
-- workers and the sweep interleave, each request is again either still pending or has been
-- answered exactly once, by the guards, its worker or the sweep.
pub run-IsOnce : (s : CallState) (steps : List Step) → IsOnce s → IsOnce (run s steps)
run-IsOnce s [] v = v
run-IsOnce s (a ∷ steps) v = run-IsOnce (step s a) steps (step-IsOnce s a v)
