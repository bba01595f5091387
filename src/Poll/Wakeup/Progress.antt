-- ===== src/Poll/Wakeup/Progress.antt =====
-- No wake-up is lost, and the poll thread ends (src/ros1_foxglove_bridge.cpp).
use foxglove_bridge_ros.Prelude.{
  ◌==◌, nat_eq, ℕ, suc, ◌-◌, ◌≤◌, ◌≡◌, ◌≢◌, refl, Bool, true, false, ◌&&◌, ◌||◌, arith,
}
use foxglove_bridge_ros.Poll.Backoff.{PollState, poke_poll, before_wait, after_wait}
use foxglove_bridge_ros.Poll.Wakeup.{
  PollPc, looping, cycling, locking, checking, dozing, sleeping, woken, resuming, finished, StopPc,
  running, notifying, joining, joined, Threads, wants_to_run, next_at, poll_move, notified, poke,
  poke_notify, stop, stop_notify, Step, polls, wakes, pokes, pokes_notify, stops, stops_notify,
  joins, ros_ends, Reach, here, next,
}

-- The destructor has sent its notification.
abbrev pub has_notified : StopPc → Bool
has_notified running = false
has_notified notifying = false
has_notified joining = true
has_notified joined = true

abbrev has_begun : StopPc → Bool
has_begun running = false
has_begun _ = true

record IsAwake (s : Threads) : Type 0 where
  flagged : s.shutting_down ≡ has_begun s.stopper
  stopping : has_notified s.stopper ≡ true → s.poll ≢ sleeping
  agreed : s.poll ≡ dozing → wants_to_run s ≡ false
  poked : s.state.poll_poke ≡ true → s.pending ≡ 0 → s.poll ≢ sleeping

next-IsAwake : (p : PollPc) (s : Threads) → s.poll ≡ p → IsAwake s → IsAwake (next_at p s)
unfolding next_at after_wait before_wait
next-IsAwake looping s e v = ground arith
next-IsAwake cycling s e v = ground arith
next-IsAwake locking s e v = ground arith
next-IsAwake checking s e v = ground arith
next-IsAwake dozing s e v = ground arith
next-IsAwake sleeping s e v = v
next-IsAwake (woken b) s e v = ground arith
next-IsAwake resuming s e v = ground arith
next-IsAwake finished s e v = v

notified-awake : (p : PollPc) → notified p ≢ sleeping
unfolding notified
notified-awake sleeping e = absurd (ground (arith, e))
notified-awake p e = absurd (ground (arith, e))

notified-dozing : (p : PollPc) → notified p ≡ dozing → p ≡ dozing
unfolding notified
notified-dozing p e = ground (arith, e)

Step-IsAwake : {s t : Threads} → Step s t → IsAwake s → IsAwake t
unfolding poll_move poke poke_notify stop stop_notify poke_poll
Step-IsAwake {s} polls v = next-IsAwake s.poll s refl v
Step-IsAwake {s} (wakes b e) v = ground arith
Step-IsAwake {s} (pokes h) v = ground (arith, v.stopping)
Step-IsAwake {s} (pokes_notify h) v = record {
  flagged = v.flagged;
  stopping = λ _. notified-awake s.poll;
  agreed = λ e. v.agreed (notified-dozing s.poll e);
  poked = λ _ _. notified-awake s.poll;
}
Step-IsAwake {s} (stops h e) v = ground arith
Step-IsAwake {s} (stops_notify e) v = record {
  flagged = ground (arith, e, v.flagged);
  stopping = λ _. notified-awake s.poll;
  agreed = λ e. v.agreed (notified-dozing s.poll e);
  poked = λ _ _. notified-awake s.poll;
}
Step-IsAwake {s} (joins e f) v = ground arith
Step-IsAwake {s} ros_ends v = record {
  flagged = v.flagged;
  stopping = v.stopping;
  agreed = v.agreed;
  poked = v.poked;
}

Reach-IsAwake :
    {state : PollState} {s : Threads} → state.poll_poke ≡ false → Reach state s → IsAwake s
Reach-IsAwake h here = ground (arith, h)
Reach-IsAwake h (next r st) = Step-IsAwake st (Reach-IsAwake h r)

-- Where the first poll is not poked yet: in every reachable state a poll thread that sleeps has
-- nothing to do. The destructor has not notified it, and if a poke is there to be served, then the
-- notification for it is still to come.
pub no_lost_wakeup :
    {state : PollState} {s : Threads}
    → state.poll_poke ≡ false
    → Reach state s
    → s.poll ≡ sleeping
    → has_notified s.stopper || (s.state.poll_poke && s.pending == 0) ≡ false
no_lost_wakeup {s} h r e = let v = Reach-IsAwake h r in ground (arith, v.stopping, v.poked)

-- A bound on the poll thread's own steps to its end, once it is to stop.
abbrev pub steps_left : PollPc → ℕ
steps_left looping = 1
steps_left cycling = 5
steps_left locking = 4
steps_left checking = 3
steps_left dozing = 6
steps_left sleeping = 6
steps_left (woken timed_out) = 4
steps_left resuming = 2
steps_left finished = 0

-- Any steps of all threads, of which `n` are the poll thread's own.
pub data Run (s : Threads) : ℕ → Threads → Type 0 where
  none : Run s 0 s
  own : {n : ℕ} {t : Threads} → Run s n t → Run s (suc n) (poll_move t)
  other : {n : ℕ} {t u : Threads} → Run s n t → Step t u → Run s n u

-- The destructor has notified: the flag is up, and the poll thread neither sleeps nor is about to.
record IsEnding (s : Threads) : Type 0 where
  flagged : s.shutting_down ≡ true
  told : has_notified s.stopper ≡ true
  near : steps_left s.poll ≤ 5

IsAwake-IsEnding : (s : Threads) → IsAwake s → has_notified s.stopper ≡ true → IsEnding s
IsAwake-IsEnding s v h = record {
  flagged = ground (arith, v.flagged, h);
  told = h;
  near = ground (arith, v.flagged, v.agreed, v.stopping, h);
}

next-steps_left :
    (p : PollPc) (s : Threads)
    → s.poll ≡ p
    → s.shutting_down ≡ true
    → steps_left p ≤ 5
    → steps_left (next_at p s).poll ≤ steps_left p - 1
unfolding next_at
next-steps_left looping s e f h = ground arith
next-steps_left p s e f h = ground arith

next-told :
    (p : PollPc) (s : Threads)
    → ((next_at p s).shutting_down ≡ s.shutting_down) × ((next_at p s).stopper ≡ s.stopper)
unfolding next_at
next-told p s = ground arith

notified-steps_left : (p : PollPc) → steps_left p ≤ 5 → steps_left (notified p) ≤ steps_left p
unfolding notified
notified-steps_left p h = ground arith

-- No step of any thread takes the poll thread further from its end.
Step-steps_left :
    {s t : Threads} → Step s t → IsEnding s → IsEnding t × (steps_left t.poll ≤ steps_left s.poll)
unfolding poll_move poke poke_notify stop stop_notify
Step-steps_left {s} polls v =
    let less = next-steps_left s.poll s refl v.flagged v.near in
    (
      record {
        flagged = ground (arith, next-told s.poll s, v.flagged);
        told = ground (arith, next-told s.poll s, v.told);
        near = omega (arith, less, v.near);
      },
      omega (arith, less),
    )
Step-steps_left {s} (wakes b e) v = ground (arith, v.near)
Step-steps_left {s} (pokes h) v = ground arith
Step-steps_left {s} (pokes_notify h) v = ground (arith, v.told, notified-steps_left s.poll v.near)
Step-steps_left {s} (stops h e) v = ground (arith, v.told)
Step-steps_left {s} (stops_notify e) v = ground (arith, e, v.told)
Step-steps_left {s} (joins e f) v = ground arith
Step-steps_left {s} ros_ends v = ground arith

Run-steps_left :
    {s t : Threads} {n : ℕ} → Run s n t → IsEnding s → IsEnding t × (steps_left t.poll ≤ 5 - n)
unfolding poll_move
Run-steps_left none v = (v, v.near)
Run-steps_left (own {n} {t} r) v =
    let (w, bound) = Run-steps_left r v in
    let less = next-steps_left t.poll t refl w.flagged w.near in
    ((Step-steps_left polls w).0, omega (arith, bound, less))
Run-steps_left (other {n} {t} r st) v =
    let (w, bound) = Run-steps_left r v in
    let (w', less) = Step-steps_left st w in (w', omega (arith, bound, less))

-- Once the destructor has notified, the poll thread returns after at most five steps of its own,
-- whatever the other threads do in between, so the destructor's join ends. This counts one step for
-- the poll that may be under way.
pub shutdown_ends :
    {state : PollState} {s t : Threads} {n : ℕ}
    → state.poll_poke ≡ false
    → Reach state s
    → has_notified s.stopper ≡ true
    → Run s n t
    → 5 ≤ n
    → t.poll ≡ finished
shutdown_ends {s = s} {t = t} {n = n} h r told trace many =
    let (v, bound) = Run-steps_left trace (IsAwake-IsEnding s (Reach-IsAwake h r) told) in
    ground (arith, bound, many)
