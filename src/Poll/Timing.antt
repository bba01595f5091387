-- ===== src/Poll/Timing.antt =====
-- The rounds of `pollThread` of src/ros1_foxglove_bridge.cpp by the clock, in milliseconds: how late
-- its sweep finds an overdue service call.
pub mod Answered
use foxglove_bridge_ros.Prelude.{
  ℕ, ◌+◌, ◌%◌, ◌^◌, ◌≤◌, ◌<◌, ◌≡◌, refl, ap, ◌∙◌, Bool, true, false, not, ◌&&◌, ◌||◌, Option, none,
  some, List, [], ◌∷◌, ◌++◌, lookup, contains, any, min, max, leb, leb→le, All, nat_eq, string_eq,
  nat_beq_iff, if◌then◌else◌, Bool-cases, inl, inr, arith,
}
use foxglove_bridge_ros.Poll.Backoff.{PollState, update_period, poke_poll, before_wait, after_wait}
use foxglove_bridge_ros.Poll.Backoff.Bounds.{update_period_bounds}
use foxglove_bridge_ros.Services.Advertised.{Services}
use foxglove_bridge_ros.Services.Calls.{
  PendingServiceCall, CallState, ServiceRequest, GenericService, started, check_request,
  handle_service_request, timed_out, take_and_respond, is_pending, sweep_collect, sweep_expire_all,
  sweep_expired_service_calls,
}
use foxglove_bridge_ros.Services.Calls.Once.{
  IsOnce, sweep_collect-IsOnce, answered, Step, requests, run, run-IsOnce, step-IsOnce,
}
use foxglove_bridge_ros.Services.Calls.Deadline.{
  Watches, Follows, due, placed, sweep_answers, take-watched, expire_all-pending, expire_all-IsOnce,
  collect-Watches, run-Follows,
}

pub record LoopState : Type 0 where
  pub now : ℕ
  pub poll : PollState
  pub calls : CallState

-- What is open about a round: how long its queries and updates take, what the other threads do
-- before its sweep and while it waits, and when a poke or nothing ends the wait.
pub record Round : Type 0 where
  pub work_ms : ℕ
  pub before_sweep : List Step
  pub woken_after_ms : ℕ
  pub poked : Bool
  pub while_waiting : List Step

-- A round up to the end of its sweep.
unfoldable pub to_sweep : Round → LoopState → LoopState
to_sweep r s =
    let swept_at = s.now + r.work_ms in
    record s {
      now = swept_at;
      calls = sweep_expired_service_calls swept_at (run s.calls r.before_sweep);
    }

-- `wait_for` lasts for the period, or less where the thread is woken.
unfoldable pub to_next : Round → LoopState → LoopState
to_next r s =
    let (poll, period) = before_wait s.poll in
    record {
      now = s.now + min r.woken_after_ms period;
      poll = after_wait (if r.poked then poke_poll poll else poll);
      calls = run s.calls r.while_waiting;
    }

unfoldable pub loop : List Round → LoopState → LoopState
unfolding to_sweep to_next
loop [] s = s
loop (r ∷ rounds) s = loop rounds (to_next r (to_sweep r s))
