-- ===== src/Poll/Backoff.antt =====
-- The end of the loop of `pollThread`, `pokePoll` and `onConnectionGraphSubscribe`
-- (src/ros1_foxglove_bridge.cpp).
pub mod Bounds
use foxglove_bridge_ros.Prelude.{
  ℕ, suc, ◌+◌, ◌%◌, ◌^◌, Bool, true, false, min, max, if◌then◌else◌, arith,
}
use foxglove_bridge_ros.Prelude.Int.{ℤ, pos, negsuc, ◌+ℤ◌, leb_ℤ}

abbrev pub min_update_period_ms : ℕ
min_update_period_ms = 100

-- `_graphSubscriptionCount`, `_pollPoke`, `updateCount` and `_maxUpdatePeriodMs`.
pub record PollState : Type 0 where
  pub graph_subscription_count : ℤ
  pub poll_poke : Bool
  pub update_count : ℕ
  pub max_update_period_ms : ℕ

unfoldable pub update_period : ℕ → ℕ → ℕ
update_period max_ms update_count =
    let shift = min update_count 32 in max min_update_period_ms (min (2 ^ shift) max_ms)

unfoldable pub poke_poll : PollState → PollState
poke_poll s = record s { poll_poke = true }

-- `++updateCount`, and the time that the thread waits for.
unfoldable pub before_wait : PollState → PollState × ℕ
unfolding update_period
before_wait s =
    let count = (s.update_count + 1) % 2 ^ 64 in
    (record s { update_count = count }, update_period s.max_update_period_ms count)

-- After the wait a poke is consumed, and restarts the backoff.
unfoldable pub after_wait : PollState → PollState
after_wait s = if s.poll_poke then record s { poll_poke = false; update_count = 0 } else s

-- `fetch_sub` gives the old count; where that is not positive, the count is put back.
unfoldable pub on_connection_graph_subscribe : Bool → PollState → PollState
unfolding poke_poll
on_connection_graph_subscribe true s =
    poke_poll (record s { graph_subscription_count = s.graph_subscription_count +ℤ pos 1 })
on_connection_graph_subscribe false s =
    let old = s.graph_subscription_count in
    let lowered = old +ℤ negsuc 0 in
    record s { graph_subscription_count = if leb_ℤ old (pos 0) then lowered +ℤ pos 1 else lowered }
