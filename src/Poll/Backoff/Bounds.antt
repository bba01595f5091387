-- ===== src/Poll/Backoff/Bounds.antt =====
-- How long the poll thread waits (src/ros1_foxglove_bridge.cpp).
use foxglove_bridge_ros.Prelude.{
  ℕ, ◌+◌, ◌-◌, ◌%◌, ◌^◌, ◌≤◌, ◌≡◌, Bool, true, false, min, max, List, [], ◌∷◌, if◌then◌else◌, arith,
}
use native.Mathlib.Nat.{pow-le-pow_right}
use foxglove_bridge_ros.Prelude.Int.{pos, negsuc, ◌+ℤ◌, leb_ℤ}
use foxglove_bridge_ros.Poll.Backoff.{
  PollState, update_period, poke_poll, before_wait, after_wait, on_connection_graph_subscribe,
}

pow_mono : (m n : ℕ) → m ≤ n → 2 ^ m ≤ 2 ^ n
pow_mono m n h = pow-le-pow_right (omega arith) h

pub update_period_bounds :
    (max_ms m n : ℕ)
    → m ≤ n
    → (100 ≤ update_period max_ms m)
      × (update_period max_ms m ≤ max 100 max_ms)
      × (update_period max_ms m ≤ update_period max_ms n)
      × (update_period max_ms (m + 32) ≡ update_period max_ms (n + 32))
unfolding update_period
update_period_bounds max_ms m n h = (
  omega arith,
  omega arith,
  ground (arith, pow_mono (min m 32) (min n 32) (omega arith)),
  ground arith,
)

-- The first six polls after a poke are 100 ms apart, whatever the maximum is.
pub update_period_first : (max_ms n : ℕ) → n ≤ 6 → update_period max_ms n ≡ 100
unfolding update_period
update_period_first max_ms n h = ground (arith, h, pow_mono n 6 h)

-- The requests of clients for the connection graph, `true` for a subscription, in any order.
unfoldable pub graph_requests : List Bool → PollState → PollState
graph_requests [] s = s
graph_requests (b ∷ rest) s = graph_requests rest (on_connection_graph_subscribe b s)

-- The count that clients mean: an unsubscription at 0 is ignored.
unfoldable pub wanted_count : List Bool → ℕ → ℕ
wanted_count [] n = n
wanted_count (true ∷ rest) n = wanted_count rest (n + 1)
wanted_count (false ∷ rest) n = wanted_count rest (n - 1)

raised : (n : ℕ) → pos n +ℤ pos 1 ≡ pos (n + 1)
raised n = ground arith

lowered :
    (n : ℕ)
    → (if leb_ℤ (pos n) (pos 0) then pos n +ℤ negsuc 0 +ℤ pos 1 else pos n +ℤ negsuc 0)
      ≡ pos (n - 1)
lowered n = ground arith

one_request :
    (b : Bool) (s : PollState) (n : ℕ)
    → s.graph_subscription_count ≡ pos n
    → (on_connection_graph_subscribe b s).graph_subscription_count ≡ pos (wanted_count (b ∷ []) n)
unfolding on_connection_graph_subscribe wanted_count poke_poll
one_request true s n e = rw e (raised n)
one_request false s n e = rw e (lowered n)

-- Handled one after the other, from a count that is not negative, any sequence of requests leaves
-- the count of graph subscriptions at what was asked for, where an unsubscription without a
-- subscription counts for nothing.
pub graph_requests-counts :
    (requests : List Bool) (s : PollState) (n : ℕ)
    → s.graph_subscription_count ≡ pos n
    → (graph_requests requests s).graph_subscription_count ≡ pos (wanted_count requests n)
unfolding graph_requests wanted_count
graph_requests-counts [] s n e = e
graph_requests-counts (true ∷ rest) s n e = graph_requests-counts rest _ _ (one_request true s n e)
graph_requests-counts (false ∷ rest) s n e =
    graph_requests-counts rest _ _ (one_request false s n e)

-- A poke while the thread waits, which every subscription to the graph makes, is used up and brings
-- the next wait down to 100 ms; without one the next wait is that of one poll more.
pub after_wait_restarts :
    (s : PollState)
    → ((after_wait s).poll_poke ≡ false)
      × ((before_wait (after_wait (on_connection_graph_subscribe true s))).1 ≡ 100)
      × ((before_wait (after_wait s)).1 ≡ (
          if s.poll_poke
          then 100
          else update_period s.max_update_period_ms ((s.update_count + 1) % 2 ^ 64)))
unfolding after_wait before_wait on_connection_graph_subscribe poke_poll
after_wait_restarts s = (
  ground arith,
  update_period_first s.max_update_period_ms 1 (omega arith),
  ground (arith, update_period_first s.max_update_period_ms 1 (omega arith)),
)
