-- ===== src/Channels/Session/Callbacks.antt =====
-- What the callbacks of src/ros1_foxglove_bridge.cpp leave as it was: `onSubscribe`, `onUnsubscribe`
-- and `rosMessageHandler`.
use foxglove_bridge_ros.Prelude.{
  ℕ, ◌≡◌, refl, String, Bool, true, ◌&&◌, Option, none, some, List, lookup, unique, unique-assign,
  unique-remove, is_empty, nat_eq, string_eq, Option-cases, if-elim, inl, inr,
}
use foxglove_bridge_ros.Channels.{
  Channel, ChannelSubscription, CachedLatchedMessage, ChannelState, Effect, drop_client, subscribed,
  on_subscribe, unsubscribed, on_unsubscribe, cache_latched, ros_message_handler, is_latching,
  caller_of,
}

-- A callback leaves the channels alone and keeps each subscription once.
abbrev pub IsCallback : ChannelState → ChannelState → Type 0
IsCallback s t =
    (t.channels ≡ s.channels) × (unique s.subscriptions ≡ true → unique t.subscriptions ≡ true)

subscribed-IsCallback :
    (s : ChannelState) (ch : Channel) (o : Option ChannelSubscription) (k client : ℕ) (gw : Bool)
    (sink : Option ℕ)
    → IsCallback s (subscribed s ch o k client gw sink).0
unfolding subscribed
subscribed-IsCallback s ch none k client gw sink = (refl, unique-assign k _ s.subscriptions)
subscribed-IsCallback s ch (some sub) k client gw sink = (refl, unique-assign k _ s.subscriptions)

pub on_subscribe-IsCallback :
    (s : ChannelState) (k client : ℕ) (gw : Bool) (sink : Option ℕ)
    → IsCallback s (on_subscribe s k client gw sink).0
unfolding on_subscribe
on_subscribe-IsCallback s k client gw sink = elim (Option-cases (lookup k s.channels)) [
  | inl e ↦ rw (e, on_subscribe) (refl, λ u. u)
  | inr (ch, e) ↦ rw (e, on_subscribe) (subscribed-IsCallback s ch _ k client gw sink)
]

unsubscribed-IsCallback :
    (s : ChannelState) (o : Option ChannelSubscription) (k client : ℕ) (gw : Bool)
    → IsCallback s (unsubscribed s o k client gw).0
unfolding unsubscribed
unsubscribed-IsCallback s none k client gw = (refl, λ u. u)
unsubscribed-IsCallback s (some sub) k client gw =
    let sub' = drop_client gw client sub in
    if-elim (λ (x : ChannelState × List Effect). IsCallback s x.0)
      (is_empty sub'.ws_client_ids && is_empty sub'.gateway_client_ids)
      (λ _. (refl, unique-remove k s.subscriptions))
      (λ _. (refl, unique-assign k sub' s.subscriptions))

pub on_unsubscribe-IsCallback :
    (s : ChannelState) (k client : ℕ) (gw : Bool) → IsCallback s (on_unsubscribe s k client gw).0
unfolding on_unsubscribe
on_unsubscribe-IsCallback s k client gw = unsubscribed-IsCallback s _ k client gw

cache_latched-IsCallback :
    (s : ChannelState) (o : Option ChannelSubscription) (k : ℕ) (caller : String)
    (message : CachedLatchedMessage)
    → IsCallback s (cache_latched s o k caller message)
unfolding cache_latched
cache_latched-IsCallback s none k caller message = (refl, λ u. u)
cache_latched-IsCallback s (some sub) k caller message = (refl, unique-assign k _ s.subscriptions)

pub ros_message_handler-IsCallback :
    (s : ChannelState) (k : ℕ) (header : Option (List (String × String)))
    (message : CachedLatchedMessage)
    → IsCallback s (ros_message_handler s k header message).0
unfolding ros_message_handler
ros_message_handler-IsCallback s k header message = elim (Option-cases (lookup k s.channels)) [
  | inl e ↦ rw (e, ros_message_handler) (refl, λ u. u)
  | inr (ch, e) ↦
      rw (e, ros_message_handler)
        (if-elim (IsCallback s) (is_latching header)
          (λ _. cache_latched-IsCallback s _ k (caller_of header) message) (λ _. (refl, λ u. u)))
]
