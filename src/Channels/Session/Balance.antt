-- ===== src/Channels/Session/Balance.antt =====
-- Counting the ROS subscriptions that src/ros1_foxglove_bridge.cpp makes and releases.
use foxglove_bridge_ros.Prelude.{
  ℕ, ◌+◌, ◌≡◌, refl, String, Bool, true, ◌&&◌, Option, none, some, List, [], ◌∷◌, ◌++◌, lookup,
  assign, unique, weigh, weigh-assign, weigh-remove, is_empty, if◌then◌else◌, ◌==◌, nat_eq,
  string_eq, arith, Option-cases, if-elim, inl, inr,
}
use foxglove_bridge_ros.Channels.{
  Channel, ChannelSubscription, CachedLatchedMessage, ChannelState, Effect, ros_subscribe,
  ros_release, log, close, advertise, fresh_subscription, add_client, drop_client, replay,
  subscribed, on_subscribe, unsubscribed, on_unsubscribe, cache_latched, ros_message_handler,
  caller_of,
}

abbrev pub total {ℓ} : {A : Type ℓ} → (A → ℕ) → List A → ℕ
total f [] = 0
total f (a ∷ rest) = f a + total f rest

pub total-append {ℓ} :
    {A : Type ℓ} (f : A → ℕ) (xs ys : List A) → total f (xs ++ ys) ≡ total f xs + total f ys
total-append f [] ys = omega arith
total-append f (x ∷ xs) ys = omega (arith, total-append f xs ys)

-- One for a new ROS subscription to the topic.
abbrev pub subscribes_to : String → Effect → ℕ
subscribes_to topic (ros_subscribe t) = if t == topic then 1 else 0
subscribes_to topic (ros_release t) = 0
subscribes_to topic (log k message sink) = 0
subscribes_to topic (close k) = 0
subscribes_to topic (advertise k t schema) = 0

-- One for a released ROS subscription to the topic.
abbrev pub releases_of : String → Effect → ℕ
releases_of topic (ros_subscribe t) = 0
releases_of topic (ros_release t) = if t == topic then 1 else 0
releases_of topic (log k message sink) = 0
releases_of topic (close k) = 0
releases_of topic (advertise k t schema) = 0

abbrev pub is_to : String → ChannelSubscription → ℕ
is_to topic sub = if sub.ros_topic == topic then 1 else 0

-- The ROS subscriptions to the topic that the bridge holds.
abbrev pub held : String → ChannelState → ℕ
held topic s = weigh (is_to topic) s.subscriptions

-- Every ROS subscription to the topic that a call makes is held after it, and one that it no
-- longer holds is released.
abbrev pub IsBalanced : String → ChannelState → ChannelState × List Effect → Type 0
IsBalanced topic s result =
    total (subscribes_to topic) result.1 + held topic s
    ≡ total (releases_of topic) result.1 + held topic result.0

replay-total :
    (f : Effect → ℕ) (k : ℕ) (sink : Option ℕ) (cached : List (String × CachedLatchedMessage))
    → ((message : CachedLatchedMessage) (o : Option ℕ) → f (log k message o) ≡ 0)
    → total f (replay k sink cached) ≡ 0
unfolding replay
replay-total f k none cached h = refl
replay-total f k (some sink) [] h = refl
replay-total f k (some sink) (entry ∷ cached) h =
    omega (arith, h entry.1 (some sink), replay-total f k (some sink) cached h)

module _ (topic : String) where
  add_client-is_to :
      (gw : Bool) (client : ℕ) (sub : ChannelSubscription)
      → is_to topic (add_client gw client sub) ≡ is_to topic sub
  unfolding add_client
  add_client-is_to gw client sub = ground arith

  drop_client-is_to :
      (gw : Bool) (client : ℕ) (sub : ChannelSubscription)
      → is_to topic (drop_client gw client sub) ≡ is_to topic sub
  unfolding drop_client
  drop_client-is_to gw client sub = ground arith

  subscribed-IsBalanced :
      (s : ChannelState) (ch : Channel) (o : Option ChannelSubscription) (k client : ℕ) (gw : Bool)
      (sink : Option ℕ)
      → lookup k s.subscriptions ≡ o
      → IsBalanced topic s (subscribed s ch o k client gw sink)
  unfolding subscribed
  subscribed-IsBalanced s ch none k client gw sink e = ground (
    arith,
    e,
    weigh-assign (is_to topic) k (add_client gw client (fresh_subscription ch.topic))
        s.subscriptions,
    add_client-is_to gw client (fresh_subscription ch.topic),
  )
  subscribed-IsBalanced s ch (some sub) k client gw sink e = ground (
    arith,
    e,
    weigh-assign (is_to topic) k (add_client gw client sub) s.subscriptions,
    add_client-is_to gw client sub,
    replay-total (subscribes_to topic) k sink sub.latched_messages (λ m o. refl),
    replay-total (releases_of topic) k sink sub.latched_messages (λ m o. refl),
  )

  pub on_subscribe-IsBalanced :
      (s : ChannelState) (k client : ℕ) (gw : Bool) (sink : Option ℕ)
      → IsBalanced topic s (on_subscribe s k client gw sink)
  unfolding on_subscribe
  on_subscribe-IsBalanced s k client gw sink = elim (Option-cases (lookup k s.channels)) [
    | inl e ↦ rw (e, on_subscribe) refl
    | inr (ch, e) ↦ rw (e, on_subscribe) (subscribed-IsBalanced s ch _ k client gw sink refl)
  ]

  unsubscribed-IsBalanced :
      (s : ChannelState) (o : Option ChannelSubscription) (k client : ℕ) (gw : Bool)
      → lookup k s.subscriptions ≡ o
      → unique s.subscriptions ≡ true
      → IsBalanced topic s (unsubscribed s o k client gw)
  unfolding unsubscribed
  unsubscribed-IsBalanced s none k client gw e u = refl
  unsubscribed-IsBalanced s (some sub) k client gw e u =
      let sub' = drop_client gw client sub in
      if-elim (IsBalanced topic s) (is_empty sub'.ws_client_ids && is_empty sub'.gateway_client_ids)
        (λ _. ground (arith, e, weigh-remove (is_to topic) k s.subscriptions u))
        (λ _. ground (
          arith,
          e,
          weigh-assign (is_to topic) k sub' s.subscriptions,
          drop_client-is_to gw client sub,
        ))

  pub on_unsubscribe-IsBalanced :
      (s : ChannelState) (k client : ℕ) (gw : Bool)
      → unique s.subscriptions ≡ true
      → IsBalanced topic s (on_unsubscribe s k client gw)
  unfolding on_unsubscribe
  on_unsubscribe-IsBalanced s k client gw u = unsubscribed-IsBalanced s _ k client gw refl u

  unsubscribed-subscribes :
      (s : ChannelState) (o : Option ChannelSubscription) (k client : ℕ) (gw : Bool)
      → total (subscribes_to topic) (unsubscribed s o k client gw).1 ≡ 0
  unfolding unsubscribed
  unsubscribed-subscribes s none k client gw = refl
  unsubscribed-subscribes s (some sub) k client gw =
      let sub' = drop_client gw client sub in
      if-elim (λ (r : ChannelState × List Effect). total (subscribes_to topic) r.1 ≡ 0)
        (is_empty sub'.ws_client_ids && is_empty sub'.gateway_client_ids) (λ _. refl) (λ _. refl)

  pub on_unsubscribe-subscribes :
      (s : ChannelState) (k client : ℕ) (gw : Bool)
      → total (subscribes_to topic) (on_unsubscribe s k client gw).1 ≡ 0
  unfolding on_unsubscribe
  on_unsubscribe-subscribes s k client gw = unsubscribed-subscribes s _ k client gw

  cache_latched-held :
      (s : ChannelState) (o : Option ChannelSubscription) (k : ℕ) (caller : String)
      (message : CachedLatchedMessage)
      → lookup k s.subscriptions ≡ o
      → held topic (cache_latched s o k caller message) ≡ held topic s
  unfolding cache_latched
  cache_latched-held s none k caller message e = refl
  cache_latched-held s (some sub) k caller message e = ground (
    arith,
    e,
    weigh-assign (is_to topic) k
        (record sub { latched_messages = assign caller message sub.latched_messages })
        s.subscriptions,
  )

  pub ros_message_handler-IsBalanced :
      (s : ChannelState) (k : ℕ) (header : Option (List (String × String)))
      (message : CachedLatchedMessage)
      → IsBalanced topic s (ros_message_handler s k header message)
  unfolding ros_message_handler
  ros_message_handler-IsBalanced s k header message = elim (Option-cases (lookup k s.channels)) [
    | inl e ↦ rw (e, ros_message_handler) refl
    | inr (ch, e) ↦
        rw (e, ros_message_handler)
          (ground (
            arith,
            cache_latched-held s (lookup k s.subscriptions) k (caller_of header) message refl,
          ))
  ]
