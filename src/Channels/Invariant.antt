-- ===== src/Channels/Invariant.antt =====
-- What the maps of src/ros1_foxglove_bridge.cpp agree on between calls.
use foxglove_bridge_ros.Prelude.{
  ℕ, ◌≡◌, ◌∙◌, refl, String, Bool, true, not, ◌&&◌, ◌||◌, Option, none, some, is_some, List, lookup,
  assign, remove, erase, contains, is_empty, ◌==◌, nat_eq, lookup-assign, lookup-remove,
  contains-insert, contains-erase, is_empty-insert, nat_beq_iff, arith, Option-cases, if-elim, inl,
  inr,
}
use foxglove_bridge_ros.Channels.{
  Channel, CachedLatchedMessage, ChannelSubscription, ChannelState, fresh_subscription, add_client,
  drop_client, subscribed, on_subscribe, unsubscribed, on_unsubscribe, cache_latched,
  ros_message_handler, is_latching, caller_of, Effect,
}

abbrev pub has_clients : ChannelSubscription → Bool
has_clients sub = not (is_empty sub.ws_client_ids && is_empty sub.gateway_client_ids)

-- A channel stands under its own id. A subscription belongs to a channel that is there, is to that
-- channel's topic, and has a client; a latched channel has a subscription.
pub record IsConsistent (s : ChannelState) : Type 0 where
  pub keyed : (k : ℕ) (ch : Channel) → lookup k s.channels ≡ some ch → ch.id ≡ k
  pub backed :
      (k : ℕ) (sub : ChannelSubscription)
      → lookup k s.subscriptions ≡ some sub
      → is_some (lookup k s.channels) ≡ true
  pub on_topic :
      (k : ℕ) (sub : ChannelSubscription) (ch : Channel)
      → lookup k s.subscriptions ≡ some sub
      → lookup k s.channels ≡ some ch
      → sub.ros_topic ≡ ch.topic
  pub wanted :
      (k : ℕ) (sub : ChannelSubscription)
      → lookup k s.subscriptions ≡ some sub
      → has_clients sub ≡ true
  pub cached :
      (k : ℕ) → contains k s.latched_channels ≡ true → is_some (lookup k s.subscriptions) ≡ true

add_client-has_clients :
    (gw : Bool) (client : ℕ) (sub : ChannelSubscription)
    → has_clients (add_client gw client sub) ≡ true
unfolding add_client
add_client-has_clients gw client sub =
    ground (
      arith,
      is_empty-insert client sub.ws_client_ids,
      is_empty-insert client sub.gateway_client_ids,
    )

add_client-topic :
    (gw : Bool) (client : ℕ) (sub : ChannelSubscription)
    → (add_client gw client sub).ros_topic ≡ sub.ros_topic
unfolding add_client
add_client-topic gw client sub = ground arith

-- A subscription that has clients and is to the channel's topic may be written.
assign-IsConsistent :
    (s : ChannelState) (k : ℕ) (ch : Channel) (sub : ChannelSubscription) (latched : List ℕ)
    → lookup k s.channels ≡ some ch
    → sub.ros_topic ≡ ch.topic
    → has_clients sub ≡ true
    → ((j : ℕ) → contains j latched ≡ true → (k == j) || contains j s.latched_channels ≡ true)
    → IsConsistent s
    → IsConsistent
        (record s { subscriptions = assign k sub s.subscriptions; latched_channels = latched })
assign-IsConsistent s k ch sub latched there topic clients some_latched v = record {
  keyed = v.keyed;
  backed = λ j sub' e.
      ground (arith, v.backed j sub', nat_beq_iff k j, lookup-assign k j sub s.subscriptions);
  on_topic = λ j sub' ch' e f.
      ground (arith, v.on_topic j sub' ch', nat_beq_iff k j, lookup-assign k j sub s.subscriptions);
  wanted = λ j sub' e. ground (arith, v.wanted j sub', lookup-assign k j sub s.subscriptions);
  cached =
      λ j e. ground (arith, v.cached j, some_latched j e, lookup-assign k j sub s.subscriptions);
}

subscribed-IsConsistent :
    (s : ChannelState) (ch : Channel) (o : Option ChannelSubscription) (k client : ℕ) (gw : Bool)
    (sink : Option ℕ)
    → lookup k s.channels ≡ some ch
    → lookup k s.subscriptions ≡ o
    → IsConsistent s
    → IsConsistent (subscribed s ch o k client gw sink).0
unfolding subscribed
subscribed-IsConsistent s ch none k client gw sink there e v =
    assign-IsConsistent s k ch (add_client gw client (fresh_subscription ch.topic))
      s.latched_channels there (add_client-topic gw client (fresh_subscription ch.topic))
      (add_client-has_clients gw client (fresh_subscription ch.topic))
      (λ j h. ground (arith, v.cached j h)) v
subscribed-IsConsistent s ch (some sub) k client gw sink there e v =
    assign-IsConsistent s k ch _ s.latched_channels there
      (add_client-topic gw client sub ∙ v.on_topic k sub ch e there)
      (add_client-has_clients gw client _) (λ j h. ground (arith, v.cached j h)) v

-- A client's subscription keeps consistent maps consistent, on known channels and unknown ones.
pub on_subscribe-IsConsistent :
    (s : ChannelState) (k client : ℕ) (gw : Bool) (sink : Option ℕ)
    → IsConsistent s
    → IsConsistent (on_subscribe s k client gw sink).0
unfolding on_subscribe
on_subscribe-IsConsistent s k client gw sink v = elim (Option-cases (lookup k s.channels)) [
  | inl e ↦ rw (e, on_subscribe) v
  | inr (ch, e) ↦ rw (e, on_subscribe) (subscribed-IsConsistent s ch _ k client gw sink e refl v)
]

remove-IsConsistent :
    (s : ChannelState) (k : ℕ)
    → IsConsistent s
    → IsConsistent (record s {
      subscriptions = remove k s.subscriptions;
      latched_channels = erase k s.latched_channels;
    })
remove-IsConsistent s k v = record {
  keyed = v.keyed;
  backed = λ j sub e. ground (arith, v.backed j sub, lookup-remove k j s.subscriptions);
  on_topic = λ j sub ch e f. ground (arith, v.on_topic j sub ch, lookup-remove k j s.subscriptions);
  wanted = λ j sub e. ground (arith, v.wanted j sub, lookup-remove k j s.subscriptions);
  cached = λ j e.
      ground (
        arith,
        v.cached j,
        lookup-remove k j s.subscriptions,
        contains-erase k j s.latched_channels,
      );
}

backing :
    (s : ChannelState) (k : ℕ) (sub : ChannelSubscription)
    → IsConsistent s
    → lookup k s.subscriptions ≡ some sub
    → (ch : Channel) × (lookup k s.channels ≡ some ch) × (sub.ros_topic ≡ ch.topic)
backing s k sub v e = elim (Option-cases (lookup k s.channels)) [
  | inl f ↦ absurd (ground (arith, v.backed k sub e))
  | inr (ch, f) ↦ (ch, f, v.on_topic k sub ch e f)
]

drop_client-topic :
    (gw : Bool) (client : ℕ) (sub : ChannelSubscription)
    → (drop_client gw client sub).ros_topic ≡ sub.ros_topic
unfolding drop_client
drop_client-topic gw client sub = ground arith

unsubscribed-IsConsistent :
    (s : ChannelState) (o : Option ChannelSubscription) (k client : ℕ) (gw : Bool)
    → lookup k s.subscriptions ≡ o
    → IsConsistent s
    → IsConsistent (unsubscribed s o k client gw).0
unfolding unsubscribed
unsubscribed-IsConsistent s none k client gw e v = v
unsubscribed-IsConsistent s (some sub) k client gw e v =
    let sub' = drop_client gw client sub in
    let (ch, there, topic) = backing s k sub v e in
    if-elim (λ (r : ChannelState × List Effect). IsConsistent r.0)
      (is_empty sub'.ws_client_ids && is_empty sub'.gateway_client_ids)
      (λ _. remove-IsConsistent s k v)
      (λ some_left.
        assign-IsConsistent s k ch sub' s.latched_channels there
          (drop_client-topic gw client sub ∙ topic) (ground (arith, some_left))
          (λ j h. ground (arith, v.cached j h)) v)

-- A client's unsubscription keeps consistent maps consistent, whether or not other clients stay.
pub on_unsubscribe-IsConsistent :
    (s : ChannelState) (k client : ℕ) (gw : Bool)
    → IsConsistent s
    → IsConsistent (on_unsubscribe s k client gw).0
unfolding on_unsubscribe
on_unsubscribe-IsConsistent s k client gw v = unsubscribed-IsConsistent s _ k client gw refl v

cache_latched-IsConsistent :
    (s : ChannelState) (o : Option ChannelSubscription) (k : ℕ) (caller : String)
    (message : CachedLatchedMessage)
    → lookup k s.subscriptions ≡ o
    → IsConsistent s
    → IsConsistent (cache_latched s o k caller message)
unfolding cache_latched
cache_latched-IsConsistent s none k caller message e v = v
cache_latched-IsConsistent s (some sub) k caller message e v =
    let (ch, there, topic) = backing s k sub v e in
    assign-IsConsistent s k ch _ _ there topic (v.wanted k sub e)
      (λ j h. ground (arith, h, contains-insert k j s.latched_channels)) v

-- A message from ROS, latched or not, keeps consistent maps consistent.
pub ros_message_handler-IsConsistent :
    (s : ChannelState) (k : ℕ) (header : Option (List (String × String)))
    (message : CachedLatchedMessage)
    → IsConsistent s
    → IsConsistent (ros_message_handler s k header message).0
unfolding ros_message_handler
ros_message_handler-IsConsistent s k header message v = elim (Option-cases (lookup k s.channels)) [
  | inl e ↦ rw (e, ros_message_handler) v
  | inr (ch, e) ↦
      rw (e, ros_message_handler)
        (if-elim IsConsistent (is_latching header)
          (λ _. cache_latched-IsConsistent s _ k (caller_of header) message refl v) (λ _. v))
]
