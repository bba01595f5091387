-- ===== src/Channels/Sharing.antt =====
-- One ROS subscription for all clients of a channel, and the replay of latched messages
-- (src/ros1_foxglove_bridge.cpp).
use foxglove_bridge_ros.Prelude.{
  ℕ, ◌≡◌, refl, String, Bool, true, false, not, ◌&&◌, ◌||◌, Option, none, some, is_some, List, [],
  ◌∷◌, map, lookup, assign, contains, is_empty, if◌then◌else◌, ◌==◌, nat_eq, bool_eq, ◌↔◌, ◌⊎◌,
  string_eq, lookup-assign, lookup-remove, contains-insert, contains-erase, nat_beq_iff, arith,
  Bool-cases, Option-cases, if-elim, inl, inr, beq_refl,
}
use foxglove_bridge_ros.Channels.{
  Channel, CachedLatchedMessage, ChannelSubscription, ChannelState, Effect, log, fresh_subscription,
  add_client, drop_client, subscribed, on_subscribe, unsubscribed, on_unsubscribe,
  ros_message_handler, is_latching, caller_of,
}
use foxglove_bridge_ros.Channels.Invariant.{
  IsConsistent, on_subscribe-IsConsistent, on_unsubscribe-IsConsistent,
}

abbrev pub clients_of : Bool → ChannelSubscription → List ℕ
clients_of gw sub = if gw then sub.gateway_client_ids else sub.ws_client_ids

-- A client of one of the two transports is subscribed to a channel.
abbrev pub is_subscriber : ChannelState → ℕ → Bool → ℕ → Bool
is_subscriber s k gw client = elim (lookup k s.subscriptions) [
  | none ↦ false
  | some sub ↦ contains client (clients_of gw sub)
]

clients_of-add_client :
    (gw h : Bool) (c d : ℕ) (sub : ChannelSubscription)
    → contains d (clients_of h (add_client gw c sub))
      ≡ ((gw == h && c == d) || contains d (clients_of h sub))
unfolding add_client
clients_of-add_client gw h c d sub =
    ground
      (arith, contains-insert c d sub.ws_client_ids, contains-insert c d sub.gateway_client_ids)

clients_of-drop_client :
    (gw h : Bool) (c d : ℕ) (sub : ChannelSubscription)
    → contains d (clients_of h (drop_client gw c sub))
      ≡ (not (gw == h && c == d) && contains d (clients_of h sub))
unfolding drop_client
clients_of-drop_client gw h c d sub =
    ground (arith, contains-erase c d sub.ws_client_ids, contains-erase c d sub.gateway_client_ids)

subscribed-subscribers :
    (s : ChannelState) (ch : Channel) (o : Option ChannelSubscription) (k c : ℕ) (gw : Bool)
    (sink : Option ℕ) (j : ℕ) (h : Bool) (d : ℕ)
    → lookup k s.subscriptions ≡ o
    → is_subscriber (subscribed s ch o k c gw sink).0 j h d
      ≡ ((k == j && (gw == h && c == d)) || is_subscriber s j h d)
unfolding subscribed
subscribed-subscribers s ch none k c gw sink j h d e = ground (
  arith,
  nat_beq_iff k j,
  lookup-assign k j (add_client gw c (fresh_subscription ch.topic)) s.subscriptions,
  clients_of-add_client gw h c d (fresh_subscription ch.topic),
)
subscribed-subscribers s ch (some sub) k c gw sink j h d e = ground (
  arith,
  nat_beq_iff k j,
  lookup-assign k j (add_client gw c sub) s.subscriptions,
  clients_of-add_client gw h c d sub,
)

on_subscribe-subscribers :
    (s : ChannelState) (k c : ℕ) (gw : Bool) (sink : Option ℕ) (j : ℕ) (h : Bool) (d : ℕ)
    → is_subscriber (on_subscribe s k c gw sink).0 j h d ≡ (
        (is_some (lookup k s.channels) && (k == j && (gw == h && c == d))) || is_subscriber s j h d)
unfolding on_subscribe
on_subscribe-subscribers s k c gw sink j h d = elim (Option-cases (lookup k s.channels)) [
  | inl e ↦ rw (e, on_subscribe) (refl)
  | inr (ch, e) ↦ rw (e, on_subscribe) (subscribed-subscribers s ch _ k c gw sink j h d refl)
]

empty-contains : (d : ℕ) (xs : List ℕ) → is_empty xs ≡ true → contains d xs ≡ false
empty-contains d [] e = refl
empty-contains d (x ∷ xs) e = cc

unsubscribed-subscribers :
    (s : ChannelState) (o : Option ChannelSubscription) (k c : ℕ) (gw : Bool) (j : ℕ) (h : Bool)
    (d : ℕ)
    → lookup k s.subscriptions ≡ o
    → is_subscriber (unsubscribed s o k c gw).0 j h d
      ≡ (not (k == j && (gw == h && c == d)) && is_subscriber s j h d)
unfolding unsubscribed
unsubscribed-subscribers s none k c gw j h d e = ground (arith, nat_beq_iff k j)
unsubscribed-subscribers s (some sub) k c gw j h d e =
    let sub' = drop_client gw c sub in
    let dropped = clients_of-drop_client gw h c d sub in
    if-elim
      (λ (r : ChannelState × List Effect).
        is_subscriber r.0 j h d ≡ (not (k == j && (gw == h && c == d)) && is_subscriber s j h d))
      (is_empty sub'.ws_client_ids && is_empty sub'.gateway_client_ids)
      (λ none_left. ground (
        arith,
        nat_beq_iff k j,
        lookup-remove k j s.subscriptions,
        dropped,
        empty-contains d sub'.ws_client_ids,
        empty-contains d sub'.gateway_client_ids,
      ))
      (λ some_left.
        ground (arith, nat_beq_iff k j, lookup-assign k j sub' s.subscriptions, dropped))

on_unsubscribe-subscribers :
    (s : ChannelState) (k c : ℕ) (gw : Bool) (j : ℕ) (h : Bool) (d : ℕ)
    → is_subscriber (on_unsubscribe s k c gw).0 j h d
      ≡ (not (k == j && (gw == h && c == d)) && is_subscriber s j h d)
unfolding on_unsubscribe
on_unsubscribe-subscribers s k c gw j h d = unsubscribed-subscribers s _ k c gw j h d refl

-- Subscribing to a known channel adds this client of this transport to this channel's clients, and
-- on an unknown channel nothing changes; unsubscribing takes the client off the channel, if it is
-- there. Neither changes any other client's subscription.
pub requests-subscribers :
    (s : ChannelState) (k c : ℕ) (gw : Bool) (sink : Option ℕ) (j : ℕ) (h : Bool) (d : ℕ)
    → (is_subscriber (on_subscribe s k c gw sink).0 j h d ≡ (
        (is_some (lookup k s.channels) && (k == j && (gw == h && c == d)))
        || is_subscriber s j h d))
      × (is_subscriber (on_unsubscribe s k c gw).0 j h d
          ≡ (not (k == j && (gw == h && c == d)) && is_subscriber s j h d))
requests-subscribers s k c gw sink j h d =
    (on_subscribe-subscribers s k c gw sink j h d, on_unsubscribe-subscribers s k c gw j h d)

first_client : (xs : List ℕ) → is_empty xs ≡ false → (c : ℕ) × (contains c xs ≡ true)
first_client [] e = absurd (cc)
first_client (x ∷ xs) e = (x, ground (arith, beq_refl x))

same_transport : (gw : Bool) → (gw == gw) ≡ true
same_transport true = refl
same_transport false = refl

-- Where the maps are consistent, a channel with a ROS subscription is one with a client.
subscription-subscriber :
    (s : ChannelState) (k : ℕ)
    → IsConsistent s
    → (is_some (lookup k s.subscriptions) ≡ true)
      ↔ ((gw : Bool) × (c : ℕ) × (is_subscriber s k gw c ≡ true))
subscription-subscriber s k v = (needed, λ (gw, c, m). used gw c m)
  where
    used :
        (gw : Bool) (c : ℕ)
        → is_subscriber s k gw c ≡ true
        → is_some (lookup k s.subscriptions) ≡ true
    used gw c m = ground arith

    needed :
        is_some (lookup k s.subscriptions) ≡ true
        → (gw : Bool) × (c : ℕ) × (is_subscriber s k gw c ≡ true)
    needed e = elim (Option-cases (lookup k s.subscriptions)) [
      | inl f ↦ absurd (ground arith)
      | inr (sub, f) ↦ elim (Bool-cases (is_empty sub.ws_client_ids)) [
        | inr g ↦ let (c, m) = first_client sub.ws_client_ids g in (false, c, ground arith)
        | inl g ↦
            let (c, m) = first_client sub.gateway_client_ids (ground (arith, v.wanted k sub f)) in
            (true, c, ground arith)
      ]
    ]

-- Where the maps are consistent: once a client has unsubscribed from a channel, the bridge has a ROS
-- subscription for the channel exactly if another client, or one of the same id on the other
-- transport, was subscribed to it before; and once a client has subscribed, exactly if the channel is
-- known or a client was subscribed to it before.
pub ros_subscription_iff :
    (s : ChannelState) (k c : ℕ) (gw : Bool) (sink : Option ℕ)
    → IsConsistent s
    → ((is_some (lookup k (on_unsubscribe s k c gw).0.subscriptions) ≡ true)
        ↔ ((h : Bool) × (d : ℕ) × ((gw == h && c == d) ≡ false) × (is_subscriber s k h d ≡ true)))
      × ((is_some (lookup k (on_subscribe s k c gw sink).0.subscriptions) ≡ true) ↔ (
          (is_some (lookup k s.channels) ≡ true)
          ⊎ ((h : Bool) × (d : ℕ) × (is_subscriber s k h d ≡ true))))
ros_subscription_iff s k c gw sink v =
    let left =
      subscription-subscriber (on_unsubscribe s k c gw).0 k
        (on_unsubscribe-IsConsistent s k c gw v) in
    let joined =
      subscription-subscriber (on_subscribe s k c gw sink).0 k
        (on_subscribe-IsConsistent s k c gw sink v) in
    (
      (
        λ e.
            let (h, d, m) = left.0 e in
            let effect = on_unsubscribe-subscribers s k c gw k h d in
            (h, d, ground (arith, m, effect, beq_refl k), ground (arith, m, effect, beq_refl k)),
        λ (h, d, other, m).
            left.1 (h, d, ground (arith, other, m, on_unsubscribe-subscribers s k c gw k h d)),
      ),
      (
        λ e.
            let (h, d, m) = joined.0 e in
            let effect = on_subscribe-subscribers s k c gw sink k h d in
            elim (Bool-cases (is_some (lookup k s.channels))) [
              | inl known ↦ inl known
              | inr unknown ↦ inr (h, d, ground (arith, m, effect, unknown))
            ],
        λ o. elim o [
          | inl known ↦ joined.1 (
            gw,
            c,
            ground (
              arith,
              known,
              on_subscribe-subscribers s k c gw sink k gw c,
              beq_refl k,
              beq_refl c,
              same_transport gw,
            ),
          )
          | inr (h, d, m) ↦
              joined.1 (h, d, ground (arith, m, on_subscribe-subscribers s k c gw sink k h d))
        ],
      ),
    )

-- A client that joins with a sink, after a latched publisher's message on a channel that others
-- receive, is sent the cached messages: that message for its publisher, and each other
-- publisher's last one; and nothing is subscribed anew in ROS.
pub on_subscribe_replays :
    (s : ChannelState) (k : ℕ) (header : Option (List (String × String)))
    (message : CachedLatchedMessage) (ch : Channel) (sub : ChannelSubscription) (c sink : ℕ)
    (gw : Bool)
    → lookup k s.channels ≡ some ch
    → lookup k s.subscriptions ≡ some sub
    → is_latching header ≡ true
    → let after = (ros_message_handler s k header message).0 in
      (on_subscribe after k c gw (some sink)).1
      ≡ map
          (λ entry. log k entry.1 (some sink))
          (assign (caller_of header) message sub.latched_messages)
unfolding ros_message_handler on_subscribe
on_subscribe_replays s k header message ch sub c sink gw e f l = ground (
  arith,
  nat_beq_iff k k,
  lookup-assign k k
      (record sub { latched_messages = assign (caller_of header) message sub.latched_messages })
      s.subscriptions,
)
