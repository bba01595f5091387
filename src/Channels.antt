-- ===== src/Channels.antt =====
-- The channel side of src/ros1_foxglove_bridge.cpp: `onSubscribe`, `onUnsubscribe`,
-- `rosMessageHandler` and `updateAdvertisedTopics` over the maps that `_subscriptionsMutex` and
-- `_latchedChannelsMutex` guard. Each call is one step of the state; what it does outside the
-- bridge is the list of effects that it returns.
pub mod Discovery
pub mod Invariant
pub mod Qos
pub mod Session
pub mod Sharing
use foxglove_bridge_ros.Prelude.{
  ℕ, String, Bool, true, false, not, ◌&&◌, Option, none, some, List, [], ◌∷◌, ◌++◌, map, lookup,
  assign, emplace, remove, insert, erase, contains, is_empty, if◌then◌else◌, ◌==◌, nat_eq,
  string_eq, or_else,
}

abbrev pub Bytes : Type 0
Bytes = List ℕ

-- `foxglove::RawChannel`: the name of the schema is absent where the channel has no schema.
pub record Channel : Type 0 where
  pub id : ℕ
  pub topic : String
  pub schema : Option String

pub record CachedLatchedMessage : Type 0 where
  pub content : Bytes
  pub timestamp : ℕ

-- The ROS subscription is to `ros_topic`.
pub record ChannelSubscription : Type 0 where
  pub ros_topic : String
  pub ws_client_ids : List ℕ
  pub gateway_client_ids : List ℕ
  pub latched_messages : List (String × CachedLatchedMessage)

pub record ChannelState : Type 0 where
  pub latched_channels : List ℕ
  pub channels : List (ℕ × Channel)
  pub subscriptions : List (ℕ × ChannelSubscription)

pub data Effect : Type 0 where
  ros_subscribe : String → Effect
  ros_release : String → Effect
  log : ℕ → CachedLatchedMessage → Option ℕ → Effect
  close : ℕ → Effect
  advertise : ℕ → String → Option String → Effect

abbrev pub fresh_subscription : String → ChannelSubscription
fresh_subscription topic = record {
  ros_topic = topic;
  ws_client_ids = [];
  gateway_client_ids = [];
  latched_messages = [];
}

unfoldable pub add_client : Bool → ℕ → ChannelSubscription → ChannelSubscription
add_client is_gateway client sub =
    if is_gateway
    then record sub { gateway_client_ids = insert client sub.gateway_client_ids }
    else record sub { ws_client_ids = insert client sub.ws_client_ids }

unfoldable pub drop_client : Bool → ℕ → ChannelSubscription → ChannelSubscription
drop_client is_gateway client sub =
    if is_gateway
    then record sub { gateway_client_ids = erase client sub.gateway_client_ids }
    else record sub { ws_client_ids = erase client sub.ws_client_ids }

-- The replay of the cached messages to one sink; without a sink nothing is replayed.
unfoldable pub replay : ℕ → Option ℕ → List (String × CachedLatchedMessage) → List Effect
replay channel none cached = []
replay channel (some sink) cached = map (λ entry. log channel entry.1 (some sink)) cached

-- `onSubscribe` with the subscription that it finds, or creates if there is none.
unfoldable pub subscribed :
    ChannelState
    → Channel
    → Option ChannelSubscription
    → ℕ
    → ℕ
    → Bool
    → Option ℕ
    → ChannelState × List Effect
unfolding add_client replay
subscribed s ch none channel client is_gateway sink = (
  record s {
    subscriptions =
        assign channel (add_client is_gateway client (fresh_subscription ch.topic)) s.subscriptions;
  },
  ros_subscribe ch.topic ∷ [],
)
subscribed s ch (some sub) channel client is_gateway sink = (
  record s { subscriptions = assign channel (add_client is_gateway client sub) s.subscriptions },
  replay channel sink sub.latched_messages,
)

unfoldable pub on_subscribe : ChannelState → ℕ → ℕ → Bool → Option ℕ → ChannelState × List Effect
unfolding subscribed
on_subscribe s channel client is_gateway sink = elim (lookup channel s.channels) [
  | none ↦ (s, [])
  | some ch ↦ subscribed s ch (lookup channel s.subscriptions) channel client is_gateway sink
]

-- `onUnsubscribe` with the subscription that it finds.
unfoldable pub unsubscribed :
    ChannelState → Option ChannelSubscription → ℕ → ℕ → Bool → ChannelState × List Effect
unfolding drop_client
unsubscribed s none channel client is_gateway = (s, [])
unsubscribed s (some sub) channel client is_gateway =
    let sub' = drop_client is_gateway client sub in
    if is_empty sub'.ws_client_ids && is_empty sub'.gateway_client_ids
    then (
      record s {
        subscriptions = remove channel s.subscriptions;
        latched_channels = erase channel s.latched_channels;
      },
      ros_release sub.ros_topic ∷ [],
    )
    else (record s { subscriptions = assign channel sub' s.subscriptions }, [])

-- The second part is what the call has left to do when it has given up the mutex: it destroys the
-- subscriber that it moved out of the map.
unfoldable pub on_unsubscribe : ChannelState → ℕ → ℕ → Bool → ChannelState × List Effect
unfolding unsubscribed
on_unsubscribe s channel client is_gateway =
    unsubscribed s (lookup channel s.subscriptions) channel client is_gateway

-- `latching` is "1" in the connection header, which may be missing.
unfoldable pub is_latching : Option (List (String × String)) → Bool
is_latching none = false
is_latching (some header) = elim (lookup "latching" header) [
  | none ↦ false
  | some flag ↦ flag == "1"
]

unfoldable pub caller_of : Option (List (String × String)) → String
caller_of none = ""
caller_of (some header) = or_else (lookup "callerid" header) ""

-- The cache of a latched message, where the channel has a subscription.
unfoldable pub cache_latched :
    ChannelState → Option ChannelSubscription → ℕ → String → CachedLatchedMessage → ChannelState
cache_latched s none channel caller message = s
cache_latched s (some sub) channel caller message = record s {
  subscriptions =
      assign channel (record sub { latched_messages = assign caller message sub.latched_messages })
        s.subscriptions;
  latched_channels = insert channel s.latched_channels;
}

unfoldable pub ros_message_handler :
    ChannelState
    → ℕ
    → Option (List (String × String))
    → CachedLatchedMessage
    → ChannelState × List Effect
unfolding is_latching caller_of cache_latched
ros_message_handler s channel header message = elim (lookup channel s.channels) [
  | none ↦ (s, [])
  | some ch ↦ (
    if is_latching header
        then cache_latched s (lookup channel s.subscriptions) channel (caller_of header) message
        else s,
    log channel message none ∷ [],
  )
]
