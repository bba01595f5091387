-- ===== src/Channels/Qos.antt =====
-- The choices for the remote access gateway in src/ros1_foxglove_bridge.cpp:
-- `classifyRemoteAccessQos`, `suppressRemoteAccessVideoTranscode` and
-- `selectRemoteAccessPointCloudCompression`.
use foxglove_bridge_ros.Prelude.{
  ◌↔◌, ℕ, String, Bool, true, not, ◌&&◌, ◌||◌, ◌≡◌, refl, Option, none, some, is_some, List,
  contains, contains-insert, lookup, if◌then◌else◌, ◌==◌, nat_eq, string_eq, arith, Option-cases,
  inl, inr,
}
use foxglove_bridge_ros.Utils.{RegexEngine, matches_regex}
use foxglove_bridge_ros.Channels.{
  CachedLatchedMessage, ChannelSubscription, ChannelState, is_latching, caller_of, cache_latched,
  ros_message_handler,
}

-- `QosProfile`, as far as the bridge sets it: the SDK's default, or reliable.
pub data Reliability : Type 0 where
  default_profile reliable : Reliability

pub data PointCloudCompression (Options : Type 0) : Type 0 where
  with_draco : Options → PointCloudCompression Options
  disabled : PointCloudCompression Options

module _ (engine : RegexEngine String) where
  unfoldable pub classify_remote_access_qos :
      List engine.Regex → ChannelState → ℕ → String → Reliability
  classify_remote_access_qos reliable_topics s id topic =
      if matches_regex engine topic reliable_topics
      then reliable
      else if contains id s.latched_channels
      then reliable
      else default_profile

  unfoldable pub suppress_remote_access_video_transcode : List engine.Regex → String → Bool
  suppress_remote_access_video_transcode denied topic = matches_regex engine topic denied

  unfoldable pub select_remote_access_point_cloud_compression :
      {Options : Type 0} → List engine.Regex → Options → String → PointCloudCompression Options
  select_remote_access_point_cloud_compression denied options topic =
      if not (matches_regex engine topic denied) then with_draco options else disabled

latched-cache_latched :
    (s : ChannelState) (o : Option ChannelSubscription) (k : ℕ) (caller : String)
    (message : CachedLatchedMessage) (j : ℕ)
    → contains j (cache_latched s o k caller message).latched_channels
      ≡ ((is_some o && k == j) || contains j s.latched_channels)
unfolding cache_latched
latched-cache_latched s none k caller message j = refl
latched-cache_latched s (some sub) k caller message j = contains-insert k j s.latched_channels

latched-ros_message_handler :
    (s : ChannelState) (k : ℕ) (header : Option (List (String × String)))
    (message : CachedLatchedMessage) (j : ℕ)
    → contains j (ros_message_handler s k header message).0.latched_channels ≡ (
        (is_latching header
          && (is_some (lookup k s.channels) && (is_some (lookup k s.subscriptions) && k == j)))
        || contains j s.latched_channels)
unfolding ros_message_handler
latched-ros_message_handler s k header message j = elim (Option-cases (lookup k s.channels)) [
  | inl e ↦ rw (e, ros_message_handler) (ground arith)
  | inr (ch, e) ↦
      rw (e, ros_message_handler)
        (ground (
          arith,
          latched-cache_latched s (lookup k s.subscriptions) k (caller_of header) message j,
        ))
]

-- A channel rides the reliable profile exactly when its topic is on the configured list, or it was
-- marked as latched before, or this message is from a latching publisher on this very channel, which
-- is there and has subscribers.
pub classify_remote_access_qos-ros_message_handler :
    (engine : RegexEngine String) (reliable_topics : List engine.Regex) (s : ChannelState) (k : ℕ)
    (header : Option (List (String × String))) (message : CachedLatchedMessage) (j : ℕ)
    (topic : String)
    → (classify_remote_access_qos engine reliable_topics
          (ros_message_handler s k header message).0
          j
          topic
        ≡ reliable)
      ↔ (matches_regex engine topic reliable_topics
            || (contains j s.latched_channels
                || (is_latching header
                    && (is_some (lookup k s.channels)
                        && (is_some (lookup k s.subscriptions) && k == j))))
          ≡ true)
unfolding classify_remote_access_qos
classify_remote_access_qos-ros_message_handler engine reliable_topics s k header message j topic =
    ground (arith, latched-ros_message_handler s k header message j)
