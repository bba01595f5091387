-- ===== src/Tests/Topics.antt =====
-- Channels at concrete inputs.
use foxglove_bridge_ros.Prelude.{
  ◌⊎◌, ◌&&◌, ◌==◌, bool_eq, ◌↔◌, ℕ, String, ◌≡◌, refl, Bool, true, false, Option, none, some,
  is_some, List, [], ◌∷◌, any, lookup, assign, nat_eq, string_eq, pair_eq,
}
use foxglove_bridge_ros.Utils.{matches_regex}
use foxglove_bridge_ros.Channels.{
  CachedLatchedMessage, log, is_latching, caller_of, on_subscribe, on_unsubscribe,
  ros_message_handler,
}
use foxglove_bridge_ros.Channels.Qos.{
  reliable, classify_remote_access_qos, classify_remote_access_qos-ros_message_handler,
}
use foxglove_bridge_ros.Channels.Invariant.{IsConsistent}
use foxglove_bridge_ros.Channels.Sharing.{
  is_subscriber, requests-subscribers, ros_subscription_iff, on_subscribe_replays,
}
use foxglove_bridge_ros.Channels.Discovery.{
  is_current, Topic, update_advertised_topics, offers, latest_topics,
}
use foxglove_bridge_ros.Channels.Discovery.Retired.{kept}
use foxglove_bridge_ros.Channels.Discovery.Update.{
  lookup-update_advertised_topics, update_advertised_topics_covers,
  update_advertised_topics_undescribed,
}
use foxglove_bridge_ros.Tests.Samples.{
  engine, counter, channels, channels-IsRegistered, chatter, tf, first, describes, all_names,
}

abbrev header : Option (List (String × String))
header = some (("latching", "1") ∷ ("callerid", "/talker") ∷ [])

abbrev message : CachedLatchedMessage
message = record { content = 1 ∷ 2 ∷ []; timestamp = 5 }

consistent : IsConsistent channels
consistent = channels-IsRegistered.consistent

requests-subscribers_example :
    (is_subscriber (on_subscribe channels 1 7 true none).0 1 true 7 ≡ true)
    × (is_subscriber (on_unsubscribe channels 1 7 true).0 1 true 7 ≡ false)
unfolding lookup
requests-subscribers_example = requests-subscribers channels 1 7 true none 1 true 7

ros_subscription_iff_example :
    ((is_some (lookup 0 (on_unsubscribe channels 0 7 false).0.subscriptions) ≡ true) ↔ (
      (h : Bool) × (d : ℕ) × ((false == h && 7 == d) ≡ false)
      × (is_subscriber channels 0 h d ≡ true)))
    × ((is_some (lookup 0 (on_subscribe channels 0 7 false none).0.subscriptions) ≡ true) ↔ (
        (is_some (lookup 0 channels.channels) ≡ true)
        ⊎ ((h : Bool) × (d : ℕ) × (is_subscriber channels 0 h d ≡ true))))
ros_subscription_iff_example = ros_subscription_iff channels 0 7 false none consistent

on_subscribe_replays_example :
    (on_subscribe (ros_message_handler channels 0 header message).0 0 9 true (some 4)).1
    ≡ log 0 message (some 4) ∷ []
unfolding lookup assign is_latching caller_of
on_subscribe_replays_example =
    on_subscribe_replays channels 0 header message chatter first 9 4 true refl refl refl

abbrev topics : List Topic
topics =
    ("/chatter", "std_msgs/String") ∷ ("/scan", "sensor_msgs/LaserScan") ∷ ("/tf", "Unknown") ∷ []

lookup-update_advertised_topics_example :
    lookup 0
      (update_advertised_topics counter describes engine all_names topics channels 2).0.channels
    ≡ some chatter
unfolding lookup kept latest_topics is_current matches_regex
lookup-update_advertised_topics_example =
    lookup-update_advertised_topics counter describes engine all_names topics channels 2 0 chatter
      channels-IsRegistered refl

update_advertised_topics_undescribed_example :
    lookup 1
      (update_advertised_topics counter describes engine all_names topics channels 2).0.channels
    ≡ none
unfolding lookup
update_advertised_topics_undescribed_example =
    update_advertised_topics_undescribed counter describes engine all_names topics channels 2 1 tf
      channels-IsRegistered refl refl refl

creates : (topic : String) (schema : Option String) (r : ℕ) → is_some (some r) ≡ true
creates topic schema r = refl

update_advertised_topics_covers_example :
    any
      (λ entry. offers ("/scan", "sensor_msgs/LaserScan") entry.1)
      (update_advertised_topics counter describes engine all_names topics channels 2).0.channels
    ≡ true
unfolding matches_regex
update_advertised_topics_covers_example =
    update_advertised_topics_covers counter describes engine all_names topics channels 2
      ("/scan", "sensor_msgs/LaserScan") channels-IsRegistered creates refl refl refl

classify_remote_access_qos-ros_message_handler_example :
    (classify_remote_access_qos engine []
        (ros_message_handler channels 0 header message).0
        0
        "/chatter"
      ≡ reliable)
    ↔ (true ≡ true)
unfolding lookup is_latching matches_regex
classify_remote_access_qos-ros_message_handler_example =
    classify_remote_access_qos-ros_message_handler engine [] channels 0 header message 0 "/chatter"
