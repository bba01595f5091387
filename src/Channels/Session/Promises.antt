-- ===== src/Channels/Session/Promises.antt =====
-- What a session of src/ros1_foxglove_bridge.cpp's channels promises about its ROS subscriptions.
use mathlib.Core.List.{append_assoc}
use foxglove_bridge_ros.Prelude.{
  ℕ, ◌+◌, ◌≡◌, refl, sym, String, Bool, true, some, List, [], ◌∷◌, ◌++◌, lookup, contains, or_else,
  string_eq, pair_eq, nat_eq, arith, Option-cases, inl, inr,
}
use foxglove_bridge_ros.Utils.{RegexEngine}
use foxglove_bridge_ros.Channels.{Channel, ChannelSubscription}
use foxglove_bridge_ros.Channels.Discovery.{
  Topic, ChannelRegistry, is_current, update_advertised_topics,
}
use foxglove_bridge_ros.Channels.Session.{
  outside, torn_down, Event, polls, Session, update_step, event_step, run, opened,
}
use foxglove_bridge_ros.Channels.Session.Balance.{total, subscribes_to, releases_of, held}
use foxglove_bridge_ros.Channels.Session.Released.{run-IsSound, opened-IsSound, left}

module _ {R : Type 0} (registry : ChannelRegistry R) (describes : String → Bool)
    (engine : RegexEngine String) (whitelist : List engine.Regex) where
  -- From the start, after any sequence of callbacks and poll steps: for each topic the ROS
  -- subscriptions made so far are those released so far, those that the poll thread is about to
  -- release, those that a client's last unsubscription has moved out of the map and not destroyed
  -- yet, and those that the bridge holds. None is leaked, and none is released twice.
  pub ros_subscriptions_balance :
      (es : List Event) (r : R) (topic : String)
      → let s = run registry describes engine whitelist es (opened r) in
        total (subscribes_to topic) s.trace
        ≡ total (releases_of topic) s.trace
          + total (releases_of topic) (left s.update)
          + total (releases_of topic) s.moved_out
          + held topic s.state
  ros_subscriptions_balance es r topic =
      (run-IsSound registry describes engine whitelist es _
          (opened-IsSound registry describes engine whitelist r)).balanced
        topic

  -- From the start, after any sequence of callbacks and poll steps that leaves the poll thread
  -- about to advertise new topics: whatever it removed has been released, so that the ROS
  -- subscriptions still alive are those in the map and those that clients' unsubscriptions have moved
  -- out of it and not destroyed yet; and each of those in the map belongs to a channel whose topic is
  -- still published with the same type.
  pub torn_down_before_advertising :
      (es : List Event) (r : R) (latest : List Topic)
      → let s = run registry describes engine whitelist es (opened r) in
        s.update ≡ torn_down latest
        → ((topic : String)
            → total (subscribes_to topic) s.trace
              ≡ total (releases_of topic) s.trace
                + total (releases_of topic) s.moved_out
                + held topic s.state)
          × ((k : ℕ) (sub : ChannelSubscription)
              → lookup k s.state.subscriptions ≡ some sub
              → (ch : Channel) × (lookup k s.state.channels ≡ some ch)
                × (ch.topic ≡ sub.ros_topic)
                × (contains (ch.topic, or_else ch.schema "") latest ≡ true))
  unfolding is_current
  torn_down_before_advertising es r latest e =
      let v =
        run-IsSound registry describes engine whitelist es _
          (opened-IsSound registry describes engine whitelist r) in
      let s = run registry describes engine whitelist es (opened r) in
      (
        λ topic. ground (arith, e, v.balanced topic),
        λ k sub held. elim (Option-cases (lookup k s.state.channels)) [
          | inl none_there ↦
              absurd (ground (arith, v.registered.consistent.backed k sub held, none_there))
          | inr (ch, there) ↦ (
            ch,
            there,
            sym (v.registered.consistent.on_topic k sub ch held there),
            ground (arith, e, v.kept k ch there),
          )
        ],
      )

  -- The poll thread's three steps with no callback between them are `updateAdvertisedTopics` as
  -- one call: the same maps, the same registry, and the same actions in the same order.
  pub run-uninterrupted_update :
      (topics others more : List Topic) (s : Session R)
      → s.update ≡ outside
      → let result =
          update_advertised_topics registry describes engine whitelist topics s.state s.registry in
        let s' =
          run registry describes engine whitelist
            (polls topics ∷ polls others ∷ polls more ∷ [])
            s in
        (s'.state ≡ result.0)
        × (s'.registry ≡ result.1)
        × (s'.update ≡ outside)
        × (s'.trace ≡ s.trace ++ result.2)
  unfolding run event_step update_step update_advertised_topics
  run-uninterrupted_update topics others more s e = rw e (refl, refl, refl, simp append_assoc)
