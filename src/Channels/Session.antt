-- ===== src/Channels/Session.antt =====
-- The channel side of src/ros1_foxglove_bridge.cpp while it runs: the callbacks of clients and of
-- ROS, interleaved with the poll thread's `updateAdvertisedTopics`, which gives up its mutex twice.
-- An event is one critical section; `trace` is everything that has been done outside so far.
-- `onUnsubscribe` moves a subscriber out of the map in its critical section, and destroys it later,
-- without the mutex: until then it is in `moved_out`.
pub mod Balance
pub mod Callbacks
pub mod Polling
pub mod Released
pub mod Promises
use foxglove_bridge_ros.Prelude.{ℕ, zero, suc, String, Bool, Option, List, [], ◌∷◌, ◌++◌}
use foxglove_bridge_ros.Utils.{RegexEngine}
use foxglove_bridge_ros.Channels.{
  CachedLatchedMessage, ChannelState, Effect, on_subscribe, on_unsubscribe, ros_message_handler,
}
use foxglove_bridge_ros.Channels.Discovery.{
  Topic, ChannelRegistry, latest_topics, retire, advertise_all,
}

-- Where the poll thread stands in `updateAdvertisedTopics`: outside; before it closes the removed
-- channels and releases their ROS subscriptions; or before it advertises what is new.
pub data Update : Type 0 where
  outside : Update
  removed : List Topic → List Effect → Update
  torn_down : List Topic → Update

pub data Event : Type 0 where
  subscribes : ℕ → ℕ → Bool → Option ℕ → Event
  unsubscribes : ℕ → ℕ → Bool → Event
  receives : ℕ → Option (List (String × String)) → CachedLatchedMessage → Event
  -- A callback that has moved a subscriber out, the one of this place, destroys it.
  destroys : ℕ → Event
  -- The poll thread goes on; a new update is about these topics.
  polls : List Topic → Event

pub record Session (R : Type 0) : Type 0 where
  pub state : ChannelState
  pub registry : R
  pub update : Update
  pub moved_out : List Effect
  pub trace : List Effect

-- What a callback did.
abbrev pub after : {R : Type 0} → Session R → ChannelState × List Effect → Session R
after s (state', done) = record s { state = state'; trace = s.trace ++ done }

-- What an `onUnsubscribe` has left to be done.
abbrev pub moves_out : {R : Type 0} → Session R → ChannelState × List Effect → Session R
moves_out s (state', left) = record s { state = state'; moved_out = s.moved_out ++ left }

-- The one at this place, and the others.
abbrev pub taken : ℕ → List Effect → List Effect × List Effect
taken i [] = ([], [])
taken zero (e ∷ es) = (e ∷ [], es)
taken (suc i) (e ∷ es) = let (one, rest) = taken i es in (one, e ∷ rest)

module _ {R : Type 0} (registry : ChannelRegistry R) (describes : String → Bool)
    (engine : RegexEngine String) (whitelist : List engine.Regex) where
  -- The poll thread's next critical section.
  unfoldable pub update_step : Update → List Topic → Session R → Session R
  unfolding latest_topics retire advertise_all
  update_step outside topics s =
      let latest = latest_topics engine whitelist topics in
      let (state', closes, releases) = retire latest s.state.channels s.state in
      record s { state = state'; update = removed latest (closes ++ releases) }
  update_step (removed latest left) topics s = record s {
    update = torn_down latest;
    trace = s.trace ++ left;
  }
  update_step (torn_down latest) topics s =
      let (state', r, adverts) = advertise_all registry describes latest s.state s.registry in
      record s { state = state'; registry = r; update = outside; trace = s.trace ++ adverts }

  unfoldable pub event_step : Event → Session R → Session R
  unfolding update_step on_subscribe on_unsubscribe ros_message_handler
  event_step (subscribes k client gw sink) s = after s (on_subscribe s.state k client gw sink)
  event_step (unsubscribes k client gw) s = moves_out s (on_unsubscribe s.state k client gw)
  event_step (receives k header message) s = after s (ros_message_handler s.state k header message)
  event_step (destroys i) s =
      let (one, rest) = taken i s.moved_out in record s { moved_out = rest; trace = s.trace ++ one }
  event_step (polls topics) s = update_step s.update topics s

  unfoldable pub run : List Event → Session R → Session R
  unfolding event_step
  run [] s = s
  run (e ∷ es) s = run es (event_step e s)

-- The bridge before its first poll, with nothing advertised.
abbrev pub opened : {R : Type 0} → R → Session R
opened r = record {
  state = record { latched_channels = []; channels = []; subscriptions = [] };
  registry = r;
  update = outside;
  moved_out = [];
  trace = [];
}
