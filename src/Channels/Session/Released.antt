-- ===== src/Channels/Session/Released.antt =====
-- What holds in every session of src/ros1_foxglove_bridge.cpp's channels, however the callbacks
-- fall between the poll thread's critical sections.
use foxglove_bridge_ros.Prelude.{
  ℕ, zero, suc, ◌+◌, ◌≡◌, refl, String, Bool, true, not, some, List, [], ◌∷◌, ◌++◌, lookup, unique,
  unique-remove, nat_eq, string_eq, arith, if-elim,
}
use foxglove_bridge_ros.Utils.{RegexEngine}
use foxglove_bridge_ros.Channels.{Channel, ChannelState, Effect}
use foxglove_bridge_ros.Channels.Invariant.{
  IsConsistent, on_subscribe-IsConsistent, on_unsubscribe-IsConsistent,
  ros_message_handler-IsConsistent,
}
use foxglove_bridge_ros.Channels.Discovery.{
  Topic, ChannelRegistry, is_current, latest_topics, retire, forget, advertise_all,
}
use foxglove_bridge_ros.Channels.Discovery.Retired.{lookup-retire}
use foxglove_bridge_ros.Channels.Discovery.Offered.{
  IsRegistered, retire-IsRegistered, advertise_all-IsRegistered,
}
use foxglove_bridge_ros.Channels.Session.{
  Update, outside, removed, torn_down, Event, subscribes, unsubscribes, receives, destroys, polls,
  Session, after, moves_out, taken, update_step, event_step, run, opened,
}
use foxglove_bridge_ros.Channels.Session.Callbacks.{
  IsCallback, on_subscribe-IsCallback, on_unsubscribe-IsCallback, ros_message_handler-IsCallback,
}
use foxglove_bridge_ros.Channels.Session.Balance.{
  total, total-append, subscribes_to, releases_of, held, IsBalanced, on_subscribe-IsBalanced,
  on_unsubscribe-IsBalanced, on_unsubscribe-subscribes, ros_message_handler-IsBalanced,
}
use foxglove_bridge_ros.Channels.Session.Polling.{retire-held, retire-counts, advertise_all-IsQuiet}

retire-unique :
    (latest : List Topic) (m : List (ℕ × Channel)) (s : ChannelState)
    → unique s.subscriptions ≡ true
    → unique (retire latest m s).0.subscriptions ≡ true
unfolding retire forget
retire-unique latest [] s u = u
retire-unique latest ((k, ch) ∷ m) s u = retire-unique latest m _ (
    if-elim (λ (t : ChannelState). unique t.subscriptions ≡ true) (not (is_current latest ch))
      (λ _. unique-remove ch.id s.subscriptions u) (λ _. u))

total-taken :
    (f : Effect → ℕ) (i : ℕ) (es : List Effect)
    → total f (taken i es).0 + total f (taken i es).1 ≡ total f es
total-taken f i [] = refl
total-taken f zero (e ∷ es) = omega arith
total-taken f (suc i) (e ∷ es) = omega (arith, total-taken f i es)

-- The closings and releases that the poll thread has still to do.
abbrev pub left : Update → List Effect
left outside = []
left (removed latest effects) = effects
left (torn_down latest) = []

-- A channel that the update under way has kept.
abbrev pub is_kept : Update → Channel → Bool
is_kept outside ch = true
is_kept (removed latest effects) ch = is_current latest ch
is_kept (torn_down latest) ch = is_current latest ch

module _ {R : Type 0} (registry : ChannelRegistry R) where
  -- The maps are as they are between calls, each ROS subscription that was made is held, or
  -- released, or about to be by the poll thread or by a callback, and the update under way has kept the channels that are there.
  pub record IsSound (s : Session R) : Type 0 where
    pub registered : IsRegistered registry s.state s.registry
    pub once : unique s.state.subscriptions ≡ true
    pub balanced :
        (topic : String)
        → total (subscribes_to topic) s.trace
          ≡ total (releases_of topic) s.trace
            + total (releases_of topic) (left s.update)
            + total (releases_of topic) s.moved_out
            + held topic s.state
    pub only_ends : (topic : String) → total (subscribes_to topic) s.moved_out ≡ 0
    pub only_releases : (topic : String) → total (subscribes_to topic) (left s.update) ≡ 0
    pub kept :
        (k : ℕ) (ch : Channel) → lookup k s.state.channels ≡ some ch → is_kept s.update ch ≡ true

  same_channels-IsRegistered :
      (s t : ChannelState) (r : R)
      → t.channels ≡ s.channels
      → IsConsistent t
      → IsRegistered registry s r
      → IsRegistered registry t r
  same_channels-IsRegistered s t r e c v = record {
    consistent = c;
    keyed = rw e v.keyed;
    once = rw e v.once;
    known = rw e v.known;
  }

  after-IsSound :
      (s : Session R) (result : ChannelState × List Effect)
      → IsConsistent result.0
      → IsCallback s.state result.0
      → ((topic : String) → IsBalanced topic s.state result)
      → IsSound s
      → IsSound (after s result)
  after-IsSound s (t, done) c callback balance v = record {
    registered = same_channels-IsRegistered s.state t s.registry callback.0 c v.registered;
    once = callback.1 v.once;
    balanced = λ topic. omega (
      arith,
      v.balanced topic,
      balance topic,
      total-append (subscribes_to topic) s.trace done,
      total-append (releases_of topic) s.trace done,
    );
    only_ends = v.only_ends;
    only_releases = v.only_releases;
    kept = rw callback.0 v.kept;
  }

  -- An `onUnsubscribe` subscribes to nothing; what it has left are releases.
  moves_out-IsSound :
      (s : Session R) (result : ChannelState × List Effect)
      → IsConsistent result.0
      → IsCallback s.state result.0
      → ((topic : String) → IsBalanced topic s.state result)
      → ((topic : String) → total (subscribes_to topic) result.1 ≡ 0)
      → IsSound s
      → IsSound (moves_out s result)
  moves_out-IsSound s (t, left') c callback balance ends v = record {
    registered = same_channels-IsRegistered s.state t s.registry callback.0 c v.registered;
    once = callback.1 v.once;
    balanced = λ topic. omega (
      arith,
      v.balanced topic,
      balance topic,
      ends topic,
      total-append (releases_of topic) s.moved_out left',
    );
    only_ends = λ topic. omega (
      arith,
      v.only_ends topic,
      ends topic,
      total-append (subscribes_to topic) s.moved_out left',
    );
    only_releases = v.only_releases;
    kept = rw callback.0 v.kept;
  }

  destroys-IsSound :
      (i : ℕ) (s : Session R)
      → IsSound s
      → let (one, rest) = taken i s.moved_out in
        IsSound (record s { moved_out = rest; trace = s.trace ++ one })
  destroys-IsSound i s v =
      let (one, rest) = taken i s.moved_out in
      record {
        registered = v.registered;
        once = v.once;
        balanced = λ topic. omega (
          arith,
          v.balanced topic,
          v.only_ends topic,
          total-taken (releases_of topic) i s.moved_out,
          total-taken (subscribes_to topic) i s.moved_out,
          total-append (releases_of topic) s.trace one,
          total-append (subscribes_to topic) s.trace one,
        );
        only_ends = λ topic.
            omega (arith, v.only_ends topic, total-taken (subscribes_to topic) i s.moved_out);
        only_releases = v.only_releases;
        kept = v.kept;
      }

  module _ (describes : String → Bool) (engine : RegexEngine String)
      (whitelist : List engine.Regex) where
    removed-IsSound :
        (topics : List Topic) (s : Session R)
        → s.update ≡ outside
        → IsSound s
        → IsSound (update_step registry describes engine whitelist outside topics s)
    unfolding update_step
    removed-IsSound topics s e v =
        let latest = latest_topics engine whitelist topics in
        let gone = retire latest s.state.channels s.state in
        record {
          registered = retire-IsRegistered registry latest s.state s.registry v.registered;
          once = retire-unique latest s.state.channels s.state v.once;
          balanced = λ topic. ground (
            arith,
            e,
            v.balanced topic,
            retire-held topic latest s.state.channels s.state v.once,
            retire-counts topic latest s.state.channels s.state,
            total-append (releases_of topic) gone.1 gone.2,
          );
          only_ends = v.only_ends;
          only_releases = λ topic. ground (
            arith,
            retire-counts topic latest s.state.channels s.state,
            total-append (subscribes_to topic) gone.1 gone.2,
          );
          kept =
              λ k ch there. ground (arith, there, lookup-retire latest s.state k v.registered.once);
        }

    torn_down-IsSound :
        (latest : List Topic) (effects : List Effect) (topics : List Topic) (s : Session R)
        → s.update ≡ removed latest effects
        → IsSound s
        → IsSound
            (update_step registry describes engine whitelist (removed latest effects) topics s)
    unfolding update_step
    torn_down-IsSound latest effects topics s e v = record {
      registered = v.registered;
      once = v.once;
      balanced = λ topic. ground (
        arith,
        e,
        v.balanced topic,
        v.only_releases topic,
        total-append (subscribes_to topic) s.trace effects,
        total-append (releases_of topic) s.trace effects,
      );
      only_ends = v.only_ends;
      only_releases = λ topic. refl;
      kept = λ k ch there. ground (arith, e, v.kept k ch there);
    }

    advertised-IsSound :
        (latest topics : List Topic) (s : Session R)
        → s.update ≡ torn_down latest
        → IsSound s
        → IsSound (update_step registry describes engine whitelist (torn_down latest) topics s)
    unfolding update_step
    advertised-IsSound latest topics s e v =
        let made = advertise_all registry describes latest s.state s.registry in
        record {
          registered =
              advertise_all-IsRegistered registry describes latest s.state s.registry v.registered;
          once =
              rw (advertise_all-IsQuiet "" registry describes latest s.state s.registry).0 v.once;
          balanced = λ topic. ground (
            arith,
            e,
            v.balanced topic,
            advertise_all-IsQuiet topic registry describes latest s.state s.registry,
            total-append (subscribes_to topic) s.trace made.2,
            total-append (releases_of topic) s.trace made.2,
          );
          only_ends = v.only_ends;
          only_releases = λ topic. refl;
          kept = λ k ch there. refl;
        }

    update_step-IsSound :
        (u : Update) (topics : List Topic) (s : Session R)
        → s.update ≡ u
        → IsSound s
        → IsSound (update_step registry describes engine whitelist u topics s)
    update_step-IsSound outside topics s e v = removed-IsSound topics s e v
    update_step-IsSound (removed latest effects) topics s e v =
        torn_down-IsSound latest effects topics s e v
    update_step-IsSound (torn_down latest) topics s e v = advertised-IsSound latest topics s e v

    event_step-IsSound :
        (e : Event) (s : Session R)
        → IsSound s
        → IsSound (event_step registry describes engine whitelist e s)
    unfolding event_step
    event_step-IsSound (subscribes k client gw sink) s v =
        after-IsSound s _
          (on_subscribe-IsConsistent s.state k client gw sink v.registered.consistent)
          (on_subscribe-IsCallback s.state k client gw sink)
          (λ topic. on_subscribe-IsBalanced topic s.state k client gw sink) v
    event_step-IsSound (unsubscribes k client gw) s v =
        moves_out-IsSound s _
          (on_unsubscribe-IsConsistent s.state k client gw v.registered.consistent)
          (on_unsubscribe-IsCallback s.state k client gw)
          (λ topic. on_unsubscribe-IsBalanced topic s.state k client gw v.once)
          (λ topic. on_unsubscribe-subscribes topic s.state k client gw) v
    event_step-IsSound (destroys i) s v = destroys-IsSound i s v
    event_step-IsSound (receives k header message) s v =
        after-IsSound s _
          (ros_message_handler-IsConsistent s.state k header message v.registered.consistent)
          (ros_message_handler-IsCallback s.state k header message)
          (λ topic. ros_message_handler-IsBalanced topic s.state k header message) v
    event_step-IsSound (polls topics) s v = update_step-IsSound s.update topics s refl v

    -- Every run of events keeps a sound session sound: the maps are as they are between calls,
    -- each ROS subscription that was made is held, or released, or about to be, and the update
    -- under way has kept the channels that are there.
    pub run-IsSound :
        (es : List Event) (s : Session R)
        → IsSound s
        → IsSound (run registry describes engine whitelist es s)
    unfolding run
    run-IsSound [] s v = v
    run-IsSound (e ∷ es) s v = run-IsSound es _ (event_step-IsSound e s v)

    pub opened-IsSound : (r : R) → IsSound (opened r)
    unfolding lookup
    opened-IsSound r = record {
      registered = record {
        consistent = record {
          keyed = λ k ch e. cc;
          backed = λ k sub e. cc;
          on_topic = λ k sub ch e f. cc;
          wanted = λ k sub e. cc;
          cached = λ k e. cc;
        };
        keyed = tt;
        once = refl;
        known = λ k e. cc;
      };
      once = refl;
      balanced = λ topic. refl;
      only_ends = λ topic. refl;
      only_releases = λ topic. refl;
      kept = λ k ch e. refl;
    }
