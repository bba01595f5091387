-- ===== src/Tests/Sessions.antt =====
-- Sessions of the channel side, and services on both transports, at concrete inputs.
use foxglove_bridge_ros.Prelude.{
  ℕ, ◌+◌, ◌≡◌, refl, String, Bool, true, false, Option, none, some, List, [], ◌∷◌, ◌++◌, lookup,
  nat_eq, string_eq, pair_eq, or_else, contains, insert, erase, contains-insert, contains-erase,
  ◌==◌, if◌then◌else◌,
}
use foxglove_bridge_ros.Utils.{matches_regex}
use foxglove_bridge_ros.Channels.{Channel, ChannelSubscription, ChannelState, Effect}
use foxglove_bridge_ros.Channels.Discovery.{Topic, update_advertised_topics}
use foxglove_bridge_ros.Channels.Session.{
  Event, subscribes, unsubscribes, destroys, polls, Session, run, opened,
}
use foxglove_bridge_ros.Channels.Session.Balance.{total, subscribes_to, releases_of, held}
use foxglove_bridge_ros.Channels.Session.Released.{left}
use foxglove_bridge_ros.Channels.Session.Promises.{
  ros_subscriptions_balance, torn_down_before_advertising,
}
use foxglove_bridge_ros.Services.Advertised.{
  ServiceDescription, ServiceSchema, Services, update_advertised_services,
}
use foxglove_bridge_ros.Transports.{ServiceHost, Transports}
use foxglove_bridge_ros.Services.Published.{sources, IsInSync, update_advertised_services-IsInSync}
use foxglove_bridge_ros.Tests.Samples.{engine, counter, describes, all_names}

abbrev published : List Topic
published = ("/chatter", "std_msgs/String") ∷ []

abbrev retyped : List Topic
retyped = ("/chatter", "std_msgs/Int32") ∷ []

-- The topic is advertised; its clients leave, twice, and the subscriber of the second time is still
-- there when another client joins and the topic is published with another type.
abbrev retyping : List Event
retyping =
    polls published
    ∷ polls []
    ∷ polls []
    ∷ subscribes 0 7 false none
    ∷ subscribes 0 8 true none
    ∷ unsubscribes 0 7 false
    ∷ unsubscribes 0 8 true
    ∷ subscribes 0 9 true none
    ∷ unsubscribes 0 9 true
    ∷ destroys 0
    ∷ subscribes 0 7 false none
    ∷ polls retyped
    ∷ []

abbrev session : Session ℕ
session = run counter describes engine all_names retyping (opened 0)

ros_subscriptions_balance_example :
    total (subscribes_to "/chatter") session.trace
    ≡ total (releases_of "/chatter") session.trace
      + total (releases_of "/chatter") (left session.update)
      + total (releases_of "/chatter") session.moved_out
      + held "/chatter" session.state
ros_subscriptions_balance_example =
    ros_subscriptions_balance counter describes engine all_names retyping 0 "/chatter"

abbrev nothing : ChannelState
nothing = record { latched_channels = []; channels = []; subscriptions = [] }

abbrev cleared : Session ℕ
cleared = run counter describes engine all_names (retyping ++ polls [] ∷ []) (opened 0)

torn_down_before_advertising_example :
    ((topic : String)
      → total (subscribes_to topic) cleared.trace
        ≡ total (releases_of topic) cleared.trace
          + total (releases_of topic) cleared.moved_out
          + held topic cleared.state)
    × ((k : ℕ) (sub : ChannelSubscription)
        → lookup k cleared.state.subscriptions ≡ some sub
        → (ch : Channel) × (lookup k cleared.state.channels ≡ some ch)
          × (ch.topic ≡ sub.ros_topic)
          × (contains (ch.topic, or_else ch.schema "") retyped ≡ true))
unfolding run matches_regex
torn_down_before_advertising_example =
    torn_down_before_advertising counter describes engine all_names (retyping ++ polls [] ∷ []) 0
      retyped refl

abbrev three_polls : Session ℕ
three_polls =
    run counter describes engine all_names (polls published ∷ polls [] ∷ polls [] ∷ []) (opened 0)

abbrev one_call : ChannelState × ℕ × List Effect
one_call = update_advertised_topics counter describes engine all_names published nothing 0

-- Services on both transports, each a set of names; the gateway refuses all.
abbrev open_host : ServiceHost (List String)
open_host = record {
  add = λ n schema s. (insert n s, true);
  drop = λ n s. (erase n s, true);
  offers = λ s n. contains n s;
  offers-add = λ n schema s m. contains-insert n m s;
  offers-drop = λ n s m. contains-erase n m s;
}

abbrev full_host : ServiceHost (List String)
full_host = record {
  add = λ n schema s. (s, false);
  drop = λ n s. (erase n s, true);
  offers = λ s n. contains n s;
  offers-add = λ n schema s m. refl;
  offers-drop = λ n s m. contains-erase n m s;
}

abbrev creates : String → ServiceSchema → Bool
creates name schema = true

abbrev retrieve : String → Option String
retrieve name = if name == "/gone" then none else some "std_srvs/Trigger"

abbrev describe : String → Option ServiceDescription
describe type = none

abbrev transports : Transports (List String) (List String)
transports = record { server = []; gateway = some [] }

transports-IsInSync : IsInSync creates open_host full_host retrieve describe [] transports
unfolding lookup
transports-IsInSync = record { served = λ m. refl; mirrored = λ m. refl }

abbrev updated : Services × Transports (List String) (List String)
updated =
    update_advertised_services (sources creates open_host full_host retrieve describe)
      ("/reset" ∷ "/gone" ∷ []) [] transports

update_advertised_services-IsInSync_example :
    IsInSync creates open_host full_host retrieve describe updated.0 updated.1
update_advertised_services-IsInSync_example =
    update_advertised_services-IsInSync creates open_host full_host retrieve describe
      ("/reset" ∷ "/gone" ∷ []) [] transports (λ n s e. refl, λ n s e. refl) transports-IsInSync
