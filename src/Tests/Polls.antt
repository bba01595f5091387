-- ===== src/Tests/Polls.antt =====
-- Polls of the master at concrete inputs.
use foxglove_bridge_ros.Prelude.{
  String, ℕ, ◌≡◌, ◌⊎◌, refl, true, false, none, some, List, [], ◌∷◌, lookup, if◌then◌else◌, ◌==◌,
  nat_eq, string_eq, pair_eq,
}
use foxglove_bridge_ros.Prelude.Int.{pos}
use foxglove_bridge_ros.Channels.Discovery.{Topic, latest_topics, is_current}
use foxglove_bridge_ros.Services.Advertised.{
  ServiceDescription, ServiceDetails, ServiceSources, Services, update_advertised_services,
  details_for,
}
use foxglove_bridge_ros.Services.Advertised.Coverage.{lookup-update_advertised_services}
use foxglove_bridge_ros.Poll.Cycle.{Reply, replied, SystemState, Polled, poll_once}
use foxglove_bridge_ros.Poll.Cycle.Replies.{poll_once-Unlisted}
use foxglove_bridge_ros.Tests.Samples.{
  engine, counter, channels, channels-IsRegistered, chatter, describes, all_names,
}

abbrev description : ServiceDescription
description = record { md5 = "abc"; request_definition = ""; response_definition = "bool ok" }

abbrev sources : ServiceSources (List String)
sources = record {
  retrieve_service_type = λ name. if name == "/gone" then none else some "std_srvs/Trigger";
  get_service_description = λ type. some description;
  add_service = λ name schema t. (name ∷ t, true);
  remove_service = λ name t. t;
}

abbrev old : ServiceDetails
old = record { type = "std_srvs/Empty"; md5sum = "d41"; description = none }

abbrev services : Services
services = ("/reset", old) ∷ ("/stop", old) ∷ []

lookup-update_advertised_services_example :
    let after =
      (update_advertised_services sources ("/start" ∷ "/gone" ∷ "/reset" ∷ []) services []).0 in
    (lookup "/start" after ≡ some (details_for "std_srvs/Trigger" (some description)))
    × (lookup "/stop" after ≡ none)
unfolding lookup
lookup-update_advertised_services_example =
    lookup-update_advertised_services sources [] ("/gone" ∷ "/reset" ∷ []) services [] "/start"
      "/stop" refl refl refl

abbrev polled : Polled ℕ (List String)
polled = record { channels = channels; services = services; registry = 2; transports = [] }

abbrev state : SystemState
state = record {
  publishers = ("/scan", "/laser" ∷ []) ∷ [];
  subscribers = [];
  services = ("/reset", "/server" ∷ []) ∷ [];
}

abbrev listed : Reply (List Topic)
listed = replied (("/scan", "sensor_msgs/LaserScan") ∷ [])

abbrev answered : Reply SystemState
answered = replied state

poll_once-Unlisted_example :
    (lookup 0
        (poll_once counter describes sources engine all_names all_names true
          (pos 0)
          (pos 0)
          listed
          answered
          polled).0.channels.channels
      ≡ some chatter)
    ⊎ ((list : List Topic) × (listed ≡ replied list)
        × (is_current (latest_topics engine all_names list) chatter ≡ false))
unfolding lookup
poll_once-Unlisted_example =
    poll_once-Unlisted counter describes sources engine all_names all_names true (pos 0) (pos 0)
      listed answered polled 0 chatter channels-IsRegistered refl
