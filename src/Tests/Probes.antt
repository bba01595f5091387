-- ===== src/Tests/Probes.antt =====
-- The probe of a service's type at concrete inputs.
use foxglove_bridge_ros.Prelude.{
  ℕ, ◌+◌, ◌≤◌, length, ◌≡◌, refl, String, Bool, true, false, Option, none, some, List, [], ◌∷◌,
  lookup, ◌==◌, string_eq, if◌then◌else◌,
}
use foxglove_bridge_ros.Options.{ok}
use foxglove_bridge_ros.Services.Probe.{
  Header, Event, receives, sets_promise, looks, probe, connected, retrieve_service_type,
}
use foxglove_bridge_ros.Services.Probe.Once.{first_type, promise_set_once}
use foxglove_bridge_ros.Services.Probe.Found.{
  retrieve_service_type_found, retrieve_service_type_in_time,
}

abbrev lookup_service : String → Option (String × ℕ)
lookup_service name = if name == "/reset" then some ("robot", 4000) else none

abbrev connect : String → ℕ → Bool
connect host port = true

abbrev header : Header
header = ("callerid", "/server") ∷ ("type", "std_srvs/Empty") ∷ []

-- A second callback comes before the first has set the promise, and a third after the look.
abbrev events : List Event
events =
    looks false
    ∷ receives header
    ∷ receives []
    ∷ sets_promise
    ∷ looks true
    ∷ receives []
    ∷ sets_promise
    ∷ []

retrieve_service_type_found_example :
    (host : String) × (port : ℕ) × (lookup_service "/reset" ≡ some (host, port))
    × (connect host port ≡ true)
    × (first_type events ≡ some (some "std_srvs/Empty"))
unfolding retrieve_service_type lookup
retrieve_service_type_found_example =
    retrieve_service_type_found lookup_service connect "/reset" events "std_srvs/Empty" refl

retrieve_service_type_in_time_example :
    retrieve_service_type lookup_service connect "/reset"
      (receives header ∷ sets_promise ∷ looks true ∷ receives [] ∷ [])
    ≡ some (ok "std_srvs/Empty")
unfolding lookup
retrieve_service_type_in_time_example =
    retrieve_service_type_in_time lookup_service connect "/reset" "robot" 4000 header true
      (receives [] ∷ []) refl refl

promise_set_once_example :
    length (probe events connected).setting + (probe events connected).sets ≤ 1
promise_set_once_example = promise_set_once events
