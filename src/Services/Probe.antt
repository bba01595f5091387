-- ===== src/Services/Probe.antt =====
-- `retrieveServiceType` of src/service_utils.cpp: the probe of a service for its type. The header
-- callback runs on roscpp's thread, and may run late or more than once; each event is one atomic
-- step. Looking up the service and connecting to it are arguments.
pub mod Once
pub mod Found
use Prim.Native.String.{◌++◌}
use foxglove_bridge_ros.Prelude.{
  ℕ, ◌+◌, String, Bool, true, false, Option, none, some, List, [], ◌∷◌, lookup, if◌then◌else◌,
  string_eq,
}
use foxglove_bridge_ros.Options.{Checked, ok, throws}

abbrev pub Header : Type 0
Header = List (String × String)

-- What a `std::promise` holds: nothing, a value, or an exception.
pub data Promised : Type 0 where
  unset : Promised
  value : String → Promised
  exception : Promised

-- The state that the callback and the waiting thread share. `setting` is the callbacks that have
-- won the flag and not yet set the promise, each with the type it has found; `sets` counts.
pub record Probe : Type 0 where
  pub fulfilled : Bool
  pub setting : List (Option String)
  pub promise : Promised
  pub sets : ℕ
  pub result : Option (Checked String)

pub data Event : Type 0 where
  -- The callback begins: `fulfilled.exchange(true)`, and the look at the header.
  receives : Header → Event
  -- A callback that won the flag sets the promise.
  sets_promise : Event
  -- The waiting thread looks at the future, in time or when the time is over.
  looks : Bool → Event

unfoldable pub receive : Header → Probe → Probe
receive header p =
    if p.fulfilled
    then p
    else record p { fulfilled = true; setting = lookup "type" header ∷ p.setting }

unfoldable pub promised : Option String → Promised
promised none = exception
promised (some service_type) = value service_type

unfoldable pub set_promise : List (Option String) → Probe → Probe
unfolding promised
set_promise [] p = p
set_promise (found ∷ rest) p = record p {
  setting = rest;
  promise = promised found;
  sets = p.sets + 1;
}

-- `future.get()` on a future that is ready, and the end of the wait on one that is not.
unfoldable pub outcome : Bool → Promised → Option (Checked String)
outcome timed_out unset =
    if timed_out then some (throws "Timed out when retrieving service type") else none
outcome timed_out (value service_type) = some (ok service_type)
outcome timed_out exception = some (throws "Key 'type' not found in service connection header")

-- The thread looks no more once it has a result.
unfoldable pub look : Bool → Option (Checked String) → Probe → Probe
unfolding outcome
look timed_out none p = record p { result = outcome timed_out p.promise }
look timed_out (some result) p = p

unfoldable pub probe_step : Event → Probe → Probe
unfolding receive set_promise look
probe_step (receives header) p = receive header p
probe_step sets_promise p = set_promise p.setting p
probe_step (looks timed_out) p = look timed_out p.result p

unfoldable pub probe : List Event → Probe → Probe
unfolding probe_step
probe [] p = p
probe (e ∷ es) p = probe es (probe_step e p)

abbrev pub connected : Probe
connected = record { fulfilled = false; setting = []; promise = unset; sets = 0; result = none }

-- The whole call, with what happens once the probe is connected; `none` while it still waits.
module _ (lookup_service : String → Option (String × ℕ)) (connect : String → ℕ → Bool) where
  -- With the address that the master gave, or none.
  unfoldable pub retrieve_from : String → Option (String × ℕ) → List Event → Option (Checked String)
  unfolding probe
  retrieve_from name none es = some (throws ("Failed to lookup service " ++ name))
  retrieve_from name (some (host, port)) es =
      if connect host port
      then (probe es connected).result
      else some (throws ("Failed to connect to service server of service " ++ name))

  unfoldable pub retrieve_service_type : String → List Event → Option (Checked String)
  unfolding retrieve_from
  retrieve_service_type name es = retrieve_from name (lookup_service name) es
