-- ===== src/Lifetime/Safe.antt =====
-- No thread of the bridge calls a part that is not there (src/ros1_foxglove_bridge.cpp).
use foxglove_bridge_ros.Prelude.{◌≡◌, Bool, true, false, not, ◌&&◌, ◌||◌, List, [], ◌∷◌}
use foxglove_bridge_ros.Lifetime.{Bridge, after, Setup, nothing, life}

-- The threads that may call a part of the bridge, whenever they run.
pub data Actor : Type 0 where
  poll_loop update_server clock_callback parameter_worker : Actor
  server_client gateway_client topic_callback call_worker : Actor

-- What they call (the worker of a service call, which captures no `this`, calls none): the transports, also before they are stopped only; the parameter interface; and
-- the maps.
pub data Part : Type 0 where
  transports_object running_transports interface_object maps_of_bridge : Part

abbrev pub runs : Actor → Bridge → Bool
runs poll_loop b = b.poll_thread
runs update_server b = b.xmlrpc_server && b.has_update_func
runs clock_callback b = b.clock
runs parameter_worker b = b.worker
runs server_client b = b.server
runs gateway_client b = b.gateway
runs topic_callback b = b.ros_subscriptions
runs call_worker b = b.call_workers

abbrev pub is_there : Part → Bridge → Bool
is_there transports_object b = b.transports
is_there running_transports b = b.transports && not b.stopped
is_there interface_object b = b.interface
is_there maps_of_bridge b = b.maps

abbrev pub calls : Actor → Part → Bool
calls poll_loop running_transports = true
calls poll_loop maps_of_bridge = true
calls update_server running_transports = true
calls clock_callback transports_object = true
calls parameter_worker interface_object = true
calls server_client maps_of_bridge = true
calls gateway_client maps_of_bridge = true
calls topic_callback maps_of_bridge = true
calls _ _ = false

-- Whoever runs finds what it calls; and once the transports are constructed, a subscription that
-- comes through the gateway finds `_gateway`, which it asks for the session's sink.
pub IsSafe : Bridge → Type 0
IsSafe b =
    ((a : Actor) (p : Part) → calls a p ≡ true → runs a b ≡ true → is_there p b ≡ true)
    × (b.transports ≡ true → runs gateway_client b ≡ true → b.gateway_pointer ≡ true)

abbrev pub implies : Bool → Bool → Bool
implies a b = not a || b

abbrev pub is_safe : Bridge → Bool
is_safe b =
    implies b.poll_thread (b.transports && not b.stopped && b.maps)
    && implies (b.xmlrpc_server && b.has_update_func) (b.transports && not b.stopped)
    && implies b.clock b.transports
    && implies b.worker b.interface
    && implies (b.server || b.gateway || b.ros_subscriptions) b.maps
    && implies (b.transports && b.gateway) b.gateway_pointer

all_safe : List Bridge → Bool
all_safe [] = true
all_safe (b ∷ states) = is_safe b && all_safe states

-- A thread is left that would call a part.
abbrev pub runs_any : Bridge → Bool
runs_any b =
    b.poll_thread || b.xmlrpc_server || b.clock || b.worker || b.server || b.gateway || b.sysinfo
    || b.ros_subscriptions

-- A test at both values of a Boolean.
both : (Bool → Bool) → Bool
both f = f true && f false

-- A whole life is safe and ends with nothing running.
lives_well : Bool → Bool → Bool → Bool → Bool → Bool → Bool
lives_well parameters server sysinfo gateway gateway_starts clock =
    let setup : Setup = record {
      wants_parameters = parameters;
      server_starts = server;
      sysinfo_starts = sysinfo;
      wants_gateway = gateway;
      gateway_starts = gateway_starts;
      use_sim_time = clock;
    } in
    all_safe (life setup nothing) && not (runs_any (after (life setup) nothing))
