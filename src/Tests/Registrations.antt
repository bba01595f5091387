-- ===== src/Tests/Registrations.antt =====
-- Requests for parameters at concrete inputs: what the master has registered after them.
use foxglove_bridge_ros.Prelude.{
  ◌≡◌, refl, String, Bool, true, false, none, [], ◌∷◌, List, contains, string_eq,
}
use foxglove_bridge_ros.Prelude.Int.{pos}
use foxglove_bridge_ros.Capabilities.{Capability, has_capability}
use foxglove_bridge_ros.Params.Interface.{ParamInterface}
use foxglove_bridge_ros.Params.Worker.{Manager}
use foxglove_bridge_ros.Startup.{serves_parameters}
use foxglove_bridge_ros.Startup.Wiring.{
  ServerRequest, GatewayRequest, get_parameters, subscribe_parameters, unsubscribe_parameters,
}
use foxglove_bridge_ros.Requests.{BridgeState}
use foxglove_bridge_ros.Requests.Registers.{
  Event, requests, works, asked_by, wanted, happen, drained, registered-happen,
}
use foxglove_bridge_ros.Tests.Samples.{engine, Param, params, channels}
use foxglove_bridge_ros.Tests.Flags.{is_same, server_flags, gateway_flags}
use foxglove_bridge_ros.Tests.Startups.{platform}
use foxglove_bridge_ros.Tests.Mixtures.{host}
use foxglove_bridge_ros.Tests.Parameters.{master, registry, all_names, of_int}

abbrev fresh : Manager (ParamInterface (List String)) Param
fresh = record {
  backend = record {
    world = [];
    shut_down = false;
    subscribed_params = [];
    has_update_func = true;
    server_running = true;
  };
  op_queue = [];
  op_shutdown = false;
  subscriber_count = [];
  worker_alive = true;
  stopped = false;
  answers = [];
}

abbrev bridge : BridgeState (ParamInterface (List String)) Param String
bridge = record {
  channels = channels;
  advertised = [];
  poll = record {
    graph_subscription_count = pos 0;
    poll_poke = false;
    update_count = 0;
    max_update_period_ms = 5000;
  };
  manager = fresh;
  outputs = [];
}

abbrev with_parameters : Capability → Bool
with_parameters = is_same Capability.parameters

-- Clients of both transports want "/a", one of them leaves, and the bridge's own parameters are out
-- of reach.
abbrev events : List (Event Param)
events =
    requests false
      (ServerRequest.parameter (subscribe_parameters ("/a" ∷ "/bridge/device_token" ∷ [])))
    ∷ requests true (GatewayRequest.parameter (subscribe_parameters ("/a" ∷ "/b" ∷ [])))
    ∷ works
    ∷ requests false (ServerRequest.parameter (unsubscribe_parameters ("/a" ∷ "/b" ∷ [])))
    ∷ works
    ∷ requests true (GatewayRequest.parameter (get_parameters ("/a" ∷ []) 1))
    ∷ []

abbrev at_last : ParamInterface (List String)
at_last =
    (drained engine "/bridge" all_names params master of_int host server_flags gateway_flags
      platform with_parameters true none
      (happen engine "/bridge" all_names params master of_int host server_flags gateway_flags
        platform with_parameters true none events bridge)).backend

registered-happen_example :
    (contains "/a" at_last.subscribed_params
      ≡ wanted engine "/bridge" all_names (asked_by events) "/a")
    × (contains "/b" at_last.world ≡ true
        → (name : String) × (wanted engine "/bridge" all_names (asked_by events) name ≡ true)
          × (master.resolve name ≡ "/b"))
unfolding serves_parameters has_capability
registered-happen_example =
    registered-happen engine "/bridge" all_names params master of_int host server_flags
      gateway_flags platform with_parameters true none registry (λ n w. refl) (λ n w. refl) refl
      events bridge "/a" "/b" refl refl refl refl refl refl (λ name. refl)
