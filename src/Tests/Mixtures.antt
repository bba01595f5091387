-- ===== src/Tests/Mixtures.antt =====
-- Requests of both transports at concrete inputs, where a client of each has the same id.
use foxglove_bridge_ros.Prelude.{
  ℕ, ◌≡◌, String, Bool, true, false, none, some, List, [], ◌∷◌, lookup, nat_eq, string_eq, any,
  ◌==◌, if◌then◌else◌,
}
use foxglove_bridge_ros.Prelude.Int.{pos}
use foxglove_bridge_ros.Channels.Sharing.{is_subscriber}
use foxglove_bridge_ros.ClientChannels.{key_eq, key_of}
use foxglove_bridge_ros.Capabilities.{Capability}
use foxglove_bridge_ros.Startup.Wiring.{
  ServerRequest, GatewayRequest, ClientChannel, ChannelDescriptor,
}
use foxglove_bridge_ros.Options.{ok, throws}
use foxglove_bridge_ros.Requests.{Host, BridgeState, RequestOf, serve_all}
use foxglove_bridge_ros.Requests.Mixed.{serve_all-separates}
use foxglove_bridge_ros.Tests.Samples.{channels}
use foxglove_bridge_ros.Tests.Flags.{is_same, server_flags, gateway_flags}
use foxglove_bridge_ros.Tests.Startups.{platform}
use foxglove_bridge_ros.Tests.Clients.{describe, ros_advertise}
use foxglove_bridge_ros.Tests.Access.{bytes_engine, retrieve}
use foxglove_bridge_ros.Tests.Parameters.{idle}

abbrev pub host : Host String bytes_engine
host = record {
  message_description = λ name. elim (describe name) [ none ↦ throws "" | some d ↦ ok d ];
  ros_advertise = λ publishers options.
      if any (λ p. p == options.topic) publishers then none else ros_advertise options;
  queue_length = pos 10;
  bytes_of = λ uri. [];
  asset_uri_allowlist = [];
  retrieve = retrieve;
}

abbrev bridge : BridgeState ℕ String String
bridge = record {
  channels = channels;
  advertised = [];
  poll = record {
    graph_subscription_count = pos 0;
    poll_poke = false;
    update_count = 0;
    max_update_period_ms = 5000;
  };
  manager = idle;
  outputs = [];
}

abbrev publishing : Capability → Bool
publishing = is_same Capability.client_publish

abbrev twist_topic : ChannelDescriptor
twist_topic = record {
  id = 1;
  topic = "/cmd_vel";
  message_encoding = "ros1";
  schema = some "geometry_msgs/Twist";
}

abbrev pose_topic : ClientChannel
pose_topic = record {
  id = 1;
  topic = "/pose";
  encoding = "ros1";
  schema_name = "geometry_msgs/Twist";
}

abbrev requests : List ((t : Bool) × RequestOf String t)
requests =
    (false, ServerRequest.advertise 5 pose_topic)
    ∷ (true, GatewayRequest.advertise 5 twist_topic)
    ∷ (false, ServerRequest.subscribe 1 5 none)
    ∷ (true, GatewayRequest.subscribe 5 twist_topic)
    ∷ (false, ServerRequest.unsubscribe 1 5)
    ∷ (false, ServerRequest.unadvertise 5 1)
    ∷ []

abbrev of_server : List ((t : Bool) × RequestOf String t)
of_server =
    (false, ServerRequest.advertise 5 pose_topic)
    ∷ (false, ServerRequest.subscribe 1 5 none)
    ∷ (false, ServerRequest.unsubscribe 1 5)
    ∷ (false, ServerRequest.unadvertise 5 1)
    ∷ []

-- The requests of the gateway among them, and those of the server.
abbrev of_gateway : List ((t : Bool) × RequestOf String t)
of_gateway =
    (true, GatewayRequest.advertise 5 twist_topic)
    ∷ (true, GatewayRequest.subscribe 5 twist_topic)
    ∷ []

abbrev after : List ((t : Bool) × RequestOf String t) → BridgeState ℕ String String
after rs = serve_all host server_flags gateway_flags platform publishing true true none rs bridge

serve_all-separates_example :
    (is_subscriber (after requests).channels 1 true 5
      ≡ is_subscriber (after of_gateway).channels 1 true 5)
    × (lookup (key_of 1 5 true) (after of_server).advertised
        ≡ lookup (key_of 1 5 true) bridge.advertised)
serve_all-separates_example =
    serve_all-separates host server_flags gateway_flags platform publishing true true none true
      requests bridge 1 5
