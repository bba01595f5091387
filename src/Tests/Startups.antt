-- ===== src/Tests/Startups.antt =====
-- Reading the options and starting the transports at concrete inputs.
use foxglove_bridge_ros.Prelude.{
  ◌↔◌, ℕ, ◌^◌, ◌<◌, ◌≡◌, refl, String, Bool, true, false, Option, none, some, is_some, [], ◌∷◌,
  lookup, ◌==◌, string_eq, arith, if◌then◌else◌,
}
use foxglove_bridge_ros.Prelude.Int.{ℤ, pos, negsuc, pos_part}
use foxglove_bridge_ros.Params.Values.{RosValue, int}
use foxglove_bridge_ros.Options.{kd_tree, ok, get_int_param_in_range, and_then}
use foxglove_bridge_ros.Options.Node.{
  NodeHandle, DracoOptions, TransportOptions, BridgeOptions, bridge_options, read_options,
}
use foxglove_bridge_ros.Options.Bounds.{IsUnsetOrWithin, read_options_ok_iff, read_options_numbers}
use foxglove_bridge_ros.Capabilities.{
  Capability, has_capability, process_capabilities, process_from, add_named,
}
use foxglove_bridge_ros.Startup.{
  Platform, Started, gateway_options, construct, load_identity, start_server, start_gateway,
}
use foxglove_bridge_ros.Startup.Succeeds.{started_with}
use foxglove_bridge_ros.Startup.Wiring.{
  ParameterRequest, get_parameters, ServerRequest, GatewayRequest, ChannelDescriptor, DelegateCall,
  enqueue_parameter_op, parameter_op, server_call, gateway_call,
}
use foxglove_bridge_ros.Startup.Wiring.Parity.{as_server, marked, gateway_call-as_server}
use foxglove_bridge_ros.Startup.Wiring.Worker.{parameter_requests-capabilities}
use foxglove_bridge_ros.Tests.Samples.{engine}
use foxglove_bridge_ros.Tests.Flags.{is_same, server_flags, gateway_flags}

-- The port is negative, and the data-track limit is set.
abbrev get_param : String → Option (RosValue ℤ)
get_param name = if name == "max_data_track_message_size" then some (int (pos 1400)) else none

abbrev int_param : String → ℤ → ℤ
int_param name default = if name == "port" then negsuc 0 else default

abbrev node : NodeHandle ℤ
node = record {
  get_param = get_param;
  int_param = int_param;
  bool_param = λ name default. default;
  string_param = λ name default. default;
  strings_param = λ name default. default;
}

abbrev defaults : DracoOptions
defaults = record { method = kd_tree; quantization_bits = 14 }

abbrev options : BridgeOptions String
options =
    bridge_options (2 ^ 64) 30 defaults engine server_flags node node (some "noetic") none
      (some (pos 1400))

options_read :
    read_options (2 ^ 64) 30 defaults engine server_flags node node (some "noetic") ≡ ok options
unfolding read_options get_int_param_in_range
options_read = refl

read_options_ok_iff_example :
    ((o : BridgeOptions String) × (read_options
          (2 ^ 64)
          30
          defaults
          engine
          server_flags
          node
          node
          (some "noetic")
        ≡ ok o))
    ↔ (IsUnsetOrWithin (get_param "point_cloud_compression_quantization_bits") (pos 1) (pos 30)
        × IsUnsetOrWithin (get_param "max_data_track_message_size") (pos 1200) (pos 2147483647))
read_options_ok_iff_example =
    read_options_ok_iff (2 ^ 64) 30 defaults engine server_flags node node (some "noetic")

small_ints :
    (name : String) (default : ℤ)
    → pos_part default < 2 ^ 31
    → pos_part (int_param name default) < 2 ^ 31
small_ints name default h = ground arith

read_options_numbers_example :
    (options.transport.port ≡ 0)
    × (options.transport.message_backlog_size ≡ 1024)
    × (options.max_update_period_ms ≡ 5000)
    × ((bits : ℤ)
        → get_param "point_cloud_compression_quantization_bits" ≡ some (int bits)
        → pos options.point_cloud_compression.quantization_bits ≡ bits)
    × ((size : ℤ)
        → get_param "max_data_track_message_size" ≡ some (int size)
        → (n : ℕ) × (options.transport.max_data_track_message_size ≡ some n) × (pos n ≡ size))
read_options_numbers_example =
    read_options_numbers (2 ^ 64) 30 defaults engine server_flags node node (some "noetic") options
      (omega arith) (omega arith) small_ints options_read

-- Remote access with a token from the environment; system information is not to be had.
abbrev pub platform : Platform server_flags.Flags gateway_flags.Flags
platform = record {
  exists = λ path. true;
  opens = λ path. true;
  read = λ path. some (1 ∷ 2 ∷ []);
  device_token = some "token";
  create_server = λ o. none;
  create_sysinfo = λ topic interval. some "no permission";
  create_gateway = λ o. none;
}

abbrev remote : TransportOptions
remote = record options.transport {
  remote_access = true;
  use_tls = true;
  certfile = "/c";
  keyfile = "/k";
}

abbrev with_both : Started server_flags.Flags gateway_flags.Flags
with_both =
    started_with server_flags gateway_flags platform true remote (some (1 ∷ 2 ∷ [], 1 ∷ 2 ∷ []))
      (some (gateway_options server_flags gateway_flags platform remote))

abbrev channel : ChannelDescriptor
channel = record { id = 4; topic = "/joy"; message_encoding = "ros1"; schema = none }

abbrev requested : GatewayRequest String
requested = GatewayRequest.advertise 7 channel

abbrev publishing : Capability → Bool
publishing = is_same Capability.client_publish

gateway_call-as_server_example :
    gateway_call server_flags gateway_flags platform publishing true none requested
    ≡ marked (
        server_call server_flags gateway_flags platform publishing true false
          (as_server none requested))
gateway_call-as_server_example =
    gateway_call-as_server server_flags gateway_flags platform publishing true false none requested

-- A bridge that throws at everything.
abbrev failing : DelegateCall String → ℕ → ℕ × Option String
failing call s = (s, some "no")

abbrev started : Started server_flags.Flags gateway_flags.Flags
started = started_with server_flags gateway_flags platform true options.transport none none

bridge_started :
    construct server_flags gateway_flags platform true
      (is_some options.param_whitelist)
      options.transport
    ≡ ok started
unfolding construct load_identity start_server start_gateway and_then has_capability
    process_capabilities process_from add_named lookup bridge_options
bridge_started = refl

abbrev request : ParameterRequest String
request = get_parameters ("/a" ∷ []) 5

parameter_requests-capabilities_example :
    (started.worker ≡ true)
    × (server_call server_flags gateway_flags platform started.capabilities
          (is_some options.param_whitelist)
          false
          (ServerRequest.parameter request)
        ≡ some (enqueue_parameter_op (parameter_op request)))
    × (gateway_call server_flags gateway_flags platform started.capabilities
          (is_some options.param_whitelist)
          none
          (GatewayRequest.parameter request)
        ≡ some (enqueue_parameter_op (parameter_op request)))
parameter_requests-capabilities_example =
    parameter_requests-capabilities server_flags gateway_flags platform (2 ^ 64) 30 defaults engine
      node node (some "noetic") true false none options started request options_read bridge_started
