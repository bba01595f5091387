-- ===== src/Options/Node.antt =====
-- What the constructor of src/ros1_foxglove_bridge.cpp reads from the node's parameters, with the
-- options that it makes of them for the TransportManager (include/foxglove_bridge/transport_manager.hpp).
-- The node handles of roscpp and the environment are arguments.
use foxglove_bridge_ros.Prelude.{
  ℕ, ◌^◌, String, Bool, true, false, Option, none, some, List, [], ◌∷◌, if◌then◌else◌, or_else,
  ◌==◌, string_eq,
}
use foxglove_bridge_ros.Prelude.Int.{ℤ, pos, to_unsigned, min_ℤ, max_ℤ}
use foxglove_bridge_ros.Utils.{RegexEngine, parse_regex_patterns, saturating_to_size_t}
use foxglove_bridge_ros.Capabilities.{Capability, FlagSet, has_capability, process_capabilities}
use foxglove_bridge_ros.Params.Values.{RosValue}
use foxglove_bridge_ros.Options.{
  Checked, ok, and_then, get_int_param_in_range, DracoMethod, parse_draco_method,
}

-- `ros::NodeHandle`: `getParam`, and `param<T>` with its default. An `int` is one of 32 bits.
pub record NodeHandle (D : Type 0) : Type 0 where
  pub get_param : String → Option (RosValue D)
  pub int_param : String → ℤ → ℤ
  pub bool_param : String → Bool → Bool
  pub string_param : String → String → String
  pub strings_param : String → List String → List String

-- `foxglove::DracoEncodeOptions`, as far as the bridge sets it.
pub record DracoOptions : Type 0 where
  pub method : DracoMethod
  pub quantization_bits : ℕ

pub record TransportOptions : Type 0 where
  pub host : String
  pub port : ℕ
  pub supported_encodings : List String
  pub capabilities : List String
  pub broadcast_time_capability : Bool
  pub server_info : Option (List (String × String))
  pub message_backlog_size : ℕ
  pub use_tls : Bool
  pub certfile : String
  pub keyfile : String
  pub notify_client_count : Bool
  pub remote_access : Bool
  pub device_token : String
  pub foxglove_api_url : String
  pub video_encoder : String
  pub max_data_track_message_size : Option ℕ
  pub sysinfo : Bool
  pub sysinfo_topic : String
  pub sysinfo_refresh_interval : ℤ

-- The members that the constructor sets from parameters. `param_whitelist` is there where a
-- parameter interface is made, which takes it.
pub record BridgeOptions (Regex : Type 0) : Type 0 where
  pub topic_whitelist : List Regex
  pub service_whitelist : List Regex
  pub param_whitelist : Option (List Regex)
  pub asset_uri_allowlist : List Regex
  pub video_transcode_topic_denylist : List Regex
  pub reliable_topics : List Regex
  pub point_cloud_compression_topic_denylist : List Regex
  pub point_cloud_compression : DracoOptions
  pub max_update_period_ms : ℕ
  pub service_type_retrieval_timeout_ms : ℤ
  pub service_call_timeout_ms : ℤ
  pub subscription_queue_length : ℤ
  pub debug : Bool
  pub use_sim_time : Bool
  pub transport : TransportOptions

abbrev pub min_data_track_message_size : ℕ
min_data_track_message_size = 1200

abbrev pub max_int : ℕ
max_int = 2147483647

abbrev pub default_capabilities : List String
default_capabilities =
    "assets" ∷ "clientPublish" ∷ "connectionGraph" ∷ "services" ∷ "parameters"
    ∷ "parametersSubscribe" ∷ []

abbrev pub default_asset_pattern : String
default_asset_pattern =
    "^package://(?:[-\\w%]+/)*[-\\w%.]+\\.(?:dae|fbx|glb|gltf|jpeg|jpg|mtl|obj|png|stl|tif|tiff|urdf|webp|xacro)$"

-- `ROS_DISTRO`, unless it is unset or empty.
unfoldable pub server_info_of : Option String → Option (List (String × String))
server_info_of none = none
server_info_of (some distro) = if distro == "" then none else some (("ROS_DISTRO", distro) ∷ [])

-- `std::clamp(port, 0, 65535)`, as a `uint16_t`.
unfoldable pub port_of : ℤ → ℕ
port_of port = to_unsigned (2 ^ 16) (min_ℤ (max_ℤ port (pos 0)) (pos 65535))

-- An integer that is not set leaves the default; the casts are to `uint8_t` and to `size_t`.
unfoldable pub quantization_of : ℕ → Option ℤ → ℕ
quantization_of default none = default
quantization_of default (some bits) = to_unsigned (2 ^ 8) bits

unfoldable pub data_track_of : ℕ → Option ℤ → Option ℕ
data_track_of size_mod none = none
data_track_of size_mod (some size) = some (to_unsigned size_mod size)

module _ {D : Type 0} (size_mod : ℕ) (max_quantization_bits : ℕ) (defaults : DracoOptions)
    (engine : RegexEngine String) (ws : FlagSet Capability) where
  -- With an unknown method, the default stays.
  unfoldable pub compression_of : NodeHandle D → Option ℤ → DracoOptions
  unfolding quantization_of
  compression_of private bits = record {
    method =
        or_else
          (parse_draco_method (private.string_param "point_cloud_compression_method" "kd-tree"))
          defaults.method;
    quantization_bits = quantization_of defaults.quantization_bits bits;
  }

  unfoldable pub transport_options :
      NodeHandle D → NodeHandle D → Option String → Option ℤ → TransportOptions
  unfolding server_info_of port_of data_track_of
  transport_options nh private distro max_size = record {
    host = private.string_param "address" "0.0.0.0";
    port = port_of (private.int_param "port" (pos 8765));
    supported_encodings = "ros1" ∷ [];
    capabilities = private.strings_param "capabilities" default_capabilities;
    broadcast_time_capability = nh.bool_param "/use_sim_time" false;
    server_info = server_info_of distro;
    message_backlog_size =
        saturating_to_size_t size_mod (private.int_param "message_backlog_size" (pos 1024)) (pos 0);
    use_tls = private.bool_param "tls" false;
    certfile = private.string_param "certfile" "";
    keyfile = private.string_param "keyfile" "";
    notify_client_count = false;
    remote_access = private.bool_param "remote_access" false;
    device_token = private.string_param "device_token" "";
    foxglove_api_url = private.string_param "foxglove_api_url" "";
    video_encoder = private.string_param "video_encoder" "auto";
    max_data_track_message_size = data_track_of size_mod max_size;
    sysinfo = private.bool_param "sysinfo" true;
    sysinfo_topic = private.string_param "sysinfo_topic" "/foxglove_bridge/sysinfo";
    sysinfo_refresh_interval = private.int_param "sysinfo_refresh_interval" (pos 500);
  }

  -- The list of patterns of one parameter.
  unfoldable pub patterns_of : NodeHandle D → String → List String → List engine.Regex
  patterns_of private name default =
      parse_regex_patterns engine (private.strings_param name default)

  -- The parameter interface is for the Parameters capability only.
  unfoldable pub param_whitelist_of : NodeHandle D → Option (List engine.Regex)
  unfolding patterns_of
  param_whitelist_of private =
      if has_capability ws
        (process_capabilities ws (private.strings_param "capabilities" default_capabilities))
        (ws.flag Capability.parameters)
      then some (patterns_of private "param_whitelist" (".*" ∷ []))
      else none

  -- With the two integers that may be refused.
  unfoldable pub bridge_options :
      NodeHandle D → NodeHandle D → Option String → Option ℤ → Option ℤ → BridgeOptions engine.Regex
  unfolding patterns_of param_whitelist_of compression_of transport_options
  bridge_options nh private distro bits max_size = record {
    topic_whitelist = patterns_of private "topic_whitelist" (".*" ∷ []);
    service_whitelist = patterns_of private "service_whitelist" (".*" ∷ []);
    param_whitelist = param_whitelist_of private;
    asset_uri_allowlist = patterns_of private "asset_uri_allowlist" (default_asset_pattern ∷ []);
    video_transcode_topic_denylist =
        patterns_of private "video_transcode_topic_denylist" (".*/compressedDepth" ∷ []);
    reliable_topics = patterns_of private "remote_access_reliable_topics" [];
    point_cloud_compression_topic_denylist =
        patterns_of private "point_cloud_compression_topic_denylist" [];
    point_cloud_compression = compression_of private bits;
    max_update_period_ms =
        saturating_to_size_t size_mod (private.int_param "max_update_ms" (pos 5000)) (pos 0);
    service_type_retrieval_timeout_ms =
        private.int_param "service_type_retrieval_timeout_ms" (pos 250);
    service_call_timeout_ms = private.int_param "service_call_timeout_ms" (pos 5000);
    subscription_queue_length = private.int_param "subscription_queue_length" (pos 10);
    debug = private.bool_param "debug" false;
    use_sim_time = nh.bool_param "/use_sim_time" false;
    transport = transport_options nh private distro max_size;
  }

  -- The second integer is read after the first is accepted.
  unfoldable pub read_options :
      NodeHandle D → NodeHandle D → Option String → Checked (BridgeOptions engine.Regex)
  unfolding bridge_options and_then
  read_options nh private distro =
      and_then
        (get_int_param_in_range private.get_param "point_cloud_compression_quantization_bits"
          (pos 1) (pos max_quantization_bits))
        (λ bits.
          and_then
            (get_int_param_in_range private.get_param "max_data_track_message_size"
              (pos min_data_track_message_size) (pos max_int))
            (λ max_size. ok (bridge_options nh private distro bits max_size)))
