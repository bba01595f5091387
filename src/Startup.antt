-- ===== src/Startup.antt =====
-- The constructor of `TransportManager` and `createGateway` of src/transport_manager.cpp. The file
-- system, the environment and the SDK's constructors are an interface; an exception is `throws`
-- with its message.
pub mod Succeeds
pub mod Wiring
use Prim.Native.String.{◌++◌}
use foxglove_bridge_ros.Prelude.{
  ℕ, ◌≡◌, String, Bool, true, false, not, ◌&&◌, ◌||◌, Option, none, some, List, [], ◌∷◌, is_some,
  if◌then◌else◌, or_else, ◌==◌, string_eq,
}
use foxglove_bridge_ros.Prelude.Int.{ℤ}
use foxglove_bridge_ros.Capabilities.{
  Capability, GatewayCapability, FlagSet, has_capability, process_capabilities,
  to_gateway_capabilities,
}
use foxglove_bridge_ros.Options.{
  Checked, ok, throws, and_then, VideoEncoderBackend, parse_video_encoder_backend,
}
use foxglove_bridge_ros.Options.Node.{TransportOptions}

abbrev pub Bytes : Type 0
Bytes = List ℕ

abbrev pub ServerInfo : Type 0
ServerInfo = Option (List (String × String))

-- `foxglove::WebSocketServerOptions` without its callbacks.
pub record ServerOptions (Flags : Type 0) : Type 0 where
  pub host : String
  pub port : ℕ
  pub supported_encodings : List String
  pub capabilities : Flags
  pub server_info : ServerInfo
  pub message_backlog_size : ℕ
  pub tls_identity : Option (Bytes × Bytes)
  pub reports_clients : Bool

-- `foxglove::RemoteAccessGatewayOptions` without its callbacks; `none` is the SDK's default.
pub record GatewayOptions (Flags : Type 0) : Type 0 where
  pub device_token : String
  pub supported_encodings : List String
  pub server_info : ServerInfo
  pub message_backlog_size : ℕ
  pub max_data_track_message_size : Option ℕ
  pub foxglove_api_url : Option String
  pub video_encoder : Option VideoEncoderBackend
  pub capabilities : Flags

-- What the constructor calls. A `create` gives the error's text, or nothing.
pub record Platform (W G : Type 0) : Type 0 where
  pub exists : String → Bool
  pub opens : String → Bool
  pub read : String → Option Bytes
  pub device_token : Option String
  pub create_server : ServerOptions W → Option String
  pub create_sysinfo : String → ℤ → Option String
  pub create_gateway : GatewayOptions G → Option String

-- A `TransportManager` that has started: which parts it has, and how they were made.
pub record Started (W G : Type 0) : Type 0 where
  pub capabilities : W
  pub server : ServerOptions W
  pub sysinfo : Bool
  pub gateway : Option (GatewayOptions G)
  pub worker : Bool

module _ (ws : FlagSet Capability) (gw : FlagSet GatewayCapability)
    (platform : Platform ws.Flags gw.Flags) where
  unfoldable pub read_file : String → Checked Bytes
  read_file path =
      if not (platform.opens path)
      then throws ("Failed to open file: " ++ path)
      else elim (platform.read path) [
        | none ↦ throws ("Failed to read file: " ++ path)
        | some content ↦ ok content
      ]

  unfoldable pub check_file : String → String → Checked (Unit {0})
  check_file what path =
      if path == "" || not (platform.exists path)
      then throws (what ++ " must be provided when TLS is enabled and must exist")
      else ok tt

  -- Both names are checked before either file is read.
  unfoldable pub load_files : String → String → Checked (Option (Bytes × Bytes))
  unfolding read_file check_file and_then
  load_files certfile keyfile = and_then (check_file "certfile" certfile) (λ _.
      and_then (check_file "keyfile" keyfile) (λ _.
        and_then (read_file certfile)
          (λ cert. and_then (read_file keyfile) (λ key. ok (some (cert, key))))))

  unfoldable pub load_identity : TransportOptions → Checked (Option (Bytes × Bytes))
  unfolding load_files
  load_identity options =
      if options.use_tls then load_files options.certfile options.keyfile else ok none

  unfoldable pub server_options : TransportOptions → Option (Bytes × Bytes) → ServerOptions ws.Flags
  server_options options identity =
      let capabilities = process_capabilities ws options.capabilities in
      record {
        host = options.host;
        port = options.port;
        supported_encodings = options.supported_encodings;
        capabilities =
            if options.broadcast_time_capability
            then ws.join capabilities (ws.flag Capability.time)
            else capabilities;
        server_info = options.server_info;
        message_backlog_size = options.message_backlog_size;
        tls_identity = identity;
        reports_clients = options.notify_client_count;
      }

  unfoldable pub start_server : ServerOptions ws.Flags → Checked (Unit {0})
  start_server options = elim (platform.create_server options) [
    | none ↦ ok tt
    | some error ↦ throws ("Couldn't initialize websocket server: " ++ error)
  ]

  -- A publisher that does not start is logged, and is not there.
  unfoldable pub start_sysinfo : TransportOptions → Bool
  start_sysinfo options =
      options.sysinfo
      && not
          (is_some (platform.create_sysinfo options.sysinfo_topic options.sysinfo_refresh_interval))

  unfoldable pub device_token_of : TransportOptions → String
  device_token_of options =
      if options.device_token == "" then or_else platform.device_token "" else options.device_token

  unfoldable pub gateway_options : TransportOptions → GatewayOptions gw.Flags
  unfolding device_token_of
  gateway_options options = record {
    device_token = device_token_of options;
    supported_encodings = options.supported_encodings;
    server_info = options.server_info;
    message_backlog_size = options.message_backlog_size;
    max_data_track_message_size = options.max_data_track_message_size;
    foxglove_api_url =
        if options.foxglove_api_url == "" then none else some options.foxglove_api_url;
    video_encoder = parse_video_encoder_backend options.video_encoder;
    capabilities = to_gateway_capabilities ws gw (process_capabilities ws options.capabilities);
  }

  unfoldable pub create_gateway : TransportOptions → Checked (GatewayOptions gw.Flags)
  unfolding gateway_options device_token_of
  create_gateway options =
      if device_token_of options == ""
      then throws "missing device_token for remote_access"
      else elim (platform.create_gateway (gateway_options options)) [
        | none ↦ ok (gateway_options options)
        | some error ↦ throws ("Failed to create remote access gateway: " ++ error)
      ]

  -- In a build with remote access, or without it.
  unfoldable pub start_gateway :
      Bool → TransportOptions → Checked (Option (GatewayOptions gw.Flags))
  unfolding create_gateway and_then
  start_gateway with_remote_access options =
      if not options.remote_access
      then ok none
      else if with_remote_access
      then and_then (create_gateway options) (λ gateway. ok (some gateway))
      else throws
          "remote_access is set to true but the bridge was not built with FOXGLOVE_BRIDGE_REMOTE_ACCESS=ON. Remote access is not available."

  -- The test for serving parameters, at each of its places: there is a backend, and the capability.
  unfoldable pub serves_parameters : Bool → ws.Flags → Bool
  serves_parameters backend capabilities =
      backend && has_capability ws capabilities (ws.flag Capability.parameters)

  -- `TransportManager::TransportManager`, with a parameter backend or none.
  unfoldable pub construct : Bool → Bool → TransportOptions → Checked (Started ws.Flags gw.Flags)
  unfolding load_identity server_options start_server start_sysinfo start_gateway serves_parameters
      and_then
  construct with_remote_access backend options =
      let capabilities = process_capabilities ws options.capabilities in
      and_then (load_identity options) (λ identity.
        let server = server_options options identity in
        and_then (start_server server) (λ _.
          and_then (start_gateway with_remote_access options) (λ gateway. ok (record {
            capabilities = capabilities;
            server = server;
            sysinfo = start_sysinfo options;
            gateway = gateway;
            worker = serves_parameters backend capabilities;
          }))))
