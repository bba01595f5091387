-- ===== src/Startup/Wiring.antt =====
-- The callbacks that `wireWebSocketCallbacks`, `createGateway` and `wireParameterCallbacks` of
-- src/transport_manager.cpp set on the two transports: which request of a client reaches which
-- function of the `BridgeDelegate`, and where an exception is caught.
pub mod Exceptions
pub mod Parity
pub mod Worker
use foxglove_bridge_ros.Prelude.{
  ℕ, String, Bool, true, false, ◌&&◌, Option, none, some, List, [], ◌∷◌, if◌then◌else◌, or_else,
}
use foxglove_bridge_ros.Capabilities.{Capability, GatewayCapability, FlagSet, has_capability}
use foxglove_bridge_ros.ClientChannels.{ClientChannelInfo}
use foxglove_bridge_ros.Params.Worker.{ParameterOp, get_op, set_op, subscribe_op, unsubscribe_op}
use foxglove_bridge_ros.Startup.{Platform, serves_parameters}

-- `foxglove::ClientChannel`, and `foxglove::ChannelDescriptor`, whose schema may be absent.
pub record ClientChannel : Type 0 where
  pub id : ℕ
  pub topic : String
  pub encoding : String
  pub schema_name : String

pub record ChannelDescriptor : Type 0 where
  pub id : ℕ
  pub topic : String
  pub message_encoding : String
  pub schema : Option String

-- The two functions `toClientChannelInfo`.
unfoldable pub info_of_channel : ClientChannel → ClientChannelInfo
info_of_channel channel = record {
  id = channel.id;
  topic = channel.topic;
  encoding = channel.encoding;
  schema_name = channel.schema_name;
}

unfoldable pub info_of_descriptor : ChannelDescriptor → ClientChannelInfo
info_of_descriptor channel = record {
  id = channel.id;
  topic = channel.topic;
  encoding = channel.message_encoding;
  schema_name = or_else channel.schema "";
}

-- A responder is its number.
pub data ParameterRequest (P : Type 0) : Type 0 where
  subscribe_parameters unsubscribe_parameters : List String → ParameterRequest P
  get_parameters : List String → ℕ → ParameterRequest P
  set_parameters : List P → ℕ → ParameterRequest P

-- What a client of the WebSocket server asks for; clients may also come and go.
pub data ServerRequest (P : Type 0) : Type 0 where
  connect disconnect graph_subscribe graph_unsubscribe : ServerRequest P
  subscribe : ℕ → ℕ → Option ℕ → ServerRequest P
  unsubscribe : ℕ → ℕ → ServerRequest P
  advertise : ℕ → ClientChannel → ServerRequest P
  unadvertise : ℕ → ℕ → ServerRequest P
  message : ℕ → ℕ → List ℕ → ServerRequest P
  asset : String → ℕ → ServerRequest P
  parameter : ParameterRequest P → ServerRequest P

-- What a client of the gateway asks for.
pub data GatewayRequest (P : Type 0) : Type 0 where
  graph_subscribe graph_unsubscribe : GatewayRequest P
  subscribe unsubscribe advertise unadvertise : ℕ → ChannelDescriptor → GatewayRequest P
  message : ℕ → ChannelDescriptor → List ℕ → GatewayRequest P
  asset : String → ℕ → GatewayRequest P
  parameter : ParameterRequest P → GatewayRequest P

-- A call of the delegate, or an operation for the parameter worker.
pub data DelegateCall (P : Type 0) : Type 0 where
  on_client_connect on_client_disconnect : DelegateCall P
  on_connection_graph_subscribe : Bool → DelegateCall P
  on_subscribe : ℕ → ℕ → Bool → Option ℕ → DelegateCall P
  on_unsubscribe : ℕ → ℕ → Bool → DelegateCall P
  on_client_advertise : ClientChannelInfo → ℕ → Bool → DelegateCall P
  on_client_unadvertise : ℕ → ℕ → Bool → DelegateCall P
  on_client_message : ℕ → ℕ → Bool → List ℕ → DelegateCall P
  fetch_asset : String → ℕ → DelegateCall P
  enqueue_parameter_op : ParameterOp P → DelegateCall P

-- `wireParameterCallbacks`, for either transport.
unfoldable pub parameter_op : {P : Type 0} → ParameterRequest P → ParameterOp P
parameter_op (subscribe_parameters names) = subscribe_op names
parameter_op (unsubscribe_parameters names) = unsubscribe_op names
parameter_op (get_parameters names responder) = get_op names responder
parameter_op (set_parameters parameters responder) = set_op parameters responder

-- A callback that is only there under a condition.
abbrev pub only_if {ℓ} : {A : Type ℓ} → Bool → A → Option A
only_if wanted call = if wanted then some call else none

module _ (ws : FlagSet Capability) (gw : FlagSet GatewayCapability)
    (platform : Platform ws.Flags gw.Flags) (capabilities : ws.Flags) (backend : Bool) where
  abbrev pub has : Capability → Bool
  has c = has_capability ws capabilities (ws.flag c)

  -- The callbacks of the WebSocket server; `reports_clients` is the option `notifyClientCount`.
  unfoldable pub server_call : {P : Type 0} → Bool → ServerRequest P → Option (DelegateCall P)
  unfolding info_of_channel parameter_op
  server_call reports_clients ServerRequest.connect = only_if reports_clients on_client_connect
  server_call reports_clients ServerRequest.disconnect =
      only_if reports_clients on_client_disconnect
  server_call reports_clients ServerRequest.graph_subscribe =
      some (on_connection_graph_subscribe true)
  server_call reports_clients ServerRequest.graph_unsubscribe =
      some (on_connection_graph_subscribe false)
  server_call reports_clients (ServerRequest.subscribe channel client sink) =
      some (on_subscribe channel client false sink)
  server_call reports_clients (ServerRequest.unsubscribe channel client) =
      some (on_unsubscribe channel client false)
  server_call reports_clients (ServerRequest.advertise client channel) =
      only_if (has Capability.client_publish)
        (on_client_advertise (info_of_channel channel) client false)
  server_call reports_clients (ServerRequest.unadvertise client channel) =
      only_if (has Capability.client_publish) (on_client_unadvertise channel client false)
  server_call reports_clients (ServerRequest.message client channel data') =
      only_if (has Capability.client_publish) (on_client_message channel client false data')
  server_call reports_clients (ServerRequest.asset uri responder) =
      only_if (has Capability.assets) (fetch_asset uri responder)
  server_call reports_clients (ServerRequest.parameter request) =
      only_if (serves_parameters ws gw platform backend capabilities)
        (enqueue_parameter_op (parameter_op request))

  -- The callbacks of the gateway, where `session_sink` is `_gateway->sinkId()`.
  unfoldable pub gateway_call : {P : Type 0} → Option ℕ → GatewayRequest P → Option (DelegateCall P)
  unfolding info_of_descriptor parameter_op
  gateway_call session_sink GatewayRequest.graph_subscribe =
      only_if (has Capability.connection_graph) (on_connection_graph_subscribe true)
  gateway_call session_sink GatewayRequest.graph_unsubscribe =
      only_if (has Capability.connection_graph) (on_connection_graph_subscribe false)
  gateway_call session_sink (GatewayRequest.subscribe client channel) =
      some (on_subscribe channel.id client true session_sink)
  gateway_call session_sink (GatewayRequest.unsubscribe client channel) =
      some (on_unsubscribe channel.id client true)
  gateway_call session_sink (GatewayRequest.advertise client channel) =
      only_if (has Capability.client_publish)
        (on_client_advertise (info_of_descriptor channel) client true)
  gateway_call session_sink (GatewayRequest.unadvertise client channel) =
      only_if (has Capability.client_publish) (on_client_unadvertise channel.id client true)
  gateway_call session_sink (GatewayRequest.message client channel data') =
      only_if (has Capability.client_publish) (on_client_message channel.id client true data')
  gateway_call session_sink (GatewayRequest.asset uri responder) =
      only_if (has Capability.assets) (fetch_asset uri responder)
  gateway_call session_sink (GatewayRequest.parameter request) =
      only_if (serves_parameters ws gw platform backend capabilities)
        (enqueue_parameter_op (parameter_op request))

-- The callbacks of the gateway whose body is in a `try` that catches and logs `std::exception`.
unfoldable pub catches : {P : Type 0} → GatewayRequest P → Bool
catches GatewayRequest.graph_subscribe = false
catches GatewayRequest.graph_unsubscribe = false
catches (GatewayRequest.subscribe client channel) = false
catches (GatewayRequest.unsubscribe client channel) = false
catches (GatewayRequest.advertise client channel) = true
catches (GatewayRequest.unadvertise client channel) = true
catches (GatewayRequest.message client channel data') = true
catches (GatewayRequest.asset uri responder) = false
catches (GatewayRequest.parameter request) = false

-- What a request to the gateway comes to: nothing where no callback is set, or else the delegate's
-- call, whose exception is caught and logged in some callbacks.
unfoldable pub gateway_answer :
    {P S E : Type 0}
    → (DelegateCall P → S → S × Option E)
    → GatewayRequest P
    → Option (DelegateCall P)
    → S
    → S × Option E
unfolding catches
gateway_answer delegate request none s = (s, none)
gateway_answer delegate request (some call) s =
    let (s', exception) = delegate call s in (s', if catches request then none else exception)
