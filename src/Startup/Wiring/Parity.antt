-- ===== src/Startup/Wiring/Parity.antt =====
-- The two transports of src/transport_manager.cpp offer their clients the same.
use foxglove_bridge_ros.Prelude.{
  ℕ, ◌≡◌, refl, Bool, true, false, not, ◌&&◌, Option, none, some, or_else, if◌then◌else◌, arith,
}
use foxglove_bridge_ros.Capabilities.{Capability, GatewayCapability, FlagSet, has_capability}
use foxglove_bridge_ros.Startup.{Platform}
use foxglove_bridge_ros.Startup.Wiring.{
  ClientChannel, ChannelDescriptor, info_of_channel, info_of_descriptor, ServerRequest,
  GatewayRequest, DelegateCall, on_client_connect, on_client_disconnect,
  on_connection_graph_subscribe, on_subscribe, on_unsubscribe, on_client_advertise,
  on_client_unadvertise, on_client_message, fetch_asset, enqueue_parameter_op, server_call,
  gateway_call,
}

-- The request to the WebSocket server that asks for the same.
abbrev pub channel_of : ChannelDescriptor → ClientChannel
channel_of channel = record {
  id = channel.id;
  topic = channel.topic;
  encoding = channel.message_encoding;
  schema_name = or_else channel.schema "";
}

abbrev pub as_server : {P : Type 0} → Option ℕ → GatewayRequest P → ServerRequest P
as_server sink GatewayRequest.graph_subscribe = ServerRequest.graph_subscribe
as_server sink GatewayRequest.graph_unsubscribe = ServerRequest.graph_unsubscribe
as_server sink (GatewayRequest.subscribe client channel) =
    ServerRequest.subscribe channel.id client sink
as_server sink (GatewayRequest.unsubscribe client channel) =
    ServerRequest.unsubscribe channel.id client
as_server sink (GatewayRequest.advertise client channel) =
    ServerRequest.advertise client (channel_of channel)
as_server sink (GatewayRequest.unadvertise client channel) =
    ServerRequest.unadvertise client channel.id
as_server sink (GatewayRequest.message client channel data') =
    ServerRequest.message client channel.id data'
as_server sink (GatewayRequest.asset uri responder) = ServerRequest.asset uri responder
as_server sink (GatewayRequest.parameter request) = ServerRequest.parameter request

-- The same call, marked as the gateway's.
abbrev pub as_gateway : {P : Type 0} → DelegateCall P → DelegateCall P
as_gateway on_client_connect = on_client_connect
as_gateway on_client_disconnect = on_client_disconnect
as_gateway (on_connection_graph_subscribe subscribes) = on_connection_graph_subscribe subscribes
as_gateway (on_subscribe channel client gateway sink) = on_subscribe channel client true sink
as_gateway (on_unsubscribe channel client gateway) = on_unsubscribe channel client true
as_gateway (on_client_advertise info client gateway) = on_client_advertise info client true
as_gateway (on_client_unadvertise channel client gateway) =
    on_client_unadvertise channel client true
as_gateway (on_client_message channel client gateway data') =
    on_client_message channel client true data'
as_gateway (fetch_asset uri responder) = fetch_asset uri responder
as_gateway (enqueue_parameter_op op) = enqueue_parameter_op op

abbrev pub marked : {P : Type 0} → Option (DelegateCall P) → Option (DelegateCall P)
marked none = none
marked (some call) = some (as_gateway call)

abbrev pub asks_for_graph : {P : Type 0} → GatewayRequest P → Bool
asks_for_graph GatewayRequest.graph_subscribe = true
asks_for_graph GatewayRequest.graph_unsubscribe = true
asks_for_graph _ = false

-- A client of the gateway reaches the function of the bridge that the same request to the
-- WebSocket server reaches, marked as the gateway's, and is ignored where that one is; except that
-- the gateway also ignores requests for the connection graph where that capability is missing.
pub gateway_call-as_server :
    {P : Type 0} (ws : FlagSet Capability) (gw : FlagSet GatewayCapability)
    (platform : Platform ws.Flags gw.Flags) (capabilities : ws.Flags) (backend reports : Bool)
    (sink : Option ℕ) (request : GatewayRequest P)
    → gateway_call ws gw platform capabilities backend sink request ≡ (
        if asks_for_graph request
          && not (has_capability ws capabilities (ws.flag Capability.connection_graph))
        then none
        else marked
            (server_call ws gw platform capabilities backend reports (as_server sink request)))
unfolding gateway_call server_call info_of_channel info_of_descriptor
gateway_call-as_server ws gw platform capabilities backend reports sink
      GatewayRequest.graph_subscribe =
    ground arith
gateway_call-as_server ws gw platform capabilities backend reports sink
      GatewayRequest.graph_unsubscribe =
    ground arith
gateway_call-as_server ws gw platform capabilities backend reports sink
      (GatewayRequest.subscribe client channel) =
    refl
gateway_call-as_server ws gw platform capabilities backend reports sink
      (GatewayRequest.unsubscribe client channel) =
    refl
gateway_call-as_server ws gw platform capabilities backend reports sink
      (GatewayRequest.advertise client channel) =
    ground arith
gateway_call-as_server ws gw platform capabilities backend reports sink
      (GatewayRequest.unadvertise client channel) =
    ground arith
gateway_call-as_server ws gw platform capabilities backend reports sink
      (GatewayRequest.message client channel data') =
    ground arith
gateway_call-as_server ws gw platform capabilities backend reports sink
      (GatewayRequest.asset uri responder) =
    ground arith
gateway_call-as_server ws gw platform capabilities backend reports sink
      (GatewayRequest.parameter request) =
    ground arith
