-- ===== src/Startup/Wiring/Exceptions.antt =====
-- Which exceptions of the bridge reach the SDK through the gateway's callbacks of
-- src/transport_manager.cpp.
use foxglove_bridge_ros.Prelude.{
  ℕ, ◌≡◌, refl, Bool, true, false, Option, none, some, if◌then◌else◌, arith,
}
use foxglove_bridge_ros.Capabilities.{Capability, GatewayCapability, FlagSet}
use foxglove_bridge_ros.Startup.{Platform}
use foxglove_bridge_ros.Startup.Wiring.{
  GatewayRequest, DelegateCall, on_client_connect, on_client_disconnect,
  on_connection_graph_subscribe, on_subscribe, on_unsubscribe, on_client_advertise,
  on_client_unadvertise, on_client_message, fetch_asset, enqueue_parameter_op, gateway_call,
  gateway_answer,
}

-- The functions of the bridge for client publishing.
abbrev pub is_client_publish : {P : Type 0} → DelegateCall P → Bool
is_client_publish on_client_connect = false
is_client_publish on_client_disconnect = false
is_client_publish (on_connection_graph_subscribe subscribes) = false
is_client_publish (on_subscribe channel client gateway sink) = false
is_client_publish (on_unsubscribe channel client gateway) = false
is_client_publish (on_client_advertise info client gateway) = true
is_client_publish (on_client_unadvertise channel client gateway) = true
is_client_publish (on_client_message channel client gateway data') = true
is_client_publish (fetch_asset uri responder) = false
is_client_publish (enqueue_parameter_op op) = false

-- What an exception of the call comes to.
abbrev pub left_over :
    {P S E : Type 0} → (DelegateCall P → S → S × Option E) → S → Option (DelegateCall P) → Option E
left_over delegate s none = none
left_over delegate s (some call) = if is_client_publish call then none else (delegate call s).1

-- An exception that the bridge throws for a client of the gateway is caught if it comes from client
-- publishing, and from nothing else: one from a subscription, the connection graph, an asset or a
-- parameter request goes on into the SDK.
pub gateway_answer-exceptions :
    {P S E : Type 0} (ws : FlagSet Capability) (gw : FlagSet GatewayCapability)
    (platform : Platform ws.Flags gw.Flags) (capabilities : ws.Flags) (backend : Bool)
    (sink : Option ℕ) (delegate : DelegateCall P → S → S × Option E) (request : GatewayRequest P)
    (s : S)
    → let call = gateway_call ws gw platform capabilities backend sink request in
      (gateway_answer delegate request call s).1 ≡ left_over delegate s call
unfolding gateway_answer gateway_call
gateway_answer-exceptions ws gw platform capabilities backend sink delegate
      GatewayRequest.graph_subscribe s =
    ground arith
gateway_answer-exceptions ws gw platform capabilities backend sink delegate
      GatewayRequest.graph_unsubscribe s =
    ground arith
gateway_answer-exceptions ws gw platform capabilities backend sink delegate
      (GatewayRequest.subscribe client channel) s =
    refl
gateway_answer-exceptions ws gw platform capabilities backend sink delegate
      (GatewayRequest.unsubscribe client channel) s =
    refl
gateway_answer-exceptions ws gw platform capabilities backend sink delegate
      (GatewayRequest.advertise client channel) s =
    ground arith
gateway_answer-exceptions ws gw platform capabilities backend sink delegate
      (GatewayRequest.unadvertise client channel) s =
    ground arith
gateway_answer-exceptions ws gw platform capabilities backend sink delegate
      (GatewayRequest.message client channel data') s =
    ground arith
gateway_answer-exceptions ws gw platform capabilities backend sink delegate
      (GatewayRequest.asset uri responder) s =
    ground arith
gateway_answer-exceptions ws gw platform capabilities backend sink delegate
      (GatewayRequest.parameter request) s =
    ground arith
