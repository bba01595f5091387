-- ===== src/Requests/Queued.antt =====
-- What the requests of the clients put in the parameter worker's queue (src/transport_manager.cpp).
use foxglove_bridge_ros.Prelude.{
  ℕ, ◌≡◌, refl, ap, ◌∙◌, Bool, true, false, Option, none, some, List, [], ◌∷◌, arith,
}
use foxglove_bridge_ros.Utils.{RegexEngine}
use foxglove_bridge_ros.Capabilities.{Capability, GatewayCapability, FlagSet}
use foxglove_bridge_ros.ClientChannels.{
  ClientState, ShapeShifter, Result, ok, throws, on_client_advertise, on_client_unadvertise,
  on_client_message,
}
use foxglove_bridge_ros.Assets.{Bytes}
use foxglove_bridge_ros.Params.Worker.{ParameterOp}
use foxglove_bridge_ros.Params.Registered.Serving.{enqueue_each}
use foxglove_bridge_ros.Startup.{Platform, serves_parameters}
use foxglove_bridge_ros.Startup.Wiring.{
  DelegateCall, ServerRequest, GatewayRequest, parameter_op, server_call, gateway_call,
}
use foxglove_bridge_ros.Requests.{
  advertise_now, Host, describe, BridgeState, RequestOf, client_state, with_clients, with_message,
  delegate, perform, serve,
}
use foxglove_bridge_ros.Requests.Spared.{answer-perform}

-- The operation that a request for parameters is.
abbrev pub asked : {P : Type 0} (t : Bool) → RequestOf P t → List (ParameterOp P)
asked false (ServerRequest.parameter request) = parameter_op request ∷ []
asked true (GatewayRequest.parameter request) = parameter_op request ∷ []
asked t request = []

-- The operation that a call is.
ops_of : {P : Type 0} → Option (DelegateCall P) → List (ParameterOp P)
ops_of none = []
ops_of (some (DelegateCall.enqueue_parameter_op op)) = op ∷ []
ops_of (some call) = []

module _ {P : Type 0} (ws : FlagSet Capability) (gw : FlagSet GatewayCapability)
    (platform : Platform ws.Flags gw.Flags) (capabilities : ws.Flags) (backend reports : Bool)
    (session_sink : Option ℕ)
    (serves : serves_parameters ws gw platform backend capabilities ≡ true) where
  server_call-asked :
      (r : ServerRequest P)
      → ops_of (server_call ws gw platform capabilities backend reports r) ≡ asked false r
  unfolding server_call ops_of
  server_call-asked ServerRequest.connect = ground arith
  server_call-asked ServerRequest.disconnect = ground arith
  server_call-asked ServerRequest.graph_subscribe = refl
  server_call-asked ServerRequest.graph_unsubscribe = refl
  server_call-asked (ServerRequest.subscribe channel client sink) = refl
  server_call-asked (ServerRequest.unsubscribe channel client) = refl
  server_call-asked (ServerRequest.advertise client channel) = ground arith
  server_call-asked (ServerRequest.unadvertise client channel) = ground arith
  server_call-asked (ServerRequest.message client channel data') = ground arith
  server_call-asked (ServerRequest.asset uri responder) = ground arith
  server_call-asked (ServerRequest.parameter request) = rw serves refl

  gateway_call-asked :
      (r : GatewayRequest P)
      → ops_of (gateway_call ws gw platform capabilities backend session_sink r) ≡ asked true r
  unfolding gateway_call ops_of
  gateway_call-asked GatewayRequest.graph_subscribe = ground arith
  gateway_call-asked GatewayRequest.graph_unsubscribe = ground arith
  gateway_call-asked (GatewayRequest.subscribe client channel) = refl
  gateway_call-asked (GatewayRequest.unsubscribe client channel) = refl
  gateway_call-asked (GatewayRequest.advertise client channel) = ground arith
  gateway_call-asked (GatewayRequest.unadvertise client channel) = ground arith
  gateway_call-asked (GatewayRequest.message client channel data') = ground arith
  gateway_call-asked (GatewayRequest.asset uri responder) = ground arith
  gateway_call-asked (GatewayRequest.parameter request) = rw serves refl

module _ {S P Publisher : Type 0} {engine : RegexEngine Bytes} (host : Host Publisher engine) where
  with_clients-manager :
      (b : BridgeState S P Publisher) (r : Result (ClientState Publisher))
      → (with_clients b r).0.manager ≡ b.manager
  with_clients-manager b (ok c) = refl
  with_clients-manager b (throws error) = refl

  with_message-manager :
      (b : BridgeState S P Publisher) (r : Result (Publisher × ShapeShifter))
      → (with_message b r).0.manager ≡ b.manager
  with_message-manager b (ok (publisher, message)) = refl
  with_message-manager b (throws error) = refl

  perform-manager :
      (call : Option (DelegateCall P)) (b : BridgeState S P Publisher)
      → (perform host call b).0.manager ≡ enqueue_each b.manager (ops_of call)
  unfolding ops_of delegate
  perform-manager none b = refl
  perform-manager (some DelegateCall.on_client_connect) b = refl
  perform-manager (some DelegateCall.on_client_disconnect) b = refl
  perform-manager (some (DelegateCall.on_connection_graph_subscribe subscribes)) b = refl
  perform-manager (some (DelegateCall.on_subscribe channel client gw sink)) b = refl
  perform-manager (some (DelegateCall.on_unsubscribe channel client gw)) b = refl
  perform-manager (some (DelegateCall.on_client_advertise info client gw)) b =
      with_clients-manager b (
        on_client_advertise (describe host) (advertise_now host b) host.queue_length
          (client_state b) info client gw)
  perform-manager (some (DelegateCall.on_client_unadvertise channel client gw)) b =
      with_clients-manager b (on_client_unadvertise (client_state b) channel client gw)
  perform-manager (some (DelegateCall.on_client_message channel client gw bytes)) b =
      with_message-manager b (on_client_message (client_state b) channel client gw bytes)
  perform-manager (some (DelegateCall.fetch_asset uri responder)) b = refl
  perform-manager (some (DelegateCall.enqueue_parameter_op op)) b = refl

  module _ (ws : FlagSet Capability) (gw : FlagSet GatewayCapability)
      (platform : Platform ws.Flags gw.Flags) (capabilities : ws.Flags) (backend reports : Bool)
      (session_sink : Option ℕ)
      (serves : serves_parameters ws gw platform backend capabilities ≡ true) where
    -- Where parameters are served, a request puts in the queue what it asks for.
    pub serve-manager :
        (t : Bool) (request : RequestOf P t) (b : BridgeState S P Publisher)
        → (serve host ws gw platform capabilities backend reports session_sink t request
            b).0.manager
          ≡ enqueue_each b.manager (asked t request)
    unfolding serve
    serve-manager false request b =
        perform-manager (server_call ws gw platform capabilities backend reports request) b
        ∙ ap (enqueue_each b.manager) (
            server_call-asked ws gw platform capabilities backend reports session_sink serves
              request)
    serve-manager true request b =
        let call = gateway_call ws gw platform capabilities backend session_sink request in
        ap (λ (x : BridgeState S P Publisher). x.manager) (answer-perform host request call b)
        ∙ perform-manager call b
        ∙ ap (enqueue_each b.manager) (
            gateway_call-asked ws gw platform capabilities backend reports session_sink serves
              request)
