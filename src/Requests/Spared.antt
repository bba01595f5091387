-- ===== src/Requests/Spared.antt =====
-- What the requests of one transport leave as it is for the other (src/ros1_foxglove_bridge.cpp).
use foxglove_bridge_ros.Prelude.{
  ℕ, ◌≡◌, refl, ap, Bool, true, false, not, Option, none, some, ◌==◌, bool_eq, nat_eq, bool_beq_iff,
  arith,
}
use foxglove_bridge_ros.Utils.{RegexEngine}
use foxglove_bridge_ros.Capabilities.{Capability, GatewayCapability, FlagSet}
use foxglove_bridge_ros.Channels.Sharing.{is_subscriber, requests-subscribers}
use foxglove_bridge_ros.Channels.Session.Callbacks.{
  on_subscribe-IsCallback, on_unsubscribe-IsCallback,
}
use foxglove_bridge_ros.ClientChannels.{
  key_eq, key_of, on_client_advertise, on_client_unadvertise, on_client_message,
}
use foxglove_bridge_ros.ClientChannels.Recorded.{lookup-advertised, lookup-unadvertised}
use foxglove_bridge_ros.Assets.{Bytes}
use foxglove_bridge_ros.Startup.{Platform}
use foxglove_bridge_ros.Startup.Wiring.{
  DelegateCall, ServerRequest, GatewayRequest, server_call, gateway_call, gateway_answer,
}
use foxglove_bridge_ros.Requests.{
  advertise_now, describe, Host, BridgeState, client_state, delegate, perform,
}
use foxglove_bridge_ros.Requests.Separate.{
  Alike, same-Alike, with_clients-advertised, with_clients-channels, with_message-kept,
  SameSubscribers, delegate-SameSubscribers,
}

-- A call is not marked for this transport.
abbrev pub spares : {P : Type 0} → Bool → DelegateCall P → Bool
spares t (DelegateCall.on_subscribe channel client is_gateway sink) = not (is_gateway == t)
spares t (DelegateCall.on_unsubscribe channel client is_gateway) = not (is_gateway == t)
spares t (DelegateCall.on_client_advertise channel client is_gateway) = not (is_gateway == t)
spares t (DelegateCall.on_client_unadvertise channel client is_gateway) = not (is_gateway == t)
spares t (DelegateCall.on_client_message channel client is_gateway data') = not (is_gateway == t)
spares t call = true

abbrev pub spares_if_any : {P : Type 0} → Bool → Option (DelegateCall P) → Bool
spares_if_any t none = true
spares_if_any t (some call) = spares t call

module _ {P : Type 0} (ws : FlagSet Capability) (gw : FlagSet GatewayCapability)
    (platform : Platform ws.Flags gw.Flags) (capabilities : ws.Flags) (backend reports : Bool)
    (session_sink : Option ℕ) where
  pub server_call-spares :
      (r : ServerRequest P)
      → spares_if_any true (server_call ws gw platform capabilities backend reports r) ≡ true
  unfolding server_call
  server_call-spares ServerRequest.connect = ground arith
  server_call-spares ServerRequest.disconnect = ground arith
  server_call-spares ServerRequest.graph_subscribe = refl
  server_call-spares ServerRequest.graph_unsubscribe = refl
  server_call-spares (ServerRequest.subscribe channel client sink) = refl
  server_call-spares (ServerRequest.unsubscribe channel client) = refl
  server_call-spares (ServerRequest.advertise client channel) = ground arith
  server_call-spares (ServerRequest.unadvertise client channel) = ground arith
  server_call-spares (ServerRequest.message client channel data') = ground arith
  server_call-spares (ServerRequest.asset uri responder) = ground arith
  server_call-spares (ServerRequest.parameter request) = ground arith

  pub gateway_call-spares :
      (r : GatewayRequest P)
      → spares_if_any false (gateway_call ws gw platform capabilities backend session_sink r) ≡ true
  unfolding gateway_call
  gateway_call-spares GatewayRequest.graph_subscribe = ground arith
  gateway_call-spares GatewayRequest.graph_unsubscribe = ground arith
  gateway_call-spares (GatewayRequest.subscribe client channel) = refl
  gateway_call-spares (GatewayRequest.unsubscribe client channel) = refl
  gateway_call-spares (GatewayRequest.advertise client channel) = ground arith
  gateway_call-spares (GatewayRequest.unadvertise client channel) = ground arith
  gateway_call-spares (GatewayRequest.message client channel data') = ground arith
  gateway_call-spares (GatewayRequest.asset uri responder) = ground arith
  gateway_call-spares (GatewayRequest.parameter request) = ground arith

module _ {S P Publisher : Type 0} {engine : RegexEngine Bytes} (host : Host Publisher engine) where
  delegate-Spared :
      (t : Bool) (call : DelegateCall P) (b : BridgeState S P Publisher)
      → spares t call ≡ true
      → Alike t (delegate host call b).0 b
  unfolding delegate
  delegate-Spared t DelegateCall.on_client_connect b e = same-Alike t _ _ refl refl
  delegate-Spared t DelegateCall.on_client_disconnect b e = same-Alike t _ _ refl refl
  delegate-Spared t (DelegateCall.on_connection_graph_subscribe subscribes) b e =
      same-Alike t _ _ refl refl
  delegate-Spared t (DelegateCall.on_subscribe k client gw sink) b e = record {
    channels = (on_subscribe-IsCallback b.channels k client gw sink).0;
    subscribers =
        λ j d. ground (arith, e, (requests-subscribers b.channels k client gw sink j t d).0);
    advertised = λ j d. refl;
  }
  delegate-Spared t (DelegateCall.on_unsubscribe k client gw) b e = record {
    channels = (on_unsubscribe-IsCallback b.channels k client gw).0;
    subscribers =
        λ j d. ground (arith, e, (requests-subscribers b.channels k client gw none j t d).1);
    advertised = λ j d. refl;
  }
  delegate-Spared t (DelegateCall.on_client_advertise info client gw) b e =
      let r =
        on_client_advertise (describe host) (advertise_now host b) host.queue_length
          (client_state b) info client gw in
      record {
        channels = ap (λ s. s.channels) (with_clients-channels b r);
        subscribers = λ j d. ap (λ s. is_subscriber s j t d) (with_clients-channels b r);
        advertised = λ j d. ground (
          arith,
          e,
          with_clients-advertised b r,
          lookup-advertised (describe host) (advertise_now host b) host.queue_length
              (client_state b) info client gw (key_of j d t),
          bool_beq_iff gw t,
        );
      }
  delegate-Spared t (DelegateCall.on_client_unadvertise channel client gw) b e =
      let r = on_client_unadvertise (client_state b) channel client gw in
      record {
        channels = ap (λ s. s.channels) (with_clients-channels b r);
        subscribers = λ j d. ap (λ s. is_subscriber s j t d) (with_clients-channels b r);
        advertised = λ j d. ground (
          arith,
          e,
          with_clients-advertised b r,
          lookup-unadvertised (client_state b) channel client gw (key_of j d t),
          bool_beq_iff gw t,
        );
      }
  delegate-Spared t (DelegateCall.on_client_message channel client gw bytes) b e =
      let kept = with_message-kept b (on_client_message (client_state b) channel client gw bytes) in
      same-Alike t _ _ kept.0 kept.1
  delegate-Spared t (DelegateCall.fetch_asset uri responder) b e = same-Alike t _ _ refl refl
  delegate-Spared t (DelegateCall.enqueue_parameter_op op) b e = same-Alike t _ _ refl refl

  pub perform-Spared :
      (t : Bool) (call : Option (DelegateCall P)) (b : BridgeState S P Publisher)
      → spares_if_any t call ≡ true
      → Alike t (perform host call b).0 b
  perform-Spared t none b e = same-Alike t _ _ refl refl
  perform-Spared t (some call) b e = delegate-Spared t call b e

  pub perform-SameSubscribers :
      (t : Bool) (call : Option (DelegateCall P)) (b c : BridgeState S P Publisher)
      → SameSubscribers t b c
      → SameSubscribers t (perform host call b).0 (perform host call c).0
  perform-SameSubscribers t none b c a = a
  perform-SameSubscribers t (some call) b c a = delegate-SameSubscribers host t call b c a

  -- The gateway's callbacks do the same to the state, whatever they make of an exception.
  pub answer-perform :
      (request : GatewayRequest P) (call : Option (DelegateCall P)) (b : BridgeState S P Publisher)
      → (gateway_answer (delegate host) request call b).0 ≡ (perform host call b).0
  unfolding gateway_answer
  answer-perform request none b = refl
  answer-perform request (some call) b = refl
