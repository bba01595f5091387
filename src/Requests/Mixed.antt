-- ===== src/Requests/Mixed.antt =====
-- Requests of both transports in any order (src/transport_manager.cpp).
use foxglove_bridge_ros.Prelude.{
  ℕ, ◌≡◌, refl, ◌∙◌, Bool, true, false, not, Option, List, [], ◌∷◌, keep, lookup, ◌==◌, bool_eq,
  nat_eq, arith, Bool-cases, inl, inr,
}
use foxglove_bridge_ros.Utils.{RegexEngine}
use foxglove_bridge_ros.Capabilities.{Capability, GatewayCapability, FlagSet}
use foxglove_bridge_ros.Channels.Sharing.{is_subscriber}
use foxglove_bridge_ros.ClientChannels.{key_eq, key_of}
use foxglove_bridge_ros.Assets.{Bytes}
use foxglove_bridge_ros.Startup.{Platform}
use foxglove_bridge_ros.Startup.Wiring.{gateway_call}
use foxglove_bridge_ros.Requests.{Host, BridgeState, RequestOf, serve, serve_all}
use foxglove_bridge_ros.Requests.Separate.{Alike, SameSubscribers}
use foxglove_bridge_ros.Requests.Spared.{
  server_call-spares, gateway_call-spares, perform-Spared, perform-SameSubscribers, answer-perform,
}

-- The requests of the other transport.
abbrev pub others :
    {P : Type 0} → Bool → List ((u : Bool) × RequestOf P u) → List ((u : Bool) × RequestOf P u)
others t requests = keep (λ r. not (r.0 == t)) requests

module _ {S P Publisher : Type 0} {engine : RegexEngine Bytes} (host : Host Publisher engine)
    (ws : FlagSet Capability) (gw : FlagSet GatewayCapability)
    (platform : Platform ws.Flags gw.Flags) (capabilities : ws.Flags) (backend reports : Bool)
    (session_sink : Option ℕ) where
  abbrev pub handles :
      (t : Bool) → RequestOf P t → BridgeState S P Publisher → BridgeState S P Publisher
  handles t r b = (serve host ws gw platform capabilities backend reports session_sink t r b).0

  serve-SameSubscribers :
      (t u : Bool) (r : RequestOf P u) (b c : BridgeState S P Publisher)
      → SameSubscribers t b c
      → SameSubscribers t (handles u r b) (handles u r c)
  unfolding serve
  serve-SameSubscribers t false r b c a = perform-SameSubscribers host t _ b c a
  serve-SameSubscribers t true r b c a =
      let call = gateway_call ws gw platform capabilities backend session_sink r in
      rw (answer-perform host r call b, answer-perform host r call c)
        (perform-SameSubscribers host t call b c a)

  serve-Spared :
      (t u : Bool) (r : RequestOf P u) (b : BridgeState S P Publisher)
      → (u == t) ≡ false
      → Alike t (handles u r b) b
  unfolding serve
  serve-Spared true false r b e =
      perform-Spared host true _ b
        (server_call-spares ws gw platform capabilities backend reports session_sink r)
  serve-Spared false true r b e =
      let call = gateway_call ws gw platform capabilities backend session_sink r in
      rw (answer-perform host r call b) (
        perform-Spared host false call b
          (gateway_call-spares ws gw platform capabilities backend reports session_sink r))
  serve-Spared true true r b e = absurd (ground (arith, e))
  serve-Spared false false r b e = absurd (ground (arith, e))

  trans-SameSubscribers :
      (t : Bool) (b c d : BridgeState S P Publisher)
      → Alike t b c
      → SameSubscribers t c d
      → SameSubscribers t b d
  trans-SameSubscribers t b c d a e = record {
    channels = a.channels ∙ e.channels;
    subscribers = λ k j. a.subscribers k j ∙ e.subscribers k j;
  }

  serve_all-SameSubscribers :
      (t : Bool) (requests : List ((u : Bool) × RequestOf P u)) (b c : BridgeState S P Publisher)
      → SameSubscribers t b c
      → SameSubscribers t
          (serve_all host ws gw platform capabilities backend reports session_sink requests b)
          (serve_all host ws gw platform capabilities backend reports session_sink
            (keep (λ r. r.0 == t) requests)
            c)
  serve_all-SameSubscribers t [] b c a = a
  serve_all-SameSubscribers t ((u, r) ∷ requests) b c a = elim (Bool-cases (u == t)) [
    | inl e ↦ rw e (
        serve_all-SameSubscribers t requests (handles u r b) (handles u r c)
          (serve-SameSubscribers t u r b c a))
    | inr e ↦ rw e (
        serve_all-SameSubscribers t requests (handles u r b) c
          (trans-SameSubscribers t (handles u r b) b c (serve-Spared t u r b e) a))
  ]

  others-advertised :
      (t : Bool) (requests : List ((u : Bool) × RequestOf P u)) (b : BridgeState S P Publisher)
      (channel client : ℕ)
      → lookup
          (key_of channel client t)
          (serve_all host ws gw platform capabilities backend reports session_sink
            (others t requests)
            b).advertised
        ≡ lookup (key_of channel client t) b.advertised
  others-advertised t [] b channel client = refl
  others-advertised t ((u, r) ∷ requests) b channel client = elim (Bool-cases (u == t)) [
    | inl e ↦ rw e (others-advertised t requests b channel client)
    | inr e ↦ rw e (
        others-advertised t requests (handles u r b) channel client
        ∙ (serve-Spared t u r b e).advertised channel client)
  ]

  -- However the requests of the two transports are mixed, to which channels the clients of a
  -- transport are subscribed is what it would be had only the requests of their own transport come;
  -- and no requests of the other transport, by themselves, change what a client has advertised,
  -- whatever roscpp answers to advertisements in view of those that the node has.
  pub serve_all-separates :
      (t : Bool) (requests : List ((u : Bool) × RequestOf P u)) (b : BridgeState S P Publisher)
      (channel client : ℕ)
      → let all =
          serve_all host ws gw platform capabilities backend reports session_sink requests b in
        let own =
          serve_all host ws gw platform capabilities backend reports session_sink
            (keep (λ r. r.0 == t) requests)
            b in
        let foreign =
          serve_all host ws gw platform capabilities backend reports session_sink
            (others t requests)
            b in
        (is_subscriber all.channels channel t client ≡ is_subscriber own.channels channel t client)
        × (lookup (key_of channel client t) foreign.advertised
            ≡ lookup (key_of channel client t) b.advertised)
  serve_all-separates t requests b channel client = (
    (serve_all-SameSubscribers t requests b b
          (record { channels = refl; subscribers = λ k d. refl })).subscribers
        channel client,
    others-advertised t requests b channel client,
  )
