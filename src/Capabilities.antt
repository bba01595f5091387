-- ===== src/Capabilities.antt =====
-- src/capabilities.cpp and include/foxglove_bridge/capabilities.hpp. The SDK's flag enums stand
-- as an interface, with what bitwise flags promise.
pub mod Grants
pub mod Gateway
use foxglove_bridge_ros.Prelude.{
  String, ◌≡◌, refl, Bool, true, false, not, ◌&&◌, ◌||◌, Option, none, some, List, [], ◌∷◌, ◌↔◌,
  any, contains, lookup, if◌then◌else◌, string_eq, ◌==◌, arith,
}

-- The enumerators of `WebSocketServerCapabilities` that the bridge names.
pub data Capability : Type 0 where
  client_publish parameters services connection_graph assets time : Capability

-- The enumerators of `RemoteAccessGatewayCapabilities`.
pub data GatewayCapability : Type 0 where
  client_publish parameters services connection_graph assets : GatewayCapability

-- An SDK flag enum: each enumerator is one bit, `|` and `&` work bit by bit, `==` compares all.
pub record FlagSet (F : Type 0) : Type 1 where
  pub Flags : Type 0
  pub no_flags : Flags
  pub flag : F → Flags
  pub join : Flags → Flags → Flags
  pub meet : Flags → Flags → Flags
  pub equal : Flags → Flags → Bool
  pub bit : Flags → F → Bool
  pub bit-no_flags : (f : F) → bit no_flags f ≡ false
  pub bit-flag_self : (f : F) → bit (flag f) f ≡ true
  pub bit-flag_ne : (f g : F) → ¬ (f ≡ g) → bit (flag f) g ≡ false
  pub bit-join : (a b : Flags) (f : F) → bit (join a b) f ≡ (bit a f || bit b f)
  pub bit-meet : (a b : Flags) (f : F) → bit (meet a b) f ≡ (bit a f && bit b f)
  pub equal_of_bits : (a b : Flags) → ((f : F) → bit a f ≡ bit b f) → equal a b ≡ true
  pub bits_of_equal : (a b : Flags) (f : F) → equal a b ≡ true → bit a f ≡ bit b f

abbrev pub string_to_capability : List (String × Capability)
string_to_capability =
    ("clientPublish", Capability.client_publish)
    ∷ ("parameters", Capability.parameters)
    ∷ ("parametersSubscribe", Capability.parameters)
    ∷ ("services", Capability.services)
    ∷ ("connectionGraph", Capability.connection_graph)
    ∷ ("assets", Capability.assets)
    ∷ []

module _ (ws : FlagSet Capability) where
  open ws use {Flags, no_flags, flag, join, meet, equal}

  unfoldable pub has_capability : Flags → Flags → Bool
  has_capability capabilities capability = equal (meet capabilities capability) capability

  -- One round of the loop of `processCapabilities`.
  unfoldable pub add_named : Flags → String → Flags
  add_named out name = elim (lookup name string_to_capability) [
    | none ↦ out
    | some c ↦ join out (flag c)
  ]

  unfoldable pub process_from : Flags → List String → Flags
  process_from out [] = out
  process_from out (name ∷ names) = process_from (add_named out name) names

  unfoldable pub process_capabilities : List String → Flags
  process_capabilities = process_from no_flags

module _ (ws : FlagSet Capability) (gw : FlagSet GatewayCapability) where
  unfoldable pub add_if : Bool → gw.Flags → GatewayCapability → gw.Flags
  add_if wanted out g = if wanted then gw.join out (gw.flag g) else out

  unfoldable pub to_gateway_capabilities : ws.Flags → gw.Flags
  to_gateway_capabilities caps =
      let has = λ (c : Capability). has_capability ws caps (ws.flag c) in
      let out₁ =
        add_if (has Capability.client_publish) gw.no_flags GatewayCapability.client_publish in
      let out₂ = add_if (has Capability.parameters) out₁ GatewayCapability.parameters in
      let out₃ = add_if (has Capability.services) out₂ GatewayCapability.services in
      let out₄ = add_if (has Capability.assets) out₃ GatewayCapability.assets in
      add_if (has Capability.connection_graph) out₄ GatewayCapability.connection_graph
