-- ===== src/Tests/Flags.antt =====
-- The SDK's flag enums as functions into the Booleans.
use foxglove_bridge_ros.Prelude.{bool_beq, ◌≡◌, refl, Bool, true, false, ◌&&◌, ◌||◌, arith}
use foxglove_bridge_ros.Capabilities.{Capability, GatewayCapability, FlagSet}

abbrev pub is_same : Capability → Capability → Bool
is_same Capability.client_publish Capability.client_publish = true
is_same Capability.parameters Capability.parameters = true
is_same Capability.services Capability.services = true
is_same Capability.connection_graph Capability.connection_graph = true
is_same Capability.assets Capability.assets = true
is_same Capability.time Capability.time = true
is_same _ _ = false

pub is_same_self : (f : Capability) → is_same f f ≡ true
is_same_self f = ground arith

pub is_same_other : (f g : Capability) → ¬ (f ≡ g) → is_same f g ≡ false
is_same_other f g n = ground arith

abbrev pub all_equal : (Capability → Bool) → (Capability → Bool) → Bool
all_equal a b =
    bool_beq (a Capability.client_publish) (b Capability.client_publish)
    && (bool_beq (a Capability.parameters) (b Capability.parameters)
        && (bool_beq (a Capability.services) (b Capability.services)
            && (bool_beq (a Capability.connection_graph) (b Capability.connection_graph)
                && (bool_beq (a Capability.assets) (b Capability.assets)
                    && bool_beq (a Capability.time) (b Capability.time)))))

pub all_equal_of_bits :
    (a b : Capability → Bool) → ((f : Capability) → a f ≡ b f) → all_equal a b ≡ true
all_equal_of_bits a b h = ground (
  arith,
  h Capability.client_publish,
  h Capability.parameters,
  h Capability.services,
  h Capability.connection_graph,
  h Capability.assets,
  h Capability.time,
)

pub bits_of_all_equal :
    (a b : Capability → Bool) (f : Capability) → all_equal a b ≡ true → a f ≡ b f
bits_of_all_equal a b Capability.client_publish e = ground (arith, e)
bits_of_all_equal a b Capability.parameters e = ground (arith, e)
bits_of_all_equal a b Capability.services e = ground (arith, e)
bits_of_all_equal a b Capability.connection_graph e = ground (arith, e)
bits_of_all_equal a b Capability.assets e = ground (arith, e)
bits_of_all_equal a b Capability.time e = ground (arith, e)

abbrev pub server_flags : FlagSet Capability
server_flags = record {
  Flags = Capability → Bool;
  no_flags = λ f. false;
  flag = is_same;
  join = λ a b f. a f || b f;
  meet = λ a b f. a f && b f;
  equal = all_equal;
  bit = λ a f. a f;
  bit-no_flags = λ f. refl;
  bit-flag_self = is_same_self;
  bit-flag_ne = is_same_other;
  bit-join = λ a b f. refl;
  bit-meet = λ a b f. refl;
  equal_of_bits = all_equal_of_bits;
  bits_of_equal = bits_of_all_equal;
}

-- The gateway's flags.
abbrev pub is_one : GatewayCapability → GatewayCapability → Bool
is_one GatewayCapability.client_publish GatewayCapability.client_publish = true
is_one GatewayCapability.parameters GatewayCapability.parameters = true
is_one GatewayCapability.services GatewayCapability.services = true
is_one GatewayCapability.connection_graph GatewayCapability.connection_graph = true
is_one GatewayCapability.assets GatewayCapability.assets = true
is_one _ _ = false

pub is_one_self : (f : GatewayCapability) → is_one f f ≡ true
is_one_self f = ground arith

pub is_one_other : (f g : GatewayCapability) → ¬ (f ≡ g) → is_one f g ≡ false
is_one_other f g n = ground arith

abbrev pub both_equal : (GatewayCapability → Bool) → (GatewayCapability → Bool) → Bool
both_equal a b =
    bool_beq (a GatewayCapability.client_publish) (b GatewayCapability.client_publish)
    && (bool_beq (a GatewayCapability.parameters) (b GatewayCapability.parameters)
        && (bool_beq (a GatewayCapability.services) (b GatewayCapability.services)
            && (bool_beq (a GatewayCapability.connection_graph)
                  (b GatewayCapability.connection_graph)
                && bool_beq (a GatewayCapability.assets) (b GatewayCapability.assets))))

pub both_equal_of_bits :
    (a b : GatewayCapability → Bool) → ((f : GatewayCapability) → a f ≡ b f) → both_equal a b ≡ true
both_equal_of_bits a b h = ground (
  arith,
  h GatewayCapability.client_publish,
  h GatewayCapability.parameters,
  h GatewayCapability.services,
  h GatewayCapability.connection_graph,
  h GatewayCapability.assets,
)

pub bits_of_both_equal :
    (a b : GatewayCapability → Bool) (f : GatewayCapability) → both_equal a b ≡ true → a f ≡ b f
bits_of_both_equal a b GatewayCapability.client_publish e = ground (arith, e)
bits_of_both_equal a b GatewayCapability.parameters e = ground (arith, e)
bits_of_both_equal a b GatewayCapability.services e = ground (arith, e)
bits_of_both_equal a b GatewayCapability.connection_graph e = ground (arith, e)
bits_of_both_equal a b GatewayCapability.assets e = ground (arith, e)

abbrev pub gateway_flags : FlagSet GatewayCapability
gateway_flags = record {
  Flags = GatewayCapability → Bool;
  no_flags = λ f. false;
  flag = is_one;
  join = λ a b f. a f || b f;
  meet = λ a b f. a f && b f;
  equal = both_equal;
  bit = λ a f. a f;
  bit-no_flags = λ f. refl;
  bit-flag_self = is_one_self;
  bit-flag_ne = is_one_other;
  bit-join = λ a b f. refl;
  bit-meet = λ a b f. refl;
  equal_of_bits = both_equal_of_bits;
  bits_of_equal = bits_of_both_equal;
}
