-- ===== src/Capabilities/Gateway.antt =====
-- `toGatewayCapabilities` of src/capabilities.cpp.
use foxglove_bridge_ros.Prelude.{◌≡◌, ap, ◌∙◌, Bool, true, false, ◌&&◌, ◌||◌, arith}
use foxglove_bridge_ros.Capabilities.{
  Capability, GatewayCapability, FlagSet, has_capability, add_if, to_gateway_capabilities,
}
use foxglove_bridge_ros.Capabilities.Grants.{bit-flag}

-- The flag of the WebSocket server that answers to a flag of the gateway.
abbrev pub counterpart : GatewayCapability → Capability
counterpart GatewayCapability.client_publish = Capability.client_publish
counterpart GatewayCapability.parameters = Capability.parameters
counterpart GatewayCapability.services = Capability.services
counterpart GatewayCapability.connection_graph = Capability.connection_graph
counterpart GatewayCapability.assets = Capability.assets

GatewayCapability-discrete : Discrete GatewayCapability
GatewayCapability-discrete = hlevel

same_flag : GatewayCapability → GatewayCapability → Bool
same_flag GatewayCapability.client_publish GatewayCapability.client_publish = true
same_flag GatewayCapability.parameters GatewayCapability.parameters = true
same_flag GatewayCapability.services GatewayCapability.services = true
same_flag GatewayCapability.connection_graph GatewayCapability.connection_graph = true
same_flag GatewayCapability.assets GatewayCapability.assets = true
same_flag _ _ = false

same_flag_of_eq : (g h : GatewayCapability) → g ≡ h → same_flag g h ≡ true
unfolding same_flag
same_flag_of_eq g h e = ground arith

same_flag_of_ne : (g h : GatewayCapability) → ¬ (g ≡ h) → same_flag g h ≡ false
unfolding same_flag
same_flag_of_ne g h n = ground arith

module _ (ws : FlagSet Capability) (gw : FlagSet GatewayCapability) where
  add_if-bit :
      (wanted : Bool) (out : gw.Flags) (g h : GatewayCapability)
      → gw.bit (add_if ws gw wanted out g) h ≡ (gw.bit out h || (wanted && same_flag g h))
  unfolding add_if
  add_if-bit false out g h = ground arith
  add_if-bit true out g h =
      gw.bit-join out (gw.flag g) h
      ∙ ap (◌||◌ (gw.bit out h)) (
          bit-flag gw GatewayCapability-discrete g h (same_flag g h) (same_flag_of_eq g h)
            (same_flag_of_ne g h))

  -- The gateway is given a capability exactly when the WebSocket server has the one of the same
  -- name; the server's Time capability gives the gateway nothing.
  pub to_gateway_capabilities-bit :
      (caps : ws.Flags) (g : GatewayCapability)
      → gw.bit (to_gateway_capabilities ws gw caps) g
        ≡ has_capability ws caps (ws.flag (counterpart g))
  unfolding to_gateway_capabilities same_flag
  to_gateway_capabilities-bit caps GatewayCapability.client_publish =
      simp (add_if-bit, gw.bit-no_flags) (ground arith)
  to_gateway_capabilities-bit caps g = simp (add_if-bit, gw.bit-no_flags) (ground arith)
