-- ===== src/Startup/Wiring/Worker.antt =====
-- Requests for parameters in src/transport_manager.cpp are queued where a worker serves them, and
-- what the gateway does with an exception.
use foxglove_bridge_ros.Prelude.{
  ℕ, ◌≡◌, refl, String, Bool, Option, none, some, [], ◌∷◌, ◌&&◌, if◌then◌else◌, any, contains,
  is_some, arith, string_eq, ◌∙◌, ap,
}
use foxglove_bridge_ros.Utils.{RegexEngine}
use foxglove_bridge_ros.Capabilities.{Capability, GatewayCapability, FlagSet, process_capabilities}
use foxglove_bridge_ros.Capabilities.Grants.{has_capability-process_capabilities}
use foxglove_bridge_ros.Options.{ok}
use foxglove_bridge_ros.Options.Node.{
  NodeHandle, DracoOptions, TransportOptions, BridgeOptions, read_options, bridge_options,
  transport_options, param_whitelist_of, default_capabilities,
}
use foxglove_bridge_ros.Options.Bounds.{read_options_made}
use foxglove_bridge_ros.Startup.{Platform, Started, serves_parameters, construct}
use foxglove_bridge_ros.Startup.Succeeds.{construct_ok_iff}
use foxglove_bridge_ros.Startup.Wiring.{
  ParameterRequest, ServerRequest, GatewayRequest, enqueue_parameter_op, parameter_op, server_call,
  gateway_call, only_if,
}

-- The interface is made under the condition that the worker starts under.
both_agree {ℓ} :
    {A : Type ℓ} (wanted : Bool) (a : A)
    → (is_some (if wanted then some a else none) && wanted) ≡ wanted
both_agree wanted a = ground arith

module _ (ws : FlagSet Capability) (gw : FlagSet GatewayCapability)
    (platform : Platform ws.Flags gw.Flags) where
  made_of_capabilities :
      (with_remote_access backend : Bool) (options : TransportOptions)
      (m : Started ws.Flags gw.Flags)
      → construct ws gw platform with_remote_access backend options ≡ ok m
      → (m.capabilities ≡ process_capabilities ws options.capabilities)
        × (m.worker ≡ serves_parameters ws gw platform backend m.capabilities)
  made_of_capabilities with_remote_access backend options m e =
      let (identity, gateway, _, _, _, same) =
        (construct_ok_iff ws gw platform with_remote_access backend options m).0 e in
      rw same (refl, refl)

  parameter_requests_reach_worker :
      {P : Type 0} (with_remote_access backend reports : Bool) (sink : Option ℕ)
      (options : TransportOptions) (m : Started ws.Flags gw.Flags) (request : ParameterRequest P)
      → construct ws gw platform with_remote_access backend options ≡ ok m
      → (server_call ws gw platform m.capabilities backend reports (ServerRequest.parameter request)
          ≡ only_if m.worker (enqueue_parameter_op (parameter_op request)))
        × (gateway_call ws gw platform m.capabilities backend sink
              (GatewayRequest.parameter request)
            ≡ only_if m.worker (enqueue_parameter_op (parameter_op request)))
  unfolding server_call gateway_call
  parameter_requests_reach_worker with_remote_access backend reports sink options m request e =
      let (_, worker) = made_of_capabilities with_remote_access backend options m e in
      rw worker (refl, refl)

  module _ {D : Type 0} (size_mod : ℕ) (max_quantization_bits : ℕ) (defaults : DracoOptions)
      (engine : RegexEngine String) (nh private : NodeHandle D) (distro : Option String) where
    worker-capabilities :
        (with_remote_access : Bool) (o : BridgeOptions engine.Regex) (m : Started ws.Flags gw.Flags)
        → read_options size_mod max_quantization_bits defaults engine ws nh private distro ≡ ok o
        → construct ws gw platform with_remote_access (is_some o.param_whitelist) o.transport ≡ ok m
        → m.worker
          ≡ any
              (λ name. contains name ("parameters" ∷ "parametersSubscribe" ∷ []))
              (private.strings_param "capabilities" default_capabilities)
    unfolding bridge_options transport_options param_whitelist_of serves_parameters
    worker-capabilities with_remote_access o m e f =
        let (bits, size, _, _, read) =
          read_options_made size_mod max_quantization_bits defaults engine ws nh private distro o
            e in
        let (caps, worker) =
          made_of_capabilities with_remote_access (is_some o.param_whitelist) o.transport m f in
        let known =
          has_capability-process_capabilities ws
            (private.strings_param "capabilities" default_capabilities) Capability.parameters in
        worker ∙ rw (caps, read, known) (both_agree _ _)

    -- Where the bridge has read its options and started the transports with them, with a backend if
    -- it made a parameter interface: the parameter worker runs exactly when the configured
    -- capabilities name the parameters, by either of their two names; and a client's request for
    -- parameters, to either transport, becomes an operation of the queue exactly then, and is
    -- otherwise ignored. No operation is queued that nobody will take.
    pub parameter_requests-capabilities :
        {P : Type 0} (with_remote_access reports : Bool) (sink : Option ℕ)
        (o : BridgeOptions engine.Regex) (m : Started ws.Flags gw.Flags)
        (request : ParameterRequest P)
        → read_options size_mod max_quantization_bits defaults engine ws nh private distro ≡ ok o
        → construct ws gw platform with_remote_access (is_some o.param_whitelist) o.transport ≡ ok m
        → let wanted =
            any
              (λ name. contains name ("parameters" ∷ "parametersSubscribe" ∷ []))
              (private.strings_param "capabilities" default_capabilities) in
          let backend = is_some o.param_whitelist in
          let queued = only_if wanted (enqueue_parameter_op (parameter_op request)) in
          (m.worker ≡ wanted)
          × (server_call ws gw platform m.capabilities backend reports
                (ServerRequest.parameter request)
              ≡ queued)
          × (gateway_call ws gw platform m.capabilities backend sink
                (GatewayRequest.parameter request)
              ≡ queued)
    parameter_requests-capabilities with_remote_access reports sink o m request e f =
        let worker = worker-capabilities with_remote_access o m e f in
        let (to_server, to_gateway) =
          parameter_requests_reach_worker with_remote_access (is_some o.param_whitelist) reports
            sink o.transport m request f in
        (
          worker,
          to_server ∙ ap (λ w. only_if w (enqueue_parameter_op (parameter_op request))) worker,
          to_gateway ∙ ap (λ w. only_if w (enqueue_parameter_op (parameter_op request))) worker,
        )
