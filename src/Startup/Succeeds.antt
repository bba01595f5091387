-- ===== src/Startup/Succeeds.antt =====
-- When the constructor of src/transport_manager.cpp succeeds, and what it has made then.
use foxglove_bridge_ros.Prelude.{
  ◌↔◌, ◌⊎◌, inl, inr, ◌≡◌, refl, String, Bool, true, false, Option, none, some, ◌==◌, string_eq,
  arith, Option-cases, Bool-cases,
}
use foxglove_bridge_ros.Capabilities.{Capability, GatewayCapability, FlagSet, process_capabilities}
use foxglove_bridge_ros.Options.{ok, and_then, and_then-ok, and_then_both}
use foxglove_bridge_ros.Options.Node.{TransportOptions}
use foxglove_bridge_ros.Startup.{
  Bytes, ServerOptions, GatewayOptions, Platform, Started, read_file, check_file, load_files,
  load_identity, server_options, start_server, start_sysinfo, device_token_of, gateway_options,
  create_gateway, start_gateway, serves_parameters, construct,
}

module _ (ws : FlagSet Capability) (gw : FlagSet GatewayCapability)
    (platform : Platform ws.Flags gw.Flags) where
  -- A named file that is there and can be read, with its content.
  abbrev pub IsReadable : String → Bytes → Type 0
  IsReadable path content =
      ((path == "") ≡ false)
      × (platform.exists path ≡ true)
      × (platform.opens path ≡ true)
      × (platform.read path ≡ some content)

  -- The identity is what the two files hold, if TLS is asked for.
  abbrev pub IsIdentity : TransportOptions → Option (Bytes × Bytes) → Type 0
  IsIdentity options identity =
      ((options.use_tls ≡ false) × (identity ≡ none))
      ⊎ ((options.use_tls ≡ true)
          × (cert : Bytes) × (key : Bytes) × IsReadable options.certfile cert
          × IsReadable options.keyfile key
          × (identity ≡ some (cert, key)))

  -- There is a gateway if it is asked for, which takes a build with remote access, a token, and an
  -- SDK that starts it.
  abbrev pub IsGateway : Bool → TransportOptions → Option (GatewayOptions gw.Flags) → Type 0
  IsGateway with_remote_access options gateway =
      ((options.remote_access ≡ false) × (gateway ≡ none))
      ⊎ ((options.remote_access ≡ true)
          × (with_remote_access ≡ true)
          × ((device_token_of ws gw platform options == "") ≡ false)
          × (platform.create_gateway (gateway_options ws gw platform options) ≡ none)
          × (gateway ≡ some (gateway_options ws gw platform options)))

  read_file_iff :
      (path : String) (content : Bytes)
      → (read_file ws gw platform path ≡ ok content)
        ↔ ((platform.opens path ≡ true) × (platform.read path ≡ some content))
  unfolding read_file
  read_file_iff path content = elim (Option-cases (platform.read path)) [
    | inl e ↦ rw (e, read_file) (ground arith)
    | inr (c, e) ↦ rw (e, read_file) (ground arith)
  ]

  check_file_iff :
      (what path : String)
      → (check_file ws gw platform what path ≡ ok tt)
        ↔ (((path == "") ≡ false) × (platform.exists path ≡ true))
  unfolding check_file
  check_file_iff what path = ground arith

  load_files_made :
      (certfile keyfile : String) (identity : Option (Bytes × Bytes))
      → load_files ws gw platform certfile keyfile ≡ ok identity
      → (cert : Bytes) × (key : Bytes) × IsReadable certfile cert
        × IsReadable keyfile key
        × (identity ≡ some (cert, key))
  unfolding load_files
  load_files_made certfile keyfile identity e =
      let (_, c, e₁) = and_then-ok (check_file ws gw platform "certfile" certfile) _ identity e in
      let (_, k, e₂) = and_then-ok (check_file ws gw platform "keyfile" keyfile) _ identity e₁ in
      let (cert, rc, e₃) = and_then-ok (read_file ws gw platform certfile) _ identity e₂ in
      let (key, rk, e₄) = and_then-ok (read_file ws gw platform keyfile) _ identity e₃ in
      let (named_c, there_c) = (check_file_iff "certfile" certfile).0 c in
      let (named_k, there_k) = (check_file_iff "keyfile" keyfile).0 k in
      let (opens_c, read_c) = (read_file_iff certfile cert).0 rc in
      let (opens_k, read_k) = (read_file_iff keyfile key).0 rk in
      (
        cert,
        key,
        (named_c, there_c, opens_c, read_c),
        (named_k, there_k, opens_k, read_k),
        ground (arith, e₄),
      )

  load_files_of :
      (certfile keyfile : String) (cert key : Bytes)
      → IsReadable certfile cert
      → IsReadable keyfile key
      → load_files ws gw platform certfile keyfile ≡ ok (some (cert, key))
  unfolding load_files
  load_files_of certfile keyfile cert key c k =
      and_then_both _ _ tt _ ((check_file_iff "certfile" certfile).1 (c.0, c.1)) (
        and_then_both _ _ tt _ ((check_file_iff "keyfile" keyfile).1 (k.0, k.1)) (
          and_then_both _ _ cert _ ((read_file_iff certfile cert).1 (c.2, c.3))
            (and_then_both _ _ key _ ((read_file_iff keyfile key).1 (k.2, k.3)) refl)))

  load_identity_iff :
      (options : TransportOptions) (identity : Option (Bytes × Bytes))
      → (load_identity ws gw platform options ≡ ok identity) ↔ IsIdentity options identity
  unfolding load_identity
  load_identity_iff options identity = elim (Bool-cases options.use_tls) [
    | inr e ↦ rw (e, load_identity) (ground arith)
    | inl e ↦
        rw (e, load_identity)
          (
            λ h.
                let (cert, key, c, k, same) =
                  load_files_made options.certfile options.keyfile identity h in
                inr (refl, cert, key, c, k, same),
            λ h. elim h [
              | inl (f, _) ↦ absurd (ground arith)
              | inr (_, cert, key, c, k, same) ↦
                  rw same (load_files_of options.certfile options.keyfile cert key c k)
            ],
          )
  ]

  start_gateway_iff :
      (with_remote_access : Bool) (options : TransportOptions)
      (gateway : Option (GatewayOptions gw.Flags))
      → (start_gateway ws gw platform with_remote_access options ≡ ok gateway)
        ↔ IsGateway with_remote_access options gateway
  unfolding start_gateway create_gateway and_then
  start_gateway_iff with_remote_access options gateway =
      elim (Option-cases (platform.create_gateway (gateway_options ws gw platform options))) [
        | inl e ↦ rw (e, start_gateway, create_gateway) (ground arith)
        | inr (error, e) ↦ rw (e, start_gateway, create_gateway) (ground arith)
      ]

  start_server_iff :
      (options : ServerOptions ws.Flags)
      → (start_server ws gw platform options ≡ ok tt) ↔ (platform.create_server options ≡ none)
  unfolding start_server
  start_server_iff options = elim (Option-cases (platform.create_server options)) [
    | inl e ↦ rw (e, start_server) (ground arith)
    | inr (error, e) ↦ rw (e, start_server) (ground arith)
  ]

  -- What is made, with this TLS identity and this gateway.
  abbrev pub started_with :
      Bool
      → TransportOptions
      → Option (Bytes × Bytes)
      → Option (GatewayOptions gw.Flags)
      → Started ws.Flags gw.Flags
  started_with backend options identity gateway = record {
    capabilities = process_capabilities ws options.capabilities;
    server = server_options ws gw platform options identity;
    sysinfo = start_sysinfo ws gw platform options;
    gateway = gateway;
    worker =
        serves_parameters ws gw platform backend (process_capabilities ws options.capabilities);
  }

  pub construct_ok_iff :
      (with_remote_access backend : Bool) (options : TransportOptions)
      (m : Started ws.Flags gw.Flags)
      → (construct ws gw platform with_remote_access backend options ≡ ok m) ↔ (
          (identity : Option (Bytes × Bytes)) × (gateway : Option (GatewayOptions gw.Flags))
          × IsIdentity options identity
          × (platform.create_server (server_options ws gw platform options identity) ≡ none)
          × IsGateway with_remote_access options gateway
          × (m ≡ started_with backend options identity gateway))
  unfolding construct
  construct_ok_iff with_remote_access backend options m = (
    λ e.
        let (identity, i, e₁) = and_then-ok (load_identity ws gw platform options) _ m e in
        let (_, s, e₂) =
          and_then-ok (start_server ws gw platform (server_options ws gw platform options identity))
            _ m e₁ in
        let (gateway, g, e₃) =
          and_then-ok (start_gateway ws gw platform with_remote_access options) _ m e₂ in
        (
          identity,
          gateway,
          (load_identity_iff options identity).0 i,
          (start_server_iff _).0 s,
          (start_gateway_iff with_remote_access options gateway).0 g,
          ground (arith, e₃),
        ),
    λ (identity, gateway, i, s, g, same). rw same (
        and_then_both _ _ identity _ ((load_identity_iff options identity).1 i) (
          and_then_both _ _ tt _ ((start_server_iff _).1 s) (
            and_then_both _ _ gateway _ ((start_gateway_iff with_remote_access options gateway).1 g)
              refl))),
  )
