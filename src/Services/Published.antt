-- ===== src/Services/Published.antt =====
-- `updateAdvertisedServices` on the transports of src/transport_manager.cpp: what the SDK offers to
-- clients, and what `handleServiceRequest` knows.
use foxglove_bridge_ros.Prelude.{
  String, ◌≡◌, Bool, false, not, ◌&&◌, Option, none, some, List, [], ◌∷◌, is_some, lookup, emplace,
  string_eq, lookup-emplace, lookup-remove, arith, if-elim,
}
use text.Mathlib.TextEquality.{eq_iff}
use foxglove_bridge_ros.Services.Advertised.{
  ServiceDescription, ServiceSchema, ServiceSources, Services, services_to_remove, erase_all,
  details_for, schema_for, remove_all, advertise_typed, advertise_one, advertise_new,
  update_advertised_services,
}
use foxglove_bridge_ros.Services.Advertised.Coverage.{lookup_same}
use foxglove_bridge_ros.Transports.{ServiceHost, Transports, add_service, remove_service}
use foxglove_bridge_ros.Transports.Offers.{
  CanRemove, gateway_offers, server-add_service, gateway-add_service, offers-remove_service,
}

module _ {S G : Type 0} (create : String → ServiceSchema → Bool) (on_server : ServiceHost S)
    (on_gateway : ServiceHost G) (retrieve : String → Option String)
    (describe : String → Option ServiceDescription) where
  abbrev pub sources : ServiceSources (Transports S G)
  sources = record {
    retrieve_service_type = retrieve;
    get_service_description = describe;
    add_service = add_service create on_server on_gateway;
    remove_service = remove_service create on_server on_gateway;
  }

  -- The server offers exactly the services that the bridge has recorded, and the gateway no others.
  pub record IsInSync (services : Services) (t : Transports S G) : Type 0 where
    pub served : (m : String) → on_server.offers t.server m ≡ is_some (lookup m services)
    pub mirrored :
        (m : String)
        → (gateway_offers create on_server on_gateway t.gateway m
            && not (is_some (lookup m services)))
          ≡ false

  typed-IsInSync :
      (name : String) (o : Option String) (services : Services) (t : Transports S G)
      → lookup name services ≡ none
      → IsInSync services t
      → let after = advertise_typed sources name o services t in IsInSync after.0 after.1
  unfolding advertise_typed
  typed-IsInSync name none services t e v = v
  typed-IsInSync name (some type) services t e v =
      let schema = schema_for type (describe type) in
      let d = details_for type (describe type) in
      record {
        served = λ m. ground (
          arith,
          eq_iff name m,
          v.served m,
          server-add_service create on_server on_gateway name schema t m,
          lookup-emplace name m d services,
          lookup-remove name m (emplace name d services),
          lookup_same name m services,
        );
        mirrored = λ m. ground (
          arith,
          eq_iff name m,
          v.mirrored m,
          gateway-add_service create on_server on_gateway name schema t m,
          lookup-emplace name m d services,
          lookup-remove name m (emplace name d services),
          lookup_same name m services,
        );
      }

  one-IsInSync :
      (name : String) (services : Services) (t : Transports S G)
      → IsInSync services t
      → let after = advertise_one sources name services t in IsInSync after.0 after.1
  unfolding advertise_one
  one-IsInSync name services t v =
      if-elim (λ (after : Services × Transports S G). IsInSync after.0 after.1)
        (is_some (lookup name services)) (λ _. v)
        (λ absent. typed-IsInSync name (retrieve name) services t (ground (arith, absent)) v)

  new-IsInSync :
      (names : List String) (services : Services) (t : Transports S G)
      → IsInSync services t
      → let after = advertise_new sources names services t in IsInSync after.0 after.1
  unfolding advertise_new
  new-IsInSync [] services t v = v
  new-IsInSync (name ∷ names) services t v = new-IsInSync names _ _ (one-IsInSync name services t v)

  erase-IsInSync :
      (works : CanRemove create on_server on_gateway) (gone : List String) (services : Services)
      (t : Transports S G)
      → IsInSync services t
      → IsInSync (erase_all gone services) (remove_all sources gone t)
  unfolding erase_all remove_all
  erase-IsInSync works [] services t v = v
  erase-IsInSync works (name ∷ gone) services t v = erase-IsInSync works gone _ _ (record {
    served = λ m. ground (
      arith,
      v.served m,
      offers-remove_service create on_server on_gateway works name t m,
      lookup-remove name m services,
    );
    mirrored = λ m. ground (
      arith,
      v.mirrored m,
      offers-remove_service create on_server on_gateway works name t m,
      lookup-remove name m services,
    );
  })

  -- Where both transports can remove what they offer: if the WebSocket server offers exactly the
  -- services that the bridge has recorded, and the gateway no others, then it is so after an update,
  -- whichever probes, creations and additions fail, so that a client is offered no service that
  -- `handleServiceRequest` does not know.
  pub update_advertised_services-IsInSync :
      (names : List String) (services : Services) (t : Transports S G)
      → CanRemove create on_server on_gateway
      → IsInSync services t
      → let after = update_advertised_services sources names services t in IsInSync after.0 after.1
  unfolding update_advertised_services
  update_advertised_services-IsInSync names services t works v =
      new-IsInSync names _ _ (erase-IsInSync works (services_to_remove names services) services t v)
