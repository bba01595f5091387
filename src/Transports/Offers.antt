-- ===== src/Transports/Offers.antt =====
-- What the transports offer after a service is added, and removed (src/transport_manager.cpp).
use foxglove_bridge_ros.Prelude.{
  String, Bool, false, not, ◌&&◌, ◌||◌, ◌≡◌, refl, ap, Option, none, some, ◌==◌, string_eq, arith,
}
use text.Mathlib.TextEquality.{eq_iff}
use foxglove_bridge_ros.Services.Advertised.{ServiceSchema}
use foxglove_bridge_ros.Transports.{
  ServiceHost, CanDrop, Transports, add_to_gateway, add_service, drop_from_gateway, remove_service,
}

module _ {S G : Type 0} (create : String → ServiceSchema → Bool) (on_server : ServiceHost S)
    (on_gateway : ServiceHost G) where
  abbrev pub gateway_offers : Option G → String → Bool
  gateway_offers none n = false
  gateway_offers (some g) n = on_gateway.offers g n

  -- Both transports can remove what they offer.
  abbrev pub CanRemove : Type 0
  CanRemove = CanDrop on_server × CanDrop on_gateway

  server_after :
      (works : CanDrop on_server) (n : String) (s : S) (m : String)
      → on_server.offers (on_server.drop n s).0 m ≡ (not (n == m) && on_server.offers s m)
  server_after works n s m = ground (
    arith,
    on_server.offers-drop n s m,
    works n s,
    eq_iff n m,
    λ (e : n ≡ m). ap (on_server.offers s) e,
  )

  gateway_after :
      (works : CanDrop on_gateway) (n : String) (g : Option G) (m : String)
      → gateway_offers (drop_from_gateway create on_server on_gateway n g) m
        ≡ (not (n == m) && gateway_offers g m)
  unfolding drop_from_gateway
  gateway_after works n none m = ground arith
  gateway_after works n (some g) m = ground (
    arith,
    on_gateway.offers-drop n g m,
    works n g,
    eq_iff n m,
    λ (e : n ≡ m). ap (on_gateway.offers g) e,
  )

  gateway_added :
      (n : String) (schema : ServiceSchema) (g : Option G) (m : String)
      → (not (n == m) && gateway_offers (add_to_gateway create on_server on_gateway n schema g) m)
        ≡ (not (n == m) && gateway_offers g m)
  unfolding add_to_gateway
  gateway_added n schema none m = refl
  gateway_added n schema (some g) m = ground (arith, on_gateway.offers-add n schema g m)

  -- `addService` reports success exactly where the server took the service on, and offers no other
  -- service anew. Where removals work, once the service is removed again neither the server nor the
  -- gateway offers it, and both offer what they did before of all others, whichever additions fail.
  pub remove_service-add_service :
      (n : String) (schema : ServiceSchema) (t : Transports S G) (m : String)
      → CanRemove
      → let added = add_service create on_server on_gateway n schema t in
        let removed = remove_service create on_server on_gateway n added.0 in
        (on_server.offers added.0.server m ≡ ((added.1 && n == m) || on_server.offers t.server m))
        × (on_server.offers removed.server m ≡ (not (n == m) && on_server.offers t.server m))
        × (gateway_offers removed.gateway m ≡ (not (n == m) && gateway_offers t.gateway m))
  unfolding add_service remove_service
  remove_service-add_service n schema t m works =
      let added = add_service create on_server on_gateway n schema t in
      (
        ground (arith, on_server.offers-add n schema t.server m),
        ground (
          arith,
          server_after works.0 n added.0.server m,
          on_server.offers-add n schema t.server m,
        ),
        ground
            (arith, gateway_after works.1 n added.0.gateway m, gateway_added n schema t.gateway m),
      )

  pub server-add_service :
      (n : String) (schema : ServiceSchema) (t : Transports S G) (m : String)
      → let added = add_service create on_server on_gateway n schema t in
        on_server.offers added.0.server m ≡ ((added.1 && n == m) || on_server.offers t.server m)
  unfolding add_service
  server-add_service n schema t m = ground (arith, on_server.offers-add n schema t.server m)

  gateway-add_to_gateway :
      (n : String) (schema : ServiceSchema) (g : Option G) (m : String)
      → (gateway_offers (add_to_gateway create on_server on_gateway n schema g) m && not (n == m))
        ≡ (gateway_offers g m && not (n == m))
  unfolding add_to_gateway
  gateway-add_to_gateway n schema none m = refl
  gateway-add_to_gateway n schema (some g) m = ground (arith, on_gateway.offers-add n schema g m)

  -- The gateway gets no other service anew, and none that the server refuses.
  pub gateway-add_service :
      (n : String) (schema : ServiceSchema) (t : Transports S G) (m : String)
      → let added = add_service create on_server on_gateway n schema t in
        (gateway_offers added.0.gateway m && not (added.1 && n == m))
        ≡ (gateway_offers t.gateway m && not (added.1 && n == m))
  unfolding add_service
  gateway-add_service n schema t m = ground (arith, gateway-add_to_gateway n schema t.gateway m)

  pub offers-remove_service :
      (works : CanRemove) (n : String) (t : Transports S G) (m : String)
      → let removed = remove_service create on_server on_gateway n t in
        (on_server.offers removed.server m ≡ (not (n == m) && on_server.offers t.server m))
        × (gateway_offers removed.gateway m ≡ (not (n == m) && gateway_offers t.gateway m))
  unfolding remove_service
  offers-remove_service works n t m =
      (server_after works.0 n t.server m, gateway_after works.1 n t.gateway m)
