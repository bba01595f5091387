-- ===== src/Transports.antt =====
-- `addService` and `removeService` of src/transport_manager.cpp, in a build with remote access: a
-- service goes to the WebSocket server and, where there is one, to the gateway. Both are interfaces
-- over a state of their own.
pub mod Offers
pub mod Published
use foxglove_bridge_ros.Prelude.{
  String, Bool, true, false, not, ◌&&◌, ◌||◌, ◌≡◌, Option, none, some, if◌then◌else◌, ◌==◌,
  string_eq,
}
use foxglove_bridge_ros.Services.Advertised.{ServiceSchema}

-- A transport's table of services: an addition or a removal that fails changes nothing.
pub record ServiceHost (S : Type 0) : Type 0 where
  pub add : String → ServiceSchema → S → S × Bool
  pub drop : String → S → S × Bool
  pub offers : S → String → Bool
  pub offers-add :
      (n : String) (schema : ServiceSchema) (s : S) (m : String)
      → offers (add n schema s).0 m ≡ (((add n schema s).1 && n == m) || offers s m)
  pub offers-drop :
      (n : String) (s : S) (m : String)
      → offers (drop n s).0 m ≡ (not ((drop n s).1 && n == m) && offers s m)

-- A service that is offered can be removed.
abbrev pub CanDrop : {S : Type 0} → ServiceHost S → Type 0
CanDrop {S} host = (n : String) (s : S) → host.offers s n ≡ true → (host.drop n s).1 ≡ true

pub record Transports (S G : Type 0) : Type 0 where
  pub server : S
  pub gateway : Option G

-- `create` is `foxglove::Service::create`, which the code calls once for each transport.
module _ {S G : Type 0} (create : String → ServiceSchema → Bool) (on_server : ServiceHost S)
    (on_gateway : ServiceHost G) where
  -- A failure with the gateway is logged, and changes nothing.
  unfoldable pub add_to_gateway : String → ServiceSchema → Option G → Option G
  add_to_gateway name schema none = none
  add_to_gateway name schema (some g) =
      if create name schema then some (on_gateway.add name schema g).0 else some g

  unfoldable pub add_service : String → ServiceSchema → Transports S G → Transports S G × Bool
  unfolding add_to_gateway
  add_service name schema t =
      let (server, added) = on_server.add name schema t.server in
      let with_server = record t { server = server } in
      let with_both = record with_server { gateway = add_to_gateway name schema t.gateway } in
      if not (create name schema)
      then (t, false)
      else if not added
      then (with_server, false)
      else (with_both, true)

  unfoldable pub drop_from_gateway : String → Option G → Option G
  drop_from_gateway name none = none
  drop_from_gateway name (some g) = some (on_gateway.drop name g).0

  unfoldable pub remove_service : String → Transports S G → Transports S G
  unfolding drop_from_gateway
  remove_service name t = record {
    server = (on_server.drop name t.server).0;
    gateway = drop_from_gateway name t.gateway;
  }
