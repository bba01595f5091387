-- ===== src/Services/Advertised/Coverage.antt =====
-- Which services are advertised after an update (src/ros1_foxglove_bridge.cpp).
use foxglove_bridge_ros.Prelude.{
  true, false, ◌++◌, ◌∙◌, String, ◌≡◌, refl, ap, not, ◌&&◌, Option, none, some, List, [], ◌∷◌,
  is_some, lookup, emplace, remove, contains, if◌then◌else◌, string_eq, ◌==◌, lookup-emplace,
  lookup-remove, arith, Bool-cases, inl, inr,
}
use text.Mathlib.TextEquality.{eq_iff}
use foxglove_bridge_ros.Services.Advertised.{
  ServiceDetails, ServiceSources, Services, services_to_remove, erase_all, details_for, schema_for,
  remove_all, advertise_typed, advertise_one, advertise_new, update_advertised_services,
}

pub lookup-erase_all :
    (gone : List String) (services : Services) (n : String)
    → lookup n (erase_all gone services) ≡ (if contains n gone then none else lookup n services)
unfolding erase_all
lookup-erase_all [] services n = refl
lookup-erase_all (g ∷ gone) services n =
    ground
      (arith, lookup-erase_all gone (remove g services) n, lookup-remove g n services, eq_iff g n)

contains-services_to_remove :
    (names : List String) (services : Services) (n : String)
    → contains n (services_to_remove names services)
      ≡ (is_some (lookup n services) && not (contains n names))
unfolding services_to_remove lookup
contains-services_to_remove names [] n = refl
contains-services_to_remove names ((m, d) ∷ services) n = elim (Bool-cases (m == n)) [
  | inl e ↦
      let same = (eq_iff m n).0 e in
      ground (
        arith,
        eq_iff m n,
        contains-services_to_remove names services n,
        ap (λ x. contains x names) same,
      )
  | inr e ↦ ground (arith, contains-services_to_remove names services n)
]

contains-middle :
    (n : String) (earlier later : List String) → contains n (earlier ++ n ∷ later) ≡ true
contains-middle n [] later = ground (arith, eq_iff n n)
contains-middle n (m ∷ earlier) later = ground (arith, contains-middle n earlier later)

abbrev pub either : Option ServiceDetails → Option ServiceDetails → Option ServiceDetails
either none b = b
either (some a) b = some a

pub lookup_same :
    (m n : String) (services : Services) → m ≡ n → lookup m services ≡ lookup n services
lookup_same m n services e = ap (λ x. lookup x services) e

module _ {T : Type 0} (sources : ServiceSources T) where
  open sources use {retrieve_service_type, get_service_description, add_service}

  lookup-advertise_typed_other :
      (name : String) (o : Option String) (services : Services) (t : T) (n : String)
      → lookup name services ≡ none
      → is_some (lookup n services) ≡ true
      → lookup n (advertise_typed sources name o services t).0 ≡ lookup n services
  unfolding advertise_typed
  lookup-advertise_typed_other name none services t n e h = refl
  lookup-advertise_typed_other name (some type) services t n e h =
      let d = details_for type (get_service_description type) in
      ground (
        arith,
        eq_iff name n,
        lookup-emplace name n d services,
        lookup-remove name n (emplace name d services),
        lookup_same name n services,
      )

  lookup-advertise_one_other :
      (name : String) (services : Services) (t : T) (n : String)
      → is_some (lookup n services) ≡ true
      → lookup n (advertise_one sources name services t).0 ≡ lookup n services
  unfolding advertise_one
  lookup-advertise_one_other name services t n h =
      ground (arith, h, lookup-advertise_typed_other name (retrieve_service_type name) services t n)

  -- What is advertised stays so while others are added.
  lookup-advertise_new_old :
      (names : List String) (services : Services) (t : T) (n : String)
      → is_some (lookup n services) ≡ true
      → lookup n (advertise_new sources names services t).0 ≡ lookup n services
  unfolding advertise_new
  lookup-advertise_new_old [] services t n h = refl
  lookup-advertise_new_old (m ∷ names) services t n h =
      let (services', t') = advertise_one sources m services t in
      let same = lookup-advertise_one_other m services t n h in
      lookup-advertise_new_old names services' t' n (ap is_some same ∙ h) ∙ same

  pub lookup-update_advertised_services_old :
      (names : List String) (services : Services) (t : T) (n : String)
      → is_some (lookup n services) ≡ true
      → contains n names ≡ true
      → lookup n (update_advertised_services sources names services t).0 ≡ lookup n services
  unfolding update_advertised_services
  lookup-update_advertised_services_old names services t n h listed =
      let gone = services_to_remove names services in
      let kept : lookup n (erase_all gone services) ≡ lookup n services = ground (
        arith,
        h,
        listed,
        lookup-erase_all gone services n,
        contains-services_to_remove names services n,
      ) in
      lookup-advertise_new_old names (erase_all gone services) (remove_all sources gone t) n
        (ap is_some kept ∙ h)
      ∙ kept

  -- The details that an advertisement of the service is recorded with, if it succeeds while the
  -- transports are in this state.
  abbrev pub offer_typed : T → String → Option String → Option ServiceDetails
  offer_typed t name none = none
  offer_typed t name (some type) =
      let description = get_service_description type in
      if (add_service name (schema_for type description) t).1
      then some (details_for type description)
      else none

  abbrev pub offer : T → String → Option ServiceDetails
  offer t name = offer_typed t name (retrieve_service_type name)

  offer_same : (t : T) (m n : String) → m ≡ n → offer t m ≡ offer t n
  offer_same t m n e = ap (offer t) e

  lookup-advertise_typed :
      (name : String) (o : Option String) (services : Services) (t : T) (n : String)
      → lookup name services ≡ none
      → lookup n (advertise_typed sources name o services t).0
        ≡ (if name == n then offer_typed t name o else lookup n services)
  unfolding advertise_typed
  lookup-advertise_typed name none services t n e = ground (arith, eq_iff name n)
  lookup-advertise_typed name (some type) services t n e =
      let d = details_for type (get_service_description type) in
      ground (
        arith,
        eq_iff name n,
        lookup-emplace name n d services,
        lookup-remove name n (emplace name d services),
      )

  lookup-advertise_one :
      (name : String) (services : Services) (t : T) (n : String)
      → lookup n (advertise_one sources name services t).0
        ≡ (if name == n then either (lookup n services) (offer t n) else lookup n services)
  unfolding advertise_one
  lookup-advertise_one name services t n = ground (
    arith,
    eq_iff name n,
    lookup-advertise_typed name (retrieve_service_type name) services t n,
    lookup_same name n services,
    offer_same t name n,
  )

  lookup-advertise_new_absent :
      (names : List String) (services : Services) (t : T) (n : String)
      → contains n names ≡ false
      → lookup n (advertise_new sources names services t).0 ≡ lookup n services
  unfolding advertise_new
  lookup-advertise_new_absent [] services t n e = refl
  lookup-advertise_new_absent (m ∷ names) services t n e =
      let (services', t') = advertise_one sources m services t in
      ground (
        arith,
        e,
        lookup-advertise_new_absent names services' t' n,
        lookup-advertise_one m services t n,
      )

  lookup-advertise_new_turn :
      (earlier later : List String) (services : Services) (t : T) (n : String)
      → contains n earlier ≡ false
      → contains n later ≡ false
      → lookup n (advertise_new sources (earlier ++ n ∷ later) services t).0
        ≡ either (lookup n services) (offer (advertise_new sources earlier services t).1 n)
  unfolding advertise_new
  lookup-advertise_new_turn [] later services t n e l =
      let (services', t') = advertise_one sources n services t in
      lookup-advertise_new_absent later services' t' n l
      ∙ ground (arith, eq_iff n n, lookup-advertise_one n services t n)
  lookup-advertise_new_turn (m ∷ earlier) later services t n e l =
      let (services', t') = advertise_one sources m services t in
      let other : lookup n services' ≡ lookup n services =
        ground (arith, e, lookup-advertise_one m services t n) in
      lookup-advertise_new_turn earlier later services' t' n (ground (arith, e)) l
      ∙ ap (λ o. either o (offer (advertise_new sources earlier services' t').1 n)) other

  -- The transports when the turn of the service after `earlier` comes.
  abbrev pub at_turn : List String → List String → Services → T → T
  at_turn names earlier services t =
      let gone = services_to_remove names services in
      (advertise_new sources earlier (erase_all gone services) (remove_all sources gone t)).1

  -- After an update, a service that stands once on the list of the master is advertised exactly if it
  -- was advertised before, with the details of then, or its type is found and the SDK takes it on
  -- when its turn comes, whatever became of the services before and after it on the list; and a
  -- service that is not on the list is not advertised.
  pub lookup-update_advertised_services :
      (earlier later : List String) (services : Services) (t : T) (n other : String)
      → contains n earlier ≡ false
      → contains n later ≡ false
      → contains other (earlier ++ n ∷ later) ≡ false
      → let names = earlier ++ n ∷ later in
        let after = (update_advertised_services sources names services t).0 in
        (lookup n after ≡ either (lookup n services) (offer (at_turn names earlier services t) n))
        × (lookup other after ≡ none)
  unfolding update_advertised_services
  lookup-update_advertised_services earlier later services t n other e l absent =
      let names = earlier ++ n ∷ later in
      let gone = services_to_remove names services in
      let t' = remove_all sources gone t in
      let kept : lookup n (erase_all gone services) ≡ lookup n services = ground (
        arith,
        contains-middle n earlier later,
        lookup-erase_all gone services n,
        contains-services_to_remove names services n,
      ) in
      (
        lookup-advertise_new_turn earlier later (erase_all gone services) t' n e l
            ∙ ap (λ o. either o (offer (at_turn names earlier services t) n)) kept,
        lookup-advertise_new_absent names (erase_all gone services) t' other absent
            ∙ ground (
              arith,
              absent,
              lookup-erase_all gone services other,
              contains-services_to_remove names services other,
            ),
      )
