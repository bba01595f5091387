-- ===== src/Capabilities/Grants.antt =====
-- Which names grant which flags (src/capabilities.cpp).
use foxglove_bridge_ros.Prelude.{
  String, subst, ◌≡◌, refl, ap, ◌∙◌, Bool, true, false, ◌||◌, none, some, List, [], ◌∷◌, any,
  contains, lookup, if◌then◌else◌, Option-cases, string_eq, ◌==◌, arith, Bool-cases, inl, inr,
}
use text.Mathlib.TextEquality.{eq_iff}
use foxglove_bridge_ros.Capabilities.{
  Capability, FlagSet, string_to_capability, has_capability, add_named, process_from,
  process_capabilities,
}

-- The names under which a capability is asked for in the `capabilities` parameter.
abbrev pub names_of : Capability → List String
names_of Capability.client_publish = "clientPublish" ∷ []
names_of Capability.parameters = "parameters" ∷ "parametersSubscribe" ∷ []
names_of Capability.services = "services" ∷ []
names_of Capability.connection_graph = "connectionGraph" ∷ []
names_of Capability.assets = "assets" ∷ []
names_of Capability.time = []

Capability-discrete : Discrete Capability
Capability-discrete = hlevel

module _ {F : Type 0} (set : FlagSet F) (dec : Discrete F) where
  open set use {Flags, flag, join, meet, equal, bit}

  bits_agree : (a : Flags) (f g : F) → bit a f ≡ true → bit (meet a (flag f)) g ≡ bit (flag f) g
  bits_agree a f g e = elim (dec f g) [
    | yes p ↦
        subst (λ x. bit (meet a (flag f)) x ≡ bit (flag f) x) p
          (ground (arith, set.bit-meet a (flag f) f, set.bit-flag_self f))
    | no p ↦ ground (arith, set.bit-meet a (flag f) g, set.bit-flag_ne f g p)
  ]

  -- The test of `hasCapability` reads the one bit.
  pub equal-meet-flag : (a : Flags) (f : F) → equal (meet a (flag f)) (flag f) ≡ bit a f
  equal-meet-flag a f = elim (Bool-cases (bit a f)) [
    | inl e ↦ rw e (set.equal_of_bits _ _ (λ g. bits_agree a f g e))
    | inr e ↦ ground (
      arith,
      set.bits_of_equal (meet a (flag f)) (flag f) f,
      set.bit-meet a (flag f) f,
      set.bit-flag_self f,
    )
  ]

  pub bit-flag :
      (f g : F) (b : Bool) → (f ≡ g → b ≡ true) → (¬ (f ≡ g) → b ≡ false) → bit (flag f) g ≡ b
  bit-flag f g b same other = elim (dec f g) [
    | yes p ↦ rw (same p) (subst (λ x. bit (flag f) x ≡ true) p (set.bit-flag_self f))
    | no p ↦ rw (other p) (set.bit-flag_ne f g p)
  ]

same_capability : Capability → Capability → Bool
same_capability Capability.client_publish Capability.client_publish = true
same_capability Capability.parameters Capability.parameters = true
same_capability Capability.services Capability.services = true
same_capability Capability.connection_graph Capability.connection_graph = true
same_capability Capability.assets Capability.assets = true
same_capability Capability.time Capability.time = true
same_capability _ _ = false

same_capability_of_eq : (c f : Capability) → c ≡ f → same_capability c f ≡ true
unfolding same_capability
same_capability_of_eq c f e = ground arith

same_capability_of_ne : (c f : Capability) → ¬ (c ≡ f) → same_capability c f ≡ false
unfolding same_capability
same_capability_of_ne c f n = ground arith

abbrev Table : Type 0
Table = List (String × Capability)

-- What a name grants by the table.
grants : Table → String → Capability → Bool
grants table name f = elim (lookup name table) [ none ↦ false | some c ↦ same_capability c f ]

keys_of : Table → Capability → List String
keys_of [] f = []
keys_of ((k, c) ∷ table) f =
    let rest = keys_of table f in if same_capability c f then k ∷ rest else rest

NoTwice : Table → Type 0
NoTwice [] = Unit
NoTwice ((k, c) ∷ table) = (lookup k table ≡ none) × NoTwice table

keys_of_absent :
    (k : String) (table : Table) (f : Capability)
    → lookup k table ≡ none
    → contains k (keys_of table f) ≡ false
unfolding keys_of lookup
keys_of_absent k [] f h = refl
keys_of_absent k ((j, c) ∷ table) f h = ground (arith, keys_of_absent k table f)

grants-keys_of :
    (table : Table) (name : String) (f : Capability)
    → NoTwice table
    → grants table name f ≡ contains name (keys_of table f)
unfolding grants keys_of lookup NoTwice
grants-keys_of [] name f h = refl
grants-keys_of ((k, c) ∷ table) name f h = elim (Bool-cases (k == name)) [
  | inl e ↦
      let same : k ≡ name = (eq_iff k name).0 e in
      ground (
        arith,
        eq_iff k name,
        keys_of_absent name table f (subst (λ n. lookup n table ≡ none) same h.0),
      )
  | inr e ↦ ground (arith, grants-keys_of table name f h.1)
]

names_of-keys_of : (f : Capability) → names_of f ≡ keys_of string_to_capability f
unfolding keys_of same_capability
names_of-keys_of Capability.time = refl
names_of-keys_of f = refl

table-NoTwice : NoTwice string_to_capability
unfolding NoTwice lookup
table-NoTwice = (refl, (refl, (refl, (refl, (refl, (refl, tt))))))

module _ (ws : FlagSet Capability) where
  add_named-grants :
      (out : ws.Flags) (name : String) (f : Capability)
      → ws.bit (add_named ws out name) f ≡ (ws.bit out f || grants string_to_capability name f)
  unfolding add_named grants
  add_named-grants out name f = elim (Option-cases (lookup name string_to_capability)) [
    | inl e ↦ rw (e, add_named, grants) (ground (arith))
    | inr (c, e) ↦
        rw (e, add_named, grants)
          (ws.bit-join out (ws.flag c) f
            ∙ ap (◌||◌ (ws.bit out f)) (
                bit-flag ws Capability-discrete c f (same_capability c f)
                  (same_capability_of_eq c f) (same_capability_of_ne c f)))
  ]

  process_from-bit :
      (out : ws.Flags) (names : List String) (f : Capability)
      → ws.bit (process_from ws out names) f
        ≡ (ws.bit out f || any (λ n. contains n (names_of f)) names)
  unfolding process_from
  process_from-bit out [] f = ground arith
  process_from-bit out (n ∷ names) f = ground (
    arith,
    process_from-bit (add_named ws out n) names f,
    add_named-grants out n f,
    grants-keys_of string_to_capability n f table-NoTwice,
    names_of-keys_of f,
  )

  -- A capability is advertised exactly when one of its names is in the configured list, whatever
  -- else the list holds; unknown names grant nothing.
  pub has_capability-process_capabilities :
      (names : List String) (f : Capability)
      → has_capability ws (process_capabilities ws names) (ws.flag f)
        ≡ any (λ n. contains n (names_of f)) names
  unfolding has_capability process_capabilities
  has_capability-process_capabilities names f =
      equal-meet-flag ws Capability-discrete (process_from ws ws.no_flags names) f
      ∙ ground (arith, process_from-bit ws.no_flags names f, ws.bit-no_flags f)
