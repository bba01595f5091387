-- ===== src/Prelude/Maps.antt =====
-- `std::unordered_map` and `std::map` as association lists. A key that is inserted stays in
-- its place, a key that is erased is gone; the laws are stated for every lookup.
use Prim.Native.Nat.{ℕ, ◌+◌}
use mathlib.Core.Path.{◌≡◌, refl, ap}
use mathlib.Core.Bool.{Bool, true, false, not, ◌&&◌}
use mathlib.Core.List.{List, [], ◌∷◌}
use mathlib.Core.Option.{Option, none, some}
use native.Mathlib.Omega.{arith}
use foxglove_bridge_ros.Prelude.Tests.{Eq, ◌==◌, if◌then◌else◌}

abbrev pub or_else {ℓ} : {A : Type ℓ} → Option A → A → A
or_else none a = a
or_else (some b) a = b

abbrev pub is_some {ℓ} : {A : Type ℓ} → Option A → Bool
is_some none = false
is_some (some a) = true

abbrev pub weight_at {κ} : {V : Type κ} → (V → ℕ) → Option V → ℕ
weight_at weight none = 0
weight_at weight (some v) = weight v

module _ {ℓ κ} {K : Type ℓ} {V : Type κ} ⦃e : Eq K⦄ where
  -- `map.find(k)`.
  unfoldable pub lookup : K → List (K × V) → Option V
  lookup k [] = none
  lookup k ((j, v) ∷ m) = if j == k then some v else lookup k m

  -- `map[k] = v`.
  unfoldable pub assign : K → V → List (K × V) → List (K × V)
  assign k v [] = (k, v) ∷ []
  assign k v ((j, w) ∷ m) = if j == k then (j, v) ∷ m else (j, w) ∷ assign k v m

  -- `map.insert({k, v})` and `map.emplace(k, v)`: an entry that is there stays.
  unfoldable pub emplace : K → V → List (K × V) → List (K × V)
  emplace k v [] = (k, v) ∷ []
  emplace k v ((j, w) ∷ m) = if j == k then (j, w) ∷ m else (j, w) ∷ emplace k v m

  -- `map.erase(k)`.
  unfoldable pub remove : K → List (K × V) → List (K × V)
  remove k [] = []
  remove k ((j, v) ∷ m) = let rest = remove k m in if j == k then rest else (j, v) ∷ rest

  pub lookup-assign :
      (k j : K) (v : V) (m : List (K × V))
      → lookup j (assign k v m) ≡ (if k == j then some v else lookup j m)
  unfolding lookup assign
  lookup-assign k j v [] = refl
  lookup-assign k j v ((i, w) ∷ m) =
      ground (arith, e.beq_iff k j, e.beq_iff i k, e.beq_iff i j, lookup-assign k j v m)

  pub lookup-emplace :
      (k j : K) (v : V) (m : List (K × V))
      → lookup j (emplace k v m) ≡ (if k == j then some (or_else (lookup j m) v) else lookup j m)
  unfolding lookup emplace
  lookup-emplace k j v [] = ground arith
  lookup-emplace k j v ((i, w) ∷ m) =
      ground (arith, e.beq_iff k j, e.beq_iff i k, e.beq_iff i j, lookup-emplace k j v m)

  pub lookup-remove :
      (k j : K) (m : List (K × V)) → lookup j (remove k m) ≡ (if k == j then none else lookup j m)
  unfolding lookup remove
  lookup-remove k j [] = ground arith
  lookup-remove k j ((i, w) ∷ m) =
      ground (arith, e.beq_iff k j, e.beq_iff i k, e.beq_iff i j, lookup-remove k j m)

  -- A map has each key once.
  abbrev pub unique : List (K × V) → Bool
  unique [] = true
  unique ((k, v) ∷ m) = not (is_some (lookup k m)) && unique m

  pub unique-assign :
      (k : K) (v : V) (m : List (K × V)) → unique m ≡ true → unique (assign k v m) ≡ true
  unfolding assign lookup
  unique-assign k v [] h = refl
  unique-assign k v ((j, w) ∷ m) h =
      ground (arith, h, e.beq_iff j k, unique-assign k v m, lookup-assign k j v m, e.beq_iff k j)

  pub unique-emplace :
      (k : K) (v : V) (m : List (K × V)) → unique m ≡ true → unique (emplace k v m) ≡ true
  unfolding emplace lookup
  unique-emplace k v [] h = refl
  unique-emplace k v ((j, w) ∷ m) h =
      ground (arith, h, e.beq_iff j k, unique-emplace k v m, lookup-emplace k j v m, e.beq_iff k j)

  pub unique-remove : (k : K) (m : List (K × V)) → unique m ≡ true → unique (remove k m) ≡ true
  unfolding remove lookup
  unique-remove k [] h = refl
  unique-remove k ((j, w) ∷ m) h = ground (arith, h, unique-remove k m, lookup-remove k j m)

  -- The sum of the weights of a map's values.
  module _ (weight : V → ℕ) where
    abbrev pub weigh : List (K × V) → ℕ
    weigh [] = 0
    weigh ((k, v) ∷ m) = weight v + weigh m

    weigh-remove_absent :
        (k : K) (m : List (K × V)) → lookup k m ≡ none → weigh (remove k m) ≡ weigh m
    unfolding lookup remove
    weigh-remove_absent k [] h = refl
    weigh-remove_absent k ((j, w) ∷ m) h = ground (arith, h, weigh-remove_absent k m)

    pub weigh-remove :
        (k : K) (m : List (K × V))
        → unique m ≡ true
        → weigh (remove k m) + weight_at weight (lookup k m) ≡ weigh m
    unfolding lookup remove
    weigh-remove k [] h = refl
    weigh-remove k ((j, w) ∷ m) h =
        ground
          (arith, h, e.beq_iff j k, weigh-remove k m, weigh-remove_absent k m, ap (λ x. lookup x m))

    pub weigh-assign :
        (k : K) (v : V) (m : List (K × V))
        → weigh (assign k v m) + weight_at weight (lookup k m) ≡ weigh m + weight v
    unfolding lookup assign
    weigh-assign k v [] = omega arith
    weigh-assign k v ((j, w) ∷ m) = ground (arith, weigh-assign k v m)
