-- ===== src/Params/Worker/Refcount.antt =====
-- The subscriber counts of `handleSubscribeParams` and `handleUnsubscribeParams`.
use foxglove_bridge_ros.Prelude.{
  ℕ, ◌+◌, ◌-◌, ◌<◌, ◌≡◌, String, ◌&&◌, some, List, [], ◌∷◌, lookup, assign, remove, if◌then◌else◌,
  ◌==◌, nat_eq, string_eq, arith, ltb, leb, lookup-assign, lookup-remove, Option-cases, inl, inr,
}
use text.Mathlib.TextEquality.{eq_iff}
use foxglove_bridge_ros.Params.Worker.{Counts, count_of, count_up, count_down, release_one}

-- How often a name stands in a request.
abbrev pub times : String → List String → ℕ
times name [] = 0
times name (n ∷ names) = let rest = times name names in if n == name then rest + 1 else rest

-- A tracked name has a subscriber.
unfoldable pub Positive : Counts → Type 0
Positive counts = (name : String) (n : ℕ) → lookup name counts ≡ some n → 0 < n

count_of-assign :
    (k j : String) (n : ℕ) (counts : Counts)
    → count_of j (assign k n counts) ≡ (if k == j then n else count_of j counts)
count_of-assign k j n counts = rw (lookup-assign k j n counts) (ground arith)

-- A subscription raises the count of each name by its occurrences.
pub count_of-count_up :
    (names : List String) (counts : Counts) (name : String)
    → count_of name (count_up names counts).0 ≡ count_of name counts + times name names
unfolding count_up
count_of-count_up [] counts name = omega arith
count_of-count_up (n ∷ names) counts name = ground (
  arith,
  eq_iff n name,
  count_of-count_up names (assign n (count_of n counts + 1) counts) name,
  count_of-assign n name (count_of n counts + 1) counts,
)

count_of-remove :
    (k j : String) (counts : Counts)
    → count_of j (remove k counts) ≡ (if k == j then 0 else count_of j counts)
count_of-remove k j counts = rw (lookup-remove k j counts) (ground arith)

count_of-release_one :
    (k j : String) (counts : Counts)
    → count_of j (release_one k counts).0
      ≡ (if k == j then count_of j counts - 1 else count_of j counts)
unfolding release_one
count_of-release_one k j counts = ground (
  arith,
  eq_iff k j,
  count_of-remove k j counts,
  count_of-assign k j (count_of k counts - 1) counts,
)

-- An unsubscription lowers the count of each name by its occurrences, and never below zero.
pub count_of-count_down :
    (names : List String) (counts : Counts) (name : String)
    → count_of name (count_down names counts).0 ≡ count_of name counts - times name names
unfolding count_down
count_of-count_down [] counts name = omega arith
count_of-count_down (n ∷ names) counts name = ground (
  arith,
  eq_iff n name,
  count_of-count_down names (release_one n counts).0 name,
  count_of-release_one n name counts,
)

-- A subscription forwards a name, once, exactly when it raises the name's count from zero.
pub times-count_up :
    (names : List String) (counts : Counts) (name : String)
    → times name (count_up names counts).1
      ≡ (if count_of name counts == 0 && ltb 0 (times name names) then 1 else 0)
unfolding count_up
times-count_up [] counts name = ground arith
times-count_up (n ∷ names) counts name = ground (
  arith,
  eq_iff n name,
  times-count_up names (assign n (count_of n counts + 1) counts) name,
  count_of-assign n name (count_of n counts + 1) counts,
)

released_last :
    (k : String) (counts : Counts)
    → Positive counts
    → (release_one k counts).1 ≡ (count_of k counts == 1)
unfolding release_one Positive
released_last k counts h = elim (Option-cases (lookup k counts)) [
  | inl e ↦ rw (e, release_one)
  | inr (n, e) ↦ ground (arith, h k n e)
]

release_one-Positive :
    (k : String) (counts : Counts) → Positive counts → Positive (release_one k counts).0
unfolding release_one Positive
release_one-Positive k counts h name n e = elim (Option-cases (lookup k counts)) [
  | inl e' ↦ ground (arith, h name n)
  | inr (m, e') ↦ ground (
    arith,
    h name n,
    h k m e',
    eq_iff k name,
    lookup-remove k name counts,
    lookup-assign k name (m - 1) counts,
  )
]

assign-Positive :
    (k : String) (m : ℕ) (counts : Counts) → 0 < m → Positive counts → Positive (assign k m counts)
unfolding Positive
assign-Positive k m counts p h name n e =
    ground (arith, h name n, eq_iff k name, lookup-assign k name m counts)

-- Each tracked name keeps a positive count, so a decrement never goes below zero.
pub count_up-Positive :
    (names : List String) (counts : Counts) → Positive counts → Positive (count_up names counts).0
unfolding count_up
count_up-Positive [] counts h = h
count_up-Positive (n ∷ names) counts h =
    count_up-Positive names _ (assign-Positive n _ counts (omega arith) h)

pub count_down-Positive :
    (names : List String) (counts : Counts) → Positive counts → Positive (count_down names counts).0
unfolding count_down
count_down-Positive [] counts h = h
count_down-Positive (n ∷ names) counts h =
    count_down-Positive names _ (release_one-Positive n counts h)

-- Where each tracked name has a positive count, an unsubscription forwards a name, once, exactly
-- when it takes the name's count to zero; a name that nobody is subscribed to is not forwarded.
pub times-count_down :
    (names : List String) (counts : Counts) (name : String)
    → Positive counts
    → times name (count_down names counts).1 ≡ (
        if ltb 0 (count_of name counts) && leb (count_of name counts) (times name names)
        then 1
        else 0)
unfolding count_down
times-count_down [] counts name h = ground arith
times-count_down (n ∷ names) counts name h = ground (
  arith,
  eq_iff n name,
  times-count_down names (release_one n counts).0 name (release_one-Positive n counts h),
  released_last n counts h,
  count_of-release_one n name counts,
)
