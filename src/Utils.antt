-- ===== src/Utils.antt =====
-- include/foxglove_bridge/utils.hpp and `parseRegexPatterns` of src/ros1_foxglove_bridge.cpp.
-- `std::regex` stands as an interface: how a pattern is compiled, and what it matches.
use foxglove_bridge_ros.Prelude.{
  ℕ, ◌-◌, ◌%◌, ◌^◌, ◌<◌, ◌≡◌, refl, Bool, false, ◌||◌, Option, none, some, List, [], ◌∷◌, min, max,
  any, if◌then◌else◌, arith,
}
use native.Mathlib.Nat.{mod-eq_of_lt}
use foxglove_bridge_ros.Prelude.Int.{ℤ, pos, negsuc, pos_part, leb_ℤ, max_ℤ, to_unsigned}

-- `size_t` has `size_mod` values.
unfoldable pub saturating_to_size_t : ℕ → ℤ → ℤ → ℕ
saturating_to_size_t size_mod value low =
    let floor = max_ℤ low (pos 0) in
    if leb_ℤ value floor
    then to_unsigned size_mod floor
    else min (to_unsigned (2 ^ 64) value) (size_mod - 1) % size_mod

-- `std::regex` over texts `T`; the constructor throws on an invalid pattern.
pub record RegexEngine (T : Type 0) : Type 1 where
  pub Regex : Type 0
  pub compile : T → Option Regex
  pub regex_match : T → Regex → Bool

module _ {T : Type 0} (engine : RegexEngine T) where
  open engine use {Regex, compile, regex_match}

  unfoldable pub matches_regex : T → List Regex → Bool
  matches_regex name [] = false
  matches_regex name (regex ∷ patterns) = regex_match name regex || matches_regex name patterns

  -- The loop of `parseRegexPatterns`: a pattern that does not compile is left out.
  unfoldable pub parse_regex_patterns : List T → List Regex
  parse_regex_patterns [] = []
  parse_regex_patterns (pattern' ∷ strings) =
      let rest = parse_regex_patterns strings in
      elim (compile pattern') [ none ↦ rest | some regex ↦ regex ∷ rest ]

  -- What one configured pattern says of a name.
  abbrev pub pattern_matches : T → T → Bool
  pattern_matches name pattern' = elim (compile pattern') [
    | none ↦ false
    | some regex ↦ regex_match name regex
  ]

  -- A name passes a configured list exactly when it matches, as a whole, one of the patterns that
  -- compile; an invalid pattern neither admits a name nor disables the other patterns.
  pub matches_regex-parse_regex_patterns :
      (name : T) (strings : List T)
      → matches_regex name (parse_regex_patterns strings) ≡ any (pattern_matches name) strings
  unfolding matches_regex parse_regex_patterns
  matches_regex-parse_regex_patterns name [] = refl
  matches_regex-parse_regex_patterns name (p ∷ strings) =
      ground (arith, matches_regex-parse_regex_patterns name strings)

-- For a lower bound that `size_t` can hold, the result is the value clamped from below by the
-- bound and by zero, and from above by the greatest `size_t`; no `int64_t` wraps around.
pub saturating_to_size_t_clamps :
    (size_mod : ℕ) (value low : ℤ)
    → pos_part value < 2 ^ 63
    → pos_part low < size_mod
    → saturating_to_size_t size_mod value low
      ≡ min (max (pos_part value) (pos_part low)) (size_mod - 1)
unfolding saturating_to_size_t
saturating_to_size_t_clamps m (pos v) (pos l) small fits = ground (
  arith,
  mod-eq_of_lt {n = v} {m = 2 ^ 64},
  mod-eq_of_lt {n = l} {m = m},
  mod-eq_of_lt {n = min v (m - 1)} {m = m},
)
saturating_to_size_t_clamps m (pos v) (negsuc l) small fits = ground (
  arith,
  mod-eq_of_lt {n = v} {m = 2 ^ 64},
  mod-eq_of_lt {n = 0} {m = m},
  mod-eq_of_lt {n = min v (m - 1)} {m = m},
)
saturating_to_size_t_clamps m (negsuc v) (pos l) small fits =
    ground (arith, mod-eq_of_lt {n = l} {m = m})
saturating_to_size_t_clamps m (negsuc v) (negsuc l) small fits =
    ground (arith, mod-eq_of_lt {n = 0} {m = m})
