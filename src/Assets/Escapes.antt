-- ===== src/Assets/Escapes.antt =====
-- The path traversal check of `fetchAsset` (src/ros1_foxglove_bridge.cpp) and percent-escapes.
use foxglove_bridge_ros.Prelude.{
  zero, suc, length, ◌≤◌, ℕ, ◌≡◌, ◌≢◌, refl, ap, Bool, true, false, ◌&&◌, ◌==◌, nat_beq_iff,
  Bool-cases, inl, inr, Option, some, List, [], ◌∷◌, ◌++◌, ◌↔◌, nat_eq, arith, ◌∙◌,
}
use foxglove_bridge_ros.Utils.{RegexEngine, matches_regex}
use foxglove_bridge_ros.Assets.{
  Bytes, is_xdigit, hex_byte, percent_decode, has_dots, respond_ok, respond_error, fetch_asset,
}

-- Two hexadecimal digits come first.
abbrev pub starts_escape : Bytes → Bool
starts_escape [] = false
starts_escape (a ∷ []) = false
starts_escape (a ∷ b ∷ u) = is_xdigit a && is_xdigit b

-- `Spells uri bytes`: the text spells the bytes, each one as itself or as `%` and two digits; a `%`
-- that no two digits follow is itself.
pub data Spells : Bytes → Bytes → Type 0 where
  end : Spells [] []
  literal : (c : ℕ) {u d : Bytes} → c ≢ b'%' → Spells u d → Spells (c ∷ u) (c ∷ d)
  stray :
      (c : ℕ) {u d : Bytes}
      → c ≡ b'%'
      → starts_escape u ≡ false
      → Spells u d
      → Spells (c ∷ u) (c ∷ d)
  escaped :
      (c a b : ℕ) {u d : Bytes}
      → c ≡ b'%'
      → is_xdigit a ≡ true
      → is_xdigit b ≡ true
      → Spells u d
      → Spells (c ∷ a ∷ b ∷ u) (hex_byte a b ∷ d)

percent_decode_plain :
    (c : ℕ) (u : Bytes) → c ≢ b'%' → percent_decode (c ∷ u) ≡ c ∷ percent_decode u
unfolding percent_decode
percent_decode_plain c [] h = refl
percent_decode_plain c (a ∷ []) h = refl
percent_decode_plain c (a ∷ b ∷ u) h = ground arith

percent_decode_stray :
    (c : ℕ) (u : Bytes) → starts_escape u ≡ false → percent_decode (c ∷ u) ≡ c ∷ percent_decode u
unfolding percent_decode
percent_decode_stray c [] h = refl
percent_decode_stray c (a ∷ []) h = refl
percent_decode_stray c (a ∷ b ∷ u) h = ground (arith, h)

percent_decode_escape :
    (c a b : ℕ) (u : Bytes)
    → c ≡ b'%'
    → is_xdigit a ≡ true
    → is_xdigit b ≡ true
    → percent_decode (c ∷ a ∷ b ∷ u) ≡ hex_byte a b ∷ percent_decode u
unfolding percent_decode
percent_decode_escape c a b u e x y = ground arith

-- Decoding gives back the bytes, whichever of them a text escapes and in whichever case.
pub percent_decode-Spells : {u d : Bytes} → Spells u d → percent_decode u ≡ d
unfolding percent_decode
percent_decode-Spells end = refl
percent_decode-Spells (literal c {u} h s) =
    percent_decode_plain c u h ∙ ap (◌∷◌ c) (percent_decode-Spells s)
percent_decode-Spells (stray c {u} p h s) =
    percent_decode_stray c u h ∙ ap (◌∷◌ c) (percent_decode-Spells s)
percent_decode-Spells (escaped c a b {u} e x y s) =
    percent_decode_escape c a b u e x y ∙ ap (◌∷◌ (hex_byte a b)) (percent_decode-Spells s)

two_digits :
    (u : Bytes)
    → starts_escape u ≡ true
    → (a : ℕ) × (b : ℕ) × (rest : Bytes) × (u ≡ a ∷ b ∷ rest)
      × (is_xdigit a ≡ true)
      × (is_xdigit b ≡ true)
two_digits [] e = absurd (cc e)
two_digits (a ∷ []) e = absurd (cc e)
two_digits (a ∷ b ∷ rest) e = (a, b, rest, refl, ground (arith, e), ground (arith, e))

-- Every text of at most this length spells its decoding.
bounded : (n : ℕ) (u : Bytes) → length u ≤ n → Spells u (percent_decode u)
unfolding percent_decode
bounded n [] le = end
bounded zero (c ∷ u) le = absurd (omega (arith, le))
bounded (suc n) (c ∷ u) le = elim (Bool-cases (c == b'%')) [
  | inr other ↦
      let plain : c ≢ b'%' = λ p. ground (arith, other, nat_beq_iff c b'%', p) in
      rw (percent_decode_plain c u plain) (literal c plain (bounded n u (omega (arith, le))))
  | inl percent ↦
      let is_percent : c ≡ b'%' = (nat_beq_iff c b'%').0 percent in
      elim (Bool-cases (starts_escape u)) [
        | inr no_digits ↦
            rw (percent_decode_stray c u no_digits)
              (stray c is_percent no_digits (bounded n u (omega (arith, le))))
        | inl digits ↦
            let (a, b, rest, same, x, y) = two_digits u digits in
            let shorter = bounded n rest (omega (arith, le, ap length same)) in
            rw (same, percent_decode_escape c a b rest is_percent x y)
              (escaped c a b is_percent x y shorter)
      ]
]

-- Every text spells its decoding.
percent_decode-IsSpelled : (u : Bytes) → Spells u (percent_decode u)
percent_decode-IsSpelled u = bounded (length u) u (omega arith)

has_dots-append : (p q : Bytes) → has_dots (p ++ b'.' ∷ b'.' ∷ q) ≡ true
unfolding has_dots
has_dots-append [] q = refl
has_dots-append (c ∷ []) q = ground arith
has_dots-append (c ∷ d ∷ p) q = ground (arith, has_dots-append (d ∷ p) q)

dots_first : (c a : ℕ) (d : Bytes) → (c == b'.' && a == b'.') ≡ true → c ∷ a ∷ d ≡ b'.' ∷ b'.' ∷ d
dots_first c a d e =
    let first : c ≡ b'.' = (nat_beq_iff c b'.').0 (ground (arith, e)) in
    let second : a ≡ b'.' = (nat_beq_iff a b'.').0 (ground (arith, e)) in rw (first, second) refl

-- Two consecutive dots stand somewhere.
has_dots-split :
    (d : Bytes)
    → has_dots d ≡ true
    → (before : Bytes) × (after : Bytes) × (d ≡ before ++ b'.' ∷ b'.' ∷ after)
unfolding has_dots
has_dots-split [] e = absurd (cc e)
has_dots-split (c ∷ []) e = absurd (cc e)
has_dots-split (c ∷ a ∷ d) e = elim (Bool-cases (c == b'.' && a == b'.')) [
  | inl here ↦ ([], d, dots_first c a d here)
  | inr there ↦
      let (before, after, same) = has_dots-split (a ∷ d) (ground (arith, e, there)) in
      (c ∷ before, after, ap (◌∷◌ c) same)
]

module _ (engine : RegexEngine Bytes) (retrieve : Bytes → Option Bytes) where
  -- A URI that spells two consecutive dots anywhere, escaped or not, is refused with an error,
  -- whatever the allowlist admits and whatever the retriever would return.
  pub fetch_asset_traversal :
      (allowlist : List engine.Regex) (uri before after : Bytes)
      → Spells uri (before ++ b'.' ∷ b'.' ∷ after)
      → fetch_asset engine retrieve allowlist uri ≡ respond_error uri
  unfolding fetch_asset
  fetch_asset_traversal allowlist uri before after s =
      rw (percent_decode-Spells s, has_dots-append before after) refl

  -- A client gets content exactly when nothing that the URI spells, escaped or not, has two
  -- consecutive dots anywhere, the URI itself matches the allowlist, and this content is what the
  -- retriever found under the URI.
  pub fetch_asset_ok_iff :
      (allowlist : List engine.Regex) (uri content : Bytes)
      → (fetch_asset engine retrieve allowlist uri ≡ respond_ok content) ↔ (
          ((decoded before after : Bytes)
            → Spells uri decoded
            → decoded ≢ before ++ b'.' ∷ b'.' ∷ after)
          × (matches_regex engine uri allowlist ≡ true)
          × (retrieve uri ≡ some content))
  unfolding fetch_asset
  fetch_asset_ok_iff allowlist uri content = elim (Bool-cases (has_dots (percent_decode uri))) [
    | inl dotted ↦
        let (before, after, split) = has_dots-split (percent_decode uri) dotted in
        (
          λ e. absurd (ground (arith, dotted, e)),
          λ (none_there, listed, found).
              absurd (none_there _ before after (percent_decode-IsSpelled uri) split),
        )
    | inr clear ↦ (
      λ e. (
        λ decoded before after s split. absurd (
            cc
              (clear, ap has_dots (percent_decode-Spells s ∙ split), has_dots-append before after)),
        ground (arith, clear, e),
        ground (arith, clear, e),
      ),
      λ (none_there, listed, found). ground (arith, clear, listed, found),
    )
  ]
