-- ===== src/Tests/Access.antt =====
-- Assets and capabilities at concrete inputs.
use foxglove_bridge_ros.Prelude.{
  ◌↔◌, ◌≡◌, ◌≢◌, ◌++◌, refl, true, Option, some, [], ◌∷◌, nat_eq, string_eq, pair_eq, arith,
}
use foxglove_bridge_ros.Utils.{RegexEngine, matches_regex}
use foxglove_bridge_ros.Assets.{
  hex_byte, digit_value, is_xdigit, Bytes, fetch_asset, respond_ok, respond_error,
}
use foxglove_bridge_ros.Assets.Escapes.{
  Spells, end, literal, escaped, fetch_asset_ok_iff, fetch_asset_traversal,
}

-- The text "a%2e%2E".
abbrev uri : Bytes
uri = b'a' ∷ b'%' ∷ b'2' ∷ b'e' ∷ b'%' ∷ b'2' ∷ b'E' ∷ []

uri-Spells : Spells uri (b'a' ∷ b'.' ∷ b'.' ∷ [])
unfolding hex_byte digit_value is_xdigit
uri-Spells =
    literal b'a' (ground arith)
      (escaped b'%' b'2' b'e' refl refl refl (escaped b'%' b'2' b'E' refl refl refl end))

abbrev pub bytes_engine : RegexEngine Bytes
bytes_engine = record { Regex = Unit {0}; compile = λ p. some tt; regex_match = λ name p. true }

abbrev pub retrieve : Bytes → Option Bytes
retrieve name = some (1 ∷ 2 ∷ [])

fetch_asset_traversal_example : fetch_asset bytes_engine retrieve (tt ∷ []) uri ≡ respond_error uri
fetch_asset_traversal_example =
    fetch_asset_traversal bytes_engine retrieve (tt ∷ []) uri (b'a' ∷ []) [] uri-Spells

-- The text "a%2e%", of a dot and a stray percent sign.
abbrev one_dot : Bytes
one_dot = b'a' ∷ b'%' ∷ b'2' ∷ b'e' ∷ b'%' ∷ []

fetch_asset_ok_iff_example :
    (fetch_asset bytes_engine retrieve (tt ∷ []) one_dot ≡ respond_ok (1 ∷ 2 ∷ [])) ↔ (
      ((decoded before after : Bytes)
        → Spells one_dot decoded
        → decoded ≢ before ++ b'.' ∷ b'.' ∷ after)
      × (matches_regex bytes_engine one_dot (tt ∷ []) ≡ true)
      × (retrieve one_dot ≡ some (1 ∷ 2 ∷ [])))
fetch_asset_ok_iff_example = fetch_asset_ok_iff bytes_engine retrieve (tt ∷ []) one_dot (1 ∷ 2 ∷ [])
