-- ===== src/Assets.antt =====
-- `percentDecode` and `fetchAsset` of src/ros1_foxglove_bridge.cpp. A text is its bytes. The
-- retriever of resource_retriever is an argument; `none` is an exception of it.
pub mod Escapes
use foxglove_bridge_ros.Prelude.{
  ℕ, ◌+◌, ◌-◌, ◌*◌, ◌≡◌, Bool, true, false, not, ◌&&◌, ◌||◌, Option, none, some, List, [], ◌∷◌, leb,
  if◌then◌else◌, ◌==◌, nat_eq,
}
use foxglove_bridge_ros.Utils.{RegexEngine, matches_regex}

abbrev pub Bytes : Type 0
Bytes = List ℕ

-- `std::isxdigit` in the "C" locale.
unfoldable pub is_xdigit : ℕ → Bool
is_xdigit c = (leb b'0' c && leb c b'9') || (leb b'a' c && leb c b'f') || (leb b'A' c && leb c b'F')

-- The value of one digit in `std::stoi(hex, nullptr, 16)`.
unfoldable pub digit_value : ℕ → ℕ
digit_value c = if leb c b'9' then c - b'0' else if leb c b'F' then c - b'A' + 10 else c - b'a' + 10

-- The byte that the two digits spell.
unfoldable pub hex_byte : ℕ → ℕ → ℕ
unfolding digit_value
hex_byte a b = 16 * digit_value a + digit_value b

-- The loop of `percentDecode`; the three-byte clause is the guard `i + 2 < in.size()`.
unfoldable pub percent_decode : Bytes → Bytes
unfolding is_xdigit hex_byte
percent_decode [] = []
percent_decode (c ∷ []) = c ∷ []
percent_decode (c ∷ a ∷ []) = c ∷ a ∷ []
percent_decode (c ∷ a ∷ b ∷ rest) =
    let escaped = hex_byte a b ∷ percent_decode rest in
    let plain = c ∷ percent_decode (a ∷ b ∷ rest) in
    if c == b'%' && is_xdigit a && is_xdigit b then escaped else plain

-- `find("..") != npos`.
unfoldable pub has_dots : Bytes → Bool
has_dots [] = false
has_dots (c ∷ []) = false
has_dots (c ∷ d ∷ rest) = (c == b'.' && d == b'.') || has_dots (d ∷ rest)

-- What is sent through the `FetchAssetResponder`; the error names the URI.
pub data AssetResponse : Type 0 where
  respond_ok : Bytes → AssetResponse
  respond_error : Bytes → AssetResponse

module _ (engine : RegexEngine Bytes) (retrieve : Bytes → Option Bytes) where
  unfoldable pub fetch_asset : List engine.Regex → Bytes → AssetResponse
  fetch_asset allowlist uri =
      if has_dots (percent_decode uri) || not (matches_regex engine uri allowlist)
      then respond_error uri
      else elim (retrieve uri) [ none ↦ respond_error uri | some content ↦ respond_ok content ]
