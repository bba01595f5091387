-- ===== src/Options.antt =====
-- How the constructor of src/ros1_foxglove_bridge.cpp and src/transport_manager.cpp read single
-- parameters: `rpcTypeName`, `getIntParamInRange`, `parseDracoMethod` and
-- `parseVideoEncoderBackend`. An exception is `throws` with its message.
pub mod Names
pub mod Ranges
pub mod Node
pub mod Bounds
use Prim.Native.Char.{Char, code}
use Prim.Native.String.{◌++◌, [] as no_text, ◌∷◌ as ◌∷ₛ◌}
use foxglove_bridge_ros.Prelude.{
  ℕ, ◌+◌, ◌≡◌, refl, arith, String, Bool, true, false, not, ◌&&◌, ◌||◌, Option, none, some, List,
  [], ◌∷◌, leb, if◌then◌else◌, Eq, ◌==◌, nat_eq, list_eq,
}
use foxglove_bridge_ros.Prelude.Int.{ℤ, leb_ℤ}
use foxglove_bridge_ros.Params.Values.{
  RosValue, invalid, boolean, int, double, string, date_time, base64, array, struct,
}

pub data Checked {ℓ} (A : Type ℓ) : Type ℓ where
  ok : A → Checked A
  throws : String → Checked A

-- What comes after a step that may throw.
unfoldable pub and_then {ℓ κ} : {A : Type ℓ} {B : Type κ} → Checked A → (A → Checked B) → Checked B
and_then (ok a) f = f a
and_then (throws message) f = throws message

pub and_then-ok {ℓ κ} :
    {A : Type ℓ} {B : Type κ} (c : Checked A) (f : A → Checked B) (b : B)
    → and_then c f ≡ ok b
    → (a : A) × (c ≡ ok a) × (f a ≡ ok b)
unfolding and_then
and_then-ok (ok a) f b e = (a, refl, e)
and_then-ok (throws message) f b e = absurd (ground arith)

pub and_then_both {ℓ κ} :
    {A : Type ℓ} {B : Type κ} (c : Checked A) (f : A → Checked B) (a : A) (b : B)
    → c ≡ ok a
    → f a ≡ ok b
    → and_then c f ≡ ok b
unfolding and_then
and_then_both c f a b e h = rw e h

-- `XmlRpcValue` says "invalid" of a value without a type; no other type is left.
unfoldable pub rpc_type_name : {D : Type 0} → RosValue D → String
rpc_type_name invalid = "invalid"
rpc_type_name (boolean b) = "boolean"
rpc_type_name (int n) = "integer"
rpc_type_name (double d) = "double"
rpc_type_name (string s) = "string"
rpc_type_name date_time = "datetime"
rpc_type_name base64 = "base64"
rpc_type_name (array items) = "array"
rpc_type_name (struct members) = "struct"

-- With the parameter that is found. The fatal log names the type by `rpcTypeName`.
unfoldable pub int_in_range : {D : Type 0} → String → ℤ → ℤ → RosValue D → Checked (Option ℤ)
int_in_range name low high invalid = throws ("invalid " ++ name)
int_in_range name low high (boolean b) = throws ("invalid " ++ name)
int_in_range name low high (int value) =
    if not (leb_ℤ low value) || not (leb_ℤ value high)
    then throws ("invalid " ++ name)
    else ok (some value)
int_in_range name low high (double d) = throws ("invalid " ++ name)
int_in_range name low high (string s) = throws ("invalid " ++ name)
int_in_range name low high date_time = throws ("invalid " ++ name)
int_in_range name low high base64 = throws ("invalid " ++ name)
int_in_range name low high (array items) = throws ("invalid " ++ name)
int_in_range name low high (struct members) = throws ("invalid " ++ name)

unfoldable pub get_int_param_in_range :
    {D : Type 0} → (String → Option (RosValue D)) → String → ℤ → ℤ → Checked (Option ℤ)
unfolding int_in_range
get_int_param_in_range get_param name low high = elim (get_param name) [
  | none ↦ ok none
  | some param ↦ int_in_range name low high param
]

-- `std::tolower` in the "C" locale.
unfoldable pub lower_code : ℕ → ℕ
lower_code c = if leb b'A' c && leb c b'Z' then c + 32 else c

abbrev pub codes : String → List ℕ
codes no_text = []
codes (c ∷ₛ s) = code c ∷ codes s

unfoldable pub lower : String → List ℕ
unfolding lower_code
lower no_text = []
lower (c ∷ₛ s) = lower_code (code c) ∷ lower s

pub data DracoMethod : Type 0 where
  kd_tree sequential : DracoMethod

unfoldable pub parse_draco_method : String → Option DracoMethod
unfolding lower
parse_draco_method value =
    if lower value == codes "kd-tree"
    then some kd_tree
    else if lower value == codes "sequential"
    then some sequential
    else none

pub data VideoEncoderBackend : Type 0 where
  auto_backend software hardware nvenc vaapi videotoolbox : VideoEncoderBackend

unfoldable pub parse_video_encoder_backend : String → Option VideoEncoderBackend
unfolding lower
parse_video_encoder_backend value =
    if lower value == codes "auto"
    then some auto_backend
    else if lower value == codes "software"
    then some software
    else if lower value == codes "hardware"
    then some hardware
    else if lower value == codes "nvenc"
    then some nvenc
    else if lower value == codes "vaapi"
    then some vaapi
    else if lower value == codes "videotoolbox"
    then some videotoolbox
    else none
