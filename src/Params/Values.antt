-- ===== src/Params/Values.antt =====
-- `valueFromRosParam`, `fromRosParam` and `toRosParam` of src/param_interface.cpp. Floating-point
-- numbers are an abstract type `D`; an exception is `none`.
pub mod Depth
pub mod RoundTrip
use foxglove_bridge_ros.Prelude.{
  ℕ, ◌≡◌, ◌+◌, ◌-◌, ◌^◌, String, Bool, true, false, Option, none, some, if◌then◌else◌, ltb,
}
use foxglove_bridge_ros.Prelude.Int.{ℤ, pos, negsuc, to_unsigned}

-- `XmlRpc::XmlRpcValue`, by its types; a struct lists its members in the map's order.
mutual
  pub data RosValue (D : Type 0) : Type 0 where
    invalid : RosValue D
    boolean : Bool → RosValue D
    int : ℤ → RosValue D
    double : D → RosValue D
    string : String → RosValue D
    date_time : RosValue D
    base64 : RosValue D
    array : RosItems D → RosValue D
    struct : RosMembers D → RosValue D

  pub data RosItems (D : Type 0) : Type 0 where
    nil : RosItems D
    cons : RosValue D → RosItems D → RosItems D

  pub data RosMembers (D : Type 0) : Type 0 where
    end : RosMembers D
    member : String → RosValue D → RosMembers D → RosMembers D

-- `foxglove::ParameterValue` and its view; `other` is a kind that `toRosParam` does not know.
mutual
  pub data Value (D : Type 0) : Type 0 where
    bool_value : Bool → Value D
    integer_value : ℤ → Value D
    float_value : D → Value D
    string_value : String → Value D
    array_value : Values D → Value D
    dict_value : Entries D → Value D
    other_value : Value D

  pub data Values (D : Type 0) : Type 0 where
    no_values : Values D
    value : Value D → Values D → Values D

  pub data Entries (D : Type 0) : Type 0 where
    no_entries : Entries D
    entry : String → Value D → Entries D → Entries D

-- `foxglove::ParameterType`, as far as the bridge looks at it.
pub data ParameterType : Type 0 where
  no_type float64 other_type : ParameterType

abbrev pub max_param_depth : ℕ
max_param_depth = 128

unfoldable mutual
  pub value_from_ros_param : {D : Type 0} → ℕ → RosValue D → Option (Value D)
  value_from_ros_param depth (boolean b) =
      if ltb max_param_depth depth then none else some (bool_value b)
  value_from_ros_param depth (int i) =
      if ltb max_param_depth depth then none else some (integer_value i)
  value_from_ros_param depth (double d) =
      if ltb max_param_depth depth then none else some (float_value d)
  value_from_ros_param depth (string s) =
      if ltb max_param_depth depth then none else some (string_value s)
  value_from_ros_param depth (array items) =
      let values = items_from_ros_param (depth + 1) items in
      if ltb max_param_depth depth
      then none
      else elim values [ none ↦ none | some vs ↦ some (array_value vs) ]
  value_from_ros_param depth (struct members) =
      let values = members_from_ros_param (depth + 1) members in
      if ltb max_param_depth depth
      then none
      else elim values [ none ↦ none | some es ↦ some (dict_value es) ]
  value_from_ros_param depth invalid = none
  value_from_ros_param depth date_time = none
  value_from_ros_param depth base64 = none

  -- The loop over an array; the first exception ends it.
  pub items_from_ros_param : {D : Type 0} → ℕ → RosItems D → Option (Values D)
  items_from_ros_param depth nil = some no_values
  items_from_ros_param depth (cons v items) =
      let first = value_from_ros_param depth v in
      let rest = items_from_ros_param depth items in
      elim first [ none ↦ none | some w ↦ elim rest [ none ↦ none | some ws ↦ some (value w ws) ] ]

  -- The loop over a struct, whose members come in key order.
  pub members_from_ros_param : {D : Type 0} → ℕ → RosMembers D → Option (Entries D)
  members_from_ros_param depth end = some no_entries
  members_from_ros_param depth (member k v members) =
      let first = value_from_ros_param depth v in
      let rest = members_from_ros_param depth members in
      elim first [
        | none ↦ none
        | some w ↦ elim rest [ none ↦ none | some es ↦ some (entry k w es) ]
      ]

-- `static_cast<int>` of an `int64_t`: the low 32 bits, in two's complement.
unfoldable pub to_int32 : ℤ → ℤ
to_int32 v =
    let u = to_unsigned (2 ^ 32) v in if ltb u (2 ^ 31) then pos u else negsuc (2 ^ 32 - 1 - u)

-- A default `XmlRpcValue` is invalid; the first `arr[i] = …` makes it an array.
abbrev pub array_of : {D : Type 0} → RosItems D → RosValue D
array_of nil = invalid
array_of (cons v items) = array (cons v items)

-- The first `obj[name] = …` makes it a struct.
abbrev pub struct_of : {D : Type 0} → RosMembers D → RosValue D
struct_of end = invalid
struct_of (member k v members) = struct (member k v members)

abbrev pub is_float64 : ParameterType → Bool
is_float64 float64 = true
is_float64 _ = false

-- `of_int` is the conversion of an `int64_t` to `double`.
unfoldable mutual
  pub to_ros_param :
      {D : Type 0} (of_int : ℤ → D) → ParameterType → ℕ → Value D → Option (RosValue D)
  to_ros_param of_int type depth (bool_value b) =
      if ltb max_param_depth depth then none else some (boolean b)
  to_ros_param of_int type depth (integer_value i) =
      if ltb max_param_depth depth
      then none
      else some (if is_float64 type then double (of_int i) else int (to_int32 i))
  to_ros_param of_int type depth (float_value d) =
      if ltb max_param_depth depth then none else some (double d)
  to_ros_param of_int type depth (string_value s) =
      if ltb max_param_depth depth then none else some (string s)
  to_ros_param of_int type depth (array_value values) =
      let items = items_to_ros_param of_int (depth + 1) values in
      if ltb max_param_depth depth
      then none
      else elim items [ none ↦ none | some xs ↦ some (array_of xs) ]
  to_ros_param of_int type depth (dict_value entries) =
      let members = members_to_ros_param of_int (depth + 1) entries in
      if ltb max_param_depth depth
      then none
      else elim members [ none ↦ none | some xs ↦ some (struct_of xs) ]
  to_ros_param of_int type depth other_value = none

  pub items_to_ros_param : {D : Type 0} (of_int : ℤ → D) → ℕ → Values D → Option (RosItems D)
  items_to_ros_param of_int depth no_values = some nil
  items_to_ros_param of_int depth (value v values) =
      let first = to_ros_param of_int no_type depth v in
      let rest = items_to_ros_param of_int depth values in
      elim first [ none ↦ none | some x ↦ elim rest [ none ↦ none | some xs ↦ some (cons x xs) ] ]

  pub members_to_ros_param : {D : Type 0} (of_int : ℤ → D) → ℕ → Entries D → Option (RosMembers D)
  members_to_ros_param of_int depth no_entries = some end
  members_to_ros_param of_int depth (entry k v entries) =
      let first = to_ros_param of_int no_type depth v in
      let rest = members_to_ros_param of_int depth entries in
      elim first [
        | none ↦ none
        | some x ↦ elim rest [ none ↦ none | some xs ↦ some (member k x xs) ]
      ]

-- `foxglove::Parameter`: the overloaded constructors that the bridge calls, and the accessors.
pub record ParameterClass (D P : Type 0) : Type 0 where
  pub of_bool : String → Bool → P
  pub of_integer : String → ℤ → P
  pub of_double : String → D → P
  pub of_string : String → String → P
  pub of_value : String → ParameterType → Value D → P
  pub name : P → String
  pub type : P → ParameterType
  pub value : P → Option (Value D)
  pub name-of_bool : (n : String) (b : Bool) → name (of_bool n b) ≡ n
  pub name-of_integer : (n : String) (i : ℤ) → name (of_integer n i) ≡ n
  pub name-of_double : (n : String) (d : D) → name (of_double n d) ≡ n
  pub name-of_string : (n s : String) → name (of_string n s) ≡ n
  pub name-of_value : (n : String) (t : ParameterType) (v : Value D) → name (of_value n t v) ≡ n

module _ {D P : Type 0} (class : ParameterClass D P) where
  open class use {of_bool, of_integer, of_double, of_string, of_value}

  unfoldable pub from_ros_param : String → RosValue D → Option P
  from_ros_param name (boolean b) = some (of_bool name b)
  from_ros_param name (int i) = some (of_integer name i)
  from_ros_param name (double d) = some (of_double name d)
  from_ros_param name (string s) = some (of_string name s)
  from_ros_param name v = elim (value_from_ros_param 1 v) [
    | none ↦ none
    | some w ↦ some (of_value name no_type w)
  ]
