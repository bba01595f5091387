-- ===== src/Params/Values/Depth.antt =====
-- How deep a parameter value may nest (`MAX_PARAM_DEPTH` of src/param_interface.cpp).
use foxglove_bridge_ros.Prelude.{
  is_some, ℕ, ◌+◌, ◌≤◌, ◌≡◌, refl, max, Bool, true, false, ◌&&◌, leb, arith, String,
}
use foxglove_bridge_ros.Prelude.Int.{ℤ}
use foxglove_bridge_ros.Params.Values.{
  RosValue, RosItems, RosMembers, invalid, boolean, int, double, string, date_time, base64, array,
  struct, nil, cons, end, member, Value, Values, Entries, bool_value, integer_value, float_value,
  string_value, array_value, dict_value, other_value, no_values, value, no_entries, entry,
  value_from_ros_param, items_from_ros_param, members_from_ros_param, to_ros_param,
  items_to_ros_param, members_to_ros_param, ParameterType, ParameterClass, from_ros_param,
}

-- How many arrays and structs lie around the innermost element.
unfoldable mutual
  pub nesting : {D : Type 0} → RosValue D → ℕ
  nesting (array items) = nesting_items items
  nesting (struct members) = nesting_members members
  nesting (boolean b) = 0
  nesting (int i) = 0
  nesting (double d) = 0
  nesting (string s) = 0
  nesting invalid = 0
  nesting date_time = 0
  nesting base64 = 0

  pub nesting_items : {D : Type 0} → RosItems D → ℕ
  nesting_items nil = 0
  nesting_items (cons v items) = max (nesting v + 1) (nesting_items items)

  pub nesting_members : {D : Type 0} → RosMembers D → ℕ
  nesting_members end = 0
  nesting_members (member k v members) = max (nesting v + 1) (nesting_members members)

-- Every part is of a type that the conversion handles.
unfoldable mutual
  pub supports : {D : Type 0} → RosValue D → Bool
  supports (array items) = supports_items items
  supports (struct members) = supports_members members
  supports (boolean b) = true
  supports (int i) = true
  supports (double d) = true
  supports (string s) = true
  supports invalid = false
  supports date_time = false
  supports base64 = false

  pub supports_items : {D : Type 0} → RosItems D → Bool
  supports_items nil = true
  supports_items (cons v items) = supports v && supports_items items

  pub supports_members : {D : Type 0} → RosMembers D → Bool
  supports_members end = true
  supports_members (member k v members) = supports v && supports_members members

mutual
  unfolding value_from_ros_param nesting supports

  accepts_value :
      {D : Type 0} (depth : ℕ) (v : RosValue D)
      → is_some (value_from_ros_param depth v) ≡ (supports v && leb (depth + nesting v) 128)
  accepts_value depth (boolean b) = ground arith
  accepts_value depth (int i) = ground arith
  accepts_value depth (double d) = ground arith
  accepts_value depth (string s) = ground arith
  accepts_value depth (array items) = ground (arith, accepts_items depth items)
  accepts_value depth (struct members) = ground (arith, accepts_members depth members)
  accepts_value depth invalid = refl
  accepts_value depth date_time = refl
  accepts_value depth base64 = refl

  accepts_items :
      {D : Type 0} (depth : ℕ) (items : RosItems D)
      → depth ≤ 128
      → is_some (items_from_ros_param (depth + 1) items)
        ≡ (supports_items items && leb (depth + nesting_items items) 128)
  accepts_items depth nil h = ground arith
  accepts_items depth (cons v items) h =
      ground (arith, accepts_value (depth + 1) v, accepts_items depth items h)

  accepts_members :
      {D : Type 0} (depth : ℕ) (members : RosMembers D)
      → depth ≤ 128
      → is_some (members_from_ros_param (depth + 1) members)
        ≡ (supports_members members && leb (depth + nesting_members members) 128)
  accepts_members depth end h = ground arith
  accepts_members depth (member k v members) h =
      ground (arith, accepts_value (depth + 1) v, accepts_members depth members h)

-- A ROS value is converted exactly when all its parts are of supported types and the arrays and
-- structs around any of them, counted on from the starting depth, are at most 128.
pub value_from_ros_param-accepts :
    {D : Type 0} (depth : ℕ) (v : RosValue D)
    → is_some (value_from_ros_param depth v) ≡ (supports v && leb (depth + nesting v) 128)
value_from_ros_param-accepts depth v = accepts_value depth v

-- A parameter that is an array is read exactly when its parts are supported and nest at most 127
-- deep, since `fromRosParam` starts to count at one.
pub from_ros_param_array :
    {D P : Type 0} (class : ParameterClass D P) (name : String) (items : RosItems D)
    → is_some (from_ros_param class name (array items))
      ≡ (supports_items items && leb (nesting_items items) 127)
unfolding from_ros_param nesting supports
from_ros_param_array class name items = ground (arith, accepts_value 1 (array items))

unfoldable mutual
  pub view_nesting : {D : Type 0} → Value D → ℕ
  view_nesting (array_value values) = view_nesting_items values
  view_nesting (dict_value entries) = view_nesting_entries entries
  view_nesting (bool_value b) = 0
  view_nesting (integer_value i) = 0
  view_nesting (float_value d) = 0
  view_nesting (string_value s) = 0
  view_nesting other_value = 0

  pub view_nesting_items : {D : Type 0} → Values D → ℕ
  view_nesting_items no_values = 0
  view_nesting_items (value v values) = max (view_nesting v + 1) (view_nesting_items values)

  pub view_nesting_entries : {D : Type 0} → Entries D → ℕ
  view_nesting_entries no_entries = 0
  view_nesting_entries (entry k v entries) = max (view_nesting v + 1) (view_nesting_entries entries)

unfoldable mutual
  pub knows : {D : Type 0} → Value D → Bool
  knows (array_value values) = knows_items values
  knows (dict_value entries) = knows_entries entries
  knows (bool_value b) = true
  knows (integer_value i) = true
  knows (float_value d) = true
  knows (string_value s) = true
  knows other_value = false

  pub knows_items : {D : Type 0} → Values D → Bool
  knows_items no_values = true
  knows_items (value v values) = knows v && knows_items values

  pub knows_entries : {D : Type 0} → Entries D → Bool
  knows_entries no_entries = true
  knows_entries (entry k v entries) = knows v && knows_entries entries

mutual
  unfolding to_ros_param view_nesting knows

  converts_value :
      {D : Type 0} (of_int : ℤ → D) (type : ParameterType) (depth : ℕ) (v : Value D)
      → is_some (to_ros_param of_int type depth v) ≡ (knows v && leb (depth + view_nesting v) 128)
  converts_value of_int type depth (bool_value b) = ground arith
  converts_value of_int type depth (integer_value i) = ground arith
  converts_value of_int type depth (float_value d) = ground arith
  converts_value of_int type depth (string_value s) = ground arith
  converts_value of_int type depth (array_value values) =
      ground (arith, converts_items of_int depth values)
  converts_value of_int type depth (dict_value entries) =
      ground (arith, converts_entries of_int depth entries)
  converts_value of_int type depth other_value = refl

  converts_items :
      {D : Type 0} (of_int : ℤ → D) (depth : ℕ) (values : Values D)
      → depth ≤ 128
      → is_some (items_to_ros_param of_int (depth + 1) values)
        ≡ (knows_items values && leb (depth + view_nesting_items values) 128)
  converts_items of_int depth no_values h = ground arith
  converts_items of_int depth (value v values) h = ground (
    arith,
    converts_value of_int ParameterType.no_type (depth + 1) v,
    converts_items of_int depth values h,
  )

  converts_entries :
      {D : Type 0} (of_int : ℤ → D) (depth : ℕ) (entries : Entries D)
      → depth ≤ 128
      → is_some (members_to_ros_param of_int (depth + 1) entries)
        ≡ (knows_entries entries && leb (depth + view_nesting_entries entries) 128)
  converts_entries of_int depth no_entries h = ground arith
  converts_entries of_int depth (entry k v entries) h = ground (
    arith,
    converts_value of_int ParameterType.no_type (depth + 1) v,
    converts_entries of_int depth entries h,
  )

-- A client's value is converted exactly when all its parts are of known kinds and nest at most
-- 128 deep, counted on from the starting depth.
pub to_ros_param-accepts :
    {D : Type 0} (of_int : ℤ → D) (type : ParameterType) (depth : ℕ) (v : Value D)
    → is_some (to_ros_param of_int type depth v) ≡ (knows v && leb (depth + view_nesting v) 128)
to_ros_param-accepts of_int type depth v = converts_value of_int type depth v
