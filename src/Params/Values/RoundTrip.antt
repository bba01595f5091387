-- ===== src/Params/Values/RoundTrip.antt =====
-- What becomes of a parameter that a client reads and writes back (src/param_interface.cpp).
use foxglove_bridge_ros.Prelude.{
  ℕ, ◌+◌, ◌^◌, ◌≤◌, ◌≡◌, Bool, true, ◌&&◌, some, ltb, arith, Option-cases, inl, inr,
}
use native.Mathlib.Nat.{mod-eq_of_lt}
use foxglove_bridge_ros.Prelude.Int.{ℤ, pos, negsuc}
use foxglove_bridge_ros.Params.Values.{
  RosValue, RosItems, RosMembers, invalid, boolean, int, double, string, date_time, base64, array,
  struct, nil, cons, end, member, Value, Values, Entries, value_from_ros_param,
  items_from_ros_param, members_from_ros_param, to_int32, array_of, struct_of, to_ros_param,
  items_to_ros_param, members_to_ros_param, no_type,
}

-- The value with each empty array and struct replaced by the invalid value.
unfoldable mutual
  pub collapse : {D : Type 0} → RosValue D → RosValue D
  collapse (array items) = array_of (collapse_items items)
  collapse (struct members) = struct_of (collapse_members members)
  collapse (boolean b) = boolean b
  collapse (int i) = int i
  collapse (double d) = double d
  collapse (string s) = string s
  collapse invalid = invalid
  collapse date_time = date_time
  collapse base64 = base64

  pub collapse_items : {D : Type 0} → RosItems D → RosItems D
  collapse_items nil = nil
  collapse_items (cons v items) = cons (collapse v) (collapse_items items)

  pub collapse_members : {D : Type 0} → RosMembers D → RosMembers D
  collapse_members end = end
  collapse_members (member k v members) = member k (collapse v) (collapse_members members)

-- The integers are those of a 32-bit `int`, as an `XmlRpcValue` holds them.
abbrev pub is_int32 : ℤ → Bool
is_int32 (pos n) = ltb n (2 ^ 31)
is_int32 (negsuc n) = ltb n (2 ^ 31)

unfoldable mutual
  pub has_int32s : {D : Type 0} → RosValue D → Bool
  has_int32s (array items) = items_have_int32s items
  has_int32s (struct members) = members_have_int32s members
  has_int32s (int i) = is_int32 i
  has_int32s (boolean b) = true
  has_int32s (double d) = true
  has_int32s (string s) = true
  has_int32s invalid = true
  has_int32s date_time = true
  has_int32s base64 = true

  pub items_have_int32s : {D : Type 0} → RosItems D → Bool
  items_have_int32s nil = true
  items_have_int32s (cons v items) = has_int32s v && items_have_int32s items

  pub members_have_int32s : {D : Type 0} → RosMembers D → Bool
  members_have_int32s end = true
  members_have_int32s (member k v members) = has_int32s v && members_have_int32s members

to_int32_of_int32 : (i : ℤ) → is_int32 i ≡ true → to_int32 i ≡ i
unfolding to_int32
to_int32_of_int32 (pos n) h = ground (arith, mod-eq_of_lt {n = n} {m = 2 ^ 32})
to_int32_of_int32 (negsuc n) h = ground (arith, mod-eq_of_lt {n = n} {m = 2 ^ 32})

mutual
  unfolding value_from_ros_param to_ros_param collapse has_int32s

  back_value :
      {D : Type 0} (of_int : ℤ → D) (outer depth : ℕ) (v : RosValue D) (w : Value D)
      → outer ≤ depth
      → value_from_ros_param depth v ≡ some w
      → has_int32s v ≡ true
      → to_ros_param of_int no_type outer w ≡ some (collapse v)
  back_value of_int outer depth (boolean b) w o e h = ground arith
  back_value of_int outer depth (int i) w o e h = ground (arith, to_int32_of_int32 i h)
  back_value of_int outer depth (double d) w o e h = ground arith
  back_value of_int outer depth (string s) w o e h = ground arith
  back_value of_int outer depth (array items) w o e h =
      elim (Option-cases (items_from_ros_param (depth + 1) items)) [
        | inl absent ↦ ground arith
        | inr (ws, found) ↦
            ground (arith, back_items of_int (outer + 1) (depth + 1) items ws (omega arith) found h)
      ]
  back_value of_int outer depth (struct members) w o e h =
      elim (Option-cases (members_from_ros_param (depth + 1) members)) [
        | inl absent ↦ ground arith
        | inr (es, found) ↦
            ground
              (arith, back_members of_int (outer + 1) (depth + 1) members es (omega arith) found h)
      ]
  back_value of_int outer depth invalid w o e h = ground arith
  back_value of_int outer depth date_time w o e h = ground arith
  back_value of_int outer depth base64 w o e h = ground arith

  back_items :
      {D : Type 0} (of_int : ℤ → D) (outer depth : ℕ) (items : RosItems D) (ws : Values D)
      → outer ≤ depth
      → items_from_ros_param depth items ≡ some ws
      → items_have_int32s items ≡ true
      → items_to_ros_param of_int outer ws ≡ some (collapse_items items)
  back_items of_int outer depth nil ws o e h = ground arith
  back_items of_int outer depth (cons v items) ws o e h =
      elim (Option-cases (value_from_ros_param depth v)) [
        | inl absent ↦ ground arith
        | inr (w, first) ↦ elim (Option-cases (items_from_ros_param depth items)) [
          | inl absent ↦ ground arith
          | inr (rest, found) ↦ ground (
            arith,
            back_value of_int outer depth v w o first (ground arith),
            back_items of_int outer depth items rest o found (ground arith),
          )
        ]
      ]

  back_members :
      {D : Type 0} (of_int : ℤ → D) (outer depth : ℕ) (members : RosMembers D) (es : Entries D)
      → outer ≤ depth
      → members_from_ros_param depth members ≡ some es
      → members_have_int32s members ≡ true
      → members_to_ros_param of_int outer es ≡ some (collapse_members members)
  back_members of_int outer depth end es o e h = ground arith
  back_members of_int outer depth (member k v members) es o e h =
      elim (Option-cases (value_from_ros_param depth v)) [
        | inl absent ↦ ground arith
        | inr (w, first) ↦ elim (Option-cases (members_from_ros_param depth members)) [
          | inl absent ↦ ground arith
          | inr (rest, found) ↦ ground (
            arith,
            back_value of_int outer depth v w o first (ground arith),
            back_members of_int outer depth members rest o found (ground arith),
          )
        ]
      ]

-- A value that is read from the master and written back unchanged, without a type hint, comes back
-- as it was, save that each empty array and each empty struct in it has become the invalid value.
-- This holds for whatever depth the reading starts at, if the writing starts no deeper.
pub to_ros_param-value_from_ros_param :
    {D : Type 0} (of_int : ℤ → D) (outer depth : ℕ) (v : RosValue D) (w : Value D)
    → outer ≤ depth
    → value_from_ros_param depth v ≡ some w
    → has_int32s v ≡ true
    → to_ros_param of_int no_type outer w ≡ some (collapse v)
to_ros_param-value_from_ros_param of_int outer depth v w o e h =
    back_value of_int outer depth v w o e h
