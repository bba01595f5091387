-- ===== src/Options/Ranges.antt =====
-- What `getIntParamInRange` of src/ros1_foxglove_bridge.cpp accepts.
use foxglove_bridge_ros.Prelude.{
  ◌↔◌, ◌≡◌, String, Option, none, some, arith, Option-cases, inl, inr,
}
use foxglove_bridge_ros.Prelude.Int.{ℤ, leb_ℤ_iff, ◌≤ℤ◌}
use foxglove_bridge_ros.Params.Values.{
  RosValue, invalid, boolean, int, double, string, date_time, base64, array, struct,
}
use foxglove_bridge_ros.Options.{ok, int_in_range, get_int_param_in_range}

module _ {D : Type 0} where
  int_in_range_iff :
      (name : String) (low high : ℤ) (p : RosValue D) (value : ℤ)
      → (int_in_range name low high p ≡ ok (some value))
        ↔ ((p ≡ int value) × (low ≤ℤ value) × (value ≤ℤ high))
  unfolding int_in_range
  int_in_range_iff name low high invalid value = ground arith
  int_in_range_iff name low high (boolean b) value = ground arith
  int_in_range_iff name low high (int n) value = ground (arith, leb_ℤ_iff low n, leb_ℤ_iff n high)
  int_in_range_iff name low high (double d) value = ground arith
  int_in_range_iff name low high (string s) value = ground arith
  int_in_range_iff name low high date_time value = ground arith
  int_in_range_iff name low high base64 value = ground arith
  int_in_range_iff name low high (array items) value = ground arith
  int_in_range_iff name low high (struct members) value = ground arith

  int_in_range_set :
      (name : String) (low high : ℤ) (p : RosValue D) → ¬ (int_in_range name low high p ≡ ok none)
  unfolding int_in_range
  int_in_range_set name low high invalid = ground arith
  int_in_range_set name low high (boolean b) = ground arith
  int_in_range_set name low high (int n) = ground arith
  int_in_range_set name low high (double d) = ground arith
  int_in_range_set name low high (string s) = ground arith
  int_in_range_set name low high date_time = ground arith
  int_in_range_set name low high base64 = ground arith
  int_in_range_set name low high (array items) = ground arith
  int_in_range_set name low high (struct members) = ground arith

  -- A number is read exactly when the parameter is set to that integer and it lies between the
  -- bounds, inclusively; nothing is read exactly when the parameter is not set. In every other
  -- case, another type or a number out of range, the constructor throws.
  pub get_int_param_in_range_iff :
      (get_param : String → Option (RosValue D)) (name : String) (low high : ℤ)
      → ((value : ℤ)
          → (get_int_param_in_range get_param name low high ≡ ok (some value))
            ↔ ((get_param name ≡ some (int value)) × (low ≤ℤ value) × (value ≤ℤ high)))
        × ((get_int_param_in_range get_param name low high ≡ ok none) ↔ (get_param name ≡ none))
  unfolding get_int_param_in_range
  get_int_param_in_range_iff get_param name low high = elim (Option-cases (get_param name)) [
    | inl e ↦ rw (e, get_int_param_in_range) (λ value. ground arith, ground arith)
    | inr (p, e) ↦
        rw (e, get_int_param_in_range)
          (
            λ value. ground (arith, int_in_range_iff name low high p value),
            ground (arith, int_in_range_set name low high p),
          )
  ]
