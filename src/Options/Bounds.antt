-- ===== src/Options/Bounds.antt =====
-- What the constructor of src/ros1_foxglove_bridge.cpp makes of the numbers it reads.
use native.Mathlib.Nat.{mod-eq_of_lt}
use foxglove_bridge_ros.Prelude.{
  ◌↔◌, ℕ, ◌^◌, ◌≡◌, refl, sym, String, Option, none, some, ◌≤◌, ◌<◌, min, arith, inl, inr, ◌⊎◌,
  string_eq,
}
use foxglove_bridge_ros.Prelude.Int.{ℤ, pos, negsuc, pos_part, to_unsigned, ◌≤ℤ◌}
use foxglove_bridge_ros.Utils.{RegexEngine, saturating_to_size_t, saturating_to_size_t_clamps}
use foxglove_bridge_ros.Capabilities.{Capability, FlagSet}
use foxglove_bridge_ros.Params.Values.{RosValue, int}
use foxglove_bridge_ros.Options.{Checked, ok, get_int_param_in_range, and_then, and_then-ok}
use foxglove_bridge_ros.Options.Ranges.{get_int_param_in_range_iff}
use foxglove_bridge_ros.Options.Node.{
  NodeHandle, DracoOptions, BridgeOptions, min_data_track_message_size, max_int, port_of,
  quantization_of, data_track_of, bridge_options, read_options, transport_options, compression_of,
}

port_of_clamps : (port : ℤ) → port_of port ≡ min (pos_part port) 65535
unfolding port_of
port_of_clamps (pos n) = ground (arith, mod-eq_of_lt {n = min n 65535} {m = 2 ^ 16})
port_of_clamps (negsuc n) = ground arith

-- An integer that a conversion to an unsigned type keeps.
to_unsigned_kept :
    (m low high : ℕ) (n : ℤ) → pos low ≤ℤ n → n ≤ℤ pos high → high < m → pos (to_unsigned m n) ≡ n
to_unsigned_kept m low high (pos n) h k l = ground (arith, mod-eq_of_lt {n = n} {m = m})
to_unsigned_kept m low high (negsuc n) h k l = absurd (omega (arith, h))

saturating_kept :
    (m : ℕ) (n : ℤ)
    → pos_part n < 2 ^ 31
    → 2 ^ 32 ≤ m
    → saturating_to_size_t m n (pos 0) ≡ pos_part n
saturating_kept m n h k = ground (arith, saturating_to_size_t_clamps m n (pos 0))

-- A parameter that is not set, or is an integer between the bounds.
abbrev pub IsUnsetOrWithin : {D : Type 0} → Option (RosValue D) → ℤ → ℤ → Type 0
IsUnsetOrWithin p low high =
    (p ≡ none) ⊎ ((value : ℤ) × (p ≡ some (int value)) × (low ≤ℤ value) × (value ≤ℤ high))

module _ {D : Type 0} (get_param : String → Option (RosValue D)) (name : String)
    (low high : ℤ) where
  within :
      (o : Option ℤ)
      → get_int_param_in_range get_param name low high ≡ ok o
      → IsUnsetOrWithin (get_param name) low high
  within none e = inl ((get_int_param_in_range_iff get_param name low high).1.0 e)
  within (some value) e =
      let (set, above, below) =
        ((get_int_param_in_range_iff get_param name low high).0 value).0 e in
      inr (value, set, above, below)

  -- An integer that is set is what is read.
  read_set :
      (read : Option ℤ) (value : ℤ)
      → get_int_param_in_range get_param name low high ≡ ok read
      → get_param name ≡ some (int value)
      → (read ≡ some value) × (low ≤ℤ value) × (value ≤ℤ high)
  read_set none value e set =
      absurd (ground (arith, (get_int_param_in_range_iff get_param name low high).1.0 e, set))
  read_set (some read) value e set =
      ground (arith, ((get_int_param_in_range_iff get_param name low high).0 read).0 e, set)

  readable :
      IsUnsetOrWithin (get_param name) low high
      → (o : Option ℤ) × (get_int_param_in_range get_param name low high ≡ ok o)
  readable (inl e) = (none, (get_int_param_in_range_iff get_param name low high).1.1 e)
  readable (inr (value, set, above, below)) = (
    some value,
    ((get_int_param_in_range_iff get_param name low high).0 value).1 (set, above, below),
  )

module _ {D : Type 0} (size_mod : ℕ) (max_quantization_bits : ℕ) (defaults : DracoOptions)
    (engine : RegexEngine String) (ws : FlagSet Capability) (nh private : NodeHandle D)
    (distro : Option String) where
  abbrev pub quantization_read : Checked (Option ℤ)
  quantization_read =
      get_int_param_in_range private.get_param "point_cloud_compression_quantization_bits" (pos 1)
        (pos max_quantization_bits)

  abbrev pub data_track_read : Checked (Option ℤ)
  data_track_read =
      get_int_param_in_range private.get_param "max_data_track_message_size"
        (pos min_data_track_message_size) (pos max_int)

  pub read_options_made :
      (o : BridgeOptions engine.Regex)
      → read_options size_mod max_quantization_bits defaults engine ws nh private distro ≡ ok o
      → (bits : Option ℤ) × (size : Option ℤ) × (quantization_read ≡ ok bits)
        × (data_track_read ≡ ok size)
        × (o
            ≡ bridge_options size_mod max_quantization_bits defaults engine ws nh private distro
                bits size)
  unfolding read_options
  read_options_made o e =
      let (bits, q, e₁) = and_then-ok quantization_read _ o e in
      let (size, d, e₂) = and_then-ok data_track_read _ o e₁ in
      (bits, size, q, d, sym (ground (arith, e₂)))

  quantization_kept :
      (read : Option ℤ) (bits : ℤ)
      → max_quantization_bits < 2 ^ 8
      → quantization_read ≡ ok read
      → private.get_param "point_cloud_compression_quantization_bits" ≡ some (int bits)
      → pos (quantization_of defaults.quantization_bits read) ≡ bits
  unfolding quantization_of
  quantization_kept read bits few e set =
      let (same, above, below) = read_set _ _ _ _ read bits e set in
      rw same (to_unsigned_kept (2 ^ 8) 1 max_quantization_bits bits above below few)

  data_track_kept :
      (read : Option ℤ) (size : ℤ)
      → 2 ^ 32 ≤ size_mod
      → data_track_read ≡ ok read
      → private.get_param "max_data_track_message_size" ≡ some (int size)
      → (n : ℕ) × (data_track_of size_mod read ≡ some n) × (pos n ≡ size)
  unfolding data_track_of
  data_track_kept read size wide e set =
      let (same, above, below) = read_set _ _ _ _ read size e set in
      rw same (
        to_unsigned size_mod size,
        refl,
        to_unsigned_kept size_mod 1200 2147483647 size above below (omega (arith, wide)),
      )

  -- The options are read exactly when each of the two checked parameters is unset or an integer in
  -- its range: 1 to the SDK's greatest number of quantization bits, and 1200 to the greatest `int`.
  -- Otherwise the constructor throws.
  pub read_options_ok_iff :
      ((o : BridgeOptions engine.Regex) × (read_options size_mod max_quantization_bits defaults
            engine ws nh private distro
          ≡ ok o))
      ↔ (IsUnsetOrWithin
            (private.get_param "point_cloud_compression_quantization_bits")
            (pos 1)
            (pos max_quantization_bits)
          × IsUnsetOrWithin
              (private.get_param "max_data_track_message_size")
              (pos 1200)
              (pos 2147483647))
  unfolding read_options and_then
  read_options_ok_iff = (
    λ (o, e).
        let (bits, size, q, d, _) = read_options_made o e in
        (within _ _ _ _ bits q, within _ _ _ _ size d),
    λ (q, d).
        let (bits, q') =
          readable private.get_param "point_cloud_compression_quantization_bits" (pos 1)
            (pos max_quantization_bits) q in
        let (size, d') =
          readable private.get_param "max_data_track_message_size" (pos 1200) (pos 2147483647) d in
        (
          bridge_options size_mod max_quantization_bits defaults engine ws nh private distro bits
              size,
          rw (q', d') refl,
        ),
  )

  -- Where the SDK's greatest number of quantization bits fits a byte, `size_t` has at least 32 bits
  -- and every `int` parameter is below 2^31: if the options are read, no number wraps around. The
  -- port is the configured one, a negative one being taken as 0 and one that is too large as 65535;
  -- the backlog and the poll period are the configured ones, negative ones being taken as 0; and
  -- the two checked numbers, where they are set, are the configured ones.
  pub read_options_numbers :
      (o : BridgeOptions engine.Regex)
      → max_quantization_bits < 2 ^ 8
      → 2 ^ 32 ≤ size_mod
      → ((name : String) (default : ℤ)
          → pos_part default < 2 ^ 31
          → pos_part (private.int_param name default) < 2 ^ 31)
      → read_options size_mod max_quantization_bits defaults engine ws nh private distro ≡ ok o
      → (o.transport.port ≡ min (pos_part (private.int_param "port" (pos 8765))) 65535)
        × (o.transport.message_backlog_size
            ≡ pos_part (private.int_param "message_backlog_size" (pos 1024)))
        × (o.max_update_period_ms ≡ pos_part (private.int_param "max_update_ms" (pos 5000)))
        × ((bits : ℤ)
            → private.get_param "point_cloud_compression_quantization_bits" ≡ some (int bits)
            → pos o.point_cloud_compression.quantization_bits ≡ bits)
        × ((size : ℤ)
            → private.get_param "max_data_track_message_size" ≡ some (int size)
            → (n : ℕ) × (o.transport.max_data_track_message_size ≡ some n) × (pos n ≡ size))
  unfolding bridge_options transport_options compression_of
  read_options_numbers o few wide small e =
      let (bits, size, q, d, made) = read_options_made o e in
      rw made (
        port_of_clamps (private.int_param "port" (pos 8765)),
        saturating_kept size_mod _ (small "message_backlog_size" (pos 1024) (omega arith)) wide,
        saturating_kept size_mod _ (small "max_update_ms" (pos 5000) (omega arith)) wide,
        λ b set. quantization_kept bits b few q set,
        λ n set. data_track_kept size n wide d set,
      )
