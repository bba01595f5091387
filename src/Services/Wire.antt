-- ===== src/Services/Wire.antt =====
-- `Serializer<GenericService>` of include/foxglove_bridge/generic_service.hpp: the bytes of a request
-- or of a response, between `GenericService` and a stream of roscpp. A stream is the buffer that it
-- stands on.
use foxglove_bridge_ros.Prelude.{
  ℕ, ◌%◌, ◌^◌, ◌<◌, ◌≤◌, ◌≡◌, ◌↔◌, refl, ◌∙◌, String, Option, none, some, List, [], ◌∷◌, length,
  arith, Option-cases, inl, inr,
}
use native.Mathlib.Nat.{mod-eq_of_lt}
use foxglove_bridge_ros.Services.Calls.{GenericService}

-- `memcpy` to the front of a buffer; past its end the behaviour is undefined.
unfoldable pub copy_into : List ℕ → List ℕ → Option (List ℕ)
copy_into [] buffer = some buffer
copy_into (b ∷ bytes) [] = none
copy_into (b ∷ bytes) (c ∷ buffer) = elim (copy_into bytes buffer) [
  | none ↦ none
  | some rest ↦ some (b ∷ rest)
]

unfoldable pub write : List ℕ → GenericService → Option (List ℕ)
unfolding copy_into
write buffer m = copy_into m.content buffer

unfoldable pub read : List ℕ → GenericService → GenericService
read buffer m = record m { content = buffer }

-- The size of the data as a `uint32_t`.
unfoldable pub serialized_length : GenericService → ℕ
serialized_length m = length m.content % 2 ^ 32

-- `MD5Sum` and `DataType`: of a message, or of the type alone.
unfoldable pub md5sum_value : Option GenericService → String
md5sum_value none = "*"
md5sum_value (some m) = m.md5sum

unfoldable pub data_type_value : Option GenericService → String
data_type_value none = "*"
data_type_value (some m) = m.type

copy_into_all :
    (bytes buffer : List ℕ) → length buffer ≡ length bytes → copy_into bytes buffer ≡ some bytes
unfolding copy_into
copy_into_all [] [] e = refl
copy_into_all [] (c ∷ buffer) e = absurd (omega (arith, e))
copy_into_all (b ∷ bytes) [] e = absurd (omega (arith, e))
copy_into_all (b ∷ bytes) (c ∷ buffer) e = rw (copy_into_all bytes buffer (omega (arith, e))) refl

copy_into_fits :
    (bytes buffer out : List ℕ) → copy_into bytes buffer ≡ some out → length bytes ≤ length buffer
unfolding copy_into
copy_into_fits [] buffer out e = omega arith
copy_into_fits (b ∷ bytes) [] out e = absurd (cc e)
copy_into_fits (b ∷ bytes) (c ∷ buffer) out e = elim (Option-cases (copy_into bytes buffer)) [
  | inl f ↦ absurd (ground (arith, e, f))
  | inr (rest, f) ↦ omega (arith, copy_into_fits bytes buffer rest f)
]

-- In a buffer of the length that it announces, a message is written without leaving the buffer
-- exactly when it has less than 2^32 bytes. Then what is written is its data, and reading this gives
-- the data and leaves the type and the checksum of the reader alone.
pub write-serialized_length :
    (m : GenericService) (buffer : List ℕ)
    → length buffer ≡ serialized_length m
    → ((out : List ℕ) × (write buffer m ≡ some out)
        × ((r : GenericService)
            → (read out r).content ≡ m.content
              × ((read out r).type ≡ r.type)
              × ((read out r).md5sum ≡ r.md5sum)))
      ↔ (length m.content < 2 ^ 32)
unfolding write read serialized_length
write-serialized_length m buffer e = (
  λ (out, written, back). omega (arith, copy_into_fits m.content buffer out written, e),
  λ small.
      (m.content, copy_into_all m.content buffer (e ∙ mod-eq_of_lt small), λ r. (refl, refl, refl)),
)
