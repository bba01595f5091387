-- ===== src/Logging.antt =====
-- `Logger` of include/foxglove_bridge/logging.hpp. The formatting by `vsnprintf` is an interface.
use foxglove_bridge_ros.Prelude.{
  ℕ, zero, suc, ◌-◌, ◌+◌, ◌≡◌, refl, Bool, true, Option, none, some, List, [], ◌∷◌, length, or_else,
  if◌then◌else◌, arith, ap, Option-cases, inl, inr,
}
use foxglove_bridge_ros.Prelude.Int.{ℤ, pos, leb_ℤ, pos_part}
use foxglove_bridge_ros.ClientChannels.{take}

pub data BridgeLogLevel : Type 0 where
  debug info warn error fatal : BridgeLogLevel

-- A format with its arguments is an `F`. `vsnprintf` with the size of its buffer gives its result
-- and the bytes that it has written before the terminator.
pub record Formatting (F : Type 0) : Type 0 where
  pub vsnprintf : ℕ → F → ℤ × List ℕ

-- `std::string::resize`, and what the bytes at the front then are.
abbrev pub zeros : ℕ → List ℕ
zeros zero = []
zeros (suc n) = 0 ∷ zeros n

unfoldable pub overwrite : List ℕ → List ℕ → List ℕ
overwrite [] message = message
overwrite (b ∷ bytes) [] = []
overwrite (b ∷ bytes) (c ∷ message) = b ∷ overwrite bytes message

module _ {F : Type 0} (formatting : Formatting F) where
  unfoldable pub format_message : F → List ℕ
  unfolding overwrite
  format_message f =
      let size = (formatting.vsnprintf 0 f).0 in
      let n = pos_part size in
      if leb_ℤ size (pos 0) then [] else overwrite (formatting.vsnprintf (n + 1) f).1 (zeros n)

  -- What the sink gets, where there is one.
  unfoldable pub log_line : Bool → BridgeLogLevel → F → Option (BridgeLogLevel × List ℕ)
  unfolding format_message
  log_line has_fn level f = if has_fn then some (level, format_message f) else none

  -- As the C standard has it: a result that is negative, or the length of the text, of which there
  -- is written as much as fits before the terminator.
  pub record IsDocumented : Type 0 where
    pub text : F → Option (List ℕ)
    pub fails : (n : ℕ) (f : F) → text f ≡ none → leb_ℤ (formatting.vsnprintf n f).0 (pos 0) ≡ true
    pub succeeds :
        (n : ℕ) (f : F) (t : List ℕ)
        → text f ≡ some t
        → formatting.vsnprintf n f ≡ (pos (length t), take (n - 1) t)

  take_whole : (n : ℕ) (t : List ℕ) → n ≡ length t → take n t ≡ t
  take_whole zero [] e = refl
  take_whole zero (b ∷ t) e = absurd (omega (arith, e))
  take_whole (suc n) [] e = refl
  take_whole (suc n) (b ∷ t) e = ap (◌∷◌ b) (take_whole n t (omega (arith, e)))

  overwrite_whole : (t : List ℕ) → overwrite t (zeros (length t)) ≡ t
  unfolding overwrite
  overwrite_whole [] = refl
  overwrite_whole (b ∷ t) = ap (◌∷◌ b) (overwrite_whole t)

  message_of_text :
      (d : IsDocumented) (f : F) (t : List ℕ) → d.text f ≡ some t → format_message f ≡ t
  unfolding format_message
  message_of_text d f [] e = rw (d.succeeds 0 f [] e) refl
  message_of_text d f (b ∷ t) e = rw (d.succeeds 0 f (b ∷ t) e) (
      rw (d.succeeds (length (b ∷ t) + 1) f (b ∷ t) e) (
        rw (take_whole (length (b ∷ t) + 1 - 1) (b ∷ t) (omega arith))
          (ground (arith, overwrite_whole (b ∷ t)))))

  -- With a sink, a line is passed on once, with its level and the whole text, neither cut off nor
  -- filled up; a text that cannot be formatted is passed on as the empty one. Without a sink nothing
  -- is.
  pub log_line-text :
      (d : IsDocumented) (has_fn : Bool) (level : BridgeLogLevel) (f : F)
      → log_line has_fn level f ≡ (if has_fn then some (level, or_else (d.text f) []) else none)
  unfolding log_line format_message
  log_line-text d has_fn level f = elim (Option-cases (d.text f)) [
    | inl e ↦ ground (arith, e, d.fails 0 f e)
    | inr (t, e) ↦ ground (arith, e, message_of_text d f t e)
  ]
