-- ===== src/Channels/Discovery/Retired.antt =====
-- The first loop of `updateAdvertisedTopics` (src/ros1_foxglove_bridge.cpp): the channels it keeps.
use foxglove_bridge_ros.Prelude.{
  subst, ℕ, ◌≡◌, sym, refl, ap, Bool, true, false, not, ◌&&◌, ◌||◌, Option, none, some, List, [],
  ◌∷◌, All, lookup, if◌then◌else◌, ◌==◌, nat_eq, string_eq, pair_eq, lookup-remove, unique,
  contains-erase, nat_beq_iff, arith, Bool-cases, if-elim, inl, inr,
}
use foxglove_bridge_ros.Channels.{Channel, ChannelState}
use foxglove_bridge_ros.Channels.Invariant.{IsConsistent}
use foxglove_bridge_ros.Channels.Discovery.{Topic, is_current, forget, retire}

abbrev pub IsKeyed : List (ℕ × Channel) → Type 0
IsKeyed = All (λ entry. entry.1.id ≡ entry.0)

abbrev dropped : List Topic → List (ℕ × Channel) → ℕ → Bool
dropped latest [] j = false
dropped latest ((k, ch) ∷ m) j = k == j && not (is_current latest ch) || dropped latest m j

abbrev is_gone : List Topic → Option Channel → Bool
is_gone latest none = false
is_gone latest (some ch) = not (is_current latest ch)

-- What is left of a channel: nothing, unless it is current.
abbrev pub kept : List Topic → Option Channel → Option Channel
kept latest none = none
kept latest (some ch) = if is_current latest ch then some ch else none

lookup-forget :
    (j k id : ℕ) (s : ChannelState)
    → lookup j (forget k id s).channels ≡ (if k == j then none else lookup j s.channels)
unfolding forget
lookup-forget j k id s = lookup-remove k j s.channels

lookup-retire_or_dropped :
    (latest : List Topic) (m : List (ℕ × Channel)) (s : ChannelState) (j : ℕ)
    → lookup j (retire latest m s).0.channels
      ≡ (if dropped latest m j then none else lookup j s.channels)
unfolding retire
lookup-retire_or_dropped latest [] s j = refl
lookup-retire_or_dropped latest ((k, ch) ∷ m) s j = ground (
  arith,
  nat_beq_iff k j,
  lookup-retire_or_dropped latest m (forget k ch.id s) j,
  lookup-retire_or_dropped latest m s j,
  lookup-forget j k ch.id s,
)

dropped-lookup :
    (latest : List Topic) (m : List (ℕ × Channel)) (j : ℕ)
    → unique m ≡ true
    → dropped latest m j ≡ is_gone latest (lookup j m)
unfolding lookup
dropped-lookup latest [] j h = refl
dropped-lookup latest ((k, ch) ∷ m) j h = elim (Bool-cases (k == j)) [
  | inl e ↦
      let same = (nat_beq_iff k j).0 e in
      ground (arith, e, h, dropped-lookup latest m j, ap (λ x. lookup x m) same)
  | inr e ↦ ground (arith, e, h, dropped-lookup latest m j)
]

pub lookup-retire :
    (latest : List Topic) (s : ChannelState) (j : ℕ)
    → unique s.channels ≡ true
    → lookup j (retire latest s.channels s).0.channels ≡ kept latest (lookup j s.channels)
lookup-retire latest s j h =
    ground
      (arith, h, lookup-retire_or_dropped latest s.channels s j, dropped-lookup latest s.channels j)

forget-IsConsistent : (s : ChannelState) (k : ℕ) → IsConsistent s → IsConsistent (forget k k s)
unfolding forget
forget-IsConsistent s k v = record {
  keyed = λ j ch e. ground (arith, v.keyed j ch, lookup-remove k j s.channels);
  backed = λ j sub e.
      ground
        (arith, v.backed j sub, lookup-remove k j s.subscriptions, lookup-remove k j s.channels);
  on_topic = λ j sub ch e f.
      ground (
        arith,
        v.on_topic j sub ch,
        lookup-remove k j s.subscriptions,
        lookup-remove k j s.channels,
      );
  wanted = λ j sub e. ground (arith, v.wanted j sub, lookup-remove k j s.subscriptions);
  cached = λ j e.
      ground (
        arith,
        v.cached j,
        lookup-remove k j s.subscriptions,
        contains-erase k j s.latched_channels,
      );
}

pub retire-IsConsistent :
    (latest : List Topic) (m : List (ℕ × Channel)) (s : ChannelState)
    → IsKeyed m
    → IsConsistent s
    → IsConsistent (retire latest m s).0
unfolding retire
retire-IsConsistent latest [] s h v = v
retire-IsConsistent latest ((k, ch) ∷ m) s h v = retire-IsConsistent latest m _ h.1 (
    if-elim IsConsistent (not (is_current latest ch))
      (λ _. subst (λ i. IsConsistent (forget k i s)) (sym h.0) (forget-IsConsistent s k v))
      (λ _. v))
