-- ===== src/Channels/Session/Polling.antt =====
-- What the poll thread's critical sections in `updateAdvertisedTopics` (src/ros1_foxglove_bridge.cpp)
-- do to the count of ROS subscriptions.
use foxglove_bridge_ros.Prelude.{
  ℕ, ◌+◌, ◌≡◌, refl, ◌∙◌, String, Bool, true, Option, none, some, List, [], ◌∷◌, lookup, unique,
  unique-remove, weight_at, weigh-remove, nat_eq, string_eq, any, arith, Bool-cases, if-elim, inl,
  inr,
}
use foxglove_bridge_ros.Channels.{Channel, ChannelSubscription, ChannelState, Effect}
use foxglove_bridge_ros.Channels.Discovery.{
  Topic, ChannelRegistry, is_current, release_of, forget, retire, offers, advertise_created,
  advertise_one, advertise_all,
}
use foxglove_bridge_ros.Channels.Session.Balance.{
  total, total-append, subscribes_to, releases_of, is_to, held,
}

module _ (topic : String) where
  -- What a removed channel's subscription weighs is released.
  release_of-total :
      (o : Option ChannelSubscription)
      → total (releases_of topic) (release_of o) ≡ weight_at (is_to topic) o
  unfolding release_of
  release_of-total none = refl
  release_of-total (some sub) = omega arith

  -- The releases that the first loop leaves to be done are of what it takes out of the map.
  pub retire-held :
      (latest : List Topic) (m : List (ℕ × Channel)) (s : ChannelState)
      → unique s.subscriptions ≡ true
      → total (releases_of topic) (retire latest m s).2 + held topic (retire latest m s).0
        ≡ held topic s
  unfolding retire forget
  retire-held latest [] s u = omega arith
  retire-held latest ((k, ch) ∷ m) s u = elim (Bool-cases (is_current latest ch)) [
    | inl e ↦ ground (arith, e, retire-held latest m s u)
    | inr e ↦ ground (
      arith,
      e,
      retire-held latest m (forget k ch.id s) (unique-remove ch.id s.subscriptions u),
      weigh-remove (is_to topic) ch.id s.subscriptions u,
      release_of-total (lookup ch.id s.subscriptions),
      total-append (releases_of topic) (release_of (lookup ch.id s.subscriptions))
          (retire latest m (forget k ch.id s)).2,
    )
  ]

  release_of-subscribes :
      (o : Option ChannelSubscription) → total (subscribes_to topic) (release_of o) ≡ 0
  unfolding release_of
  release_of-subscribes none = refl
  release_of-subscribes (some sub) = refl

  -- Nothing that is left to be done subscribes, and no closing releases.
  pub retire-counts :
      (latest : List Topic) (m : List (ℕ × Channel)) (s : ChannelState)
      → (total (subscribes_to topic) (retire latest m s).1 ≡ 0)
        × (total (releases_of topic) (retire latest m s).1 ≡ 0)
        × (total (subscribes_to topic) (retire latest m s).2 ≡ 0)
  unfolding retire
  retire-counts latest [] s = (refl, refl, refl)
  retire-counts latest ((k, ch) ∷ m) s = elim (Bool-cases (is_current latest ch)) [
    | inl e ↦ ground (arith, e, retire-counts latest m s)
    | inr e ↦ ground (
      arith,
      e,
      retire-counts latest m (forget k ch.id s),
      release_of-subscribes (lookup ch.id s.subscriptions),
      total-append (subscribes_to topic) (release_of (lookup ch.id s.subscriptions))
          (retire latest m (forget k ch.id s)).2,
    )
  ]

  module _ {R : Type 0} (registry : ChannelRegistry R) (describes : String → Bool) where
    abbrev pub IsQuiet : ChannelState → ChannelState × R × List Effect → Type 0
    IsQuiet s result =
        (result.0.subscriptions ≡ s.subscriptions)
        × (total (subscribes_to topic) result.2 ≡ 0)
        × (total (releases_of topic) result.2 ≡ 0)

    advertise_created-IsQuiet :
        (t : Topic) (schema : Option String) (s : ChannelState) (r : R) (made : Option ℕ)
        → IsQuiet s (advertise_created registry describes t schema s r made)
    unfolding advertise_created
    advertise_created-IsQuiet t schema s r none = (refl, refl, refl)
    advertise_created-IsQuiet t schema s r (some id) = (refl, refl, refl)

    advertise_one-IsQuiet :
        (t : Topic) (s : ChannelState) (r : R) → IsQuiet s (advertise_one registry describes t s r)
    unfolding advertise_one
    advertise_one-IsQuiet t s r =
        if-elim (IsQuiet s) (any (λ entry. offers t entry.1) s.channels) (λ _. (refl, refl, refl))
          (λ _. advertise_created-IsQuiet t _ s _ _)

    -- Advertising leaves the ROS subscriptions alone.
    pub advertise_all-IsQuiet :
        (latest : List Topic) (s : ChannelState) (r : R)
        → IsQuiet s (advertise_all registry describes latest s r)
    unfolding advertise_all
    advertise_all-IsQuiet [] s r = (refl, refl, refl)
    advertise_all-IsQuiet (t ∷ latest) s r =
        let one = advertise_one registry describes t s r in
        let (same, no_sub, no_release) = advertise_one-IsQuiet t s r in
        let (same', no_sub', no_release') = advertise_all-IsQuiet latest one.0 one.1 in
        let rest = (advertise_all registry describes latest one.0 one.1).2 in
        (
          same' ∙ same,
          omega (arith, total-append (subscribes_to topic) one.2 rest, no_sub, no_sub'),
          omega (arith, total-append (releases_of topic) one.2 rest, no_release, no_release'),
        )
