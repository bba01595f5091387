-- ===== src/Poll/Cycle/Replies.antt =====
-- What the master's replies let a poll take down (src/ros1_foxglove_bridge.cpp).
use foxglove_bridge_ros.Prelude.{
  ◌⊎◌, ℕ, ◌≡◌, ◌∙◌, sym, refl, ap, subst, String, Bool, true, false, not, ◌&&◌, ◌||◌, some, is_some,
  List, [], ◌∷◌, map, contains, lookup, if◌then◌else◌, nat_eq, string_eq, pair_eq, arith,
  Bool-cases, if-elim, inl, inr,
}
use text.Mathlib.TextEquality.{eq_iff}
use foxglove_bridge_ros.Prelude.Int.{ℤ, pos, leb_ℤ}
use foxglove_bridge_ros.Utils.{RegexEngine, matches_regex}
use foxglove_bridge_ros.Channels.{Channel}
use foxglove_bridge_ros.Channels.Discovery.{Topic, ChannelRegistry, latest_topics, is_current}
use foxglove_bridge_ros.Channels.Discovery.Offered.{IsRegistered}
use foxglove_bridge_ros.Channels.Discovery.Update.{lookup-update_advertised_topics}
use foxglove_bridge_ros.Services.Advertised.{ServiceSources}
use foxglove_bridge_ros.Services.Advertised.Coverage.{lookup-update_advertised_services_old}
use foxglove_bridge_ros.Poll.Cycle.{
  Reply, replied, failed, malformed, is_malformed, SystemState, allowed, Polled, Outputs,
  poll_topics, poll_services, poll_once,
}

-- The names of a reply's list that a poll goes on with.
names-allowed :
    (engine : RegexEngine String) (whitelist : List engine.Regex)
    (entries : List (String × List String)) (name : String)
    → contains name (map (λ entry. entry.0) (allowed engine whitelist entries))
      ≡ (contains name (map (λ entry. entry.0) entries) && matches_regex engine name whitelist)
unfolding allowed
names-allowed engine whitelist [] name = refl
names-allowed engine whitelist ((n, nodes) ∷ rest) name = ground (
  arith,
  eq_iff n name,
  names-allowed engine whitelist rest name,
  ap (λ x. matches_regex engine x whitelist),
)

module _ {R T : Type 0} (registry : ChannelRegistry R) (describes : String → Bool)
    (sources : ServiceSources T) (engine : RegexEngine String)
    (topic_patterns service_patterns : List engine.Regex) where
  -- Why a channel may be closed: the master listed the topics, and not that one with its schema.
  abbrev Unlisted : Reply (List Topic) → Channel → Type 0
  Unlisted topics ch =
      (list : List Topic) × (topics ≡ replied list)
      × (is_current (latest_topics engine topic_patterns list) ch ≡ false)

  -- Why a service may go: the master gave the system's state, without that service among those
  -- that pass the whitelist.
  abbrev Unserved : Reply SystemState → String → Type 0
  Unserved answered name =
      (state : SystemState) × (answered ≡ replied state)
      × (contains name (map (λ entry. entry.0) state.services)
            && matches_regex engine name service_patterns
          ≡ false)

  poll_topics-Unlisted :
      (topics : Reply (List Topic)) (s : Polled R T) (k : ℕ) (ch : Channel)
      → IsRegistered registry s.channels s.registry
      → lookup k s.channels.channels ≡ some ch
      → (lookup k
            (poll_topics registry describes sources engine topic_patterns service_patterns topics
              s).0.channels.channels
          ≡ some ch)
        ⊎ Unlisted topics ch
  unfolding poll_topics
  poll_topics-Unlisted (replied list) s k ch v e =
      let same =
        lookup-update_advertised_topics registry describes engine topic_patterns list s.channels
          s.registry k ch v e in
      elim (Bool-cases (is_current (latest_topics engine topic_patterns list) ch)) [
        | inl current ↦ inl (same ∙ ground (arith, current))
        | inr gone ↦ inr (list, refl, gone)
      ]
  poll_topics-Unlisted failed s k ch v e = inl e
  poll_topics-Unlisted malformed s k ch v e = inl e

  poll_services-Unserved :
      (enabled : Bool) (state : Reply SystemState) (s : Polled R T) (name : String)
      → (is_some (lookup name s.services) ≡ true)
      → (lookup name
            (poll_services registry describes sources engine topic_patterns service_patterns enabled
              state s).services
          ≡ lookup name s.services)
        ⊎ Unserved state name
  unfolding poll_services
  poll_services-Unserved false (replied state) s name e = inl refl
  poll_services-Unserved true (replied state) s name e =
      let names = map (λ entry. entry.0) (allowed engine service_patterns state.services) in
      elim (Bool-cases (contains name names)) [
        | inl there ↦ inl (
            lookup-update_advertised_services_old sources names s.services s.transports name e
              there)
        | inr gone ↦
            inr
              (state, refl, sym (names-allowed engine service_patterns state.services name) ∙ gone)
      ]
  poll_services-Unserved enabled failed s name e = inl refl
  poll_services-Unserved enabled malformed s name e = inl refl

  poll_services-channels :
      (enabled : Bool) (state : Reply SystemState) (s : Polled R T)
      → (poll_services registry describes sources engine topic_patterns service_patterns enabled
          state s).channels
        ≡ s.channels
  unfolding poll_services
  poll_services-channels false (replied state) s = refl
  poll_services-channels true (replied state) s = refl
  poll_services-channels enabled failed s = refl
  poll_services-channels enabled malformed s = refl

  poll_topics-services :
      (topics : Reply (List Topic)) (s : Polled R T)
      → (poll_topics registry describes sources engine topic_patterns service_patterns topics
          s).0.services
        ≡ s.services
  unfolding poll_topics
  poll_topics-services (replied list) s = refl
  poll_topics-services failed s = refl
  poll_topics-services malformed s = refl

  -- Where the channels are registered, whatever the master answers, a poll keeps every channel,
  -- as it is, unless the master replied with a list of topics that lacks the channel's topic with
  -- its schema, or has it outside the whitelist. A query that fails and a reply that throws close
  -- nothing.
  pub poll_once-Unlisted :
      (enabled : Bool) (before after : ℤ) (topics : Reply (List Topic))
      (answered : Reply SystemState) (s : Polled R T) (k : ℕ) (ch : Channel)
      → IsRegistered registry s.channels s.registry
      → lookup k s.channels.channels ≡ some ch
      → (lookup k
            (poll_once registry describes sources engine topic_patterns service_patterns enabled
              before after topics answered s).0.channels.channels
          ≡ some ch)
        ⊎ Unlisted topics ch
  unfolding poll_once
  poll_once-Unlisted enabled before after topics answered s k ch v e =
      let state = if enabled || not (leb_ℤ before (pos 0)) then answered else failed in
      if-elim
        (λ (x : Polled R T × Outputs).
          (lookup k x.0.channels.channels ≡ some ch) ⊎ Unlisted topics ch)
        (is_malformed topics || is_malformed state) (λ _. inl e)
        (λ _.
          subst (λ c. (lookup k c.channels ≡ some ch) ⊎ Unlisted topics ch)
            (sym (poll_services-channels enabled state _)) (poll_topics-Unlisted topics s k ch v e))

  asked-Unserved :
      (asked : Bool) (answered : Reply SystemState) (name : String)
      → Unserved (if asked then answered else failed) name
      → (asked ≡ true) × Unserved answered name
  asked-Unserved true answered name h = (refl, h)
  asked-Unserved false answered name (state, e, rest) = absurd (ground (arith, e))

  -- A service that is advertised stays, with its details, over a poll, unless the master was
  -- asked for the system's state and replied with one that lacks the service among those that
  -- pass the whitelist.
  pub poll_once-Unserved :
      (enabled : Bool) (before after : ℤ) (topics : Reply (List Topic))
      (answered : Reply SystemState) (s : Polled R T) (name : String)
      → is_some (lookup name s.services) ≡ true
      → (lookup name
            (poll_once registry describes sources engine topic_patterns service_patterns enabled
              before after topics answered s).0.services
          ≡ lookup name s.services)
        ⊎ ((enabled || not (leb_ℤ before (pos 0)) ≡ true) × Unserved answered name)
  unfolding poll_once
  poll_once-Unserved enabled before after topics answered s name e =
      let asked = enabled || not (leb_ℤ before (pos 0)) in
      let state = if asked then answered else failed in
      let s₁ =
        (poll_topics registry describes sources engine topic_patterns service_patterns topics
          s).0 in
      if-elim
        (λ (x : Polled R T × Outputs).
          (lookup name x.0.services ≡ lookup name s.services)
          ⊎ ((asked ≡ true) × Unserved answered name))
        (is_malformed topics || is_malformed state) (λ _. inl refl)
        (λ _.
          elim (poll_services-Unserved enabled state s₁ name
            (ap (λ m. is_some (lookup name m)) (poll_topics-services topics s) ∙ e)) [
              | inl same ↦ inl (same ∙ ap (lookup name) (poll_topics-services topics s))
              | inr gone ↦ inr (asked-Unserved asked answered name gone)
            ])
