-- ===== src/Channels/Discovery/Update.antt =====
-- Which channels a poll keeps, closes and creates (src/ros1_foxglove_bridge.cpp).
use foxglove_bridge_ros.Prelude.{
  pair_beq_iff, subst, ℕ, ◌≡◌, ◌∙◌, refl, ap, String, Bool, true, false, ◌&&◌, Option, none, some,
  is_some, List, [], ◌∷◌, any, contains, lookup, ◌==◌, nat_eq, string_eq, pair_eq, lookup-emplace,
  contains-insert, nat_beq_iff, arith, Bool-cases, if-elim, inl, inr,
}
use text.Mathlib.TextEquality.{eq_iff}
use foxglove_bridge_ros.Utils.{RegexEngine, matches_regex}
use foxglove_bridge_ros.Channels.{Channel, ChannelState, Effect}
use foxglove_bridge_ros.Channels.Discovery.{
  Topic, ChannelRegistry, latest_topics, is_current, retire, offers, schema_for, advertise_created,
  advertise_one, advertise_all, update_advertised_topics,
}
use foxglove_bridge_ros.Channels.Discovery.Retired.{kept, lookup-retire}
use foxglove_bridge_ros.Channels.Discovery.Offered.{
  IsRegistered, any-emplace, fresh, advertise_one-IsRegistered, retire-IsRegistered,
}

-- The set has the topics that are published and pass the whitelist.
contains-latest_topics :
    (engine : RegexEngine String) (whitelist : List engine.Regex) (topics : List Topic) (t : Topic)
    → contains t (latest_topics engine whitelist topics)
      ≡ (contains t topics && matches_regex engine t.0 whitelist)
unfolding latest_topics
contains-latest_topics engine whitelist [] t = refl
contains-latest_topics engine whitelist (u ∷ topics) t = ground (
  arith,
  pair_beq_iff u t,
  contains-latest_topics engine whitelist topics t,
  contains-insert u t (latest_topics engine whitelist topics),
  ap (λ (x : Topic). matches_regex engine x.0 whitelist),
)

gone_without_schema :
    (latest : List Topic) (ch : Channel)
    → ch.schema ≡ none
    → contains (ch.topic, "") latest ≡ false
    → kept latest (some ch) ≡ none
unfolding is_current
gone_without_schema latest ch e h = rw e (rw h refl)

module _ {R : Type 0} (registry : ChannelRegistry R) (describes : String → Bool) where
  abbrev schema_of : Topic → Option String
  schema_of t = schema_for registry describes t.1

  -- `after` has the channel that `s` has under the id, and the id stays one that was given out.
  abbrev Keeps : ℕ → ChannelState → ChannelState × R × List Effect → Type 0
  Keeps k s after =
      (lookup k after.0.channels ≡ lookup k s.channels) × (registry.used after.1 k ≡ true)

  advertise_created-Keeps :
      (t : Topic) (s : ChannelState) (r : R) (made : Option ℕ) (k : ℕ)
      → (registry.create t.0 (schema_of t) r).0 ≡ made
      → registry.used r k ≡ true
      → Keeps k s (
          advertise_created registry describes t
            (schema_of t)
            s
            (registry.create t.0 (schema_of t) r).1
            made)
  unfolding advertise_created
  advertise_created-Keeps t s r none k e h =
      (refl, ground (arith, h, registry.used-create_failed t.0 (schema_of t) r k e))
  advertise_created-Keeps t s r (some id) k e h =
      let ch : Channel = record { id = id; topic = t.0; schema = schema_of t } in
      (
        ground (
          arith,
          h,
          registry.create_unused t.0 (schema_of t) r id e,
          nat_beq_iff id k,
          lookup-emplace id k ch s.channels,
          ap (registry.used r),
        ),
        ground (arith, h, registry.used-create t.0 (schema_of t) r id k e),
      )

  advertise_one-Keeps :
      (t : Topic) (s : ChannelState) (r : R) (k : ℕ)
      → registry.used r k ≡ true
      → Keeps k s (advertise_one registry describes t s r)
  unfolding advertise_one
  advertise_one-Keeps t s r k h =
      if-elim (Keeps k s) (any (λ entry. offers t entry.1) s.channels) (λ _. (refl, h))
        (λ _. advertise_created-Keeps t s r _ k refl h)

  advertise_all-Keeps :
      (latest : List Topic) (s : ChannelState) (r : R) (k : ℕ)
      → registry.used r k ≡ true
      → Keeps k s (advertise_all registry describes latest s r)
  unfolding advertise_all
  advertise_all-Keeps [] s r k h = (refl, h)
  advertise_all-Keeps (t ∷ latest) s r k h =
      let first = advertise_one-Keeps t s r k h in
      let rest = advertise_all-Keeps latest _ _ k first.1 in (rest.0 ∙ first.0, rest.1)

  -- No advertisement takes away a channel that offers a topic.
  abbrev offered : Topic → ChannelState → Bool
  offered t s = any (λ entry. offers t entry.1) s.channels

  advertise_created-offered :
      (u t : Topic) (s : ChannelState) (r : R) (made : Option ℕ)
      → IsRegistered registry s r
      → (registry.create t.0 (schema_of t) r).0 ≡ made
      → offered u s ≡ true
      → offered u
          (advertise_created registry describes t
            (schema_of t)
            s
            (registry.create t.0 (schema_of t) r).1
            made).0
        ≡ true
  unfolding advertise_created
  advertise_created-offered u t s r none v e h = h
  advertise_created-offered u t s r (some id) v e h =
      let ch : Channel = record { id = id; topic = t.0; schema = schema_of t } in
      ground (
        arith,
        h,
        any-emplace (λ entry. offers u entry.1) id ch s.channels
            (fresh registry t.0 (schema_of t) s r id v e),
      )

  advertise_one-offered :
      (u t : Topic) (s : ChannelState) (r : R)
      → IsRegistered registry s r
      → offered u s ≡ true
      → offered u (advertise_one registry describes t s r).0 ≡ true
  unfolding advertise_one
  advertise_one-offered u t s r v h =
      if-elim (λ (x : ChannelState × R × List Effect). offered u x.0 ≡ true) (offered t s) (λ _. h)
        (λ _. advertise_created-offered u t s r _ v refl h)

  advertise_all-offered :
      (u : Topic) (latest : List Topic) (s : ChannelState) (r : R)
      → IsRegistered registry s r
      → offered u s ≡ true
      → offered u (advertise_all registry describes latest s r).0 ≡ true
  unfolding advertise_all
  advertise_all-offered u [] s r v h = h
  advertise_all-offered u (t ∷ latest) s r v h =
      advertise_all-offered u latest _ _ (advertise_one-IsRegistered registry describes t s r v)
        (advertise_one-offered u t s r v h)

  -- The SDK does not refuse a channel.
  abbrev Creates : Type 0
  Creates =
      (topic : String) (schema : Option String) (r : R)
      → is_some (registry.create topic schema r).0 ≡ true

  advertise_created_self :
      (t : Topic) (s : ChannelState) (r : R) (made : Option ℕ)
      → IsRegistered registry s r
      → (registry.create t.0 (schema_of t) r).0 ≡ made
      → is_some made ≡ true
      → describes t.1 ≡ true
      → offered t
          (advertise_created registry describes t
            (schema_of t)
            s
            (registry.create t.0 (schema_of t) r).1
            made).0
        ≡ true
  unfolding advertise_created offers schema_for
  advertise_created_self t s r none v e h d = absurd (ground (arith, h))
  advertise_created_self t s r (some id) v e h d =
      let ch : Channel = record { id = id; topic = t.0; schema = schema_of t } in
      rw
        (any-emplace (λ entry. offers t entry.1) id ch s.channels
          (fresh registry t.0 (schema_of t) s r id v e))
        (ground (arith, d, eq_iff t.0 t.0, eq_iff t.1 t.1))

  advertise_one_self :
      (t : Topic) (s : ChannelState) (r : R)
      → IsRegistered registry s r
      → Creates
      → describes t.1 ≡ true
      → offered t (advertise_one registry describes t s r).0 ≡ true
  unfolding advertise_one
  advertise_one_self t s r v creates d =
      if-elim (λ (x : ChannelState × R × List Effect). offered t x.0 ≡ true) (offered t s) (λ e. e)
        (λ _. advertise_created_self t s r _ v refl (creates t.0 (schema_of t) r) d)

  advertise_all-covers :
      (u : Topic) (latest : List Topic) (s : ChannelState) (r : R)
      → IsRegistered registry s r
      → Creates
      → describes u.1 ≡ true
      → contains u latest ≡ true
      → offered u (advertise_all registry describes latest s r).0 ≡ true
  unfolding advertise_all
  advertise_all-covers u [] s r v creates d h = absurd (ground (arith, h))
  advertise_all-covers u (t ∷ latest) s r v creates d h =
      let v' = advertise_one-IsRegistered registry describes t s r v in
      elim (Bool-cases (t == u)) [
        | inl e ↦
            let same = (pair_beq_iff t u).0 e in
            advertise_all-offered u latest _ _ v' (
              subst (λ x. offered x (advertise_one registry describes t s r).0 ≡ true) same
                (advertise_one_self t s r v creates (ap (λ x. describes x.1) same ∙ d)))
        | inr e ↦ advertise_all-covers u latest _ _ v' creates d (ground (arith, h, e))
      ]

  module _ (engine : RegexEngine String) (whitelist : List engine.Regex) where
    -- Where the channels are registered, a poll keeps a channel as it is if its topic is
    -- published with the name of its schema and passes the whitelist, and otherwise leaves no
    -- channel under its id.
    pub lookup-update_advertised_topics :
        (topics : List Topic) (s : ChannelState) (r : R) (k : ℕ) (ch : Channel)
        → IsRegistered registry s r
        → lookup k s.channels ≡ some ch
        → lookup k
            (update_advertised_topics registry describes engine whitelist topics s r).0.channels
          ≡ kept (latest_topics engine whitelist topics) (some ch)
    unfolding update_advertised_topics
    lookup-update_advertised_topics topics s r k ch v e =
        let latest = latest_topics engine whitelist topics in
        (advertise_all-Keeps latest (retire latest s.channels s).0 r k
          (v.known k (ground (arith, e)))).0
        ∙ lookup-retire latest s k v.once
        ∙ ap (kept latest) e

    -- Where the channels are registered, a channel that was made without a schema, because its
    -- datatype has no description, is taken away at the next poll, also if its topic is still
    -- published, unless the master gives that topic with an empty datatype.
    pub update_advertised_topics_undescribed :
        (topics : List Topic) (s : ChannelState) (r : R) (k : ℕ) (ch : Channel)
        → IsRegistered registry s r
        → lookup k s.channels ≡ some ch
        → ch.schema ≡ none
        → contains (ch.topic, "") topics ≡ false
        → lookup k
            (update_advertised_topics registry describes engine whitelist topics s r).0.channels
          ≡ none
    update_advertised_topics_undescribed topics s r k ch v e undescribed absent =
        lookup-update_advertised_topics topics s r k ch v e
        ∙ gone_without_schema (latest_topics engine whitelist topics) ch undescribed
            (contains-latest_topics engine whitelist topics (ch.topic, "") ∙ ground (arith, absent))

    -- Where the channels are registered and the SDK refuses none, after a poll every topic that
    -- is published, passes the whitelist and has a described datatype is offered by a channel.
    pub update_advertised_topics_covers :
        (topics : List Topic) (s : ChannelState) (r : R) (t : Topic)
        → IsRegistered registry s r
        → Creates
        → describes t.1 ≡ true
        → contains t topics ≡ true
        → matches_regex engine t.0 whitelist ≡ true
        → offered t (update_advertised_topics registry describes engine whitelist topics s r).0
          ≡ true
    unfolding update_advertised_topics
    update_advertised_topics_covers topics s r t v creates d published allowed =
        let latest = latest_topics engine whitelist topics in
        advertise_all-covers t latest _ r (retire-IsRegistered registry latest s r v) creates d
          (contains-latest_topics engine whitelist topics t ∙ ground (arith, published, allowed))
