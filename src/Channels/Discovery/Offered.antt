-- ===== src/Channels/Discovery/Offered.antt =====
-- What is advertised after `updateAdvertisedTopics` (src/ros1_foxglove_bridge.cpp).
use foxglove_bridge_ros.Prelude.{
  ℕ, ◌≡◌, refl, String, Bool, true, not, ◌||◌, Option, none, some, is_some, List, [], ◌∷◌, any,
  lookup, emplace, remove, ◌==◌, nat_eq, string_eq, pair_eq, lookup-emplace, nat_beq_iff, arith,
  if-elim, unique, unique-emplace, unique-remove,
}
use foxglove_bridge_ros.Utils.{RegexEngine}
use foxglove_bridge_ros.Channels.{Channel, ChannelState, Effect}
use foxglove_bridge_ros.Channels.Invariant.{IsConsistent}
use foxglove_bridge_ros.Channels.Discovery.{
  Topic, ChannelRegistry, latest_topics, is_current, retire, forget, offers, schema_for,
  advertise_created, advertise_one, advertise_all, update_advertised_topics,
}
use foxglove_bridge_ros.Channels.Discovery.Retired.{IsKeyed, lookup-retire, retire-IsConsistent}

emplace-IsKeyed :
    (k : ℕ) (ch : Channel) (m : List (ℕ × Channel))
    → ch.id ≡ k
    → IsKeyed m
    → IsKeyed (emplace k ch m)
unfolding emplace
emplace-IsKeyed k ch [] e h = (e, h)
emplace-IsKeyed k ch ((j, d) ∷ m) e h =
    if-elim IsKeyed (j == k) (λ _. h) (λ _. (h.0, emplace-IsKeyed k ch m e h.1))

remove-IsKeyed : (k : ℕ) (m : List (ℕ × Channel)) → IsKeyed m → IsKeyed (remove k m)
unfolding remove
remove-IsKeyed k [] h = h
remove-IsKeyed k ((j, d) ∷ m) h =
    if-elim IsKeyed (j == k) (λ _. remove-IsKeyed k m h.1) (λ _. (h.0, remove-IsKeyed k m h.1))

retire-keeps_map :
    (latest : List Topic) (m : List (ℕ × Channel)) (s : ChannelState)
    → IsKeyed s.channels × (unique s.channels ≡ true)
    → IsKeyed (retire latest m s).0.channels × (unique (retire latest m s).0.channels ≡ true)
unfolding retire forget
retire-keeps_map latest [] s h = h
retire-keeps_map latest ((k, ch) ∷ m) s h = retire-keeps_map latest m _ (
    if-elim (λ (s' : ChannelState). IsKeyed s'.channels × (unique s'.channels ≡ true))
      (not (is_current latest ch))
      (λ _. (remove-IsKeyed k s.channels h.0, unique-remove k s.channels h.1)) (λ _. h))

pub any-emplace :
    (p : ℕ × Channel → Bool) (k : ℕ) (ch : Channel) (m : List (ℕ × Channel))
    → lookup k m ≡ none
    → any p (emplace k ch m) ≡ any p m || p (k, ch)
unfolding emplace lookup
any-emplace p k ch [] e = ground arith
any-emplace p k ch ((j, d) ∷ m) e = ground (arith, e, any-emplace p k ch m)

module _ {R : Type 0} (registry : ChannelRegistry R) where
  -- The maps are consistent, each channel stands once and under its own id, and every channel's
  -- id is one that the SDK gave out.
  pub record IsRegistered (s : ChannelState) (r : R) : Type 0 where
    pub consistent : IsConsistent s
    pub keyed : IsKeyed s.channels
    pub once : unique s.channels ≡ true
    pub known : (k : ℕ) → is_some (lookup k s.channels) ≡ true → registry.used r k ≡ true

  pub retire-IsRegistered :
      (latest : List Topic) (s : ChannelState) (r : R)
      → IsRegistered s r
      → IsRegistered (retire latest s.channels s).0 r
  retire-IsRegistered latest s r v = record {
    consistent = retire-IsConsistent latest s.channels s v.keyed v.consistent;
    keyed = (retire-keeps_map latest s.channels s (v.keyed, v.once)).0;
    once = (retire-keeps_map latest s.channels s (v.keyed, v.once)).1;
    known = λ k e. ground (arith, v.known k, lookup-retire latest s k v.once, e);
  }

  emplace-IsConsistent :
      (s : ChannelState) (id : ℕ) (ch : Channel)
      → ch.id ≡ id
      → lookup id s.channels ≡ none
      → IsConsistent s
      → IsConsistent (record s { channels = emplace id ch s.channels })
  emplace-IsConsistent s id ch named fresh v = record {
    keyed = λ j d e.
        ground (arith, v.keyed j d, lookup-emplace id j ch s.channels, nat_beq_iff id j, named);
    backed = λ j sub e. ground (arith, v.backed j sub, lookup-emplace id j ch s.channels);
    on_topic = λ j sub d e f. ground (
      arith,
      e,
      f,
      fresh,
      nat_beq_iff id j,
      v.backed j sub,
      v.on_topic j sub d,
      lookup-emplace id j ch s.channels,
    );
    wanted = v.wanted;
    cached = v.cached;
  }

  pub fresh :
      (topic : String) (schema : Option String) (s : ChannelState) (r : R) (id : ℕ)
      → IsRegistered s r
      → (registry.create topic schema r).0 ≡ some id
      → lookup id s.channels ≡ none
  fresh topic schema s r id v e =
      ground (arith, v.known id, registry.create_unused topic schema r id e)

  created-IsRegistered :
      (topic : String) (schema : Option String) (s : ChannelState) (r : R) (id : ℕ)
      → IsRegistered s r
      → (registry.create topic schema r).0 ≡ some id
      → IsRegistered
          (record s {
            channels = emplace id (record { id = id; topic = topic; schema = schema }) s.channels;
          })
          (registry.create topic schema r).1
  created-IsRegistered topic schema s r id v e = record {
    consistent = emplace-IsConsistent s id _ refl (fresh topic schema s r id v e) v.consistent;
    keyed = emplace-IsKeyed id _ s.channels refl v.keyed;
    once = unique-emplace id _ s.channels v.once;
    known = λ k there. ground (
      arith,
      there,
      v.known k,
      nat_beq_iff id k,
      registry.used-create topic schema r id k e,
      lookup-emplace id k (record { id = id; topic = topic; schema = schema }) s.channels,
    );
  }

  module _ (describes : String → Bool) where
    advertise_created-IsRegistered :
        (t : Topic) (s : ChannelState) (r : R) (made : Option ℕ)
        → IsRegistered s r
        → (registry.create t.0 (schema_for registry describes t.1) r).0 ≡ made
        → let result =
            advertise_created registry describes t
              (schema_for registry describes t.1)
              s
              (registry.create t.0 (schema_for registry describes t.1) r).1
              made in
          IsRegistered result.0 result.1
    unfolding advertise_created
    advertise_created-IsRegistered t s r none v failed = record {
      consistent = v.consistent;
      keyed = v.keyed;
      once = v.once;
      known = λ k there. ground (
        arith,
        there,
        v.known k,
        registry.used-create_failed t.0 (schema_for registry describes t.1) r k failed,
      );
    }
    advertise_created-IsRegistered t s r (some id) v made =
        created-IsRegistered t.0 (schema_for registry describes t.1) s r id v made

    pub advertise_one-IsRegistered :
        (t : Topic) (s : ChannelState) (r : R)
        → IsRegistered s r
        → IsRegistered
            (advertise_one registry describes t s r).0
            (advertise_one registry describes t s r).1
    unfolding advertise_one
    advertise_one-IsRegistered t s r v =
        if-elim (λ (x : ChannelState × R × List Effect). IsRegistered x.0 x.1)
          (any (λ entry. offers t entry.1) s.channels) (λ _. v)
          (λ _. advertise_created-IsRegistered t s r _ v refl)

    pub advertise_all-IsRegistered :
        (latest : List Topic) (s : ChannelState) (r : R)
        → IsRegistered s r
        → IsRegistered
            (advertise_all registry describes latest s r).0
            (advertise_all registry describes latest s r).1
    unfolding advertise_all
    advertise_all-IsRegistered [] s r v = v
    advertise_all-IsRegistered (t ∷ latest) s r v =
        advertise_all-IsRegistered latest _ _ (advertise_one-IsRegistered t s r v)

    -- A poll's update keeps the maps consistent, each channel once and under its own id, and
    -- every id one that the SDK gave out, if that was so before; also where the SDK refuses to
    -- create channels.
    pub update_advertised_topics-IsRegistered :
        (engine : RegexEngine String) (whitelist : List engine.Regex) (topics : List Topic)
        (s : ChannelState) (r : R)
        → IsRegistered s r
        → let result = update_advertised_topics registry describes engine whitelist topics s r in
          IsRegistered result.0 result.1
    unfolding update_advertised_topics
    update_advertised_topics-IsRegistered engine whitelist topics s r v =
        let latest = latest_topics engine whitelist topics in
        advertise_all-IsRegistered latest _ r (retire-IsRegistered latest s r v)
