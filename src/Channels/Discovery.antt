-- ===== src/Channels/Discovery.antt =====
-- `updateAdvertisedTopics` of src/ros1_foxglove_bridge.cpp. The SDK's channel registry and the
-- description provider are interfaces.
pub mod Retired
pub mod Offered
pub mod Update
use foxglove_bridge_ros.Prelude.{
  ℕ, ◌≡◌, String, Bool, true, false, not, ◌&&◌, ◌||◌, Option, none, some, List, [], ◌∷◌, ◌++◌, any,
  keep, insert, contains, lookup, emplace, remove, erase, if◌then◌else◌, ◌==◌, nat_eq, string_eq,
  pair_eq, or_else,
}
use foxglove_bridge_ros.Utils.{RegexEngine, matches_regex}
use foxglove_bridge_ros.Channels.{
  Channel, ChannelSubscription, ChannelState, Effect, ros_release, close, advertise,
}

abbrev pub Topic : Type 0
Topic = String × String

-- The SDK's registry of channels, over a state of its own: each channel gets an id that no channel
-- had before; creating one may fail.
pub record ChannelRegistry (R : Type 0) : Type 0 where
  pub create : String → Option String → R → Option ℕ × R
  pub used : R → ℕ → Bool
  pub create_unused :
      (topic : String) (schema : Option String) (r : R) (id : ℕ)
      → (create topic schema r).0 ≡ some id
      → used r id ≡ false
  pub used-create :
      (topic : String) (schema : Option String) (r : R) (id j : ℕ)
      → (create topic schema r).0 ≡ some id
      → used (create topic schema r).1 j ≡ (id == j || used r j)
  pub used-create_failed :
      (topic : String) (schema : Option String) (r : R) (j : ℕ)
      → (create topic schema r).0 ≡ none
      → used (create topic schema r).1 j ≡ used r j

-- The set `latestTopics`.
module _ (engine : RegexEngine String) (whitelist : List engine.Regex) where
  unfoldable pub latest_topics : List Topic → List Topic
  latest_topics [] = []
  latest_topics (t ∷ topics) =
      let rest = latest_topics topics in
      if matches_regex engine t.0 whitelist then insert t rest else rest

-- A channel is kept if its topic is there with the name of its schema.
unfoldable pub is_current : List Topic → Channel → Bool
is_current latest ch = contains (ch.topic, or_else ch.schema "") latest

unfoldable pub release_of : Option ChannelSubscription → List Effect
release_of none = []
release_of (some sub) = ros_release sub.ros_topic ∷ []

-- One removed channel leaves the three containers.
unfoldable pub forget : ℕ → ℕ → ChannelState → ChannelState
forget key id s = record s {
  subscriptions = remove id s.subscriptions;
  latched_channels = erase id s.latched_channels;
  channels = remove key s.channels;
}

-- The first loop, over the channels as they were: the new state, the channels to close, and the
-- ROS subscriptions to release.
unfoldable pub retire :
    List Topic → List (ℕ × Channel) → ChannelState → ChannelState × List Effect × List Effect
unfolding forget is_current release_of
retire latest [] s = (s, [], [])
retire latest ((k, ch) ∷ rest) s =
    let gone = not (is_current latest ch) in
    let (s', closes, releases) = retire latest rest (if gone then forget k ch.id s else s) in
    (
      s',
      if gone then close ch.id ∷ closes else closes,
      if gone then release_of (lookup ch.id s.subscriptions) ++ releases else releases,
    )

-- A channel of the topic with the datatype as its schema.
unfoldable pub offers : Topic → Channel → Bool
offers t ch = ch.topic == t.0 && elim ch.schema [ none ↦ false | some name ↦ name == t.1 ]

module _ {R : Type 0} (registry : ChannelRegistry R) (describes : String → Bool) where
  -- Without a description the channel is created without a schema.
  unfoldable pub schema_for : String → Option String
  schema_for datatype = if describes datatype then some datatype else none

  -- With the channel that the SDK made, or without one where that failed.
  unfoldable pub advertise_created :
      Topic → Option String → ChannelState → R → Option ℕ → ChannelState × R × List Effect
  advertise_created t schema s r none = (s, r, [])
  advertise_created t schema s r (some id) = (
    record s {
      channels = emplace id (record { id = id; topic = t.0; schema = schema }) s.channels;
    },
    r,
    advertise id t.0 schema ∷ [],
  )

  unfoldable pub advertise_one : Topic → ChannelState → R → ChannelState × R × List Effect
  unfolding schema_for offers advertise_created
  advertise_one t s r =
      let schema = schema_for t.1 in
      let (made, r') = registry.create t.0 schema r in
      if any (λ entry. offers t entry.1) s.channels
      then (s, r, [])
      else advertise_created t schema s r' made

  -- The second loop.
  unfoldable pub advertise_all : List Topic → ChannelState → R → ChannelState × R × List Effect
  unfolding advertise_one
  advertise_all [] s r = (s, r, [])
  advertise_all (t ∷ latest) s r =
      let (s₁, r₁, first) = advertise_one t s r in
      let (s₂, r₂, more) = advertise_all latest s₁ r₁ in (s₂, r₂, first ++ more)

  module _ (engine : RegexEngine String) (whitelist : List engine.Regex) where
    -- Channels are closed and subscriptions released before anything new is advertised.
    unfoldable pub update_advertised_topics :
        List Topic → ChannelState → R → ChannelState × R × List Effect
    unfolding latest_topics retire advertise_all
    update_advertised_topics topics s r =
        let latest = latest_topics engine whitelist topics in
        let (s₁, closes, releases) = retire latest s.channels s in
        let (s₂, r₂, adverts) = advertise_all latest s₁ r in (s₂, r₂, closes ++ releases ++ adverts)
