-- ===== src/Poll/Cycle.antt =====
-- The `try` block of `pollThread` (src/ros1_foxglove_bridge.cpp): the two queries of the master and
-- the updates that their replies allow. The replies are given; a reply whose values have other types
-- than the code reads throws.
pub mod Replies
use foxglove_bridge_ros.Prelude.{
  ℕ, String, Bool, true, false, not, ◌&&◌, ◌||◌, Option, none, some, List, [], ◌∷◌, ◌++◌, map, keep,
  insert, if◌then◌else◌, ◌==◌, string_eq,
}
use foxglove_bridge_ros.Prelude.Int.{ℤ, pos, leb_ℤ}
use foxglove_bridge_ros.Utils.{RegexEngine, matches_regex}
use foxglove_bridge_ros.Channels.{ChannelState, Effect}
use foxglove_bridge_ros.Channels.Discovery.{Topic, ChannelRegistry, update_advertised_topics}
use foxglove_bridge_ros.Services.Advertised.{ServiceSources, Services, update_advertised_services}

-- `execute` gives a payload or fails; reading a payload may throw an `XmlRpcException`.
pub data Reply {ℓ} (A : Type ℓ) : Type ℓ where
  replied : A → Reply A
  failed : Reply A
  malformed : Reply A

abbrev pub is_malformed {ℓ} : {A : Type ℓ} → Reply A → Bool
is_malformed (replied a) = false
is_malformed failed = false
is_malformed malformed = true

-- The entries of the three lists of `getSystemState`: a name, and the nodes.
pub record SystemState : Type 0 where
  pub publishers : List (String × List String)
  pub subscribers : List (String × List String)
  pub services : List (String × List String)

-- What is set in the SDK's `ConnectionGraph`, in order.
pub record ConnectionGraph : Type 0 where
  pub published_topics : List (String × List String)
  pub subscribed_topics : List (String × List String)
  pub advertised_services : List (String × List String)

-- A set of node names, whose order the model leaves open.
unfoldable pub rpc_value_to_string_set : List String → List String
rpc_value_to_string_set [] = []
rpc_value_to_string_set (node ∷ nodes) = insert node (rpc_value_to_string_set nodes)

module _ (engine : RegexEngine String) where
  unfoldable pub allowed :
      List engine.Regex → List (String × List String) → List (String × List String)
  unfolding rpc_value_to_string_set
  allowed whitelist [] = []
  allowed whitelist ((name, nodes) ∷ rest) =
      let more = allowed whitelist rest in
      if matches_regex engine name whitelist
      then (name, rpc_value_to_string_set nodes) ∷ more
      else more

  unfoldable pub connection_graph :
      List engine.Regex → List engine.Regex → SystemState → ConnectionGraph
  unfolding allowed
  connection_graph topic_patterns service_patterns state = record {
    published_topics = allowed topic_patterns state.publishers;
    subscribed_topics = allowed topic_patterns state.subscribers;
    advertised_services = allowed service_patterns state.services;
  }

-- The state that a poll works on, with that of the SDK's registry and of the transports.
pub record Polled (R T : Type 0) : Type 0 where
  pub channels : ChannelState
  pub services : Services
  pub registry : R
  pub transports : T

-- What a poll does outside the bridge.
pub record Outputs : Type 0 where
  pub effects : List Effect
  pub graph : Option ConnectionGraph

module _ {R T : Type 0} (registry : ChannelRegistry R) (describes : String → Bool)
    (sources : ServiceSources T) (engine : RegexEngine String)
    (topic_patterns service_patterns : List engine.Regex) where
  unfoldable pub poll_topics : Reply (List Topic) → Polled R T → Polled R T × List Effect
  poll_topics (replied topics) s =
      let (channels, r, effects) =
        update_advertised_topics registry describes engine topic_patterns topics s.channels
          s.registry in
      (record s { channels = channels; registry = r }, effects)
  poll_topics failed s = (s, [])
  poll_topics malformed s = (s, [])

  unfoldable pub poll_services : Bool → Reply SystemState → Polled R T → Polled R T
  unfolding allowed
  poll_services services_enabled (replied state) s =
      let names = map (λ entry. entry.0) (allowed engine service_patterns state.services) in
      let (services, transports) =
        update_advertised_services sources names s.services s.transports in
      if services_enabled then record s { services = services; transports = transports } else s
  poll_services services_enabled failed s = s
  poll_services services_enabled malformed s = s

  unfoldable pub poll_graph : Bool → Reply SystemState → Option ConnectionGraph
  poll_graph wanted (replied state) =
      if wanted then some (connection_graph engine topic_patterns service_patterns state) else none
  poll_graph wanted failed = none
  poll_graph wanted malformed = none

  -- The count of graph subscriptions is read twice: at the start, and when the graph would be
  -- published. The system state is not asked for if nobody needs it.
  unfoldable pub poll_once :
      Bool → ℤ → ℤ → Reply (List Topic) → Reply SystemState → Polled R T → Polled R T × Outputs
  unfolding poll_topics poll_services poll_graph
  poll_once services_enabled count_before count_after topics answered s =
      let asked = services_enabled || not (leb_ℤ count_before (pos 0)) in
      let state = if asked then answered else failed in
      let (s₁, effects) = poll_topics topics s in
      if is_malformed topics || is_malformed state
      then (s, record { effects = []; graph = none })
      else (
        poll_services services_enabled state s₁,
        record { effects = effects; graph = poll_graph (not (leb_ℤ count_after (pos 0))) state },
      )
