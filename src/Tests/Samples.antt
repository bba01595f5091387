-- ===== src/Tests/Samples.antt =====
-- Concrete stand-ins for the SDK, roscpp and the standard library.
use foxglove_bridge_ros.Prelude.{
  ℕ, suc, String, ◌≡◌, refl, Bool, false, not, ◌||◌, Option, none, some, List, [], ◌∷◌, ◌==◌,
  nat_eq, string_eq, bool_eq, ltb, lookup, arith,
}
use foxglove_bridge_ros.Prelude.Int.{ℤ}
use foxglove_bridge_ros.Utils.{RegexEngine}
use foxglove_bridge_ros.Channels.{Channel, ChannelSubscription, ChannelState}
use foxglove_bridge_ros.Channels.Invariant.{IsConsistent}
use foxglove_bridge_ros.Channels.Discovery.{ChannelRegistry}
use foxglove_bridge_ros.Channels.Discovery.Offered.{IsRegistered}
use foxglove_bridge_ros.Params.Values.{
  ParameterType, no_type, Value, bool_value, integer_value, float_value, string_value,
  ParameterClass,
}

-- A pattern is a text that matches itself; `.*` matches all.
abbrev pub engine : RegexEngine String
engine = record {
  Regex = String;
  compile = λ p. some p;
  regex_match = λ name p. name == p || p == ".*";
}

pub unused :
    (topic : String) (schema : Option String) (n id : ℕ) → some n ≡ some id → ltb id n ≡ false
unused topic schema n id e = ground (arith, e)

pub used :
    (topic : String) (schema : Option String) (n id j : ℕ)
    → some n ≡ some id
    → ltb j (suc n) ≡ (id == j || ltb j n)
used topic schema n id j e = ground (arith, e)

pub never :
    (topic : String) (schema : Option String) (n j : ℕ) → some n ≡ none → ltb j (suc n) ≡ ltb j n
never topic schema n j e = ground (arith, e)

-- Ids in order.
abbrev pub counter : ChannelRegistry ℕ
counter = record {
  create = λ topic schema n. (some n, suc n);
  used = λ n id. ltb id n;
  create_unused = unused;
  used-create = used;
  used-create_failed = never;
}

pub record Param : Type 0 where
  pub name : String
  pub type : ParameterType
  pub value : Option (Value ℤ)

abbrev pub plain : String → Value ℤ → Param
plain name v = record { name = name; type = no_type; value = some v }

abbrev pub params : ParameterClass ℤ Param
params = record {
  of_bool = λ n b. plain n (bool_value b);
  of_integer = λ n i. plain n (integer_value i);
  of_double = λ n d. plain n (float_value d);
  of_string = λ n s. plain n (string_value s);
  of_value = λ n t v. record { name = n; type = t; value = some v };
  name = λ p. p.name;
  type = λ p. p.type;
  value = λ p. p.value;
  name-of_bool = λ n b. refl;
  name-of_integer = λ n i. refl;
  name-of_double = λ n d. refl;
  name-of_string = λ n s. refl;
  name-of_value = λ n t v. refl;
}

abbrev pub all_names : List String
all_names = ".*" ∷ []

abbrev pub describes : String → Bool
describes datatype = not (datatype == "Unknown")

-- Two channels, the second without a schema, and a client of the first.
abbrev pub chatter : Channel
chatter = record { id = 0; topic = "/chatter"; schema = some "std_msgs/String" }

abbrev pub tf : Channel
tf = record { id = 1; topic = "/tf"; schema = none }

abbrev pub first : ChannelSubscription
first = record {
  ros_topic = "/chatter";
  ws_client_ids = 7 ∷ [];
  gateway_client_ids = [];
  latched_messages = [];
}

abbrev pub channels : ChannelState
channels = record {
  latched_channels = [];
  channels = (0, chatter) ∷ (1, tf) ∷ [];
  subscriptions = (0, first) ∷ [];
}

channels-IsConsistent : IsConsistent channels
unfolding lookup
channels-IsConsistent = record {
  keyed = λ k ch e. ground (arith, e);
  backed = λ k sub e. ground (arith, e);
  on_topic = λ k sub ch e f. ground (arith, e, f);
  wanted = λ k sub e. ground (arith, e);
  cached = λ k e. ground (arith, e);
}

pub channels-IsRegistered : IsRegistered counter channels 2
unfolding lookup
channels-IsRegistered = record {
  consistent = channels-IsConsistent;
  keyed = (refl, (refl, tt));
  once = refl;
  known = λ k e. ground (arith, e);
}
