-- ===== src/Params/Interface.antt =====
-- `Ros1ParameterInterface` of src/param_interface.cpp. The ROS master is an interface over a
-- state of its own; `perform` is a call that may change it.
pub mod Guard
pub mod Lifecycle
use foxglove_bridge_ros.Prelude.{
  ℕ, String, Bool, true, false, not, ◌&&◌, Option, none, some, List, [], ◌∷◌, ◌++◌, insert, erase,
  if◌then◌else◌, is_empty, string_eq,
}
use Prim.Native.String.{◌++◌ as join}
use text.Mathlib.Text.{starts_with}
use foxglove_bridge_ros.Prelude.Int.{ℤ}
use foxglove_bridge_ros.Utils.{RegexEngine, matches_regex}
use foxglove_bridge_ros.Params.Values.{
  RosValue, RosItems, ParameterClass, Value, nil, cons, string, to_ros_param, from_ros_param,
}

-- The calls to the master that change something there. `executeParamSubscription` resolves the
-- name that it sends; the calls that set and delete pass it to roscpp as it is.
pub data MasterCall (D : Type 0) : Type 0 where
  set_param : String → RosValue D → MasterCall D
  delete_param : String → MasterCall D
  subscribe_param : String → MasterCall D
  unsubscribe_param : String → MasterCall D

abbrev pub target : {D : Type 0} → MasterCall D → String
target (set_param name v) = name
target (delete_param name) = name
target (subscribe_param name) = name
target (unsubscribe_param name) = name

-- A call succeeds, is refused, or throws, as `ros::names::resolve` does on an invalid name.
pub data Outcome : Type 0 where
  succeeded refused threw : Outcome

pub data Reading (D : Type 0) : Type 0 where
  found : RosValue D → Reading D
  unset : Reading D
  failed : Reading D

pub record Master (W D : Type 0) : Type 0 where
  pub param_names : W → Option (List String)
  pub get_param : String → W → Reading D
  pub perform : MasterCall D → W → W × Outcome
  pub clean : String → String
  -- `ros::names::resolve`, where it does not throw.
  pub resolve : String → String

pub record ParamInterface (W : Type 0) : Type 0 where
  pub world : W
  pub shut_down : Bool
  pub subscribed_params : List String
  pub has_update_func : Bool
  pub server_running : Bool

-- `_ownNamespacePrefix`.
unfoldable pub own_namespace_prefix : String → String
own_namespace_prefix node_name = join node_name "/"

-- `name.compare(0, prefix.size(), prefix) == 0`.
unfoldable pub is_own_parameter : String → String → Bool
unfolding own_namespace_prefix
is_own_parameter node_name name = starts_with name (own_namespace_prefix node_name)

module _ (engine : RegexEngine String) (node_name : String) (whitelist : List engine.Regex) where
  -- The two tests that `getParams`, `setParams` and `subscribeParams` make of a name.
  unfoldable pub admits : String → Bool
  admits name =
      if is_own_parameter node_name name then false else matches_regex engine name whitelist

  module _ {W D P : Type 0} (class : ParameterClass D P) (master : Master W D)
      (of_int : ℤ → D) where
    unfoldable pub converted : String → Reading D → Option P
    converted name (found v) = from_ros_param class name v
    converted name unset = none
    converted name failed = none

    abbrev pub read_one : W → String → Option P
    read_one w name = converted name (master.get_param name w)

    -- The loop of `getParams`.
    unfoldable pub read_all : W → List String → List P
    read_all w [] = []
    read_all w (name ∷ names) =
        let rest = read_all w names in
        if admits name then elim (read_one w name) [ none ↦ rest | some p ↦ p ∷ rest ] else rest

    unfoldable pub get_params : W → List String → Option (List P)
    unfolding read_all
    get_params w [] = elim (master.param_names w) [
      | none ↦ none
      | some names ↦ some (read_all w names)
    ]
    get_params w (name ∷ names) = some (read_all w (name ∷ names))

    -- The body of the loop of `setParams`, for an admitted name: no value deletes, and a value
    -- that cannot be converted changes nothing.
    unfoldable pub set_converted : String → Option (RosValue D) → W → W
    set_converted name none w = w
    set_converted name (some r) w = (master.perform (set_param name r) w).0

    unfoldable pub set_value : P → Option (Value D) → W → W
    unfolding set_converted
    set_value p none w = (master.perform (delete_param (class.name p)) w).0
    set_value p (some v) w = set_converted (class.name p) (to_ros_param of_int (class.type p) 0 v) w

    abbrev pub set_one : P → W → W
    set_one p w = set_value p (class.value p) w

    unfoldable pub set_params : List P → W → W
    unfolding set_value
    set_params [] w = w
    set_params (p ∷ params) w = set_params params (if admits (class.name p) then set_one p w else w)

    -- The master is told the resolved name.
    abbrev pub execute_param_subscription : (String → MasterCall D) → String → W → W × Outcome
    execute_param_subscription op name w = master.perform (op (master.resolve name)) w

    -- One round of the loop of `subscribeParams`; `false` is an exception.
    unfoldable pub subscribe_one : String → ParamInterface W → ParamInterface W × Bool
    subscribe_one name i =
        let (w, outcome) = execute_param_subscription subscribe_param name i.world in
        elim outcome [
          | succeeded ↦
              (record i { world = w; subscribed_params = insert name i.subscribed_params }, true)
          | refused ↦ (record i { world = w }, true)
          | threw ↦ (record i { world = w }, false)
        ]

    unfoldable pub subscribe_all : List String → ParamInterface W → ParamInterface W × Bool
    unfolding subscribe_one
    subscribe_all [] i = (i, true)
    subscribe_all (name ∷ names) i =
        let (i', going) = if admits name then subscribe_one name i else (i, true) in
        let rest = subscribe_all names i' in if going then rest else (i', false)

    unfoldable pub subscribe_params : List String → ParamInterface W → ParamInterface W × Bool
    unfolding subscribe_all
    subscribe_params names i = if i.shut_down then (i, true) else subscribe_all names i

    unfoldable pub unsubscribe_one : String → ParamInterface W → ParamInterface W × Bool
    unsubscribe_one name i =
        let (w, outcome) = execute_param_subscription unsubscribe_param name i.world in
        elim outcome [
          | succeeded ↦
              (record i { world = w; subscribed_params = erase name i.subscribed_params }, true)
          | refused ↦ (record i { world = w }, true)
          | threw ↦ (record i { world = w }, false)
        ]

    unfoldable pub unsubscribe_params : List String → ParamInterface W → ParamInterface W × Bool
    unfolding unsubscribe_one
    unsubscribe_params [] i = (i, true)
    unsubscribe_params (name ∷ names) i =
        let (i', going) = unsubscribe_one name i in
        let rest = unsubscribe_params names i' in if going then rest else (i', false)

    -- The loop of `shutdown` over the swapped-out set.
    unfoldable pub drop_registrations : List String → W → W
    drop_registrations [] w = w
    drop_registrations (name ∷ names) w =
        drop_registrations names (execute_param_subscription unsubscribe_param name w).0

    unfoldable pub shutdown : ParamInterface W → ParamInterface W
    unfolding drop_registrations
    shutdown i =
        let closed = record i {
          world = drop_registrations i.subscribed_params i.world;
          shut_down = true;
          subscribed_params = [];
          server_running = false;
        } in
        if i.shut_down then i else closed

    -- `parameterUpdates`: what the update callback is called with, if it is called. The arguments
    -- are the caller, the name and the value; any other number is refused.
    unfoldable pub parameter_updates : ParamInterface W → RosItems D → Option P
    parameter_updates i (cons caller (cons (string name) (cons v nil))) =
        if i.has_update_func then from_ros_param class (master.clean name) v else none
    parameter_updates i params = none
