-- ===== src/Tests/Parameters.antt =====
-- Parameter requests at concrete inputs.
use foxglove_bridge_ros.Prelude.{
  is_some, ℕ, suc, String, ◌≡◌, refl, true, false, some, List, [], ◌∷◌, All, contains, insert,
  erase, nat_eq, string_eq, contains-insert, contains-erase, arith, if◌then◌else◌,
}
use Prim.Native.String.{◌++◌ as join}
use text.Mathlib.Text.{starts_with}
use text.Mathlib.TextEquality.{eq_iff}
use foxglove_bridge_ros.Prelude.Int.{ℤ, pos}
use foxglove_bridge_ros.Params.Worker.{ParameterBackend, get_op, set_op, Manager, stop}
use foxglove_bridge_ros.Params.Worker.Answers.{
  IsWired, Action, enqueues, works, stops, run, answered, stop-answered,
}
use foxglove_bridge_ros.Params.Values.{
  RosValue, base64, int, array, invalid, nil, cons, Value, no_values, value, array_value,
  integer_value, value_from_ros_param, to_ros_param, no_type, from_ros_param,
}
use foxglove_bridge_ros.Params.Values.RoundTrip.{
  collapse, has_int32s, to_ros_param-value_from_ros_param,
}
use foxglove_bridge_ros.Params.Values.Depth.{supports, from_ros_param_array}
use foxglove_bridge_ros.Utils.{matches_regex}
use foxglove_bridge_ros.Params.Interface.{
  admits, is_own_parameter, converted, MasterCall, set_param, delete_param, subscribe_param,
  unsubscribe_param, Outcome, succeeded, found, Master, ParamInterface, subscribe_params,
  unsubscribe_params, subscribe_all, shutdown, get_params,
}
use foxglove_bridge_ros.Params.Interface.Guard.{
  IsShown, get_params-IsShown, get_params_own_namespace,
}
use foxglove_bridge_ros.Params.Interface.Lifecycle.{
  Registry, registers, Accounted, requests-Accounted, shutdown_unregisters,
  subscribe_all-after_shutdown,
}
use foxglove_bridge_ros.Tests.Samples.{engine, plain, params}

-- A backend that has one parameter, and counts the requests to subscribe.
abbrev backend : ParameterBackend ℕ String
backend = record {
  get_params = λ names n. (n, some names);
  set_params = λ ps n. (n, true);
  subscribe_params = λ names n. (suc n, true);
  unsubscribe_params = λ names n. (n, true);
}

abbrev pub idle : Manager ℕ String
idle = record {
  backend = 0;
  op_queue = [];
  op_shutdown = false;
  subscriber_count = [];
  worker_alive = true;
  stopped = false;
  answers = [];
}

idle-IsWired : IsWired idle
idle-IsWired = record { flags = refl; lives = λ _. refl; drained = λ e. absurd (ground (arith, e)) }

abbrev name_of : String → String
name_of p = p

-- One request is served, one waits at the shutdown, and one comes too late.
abbrev actions : List (Action String)
actions =
    enqueues (get_op ("/a" ∷ []) 1)
    ∷ works
    ∷ enqueues (set_op ("/b" ∷ []) 2)
    ∷ stops
    ∷ enqueues (get_op [] 3)
    ∷ works
    ∷ []

stop-answered_example : answered 2 (stop (run name_of backend idle actions)).answers ≡ 1
stop-answered_example = stop-answered name_of backend 2 idle actions idle-IsWired

-- An empty list next to a number.
abbrev mixed : RosValue ℤ
mixed = array (cons (array nil) (cons (int (pos 7)) nil))

abbrev view : Value ℤ
view = array_value (value (array_value no_values) (value (integer_value (pos 7)) no_values))

to_ros_param-value_from_ros_param_example :
    to_ros_param (λ i. i) no_type 0 view ≡ some (array (cons invalid (cons (int (pos 7)) nil)))
unfolding value_from_ros_param collapse has_int32s
to_ros_param-value_from_ros_param_example =
    to_ros_param-value_from_ros_param (λ i. i) 0 1 mixed view (ground arith) refl refl

from_ros_param_array_example :
    is_some (from_ros_param params "/a" (array (cons base64 nil))) ≡ false
unfolding supports
from_ros_param_array_example = from_ros_param_array params "/a" (cons base64 nil)

-- A master on which every parameter is 7; its state is the set of subscriptions.
abbrev pub perform : MasterCall ℤ → List String → List String × Outcome
perform (set_param name v) w = (w, succeeded)
perform (delete_param name) w = (w, succeeded)
perform (subscribe_param name) w = (insert name w, succeeded)
perform (unsubscribe_param name) w = (erase name w, succeeded)

abbrev pub master : Master (List String) ℤ
master = record {
  param_names = λ w. some ("/a" ∷ "/bridge/device_token" ∷ []);
  get_param = λ name w. found (int (pos 7));
  perform = perform;
  clean = λ name. name;
  resolve = λ name. if starts_with name "/" then name else join "/" name;
}

pub registered-perform :
    (c : MasterCall ℤ) (w : List String) (n : String)
    → contains n (perform c w).0 ≡ registers c (perform c w).1 n (contains n w)
registered-perform (set_param name v) w n = refl
registered-perform (delete_param name) w n = refl
registered-perform (subscribe_param name) w n = contains-insert name n w
registered-perform (unsubscribe_param name) w n = contains-erase name n w

abbrev pub registry : Registry (List String) ℤ master
registry = record { registered = λ w n. contains n w; registered-perform = registered-perform }

abbrev pub all_names : List String
all_names = ".*" ∷ []

abbrev pub of_int : ℤ → ℤ
of_int i = i

abbrev subscribed : ParamInterface (List String)
subscribed = record {
  world = "/a" ∷ [];
  shut_down = false;
  subscribed_params = "/a" ∷ [];
  has_update_func = true;
  server_running = true;
}

only_one : (n : String) → contains n ("/a" ∷ []) ≡ true → "/a" ≡ n
only_one n e = (eq_iff "/a" n).0 (ground (arith, e))

subscribed-Accounted : Accounted engine "/bridge" all_names params master of_int registry subscribed
unfolding Accounted
subscribed-Accounted n held = ("/a", refl, only_one n held)

requests-Accounted_example :
    Accounted engine "/bridge" all_names params master of_int registry
      (subscribe_params engine "/bridge" all_names params master of_int
        ("/b" ∷ "/bridge/x" ∷ [])
        subscribed).0
    × Accounted engine "/bridge" all_names params master of_int registry
        (unsubscribe_params engine "/bridge" all_names params master of_int
          ("/b" ∷ "/bridge/x" ∷ [])
          subscribed).0
requests-Accounted_example =
    requests-Accounted engine "/bridge" all_names params master of_int registry
      ("/b" ∷ "/bridge/x" ∷ []) subscribed subscribed-Accounted

unsubscribe_works : (n : String) (w : List String) → (perform (unsubscribe_param n) w).1 ≡ succeeded
unsubscribe_works n w = refl

abbrev down : ParamInterface (List String)
down = shutdown engine "/bridge" all_names params master of_int subscribed

shutdown_unregisters_example :
    contains "/a"
      (unsubscribe_params engine "/bridge" all_names params master of_int
        ("/a" ∷ [])
        (subscribe_params engine "/bridge" all_names params master of_int
          ("/a" ∷ [])
          down).0).0.world
    ≡ false
shutdown_unregisters_example =
    shutdown_unregisters engine "/bridge" all_names params master of_int registry unsubscribe_works
      subscribed ("/a" ∷ []) ("/a" ∷ []) "/a" subscribed-Accounted refl

subscribe_all-after_shutdown_example :
    contains "/b"
      (shutdown engine "/bridge" all_names params master of_int
        (subscribe_all engine "/bridge" all_names params master of_int ("/b" ∷ []) down).0).world
    ≡ true
unfolding admits is_own_parameter matches_regex
subscribe_all-after_shutdown_example =
    subscribe_all-after_shutdown engine "/bridge" all_names params master of_int registry subscribed
      "/b" refl refl

get_params-IsShown_example :
    All (λ p. IsShown engine "/bridge" all_names p.name) (plain "/a" (integer_value (pos 7)) ∷ [])
unfolding get_params admits is_own_parameter matches_regex converted from_ros_param
get_params-IsShown_example =
    get_params-IsShown engine "/bridge" all_names params master of_int [] []
      (plain "/a" (integer_value (pos 7)) ∷ []) refl

get_params_own_namespace_example :
    get_params engine "/bridge" all_names params master of_int [] ("/bridge" ∷ [])
    ≡ some (plain "/bridge" (integer_value (pos 7)) ∷ [])
unfolding matches_regex from_ros_param
get_params_own_namespace_example =
    get_params_own_namespace engine "/bridge" all_names params master of_int [] (int (pos 7))
      (plain "/bridge" (integer_value (pos 7))) refl refl refl
