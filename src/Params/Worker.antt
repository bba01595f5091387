-- ===== src/Params/Worker.antt =====
-- The parameter operations of src/transport_manager.cpp: `enqueueParameterOp`,
-- `parameterWorkerLoop`, the four handlers, and the queue's part of `stop`. The backend stands as
-- an interface over a state of its own; a responder is its number, and what is sent through it is
-- recorded.
pub mod Refcount
pub mod Answers
pub mod InSync
use foxglove_bridge_ros.Prelude.{
  ℕ, ◌+◌, ◌-◌, String, Bool, true, false, ◌&&◌, Option, none, some, List, [], ◌∷◌, ◌++◌, map,
  lookup, assign, remove, or_else, if◌then◌else◌, is_empty, ◌==◌, nat_eq, string_eq,
}

-- `ParameterBackend`: each call takes and gives the backend's state; `none` and `false` stand for
-- an exception.
pub record ParameterBackend (S P : Type 0) : Type 0 where
  pub get_params : List String → S → S × Option (List P)
  pub set_params : List P → S → S × Bool
  pub subscribe_params : List String → S → S × Bool
  pub unsubscribe_params : List String → S → S × Bool

-- The variant `ParameterOp`.
pub data ParameterOp (P : Type 0) : Type 0 where
  get_op : List String → ℕ → ParameterOp P
  set_op : List P → ℕ → ParameterOp P
  subscribe_op : List String → ParameterOp P
  unsubscribe_op : List String → ParameterOp P

-- A responder is used, or destroyed unused, which sends an error status.
pub data Answer (P : Type 0) : Type 0 where
  responded : ℕ → List P → Answer P
  dropped : ℕ → Answer P

abbrev pub Counts : Type 0
Counts = List (String × ℕ)

pub record Manager (S P : Type 0) : Type 0 where
  pub backend : S
  pub op_queue : List (ParameterOp P)
  pub op_shutdown : Bool
  pub subscriber_count : Counts
  pub worker_alive : Bool
  pub stopped : Bool
  pub answers : List (Answer P)

abbrev pub count_of : String → Counts → ℕ
count_of name counts = or_else (lookup name counts) 0

-- The loop of `handleSubscribeParams`: `++count[name] == 1` picks what is forwarded.
unfoldable pub count_up : List String → Counts → Counts × List String
count_up [] counts = (counts, [])
count_up (name ∷ names) counts =
    let n = count_of name counts + 1 in
    let (counts', forward) = count_up names (assign name n counts) in
    (counts', if n == 1 then name ∷ forward else forward)

-- One round of the loop of `handleUnsubscribeParams`: the new counts, and whether the name is
-- forwarded. An untracked name is skipped.
unfoldable pub release_one : String → Counts → Counts × Bool
release_one name counts = elim (lookup name counts) [
  | none ↦ (counts, false)
  | some n ↦ if n - 1 == 0 then (remove name counts, true) else (assign name (n - 1) counts, false)
]

unfoldable pub count_down : List String → Counts → Counts × List String
unfolding release_one
count_down [] counts = (counts, [])
count_down (name ∷ names) counts =
    let (counts₁, zeroed) = release_one name counts in
    let (counts₂, forward) = count_down names counts₁ in
    (counts₂, if zeroed then name ∷ forward else forward)

-- Destroying an operation destroys the responder that it owns.
unfoldable pub drop_op : {P : Type 0} → ParameterOp P → List (Answer P)
drop_op (get_op names r) = dropped r ∷ []
drop_op (set_op params r) = dropped r ∷ []
drop_op (subscribe_op names) = []
drop_op (unsubscribe_op names) = []

unfoldable pub drop_all : {P : Type 0} → List (ParameterOp P) → List (Answer P)
unfolding drop_op
drop_all [] = []
drop_all (op ∷ ops) = drop_op op ++ drop_all ops

module _ {S P : Type 0} where
  abbrev pub answer : Manager S P → Answer P → Manager S P
  answer m a = record m { answers = m.answers ++ a ∷ [] }

  unfoldable pub enqueue_parameter_op : Manager S P → ParameterOp P → Manager S P
  enqueue_parameter_op m op =
      if m.op_shutdown
      then record m { answers = m.answers ++ drop_op op }
      else record m { op_queue = m.op_queue ++ op ∷ [] }

  -- `stop`, as far as the parameter worker goes: the queue is swapped out and destroyed, and the
  -- worker is joined.
  unfoldable pub stop : Manager S P → Manager S P
  stop m =
      let drained = record m {
        stopped = true;
        op_shutdown = true;
        op_queue = [];
        worker_alive = false;
        answers = m.answers ++ drop_all m.op_queue;
      } in
      if m.stopped then m else if m.worker_alive then drained else record m { stopped = true }

module _ {S P : Type 0} (param_name : P → String) (api : ParameterBackend S P) where
  unfoldable pub handle_get_params : Manager S P → List String → ℕ → Manager S P
  handle_get_params m names responder =
      let (backend, values) = api.get_params names m.backend in
      let m₁ = record m { backend = backend } in
      elim values [
        | none ↦ answer m₁ (dropped responder)
        | some v ↦ answer m₁ (responded responder v)
      ]

  unfoldable pub handle_set_params : Manager S P → List P → ℕ → Manager S P
  unfolding handle_get_params
  handle_set_params m [] responder = answer m (responded responder [])
  handle_set_params m (p ∷ params) responder =
      let (backend, returned) = api.set_params (p ∷ params) m.backend in
      let m₁ = record m { backend = backend } in
      if returned
      then handle_get_params m₁ (map param_name (p ∷ params)) responder
      else answer m₁ (dropped responder)

  unfoldable pub handle_subscribe_params : Manager S P → List String → Manager S P
  handle_subscribe_params m names =
      let (counts, forward) = count_up names m.subscriber_count in
      let m₁ = record m { subscriber_count = counts } in
      if is_empty forward
      then m₁
      else record m₁ { backend = (api.subscribe_params forward m.backend).0 }

  unfoldable pub handle_unsubscribe_params : Manager S P → List String → Manager S P
  handle_unsubscribe_params m names =
      let (counts, forward) = count_down names m.subscriber_count in
      let m₁ = record m { subscriber_count = counts } in
      if is_empty forward
      then m₁
      else record m₁ { backend = (api.unsubscribe_params forward m.backend).0 }

  -- `std::visit` over the operation.
  unfoldable pub handle : Manager S P → ParameterOp P → Manager S P
  unfolding handle_get_params handle_set_params handle_subscribe_params handle_unsubscribe_params
  handle m (get_op names r) = handle_get_params m names r
  handle m (set_op params r) = handle_set_params m params r
  handle m (subscribe_op names) = handle_subscribe_params m names
  handle m (unsubscribe_op names) = handle_unsubscribe_params m names

  -- One round of the worker's loop, woken with `queue`: it handles the front, returns after a
  -- shutdown, and otherwise waits on.
  unfoldable pub serve_front : Manager S P → List (ParameterOp P) → Manager S P
  serve_front m [] = if m.op_shutdown then record m { worker_alive = false } else m
  serve_front m (op ∷ ops) = handle (record m { op_queue = ops }) op

  unfoldable pub worker_step : Manager S P → Manager S P
  unfolding serve_front
  worker_step m = if m.worker_alive then serve_front m m.op_queue else m
