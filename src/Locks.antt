-- ===== src/Locks.antt =====
-- Threads that take and give back mutexes: the ones of `Ros1FoxgloveBridge` and, where its calls
-- reach them, those of the SDK and of roscpp (include/foxglove_bridge/ros1_foxglove_bridge.hpp).
pub mod Ordered
pub mod Progress
pub mod Finishes
pub mod Bridge
use foxglove_bridge_ros.Prelude.{
  ℕ, zero, suc, ◌+◌, Bool, true, false, ◌&&◌, Option, none, some, List, [], ◌∷◌, any, length,
  if◌then◌else◌, nat_beq,
}

-- The mutexes, in the order in which a thread may take them; the number tells apart the mutexes of
-- the running callbacks of a subscription, and of the pending service calls.
pub data Lock : Type 0 where
  gateway_subscriptions client_advertisements_mutex : Lock
  running_callback : ℕ → Lock
  subscriptions_mutex channel_registry latched_channels_mutex description_provider_mutex : Lock
  services_mutex pending_service_calls_mutex : Lock
  pending_call_mutex : ℕ → Lock
  poll_mutex param_op_mutex param_interface_mutex : Lock

abbrev pub rank : Lock → ℕ
rank gateway_subscriptions = 1
rank client_advertisements_mutex = 2
rank (running_callback i) = 3
rank subscriptions_mutex = 4
rank channel_registry = 5
rank latched_channels_mutex = 6
rank description_provider_mutex = 7
rank services_mutex = 8
rank pending_service_calls_mutex = 9
rank (pending_call_mutex i) = 10
rank poll_mutex = 11
rank param_op_mutex = 12
rank param_interface_mutex = 13

abbrev pub which : Lock → ℕ
which (running_callback i) = i
which (pending_call_mutex i) = i
which _ = 0

abbrev pub same : Lock → Lock → Bool
same a b = nat_beq (rank a) (rank b) && nat_beq (which a) (which b)

pub data Instruction : Type 0 where
  acquire release : Lock → Instruction

-- A thread does its operations one after the other, and may wait for the end of another thread
-- between them.
pub data Task : Type 0 where
  critical : List Instruction → Task
  awaits : ℕ → Task

-- What a thread holds, the newest first, what is left of its current operation, and what follows.
pub record Thread : Type 0 where
  pub held : List Lock
  pub current : List Instruction
  pub later : List Task

abbrev pub holds : Lock → Thread → Bool
holds l t = any (same l) t.held

abbrev pub unlock : Lock → List Lock → List Lock
unlock l [] = []
unlock l (h ∷ held) = let rest = unlock l held in if same l h then held else h ∷ rest

abbrev pub nothing_left : List Instruction → List Task → Bool
nothing_left [] [] = true
nothing_left [] (task ∷ later) = false
nothing_left (i ∷ current) later = false

abbrev pub is_done : Thread → Bool
is_done t = nothing_left t.current t.later

-- The thread of this number has ended, or was never started.
abbrev pub ended : ℕ → List Thread → Bool
ended i [] = true
ended zero (t ∷ threads) = is_done t
ended (suc i) (t ∷ threads) = ended i threads

-- A thread waits for a mutex that any thread holds, itself included, and for the threads that it
-- joins.
unfoldable pub next : List Thread → List Lock → List Instruction → List Task → Option Thread
next threads held [] [] = none
next threads held [] (critical p ∷ later) =
    some (record { held = held; current = p; later = later })
next threads held [] (awaits i ∷ later) =
    if ended i threads then some (record { held = held; current = []; later = later }) else none
next threads held (release l ∷ rest) later =
    some (record { held = unlock l held; current = rest; later = later })
next threads held (acquire l ∷ rest) later =
    if any (holds l) threads
    then none
    else some (record { held = l ∷ held; current = rest; later = later })

abbrev pub moved : Thread → Option Thread → Thread
moved t none = t
moved t (some t') = t'

-- The thread of this number takes one step, if it can.
unfoldable pub step_in : List Thread → ℕ → List Thread → List Thread
unfolding next
step_in all i [] = []
step_in all zero (t ∷ threads) = moved t (next all t.held t.current t.later) ∷ threads
step_in all (suc i) (t ∷ threads) = t ∷ step_in all i threads

abbrev pub step : ℕ → List Thread → List Thread
step i threads = step_in threads i threads

abbrev pub run : List ℕ → List Thread → List Thread
run [] threads = threads
run (i ∷ schedule) threads = run schedule (step i threads)

-- The steps that are left.
abbrev pub tasks_work : List Task → ℕ
tasks_work [] = 0
tasks_work (critical p ∷ later) = 1 + length p + tasks_work later
tasks_work (awaits i ∷ later) = 1 + tasks_work later

abbrev pub work : List Thread → ℕ
work [] = 0
work (t ∷ threads) = length t.current + tasks_work t.later + work threads
