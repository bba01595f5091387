-- ===== src/Locks/Bridge/Ending.antt =====
-- What a thread of the bridge does: operations, and waiting for other threads between them, as in
-- the end of the bridge (`~Ros1FoxgloveBridge` of src/ros1_foxglove_bridge.cpp, with
-- `Ros1ParameterInterface::shutdown` and `TransportManager::stop`).
use foxglove_bridge_ros.Prelude.{
  ℕ, ◌<◌, Bool, if◌then◌else◌, Option, none, some, List, [], ◌∷◌, ◌++◌, map,
}
use foxglove_bridge_ros.Locks.{Task, critical, awaits}
use foxglove_bridge_ros.Locks.Bridge.{
  Calls, Operation, stop_poll, stop_worker, shutdown_interface, locks_of,
}

pub data Job : Type 0 where
  does : Operation → Job
  waits_for : ℕ → Job

abbrev pub task_of : Calls → Job → Task
task_of calls (does op) = critical (locks_of calls op)
task_of calls (waits_for i) = awaits i

-- The parameter interface at the end of the bridge, with the number of the thread of its XML-RPC
-- server.
pub data Interface : Type 0 where
  not_used already_shut : Interface
  serving : ℕ → Interface

-- The threads that the end of the bridge finds: the poll thread, the XML-RPC server, those that
-- the SDK waits for where the publisher of system information, the gateway and the server are
-- stopped, unless the transports were stopped before, and the parameter worker.
pub record Alive : Type 0 where
  pub poll_thread : Option ℕ
  pub interface : Interface
  pub stopped : Bool
  pub sysinfo_threads : List ℕ
  pub gateway_threads : List ℕ
  pub server_threads : List ℕ
  pub param_worker : Option ℕ

unfoldable pub shutdown_jobs : Interface → List Job
shutdown_jobs not_used = []
shutdown_jobs already_shut = does shutdown_interface ∷ []
shutdown_jobs (serving xmlrpc) = does shutdown_interface ∷ waits_for xmlrpc ∷ []

unfoldable pub worker_jobs : Option ℕ → List Job
worker_jobs none = []
worker_jobs (some worker) = does stop_worker ∷ waits_for worker ∷ []

unfoldable pub stop_jobs : Alive → List Job
unfolding worker_jobs
stop_jobs alive =
    if alive.stopped
    then []
    else map waits_for alive.sysinfo_threads
      ++ map waits_for alive.gateway_threads
      ++ map waits_for alive.server_threads
      ++ worker_jobs alive.param_worker

abbrev pub join_poll : Option ℕ → List Job
join_poll none = []
join_poll (some thread) = waits_for thread ∷ []

unfoldable pub destroy_jobs : Alive → List Job
unfolding shutdown_jobs stop_jobs
destroy_jobs alive =
    does stop_poll ∷ join_poll alive.poll_thread ++ shutdown_jobs alive.interface ++ stop_jobs alive

-- The job waits for a thread of a lower number than this, if for any.
abbrev pub WaitsBelow : ℕ → Job → Type 0
WaitsBelow n (does op) = Unit
WaitsBelow n (waits_for i) = i < n
