-- ===== src/Locks/Bridge/Deadlock.antt =====
-- The threads of the bridge never block each other for good.
use foxglove_bridge_ros.Prelude.{ℕ, suc, ◌≡◌, Bool, List, [], ◌∷◌, map, All, if◌then◌else◌, arith}
use foxglove_bridge_ros.Locks.{
  client_advertisements_mutex, latched_channels_mutex, pending_service_calls_mutex,
  pending_call_mutex, poll_mutex, param_op_mutex, param_interface_mutex, Thread, run, work,
}
use foxglove_bridge_ros.Locks.Ordered.{
  Nests, guarded, nothing-Nests, append-Nests, lower-Nests, guarded-Nests, Nests-Ordered,
}
use foxglove_bridge_ros.Locks.Progress.{TaskFits, AllFit}
use foxglove_bridge_ros.Locks.Finishes.{run-finishes}
use foxglove_bridge_ros.Locks.Bridge.{
  each, Calls, Operation, on_subscribe, on_unsubscribe, ros_message_handler,
  update_advertised_topics, update_advertised_services, classify_remote_access_qos,
  on_client_advertise, on_client_unadvertise, on_client_message, on_connection_graph_subscribe,
  handle_service_request, worker_returns, sweep_expired_service_calls, poll_wait, stop_poll,
  enqueue_parameter_op, worker_takes_op, stop_worker, subscribe_params, unsubscribe_params,
  parameter_updates, shutdown_interface, locks_of,
}
use foxglove_bridge_ros.Locks.Bridge.Ending.{Job, does, waits_for, task_of, WaitsBelow}
use foxglove_bridge_ros.Locks.Bridge.Ranks.{
  CallsNest, touch, each-Nests, if-Nests, services_locks-Nests, unsubscribe_locks-Nests,
  subscribe_locks-Nests, message_locks-Nests, topics_locks-Nests, advertise_locks-Nests,
  handling_locks-Nests,
}

-- A thread that is about to do its jobs, and holds nothing.
abbrev pub thread_of : Calls → List Job → Thread
thread_of calls jobs = record { held = []; current = []; later = map (task_of calls) jobs }

-- Each thread waits only for threads that stand before it, counted from this number.
abbrev pub WaitsForEarlier : ℕ → List (List Job) → Type 0
WaitsForEarlier n [] = Unit
WaitsForEarlier n (jobs ∷ threads) = All (WaitsBelow n) jobs × WaitsForEarlier (suc n) threads

registers-Nests :
    (oks : List Bool)
    → Nests 0 (each (λ ok. if ok then guarded param_interface_mutex [] else []) oks)
registers-Nests oks =
    each-Nests 0 _ oks
      (λ ok. if-Nests 0 ok _ _ (touch 0 param_interface_mutex (omega arith)) (nothing-Nests 0))

module _ (calls : Calls) (nest : CallsNest calls) where
  locks_of-Nests : (op : Operation) → Nests 0 (locks_of calls op)
  unfolding locks_of
  locks_of-Nests (on_subscribe how) = nest.fire-Nests _ (subscribe_locks-Nests calls nest how)
  locks_of-Nests (on_unsubscribe how) = nest.fire-Nests _ (unsubscribe_locks-Nests calls nest how)
  locks_of-Nests (ros_message_handler i how) =
      nest.deliver-Nests i _ (message_locks-Nests calls nest how)
  locks_of-Nests (update_advertised_topics removed created) =
      topics_locks-Nests calls nest removed created
  locks_of-Nests (update_advertised_services gone found) = services_locks-Nests gone found
  locks_of-Nests (classify_remote_access_qos listed) =
      nest.classify-Nests _
        (if-Nests 5 listed _ _ (nothing-Nests 5) (touch 5 latched_channels_mutex (omega arith)))
  locks_of-Nests (on_client_advertise how) =
      nest.fire-Nests _ (advertise_locks-Nests calls nest how)
  locks_of-Nests (on_client_unadvertise was_there) = nest.fire-Nests _ (
      guarded-Nests 1 client_advertisements_mutex _ (omega arith)
        (if-Nests 2 was_there _ _ nest.end_publisher-Nests (nothing-Nests 2)))
  locks_of-Nests on_client_message =
      nest.fire-Nests _ (touch 1 client_advertisements_mutex (omega arith))
  locks_of-Nests (on_connection_graph_subscribe subscribes) =
      nest.fire-Nests _
        (if-Nests 1 subscribes _ _ (touch 1 poll_mutex (omega arith)) (nothing-Nests 1))
  locks_of-Nests (handle_service_request how) =
      nest.fire-Nests _ (handling_locks-Nests calls nest how)
  locks_of-Nests (worker_returns call) =
      append-Nests 0 _ _ (touch 0 (pending_call_mutex call) (omega arith))
        (lower-Nests 0 8 _ (omega arith) nest.respond-Nests)
  locks_of-Nests (sweep_expired_service_calls pending expired) =
      append-Nests 0 _ _
        (guarded-Nests 0 pending_service_calls_mutex _ (omega arith)
          (each-Nests 9 _ pending (λ call. touch 9 (pending_call_mutex call) (omega arith))))
        (each-Nests 0 _ expired (λ call.
          append-Nests 0 _ _ (touch 0 (pending_call_mutex call) (omega arith))
            (lower-Nests 0 8 _ (omega arith) nest.respond-Nests)))
  locks_of-Nests poll_wait = touch 0 poll_mutex (omega arith)
  locks_of-Nests stop_poll = touch 0 poll_mutex (omega arith)
  locks_of-Nests enqueue_parameter_op = nest.fire-Nests _ (touch 1 param_op_mutex (omega arith))
  locks_of-Nests worker_takes_op = touch 0 param_op_mutex (omega arith)
  locks_of-Nests stop_worker = touch 0 param_op_mutex (omega arith)
  locks_of-Nests (subscribe_params registered) =
      append-Nests 0 _ _ (touch 0 param_interface_mutex (omega arith)) (registers-Nests registered)
  locks_of-Nests (unsubscribe_params dropped) = registers-Nests dropped
  locks_of-Nests parameter_updates = touch 0 param_interface_mutex (omega arith)
  locks_of-Nests shutdown_interface = touch 0 param_interface_mutex (omega arith)

  jobs-Fit :
      (n : ℕ) (jobs : List Job)
      → All (WaitsBelow n) jobs
      → All (TaskFits n) (map (task_of calls) jobs)
  jobs-Fit n [] below = tt
  jobs-Fit n (does op ∷ jobs) below =
      (Nests-Ordered 0 (locks_of calls op) (locks_of-Nests op), jobs-Fit n jobs below.1)
  jobs-Fit n (waits_for i ∷ jobs) below = (below.0, jobs-Fit n jobs below.1)

  threads-Fit :
      (n : ℕ) (threads : List (List Job))
      → WaitsForEarlier n threads
      → AllFit n (map (thread_of calls) threads)
  threads-Fit n [] earlier = tt
  threads-Fit n (jobs ∷ threads) earlier =
      ((tt, jobs-Fit n jobs earlier.0), threads-Fit (suc n) threads earlier.1)

  -- If the SDK and roscpp take their mutexes as the bridge relies on, and no thread waits for the
  -- end of a thread that stands after it: whatever operations the threads of the bridge do, on
  -- whatever branches, and however they have been scheduled so far, they are not in a deadlock, as
  -- there is a schedule in which all of them finish.
  pub operations_finish :
      (threads : List (List Job)) (schedule : List ℕ)
      → WaitsForEarlier 0 threads
      → (more : List ℕ) × (work (run more (run schedule (map (thread_of calls) threads))) ≡ 0)
  operations_finish threads schedule earlier =
      run-finishes (map (thread_of calls) threads) schedule (threads-Fit 0 threads earlier)
