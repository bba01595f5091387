-- ===== src/Tests/Locking.antt =====
-- Threads that take mutexes, at concrete calls of the SDK.
use foxglove_bridge_ros.Prelude.{ℕ, ◌≡◌, true, false, List, [], ◌∷◌, map, some, All, arith}
use foxglove_bridge_ros.Locks.{gateway_subscriptions, running_callback, channel_registry, run, work}
use foxglove_bridge_ros.Locks.Ordered.{Nests, guarded, nothing-Nests, append-Nests, guarded-Nests}
use foxglove_bridge_ros.Locks.Bridge.{
  Program, each, Calls, joins, last_client, from_latched, accepted, on_subscribe, on_unsubscribe,
  ros_message_handler, update_advertised_topics, on_client_advertise, classify_remote_access_qos,
  poll_wait, parameter_updates, worker_takes_op, subscribe_params,
}
use foxglove_bridge_ros.Locks.Bridge.Ending.{WaitsBelow, Job, does, serving, destroy_jobs}
use foxglove_bridge_ros.Locks.Bridge.Ranks.{CallsNest}
use foxglove_bridge_ros.Locks.Bridge.Deadlock.{WaitsForEarlier, thread_of, operations_finish}

-- The gateway closes a channel, and fires requests, under its own mutex.
abbrev calls : Calls
calls = record {
  log = guarded channel_registry [];
  create_channel = guarded channel_registry [];
  subscribe = [];
  advertise = [];
  end_publisher = [];
  respond = [];
  close = λ fired. guarded gateway_subscriptions (each (λ p. p) fired);
  end_subscriber = λ i. guarded (running_callback i) [];
  deliver = λ i p. guarded (running_callback i) p;
  fire = λ p. guarded gateway_subscriptions p;
  classify = λ p. guarded channel_registry p;
}

flat-Nests : (r : ℕ) (ps : List Program) → All (Nests r) ps → Nests r (each (λ p. p) ps)
flat-Nests r [] a = nothing-Nests r
flat-Nests r (p ∷ ps) a = append-Nests r p _ a.0 (flat-Nests r ps a.1)

calls_nest : CallsNest calls
calls_nest = record {
  log-Nests = guarded-Nests 4 channel_registry [] (omega arith) (nothing-Nests 5);
  create-Nests = guarded-Nests 4 channel_registry [] (omega arith) (nothing-Nests 5);
  subscribe-Nests = nothing-Nests 4;
  advertise-Nests = nothing-Nests 2;
  end_publisher-Nests = nothing-Nests 2;
  respond-Nests = nothing-Nests 8;
  end-Nests = λ i. guarded-Nests 1 (running_callback i) [] (omega arith) (nothing-Nests 3);
  close-Nests =
      λ fired a. guarded-Nests 0 gateway_subscriptions _ (omega arith) (flat-Nests 1 fired a);
  deliver-Nests = λ i p n. guarded-Nests 0 (running_callback i) p (omega arith) n;
  fire-Nests = λ p n. guarded-Nests 0 gateway_subscriptions p (omega arith) n;
  classify-Nests = λ p n. guarded-Nests 0 channel_registry p (omega arith) n;
}

abbrev ending : List Job
ending = destroy_jobs (record {
  poll_thread = some 0;
  interface = serving 4;
  stopped = false;
  sysinfo_threads = [];
  gateway_threads = 3 ∷ [];
  server_threads = 1 ∷ [];
  param_worker = some 5;
})

-- A poll that removes a channel while a client leaves it, a message comes, another joins and the
-- parameter server tells of a change; the bridge ends meanwhile, and waits for all of them.
abbrev threads : List (List Job)
threads =
    (does (
        update_advertised_topics (record { subscription = some 7; fires = last_client 7 ∷ [] } ∷ [])
          (true ∷ []))
      ∷ does poll_wait
      ∷ [])
    ∷ (does (on_unsubscribe (last_client 7)) ∷ does (on_subscribe (joins (1 ∷ 2 ∷ []))) ∷ [])
    ∷ (does (ros_message_handler 7 from_latched) ∷ [])
    ∷ (does (on_client_advertise accepted) ∷ does (classify_remote_access_qos false) ∷ [])
    ∷ (does parameter_updates ∷ [])
    ∷ (does worker_takes_op ∷ does (subscribe_params (true ∷ [])) ∷ [])
    ∷ ending
    ∷ []

abbrev so_far : List ℕ
so_far = 0 ∷ 1 ∷ 6 ∷ 2 ∷ 0 ∷ 6 ∷ 1 ∷ 2 ∷ []

ending-waits_for_earlier : All (WaitsBelow 6) ending
unfolding destroy_jobs
ending-waits_for_earlier =
    (tt, (omega arith, (tt, (omega arith, (omega arith, (omega arith, (tt, (omega arith, tt))))))))

threads-wait_for_earlier : WaitsForEarlier 0 threads
threads-wait_for_earlier = (
  (tt, (tt, tt)),
  (
    (tt, (tt, tt)),
    ((tt, tt), ((tt, (tt, tt)), ((tt, tt), ((tt, (tt, tt)), (ending-waits_for_earlier, tt))))),
  ),
)

operations_finish_example :
    (more : List ℕ) × (work (run more (run so_far (map (thread_of calls) threads))) ≡ 0)
operations_finish_example =
    operations_finish calls calls_nest threads so_far threads-wait_for_earlier
