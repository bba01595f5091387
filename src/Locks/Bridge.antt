-- ===== src/Locks/Bridge.antt =====
-- The mutexes that each operation of src/ros1_foxglove_bridge.cpp, src/transport_manager.cpp and
-- src/param_interface.cpp takes, on each of its branches.
pub mod Ending
pub mod Ranks
pub mod Deadlock
use foxglove_bridge_ros.Prelude.{
  ℕ, String, Bool, true, false, List, [], ◌∷◌, ◌++◌, map, Option, none, some, if◌then◌else◌,
}
use foxglove_bridge_ros.Locks.{
  Lock, gateway_subscriptions, client_advertisements_mutex, running_callback, subscriptions_mutex,
  channel_registry, latched_channels_mutex, description_provider_mutex, services_mutex,
  pending_service_calls_mutex, pending_call_mutex, poll_mutex, param_op_mutex,
  param_interface_mutex, Instruction,
}
use foxglove_bridge_ros.Locks.Ordered.{guarded}

abbrev pub Program : Type 0
Program = List Instruction

-- One program after the other, once for each item.
abbrev pub each {ℓ} : {A : Type ℓ} → (A → Program) → List A → Program
each f [] = []
each f (x ∷ xs) = f x ++ each f xs

-- The calls of the SDK and of roscpp, by the mutexes that they take: `channel.log()`,
-- `RawChannel::create()`, `channel.close()` with the callbacks that it fires, `_nh.subscribe`,
-- `_nh.advertise`, the end of a `ros::Publisher`, a responder, the end of a `ros::Subscriber`, and those that run the bridge's callbacks: for a
-- message, for a client's request, and for the classifier of channels.
pub record Calls : Type 0 where
  pub log : Program
  pub create_channel : Program
  pub subscribe : Program
  pub advertise : Program
  pub end_publisher : Program
  pub respond : Program
  pub close : List Program → Program
  pub end_subscriber : ℕ → Program
  pub deliver : ℕ → Program → Program
  pub fire : Program → Program
  pub classify : Program → Program

-- The branches of `onSubscribe`, with the number of cached messages.
pub data Subscribing : Type 0 where
  unknown_channel first_client : Subscribing
  joins : List ℕ → Subscribing

-- Those of `onUnsubscribe`: the subscription's last client ends it.
pub data Unsubscribing : Type 0 where
  no_subscription others_remain : Unsubscribing
  last_client : ℕ → Unsubscribing

pub data Receiving : Type 0 where
  channel_gone from_latched from_other : Receiving

-- A channel that a poll removes: the subscription that it has, and the callbacks that its closing
-- fires.
pub record Removed : Type 0 where
  pub subscription : Option ℕ
  pub fires : List Unsubscribing

pub data Advertising : Type 0 where
  bad_encoding had_advertised no_description no_ros_publisher accepted : Advertising

-- A service that a poll finds: a type without a description is looked up as well.
pub data Finding : Type 0 where
  known no_type : Finding
  offered refused : Finding

-- Those of `handleServiceRequest`: an unknown service is refused under the mutex.
pub data Handling : Type 0 where
  unknown_service request_refused call_started : Handling

pub data Operation : Type 0 where
  on_subscribe : Subscribing → Operation
  on_unsubscribe : Unsubscribing → Operation
  ros_message_handler : ℕ → Receiving → Operation
  update_advertised_topics : List Removed → List Bool → Operation
  update_advertised_services : List String → List Finding → Operation
  classify_remote_access_qos : Bool → Operation
  on_client_advertise : Advertising → Operation
  on_client_unadvertise : Bool → Operation
  on_client_message : Operation
  on_connection_graph_subscribe : Bool → Operation
  handle_service_request : Handling → Operation
  worker_returns : ℕ → Operation
  sweep_expired_service_calls : List ℕ → List ℕ → Operation
  poll_wait stop_poll enqueue_parameter_op worker_takes_op stop_worker : Operation
  subscribe_params unsubscribe_params : List Bool → Operation
  parameter_updates shutdown_interface : Operation

unfoldable pub unsubscribe_locks : Calls → Unsubscribing → Program
unsubscribe_locks calls no_subscription = guarded subscriptions_mutex []
unsubscribe_locks calls others_remain = guarded subscriptions_mutex []
unsubscribe_locks calls (last_client i) =
    guarded subscriptions_mutex (guarded latched_channels_mutex []) ++ calls.end_subscriber i

unfoldable pub subscribe_locks : Calls → Subscribing → Program
subscribe_locks calls unknown_channel = guarded subscriptions_mutex []
subscribe_locks calls first_client = guarded subscriptions_mutex calls.subscribe
subscribe_locks calls (joins cached) = guarded subscriptions_mutex (each (λ m. calls.log) cached)

unfoldable pub message_locks : Calls → Receiving → Program
message_locks calls channel_gone = guarded subscriptions_mutex []
message_locks calls from_latched =
    guarded subscriptions_mutex (guarded latched_channels_mutex [] ++ calls.log)
message_locks calls from_other = guarded subscriptions_mutex calls.log

abbrev pub end_subscription : Calls → Option ℕ → Program
end_subscription calls none = []
end_subscription calls (some i) = calls.end_subscriber i

-- `updateAdvertisedTopics`: the removal under the mutex, the closings and the ends of the
-- subscriptions without it, and the new channels, each described or not, under it again.
unfoldable pub topics_locks : Calls → List Removed → List Bool → Program
unfolding unsubscribe_locks
topics_locks calls removed created =
    guarded subscriptions_mutex (each (λ r. guarded latched_channels_mutex []) removed)
    ++ each (λ (r : Removed). calls.close (map (unsubscribe_locks calls) r.fires)) removed
    ++ each (λ (r : Removed). end_subscription calls r.subscription) removed
    ++ guarded subscriptions_mutex
        (each (λ b. guarded description_provider_mutex [] ++ calls.create_channel) created)

unfoldable pub finding_locks : Finding → Program
finding_locks known = []
finding_locks no_type = []
finding_locks offered = guarded description_provider_mutex [] ++ guarded services_mutex []
finding_locks refused =
    guarded description_provider_mutex [] ++ guarded services_mutex [] ++ guarded services_mutex []

unfoldable pub services_locks : List String → List Finding → Program
unfolding finding_locks
services_locks [] found = each finding_locks found
services_locks (name ∷ gone) found = guarded services_mutex [] ++ each finding_locks found

unfoldable pub advertise_locks : Calls → Advertising → Program
advertise_locks calls bad_encoding = []
advertise_locks calls had_advertised = guarded client_advertisements_mutex []
advertise_locks calls no_description =
    guarded client_advertisements_mutex (guarded description_provider_mutex [])
advertise_locks calls no_ros_publisher =
    guarded client_advertisements_mutex (guarded description_provider_mutex [] ++ calls.advertise)
advertise_locks calls accepted =
    guarded client_advertisements_mutex
      (guarded description_provider_mutex [] ++ calls.advertise ++ guarded poll_mutex [])

unfoldable pub handling_locks : Calls → Handling → Program
handling_locks calls unknown_service = guarded services_mutex calls.respond
handling_locks calls request_refused = guarded services_mutex [] ++ calls.respond
handling_locks calls call_started =
    guarded services_mutex [] ++ guarded pending_service_calls_mutex []

-- The callbacks of the clients are fired by a transport, which may hold its own mutexes meanwhile.
unfoldable pub locks_of : Calls → Operation → Program
unfolding subscribe_locks unsubscribe_locks message_locks topics_locks services_locks
    advertise_locks handling_locks
locks_of calls (on_subscribe how) = calls.fire (subscribe_locks calls how)
locks_of calls (on_unsubscribe how) = calls.fire (unsubscribe_locks calls how)
locks_of calls (ros_message_handler i how) = calls.deliver i (message_locks calls how)
locks_of calls (update_advertised_topics removed created) = topics_locks calls removed created
locks_of calls (update_advertised_services gone found) = services_locks gone found
locks_of calls (classify_remote_access_qos listed) =
    calls.classify (if listed then [] else guarded latched_channels_mutex [])
locks_of calls (on_client_advertise how) = calls.fire (advertise_locks calls how)
locks_of calls (on_client_unadvertise was_there) =
    calls.fire (guarded client_advertisements_mutex (if was_there then calls.end_publisher else []))
locks_of calls on_client_message = calls.fire (guarded client_advertisements_mutex [])
locks_of calls (on_connection_graph_subscribe subscribes) =
    calls.fire (if subscribes then guarded poll_mutex [] else [])
locks_of calls (handle_service_request how) = calls.fire (handling_locks calls how)
locks_of calls (worker_returns call) = guarded (pending_call_mutex call) [] ++ calls.respond
locks_of calls (sweep_expired_service_calls pending expired) =
    guarded pending_service_calls_mutex
      (each (λ call. guarded (pending_call_mutex call) []) pending)
    ++ each (λ call. guarded (pending_call_mutex call) [] ++ calls.respond) expired
locks_of calls poll_wait = guarded poll_mutex []
locks_of calls stop_poll = guarded poll_mutex []
locks_of calls enqueue_parameter_op = calls.fire (guarded param_op_mutex [])
locks_of calls worker_takes_op = guarded param_op_mutex []
locks_of calls stop_worker = guarded param_op_mutex []
locks_of calls (subscribe_params registered) =
    guarded param_interface_mutex []
    ++ each (λ ok. if ok then guarded param_interface_mutex [] else []) registered
locks_of calls (unsubscribe_params dropped) =
    each (λ ok. if ok then guarded param_interface_mutex [] else []) dropped
locks_of calls parameter_updates = guarded param_interface_mutex []
locks_of calls shutdown_interface = guarded param_interface_mutex []
