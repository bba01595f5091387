-- ===== src/Locks/Bridge/Ranks.antt =====
-- Every operation takes its mutexes in the order of their ranks, so that the threads of the bridge
-- never block each other for good.
use foxglove_bridge_ros.Prelude.{
  ℕ, ◌<◌, String, Bool, Option, none, some, List, [], ◌∷◌, map, All, if◌then◌else◌, if-elim, arith,
}
use foxglove_bridge_ros.Locks.{
  Lock, gateway_subscriptions, client_advertisements_mutex, subscriptions_mutex, channel_registry,
  latched_channels_mutex, description_provider_mutex, services_mutex, pending_service_calls_mutex,
  poll_mutex, rank,
}
use foxglove_bridge_ros.Locks.Ordered.{
  Nests, guarded, nothing-Nests, append-Nests, lower-Nests, guarded-Nests,
}
use foxglove_bridge_ros.Locks.Bridge.{
  Program, each, Calls, Subscribing, unknown_channel, first_client, joins, Unsubscribing,
  no_subscription, others_remain, last_client, Receiving, channel_gone, from_latched, from_other,
  Removed, Advertising, bad_encoding, had_advertised, no_description, no_ros_publisher, accepted,
  Finding, known, no_type, offered, refused, unsubscribe_locks, subscribe_locks, message_locks,
  end_subscription, topics_locks, finding_locks, services_locks, advertise_locks, Handling,
  unknown_service, request_refused, call_started, handling_locks,
}

-- What the bridge relies on: under which of its mutexes each call may be made. Closing a channel,
-- and firing a client's request, may take the gateway's mutex; so the bridge must hold none of its
-- own then, and the callbacks that run under that mutex must not take it. The classifier may run
-- while the SDK's registry of channels is held.
pub record CallsNest (calls : Calls) : Type 0 where
  pub log-Nests : Nests (rank subscriptions_mutex) calls.log
  pub create-Nests : Nests (rank subscriptions_mutex) calls.create_channel
  pub subscribe-Nests : Nests (rank subscriptions_mutex) calls.subscribe
  pub advertise-Nests : Nests (rank client_advertisements_mutex) calls.advertise
  pub end_publisher-Nests : Nests (rank client_advertisements_mutex) calls.end_publisher
  pub respond-Nests : Nests (rank services_mutex) calls.respond
  pub end-Nests : (i : ℕ) → Nests (rank gateway_subscriptions) (calls.end_subscriber i)
  pub close-Nests :
      (fired : List Program)
      → All (Nests (rank gateway_subscriptions)) fired
      → Nests 0 (calls.close fired)
  pub deliver-Nests : (i : ℕ) (p : Program) → Nests 3 p → Nests 0 (calls.deliver i p)
  pub fire-Nests : (p : Program) → Nests (rank gateway_subscriptions) p → Nests 0 (calls.fire p)
  pub classify-Nests : (p : Program) → Nests (rank channel_registry) p → Nests 0 (calls.classify p)

-- A short critical section.
pub touch : (r : ℕ) (l : Lock) → r < rank l → Nests r (guarded l [])
touch r l lt = guarded-Nests r l [] lt (nothing-Nests (rank l))

pub each-Nests {ℓ} :
    {A : Type ℓ} (r : ℕ) (f : A → Program) (xs : List A)
    → ((x : A) → Nests r (f x))
    → Nests r (each f xs)
each-Nests r f [] n = nothing-Nests r
each-Nests r f (x ∷ xs) n = append-Nests r (f x) (each f xs) (n x) (each-Nests r f xs n)

-- Where a program is run on one branch only.
pub if-Nests :
    (r : ℕ) (b : Bool) (p q : Program) → Nests r p → Nests r q → Nests r (if b then p else q)
if-Nests r b p q np nq = if-elim (Nests r) b (λ _. np) (λ _. nq)

finding_locks-Nests : (how : Finding) → Nests 0 (finding_locks how)
unfolding finding_locks
finding_locks-Nests known = nothing-Nests 0
finding_locks-Nests no_type = nothing-Nests 0
finding_locks-Nests offered =
    append-Nests 0 _ _ (touch 0 description_provider_mutex (omega arith))
      (touch 0 services_mutex (omega arith))
finding_locks-Nests refused =
    append-Nests 0 _ _ (touch 0 description_provider_mutex (omega arith)) (
      append-Nests 0 _ _ (touch 0 services_mutex (omega arith))
        (touch 0 services_mutex (omega arith)))

pub services_locks-Nests :
    (gone : List String) (found : List Finding) → Nests 0 (services_locks gone found)
unfolding services_locks
services_locks-Nests [] found = each-Nests 0 finding_locks found finding_locks-Nests
services_locks-Nests (name ∷ gone) found =
    append-Nests 0 _ _ (touch 0 services_mutex (omega arith))
      (each-Nests 0 finding_locks found finding_locks-Nests)

module _ (calls : Calls) (nest : CallsNest calls) where
  pub unsubscribe_locks-Nests :
      (how : Unsubscribing) → Nests (rank gateway_subscriptions) (unsubscribe_locks calls how)
  unfolding unsubscribe_locks
  unsubscribe_locks-Nests no_subscription = touch 1 subscriptions_mutex (omega arith)
  unsubscribe_locks-Nests others_remain = touch 1 subscriptions_mutex (omega arith)
  unsubscribe_locks-Nests (last_client i) =
      append-Nests 1 _ _
        (guarded-Nests 1 subscriptions_mutex _ (omega arith)
          (touch 4 latched_channels_mutex (omega arith)))
        (nest.end-Nests i)

  pub subscribe_locks-Nests :
      (how : Subscribing) → Nests (rank gateway_subscriptions) (subscribe_locks calls how)
  unfolding subscribe_locks
  subscribe_locks-Nests unknown_channel = touch 1 subscriptions_mutex (omega arith)
  subscribe_locks-Nests first_client =
      guarded-Nests 1 subscriptions_mutex _ (omega arith) nest.subscribe-Nests
  subscribe_locks-Nests (joins cached) =
      guarded-Nests 1 subscriptions_mutex _ (omega arith)
        (each-Nests 4 _ cached (λ m. nest.log-Nests))

  pub message_locks-Nests : (how : Receiving) → Nests 3 (message_locks calls how)
  unfolding message_locks
  message_locks-Nests channel_gone = touch 3 subscriptions_mutex (omega arith)
  message_locks-Nests from_latched =
      guarded-Nests 3 subscriptions_mutex _ (omega arith)
        (append-Nests 4 _ _ (touch 4 latched_channels_mutex (omega arith)) nest.log-Nests)
  message_locks-Nests from_other =
      guarded-Nests 3 subscriptions_mutex _ (omega arith) nest.log-Nests

  fired-Nests :
      (fires : List Unsubscribing)
      → All (Nests (rank gateway_subscriptions)) (map (unsubscribe_locks calls) fires)
  fired-Nests [] = tt
  fired-Nests (how ∷ fires) = (unsubscribe_locks-Nests how, fired-Nests fires)

  end_subscription-Nests : (o : Option ℕ) → Nests 0 (end_subscription calls o)
  end_subscription-Nests none = nothing-Nests 0
  end_subscription-Nests (some i) = lower-Nests 0 1 _ (omega arith) (nest.end-Nests i)

  pub topics_locks-Nests :
      (removed : List Removed) (created : List Bool) → Nests 0 (topics_locks calls removed created)
  unfolding topics_locks
  topics_locks-Nests removed created =
      append-Nests 0 _ _
        (append-Nests 0 _ _
          (append-Nests 0 _ _
            (guarded-Nests 0 subscriptions_mutex _ (omega arith)
              (each-Nests 4 _ removed (λ r. touch 4 latched_channels_mutex (omega arith))))
            (each-Nests 0 _ removed (λ r. nest.close-Nests _ (fired-Nests r.fires))))
          (each-Nests 0 _ removed (λ r. end_subscription-Nests r.subscription)))
        (guarded-Nests 0 subscriptions_mutex _ (omega arith) (
          each-Nests 4 _ created (λ b.
            append-Nests 4 _ _ (touch 4 description_provider_mutex (omega arith))
              nest.create-Nests)))

  pub advertise_locks-Nests :
      (how : Advertising) → Nests (rank gateway_subscriptions) (advertise_locks calls how)
  unfolding advertise_locks
  advertise_locks-Nests bad_encoding = nothing-Nests 1
  advertise_locks-Nests had_advertised = touch 1 client_advertisements_mutex (omega arith)
  advertise_locks-Nests no_description =
      guarded-Nests 1 client_advertisements_mutex _ (omega arith)
        (touch 2 description_provider_mutex (omega arith))
  advertise_locks-Nests no_ros_publisher =
      guarded-Nests 1 client_advertisements_mutex _ (omega arith)
        (append-Nests 2 _ _ (touch 2 description_provider_mutex (omega arith)) nest.advertise-Nests)
  advertise_locks-Nests accepted = guarded-Nests 1 client_advertisements_mutex _ (omega arith) (
      append-Nests 2 _ _ (touch 2 description_provider_mutex (omega arith))
        (append-Nests 2 _ _ nest.advertise-Nests (touch 2 poll_mutex (omega arith))))

  pub handling_locks-Nests :
      (how : Handling) → Nests (rank gateway_subscriptions) (handling_locks calls how)
  unfolding handling_locks
  handling_locks-Nests unknown_service =
      guarded-Nests 1 services_mutex _ (omega arith) nest.respond-Nests
  handling_locks-Nests request_refused =
      append-Nests 1 _ _ (touch 1 services_mutex (omega arith))
        (lower-Nests 1 8 _ (omega arith) nest.respond-Nests)
  handling_locks-Nests call_started =
      append-Nests 1 _ _ (touch 1 services_mutex (omega arith))
        (touch 1 pending_service_calls_mutex (omega arith))
