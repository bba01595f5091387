-- ===== src/Requests/Registers.antt =====
-- Requests for parameters, from the clients of both transports to the ROS master
-- (src/transport_manager.cpp and src/param_interface.cpp).
use mathlib.Core.List.{append_assoc, append-nil}
use foxglove_bridge_ros.Prelude.{
  ℕ, ◌≡◌, refl, sym, ap, subst, ◌∙◌, String, Bool, true, false, ◌&&◌, Option, List, [], ◌∷◌, ◌++◌,
  length, contains, string_eq, ltb, lookup, arith,
}
use foxglove_bridge_ros.Prelude.Int.{ℤ}
use foxglove_bridge_ros.Utils.{RegexEngine}
use foxglove_bridge_ros.Capabilities.{Capability, GatewayCapability, FlagSet}
use foxglove_bridge_ros.Assets.{Bytes}
use foxglove_bridge_ros.Params.Values.{ParameterClass}
use foxglove_bridge_ros.Params.Interface.{
  subscribe_param, unsubscribe_param, succeeded, Master, ParamInterface, admits,
}
use foxglove_bridge_ros.Params.Interface.Lifecycle.{Registry, Accounted}
use foxglove_bridge_ros.Params.Worker.{ParameterOp, Manager, count_of, worker_step}
use foxglove_bridge_ros.Params.Worker.Answers.{rounds, rounds-answered}
use foxglove_bridge_ros.Params.Worker.Refcount.{Positive}
use foxglove_bridge_ros.Params.Registered.{ros1_backend, ros1_laws}
use foxglove_bridge_ros.Params.Registered.Open.{open_after_all}
use foxglove_bridge_ros.Startup.{Platform, serves_parameters}
use foxglove_bridge_ros.Requests.{Host, BridgeState, RequestOf, serve}
use foxglove_bridge_ros.Params.Registered.Serving.{
  IsServing, enqueue_each-IsServing, step-IsServing, rounds-IsServing,
}
use foxglove_bridge_ros.Requests.Queued.{asked, serve-manager}

-- A request of a client, or one round of the parameter worker.
pub data Event (P : Type 0) : Type 0 where
  requests : (t : Bool) → RequestOf P t → Event P
  works : Event P

abbrev pub asked_by : {P : Type 0} → List (Event P) → List (ParameterOp P)
asked_by [] = []
asked_by (requests t request ∷ events) = asked t request ++ asked_by events
asked_by (works ∷ events) = asked_by events

-- After these operations, a name that the two tests of `subscribeParams` admit is open.
abbrev pub wanted :
    {P : Type 0} (engine : RegexEngine String) (node_name : String) (whitelist : List engine.Regex)
    → List (ParameterOp P)
    → String
    → Bool
wanted engine node_name whitelist ops n =
    admits engine node_name whitelist n && ltb 0 (open_after_all n ops 0)

module _ (engine : RegexEngine String) (node_name : String) (whitelist : List engine.Regex)
    {W D P : Type 0} (class : ParameterClass D P) (master : Master W D) (of_int : ℤ → D)
    {Publisher : Type 0} {bytes_engine : RegexEngine Bytes} (host : Host Publisher bytes_engine)
    (ws : FlagSet Capability) (gw : FlagSet GatewayCapability)
    (platform : Platform ws.Flags gw.Flags) (capabilities : ws.Flags) (reports : Bool)
    (session_sink : Option ℕ) where
  abbrev pub Bridge : Type 0
  Bridge = BridgeState (ParamInterface W) P Publisher

  abbrev pub happens : Event P → Bridge → Bridge
  happens (requests t request) b =
      (serve host ws gw platform capabilities true reports session_sink t request b).0
  happens works b = record b {
    manager =
        worker_step class.name (ros1_backend engine node_name whitelist class master of_int)
          b.manager;
  }

  abbrev pub happen : List (Event P) → Bridge → Bridge
  happen [] b = b
  happen (e ∷ events) b = happen events (happens e b)

  -- The worker goes on until its queue is empty.
  abbrev pub drained : Bridge → Manager (ParamInterface W) P
  drained b =
      rounds class.name (ros1_backend engine node_name whitelist class master of_int)
        (length b.manager.op_queue) b.manager

  module _ (reg : Registry W D master)
      (subscribes : (n : String) (w : W) → (master.perform (subscribe_param n) w).1 ≡ succeeded)
      (unsubscribes : (n : String) (w : W) → (master.perform (unsubscribe_param n) w).1 ≡ succeeded)
      (serves : serves_parameters ws gw platform true capabilities ≡ true) where
    Serves : List (ParameterOp P) → Manager (ParamInterface W) P → Type 0
    Serves ops m =
        IsServing class.name (ros1_backend engine node_name whitelist class master of_int)
          (ros1_laws engine node_name whitelist class master of_int reg subscribes unsubscribes) ops
          m

    happen-Serves :
        (events : List (Event P)) (ops : List (ParameterOp P)) (b : Bridge)
        → Serves ops b.manager
        → Serves (ops ++ asked_by events) (happen events b).manager
    unfolding Serves
    happen-Serves [] ops b v = subst (λ o. Serves o b.manager) (sym (append-nil ops)) v
    happen-Serves (works ∷ events) ops b v =
        happen-Serves events ops (happens works b) (step-IsServing class.name _ _ ops b.manager v)
    happen-Serves (requests t request ∷ events) ops b v =
        let next = happens (requests t request) b in
        let served =
          subst (Serves (ops ++ asked t request))
            (sym (
              serve-manager host ws gw platform capabilities true reports session_sink serves t
                request b))
            (enqueue_each-IsServing class.name _ _ ops (asked t request) b.manager v) in
        subst (λ o. Serves o (happen events next).manager)
          (append_assoc ops (asked t request) (asked_by events))
          (happen-Serves events (ops ++ asked t request) next served)

    fresh-Serves :
        (b : Bridge)
        → b.manager.op_queue ≡ []
        → b.manager.subscriber_count ≡ []
        → b.manager.worker_alive ≡ true
        → b.manager.op_shutdown ≡ false
        → b.manager.backend.shut_down ≡ false
        → b.manager.backend.subscribed_params ≡ []
        → ((name : String) → reg.registered b.manager.backend.world name ≡ false)
        → Serves [] b.manager
    unfolding Serves ros1_laws Positive lookup Accounted
    fresh-Serves b idle fresh alive opened running none_yet clear = record {
      sync = record {
        tracked = λ name k e. absurd (ground (arith, fresh, e));
        running = (running, λ n held. absurd (cc (held, clear n)));
        agrees = λ name. ground (arith, none_yet, fresh);
      };
      alive = alive;
      open_queue = opened;
      counted = λ n. ground (arith, idle, fresh);
    }

    -- Where parameters are served, the master accepts each call to subscribe and to unsubscribe, and
    -- nothing was asked for or registered before: whatever requests the clients of both transports
    -- have made since, and whenever the worker made its rounds, once it has emptied its queue the
    -- bridge has recorded a name as subscribed exactly when the two tests of `subscribeParams` admit
    -- it and it has an open subscription among those requests; and whatever the master has
    -- registered for the bridge is the resolved name of such a one.
    pub registered-happen :
        (events : List (Event P)) (b : Bridge) (n registration : String)
        → b.manager.op_queue ≡ []
        → b.manager.subscriber_count ≡ []
        → b.manager.worker_alive ≡ true
        → b.manager.op_shutdown ≡ false
        → b.manager.backend.shut_down ≡ false
        → b.manager.backend.subscribed_params ≡ []
        → ((name : String) → reg.registered b.manager.backend.world name ≡ false)
        → let i = (drained (happen events b)).backend in
          (contains n i.subscribed_params ≡ wanted engine node_name whitelist (asked_by events) n)
          × (reg.registered i.world registration ≡ true
              → (name : String) × (wanted engine node_name whitelist (asked_by events) name ≡ true)
                × (master.resolve name ≡ registration))
    unfolding Serves ros1_laws Accounted
    registered-happen events b n registration idle fresh alive opened running none_yet clear =
        let api = ros1_backend engine node_name whitelist class master of_int in
        let laws =
          ros1_laws engine node_name whitelist class master of_int reg subscribes unsubscribes in
        let m = (happen events b).manager in
        let served =
          happen-Serves events [] b
            (fresh-Serves b idle fresh alive opened running none_yet clear) in
        let done = rounds-IsServing class.name api laws (length m.op_queue) _ m served in
        let emptied = (rounds-answered class.name api 0 m.op_queue m refl served.alive).0 in
        let counts = (drained (happen events b)).subscriber_count in
        let recorded : (name : String)
            → contains name (drained (happen events b)).backend.subscribed_params
              ≡ wanted engine node_name whitelist (asked_by events) name =
          λ name.
            done.sync.agrees name
            ∙ ap (λ k. admits engine node_name whitelist name && ltb 0 k)
                (ap (λ queue. open_after_all name queue (count_of name counts)) (sym emptied)
                  ∙ done.counted name) in
        (
          recorded n,
          λ held.
              let (name, there, sent) = done.sync.running.1 registration held in
              (name, sym (recorded name) ∙ there, sent),
        )
