-- ===== src/Params/Registered.antt =====
-- The parameter worker of src/transport_manager.cpp over `Ros1ParameterInterface` of
-- src/param_interface.cpp: what the bridge has recorded of its
-- registrations at the master.
pub mod Open
pub mod Serving
use foxglove_bridge_ros.Prelude.{
  ℕ, ◌+◌, ◌-◌, ◌≡◌, refl, sym, String, Bool, true, false, not, ◌&&◌, ◌||◌, Option, none, some, List,
  [], ◌∷◌, contains, contains-insert, contains-erase, lookup, string_eq, arith, ltb, Bool-cases,
  if-elim, inl, inr, ◌∙◌, ◌==◌,
}
use text.Mathlib.TextEquality.{eq_iff}
use foxglove_bridge_ros.Prelude.Int.{ℤ}
use foxglove_bridge_ros.Utils.{RegexEngine}
use foxglove_bridge_ros.Params.Values.{RosValue, Value, ParameterClass, to_ros_param}
use foxglove_bridge_ros.Params.Interface.{
  MasterCall, set_param, delete_param, subscribe_param, unsubscribe_param, succeeded, Master,
  ParamInterface, admits, get_params, set_converted, set_value, set_params, subscribe_one,
  subscribe_all, subscribe_params, unsubscribe_one, unsubscribe_params,
}
use foxglove_bridge_ros.Params.Interface.Lifecycle.{
  Registry, registers, Accounted, subscribe_params-Accounted, unsubscribe_params-Accounted,
}
use foxglove_bridge_ros.Params.Worker.{
  ParameterBackend, ParameterOp, get_op, set_op, subscribe_op, unsubscribe_op, Manager, count_of,
  handle_get_params, handle_set_params, handle_subscribe_params, handle_unsubscribe_params, handle,
}
use foxglove_bridge_ros.Params.Worker.Refcount.{times, Positive}
use foxglove_bridge_ros.Params.Worker.InSync.{SubscribingBackend, IsInSync, handle-IsInSync}

module _ (engine : RegexEngine String) (node_name : String) (whitelist : List engine.Regex)
    {W D P : Type 0} (class : ParameterClass D P) (master : Master W D) (of_int : ℤ → D) where
  -- `Ros1ParameterInterface` as the worker's `ParameterBackend`.
  unfoldable pub ros1_backend : ParameterBackend (ParamInterface W) P
  ros1_backend = record {
    get_params =
        λ names i. (i, get_params engine node_name whitelist class master of_int i.world names);
    set_params = λ params i. (
      record i { world = set_params engine node_name whitelist class master of_int params i.world },
      true,
    );
    subscribe_params = subscribe_params engine node_name whitelist class master of_int;
    unsubscribe_params = unsubscribe_params engine node_name whitelist class master of_int;
  }

  module _ (reg : Registry W D master)
      (subscribes : (n : String) (w : W) → (master.perform (subscribe_param n) w).1 ≡ succeeded)
      (unsubscribes : (n : String) (w : W)
        → (master.perform (unsubscribe_param n) w).1 ≡ succeeded) where
    set_converted-registered :
        (name : String) (o : Option (RosValue D)) (w : W) (n : String)
        → reg.registered (set_converted engine node_name whitelist class master of_int name o w) n
          ≡ reg.registered w n
    unfolding set_converted
    set_converted-registered name none w n = refl
    set_converted-registered name (some r) w n = reg.registered-perform (set_param name r) w n

    set_value-registered :
        (p : P) (o : Option (Value D)) (w : W) (n : String)
        → reg.registered (set_value engine node_name whitelist class master of_int p o w) n
          ≡ reg.registered w n
    unfolding set_value
    set_value-registered p none w n = reg.registered-perform (delete_param (class.name p)) w n
    set_value-registered p (some v) w n = set_converted-registered (class.name p) _ w n

    -- Setting parameters leaves the registrations alone.
    pub set_params-registered :
        (ps : List P) (w : W) (n : String)
        → reg.registered (set_params engine node_name whitelist class master of_int ps w) n
          ≡ reg.registered w n
    unfolding set_params
    set_params-registered [] w n = refl
    set_params-registered (p ∷ ps) w n =
        elim (Bool-cases (admits engine node_name whitelist (class.name p))) [
          | inl e ↦ rw e (set_params-registered ps _ n ∙ set_value-registered p (class.value p) w n)
          | inr e ↦ rw e (set_params-registered ps w n)
        ]

    -- What subscribing to one name comes to where the master accepts.
    subscribe_one-accepted :
        (name : String) (i : ParamInterface W) (n : String)
        → let r = subscribe_one engine node_name whitelist class master of_int name i in
          (r.1 ≡ true)
          × (r.0.shut_down ≡ i.shut_down)
          × (contains n r.0.subscribed_params ≡ ((name == n) || contains n i.subscribed_params))
    unfolding subscribe_one
    subscribe_one-accepted name i n = ground (
      arith,
      subscribes (master.resolve name) i.world,
      contains-insert name n i.subscribed_params,
    )

    unsubscribe_one-accepted :
        (name : String) (i : ParamInterface W) (n : String)
        → let r = unsubscribe_one engine node_name whitelist class master of_int name i in
          (r.1 ≡ true)
          × (r.0.shut_down ≡ i.shut_down)
          × (contains n r.0.subscribed_params ≡ (not (name == n) && contains n i.subscribed_params))
    unfolding unsubscribe_one
    unsubscribe_one-accepted name i n = ground (
      arith,
      unsubscribes (master.resolve name) i.world,
      contains-erase name n i.subscribed_params,
    )

    -- A whole request, while the interface is not shut down.
    subscribe_all-accepted :
        (names : List String) (i : ParamInterface W) (n : String)
        → let r = subscribe_all engine node_name whitelist class master of_int names i in
          (r.0.shut_down ≡ i.shut_down)
          × (contains n r.0.subscribed_params ≡ (
              contains n names && admits engine node_name whitelist n
              || contains n i.subscribed_params))
    unfolding subscribe_all
    subscribe_all-accepted [] i n = (refl, refl)
    subscribe_all-accepted (name ∷ names) i n =
        elim (Bool-cases (admits engine node_name whitelist name)) [
          | inl e ↦
              let one = subscribe_one-accepted name i n in
              let next = subscribe_one engine node_name whitelist class master of_int name i in
              let rest = subscribe_all-accepted names next.0 n in
              rw (e, one.0) (ground (arith, e, one, rest, eq_iff name n))
          | inr e ↦
              let rest = subscribe_all-accepted names i n in
              rw e (ground (arith, e, rest, eq_iff name n))
        ]

    pub unsubscribe_params-accepted :
        (names : List String) (i : ParamInterface W) (n : String)
        → let r = unsubscribe_params engine node_name whitelist class master of_int names i in
          (r.0.shut_down ≡ i.shut_down)
          × (contains n r.0.subscribed_params
              ≡ (not (contains n names) && contains n i.subscribed_params))
    unfolding unsubscribe_params
    unsubscribe_params-accepted [] i n = (refl, refl)
    unsubscribe_params-accepted (name ∷ names) i n =
        let one = unsubscribe_one-accepted name i n in
        let next = unsubscribe_one engine node_name whitelist class master of_int name i in
        let rest = unsubscribe_params-accepted names next.0 n in
        rw one.0 (ground (arith, one, rest, eq_iff name n))

    pub subscribe_params-accepted :
        (names : List String) (i : ParamInterface W) (n : String)
        → i.shut_down ≡ false
        → let r = subscribe_params engine node_name whitelist class master of_int names i in
          (r.0.shut_down ≡ false)
          × (contains n r.0.subscribed_params ≡ (
              contains n names && admits engine node_name whitelist n
              || contains n i.subscribed_params))
    unfolding subscribe_params
    subscribe_params-accepted names i n e =
        let all = subscribe_all-accepted names i n in
        if-elim
          (λ (r : ParamInterface W × Bool).
            (r.0.shut_down ≡ false)
            × (contains n r.0.subscribed_params ≡ (
                contains n names && admits engine node_name whitelist n
                || contains n i.subscribed_params)))
          i.shut_down (λ down. absurd (cc (down, e))) (λ _. (all.0 ∙ e, all.1))

    pub set_params-Accounted :
        (ps : List P) (i : ParamInterface W)
        → Accounted engine node_name whitelist class master of_int reg i
        → Accounted engine node_name whitelist class master of_int reg (record i {
          world = set_params engine node_name whitelist class master of_int ps i.world;
        })
    unfolding Accounted
    set_params-Accounted ps i a n held = a n (sym (set_params-registered ps i.world n) ∙ held)

    -- The interface is not shut down, and has recorded the names of all its registrations.
    abbrev pub Runs : ParamInterface W → Type 0
    Runs i = (i.shut_down ≡ false) × Accounted engine node_name whitelist class master of_int reg i

    -- The laws that the worker relies on.
    unfoldable pub ros1_laws : SubscribingBackend ros1_backend
    unfolding ros1_backend
    ros1_laws = record {
      admitted = admits engine node_name whitelist;
      Running = Runs;
      subscribed = λ i n. contains n i.subscribed_params;
      subscribe-Running = λ names i e. (
        (subscribe_params-accepted names i "" e.0).0,
        subscribe_params-Accounted engine node_name whitelist class master of_int reg names i e.1,
      );
      unsubscribe-Running = λ names i e. (
        (unsubscribe_params-accepted names i "").0 ∙ e.0,
        unsubscribe_params-Accounted engine node_name whitelist class master of_int reg names i e.1,
      );
      get-Running = λ names i e. e;
      set-Running = λ params i e. (e.0, set_params-Accounted params i e.1);
      subscribed-subscribe = λ names i n e. (subscribe_params-accepted names i n e.0).1;
      subscribed-unsubscribe = λ names i n e. (unsubscribe_params-accepted names i n).1;
      subscribed-get = λ names i n. refl;
      subscribed-set = λ params i n. refl;
    }
