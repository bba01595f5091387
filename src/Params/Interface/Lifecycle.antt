-- ===== src/Params/Interface/Lifecycle.antt =====
-- Registrations with the master, from `subscribeParams` to `shutdown` (src/param_interface.cpp).
use foxglove_bridge_ros.Prelude.{
  ◌≡◌, ◌≢◌, ap, ◌∙◌, String, Bool, true, false, not, ◌&&◌, ◌||◌, List, [], ◌∷◌, contains,
  contains-insert, contains-erase, string_eq, ◌==◌, arith, Bool-cases, if-elim, inl, inr,
}
use text.Mathlib.TextEquality.{eq_iff}
use foxglove_bridge_ros.Prelude.Int.{ℤ}
use foxglove_bridge_ros.Utils.{RegexEngine}
use foxglove_bridge_ros.Params.Values.{ParameterClass}
use foxglove_bridge_ros.Params.Interface.{
  MasterCall, subscribe_param, unsubscribe_param, Outcome, succeeded, Master, ParamInterface,
  admits, subscribe_one, subscribe_all, subscribe_params, unsubscribe_one, unsubscribe_params,
  drop_registrations, shutdown,
}

-- What a call with this outcome does to the registration of a name.
abbrev pub registers : {D : Type 0} → MasterCall D → Outcome → String → Bool → Bool
registers (subscribe_param name) succeeded n before = (name == n) || before
registers (unsubscribe_param name) succeeded n before = not (name == n) && before
registers _ _ n before = before

-- The master's record of the bridge's subscriptions, as the API of the master promises it.
pub record Registry (W D : Type 0) (master : Master W D) : Type 0 where
  pub registered : W → String → Bool
  pub registered-perform :
      (c : MasterCall D) (w : W) (n : String)
      → registered (master.perform c w).0 n ≡ registers c (master.perform c w).1 n (registered w n)

module _ (engine : RegexEngine String) (node_name : String) (whitelist : List engine.Regex)
    {W D P : Type 0} (class : ParameterClass D P) (master : Master W D) (of_int : ℤ → D)
    (reg : Registry W D master) where
  -- Every registration at the master is that of a name in the bridge's own set.
  unfoldable pub Accounted : ParamInterface W → Type 0
  Accounted i =
      (n : String)
      → reg.registered i.world n ≡ true
      → (name : String) × (contains name i.subscribed_params ≡ true) × (master.resolve name ≡ n)

  subscribe_one-Accounted :
      (name : String) (i : ParamInterface W)
      → Accounted i
      → Accounted (subscribe_one engine node_name whitelist class master of_int name i).0
  unfolding subscribe_one Accounted
  subscribe_one-Accounted name i a n held =
      let law = reg.registered-perform (subscribe_param (master.resolve name)) i.world n in
      elim (Bool-cases (reg.registered i.world n)) [
        | inl before ↦
            let (m, there, same) = a n before in
            (m, ground (arith, there, contains-insert name m i.subscribed_params), same)
        | inr new ↦ (
          name,
          ground (
            arith,
            held,
            law,
            new,
            contains-insert name name i.subscribed_params,
            eq_iff name name,
          ),
          ground (arith, held, law, new, eq_iff (master.resolve name) n),
        )
      ]

  unsubscribe_one-Accounted :
      (name : String) (i : ParamInterface W)
      → Accounted i
      → Accounted (unsubscribe_one engine node_name whitelist class master of_int name i).0
  unfolding unsubscribe_one Accounted
  unsubscribe_one-Accounted name i a n held =
      let law = reg.registered-perform (unsubscribe_param (master.resolve name)) i.world n in
      elim (Bool-cases (reg.registered i.world n)) [
        | inl before ↦
            let (m, there, same) = a n before in
            let erased = contains-erase name m i.subscribed_params in
            elim (Bool-cases (name == m)) [
              | inr other ↦ (m, ground (arith, there, other, erased), same)
              | inl this ↦
                  let sent : master.resolve name ≡ n =
                    ap master.resolve ((eq_iff name m).0 this) ∙ same in
                  (m, ground (arith, there, held, law, sent, eq_iff (master.resolve name) n), same)
            ]
        | inr new ↦ absurd (ground (arith, held, law, new))
      ]

  subscribe_all-Accounted :
      (names : List String) (i : ParamInterface W)
      → Accounted i
      → Accounted (subscribe_all engine node_name whitelist class master of_int names i).0
  unfolding subscribe_all
  subscribe_all-Accounted [] i t = t
  subscribe_all-Accounted (name ∷ names) i t =
      elim (Bool-cases (admits engine node_name whitelist name)) [
        | inr e ↦ rw e (subscribe_all-Accounted names i t)
        | inl e ↦
            let next = subscribe_one-Accounted name i t in
            let (i', going) = subscribe_one engine node_name whitelist class master of_int name i in
            rw e
              (elim (Bool-cases
                (subscribe_one engine node_name whitelist class master of_int name i).1) [
                  | inl on ↦ rw on (subscribe_all-Accounted names i' next)
                  | inr off ↦ rw off next
                ])
      ]

  pub subscribe_params-Accounted :
      (names : List String) (i : ParamInterface W)
      → Accounted i
      → Accounted (subscribe_params engine node_name whitelist class master of_int names i).0
  unfolding subscribe_params
  subscribe_params-Accounted names i t =
      if-elim (λ (r : ParamInterface W × Bool). Accounted r.0) i.shut_down (λ _. t)
        (λ _. subscribe_all-Accounted names i t)

  pub unsubscribe_params-Accounted :
      (names : List String) (i : ParamInterface W)
      → Accounted i
      → Accounted (unsubscribe_params engine node_name whitelist class master of_int names i).0
  unfolding unsubscribe_params
  unsubscribe_params-Accounted [] i t = t
  unsubscribe_params-Accounted (name ∷ names) i t =
      let next = unsubscribe_one-Accounted name i t in
      let (i', going) = unsubscribe_one engine node_name whitelist class master of_int name i in
      elim (Bool-cases (unsubscribe_one engine node_name whitelist class master of_int name i).1) [
        | inl on ↦ rw on (unsubscribe_params-Accounted names i' next)
        | inr off ↦ rw off next
      ]

  -- If every registration of the bridge at the master is the resolved name of one that it has
  -- recorded, it is so after a request to subscribe and after a request to unsubscribe, whichever
  -- of the calls to the master are refused or throw.
  pub requests-Accounted :
      (names : List String) (i : ParamInterface W)
      → Accounted i
      → Accounted (subscribe_params engine node_name whitelist class master of_int names i).0
        × Accounted (unsubscribe_params engine node_name whitelist class master of_int names i).0
  requests-Accounted names i t =
      (subscribe_params-Accounted names i t, unsubscribe_params-Accounted names i t)

  -- Names are recorded as clients spell them, and registered as they resolve: where two recorded
  -- names resolve to the same, and the master accepts, unsubscribing one of them ends the one
  -- registration that both have, while the other is still recorded.
  pub unsubscribe_params_same_name :
      (name other : String) (i : ParamInterface W)
      → (name == other) ≡ false
      → master.resolve name ≡ master.resolve other
      → contains other i.subscribed_params ≡ true
      → (master.perform (unsubscribe_param (master.resolve name)) i.world).1 ≡ succeeded
      → let after =
          (unsubscribe_params engine node_name whitelist class master of_int (name ∷ []) i).0 in
        (contains other after.subscribed_params ≡ true)
        × (reg.registered after.world (master.resolve other) ≡ false)
  unfolding unsubscribe_params unsubscribe_one
  unsubscribe_params_same_name name other i differs same there accepts =
      let sent = master.resolve name in
      let law = reg.registered-perform (unsubscribe_param sent) i.world (master.resolve other) in
      ground (
        arith,
        accepts,
        law,
        same,
        eq_iff sent (master.resolve other),
        differs,
        there,
        contains-erase name other i.subscribed_params,
      )

  -- No registration is left.
  Clear : ParamInterface W → Type 0
  Clear i = (n : String) → reg.registered i.world n ≡ false

  unsubscribe_one-Clear :
      (name : String) (i : ParamInterface W)
      → Clear i
      → Clear (unsubscribe_one engine node_name whitelist class master of_int name i).0
  unfolding unsubscribe_one Clear
  unsubscribe_one-Clear name i c n =
      ground
        (arith, c n, reg.registered-perform (unsubscribe_param (master.resolve name)) i.world n)

  unsubscribe_params-Clear :
      (names : List String) (i : ParamInterface W)
      → Clear i
      → Clear (unsubscribe_params engine node_name whitelist class master of_int names i).0
  unfolding unsubscribe_params
  unsubscribe_params-Clear [] i c = c
  unsubscribe_params-Clear (name ∷ names) i c =
      let r = unsubscribe_one engine node_name whitelist class master of_int name i in
      let next = unsubscribe_one-Clear name i c in
      elim (Bool-cases r.1) [
        | inl on ↦ rw on (unsubscribe_params-Clear names r.0 next)
        | inr off ↦ rw off next
      ]

  module _
      (works : (n : String) (w : W) → (master.perform (unsubscribe_param n) w).1 ≡ succeeded) where
    -- What is left after the loop was there before, and belongs to none of the names.
    dropped :
        (names : List String) (w : W) (n : String)
        → reg.registered
            (drop_registrations engine node_name whitelist class master of_int names w)
            n
          ≡ true
        → (reg.registered w n ≡ true)
          × ((name : String) → contains name names ≡ true → master.resolve name ≢ n)
    unfolding drop_registrations
    dropped [] w n held = (held, λ name e. absurd (cc e))
    dropped (m ∷ names) w n held =
        let law = reg.registered-perform (unsubscribe_param (master.resolve m)) w n in
        let done = works (master.resolve m) w in
        let rest =
          dropped names (master.perform (unsubscribe_param (master.resolve m)) w).0 n held in
        let gone : master.resolve m ≢ n =
          λ sent. ground (arith, law, done, rest.0, sent, eq_iff (master.resolve m) n) in
        (
          ground (arith, law, done, rest.0),
          λ name e sent. elim (Bool-cases (m == name)) [
            | inl this ↦ gone (ap master.resolve ((eq_iff m name).0 this) ∙ sent)
            | inr other ↦ rest.1 name (ground (arith, e, other)) sent
          ],
        )

    drop-Clear :
        (i : ParamInterface W) (n : String)
        → Accounted i
        → reg.registered
            (drop_registrations engine node_name whitelist class master of_int i.subscribed_params
              i.world)
            n
          ≡ false
    unfolding Accounted
    drop-Clear i n a =
        let left =
          reg.registered
            (drop_registrations engine node_name whitelist class master of_int i.subscribed_params
              i.world)
            n in
        elim (Bool-cases left) [
          | inr none_left ↦ none_left
          | inl held ↦
              let (before, others) = dropped i.subscribed_params i.world n held in
              let (name, there, sent) = a n before in absurd (others name there sent)
        ]

    shutdown-Clear :
        (i : ParamInterface W)
        → Accounted i
        → i.shut_down ≡ false
        → Clear (shutdown engine node_name whitelist class master of_int i)
    unfolding shutdown Clear
    shutdown-Clear i a running n = ground (arith, running, drop-Clear i n a)

    closed :
        (i : ParamInterface W)
        → (shutdown engine node_name whitelist class master of_int i).shut_down ≡ true
    unfolding shutdown
    closed i = ground arith

    -- If every registration of the bridge at the master is the resolved name of one that it has
    -- recorded, and the master answers the calls to unsubscribe, then after the first `shutdown` it has no
    -- registration of the bridge left, and no later request to subscribe or to unsubscribe brings
    -- one back.
    pub shutdown_unregisters :
        (i : ParamInterface W) (names more : List String) (n : String)
        → Accounted i
        → i.shut_down ≡ false
        → let down = shutdown engine node_name whitelist class master of_int i in
          let later = subscribe_params engine node_name whitelist class master of_int names down in
          let last =
            unsubscribe_params engine node_name whitelist class master of_int more later.0 in
          reg.registered last.0.world n ≡ false
    unfolding subscribe_params Clear
    shutdown_unregisters i names more n t running =
        let down = shutdown engine node_name whitelist class master of_int i in
        unsubscribe_params-Clear more _
          (if-elim (λ (r : ParamInterface W × Bool). Clear r.0) down.shut_down
            (λ _. shutdown-Clear i t running) (λ open'. absurd (cc (closed i))))
          n

  -- The check for the shutdown is made once, before the loop: where the shutdown falls between
  -- the check and a call on an admitted name that succeeds, the registration stays, and a second
  -- `shutdown` keeps it.
  pub subscribe_all-after_shutdown :
      (i : ParamInterface W) (name : String)
      → admits engine node_name whitelist name ≡ true
      → (master.perform
          (subscribe_param (master.resolve name))
          (shutdown engine node_name whitelist class master of_int i).world).1
        ≡ succeeded
      → let down = shutdown engine node_name whitelist class master of_int i in
        let late =
          (subscribe_all engine node_name whitelist class master of_int (name ∷ []) down).0 in
        reg.registered
          (shutdown engine node_name whitelist class master of_int late).world
          (master.resolve name)
        ≡ true
  unfolding subscribe_all shutdown
  subscribe_all-after_shutdown i name a s = elim (Bool-cases i.shut_down) [
    | inl e ↦ ground (
      arith,
      eq_iff (master.resolve name) (master.resolve name),
      reg.registered-perform (subscribe_param (master.resolve name)) i.world (master.resolve name),
    )
    | inr e ↦ ground (
      arith,
      eq_iff (master.resolve name) (master.resolve name),
      reg.registered-perform (subscribe_param (master.resolve name))
          (drop_registrations engine node_name whitelist class master of_int i.subscribed_params
            i.world)
          (master.resolve name),
    )
  ]
