-- ===== src/Params/Worker/Answers.antt =====
-- Every get and set request that reaches the queue of src/transport_manager.cpp is answered.
use foxglove_bridge_ros.Prelude.{
  ℕ, zero, suc, ◌+◌, ◌≡◌, refl, ap, String, true, false, List, [], ◌∷◌, ◌++◌, if◌then◌else◌, ◌==◌,
  nat_eq, arith, Option-cases, map, inl, inr, length,
}
use foxglove_bridge_ros.Params.Worker.{
  ParameterBackend, ParameterOp, get_op, set_op, subscribe_op, unsubscribe_op, Answer, responded,
  dropped, Manager, drop_op, drop_all, enqueue_parameter_op, stop, handle_get_params, handle,
  serve_front, worker_step,
}

-- The responder that an operation owns, counted at one number.
abbrev pub owns : {P : Type 0} → ℕ → ParameterOp P → ℕ
owns r (get_op names q) = if q == r then 1 else 0
owns r (set_op params q) = if q == r then 1 else 0
owns r (subscribe_op names) = 0
owns r (unsubscribe_op names) = 0

abbrev pub queued : {P : Type 0} → ℕ → List (ParameterOp P) → ℕ
queued r [] = 0
queued r (op ∷ ops) = owns r op + queued r ops

-- How often the responder has been used or destroyed.
abbrev pub answered : {P : Type 0} → ℕ → List (Answer P) → ℕ
answered r [] = 0
answered r (responded q values ∷ answers) =
    let rest = answered r answers in if q == r then rest + 1 else rest
answered r (dropped q ∷ answers) =
    let rest = answered r answers in if q == r then rest + 1 else rest

queued-append :
    {P : Type 0} (r : ℕ) (ops more : List (ParameterOp P))
    → queued r (ops ++ more) ≡ queued r ops + queued r more
queued-append r [] more = omega arith
queued-append r (op ∷ ops) more = omega (arith, queued-append r ops more)

answered-append :
    {P : Type 0} (r : ℕ) (xs ys : List (Answer P))
    → answered r (xs ++ ys) ≡ answered r xs + answered r ys
answered-append r [] ys = omega arith
answered-append r (responded q v ∷ xs) ys = ground (arith, answered-append r xs ys)
answered-append r (dropped q ∷ xs) ys = ground (arith, answered-append r xs ys)

answered-drop_op : {P : Type 0} (r : ℕ) (op : ParameterOp P) → answered r (drop_op op) ≡ owns r op
unfolding drop_op
answered-drop_op r (get_op names q) = ground arith
answered-drop_op r (set_op params q) = ground arith
answered-drop_op r (subscribe_op names) = refl
answered-drop_op r (unsubscribe_op names) = refl

answered-drop_all :
    {P : Type 0} (r : ℕ) (ops : List (ParameterOp P)) → answered r (drop_all ops) ≡ queued r ops
unfolding drop_all
answered-drop_all r [] = refl
answered-drop_all r (op ∷ ops) = omega (
  arith,
  answered-append r (drop_op op) (drop_all ops),
  answered-drop_op r op,
  answered-drop_all r ops,
)

-- What happens to the manager from outside: a callback queues an operation, the worker makes a
-- round, the bridge stops.
pub data Action (P : Type 0) : Type 0 where
  enqueues : ParameterOp P → Action P
  works : Action P
  stops : Action P

abbrev pub requested : {P : Type 0} → ℕ → List (Action P) → ℕ
requested r [] = 0
requested r (enqueues op ∷ actions) = owns r op + requested r actions
requested r (works ∷ actions) = requested r actions
requested r (stops ∷ actions) = requested r actions

module _ {S P : Type 0} where
  abbrev pub owing : ℕ → Manager S P → ℕ
  owing r m = queued r m.op_queue + answered r m.answers

  -- The flags of `stop` agree: the worker lives until the manager stops, and the queue of a
  -- stopped manager stays empty.
  pub record IsWired (m : Manager S P) : Type 0 where
    pub flags : m.op_shutdown ≡ m.stopped
    pub lives : m.stopped ≡ false → m.worker_alive ≡ true
    pub drained : m.stopped ≡ true → m.op_queue ≡ []

  enqueue-owing :
      (r : ℕ) (m : Manager S P) (op : ParameterOp P)
      → owing r (enqueue_parameter_op m op) ≡ owing r m + owns r op
  unfolding enqueue_parameter_op
  enqueue-owing r m op = ground (
    arith,
    queued-append r m.op_queue (op ∷ []),
    answered-append r m.answers (drop_op op),
    answered-drop_op r op,
  )

  enqueue-IsWired :
      (m : Manager S P) (op : ParameterOp P) → IsWired m → IsWired (enqueue_parameter_op m op)
  unfolding enqueue_parameter_op
  enqueue-IsWired m op w = ground arith

  stop-owing : (r : ℕ) (m : Manager S P) → IsWired m → owing r (stop m) ≡ owing r m
  unfolding stop
  stop-owing r m w =
      ground
        (arith, answered-append r m.answers (drop_all m.op_queue), answered-drop_all r m.op_queue)

  stop-IsWired : (m : Manager S P) → IsWired m → IsWired (stop m) × ((stop m).stopped ≡ true)
  unfolding stop
  stop-IsWired m w = ground arith

  -- Stopping leaves nothing in the queue.
  stop-empties : (m : Manager S P) → IsWired m → (stop m).op_queue ≡ []
  unfolding stop
  stop-empties m w = ground arith

module _ {S P : Type 0} (param_name : P → String) (api : ParameterBackend S P) where
  get-owing :
      (r : ℕ) (m : Manager S P) (names : List String) (q : ℕ)
      → owing r (handle_get_params param_name api m names q) ≡ owing r m + (if q == r then 1 else 0)
  unfolding handle_get_params
  get-owing r m names q = elim (Option-cases (api.get_params names m.backend).1) [
    | inl e ↦
        rw (e, handle_get_params) (ground (arith, answered-append r m.answers (dropped q ∷ [])))
    | inr (v, e) ↦
        rw (e, handle_get_params) (ground (arith, answered-append r m.answers (responded q v ∷ [])))
  ]

  handle-owing :
      (r : ℕ) (m : Manager S P) (op : ParameterOp P)
      → owing r (handle param_name api m op) ≡ owing r m + owns r op
  unfolding handle
  handle-owing r m (get_op names q) = get-owing r m names q
  handle-owing r m (set_op [] q) = ground (arith, answered-append r m.answers (responded q [] ∷ []))
  handle-owing r m (set_op (p ∷ params) q) = ground (
    arith,
    answered-append r m.answers (dropped q ∷ []),
    get-owing r (record m { backend = (api.set_params (p ∷ params) m.backend).0 })
        (map param_name (p ∷ params)) q,
  )
  handle-owing r m (subscribe_op names) = ground arith
  handle-owing r m (unsubscribe_op names) = ground arith

  handle-IsWired :
      (m : Manager S P) (op : ParameterOp P) → IsWired m → IsWired (handle param_name api m op)
  unfolding handle
  handle-IsWired m (get_op names q) w = ground arith
  handle-IsWired m (set_op [] q) w = ground arith
  handle-IsWired m (set_op (p ∷ params) q) w = ground arith
  handle-IsWired m (subscribe_op names) w = ground arith
  handle-IsWired m (unsubscribe_op names) w = ground arith

  front-owing :
      (r : ℕ) (m : Manager S P) (ops : List (ParameterOp P))
      → m.op_queue ≡ ops
      → owing r (serve_front param_name api m ops) ≡ owing r m
  unfolding serve_front
  front-owing r m [] e = ground arith
  front-owing r m (op ∷ ops) e = ground (arith, handle-owing r (record m { op_queue = ops }) op)

  step-owing : (r : ℕ) (m : Manager S P) → owing r (worker_step param_name api m) ≡ owing r m
  unfolding worker_step
  step-owing r m = ground (arith, front-owing r m m.op_queue refl)

  front-IsWired :
      (m : Manager S P) (ops : List (ParameterOp P))
      → m.op_queue ≡ ops
      → IsWired m
      → IsWired (serve_front param_name api m ops)
  unfolding serve_front
  front-IsWired m [] e w = ground arith
  front-IsWired m (op ∷ ops) e w = handle-IsWired (record m { op_queue = ops }) op (ground arith)

  step-IsWired : (m : Manager S P) → IsWired m → IsWired (worker_step param_name api m)
  unfolding worker_step
  step-IsWired m w = ground (arith, front-IsWired m m.op_queue refl w)

  abbrev pub act : Manager S P → Action P → Manager S P
  act m (enqueues op) = enqueue_parameter_op m op
  act m works = worker_step param_name api m
  act m stops = stop m

  abbrev pub run : Manager S P → List (Action P) → Manager S P
  run m [] = m
  run m (a ∷ actions) = run (act m a) actions

  run-IsWired : (m : Manager S P) (actions : List (Action P)) → IsWired m → IsWired (run m actions)
  run-IsWired m [] w = w
  run-IsWired m (enqueues op ∷ actions) w =
      run-IsWired (enqueue_parameter_op m op) actions (enqueue-IsWired m op w)
  run-IsWired m (works ∷ actions) w =
      run-IsWired (worker_step param_name api m) actions (step-IsWired m w)
  run-IsWired m (stops ∷ actions) w = run-IsWired (stop m) actions (stop-IsWired m w).0

  run-owing :
      (r : ℕ) (m : Manager S P) (actions : List (Action P))
      → IsWired m
      → owing r (run m actions) ≡ owing r m + requested r actions
  run-owing r m [] w = omega arith
  run-owing r m (enqueues op ∷ actions) w = omega (
    arith,
    run-owing r (enqueue_parameter_op m op) actions (enqueue-IsWired m op w),
    enqueue-owing r m op,
  )
  run-owing r m (works ∷ actions) w =
      omega (
        arith,
        run-owing r (worker_step param_name api m) actions (step-IsWired m w),
        step-owing r m,
      )
  run-owing r m (stops ∷ actions) w =
      omega (arith, run-owing r (stop m) actions (stop-IsWired m w).0, stop-owing r m w)

  -- From a manager whose flags agree, whatever requests arrive, and however the worker and the
  -- shutdown interleave with them: once the manager has stopped, each responder has been used or
  -- destroyed exactly as often as it was handed in, so a request is answered once, never twice
  -- and never not at all.
  pub stop-answered :
      (r : ℕ) (m : Manager S P) (actions : List (Action P))
      → IsWired m
      → answered r (stop (run m actions)).answers ≡ owing r m + requested r actions
  stop-answered r m actions w =
      let wired = run-IsWired m actions w in
      omega (
        arith,
        stop-owing r (run m actions) wired,
        run-owing r m actions w,
        ap (queued r) (stop-empties (run m actions) wired),
      )

  abbrev pub rounds : ℕ → Manager S P → Manager S P
  rounds zero m = m
  rounds (suc n) m = rounds n (worker_step param_name api m)

  pub handle-queue :
      (m : Manager S P) (op : ParameterOp P) → (handle param_name api m op).op_queue ≡ m.op_queue
  unfolding handle
  handle-queue m (get_op names q) = ground arith
  handle-queue m (set_op [] q) = ground arith
  handle-queue m (set_op (p ∷ params) q) = ground arith
  handle-queue m (subscribe_op names) = ground arith
  handle-queue m (unsubscribe_op names) = ground arith

  pub handle-alive :
      (m : Manager S P) (op : ParameterOp P)
      → (handle param_name api m op).worker_alive ≡ m.worker_alive
  unfolding handle
  handle-alive m (get_op names q) = ground arith
  handle-alive m (set_op [] q) = ground arith
  handle-alive m (set_op (p ∷ params) q) = ground arith
  handle-alive m (subscribe_op names) = ground arith
  handle-alive m (unsubscribe_op names) = ground arith

  pub handle-shutdown :
      (m : Manager S P) (op : ParameterOp P)
      → (handle param_name api m op).op_shutdown ≡ m.op_shutdown
  unfolding handle
  handle-shutdown m (get_op names q) = ground arith
  handle-shutdown m (set_op [] q) = ground arith
  handle-shutdown m (set_op (p ∷ params) q) = ground arith
  handle-shutdown m (subscribe_op names) = ground arith
  handle-shutdown m (unsubscribe_op names) = ground arith

  step_front :
      (m : Manager S P) (op : ParameterOp P) (ops : List (ParameterOp P))
      → m.op_queue ≡ op ∷ ops
      → m.worker_alive ≡ true
      → ((worker_step param_name api m).op_queue ≡ ops)
        × ((worker_step param_name api m).worker_alive ≡ true)
  unfolding worker_step serve_front
  step_front m op ops e alive =
      let m₁ = record m { op_queue = ops } in
      (ground (arith, handle-queue m₁ op), ground (arith, handle-alive m₁ op))

  -- A running worker empties the queue in as many rounds as it has entries, and so answers each
  -- request that waits in it.
  pub rounds-answered :
      (r : ℕ) (ops : List (ParameterOp P)) (m : Manager S P)
      → m.op_queue ≡ ops
      → m.worker_alive ≡ true
      → ((rounds (length ops) m).op_queue ≡ [])
        × (answered r (rounds (length ops) m).answers ≡ answered r m.answers + queued r ops)
  rounds-answered r [] m e alive = (e, ground arith)
  rounds-answered r (op ∷ ops) m e alive =
      let next = step_front m op ops e alive in
      let rest = rounds-answered r ops (worker_step param_name api m) next.0 next.1 in
      (rest.0, omega (arith, rest.1, step-owing r m, ap (queued r) e, ap (queued r) next.0))
