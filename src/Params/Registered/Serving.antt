-- ===== src/Params/Registered/Serving.antt =====
-- A worker that serves requests while they come (src/transport_manager.cpp): what it has counted and
-- what waits in its queue.
use foxglove_bridge_ros.Prelude.{
  ℕ, zero, suc, ◌≡◌, refl, sym, ap, subst, ◌∙◌, String, true, false, List, [], ◌∷◌, ◌++◌, if-elim,
}
use mathlib.Core.List.{append_assoc, append-nil}
use foxglove_bridge_ros.Params.Worker.{
  ParameterBackend, ParameterOp, Manager, count_of, enqueue_parameter_op, serve_front, worker_step,
}
use foxglove_bridge_ros.Params.Worker.Answers.{rounds, handle-queue, handle-alive, handle-shutdown}
use foxglove_bridge_ros.Params.Worker.InSync.{SubscribingBackend, IsInSync, handle-IsInSync}
use foxglove_bridge_ros.Params.Registered.Open.{open_after, open_after_all, handle-open_after}

abbrev pub enqueue_each : {S P : Type 0} → Manager S P → List (ParameterOp P) → Manager S P
enqueue_each m [] = m
enqueue_each m (op ∷ ops) = enqueue_each (enqueue_parameter_op m op) ops

open_after_all-append :
    {P : Type 0} (n : String) (ops more : List (ParameterOp P)) (k : ℕ)
    → open_after_all n (ops ++ more) k ≡ open_after_all n more (open_after_all n ops k)
open_after_all-append n [] more k = refl
open_after_all-append n (op ∷ ops) more k = open_after_all-append n ops more (open_after n op k)

module _ {S P : Type 0} (param_name : P → String) (api : ParameterBackend S P)
    (laws : SubscribingBackend api) where
  -- The worker runs, and what it has counted and still has in its queue are the operations so far.
  pub record IsServing (ops : List (ParameterOp P)) (m : Manager S P) : Type 0 where
    pub sync : IsInSync param_name api laws m
    pub alive : m.worker_alive ≡ true
    pub open_queue : m.op_shutdown ≡ false
    pub counted :
        (n : String)
        → open_after_all n m.op_queue (count_of n m.subscriber_count) ≡ open_after_all n ops 0

  enqueue-IsServing :
      (ops : List (ParameterOp P)) (m : Manager S P) (op : ParameterOp P)
      → IsServing ops m
      → IsServing (ops ++ op ∷ []) (enqueue_parameter_op m op)
  unfolding enqueue_parameter_op
  enqueue-IsServing ops m op v =
      if-elim (IsServing (ops ++ op ∷ [])) m.op_shutdown
        (λ closed. absurd (cc (closed, v.open_queue)))
        (λ _. record {
          sync = record {
            tracked = v.sync.tracked;
            running = v.sync.running;
            agrees = v.sync.agrees;
          };
          alive = v.alive;
          open_queue = v.open_queue;
          counted = λ n.
              open_after_all-append n m.op_queue (op ∷ []) (count_of n m.subscriber_count)
              ∙ ap (open_after n op) (v.counted n)
              ∙ sym (open_after_all-append n ops (op ∷ []) 0);
        })

  pub enqueue_each-IsServing :
      (ops more : List (ParameterOp P)) (m : Manager S P)
      → IsServing ops m
      → IsServing (ops ++ more) (enqueue_each m more)
  enqueue_each-IsServing ops [] m v = subst (λ o. IsServing o m) (sym (append-nil ops)) v
  enqueue_each-IsServing ops (op ∷ more) m v =
      subst (λ o. IsServing o (enqueue_each (enqueue_parameter_op m op) more))
        (append_assoc ops (op ∷ []) more)
        (enqueue_each-IsServing (ops ++ op ∷ []) more (enqueue_parameter_op m op)
          (enqueue-IsServing ops m op v))

  front-IsServing :
      (ops : List (ParameterOp P)) (m : Manager S P) (queue : List (ParameterOp P))
      → m.op_queue ≡ queue
      → IsServing ops m
      → IsServing ops (serve_front param_name api m queue)
  unfolding serve_front
  front-IsServing ops m [] e v =
      if-elim (IsServing ops) m.op_shutdown (λ closed. absurd (cc (closed, v.open_queue))) (λ _. v)
  front-IsServing ops m (op ∷ queue) e v =
      let m₁ = record m { op_queue = queue } in
      record {
        sync =
            handle-IsInSync param_name api laws m₁ op (record {
              tracked = v.sync.tracked;
              running = v.sync.running;
              agrees = v.sync.agrees;
            });
        alive = handle-alive param_name api m₁ op ∙ v.alive;
        open_queue = handle-shutdown param_name api m₁ op ∙ v.open_queue;
        counted = λ n.
            rw (handle-queue param_name api m₁ op, handle-open_after param_name api m₁ op n)
              (ap (λ q. open_after_all n q (count_of n m.subscriber_count)) (sym e) ∙ v.counted n);
      }

  pub step-IsServing :
      (ops : List (ParameterOp P)) (m : Manager S P)
      → IsServing ops m
      → IsServing ops (worker_step param_name api m)
  unfolding worker_step
  step-IsServing ops m v =
      if-elim (IsServing ops) m.worker_alive (λ _. front-IsServing ops m m.op_queue refl v) (λ _. v)

  pub rounds-IsServing :
      (k : ℕ) (ops : List (ParameterOp P)) (m : Manager S P)
      → IsServing ops m
      → IsServing ops (rounds param_name api k m)
  rounds-IsServing zero ops m v = v
  rounds-IsServing (suc k) ops m v =
      rounds-IsServing k ops (worker_step param_name api m) (step-IsServing ops m v)
