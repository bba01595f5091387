-- ===== src/Params/Registered/Open.antt =====
-- The subscriptions to parameters that clients have open, against the master's registrations.
use foxglove_bridge_ros.Prelude.{
  ℕ, ◌+◌, ◌-◌, ◌≡◌, refl, String, List, [], ◌∷◌, is_empty, if-elim, Option-cases, inl, inr, ap,
}
use foxglove_bridge_ros.Params.Worker.{
  ParameterBackend, ParameterOp, get_op, set_op, subscribe_op, unsubscribe_op, Manager, count_of,
  count_up, count_down, handle_get_params, handle_set_params, handle_subscribe_params,
  handle_unsubscribe_params, handle,
}
use foxglove_bridge_ros.Params.Worker.Refcount.{times, count_of-count_up, count_of-count_down}

-- How many subscriptions to a name are open after some operations, where it had `n` before.
abbrev pub open_after : {P : Type 0} → String → ParameterOp P → ℕ → ℕ
open_after name (get_op names r) n = n
open_after name (set_op params r) n = n
open_after name (subscribe_op names) n = n + times name names
open_after name (unsubscribe_op names) n = n - times name names

abbrev pub open_after_all : {P : Type 0} → String → List (ParameterOp P) → ℕ → ℕ
open_after_all name [] n = n
open_after_all name (op ∷ ops) n = open_after_all name ops (open_after name op n)

module _ {S P : Type 0} (param_name : P → String) (api : ParameterBackend S P) where
  handle_get_params-counts :
      (m : Manager S P) (names : List String) (r : ℕ)
      → (handle_get_params param_name api m names r).subscriber_count ≡ m.subscriber_count
  unfolding handle_get_params
  handle_get_params-counts m names r = elim (Option-cases (api.get_params names m.backend).1) [
    | inl e ↦ rw (e, handle_get_params) refl
    | inr (values, e) ↦ rw (e, handle_get_params) refl
  ]

  handle_set_params-counts :
      (m : Manager S P) (params : List P) (r : ℕ)
      → (handle_set_params param_name api m params r).subscriber_count ≡ m.subscriber_count
  unfolding handle_set_params
  handle_set_params-counts m [] r = refl
  handle_set_params-counts m (p ∷ params) r =
      let (backend, returned) = api.set_params (p ∷ params) m.backend in
      if-elim (λ (after : Manager S P). after.subscriber_count ≡ m.subscriber_count) returned
        (λ _. handle_get_params-counts (record m { backend = backend }) _ r) (λ _. refl)

  -- The worker counts the open subscriptions.
  pub handle-open_after :
      (m : Manager S P) (op : ParameterOp P) (n : String)
      → count_of n (handle param_name api m op).subscriber_count
        ≡ open_after n op (count_of n m.subscriber_count)
  unfolding handle handle_subscribe_params handle_unsubscribe_params
  handle-open_after m (get_op names r) n = ap (count_of n) (handle_get_params-counts m names r)
  handle-open_after m (set_op params r) n = ap (count_of n) (handle_set_params-counts m params r)
  handle-open_after m (subscribe_op names) n =
      let counted = count_of-count_up names m.subscriber_count n in
      if-elim
        (λ (after : Manager S P).
          count_of n after.subscriber_count ≡ count_of n m.subscriber_count + times n names)
        (is_empty (count_up names m.subscriber_count).1) (λ _. counted) (λ _. counted)
  handle-open_after m (unsubscribe_op names) n =
      let counted = count_of-count_down names m.subscriber_count n in
      if-elim
        (λ (after : Manager S P).
          count_of n after.subscriber_count ≡ count_of n m.subscriber_count - times n names)
        (is_empty (count_down names m.subscriber_count).1) (λ _. counted) (λ _. counted)
