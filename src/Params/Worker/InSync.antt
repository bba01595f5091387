-- ===== src/Params/Worker/InSync.antt =====
-- The parameter worker of src/transport_manager.cpp and its backend agree on what is subscribed.
use foxglove_bridge_ros.Prelude.{
  ℕ, ◌≡◌, refl, String, Bool, true, not, ◌&&◌, ◌||◌, List, [], ◌∷◌, map, contains, is_empty, nat_eq,
  string_eq, arith, ltb, if-elim, Option-cases, inl, inr, ◌∙◌,
}
use foxglove_bridge_ros.Params.Worker.{
  count_of, count_up, count_down, ParameterBackend, ParameterOp, get_op, set_op, subscribe_op,
  unsubscribe_op, Manager, handle_get_params, handle_set_params, handle_subscribe_params,
  handle_unsubscribe_params, handle,
}
use foxglove_bridge_ros.Params.Worker.Refcount.{
  times, Positive, count_of-count_up, count_of-count_down, times-count_up, times-count_down,
  count_up-Positive, count_down-Positive,
}

-- A backend whose calls do what they are for: while it is running it is subscribed to a set of
-- names, of which it admits some only.
pub record SubscribingBackend {S P : Type 0} (api : ParameterBackend S P) : Type 1 where
  pub admitted : String → Bool
  pub Running : S → Type 0
  pub subscribed : S → String → Bool
  pub subscribe-Running :
      (names : List String) (s : S) → Running s → Running (api.subscribe_params names s).0
  pub unsubscribe-Running :
      (names : List String) (s : S) → Running s → Running (api.unsubscribe_params names s).0
  pub get-Running : (names : List String) (s : S) → Running s → Running (api.get_params names s).0
  pub set-Running : (params : List P) (s : S) → Running s → Running (api.set_params params s).0
  pub subscribed-subscribe :
      (names : List String) (s : S) (n : String)
      → Running s
      → subscribed (api.subscribe_params names s).0 n
        ≡ (contains n names && admitted n || subscribed s n)
  pub subscribed-unsubscribe :
      (names : List String) (s : S) (n : String)
      → Running s
      → subscribed (api.unsubscribe_params names s).0 n ≡ (not (contains n names) && subscribed s n)
  pub subscribed-get :
      (names : List String) (s : S) (n : String)
      → subscribed (api.get_params names s).0 n ≡ subscribed s n
  pub subscribed-set :
      (params : List P) (s : S) (n : String)
      → subscribed (api.set_params params s).0 n ≡ subscribed s n

contains-times : (n : String) (names : List String) → contains n names ≡ ltb 0 (times n names)
contains-times n [] = refl
contains-times n (m ∷ names) = ground (arith, contains-times n names)

empty-times : (n : String) (names : List String) → is_empty names ≡ true → times n names ≡ 0
empty-times n [] e = refl
empty-times n (m ∷ names) e = cc

module _ {S P : Type 0} (param_name : P → String) (api : ParameterBackend S P)
    (laws : SubscribingBackend api) where
  -- The backend is subscribed to the admitted names that have a subscriber, and to no other.
  pub record IsInSync (m : Manager S P) : Type 0 where
    pub tracked : Positive m.subscriber_count
    pub running : laws.Running m.backend
    pub agrees :
        (n : String)
        → laws.subscribed m.backend n ≡ (laws.admitted n && ltb 0 (count_of n m.subscriber_count))

  handle_get_params-IsInSync :
      (m : Manager S P) (names : List String) (responder : ℕ)
      → IsInSync m
      → IsInSync (handle_get_params param_name api m names responder)
  unfolding handle_get_params
  handle_get_params-IsInSync m names responder v =
      elim (Option-cases (api.get_params names m.backend).1) [
        | inl e ↦
            rw (e, handle_get_params)
              (record {
                tracked = v.tracked;
                running = laws.get-Running names m.backend v.running;
                agrees = λ n. laws.subscribed-get names m.backend n ∙ v.agrees n;
              })
        | inr (values, e) ↦
            rw (e, handle_get_params)
              (record {
                tracked = v.tracked;
                running = laws.get-Running names m.backend v.running;
                agrees = λ n. laws.subscribed-get names m.backend n ∙ v.agrees n;
              })
      ]

  handle_set_params-IsInSync :
      (m : Manager S P) (params : List P) (responder : ℕ)
      → IsInSync m
      → IsInSync (handle_set_params param_name api m params responder)
  unfolding handle_set_params
  handle_set_params-IsInSync m [] responder v = record {
    tracked = v.tracked;
    running = v.running;
    agrees = v.agrees;
  }
  handle_set_params-IsInSync m (p ∷ params) responder v =
      let (backend, returned) = api.set_params (p ∷ params) m.backend in
      let kept = λ (n : String). laws.subscribed-set (p ∷ params) m.backend n ∙ v.agrees n in
      let going = laws.set-Running (p ∷ params) m.backend v.running in
      if-elim IsInSync returned
        (λ _.
          handle_get_params-IsInSync (record m { backend = backend }) (map param_name (p ∷ params))
            responder (record { tracked = v.tracked; running = going; agrees = kept }))
        (λ _. record { tracked = v.tracked; running = going; agrees = kept })

  handle_subscribe_params-IsInSync :
      (m : Manager S P) (names : List String)
      → IsInSync m
      → IsInSync (handle_subscribe_params param_name api m names)
  unfolding handle_subscribe_params
  handle_subscribe_params-IsInSync m names v =
      let (counts, forward) = count_up names m.subscriber_count in
      let positive = count_up-Positive names m.subscriber_count v.tracked in
      if-elim IsInSync (is_empty forward)
        (λ none_new. record {
          tracked = positive;
          running = v.running;
          agrees = λ n. ground (
            arith,
            v.agrees n,
            empty-times n forward none_new,
            times-count_up names m.subscriber_count n,
            count_of-count_up names m.subscriber_count n,
          );
        })
        (λ _. record {
          tracked = positive;
          running = laws.subscribe-Running forward m.backend v.running;
          agrees = λ n. ground (
            arith,
            v.agrees n,
            laws.subscribed-subscribe forward m.backend n v.running,
            contains-times n forward,
            times-count_up names m.subscriber_count n,
            count_of-count_up names m.subscriber_count n,
          );
        })

  handle_unsubscribe_params-IsInSync :
      (m : Manager S P) (names : List String)
      → IsInSync m
      → IsInSync (handle_unsubscribe_params param_name api m names)
  unfolding handle_unsubscribe_params
  handle_unsubscribe_params-IsInSync m names v =
      let (counts, forward) = count_down names m.subscriber_count in
      let positive = count_down-Positive names m.subscriber_count v.tracked in
      if-elim IsInSync (is_empty forward)
        (λ none_zeroed. record {
          tracked = positive;
          running = v.running;
          agrees = λ n. ground (
            arith,
            v.agrees n,
            empty-times n forward none_zeroed,
            times-count_down names m.subscriber_count n v.tracked,
            count_of-count_down names m.subscriber_count n,
          );
        })
        (λ _. record {
          tracked = positive;
          running = laws.unsubscribe-Running forward m.backend v.running;
          agrees = λ n. ground (
            arith,
            v.agrees n,
            laws.subscribed-unsubscribe forward m.backend n v.running,
            contains-times n forward,
            times-count_down names m.subscriber_count n v.tracked,
            count_of-count_down names m.subscriber_count n,
          );
        })

  -- If the backend is running and subscribed to exactly the names that it admits and that have a
  -- subscriber on some transport, it is so after the worker has handled any operation, if the
  -- backend's calls do what they are for.
  pub handle-IsInSync :
      (m : Manager S P) (op : ParameterOp P) → IsInSync m → IsInSync (handle param_name api m op)
  unfolding handle
  handle-IsInSync m (get_op names responder) v = handle_get_params-IsInSync m names responder v
  handle-IsInSync m (set_op params responder) v = handle_set_params-IsInSync m params responder v
  handle-IsInSync m (subscribe_op names) v = handle_subscribe_params-IsInSync m names v
  handle-IsInSync m (unsubscribe_op names) v = handle_unsubscribe_params-IsInSync m names v
