-- ===== src/Services/Calls/Deadline.antt =====
-- The sweep of src/ros1_foxglove_bridge.cpp finds every overdue call.
use foxglove_bridge_ros.Prelude.{
  ℕ, ◌+◌, ◌≤◌, ◌<◌, ◌≡◌, ◌∙◌, refl, ap, Bool, true, false, not, ◌&&◌, ◌||◌, Option, none, some,
  List, [], ◌∷◌, lookup, leb, any, contains, nat_eq, string_eq, ◌==◌, nat_beq_iff, lookup-assign,
  any-append, contains-append, Bool-cases, inl, inr, arith,
}
use foxglove_bridge_ros.Services.Advertised.{Services}
use foxglove_bridge_ros.Services.Calls.{
  Bytes, Response, respond_ok, call_failed, timed_out, PendingServiceCall, CallState,
  ServiceRequest, GenericService, Handling, refused, started, check_request, place_call,
  handle_service_request, take_and_respond, worker_returns, is_pending, sweep_list, sweep_collect,
  expire, sweep_expire_one, sweep_expire_all, sweep_expired_service_calls,
}
use foxglove_bridge_ros.Services.Calls.Once.{
  IsOnce, take-IsOnce, sweep_collect-IsOnce, answered, Step, requests, returns, collects, expires,
  step, run, run-IsOnce, step-IsOnce,
}

abbrev pub due : ℕ → ℕ → ℕ × ℕ → Bool
due id deadline entry = entry.1 == id && leb entry.0 deadline

-- While the call is pending, it is on the list with this deadline or an earlier one, or is about to
-- be expired.
unfoldable pub Watches : ℕ → ℕ → CallState → Type 0
Watches id deadline s =
    is_pending s.calls id ≡ true → (any (due id deadline) s.watched || contains id s.expired) ≡ true

-- Taking a responder makes no call pending.
take-pending :
    (id : ℕ) (r : Response) (o : Option PendingServiceCall) (s : CallState) (j : ℕ)
    → lookup id s.calls ≡ o
    → is_pending (take_and_respond id r o s).calls j ≡ (not (id == j) && is_pending s.calls j)
unfolding take_and_respond
take-pending id r none s j e = ground (arith, nat_beq_iff id j)
take-pending id r (some call) s j e =
    ground
      (arith, nat_beq_iff id j, lookup-assign id j (record call { has_responder = false }) s.calls)

pub take-watched :
    (id : ℕ) (r : Response) (o : Option PendingServiceCall) (s : CallState)
    → ((take_and_respond id r o s).watched ≡ s.watched)
      × ((take_and_respond id r o s).expired ≡ s.expired)
unfolding take_and_respond
take-watched id r none s = (refl, refl)
take-watched id r (some call) s = (ground arith, ground arith)

take-Watches :
    (id : ℕ) (r : Response) (s : CallState) (j deadline : ℕ)
    → Watches j deadline s
    → Watches j deadline (take_and_respond id r (lookup id s.calls) s)
unfolding Watches
take-Watches id r s j deadline w p =
    let (same, also) = take-watched id r (lookup id s.calls) s in
    ground (arith, take-pending id r (lookup id s.calls) s j refl)

place_call-Watches :
    (s : CallState) (q : ServiceRequest) (late : ℕ) (h : Handling) (j deadline : ℕ)
    → j < s.next_call
    → Watches j deadline s
    → (Watches j deadline (place_call s q late h)) × (j < (place_call s q late h).next_call)
unfolding place_call Watches
place_call-Watches s q late (refused r) j deadline l w = (w, omega arith)
place_call-Watches s q late (started req) j deadline l w = (
  λ p. ground (
    arith,
    nat_beq_iff s.next_call j,
    any-append (due j deadline) s.watched ((late, s.next_call) ∷ []),
    lookup-assign s.next_call j (record { has_responder = true; service_name = q.service_name })
        s.calls,
  ),
  omega arith,
)

sweep_list-due :
    (now : ℕ) (calls : List (ℕ × PendingServiceCall)) (watched : List (ℕ × ℕ)) (j deadline : ℕ)
    → is_pending calls j ≡ true
    → any (due j deadline) watched ≡ true
    → (any (due j deadline) (sweep_list now calls watched).0
        || contains j (sweep_list now calls watched).1)
      ≡ true
unfolding sweep_list
sweep_list-due now calls [] j deadline p a = a
sweep_list-due now calls ((d, id) ∷ watched) j deadline p a = elim (Bool-cases (id == j)) [
  | inl e ↦
      let same = (nat_beq_iff id j).0 e in
      ground (arith, ap (is_pending calls) same, sweep_list-due now calls watched j deadline p)
  | inr e ↦ ground (arith, sweep_list-due now calls watched j deadline p)
]

-- At or after the deadline the call is collected.
sweep_list-overdue :
    (now : ℕ) (calls : List (ℕ × PendingServiceCall)) (watched : List (ℕ × ℕ)) (j deadline : ℕ)
    → deadline ≤ now
    → is_pending calls j ≡ true
    → any (due j deadline) watched ≡ true
    → contains j (sweep_list now calls watched).1 ≡ true
unfolding sweep_list
sweep_list-overdue now calls [] j deadline l p a = absurd (cc)
sweep_list-overdue now calls ((d, id) ∷ watched) j deadline l p a = elim (Bool-cases (id == j)) [
  | inl e ↦
      let same = (nat_beq_iff id j).0 e in
      ground
        (arith, ap (is_pending calls) same, sweep_list-overdue now calls watched j deadline l p)
  | inr e ↦ ground (arith, sweep_list-overdue now calls watched j deadline l p)
]

pub collect-Watches :
    (now : ℕ) (s : CallState) (j deadline : ℕ)
    → Watches j deadline s
    → Watches j deadline (sweep_collect now s)
unfolding sweep_collect Watches
collect-Watches now s j deadline w p = ground (
  arith,
  contains-append j s.expired (sweep_list now s.calls s.watched).1,
  w p,
  sweep_list-due now s.calls s.watched j deadline p,
)

expire-Watches :
    (ids : List ℕ) (s : CallState) (j deadline : ℕ)
    → s.expired ≡ ids
    → Watches j deadline s
    → Watches j deadline (expire ids s)
unfolding expire Watches
expire-Watches [] s j deadline e w p = w p
expire-Watches (id ∷ rest) s j deadline e w p =
    let s' = record s { expired = rest } in
    let (same, also) = take-watched id timed_out (lookup id s.calls) s' in
    ground (arith, nat_beq_iff id j, take-pending id timed_out (lookup id s.calls) s' j refl, w)

take-next :
    (id : ℕ) (r : Response) (o : Option PendingServiceCall) (s : CallState)
    → (take_and_respond id r o s).next_call ≡ s.next_call
unfolding take_and_respond
take-next id r none s = refl
take-next id r (some call) s = ground arith

abbrev pub Follows : ℕ → ℕ → CallState → Type 0
Follows j deadline s = (j < s.next_call) × Watches j deadline s

returns-Follows :
    (id : ℕ) (o : Option Bytes) (s : CallState) (j deadline : ℕ)
    → Follows j deadline s
    → Follows j deadline (worker_returns id o s)
unfolding worker_returns
returns-Follows id none s j deadline (l, w) = (
  rw (take-next id call_failed (lookup id s.calls) s) l,
  take-Watches id call_failed s j deadline w,
)
returns-Follows id (some b) s j deadline (l, w) = (
  rw (take-next id (respond_ok b) (lookup id s.calls) s) l,
  take-Watches id (respond_ok b) s j deadline w,
)

expire-next : (ids : List ℕ) (s : CallState) → (expire ids s).next_call ≡ s.next_call
unfolding expire
expire-next [] s = refl
expire-next (id ∷ rest) s = take-next id timed_out (lookup id s.calls) (record s { expired = rest })

step-Follows :
    (s : CallState) (a : Step) (j deadline : ℕ)
    → Follows j deadline s
    → Follows j deadline (step s a)
unfolding handle_service_request sweep_expire_one
step-Follows s (requests services q now timeout) j deadline (l, w) =
    let (w', l') = place_call-Watches s q (now + timeout) _ j deadline l w in (l', w')
step-Follows s (returns id result) j deadline f = returns-Follows id result s j deadline f
step-Follows s (collects now) j deadline (l, w) =
    (unfold sweep_collect in l, collect-Watches now s j deadline w)
step-Follows s expires j deadline (l, w) =
    (rw (expire-next s.expired s) l, expire-Watches s.expired s j deadline refl w)

pub run-Follows :
    (s : CallState) (steps : List Step) (j deadline : ℕ)
    → Follows j deadline s
    → Follows j deadline (run s steps)
run-Follows s [] j deadline f = f
run-Follows s (a ∷ steps) j deadline f =
    run-Follows (step s a) steps j deadline (step-Follows s a j deadline f)

pub expire_all-pending :
    (ids : List ℕ) (s : CallState) (j : ℕ)
    → is_pending (sweep_expire_all ids s).calls j ≡ (not (contains j ids) && is_pending s.calls j)
unfolding sweep_expire_all
expire_all-pending [] s j = refl
expire_all-pending (id ∷ rest) s j = ground (
  arith,
  expire_all-pending rest (take_and_respond id timed_out (lookup id s.calls) s) j,
  take-pending id timed_out (lookup id s.calls) s j refl,
)

pub expire_all-IsOnce :
    (ids : List ℕ) (s : CallState)
    → IsOnce s
    → IsOnce (sweep_expire_all ids s) × ((sweep_expire_all ids s).next_call ≡ s.next_call)
unfolding sweep_expire_all
expire_all-IsOnce [] s v = (record { once = v.once; known = v.known }, refl)
expire_all-IsOnce (id ∷ rest) s v =
    let (v', same) = expire_all-IsOnce rest _ (take-IsOnce id timed_out _ s refl v) in
    (v', same ∙ take-next id timed_out (lookup id s.calls) s)

-- After the collection a call that is due is to be expired, or pending no more.
collected :
    (now : ℕ) (s : CallState) (j deadline : ℕ)
    → Watches j deadline s
    → deadline ≤ now
    → (not (contains j (sweep_collect now s).expired) && is_pending (sweep_collect now s).calls j)
      ≡ false
unfolding sweep_collect Watches
collected now s j deadline w h = elim (Bool-cases (is_pending s.calls j)) [
  | inr e ↦ ground arith
  | inl e ↦ ground (
    arith,
    w e,
    contains-append j s.expired (sweep_list now s.calls s.watched).1,
    sweep_list-overdue now s.calls s.watched j deadline h e,
  )
]

pub sweep_answers :
    (now : ℕ) (s : CallState) (j deadline : ℕ)
    → IsOnce s
    → Follows j deadline s
    → deadline ≤ now
    → answered j (sweep_expired_service_calls now s).responses ≡ 1
unfolding sweep_expired_service_calls
sweep_answers now s j deadline v (l, w) h =
    let s₁ = sweep_collect now s in
    let (v', same) = expire_all-IsOnce s₁.expired s₁ (sweep_collect-IsOnce now s v) in
    let none_left = collected now s j deadline w h in
    ground (arith, v'.once j, expire_all-pending s₁.expired s₁ j)

pub placed :
    (s : CallState) (services : Services) (q : ServiceRequest) (start timeout : ℕ)
    (req : GenericService)
    → check_request (lookup q.service_name services) q ≡ started req
    → Follows s.next_call (start + timeout) (handle_service_request services s q start timeout)
unfolding handle_service_request Watches
placed s services q start timeout req accepted = (
  ground arith,
  λ p. ground (
    arith,
    any-append (due s.next_call (start + timeout)) s.watched ((start + timeout, s.next_call) ∷ []),
    nat_beq_iff s.next_call s.next_call,
  ),
)

-- A request that passes the guards, in a state in which each earlier one is pending or answered
-- once, is answered exactly once by the end of any sweep that runs at or after its deadline,
-- whatever requests, returning workers and sweeps come in between.
pub sweep_expired_service_calls-answered :
    (s : CallState) (services : Services) (q : ServiceRequest) (start timeout : ℕ)
    (req : GenericService) (steps : List Step) (now : ℕ)
    → IsOnce s
    → check_request (lookup q.service_name services) q ≡ started req
    → start + timeout ≤ now
    → answered s.next_call
        (sweep_expired_service_calls now
          (run (handle_service_request services s q start timeout) steps)).responses
      ≡ 1
sweep_expired_service_calls-answered s services q start timeout req steps now v accepted h =
    let s₁ = handle_service_request services s q start timeout in
    sweep_answers now (run s₁ steps) s.next_call (start + timeout)
      (run-IsOnce s₁ steps (step-IsOnce s (requests services q start timeout) v))
      (run-Follows s₁ steps s.next_call (start + timeout)
        (placed s services q start timeout req accepted))
      h
