-- ===== src/Locks/Progress.antt =====
-- Threads whose programs are ordered, and that join threads of lower numbers, never block each other for good.
use foxglove_bridge_ros.Prelude.{
  ℕ, zero, suc, ◌+◌, ◌<◌, ◌≤◌, ◌≡◌, ◌≢◌, refl, sym, ap, subst, inl, inr, true, false, Option, none,
  some, List, [], ◌∷◌, any, length, All, arith, Bool-cases, nat_beq_iff, Option-cases, ◌∙◌,
}
use foxglove_bridge_ros.Locks.{
  Lock, gateway_subscriptions, client_advertisements_mutex, running_callback, subscriptions_mutex,
  channel_registry, latched_channels_mutex, description_provider_mutex, services_mutex,
  pending_service_calls_mutex, pending_call_mutex, poll_mutex, param_op_mutex,
  param_interface_mutex, rank, which, same, Instruction, acquire, release, Task, critical, awaits,
  Thread, holds, unlock, is_done, ended, next, moved, step_in, step, run, tasks_work, work,
}
use foxglove_bridge_ros.Locks.Ordered.{Ordered}

-- Each operation is ordered, and only threads of lower numbers than this are joined.
abbrev pub TaskFits : ℕ → Task → Type 0
TaskFits n (critical p) = Ordered [] p
TaskFits n (awaits i) = i < n

abbrev pub Fits : ℕ → Thread → Type 0
Fits n t = Ordered t.held t.current × All (TaskFits n) t.later

-- The threads, numbered from this on.
abbrev pub AllFit : ℕ → List Thread → Type 0
AllFit n [] = Unit
AllFit n (t ∷ threads) = Fits n t × AllFit (suc n) threads

same_refl : (l : Lock) → same l l ≡ true
same_refl l = ground (arith, nat_beq_iff (rank l) (rank l), nat_beq_iff (which l) (which l))

unlock-newest : (l h : Lock) (held : List Lock) → h ≡ l → unlock l (h ∷ held) ≡ held
unlock-newest l h held e =
    let found : same l h ≡ true = ap (same l) e ∙ same_refl l in rw found refl

pub ends_free : (held : List Lock) → Ordered held [] → held ≡ []
ends_free [] o = refl
ends_free (h ∷ held) o = o

-- A step keeps a thread ordered.
next-Fits :
    (n : ℕ) (all : List Thread) (held : List Lock) (rest : List Instruction) (later : List Task)
    → Ordered held rest
    → All (TaskFits n) later
    → (t : Thread) → next all held rest later ≡ some t
    → Fits n t
unfolding next
next-Fits n all held [] [] o a t e = absurd (cc e)
next-Fits n all held [] (critical p ∷ later) o a t e =
    subst (Fits n) (ap (moved t) e) (subst (λ h. Ordered h p) (sym (ends_free held o)) a.0, a.1)
next-Fits n all held [] (awaits i ∷ later) o a t e = elim (Bool-cases (ended i all)) [
  | inl over ↦
      let goes : next all held [] (awaits i ∷ later)
          ≡ some (record { held = held; current = []; later = later }) =
        ground (arith, over) in
      subst (Fits n) (ap (moved t) (sym goes ∙ e)) (o, a.1)
  | inr runs ↦ absurd (ground (arith, e, runs))
]
next-Fits n all held (acquire l ∷ rest) later o a t e = elim (Bool-cases (any (holds l) all)) [
  | inl taken ↦ absurd (ground (arith, e, taken))
  | inr free ↦
      let goes : next all held (acquire l ∷ rest) later
          ≡ some (record { held = l ∷ held; current = rest; later = later }) =
        ground (arith, free) in
      subst (Fits n) (ap (moved t) (sym goes ∙ e)) (o.1, a)
]
next-Fits n all [] (release l ∷ rest) later o a t e = absurd (cc o)
next-Fits n all (h ∷ held) (release l ∷ rest) later o a t e =
    subst (Fits n) (ap (moved t) e)
      (subst (λ left. Ordered left rest) (sym (unlock-newest l h held o.0)) o.1, a)

-- and leaves one step less.
next-work :
    (all : List Thread) (held : List Lock) (rest : List Instruction) (later : List Task)
    (t : Thread)
    → next all held rest later ≡ some t
    → length t.current + tasks_work t.later + 1 ≡ length rest + tasks_work later
unfolding next
next-work all held [] [] t e = absurd (cc e)
next-work all held [] (critical p ∷ later) t e = ground (arith, e)
next-work all held [] (awaits i ∷ later) t e = ground (arith, e)
next-work all held (acquire l ∷ rest) later t e = ground (arith, e)
next-work all held (release l ∷ rest) later t e = ground (arith, e)

-- The thread of this number.
abbrev pub at {ℓ} : {A : Type ℓ} → ℕ → List A → Option A
at i [] = none
at zero (x ∷ xs) = some x
at (suc i) (x ∷ xs) = at i xs

step_in-Fits :
    (all : List Thread) (n i : ℕ) (threads : List Thread)
    → AllFit n threads
    → AllFit n (step_in all i threads)
unfolding step_in
step_in-Fits all n i [] o = tt
step_in-Fits all n zero (t ∷ threads) o = (
  elim (Option-cases (next all t.held t.current t.later)) [
    | inl e ↦ rw e o.0
    | inr (t', e) ↦ rw e (next-Fits n all t.held t.current t.later o.0.0 o.0.1 t' e)
  ],
  o.1,
)
step_in-Fits all n (suc i) (t ∷ threads) o = (o.0, step_in-Fits all (suc n) i threads o.1)

pub run-Fits :
    (schedule : List ℕ) (threads : List Thread) → AllFit 0 threads → AllFit 0 (run schedule threads)
run-Fits [] threads o = o
run-Fits (i ∷ schedule) threads o =
    run-Fits schedule (step i threads) (step_in-Fits threads 0 i threads o)

-- A thread that can take a step has less to do after it.
pub step_in-work :
    (all : List Thread) (i : ℕ) (threads : List Thread) (t t' : Thread)
    → at i threads ≡ some t
    → next all t.held t.current t.later ≡ some t'
    → work (step_in all i threads) + 1 ≡ work threads
unfolding step_in
step_in-work all i [] t t' e n = absurd (cc e)
step_in-work all zero (u ∷ threads) t t' e n =
    let left = next-work all t.held t.current t.later t' n in
    let this : u ≡ t = ap (λ o. elim o [ none ↦ u | some x ↦ x ]) e in
    rw (this, n) (omega (arith, left))
step_in-work all (suc i) (u ∷ threads) t t' e n = omega (arith, step_in-work all i threads t t' e n)

pub holds-nothing : (l : Lock) (held : List Lock) → any (same l) held ≡ true → held ≢ []
holds-nothing l [] e = absurd (cc e)
holds-nothing l (h ∷ held) e = λ none_held. cc none_held

-- A mutex that is held is held by some thread.
pub holder :
    (l : Lock) (threads : List Thread)
    → any (holds l) threads ≡ true
    → (i : ℕ) × (t : Thread) × (at i threads ≡ some t) × (holds l t ≡ true)
holder l [] e = absurd (cc e)
holder l (t ∷ threads) e = elim (Bool-cases (holds l t)) [
  | inl here ↦ (0, t, refl, here)
  | inr elsewhere ↦
      let (i, u, there, has) = holder l threads (ground (arith, e, elsewhere)) in
      (suc i, u, there, has)
]

pub at-Fits :
    (n i : ℕ) (threads : List Thread) (t : Thread)
    → AllFit n threads
    → at i threads ≡ some t
    → Fits (n + i) t
at-Fits n i [] t a e = absurd (cc e)
at-Fits n zero (u ∷ threads) t a e =
    let this : u ≡ t = ap (λ o. elim o [ none ↦ u | some x ↦ x ]) e in
    let here : n ≡ n + 0 = omega arith in subst (λ m. Fits m t) here (subst (Fits n) this a.0)
at-Fits n (suc i) (u ∷ threads) t a e =
    let there : suc n + i ≡ n + suc i = omega arith in
    subst (λ m. Fits m t) there (at-Fits (suc n) i threads t a.1 e)

-- Who has not ended is there, with something left.
pub ended-at :
    (i : ℕ) (threads : List Thread)
    → ended i threads ≡ false
    → (t : Thread) × (at i threads ≡ some t) × (is_done t ≡ false)
ended-at i [] e = absurd (cc e)
ended-at zero (t ∷ threads) e = (t, refl, e)
ended-at (suc i) (t ∷ threads) e = ended-at i threads e

-- What the rank of a mutex leaves above it.
pub rank_bound : (l : Lock) → rank l ≤ 13
rank_bound gateway_subscriptions = omega arith
rank_bound client_advertisements_mutex = omega arith
rank_bound (running_callback i) = omega arith
rank_bound subscriptions_mutex = omega arith
rank_bound channel_registry = omega arith
rank_bound latched_channels_mutex = omega arith
rank_bound description_provider_mutex = omega arith
rank_bound services_mutex = omega arith
rank_bound pending_service_calls_mutex = omega arith
rank_bound (pending_call_mutex i) = omega arith
rank_bound poll_mutex = omega arith
rank_bound param_op_mutex = omega arith
rank_bound param_interface_mutex = omega arith

pub held_under :
    (l m : Lock) (held : List Lock)
    → any (same l) held ≡ true
    → All (λ h. rank h < rank m) held
    → rank l < rank m
held_under l m [] e a = absurd (cc e)
held_under l m (h ∷ held) e a = elim (Bool-cases (same l h)) [
  | inl here ↦ omega (arith, a.0, (nat_beq_iff (rank l) (rank h)).0 (ground (arith, here)))
  | inr elsewhere ↦ held_under l m held (ground (arith, e, elsewhere)) a.1
]
