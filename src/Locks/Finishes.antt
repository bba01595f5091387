-- ===== src/Locks/Finishes.antt =====
-- However threads with ordered programs, which join threads of lower numbers, have been scheduled, they can all still finish.
use foxglove_bridge_ros.Prelude.{
  ℕ, zero, suc, ◌+◌, ◌<◌, ◌≤◌, ◌≡◌, refl, ap, subst, ◌⊎◌, inl, inr, true, false, some, List, [],
  ◌∷◌, any, length, All, arith, ltb, Bool-cases,
}
use foxglove_bridge_ros.Locks.{
  Lock, rank, Instruction, acquire, release, Task, critical, awaits, Thread, holds, unlock,
  nothing_left, is_done, ended, next, step, run, tasks_work, work,
}
use foxglove_bridge_ros.Locks.Ordered.{Ordered}
use foxglove_bridge_ros.Locks.Progress.{
  TaskFits, Fits, AllFit, at, ends_free, run-Fits, step_in-work, holds-nothing, holder, at-Fits,
  ended-at, rank_bound, held_under,
}

-- Some thread can take a step.
abbrev pub CanStep : List Thread → Type 0
CanStep threads =
    (i : ℕ) × (t : Thread) × (t' : Thread) × (at i threads ≡ some t)
    × (next threads t.held t.current t.later ≡ some t')

program-cases :
    (p : List Instruction)
    → (p ≡ [])
      ⊎ (((l : Lock) × (q : List Instruction) × (p ≡ acquire l ∷ q))
          ⊎ ((l : Lock) × (q : List Instruction) × (p ≡ release l ∷ q)))
program-cases [] = inl refl
program-cases (acquire l ∷ q) = inr (inl (l, q, refl))
program-cases (release l ∷ q) = inr (inr (l, q, refl))

-- What is left of a thread that has ended its current operation.
later-cases :
    (later : List Task)
    → (nothing_left [] later ≡ true)
      ⊎ (((p : List Instruction) × (rest : List Task) × (later ≡ critical p ∷ rest))
          ⊎ ((j : ℕ) × (rest : List Task) × (later ≡ awaits j ∷ rest)))
later-cases [] = inl refl
later-cases (critical p ∷ rest) = inr (inl (p, rest, refl))
later-cases (awaits j ∷ rest) = inr (inr (j, rest, refl))

module _ (threads : List Thread) (o : AllFit 0 threads) where
  can_acquire :
      (i : ℕ) (t : Thread) (m : Lock) (q : List Instruction)
      → at i threads ≡ some t
      → t.current ≡ acquire m ∷ q
      → any (holds m) threads ≡ false
      → CanStep threads
  unfolding next
  can_acquire i t m q there e free = (
    i,
    t,
    record { held = m ∷ t.held; current = q; later = t.later },
    there,
    rw e (ground (arith, free)),
  )

  can_release :
      (i : ℕ) (t : Thread) (m : Lock) (q : List Instruction)
      → at i threads ≡ some t
      → t.current ≡ release m ∷ q
      → CanStep threads
  unfolding next
  can_release i t m q there e =
      (i, t, record { held = unlock m t.held; current = q; later = t.later }, there, rw e refl)

  -- Who holds a mutex can go on, if the mutexes of greater rank are free or their holders can.
  holder_moves :
      (l : Lock)
      → ((m : Lock) → rank l < rank m → any (holds m) threads ≡ true → CanStep threads)
      → any (holds l) threads ≡ true
      → CanStep threads
  holder_moves l above taken =
      let (i, t, there, has) = holder l threads taken in
      let mine = (at-Fits 0 i threads t o there).0 in
      elim (program-cases t.current) [
        | inl e ↦
            absurd (holds-nothing l t.held has (ends_free t.held (subst (Ordered t.held) e mine)))
        | inr (inl (m, q, e)) ↦ elim (Bool-cases (any (holds m) threads)) [
          | inl m_taken ↦
              above m (held_under l m t.held has (subst (Ordered t.held) e mine).0) m_taken
          | inr free ↦ can_acquire i t m q there e free
        ]
        | inr (inr (m, q, e)) ↦ can_release i t m q there e
      ]

  unblocked : (n : ℕ) (l : Lock) → 13 ≤ rank l + n → any (holds l) threads ≡ true → CanStep threads
  unblocked zero l bound =
      holder_moves l (λ m lt _. absurd (omega (arith, rank_bound m, lt, bound)))
  unblocked (suc n) l bound =
      holder_moves l (λ m lt m_taken. unblocked n m (omega (arith, lt, bound)) m_taken)

  -- Between two operations, a thread waits at most for threads of lower numbers.
  can_go_on :
      (i : ℕ) (t : Thread)
      → at i threads ≡ some t
      → t.current ≡ []
      → is_done t ≡ false
      → ((j : ℕ) → j < i → ended j threads ≡ false → CanStep threads)
      → CanStep threads
  unfolding next
  can_go_on i t there e more lower = elim (later-cases t.later) [
    | inl none_left ↦ absurd (cc (ap (λ c. nothing_left c t.later) e, more, none_left))
    | inr (inl (p, rest, l)) ↦
        (i, t, record { held = t.held; current = p; later = rest }, there, rw (e, l) refl)
    | inr (inr (j, rest, l)) ↦ elim (Bool-cases (ended j threads)) [
      | inl over ↦ (
        i,
        t,
        record { held = t.held; current = []; later = rest },
        there,
        rw (e, l) (ground (arith, over)),
      )
      | inr runs ↦
          let number : 0 + i ≡ i = omega arith in
          let fits = subst (λ n. Fits n t) number (at-Fits 0 i threads t o there) in
          lower j (subst (All (TaskFits i)) l fits.1).0 runs
    ]
  ]

  -- Where something is left to do, some thread can do the next of it.
  unfinished :
      (n i : ℕ) (t : Thread) → i < n → at i threads ≡ some t → is_done t ≡ false → CanStep threads
  unfinished zero i t lt there more = absurd (omega (arith, lt))
  unfinished (suc n) i t lt there more = elim (program-cases t.current) [
    | inl e ↦ can_go_on i t there e more (λ j less runs.
        let (u, found, u_more) = ended-at j threads runs in
        unfinished n j u (omega (arith, lt, less)) found u_more)
    | inr (inl (m, q, e)) ↦ elim (Bool-cases (any (holds m) threads)) [
      | inl taken ↦ unblocked 13 m (omega arith) taken
      | inr free ↦ can_acquire i t m q there e free
    ]
    | inr (inr (m, q, e)) ↦ can_release i t m q there e
  ]

-- Who has nothing left has no work.
done-work :
    (current : List Instruction) (later : List Task)
    → nothing_left current later ≡ true
    → length current + tasks_work later ≡ 0
done-work [] [] e = refl
done-work [] (task ∷ later) e = absurd (cc e)
done-work (i ∷ current) later e = absurd (cc e)

-- A thread with something left.
busy :
    (threads : List Thread)
    → 0 < work threads
    → (i : ℕ) × (t : Thread) × (at i threads ≡ some t) × (is_done t ≡ false)
busy [] lt = absurd (omega (arith, lt))
busy (t ∷ threads) lt = elim (Bool-cases (is_done t)) [
  | inl done ↦
      let (i, u, there, more) =
        busy threads (omega (arith, lt, done-work t.current t.later done)) in
      (suc i, u, there, more)
  | inr more ↦ (0, t, refl, more)
]

finishes :
    (n : ℕ) (threads : List Thread)
    → work threads ≤ n
    → AllFit 0 threads
    → (schedule : List ℕ) × (work (run schedule threads) ≡ 0)
finishes zero threads le o = ([], omega (arith, le))
finishes (suc n) threads le o = elim (Bool-cases (ltb 0 (work threads))) [
  | inr done ↦ ([], ground (arith, done))
  | inl lt ↦
      let (i, t, there, more) = busy threads (ground (arith, lt)) in
      let (j, u, u', found, goes) = unfinished threads o (suc i) i t (omega arith) there more in
      let less = step_in-work threads j threads u u' found goes in
      let (schedule, ends) =
        finishes n (step j threads) (omega (arith, le, less)) (run-Fits (j ∷ []) threads o) in
      (j ∷ schedule, ends)
]

-- After any schedule there is another one that does all that is left.
pub run-finishes :
    (threads : List Thread) (schedule : List ℕ)
    → AllFit 0 threads
    → (more : List ℕ) × (work (run more (run schedule threads)) ≡ 0)
run-finishes threads schedule o =
    finishes (work (run schedule threads)) (run schedule threads) (omega arith)
      (run-Fits schedule threads o)
