-- ===== src/Locks/Ordered.antt =====
-- Programs that take the mutexes in the order of their ranks, and give back what they take.
use mathlib.Core.List.{append_assoc, append-nil}
use foxglove_bridge_ros.Prelude.{
  ℕ, ◌<◌, ◌≤◌, ◌≡◌, refl, sym, subst, List, [], ◌∷◌, ◌++◌, All, arith,
}
use foxglove_bridge_ros.Locks.{Lock, rank, Instruction, acquire, release}

-- What is left for a thread with these mutexes: it takes a mutex only when its rank is greater than
-- the ranks of all that it holds, gives back the newest first, and holds none at its end.
abbrev pub Ordered : List Lock → List Instruction → Type 0
Ordered [] [] = Unit
Ordered (h ∷ held) [] = (h ∷ held) ≡ []
Ordered held (acquire l ∷ rest) = All (λ h. rank h < rank l) held × Ordered (l ∷ held) rest
Ordered [] (release l ∷ rest) = (l ∷ []) ≡ []
Ordered (h ∷ held) (release l ∷ rest) = (h ≡ l) × Ordered held rest

-- A program that may run where only mutexes up to this rank are held.
unfoldable pub Nests : ℕ → List Instruction → Type 0
Nests r p =
    (held : List Lock) (rest : List Instruction)
    → All (λ h. rank h ≤ r) held
    → Ordered held rest
    → Ordered held (p ++ rest)

-- A critical section: the program under a mutex.
abbrev pub guarded : Lock → List Instruction → List Instruction
guarded l p = acquire l ∷ p ++ release l ∷ []

up_to_more :
    (r s : ℕ) (held : List Lock) → r ≤ s → All (λ h. rank h ≤ r) held → All (λ h. rank h ≤ s) held
up_to_more r s [] le a = tt
up_to_more r s (h ∷ held) le a = (omega (arith, le, a.0), up_to_more r s held le a.1)

up_to_less :
    (r s : ℕ) (held : List Lock) → r < s → All (λ h. rank h ≤ r) held → All (λ h. rank h < s) held
up_to_less r s [] lt a = tt
up_to_less r s (h ∷ held) lt a = (omega (arith, lt, a.0), up_to_less r s held lt a.1)

pub nothing-Nests : (r : ℕ) → Nests r []
unfolding Nests
nothing-Nests r held rest a o = o

pub append-Nests : (r : ℕ) (p q : List Instruction) → Nests r p → Nests r q → Nests r (p ++ q)
unfolding Nests
append-Nests r p q np nq held rest a o =
    subst (Ordered held) (sym (append_assoc p q rest)) (np held (q ++ rest) a (nq held rest a o))

pub lower-Nests : (r s : ℕ) (p : List Instruction) → r ≤ s → Nests s p → Nests r p
unfolding Nests
lower-Nests r s p le n held rest a o = n held rest (up_to_more r s held le a) o

pub guarded-Nests :
    (r : ℕ) (l : Lock) (p : List Instruction)
    → r < rank l
    → Nests (rank l) p
    → Nests r (guarded l p)
unfolding Nests
guarded-Nests r l p lt n held rest a o = (
  up_to_less r (rank l) held lt a,
  subst (Ordered (l ∷ held)) (sym (append_assoc p (release l ∷ []) rest)) (
      n (l ∷ held) (release l ∷ rest)
        (omega arith, up_to_more r (rank l) held (omega (arith, lt)) a) (refl, o)),
)

-- Such a program is ordered from the start.
pub Nests-Ordered : (r : ℕ) (p : List Instruction) → Nests r p → Ordered [] p
unfolding Nests
Nests-Ordered r p n = subst (Ordered []) (append-nil p) (n [] [] tt tt)
