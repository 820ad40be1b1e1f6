-- ===== src/Kernel/Sched/Queue.antt =====
-- The run queue as a list without repetitions.
use fdu2024_os_honor_lab.Prelude.{
  ℕ, ◌≡◌, false, refl, arith, List, [], ◌∷◌, ◌==◌, Bool-cases, inl, inr,
}
use fdu2024_os_honor_lab.Kernel.Sem.{contains, remove}

abbrev pub Distinct : List ℕ → Type 0
Distinct [] = Unit
Distinct (p ∷ ps) = (contains p ps ≡ false) × Distinct ps

pub contains-remove_ne :
    (p q : ℕ) (ps : List ℕ) → (p == q) ≡ false → contains q (remove p ps) ≡ contains q ps
unfolding contains remove
contains-remove_ne p q [] n = refl
contains-remove_ne p q (r ∷ ps) n = ground (arith, contains-remove_ne p q ps n)

pub contains-remove_self : (p : ℕ) (ps : List ℕ) → Distinct ps → contains p (remove p ps) ≡ false
unfolding contains remove
contains-remove_self p [] d = refl
contains-remove_self p (r ∷ ps) d = ground (arith, contains-remove_self p ps d.1)

pub remove-Distinct : (p : ℕ) (ps : List ℕ) → Distinct ps → Distinct (remove p ps)
unfolding remove
remove-Distinct p [] d = tt
remove-Distinct p (r ∷ ps) d = elim (Bool-cases (r == p)) [
  | inl e ↦ rw e d.1
  | inr e ↦ rw e (ground (arith, contains-remove_ne p r ps), remove-Distinct p ps d.1)
]
