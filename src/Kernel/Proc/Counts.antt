-- ===== src/Kernel/Proc/Counts.antt =====
-- Counting in the lists of children (src/kernel/proc.c): how often a process stands in one, and how many
-- zombies it has.
use fdu2024_os_honor_lab.Prelude.{
  ℕ, ◌+◌, ◌-◌, ◌≡◌, ◌≢◌, ◌<◌, ◌⊎◌, refl, inl, inr, Bool, true, false, none, some, List, [], ◌∷◌,
  ◌++◌, ◌==◌, if◌then◌else◌, arith, Bool-cases,
}
use fdu2024_os_honor_lab.Kernel.Sched.{ProcState, set_at, is_zombie}
use fdu2024_os_honor_lab.Kernel.Sem.{remove}
use fdu2024_os_honor_lab.Kernel.Proc.{find_zombie}

abbrev pub one_if : Bool → ℕ
one_if true = 1
one_if false = 0

abbrev pub occurs : ℕ → List ℕ → ℕ
occurs c [] = 0
occurs c (d ∷ ds) = one_if (d == c) + occurs c ds

abbrev pub zombies : (ℕ → ProcState) → List ℕ → ℕ
zombies state [] = 0
zombies state (d ∷ ds) = one_if (is_zombie (state d)) + zombies state ds

pub occurs-append : (c : ℕ) (xs ys : List ℕ) → occurs c (xs ++ ys) ≡ occurs c xs + occurs c ys
occurs-append c [] ys = omega arith
occurs-append c (x ∷ xs) ys = omega (arith, occurs-append c xs ys)

pub zombies-append :
    (state : ℕ → ProcState) (xs ys : List ℕ)
    → zombies state (xs ++ ys) ≡ zombies state xs + zombies state ys
zombies-append state [] ys = omega arith
zombies-append state (x ∷ xs) ys = omega (arith, zombies-append state xs ys)

-- A change of state counts as often as the process stands in the list.
pub zombies-set_at :
    (state : ℕ → ProcState) (p : ℕ) (st : ProcState) (xs : List ℕ)
    → zombies (set_at p st state) xs + (if is_zombie (state p) then occurs p xs else 0)
      ≡ zombies state xs + (if is_zombie st then occurs p xs else 0)
zombies-set_at state p st [] = ground arith
zombies-set_at state p st (x ∷ xs) = ground (arith, zombies-set_at state p st xs)

pub occurs-remove_ne : (c d : ℕ) (xs : List ℕ) → d ≢ c → occurs d (remove c xs) ≡ occurs d xs
unfolding remove
occurs-remove_ne c d [] n = refl
occurs-remove_ne c d (x ∷ xs) n = ground (arith, occurs-remove_ne c d xs n, n)

pub occurs-remove : (c : ℕ) (xs : List ℕ) → occurs c (remove c xs) ≡ occurs c xs - 1
unfolding remove
occurs-remove c [] = refl
occurs-remove c (x ∷ xs) = ground (arith, occurs-remove c xs)

pub zombies-remove :
    (state : ℕ → ProcState) (c : ℕ) (xs : List ℕ)
    → 0 < occurs c xs
    → is_zombie (state c) ≡ true
    → zombies state (remove c xs) + 1 ≡ zombies state xs
unfolding remove
zombies-remove state c [] l z = absurd (omega arith)
zombies-remove state c (x ∷ xs) l z = ground (arith, zombies-remove state c xs, l, z)

-- What the search of wait finds.
pub find_zombie_lem :
    (state : ℕ → ProcState) (xs : List ℕ)
    → ((find_zombie state xs ≡ none) × (zombies state xs ≡ 0))
      ⊎ ((c : ℕ) × (find_zombie state xs ≡ some c)
          × (0 < occurs c xs)
          × (is_zombie (state c) ≡ true))
unfolding find_zombie
find_zombie_lem state [] = inl (refl, refl)
find_zombie_lem state (x ∷ xs) = elim (Bool-cases (is_zombie (state x))) [
  | inl e ↦ inr (x, rw e refl, ground arith, e)
  | inr e ↦ elim (find_zombie_lem state xs) [
    | inl h ↦ inl (rw e h.0, rw e (omega (arith, h.1)))
    | inr h ↦ inr (h.0, rw e h.1, omega (arith, h.2), h.3)
  ]
]
