-- ===== src/Kernel/Sem.antt =====
-- Counting semaphores (src/common/sem.h, src/common/sem.c). Each function is what one call does while
-- it holds the semaphore's spinlock. `_wait_sem` is two of them: what it does before it sleeps, and
-- what it does after it is scheduled again.
pub mod Inv
pub mod Lock
mod Tests
use fdu2024_os_honor_lab.Prelude.{
  ℕ, zero, suc, ◌+◌, Bool, true, false, Option, none, some, List, [], ◌∷◌, ◌++◌, ◌==◌,
  if◌then◌else◌,
}
use fdu2024_os_honor_lab.Prelude.Int.{ℤ, pos, negsuc}
use fdu2024_os_honor_lab.Prelude.Exec.{Result, done, panic}

-- `sleeplist` from `next` on: the last of it has slept longest. `woken` are the waiters that have been
-- detached with `up` set and have not run yet.
pub record Semaphore : Type 0 where
  pub val : ℤ
  pub sleeplist : List ℕ
  pub woken : List ℕ

unfoldable pub init_sem : ℕ → Semaphore
init_sem n = record { val = pos n; sleeplist = []; woken = [] }

-- `++val` and `--val`
abbrev pub incr : ℤ → ℤ
incr (pos n) = pos (n + 1)
incr (negsuc zero) = pos 0
incr (negsuc (suc n)) = negsuc n

abbrev pub decr : ℤ → ℤ
decr (pos zero) = negsuc 0
decr (pos (suc n)) = pos n
decr (negsuc n) = negsuc (suc n)

-- `val > 0`, `val >= 0` and `val <= 0`
abbrev pub is_positive : ℤ → Bool
is_positive (pos zero) = false
is_positive (pos (suc n)) = true
is_positive (negsuc n) = false

abbrev pub is_natural : ℤ → Bool
is_natural (pos n) = true
is_natural (negsuc n) = false

-- _get_sem
unfoldable pub get_sem : Semaphore → Bool × Semaphore
get_sem s = if is_positive s.val then (true, record s { val = decr s.val }) else (false, s)

-- get_all_sem
unfoldable pub get_all_sem : Semaphore → ℤ × Semaphore
get_all_sem s = if is_positive s.val then (s.val, record s { val = pos 0 }) else (pos 0, s)

-- the node `sleeplist.prev`, and the list without it
unfoldable pub split_last : List ℕ → Option (List ℕ × ℕ)
split_last [] = none
split_last (p ∷ ps) = elim (split_last ps) [ none ↦ some ([], p) | some (qs, q) ↦ some (p ∷ qs, q) ]

-- _post_sem; the result is the process that it activates.
unfoldable pub post_sem : Semaphore → Result (Option ℕ × Semaphore)
post_sem s =
    let v = incr s.val in
    if is_positive v then done (none, record s { val = v }) else elim (split_last s.sleeplist) [
      | none ↦ panic
      | some (ps, p) ↦ done (some p, record s { val = v; sleeplist = ps; woken = p ∷ s.woken })
    ]

-- The loop of post_all_sem, with fuel: how many rounds it made, less one, and whom it activated.
unfoldable pub post_all_from : ℕ → ℕ → List ℕ → Semaphore → Option (Result (ℕ × List ℕ × Semaphore))
post_all_from zero n ps s = none
post_all_from (suc f) n ps s = elim (post_sem s) [
  | done (o, t) ↦
      let qs : List ℕ = elim o [ none ↦ ps | some p ↦ ps ++ (p ∷ []) ] in
      let (got, u) = get_sem t in
      let rest = post_all_from f (n + 1) qs t in if got then some (done (n, qs, u)) else rest
  | _ ↦ some panic
]

-- _wait_sem up to the sleep: whether the call is back already, with `true`.
unfoldable pub wait_begin : ℕ → Semaphore → Bool × Semaphore
wait_begin p s =
    let v = decr s.val in
    if is_natural v
    then (true, record s { val = v })
    else (false, record s { val = v; sleeplist = p ∷ s.sleeplist })

unfoldable pub remove : ℕ → List ℕ → List ℕ
remove p [] = []
remove p (q ∷ qs) = if q == p then qs else q ∷ remove p qs

unfoldable pub contains : ℕ → List ℕ → Bool
contains p [] = false
contains p (q ∷ qs) = if q == p then true else contains p qs

-- _wait_sem after the sleep of process `p`: its result, `wait->up`. A process that was alerted is
-- still in the list, and `ASSERT(++sem->val <= 0)` must hold.
unfoldable pub wait_end : ℕ → Semaphore → Result (Bool × Semaphore)
wait_end p s =
    if contains p s.woken
    then done (true, record s { woken = remove p s.woken })
    else let v = incr s.val in
      if is_positive v
      then panic
      else done (false, record s { val = v; sleeplist = remove p s.sleeplist })
