-- ===== src/Kernel/Sem/Lock.antt =====
-- A semaphore that starts at 1 is a sleep lock (SleepLock in src/common/sem.h): any number of threads
-- take it, sleep for it, are woken or alerted, and give it up, in any order.
use fdu2024_os_honor_lab.Prelude.{
  ℕ, suc, ◌+◌, ◌-◌, ◌≤◌, ◌<◌, ◌≡◌, refl, true, false, Option, none, some, List, [], ◌∷◌, arith,
  length,
}
use fdu2024_os_honor_lab.Prelude.Int.{neg_part, pos_part}
use fdu2024_os_honor_lab.Prelude.Exec.{done}
use fdu2024_os_honor_lab.Kernel.Sem.{
  Semaphore, init_sem, split_last, post_sem, wait_begin, wait_end, remove, contains,
}

-- The lock, and how many threads are between taking it and giving it up.
pub record Threads : Type 0 where
  pub sem : Semaphore
  pub holders : ℕ

pub data Step (p q : Threads) : Type 0 where
  take_now : (i : ℕ) → wait_begin i p.sem ≡ (true, q.sem) → q.holders ≡ p.holders + 1 → Step p q
  fall_asleep : (i : ℕ) → wait_begin i p.sem ≡ (false, q.sem) → q.holders ≡ p.holders → Step p q
  give_up :
      (o : Option ℕ)
      → 0 < p.holders
      → post_sem p.sem ≡ done (o, q.sem)
      → q.holders ≡ p.holders - 1
      → Step p q
  take_woken :
      (i : ℕ)
      → contains i p.sem.woken ≡ true
      → wait_end i p.sem ≡ done (true, q.sem)
      → q.holders ≡ p.holders + 1
      → Step p q
  leave_alerted :
      (i : ℕ)
      → contains i p.sem.sleeplist ≡ true
      → contains i p.sem.woken ≡ false
      → wait_end i p.sem ≡ done (false, q.sem)
      → q.holders ≡ p.holders
      → Step p q

pub data Reach (p : Threads) : Threads → Type 0 where
  here : Reach p p
  next : {q r : Threads} → Reach p q → Step q r → Reach p r

-- The one permit is in the semaphore, or with a thread that was woken, or with a holder.
pub record IsLock (p : Threads) : Type 0 where
  pub permit : pos_part p.sem.val + length p.sem.woken + p.holders ≡ 1
  pub sleepers : neg_part p.sem.val ≡ length p.sem.sleeplist

length-remove : (i : ℕ) (ps : List ℕ) → contains i ps ≡ true → length (remove i ps) + 1 ≡ length ps
unfolding contains remove
length-remove i [] h = cc
length-remove i (p ∷ ps) h = ground (arith, length-remove i ps)

abbrev split_size : Option (List ℕ × ℕ) → ℕ
split_size none = 0
split_size (some (qs, q)) = suc (length qs)

length-split_last : (ps : List ℕ) → length ps ≡ split_size (split_last ps)
unfolding split_last
length-split_last [] = refl
length-split_last (p ∷ ps) = ground (arith, length-split_last ps)

Step-IsLock : {p q : Threads} → Step p q → IsLock p → IsLock q
unfolding wait_begin post_sem wait_end
Step-IsLock (take_now i h e) l = ground arith
Step-IsLock (fall_asleep i h e) l = ground arith
Step-IsLock {p} (give_up o g h e) l = ground (arith, length-split_last p.sem.sleeplist)
Step-IsLock {p} (take_woken i c h e) l = ground (arith, length-remove i p.sem.woken)
Step-IsLock {p} (leave_alerted i c w h e) l = ground (arith, length-remove i p.sem.sleeplist)

init_sem-IsLock : (p : Threads) → p.sem ≡ init_sem 1 → p.holders ≡ 0 → IsLock p
unfolding init_sem
init_sem-IsLock p i h = record { permit = rw (i, h) refl; sleepers = rw i refl }

-- However the threads take a new sleep lock, sleep for it, are woken or alerted and give it up, at
-- most one of them holds it.
pub mutual_exclusion :
    {p q : Threads} → p.sem ≡ init_sem 1 → p.holders ≡ 0 → Reach p q → q.holders ≤ 1
mutual_exclusion {p} {q} i h r = omega (arith, (locked r).permit)
  where
    locked : {q : Threads} → Reach p q → IsLock q
    locked here = init_sem-IsLock p i h
    locked (next r st) = Step-IsLock st (locked r)
