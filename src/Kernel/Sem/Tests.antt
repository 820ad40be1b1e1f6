-- ===== src/Kernel/Sem/Tests.antt =====
-- Runs of src/common/sem.c.
use fdu2024_os_honor_lab.Prelude.{ℕ, ◌≡◌, refl, ◌≤◌, arith, List, [], ◌∷◌, some}
use fdu2024_os_honor_lab.Prelude.Int.{pos, negsuc}
use fdu2024_os_honor_lab.Prelude.Exec.{done}
use fdu2024_os_honor_lab.Kernel.Sem.{
  Semaphore, init_sem, split_last, post_sem, post_all_from, wait_begin, wait_end, contains, remove,
}
use fdu2024_os_honor_lab.Kernel.Sem.Inv.{IsEmptied, post_all-wakes}
use fdu2024_os_honor_lab.Kernel.Sem.Lock.{
  Threads, take_now, fall_asleep, give_up, take_woken, Reach, here, next, mutual_exclusion,
}

-- Processes 5 and 7 sleep, 5 for longer.
abbrev two_asleep : Semaphore
two_asleep = record { val = negsuc 1; sleeplist = 7 ∷ 5 ∷ []; woken = [] }

post_all-wakes_example :
    (u : Semaphore) × (post_all_from 3 0 [] two_asleep ≡ some (done (2, 5 ∷ 7 ∷ [], u)))
    × IsEmptied two_asleep u
post_all-wakes_example = post_all-wakes two_asleep 3 record { sleepers = refl } (omega arith)

-- Process 3 takes the lock, process 4 sleeps for it, 3 gives it up and 4 gets it.
abbrev state : Semaphore → ℕ → Threads
state s n = record { sem = s; holders = n }

abbrev sem : List ℕ → List ℕ → Semaphore
sem [] ws = record { val = pos 0; sleeplist = []; woken = ws }
sem (p ∷ ps) ws = record { val = negsuc 0; sleeplist = p ∷ ps; woken = ws }

abbrev start : Threads
start = record { sem = record { val = pos 1; sleeplist = []; woken = [] }; holders = 0 }

handed_over : Reach start (state (sem [] []) 1)
unfolding init_sem wait_begin wait_end post_sem split_last contains remove
handed_over =
    next {q = state (sem [] (4 ∷ [])) 0}
      (next {q = state (sem (4 ∷ []) []) 1}
        (next {q = state (sem [] []) 1} (next here (take_now 3 refl refl))
          (fall_asleep 4 refl refl))
        (give_up (some 4) (omega arith) refl refl))
      (take_woken 4 refl refl refl)

new_lock : start.sem ≡ init_sem 1
unfolding init_sem
new_lock = refl

mutual_exclusion_example : (state (sem [] []) 1).holders ≤ 1
mutual_exclusion_example = mutual_exclusion new_lock refl handed_over
