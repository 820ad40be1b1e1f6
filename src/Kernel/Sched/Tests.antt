-- ===== src/Kernel/Sched/Tests.antt =====
-- The scheduler with two processes.
use fdu2024_os_honor_lab.Prelude.{
  ℕ, zero, suc, ◌+◌, ◌≡◌, ◌⊎◌, refl, Bool, true, false, not, [], arith, ◌&&◌, if◌then◌else◌,
}
use fdu2024_os_honor_lab.Prelude.Int.{pos, negsuc}
use fdu2024_os_honor_lab.Prelude.Exec.{done}
use fdu2024_os_honor_lab.Kernel.Sem.{contains}
use fdu2024_os_honor_lab.Kernel.Sched.{
  unused, running, runnable, Proc, Sched, activate_proc, is_minus_one, is_queued, pick_next, sched,
  max_load,
}
use fdu2024_os_honor_lab.Kernel.Sched.Pick.{Chosen, IsLeast, loaded, pick_next_lem}
use fdu2024_os_honor_lab.Kernel.Sched.Inv.{IsValid, sched_lem}
use fdu2024_os_honor_lab.Kernel.Sched.Run.{
  IsStart, Reach, here, next, activates, IsStart-IsValid, never_twice,
}

-- The even processes are the idle ones, the odd ones are new.
abbrev is_even : ℕ → Bool
is_even zero = true
is_even (suc n) = not (is_even n)

abbrev double : ℕ → ℕ
double zero = zero
double (suc c) = suc (suc (double c))

double_lem : (c : ℕ) → double c ≡ c + c
double_lem zero = refl
double_lem (suc c) = omega (arith, double_lem c)

even_double : (c : ℕ) → is_even (double c) ≡ true
even_double zero = refl
even_double (suc c) = ground (arith, even_double c)

abbrev proc : ℕ → Proc
proc p =
    if is_even p
    then record { pid = negsuc 0; state = running; killed = false; timeload = 0 }
    else record { pid = pos p; state = unused; killed = false; timeload = 0 }

abbrev fresh : Sched
fresh = record { procs = proc; rq = []; this = double; idle = double }

fresh-IsStart : IsStart fresh
fresh-IsStart = record {
  nothing_queued = refl;
  at_home = λ c. refl;
  idle_runs = λ c. ground (arith, even_double c);
  idle_pid = λ c. ground (arith, even_double c);
  others = λ p h. ground arith;
  apart = λ c d h. omega (arith, h, double_lem c, double_lem d);
}

pick_next_lem_example :
    ((pick_next 0 fresh ≡ (0, fresh)) × IsLeast proc [] max_load)
    ⊎ ((p : ℕ) × (pick_next 0 fresh ≡ (p, loaded p fresh)) × Chosen proc [] max_load p)
pick_next_lem_example = pick_next_lem 0 fresh

sched_lem_example : (t : Sched) × (sched 0 runnable fresh ≡ done (tt, t)) × IsValid t
sched_lem_example =
    sched_lem 0 runnable fresh (IsStart-IsValid fresh-IsStart)
      record { stops = refl; idle_yields = λ e. refl }

one_step : Reach fresh (activate_proc 3 false fresh).1
one_step = next here (activates 3 false refl refl)

never_twice_example :
    let t = (activate_proc 3 false fresh).1 in
    (t.this 0 ≡ t.this 1 → ◌≡◌ {A = ℕ} 0 1)
    × ((t.procs (t.this 0)).state ≡ running)
    × (contains 3 t.rq ≡ (is_queued (t.procs 3).state && not (is_minus_one (t.procs 3).pid)))
never_twice_example = never_twice 0 1 3 fresh-IsStart one_step
