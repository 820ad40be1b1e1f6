-- ===== src/Kernel/Sched/Run.antt =====
-- Any number of processors that call the scheduler in any order.
use fdu2024_os_honor_lab.Prelude.{ℕ, ◌≡◌, sym, ◌∙◌, inl, Bool, true, false, not, [], arith, ◌&&◌}
use fdu2024_os_honor_lab.Prelude.Exec.{done}
use fdu2024_os_honor_lab.Kernel.Sem.{contains}
use fdu2024_os_honor_lab.Kernel.Sched.{
  ProcState, running, Proc, Sched, set_at, is_minus_one, is_queued, activate_proc, sched,
}
use fdu2024_os_honor_lab.Kernel.Sched.Inv.{IsValid, MayEnter, activate_proc-IsValid, sched_lem}

pub data Step (s t : Sched) : Type 0 where
  -- sched on a processor
  schedules : (c : ℕ) (st : ProcState) → MayEnter c st s → sched c st s ≡ done (tt, t) → Step s t
  -- activate_proc or alert_proc of a process of the process tree
  activates :
      (p : ℕ) (onalert : Bool)
      → is_minus_one (s.procs p).pid ≡ false
      → t ≡ (activate_proc p onalert s).1
      → Step s t
  -- kill
  kills :
      (p : ℕ)
      → t ≡ record s { procs = set_at p (record (s.procs p) { killed = true }) s.procs }
      → Step s t
  -- a process that is not queued is made anew or freed
  recycles :
      (p : ℕ) (x : Proc)
      → is_queued (s.procs p).state ≡ false
      → is_queued x.state ≡ false
      → t ≡ record s { procs = set_at p x s.procs }
      → Step s t

pub data Reach (s : Sched) : Sched → Type 0 where
  here : Reach s s
  next : {t u : Sched} → Reach s t → Step t u → Reach s u

Step-IsValid : {s t : Sched} → Step s t → IsValid s → IsValid t
Step-IsValid {s} {t} (schedules c st may r) v =
    let (u, h, w) = sched_lem c st s v may in let e : u ≡ t = cc (h, r) in rw e at w
Step-IsValid {s} (activates p onalert n e) v = rw e (activate_proc-IsValid p onalert s n v)
Step-IsValid (kills p e) v = rw e record {
  distinct = v.distinct;
  queued = λ q. ground (arith, v.queued q);
  runs = λ c. ground (arith, v.runs c);
  alone = v.alone;
  idle_pid = λ c. ground (arith, v.idle_pid c);
  idle_rests = λ c. ground (arith, v.idle_rests c);
  idle_at_home = v.idle_at_home;
  idle_own = v.idle_own;
}
Step-IsValid {s} (recycles p x n m e) v = rw e record {
  distinct = v.distinct;
  queued = λ q. ground (arith, v.queued q);
  runs = λ c. ground (arith, v.runs c);
  alone = v.alone;
  idle_pid = λ c. ground (arith, v.idle_pid c, v.idle_rests c, v.runs c);
  idle_rests = λ c. ground (arith, v.idle_rests c, v.runs c);
  idle_at_home = v.idle_at_home;
  idle_own = v.idle_own;
}

-- The state that init_sched leaves: each processor runs its own idle process, and nothing is queued.
pub record IsStart (s : Sched) : Type 0 where
  pub nothing_queued : s.rq ≡ []
  pub at_home : (c : ℕ) → s.this c ≡ s.idle c
  pub idle_runs : (c : ℕ) → (s.procs (s.idle c)).state ≡ running
  pub idle_pid : (c : ℕ) → is_minus_one (s.procs (s.idle c)).pid ≡ true
  pub others : (p : ℕ) → is_minus_one (s.procs p).pid ≡ false → is_queued (s.procs p).state ≡ false
  pub apart : (c d : ℕ) → s.idle c ≡ s.idle d → c ≡ d

pub IsStart-IsValid : {s : Sched} → IsStart s → IsValid s
unfolding contains
IsStart-IsValid {s} i = record {
  distinct = rw i.nothing_queued tt;
  queued = λ p. rw i.nothing_queued (ground (arith, i.others p));
  runs = λ c. rw (i.at_home c) (i.idle_runs c);
  alone = λ c d h. i.apart c d (sym (i.at_home c) ∙ h ∙ i.at_home d);
  idle_pid = i.idle_pid;
  idle_rests = λ c. inl (i.at_home c);
  idle_at_home = λ c d h. i.apart c d (sym (i.at_home c) ∙ h);
  idle_own = i.apart;
}

Reach-IsValid : {s t : Sched} → IsStart s → Reach s t → IsValid t
Reach-IsValid i here = IsStart-IsValid i
Reach-IsValid i (next r st) = Step-IsValid st (Reach-IsValid i r)

-- After any sequence of calls of sched on any processors, of activations, kills and reuse of processes
-- that are not queued, from the state that init_sched leaves: no process runs on two processors, every
-- processor's process is running, and the queue holds exactly the runnable and running processes that
-- are not idle ones.
pub never_twice :
    {s t : Sched} (c d p : ℕ)
    → IsStart s
    → Reach s t
    → (t.this c ≡ t.this d → c ≡ d)
      × ((t.procs (t.this c)).state ≡ running)
      × (contains p t.rq ≡ (is_queued (t.procs p).state && not (is_minus_one (t.procs p).pid)))
never_twice c d p i r = let v = Reach-IsValid i r in (v.alone c d, v.runs c, v.queued p)
