-- ===== src/Kernel/Sched/Inv.antt =====
-- What the scheduler of src/kernel/sched.c keeps true on all processors.
use fdu2024_os_honor_lab.Prelude.{
  ℕ, ◌≡◌, ◌⊎◌, ◌∙◌, Bool, true, false, not, refl, arith, ◌==◌, Bool-cases, inl, inr, if◌then◌else◌,
  ◌&&◌,
}
use fdu2024_os_honor_lab.Prelude.Exec.{done}
use fdu2024_os_honor_lab.Kernel.Sem.{contains, remove}
use fdu2024_os_honor_lab.Kernel.Sched.{
  ProcState, runnable, running, Sched, set_at, set_state, is_minus_one, is_queued, is_runnable,
  is_running, is_zombie, stays, activate_proc, update_this_state, pick_next, sched,
}
use fdu2024_os_honor_lab.Kernel.Sched.Queue.{
  Distinct, contains-remove_ne, contains-remove_self, remove-Distinct,
}
use fdu2024_os_honor_lab.Kernel.Sched.Pick.{loaded, pick_next_lem}

-- The queue holds exactly the runnable and running processes but the idle ones. Each processor runs its
-- own process, and its idle process runs there or is runnable.
pub record IsValid (s : Sched) : Type 0 where
  pub distinct : Distinct s.rq
  pub queued :
      (p : ℕ)
      → contains p s.rq ≡ (is_queued (s.procs p).state && not (is_minus_one (s.procs p).pid))
  pub runs : (c : ℕ) → (s.procs (s.this c)).state ≡ running
  pub alone : (c d : ℕ) → s.this c ≡ s.this d → c ≡ d
  pub idle_pid : (c : ℕ) → is_minus_one (s.procs (s.idle c)).pid ≡ true
  pub idle_rests : (c : ℕ) → (s.this c ≡ s.idle c) ⊎ ((s.procs (s.idle c)).state ≡ runnable)
  pub idle_at_home : (c d : ℕ) → s.this c ≡ s.idle d → c ≡ d
  pub idle_own : (c d : ℕ) → s.idle c ≡ s.idle d → c ≡ d

-- Activating a process of the process tree.
pub activate_proc-IsValid :
    (p : ℕ) (onalert : Bool) (s : Sched)
    → is_minus_one (s.procs p).pid ≡ false
    → IsValid s
    → IsValid (activate_proc p onalert s).1
unfolding activate_proc contains
activate_proc-IsValid p onalert s n v = elim (Bool-cases (stays (s.procs p).state onalert)) [
  | inl e ↦ rw e v
  | inr e ↦ rw e record {
    distinct = (ground (arith, v.queued p, e), v.distinct);
    queued = λ q. ground (arith, v.queued q, n);
    runs = λ c. ground (arith, v.runs c, e);
    alone = v.alone;
    idle_pid = λ c. ground (arith, v.idle_pid c, n);
    idle_rests = λ c. ground (arith, v.idle_rests c, v.idle_pid c, n);
    idle_at_home = v.idle_at_home;
    idle_own = v.idle_own;
  }
]

-- In the middle of sched on processor `c`, whose process has been given its new state.
record IsLeaving (c : ℕ) (s : Sched) : Type 0 where
  distinct : Distinct s.rq
  queued :
      (p : ℕ)
      → contains p s.rq ≡ (is_queued (s.procs p).state && not (is_minus_one (s.procs p).pid))
  not_running : is_running (s.procs (s.this c)).state ≡ false
  runs : (d : ℕ) → (c == d) ≡ false → (s.procs (s.this d)).state ≡ running
  alone : (d e : ℕ) → s.this d ≡ s.this e → d ≡ e
  idle_pid : (d : ℕ) → is_minus_one (s.procs (s.idle d)).pid ≡ true
  idle_here : (s.procs (s.idle c)).state ≡ runnable
  idle_rests :
      (d : ℕ) → (c == d) ≡ false → (s.this d ≡ s.idle d) ⊎ ((s.procs (s.idle d)).state ≡ runnable)
  idle_at_home : (d e : ℕ) → s.this d ≡ s.idle e → d ≡ e
  idle_own : (d e : ℕ) → s.idle d ≡ s.idle e → d ≡ e

-- Which states a caller of sched may ask for: an idle process only yields.
pub record MayEnter (c : ℕ) (new_state : ProcState) (s : Sched) : Type 0 where
  pub stops : is_running new_state ≡ false
  pub idle_yields : is_minus_one (s.procs (s.this c)).pid ≡ true → new_state ≡ runnable

module _ (c : ℕ) (new_state : ProcState) (s : Sched) (v : IsValid s)
    (may : MayEnter c new_state s) where
  leave-procs : (update_this_state c new_state s).procs ≡ (set_state (s.this c) new_state s).procs
  unfolding update_this_state
  leave-procs = ground arith

  leave-this : (update_this_state c new_state s).this ≡ s.this
  unfolding update_this_state
  leave-this = ground arith

  leave-idle : (update_this_state c new_state s).idle ≡ s.idle
  unfolding update_this_state
  leave-idle = ground arith

  leave-rq : (update_this_state c new_state s).rq ≡ (
      if not (is_minus_one (s.procs (s.this c)).pid) && not (is_queued new_state)
      then remove (s.this c) s.rq
      else s.rq)
  unfolding update_this_state
  leave-rq = ground (arith, v.runs c)

  leave-queued :
      (p : ℕ)
      → contains p (
          if not (is_minus_one (s.procs (s.this c)).pid) && not (is_queued new_state)
          then remove (s.this c) s.rq
          else s.rq)
        ≡ (is_queued
              (set_at
                (s.this c)
                (record (s.procs (s.this c)) { state = new_state })
                s.procs
                p).state
            && not (is_minus_one (s.procs p).pid))
  leave-queued p = ground (
    arith,
    v.queued p,
    v.runs c,
    may.idle_yields,
    contains-remove_self (s.this c) s.rq v.distinct,
    contains-remove_ne (s.this c) p s.rq,
  )

  leave-Distinct : Distinct (update_this_state c new_state s).rq
  leave-Distinct =
      rw leave-rq
        (elim (Bool-cases
          (not (is_minus_one (s.procs (s.this c)).pid) && not (is_queued new_state))) [
            | inl e ↦ rw e (remove-Distinct (s.this c) s.rq v.distinct)
            | inr e ↦ rw e v.distinct
          ])

  leaving : IsLeaving c (update_this_state c new_state s)
  leaving = record {
    distinct = leave-Distinct;
    queued = λ p. rw (leave-rq, leave-procs) (leave-queued p ∙ ground arith);
    not_running = rw (leave-procs, leave-this) (ground (arith, may.stops));
    runs = λ d n. rw (leave-procs, leave-this) (ground (arith, v.runs d, v.alone c d));
    alone = rw leave-this v.alone;
    idle_pid = λ d. rw (leave-procs, leave-idle) (ground (arith, v.idle_pid d));
    idle_here =
        rw (leave-procs, leave-idle)
          (ground (arith, v.idle_rests c, v.idle_pid c, may.idle_yields));
    idle_rests = λ d n.
        rw (leave-procs, leave-idle, leave-this)
          (ground (arith, v.idle_rests d, v.idle_at_home c d));
    idle_at_home = rw (leave-this, leave-idle) v.idle_at_home;
    idle_own = rw leave-idle v.idle_own;
  }

-- The end of sched: process `p` runs on processor `c`.
abbrev entered : ℕ → ℕ → Sched → Sched
entered c p t = record (set_state p running t) { this = set_at c p t.this }

-- Any runnable process but another processor's idle one may be entered.
enter-IsValid :
    (c p : ℕ) (t : Sched)
    → IsLeaving c t
    → is_runnable (t.procs p).state ≡ true
    → ((d : ℕ) → p ≡ t.idle d → c ≡ d)
    → IsValid (entered c p t)
enter-IsValid c p t l r home = record {
  distinct = l.distinct;
  queued = λ q. ground (arith, l.queued q);
  runs = λ d. ground (arith, l.runs d);
  alone = λ d e h. ground (arith, l.alone d e, l.runs d, l.runs e);
  idle_pid = λ d. ground (arith, l.idle_pid d);
  idle_rests = λ d. ground (arith, l.idle_rests d, l.idle_here, home d, l.idle_own c d);
  idle_at_home = λ d e h. ground (arith, l.idle_at_home d e, home e);
  idle_own = l.idle_own;
}

-- One more on the load of a process.
loaded-IsLeaving : (c p : ℕ) (t : Sched) → IsLeaving c t → IsLeaving c (loaded p t)
loaded-IsLeaving c p t l = record {
  distinct = l.distinct;
  queued = λ q. ground (arith, l.queued q);
  not_running = ground (arith, l.not_running);
  runs = λ d n. ground (arith, l.runs d);
  alone = l.alone;
  idle_pid = λ d. ground (arith, l.idle_pid d);
  idle_here = ground (arith, l.idle_here);
  idle_rests = λ d n. ground (arith, l.idle_rests d);
  idle_at_home = l.idle_at_home;
  idle_own = l.idle_own;
}

-- What pick_next chooses can be entered.
record Picked (c p : ℕ) (t u : Sched) : Type 0 where
  picks : pick_next c t ≡ (p, u)
  can_run : is_runnable (u.procs p).state ≡ true
  valid : IsValid (entered c p u)

pick_next-IsLeaving : (c : ℕ) (t : Sched) → IsLeaving c t → (p : ℕ) × (u : Sched) × Picked c p t u
pick_next-IsLeaving c t l = elim (pick_next_lem c t) [
  | inl (h, least) ↦
      let r : is_runnable (t.procs (t.idle c)).state ≡ true = rw l.idle_here refl in
      (
        t.idle c,
        t,
        record {
          picks = h;
          can_run = r;
          valid = enter-IsValid c (t.idle c) t l r (λ d e. l.idle_own c d e);
        },
      )
  | inr (p, h, k) ↦
      let r : is_runnable ((loaded p t).procs p).state ≡ true = ground (arith, k.can_run) in
      (
        p,
        loaded p t,
        record {
          picks = h;
          can_run = r;
          valid =
              enter-IsValid c p (loaded p t) (loaded-IsLeaving c p t l) r
                (λ d e. ground (arith, l.queued p, l.idle_pid d, k.queued));
        },
      )
]

-- In a valid state, sched with a state that the caller may enter returns: none of its assertions fails.
-- The state is valid again.
pub sched_lem :
    (c : ℕ) (new_state : ProcState) (s : Sched)
    → IsValid s
    → MayEnter c new_state s
    → (t : Sched) × (sched c new_state s ≡ done (tt, t)) × IsValid t
unfolding sched
sched_lem c new_state s v may =
    elim (Bool-cases ((s.procs (s.this c)).killed && not (is_zombie new_state))) [
      | inl e ↦ (s, rw (v.runs c, e) refl, v)
      | inr e ↦
          let (p, u, k) =
            pick_next-IsLeaving c (update_this_state c new_state s) (leaving c new_state s v may) in
          (entered c p u, rw (v.runs c, e, k.picks, k.can_run) refl, k.valid)
    ]
