-- ===== src/Kernel/Sched.antt =====
-- The scheduler (src/kernel/sched.c). A process is a number; `this` and `idle` give the current and
-- the idle process of each processor. Each function runs with the scheduler's lock held. The switch of
-- contexts and page tables and the timer of the processor are not modelled.
pub mod Queue
pub mod Inv
pub mod Pick
pub mod Run
mod Tests
use fdu2024_os_honor_lab.Prelude.{
  ℕ, suc, zero, ◌+◌, Bool, true, false, not, ◌&&◌, ◌||◌, Option, none, some, List, [], ◌∷◌, ◌==◌,
  if◌then◌else◌, ltb,
}
use fdu2024_os_honor_lab.Prelude.Int.{ℤ, pos, negsuc}
use fdu2024_os_honor_lab.Prelude.Exec.{Result, done, panic}
use fdu2024_os_honor_lab.Kernel.Sem.{remove}

-- `enum procstate`
pub data ProcState : Type 0 where
  unused : ProcState
  runnable : ProcState
  running : ProcState
  sleeping : ProcState
  deepsleeping : ProcState
  zombie : ProcState

-- The fields of `Proc` that the scheduler reads.
pub record Proc : Type 0 where
  pub pid : ℤ
  pub state : ProcState
  pub killed : Bool
  pub timeload : ℕ

pub record Sched : Type 0 where
  pub procs : ℕ → Proc
  pub rq : List ℕ
  pub this : ℕ → ℕ
  pub idle : ℕ → ℕ

abbrev pub set_at {ℓ} : {A : Type ℓ} → ℕ → A → (ℕ → A) → ℕ → A
set_at p x f q = if p == q then x else f q

abbrev pub set_state : ℕ → ProcState → Sched → Sched
set_state p st s = record s { procs = set_at p (record (s.procs p) { state = st }) s.procs }

-- `pid == -1`
abbrev pub is_minus_one : ℤ → Bool
is_minus_one (pos n) = false
is_minus_one (negsuc zero) = true
is_minus_one (negsuc (suc n)) = false

-- RUNNABLE or RUNNING
abbrev pub is_queued : ProcState → Bool
is_queued runnable = true
is_queued running = true
is_queued _ = false

abbrev pub is_runnable : ProcState → Bool
is_runnable runnable = true
is_runnable _ = false

abbrev pub is_running : ProcState → Bool
is_running running = true
is_running _ = false

abbrev pub is_zombie : ProcState → Bool
is_zombie zombie = true
is_zombie _ = false

-- `_activate_proc` does nothing in these states.
abbrev pub stays : ProcState → Bool → Bool
stays runnable onalert = true
stays running onalert = true
stays zombie onalert = true
stays deepsleeping onalert = onalert
stays _ onalert = false

-- _activate_proc
unfoldable pub activate_proc : ℕ → Bool → Sched → Bool × Sched
activate_proc p onalert s =
    if stays (s.procs p).state onalert
    then (false, s)
    else (true, record (set_state p runnable s) { rq = p ∷ s.rq })

-- update_this_state on processor `c`
unfoldable pub update_this_state : ℕ → ProcState → Sched → Sched
update_this_state c new_state s =
    let p = s.this c in
    let origin = (s.procs p).state in
    let t = set_state p new_state s in
    if is_minus_one (s.procs p).pid
    then t
    else (let u =
          if is_queued origin && not (is_queued new_state)
          then record t { rq = remove p t.rq }
          else t in
        if not (is_queued origin) && is_queued new_state then record u { rq = p ∷ u.rq } else u)

-- One round of the loop of pick_next, on `selected_proc` and `min_load`.
abbrev pub better : (ℕ → Proc) → ℕ → Option ℕ × ℕ → Option ℕ × ℕ
better procs p (selected, min_load) =
    if is_runnable (procs p).state && ltb (procs p).timeload min_load
    then (some p, (procs p).timeload)
    else (selected, min_load)

unfoldable pub pick_loop : (ℕ → Proc) → List ℕ → Option ℕ × ℕ → Option ℕ × ℕ
pick_loop procs [] best = best
pick_loop procs (p ∷ ps) best = pick_loop procs ps (better procs p best)

abbrev pub max_load : ℕ
max_load = 1000000

-- pick_next on processor `c`
unfoldable pub pick_next : ℕ → Sched → ℕ × Sched
pick_next c s = elim (pick_loop s.procs s.rq (none, max_load)).0 [
  | none ↦ (s.idle c, s)
  | some p ↦ (
    p,
    record s {
      procs = set_at p (record (s.procs p) { timeload = (s.procs p).timeload + 1 }) s.procs;
    },
  )
]

-- sched on processor `c`
unfoldable pub sched : ℕ → ProcState → Sched → Result (Unit {0} × Sched)
sched c new_state s =
    let this = s.procs (s.this c) in
    if not (is_running this.state)
    then panic
    else if this.killed && not (is_zombie new_state)
    then done (tt, s)
    else (let (next, t) = pick_next c (update_this_state c new_state s) in
        if not (is_runnable (t.procs next).state)
        then panic
        else done (tt, record (set_state next running t) { this = set_at c next t.this }))
