-- ===== src/Kernel/Proc.antt =====
-- The process tree (src/kernel/proc.c): creation, adoption, exit, wait and kill. A process is its
-- address; of the scheduler only the states are kept, and of a semaphore the number of posts that
-- nobody has taken. `used` says which addresses hold a process.
pub mod Counts
pub mod Inv
pub mod Exit
pub mod Run
pub mod Wait
pub mod Find
mod Tests
use fdu2024_os_honor_lab.Prelude.{
  ℕ, zero, suc, ◌+◌, ◌-◌, Bool, true, false, not, ◌&&◌, ◌||◌, Option, none, some, List, [], ◌∷◌,
  ◌++◌, ◌==◌, if◌then◌else◌,
}
use fdu2024_os_honor_lab.Prelude.Int.{ℤ, pos, negsuc}
use fdu2024_os_honor_lab.Prelude.Exec.{Result, done, panic, sleep, M, pure, ◌>>=◌, ◌>>◌}
use fdu2024_os_honor_lab.Kernel.Sched.{
  ProcState, unused, runnable, running, sleeping, deepsleeping, zombie, set_at, is_zombie, stays,
}
use fdu2024_os_honor_lab.Kernel.Sem.{remove}

-- The fields of every `Proc` that the process tree needs, and `max_pid`
pub record Procs : Type 0 where
  pub used : ℕ → Bool
  pub state : ℕ → ProcState
  pub pid : ℕ → ℕ
  pub killed : ℕ → Bool
  pub exitcode : ℕ → ℤ
  pub parent : ℕ → Option ℕ
  pub children : ℕ → List ℕ
  pub childexit : ℕ → ℕ
  pub max_pid : ℕ

-- `&root_proc`
abbrev pub root : ℕ
root = 0

abbrev pub is_unused : ProcState → Bool
is_unused unused = true
is_unused _ = false

abbrev pub no_parent : Option ℕ → Bool
no_parent none = true
no_parent (some p) = false

-- init_proc
unfoldable pub init_proc : ℕ → Procs → Procs
init_proc p s = record {
  used = set_at p true s.used;
  state = set_at p unused s.state;
  pid = set_at p (s.max_pid + 1) s.pid;
  killed = set_at p false s.killed;
  exitcode = set_at p (pos 0) s.exitcode;
  parent = set_at p none s.parent;
  children = set_at p [] s.children;
  childexit = set_at p 0 s.childexit;
  max_pid = s.max_pid + 1;
}

-- `proc->parent = parent; _insert_into_list(&parent->children, &proc->ptnode)`
abbrev pub adopt : ℕ → ℕ → Procs → Procs
adopt parent proc s = record s {
  parent = set_at proc (some parent) s.parent;
  children = set_at parent (proc ∷ s.children parent) s.children;
}

-- set_parent_to_this
unfoldable pub set_parent_to_this : ℕ → ℕ → M Procs Unit
set_parent_to_this this proc s =
    if no_parent (s.parent proc) then done (tt, adopt this proc s) else panic

-- activate_proc and alert_proc
unfoldable pub activate : Bool → ℕ → Procs → Procs
activate onalert p s =
    if stays (s.state p) onalert then s else record s { state = set_at p runnable s.state }

-- start_proc, which returns the pid
unfoldable pub start_proc : ℕ → M Procs ℕ
start_proc p s =
    let t = if no_parent (s.parent p) then adopt root p s else s in
    done (t.pid p, activate false p t)

abbrev pub post : ℕ → Procs → Procs
post p s = record s { childexit = set_at p (s.childexit p + 1) s.childexit }

-- The loop of exit over the children.
unfoldable pub reparent : List ℕ → Procs → Procs
reparent [] s = s
reparent (c ∷ cs) s =
    let t = record s { parent = set_at c (some root) s.parent } in
    reparent cs (if is_zombie (t.state c) then post root t else t)

-- `_merge_list(&root_proc.children, this->children.next); _detach_from_list(&this->children)`
abbrev pub give_children : ℕ → Procs → Procs
give_children this s =
    let t = record s { children = set_at root (s.children this ++ s.children root) s.children } in
    record t { children = set_at this [] t.children }

abbrev pub post_parent : ℕ → Option ℕ → Procs → Result Procs
post_parent this none s = panic
post_parent this (some p) s = done (post p s)

-- exit, up to the state that sched sets. The files that it closes are in Fs/File.antt.
unfoldable pub exit : ℕ → ℤ → M Procs Unit
exit this code s =
    if this == root
    then panic
    else (let t =
          give_children this
            (reparent (s.children this) (record s { exitcode = set_at this code s.exitcode })) in
        elim (post_parent this (t.parent this) t) [
          | done u ↦ done (tt, record u { state = set_at this zombie u.state })
          | panic ↦ panic
          | sleep ↦ sleep
        ])

-- The first part of wait: -1 without children.
abbrev pub is_empty : List ℕ → Bool
is_empty [] = true
is_empty (x ∷ xs) = false

-- wait_sem in wait, which takes a post, or sleeps
unfoldable pub take_post : ℕ → M Procs Unit
take_post this s =
    if s.childexit this == 0
    then sleep
    else done (tt, record s { childexit = set_at this (s.childexit this - 1) s.childexit })

-- The loop of wait over the children.
unfoldable pub find_zombie : (ℕ → ProcState) → List ℕ → Option ℕ
find_zombie state [] = none
find_zombie state (c ∷ cs) =
    let rest = find_zombie state cs in if is_zombie (state c) then some c else rest

-- `_detach_from_list(&zombienode->ptnode)`, and kfree
abbrev pub free_child : ℕ → ℕ → Procs → Procs
free_child this c s = record s {
  children = set_at this (remove c (s.children this)) s.children;
  used = set_at c false s.used;
}

-- The last part of wait: the pid and the exit code of a zombie, or -1.
unfoldable pub reap : ℕ → M Procs (Option (ℕ × ℤ))
reap this s = elim (find_zombie s.state (s.children this)) [
  | none ↦ done (none, s)
  | some c ↦ done (some (s.pid c, s.exitcode c), free_child this c s)
]

-- wait, run without interruption by another process; a killed process gets -1 when it would sleep.
unfoldable pub wait : ℕ → M Procs (Option (ℕ × ℤ))
wait this s =
    if is_empty (s.children this)
    then done (none, s)
    else if (s.childexit this == 0) && s.killed this
    then done (none, s)
    else (do take_post this; reap this) s

abbrev pub or_else : Option ℕ → Option ℕ → Option ℕ
or_else none r = r
or_else (some q) r = some q

-- The first child in which a search finds something.
abbrev pub first_found : (ℕ → Option ℕ) → List ℕ → Option ℕ
first_found search_in [] = none
first_found search_in (c ∷ cs) = or_else (search_in c) (first_found search_in cs)

-- find_proc, with fuel for the depth of the tree
unfoldable pub find_proc : ℕ → ℕ → Procs → ℕ → Option ℕ
find_proc zero pid s p = none
find_proc (suc f) pid s p =
    let below = first_found (find_proc f pid s) (s.children p) in
    if (s.pid p == pid) && not (is_unused (s.state p)) then some p else below

-- kill: true for 0, false for -1
unfoldable pub kill : ℕ → Procs → Bool × Procs
kill pid s = elim (find_proc (s.max_pid + 1) pid s root) [
  | none ↦ (false, s)
  | some p ↦ (true, activate true p (record s { killed = set_at p true s.killed }))
]
