-- ===== src/Kernel/Proc/Run.antt =====
-- The calls of the process tree (src/kernel/proc.c), interleaved: what holds in every state that they
-- reach. A wait is its two steps, and the others run under the lock of the tree; exit is one step, although
-- it gives the lock up for a moment after it has moved the children.
use fdu2024_os_honor_lab.Prelude.{
  ℕ, ◌+◌, ◌-◌, ◌≡◌, ◌≢◌, ◌<◌, ◌⊎◌, ◌∙◌, refl, sym, inl, inr, Bool, true, false, Option, some, [],
  ◌==◌, arith, Bool-cases,
}
use fdu2024_os_honor_lab.Prelude.Int.{ℤ, pos}
use fdu2024_os_honor_lab.Prelude.Exec.{Result, done, panic, sleep}
use fdu2024_os_honor_lab.Kernel.Sched.{
  ProcState, runnable, running, zombie, set_at, is_zombie, stays,
}
use fdu2024_os_honor_lab.Kernel.Proc.{
  Procs, root, is_unused, no_parent, init_proc, adopt, activate, set_parent_to_this, start_proc,
  exit, take_post, free_child, reap, kill,
}
use fdu2024_os_honor_lab.Kernel.Proc.Counts.{occurs, find_zombie_lem}
use fdu2024_os_honor_lab.Kernel.Proc.Inv.{
  is_alive, IsForest, init_proc-IsForest, adopt-IsForest, restate-IsForest, take-IsForest,
  free_child-IsForest,
}
use fdu2024_os_honor_lab.Kernel.Proc.Exit.{exit_lem}
use fdu2024_os_honor_lab.Kernel.Proc.Find.{find_root_lem}

-- The processes, and for each the calls of wait that have taken a post and not reaped.
pub record System : Type 0 where
  pub procs : Procs
  pub taken : ℕ → ℕ

-- A process that runs code of the kernel: it is alive and has started.
abbrev pub Runs : Procs → ℕ → Type 0
Runs s p = (is_alive s p ≡ true) × (is_unused (s.state p) ≡ false)

pub data Step : System → System → Type 0 where
  create :
      (y : System) (c : ℕ)
      → y.procs.used c ≡ false
      → Step y (record y { procs = init_proc c y.procs })
  adopts :
      (y : System) (this c : ℕ) (t : Procs)
      → Runs y.procs this
      → y.procs.used c ≡ true
      → c ≢ root
      → y.procs.pid this < y.procs.pid c
      → set_parent_to_this this c y.procs ≡ done (tt, t)
      → Step y (record y { procs = t })
  starts :
      (y : System) (c n : ℕ) (t : Procs)
      → y.procs.used c ≡ true
      → c ≢ root
      → start_proc c y.procs ≡ done (n, t)
      → Step y (record y { procs = t })
  takes :
      (y : System) (this : ℕ) (t : Procs)
      → Runs y.procs this
      → take_post this y.procs ≡ done (tt, t)
      → Step y (record { procs = t; taken = set_at this (y.taken this + 1) y.taken })
  reaps :
      (y : System) (this : ℕ) (r : Option (ℕ × ℤ)) (t : Procs)
      → 0 < y.taken this
      → reap this y.procs ≡ done (r, t)
      → Step y (record { procs = t; taken = set_at this (y.taken this - 1) y.taken })
  exits :
      (y : System) (this : ℕ) (code : ℤ) (t : Procs)
      → Runs y.procs this
      → y.taken this ≡ 0
      → exit this code y.procs ≡ done (tt, t)
      → Step y (record y { procs = t })
  kills : (y : System) (pid : ℕ) → Step y (record y { procs = (kill pid y.procs).1 })
  schedules :
      (y : System) (p : ℕ) (st : ProcState)
      → Runs y.procs p
      → is_zombie st ≡ false
      → Step y (record y { procs = record (y.procs) { state = set_at p st y.procs.state } })

-- The root process, before any other.
abbrev pub initial : System
initial = record {
  procs = record {
    used = λ p. p == root;
    state = λ p. running;
    pid = λ p. 1;
    killed = λ p. false;
    exitcode = λ p. pos 0;
    parent = λ p. some root;
    children = λ p. [];
    childexit = λ p. 0;
    max_pid = 1;
  };
  taken = λ p. 0;
}

pub data Reach : System → Type 0 where
  start : Reach initial
  next : {y z : System} → Reach y → Step y z → Reach z

initial-IsForest : IsForest initial.taken initial.procs
initial-IsForest = record {
  links = λ p c. ground arith;
  order = λ p c h. ground (arith, h);
  posts = λ p h. refl;
  takers = λ p h. absurd (omega (arith, h));
  pids = λ p h. omega arith;
  unique = λ p q h k e. ground (arith, h, k);
  started = λ c h n. refl;
  root_alive = refl;
  root_first = λ p h n. ground (arith, h, n);
}

-- The other fields do not matter.
killed-IsForest :
    (taken : ℕ → ℕ) (s : Procs) (k : ℕ → Bool)
    → IsForest taken s
    → IsForest taken (record s { killed = k })
killed-IsForest taken s k f = record {
  links = f.links;
  order = f.order;
  posts = f.posts;
  takers = f.takers;
  pids = f.pids;
  unique = f.unique;
  started = f.started;
  root_alive = f.root_alive;
  root_first = f.root_first;
}

activate-IsForest :
    (taken : ℕ → ℕ) (s : Procs) (onalert : Bool) (p : ℕ)
    → IsForest taken s
    → (is_unused (s.state p) ≡ false) ⊎ (no_parent (s.parent p) ≡ false)
    → IsForest taken (activate onalert p s)
unfolding activate
activate-IsForest taken s onalert p f ready = elim (Bool-cases (stays (s.state p) onalert)) [
  | inl e ↦ rw e f
  | inr e ↦ rw e (restate-IsForest taken s f p runnable (awake (s.state p) onalert e) refl ready)
]
  where
    awake : (st : ProcState) (b : Bool) → stays st b ≡ false → is_zombie st ≡ false
    awake zombie b h = cc
    awake _ b h = refl

-- The states of a call that returns are those that it gives.
of_done {ℓ} :
    {A : Type ℓ} {a b : A} {s t : Procs}
    → ◌≡◌ {A = Result (A × Procs)} (done (a, s)) (done (b, t))
    → s ≡ t
of_done e = cc

exit-root : (s : Procs) (this : ℕ) (code : ℤ) → (this == root) ≡ true → exit this code s ≡ panic
unfolding exit
exit-root s this code z = rw z refl

module _ (taken : ℕ → ℕ) (s : Procs) (f : IsForest taken s) where
  adopts-IsForest :
      (this c : ℕ) (t : Procs)
      → Runs s this
      → s.used c ≡ true
      → c ≢ root
      → s.pid this < s.pid c
      → set_parent_to_this this c s ≡ done (tt, t)
      → IsForest taken t
  unfolding set_parent_to_this
  adopts-IsForest this c t runs here ne older e = elim (Bool-cases (no_parent (s.parent c))) [
    | inr n ↦ let x : ◌≡◌ {A = Result (Unit × Procs)} panic (done (tt, t)) = rw n at e in cc
    | inl n ↦
        let x : ◌≡◌ {A = Result (Unit × Procs)} (done (tt, adopt this c s)) (done (tt, t)) =
          rw n at e in
        rw (← (of_done x)) (adopt-IsForest taken s f this c runs.0 here n ne older)
  ]

  starts-IsForest :
      (c n : ℕ) (t : Procs)
      → s.used c ≡ true
      → c ≢ root
      → start_proc c s ≡ done (n, t)
      → IsForest taken t
  unfolding start_proc
  starts-IsForest c n t here ne e = elim (Bool-cases (no_parent (s.parent c))) [
    | inl z ↦
        let x : ◌≡◌ {A = Result (ℕ × Procs)} (done (s.pid c, activate false c (adopt root c s)))
            (done (n, t)) =
          rw z at e in
        let self : (c == c) ≡ true = ground arith in
        rw (← (of_done x)) (
          activate-IsForest taken (adopt root c s) false c
            (adopt-IsForest taken s f root c f.root_alive here z ne (f.root_first c here ne))
            (inr (rw self refl)))
    | inr z ↦
        let x : ◌≡◌ {A = Result (ℕ × Procs)} (done (s.pid c, activate false c s)) (done (n, t)) =
          rw z at e in
        rw (← (of_done x)) (activate-IsForest taken s false c f (inr z))
  ]

  takes-IsForest :
      (this : ℕ) (t : Procs)
      → Runs s this
      → take_post this s ≡ done (tt, t)
      → IsForest (set_at this (taken this + 1) taken) t
  unfolding take_post
  takes-IsForest this t runs e = elim (Bool-cases (s.childexit this == 0)) [
    | inl z ↦ let x : ◌≡◌ {A = Result (Unit × Procs)} sleep (done (tt, t)) = rw z at e in cc
    | inr z ↦
        let x : ◌≡◌ {A = Result (Unit × Procs)}
            (done (tt, record s { childexit = set_at this (s.childexit this - 1) s.childexit }))
            (done (tt, t)) =
          rw z at e in
        rw (← (of_done x)) (take-IsForest taken s f this runs.0 (ground (arith, z)))
  ]

  -- A wait that has taken a post finds a zombie.
  pub reap_finds :
      (this : ℕ)
      → 0 < taken this
      → (c : ℕ) × (reap this s ≡ done (some (s.pid c, s.exitcode c), free_child this c s))
        × (0 < occurs c (s.children this))
        × (is_zombie (s.state c) ≡ true)
  unfolding reap
  reap_finds this took = elim (find_zombie_lem s.state (s.children this)) [
    | inl h ↦ absurd (omega (arith, h.1, f.posts this (f.takers this took), took))
    | inr h ↦ (h.0, rw (h.1, reap) refl, h.2, h.3)
  ]

  reaps-IsForest :
      (this : ℕ) (r : Option (ℕ × ℤ)) (t : Procs)
      → 0 < taken this
      → reap this s ≡ done (r, t)
      → IsForest (set_at this (taken this - 1) taken) t
  reaps-IsForest this r t took e =
      let (c, run, own, dead) = reap_finds this took in
      rw (← (of_done (sym run ∙ e))) (free_child-IsForest taken s f this c took own dead)

  exits-IsForest :
      (this : ℕ) (code : ℤ) (t : Procs)
      → Runs s this
      → taken this ≡ 0
      → exit this code s ≡ done (tt, t)
      → IsForest taken t
  exits-IsForest this code t runs quiet e = elim (Bool-cases (this == root)) [
    | inl z ↦
        let x : ◌≡◌ {A = Result (Unit × Procs)} panic (done (tt, t)) =
          sym (exit-root s this code z) ∙ e in
        cc
    | inr z ↦
        let (u, run, g, dead) =
          exit_lem taken s this code f runs.0 runs.1 (ground (arith, z)) quiet in
        rw (← (of_done (sym run ∙ e))) g
  ]

  kills-IsForest : (pid : ℕ) → IsForest taken (kill pid s).1
  unfolding kill
  kills-IsForest pid = elim (find_root_lem taken s f pid) [
    | inr h ↦ rw (h.0, kill) f
    | inl h ↦
        rw (h.1, kill)
          (activate-IsForest taken (record s { killed = set_at h.0 true s.killed }) true h.0
            (killed-IsForest taken s (set_at h.0 true s.killed) f) (inl h.2.1))
  ]

Step-IsForest : {y z : System} → Step y z → IsForest y.taken y.procs → IsForest z.taken z.procs
Step-IsForest (create y c new) f = init_proc-IsForest y.taken y.procs f c new
Step-IsForest (adopts y this c t runs used ne older e) f =
    adopts-IsForest y.taken y.procs f this c t runs used ne older e
Step-IsForest (starts y c n t used ne e) f = starts-IsForest y.taken y.procs f c n t used ne e
Step-IsForest (takes y this t runs e) f = takes-IsForest y.taken y.procs f this t runs e
Step-IsForest (reaps y this r t took e) f = reaps-IsForest y.taken y.procs f this r t took e
Step-IsForest (exits y this code t runs quiet e) f =
    exits-IsForest y.taken y.procs f this code t runs quiet e
Step-IsForest (kills y pid) f = kills-IsForest y.taken y.procs f pid
Step-IsForest (schedules y p st runs alive) f =
    restate-IsForest y.taken y.procs f p st (ground (arith, runs)) alive (inl runs.1)

-- In every state that the calls reach from the root process alone, a process stands once in the
-- list of children of its parent and in no other; the parent is alive and has a lower pid; pids are
-- unique; and the posts of a process that is alive, with those that its waits have taken, are as
-- many as its zombie children.
pub Reach-IsForest : {y : System} → Reach y → IsForest y.taken y.procs
Reach-IsForest start = initial-IsForest
Reach-IsForest (next r st) = Step-IsForest st (Reach-IsForest r)
