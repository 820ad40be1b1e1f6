-- ===== src/Kernel/Proc/Exit.antt =====
-- What exit does to the process tree (src/kernel/proc.c): the children go to the root, and a zombie among
-- them is announced there.
use fdu2024_os_honor_lab.Prelude.{
  ℕ, ◌+◌, ◌≡◌, ◌≢◌, ◌<◌, ◌∙◌, refl, ap, inl, inr, true, false, not, ◌&&◌, some, List, [], ◌∷◌, ◌++◌,
  ◌==◌, ltb, if◌then◌else◌, arith, Bool-cases, Option-cases,
}
use fdu2024_os_honor_lab.Prelude.Int.{ℤ}
use fdu2024_os_honor_lab.Prelude.Exec.{done}
use fdu2024_os_honor_lab.Kernel.Sched.{zombie, set_at, is_zombie}
use fdu2024_os_honor_lab.Kernel.Proc.{
  Procs, root, is_unused, no_parent, post, reparent, give_children, exit,
}
use fdu2024_os_honor_lab.Kernel.Proc.Counts.{
  one_if, occurs, zombies, occurs-append, zombies-append, zombies-set_at,
}
use fdu2024_os_honor_lab.Kernel.Proc.Inv.{is_child, is_alive, IsForest}

-- What the loop over the children leaves.
record Reparented (cs : List ℕ) (s t : Procs) : Type 0 where
  pub used : t.used ≡ s.used
  pub state : t.state ≡ s.state
  pub pid : t.pid ≡ s.pid
  pub children : t.children ≡ s.children
  pub max_pid : t.max_pid ≡ s.max_pid
  pub parent : (x : ℕ) → t.parent x ≡ (if ltb 0 (occurs x cs) then some root else s.parent x)
  pub childexit :
      (x : ℕ) → t.childexit x ≡ s.childexit x + (if root == x then zombies s.state cs else 0)

reparent-Reparented : (cs : List ℕ) (s : Procs) → Reparented cs s (reparent cs s)
unfolding reparent
reparent-Reparented [] s = record {
  used = refl;
  state = refl;
  pid = refl;
  children = refl;
  max_pid = refl;
  parent = λ x. refl;
  childexit = λ x. ground arith;
}
reparent-Reparented (c ∷ cs) s = elim (Bool-cases (is_zombie (s.state c))) [
  | inl e ↦
      let r =
        reparent-Reparented cs (post root (record s { parent = set_at c (some root) s.parent })) in
      rw e (record {
        used = r.used;
        state = r.state;
        pid = r.pid;
        children = r.children;
        max_pid = r.max_pid;
        parent = λ x. ground (arith, r.parent x);
        childexit = λ x. ground (arith, r.childexit x, e);
      })
  | inr e ↦
      let r = reparent-Reparented cs (record s { parent = set_at c (some root) s.parent }) in
      rw e (record {
        used = r.used;
        state = r.state;
        pid = r.pid;
        children = r.children;
        max_pid = r.max_pid;
        parent = λ x. ground (arith, r.parent x);
        childexit = λ x. ground (arith, r.childexit x, e);
      })
]

-- What exit of `this` with parent `q` leaves.
record Exited (this q : ℕ) (s t : Procs) : Type 0 where
  pub used : t.used ≡ s.used
  pub pid : t.pid ≡ s.pid
  pub max_pid : t.max_pid ≡ s.max_pid
  pub state : t.state ≡ set_at this zombie s.state
  pub children :
      t.children ≡ set_at this [] (set_at root (s.children this ++ s.children root) s.children)
  pub parent :
      (x : ℕ) → t.parent x ≡ (if ltb 0 (occurs x (s.children this)) then some root else s.parent x)
  pub childexit :
      (x : ℕ)
      → t.childexit x
        ≡ s.childexit x
          + (if root == x then zombies s.state (s.children this) else 0)
          + (if q == x then 1 else 0)

module _ (taken : ℕ → ℕ) (s t : Procs) (f : IsForest taken s) (this q : ℕ)
    (live : is_alive s this ≡ true) (ne : this ≢ root) (quiet : taken this ≡ 0)
    (linked : s.parent this ≡ some q) (e : Exited this q s t) where
  exited-links : (p x : ℕ) → occurs x (t.children p) ≡ one_if (is_child t p x)
  exited-links p x =
      rw (e.used, e.children, e.parent x)
        (ground (
          arith,
          f.links p x,
          f.links this x,
          f.links root x,
          occurs-append x (s.children this) (s.children root),
          ne,
        ))

  moved : (x : ℕ) → is_child s this x ≡ true → t.parent x ≡ some root
  moved x h =
      e.parent x
      ∙ (let l : ltb 0 (occurs x (s.children this)) ≡ true = ground (arith, f.links this x, h) in
          rw l refl)

  kept : (x : ℕ) → is_child s this x ≡ false → t.parent x ≡ s.parent x
  kept x h =
      e.parent x
      ∙ (let l : ltb 0 (occurs x (s.children this)) ≡ false = ground (arith, f.links this x, h) in
          rw l refl)

  exited-order : (p x : ℕ) → is_child t p x ≡ true → (is_alive t p ≡ true) × (t.pid p < t.pid x)
  exited-order p x h = elim (Bool-cases (is_child s this x)) [
    | inl c ↦
        let r : (s.used x && not (x == root) && (root == p)) ≡ true = rw (e.used, moved x c) at h in
        rw (e.used, e.state, e.pid) (ground (arith, f.root_alive, f.root_first x, r, ne))
    | inr c ↦
        let r : is_child s p x ≡ true = rw (e.used, kept x c) at h in
        rw (e.used, e.state, e.pid) (ground (arith, f.order p x r, r, c))
  ]

  not_own : occurs this (s.children this) ≡ 0
  not_own = ground (arith, f.links this this, f.order this this)

  counted : (p : ℕ) → occurs this (s.children p) ≡ (if q == p then 1 else 0)
  counted p = rw (f.links p this) (rw linked (ground (arith, live, ne)))

  exited-posts :
      (p : ℕ) → is_alive t p ≡ true → t.childexit p + taken p ≡ zombies t.state (t.children p)
  exited-posts p h =
      let r : (s.used p && not (is_zombie (set_at this zombie s.state p))) ≡ true =
        rw (e.used, e.state) at h in
      rw (e.childexit p, e.state, e.children)
        (elim (Bool-cases (root == p)) [
          | inl y ↦ ground (
            arith,
            f.posts p,
            zombies-append (set_at this zombie s.state) (s.children this) (s.children root),
            zombies-set_at s.state this zombie (s.children this),
            zombies-set_at s.state this zombie (s.children p),
            not_own,
            counted p,
            r,
            y,
            live,
            ne,
          )
          | inr y ↦ ground (
            arith,
            f.posts p,
            zombies-set_at s.state this zombie (s.children p),
            counted p,
            r,
            y,
            live,
            ne,
          )
        ])

  still_linked :
      (c : ℕ)
      → s.used c ≡ true
      → is_unused (set_at this zombie s.state c) ≡ false
      → no_parent (s.parent c) ≡ false
  still_linked c h n = elim (Bool-cases (this == c)) [
    | inl y ↦ let p : this ≡ c = ground arith in rw (← p) (rw linked refl)
    | inr y ↦ f.started c h (rw y at n)
  ]

  exited-IsForest : IsForest taken t
  exited-IsForest = record {
    links = exited-links;
    order = exited-order;
    posts = exited-posts;
    takers = λ p h. rw (e.used, e.state) (ground (arith, f.takers p, h, quiet));
    pids = λ p h. rw (e.pid, e.max_pid) (f.pids p (rw e.used at h));
    unique = λ p r h k y. f.unique p r (rw e.used at h) (rw e.used at k) (rw e.pid at y);
    started = λ c h n. elim (Bool-cases (is_child s this c)) [
      | inl y ↦ rw (moved c y) refl
      | inr y ↦ rw (kept c y) (still_linked c (rw e.used at h) (rw e.state at n))
    ];
    root_alive = rw (e.used, e.state) (ground (arith, f.root_alive, ne));
    root_first = λ p h n. rw e.pid (f.root_first p (rw e.used at h) n);
  }

-- The call of exit itself.
module _ (s : Procs) (this q : ℕ) (code : ℤ) (ne : this ≢ root)
    (own : occurs this (s.children this) ≡ 0) (linked : s.parent this ≡ some q) where
  abbrev coded : Procs
  coded = record s { exitcode = set_at this code s.exitcode }

  abbrev given : Procs
  given = give_children this (reparent (s.children this) coded)

  abbrev gone : Procs
  gone = record (post q given) { state = set_at this zombie given.state }

  gone-Exited : Exited this q s gone
  gone-Exited =
      let r = reparent-Reparented (s.children this) coded in
      record {
        used = r.used;
        pid = r.pid;
        max_pid = r.max_pid;
        state = ap (set_at this zombie) r.state;
        children = ap (λ k. set_at this [] (set_at root (k this ++ k root) k)) r.children;
        parent = r.parent;
        childexit = λ x. ground (arith, r.childexit x, r.childexit q);
      }

  exit_runs : exit this code s ≡ done (tt, gone)
  unfolding exit
  exit_runs =
      let r = reparent-Reparented (s.children this) coded in
      let z : (this == root) ≡ false = ground (arith, ne) in
      let p : given.parent this ≡ some q = r.parent this ∙ rw own linked in rw (z, p) refl

-- An exit of a started process other than the root, which is not in a call of wait, returns and keeps the
-- tree.
pub exit_lem :
    (taken : ℕ → ℕ) (s : Procs) (this : ℕ) (code : ℤ)
    → IsForest taken s
    → is_alive s this ≡ true
    → is_unused (s.state this) ≡ false
    → this ≢ root
    → taken this ≡ 0
    → (t : Procs) × (exit this code s ≡ done (tt, t))
      × IsForest taken t
      × (is_zombie (t.state this) ≡ true)
exit_lem taken s this code f live began ne quiet = elim (Option-cases (s.parent this)) [
  | inl e ↦
      let here : s.used this ≡ true = ground (arith, live) in
      let n : true ≡ false = rw e at (f.started this here began) in cc
  | inr qe ↦
      let q = qe.0 in
      let e = qe.1 in
      let own : occurs this (s.children this) ≡ 0 =
        ground (arith, f.links this this, f.order this this) in
      (
        gone s this q code ne own e,
        exit_runs s this q code ne own e,
        exited-IsForest taken s (gone s this q code ne own e) f this q live ne quiet e
            (gone-Exited s this q code ne own e),
        (let y : (this == this) ≡ true = ground arith in rw y refl),
      )
]
