-- ===== src/Kernel/Proc/Inv.antt =====
-- The process tree is a tree (src/kernel/proc.c): lists of children, parents, pids and posts agree.
use fdu2024_os_honor_lab.Prelude.{
  ℕ, ◌+◌, ◌-◌, ◌≡◌, ◌≢◌, ◌≤◌, ◌<◌, ◌⊎◌, Bool, true, false, not, ◌&&◌, Option, none, some, ◌==◌,
  arith,
}
use fdu2024_os_honor_lab.Kernel.Sched.{ProcState, unused, set_at, is_zombie}
use fdu2024_os_honor_lab.Kernel.Proc.{
  Procs, root, is_unused, no_parent, init_proc, adopt, free_child,
}
use fdu2024_os_honor_lab.Kernel.Proc.Counts.{
  one_if, occurs, zombies, zombies-set_at, occurs-remove_ne, occurs-remove, zombies-remove,
}

abbrev pub is_parent : ℕ → Option ℕ → Bool
is_parent p none = false
is_parent p (some q) = q == p

-- Process `c` is a child of `p`. The root is its own parent, and nobody's child.
abbrev pub is_child : Procs → ℕ → ℕ → Bool
is_child s p c = s.used c && not (c == root) && is_parent p (s.parent c)

abbrev pub is_alive : Procs → ℕ → Bool
is_alive s p = s.used p && not (is_zombie (s.state p))

-- `taken` counts the calls of wait of each process that have taken a post and not reaped yet.
pub record IsForest (taken : ℕ → ℕ) (s : Procs) : Type 0 where
  pub links : (p c : ℕ) → occurs c (s.children p) ≡ one_if (is_child s p c)
  pub order : (p c : ℕ) → is_child s p c ≡ true → (is_alive s p ≡ true) × (s.pid p < s.pid c)
  pub posts :
      (p : ℕ) → is_alive s p ≡ true → s.childexit p + taken p ≡ zombies s.state (s.children p)
  pub takers : (p : ℕ) → 0 < taken p → is_alive s p ≡ true
  pub pids : (p : ℕ) → s.used p ≡ true → s.pid p ≤ s.max_pid
  pub unique : (p q : ℕ) → s.used p ≡ true → s.used q ≡ true → s.pid p ≡ s.pid q → p ≡ q
  pub started :
      (c : ℕ) → s.used c ≡ true → is_unused (s.state c) ≡ false → no_parent (s.parent c) ≡ false
  pub root_alive : is_alive s root ≡ true
  pub root_first : (p : ℕ) → s.used p ≡ true → p ≢ root → s.pid root < s.pid p

module _ (taken : ℕ → ℕ) (s : Procs) (f : IsForest taken s) where
  -- A new process.
  pub init_proc-IsForest : (c : ℕ) → s.used c ≡ false → IsForest taken (init_proc c s)
  unfolding init_proc
  init_proc-IsForest c new = record {
    links = λ p x. ground (arith, f.links p x, f.order p x, new);
    order = λ p x h. ground (arith, f.order p x, h, new);
    posts = λ p h. ground (
      arith,
      f.posts p,
      f.takers p,
      zombies-set_at s.state c unused (s.children p),
      f.links p c,
      h,
      new,
    );
    takers = λ p h. ground (arith, f.takers p, h, new);
    pids = λ p h. ground (arith, f.pids p, h);
    unique = λ p q h k e. ground (arith, f.pids p, f.pids q, f.unique p q, h, k, e);
    started = λ x h n. ground (arith, f.started x, h, n);
    root_alive = ground (arith, f.root_alive, new);
    root_first = λ p h n. ground (arith, f.root_first p, f.root_alive, f.pids root, h, n, new);
  }

  -- A process without a parent gets one that is older.
  pub adopt-IsForest :
      (p c : ℕ)
      → is_alive s p ≡ true
      → s.used c ≡ true
      → no_parent (s.parent c) ≡ true
      → c ≢ root
      → s.pid p < s.pid c
      → IsForest taken (adopt p c s)
  adopt-IsForest p c live here alone ne older = record {
    links = λ q x. ground (arith, f.links q x, f.links p x, here, alone, ne);
    order = λ q x h. ground (arith, f.order q x, live, older, h);
    posts = λ q h. ground (arith, f.posts q, f.started c, here, alone, h);
    takers = f.takers;
    pids = f.pids;
    unique = f.unique;
    started = λ x h n. ground (arith, f.started x, h, n);
    root_alive = f.root_alive;
    root_first = f.root_first;
  }

  -- A state that changes between those of a process that runs or waits.
  pub restate-IsForest :
      (p : ℕ) (st : ProcState)
      → is_zombie (s.state p) ≡ false
      → is_zombie st ≡ false
      → (is_unused (s.state p) ≡ false) ⊎ (no_parent (s.parent p) ≡ false)
      → IsForest taken (record s { state = set_at p st s.state })
  restate-IsForest p st old new ready = record {
    links = f.links;
    order = λ q x h. ground (arith, f.order q x, h, old, new);
    posts =
        λ q h. ground (arith, f.posts q, zombies-set_at s.state p st (s.children q), h, old, new);
    takers = λ q h. ground (arith, f.takers q, h, old, new);
    pids = f.pids;
    unique = f.unique;
    started = λ x h n. ground (arith, f.started x, h, n, ready);
    root_alive = ground (arith, f.root_alive, old, new);
    root_first = f.root_first;
  }

  pub take-IsForest :
      (p : ℕ)
      → is_alive s p ≡ true
      → s.childexit p ≢ 0
      → IsForest
          (set_at p (taken p + 1) taken)
          (record s { childexit = set_at p (s.childexit p - 1) s.childexit })
  take-IsForest p live some_post = record {
    links = f.links;
    order = f.order;
    posts = λ q h. ground (arith, f.posts q, h, some_post);
    takers = λ q h. ground (arith, f.takers q, h, live);
    pids = f.pids;
    unique = f.unique;
    started = f.started;
    root_alive = f.root_alive;
    root_first = f.root_first;
  }

  -- A zombie child of a process that has taken a post is freed.
  pub free_child-IsForest :
      (p c : ℕ)
      → 0 < taken p
      → 0 < occurs c (s.children p)
      → is_zombie (s.state c) ≡ true
      → IsForest (set_at p (taken p - 1) taken) (free_child p c s)
  free_child-IsForest p c took child dead = record {
    links = λ q x. ground (
      arith,
      f.links q x,
      f.links p x,
      f.links p c,
      f.links q c,
      f.order q x,
      occurs-remove_ne c x (s.children p),
      occurs-remove c (s.children p),
      child,
      dead,
    );
    order = λ q x h. ground (arith, f.order q x, f.order p c, f.links p c, h, child, dead);
    posts = λ q h.
        ground (arith, f.posts q, h, zombies-remove s.state c (s.children p) child dead, took);
    takers = λ q h. ground (arith, f.takers q, h, dead);
    pids = λ q h. ground (arith, f.pids q, h);
    unique = λ q r h k e. ground (arith, f.unique q r, h, k, e);
    started = λ x h n. ground (arith, f.started x, h, n);
    root_alive = ground (arith, f.root_alive, dead);
    root_first = λ q h n. ground (arith, f.root_first q, h, n);
  }
