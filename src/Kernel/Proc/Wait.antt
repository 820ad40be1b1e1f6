-- ===== src/Kernel/Proc/Wait.antt =====
-- What wait and kill answer (src/kernel/proc.c).
use fdu2024_os_honor_lab.Prelude.{
  ℕ, ◌+◌, ◌-◌, ◌≡◌, ◌⊎◌, refl, inl, inr, true, false, none, some, ◌==◌, if◌then◌else◌, arith,
  Bool-cases,
}
use fdu2024_os_honor_lab.Prelude.Exec.{done, sleep, ◌>>=◌}
use fdu2024_os_honor_lab.Kernel.Sched.{set_at, is_zombie, stays}
use fdu2024_os_honor_lab.Kernel.Proc.{
  Procs, root, is_empty, activate, take_post, free_child, find_zombie, reap, wait, kill,
}
use fdu2024_os_honor_lab.Kernel.Proc.Counts.{zombies, find_zombie_lem}
use fdu2024_os_honor_lab.Kernel.Proc.Inv.{is_child}
use fdu2024_os_honor_lab.Kernel.Proc.Find.{Answers, Below, find_root_lem}
use fdu2024_os_honor_lab.Kernel.Proc.Run.{Reach, Reach-IsForest, Runs, System}

abbrev pub after_post : ℕ → Procs → Procs
after_post this s = record s { childexit = set_at this (s.childexit this - 1) s.childexit }

takes_some :
    (this : ℕ) (s : Procs)
    → (s.childexit this == 0) ≡ false
    → take_post this s ≡ done (tt, after_post this s)
unfolding take_post
takes_some this s z = rw z refl

takes_none : (this : ℕ) (s : Procs) → (s.childexit this == 0) ≡ true → take_post this s ≡ sleep
unfolding take_post
takes_none this s z = rw z refl

reap-some :
    (this c : ℕ) (s : Procs)
    → find_zombie s.state (s.children this) ≡ some c
    → reap this s ≡ done (some (s.pid c, s.exitcode c), free_child this c s)
unfolding reap
reap-some this c s e = rw (e, reap) refl

-- In every reachable state, for a process that runs and has no wait under way: wait gives -1 without
-- children; without a zombie among them it gives -1 to a killed process and sleeps for another; and with
-- one it returns, with the pid and the exit code of a zombie child, which it frees.
pub wait_lem :
    {y : System} (this : ℕ)
    → Reach y
    → Runs y.procs this
    → y.taken this ≡ 0
    → let s = y.procs in
      ((is_empty (s.children this) ≡ true) × (wait this s ≡ done (none, s)))
      ⊎ ((is_empty (s.children this) ≡ false)
          × (zombies s.state (s.children this) ≡ 0)
          × (wait this s ≡ (if s.killed this then done (none, s) else sleep)))
      ⊎ ((c : ℕ) × (is_child s this c ≡ true)
          × (is_zombie (s.state c) ≡ true)
          × (wait this s
              ≡ done (some (s.pid c, s.exitcode c), free_child this c (after_post this s))))
unfolding wait
wait_lem {y} this r runs quiet =
    let s = y.procs in
    let f = Reach-IsForest r in
    let balance : s.childexit this + 0 ≡ zombies s.state (s.children this) =
      rw quiet at (f.posts this runs.0) in
    elim (Bool-cases (is_empty (s.children this))) [
      | inl e ↦ inl (e, rw e refl)
      | inr e ↦ elim (Bool-cases (s.childexit this == 0)) [
        | inl z ↦ inr (
            inl (
              e,
              ground (arith, balance, z),
              elim (Bool-cases (s.killed this)) [
                | inl k ↦ rw (e, z, k) refl
                | inr k ↦ rw (e, z, k) (rw (takes_none this s z, ◌>>=◌) refl)
              ],
            ))
        | inr z ↦ elim (find_zombie_lem s.state (s.children this)) [
          | inl h ↦ absurd (ground (arith, h.1, balance, z))
          | inr h ↦ inr (
              inr (
                h.0,
                ground (arith, f.links this h.0, h.2),
                h.3,
                rw (e, z)
                    (rw (takes_some this s z, ◌>>=◌)
                      (rw (reap-some this h.0 (after_post this s) h.1, ◌>>=◌) refl)),
              ))
        ]
      ]
    ]

marked : (s : Procs) (q : ℕ) → s.killed q ≡ true → (activate true q s).killed q ≡ true
unfolding activate
marked s q k = elim (Bool-cases (stays (s.state q) true)) [ inl e ↦ rw e k | inr e ↦ rw e k ]

-- In every reachable state kill returns 0 and marks a process as killed that has started, has the
-- pid and stands in the tree, or it returns -1 and changes nothing, and there is no such process.
kill_lem :
    {y : System} (pid : ℕ)
    → Reach y
    → let s = y.procs in
      let t = kill pid s in
      ((t.0 ≡ true) × (q : ℕ) × Answers s pid q × Below s root q × (t.1.killed q ≡ true))
      ⊎ ((t.0 ≡ false) × (t.1 ≡ s) × ((q : ℕ) → Below s root q → Answers s pid q → ⊥))
unfolding kill
kill_lem {y} pid r = elim (find_root_lem y.taken y.procs (Reach-IsForest r) pid) [
  | inr h ↦ inr (rw (h.0, kill) refl, rw (h.0, kill) refl, h.1)
  | inl h ↦ inl (
    rw (h.1, kill) refl,
    h.0,
    h.2,
    h.3,
    rw (h.1, kill)
        (marked (record (y.procs) { killed = set_at h.0 true y.procs.killed }) h.0
          (let k : (h.0 == h.0) ≡ true = ground arith in rw k refl)),
  )
]
