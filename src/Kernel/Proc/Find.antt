-- ===== src/Kernel/Proc/Find.antt =====
-- What find_proc and kill find in the process tree (src/kernel/proc.c).
use fdu2024_os_honor_lab.Prelude.{
  ℕ, zero, suc, ◌+◌, ◌≡◌, ◌<◌, ◌⊎◌, ◌∙◌, inl, inr, true, false, not, ◌&&◌, Option, none, some, List,
  [], ◌∷◌, ◌==◌, arith, Bool-cases, Option-cases,
}
use fdu2024_os_honor_lab.Kernel.Proc.{Procs, root, is_unused, or_else, first_found, find_proc}
use fdu2024_os_honor_lab.Kernel.Proc.Counts.{occurs}
use fdu2024_os_honor_lab.Kernel.Proc.Inv.{is_child, IsForest}

-- Process `c` is `p` or below it.
pub data Below (s : Procs) : ℕ → ℕ → Type 0 where
  itself : {p : ℕ} → Below s p p
  under : {p c q : ℕ} → is_child s p c ≡ true → Below s c q → Below s p q

-- The process that a search for `pid` looks for.
abbrev pub Answers : Procs → ℕ → ℕ → Type 0
Answers s pid q = (s.pid q ≡ pid) × (is_unused (s.state q) ≡ false)

first_found-some :
    (g : ℕ → Option ℕ) (cs : List ℕ) (q : ℕ)
    → first_found g cs ≡ some q
    → (c : ℕ) × (0 < occurs c cs) × (g c ≡ some q)
first_found-some g [] q e = cc
first_found-some g (c ∷ cs) q e =
    let e1 : or_else (g c) (first_found g cs) ≡ some q = e in
    elim (Option-cases (g c)) [
      | inr y ↦ (c, ground arith, y.1 ∙ (rw y.1 at e1))
      | inl y ↦ let r = first_found-some g cs q (rw y at e1) in (r.0, omega (arith, r.1), r.2)
    ]

first_found-none :
    (g : ℕ → Option ℕ) (cs : List ℕ) (c : ℕ)
    → first_found g cs ≡ none
    → 0 < occurs c cs
    → g c ≡ none
first_found-none g [] c e l = absurd (omega arith)
first_found-none g (x ∷ cs) c e l =
    let e1 : or_else (g x) (first_found g cs) ≡ none = e in
    elim (Option-cases (g x)) [
      | inr y ↦ let n : some y.0 ≡ none = rw y.1 at e1 in cc
      | inl y ↦ elim (Bool-cases (x == c)) [
        | inl h ↦ let p : x ≡ c = ground arith in rw (← p) y
        | inr h ↦ first_found-none g cs c (rw y at e1) (ground (arith, l, h))
      ]
    ]

module _ (taken : ℕ → ℕ) (s : Procs) (f : IsForest taken s) where
  find_proc-some : (n pid p q : ℕ) → find_proc n pid s p ≡ some q → Answers s pid q × Below s p q
  unfolding find_proc
  find_proc-some zero pid p q e = cc
  find_proc-some (suc n) pid p q e =
      elim (Bool-cases ((s.pid p == pid) && not (is_unused (s.state p)))) [
        | inl h ↦
            let r : some p ≡ some q = rw h at e in
            let y : p ≡ q = cc in (rw (← y) (ground (arith, h)), rw (← y) itself)
        | inr h ↦
            let e1 : first_found (find_proc n pid s) (s.children p) ≡ some q = rw h at e in
            let (c, own, found) = first_found-some (find_proc n pid s) (s.children p) q e1 in
            let (a, b) = find_proc-some n pid c q found in
            (a, under (ground (arith, f.links p c, own)) b)
      ]

  -- With fuel for the pids below it, a search misses no process.
  find_proc-none :
      (n pid p q : ℕ)
      → s.max_pid < s.pid p + n
      → s.used p ≡ true
      → find_proc n pid s p ≡ none
      → Below s p q
      → Answers s pid q
      → ⊥
  unfolding find_proc
  find_proc-none zero pid p q l u e b a = absurd (omega (arith, f.pids p u, l))
  find_proc-none (suc n) pid p _ l u e itself a =
      let h : ((s.pid p == pid) && not (is_unused (s.state p))) ≡ true = ground (arith, a) in
      let r : some p ≡ none = rw h at e in cc
  find_proc-none (suc n) pid p q l u e (under {c = c} k b) a =
      elim (Bool-cases ((s.pid p == pid) && not (is_unused (s.state p)))) [
        | inl h ↦ let r : some p ≡ none = rw h at e in cc
        | inr h ↦
            let e1 : first_found (find_proc n pid s) (s.children p) ≡ none = rw h at e in
            let o = f.order p c k in
            find_proc-none n pid c q (omega (arith, o.1, l)) (ground (arith, k))
              (first_found-none (find_proc n pid s) (s.children p) c e1
                (rw (f.links p c, k) (omega arith)))
              b a
      ]

  -- A search from the root finds a process that has started and has the pid, or there is none below it.
  pub find_root_lem :
      (pid : ℕ)
      → ((q : ℕ) × (find_proc (s.max_pid + 1) pid s root ≡ some q)
          × Answers s pid q
          × Below s root q)
        ⊎ ((find_proc (s.max_pid + 1) pid s root ≡ none)
            × ((q : ℕ) → Below s root q → Answers s pid q → ⊥))
  find_root_lem pid = elim (Option-cases (find_proc (s.max_pid + 1) pid s root)) [
    | inl e ↦ inr (
      e,
      λ q b a.
          find_proc-none (s.max_pid + 1) pid root q (omega arith) (ground (arith, f.root_alive)) e b
            a,
    )
    | inr e ↦ let r = find_proc-some (s.max_pid + 1) pid root e.0 e.1 in inl (e.0, e.1, r.0, r.1)
  ]
