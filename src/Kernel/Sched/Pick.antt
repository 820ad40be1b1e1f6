-- ===== src/Kernel/Sched/Pick.antt =====
-- Which process pick_next of src/kernel/sched.c chooses.
use fdu2024_os_honor_lab.Prelude.{
  ℕ, ◌+◌, ◌≡◌, ◌≤◌, ◌<◌, ◌⊎◌, true, refl, arith, List, [], ◌∷◌, Bool-cases, inl, inr, Option, none,
  some, ltb, ◌&&◌,
}
use fdu2024_os_honor_lab.Kernel.Sem.{contains}
use fdu2024_os_honor_lab.Kernel.Sched.{
  Proc, Sched, pick_loop, pick_next, is_runnable, max_load, set_at,
}

-- No runnable process of the list has less than this load.
abbrev pub IsLeast : (ℕ → Proc) → List ℕ → ℕ → Type 0
IsLeast procs ps n =
    (p : ℕ) → contains p ps ≡ true → is_runnable (procs p).state ≡ true → n ≤ (procs p).timeload

-- What is best after some of the queue: what was, or a process of it.
pub record Chosen (procs : ℕ → Proc) (ps : List ℕ) (n p : ℕ) : Type 0 where
  pub queued : contains p ps ≡ true
  pub can_run : is_runnable (procs p).state ≡ true
  pub light : (procs p).timeload < n
  pub least : IsLeast procs ps (procs p).timeload

module _ (procs : ℕ → Proc) where
  pub pick_loop_lem :
      (ps : List ℕ) (sel : Option ℕ) (n : ℕ)
      → ((pick_loop procs ps (sel, n) ≡ (sel, n)) × IsLeast procs ps n)
        ⊎ ((p : ℕ) × (pick_loop procs ps (sel, n) ≡ (some p, (procs p).timeload))
            × Chosen procs ps n p)
  unfolding pick_loop contains
  pick_loop_lem [] sel n = inl (refl, λ p c r. cc)
  pick_loop_lem (q ∷ ps) sel n =
      elim (Bool-cases (is_runnable (procs q).state && ltb (procs q).timeload n)) [
        | inl e ↦ rw e (
            inr (elim (pick_loop_lem ps (some q) (procs q).timeload) [
              | inl (h, l) ↦ (
                q,
                h,
                record {
                  queued = ground arith;
                  can_run = ground arith;
                  light = ground arith;
                  least = λ p c r. ground (arith, l p);
                },
              )
              | inr (p, h, k) ↦ (
                p,
                h,
                record {
                  queued = ground (arith, k.queued);
                  can_run = k.can_run;
                  light = ground (arith, k.light);
                  least = λ o c r. ground (arith, k.least o, k.light);
                },
              )
            ]))
        | inr e ↦ rw e (elim (pick_loop_lem ps sel n) [
          | inl (h, l) ↦ inl (h, λ p c r. ground (arith, l p))
          | inr (p, h, k) ↦ inr (
            p,
            h,
            record {
              queued = ground (arith, k.queued);
              can_run = k.can_run;
              light = k.light;
              least = λ o c r. ground (arith, k.least o, k.light);
            },
          )
        ])
      ]

abbrev pub loaded : ℕ → Sched → Sched
loaded p s = record s {
  procs = set_at p (record (s.procs p) { timeload = (s.procs p).timeload + 1 }) s.procs;
}

-- pick_next chooses a runnable process of the queue with the least load of all of them and adds one to
-- its load; if no runnable process has a load below 1000000, it chooses the idle process of the
-- processor and changes nothing.
pub pick_next_lem :
    (c : ℕ) (s : Sched)
    → ((pick_next c s ≡ (s.idle c, s)) × IsLeast s.procs s.rq max_load)
      ⊎ ((p : ℕ) × (pick_next c s ≡ (p, loaded p s)) × Chosen s.procs s.rq max_load p)
unfolding pick_next
pick_next_lem c s = elim (pick_loop_lem s.procs s.rq none max_load) [
  | inl (h, l) ↦ inl (rw (h, pick_next) refl, l)
  | inr (p, h, k) ↦ inr (p, rw (h, pick_next) refl, k)
]
