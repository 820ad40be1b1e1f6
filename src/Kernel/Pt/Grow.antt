-- ===== src/Kernel/Pt/Grow.antt =====
-- What get_pte does when it adds a table (src/kernel/pt.c): the walk for every address that had a table
-- is as before, and no address gets another entry.
use fdu2024_os_honor_lab.Prelude.{
  ℕ, suc, ◌+◌, ◌≡◌, ◌≢◌, ◌≤◌, ◌<◌, ◌∙◌, refl, sym, ap, inl, inr, true, false, Option, some, List,
  [], ◌∷◌, ◌==◌, length, arith, Bool-cases,
}
use fdu2024_os_honor_lab.Prelude.Exec.{done, M, ◌>>=◌}
use fdu2024_os_honor_lab.Kernel.Pt.{Tables, is_present, va_part, next_table, top_table, get_pte}
use fdu2024_os_honor_lab.Kernel.Pt.Tree.{
  child, step, table, number, last_level, AreFree, IsTree, number-interior, table-number, child_ne,
  part_lt, new_page_lem,
}
use fdu2024_os_honor_lab.Kernel.Pt.Attach.{
  Grown, attached, attached-Grown, attached_link, topped, topped-Grown,
}

Grown-refl : (s : Tables) → IsTree s → Grown 1 s s
Grown-refl s v = record {
  tree = v;
  same = λ va. refl;
  keeps = λ k va l n. refl;
  pages = omega arith;
}

pub Grown-trans : {m n : ℕ} {s t u : Tables} → Grown m s t → Grown n t u → Grown (m + n) s u
Grown-trans g h = record {
  tree = h.tree;
  same = λ va. h.same va ∙ g.same va;
  keeps = λ k va l n. let e = g.keeps k va l n in h.keeps k va l (λ z. n (sym e ∙ z)) ∙ e;
  pages = omega (arith, g.pages, h.pages);
}

-- A list that is not empty.
pub first_of : (xs : List ℕ) → 0 < length xs → (x : ℕ) × (rest : List ℕ) × (xs ≡ x ∷ rest)
first_of [] l = absurd (omega arith)
first_of (x ∷ xs) l = (x, xs, refl)

-- A call that gives table `k` for an address, which takes at most a page.
data Walked (f : M Tables (Option ℕ)) (k va : ℕ) (s : Tables) : Type 0 where
  walked :
      (t : Tables)
      → f s ≡ done (some (table t k va), t)
      → Grown 1 s t
      → table t k va ≢ 0
      → Walked f k va s

-- One more level for an address.
next_table_lem :
    (s : Tables) (k va : ℕ)
    → IsTree s
    → k < 3
    → table s k va ≢ 0
    → 0 < length s.heap.nodes
    → Walked (next_table true (table s k va) (va_part k va)) (suc k) va s
unfolding next_table
next_table_lem s k va v l n room =
    let p = table s k va in
    let i = va_part k va in
    let z : (p == 0) ≡ false = ground (arith, n) in
    elim (Bool-cases (is_present (s.entries p i))) [
      | inl e ↦
          let r : child (s.entries p i) ≡ table s (suc k) va = rw (z, e) refl in
          walked s (rw (e, z) refl) (Grown-refl s v) (λ y. child_ne (s.entries p i) (r ∙ y))
      | inr e ↦
          let c : v.numbers p ≡ number k va = ground (arith, table-number s v k va, n) in
          let b = number-interior k va l in
          let (q, ps, f) = first_of s.heap.nodes room in linked q ps f (rw c b.0) (rw c b.1) e
    ]
  where
    linked :
        (q : ℕ) (ps : List ℕ)
        → s.heap.nodes ≡ q ∷ ps
        → 0 < v.numbers (table s k va)
        → v.numbers (table s k va) < last_level
        → is_present (s.entries (table s k va) (va_part k va)) ≡ false
        → Walked (next_table true (table s k va) (va_part k va)) (suc k) va s
    linked q ps f pos low e =
        let p = table s k va in
        let i = va_part k va in
        let t = attached s v p i q ps f pos low (part_lt k va) e in
        let g = attached-Grown s v p i q ps f pos low (part_lt k va) e in
        let r : table t (suc k) va ≡ q =
          ap (λ x. step t x i) (g.keeps k va (omega (arith, l)) n)
          ∙ attached_link s v p i q ps f pos low (part_lt k va) e in
        walked t (rw e (rw (new_page_lem s q ps f, ◌>>=◌) (ap (λ x. done (some x, t)) (sym r)))) g
          (λ y.
            let h : AreFree v.numbers (q ∷ ps) = rw f at v.free_pages in
            absurd (omega (arith, h.0.1, r, y)))

top_table_lem :
    (s : Tables) (va : ℕ) → IsTree s → 0 < length s.heap.nodes → Walked (top_table true) 0 va s
unfolding top_table
top_table_lem s va v room = elim (Bool-cases (s.pt == 0)) [
  | inr e ↦ walked s (rw e refl) (Grown-refl s v) (ground (arith, e))
  | inl e ↦
      let z : s.pt ≡ 0 = ground (arith, e) in
      let (q, ps, f) = first_of s.heap.nodes room in
      walked (topped s v q ps f z) (rw e (rw (new_page_lem s q ps f, ◌>>=◌) refl))
        (topped-Grown s v q ps f z)
        (λ y.
          let h : AreFree v.numbers (q ∷ ps) = rw f at v.free_pages in
          absurd (omega (arith, h.0.1, y)))
]

-- With four pages left get_pte finds or makes the place of the entry of an address.
pub get_pte_lem :
    (s : Tables) (va : ℕ)
    → IsTree s
    → 4 ≤ length s.heap.nodes
    → (t : Tables) × (get_pte true va s ≡ done (some (table t 3 va, va_part 3 va), t))
      × Grown 4 s t
      × (table t 3 va ≢ 0)
unfolding get_pte
get_pte_lem s va v room = elim (top_table_lem s va v (omega (arith, room))) [
  | walked a ra ga na ↦
      elim (next_table_lem a 0 va ga.tree (omega arith) na (omega (arith, room, ga.pages))) [
        | walked b rb gb nb ↦
            elim (next_table_lem b 1 va gb.tree (omega arith) nb
              (omega (arith, room, ga.pages, gb.pages))) [
                | walked c rc gc nc ↦
                    elim (next_table_lem c 2 va gc.tree (omega arith) nc
                      (omega (arith, room, ga.pages, gb.pages, gc.pages))) [
                        | walked d rd gd nd ↦ (
                          d,
                          rw (ra, ◌>>=◌) (rw (rb, ◌>>=◌) (rw (rc, ◌>>=◌) (rw (rd, ◌>>=◌) refl))),
                          Grown-trans ga (Grown-trans gb (Grown-trans gc gd)),
                          nd,
                        )
                      ]
              ]
      ]
]
