-- ===== src/Kernel/Pt/Map.antt =====
-- Mapping a page (vmmap of src/kernel/pt.c), against a map from addresses to entries.
use Prim.Native.Nat.{bit_or}
use fdu2024_os_honor_lab.Prelude.{
  ℕ, zero, suc, ◌+◌, ◌/◌, ◌%◌, ◌^◌, ◌≡◌, ◌≢◌, ◌≤◌, ◌<◌, ◌∙◌, refl, sym, ap, inl, inr, true, false,
  ◌&&◌, Option, none, some, ◌==◌, if◌then◌else◌, length, arith, Bool-cases,
}
use fdu2024_os_honor_lab.Prelude.Exec.{done, ◌>>=◌}
use fdu2024_os_honor_lab.Kernel.Mem.{page_size, put_at}
use fdu2024_os_honor_lab.Kernel.Pt.{
  Tables, k2p, is_present, va_part, page_base, set_entry, get_pte, top_table, then_table,
  next_table, vmmap,
}
use fdu2024_os_honor_lab.Kernel.Pt.Tree.{
  child, child_ne, step, table, number, last_level, mapped, IsTree, number-interior, number_bounds,
  table-number,
}
use fdu2024_os_honor_lab.Kernel.Pt.Grow.{get_pte_lem}

-- The page of an address, of the 48 bits that are translated.
abbrev pub page_of : ℕ → ℕ
page_of va = va / 2 ^ 12 % 2 ^ 36

same_parts :
    (va vb : ℕ)
    → page_of va ≡ page_of vb
    → (va_part 0 va ≡ va_part 0 vb)
      × (va_part 1 va ≡ va_part 1 vb)
      × (va_part 2 va ≡ va_part 2 vb)
      × (va_part 3 va ≡ va_part 3 vb)
same_parts va vb e = (omega (arith, e), omega (arith, e), omega (arith, e), omega (arith, e))

number-page :
    (va vb : ℕ) → number 3 va ≡ number 3 vb → va_part 3 va ≡ va_part 3 vb → page_of va ≡ page_of vb
number-page va vb e f = omega (arith, e, f)

both_same : (a b c d : ℕ) → ((a == b) && (c == d)) ≡ true → (a ≡ b) × (c ≡ d)
both_same a b c d h = (ground (arith, h), ground (arith, h))

ne_of : (a b : ℕ) → (a == b) ≡ false → a ≢ b
ne_of a b h = ground (arith, h)

same_self : (n : ℕ) → (n == n) ≡ true
same_self n = ground arith

-- `t` is `s` with entry `i` of table `p` set to `x`; the counts of pages do not matter.
record Stored (p i x : ℕ) (s t : Tables) : Type 0 where
  pub pt : t.pt ≡ s.pt
  pub heap : t.heap ≡ s.heap
  pub entry : (a j : ℕ) → t.entries a j ≡ (if (p == a) && (i == j) then x else s.entries a j)

module _ (s t : Tables) (v : IsTree s) (va x : ℕ) (here : table s 3 va ≢ 0)
    (st : Stored (table s 3 va) (va_part 3 va) x s t) where
  last_number : v.numbers (table s 3 va) ≡ number 3 va
  last_number = ground (arith, table-number s v 3 va, here)

  interior_stays : (a j : ℕ) → v.numbers a < last_level → t.entries a j ≡ s.entries a j
  interior_stays a j l = st.entry a j ∙ (let n = differs in rw n refl)
    where
      differs : (table s 3 va == a) ≡ false
      differs = elim (Bool-cases (table s 3 va == a)) [
        | inr e ↦ e
        | inl e ↦
            let r : table s 3 va ≡ a = ground arith in
            absurd (omega (arith, ap v.numbers r, last_number, (number_bounds va).3, l))
      ]

  table-stored : (k vb : ℕ) → k ≤ 3 → table t k vb ≡ table s k vb
  table-stored zero vb l = st.pt
  table-stored (suc k) vb l =
      rw (table-stored k vb (omega (arith, l))) (elim (Bool-cases (table s k vb == 0)) [
        | inl z ↦ rw z refl
        | inr z ↦
            let c : v.numbers (table s k vb) ≡ number k vb =
              ground (arith, table-number s v k vb, z, l) in
            let e =
              interior_stays (table s k vb) (va_part k vb) (rw c (number-interior k vb l).1) in
            rw (z, e) refl
      ])

  -- The walks of two addresses in one page.
  table-page : (vb : ℕ) → page_of va ≡ page_of vb → table s 3 vb ≡ table s 3 va
  table-page vb e =
      let q = same_parts va vb e in sym (λ i. step s (step s (step s s.pt (q.0 i)) (q.1 i)) (q.2 i))

  missed :
      (vb : ℕ)
      → (page_of va == page_of vb) ≡ false
      → (table s 3 vb == 0) ≡ false
      → (if (table s 3 va == table s 3 vb) && (va_part 3 va == va_part 3 vb)
          then x
          else s.entries (table s 3 vb) (va_part 3 vb))
        ≡ s.entries (table s 3 vb) (va_part 3 vb)
  missed vb e z =
      elim (Bool-cases ((table s 3 va == table s 3 vb) && (va_part 3 va == va_part 3 vb))) [
        | inr h ↦ rw h refl
        | inl h ↦
            let (p, q) = both_same (table s 3 va) (table s 3 vb) (va_part 3 va) (va_part 3 vb) h in
            let c : v.numbers (table s 3 vb) ≡ number 3 vb =
              ground (arith, table-number s v 3 vb, z) in
            absurd (
              ne_of (page_of va) (page_of vb) e
                (number-page va vb (sym last_number ∙ ap v.numbers p ∙ c) q))
      ]

  mapped-stored : (vb : ℕ) → mapped t vb ≡ (if page_of va == page_of vb then x else mapped s vb)
  mapped-stored vb =
      rw (table-stored 3 vb (omega arith)) (elim (Bool-cases (page_of va == page_of vb)) [
        | inl e ↦
            let r : page_of va ≡ page_of vb = ground (arith, e) in
            let f = same_parts va vb r in
            let z : (table s 3 va == 0) ≡ false = ground (arith, here) in
            rw (e, table-page vb r, z)
              (rw (st.entry (table s 3 va) (va_part 3 vb)) (
                let a : (table s 3 va == table s 3 va) ≡ true = ground arith in
                let b : (va_part 3 va == va_part 3 vb) ≡ true = ground (arith, f.3) in
                rw (a, b) refl))
        | inr e ↦ elim (Bool-cases (table s 3 vb == 0)) [
          | inl z ↦ rw (e, z) refl
          | inr z ↦ rw (e, z) (st.entry (table s 3 vb) (va_part 3 vb) ∙ missed vb e z)
        ]
      ])

  stored-IsTree : IsTree t
  stored-IsTree = record {
    numbers = v.numbers;
    null = v.null;
    top = rw st.pt v.top;
    down = λ a j l pos low present.
        let e = interior_stays a j low in rw e (v.down a j l pos low (rw e at present));
    free_pages = rw st.heap v.free_pages;
  }

-- What map_page leaves.
abbrev page_mapped : Tables → ℕ → ℕ → ℕ → ℕ → Tables
page_mapped s p i ka flags =
    let a = set_entry p i (k2p (page_base ka)) s in
    let b = set_entry p i (bit_or (a.entries p i) flags) a in
    let n = k2p (page_base ka) / page_size in record b { refs = put_at n (b.refs n + 1) b.refs }

map_page-Stored :
    (s : Tables) (p i ka flags : ℕ)
    → Stored p i (bit_or (k2p (page_base ka)) flags) s (page_mapped s p i ka flags)
map_page-Stored s p i ka flags = record {
  pt = refl;
  heap = refl;
  entry = λ a j. elim (Bool-cases (p == a)) [
    | inr e ↦ rw e refl
    | inl e ↦ elim (Bool-cases (i == j)) [
      | inl f ↦ rw (e, f, same_self p, same_self i) refl
      | inr f ↦
          let r : p ≡ a = ground arith in rw (e, f, same_self p) (rw f (ap (λ x. s.entries x j) r))
    ]
  ];
}

abbrev opt : ℕ → Option ℕ
opt p = if p == 0 then none else some p

then_table-step : (s : Tables) (p i : ℕ) → then_table false i (opt p) s ≡ done (opt (step s p i), s)
unfolding next_table
then_table-step s p i = elim (Bool-cases (p == 0)) [
  | inl z ↦ rw z refl
  | inr z ↦ elim (Bool-cases (is_present (s.entries p i))) [
    | inr e ↦ rw z (rw e refl)
    | inl e ↦
        let n : (child (s.entries p i) == 0) ≡ false = ground (arith, child_ne (s.entries p i)) in
        rw z (rw e (rw n refl))
  ]
]

top_table_reads : (s : Tables) → top_table false s ≡ done (opt s.pt, s)
unfolding top_table
top_table_reads s = elim (Bool-cases (s.pt == 0)) [ inl z ↦ rw z refl | inr z ↦ rw z refl ]

-- get_pte without allocation gives null exactly for an address that no table holds, and otherwise the
-- place of its entry, and changes nothing.
pub get_pte_reads :
    (s : Tables) (va : ℕ)
    → get_pte false va s
      ≡ done ((if table s 3 va == 0 then none else some (table s 3 va, va_part 3 va)), s)
unfolding get_pte
get_pte_reads s va =
    rw (top_table_reads s, ◌>>=◌)
      (rw (then_table-step s (table s 0 va) (va_part 0 va), ◌>>=◌)
        (rw (then_table-step s (table s 1 va) (va_part 1 va), ◌>>=◌)
          (rw (then_table-step s (table s 2 va) (va_part 2 va), ◌>>=◌)
            (elim (Bool-cases (table s 3 va == 0)) [ inl z ↦ rw z refl | inr z ↦ rw z refl ]))))

-- From tables that form a tree, with four pages left, vmmap returns. It maps the page of the
-- address to the given page with the flags; every other address has the entry it had before, and
-- the tables are still a tree.
pub vmmap_lem :
    (s : Tables) (va ka flags : ℕ)
    → IsTree s
    → 4 ≤ length s.heap.nodes
    → (t : Tables) × (vmmap va ka flags s ≡ done (tt, t))
      × IsTree t
      × ((vb : ℕ)
          → mapped t vb
            ≡ (if page_of va == page_of vb then bit_or (k2p (page_base ka)) flags else mapped s vb))
unfolding vmmap
vmmap_lem s va ka flags v room =
    let (u, run, grown, here) = get_pte_lem s va v room in
    let st = map_page-Stored u (table u 3 va) (va_part 3 va) ka flags in
    let t = page_mapped u (table u 3 va) (va_part 3 va) ka flags in
    (
      t,
      rw (run, ◌>>=◌) refl,
      stored-IsTree u t grown.tree va (bit_or (k2p (page_base ka)) flags) here st,
      λ vb.
          mapped-stored u t grown.tree va (bit_or (k2p (page_base ka)) flags) here st vb
          ∙ rw (grown.same vb) refl,
    )
