-- ===== src/Kernel/Pt/Attach.antt =====
-- A new table in the tree of page tables (get_pte of src/kernel/pt.c).
use Prim.Native.Nat.{bit_or}
use fdu2024_os_honor_lab.Prelude.{
  ℕ, zero, suc, ◌+◌, ◌*◌, ◌≡◌, ◌≢◌, ◌≤◌, ◌<◌, ◌⊎◌, ◌∙◌, refl, ap, inl, inr, Bool, true, false, ◌&&◌,
  List, ◌∷◌, ◌==◌, if◌then◌else◌, length, arith, Bool-cases,
}
use fdu2024_os_honor_lab.Kernel.Mem.{put_at}
use fdu2024_os_honor_lab.Kernel.Pt.{Tables, k2p, is_present, va_part, set_entry}
use fdu2024_os_honor_lab.Kernel.Pt.Tree.{
  child, step, table, number, last_level, mapped, AreFree, IsTree, child-entry, number-interior,
  number_bounds, table-number, AreFree-put, fresh_page,
}

-- From `s` to `t` tables were added, at most `n` of them.
pub record Grown (n : ℕ) (s t : Tables) : Type 0 where
  pub tree : IsTree t
  pub same : (va : ℕ) → mapped t va ≡ mapped s va
  pub keeps : (k va : ℕ) → k ≤ 3 → table s k va ≢ 0 → table t k va ≡ table s k va
  pub pages : length s.heap.nodes ≤ length t.heap.nodes + n

apart : (f : ℕ → ℕ) (a b : ℕ) → f a ≢ f b → (a == b) ≡ false
apart f a b n = elim (Bool-cases (a == b)) [
  | inr e ↦ e
  | inl e ↦ let r : a ≡ b = ground arith in absurd (n (ap f r))
]

zero_anyway : (b : Bool) → (if b then zero else zero) ≡ zero
zero_anyway true = refl
zero_anyway false = refl

module _ (s : Tables) (v : IsTree s) (p i q : ℕ) (ps : List ℕ) (free_q : s.heap.nodes ≡ q ∷ ps)
    (p_pos : 0 < v.numbers p) (p_interior : v.numbers p < last_level) (i_lt : i < 512)
    (absent : is_present (s.entries p i) ≡ false) where
  abbrev link : ℕ
  link = bit_or (k2p q) 3

  abbrev pub attached : Tables
  attached = set_entry p i link (fresh_page q ps s)

  q_free : AreFree v.numbers (q ∷ ps)
  q_free = rw free_q at v.free_pages

  p_ne : (p == q) ≡ false
  p_ne = elim (Bool-cases (p == q)) [
    | inr e ↦ e
    | inl e ↦
        let r : p ≡ q = ground arith in absurd (omega (arith, p_pos, ap v.numbers r, q_free.1))
  ]

  same_self : (n : ℕ) → (n == n) ≡ true
  same_self n = ground arith

  entry_at :
      (a j : ℕ)
      → attached.entries a j
        ≡ (if (p == a) && (i == j) then link else if q == a then 0 else s.entries a j)
  entry_at a j = elim (Bool-cases (p == a)) [
    | inl e ↦
        let r : p ≡ a = ground arith in
        let n : (q == p) ≡ false = ground (arith, p_ne) in
        let m : (q == a) ≡ false = ground (arith, p_ne) in
        elim (Bool-cases (i == j)) [
          | inl f ↦ rw (e, f) refl
          | inr f ↦ rw (e, f, n, m) (ap (λ x. s.entries x j) r)
        ]
    | inr e ↦ elim (Bool-cases (q == a)) [ inl f ↦ rw (e, f) refl | inr f ↦ rw (e, f) refl ]
  ]

  -- Where the walks in the two states can be.
  abbrev Follows : ℕ → ℕ → Type 0
  Follows a b = (b ≡ a) ⊎ ((a ≡ 0) × (b ≡ q))

  step-Follows :
      (a b j : ℕ)
      → (a ≡ 0) ⊎ (0 < v.numbers a)
      → Follows a b
      → Follows (step s a j) (step attached b j)
  step-Follows a b j n (inl e) = rw e (elim (Bool-cases (a == 0)) [
    | inl z ↦ rw z (inl refl)
    | inr z ↦
        let other : (q == a) ≡ false = elim (Bool-cases (q == a)) [
          | inr f ↦ f
          | inl f ↦
              let r : q ≡ a = ground arith in
              absurd (ground (arith, ap v.numbers r, q_free.1, n, z))
        ] in
        elim (Bool-cases ((p == a) && (i == j))) [
          | inl h ↦
              let x : p ≡ a = ground (arith, h) in
              let y : i ≡ j = ground (arith, h) in
              let w : is_present (s.entries a j) ≡ false = rw (← x, ← y) absent in
              let c = child-entry q q_free.0 in
              let r : attached.entries a j ≡ link = rw (entry_at a j) (rw h refl) in
              inr (rw (z, w) refl, rw r (rw (z, c.1) c.0))
          | inr h ↦
              let r : attached.entries a j ≡ s.entries a j =
                rw (entry_at a j) (rw (h, other) refl) in
              rw r (inl refl)
        ]
  ])
  step-Follows a b j n (inr (e, f)) =
      let r : attached.entries q j ≡ 0 = rw (entry_at q j) (rw (p_ne, same_self q) refl) in
      rw (e, f, r) (inl (zero_anyway (q == 0)))

  table-Follows : (k va : ℕ) → k ≤ 3 → Follows (table s k va) (table attached k va)
  table-Follows zero va l = inl refl
  table-Follows (suc k) va l =
      step-Follows (table s k va) (table attached k va) (va_part k va)
        (ground (arith, table-number s v k va, number-interior k va, l))
        (table-Follows k va (omega (arith, l)))

  -- The entries of the last level stay.
  last_stays :
      (va : ℕ)
      → (table s 3 va == 0) ≡ false
      → (if (p == table s 3 va) && (i == va_part 3 va)
          then link
          else if q == table s 3 va
          then 0
          else s.entries (table s 3 va) (va_part 3 va))
        ≡ s.entries (table s 3 va) (va_part 3 va)
  last_stays va z =
      let n : v.numbers (table s 3 va) ≡ number 3 va = ground (arith, table-number s v 3 va, z) in
      let above : last_level ≤ v.numbers (table s 3 va) = rw n (number_bounds va).3 in
      rw
        (
          apart v.numbers p (table s 3 va) (omega (arith, above, p_interior)),
          apart v.numbers q (table s 3 va) (omega (arith, above, q_free.1)),
        )
        refl

  attached-mapped : (va : ℕ) → mapped attached va ≡ mapped s va
  attached-mapped va = elim (table-Follows 3 va (omega arith)) [
    | inr (e, f) ↦
        let r : attached.entries q (va_part 3 va) ≡ 0 =
          rw (entry_at q (va_part 3 va)) (rw (p_ne, same_self q) refl) in
        rw (e, f, r) (zero_anyway (q == 0))
    | inl e ↦ rw e (elim (Bool-cases (table s 3 va == 0)) [
      | inl z ↦ rw z refl
      | inr z ↦ rw z (entry_at (table s 3 va) (va_part 3 va) ∙ last_stays va z)
    ])
  ]

  abbrev new_numbers : ℕ → ℕ
  new_numbers = put_at q (v.numbers p * 512 + i) v.numbers

  new_numbers-child : (e n : ℕ) → v.numbers (child e) ≡ n → 0 < n → new_numbers (child e) ≡ n
  new_numbers-child e n h l = rw (apart v.numbers q (child e) (omega (arith, h, l, q_free.1))) h

  down_attached :
      (a j : ℕ)
      → j < 512
      → 0 < new_numbers a
      → new_numbers a < last_level
      → is_present (attached.entries a j) ≡ true
      → new_numbers (child (attached.entries a j)) ≡ new_numbers a * 512 + j
  down_attached a j l pos low here = elim (Bool-cases (q == a)) [
    | inl e ↦
        let r : q ≡ a = ground arith in
        let n : (p == a) ≡ false = rw (← r) p_ne in
        let x : attached.entries a j ≡ 0 = rw (entry_at a j) (rw (n, e) refl) in
        absurd (ground (arith, x, here))
    | inr e ↦ elim (Bool-cases ((p == a) && (i == j))) [
      | inl h ↦
          let x : p ≡ a = ground (arith, h) in
          let y : i ≡ j = ground (arith, h) in
          let r : attached.entries a j ≡ link = rw (entry_at a j) (rw h refl) in
          rw (r, e) (rw (child-entry q q_free.0).0 (rw (same_self q) (rw (x, y) refl)))
      | inr h ↦
          let r : attached.entries a j ≡ s.entries a j = rw (entry_at a j) (rw (h, e) refl) in
          let pos1 : 0 < v.numbers a = rw e at pos in
          let low1 : v.numbers a < last_level = rw e at low in
          let here1 : is_present (s.entries a j) ≡ true = rw r at here in
          rw (r, e)
            (new_numbers-child (s.entries a j) (v.numbers a * 512 + j)
              (v.down a j l pos1 low1 here1) (omega (arith, pos1)))
    ]
  ]

  attached-IsTree : IsTree attached
  attached-IsTree = record {
    numbers = put_at q (v.numbers p * 512 + i) v.numbers;
    null = elim (Bool-cases (q == 0)) [
      | inr y ↦ rw y v.null
      | inl y ↦ absurd (ground (arith, y, q_free.0.1))
    ];
    top = λ n. elim (Bool-cases (q == s.pt)) [
      | inr y ↦ rw y (v.top n)
      | inl y ↦
          let r : q ≡ s.pt = ground arith in
          absurd (omega (arith, ap v.numbers r, q_free.1, v.top n))
    ];
    down = down_attached;
    free_pages = AreFree-put v.numbers q (v.numbers p * 512 + i) ps q_free.2 q_free.3;
  }

  pub attached_link : step attached p i ≡ q
  attached_link =
      let z : (p == 0) ≡ false = ground (arith, p_pos, v.null, apart v.numbers p 0) in
      let r : attached.entries p i ≡ link =
        rw (entry_at p i) (rw (same_self p, same_self i) refl) in
      let c = child-entry q q_free.0 in rw r (rw (z, c.1) c.0)

  pub attached-Grown : Grown 1 s attached
  attached-Grown = record {
    tree = attached-IsTree;
    same = attached-mapped;
    keeps = λ k va l n. ground (arith, table-Follows k va l, n);
    pages = rw free_q (omega arith);
  }

-- The first table of the page directory.
module _ (s : Tables) (v : IsTree s) (q : ℕ) (ps : List ℕ) (free_q : s.heap.nodes ≡ q ∷ ps)
    (no_top : s.pt ≡ 0) where
  abbrev pub topped : Tables
  topped = record (fresh_page q ps s) { pt = q }

  top_free : AreFree v.numbers (q ∷ ps)
  top_free = rw free_q at v.free_pages

  q_entries : (j : ℕ) → topped.entries q j ≡ 0
  q_entries j = let e : (q == q) ≡ true = ground arith in rw e refl

  none_before : (k va : ℕ) → table s k va ≡ 0
  none_before zero va = no_top
  none_before (suc k) va = rw (none_before k va) refl

  only_top : (k va : ℕ) → (table topped k va ≡ 0) ⊎ (table topped k va ≡ q)
  only_top zero va = inr refl
  only_top (suc k) va = elim (only_top k va) [
    | inl e ↦ inl (rw e refl)
    | inr e ↦ inl (rw (e, q_entries (va_part k va)) (zero_anyway (q == 0)))
  ]

  topped-mapped : (va : ℕ) → mapped topped va ≡ mapped s va
  topped-mapped va = rw (none_before 3 va) (elim (only_top 3 va) [
    | inl e ↦ rw e refl
    | inr e ↦ rw (e, q_entries (va_part 3 va)) (zero_anyway (q == 0))
  ])

  down_topped :
      (a j : ℕ)
      → j < 512
      → 0 < put_at q 1 v.numbers a
      → put_at q 1 v.numbers a < last_level
      → is_present (topped.entries a j) ≡ true
      → put_at q 1 v.numbers (child (topped.entries a j)) ≡ put_at q 1 v.numbers a * 512 + j
  down_topped a j l pos low here = elim (Bool-cases (q == a)) [
    | inl e ↦ let x : topped.entries a j ≡ 0 = rw e refl in absurd (ground (arith, x, here))
    | inr e ↦
        let r : topped.entries a j ≡ s.entries a j = rw e refl in
        let pos1 : 0 < v.numbers a = rw e at pos in
        let low1 : v.numbers a < last_level = rw e at low in
        let here1 : is_present (s.entries a j) ≡ true = rw r at here in
        let d = v.down a j l pos1 low1 here1 in
        rw (r, e)
          (rw (apart v.numbers q (child (s.entries a j)) (omega (arith, d, pos1, top_free.1))) d)
  ]

  pub topped-Grown : Grown 1 s topped
  topped-Grown = record {
    tree = record {
      numbers = put_at q 1 v.numbers;
      null = elim (Bool-cases (q == 0)) [
        | inr y ↦ rw y v.null
        | inl y ↦ absurd (ground (arith, y, top_free.0.1))
      ];
      top = λ n. let e : (q == q) ≡ true = ground arith in rw e refl;
      down = down_topped;
      free_pages = AreFree-put v.numbers q 1 ps top_free.2 top_free.3;
    };
    same = topped-mapped;
    keeps = λ k va l n. absurd (n (none_before k va));
    pages = rw free_q (omega arith);
  }
