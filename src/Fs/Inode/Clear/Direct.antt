-- ===== src/Fs/Inode/Clear/Direct.antt =====
-- Freeing the direct blocks of an inode (the loop of inode_clear of src/fs/inode.c).
use fdu2024_os_honor_lab.Prelude.{
  ℕ, zero, suc, ◌+◌, ◌≡◌, ◌≢◌, ◌≤◌, ◌<◌, ◌∙◌, refl, sym, ap, inl, inr, true, false, some, List, [],
  ◌∷◌, ◌==◌, arith, Bool-cases, get_or, length,
}
use mathlib.Core.Path.{subst}
use fdu2024_os_honor_lab.Prelude.Exec.{done, ◌>>=◌}
use fdu2024_os_honor_lab.Fs.Cache.{Cache, log_max_size}
use fdu2024_os_honor_lab.Fs.Cache.Access.{view}
use fdu2024_os_honor_lab.Fs.Cache.Spent.{
  cost, Spent, Spent-add, Spent-more, Spent-nothing, HasRoom-cost, cost-logged,
}
use fdu2024_os_honor_lab.Fs.Cache.Alloc.{in_use}
use fdu2024_os_honor_lab.Fs.Cache.Free.{Freed, free_lem, in_use-bound}
use fdu2024_os_honor_lab.Fs.Inode.{Inode, set_addr}
use fdu2024_os_honor_lab.Fs.Inode.Clear.{clear_direct}
use fdu2024_os_honor_lab.Fs.Inode.Grow.{IsGrowable, addr}
use fdu2024_os_honor_lab.Fs.Inode.Grow.Round.{with_addrs}
use fdu2024_os_honor_lab.Fs.Inode.Clear.Shrunk.{addr-shrunk, shrunk-IsGrowable}

-- What the loop leaves from part `i` on
pub record Cleared (i : ℕ) (inode inode2 : Inode) (rm left : ℕ) (s t : Cache) : Type 0 where
  pub growable : IsGrowable inode2 t
  pub below : (j : ℕ) → j < i → addr inode2 j ≡ addr inode j
  pub gone : (j : ℕ) → i ≤ j → addr inode2 j ≡ 0
  pub free : (j : ℕ) → i ≤ j → addr inode j ≢ 0 → in_use t (addr inode j) ≡ false
  pub used :
      (c : ℕ) → ((j : ℕ) → i ≤ j → addr inode j ≢ 0 → addr inode j ≢ c) → in_use t c ≡ in_use s c
  pub kept : (c : ℕ) → c ≢ s.sblock.bitmap_start → view t c ≡ view s c
  pub others : inode2 ≡ with_addrs inode2.entry.addrs inode
  pub disk : t.disk ≡ s.disk
  pub sblock : t.sblock ≡ s.sblock
  pub spent : Spent (cost s.sblock.bitmap_start s) rm left s t

beyond : (xs : List ℕ) (j : ℕ) → length xs ≤ j → get_or xs j 0 ≡ 0
beyond [] j l = refl
beyond (x ∷ xs) zero l = absurd (omega (arith, l))
beyond (x ∷ xs) (suc j) l = beyond xs j (omega (arith, l))

Cleared-nothing :
    (inode : Inode) (rm : ℕ) (s : Cache) → IsGrowable inode s → Cleared 12 inode inode rm rm s s
Cleared-nothing inode rm s g = record {
  growable = g;
  below = λ j l. refl;
  gone = λ j l. beyond inode.entry.addrs j (omega (arith, g.twelve, l));
  free = λ j l h. absurd (h (beyond inode.entry.addrs j (omega (arith, g.twelve, l))));
  used = λ c h. refl;
  kept = λ c h. refl;
  others = refl;
  disk = refl;
  sblock = refl;
  spent = Spent-more (omega arith) (Spent-nothing rm s);
}

-- A part without a block
Cleared-skip :
    {i rm left : ℕ} {inode inode2 : Inode} {s t : Cache}
    → addr inode i ≡ 0
    → Cleared (i + 1) inode inode2 rm left s t
    → Cleared i inode inode2 rm left s t
Cleared-skip {i} {inode = inode} {inode2 = inode2} empty c = record {
  growable = c.growable;
  below = λ j l. c.below j (omega (arith, l));
  gone = λ j l. elim (Bool-cases (i == j)) [
    | inl y ↦
        let p : i ≡ j = ground (arith, y) in
        ap (addr inode2) (sym p) ∙ c.below i (omega arith) ∙ empty
    | inr y ↦ c.gone j (ground (arith, y, l))
  ];
  free = λ j l h. elim (Bool-cases (i == j)) [
    | inl y ↦ let p : i ≡ j = ground (arith, y) in absurd (h (ap (addr inode) (sym p) ∙ empty))
    | inr y ↦ c.free j (ground (arith, y, l)) h
  ];
  used = λ k h. c.used k (λ j l. h j (omega (arith, l)));
  kept = c.kept;
  others = c.others;
  disk = c.disk;
  sblock = c.sblock;
  spent = c.spent;
}

-- A part with a block
module _ (i : ℕ) {rm left1 left : ℕ} (inode inode2 : Inode) {s t u : Cache} (g : IsGrowable inode s)
    (has : addr inode i ≢ 0) (l : i < 12) (f : Freed (addr inode i) s t)
    (first : Spent (cost s.sblock.bitmap_start s) rm left1 s t)
    (c : Cleared (i + 1) (set_addr i 0 inode) inode2 left1 left t u) where
  same_addr : (j : ℕ) → (i == j) ≡ false → addr (set_addr i 0 inode) j ≡ addr inode j
  same_addr j y = addr-shrunk inode i s t g has l f (first.table ∙ g.bitmap.table) j ∙ rw y refl

  no_addr : addr (set_addr i 0 inode) i ≡ 0
  no_addr =
      let self : (i == i) ≡ true = ground arith in
      addr-shrunk inode i s t g has l f (first.table ∙ g.bitmap.table) i ∙ rw self refl

  not_freed_again :
      (j : ℕ)
      → i + 1 ≤ j
      → addr (set_addr i 0 inode) j ≢ 0
      → addr (set_addr i 0 inode) j ≢ addr inode i
  not_freed_again j le h e =
      let y : (i == j) ≡ false = ground (arith, le) in
      let p = g.apart i j has (sym e ∙ same_addr j y) in omega (arith, p, le)

  second_is_free : cost t.sblock.bitmap_start t ≡ 0
  second_is_free =
      ap (λ k. cost k.bitmap_start t) f.sblock ∙ cost-logged s.sblock.bitmap_start t f.logs_bitmap

  Cleared-next : Cleared i inode inode2 rm left s u
  Cleared-next = record {
    growable = c.growable;
    below = λ j lt.
        let y : (i == j) ≡ false = ground (arith, lt) in
        c.below j (omega (arith, lt)) ∙ same_addr j y;
    gone = λ j le. elim (Bool-cases (i == j)) [
      | inl y ↦
          let p : i ≡ j = ground (arith, y) in
          ap (addr inode2) (sym p) ∙ c.below i (omega arith) ∙ no_addr
      | inr y ↦ c.gone j (ground (arith, y, le))
    ];
    free = λ j le h. elim (Bool-cases (i == j)) [
      | inl y ↦
          let p : i ≡ j = ground (arith, y) in
          let self : in_use t (addr inode i) ≡ false = f.used (addr inode i) ∙ ground arith in
          ap (λ k. in_use u (addr inode k)) (sym p) ∙ c.used (addr inode i) not_freed_again ∙ self
      | inr y ↦
          let q = same_addr j y in
          ap (in_use u) (sym q) ∙ c.free j (ground (arith, y, le)) (λ e. h (sym q ∙ e))
    ];
    used = λ k h.
        let ne : addr inode i ≢ k = h i (omega arith) has in
        c.used k (λ j le n e.
          let y : (i == j) ≡ false = ground (arith, le) in
          let q = same_addr j y in h j (omega (arith, le)) (λ z. n (q ∙ z)) (sym q ∙ e))
        ∙ f.used k
        ∙ ground (arith, ne);
    kept = λ k h. c.kept k (λ e. h (e ∙ ap (λ m. m.bitmap_start) f.sblock)) ∙ f.others k h;
    others = c.others;
    disk = c.disk ∙ f.disk;
    sblock = c.sblock ∙ f.sblock;
    spent = Spent-more (omega (arith, second_is_free)) (Spent-add first c.spent);
  }

-- Room for the bitmap
abbrev pub HasFreeRoom : ℕ → Cache → Type 0
HasFreeRoom rm s =
    (cost s.sblock.bitmap_start s ≤ rm)
    × (s.header.num_blocks + cost s.sblock.bitmap_start s < log_max_size)

pub clear_direct_lem :
    (n i rm : ℕ) (inode : Inode) (s : Cache)
    → i + n ≡ 12
    → IsGrowable inode s
    → HasFreeRoom rm s
    → (left : ℕ) × (inode2 : Inode) × (t : Cache) × (clear_direct n (some rm) inode i s
        ≡ done ((some left, inode2), t))
      × Cleared i inode inode2 rm left s t
unfolding clear_direct
clear_direct_lem zero i rm inode s ends g room =
    let p : 12 ≡ i = omega (arith, ends) in
    (
      rm,
      inode,
      s,
      refl,
      subst (λ k. Cleared k inode inode rm rm s s) p (Cleared-nothing inode rm s g),
    )
clear_direct_lem (suc n) i rm inode s ends g room = elim (Bool-cases (addr inode i == 0)) [
  | inl y ↦
      let (left, inode2, t, run, c) =
        clear_direct_lem n (i + 1) rm inode s (omega (arith, ends)) g room in
      (left, inode2, t, rw (y, ◌>>=◌) run, Cleared-skip (ground (arith, y)) c)
  | inr y ↦
      let has : addr inode i ≢ 0 = ground (arith, y) in
      let d = g.owned i has in
      let b = addr inode i in
      let (left1, t, freed, f, first) =
        free_lem rm b s g.bitmap (in_use-bound b s g.bitmap d.used)
          (HasRoom-cost s.sblock.bitmap_start rm s room.0 room.1) in
      let l : i < 12 = omega (arith, ends) in
      let g2 = shrunk-IsGrowable inode i s t g has l f (first.table ∙ g.bitmap.table) in
      let zero_cost : cost t.sblock.bitmap_start t ≡ 0 =
        ap (λ k. cost k.bitmap_start t) f.sblock
        ∙ cost-logged s.sblock.bitmap_start t f.logs_bitmap in
      let (left, inode2, u, run, c) =
        clear_direct_lem n (i + 1) left1 (set_addr i 0 inode) t (omega (arith, ends)) g2
          (omega (arith, zero_cost), omega (arith, zero_cost, first.logged, room)) in
      (
        left,
        inode2,
        u,
        rw (y, ◌>>=◌) (rw (freed, ◌>>=◌) run),
        Cleared-next i inode inode2 g has l f first c,
      )
]
