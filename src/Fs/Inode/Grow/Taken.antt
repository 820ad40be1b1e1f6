-- ===== src/Fs/Inode/Grow/Taken.antt =====
-- A file that takes a new block (cache_alloc of src/fs/cache.c).
use fdu2024_os_honor_lab.Prelude.{
  ℕ, ◌≡◌, ◌≢◌, ◌<◌, ◌∙◌, refl, sym, ap, inl, inr, true, false, ◌==◌, if◌then◌else◌, arith,
  Bool-cases, get_or, set, length, length-set, get_or-set_self, get_or-set_ne,
}
use mathlib.Core.Path.{subst}
use fdu2024_os_honor_lab.Fs.Cache.{Cache, log_max_size}
use fdu2024_os_honor_lab.Fs.Cache.Access.{view}
use fdu2024_os_honor_lab.Fs.Cache.Alloc.{in_use, HasBitmap, Allocated}
use fdu2024_os_honor_lab.Fs.Inode.{Inode, set_addr}
use fdu2024_os_honor_lab.Fs.Inode.Grow.{
  IsData, IsGrowable, IsGrowable-moves, addr, place, same_place,
}

-- A new block
module _ {b : ℕ} {s t : Cache} (a : Allocated b s t) (h : HasBitmap s)
    (table : length t.header.block_no ≡ log_max_size) where
  pub allocated-in_use : (c : ℕ) → in_use s c ≡ true → in_use t c ≡ true
  allocated-in_use c u = a.used c ∙ ground (arith, u)

  -- What is in use is not the new block.
  pub allocated_ne : (c : ℕ) → in_use s c ≡ true → c ≢ b
  allocated_ne c u p = let f : in_use s c ≡ false = ap (in_use s) p ∙ a.free in cc

  allocated-full : (c : ℕ) → length (view s c) ≡ 64 → length (view t c) ≡ 64
  allocated-full c l = elim (Bool-cases (c == b)) [
    | inl y ↦
        let p : c ≡ b = ground (arith, y) in ap (λ m. length (view t m)) p ∙ ap length a.cleared
    | inr y ↦ elim (Bool-cases (c == s.sblock.bitmap_start)) [
      | inl z ↦
          let p : c ≡ t.sblock.bitmap_start =
            ground (arith, z, ap (λ k. k.bitmap_start) a.sblock) in
          ap (λ m. length (view t m)) p ∙ a.bitmap_full
      | inr z ↦ ap length (a.others c (ground (arith, y)) (ground (arith, z))) ∙ l
    ]
  ]

  allocated-HasBitmap : HasBitmap t
  allocated-HasBitmap =
      let bm = ap (λ k. k.bitmap_start) a.sblock in
      let log = ap (λ k. k.log_start) a.sblock in
      record {
        valid = a.valid;
        apart = λ e. h.apart (sym bm ∙ e ∙ log);
        full = a.bitmap_full;
        fits = omega (arith, ap (λ k. k.num_blocks) a.sblock, h.fits);
        bitmap_used = ap (in_use t) bm ∙ allocated-in_use s.sblock.bitmap_start h.bitmap_used;
        log_used = ap (in_use t) log ∙ allocated-in_use s.sblock.log_start h.log_used;
        table = table;
      }

  pub allocated-IsGrowable : {inode : Inode} → IsGrowable inode s → IsGrowable inode t
  allocated-IsGrowable =
      IsGrowable-moves a.sblock allocated-HasBitmap allocated-in_use allocated-full

  pub allocated-IsData : {inode : Inode} → IsGrowable inode s → IsData inode.inode_no t b
  allocated-IsData {inode} g = record {
    used = a.used b ∙ ground arith;
    off_bitmap = λ p.
        allocated_ne s.sblock.bitmap_start h.bitmap_used
          (sym (p ∙ ap (λ k. k.bitmap_start) a.sblock));
    off_log =
        λ p. allocated_ne s.sblock.log_start h.log_used (sym (p ∙ ap (λ k. k.log_start) a.sblock));
    off_place = λ p.
        allocated_ne (place inode s) g.place_used
          (sym (p ∙ same_place inode.inode_no s t a.sblock));
    full = ap length a.cleared;
  }

pub addr-set_addr :
    (inode : Inode) (p b i : ℕ)
    → p < length inode.entry.addrs
    → addr (set_addr p b inode) i ≡ (if p == i then b else addr inode i)
addr-set_addr inode p b i l = elim (Bool-cases (p == i)) [
  | inl y ↦
      let e : p ≡ i = ground (arith, y) in
      rw y (
        ap (λ m. get_or (set inode.entry.addrs p b) m 0) (sym e)
        ∙ get_or-set_self inode.entry.addrs p b 0 l)
  | inr y ↦ rw y (get_or-set_ne inode.entry.addrs b 0 (ground (arith, y)))
]

-- The inode with a new block in a place that had none
module _ (inode : Inode) (p b : ℕ) (s t : Cache) (g : IsGrowable inode s) (a : Allocated b s t)
    (table : length t.header.block_no ≡ log_max_size) (l : p < 12) where
  abbrev grown : Inode
  grown = set_addr p b inode

  pub addr-grown_here : (i : ℕ) → p == i ≡ true → addr grown i ≡ b
  addr-grown_here i y = addr-set_addr inode p b i (omega (arith, l, g.twelve)) ∙ rw y refl

  pub addr-grown_other : (i : ℕ) → p == i ≡ false → addr grown i ≡ addr inode i
  addr-grown_other i y = addr-set_addr inode p b i (omega (arith, l, g.twelve)) ∙ rw y refl

  pub addr_ne : (i : ℕ) → addr inode i ≢ b
  addr_ne i = elim (Bool-cases (addr inode i == 0)) [
    | inl z ↦
        let q : addr inode i ≡ 0 = ground (arith, z) in
        λ e. allocated_ne a g.bitmap table 0 g.zero_used (sym q ∙ e)
    | inr z ↦ allocated_ne a g.bitmap table (addr inode i) (g.owned i (ground (arith, z))).used
  ]

  grown_owned : (i : ℕ) → addr grown i ≢ 0 → IsData inode.inode_no t (addr grown i)
  grown_owned i h = elim (Bool-cases (p == i)) [
    | inl y ↦
        subst (IsData inode.inode_no t) (sym (addr-grown_here i y))
          (allocated-IsData a g.bitmap table g)
    | inr y ↦
        let q = addr-grown_other i y in
        let old = allocated-IsGrowable a g.bitmap table g in
        subst (IsData inode.inode_no t) (sym q) (old.owned i (λ e. h (q ∙ e)))
  ]

  grown_apart : (i j : ℕ) → addr grown i ≢ 0 → addr grown i ≡ addr grown j → i ≡ j
  grown_apart i j h e = elim (Bool-cases (p == i)) [
    | inl y ↦ elim (Bool-cases (p == j)) [
      | inl z ↦ ground (arith, y, z)
      | inr z ↦ absurd (addr_ne j (sym (addr-grown_other j z) ∙ sym e ∙ addr-grown_here i y))
    ]
    | inr y ↦ elim (Bool-cases (p == j)) [
      | inl z ↦ absurd (addr_ne i (sym (addr-grown_other i y) ∙ e ∙ addr-grown_here j z))
      | inr z ↦
          let q = addr-grown_other i y in
          g.apart i j (λ k. h (q ∙ k)) (sym q ∙ e ∙ addr-grown_other j z)
    ]
  ]

  pub grown-IsGrowable : IsGrowable grown t
  grown-IsGrowable =
      let old = allocated-IsGrowable a g.bitmap table g in
      record {
        loaded = old.loaded;
        twelve = length-set inode.entry.addrs p b ∙ old.twelve;
        bitmap = old.bitmap;
        zero_used = old.zero_used;
        place_used = old.place_used;
        place_off_bitmap = old.place_off_bitmap;
        place_off_log = old.place_off_log;
        place_full = old.place_full;
        owned = grown_owned;
        apart = grown_apart;
      }
