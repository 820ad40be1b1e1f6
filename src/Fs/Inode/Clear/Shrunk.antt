-- ===== src/Fs/Inode/Clear/Shrunk.antt =====
-- An inode that loses a block (src/fs/inode.c).
use fdu2024_os_honor_lab.Prelude.{
  ℕ, ◌≡◌, ◌≢◌, ◌<◌, ◌∙◌, refl, sym, ap, inl, inr, true, ◌==◌, if◌then◌else◌, arith, Bool-cases,
  length, length-set,
}
use mathlib.Core.Path.{subst}
use fdu2024_os_honor_lab.Fs.Cache.{Cache, log_max_size}
use fdu2024_os_honor_lab.Fs.Cache.Access.{view}
use fdu2024_os_honor_lab.Fs.Cache.Alloc.{in_use, HasBitmap}
use fdu2024_os_honor_lab.Fs.Cache.Free.{Freed}
use fdu2024_os_honor_lab.Fs.Inode.{Inode, set_addr}
use fdu2024_os_honor_lab.Fs.Inode.Grow.{IsData, IsGrowable, addr, place, same_place}
use fdu2024_os_honor_lab.Fs.Inode.Grow.Taken.{addr-set_addr}

-- Giving back block `b`, which is none of those that the cache and the inodes need
module _ {b : ℕ} {s t : Cache} (f : Freed b s t) (h : HasBitmap s)
    (table : length t.header.block_no ≡ log_max_size) (off_bitmap : b ≢ s.sblock.bitmap_start)
    (off_log : b ≢ s.sblock.log_start) where
  freed-in_use : (c : ℕ) → b ≢ c → in_use s c ≡ true → in_use t c ≡ true
  freed-in_use c ne u = f.used c ∙ ground (arith, ne, u)

  freed-HasBitmap : HasBitmap t
  freed-HasBitmap =
      let bm = ap (λ k. k.bitmap_start) f.sblock in
      let log = ap (λ k. k.log_start) f.sblock in
      record {
        valid = f.valid;
        apart = λ e. h.apart (sym bm ∙ e ∙ log);
        full = f.bitmap_full;
        fits = omega (arith, ap (λ k. k.num_blocks) f.sblock, h.fits);
        bitmap_used =
            ap (in_use t) bm ∙ freed-in_use s.sblock.bitmap_start off_bitmap h.bitmap_used;
        log_used = ap (in_use t) log ∙ freed-in_use s.sblock.log_start off_log h.log_used;
        table = table;
      }

  freed-IsData : {n c : ℕ} → b ≢ c → IsData n s c → IsData n t c
  freed-IsData {n} {c} ne d = record {
    used = freed-in_use c ne d.used;
    off_bitmap = λ e. d.off_bitmap (e ∙ ap (λ k. k.bitmap_start) f.sblock);
    off_log = λ e. d.off_log (e ∙ ap (λ k. k.log_start) f.sblock);
    off_place = λ e. d.off_place (e ∙ same_place n s t f.sblock);
    full = ap length (f.others c d.off_bitmap) ∙ d.full;
  }

-- Part `i` of the inode loses its block.
module _ (inode : Inode) (i : ℕ) (s t : Cache) (g : IsGrowable inode s) (has : addr inode i ≢ 0)
    (l : i < 12) (f : Freed (addr inode i) s t)
    (table : length t.header.block_no ≡ log_max_size) where
  abbrev shrunk : Inode
  shrunk = set_addr i 0 inode

  pub addr-shrunk : (j : ℕ) → addr shrunk j ≡ (if i == j then 0 else addr inode j)
  addr-shrunk j = addr-set_addr inode i 0 j (omega (arith, l, g.twelve))

  shrunk_owned : (j : ℕ) → addr shrunk j ≢ 0 → IsData inode.inode_no t (addr shrunk j)
  shrunk_owned j h = elim (Bool-cases (i == j)) [
    | inl y ↦ absurd (h (addr-shrunk j ∙ rw y refl))
    | inr y ↦
        let q : addr shrunk j ≡ addr inode j = addr-shrunk j ∙ rw y refl in
        let d = g.owned i has in
        let ne : addr inode i ≢ addr inode j =
          λ e. let p = g.apart i j has e in ground (arith, p, y) in
        subst (IsData inode.inode_no t) (sym q)
          (freed-IsData f g.bitmap table d.off_bitmap d.off_log ne (g.owned j (λ e. h (q ∙ e))))
  ]

  shrunk_apart : (j k : ℕ) → addr shrunk j ≢ 0 → addr shrunk j ≡ addr shrunk k → j ≡ k
  shrunk_apart j k h e = elim (Bool-cases (i == j)) [
    | inl y ↦ absurd (h (addr-shrunk j ∙ rw y refl))
    | inr y ↦
        let q : addr shrunk j ≡ addr inode j = addr-shrunk j ∙ rw y refl in
        elim (Bool-cases (i == k)) [
          | inl z ↦ absurd (h (e ∙ addr-shrunk k ∙ rw z refl))
          | inr z ↦ g.apart j k (λ m. h (q ∙ m)) (sym q ∙ e ∙ addr-shrunk k ∙ rw z refl)
        ]
  ]

  pub shrunk-IsGrowable : IsGrowable shrunk t
  shrunk-IsGrowable =
      let d = g.owned i has in
      let p = same_place inode.inode_no s t f.sblock in
      let used = freed-in_use f g.bitmap table d.off_bitmap d.off_log in
      record {
        loaded = g.loaded;
        twelve = length-set inode.entry.addrs i 0 ∙ g.twelve;
        bitmap = freed-HasBitmap f g.bitmap table d.off_bitmap d.off_log;
        zero_used = used 0 has g.zero_used;
        place_used = ap (in_use t) p ∙ used (place inode s) d.off_place g.place_used;
        place_off_bitmap = λ e. g.place_off_bitmap (sym p ∙ e ∙ ap (λ k. k.bitmap_start) f.sblock);
        place_off_log = λ e. g.place_off_log (sym p ∙ e ∙ ap (λ k. k.log_start) f.sblock);
        place_full =
            ap (λ c. length (view t c)) p
            ∙ ap length (f.others (place inode s) g.place_off_bitmap)
            ∙ g.place_full;
        owned = shrunk_owned;
        apart = shrunk_apart;
      }
