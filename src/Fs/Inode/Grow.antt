-- ===== src/Fs/Inode/Grow.antt =====
-- A file on direct blocks that can get more of them (inode_map and inode_sync of src/fs/inode.c with cache_alloc of
-- src/fs/cache.c).
pub mod Taken
pub mod Content
pub mod Steps
pub mod Round
pub mod Fill
pub mod Rounds
pub mod Grows
mod Tests
use fdu2024_os_honor_lab.Prelude.{
  ℕ, zero, suc, ◌+◌, ◌-◌, ◌*◌, ◌/◌, ◌%◌, ◌^◌, ◌≡◌, ◌≢◌, ◌≤◌, ◌<◌, ◌∙◌, ◌⊎◌, refl, sym, ap, inl, inr,
  Option, none, some, Bool, true, false, ◌||◌, List, [], ◌∷◌, ◌==◌, if◌then◌else◌, arith,
  Bool-cases, get_or, set, length, length-set, get_or-set_self, get_or-set_ne, replicate,
}
use mathlib.Core.Path.{subst}
use fdu2024_os_honor_lab.Fs.Bitmap
use fdu2024_os_honor_lab.Prelude.Exec.{done, M, pure, ◌>>=◌}
use fdu2024_os_honor_lab.Fs.Disk.{Words, update}
use fdu2024_os_honor_lab.Fs.Cache.{Cache, log_max_size}
use fdu2024_os_honor_lab.Fs.Cache.Access.{view, IsValid}
use fdu2024_os_honor_lab.Fs.Cache.Batch.{nobody}
use fdu2024_os_honor_lab.Fs.Cache.Edit.{Edited}
use fdu2024_os_honor_lab.Fs.Cache.Alloc.{in_use, HasBitmap, Allocated}
use fdu2024_os_honor_lab.Fs.Inode.{Inode, InodeEntry, set_addr, to_block_no, load_entry}

-- The block that holds the inode on the device
abbrev pub place : Inode → Cache → ℕ
place inode s = to_block_no inode.inode_no s

-- A block for the data of an inode: in use, and none of the bitmap, the log header and the block of the inode
pub record IsData (inode_no : ℕ) (s : Cache) (b : ℕ) : Type 0 where
  pub used : in_use s b ≡ true
  pub off_bitmap : b ≢ s.sblock.bitmap_start
  pub off_log : b ≢ s.sblock.log_start
  pub off_place : b ≢ to_block_no inode_no s
  pub full : length (view s b) ≡ 64

abbrev pub addr : Inode → ℕ → ℕ
addr inode i = get_or inode.entry.addrs i 0

-- An inode whose direct blocks, where it has them, are data blocks of its own
pub record IsGrowable (inode : Inode) (s : Cache) : Type 0 where
  pub loaded : inode.valid ≡ true
  pub twelve : length inode.entry.addrs ≡ 12
  pub bitmap : HasBitmap s
  pub zero_used : in_use s 0 ≡ true
  pub place_used : in_use s (place inode s) ≡ true
  pub place_off_bitmap : place inode s ≢ s.sblock.bitmap_start
  pub place_off_log : place inode s ≢ s.sblock.log_start
  pub place_full : length (view s (place inode s)) ≡ 64
  pub owned : (i : ℕ) → addr inode i ≢ 0 → IsData inode.inode_no s (addr inode i)
  pub apart : (i j : ℕ) → addr inode i ≢ 0 → addr inode i ≡ addr inode j → i ≡ j

-- The type and the size of the file play no part.
pub IsGrowable-header :
    (inode : Inode) (type n : ℕ) (s : Cache)
    → IsGrowable inode s
    → IsGrowable (record inode { entry = record (inode.entry) { type = type; num_bytes = n } }) s
IsGrowable-header inode type n s g = record {
  loaded = g.loaded;
  twelve = g.twelve;
  bitmap = g.bitmap;
  zero_used = g.zero_used;
  place_used = g.place_used;
  place_off_bitmap = g.place_off_bitmap;
  place_off_log = g.place_off_log;
  place_full = g.place_full;
  owned = g.owned;
  apart = g.apart;
}

pub same_place : (n : ℕ) (s t : Cache) → t.sblock ≡ s.sblock → to_block_no n t ≡ to_block_no n s
unfolding to_block_no
same_place n s t e = ap (λ k. k.inode_start + n / 8) e

-- A change of the cache that frees no block and keeps the sizes of blocks
module _ {s t : Cache} (sblock : t.sblock ≡ s.sblock) (bitmap : HasBitmap t)
    (used : (c : ℕ) → in_use s c ≡ true → in_use t c ≡ true)
    (full : (c : ℕ) → length (view s c) ≡ 64 → length (view t c) ≡ 64) where
  pub IsData-moves : {n b : ℕ} → IsData n s b → IsData n t b
  IsData-moves {n} {b} d = record {
    used = used b d.used;
    off_bitmap = λ e. d.off_bitmap (e ∙ ap (λ k. k.bitmap_start) sblock);
    off_log = λ e. d.off_log (e ∙ ap (λ k. k.log_start) sblock);
    off_place = λ e. d.off_place (e ∙ same_place n s t sblock);
    full = full b d.full;
  }

  pub IsGrowable-moves : {inode : Inode} → IsGrowable inode s → IsGrowable inode t
  IsGrowable-moves {inode} g =
      let p = same_place inode.inode_no s t sblock in
      record {
        loaded = g.loaded;
        twelve = g.twelve;
        bitmap = bitmap;
        zero_used = used 0 g.zero_used;
        place_used = ap (in_use t) p ∙ used (place inode s) g.place_used;
        place_off_bitmap = λ e. g.place_off_bitmap (sym p ∙ e ∙ ap (λ k. k.bitmap_start) sblock);
        place_off_log = λ e. g.place_off_log (sym p ∙ e ∙ ap (λ k. k.log_start) sblock);
        place_full = ap (λ c. length (view t c)) p ∙ full (place inode s) g.place_full;
        owned = λ i h. IsData-moves (g.owned i h);
        apart = g.apart;
      }

-- A write to a block that is not the bitmap
module _ {b : ℕ} {x : Words} {s t : Cache} (d : Edited b x s t) (off : b ≢ s.sblock.bitmap_start)
    (len : length x ≡ 64) (h : HasBitmap s) (table : length t.header.block_no ≡ log_max_size) where
  edited-bitmap : view t s.sblock.bitmap_start ≡ view s s.sblock.bitmap_start
  edited-bitmap =
      let p : (b == s.sblock.bitmap_start) ≡ false = ground (arith, off) in
      d.views s.sblock.bitmap_start ∙ rw p refl

  pub edited-in_use : (c : ℕ) → in_use t c ≡ in_use s c
  edited-in_use c =
      ap (λ k. Bitmap.get (view t k.bitmap_start) c) d.sblock
      ∙ ap (λ w. Bitmap.get w c) edited-bitmap

  edited-full : (c : ℕ) → length (view s c) ≡ 64 → length (view t c) ≡ 64
  edited-full c l =
      ap length (d.views c) ∙ elim (Bool-cases (b == c)) [ inl y ↦ rw y len | inr y ↦ rw y l ]

  edited-HasBitmap : HasBitmap t
  edited-HasBitmap =
      let bm = ap (λ k. k.bitmap_start) d.sblock in
      let log = ap (λ k. k.log_start) d.sblock in
      record {
        valid = d.valid;
        apart = λ e. h.apart (sym bm ∙ e ∙ log);
        full = ap (λ c. length (view t c)) bm ∙ edited-full s.sblock.bitmap_start h.full;
        fits = omega (arith, ap (λ k. k.num_blocks) d.sblock, h.fits);
        bitmap_used = ap (in_use t) bm ∙ edited-in_use s.sblock.bitmap_start ∙ h.bitmap_used;
        log_used = ap (in_use t) log ∙ edited-in_use s.sblock.log_start ∙ h.log_used;
        table = table;
      }

  pub edited-IsGrowable : {inode : Inode} → IsGrowable inode s → IsGrowable inode t
  edited-IsGrowable =
      IsGrowable-moves d.sblock edited-HasBitmap (λ c u. edited-in_use c ∙ u) edited-full
