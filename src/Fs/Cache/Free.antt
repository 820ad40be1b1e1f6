-- ===== src/Fs/Cache/Free.antt =====
-- Giving blocks back (cache_free of src/fs/cache.c) against the set of blocks in use.
use fdu2024_os_honor_lab.Prelude.{
  ℕ, ◌-◌, ◌≡◌, ◌≢◌, ◌<◌, ◌⊎◌, ◌∙◌, refl, ap, true, false, not, ◌&&◌, some, arith, ◌==◌,
  if◌then◌else◌, length,
}
use fdu2024_os_honor_lab.Prelude.Exec.{done, ◌>>=◌}
use fdu2024_os_honor_lab.Fs.Bitmap
use fdu2024_os_honor_lab.Fs.Bitmap.Laws.{get-clear, get-bound, length-clear}
use fdu2024_os_honor_lab.Fs.Cache.{Cache, load}
use fdu2024_os_honor_lab.Fs.Cache.Log.{free}
use fdu2024_os_honor_lab.Fs.Cache.Access.{view, IsValid, acquire_lem}
use fdu2024_os_honor_lab.Fs.Cache.Batch.{nobody}
use fdu2024_os_honor_lab.Fs.Cache.Spent.{cost, Spent, edit-Spent, edit-logged}
use fdu2024_os_honor_lab.Fs.Cache.Search.{load-cached}
use fdu2024_os_honor_lab.Fs.Cache.Edit.{is_logged, HasRoom, write_held}
use fdu2024_os_honor_lab.Fs.Cache.Alloc.{in_use, HasBitmap}

-- What cache_free of block `b` leaves
pub record Freed (b : ℕ) (s u : Cache) : Type 0 where
  pub valid : IsValid nobody u
  pub used : (j : ℕ) → in_use u j ≡ (not (b == j) && in_use s j)
  pub others : (c : ℕ) → c ≢ s.sblock.bitmap_start → view u c ≡ view s c
  pub bitmap_full : length (view u u.sblock.bitmap_start) ≡ 64
  pub disk : u.disk ≡ s.disk
  pub sblock : u.sblock ≡ s.sblock
  pub logs_bitmap : is_logged s.sblock.bitmap_start u ≡ true

-- With no block held and, if the log does not hold the bitmap, room for it, cache_free of a block with a place in
-- the bitmap takes it out of the bitmap; every other block keeps its place there, and all but the bitmap keep their
-- words.
pub free_lem :
    (rm b : ℕ) (s : Cache)
    → HasBitmap s
    → b < 4096
    → (is_logged s.sblock.bitmap_start s ≡ true) ⊎ HasRoom rm s
    → (left : ℕ) × (u : Cache) × (free (some rm) b s ≡ done (some left, u))
      × Freed b s u
      × Spent (cost s.sblock.bitmap_start s) rm left s u
unfolding free
free_lem rm b s h lt room =
    let bm = s.sblock.bitmap_start in
    let (t, a) = acquire_lem nobody bm s h.valid refl h.apart in
    let (u, run, d) = write_held bm s h.valid h.apart rm (λ x. Bitmap.clear x b) room a in
    let loaded : load bm t ≡ done (a.block.words, t) = load-cached bm t a.block a.cached in
    let self : (bm == bm) ≡ true = ground arith in
    let cells : view u bm ≡ Bitmap.clear (view s bm) b = d.views bm ∙ rw self refl in
    let at = ap (λ k. view u k.bitmap_start) d.sblock ∙ cells in
    (
      (if is_logged bm s then rm else rm - 1),
      u,
      rw (a.runs, ◌>>=◌) (rw (loaded, ◌>>=◌) run),
      record {
        valid = d.valid;
        used = λ j.
            ap (λ c. Bitmap.get c j) at ∙ get-clear (view s bm) b j (omega (arith, lt, h.full));
        others = λ c ne. let q : (bm == c) ≡ false = ground (arith, ne) in d.views c ∙ rw q refl;
        bitmap_full = ap length at ∙ length-clear (view s bm) b ∙ h.full;
        disk = d.disk;
        sblock = d.sblock;
        logs_bitmap = edit-logged bm rm room h.table d;
      },
      edit-Spent bm rm room h.table d,
    )

-- A block that the bitmap says is in use has a place there.
pub in_use-bound : (b : ℕ) (s : Cache) → HasBitmap s → in_use s b ≡ true → b < 4096
in_use-bound b s h used =
    let l = get-bound (view s s.sblock.bitmap_start) b used in omega (arith, l, h.full)
