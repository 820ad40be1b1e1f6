-- ===== src/Fs/Cache/Alloc.antt =====
-- Allocation of blocks (cache_alloc and cache_free of src/fs/cache.c) against the set of blocks in use.
pub mod Count
use Prim.Native.Nat.{max}
use fdu2024_os_honor_lab.Prelude.{
  ℕ, zero, suc, ◌+◌, ◌-◌, ◌/◌, ◌≡◌, ◌≢◌, ◌≤◌, ◌<◌, ◌⊎◌, ◌∙◌, refl, sym, ap, inl, inr, Bool, true,
  false, not, ◌&&◌, ◌||◌, Option, some, List, [], ◌∷◌, arith, ◌==◌, leb, if◌then◌else◌, Bool-cases,
  length, replicate,
}
use fdu2024_os_honor_lab.Prelude.Exec.{Result, done, panic, sleep, M, pure, ◌>>=◌, ◌>>◌}
use fdu2024_os_honor_lab.Fs.Bitmap
use fdu2024_os_honor_lab.Fs.Bitmap.Laws.{get-mark, get-clear, length-mark, length-clear}
use fdu2024_os_honor_lab.Fs.Disk.{Words, update}
use fdu2024_os_honor_lab.Fs.Cache.{Cache, Block, find, acquire, release, load, store, log_max_size}
use fdu2024_os_honor_lab.Fs.Cache.Log.{sync_op, log_block, alloc, alloc_from, alloc_block, free}
use fdu2024_os_honor_lab.Fs.Cache.Access.{view, IsValid, Acquired, acquire_lem}
use fdu2024_os_honor_lab.Fs.Cache.Batch.{nobody}
use fdu2024_os_honor_lab.Fs.Cache.Use.{edit_block}
use fdu2024_os_honor_lab.Fs.Cache.Spent.{
  cost, Spent, Spent-add, Spent-more, HasRoom-cost, edit-Spent, edit-logged,
}
use fdu2024_os_honor_lab.Fs.Cache.Search.{
  after-done, load-cached, found, all_used, first_free, alloc_from-found, alloc_from-full,
}
use fdu2024_os_honor_lab.Fs.Cache.Edit.{Edited, is_logged, HasRoom, edit_block_lem, write_held}

-- Whether the bitmap says that block `i` is in use
abbrev pub in_use : Cache → ℕ → Bool
in_use s i = Bitmap.get (view s s.sblock.bitmap_start) i

-- The bitmap is one block that it says is in use itself, as is the header of the log.
pub record HasBitmap (s : Cache) : Type 0 where
  pub valid : IsValid nobody s
  pub apart : s.sblock.bitmap_start ≢ s.sblock.log_start
  pub full : length (view s s.sblock.bitmap_start) ≡ 64
  pub fits : s.sblock.num_blocks ≤ 4096
  pub bitmap_used : in_use s s.sblock.bitmap_start ≡ true
  pub log_used : in_use s s.sblock.log_start ≡ true
  pub table : length s.header.block_no ≡ log_max_size

-- What cache_alloc of block `i` leaves
pub record Allocated (i : ℕ) (s u : Cache) : Type 0 where
  pub valid : IsValid nobody u
  pub free : in_use s i ≡ false
  pub first : (m : ℕ) → m < i → in_use s m ≡ true
  pub cleared : view u i ≡ replicate 64 0
  pub used : (j : ℕ) → in_use u j ≡ (i == j || in_use s j)
  pub others : (c : ℕ) → c ≢ i → c ≢ s.sblock.bitmap_start → view u c ≡ view s c
  pub bitmap_full : length (view u u.sblock.bitmap_start) ≡ 64
  pub disk : u.disk ≡ s.disk
  pub sblock : u.sblock ≡ s.sblock
  pub logs_bitmap : is_logged s.sblock.bitmap_start u ≡ true
  pub logs_new : is_logged i u ≡ true

both-Allocated :
    (i : ℕ) (s t u : Cache)
    → HasBitmap s
    → i < s.sblock.num_blocks
    → in_use s i ≡ false
    → ((m : ℕ) → m < i → in_use s m ≡ true)
    → Edited s.sblock.bitmap_start (Bitmap.mark (view s s.sblock.bitmap_start) i) s t
    → Edited i (replicate 64 0) t u
    → is_logged s.sblock.bitmap_start u ≡ true
    → is_logged i u ≡ true
    → Allocated i s u
both-Allocated i s t u h lt not_used first d e logs_bitmap logs_new =
    let bm = s.sblock.bitmap_start in
    let apart : (i == bm) ≡ false = elim (Bool-cases (i == bm)) [
      | inl y ↦ let p : i ≡ bm = ground (arith, y) in cc (ap (in_use s) p)
      | inr y ↦ y
    ] in
    let same : u.sblock ≡ s.sblock = e.sblock ∙ d.sblock in
    let self : (bm == bm) ≡ true = ground arith in
    let cells : view u bm ≡ Bitmap.mark (view s bm) i =
      e.views bm ∙ rw apart (d.views bm ∙ rw self refl) in
    record {
      valid = e.valid;
      free = not_used;
      first = first;
      cleared = e.views i ∙ ground arith;
      used = λ j.
          ap (λ k. Bitmap.get (view u k.bitmap_start) j) same
          ∙ ap (λ c. Bitmap.get c j) cells
          ∙ get-mark (view s bm) i j (omega (arith, lt, h.full, h.fits));
      others = λ c ne ne2.
          let p : (i == c) ≡ false = ground (arith, ne) in
          let q : (bm == c) ≡ false = ground (arith, ne2) in
          e.views c ∙ rw p (d.views c ∙ rw q refl);
      bitmap_full =
          ap (λ k. length (view u k.bitmap_start)) same
          ∙ ap length cells
          ∙ length-mark (view s bm) i
          ∙ h.full;
      disk = e.disk ∙ d.disk;
      sblock = same;
      logs_bitmap = logs_bitmap;
      logs_new = logs_new;
    }

-- The second half of alloc_block: the block that was found is cleared.
abbrev clear_new : ℕ → Option ℕ → M Cache (ℕ × Option ℕ)
clear_new i ctx1 = do
  acquire i
  store i (replicate 64 0)
  ctx2 ← sync_op ctx1 i
  release i
  pure (i, ctx2)

clear_new-runs :
    (i rm : ℕ) (s : Cache)
    → IsValid nobody s
    → i ≢ s.sblock.log_start
    → (is_logged i s ≡ true) ⊎ HasRoom rm s
    → (u : Cache) × (clear_new i (some rm) s
        ≡ done ((i, some (if is_logged i s then rm else rm - 1)), u))
      × Edited i (replicate 64 0) s u
clear_new-runs i rm s v ne room =
    let (t, a) = acquire_lem nobody i s v refl ne in
    let (u, run, d) = write_held i s v ne rm (λ w. replicate 64 0) room a in
    (
      u,
      rw (a.runs, ◌>>=◌)
          (after-done (store i (replicate 64 0)) (sync_op (some rm) i) (release i)
            (λ c. pure (i, c)) t u (some (if is_logged i s then rm else rm - 1)) run),
      d,
    )

-- The room that cache_alloc needs: a block of the log for the new block, and one for the bitmap if it is not there
abbrev pub HasAllocRoom : ℕ → Cache → Type 0
HasAllocRoom rm s =
    let n = cost s.sblock.bitmap_start s + 1 in (n ≤ rm) × (s.header.num_blocks + n < log_max_size)

alloc_block-runs :
    (i rm : ℕ) (s t : Cache) (h : HasBitmap s) (a : Acquired nobody s.sblock.bitmap_start s t)
    → HasAllocRoom rm s
    → i < s.sblock.num_blocks
    → in_use s i ≡ false
    → ((m : ℕ) → m < i → in_use s m ≡ true)
    → (left : ℕ) × (u : Cache) × (alloc_block (some rm) s.sblock.bitmap_start a.block.words i t
        ≡ done ((i, some left), u))
      × Allocated i s u
      × Spent (cost s.sblock.bitmap_start s + 1) rm left s u
unfolding alloc_block
alloc_block-runs i rm s t h a room lt not_used first =
    let bm = s.sblock.bitmap_start in
    let left1 = if is_logged bm s then rm else rm - 1 in
    let room1 : (is_logged bm s ≡ true) ⊎ HasRoom rm s =
      HasRoom-cost bm rm s (omega (arith, room)) (omega (arith, room)) in
    let (w, run, d) = write_held bm s h.valid h.apart rm (λ x. Bitmap.mark x i) room1 a in
    let spent = edit-Spent bm rm room1 h.table d in
    let ne : i ≢ w.sblock.log_start =
      λ p. let q = ap (in_use s) (p ∙ ap (λ k. k.log_start) d.sblock) in cc in
    let one : cost i w ≤ 1 = elim (Bool-cases (is_logged i w)) [
      | inl e ↦ rw e (omega arith)
      | inr e ↦ rw e (omega arith)
    ] in
    let room2 : (is_logged i w ≡ true) ⊎ HasRoom left1 w =
      HasRoom-cost i left1 w (omega (arith, one, spent.share, room))
        (omega (arith, one, spent.logged, room)) in
    let (u, run2, d2) = clear_new-runs i left1 w d.valid ne room2 in
    let spent2 = edit-Spent i left1 room2 (spent.table ∙ h.table) d2 in
    (
      (if is_logged i w then left1 else left1 - 1),
      u,
      after-done (store bm (Bitmap.mark a.block.words i)) (sync_op (some rm) bm) (release bm)
            (clear_new i) t w (some left1) run
          ∙ run2,
      both-Allocated i s w u h lt not_used first d d2
          (spent2.kept bm (edit-logged bm rm room1 h.table d))
          (edit-logged i left1 room2 (spent.table ∙ h.table) d2),
      Spent-add spent (Spent-more one spent2),
    )

-- With no block held and room in the operation and in the log for the new block and, if the log does not hold
-- it, the bitmap, cache_alloc calls PANIC exactly when
-- the bitmap has no free block, and otherwise takes the first one: it is then in use and cleared, every other
-- block keeps its place in the bitmap and its words, and no more of the log is spent than this room.
pub alloc_lem :
    (rm : ℕ) (s : Cache)
    → HasBitmap s
    → HasAllocRoom rm s
    → ((alloc (some rm) s ≡ panic) × ((m : ℕ) → m < s.sblock.num_blocks → in_use s m ≡ true))
      ⊎ ((i : ℕ) × (left : ℕ) × (u : Cache) × (i < s.sblock.num_blocks)
          × (alloc (some rm) s ≡ done ((i, some left), u))
          × Allocated i s u
          × Spent (cost s.sblock.bitmap_start s + 1) rm left s u)
unfolding alloc
alloc_lem rm s h room =
    let bm = s.sblock.bitmap_start in
    let (t, a) = acquire_lem nobody bm s h.valid refl h.apart in
    let cached : find t.sblock.bitmap_start t.blocks ≡ some a.block = rw a.log.sblock a.cached in
    elim (first_free (view s bm) s.sblock.num_blocks 0) [
      | all_used used ↦
          let all =
            alloc_from-full (some rm) t a.block cached s.sblock.num_blocks 0
              (λ m x y. ap (λ c. Bitmap.get c m) a.reads ∙ used m x y) in
          inl (rw (a.runs, ◌>>=◌) all, λ m lt. used m (omega arith) (omega (arith, lt)))
      | found j le lt not_used used ↦
          let reach =
            alloc_from-found (some rm) t a.block cached s.sblock.num_blocks 0 j le lt
              (ap (λ c. Bitmap.get c j) a.reads ∙ not_used)
              (λ m x y. ap (λ c. Bitmap.get c m) a.reads ∙ used m x y) in
          let (left, u, run, done_it, spent) =
            alloc_block-runs j rm s t h a room (omega (arith, lt)) not_used
              (λ m b. used m (omega arith) b) in
          let same : alloc_block (some rm) t.sblock.bitmap_start a.block.words j t
              ≡ done ((j, some left), u) =
            ap (λ k. alloc_block (some rm) k.bitmap_start a.block.words j t) a.log.sblock ∙ run in
          inr (j, left, u, omega (arith, lt), rw (a.runs, ◌>>=◌) (reach ∙ same), done_it, spent)
    ]
