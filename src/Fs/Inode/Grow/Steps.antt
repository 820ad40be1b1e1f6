-- ===== src/Fs/Inode/Grow/Steps.antt =====
-- What the steps of a growing write do to the content of a file (src/fs/inode.c).
use fdu2024_os_honor_lab.Prelude.{
  ℕ, zero, suc, ◌+◌, ◌-◌, ◌*◌, ◌/◌, ◌%◌, ◌^◌, ◌≡◌, ◌≢◌, ◌≤◌, ◌<◌, ◌∙◌, refl, sym, ap, inl, inr,
  true, false, List, [], ◌∷◌, ◌==◌, if◌then◌else◌, arith, Bool-cases, get_or, set, length,
  length-set, replicate,
}
use fdu2024_os_honor_lab.Fs.Disk.{Words}
use fdu2024_os_honor_lab.Fs.Cache.{Cache, log_max_size}
use fdu2024_os_honor_lab.Fs.Cache.Access.{view}
use fdu2024_os_honor_lab.Fs.Cache.Edit.{Edited}
use fdu2024_os_honor_lab.Fs.Cache.Alloc.{Allocated}
use fdu2024_os_honor_lab.Fs.Inode.{
  Inode, byte, block_size, inode_per_block, InodeEntry, entry_words, put_words, store_entry,
  set_addr,
}
use fdu2024_os_honor_lab.Fs.Inode.Write.{put_bytes}
use fdu2024_os_honor_lab.Fs.Inode.Write.Bytes.{AreBytes, within, byte-put_bytes, length-put_bytes}
use fdu2024_os_honor_lab.Fs.Inode.Grow.{
  IsGrowable, addr, place, same_place, edited-in_use, edited-IsGrowable,
}
use fdu2024_os_honor_lab.Fs.Inode.Grow.Taken.{
  allocated-in_use, allocated_ne, addr-grown_here, addr-grown_other, addr_ne, grown-IsGrowable,
}
use fdu2024_os_honor_lab.Fs.Inode.Grow.Content.{
  Change, IsForeign, block_byte, block_byte-view, content, put_at, same_bytes,
}

-- A write to a block that is not the bitmap
module _ (inode : Inode) {b : ℕ} {x : Words} {s t : Cache} (g : IsGrowable inode s)
    (d : Edited b x s t) (off : b ≢ s.sblock.bitmap_start) (len : length x ≡ 64)
    (table : length t.header.block_no ≡ log_max_size) where
  view-other : (c : ℕ) → c ≢ b → view t c ≡ view s c
  view-other c ne = let n : (b == c) ≡ false = ground (arith, ne) in d.views c ∙ rw n refl

  IsForeign-edited : (c : ℕ) → IsForeign inode s c → IsForeign inode t c
  IsForeign-edited c h = record {
    used = edited-in_use d off len g.bitmap table c ∙ h.used;
    off_place = λ e. h.off_place (e ∙ same_place inode.inode_no s t d.sblock);
    off_bitmap = λ e. h.off_bitmap (e ∙ ap (λ k. k.bitmap_start) d.sblock);
    not_own = h.not_own;
  }

  edited-Change :
      (f : ℕ → ℕ → ℕ)
      → ((j : ℕ) → content inode t j ≡ f j (content inode s j))
      → ((c : ℕ) → IsForeign inode s c → c ≢ b)
      → Change f inode inode s t
  edited-Change f bytes ne = record {
    growable = edited-IsGrowable d off len g.bitmap table g;
    bytes = bytes;
    foreign = IsForeign-edited;
    kept = λ c h. view-other c (ne c h);
    inode_no = refl;
    disk = d.disk;
    sblock = d.sblock;
  }

length-put_words : (i : ℕ) (xs ws : Words) → length (put_words i xs ws) ≡ length ws
unfolding put_words
length-put_words i [] ws = refl
length-put_words i (x ∷ xs) ws = length-put_words (i + 1) xs (set ws i x) ∙ length-set ws i x

pub length-store_entry :
    (k : ℕ) (e : InodeEntry) (ws : Words) → length (store_entry k e ws) ≡ length ws
unfolding store_entry
length-store_entry k e ws = length-put_words (8 * k) (entry_words e) ws

-- The inode is put on the device.
module _ (inode : Inode) {s t : Cache} (g : IsGrowable inode s)
    (d : Edited
      (place inode s)
      (store_entry (inode.inode_no % inode_per_block) inode.entry (view s (place inode s)))
      s
      t)
    (table : length t.header.block_no ≡ log_max_size) where
  pub synced-Change : Change same_bytes inode inode s t
  synced-Change =
      let len =
        length-store_entry (inode.inode_no % inode_per_block) inode.entry (view s (place inode s))
        ∙ g.place_full in
      edited-Change inode g d g.place_off_bitmap len table same_bytes
        (λ j. block_byte-view (addr inode (j / block_size)) s t (j % block_size) (λ h.
          view-other inode g d g.place_off_bitmap len table (addr inode (j / block_size))
            (g.owned (j / block_size) h).off_place))
        (λ c h. h.off_place)

byte-zeros : (k : ℕ) → byte k (replicate 64 0) ≡ 0
unfolding byte
byte-zeros k =
    ap (λ w. w / 2 ^ (8 * (k % 8)) % 2 ^ 8) (get_or-zeros 64 (k / 8))
    ∙ zero_digit (2 ^ (8 * (k % 8)))
  where
    get_or-zeros : (n i : ℕ) → get_or {A = ℕ} (replicate n 0) i 0 ≡ 0
    get_or-zeros zero i = refl
    get_or-zeros (suc n) zero = refl
    get_or-zeros (suc n) (suc i) = get_or-zeros n i

    zero_digit : (m : ℕ) → ◌≡◌ {A = ℕ} (0 / m % 2 ^ 8) 0
    zero_digit m = ground arith

-- A part gets a new block.
module _ (inode : Inode) (p b : ℕ) (s t : Cache) (g : IsGrowable inode s) (a : Allocated b s t)
    (table : length t.header.block_no ≡ log_max_size) (l : p < 12) (empty : addr inode p ≡ 0) where
  grown_byte : (j : ℕ) → content (set_addr p b inode) t j ≡ content inode s j
  grown_byte j =
      let i = j / block_size in
      let k = j % block_size in
      elim (Bool-cases (p == i)) [
        | inl y ↦
            let now = addr-grown_here inode p b s t g a table l i y in
            let here : addr inode i ≡ 0 = ap (addr inode) (sym (eq y)) ∙ empty in
            let some_block : (b == 0) ≡ false =
              ground (arith, allocated_ne a g.bitmap table 0 g.zero_used) in
            ap (λ c. block_byte c t k) now
            ∙ rw some_block (ap (byte k) a.cleared ∙ byte-zeros k)
            ∙ sym (ap (λ c. block_byte c s k) here)
        | inr y ↦
            ap (λ c. block_byte c t k) (addr-grown_other inode p b s t g a table l i y)
            ∙ block_byte-view (addr inode i) s t k (λ h.
              a.others (addr inode i) (addr_ne inode p b s t g a table l i)
                (g.owned i h).off_bitmap)
      ]
    where
      eq : {i : ℕ} → p == i ≡ true → p ≡ i
      eq {i} y = ground (arith, y)

  IsForeign-grown : (c : ℕ) → IsForeign inode s c → IsForeign (set_addr p b inode) t c
  IsForeign-grown c h = record {
    used = allocated-in_use a g.bitmap table c h.used;
    off_place = λ e. h.off_place (e ∙ same_place inode.inode_no s t a.sblock);
    off_bitmap = λ e. h.off_bitmap (e ∙ ap (λ k. k.bitmap_start) a.sblock);
    not_own = λ i e. elim (Bool-cases (p == i)) [
      | inl y ↦
          allocated_ne a g.bitmap table c h.used
            (sym e ∙ addr-grown_here inode p b s t g a table l i y)
      | inr y ↦ h.not_own i (sym (addr-grown_other inode p b s t g a table l i y) ∙ e)
    ];
  }

  pub grown-Change : Change same_bytes inode (set_addr p b inode) s t
  grown-Change = record {
    growable = grown-IsGrowable inode p b s t g a table l;
    bytes = grown_byte;
    foreign = IsForeign-grown;
    kept = λ c h. a.others c (allocated_ne a g.bitmap table c h.used) h.off_bitmap;
    inode_no = refl;
    disk = a.disk;
    sblock = a.sblock;
  }

-- Bytes go to place `k` of part `p`, which has a block.
module _ (inode : Inode) (p k : ℕ) (xs : List ℕ) (s t : Cache) (g : IsGrowable inode s)
    (has : addr inode p ≢ 0) (fits : k + length xs ≤ block_size) (are : AreBytes xs)
    (d : Edited (addr inode p) (put_bytes k xs (view s (addr inode p))) s t)
    (table : length t.header.block_no ≡ log_max_size) where
  put_byte_lem : (j : ℕ) → content inode t j ≡ put_at (p * block_size + k) xs j (content inode s j)
  put_byte_lem j =
      let b = addr inode p in
      let i = j / block_size in
      let m = j % block_size in
      elim (Bool-cases (p == i)) [
        | inl y ↦
            let part : p ≡ i = ground (arith, y) in
            let mine : (b == 0) ≡ false = ground (arith, has) in
            let put =
              byte-put_bytes k m xs (view s b) are (omega (arith, (g.owned p has).full, fits)) in
            let self : (b == b) ≡ true = ground arith in
            let now : content inode t j ≡ block_byte b t m =
              ap (λ n. block_byte (addr inode n) t m) (sym part) in
            let old : block_byte b s m ≡ content inode s j =
              ap (λ n. block_byte (addr inode n) s m) part in
            let new : block_byte b t m ≡ byte m (put_bytes k xs (view s b)) =
              rw mine (ap (byte m) (d.views b ∙ rw self refl)) in
            let old2 : byte m (view s b) ≡ content inode s j = (rw mine at old) in
            now ∙ new ∙ put ∙ shifted j part old2
        | inr y ↦
            let part : p ≢ i = ground (arith, y) in
            let apart : within (p * block_size + k) (length xs) j ≡ false =
              ground (arith, part, fits) in
            rw apart (
              block_byte-view (addr inode i) s t m (λ h.
                let differ : b ≢ addr inode i = λ e. part (g.apart p i has e) in
                let n : (b == addr inode i) ≡ false = ground (arith, differ) in
                d.views (addr inode i) ∙ rw n refl))
      ]
    where
      shifted :
          (j : ℕ)
          → p ≡ j / block_size
          → byte (j % block_size) (view s (addr inode p)) ≡ content inode s j
          → (if within k (length xs) (j % block_size)
              then get_or xs (j % block_size - k) 0
              else byte (j % block_size) (view s (addr inode p)))
            ≡ put_at (p * block_size + k) xs j (content inode s j)
      shifted j part old =
          let same : j % block_size - k ≡ j - (p * block_size + k) = omega (arith, part) in
          let inside : within k (length xs) (j % block_size)
              ≡ within (p * block_size + k) (length xs) j =
            ground (arith, part) in
          rw (same, inside, old) refl

  put_len : length (put_bytes k xs (view s (addr inode p))) ≡ 64
  put_len = length-put_bytes k xs (view s (addr inode p)) ∙ (g.owned p has).full

  pub put-Change : Change (put_at (p * block_size + k) xs) inode inode s t
  put-Change =
      edited-Change inode g d (g.owned p has).off_bitmap put_len table
        (put_at (p * block_size + k) xs) put_byte_lem (λ c h e. h.not_own p (sym e))
