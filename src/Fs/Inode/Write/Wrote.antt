-- ===== src/Fs/Inode/Write/Wrote.antt =====
-- What a write of bytes does to a file whose parts have blocks of their own (src/fs/inode.c).
use fdu2024_os_honor_lab.Prelude.{
  ℕ, zero, suc, ◌+◌, ◌-◌, ◌*◌, ◌/◌, ◌%◌, ◌≡◌, ◌≢◌, ◌≤◌, ◌<◌, ◌∙◌, refl, sym, ap, inl, inr, true,
  false, List, [], ◌∷◌, ◌++◌, ◌==◌, ltb, if◌then◌else◌, arith, Bool-cases, get_or, length,
  length-append,
}
use fdu2024_os_honor_lab.Fs.Cache.{Cache}
use fdu2024_os_honor_lab.Fs.Cache.Access.{view, IsValid}
use fdu2024_os_honor_lab.Fs.Cache.Batch.{nobody}
use fdu2024_os_honor_lab.Fs.Cache.Edit.{Edited}
use fdu2024_os_honor_lab.Fs.Inode.{Inode, byte, block_size}
use fdu2024_os_honor_lab.Fs.Inode.Map.{block_of, IsMapped}
use fdu2024_os_honor_lab.Fs.Inode.Read.{file_byte}
use fdu2024_os_honor_lab.Fs.Inode.Write.{put_bytes}
use fdu2024_os_honor_lab.Fs.Inode.Write.Bytes.{AreBytes, within, byte-put_bytes, length-put_bytes}

-- Every part of the file has a block of its own, of 64 words, and none is the block of addresses.
pub record IsLaidOut (inode : Inode) (s : Cache) : Type 0 where
  pub mapped : (i : ℕ) → i * block_size < inode.entry.num_bytes → IsMapped inode s i
  pub apart :
      (i j : ℕ)
      → i * block_size < inode.entry.num_bytes
      → j * block_size < inode.entry.num_bytes
      → block_of inode.entry (view s) i ≡ block_of inode.entry (view s) j
      → i ≡ j
  pub no_index :
      (i : ℕ)
      → i * block_size < inode.entry.num_bytes
      → block_of inode.entry (view s) i ≢ inode.entry.indirect
  pub full :
      (i : ℕ)
      → i * block_size < inode.entry.num_bytes
      → length (view s (block_of inode.entry (view s) i)) ≡ 64

-- What a write of `xs` at `offset` leaves
pub record Wrote (inode : Inode) (offset : ℕ) (xs : List ℕ) (s t : Cache) : Type 0 where
  pub valid : IsValid nobody t
  pub laid_out : IsLaidOut inode t
  pub bytes :
      (j : ℕ)
      → j < inode.entry.num_bytes
      → file_byte inode.entry t j ≡ (
          if within offset (length xs) j
          then get_or xs (j - offset) 0
          else file_byte inode.entry s j)
  pub others :
      (c : ℕ)
      → ((i : ℕ) → i * block_size < inode.entry.num_bytes → block_of inode.entry (view s) i ≢ c)
      → view t c ≡ view s c
  pub blocks : (i : ℕ) → block_of inode.entry (view t) i ≡ block_of inode.entry (view s) i
  pub disk : t.disk ≡ s.disk
  pub sblock : t.sblock ≡ s.sblock

pub Wrote-nothing :
    (inode : Inode) (offset : ℕ) (s : Cache)
    → IsValid nobody s
    → IsLaidOut inode s
    → Wrote inode offset [] s s
Wrote-nothing inode offset s v l = record {
  valid = v;
  laid_out = l;
  bytes = λ j h. ground arith;
  others = λ c h. refl;
  blocks = λ i. refl;
  disk = refl;
  sblock = refl;
}

pub get_or-append :
    (xs ys : List ℕ) (k : ℕ)
    → get_or (xs ++ ys) k 0
      ≡ (if ltb k (length xs) then get_or xs k 0 else get_or ys (k - length xs) 0)
get_or-append [] ys k = ground arith
get_or-append (x ∷ xs) ys zero = ground arith
get_or-append (x ∷ xs) ys (suc k) = get_or-append xs ys k ∙ ground arith

pub Wrote-append :
    {inode : Inode} {offset : ℕ} {xs ys : List ℕ} {s t u : Cache}
    → Wrote inode offset xs s t
    → Wrote inode (offset + length xs) ys t u
    → Wrote inode offset (xs ++ ys) s u
Wrote-append {inode} {offset} {xs} {ys} {s} {t} {u} p q = record {
  valid = q.valid;
  laid_out = q.laid_out;
  bytes = λ j h.
      q.bytes j h
      ∙ ground (arith, p.bytes j h, get_or-append xs ys (j - offset), length-append xs ys);
  others = λ c h. q.others c (λ i k e. h i k (sym (p.blocks i) ∙ e)) ∙ p.others c h;
  blocks = λ i. q.blocks i ∙ p.blocks i;
  disk = q.disk ∙ p.disk;
  sblock = q.sblock ∙ p.sblock;
}

-- One block: part `p` of the file, where the bytes `xs` go to place `k`
module _ (inode : Inode) (s : Cache) (l : IsLaidOut inode s) (p k : ℕ) (xs : List ℕ)
    (in_file : p * block_size < inode.entry.num_bytes) (fits : k + length xs ≤ block_size)
    (are : AreBytes xs) where
  abbrev here : ℕ
  here = block_of inode.entry (view s) p

  module _ (t : Cache) (d : Edited here (put_bytes k xs (view s here)) s t) where
    same_blocks : (i : ℕ) → block_of inode.entry (view t) i ≡ block_of inode.entry (view s) i
    same_blocks i =
        let other : (here == inode.entry.indirect) ≡ false = ground (arith, l.no_index p in_file) in
        let same : view t inode.entry.indirect ≡ view s inode.entry.indirect =
          d.views inode.entry.indirect ∙ rw other refl in
        rw same refl

    view-here : (b : ℕ) → here == b ≡ true → view t b ≡ put_bytes k xs (view s here)
    view-here b y = d.views b ∙ rw y refl

    view-other : (b : ℕ) → here == b ≡ false → view t b ≡ view s b
    view-other b y = d.views b ∙ rw y refl

    new_byte :
        (j : ℕ)
        → j < inode.entry.num_bytes
        → file_byte inode.entry t j ≡ (
            if within (p * block_size + k) (length xs) j
            then get_or xs (j - (p * block_size + k)) 0
            else file_byte inode.entry s j)
    new_byte j h =
        let b = block_of inode.entry (view s) (j / block_size) in
        let at : file_byte inode.entry t j ≡ byte (j % block_size) (view t b) =
          ap (λ c. byte (j % block_size) (view t c)) (same_blocks (j / block_size)) in
        elim (Bool-cases (here == b)) [
          | inl y ↦
              let e : here ≡ b = ground (arith, y) in
              let part : p ≡ j / block_size =
                l.apart p (j / block_size) in_file (omega (arith, h)) e in
              let put =
                byte-put_bytes k (j % block_size) xs (view s here) are
                  (omega (arith, l.full p in_file, fits)) in
              let old : byte (j % block_size) (view s here) ≡ file_byte inode.entry s j =
                ap (λ c. byte (j % block_size) (view s c)) e in
              at ∙ ap (byte (j % block_size)) (view-here b y) ∙ put ∙ shifted j part old
          | inr y ↦
              let part : p ≢ j / block_size =
                λ q. ground (arith, ap (block_of inode.entry (view s)) q, y) in
              let apart : within (p * block_size + k) (length xs) j ≡ false =
                ground (arith, part, fits) in
              at ∙ ap (byte (j % block_size)) (view-other b y) ∙ rw apart refl
        ]
      where
        shifted :
            (j : ℕ)
            → p ≡ j / block_size
            → byte (j % block_size) (view s here) ≡ file_byte inode.entry s j
            → (if within k (length xs) (j % block_size)
                then get_or xs (j % block_size - k) 0
                else byte (j % block_size) (view s here))
              ≡ (if within (p * block_size + k) (length xs) j
                  then get_or xs (j - (p * block_size + k)) 0
                  else file_byte inode.entry s j)
        shifted j part old =
            let same : j % block_size - k ≡ j - (p * block_size + k) = omega (arith, part) in
            let inside : within k (length xs) (j % block_size)
                ≡ within (p * block_size + k) (length xs) j =
              ground (arith, part) in
            rw (same, inside, old) refl

    still_full :
        (i : ℕ)
        → i * block_size < inode.entry.num_bytes
        → length (view t (block_of inode.entry (view t) i)) ≡ 64
    still_full i h =
        let b = block_of inode.entry (view s) i in
        ap (λ c. length (view t c)) (same_blocks i) ∙ elim (Bool-cases (here == b)) [
          | inl y ↦
              ap length (view-here b y) ∙ length-put_bytes k xs (view s here) ∙ l.full p in_file
          | inr y ↦ ap length (view-other b y) ∙ l.full i h
        ]

    pub edited-Wrote : Wrote inode (p * block_size + k) xs s t
    edited-Wrote = record {
      valid = d.valid;
      laid_out = record {
        mapped = λ i h.
            let m = l.mapped i h in
            record {
              present = rw (same_blocks i) m.present;
              outside = rw (same_blocks i, d.sblock) m.outside;
              indirect = λ le. rw d.sblock (m.indirect le);
            };
        apart = λ i j h g e. l.apart i j h g (sym (same_blocks i) ∙ e ∙ same_blocks j);
        no_index = λ i h. rw (same_blocks i) (l.no_index i h);
        full = still_full;
      };
      bytes = new_byte;
      others =
          λ c h. let n : (here == c) ≡ false = ground (arith, h p in_file) in d.views c ∙ rw n refl;
      blocks = same_blocks;
      disk = d.disk;
      sblock = d.sblock;
    }
