-- ===== src/Fs/Inode/Grow/Content.antt =====
-- What a file on direct blocks holds, where a part without a block reads as zeros, and what the steps of a growing
-- write do to it (src/fs/inode.c).
use fdu2024_os_honor_lab.Prelude.{
  ℕ, ◌-◌, ◌/◌, ◌%◌, ◌≡◌, ◌≢◌, ◌∙◌, refl, ap, inl, inr, true, List, ◌==◌, if◌then◌else◌, arith,
  Bool-cases, get_or, length,
}
use fdu2024_os_honor_lab.Fs.Cache.{Cache}
use fdu2024_os_honor_lab.Fs.Cache.Access.{view}
use fdu2024_os_honor_lab.Fs.Cache.Alloc.{in_use}
use fdu2024_os_honor_lab.Fs.Inode.{Inode, byte, block_size}
use fdu2024_os_honor_lab.Fs.Inode.Write.{set_size}
use fdu2024_os_honor_lab.Fs.Inode.Write.Bytes.{within}
use fdu2024_os_honor_lab.Fs.Inode.Grow.{IsGrowable, IsGrowable-header, addr, place}

abbrev pub block_byte : ℕ → Cache → ℕ → ℕ
block_byte b s k = if b == 0 then 0 else byte k (view s b)

-- Byte `j` of the file
abbrev pub content : Inode → Cache → ℕ → ℕ
content inode s j = block_byte (addr inode (j / block_size)) s (j % block_size)

-- A block that is in use, but not by the inode, the bitmap or the entry of the inode
pub record IsForeign (inode : Inode) (s : Cache) (c : ℕ) : Type 0 where
  pub used : in_use s c ≡ true
  pub off_place : c ≢ place inode s
  pub off_bitmap : c ≢ s.sblock.bitmap_start
  pub not_own : (i : ℕ) → addr inode i ≢ c

-- A change of the file that makes `f j x` of byte `j` when it was `x`
pub record Change (f : ℕ → ℕ → ℕ) (inode inode2 : Inode) (s t : Cache) : Type 0 where
  pub growable : IsGrowable inode2 t
  pub bytes : (j : ℕ) → content inode2 t j ≡ f j (content inode s j)
  pub foreign : (c : ℕ) → IsForeign inode s c → IsForeign inode2 t c
  pub kept : (c : ℕ) → IsForeign inode s c → view t c ≡ view s c
  pub inode_no : inode2.inode_no ≡ inode.inode_no
  pub disk : t.disk ≡ s.disk
  pub sblock : t.sblock ≡ s.sblock

abbrev pub same_bytes : ℕ → ℕ → ℕ
same_bytes j x = x

-- Bytes `xs` at `offset`
abbrev pub put_at : ℕ → List ℕ → ℕ → ℕ → ℕ
put_at offset xs j x = if within offset (length xs) j then get_or xs (j - offset) 0 else x

pub Change-trans :
    {f g : ℕ → ℕ → ℕ} {i1 i2 i3 : Inode} {s t u : Cache}
    → Change f i1 i2 s t
    → Change g i2 i3 t u
    → Change (λ j x. g j (f j x)) i1 i3 s u
Change-trans {f} {g} p q = record {
  growable = q.growable;
  bytes = λ j. q.bytes j ∙ ap (g j) (p.bytes j);
  foreign = λ c h. q.foreign c (p.foreign c h);
  kept = λ c h. q.kept c (p.foreign c h) ∙ p.kept c h;
  inode_no = q.inode_no ∙ p.inode_no;
  disk = q.disk ∙ p.disk;
  sblock = q.sblock ∙ p.sblock;
}

pub Change-map :
    {f g : ℕ → ℕ → ℕ} {i1 i2 : Inode} {s t : Cache}
    → ((j x : ℕ) → f j x ≡ g j x)
    → Change f i1 i2 s t
    → Change g i1 i2 s t
Change-map {i1 = i1} {s = s} same c = record {
  growable = c.growable;
  bytes = λ j. c.bytes j ∙ same j (content i1 s j);
  foreign = c.foreign;
  kept = c.kept;
  inode_no = c.inode_no;
  disk = c.disk;
  sblock = c.sblock;
}

pub block_byte-view :
    (b : ℕ) (s t : Cache) (k : ℕ)
    → (b ≢ 0 → view t b ≡ view s b)
    → block_byte b t k ≡ block_byte b s k
block_byte-view b s t k h = elim (Bool-cases (b == 0)) [
  | inl y ↦ rw y refl
  | inr y ↦ let p : b ≢ 0 = ground (arith, y) in rw y (ap (byte k) (h p))
]

-- A size of the file that is not on the device yet
pub set_size-Change :
    (n : ℕ) (inode : Inode) (s : Cache)
    → IsGrowable inode s
    → Change same_bytes inode (set_size n inode) s s
set_size-Change n inode s g = record {
  growable = IsGrowable-header inode inode.entry.type n s g;
  bytes = λ j. refl;
  foreign = λ c h. record {
    used = h.used;
    off_place = h.off_place;
    off_bitmap = h.off_bitmap;
    not_own = h.not_own;
  };
  kept = λ c h. refl;
  inode_no = refl;
  disk = refl;
  sblock = refl;
}
