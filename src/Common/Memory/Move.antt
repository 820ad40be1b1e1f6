-- ===== src/Common/Memory/Move.antt =====
-- Copying and filling of memory (memset, memcpy, memmove of src/common/string.c).
use fdu2024_os_honor_lab.Prelude.{
  ℕ, zero, suc, ◌+◌, ◌-◌, ◌%◌, ◌≤◌, ◌≡◌, ◌⊎◌, inl, inr, arith, ◌&&◌, ltb, leb, if◌then◌else◌,
  Bool-cases,
}
use fdu2024_os_honor_lab.Common.Memory.{Memory, poke, memset, memcpy, copy_down, memmove}

-- Byte `b` after `n` bytes were copied from `src` to `dest` in memory `m`.
abbrev pub moved : Memory → ℕ → ℕ → ℕ → ℕ → ℕ
moved m dest src n b = if leb dest b && ltb b (dest + n) then m (src + (b - dest)) else m b

memcpy_up :
    (n : ℕ) (m : Memory) (dest src b : ℕ)
    → (dest ≤ src) ⊎ (src + n ≤ dest)
    → memcpy m dest src n b ≡ moved m dest src n b
unfolding memcpy
memcpy_up zero m dest src b h = ground arith
memcpy_up (suc n) m dest src b h =
    ground (arith, memcpy_up n (poke m dest (m src)) (dest + 1) (src + 1) b)

copy_down_lem :
    (n : ℕ) (m : Memory) (dest src b : ℕ)
    → src ≤ dest
    → copy_down m dest src n b ≡ moved m dest src n b
unfolding copy_down
copy_down_lem zero m dest src b h = ground arith
copy_down_lem (suc n) m dest src b h =
    ground (arith, copy_down_lem n (poke m (dest + n) (m (src + n))) dest src b)

-- memmove copies its `n` bytes as they were before the call, however source and destination overlap,
-- and changes no other byte.
pub memmove_lem : (m : Memory) (dest src n b : ℕ) → memmove m dest src n b ≡ moved m dest src n b
unfolding memmove
memmove_lem m dest src n b = elim (Bool-cases (ltb src dest && ltb (dest - src) n)) [
  | inl e ↦ rw e (copy_down_lem n m dest src b (ground arith))
  | inr e ↦ rw e (memcpy_up n m dest src b (ground arith))
]

-- memcpy does the same where the two ranges do not overlap.
pub memcpy_lem :
    (m : Memory) (dest src n b : ℕ)
    → (dest + n ≤ src) ⊎ (src + n ≤ dest)
    → memcpy m dest src n b ≡ moved m dest src n b
memcpy_lem m dest src n b h = memcpy_up n m dest src b (omega arith)

-- memset
pub memset_lem :
    (n : ℕ) (m : Memory) (s c b : ℕ)
    → memset m s c n b ≡ (if leb s b && ltb b (s + n) then c % 256 else m b)
unfolding memset
memset_lem zero m s c b = ground arith
memset_lem (suc n) m s c b = ground (arith, memset_lem n (poke m s (c % 256)) (s + 1) c b)
