-- ===== src/Common/Memory.antt =====
-- Memory and C strings (src/common/string.c). Memory is a function from addresses to bytes; a `char`
-- is unsigned on this machine.
pub mod Move
pub mod Strings
mod Tests
use fdu2024_os_honor_lab.Prelude.{
  ℕ, zero, suc, ◌+◌, ◌-◌, ◌%◌, Bool, ◌&&◌, ◌||◌, Option, none, some, ◌==◌, ltb, if◌then◌else◌,
}
use fdu2024_os_honor_lab.Prelude.Int.{ℤ, pos, sub_ℕ}

abbrev pub Memory : Type 0
Memory = ℕ → ℕ

abbrev pub poke : Memory → ℕ → ℕ → Memory
poke m a x b = if a == b then x else m b

-- memset: `n` bytes from `s` on
unfoldable pub memset : Memory → ℕ → ℕ → ℕ → Memory
memset m s c zero = m
memset m s c (suc n) = memset (poke m s (c % 256)) (s + 1) c n

-- memcpy, and the second loop of memmove: upwards
unfoldable pub memcpy : Memory → ℕ → ℕ → ℕ → Memory
memcpy m dest src zero = m
memcpy m dest src (suc n) = memcpy (poke m dest (m src)) (dest + 1) (src + 1) n

-- the first loop of memmove: downwards
unfoldable pub copy_down : Memory → ℕ → ℕ → ℕ → Memory
copy_down m dest src zero = m
copy_down m dest src (suc n) = copy_down (poke m (dest + n) (m (src + n))) dest src n

-- memmove
unfoldable pub memmove : Memory → ℕ → ℕ → ℕ → Memory
memmove m dest src n =
    if ltb src dest && ltb (dest - src) n then copy_down m dest src n else memcpy m dest src n

-- memcmp: the difference of the first bytes that differ
unfoldable pub memcmp : Memory → ℕ → ℕ → ℕ → ℤ
memcmp m s1 s2 zero = pos 0
memcmp m s1 s2 (suc n) =
    let rest = memcmp m (s1 + 1) (s2 + 1) n in if m s1 == m s2 then rest else sub_ℕ (m s1) (m s2)

-- strncmp
unfoldable pub strncmp : Memory → ℕ → ℕ → ℕ → ℤ
strncmp m s1 s2 zero = pos 0
strncmp m s1 s2 (suc n) =
    let rest = strncmp m (s1 + 1) (s2 + 1) n in
    if m s1 == m s2 then (if m s1 == 0 || m s2 == 0 then pos 0 else rest) else sub_ℕ (m s1) (m s2)

-- The first loop of strncpy and strncpy_fast: the memory, where it stopped, and the room left.
unfoldable pub copy_string : Memory → ℕ → ℕ → ℕ → Memory × ℕ × ℕ
copy_string m dest src zero = (m, dest, 0)
copy_string m dest src (suc n) =
    let rest = copy_string (poke m dest (m src)) (dest + 1) (src + 1) n in
    if m src == 0 then (m, dest, suc n) else rest

-- The second loop of strncpy.
unfoldable pub fill_zero : Memory → ℕ → ℕ → Memory
fill_zero m dest zero = m
fill_zero m dest (suc n) = fill_zero (poke m dest 0) (dest + 1) n

unfoldable pub strncpy : Memory → ℕ → ℕ → ℕ → Memory
strncpy m dest src n = let (m', d, r) = copy_string m dest src n in fill_zero m' d r

unfoldable pub strncpy_fast : Memory → ℕ → ℕ → ℕ → Memory
strncpy_fast m dest src n =
    let (m', d, r) = copy_string m dest src n in if ltb 0 r then poke m' d 0 else m'

-- strlen, with fuel for the bytes before the terminator
unfoldable pub strlen : ℕ → Memory → ℕ → Option ℕ
strlen zero m s = none
strlen (suc f) m s =
    let rest = strlen f m (s + 1) in
    if m s == 0 then some 0 else elim rest [ none ↦ none | some k ↦ some (k + 1) ]
