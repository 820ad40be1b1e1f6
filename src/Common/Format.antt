-- ===== src/Common/Format.antt =====
-- The printing of numbers (_print_int of src/common/format.c). The output is the list of the characters
-- that are given to `put_char`.
pub mod Digits
mod Tests
use mathlib.Core.List.{reverse}
use fdu2024_os_honor_lab.Prelude.{
  ℕ, zero, suc, ◌+◌, ◌-◌, ◌/◌, ◌%◌, ◌^◌, Bool, ◌&&◌, Option, none, some, List, [], ◌∷◌, ◌==◌,
  if◌then◌else◌, ltb, leb, map,
}

-- `digit[v]`: 0 to 9, then a to f
abbrev pub digit : ℕ → ℕ
digit d = if ltb d 10 then 48 + d else 87 + d

-- The first loop, with fuel: the characters of `buf`, the last digit first.
unfoldable pub fill_buf : ℕ → ℕ → ℕ → Option (List ℕ)
fill_buf zero v base = none
fill_buf (suc f) v base =
    let rest = fill_buf f (v / base) base in
    if v / base == 0
    then some (digit (v % base) ∷ [])
    else elim rest [ none ↦ none | some ds ↦ some (digit (v % base) ∷ ds) ]

-- The sign bit of `i64 u`, given as 64 bits.
abbrev pub is_negative : ℕ → Bool
is_negative u = leb (2 ^ 63) u

-- _print_int of 64 bits `u`, whose first loop has as many rounds as `buf` has places
unfoldable pub print_int : ℕ → ℕ → Bool → Option (List ℕ)
print_int u base is_signed =
    if is_signed && is_negative u
    then elim (fill_buf 64 ((2 ^ 64 - u) % 2 ^ 64) base) [
      | none ↦ none
      | some ds ↦ some (45 ∷ reverse ds)
    ]
    else elim (fill_buf 64 u base) [ none ↦ none | some ds ↦ some (reverse ds) ]
