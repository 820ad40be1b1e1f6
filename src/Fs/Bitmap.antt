-- ===== src/Fs/Bitmap.antt =====
-- Bitmaps (src/common/bitmap.h): an array of 64-bit cells.
pub mod Bits
pub mod Laws
use Prim.Native.Nat.{bit_and, bit_or}
use fdu2024_os_honor_lab.Prelude.{ℕ, ◌-◌, ◌/◌, ◌%◌, ◌^◌, Bool, List, ◌==◌, get_or, set}

abbrev pub bits_per_cell : ℕ
bits_per_cell = 64

-- BIT(i) of common/defines.h, for i < 64
abbrev pub bit : ℕ → ℕ
bit i = 2 ^ i

-- bitmap_get
unfoldable pub get : List ℕ → ℕ → Bool
get cells index = get_or cells (index / bits_per_cell) 0 / bit (index % bits_per_cell) % 2 == 1

-- bitmap_set
unfoldable pub mark : List ℕ → ℕ → List ℕ
mark cells index =
    let idx = index / bits_per_cell in
    set cells idx (bit_or (get_or cells idx 0) (bit (index % bits_per_cell)))

-- bitmap_clear; `~BIT(offset)` in 64 bits
unfoldable pub clear : List ℕ → ℕ → List ℕ
clear cells index =
    let idx = index / bits_per_cell in
    set cells idx (bit_and (get_or cells idx 0) (2 ^ 64 - 1 - bit (index % bits_per_cell)))
