-- ===== src/Kernel/User.antt =====
-- The checks of user addresses (user_readable, user_writeable, user_strlen of src/kernel/syscall.c) on
-- the sections of a process. Addresses have 64 bits, and their sums wrap.
pub mod Checked
mod Tests
use fdu2024_os_honor_lab.Prelude.{
  ℕ, zero, suc, ◌+◌, ◌-◌, ◌%◌, ◌^◌, Bool, true, false, ◌&&◌, List, [], ◌∷◌, ◌==◌, if◌then◌else◌,
  ltb, leb,
}

-- KSPACE_MASK
abbrev pub kspace_mask : ℕ
kspace_mask = 2 ^ 64 - 2 ^ 48

-- `struct section`: its range, and whether ST_RO is among its flags
pub record Section : Type 0 where
  pub begin : ℕ
  pub end : ℕ
  pub is_ro : Bool

abbrev pub u64_mod : ℕ
u64_mod = 2 ^ 64

abbrev pub holds : Section → ℕ → ℕ → Bool
holds st start size = leb st.begin start && ltb ((start + size) % u64_mod) st.end

-- The loop of user_readable.
unfoldable pub find_readable : List Section → ℕ → ℕ → Bool
find_readable [] start size = false
find_readable (st ∷ sts) start size =
    let rest = find_readable sts start size in if holds st start size then true else rest

unfoldable pub user_readable : List Section → ℕ → ℕ → Bool
user_readable sts start size = if leb kspace_mask start then true else find_readable sts start size

-- The loop of user_writeable.
unfoldable pub find_writeable : List Section → ℕ → ℕ → Bool
find_writeable [] start size = false
find_writeable (st ∷ sts) start size =
    let rest = find_writeable sts start size in
    if st.is_ro then rest else if holds st start size then true else rest

unfoldable pub user_writeable : List Section → ℕ → ℕ → Bool
user_writeable sts start size =
    if leb kspace_mask start then true else find_writeable sts start size

-- `&str[i]`
unfoldable pub address : ℕ → ℕ → ℕ
address str i = (str + i) % u64_mod

-- The loop of user_strlen at `str[i]`, for at most `n` more characters of memory `m`.
unfoldable pub strlen_from : (ℕ → ℕ) → List Section → ℕ → ℕ → ℕ → ℕ
strlen_from m sts str i zero = 0
strlen_from m sts str i (suc n) =
    let rest = strlen_from m sts str (i + 1) n in
    if user_readable sts (address str i) 1
    then (if m (address str i) == 0 then i + 1 else rest)
    else 0

unfoldable pub user_strlen : (ℕ → ℕ) → List Section → ℕ → ℕ → ℕ
user_strlen m sts str maxlen = strlen_from m sts str 0 maxlen
