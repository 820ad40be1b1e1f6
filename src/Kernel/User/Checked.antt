-- ===== src/Kernel/User/Checked.antt =====
-- What the checks of src/kernel/syscall.c guarantee.
use fdu2024_os_honor_lab.Prelude.{ℕ, ◌+◌, ◌≡◌, ◌≢◌, ◌≤◌, ◌<◌, ◌⊎◌, Bool, false, ◌&&◌, List, [], ◌∷◌}
use fdu2024_os_honor_lab.Kernel.User.{kspace_mask, Section, address}

-- Some section, one that may be written if `write`, begins at or before `first` and ends behind `last`.
abbrev pub Spans : Bool → List Section → ℕ → ℕ → Type 0
Spans write [] first last = ⊥
Spans write (st ∷ sts) first last =
    ((st.begin ≤ first) × (last < st.end) × ((write && st.is_ro) ≡ false))
    ⊎ Spans write sts first last

-- All addresses from `start` to `start` + `size`, that is those of the range and the one behind it, are in one
-- section, one that may be written if `write`.
abbrev pub IsInside : Bool → List Section → ℕ → ℕ → Type 0
IsInside write [] start size = ⊥
IsInside write (st ∷ sts) start size =
    (((a : ℕ) → start ≤ a → a ≤ start + size → (st.begin ≤ a) × (a < st.end))
      × ((write && st.is_ro) ≡ false))
    ⊎ IsInside write sts start size

-- A character at address `a` counts as readable: `a` is an address of the kernel, or one section holds the byte at
-- `a` and the one behind it.
abbrev pub MayRead : List Section → ℕ → Type 0
MayRead sts a = (kspace_mask ≤ a) ⊎ IsInside false sts a 1

-- A string of `n` characters and its end, from index `i` on, that may be read.
pub record IsText (m : ℕ → ℕ) (sts : List Section) (str i n : ℕ) : Type 0 where
  pub ends : m (address str (i + n)) ≡ 0
  pub goes_on : (k : ℕ) → i ≤ k → k < i + n → m (address str k) ≢ 0
  pub readable : (k : ℕ) → i ≤ k → k ≤ i + n → MayRead sts (address str k)
