-- ===== src/Kernel/User/Tests.antt =====
-- Checks of addresses on one section.
use fdu2024_os_honor_lab.Prelude.{
  ℕ, ◌-◌, ◌^◌, ◌≡◌, refl, true, false, List, [], ◌∷◌, if◌then◌else◌, ◌==◌,
}
use fdu2024_os_honor_lab.Kernel.User.{Section, user_readable, find_readable}

abbrev code : List Section
code = record { begin = 4096; end = 8192; is_ro = true } ∷ []

abbrev text : ℕ → ℕ
text a = if a == 5002 then 0 else 65

-- The last byte of a section, and an address of the kernel.
last_byte : user_readable code 8191 1 ≡ false
unfolding user_readable find_readable
last_byte = refl

-- A range whose end wraps, and which no section holds.
wrapped_range : user_readable code 5000 (2 ^ 64 - 100) ≡ true
unfolding user_readable find_readable
wrapped_range = refl
