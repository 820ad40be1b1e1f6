-- ===== src/Common/Format/Tests.antt =====
-- Printed numbers.
use fdu2024_os_honor_lab.Prelude.{
  ℕ, ◌-◌, ◌^◌, ◌≡◌, ◌≤◌, ◌<◌, arith, true, some, List, ◌∷◌, ◌&&◌, if◌then◌else◌, length,
}
use fdu2024_os_honor_lab.Common.Format.{print_int, is_negative}
use fdu2024_os_honor_lab.Common.Format.Digits.{value, print_int_lem}

print_int_lem_example :
    (ds : List ℕ) × (print_int (2 ^ 64 - 120) 16 true
      ≡ some (if true && is_negative (2 ^ 64 - 120) then 45 ∷ ds else ds))
    × (value 16 0 ds
        ≡ (if true && is_negative (2 ^ 64 - 120) then 2 ^ 64 - (2 ^ 64 - 120) else 2 ^ 64 - 120))
    × (0 < length ds)
    × (length ds ≤ 64)
print_int_lem_example =
    print_int_lem (2 ^ 64 - 120) 16 true (omega arith) (omega arith) (omega arith)
