-- ===== src/Kernel/Pt/Bits.antt =====
-- Joining a page address and the flags of an entry (K2P and PTE_TABLE in src/aarch64/mmu.h).
use Prim.Native.Nat.{bit_or, max, digits, bit_or-bitwise}
use fdu2024_os_honor_lab.Prelude.{ℕ, zero, suc, ◌+◌, ◌*◌, ◌/◌, ◌%◌, ◌≡◌, ◌≤◌, ◌<◌, ◌∙◌, refl, arith}

abbrev or_digits : ℕ → ℕ → ℕ → ℕ
or_digits n a b = digits (λ b. b) max n a b

or_digits-zero : (n a : ℕ) → a ≤ n → or_digits n a 0 ≡ a
or_digits-zero zero zero l = refl
or_digits-zero zero (suc a) l = absurd (omega arith)
or_digits-zero (suc n) zero l = refl
or_digits-zero (suc n) (suc a) l = omega (arith, or_digits-zero n (suc a / 2) (omega arith))

abbrev power : ℕ → ℕ
power zero = 1
power (suc k) = power k + power k

or_digits_apart : (k n a b c : ℕ) → a ≤ n → a ≡ c * power k → b < power k → or_digits n a b ≡ a + b
or_digits_apart zero n a b c l e h =
    let p : b ≡ 0 = omega arith in rw p (omega (arith, or_digits-zero n a l))
or_digits_apart (suc k) zero zero b c l e h = omega arith
or_digits_apart (suc k) zero (suc a) b c l e h = absurd (omega arith)
or_digits_apart (suc k) (suc n) zero b c l e h = omega arith
or_digits_apart (suc k) (suc n) (suc a) b c l e h =
    let half : suc a ≡ c * power k + c * power k = omega arith in
    omega (
      arith,
      or_digits_apart k n (suc a / 2) (b / 2) c (omega arith) (omega (arith, half)) (omega arith),
      half,
    )

-- The flags below a page address.
pub bit_or_flags : (a b : ℕ) → a % 4096 ≡ 0 → b < 4096 → bit_or a b ≡ a + b
bit_or_flags a b e h =
    bit_or-bitwise a b ∙ or_digits_apart 12 a a b (a / 4096) (omega arith) (omega arith) h
