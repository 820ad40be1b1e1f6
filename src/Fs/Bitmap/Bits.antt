-- ===== src/Fs/Bitmap/Bits.antt =====
-- The binary digits of the bit operations in src/common/bitmap.h.
use Prim.Native.Nat
use Prim.Native.Nat.{bit_and, bit_or, min, max, digits, bit_and-bitwise, bit_or-bitwise}
use native.Mathlib.Nat.{div-div-eq-div-mul}
use fdu2024_os_honor_lab.Prelude.{
  ℕ, zero, suc, ◌+◌, ◌-◌, ◌*◌, ◌/◌, ◌%◌, ◌^◌, ◌≡◌, ◌≤◌, ◌<◌, ◌∙◌, ◌==◌, if◌then◌else◌, refl, sym,
  ap, arith,
}

-- Digit `m` of a number, and the powers of two
pub digit : ℕ → ℕ → ℕ
digit zero w = w % 2
digit (suc m) w = digit m (w / 2)

power : ℕ → ℕ
power zero = 1
power (suc m) = power m + power m

digit_zero : (m : ℕ) → digit m 0 ≡ 0
unfolding digit
digit_zero zero = refl
digit_zero (suc m) = digit_zero m

power-pow : (m : ℕ) → 2 ^ m ≡ power m
unfolding power
power-pow zero = refl
power-pow (suc m) = Prim.Native.Nat.pow.suc 2 m ∙ omega (arith, power-pow m)

pub digit_lem : (m w : ℕ) → w / 2 ^ m % 2 ≡ digit m w
unfolding digit
digit_lem zero w = omega arith
digit_lem (suc m) w =
    let p : 2 ^ suc m ≡ 2 * 2 ^ m = Prim.Native.Nat.pow.suc 2 m ∙ omega arith in
    ap (λ d. w / d % 2) p
    ∙ ap (λ d. d % 2) (sym (div-div-eq-div-mul w 2 (2 ^ m)))
    ∙ digit_lem m (w / 2)

or_digits :
    (n m a b : ℕ) → a ≤ n → digit m (digits (λ b. b) max n a b) ≡ max (digit m a) (digit m b)
unfolding digit
or_digits zero m zero b l = omega (arith, digit_zero m)
or_digits zero m (suc a) b l = absurd (omega arith)
or_digits (suc n) m zero b l = omega (arith, digit_zero m)
or_digits (suc n) zero (suc a) b l = omega arith
or_digits (suc n) (suc m) (suc a) b l =
    let d = digits (λ b. b) max n (suc a / 2) (b / 2) in
    let p : (d * 2 + max (suc a % 2) (b % 2)) / 2 ≡ d = omega arith in
    ap (digit m) p ∙ or_digits n m (suc a / 2) (b / 2) (omega (arith, l))

and_digits :
    (n m a b : ℕ) → a ≤ n → digit m (digits (λ b. 0) min n a b) ≡ min (digit m a) (digit m b)
unfolding digit
and_digits zero m zero b l = omega (arith, digit_zero m)
and_digits zero m (suc a) b l = absurd (omega arith)
and_digits (suc n) m zero b l = omega (arith, digit_zero m)
and_digits (suc n) zero (suc a) b l = omega arith
and_digits (suc n) (suc m) (suc a) b l =
    let d = digits (λ b. 0) min n (suc a / 2) (b / 2) in
    let p : (d * 2 + min (suc a % 2) (b % 2)) / 2 ≡ d = omega arith in
    ap (digit m) p ∙ and_digits n m (suc a / 2) (b / 2) (omega (arith, l))

pub digit-bit_or : (m a b : ℕ) → digit m (bit_or a b) ≡ max (digit m a) (digit m b)
digit-bit_or m a b = ap (digit m) (bit_or-bitwise a b) ∙ or_digits a m a b (omega arith)

pub digit-bit_and : (m a b : ℕ) → digit m (bit_and a b) ≡ min (digit m a) (digit m b)
digit-bit_and m a b = ap (digit m) (bit_and-bitwise a b) ∙ and_digits a m a b (omega arith)

digit-power : (m k : ℕ) → digit m (power k) ≡ (if m == k then 1 else 0)
unfolding digit power
digit-power zero zero = refl
digit-power zero (suc k) = ground arith
digit-power (suc m) zero = ground (arith, digit_zero m)
digit-power (suc m) (suc k) =
    let p : (power k + power k) / 2 ≡ power k = omega arith in
    let q : (suc m == suc k) ≡ (m == k) = ground arith in
    ap (digit m) p ∙ digit-power m k ∙ ap (λ b. if b then 1 else 0) (sym q)

-- The digits of the complement in `n` bits
flipped : (n m w : ℕ) → w < power n → m < n → digit m (power n - 1 - w) ≡ 1 - digit m w
unfolding digit power
flipped zero m w h l = absurd (omega arith)
flipped (suc n) zero w h l = omega (arith, h)
flipped (suc n) (suc m) w h l =
    let p : (power n + power n - 1 - w) / 2 ≡ power n - 1 - w / 2 = omega (arith, h) in
    ap (digit m) p ∙ flipped n m (w / 2) (omega (arith, h)) (omega (arith, l))

power_below : (k n : ℕ) → k < n → power k < power n
unfolding power
power_below k zero h = absurd (omega arith)
power_below zero (suc n) h = omega (arith, power_pos n)
  where
    power_pos : (n : ℕ) → 0 < power n
    power_pos zero = omega arith
    power_pos (suc n) = omega (arith, power_pos n)
power_below (suc k) (suc n) h = omega (arith, power_below k n (omega (arith, h)))

pub digit-pow : (m k : ℕ) → digit m (2 ^ k) ≡ (if m == k then 1 else 0)
digit-pow m k = ap (digit m) (power-pow k) ∙ digit-power m k

pub digit_mask :
    (m k : ℕ) → m < 64 → k < 64 → digit m (2 ^ 64 - 1 - 2 ^ k) ≡ (if m == k then 0 else 1)
digit_mask m k h l =
    ap (digit m) (omega (arith, power-pow 64, power-pow k))
    ∙ flipped 64 m (power k) (power_below k 64 l) h
    ∙ ground (arith, digit-power m k)
