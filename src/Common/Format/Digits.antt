-- ===== src/Common/Format/Digits.antt =====
-- The digits that src/common/format.c prints are those of the number.
use native.Mathlib.Nat.{div-add-mod'}
use mathlib.Core.List.{reverse, reverse-cons}
use fdu2024_os_honor_lab.Prelude.{
  ℕ, zero, suc, ◌+◌, ◌-◌, ◌*◌, ◌/◌, ◌%◌, ◌^◌, ◌≡◌, ◌≤◌, ◌<◌, ◌∙◌, ap, refl, Bool, ◌&&◌, some, List,
  [], ◌∷◌, ◌++◌, ◌==◌, if◌then◌else◌, ltb, arith, length, Bool-cases, inl, inr,
}
use fdu2024_os_honor_lab.Common.Format.{digit, fill_buf, print_int, is_negative}

-- The value of a character, and of a text of digits.
abbrev pub digit_value : ℕ → ℕ
digit_value c = if ltb c 58 then c - 48 else c - 87

unfoldable pub value : ℕ → ℕ → List ℕ → ℕ
value base n [] = n
value base n (c ∷ cs) = value base (n * base + digit_value c) cs

-- The same, the last digit first.
unfoldable pub value_back : ℕ → List ℕ → ℕ
value_back base [] = 0
value_back base (c ∷ cs) = digit_value c + value_back base cs * base

value-snoc :
    (base n : ℕ) (cs : List ℕ) (c : ℕ)
    → value base n (cs ++ (c ∷ [])) ≡ value base n cs * base + digit_value c
unfolding value
value-snoc base n [] c = refl
value-snoc base n (d ∷ cs) c = value-snoc base (n * base + digit_value d) cs c

value-reverse : (base : ℕ) (cs : List ℕ) → value base 0 (reverse cs) ≡ value_back base cs
unfolding value value_back
value-reverse base [] = refl
value-reverse base (c ∷ cs) =
    rw (reverse-cons c cs, value-snoc base 0 (reverse cs) c, value-reverse base cs) (omega arith)

digit_back : (d : ℕ) → digit_value (digit d) ≡ d
digit_back d = ground arith

-- One round less is enough for the quotient.
halves : (v b f : ℕ) → v < 2 ^ suc f → v / (b + 2) < 2 ^ f
halves v b f l = omega (arith, div-add-mod' v (b + 2), l)

few : (v b : ℕ) → v < 2 → v / (b + 2) ≡ 0
few v b l = ground (arith, div-add-mod' v (b + 2), l)

-- The digits of `v`, the last one first.
pub record Digits (f v base : ℕ) : Type 0 where
  pub digits : List ℕ
  pub filled : fill_buf f v base ≡ some digits
  pub fits : length digits ≤ f
  pub some_digit : 0 < length digits
  pub reads : value_back base digits ≡ v

fill_buf-Digits : (f v b : ℕ) → v < 2 ^ f → 0 < f → Digits f v (b + 2)
unfolding fill_buf value_back
fill_buf-Digits zero v b l p = absurd (omega arith)
fill_buf-Digits (suc f) v b l p = elim (Bool-cases (v / (b + 2) == 0)) [
  | inl e ↦ record {
    digits = digit (v % (b + 2)) ∷ [];
    filled = rw (e, fill_buf) refl;
    fits = omega arith;
    some_digit = omega arith;
    reads =
        let z : v / (b + 2) ≡ 0 = ground arith in
        let w = rw z at (div-add-mod' v (b + 2)) in
        rw (digit_back (v % (b + 2))) (omega (arith, w));
  }
  | inr e ↦
      let k = fill_buf-Digits f (v / (b + 2)) b (halves v b f l) (ground (arith, few v b)) in
      record {
        digits = digit (v % (b + 2)) ∷ k.digits;
        filled = rw (e, k.filled, fill_buf) refl;
        fits = omega (arith, k.fits);
        some_digit = omega arith;
        reads = rw (digit_back (v % (b + 2)), k.reads) (omega (arith, div-add-mod' v (b + 2)));
      }
]

length_snoc : (ps : List ℕ) (p : ℕ) → length (ps ++ (p ∷ [])) ≡ suc (length ps)
length_snoc [] p = refl
length_snoc (q ∷ ps) p = ap suc (length_snoc ps p)

length_reversed : (ps : List ℕ) → length (reverse ps) ≡ length ps
length_reversed [] = refl
length_reversed (p ∷ ps) =
    rw (reverse-cons p ps, length_snoc (reverse ps) p, length_reversed ps) refl

-- _print_int of 64 bits in a base from 2 to 16 stays within its 64 places. It prints at least one digit,
-- and the digits read back as the number; a negative number, where the sign counts, has a minus sign and
-- the digits of its absolute value.
pub print_int_lem :
    (u base : ℕ) (is_signed : Bool)
    → u < 2 ^ 64
    → 2 ≤ base
    → base ≤ 16
    → (ds : List ℕ) × (print_int u base is_signed
        ≡ some (if is_signed && is_negative u then 45 ∷ ds else ds))
      × (value base 0 ds ≡ (if is_signed && is_negative u then 2 ^ 64 - u else u))
      × (0 < length ds)
      × (length ds ≤ 64)
unfolding print_int
print_int_lem u base is_signed l b c = elim (Bool-cases (is_signed && is_negative u)) [
  | inl e ↦
      let m : 2 ^ 63 ≤ u = ground arith in
      let w : (2 ^ 64 - u) % 2 ^ 64 ≡ 2 ^ 64 - u = omega arith in
      let k = printed (2 ^ 64 - u) (omega arith) in
      (
        reverse k.digits,
        rw (e, w, k.filled, print_int) refl,
        rw e (value-reverse base k.digits ∙ k.reads),
        omega (arith, k.some_digit, length_reversed k.digits),
        omega (arith, k.fits, length_reversed k.digits),
      )
  | inr e ↦
      let k = printed u l in
      (
        reverse k.digits,
        rw (e, k.filled, print_int) refl,
        rw e (value-reverse base k.digits ∙ k.reads),
        omega (arith, k.some_digit, length_reversed k.digits),
        omega (arith, k.fits, length_reversed k.digits),
      )
]
  where
    base_eq : base - 2 + 2 ≡ base
    base_eq = omega arith

    printed : (v : ℕ) → v < 2 ^ 64 → Digits 64 v base
    printed v h = rw base_eq at (fill_buf-Digits 64 v (base - 2) h (omega arith))
