-- ===== src/Fs/Bitmap/Laws.antt =====
-- A bitmap (src/common/bitmap.h) is a set of indices: bitmap_set adds one and bitmap_clear takes one away.
use Prim.Native.Nat.{bit_and, bit_or}
use fdu2024_os_honor_lab.Prelude.{
  ℕ, ◌-◌, ◌/◌, ◌%◌, ◌^◌, ◌≡◌, ◌≤◌, ◌<◌, ◌∙◌, true, not, ◌&&◌, ◌||◌, false, ltb, zero, suc, refl,
  List, [], ◌∷◌, ◌==◌, if◌then◌else◌, get_or, set, length, length-set, get_or-set_self,
  get_or-set_ne, sym, ap, inl, inr, arith, Bool-cases,
}
use fdu2024_os_honor_lab.Fs.Bitmap.{get, mark, clear}
use fdu2024_os_honor_lab.Fs.Bitmap.Bits.{
  digit, digit_lem, digit-bit_or, digit-bit_and, digit-pow, digit_mask,
}

digit_small : (m w : ℕ) → digit m w < 2
digit_small m w = omega (arith, digit_lem m w)

get-digit : (cells : List ℕ) (i : ℕ) → get cells i ≡ (digit (i % 64) (get_or cells (i / 64) 0) == 1)
unfolding get
get-digit cells i = ap (λ d. d == 1) (digit_lem (i % 64) (get_or cells (i / 64) 0))

-- A bitmap whose cell of `i` is replaced
get-set :
    (cells : List ℕ) (i j v : ℕ)
    → i / 64 < length cells
    → get (set cells (i / 64) v) j
      ≡ (if (i / 64) == (j / 64) then digit (j % 64) v == 1 else get cells j)
get-set cells i j v h = elim (Bool-cases ((i / 64) == (j / 64))) [
  | inl e ↦
      let p : i / 64 ≡ j / 64 = ground (arith, e) in
      let q : get_or (set cells (i / 64) v) (j / 64) 0 ≡ v =
        rw (← p) (get_or-set_self cells (i / 64) v 0 h) in
      rw e (get-digit (set cells (i / 64) v) j ∙ ap (λ w. digit (j % 64) w == 1) q)
  | inr e ↦
      let q : get_or (set cells (i / 64) v) (j / 64) 0 ≡ get_or cells (j / 64) 0 =
        get_or-set_ne cells v 0 (ground (arith, e)) in
      rw e (
        get-digit (set cells (i / 64) v) j
        ∙ ap (λ w. digit (j % 64) w == 1) q
        ∙ sym (get-digit cells j))
]

same_cell :
    (cells : List ℕ) (i j : ℕ)
    → (i / 64) == (j / 64) ≡ true
    → get_or cells (j / 64) 0 ≡ get_or cells (i / 64) 0
same_cell cells i j e = let p : j / 64 ≡ i / 64 = ground (arith, e) in ap (λ k. get_or cells k 0) p

pub get-mark :
    (cells : List ℕ) (i j : ℕ)
    → i / 64 < length cells
    → get (mark cells i) j ≡ (i == j || get cells j)
unfolding mark
get-mark cells i j h =
    let w = get_or cells (i / 64) 0 in
    let d = digit-bit_or (j % 64) w (2 ^ (i % 64)) in
    let b = digit-pow (j % 64) (i % 64) in
    get-set cells i j (bit_or w (2 ^ (i % 64))) h ∙ elim (Bool-cases ((i / 64) == (j / 64))) [
      | inl e ↦
          let g : get cells j ≡ (digit (j % 64) w == 1) =
            get-digit cells j ∙ ap (λ x. digit (j % 64) x == 1) (same_cell cells i j e) in
          ground (arith, d, b, g, e, digit_small (j % 64) w)
      | inr e ↦ ground (arith, e)
    ]

pub get-clear :
    (cells : List ℕ) (i j : ℕ)
    → i / 64 < length cells
    → get (clear cells i) j ≡ (not (i == j) && get cells j)
unfolding clear
get-clear cells i j h =
    let w = get_or cells (i / 64) 0 in
    let d = digit-bit_and (j % 64) w (2 ^ 64 - 1 - 2 ^ (i % 64)) in
    let b = digit_mask (j % 64) (i % 64) (omega arith) (omega arith) in
    get-set cells i j (bit_and w (2 ^ 64 - 1 - 2 ^ (i % 64))) h
    ∙ elim (Bool-cases ((i / 64) == (j / 64))) [
      | inl e ↦
          let g : get cells j ≡ (digit (j % 64) w == 1) =
            get-digit cells j ∙ ap (λ x. digit (j % 64) x == 1) (same_cell cells i j e) in
          ground (arith, d, b, g, e, digit_small (j % 64) w)
      | inr e ↦ ground (arith, e)
    ]

pub length-mark : (cells : List ℕ) (i : ℕ) → length (mark cells i) ≡ length cells
unfolding mark
length-mark cells i = length-set cells (i / 64) (bit_or (get_or cells (i / 64) 0) (2 ^ (i % 64)))

pub length-clear : (cells : List ℕ) (i : ℕ) → length (clear cells i) ≡ length cells
unfolding clear
length-clear cells i =
    length-set cells (i / 64) (bit_and (get_or cells (i / 64) 0) (2 ^ 64 - 1 - 2 ^ (i % 64)))

-- Only what has a place in the cells is set.
pub get-bound : (cells : List ℕ) (i : ℕ) → get cells i ≡ true → i / 64 < length cells
unfolding get
get-bound cells i h = elim (Bool-cases (ltb (i / 64) (length cells))) [
  | inl y ↦ ground (arith, y)
  | inr y ↦ absurd (not_set (get_or-outside cells (i / 64) (ground (arith, y))) h)
]
  where
    get_or-outside : (xs : List ℕ) (k : ℕ) → length xs ≤ k → get_or xs k 0 ≡ 0
    get_or-outside [] k l = refl
    get_or-outside (x ∷ xs) zero l = absurd (omega (arith, l))
    get_or-outside (x ∷ xs) (suc k) l = get_or-outside xs k (omega (arith, l))

    none_of_zero : (m : ℕ) → (0 / m % 2 == 1) ≡ false
    none_of_zero m = ground arith

    not_set : {c : ℕ} → c ≡ 0 → (c / 2 ^ (i % 64) % 2 == 1) ≡ true → ⊥
    not_set {c} z e =
        let q : (c / 2 ^ (i % 64) % 2 == 1) ≡ false = rw z (none_of_zero (2 ^ (i % 64))) in cc
