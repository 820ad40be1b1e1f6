-- ===== src/Shell/Shorter.antt =====
-- Reading a token leaves a shorter rest (src/user/sh/main.c).
use fdu2024_os_honor_lab.Prelude.{
  ℕ, ◌≡◌, ◌≤◌, ◌<◌, refl, Bool, true, false, List, [], ◌∷◌, ◌==◌, if◌then◌else◌, length, arith,
}
use fdu2024_os_honor_lab.Shell.{
  Parsed, ok, exits, out_of_fuel, ◌>>=◌, skip, drop_word, token, gettoken, looks, peek,
}

-- The outcome is an error, or a value of which `P` holds with at most `n` characters left.
abbrev pub Fine : {A : Type 0} → (A → Type 0) → ℕ → Parsed (A × List ℕ) → Type 0
Fine P n (ok (a, s)) = P a × (length s ≤ n)
Fine P n exits = Unit
Fine P n out_of_fuel = ⊥

pub Fine-bind :
    {A B : Type 0} (P : A → Type 0) (Q : B → Type 0) (n m : ℕ) (r : Parsed (A × List ℕ))
    (f : A × List ℕ → Parsed (B × List ℕ))
    → Fine P n r
    → ((a : A) (s : List ℕ) → P a → length s ≤ n → Fine Q m (f (a, s)))
    → Fine Q m (r >>= f)
Fine-bind P Q n m (ok (a, s)) f h k = k a s h.0 h.1
Fine-bind P Q n m exits f h k = tt
Fine-bind P Q n m out_of_fuel f h k = elim h [ ]

pub Fine-if :
    {A : Type 0} (P : A → Type 0) (n : ℕ) (b : Bool) (x y : Parsed (A × List ℕ))
    → (b ≡ true → Fine P n x)
    → (b ≡ false → Fine P n y)
    → Fine P n (if b then x else y)
Fine-if P n true x y h k = h refl
Fine-if P n false x y h k = k refl

pub Fine-le :
    {A : Type 0} (P : A → Type 0) (n m : ℕ) (r : Parsed (A × List ℕ))
    → n ≤ m
    → Fine P n r
    → Fine P m r
Fine-le P n m (ok (a, s)) le h = (h.0, omega (arith, le, h.1))
Fine-le P n m exits le h = tt
Fine-le P n m out_of_fuel le h = elim h [ ]

pub length-skip : (ts : List ℕ) → length (skip ts) ≤ length ts
unfolding skip
length-skip [] = omega arith
length-skip (c ∷ cs) = ground (arith, length-skip cs)

length-drop_word : (ts : List ℕ) → length (drop_word ts) ≤ length ts
unfolding drop_word
length-drop_word [] = omega arith
length-drop_word (c ∷ cs) = ground (arith, length-drop_word cs)

token_shorter : (c : ℕ) (cs : List ℕ) → length (token (c ∷ cs)).rest ≤ length cs
unfolding token skip drop_word
token_shorter c [] = ground arith
token_shorter c (d ∷ ds) = ground (
  arith,
  length-skip ds,
  length-skip (drop_word ds),
  length-drop_word ds,
  length-skip (d ∷ ds),
  length-skip (drop_word (d ∷ ds)),
  length-drop_word (d ∷ ds),
)

token_le : (ts : List ℕ) → length (token ts).rest ≤ length ts
unfolding token
token_le [] = omega arith
token_le (c ∷ cs) = omega (arith, token_shorter c cs)

pub gettoken_le : (ts : List ℕ) → length (gettoken ts).rest ≤ length ts
gettoken_le ts = omega (arith, token_le (skip ts), length-skip ts)

looks_shorter : (toks ts : List ℕ) → looks toks ts ≡ true → length (token ts).rest < length ts
unfolding looks
looks_shorter toks [] p = ground (arith, p)
looks_shorter toks (c ∷ cs) p = omega (arith, token_shorter c cs)

-- What gettoken takes after a peek that found one of its characters
pub peek_shorter : (toks ts : List ℕ) → peek toks ts ≡ true → length (gettoken ts).rest < length ts
peek_shorter toks ts p = omega (arith, looks_shorter toks (skip ts) p, length-skip ts)

ret_shorter : (ts : List ℕ) → (token ts).ret == 0 ≡ false → length (token ts).rest < length ts
unfolding token
ret_shorter [] p = ground (arith, p)
ret_shorter (c ∷ cs) p = omega (arith, token_shorter c cs)

pub gettoken_shorter :
    (ts : List ℕ) → (gettoken ts).ret == 0 ≡ false → length (gettoken ts).rest < length ts
gettoken_shorter ts p = omega (arith, ret_shorter (skip ts) p, length-skip ts)
