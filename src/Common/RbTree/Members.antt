-- ===== src/Common/RbTree/Members.antt =====
-- Members of lists of keys, for the order of red-black trees (src/common/rbtree.c).
use fdu2024_os_honor_lab.Prelude.{
  ℕ, ◌≡◌, ◌⊎◌, refl, Bool, true, false, List, [], ◌∷◌, ◌++◌, inl, inr,
}

-- What the callers' comparison must be.
pub record IsStrict (cmp : ℕ → ℕ → Bool) : Type 0 where
  pub irrefl : (a : ℕ) → cmp a a ≡ false
  pub trans : (a b c : ℕ) → cmp a b ≡ true → cmp b c ≡ true → cmp a c ≡ true

abbrev pub AllAre : (ℕ → Bool) → List ℕ → Type 0
AllAre f [] = Unit
AllAre f (x ∷ xs) = (f x ≡ true) × AllAre f xs

abbrev pub IsIn : ℕ → List ℕ → Type 0
IsIn k [] = ⊥
IsIn k (x ∷ xs) = (k ≡ x) ⊎ IsIn k xs

pub AllAre-append :
    (f : ℕ → Bool) (xs ys : List ℕ) → AllAre f xs → AllAre f ys → AllAre f (xs ++ ys)
AllAre-append f [] ys a b = b
AllAre-append f (x ∷ xs) ys a b = (a.0, AllAre-append f xs ys a.1 b)

pub AllAre-left : (f : ℕ → Bool) (xs ys : List ℕ) → AllAre f (xs ++ ys) → AllAre f xs
AllAre-left f [] ys a = tt
AllAre-left f (x ∷ xs) ys a = (a.0, AllAre-left f xs ys a.1)

pub AllAre-right : (f : ℕ → Bool) (xs ys : List ℕ) → AllAre f (xs ++ ys) → AllAre f ys
AllAre-right f [] ys a = a
AllAre-right f (x ∷ xs) ys a = AllAre-right f xs ys a.1

pub AllAre-imp :
    (f g : ℕ → Bool) (xs : List ℕ) → ((x : ℕ) → f x ≡ true → g x ≡ true) → AllAre f xs → AllAre g xs
AllAre-imp f g [] i a = tt
AllAre-imp f g (x ∷ xs) i a = (i x a.0, AllAre-imp f g xs i a.1)

pub AllAre-IsIn : (f : ℕ → Bool) (xs : List ℕ) (k : ℕ) → AllAre f xs → IsIn k xs → f k ≡ true
AllAre-IsIn f [] k a i = absurd i
AllAre-IsIn f (x ∷ xs) k a (inl e) = rw e a.0
AllAre-IsIn f (x ∷ xs) k a (inr i) = AllAre-IsIn f xs k a.1 i

pub IsIn-append : (k : ℕ) (xs ys : List ℕ) → IsIn k (xs ++ ys) → IsIn k xs ⊎ IsIn k ys
IsIn-append k [] ys i = inr i
IsIn-append k (x ∷ xs) ys (inl e) = inl (inl e)
IsIn-append k (x ∷ xs) ys (inr i) = elim (IsIn-append k xs ys i) [
  | inl a ↦ inl (inr a)
  | inr b ↦ inr b
]

pub IsIn-left : (k : ℕ) (xs ys : List ℕ) → IsIn k xs → IsIn k (xs ++ ys)
IsIn-left k [] ys i = absurd i
IsIn-left k (x ∷ xs) ys (inl e) = inl e
IsIn-left k (x ∷ xs) ys (inr i) = inr (IsIn-left k xs ys i)

pub IsIn-right : (k : ℕ) (xs ys : List ℕ) → IsIn k ys → IsIn k (xs ++ ys)
IsIn-right k [] ys i = i
IsIn-right k (x ∷ xs) ys i = inr (IsIn-right k xs ys i)

pub IsIn-middle : (k : ℕ) (xs ys : List ℕ) → IsIn k (xs ++ (k ∷ ys))
IsIn-middle k [] ys = inl refl
IsIn-middle k (x ∷ xs) ys = inr (IsIn-middle k xs ys)
