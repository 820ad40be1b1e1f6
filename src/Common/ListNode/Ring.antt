-- ===== src/Common/ListNode/Ring.antt =====
-- Nodes that stand in a circle (src/common/list.c).
use fdu2024_os_honor_lab.Prelude.{
  ℕ, ◌≡◌, ◌≢◌, ◌∙◌, ap, Bool, true, false, ◌||◌, List, [], ◌∷◌, ◌++◌, ◌==◌, arith,
}
use fdu2024_os_honor_lab.Common.ListNode.{ListNodes}

abbrev pub is_in : ℕ → List ℕ → Bool
is_in x [] = false
is_in x (y ∷ ys) = x == y || is_in x ys

abbrev pub AreApart : List ℕ → Type 0
AreApart [] = Unit
AreApart (x ∷ xs) = (is_in x xs ≡ false) × AreApart xs

-- From `a` through `xs` the pointers lead to `b`, and back.
abbrev pub Chain : ListNodes → ℕ → List ℕ → ℕ → Type 0
Chain s a [] b = (s.next a ≡ b) × (s.prev b ≡ a)
Chain s a (x ∷ xs) b = (s.next a ≡ x) × (s.prev x ≡ a) × Chain s x xs b

abbrev pub last : ℕ → List ℕ → ℕ
last a [] = a
last a (x ∷ xs) = last x xs

pub Chain-ends :
    (s : ListNodes) (a : ℕ) (xs : List ℕ) (b : ℕ)
    → Chain s a xs b
    → (s.next (last a xs) ≡ b) × (s.prev b ≡ last a xs)
Chain-ends s a [] b c = c
Chain-ends s a (x ∷ xs) b c = Chain-ends s x xs b c.2

-- A chain keeps its nodes and gets another end, where only the link of its last node changes.
pub Chain-retarget :
    (s t : ListNodes) (a : ℕ) (xs : List ℕ) (b c : ℕ)
    → Chain s a xs b
    → AreApart (a ∷ xs)
    → ((y : ℕ) → is_in y (a ∷ xs) ≡ true → y ≢ last a xs → t.next y ≡ s.next y)
    → ((y : ℕ) → is_in y xs ≡ true → t.prev y ≡ s.prev y)
    → t.next (last a xs) ≡ c
    → t.prev c ≡ last a xs
    → Chain t a xs c
Chain-retarget s t a [] b c h apart same_next same_prev to_c back = (to_c, back)
Chain-retarget s t a (x ∷ xs) b c h apart same_next same_prev to_c back = (
  same_next a (ground arith) (λ p. not_last a x xs apart.0 p) ∙ h.0,
  same_prev x (ground arith) ∙ h.1,
  Chain-retarget s t x xs b c h.2 apart.1 (λ y i ne. same_next y (ground (arith, i)) ne)
      (λ y i. same_prev y (ground (arith, i))) to_c back,
)
  where
    last_in : (x : ℕ) (xs : List ℕ) → is_in (last x xs) (x ∷ xs) ≡ true
    last_in x [] = ground arith
    last_in x (y ∷ ys) = ground (arith, last_in y ys)

    not_last : (a x : ℕ) (xs : List ℕ) → is_in a (x ∷ xs) ≡ false → a ≢ last x xs
    not_last a x xs out p =
        let i = last_in x xs in ground (arith, out, i, ap (λ z. is_in z (x ∷ xs)) p)

pub Chain-append :
    (s : ListNodes) (a : ℕ) (xs : List ℕ) (c b : ℕ)
    → Chain s a xs c
    → s.next c ≡ b
    → s.prev b ≡ c
    → Chain s a (xs ++ (c ∷ [])) b
Chain-append s a [] c b h p q = (h.0, h.1, (p, q))
Chain-append s a (x ∷ xs) c b h p q = (h.0, h.1, Chain-append s x xs c b h.2 p q)
