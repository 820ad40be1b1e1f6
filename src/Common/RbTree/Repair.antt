-- ===== src/Common/RbTree/Repair.antt =====
-- Restoring the balance after a node was taken out (__rb_erase_color of src/common/rbtree.c).
use mathlib.Core.Path.{subst}
use mathlib.Core.List.{append_assoc, append-nil}
use fdu2024_os_honor_lab.Prelude.{
  ℕ, ◌+◌, ◌≡◌, refl, sym, ap, arith, true, false, List, ◌∷◌, ◌++◌, some, Bool-cases, inl, inr,
}
use fdu2024_os_honor_lab.Common.RbTree.{
  Color, red, black, Tree, leaf, node, Spine, root, left_of, right_of, plug, is_red,
}
use fdu2024_os_honor_lab.Common.RbTree.Erase.{
  Fixed, stops, continues, near_left, near_right, recolor, balance_left, balance_right, stop_at,
  red_left, red_right, erase_fix,
}
use fdu2024_os_honor_lab.Common.RbTree.Balance.{
  weight, is_red_color, height, IsBalanced, under_black, IsAround, blacken-IsBalanced,
  blacken_black, height-blacken, is_red-blacken, inorder, before, after, inorder-blacken,
}
use fdu2024_os_honor_lab.Common.RbTree.Insert.{Repaired, plug-Repaired, Repaired-nodes}

-- What a round must come to, below a parent of color `pc`: the height is right again, or still one short.
abbrev IsFixed : Color → ℕ → List ℕ → Fixed → Type 0
IsFixed pc h xs (stops u) =
    IsBalanced u
    × (height u ≡ weight pc + (1 + h))
    × (is_red u ≡ true → is_red_color pc ≡ true)
    × (inorder u ≡ xs)
IsFixed pc h xs (continues u) =
    (is_red_color pc ≡ false)
    × IsBalanced u
    × (height u ≡ 1 + h)
    × (is_red u ≡ false)
    × (inorder u ≡ xs)

near_left-IsFixed :
    (t : Tree) (pc : Color) (pk : ℕ) (sl : Tree) (sk : ℕ) (sr : Tree)
    → IsBalanced t
    → IsBalanced (node black sl sk sr)
    → height sl ≡ height t
    → is_red sl ≡ true
    → is_red sr ≡ false
    → IsFixed pc
        (height t)
        (inorder t ++ (pk ∷ (inorder sl ++ (sk ∷ inorder sr))))
        (stops (near_left t pc pk sl sk sr))
unfolding inorder
near_left-IsFixed t pc pk leaf sk sr bt b e x y = absurd cc
near_left-IsFixed t pc pk (node c l k r) sk sr bt b e x y = (
  ground (arith, bt, b, e, x, y, blacken_black r),
  ground (arith, e),
  ground arith,
  simp (append_assoc, inorder-blacken r),
)

near_right-IsFixed :
    (t : Tree) (pc : Color) (pk : ℕ) (sr : Tree) (sk : ℕ) (sl : Tree)
    → IsBalanced t
    → IsBalanced (node black sl sk sr)
    → height sl ≡ height t
    → is_red sr ≡ true
    → is_red sl ≡ false
    → IsFixed pc
        (height t)
        ((inorder sl ++ (sk ∷ inorder sr)) ++ (pk ∷ inorder t))
        (stops (near_right t pc pk sr sk sl))
unfolding inorder
near_right-IsFixed t pc pk leaf sk sl bt b e x y = absurd cc
near_right-IsFixed t pc pk (node c l k r) sk sl bt b e x y = (
  ground (arith, bt, b, e, x, y, blacken_black l),
  ground (arith, e),
  ground arith,
  simp (append_assoc, inorder-blacken l),
)

recolor-IsFixed :
    (pc : Color) (h : ℕ) (xs : List ℕ) (f : Color → Tree)
    → IsBalanced (f black)
    → height (f black) ≡ 1 + h
    → is_red (f black) ≡ false
    → inorder (f black) ≡ xs
    → IsFixed pc h xs (recolor pc f)
recolor-IsFixed red h xs f b e r i = (b, omega (arith, e), λ _. refl, i)
recolor-IsFixed black h xs f b e r i = (refl, b, e, r, i)

module _ (t : Tree) (pc : Color) (pk : ℕ) (sl : Tree) (sk : ℕ) (sr : Tree) (bt : IsBalanced t)
    (b : IsBalanced (node black sl sk sr)) (e : height sl ≡ height t) where
  balance_left-IsFixed :
      IsFixed pc
        (height t)
        (inorder t ++ (pk ∷ (inorder sl ++ (sk ∷ inorder sr))))
        (balance_left t pc pk sl sk sr)
  unfolding balance_left inorder
  balance_left-IsFixed = elim (Bool-cases (is_red sr)) [
    | inl x ↦ rw x (
      ground (arith, bt, b, e, height-blacken sr, is_red-blacken sr, blacken-IsBalanced sr),
      ground (arith, e),
      ground arith,
      simp (append_assoc, inorder-blacken sr),
    )
    | inr x ↦ rw x (elim (Bool-cases (is_red sl)) [
      | inl y ↦ rw y (near_left-IsFixed t pc pk sl sk sr bt b e y x)
      | inr y ↦ rw y (
          recolor-IsFixed pc (height t) (inorder t ++ (pk ∷ (inorder sl ++ (sk ∷ inorder sr))))
            (λ c. node c t pk (node red sl sk sr)) (ground (arith, bt, b, e, x, y)) refl refl refl)
    ])
  ]

  balance_right-IsFixed :
      IsFixed pc
        (height t)
        ((inorder sl ++ (sk ∷ inorder sr)) ++ (pk ∷ inorder t))
        (balance_right t pc pk sl sk sr)
  unfolding balance_right inorder
  balance_right-IsFixed = elim (Bool-cases (is_red sl)) [
    | inl x ↦ rw x (
      ground (arith, bt, b, e, height-blacken sl, is_red-blacken sl, blacken-IsBalanced sl),
      ground (arith, b, e, height-blacken sl),
      ground arith,
      simp (append_assoc, inorder-blacken sl),
    )
    | inr x ↦ rw x (elim (Bool-cases (is_red sr)) [
      | inl y ↦ rw y (near_right-IsFixed t pc pk sr sk sl bt b e y x)
      | inr y ↦ rw y (
          recolor-IsFixed pc (height t) ((inorder sl ++ (sk ∷ inorder sr)) ++ (pk ∷ inorder t))
            (λ c. node c (node red sl sk sr) pk t) (ground (arith, bt, b, e, x, y))
            (omega (arith, e)) refl (simp append_assoc))
    ])
  ]

pub around : {m n : ℕ} (p : Spine) → m ≡ n → IsAround m p → IsAround n p
around p e a = subst (λ h. IsAround h p) e a

-- A round that stops, below a red parent or at the end.
stop_at-Repaired :
    (f : Fixed) (h : ℕ) (xs : List ℕ) (p : Spine)
    → IsFixed red h xs f
    → under_black p ≡ true
    → IsAround (1 + h) p
    → Repaired (stop_at f p) (before p ++ (xs ++ after p))
stop_at-Repaired (stops u) h xs p g b a =
    plug-Repaired u p (1 + h) xs g.0 (omega (arith, g.1)) (λ _. b) a g.3
stop_at-Repaired (continues u) h xs p g b a = absurd cc

-- A red sibling: its children are black, and so is the parent.
red_left-Repaired :
    (t : Tree) (pc : Color) (pk : ℕ) (sl : Tree) (sk : ℕ) (sr : Tree) (p : Spine)
    → IsBalanced t
    → IsAround (1 + height t) (left_of pc pk (node red sl sk sr) p)
    → Repaired
        (red_left t pc pk sl sk sr p)
        (before p ++ (inorder (node pc t pk (node red sl sk sr)) ++ after p))
unfolding inorder before after
red_left-Repaired t red pk sl sk sr p bt a = absurd (ground (arith, a.2))
red_left-Repaired t black pk leaf sk sr p bt a = absurd (omega (arith, a.0))
red_left-Repaired t black pk (node red l b r) sk sr p bt a = absurd (ground (arith, a.1))
red_left-Repaired t black pk (node black l b r) sk sr p bt a = Repaired-nodes (simp append_assoc) (
    stop_at-Repaired (balance_left t red pk l b r) (height t)
      (inorder t ++ (pk ∷ (inorder l ++ (b ∷ inorder r)))) (left_of black sk sr p)
      (balance_left-IsFixed t red pk l b r bt a.1.2 (omega (arith, a.0))) refl
      (omega (arith, a.0, a.1.0), a.1.3, (λ e. cc), a.3))

red_right-Repaired :
    (t : Tree) (pc : Color) (pk : ℕ) (sl : Tree) (sk : ℕ) (sr : Tree) (p : Spine)
    → IsBalanced t
    → IsAround (1 + height t) (right_of pc (node red sl sk sr) pk p)
    → Repaired
        (red_right t pc pk sl sk sr p)
        (before p ++ (inorder (node pc (node red sl sk sr) pk t) ++ after p))
unfolding inorder before after
red_right-Repaired t red pk sl sk sr p bt a = absurd (ground (arith, a.2))
red_right-Repaired t black pk sl sk leaf p bt a = absurd (omega (arith, a.0, a.1.0))
red_right-Repaired t black pk sl sk (node red l b r) p bt a = absurd (ground (arith, a.1))
red_right-Repaired t black pk sl sk (node black l b r) p bt a = Repaired-nodes (simp append_assoc) (
    stop_at-Repaired (balance_right t red pk l b r) (height t)
      ((inorder l ++ (b ∷ inorder r)) ++ (pk ∷ inorder t)) (right_of black sl sk p)
      (balance_right-IsFixed t red pk l b r bt a.1.3 (omega (arith, a.0, a.1.0))) refl
      (omega (arith, a.0), a.1.2, (λ e. cc), a.3))

-- A round below a black sibling, and the rounds after it.
rounds-Repaired :
    (f : Fixed) (pc : Color) (h : ℕ) (xs : List ℕ) (p : Spine)
    → IsFixed pc h xs f
    → (is_red_color pc ≡ true → under_black p ≡ true)
    → IsAround (weight pc + (1 + h)) p
    → ((u : Tree)
        → IsBalanced u
        → is_red u ≡ false
        → IsAround (1 + height u) p
        → Repaired (erase_fix u p) (before p ++ (inorder u ++ after p)))
    → Repaired
        (elim f [ stops u ↦ some (plug u p) | continues u ↦ erase_fix u p ])
        (before p ++ (xs ++ after p))
rounds-Repaired (stops u) pc h xs p g b a up =
    plug-Repaired u p (weight pc + (1 + h)) xs g.0 g.1 (λ e. b (g.2 e)) a g.3
rounds-Repaired (continues u) pc h xs p g b a up =
    Repaired-nodes (ap (λ ys. before p ++ (ys ++ after p)) g.4)
      (up u g.1 g.3 (around p (ground (arith, g)) a))

pub erase_fix-Repaired :
    (t : Tree) (p : Spine)
    → IsBalanced t
    → is_red t ≡ false
    → IsAround (1 + height t) p
    → Repaired (erase_fix t p) (before p ++ (inorder t ++ after p))
unfolding erase_fix inorder before after
erase_fix-Repaired t root b r a = record {
  tree = t;
  found = refl;
  valid = record { balanced = b; root_black = r };
  nodes = sym (append-nil (inorder t));
}
erase_fix-Repaired t (left_of pc pk leaf p) b r a = absurd (omega (arith, a.0))
erase_fix-Repaired t (right_of pc leaf pk p) b r a = absurd (omega (arith, a.0))
erase_fix-Repaired t (left_of pc pk (node red sl sk sr) p) b r a =
    Repaired-nodes (simp append_assoc) (red_left-Repaired t pc pk sl sk sr p b a)
erase_fix-Repaired t (right_of pc (node red sl sk sr) pk p) b r a =
    Repaired-nodes (simp append_assoc) (red_right-Repaired t pc pk sl sk sr p b a)
erase_fix-Repaired t (left_of pc pk (node black sl sk sr) p) b r a =
    Repaired-nodes (simp append_assoc) (
      rounds-Repaired (balance_left t pc pk sl sk sr) pc (height t)
        (inorder t ++ (pk ∷ (inorder sl ++ (sk ∷ inorder sr)))) p
        (balance_left-IsFixed t pc pk sl sk sr b a.1 (omega (arith, a.0))) (λ e. (a.2 e).1) a.3
        (λ u. erase_fix-Repaired u p))
erase_fix-Repaired t (right_of pc (node black sl sk sr) pk p) b r a =
    Repaired-nodes (simp append_assoc) (
      rounds-Repaired (balance_right t pc pk sl sk sr) pc (height t)
        ((inorder sl ++ (sk ∷ inorder sr)) ++ (pk ∷ inorder t)) p
        (balance_right-IsFixed t pc pk sl sk sr b a.1 (omega (arith, a.0))) (λ e. (a.2 e).1) a.3
        (λ u. erase_fix-Repaired u p))
