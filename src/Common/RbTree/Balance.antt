-- ===== src/Common/RbTree/Balance.antt =====
-- What makes a tree of src/common/rbtree.c balanced: no red node has a red child, and every path down
-- from a node has as many black nodes.
use fdu2024_os_honor_lab.Prelude.{
  ℕ, ◌+◌, ◌≡◌, refl, sym, arith, Bool, true, false, ◌&&◌, ◌||◌, List, [], ◌∷◌, ◌++◌,
}
use mathlib.Core.List.{append_assoc, append-nil}
use fdu2024_os_honor_lab.Common.RbTree.{
  Color, red, black, Tree, leaf, node, Spine, root, left_of, right_of, plug, is_red, blacken,
}

abbrev pub weight : Color → ℕ
weight red = 0
weight black = 1

abbrev pub is_red_color : Color → Bool
is_red_color red = true
is_red_color black = false

-- The black nodes on the way down to the left.
abbrev pub height : Tree → ℕ
height leaf = 0
height (node c l k r) = weight c + height l

abbrev pub IsBalanced : Tree → Type 0
IsBalanced leaf = Unit
IsBalanced (node c l k r) =
    (height l ≡ height r)
    × ((is_red_color c && (is_red l || is_red r)) ≡ false)
    × IsBalanced l
    × IsBalanced r

-- A whole tree is balanced and its root is not red.
pub record IsRb (t : Tree) : Type 0 where
  pub balanced : IsBalanced t
  pub root_black : is_red t ≡ false

-- A red subtree may hang here: its parent is a black node.
abbrev pub under_black : Spine → Bool
under_black root = false
under_black (left_of c k r p) = elim c [ red ↦ false | black ↦ true ]
under_black (right_of c l k p) = elim c [ red ↦ false | black ↦ true ]

-- The tree around a place that lacks a subtree of height `h`.
abbrev pub IsAround : ℕ → Spine → Type 0
IsAround h root = Unit
IsAround h (left_of c k r p) =
    (height r ≡ h)
    × IsBalanced r
    × (is_red_color c ≡ true → (is_red r ≡ false) × (under_black p ≡ true))
    × IsAround (weight c + h) p
IsAround h (right_of c l k p) =
    (height l ≡ h)
    × IsBalanced l
    × (is_red_color c ≡ true → (is_red l ≡ false) × (under_black p ≡ true))
    × IsAround (weight c + h) p

pub plug-IsRb :
    (t : Tree) (p : Spine) (h : ℕ)
    → IsBalanced t
    → height t ≡ h
    → (is_red t ≡ true → under_black p ≡ true)
    → IsAround h p
    → IsRb (plug t p)
unfolding plug
plug-IsRb t root h b e u a = record { balanced = b; root_black = ground (arith, u) }
plug-IsRb t (left_of c k r p) h b e u a =
    plug-IsRb (node c t k r) p (weight c + h) (ground (arith, u, a.2)) (omega (arith, e))
      (ground (arith, a.2)) a.3
plug-IsRb t (right_of c l k p) h b e u a =
    plug-IsRb (node c l k t) p (weight c + h) (ground (arith, u, a.2)) (omega (arith, a.0))
      (ground (arith, a.2)) a.3

pub blacken-IsBalanced : (t : Tree) → IsBalanced t → IsBalanced (blacken t)
blacken-IsBalanced leaf b = tt
blacken-IsBalanced (node c l k r) b = (b.0, refl, b.2, b.3)

pub blacken_black : (t : Tree) → is_red t ≡ false → blacken t ≡ t
blacken_black leaf e = refl
blacken_black (node red l k r) e = cc
blacken_black (node black l k r) e = refl

pub height-blacken : (t : Tree) → is_red t ≡ true → height (blacken t) ≡ height t + 1
height-blacken leaf e = cc
height-blacken (node red l k r) e = omega arith
height-blacken (node black l k r) e = cc

pub is_red-blacken : (t : Tree) → is_red (blacken t) ≡ false
is_red-blacken leaf = refl
is_red-blacken (node c l k r) = refl

-- The nodes of a tree from left to right, and those to the left and to the right of a place.
unfoldable pub inorder : Tree → List ℕ
inorder leaf = []
inorder (node c l k r) = inorder l ++ (k ∷ inorder r)

unfoldable pub before : Spine → List ℕ
before root = []
before (left_of c k r p) = before p
before (right_of c l k p) = before p ++ (inorder l ++ (k ∷ []))

unfoldable pub after : Spine → List ℕ
after root = []
after (left_of c k r p) = k ∷ (inorder r ++ after p)
after (right_of c l k p) = after p

pub inorder-plug : (t : Tree) (p : Spine) → inorder (plug t p) ≡ before p ++ (inorder t ++ after p)
unfolding inorder before after plug
inorder-plug t root = sym (append-nil (inorder t))
inorder-plug t (left_of c k r p) = rw (inorder-plug (node c t k r) p) (simp (append_assoc))
inorder-plug t (right_of c l k p) = rw (inorder-plug (node c l k t) p) (simp (append_assoc))

pub inorder-blacken : (t : Tree) → inorder (blacken t) ≡ inorder t
unfolding inorder
inorder-blacken leaf = refl
inorder-blacken (node c l k r) = refl
