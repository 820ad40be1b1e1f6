-- ===== src/Common/RbTree/Remove.antt =====
-- Removal from a red-black tree keeps it balanced (__rb_erase, __rb_erase_fix, _rb_erase of
-- src/common/rbtree.c).
use mathlib.Core.List.{append_assoc, append-nil}
use fdu2024_os_honor_lab.Prelude.{
  ℕ, ◌+◌, ◌≡◌, ◌∙◌, refl, sym, arith, true, false, ◌&&◌, List, [], ◌∷◌, ◌++◌, some,
}
use fdu2024_os_honor_lab.Common.RbTree.{
  Color, red, black, Tree, leaf, node, Spine, root, left_of, right_of, plug, is_red,
}
use fdu2024_os_honor_lab.Common.RbTree.Erase.{find_least, Least, hang, close_gap, rb_erase}
use fdu2024_os_honor_lab.Common.RbTree.Balance.{
  weight, is_red_color, height, IsBalanced, IsRb, under_black, IsAround, inorder, before, after,
  inorder-plug,
}
use fdu2024_os_honor_lab.Common.RbTree.Insert.{Repaired, plug-Repaired, Repaired-nodes}
use fdu2024_os_honor_lab.Common.RbTree.Repair.{around, erase_fix-Repaired}

close_gap-Repaired :
    (c : Color) (p : Spine)
    → IsAround (weight c + 0) p
    → Repaired (close_gap c p) (before p ++ after p)
unfolding inorder
close_gap-Repaired red p a = plug-Repaired leaf p 0 [] tt refl (λ e. cc) a refl
close_gap-Repaired black p a = erase_fix-Repaired leaf p tt refl a

-- What the search for the successor finds below place `q`: a node with no left child that hangs as the
-- code left it, and is the first of those in the subtree.
record Found (s : Least) (q : Spine) (xs : List ℕ) : Type 0 where
  balanced : IsBalanced (node s.color leaf s.key s.right)
  around : IsAround (weight s.color + 0) (hang s.above q)
  may_red : is_red_color s.color ≡ true → under_black (hang s.above q) ≡ true
  left : before (hang s.above q) ≡ before q
  first : s.key ∷ (inorder s.right ++ after (hang s.above q)) ≡ xs

find_least-Found :
    (c : Color) (l : Tree) (k : ℕ) (r : Tree) (above : List (Color × ℕ × Tree)) (q : Spine)
    → IsBalanced (node c l k r)
    → IsAround (weight c + height l) (hang above q)
    → (is_red_color c ≡ true → under_black (hang above q) ≡ true)
    → before (hang above q) ≡ before q
    → Found (find_least c l k r above) q (inorder (node c l k r) ++ after (hang above q))
unfolding find_least hang inorder before after
find_least-Found c leaf k r above q b a u e = record {
  balanced = b;
  around = a;
  may_red = u;
  left = e;
  first = refl;
}
find_least-Found c (node d ll lk lr) k r above q b a u e =
    let f =
      find_least-Found d ll lk lr ((c, k, r) ∷ above) q b.2
        (sym b.0, b.3, (λ h. (ground (arith, b.1), u h)), a) (ground (arith, b.1)) e in
    record {
      balanced = f.balanced;
      around = f.around;
      may_red = f.may_red;
      left = f.left;
      first = f.first ∙ (simp append_assoc);
    }

-- The successor takes the place, and its right child takes the successor's.
close_successor :
    (s : Least) (q : Spine) (xs : List ℕ)
    → Found s q xs
    → Repaired
        (elim s.right [
          | leaf ↦ close_gap s.color (hang s.above q)
          | node f a b g ↦ some (plug (node black a b g) (hang s.above q))
        ])
        (before q ++ (inorder s.right ++ after (hang s.above q)))
unfolding inorder
close_successor s q xs f = go s.right refl
  where
    go :
        (r : Tree)
        → s.right ≡ r
        → Repaired
            (elim r [
              | leaf ↦ close_gap s.color (hang s.above q)
              | node f a b g ↦ some (plug (node black a b g) (hang s.above q))
            ])
            (before q ++ (inorder r ++ after (hang s.above q)))
    go leaf e =
        Repaired-nodes (rw f.left refl) (close_gap-Repaired s.color (hang s.above q) f.around)
    go (node d a b g) e =
        let w : IsBalanced (node s.color leaf s.key (node d a b g)) = rw e at f.balanced in
        Repaired-nodes (rw f.left refl) (
          plug-Repaired (node black a b g) (hang s.above q) (weight s.color + 0)
            (inorder (node d a b g)) (ground (arith, w)) (lifts s.color d a b g w.0 w.1) (λ h. cc)
            f.around refl)
      where
        lifts :
            (c d : Color) (a : Tree) (b : ℕ) (g : Tree)
            → 0 ≡ weight d + height a
            → (is_red_color c && is_red (node d a b g)) ≡ false
            → 1 + height a ≡ weight c + 0
        lifts red red a b g e n = cc
        lifts red black a b g e n = absurd (omega (arith, e))
        lifts black red a b g e n = omega (arith, e)
        lifts black black a b g e n = absurd (omega (arith, e))

insert_key :
    (hs ls ms rs zs : List ℕ) (k : ℕ)
    → k ∷ ms ≡ rs ++ zs
    → (hs ++ (ls ++ (k ∷ []))) ++ ms ≡ hs ++ ((ls ++ rs) ++ zs)
insert_key hs ls ms rs zs k e = simp (append_assoc, e)

module _ (k : ℕ) (p : Spine) where
  rb_erase-Repaired :
      (c : Color) (l r : Tree)
      → IsBalanced (node c l k r)
      → IsAround (weight c + height l) p
      → (is_red_color c ≡ true → under_black p ≡ true)
      → Repaired (rb_erase c l r p) (before p ++ ((inorder l ++ inorder r) ++ after p))
  unfolding rb_erase inorder before after hang
  rb_erase-Repaired c leaf leaf b a u = close_gap-Repaired c p a
  rb_erase-Repaired red leaf (node red rl rk rr) b a u = absurd (ground (arith, b.1))
  rb_erase-Repaired black leaf (node red rl rk rr) b a u =
      plug-Repaired (node black rl rk rr) p 1 (inorder (node red rl rk rr)) (ground (arith, b.3))
        (omega (arith, b.0)) (λ e. cc) a refl
  rb_erase-Repaired c leaf (node black rl rk rr) b a u = absurd (omega (arith, b.0))
  rb_erase-Repaired red (node red ll lk lr) leaf b a u = absurd (ground (arith, b.1))
  rb_erase-Repaired black (node red ll lk lr) leaf b a u =
      Repaired-nodes (simp (append-nil, append_assoc)) (
        plug-Repaired (node black ll lk lr) p (1 + (0 + height ll)) (inorder (node red ll lk lr))
          (ground (arith, b.2)) (omega arith) (λ e. cc) a refl)
  rb_erase-Repaired c (node black ll lk lr) leaf b a u = absurd (omega (arith, b.0))
  rb_erase-Repaired c (node d ll lk lr) (node e rl rk rr) b a u =
      let s = find_least e rl rk rr [] in
      let q = right_of c (node d ll lk lr) s.key p in
      let f =
        find_least-Found e rl rk rr [] q b.3
          (b.0, b.2, (λ h. (ground (arith, b.1), u h)), around p (omega (arith, b.0)) a)
          (ground (arith, b.1)) refl in
      Repaired-nodes
        (insert_key (before p) (inorder (node d ll lk lr))
          (inorder s.right ++ after (hang s.above q)) (inorder (node e rl rk rr)) (after p) s.key
          f.first)
        (close_successor s q (inorder (node e rl rk rr) ++ after p) f)

-- What a balanced tree says of a place in it.
pub plug-IsAround :
    (t : Tree) (p : Spine)
    → IsRb (plug t p)
    → IsBalanced t × IsAround (height t) p × (is_red t ≡ true → under_black p ≡ true)
unfolding plug
plug-IsAround t root v = (v.balanced, tt, λ e. ground (arith, v.root_black))
plug-IsAround t (left_of c k r p) v =
    let (b, a, u) = plug-IsAround (node c t k r) p v in
    (b.2, (sym b.0, b.3, (λ e. (ground (arith, b.1), ground (arith, u))), a), ground (arith, b.1))
plug-IsAround t (right_of c l k p) v =
    let (b, a, u) = plug-IsAround (node c l k t) p v in
    (
      b.3,
      (b.0, b.2, (λ e. (ground (arith, b.1), ground (arith, u))), around p (omega (arith, b.0)) a),
      ground (arith, b.1),
    )

-- _rb_erase of any node of a red-black tree returns; the tree that is left is a red-black tree with the
-- same nodes in the same order but for that one.
pub rb_erase_lem :
    (c : Color) (l : Tree) (k : ℕ) (r : Tree) (p : Spine)
    → IsRb (plug (node c l k r) p)
    → (u : Tree) × (xs : List ℕ) × (ys : List ℕ) × (rb_erase c l r p ≡ some u)
      × IsRb u
      × (inorder (plug (node c l k r) p) ≡ xs ++ (k ∷ ys))
      × (inorder u ≡ xs ++ ys)
unfolding inorder
rb_erase_lem c l k r p v =
    let (b, a, u) = plug-IsAround (node c l k r) p v in
    let w = rb_erase-Repaired k p c l r b a (ground (arith, u)) in
    (
      w.tree,
      before p ++ inorder l,
      inorder r ++ after p,
      w.found,
      w.valid,
      inorder-plug (node c l k r) p ∙ (simp append_assoc),
      w.nodes ∙ (simp append_assoc),
    )
