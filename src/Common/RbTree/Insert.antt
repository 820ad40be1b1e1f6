-- ===== src/Common/RbTree/Insert.antt =====
-- Insertion into a red-black tree (__rb_insert_fix, _rb_insert of src/common/rbtree.c).
use mathlib.Core.Path.{subst}
use mathlib.Core.List.{append_assoc}
use fdu2024_os_honor_lab.Prelude.{
  ℕ, ◌+◌, ◌≡◌, ◌∙◌, refl, ap, arith, true, List, ◌++◌, Option, some, Bool-cases, inl, inr,
}
use fdu2024_os_honor_lab.Common.RbTree.{
  red, black, Tree, node, Spine, root, left_of, right_of, plug, is_red, blacken, insert_fix,
  rotate_ll, rotate_lr, rotate_rl, rotate_rr,
}
use fdu2024_os_honor_lab.Common.RbTree.Balance.{
  height, IsBalanced, IsRb, under_black, IsAround, plug-IsRb, blacken-IsBalanced, blacken_black,
  height-blacken, is_red-blacken, inorder, before, after, inorder-plug, inorder-blacken,
}

-- A repaired tree: balanced, with these nodes from left to right.
pub record Repaired (o : Option Tree) (xs : List ℕ) : Type 0 where
  pub tree : Tree
  pub found : o ≡ some tree
  pub valid : IsRb tree
  pub nodes : inorder tree ≡ xs

-- A subtree is written to its place and the loop ends.
pub plug-Repaired :
    (t : Tree) (p : Spine) (h : ℕ) (xs : List ℕ)
    → IsBalanced t
    → height t ≡ h
    → (is_red t ≡ true → under_black p ≡ true)
    → IsAround h p
    → inorder t ≡ xs
    → Repaired (some (plug t p)) (before p ++ (xs ++ after p))
plug-Repaired t p h xs b e u a i = record {
  tree = plug t p;
  found = refl;
  valid = plug-IsRb t p h b e u a;
  nodes = inorder-plug t p ∙ ap (λ ys. before p ++ (ys ++ after p)) i;
}

pub Repaired-nodes : {o : Option Tree} {xs ys : List ℕ} → xs ≡ ys → Repaired o xs → Repaired o ys
Repaired-nodes e k = record { tree = k.tree; found = k.found; valid = k.valid; nodes = k.nodes ∙ e }

around : {m n : ℕ} (p : Spine) → m ≡ n → IsAround m p → IsAround n p
around p e a = subst (λ h. IsAround h p) e a

pub insert_fix-Repaired :
    (l : Tree) (k : ℕ) (r : Tree) (p : Spine)
    → IsBalanced (node red l k r)
    → IsAround (height l) p
    → Repaired (insert_fix l k r p) (before p ++ (inorder (node red l k r) ++ after p))
unfolding insert_fix before after inorder plug
insert_fix-Repaired l k r root b a =
    plug-Repaired (node black l k r) root (1 + height l) (inorder (node red l k r))
      (ground (arith, b)) refl (λ e. cc) tt refl
insert_fix-Repaired l k r (left_of black pk pr p) b a =
    plug-Repaired (node red l k r) (left_of black pk pr p) (height l) (inorder (node red l k r)) b
      (omega arith) (λ e. refl) a refl
insert_fix-Repaired l k r (right_of black pl pk p) b a =
    plug-Repaired (node red l k r) (right_of black pl pk p) (height l) (inorder (node red l k r)) b
      (omega arith) (λ e. refl) a refl
insert_fix-Repaired l k r (left_of red pk pr root) b a = absurd (ground (arith, a.2))
insert_fix-Repaired l k r (right_of red pl pk root) b a = absurd (ground (arith, a.2))
insert_fix-Repaired l k r (left_of red pk pr (left_of red gk uncle p)) b a =
    absurd (ground (arith, a.2))
insert_fix-Repaired l k r (left_of red pk pr (left_of black gk uncle p)) b a =
    elim (Bool-cases (is_red uncle)) [
      | inl e ↦ rw e (
          Repaired-nodes (simp (append_assoc, inorder-blacken uncle)) (
            insert_fix-Repaired (node black (node red l k r) pk pr) gk (blacken uncle) p
              (ground (
                arith,
                b,
                a.0,
                a.1,
                a.2,
                a.3,
                height-blacken uncle,
                is_red-blacken uncle,
                blacken-IsBalanced uncle,
              ))
              (around p (ground (arith, b, a.0, a.3, height-blacken uncle)) a.3.3)))
      | inr e ↦ rw e (
          Repaired-nodes (simp (append_assoc, inorder-blacken pr)) (
            plug-Repaired (rotate_ll (node red l k r) pk pr black gk uncle) p (1 + height l)
              (inorder (rotate_ll (node red l k r) pk pr black gk uncle))
              (ground (arith, b, a.0, a.1, a.2, a.3, blacken_black pr)) (ground (arith, a.0))
              (λ h. cc) (around p (omega arith) a.3.3) refl))
    ]
insert_fix-Repaired l k r (right_of red pl pk (left_of red gk uncle p)) b a =
    absurd (ground (arith, a.2))
insert_fix-Repaired l k r (right_of red pl pk (left_of black gk uncle p)) b a =
    elim (Bool-cases (is_red uncle)) [
      | inl e ↦ rw e (
          Repaired-nodes (simp (append_assoc, inorder-blacken uncle)) (
            insert_fix-Repaired (node black pl pk (node red l k r)) gk (blacken uncle) p
              (ground (
                arith,
                b,
                a.0,
                a.1,
                a.2,
                a.3,
                height-blacken uncle,
                is_red-blacken uncle,
                blacken-IsBalanced uncle,
              ))
              (around p (ground (arith, b, a.0, a.3, height-blacken uncle)) a.3.3)))
      | inr e ↦ rw e (
          Repaired-nodes (simp (append_assoc, inorder-blacken l, inorder-blacken r)) (
            plug-Repaired (rotate_lr pl pk l k r black gk uncle) p (1 + height l)
              (inorder (rotate_lr pl pk l k r black gk uncle))
              (ground (arith, b, a.0, a.1, a.2, a.3, blacken_black l, blacken_black r))
              (ground (arith, a.0)) (λ h. cc) (around p (omega arith) a.3.3) refl))
    ]
insert_fix-Repaired l k r (right_of red pl pk (right_of red uncle gk p)) b a =
    absurd (ground (arith, a.2))
insert_fix-Repaired l k r (right_of red pl pk (right_of black uncle gk p)) b a =
    elim (Bool-cases (is_red uncle)) [
      | inl e ↦ rw e (
          Repaired-nodes (simp (append_assoc, inorder-blacken uncle)) (
            insert_fix-Repaired (blacken uncle) gk (node black pl pk (node red l k r)) p
              (ground (
                arith,
                b,
                a.0,
                a.1,
                a.2,
                a.3,
                height-blacken uncle,
                is_red-blacken uncle,
                blacken-IsBalanced uncle,
              ))
              (around p (ground (arith, b, a.0, a.3, height-blacken uncle)) a.3.3)))
      | inr e ↦ rw e (
          Repaired-nodes (simp (append_assoc, inorder-blacken pl)) (
            plug-Repaired (rotate_rr pl pk (node red l k r) black uncle gk) p (1 + height l)
              (inorder (rotate_rr pl pk (node red l k r) black uncle gk))
              (ground (arith, b, a.0, a.1, a.2, a.3, blacken_black pl)) (ground (arith, a.0))
              (λ h. cc) (around p (omega arith) a.3.3) refl))
    ]
insert_fix-Repaired l k r (left_of red pk pr (right_of red uncle gk p)) b a =
    absurd (ground (arith, a.2))
insert_fix-Repaired l k r (left_of red pk pr (right_of black uncle gk p)) b a =
    elim (Bool-cases (is_red uncle)) [
      | inl e ↦ rw e (
          Repaired-nodes (simp (append_assoc, inorder-blacken uncle)) (
            insert_fix-Repaired (blacken uncle) gk (node black (node red l k r) pk pr) p
              (ground (
                arith,
                b,
                a.0,
                a.1,
                a.2,
                a.3,
                height-blacken uncle,
                is_red-blacken uncle,
                blacken-IsBalanced uncle,
              ))
              (around p (ground (arith, b, a.0, a.3, height-blacken uncle)) a.3.3)))
      | inr e ↦ rw e (
          Repaired-nodes (simp (append_assoc, inorder-blacken l, inorder-blacken r)) (
            plug-Repaired (rotate_rl pr pk l k r black uncle gk) p (1 + height l)
              (inorder (rotate_rl pr pk l k r black uncle gk))
              (ground (arith, b, a.0, a.1, a.2, a.3, blacken_black l, blacken_black r))
              (ground (arith, a.0)) (λ h. cc) (around p (omega arith) a.3.3) refl))
    ]
