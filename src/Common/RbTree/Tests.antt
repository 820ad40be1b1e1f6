-- ===== src/Common/RbTree/Tests.antt =====
-- A red-black tree of three nodes.
use fdu2024_os_honor_lab.Prelude.{ℕ, ◌≡◌, ◌⊎◌, refl, false, List, ◌∷◌, ◌++◌, some, ltb, arith}
use fdu2024_os_honor_lab.Common.RbTree.{
  red, black, Tree, leaf, node, root, plug, inserted, refused, rb_insert, insert_fix, descend,
}
use fdu2024_os_honor_lab.Common.RbTree.Balance.{IsRb, inorder}
use fdu2024_os_honor_lab.Common.RbTree.Erase.{rb_erase}
use fdu2024_os_honor_lab.Common.RbTree.Remove.{rb_erase_lem}
use fdu2024_os_honor_lab.Common.RbTree.Order.{IsSorted, rb_insert_lem}
use fdu2024_os_honor_lab.Common.RbTree.Members.{IsStrict, IsIn}

abbrev three : Tree
three = node black (node red leaf 10 leaf) 20 (node red leaf 30 leaf)

three-IsRb : IsRb three
three-IsRb = record {
  balanced = (refl, refl, (refl, refl, tt, tt), (refl, refl, tt, tt));
  root_black = refl;
}

ltb-IsStrict : IsStrict ltb
ltb-IsStrict = record { irrefl = λ a. ground arith; trans = λ a b c x y. ground arith }

sorted : IsSorted ltb (inorder three)
unfolding inorder
sorted = ((refl, (refl, tt)), ((refl, tt), (tt, tt)))

-- The uncle of 15 is red.
grows :
    rb_insert ltb 15 three
    ≡ some (
        inserted
          (node black (node black leaf 10 (node red leaf 15 leaf)) 20 (node black leaf 30 leaf)))
unfolding rb_insert descend insert_fix plug
grows = refl

rb_insert_lem_example :
    ((rb_insert ltb 15 three ≡ some refused)
      × (n : ℕ) × IsIn n (inorder three)
      × (ltb 15 n ≡ false)
      × (ltb n 15 ≡ false))
    ⊎ ((u : Tree) × (xs : List ℕ) × (ys : List ℕ) × (rb_insert ltb 15 three ≡ some (inserted u))
        × IsRb u
        × IsSorted ltb (inorder u)
        × (inorder three ≡ xs ++ ys)
        × (inorder u ≡ xs ++ (15 ∷ ys)))
rb_insert_lem_example = rb_insert_lem ltb ltb-IsStrict 15 three three-IsRb sorted

three_plugged : IsRb (plug three root)
unfolding plug
three_plugged = three-IsRb

rb_erase_lem_example :
    (u : Tree) × (xs : List ℕ) × (ys : List ℕ) × (rb_erase black
        (node red leaf 10 leaf)
        (node red leaf 30 leaf)
        root
      ≡ some u)
    × IsRb u
    × (inorder (plug three root) ≡ xs ++ (20 ∷ ys))
    × (inorder u ≡ xs ++ ys)
rb_erase_lem_example =
    rb_erase_lem black (node red leaf 10 leaf) 20 (node red leaf 30 leaf) root three_plugged
