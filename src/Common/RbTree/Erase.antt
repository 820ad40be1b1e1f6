-- ===== src/Common/RbTree/Erase.antt =====
-- Removal of a node from a red-black tree (__rb_erase, __rb_erase_fix, _rb_erase of src/common/rbtree.c).
use fdu2024_os_honor_lab.Prelude.{ℕ, Option, none, some, List, [], ◌∷◌, if◌then◌else◌}
use fdu2024_os_honor_lab.Common.RbTree.{
  Color, red, black, Tree, leaf, node, Spine, root, left_of, right_of, plug, is_red, blacken,
}

-- A round of __rb_erase_fix ends the loop, or goes on with the parent.
pub data Fixed : Type 0 where
  stops : Tree → Fixed
  continues : Tree → Fixed

-- Case 3 and the end of a round, with sibling `sk` and its red left child
abbrev pub near_left : Tree → Color → ℕ → Tree → ℕ → Tree → Tree
near_left t pc pk (node c a b d) sk sr =
    node pc (node black t pk a) b (node black (blacken d) sk sr)
near_left t pc pk leaf sk sr = node pc t pk (node red leaf sk sr)

abbrev pub near_right : Tree → Color → ℕ → Tree → ℕ → Tree → Tree
near_right t pc pk (node c d b a) sk sl =
    node pc (node black sl sk (blacken d)) b (node black a pk t)
near_right t pc pk leaf sk sl = node pc (node red sl sk leaf) pk t

-- Case 2
abbrev pub recolor : Color → (Color → Tree) → Fixed
recolor red f = stops (f black)
recolor black f = continues (f black)

-- Cases 2 to 4 of a round, where the shorter subtree `t` is the left child of `pk`, and where it is the
-- right child.
unfoldable pub balance_left : Tree → Color → ℕ → Tree → ℕ → Tree → Fixed
balance_left t pc pk sl sk sr =
    if is_red sr
    then stops (node pc (node black t pk sl) sk (blacken sr))
    else if is_red sl
    then stops (near_left t pc pk sl sk sr)
    else recolor pc (λ c. node c t pk (node red sl sk sr))

unfoldable pub balance_right : Tree → Color → ℕ → Tree → ℕ → Tree → Fixed
balance_right t pc pk sl sk sr =
    if is_red sl
    then stops (node pc (blacken sl) sk (node black sr pk t))
    else if is_red sr
    then stops (near_right t pc pk sr sk sl)
    else recolor pc (λ c. node c (node red sl sk sr) pk t)

-- The end of a round whose parent is red since case 1, and which hangs at `p`.
abbrev pub stop_at : Fixed → Spine → Option Tree
stop_at (stops u) p = some (plug u p)
stop_at (continues u) p = none

-- Case 1 goes on with the sibling's child on the side of `t`.
abbrev pub red_left : Tree → Color → ℕ → Tree → ℕ → Tree → Spine → Option Tree
red_left t pc pk leaf sk sr p = none
red_left t pc pk (node c a b d) sk sr p = stop_at (balance_left t red pk a b d) (left_of pc sk sr p)

abbrev pub red_right : Tree → Color → ℕ → Tree → ℕ → Tree → Spine → Option Tree
red_right t pc pk sl sk leaf p = none
red_right t pc pk sl sk (node c a b d) p =
    stop_at (balance_right t red pk a b d) (right_of pc sl sk p)

-- __rb_erase_fix, with the shorter subtree `t` at a place
unfoldable pub erase_fix : Tree → Spine → Option Tree
erase_fix t root = some t
erase_fix t (left_of pc pk leaf p) = none
erase_fix t (right_of pc leaf pk p) = none
erase_fix t (left_of pc pk (node red sl sk sr) p) = red_left t pc pk sl sk sr p
erase_fix t (right_of pc (node red sl sk sr) pk p) = red_right t pc pk sl sk sr p
erase_fix t (left_of pc pk (node black sl sk sr) p) = elim (balance_left t pc pk sl sk sr) [
  | stops u ↦ some (plug u p)
  | continues u ↦ erase_fix u p
]
erase_fix t (right_of pc (node black sl sk sr) pk p) = elim (balance_right t pc pk sl sk sr) [
  | stops u ↦ some (plug u p)
  | continues u ↦ erase_fix u p
]

-- The search for the successor, down the left children of `k`: its color, itself, its right child, and
-- the nodes above it, the last one first.
pub record Least : Type 0 where
  pub color : Color
  pub key : ℕ
  pub right : Tree
  pub above : List (Color × ℕ × Tree)

unfoldable pub find_least : Color → Tree → ℕ → Tree → List (Color × ℕ × Tree) → Least
find_least c leaf k r above = record { color = c; key = k; right = r; above = above }
find_least c (node d ll lk lr) k r above = find_least d ll lk lr ((c, k, r) ∷ above)

unfoldable pub hang : List (Color × ℕ × Tree) → Spine → Spine
hang [] p = p
hang ((c, k, r) ∷ above) p = left_of c k r (hang above p)

-- What stands at a place from which a node of color `c` went: its only child, black or in the node's
-- color, or nothing, which makes the place shorter if the node was black.
abbrev pub close_gap : Color → Spine → Option Tree
close_gap red p = some (plug leaf p)
close_gap black p = erase_fix leaf p

-- _rb_erase of the node that has color `c` and children `l` and `r`
unfoldable pub rb_erase : Color → Tree → Tree → Spine → Option Tree
rb_erase c leaf leaf p = close_gap c p
rb_erase c leaf (node d rl rk rr) p = some (plug (node c rl rk rr) p)
rb_erase c (node d ll lk lr) leaf p = some (plug (node c ll lk lr) p)
rb_erase c (node d ll lk lr) (node e rl rk rr) p =
    let s = find_least e rl rk rr [] in
    let q = hang s.above (right_of c (node d ll lk lr) s.key p) in
    elim s.right [ leaf ↦ close_gap s.color q | node f a b g ↦ some (plug (node black a b g) q) ]
