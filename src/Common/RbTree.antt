-- ===== src/Common/RbTree.antt =====
-- Red-black trees (src/common/rbtree.h, src/common/rbtree.c). A tree is a value and a node is a number,
-- its address, which `cmp` compares. What the code reaches by parent pointers is the path from a subtree
-- to the root: writing a subtree and going up is `plug`. The result `none` stands for a null pointer
-- that the code would follow.
pub mod Erase
pub mod Balance
pub mod Insert
pub mod Repair
pub mod Remove
pub mod Members
pub mod Order
mod Tests
use fdu2024_os_honor_lab.Prelude.{ℕ, Bool, true, false, Option, none, some, if◌then◌else◌}

-- RB_RED and RB_BLACK
pub data Color : Type 0 where
  red black : Color

-- `struct rb_node_`: color, rb_left, the node itself, rb_right
pub data Tree : Type 0 where
  leaf : Tree
  node : Color → Tree → ℕ → Tree → Tree

-- Where a subtree hangs: the parent's color, itself and its other child, and where the parent hangs.
pub data Spine : Type 0 where
  root : Spine
  left_of : Color → ℕ → Tree → Spine → Spine
  right_of : Color → Tree → ℕ → Spine → Spine

-- __rb_change_child, up to the root
unfoldable pub plug : Tree → Spine → Tree
plug t root = t
plug t (left_of c k r p) = plug (node c t k r) p
plug t (right_of c l k p) = plug (node c l k t) p

-- rb_is_red of a pointer that may be null
abbrev pub is_red : Tree → Bool
is_red (node red l k r) = true
is_red _ = false

-- `if (tmp) rb_set_parent_color(tmp, ..., RB_BLACK)`
abbrev pub blacken : Tree → Tree
blacken leaf = leaf
blacken (node c l k r) = node black l k r

-- Cases 2 and 3 of __rb_insert_fix, below a left and a right parent: the grandparent's new subtree.
abbrev pub rotate_ll : Tree → ℕ → Tree → Color → ℕ → Tree → Tree
rotate_ll n pk pr gc gk uncle = node gc n pk (node red (blacken pr) gk uncle)

abbrev pub rotate_lr : Tree → ℕ → Tree → ℕ → Tree → Color → ℕ → Tree → Tree
rotate_lr pl pk l k r gc gk uncle =
    node gc (node red pl pk (blacken l)) k (node red (blacken r) gk uncle)

abbrev pub rotate_rr : Tree → ℕ → Tree → Color → Tree → ℕ → Tree
rotate_rr pl pk n gc uncle gk = node gc (node red uncle gk (blacken pl)) pk n

abbrev pub rotate_rl : Tree → ℕ → Tree → ℕ → Tree → Color → Tree → ℕ → Tree
rotate_rl pr pk l k r gc uncle gk =
    node gc (node red uncle gk (blacken l)) k (node red (blacken r) pk pr)

-- __rb_insert_fix at the red node `k` with children `l` and `r`
unfoldable pub insert_fix : Tree → ℕ → Tree → Spine → Option Tree
insert_fix l k r root = some (node black l k r)
insert_fix l k r (left_of black pk pr p) = some (plug (node red l k r) (left_of black pk pr p))
insert_fix l k r (right_of black pl pk p) = some (plug (node red l k r) (right_of black pl pk p))
insert_fix l k r (left_of red pk pr root) = none
insert_fix l k r (right_of red pl pk root) = none
insert_fix l k r (left_of red pk pr (left_of gc gk uncle p)) =
    let up = insert_fix (node black (node red l k r) pk pr) gk (blacken uncle) p in
    if is_red uncle then up else some (plug (rotate_ll (node red l k r) pk pr gc gk uncle) p)
insert_fix l k r (right_of red pl pk (left_of gc gk uncle p)) =
    let up = insert_fix (node black pl pk (node red l k r)) gk (blacken uncle) p in
    if is_red uncle then up else some (plug (rotate_lr pl pk l k r gc gk uncle) p)
insert_fix l k r (right_of red pl pk (right_of gc uncle gk p)) =
    let up = insert_fix (blacken uncle) gk (node black pl pk (node red l k r)) p in
    if is_red uncle then up else some (plug (rotate_rr pl pk (node red l k r) gc uncle gk) p)
insert_fix l k r (left_of red pk pr (right_of gc uncle gk p)) =
    let up = insert_fix (blacken uncle) gk (node black (node red l k r) pk pr) p in
    if is_red uncle then up else some (plug (rotate_rl pr pk l k r gc uncle gk) p)

-- What a call of _rb_insert comes to: 0 and the tree, or -1.
pub data Inserted : Type 0 where
  inserted : Tree → Inserted
  refused : Inserted

module _ (cmp : ℕ → ℕ → Bool) where
  -- The loop of _rb_insert: the place for `k`, or none if an equal node is there.
  unfoldable pub descend : ℕ → Tree → Spine → Option Spine
  descend k leaf p = some p
  descend k (node c l n r) p =
      let to_left = descend k l (left_of c n r p) in
      let to_right = descend k r (right_of c l n p) in
      if cmp k n then to_left else if cmp n k then to_right else none

  -- _rb_insert
  unfoldable pub rb_insert : ℕ → Tree → Option Inserted
  rb_insert k t = elim (descend k t root) [
    | none ↦ some refused
    | some p ↦ elim (insert_fix leaf k leaf p) [ none ↦ none | some u ↦ some (inserted u) ]
  ]

  -- _rb_lookup
  unfoldable pub rb_lookup : ℕ → Tree → Option ℕ
  rb_lookup k leaf = none
  rb_lookup k (node c l n r) =
      let to_left = rb_lookup k l in
      let to_right = rb_lookup k r in
      if cmp k n then to_left else if cmp n k then to_right else some n

-- _rb_first
unfoldable pub rb_first : Tree → Option ℕ
rb_first leaf = none
rb_first (node c leaf k r) = some k
rb_first (node c (node d ll lk lr) k r) = rb_first (node d ll lk lr)
