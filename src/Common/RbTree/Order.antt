-- ===== src/Common/RbTree/Order.antt =====
-- Searching, inserting and the first node in a red-black tree whose nodes are in order (_rb_lookup,
-- _rb_insert, _rb_first of src/common/rbtree.c).
use fdu2024_os_honor_lab.Prelude.{
  ℕ, ◌≡◌, ◌⊎◌, ◌↔◌, ◌∙◌, refl, sym, ap, arith, Bool, true, false, List, [], ◌∷◌, ◌++◌, Option, none,
  some, Bool-cases, Option-cases, inl, inr,
}
use fdu2024_os_honor_lab.Common.RbTree.{
  Tree, leaf, node, Spine, root, left_of, right_of, plug, inserted, refused, descend, rb_insert,
  rb_lookup, rb_first,
}
use fdu2024_os_honor_lab.Common.RbTree.Balance.{IsRb, inorder, before, after, inorder-plug}
use fdu2024_os_honor_lab.Common.RbTree.Insert.{insert_fix-Repaired}
use fdu2024_os_honor_lab.Common.RbTree.Remove.{plug-IsAround}
use fdu2024_os_honor_lab.Common.RbTree.Members.{
  AllAre, AllAre-IsIn, AllAre-append, AllAre-imp, AllAre-left, AllAre-right, IsIn, IsIn-append,
  IsIn-left, IsIn-middle, IsIn-right, IsStrict,
}

module _ (cmp : ℕ → ℕ → Bool) where
  -- In order from left to right.
  abbrev pub IsSorted : List ℕ → Type 0
  IsSorted [] = Unit
  IsSorted (x ∷ xs) = AllAre (cmp x) xs × IsSorted xs

  -- The parts around one of its elements.
  record Around (xs : List ℕ) (n : ℕ) (ys : List ℕ) : Type 0 where
    less : AllAre (λ x. cmp x n) xs
    more : AllAre (cmp n) ys
    left : IsSorted xs
    right : IsSorted ys

  IsSorted-Around : (xs : List ℕ) (n : ℕ) (ys : List ℕ) → IsSorted (xs ++ (n ∷ ys)) → Around xs n ys
  IsSorted-Around [] n ys s = record { less = tt; more = s.0; left = tt; right = s.1 }
  IsSorted-Around (x ∷ xs) n ys s =
      let r = IsSorted-Around xs n ys s.1 in
      record {
        less = ((AllAre-right (cmp x) xs (n ∷ ys) s.0).0, r.less);
        more = r.more;
        left = (AllAre-left (cmp x) xs (n ∷ ys) s.0, r.left);
        right = r.right;
      }

  module _ (strict : IsStrict cmp) where
    IsSorted-insert :
        (xs ys : List ℕ) (k : ℕ)
        → IsSorted (xs ++ ys)
        → AllAre (λ x. cmp x k) xs
        → AllAre (cmp k) ys
        → IsSorted (xs ++ (k ∷ ys))
    IsSorted-insert [] ys k s a b = (b, s)
    IsSorted-insert (x ∷ xs) ys k s a b = (
      AllAre-append (cmp x) xs (k ∷ ys) (AllAre-left (cmp x) xs ys s.0)
          (a.0, AllAre-right (cmp x) xs ys s.0),
      IsSorted-insert xs ys k s.1 a.1 b,
    )

    -- Where the search of _rb_insert ends.
    record Place (k : ℕ) (t : Tree) (p q : Spine) : Type 0 where
      same : plug leaf q ≡ plug t p
      less : AllAre (λ x. cmp x k) (before q)
      more : AllAre (cmp k) (after q)

    descend-Place :
        (k : ℕ) (t : Tree) (p : Spine)
        → IsSorted (inorder t)
        → AllAre (λ x. cmp x k) (before p)
        → AllAre (cmp k) (after p)
        → ((q : Spine) × (descend cmp k t p ≡ some q) × Place k t p q)
          ⊎ ((descend cmp k t p ≡ none)
              × (n : ℕ) × IsIn n (inorder t)
              × (cmp k n ≡ false)
              × (cmp n k ≡ false))
    unfolding descend inorder before after plug
    descend-Place k leaf p s a b = inl (p, refl, record { same = refl; less = a; more = b })
    descend-Place k (node c l n r) p s a b = elim (Bool-cases (cmp k n)) [
      | inl e ↦
          rw e
            (elim (descend-Place k l (left_of c n r p) w.left a (
              (
                e,
                AllAre-append (cmp k) (inorder r) (after p)
                    (AllAre-imp (cmp n) (cmp k) (inorder r) (λ x. strict.trans k n x e) w.more) b,
              ))) [
                | inl (q, h, m) ↦ inl (q, h, record { same = m.same; less = m.less; more = m.more })
                | inr (h, x, i, y, z) ↦ inr (h, x, IsIn-left x (inorder l) (n ∷ inorder r) i, y, z)
              ])
      | inr e ↦ elim (Bool-cases (cmp n k)) [
        | inr f ↦ rw (e, f) (inr (refl, n, IsIn-middle n (inorder l) (inorder r), e, f))
        | inl f ↦
            rw (e, f)
              (elim (descend-Place k r (right_of c l n p) w.right
                (AllAre-append (λ x. cmp x k) (before p) (inorder l ++ (n ∷ [])) a
                  (AllAre-append (λ x. cmp x k) (inorder l) (n ∷ [])
                    (AllAre-imp (λ x. cmp x n) (λ x. cmp x k) (inorder l)
                      (λ x d. strict.trans x n k d f) w.less)
                    (f, tt)))
                b) [
                  | inl (q, h, m) ↦
                      inl (q, h, record { same = m.same; less = m.less; more = m.more })
                  | inr (h, x, i, y, z) ↦
                      inr (h, x, IsIn-right x (inorder l) (n ∷ inorder r) (inr i), y, z)
                ])
      ]
    ]
      where
        w : Around (inorder l) n (inorder r)
        w = IsSorted-Around (inorder l) n (inorder r) s

    -- With a strict comparison, _rb_insert into an ordered red-black tree returns. It gives -1 when
    -- a node of the tree compares equal to `k`; otherwise the tree is a red-black tree in order
    -- with the same nodes and `k` between them.
    pub rb_insert_lem :
        (k : ℕ) (t : Tree)
        → IsRb t
        → IsSorted (inorder t)
        → ((rb_insert cmp k t ≡ some refused)
            × (n : ℕ) × IsIn n (inorder t)
            × (cmp k n ≡ false)
            × (cmp n k ≡ false))
          ⊎ ((u : Tree) × (xs : List ℕ) × (ys : List ℕ) × (rb_insert cmp k t ≡ some (inserted u))
              × IsRb u
              × IsSorted (inorder u)
              × (inorder t ≡ xs ++ ys)
              × (inorder u ≡ xs ++ (k ∷ ys)))
    unfolding rb_insert inorder before after plug
    rb_insert_lem k t v s = elim (descend-Place k t root s tt tt) [
      | inr (h, n, i, y, z) ↦ inl (rw (h, rb_insert) refl, n, i, y, z)
      | inl (q, h, m) ↦
          let a = plug-IsAround leaf q (rw m.same v) in
          let w = insert_fix-Repaired leaf k leaf q (refl, refl, tt, tt) a.1 in
          let parts : inorder t ≡ before q ++ after q =
            ap inorder (sym m.same) ∙ inorder-plug leaf q in
          inr (
            w.tree,
            before q,
            after q,
            rw (h, w.found, rb_insert) refl,
            w.valid,
            rw w.nodes (IsSorted-insert (before q) (after q) k (rw parts at s) m.less m.more),
            parts,
            w.nodes,
          )
    ]

    rb_lookup-IsIn : (k n : ℕ) (t : Tree) → rb_lookup cmp k t ≡ some n → IsIn n (inorder t)
    unfolding rb_lookup inorder
    rb_lookup-IsIn k n leaf h = cc
    rb_lookup-IsIn k n (node c l m r) h = elim (Bool-cases (cmp k m)) [
      | inl e ↦
          IsIn-left n (inorder l) (m ∷ inorder r) (rb_lookup-IsIn k n l (rw (e, rb_lookup) at h))
      | inr e ↦ elim (Bool-cases (cmp m k)) [
        | inl f ↦
            IsIn-right n (inorder l) (m ∷ inorder r)
              (inr (rb_lookup-IsIn k n r (rw (e, f, rb_lookup) at h)))
        | inr f ↦
            let g = rw (e, f, rb_lookup) at h in
            let q : n ≡ m = ground arith in rw q (IsIn-middle m (inorder l) (inorder r))
      ]
    ]

    not_both : (a b : ℕ) → cmp a b ≡ true → cmp b a ≡ false
    not_both a b e = ground (arith, strict.irrefl a, strict.trans a b a)

    rb_lookup-finds :
        (k : ℕ) (t : Tree) → IsSorted (inorder t) → IsIn k (inorder t) → rb_lookup cmp k t ≡ some k
    unfolding rb_lookup inorder
    rb_lookup-finds k leaf s i = absurd i
    rb_lookup-finds k (node c l m r) s i =
        let w = IsSorted-Around (inorder l) m (inorder r) s in
        elim (IsIn-append k (inorder l) (m ∷ inorder r) i) [
          | inl a ↦
              rw (AllAre-IsIn (λ x. cmp x m) (inorder l) k w.less a) (rb_lookup-finds k l w.left a)
          | inr (inl e) ↦ rw (e, strict.irrefl m) refl
          | inr (inr b) ↦
              let f = AllAre-IsIn (cmp m) (inorder r) k w.more b in
              rw (f, not_both m k f) (rb_lookup-finds k r w.right b)
        ]

    -- With a strict comparison, _rb_lookup in an ordered tree gives back the node that it was asked
    -- for exactly when that node is in the tree.
    rb_lookup_iff :
        (k : ℕ) (t : Tree)
        → IsSorted (inorder t)
        → (rb_lookup cmp k t ≡ some k) ↔ IsIn k (inorder t)
    rb_lookup_iff k t s = (rb_lookup-IsIn k k t, rb_lookup-finds k t s)

abbrev pub head_of : List ℕ → Option ℕ
head_of [] = none
head_of (x ∷ xs) = some x

head_of-append : (xs ys : List ℕ) (n : ℕ) → head_of xs ≡ some n → head_of (xs ++ ys) ≡ some n
head_of-append [] ys n e = cc
head_of-append (x ∷ xs) ys n e = e

head_of-cons : (xs ys : List ℕ) (n : ℕ) → head_of (xs ++ (n ∷ ys)) ≡ none → ⊥
head_of-cons [] ys n e = cc
head_of-cons (x ∷ xs) ys n e = cc

-- _rb_first gives the first node in order, or null for an empty tree.
pub rb_first_lem : (t : Tree) → rb_first t ≡ head_of (inorder t)
unfolding rb_first inorder
rb_first_lem leaf = refl
rb_first_lem (node c leaf k r) = refl
rb_first_lem (node c (node d ll lk lr) k r) = elim (Option-cases (rb_first (node d ll lk lr))) [
  | inl e ↦
      absurd (head_of-cons (inorder ll) (inorder lr) lk (sym (rb_first_lem (node d ll lk lr)) ∙ e))
  | inr (x, e) ↦
      e
      ∙ sym (
          head_of-append (inorder (node d ll lk lr)) (k ∷ inorder r) x
            (sym (rb_first_lem (node d ll lk lr)) ∙ e))
]
