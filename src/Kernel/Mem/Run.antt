-- ===== src/Kernel/Mem/Run.antt =====
-- Any sequence of allocations and frees.
use mathlib.Core.Path.{subst}
use fdu2024_os_honor_lab.Prelude.{
  ℕ, ◌+◌, ◌-◌, ◌*◌, ◌≡◌, ◌≤◌, ◌⊎◌, ap, refl, some, List, [], ◌∷◌, ◌++◌, ltb, arith, true, inl, inr,
}
use fdu2024_os_honor_lab.Kernel.Mem.{Heap, classes, units, kalloc, kfree, add_free}
use fdu2024_os_honor_lab.Kernel.Mem.Cover.{inside, cover_live, owners, cover_free-put}
use fdu2024_os_honor_lab.Kernel.Mem.Alloc.{AreSized, IsHeap, kalloc_lem}

cover_live-middle :
    (xs ys : List (ℕ × ℕ)) (p n a : ℕ)
    → cover_live (xs ++ ((p, n) ∷ ys)) a ≡ inside (n * 16) p a + cover_live (xs ++ ys) a
cover_live-middle [] ys p n a = refl
cover_live-middle ((q, m) ∷ xs) ys p n a = omega (arith, cover_live-middle xs ys p n a)

AreSized-middle :
    (header : ℕ → ℕ) (xs ys : List (ℕ × ℕ)) (p n : ℕ)
    → AreSized header (xs ++ ((p, n) ∷ ys))
    → (header p + 1 ≡ n) × (n ≤ classes) × AreSized header (xs ++ ys)
AreSized-middle header [] ys p n s = s
AreSized-middle header ((q, m) ∷ xs) ys p n s =
    let (e, l, t) = AreSized-middle header xs ys p n s.2 in (e, l, (s.0, s.1, t))

AreSized-suffix :
    (header : ℕ → ℕ) (xs ys : List (ℕ × ℕ)) → AreSized header (xs ++ ys) → AreSized header ys
AreSized-suffix header [] ys s = s
AreSized-suffix header ((p, n) ∷ xs) ys s = AreSized-suffix header xs ys s.2

-- kfree of the pointer to an allocated block returns, gives its bytes back and touches no other block.
kfree_lem :
    (h : Heap) (xs ys : List (ℕ × ℕ)) (node n : ℕ)
    → IsHeap h (xs ++ ((node, n) ∷ ys))
    → (t : Heap) × (kfree (node + 8) h ≡ some t)
      × IsHeap t (xs ++ ys)
      × ((a : ℕ) → owners t (xs ++ ys) a ≡ owners h (xs ++ ((node, n) ∷ ys)) a)
unfolding kfree owners
kfree_lem h xs ys node n v = (
  add_free (h.header node) node h,
  rw (back, small) refl,
  record { once = λ a. omega (arith, same a, v.once a); sized = s.2 },
  same,
)
  where
    s : (h.header node + 1 ≡ n) × (n ≤ classes) × AreSized h.header (xs ++ ys)
    s = AreSized-middle h.header xs ys node n v.sized

    back : node + 8 - 8 ≡ node
    back = omega arith

    small : ltb (h.header node) classes ≡ true
    small = ground (arith, s.0, s.1)

    same :
        (a : ℕ)
        → owners (add_free (h.header node) node h) (xs ++ ys) a
          ≡ owners h (xs ++ ((node, n) ∷ ys)) a
    same a =
        let e : n * 16 ≡ h.header node * 16 + 16 = omega (arith, s.0) in
        let m = rw e at (cover_live-middle xs ys node n a) in
        omega (
          arith,
          m,
          cover_free-put classes (h.header node) (node ∷ h.free (h.header node)) h.free a
              (omega (arith, s.0, s.1)),
        )

-- The memory, and the blocks that are allocated, each with its units.
pub record Memory : Type 0 where
  pub heap : Heap
  pub live : List (ℕ × ℕ)

pub data Step (p q : Memory) : Type 0 where
  allocs :
      (size node : ℕ)
      → size ≤ 4072
      → kalloc size p.heap ≡ some (node + 8, q.heap)
      → q.live ≡ (node, units size) ∷ p.live
      → Step p q
  frees :
      (xs ys : List (ℕ × ℕ)) (node n : ℕ)
      → p.live ≡ xs ++ ((node, n) ∷ ys)
      → kfree (node + 8) p.heap ≡ some q.heap
      → q.live ≡ xs ++ ys
      → Step p q

pub data Reach (p : Memory) : Memory → Type 0 where
  here : Reach p p
  next : {q r : Memory} → Reach p q → Step q r → Reach p r

Step-IsHeap : {p q : Memory} → Step p q → IsHeap p.heap p.live → IsHeap q.heap q.live
Step-IsHeap {p} {q} (allocs size node l h e) v = elim (kalloc_lem size p.heap p.live l v) [
  | inl (z, _) ↦ cc
  | inr (m, t, k, _, w, _) ↦
      let a : node ≡ m = ground arith in let b : q.heap ≡ t = ground arith in rw (e, b, a) w
]
Step-IsHeap {p} {q} (frees xs ys node n e h k) v =
    let (t, r, w, _) = kfree_lem p.heap xs ys node n (subst (λ bs. IsHeap p.heap bs) e v) in
    let b : q.heap ≡ t = ground arith in rw (k, b) w

Reach-IsHeap : {p q : Memory} → IsHeap p.heap p.live → Reach p q → IsHeap q.heap q.live
Reach-IsHeap v here = v
Reach-IsHeap v (next r st) = Step-IsHeap st (Reach-IsHeap v r)

-- After any sequence of calls of kalloc for at most 4072 bytes and of kfree of what is allocated, from
-- memory in which no byte is twice free and nothing is allocated, two allocated blocks never overlap.
pub blocks_apart :
    {p q : Memory} (xs ys zs : List (ℕ × ℕ)) (a n b m : ℕ)
    → p.live ≡ []
    → ((c : ℕ) → owners p.heap [] c ≤ 1)
    → Reach p q
    → q.live ≡ xs ++ ((a, n) ∷ (ys ++ ((b, m) ∷ zs)))
    → (a + n * 16 ≤ b) ⊎ (b + m * 16 ≤ a)
unfolding owners
blocks_apart {p} {q} xs ys zs a n b m z o r e = ground (
  arith,
  here_once a,
  here_once b,
  left.0,
  (AreSized-middle q.heap.header ys zs b m
      (AreSized-suffix q.heap.header xs (ys ++ ((b, m) ∷ zs)) left.2)).0,
)
  where
    v : IsHeap q.heap q.live
    v = Reach-IsHeap record { once = λ c. rw z (o c); sized = rw z tt } r

    left :
        (q.heap.header a + 1 ≡ n)
        × (n ≤ classes)
        × AreSized q.heap.header (xs ++ (ys ++ ((b, m) ∷ zs)))
    left =
        AreSized-middle q.heap.header xs (ys ++ ((b, m) ∷ zs)) a n
          (subst (λ bs. AreSized q.heap.header bs) e v.sized)

    tail :
        (ws ys : List (ℕ × ℕ)) (c : ℕ)
        → inside (m * 16) b c ≤ cover_live (ws ++ (ys ++ ((b, m) ∷ zs))) c
    tail [] [] c = omega arith
    tail [] (y ∷ ys) c = omega (arith, tail [] ys c)
    tail (w ∷ ws) ys c = omega (arith, tail ws ys c)

    here_once : (c : ℕ) → inside (n * 16) a c + inside (m * 16) b c ≤ 1
    here_once c = omega (
      arith,
      v.once c,
      ap (λ bs. cover_live bs c) e,
      cover_live-middle xs (ys ++ ((b, m) ∷ zs)) a n c,
      tail xs ys c,
    )
