-- ===== src/Kernel/Mem/Alloc.antt =====
-- What kalloc and kfree of src/kernel/mem.c do to the memory: every byte keeps one owner.
use mathlib.Core.Path.{subst}
use fdu2024_os_honor_lab.Prelude.{
  ℕ, zero, suc, ◌+◌, ◌-◌, ◌*◌, ◌≡◌, ◌≤◌, ◌<◌, ◌⊎◌, sym, refl, none, some, List, [], ◌∷◌, ◌==◌, ltb,
  arith, true, false, Bool-cases, Option-cases, inl, inr,
}
use fdu2024_os_honor_lab.Kernel.Mem.{
  Heap, page_size, classes, put_at, kalloc_page, units, find_class, cut, cut_page, kalloc,
}
use fdu2024_os_honor_lab.Kernel.Mem.Cover.{inside, cover, cover_live, owners, cover_free-put}

-- The header of an allocated block holds its size.
abbrev pub AreSized : (ℕ → ℕ) → List (ℕ × ℕ) → Type 0
AreSized header [] = Unit
AreSized header ((p, n) ∷ bs) = (header p + 1 ≡ n) × (n ≤ classes) × AreSized header bs

-- No byte is in two free or allocated blocks.
pub record IsHeap (h : Heap) (live : List (ℕ × ℕ)) : Type 0 where
  pub once : (a : ℕ) → owners h live a ≤ 1
  pub sized : AreSized h.header live

AreSized-put :
    (node x : ℕ) (header : ℕ → ℕ) (live : List (ℕ × ℕ))
    → cover_live live node ≡ 0
    → AreSized header live
    → AreSized (put_at node x header) live
AreSized-put node x header [] z s = tt
AreSized-put node x header ((p, n) ∷ bs) z s =
    (ground (arith, s.0, z), s.1, AreSized-put node x header bs (omega (arith, z)) s.2)

find_class_lem :
    (n k : ℕ) (free : ℕ → List ℕ) (i node : ℕ) (rest : List ℕ)
    → find_class n k free ≡ some (i, node, rest)
    → (k ≤ i) × (i < k + n) × (free i ≡ node ∷ rest)
unfolding find_class
find_class_lem zero k free i node rest e = cc
find_class_lem (suc n) k free i node rest e =
    ground (arith, find_class_lem n (k + 1) free i node rest)

cut-owners :
    (number i node : ℕ) (rest : List ℕ) (h : Heap) (live : List (ℕ × ℕ)) (a : ℕ)
    → 0 < number
    → number ≤ i + 1
    → i < classes
    → h.free i ≡ node ∷ rest
    → owners (cut number i node rest h) ((node, number) ∷ live) a ≡ owners h live a
unfolding cut owners
cut-owners number i node rest h live a pos l b e = elim (Bool-cases (i + 1 - number == 0)) [
  | inl z ↦ rw z (ground (arith, q, cover_free-put classes i rest h.free a b))
  | inr z ↦ rw z (
      ground (
        arith,
        q,
        cover_free-put classes i rest h.free a b,
        cover_free-put classes (i + 1 - number - 1)
            ((node + number * 16) ∷ put_at i rest h.free (i + 1 - number - 1))
            (put_at i rest h.free) a,
      ))
]
  where
    q : cover (i * 16 + 16) (h.free i) a ≡ inside (i * 16 + 16) node a + cover (i * 16 + 16) rest a
    q = rw e refl

cut_page-owners :
    (number node : ℕ) (rest : List ℕ) (h : Heap) (live : List (ℕ × ℕ)) (a : ℕ)
    → 0 < number
    → number < classes
    → h.nodes ≡ node ∷ rest
    → owners (cut_page number node (record h { nodes = rest })) ((node, number) ∷ live) a
      ≡ owners h live a
unfolding cut_page owners
cut_page-owners number node rest h live a pos l e = ground (
  arith,
  q,
  cover_free-put classes (classes - number - 1)
      ((node + number * 16) ∷ h.free (classes - number - 1)) h.free a,
)
  where
    q : cover page_size h.nodes a ≡ inside page_size node a + cover page_size rest a
    q = rw e refl

-- An allocation of `n` units that gives block `node`.
pub record Allocated (n node : ℕ) (h t : Heap) (live : List (ℕ × ℕ)) : Type 0 where
  pub same : (a : ℕ) → owners t ((node, n) ∷ live) a ≡ owners h live a
  pub header : t.header ≡ put_at node (n - 1) h.header

cut-Allocated :
    (n i node : ℕ) (rest : List ℕ) (h : Heap) (live : List (ℕ × ℕ))
    → 0 < n
    → find_class (classes - (n - 1)) (n - 1) h.free ≡ some (i, node, rest)
    → n < classes
    → Allocated n node h (cut n i node rest h) live
unfolding cut
cut-Allocated n i node rest h live pos e l =
    let f = find_class_lem (classes - (n - 1)) (n - 1) h.free i node rest e in
    record {
      same = λ a. cut-owners n i node rest h live a pos (omega (arith, f)) (omega (arith, f)) f.2;
      header = ground arith;
    }

cut_page-Allocated :
    (n node : ℕ) (rest : List ℕ) (h : Heap) (live : List (ℕ × ℕ))
    → 0 < n
    → h.nodes ≡ node ∷ rest
    → n < classes
    → Allocated n node h (cut_page n node (record h { nodes = rest })) live
unfolding cut_page
cut_page-Allocated n node rest h live pos e l = record {
  same = λ a. cut_page-owners n node rest h live a pos l e;
  header = refl;
}

-- The new block is sized, and the headers of the others have not changed.
Allocated-IsHeap :
    (n node : ℕ) (h t : Heap) (live : List (ℕ × ℕ))
    → 0 < n
    → n < classes
    → Allocated n node h t live
    → IsHeap h live
    → IsHeap t ((node, n) ∷ live)
unfolding owners
Allocated-IsHeap n node h t live pos l k v = record {
  once = λ a. omega (arith, k.same a, v.once a);
  sized =
      subst (λ hd. AreSized hd ((node, n) ∷ live)) (sym k.header)
        (
          ground (arith, pos),
          omega arith,
          AreSized-put node (n - 1) h.header live free_there v.sized,
        );
}
  where
    free_there : cover_live live node ≡ 0
    free_there = ground (arith, k.same node, v.once node, pos)

pub units_lem : (size : ℕ) → (size + 8 ≤ units size * 16) × (units size * 16 < size + 24)
unfolding units
units_lem size = ground arith

cons-cases : (xs : List ℕ) → (xs ≡ []) ⊎ ((x : ℕ) × (ys : List ℕ) × (xs ≡ x ∷ ys))
cons-cases [] = inl refl
cons-cases (x ∷ xs) = inr (x, xs, refl)

-- kalloc of at most 4072 bytes: if a page is left it returns a pointer; and any pointer that it returns
-- stands 8 bytes behind the start of a block with room for the request, where no byte is lost or has a
-- second owner, and every allocated block has its size in its header.
pub kalloc_lem :
    (size : ℕ) (h : Heap) (live : List (ℕ × ℕ))
    → size ≤ 4072
    → IsHeap h live
    → ((kalloc size h ≡ none) × (h.nodes ≡ []))
      ⊎ ((node : ℕ) × (t : Heap) × (kalloc size h ≡ some (node + 8, t))
          × (size + 8 ≤ units size * 16)
          × IsHeap t ((node, units size) ∷ live)
          × ((a : ℕ) → owners t ((node, units size) ∷ live) a ≡ owners h live a))
unfolding kalloc kalloc_page
kalloc_lem size h live l v =
    elim (Option-cases (find_class (classes - (units size - 1)) (units size - 1) h.free)) [
      | inr ((i, node, rest), e) ↦
          let k = cut-Allocated (units size) i node rest h live pos e small in
          inr (
            node,
            cut (units size) i node rest h,
            rw (exact, e, kalloc) refl,
            u.0,
            Allocated-IsHeap (units size) node h (cut (units size) i node rest h) live pos small k
                v,
            k.same,
          )
      | inl e ↦ elim (cons-cases h.nodes) [
        | inl z ↦ inl (rw (exact, e, z, fits, kalloc, kalloc_page) refl, z)
        | inr (node, rest, z) ↦
            let t = cut_page (units size) node (record h { nodes = rest }) in
            let k = cut_page-Allocated (units size) node rest h live pos z small in
            inr (
              node,
              t,
              rw (exact, e, z, fits, kalloc, kalloc_page) refl,
              u.0,
              Allocated-IsHeap (units size) node h t live pos small k v,
              k.same,
            )
      ]
    ]
  where
    u : (size + 8 ≤ units size * 16) × (units size * 16 < size + 24)
    u = units_lem size

    pos : 0 < units size
    pos = omega (arith, u)

    small : units size < classes
    small = omega (arith, u)

    exact : (units size == classes) ≡ false
    exact = ground (arith, small)

    fits : ltb (units size) classes ≡ true
    fits = ground (arith, small)
