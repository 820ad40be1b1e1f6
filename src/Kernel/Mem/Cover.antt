-- ===== src/Kernel/Mem/Cover.antt =====
-- How often a byte is covered by free and allocated memory.
use fdu2024_os_honor_lab.Prelude.{
  ℕ, zero, suc, ◌+◌, ◌*◌, ◌≡◌, ◌≤◌, ◌<◌, refl, List, [], ◌∷◌, ◌==◌, ◌&&◌, if◌then◌else◌, ltb, leb,
  arith, false, Bool-cases, inl, inr,
}
use fdu2024_os_honor_lab.Kernel.Mem.{Heap, page_size, classes, put_at}

-- Whether byte `a` is one of the `n` from `p` on.
abbrev pub inside : ℕ → ℕ → ℕ → ℕ
inside n p a = if leb p a && ltb a (p + n) then 1 else 0

abbrev pub cover : ℕ → List ℕ → ℕ → ℕ
cover n [] a = 0
cover n (p ∷ ps) a = inside n p a + cover n ps a

-- the first `k` classes of free blocks
unfoldable pub cover_free : ℕ → (ℕ → List ℕ) → ℕ → ℕ
cover_free zero free a = 0
cover_free (suc k) free a = cover (k * 16 + 16) (free k) a + cover_free k free a

-- allocated blocks, each with its number of units
abbrev pub cover_live : List (ℕ × ℕ) → ℕ → ℕ
cover_live [] a = 0
cover_live ((p, n) ∷ bs) a = inside (n * 16) p a + cover_live bs a

-- The number of free pages, free blocks and allocated blocks that byte `a` lies in.
unfoldable pub owners : Heap → List (ℕ × ℕ) → ℕ → ℕ
owners h live a = cover_free classes h.free a + cover page_size h.nodes a + cover_live live a

-- Only the class that is changed covers more or less.
pub cover_free-beyond :
    (k i : ℕ) (xs : List ℕ) (free : ℕ → List ℕ) (a : ℕ)
    → k ≤ i
    → cover_free k (put_at i xs free) a ≡ cover_free k free a
unfolding cover_free
cover_free-beyond zero i xs free a l = refl
cover_free-beyond (suc k) i xs free a l =
    let e : (i == k) ≡ false = ground arith in
    rw e (omega (arith, cover_free-beyond k i xs free a (omega arith)))

pub cover_free-put :
    (k i : ℕ) (xs : List ℕ) (free : ℕ → List ℕ) (a : ℕ)
    → i < k
    → cover_free k (put_at i xs free) a + cover (i * 16 + 16) (free i) a
      ≡ cover_free k free a + cover (i * 16 + 16) xs a
unfolding cover_free
cover_free-put zero i xs free a l = absurd (omega arith)
cover_free-put (suc k) i xs free a l = elim (Bool-cases (i == k)) [
  | inl e ↦
      let p : i ≡ k = ground arith in
      rw e (rw p (omega (arith, cover_free-beyond k k xs free a (omega arith))))
  | inr e ↦ rw e (omega (arith, cover_free-put k i xs free a (ground arith)))
]
