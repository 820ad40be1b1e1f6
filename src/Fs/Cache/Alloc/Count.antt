-- ===== src/Fs/Cache/Alloc/Count.antt =====
-- How many blocks cache_alloc (src/fs/cache.c) can still take.
use fdu2024_os_honor_lab.Prelude.{
  ℕ, zero, suc, ◌+◌, ◌≡◌, ◌<◌, ◌∙◌, ◌||◌, refl, sym, ap, inl, inr, some, Bool, true, false, ◌==◌,
  if◌then◌else◌, arith, Bool-cases,
}
use fdu2024_os_honor_lab.Prelude.Exec.{done}
use fdu2024_os_honor_lab.Fs.Cache.{Cache}
use fdu2024_os_honor_lab.Fs.Cache.Log.{alloc}
use fdu2024_os_honor_lab.Fs.Cache.Alloc.{in_use, HasBitmap, Allocated, HasAllocRoom, alloc_lem}
use fdu2024_os_honor_lab.Fs.Cache.Spent.{cost, Spent}

abbrev pub count_free : (ℕ → Bool) → ℕ → ℕ
count_free used zero = 0
count_free used (suc n) = if used n then count_free used n else suc (count_free used n)

-- The free blocks
abbrev pub free_blocks : Cache → ℕ
free_blocks s = count_free (in_use s) s.sblock.num_blocks

count_none : (used : ℕ → Bool) (n : ℕ) → ((m : ℕ) → m < n → used m ≡ true) → count_free used n ≡ 0
count_none used zero h = refl
count_none used (suc n) h =
    let u = h n (omega arith) in rw u (count_none used n (λ m l. h m (omega (arith, l))))

pub count_same :
    (used used2 : ℕ → Bool) (n : ℕ)
    → ((m : ℕ) → m < n → used2 m ≡ used m)
    → count_free used2 n ≡ count_free used n
count_same used used2 zero h = refl
count_same used used2 (suc n) h =
    let u = h n (omega arith) in
    let rest = count_same used used2 n (λ m l. h m (omega (arith, l))) in rw (u, rest) refl

count_one :
    (used used2 : ℕ → Bool) (i n : ℕ)
    → i < n
    → used i ≡ false
    → ((j : ℕ) → used2 j ≡ (i == j || used j))
    → count_free used n ≡ count_free used2 n + 1
count_one used used2 i zero l f h = absurd (omega (arith, l))
count_one used used2 i (suc n) l f h = elim (Bool-cases (i == n)) [
  | inl y ↦
      let p : i ≡ n = ground (arith, y) in
      let f2 : used n ≡ false = ap used (sym p) ∙ f in
      let g : used2 n ≡ true = h n ∙ rw y refl in
      let rest =
        count_same used used2 n
          (λ m lt. h m ∙ (let q : (i == m) ≡ false = ground (arith, p, lt) in rw q refl)) in
      rw (f2, g) (omega (arith, rest))
  | inr y ↦
      let g : used2 n ≡ used n = h n ∙ rw y refl in
      let rest = count_one used used2 i n (ground (arith, l, y)) f h in
      rw g (elim (Bool-cases (used n)) [ inl u ↦ rw u rest | inr u ↦ rw u (omega (arith, rest)) ])
]

-- Where a block is free, cache_alloc takes one, and one less is free.
pub alloc_succeeds :
    (rm : ℕ) (s : Cache)
    → HasBitmap s
    → HasAllocRoom rm s
    → 0 < free_blocks s
    → (i : ℕ) × (left : ℕ) × (u : Cache) × (i < s.sblock.num_blocks)
      × (alloc (some rm) s ≡ done ((i, some left), u))
      × Allocated i s u
      × Spent (cost s.sblock.bitmap_start s + 1) rm left s u
      × (free_blocks s ≡ free_blocks u + 1)
alloc_succeeds rm s h room pos = elim (alloc_lem rm s h room) [
  | inl x ↦ absurd (omega (arith, pos, count_none (in_use s) s.sblock.num_blocks x.1))
  | inr (i, left, u, lt, run, a, spent) ↦ (
    i,
    left,
    u,
    lt,
    run,
    a,
    spent,
    count_one (in_use s) (in_use u) i s.sblock.num_blocks lt a.free a.used
        ∙ ap (λ n. count_free (in_use u) n + 1) (sym (ap (λ k. k.num_blocks) a.sblock)),
  )
]
