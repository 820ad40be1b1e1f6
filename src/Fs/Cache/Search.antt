-- ===== src/Fs/Cache/Search.antt =====
-- The search of cache_alloc for a free block, and calls in sequence (src/fs/cache.c).
use fdu2024_os_honor_lab.Prelude.{
  ℕ, zero, suc, ◌+◌, ◌≡◌, ◌≤◌, ◌<◌, ◌∙◌, refl, ap, inl, inr, true, false, Option, some, arith, ◌==◌,
  Bool-cases,
}
use fdu2024_os_honor_lab.Prelude.Exec.{Result, done, panic, sleep, M, pure, ◌>>=◌, ◌>>◌}
use fdu2024_os_honor_lab.Fs.Bitmap
use fdu2024_os_honor_lab.Fs.Disk.{Words}
use fdu2024_os_honor_lab.Fs.Cache.{Cache, Block, find, release, load}
use fdu2024_os_honor_lab.Fs.Cache.Log.{alloc_from, alloc_block}

-- A call that comes back came back from its first part.
bind-done :
    {A B : Type 0} (m : M Cache A) (k : A → M Cache B) (s : Cache) (y : B × Cache)
    → (m >>= k) s ≡ done y
    → (x : A) × (t : Cache) × (m s ≡ done (x, t)) × (k x t ≡ done y)
bind-done {A} {B} m k s y h = first (m s) h
  where
    first :
        (r : Result (A × Cache))
        → elim r [ done (x, t) ↦ k x t | panic ↦ panic | sleep ↦ sleep ] ≡ done y
        → (x : A) × (t : Cache) × (r ≡ done (x, t)) × (k x t ≡ done y)
    first (done (x, t)) e = (x, t, refl, e)
    first panic e = cc
    first sleep e = cc

-- What comes behind a call whose result is known
pub after-done :
    {A B : Type 0} (m1 : M Cache (Unit {0})) (m2 : M Cache A) (m3 : M Cache (Unit {0}))
    (k : A → M Cache B) (t u : Cache) (c : A)
    → (m1 >> (m2 >>= λ x. m3 >> pure x)) t ≡ done (c, u)
    → (m1 >> (m2 >>= λ x. m3 >> k x)) t ≡ k c u
after-done m1 m2 m3 k t u c h =
    let (x1, t1, e1, h1) = bind-done m1 (λ z. m2 >>= λ x. m3 >> pure x) t (c, u) h in
    let (x2, t2, e2, h2) = bind-done m2 (λ x. m3 >> pure x) t1 (c, u) h1 in
    let (x3, t3, e3, h3) = bind-done m3 (λ z. pure x2) t2 (c, u) h2 in
    rw (e1, ◌>>=◌) (rw (e2, ◌>>=◌) (rw (e3, ◌>>=◌) (ap (λ y. k y.0 y.1) (done_same h3))))
  where
    done_same : {A : Type 0} {x y : A} → done x ≡ done y → x ≡ y
    done_same e = cc

-- The first number from `i` on, of `n`, that the bitmap has free
pub data FirstFree (cells : Words) (n i : ℕ) : Type 0 where
  found :
      (j : ℕ)
      → i ≤ j
      → j < i + n
      → Bitmap.get cells j ≡ false
      → ((m : ℕ) → i ≤ m → m < j → Bitmap.get cells m ≡ true)
      → FirstFree cells n i
  all_used : ((m : ℕ) → i ≤ m → m < i + n → Bitmap.get cells m ≡ true) → FirstFree cells n i

pub first_free : (cells : Words) (n i : ℕ) → FirstFree cells n i
first_free cells zero i = all_used (λ m a b. absurd (omega (arith, a, b)))
first_free cells (suc n) i = elim (Bool-cases (Bitmap.get cells i)) [
  | inr e ↦ found i (omega arith) (omega arith) e (λ m a b. absurd (omega (arith, a, b)))
  | inl e ↦ elim (first_free cells n (i + 1)) [
    | found j le lt not_used used ↦
        found j (omega (arith, le)) (omega (arith, lt)) not_used (λ m a b.
          elim (Bool-cases (m == i)) [
            | inl y ↦ let p : m ≡ i = ground (arith, y) in ap (Bitmap.get cells) p ∙ e
            | inr y ↦ used m (ground (arith, a, y)) b
          ])
    | all_used used ↦ all_used (λ m a b. elim (Bool-cases (m == i)) [
      | inl y ↦ let p : m ≡ i = ground (arith, y) in ap (Bitmap.get cells) p ∙ e
      | inr y ↦ used m (ground (arith, a, y)) (omega (arith, b))
    ])
  ]
]

pub load-cached :
    (b : ℕ) (t : Cache) (k : Block) → find b t.blocks ≡ some k → load b t ≡ done (k.words, t)
unfolding load
load-cached b t k e = rw (e, load) refl

module _ (ctx : Option ℕ) (t : Cache) (k : Block)
    (cached : find t.sblock.bitmap_start t.blocks ≡ some k) where
  loaded : load t.sblock.bitmap_start t ≡ done (k.words, t)
  loaded = load-cached t.sblock.bitmap_start t k cached

  -- The loop of cache_alloc reaches the first free block.
  pub alloc_from-found :
      (n i j : ℕ)
      → i ≤ j
      → j < i + n
      → Bitmap.get k.words j ≡ false
      → ((m : ℕ) → i ≤ m → m < j → Bitmap.get k.words m ≡ true)
      → alloc_from ctx n i t ≡ alloc_block ctx t.sblock.bitmap_start k.words j t
  unfolding alloc_from
  alloc_from-found zero i j le lt not_used used = absurd (omega (arith, le, lt))
  alloc_from-found (suc n) i j le lt not_used used = elim (Bool-cases (i == j)) [
    | inl y ↦
        let p : i ≡ j = ground (arith, y) in
        let here : Bitmap.get k.words i ≡ false = ap (Bitmap.get k.words) p ∙ not_used in
        rw (loaded, alloc_from, ◌>>=◌)
          (rw here (ap (λ m. alloc_block ctx t.sblock.bitmap_start k.words m t) p))
    | inr y ↦
        let here : Bitmap.get k.words i ≡ true = used i (omega arith) (ground (arith, le, y)) in
        rw (loaded, alloc_from, ◌>>=◌)
          (rw here (
            alloc_from-found n (i + 1) j (ground (arith, le, y)) (omega (arith, lt)) not_used
              (λ m a b. used m (omega (arith, a)) b)))
  ]

  pub alloc_from-full :
      (n i : ℕ)
      → ((m : ℕ) → i ≤ m → m < i + n → Bitmap.get k.words m ≡ true)
      → alloc_from ctx n i t ≡ panic
  unfolding alloc_from release
  alloc_from-full zero i used = refl
  alloc_from-full (suc n) i used =
      let here : Bitmap.get k.words i ≡ true = used i (omega arith) (omega arith) in
      rw (loaded, alloc_from, ◌>>=◌)
        (rw here
          (alloc_from-full n (i + 1) (λ m a b. used m (omega (arith, a)) (omega (arith, b)))))
