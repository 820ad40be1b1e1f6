-- ===== src/Fs/Cache/Blocks.antt =====
-- The list of cached blocks of src/fs/cache.c: searching, detaching, evicting.
use mathlib.Core.Option
use fdu2024_os_honor_lab.Prelude.{
  ℕ, ◌≡◌, ◌≢◌, ◌⊎◌, refl, inl, inr, Bool, true, ◌&&◌, Option, none, some, List, [], ◌∷◌, arith,
  ◌==◌, leb, if◌then◌else◌, Bool-cases,
}
use fdu2024_os_honor_lab.Fs.Cache.{
  Block, find, remove, change, evictable, manage_block_num, eviction_threshold,
}

-- No two cached blocks have one number.
abbrev pub Distinct : List Block → Type 0
Distinct [] = Unit
Distinct (k ∷ ks) = (find k.block_no ks ≡ none) × Distinct ks

pub block_no_of_find : (b : ℕ) (ks : List Block) (k : Block) → find b ks ≡ some k → k.block_no ≡ b
unfolding find
block_no_of_find b [] k h = cc
block_no_of_find b (j ∷ ks) k h = ground (arith, block_no_of_find b ks k)

pub find-remove_ne : (b c : ℕ) (ks : List Block) → b ≢ c → find c (remove b ks) ≡ find c ks
unfolding find remove
find-remove_ne b c [] h = refl
find-remove_ne b c (k ∷ ks) h = ground (arith, find-remove_ne b c ks)

pub find-remove_self : (b : ℕ) (ks : List Block) → Distinct ks → find b (remove b ks) ≡ none
unfolding find remove
find-remove_self b [] d = refl
find-remove_self b (k ∷ ks) d = elim (Bool-cases (k.block_no == b)) [
  | inl e ↦ rw e (let p : k.block_no ≡ b = ground arith in rw (← p) d.0)
  | inr e ↦ rw e (rw e (find-remove_self b ks d.1))
]

find-remove-none : (b c : ℕ) (ks : List Block) → find c ks ≡ none → find c (remove b ks) ≡ none
unfolding find remove
find-remove-none b c [] h = refl
find-remove-none b c (k ∷ ks) h = ground (arith, find-remove-none b c ks)

pub remove-Distinct : (b : ℕ) (ks : List Block) → Distinct ks → Distinct (remove b ks)
unfolding remove
remove-Distinct b [] d = tt
remove-Distinct b (k ∷ ks) d = elim (Bool-cases (k.block_no == b)) [
  | inl e ↦ rw e d.1
  | inr e ↦ rw e (find-remove-none b k.block_no ks d.0, remove-Distinct b ks d.1)
]

module _ (f : Block → Block) (same : (k : Block) → (f k).block_no ≡ k.block_no) where
  pub find-change :
      (b c : ℕ) (ks : List Block)
      → find c (change b f ks) ≡ (if b == c then Option.map f (find c ks) else find c ks)
  unfolding find change
  find-change b c [] = ground arith
  find-change b c (k ∷ ks) = ground (arith, find-change b c ks, same k)

  pub change-Distinct : (b : ℕ) (ks : List Block) → Distinct ks → Distinct (change b f ks)
  unfolding change
  change-Distinct b [] d = tt
  change-Distinct b (k ∷ ks) d = elim (Bool-cases (k.block_no == b)) [
    | inl e ↦ rw (e, same k) d
    | inr e ↦ rw e (ground (arith, find-change b k.block_no ks, d.0), change-Distinct b ks d.1)
  ]

-- What eviction leaves of a search: the same block, or nothing where the block could be evicted.
abbrev pub Survives : Option Block → Option Block → Type 0
Survives before after =
    (after ≡ before) ⊎ ((k : Block) × (before ≡ some k) × (after ≡ none) × (evictable k ≡ true))

pub find-manage_none :
    (c : ℕ) (ks : List Block) (n : ℕ) → find c ks ≡ none → find c (manage_block_num ks n).0 ≡ none
unfolding find manage_block_num
find-manage_none c [] n h = refl
find-manage_none c (k ∷ ks) n h = ground (arith, find-manage_none c ks n)

pub manage-Survives :
    (c : ℕ) (ks : List Block) (n : ℕ)
    → Distinct ks
    → Survives (find c ks) (find c (manage_block_num ks n).0)
unfolding find manage_block_num
manage-Survives c [] n d = inl refl
manage-Survives c (k ∷ ks) n d = elim (Bool-cases (k.block_no == c)) [
  | inl e ↦ elim (Bool-cases evicts) [
    | inl v ↦ rw (v, e) (inr (k, refl, find-manage_none c ks n (gone e), and_right v))
    | inr v ↦ rw (v, e) (inl refl)
  ]
  | inr e ↦ elim (Bool-cases evicts) [
    | inl v ↦ rw (v, e) (manage-Survives c ks n d.1)
    | inr v ↦ rw (v, e) (manage-Survives c ks n d.1)
  ]
]
  where
    evicts : Bool
    evicts = leb eviction_threshold (manage_block_num ks n).1 && evictable k

    and_right : evicts ≡ true → evictable k ≡ true
    and_right v = ground arith

    gone : (k.block_no == c) ≡ true → find c ks ≡ none
    gone e = let p : k.block_no ≡ c = ground arith in rw (← p) d.0

pub manage-Distinct : (ks : List Block) (n : ℕ) → Distinct ks → Distinct (manage_block_num ks n).0
unfolding manage_block_num
manage-Distinct [] n d = tt
manage-Distinct (k ∷ ks) n d =
    elim (Bool-cases (leb eviction_threshold (manage_block_num ks n).1 && evictable k)) [
      | inl e ↦ rw e (manage-Distinct ks n d.1)
      | inr e ↦ rw e (find-manage_none k.block_no ks n d.0, manage-Distinct ks n d.1)
    ]
