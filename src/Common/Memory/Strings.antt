-- ===== src/Common/Memory/Strings.antt =====
-- C strings in memory (strncmp, strncpy, strncpy_fast, strlen of src/common/string.c).
use fdu2024_os_honor_lab.Prelude.{
  ℕ, zero, suc, ◌+◌, ◌-◌, ◌≤◌, ◌<◌, ◌≡◌, ◌≢◌, ◌⊎◌, ◌↔◌, ◌∙◌, refl, sym, ap, inl, inr, false, arith,
  ◌&&◌, ltb, leb, ◌==◌, some, if◌then◌else◌, Bool-cases,
}
use fdu2024_os_honor_lab.Prelude.Int.{pos}
use fdu2024_os_honor_lab.Common.Memory.{
  Memory, poke, memcmp, strncmp, copy_string, fill_zero, strncpy, strlen,
}

-- Byte `k` of the string at `s`, with zeros behind its end.
unfoldable pub padded : Memory → ℕ → ℕ → ℕ
padded m s zero = m s
padded m s (suc k) = let rest = padded m (s + 1) k in if m s == 0 then 0 else rest

-- memcmp gives 0 only for equal bytes.
pub memcmp_eq :
    (n : ℕ) (m : Memory) (a b k : ℕ) → k < n → memcmp m a b n ≡ pos 0 → m (a + k) ≡ m (b + k)
unfolding memcmp
memcmp_eq zero m a b k l h = absurd (omega arith)
memcmp_eq (suc n) m a b zero l h = ground arith
memcmp_eq (suc n) m a b (suc k) l h = ground (arith, memcmp_eq n m (a + 1) (b + 1) k)

strncmp_eq :
    (n : ℕ) (m : Memory) (a b k : ℕ) → k < n → strncmp m a b n ≡ pos 0 → padded m a k ≡ padded m b k
unfolding strncmp padded
strncmp_eq zero m a b k l h = absurd (omega arith)
strncmp_eq (suc n) m a b zero l h = ground arith
strncmp_eq (suc n) m a b (suc k) l h = ground (arith, strncmp_eq n m (a + 1) (b + 1) k)

strncmp_of_eq :
    (n : ℕ) (m : Memory) (a b : ℕ)
    → ((k : ℕ) → k < n → padded m a k ≡ padded m b k)
    → strncmp m a b n ≡ pos 0
unfolding strncmp padded
strncmp_of_eq zero m a b h = refl
strncmp_of_eq (suc n) m a b h = elim (Bool-cases (m a == 0)) [
  | inl z ↦ ground (arith, h 0 (omega arith))
  | inr z ↦ ground (arith, h 0 (omega arith), strncmp_of_eq n m (a + 1) (b + 1) (shift z))
]
  where
    shift : (m a == 0) ≡ false → (k : ℕ) → k < n → padded m (a + 1) k ≡ padded m (b + 1) k
    shift z k l = ground (arith, h (suc k) (omega arith), h 0 (omega arith))

-- strncmp gives 0 exactly when the two strings agree, to the end of the shorter one or to `n` bytes.
pub strncmp_zero_iff :
    (n : ℕ) (m : Memory) (a b : ℕ)
    → (strncmp m a b n ≡ pos 0) ↔ ((k : ℕ) → k < n → padded m a k ≡ padded m b k)
strncmp_zero_iff n m a b = (λ h k l. strncmp_eq n m a b k l h, strncmp_of_eq n m a b)

fill_zero_lem :
    (n : ℕ) (m : Memory) (d b : ℕ)
    → fill_zero m d n b ≡ (if leb d b && ltb b (d + n) then 0 else m b)
unfolding fill_zero
fill_zero_lem zero m d b = ground arith
fill_zero_lem (suc n) m d b = ground (arith, fill_zero_lem n (poke m d 0) (d + 1) b)

padded_end : (k : ℕ) (m : Memory) (s : ℕ) → m s ≡ 0 → padded m s k ≡ 0
unfolding padded
padded_end zero m s h = h
padded_end (suc k) m s h = ground arith

padded_step :
    (k : ℕ) (m : Memory) (s : ℕ) → k ≢ 0 → m s ≢ 0 → padded m s k ≡ padded m (s + 1) (k - 1)
unfolding padded
padded_step zero m s h z = absurd (h refl)
padded_step (suc k) m s h z = let e : suc k - 1 ≡ k = omega arith in rw e (ground arith)

padded_zero : (k : ℕ) (m : Memory) (s : ℕ) → k ≡ 0 → padded m s k ≡ m s
unfolding padded
padded_zero zero m s h = refl
padded_zero (suc k) m s h = absurd (omega arith)

padded-poke :
    (k : ℕ) (m : Memory) (a x s : ℕ)
    → (a < s) ⊎ (s + k < a)
    → padded (poke m a x) s k ≡ padded m s k
unfolding padded
padded-poke zero m a x s h = ground arith
padded-poke (suc k) m a x s h = ground (arith, padded-poke k m a x (s + 1))

-- strncpy leaves the string, padded with zeros to `n` bytes, and changes no other byte, where the two
-- ranges do not overlap.
pub strncpy_lem :
    (n : ℕ) (m : Memory) (dest src b : ℕ)
    → (dest + n ≤ src) ⊎ (src + n ≤ dest)
    → strncpy m dest src n b
      ≡ (if leb dest b && ltb b (dest + n) then padded m src (b - dest) else m b)
unfolding strncpy copy_string
strncpy_lem zero m dest src b h = ground (arith, fill_zero_lem 0 m dest b)
strncpy_lem (suc n) m dest src b h = elim (Bool-cases (m src == 0)) [
  | inl z ↦ rw z (ground (arith, fill_zero_lem (suc n) m dest b, padded_end (b - dest) m src))
  | inr z ↦ rw z (
      ground (
        arith,
        strncpy_lem n (poke m dest (m src)) (dest + 1) (src + 1) b,
        padded_zero (b - dest) m src,
        padded_step (b - dest) m src,
        padded-poke (b - dest - 1) m dest (m src) (src + 1),
      ))
]

pub padded_cong :
    (k : ℕ) (m m' : Memory) (s : ℕ)
    → ((j : ℕ) → j ≤ k → m' (s + j) ≡ m (s + j))
    → padded m' s k ≡ padded m s k
unfolding padded
padded_cong zero m m' s h = ground (arith, h 0 (omega arith))
padded_cong (suc k) m m' s h = ground (arith, h 0 (omega arith), padded_cong k m m' (s + 1) rest)
  where
    rest : (j : ℕ) → j ≤ k → m' (s + 1 + j) ≡ m (s + 1 + j)
    rest j l = ground (arith, h (suc j) (omega arith))

-- A range that holds a padded string reads as that string.
pub padded_copy :
    (k : ℕ) (m m' : Memory) (d s : ℕ)
    → ((j : ℕ) → j ≤ k → m' (d + j) ≡ padded m s j)
    → padded m' d k ≡ padded m s k
unfolding padded
padded_copy zero m m' d s h = ground (arith, h 0 (omega arith))
padded_copy (suc k) m m' d s h = elim (Bool-cases (m s == 0)) [
  | inl z ↦ ground (arith, h 0 (omega arith))
  | inr z ↦ ground (arith, h 0 (omega arith), padded_copy k m m' (d + 1) (s + 1) (rest z))
]
  where
    rest : (m s == 0) ≡ false → (j : ℕ) → j ≤ k → m' (d + 1 + j) ≡ padded m (s + 1) j
    rest z j l = ground (arith, h (suc j) (omega arith))

-- A string that strncpy has put elsewhere compares equal to the original, as directory entries do to
-- the names that were put into them.
strncmp-strncpy :
    (n : ℕ) (m : Memory) (dest src : ℕ)
    → (dest + n ≤ src) ⊎ (src + n ≤ dest)
    → strncmp (strncpy m dest src n) dest src n ≡ pos 0
strncmp-strncpy n m dest src h = strncmp_of_eq n (strncpy m dest src n) dest src same
  where
    copied : (k : ℕ) → k < n → padded (strncpy m dest src n) dest k ≡ padded m src k
    copied k l =
        padded_copy k m (strncpy m dest src n) dest src
          (λ j q. ground (arith, strncpy_lem n m dest src (dest + j), ap (padded m src) (shift j)))
      where
        shift : (j : ℕ) → dest + j - dest ≡ j
        shift j = omega arith

    kept : (k : ℕ) → k < n → padded (strncpy m dest src n) src k ≡ padded m src k
    kept k l =
        padded_cong k m (strncpy m dest src n) src
          (λ j q. ground (arith, strncpy_lem n m dest src (src + j)))

    same :
        (k : ℕ) → k < n → padded (strncpy m dest src n) dest k ≡ padded (strncpy m dest src n) src k
    same k l = copied k l ∙ sym (kept k l)

-- strlen returns the distance to the first zero byte, with fuel for one round more than that.
strlen_lem :
    (f : ℕ) (m : Memory) (s k : ℕ)
    → k < f
    → ((j : ℕ) → j < k → m (s + j) ≢ 0)
    → m (s + k) ≡ 0
    → strlen f m s ≡ some k
unfolding strlen
strlen_lem zero m s k l h e = absurd (omega arith)
strlen_lem (suc f) m s zero l h e = ground arith
strlen_lem (suc f) m s (suc k) l h e =
    ground (arith, h 0 (omega arith), strlen_lem f m (s + 1) k (omega arith) rest last_zero)
  where
    rest : (j : ℕ) → j < k → m (s + 1 + j) ≢ 0
    rest j q z = h (suc j) (omega arith) (ground (arith, z))

    last_zero : m (s + 1 + k) ≡ 0
    last_zero = ground (arith, e)
