-- ===== src/Fs/Inode/Packed.antt =====
-- Numbers of 32 bits in the words of a block (src/fs/inode.h).
use fdu2024_os_honor_lab.Prelude.{
  ℕ, zero, suc, ◌+◌, ◌-◌, ◌*◌, ◌/◌, ◌%◌, ◌^◌, ◌≡◌, ◌≤◌, ◌<◌, ◌⊎◌, ◌∙◌, refl, inl, inr, ◌&&◌, List,
  [], ◌∷◌, ◌++◌, ◌==◌, ltb, leb, if◌then◌else◌, get_or, set, length, arith, Bool-cases,
  get_or-set_self, get_or-set_ne, length-set,
}
use fdu2024_os_honor_lab.Fs.Disk.{Words}
use fdu2024_os_honor_lab.Fs.Inode.{InodeEntry, u32, set_u32, pack, put_words}

pub u32_even : (j : ℕ) (ws : Words) → j % 2 ≡ 0 → u32 j ws ≡ get_or ws (j / 2) 0 % 2 ^ 32
unfolding u32
u32_even j ws e = rw e (omega arith)

pub u32_odd : (j : ℕ) (ws : Words) → j % 2 ≡ 1 → u32 j ws ≡ get_or ws (j / 2) 0 / 2 ^ 32 % 2 ^ 32
unfolding u32
u32_odd j ws e = rw e (omega arith)

pub parity : (j : ℕ) → (j % 2 ≡ 0) ⊎ (j % 2 ≡ 1)
parity j = omega arith

-- The word that a store of an address leaves.
abbrev stored : ℕ → ℕ → ℕ → ℕ
stored i x w = if i % 2 == 0 then w / 2 ^ 32 * 2 ^ 32 + x else w % 2 ^ 32 + x * 2 ^ 32

get_or-stored :
    (i x : ℕ) (ws : Words) (m : ℕ)
    → i / 2 < length ws
    → get_or (set_u32 i x ws) m 0
      ≡ (if i / 2 == m then stored i x (get_or ws (i / 2) 0) else get_or ws m 0)
unfolding set_u32
get_or-stored i x ws m h = elim (Bool-cases (i / 2 == m)) [
  | inl e ↦
      let p : i / 2 ≡ m = ground arith in
      rw e (rw (← p) (get_or-set_self ws (i / 2) (stored i x (get_or ws (i / 2) 0)) 0 h))
  | inr e ↦ rw e (get_or-set_ne ws (stored i x (get_or ws (i / 2) 0)) 0 (ground arith))
]

-- A stored address reads back, and no other changes.
pub u32-set_u32 :
    (i j x : ℕ) (ws : Words)
    → x < 2 ^ 32
    → i / 2 < length ws
    → u32 j (set_u32 i x ws) ≡ (if i == j then x else u32 j ws)
u32-set_u32 i j x ws l h = elim (parity j) [
  | inl e ↦
      u32_even j (set_u32 i x ws) e
      ∙ ground (arith, get_or-stored i x ws (j / 2) h, u32_even j ws e, l, e)
  | inr e ↦
      u32_odd j (set_u32 i x ws) e
      ∙ ground (arith, get_or-stored i x ws (j / 2) h, u32_odd j ws e, l, e)
]

abbrev pub AreSmall : List ℕ → Type 0
AreSmall [] = Unit
AreSmall (u ∷ us) = (u < 2 ^ 32) × AreSmall us

u32_cons : (i w : ℕ) (ws : Words) → u32 (i + 2) (w ∷ ws) ≡ u32 i ws
unfolding u32
u32_cons i w ws =
    let p : (i + 2) / 2 ≡ suc (i / 2) = omega arith in
    let q : (i + 2) % 2 ≡ i % 2 = omega arith in rw (p, q) refl

beyond : (i w : ℕ) → 2 ≤ i → u32 i (w ∷ []) ≡ 0
unfolding u32
beyond i w l = let p : i / 2 ≡ suc (i / 2 - 1) = omega arith in rw p (omega arith)

pub u32-pack : (us : List ℕ) (i : ℕ) → AreSmall us → u32 i (pack us) ≡ get_or us i 0
unfolding pack u32
u32-pack [] i a = omega arith
u32-pack (u ∷ []) zero a = omega (arith, a.0)
u32-pack (u ∷ []) (suc zero) a = omega (arith, a.0)
u32-pack (u ∷ []) (suc (suc i)) a = beyond (suc (suc i)) u (omega arith)
u32-pack (u ∷ v ∷ us) zero a = omega (arith, a.0, a.1.0)
u32-pack (u ∷ v ∷ us) (suc zero) a = omega (arith, a.0, a.1.0)
u32-pack (u ∷ v ∷ us) (suc (suc i)) a =
    let p : suc (suc i) ≡ i + 2 = omega arith in
    rw p (u32_cons i (u + v * 2 ^ 32) (pack us) ∙ u32-pack us i a.1.1)

pub get_or-put_words :
    (xs : Words) (i j : ℕ) (ws : Words)
    → i + length xs ≤ length ws
    → get_or (put_words i xs ws) j 0
      ≡ (if leb i j && ltb j (i + length xs) then get_or xs (j - i) 0 else get_or ws j 0)
unfolding put_words
get_or-put_words [] i j ws l = ground arith
get_or-put_words (x ∷ xs) i j ws l = ground (
  arith,
  get_or-put_words xs (i + 1) j (set ws i x),
  length-set ws i x,
  get_or-set_self ws i x 0,
  get_or-set_ne ws {i = i} {j = j} x 0,
  tail_at,
)
  where
    tail_at : i < j → get_or (x ∷ xs) (j - i) 0 ≡ get_or xs (j - (i + 1)) 0
    tail_at h = let p : j - i ≡ suc (j - (i + 1)) = omega arith in rw p refl

pub length-pack : (us : List ℕ) → length (pack us) ≡ (length us + 1) / 2
unfolding pack
length-pack [] = omega arith
length-pack (u ∷ []) = omega arith
length-pack (u ∷ v ∷ us) = omega (arith, length-pack us)

pub AreSmall-append : (us vs : List ℕ) → AreSmall us → AreSmall vs → AreSmall (us ++ vs)
AreSmall-append [] vs a b = b
AreSmall-append (u ∷ us) vs a b = (a.0, AreSmall-append us vs a.1 b)

pub get_or-append : (us vs : List ℕ) (j : ℕ) → j < length us → get_or (us ++ vs) j 0 ≡ get_or us j 0
get_or-append [] vs j l = absurd (omega arith)
get_or-append (u ∷ us) vs zero l = refl
get_or-append (u ∷ us) vs (suc j) l = get_or-append us vs j (omega arith)

pub get_or-last : (us : List ℕ) (v : ℕ) → get_or (us ++ (v ∷ [])) (length us) 0 ≡ v
get_or-last [] v = refl
get_or-last (u ∷ us) v = get_or-last us v

pub entry_ext :
    {d e : InodeEntry}
    → d.type ≡ e.type
    → d.major ≡ e.major
    → d.minor ≡ e.minor
    → d.num_links ≡ e.num_links
    → d.num_bytes ≡ e.num_bytes
    → d.addrs ≡ e.addrs
    → d.indirect ≡ e.indirect
    → d ≡ e
entry_ext t m n l b a h = λ i. record {
  type = t i;
  major = m i;
  minor = n i;
  num_links = l i;
  num_bytes = b i;
  addrs = a i;
  indirect = h i;
}
