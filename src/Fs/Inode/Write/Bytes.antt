-- ===== src/Fs/Inode/Write/Bytes.antt =====
-- Bytes that are stored in a block (src/fs/inode.c copies them with memcpy).
use fdu2024_os_honor_lab.Prelude.{
  ℕ, zero, suc, ◌+◌, ◌-◌, ◌*◌, ◌/◌, ◌%◌, ◌^◌, ◌≡◌, ◌≤◌, ◌<◌, ◌∙◌, refl, sym, ap, ap₂, inl, inr,
  Bool, false, ◌&&◌, List, [], ◌∷◌, ◌==◌, ltb, leb, if◌then◌else◌, arith, Bool-cases, get_or,
  length, length-set, get_or-set_self, get_or-set_ne,
}
use fdu2024_os_honor_lab.Fs.Disk.{Words}
use fdu2024_os_honor_lab.Fs.Inode.{byte}
use fdu2024_os_honor_lab.Fs.Inode.Write.{put_byte, set_byte, put_bytes}

get_byte : ℕ → ℕ → ℕ
get_byte zero w = w % 256
get_byte (suc k) w = get_byte k (w / 256)

get_byte-put_byte :
    (i j x w : ℕ) → x < 256 → get_byte j (put_byte i x w) ≡ (if i == j then x else get_byte j w)
unfolding put_byte get_byte
get_byte-put_byte zero zero x w h = omega (arith, h)
get_byte-put_byte zero (suc j) x w h =
    let p : (w / 256 * 256 + x) / 256 ≡ w / 256 = omega (arith, h) in
    let q : (0 == suc j) ≡ false = ground arith in rw q (ap (get_byte j) p)
get_byte-put_byte (suc i) zero x w h = ground arith
get_byte-put_byte (suc i) (suc j) x w h =
    let p : (put_byte i x (w / 256) * 256 + w % 256) / 256 ≡ put_byte i x (w / 256) = omega arith in
    let q : (suc i == suc j) ≡ (i == j) = ground arith in
    rw q (ap (get_byte j) p ∙ get_byte-put_byte i j x (w / 256) h)

get_byte_pow : (k w : ℕ) → k < 8 → w / 2 ^ (8 * k) % 2 ^ 8 ≡ get_byte k w
unfolding get_byte
get_byte_pow zero w h = omega arith
get_byte_pow (suc zero) w h = omega arith
get_byte_pow (suc (suc zero)) w h = omega arith
get_byte_pow (suc (suc (suc zero))) w h = omega arith
get_byte_pow (suc (suc (suc (suc zero)))) w h = omega arith
get_byte_pow (suc (suc (suc (suc (suc zero))))) w h = omega arith
get_byte_pow (suc (suc (suc (suc (suc (suc zero)))))) w h = omega arith
get_byte_pow (suc (suc (suc (suc (suc (suc (suc zero))))))) w h = omega arith
get_byte_pow (suc (suc (suc (suc (suc (suc (suc (suc k)))))))) w h = ground (arith, h)

byte_lem : (j : ℕ) (ws : Words) → byte j ws ≡ get_byte (j % 8) (get_or ws (j / 8) 0)
unfolding byte
byte_lem j ws = get_byte_pow (j % 8) (get_or ws (j / 8) 0) (omega arith)

-- A stored byte reads back, and no other changes.
pub byte-set_byte :
    (i j x : ℕ) (ws : Words)
    → x < 256
    → i / 8 < length ws
    → byte j (set_byte i x ws) ≡ (if i == j then x else byte j ws)
unfolding set_byte
byte-set_byte i j x ws h l = elim (Bool-cases ((i / 8) == (j / 8))) [
  | inl e ↦
      let p : i / 8 ≡ j / 8 = ground (arith, e) in
      let w = get_or ws (i / 8) 0 in
      let q : get_or (set_byte i x ws) (j / 8) 0 ≡ put_byte (i % 8) x w =
        rw (← p) (get_or-set_self ws (i / 8) (put_byte (i % 8) x w) 0 l) in
      let r : get_or ws (j / 8) 0 ≡ w = rw p refl in
      let same : ((i % 8) == (j % 8)) ≡ (i == j) = ground (arith, p) in
      byte_lem j (set_byte i x ws)
      ∙ ap (get_byte (j % 8)) q
      ∙ get_byte-put_byte (i % 8) (j % 8) x w h
      ∙ ap₂ (λ b z. if b then x else z) same (ap (get_byte (j % 8)) (sym r) ∙ sym (byte_lem j ws))
  | inr e ↦
      let q : get_or (set_byte i x ws) (j / 8) 0 ≡ get_or ws (j / 8) 0 =
        get_or-set_ne ws (put_byte (i % 8) x (get_or ws (i / 8) 0)) 0 (ground (arith, e)) in
      let other : (i == j) ≡ false = ground (arith, e) in
      byte_lem j (set_byte i x ws) ∙ ap (get_byte (j % 8)) q ∙ sym (byte_lem j ws) ∙ rw other refl
]

pub length-set_byte : (i x : ℕ) (ws : Words) → length (set_byte i x ws) ≡ length ws
unfolding set_byte
length-set_byte i x ws = length-set ws (i / 8) (put_byte (i % 8) x (get_or ws (i / 8) 0))

abbrev pub AreBytes : List ℕ → Type 0
AreBytes [] = Unit
AreBytes (x ∷ xs) = (x < 256) × AreBytes xs

abbrev pub within : ℕ → ℕ → ℕ → Bool
within i n j = leb i j && ltb j (i + n)

get_or_cons :
    (x : ℕ) (xs : List ℕ) (k : ℕ)
    → get_or (x ∷ xs) k 0 ≡ (if k == 0 then x else get_or xs (k - 1) 0)
get_or_cons x xs zero = refl
get_or_cons x xs (suc k) = ground arith

-- The bytes of a block after a copy into it
pub byte-put_bytes :
    (i j : ℕ) (xs : List ℕ) (ws : Words)
    → AreBytes xs
    → i + length xs ≤ 8 * length ws
    → byte j (put_bytes i xs ws)
      ≡ (if within i (length xs) j then get_or xs (j - i) 0 else byte j ws)
unfolding put_bytes
byte-put_bytes i j [] ws h l = ground arith
byte-put_bytes i j (x ∷ xs) ws h l =
    byte-put_bytes (i + 1) j xs (set_byte i x ws) h.1 (omega (arith, l, length-set_byte i x ws))
    ∙ ground (arith, byte-set_byte i j x ws h.0 (omega (arith, l)), get_or_cons x xs (j - i))

pub length-put_bytes : (i : ℕ) (xs : List ℕ) (ws : Words) → length (put_bytes i xs ws) ≡ length ws
unfolding put_bytes
length-put_bytes i [] ws = refl
length-put_bytes i (x ∷ xs) ws =
    length-put_bytes (i + 1) xs (set_byte i x ws) ∙ length-set_byte i x ws
