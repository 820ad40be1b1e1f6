-- ===== src/Fs/Disk/Crash.antt =====
-- Sequences of writes to a device, and what a crash leaves of them.
use fdu2024_os_honor_lab.Prelude.{
  ℕ, zero, suc, ◌-◌, ◌≤◌, ◌≡◌, ◌≢◌, refl, ap, ◌∙◌, inl, inr, Option, none, some, List, [], ◌∷◌,
  ◌++◌, arith, ◌==◌, if◌then◌else◌, take, length, Option-cases,
}
use fdu2024_os_honor_lab.Fs.Disk.{Words, Write, update, apply}

pub apply-append : (d : ℕ → Words) (xs ys : List Write) → apply d (xs ++ ys) ≡ apply (apply d xs) ys
unfolding apply
apply-append d [] ys = refl
apply-append d ((b, x) ∷ xs) ys = apply-append (update d b x) xs ys

-- The last thing that some writes put into a block.
unfoldable pub last : List Write → ℕ → Option Words
last [] b = none
last ((c, x) ∷ ws) b = elim (last ws b) [ some y ↦ some y | none ↦ if c == b then some x else none ]

abbrev or_else : Option Words → Words → Words
or_else none x = x
or_else (some y) x = y

pub apply-last :
    (d : ℕ → Words) (ws : List Write) (b : ℕ) → apply d ws b ≡ or_else (last ws b) (d b)
unfolding apply last
apply-last d [] b = refl
apply-last d ((c, x) ∷ ws) b = ground (arith, apply-last (update d c x) ws b)

-- Blocks that no write names.
abbrev pub Avoids : ℕ → List Write → Type 0
Avoids b [] = Unit
Avoids b ((c, x) ∷ ws) = (c ≢ b) × Avoids b ws

pub last-Avoids : (ws : List Write) (b : ℕ) → Avoids b ws → last ws b ≡ none
unfolding last
last-Avoids [] b h = refl
last-Avoids ((c, x) ∷ ws) b h = ground (arith, last-Avoids ws b h.1, h.0)

pub apply-Avoids : (d : ℕ → Words) (ws : List Write) (b : ℕ) → Avoids b ws → apply d ws b ≡ d b
apply-Avoids d ws b h = rw (apply-last, last-Avoids ws b h)

pub Avoids-take : (n : ℕ) (ws : List Write) (b : ℕ) → Avoids b ws → Avoids b (take n ws)
Avoids-take zero ws b h = tt
Avoids-take (suc n) [] b h = tt
Avoids-take (suc n) ((c, x) ∷ ws) b h = (h.0, Avoids-take n ws b h.1)

pub Avoids-append : (xs ys : List Write) (b : ℕ) → Avoids b xs → Avoids b ys → Avoids b (xs ++ ys)
Avoids-append [] ys b hx hy = hy
Avoids-append ((c, x) ∷ xs) ys b hx hy = (hx.0, Avoids-append xs ys b hx.1 hy)

last-take : (n : ℕ) (ws : List Write) (b : ℕ) → last ws b ≡ none → last (take n ws) b ≡ none
unfolding last
last-take zero ws b h = refl
last-take (suc n) [] b h = refl
last-take (suc n) ((c, x) ∷ ws) b h = ground (arith, last-take n ws b)

-- Writes that were partly done before may be done again from the start.
pub apply-take-redo :
    (d : ℕ → Words) (n : ℕ) (ws : List Write) (b : ℕ)
    → apply (apply d (take n ws)) ws b ≡ apply d ws b
apply-take-redo d n ws b = elim (Option-cases (last ws b)) [
  | inl e ↦ rw (
    apply-last (apply d (take n ws)) ws b,
    apply-last d ws b,
    e,
    apply-last d (take n ws) b,
    last-take n ws b e,
  )
  | inr e ↦ rw (apply-last (apply d (take n ws)) ws b, apply-last d ws b, e.1)
]

-- Writes of equal contents to devices that agree on a block leave them in agreement there.
pub apply_cong :
    (d e : ℕ → Words) (ws : List Write) (b : ℕ) → d b ≡ e b → apply d ws b ≡ apply e ws b
apply_cong d e ws b h = rw (apply-last d ws b, apply-last e ws b, h)

pub take-append_le {ℓ} :
    {A : Type ℓ} (n : ℕ) (xs ys : List A) → n ≤ length xs → take n (xs ++ ys) ≡ take n xs
take-append_le zero xs ys h = refl
take-append_le (suc n) [] ys h = absurd (omega arith)
take-append_le (suc n) (x ∷ xs) ys h = ap (λ t. x ∷ t) (take-append_le n xs ys (omega arith))

pub take-append_ge {ℓ} :
    {A : Type ℓ} (n : ℕ) (xs ys : List A)
    → length xs ≤ n
    → take n (xs ++ ys) ≡ xs ++ take (n - length xs) ys
take-append_ge n [] ys h = ap (λ k. take k ys) (omega arith)
take-append_ge zero (x ∷ xs) ys h = absurd (omega arith)
take-append_ge (suc n) (x ∷ xs) ys h =
    ap (λ t. x ∷ t) (take-append_ge n xs ys (omega arith) ∙ ap (λ k. xs ++ take k ys) (omega arith))
