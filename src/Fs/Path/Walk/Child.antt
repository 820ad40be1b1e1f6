-- ===== src/Fs/Path/Walk/Child.antt =====
-- The number that a name stands for in a directory, read off its entries.
use fdu2024_os_honor_lab.Prelude.{
  ℕ, zero, suc, ◌+◌, ◌≡◌, ◌≢◌, ◌<◌, refl, ap, inl, inr, Option, Bool-cases, List, if◌then◌else◌,
  ◌==◌, arith,
}
use mathlib.Core.Path.{subst}
use fdu2024_os_honor_lab.Fs.Cache.{Cache}
use fdu2024_os_honor_lab.Fs.Inode.{InodeEntry}
use fdu2024_os_honor_lab.Fs.Dir.{entry_no, is_match}
use fdu2024_os_honor_lab.Fs.Dir.Find.{
  Answers, IsNamed, entry_at, is_match-IsNamed, no_match-IsNamed,
}

-- The number in the first entry in use with the name, among `f` entries from `i` on, or 0
unfoldable pub first_no : List ℕ → (ℕ → List ℕ) → ℕ → ℕ → ℕ
first_no name at zero i = 0
first_no name at (suc f) i =
    let more = first_no name at f (i + 1) in if is_match name (at i) then entry_no (at i) else more

first_no_lem :
    (e : InodeEntry) (s : Cache) (name : List ℕ) (f i : ℕ) (r : ℕ × Option ℕ)
    → Answers e s name i (i + f) r
    → r.0 ≡ first_no name (entry_at e s) f i
unfolding first_no
first_no_lem e s name zero i r (inl (k, le, lt, named, none_before, is)) =
    absurd (omega (arith, le, lt))
first_no_lem e s name zero i r (inr (none_at, is)) = ap (λ x. x.0) is
first_no_lem e s name (suc f) i r a = elim (Bool-cases (is_match name (entry_at e s i))) [
  | inl m ↦ rw m (found a (is_match-IsNamed name (entry_at e s i) m))
  | inr m ↦
      rw m (first_no_lem e s name f (i + 1) r (later a (no_match-IsNamed name (entry_at e s i) m)))
]
  where
    found :
        Answers e s name i (i + suc f) r
        → IsNamed name (entry_at e s i)
        → r.0 ≡ entry_no (entry_at e s i)
    found (inl (k, le, lt, named, none_before, is)) h = elim (Bool-cases (i == k)) [
      | inl y ↦ let p : i ≡ k = ground (arith, y) in rw p (ap (λ x. x.0) is)
      | inr y ↦ absurd (none_before i (omega arith) (ground (arith, y, le)) h)
    ]
    found (inr (none_at, is)) h = absurd (none_at i (omega arith) (omega arith) h)

    later :
        Answers e s name i (i + suc f) r
        → ¬ IsNamed name (entry_at e s i)
        → Answers e s name (i + 1) (i + 1 + f) r
    later (inl (k, le, lt, named, none_before, is)) h = elim (Bool-cases (i == k)) [
      | inl y ↦ let p : i ≡ k = ground (arith, y) in let h2 = rw p at h in absurd (h2 named)
      | inr y ↦ inl (
        k,
        ground (arith, y, le),
        omega (arith, lt),
        named,
        (λ j a b. none_before j (omega (arith, a)) b),
        is,
      )
    ]
    later (inr (none_at, is)) h =
        inr ((λ j a b. none_at j (omega (arith, a)) (omega (arith, b))), is)

pub first_no-Answers :
    (e : InodeEntry) (s : Cache) (name : List ℕ) (n : ℕ) (r : ℕ × Option ℕ)
    → Answers e s name 0 n r
    → r.0 ≡ first_no name (entry_at e s) n 0
first_no-Answers e s name n r a =
    let z : n ≡ 0 + n = omega arith in
    first_no_lem e s name n 0 r (subst (λ m. Answers e s name 0 m r) z a)

-- A number that is found is one of the entries.
pub first_no-found :
    (P : ℕ → Type 0) (name : List ℕ) (at : ℕ → List ℕ) (f i : ℕ)
    → ((j : ℕ) → j < i + f → entry_no (at j) ≢ 0 → P (entry_no (at j)))
    → first_no name at f i ≢ 0
    → P (first_no name at f i)
unfolding first_no
first_no-found P name at zero i all ne = absurd (ne refl)
first_no-found P name at (suc f) i all ne = elim (Bool-cases (is_match name (at i))) [
  | inl m ↦ let ne2 = rw m at ne in rw m (all i (omega arith) ne2)
  | inr m ↦
      let ne2 = rw m at ne in
      rw m (first_no-found P name at f (i + 1) (λ j l. all j (omega (arith, l))) ne2)
]
