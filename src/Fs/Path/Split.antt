-- ===== src/Fs/Path/Split.antt =====
-- skipelem of src/fs/inode.c against the elements of a path.
use fdu2024_os_honor_lab.Prelude.{
  ℕ, ◌+◌, ◌≡◌, ◌≤◌, ◌<◌, ◌⊎◌, ◌∙◌, refl, ap, sym, true, false, none, some, List, [], ◌∷◌, ◌==◌,
  if◌then◌else◌, length, arith, Bool-cases, inl, inr,
}
use fdu2024_os_honor_lab.Fs.Path.{slash, skip_slashes, pass_name, stored_name, skipelem}

-- The elements of a path: what stands between its slashes, but for the empty pieces.
abbrev pub attach : ℕ → List (List ℕ) → List (List ℕ)
attach c [] = (c ∷ []) ∷ []
attach c (w ∷ ws) = (c ∷ w) ∷ ws

unfoldable pub split : List ℕ → List (List ℕ)
split [] = [] ∷ []
split (c ∷ cs) = let rest = split cs in if c == slash then [] ∷ rest else attach c rest

unfoldable pub drop_empty : List (List ℕ) → List (List ℕ)
drop_empty [] = []
drop_empty ([] ∷ ws) = drop_empty ws
drop_empty ((c ∷ w) ∷ ws) = (c ∷ w) ∷ drop_empty ws

abbrev pub elements : List ℕ → List (List ℕ)
elements path = drop_empty (split path)

skip_slashes-elements : (cs : List ℕ) → elements (skip_slashes cs) ≡ elements cs
unfolding split skip_slashes drop_empty
skip_slashes-elements [] = refl
skip_slashes-elements (c ∷ cs) = elim (Bool-cases (c == slash)) [
  | inl e ↦ rw e (skip_slashes-elements cs)
  | inr e ↦ rw e (rw (e, split) refl)
]

-- The pieces behind a first one.
abbrev split_after : List ℕ → List (List ℕ)
split_after [] = []
split_after (c ∷ cs) = split cs

pass_name-split : (cs : List ℕ) → split cs ≡ (pass_name cs).0 ∷ split_after (pass_name cs).1
unfolding split pass_name
pass_name-split [] = refl
pass_name-split (c ∷ cs) = elim (Bool-cases (c == slash)) [
  | inl e ↦ rw e refl
  | inr e ↦ rw e (rw (pass_name-split cs) refl)
]

-- What is left starts with a slash.
abbrev StartsAtSlash : List ℕ → Type 0
StartsAtSlash [] = Unit
StartsAtSlash (c ∷ cs) = (c == slash) ≡ true

pass_name-StartsAtSlash : (cs : List ℕ) → StartsAtSlash (pass_name cs).1
unfolding pass_name
pass_name-StartsAtSlash [] = tt
pass_name-StartsAtSlash (c ∷ cs) = elim (Bool-cases (c == slash)) [
  | inl e ↦ rw e e
  | inr e ↦ rw e (pass_name-StartsAtSlash cs)
]

after-elements : (cs : List ℕ) → StartsAtSlash cs → drop_empty (split_after cs) ≡ elements cs
unfolding split drop_empty
after-elements [] s = refl
after-elements (c ∷ cs) s = rw (s, split) refl

skip_slashes_head :
    (cs : List ℕ) (d : ℕ) (ds : List ℕ) → skip_slashes cs ≡ d ∷ ds → (d == slash) ≡ false
unfolding skip_slashes
skip_slashes_head [] d ds h = cc
skip_slashes_head (c ∷ cs) d ds h = elim (Bool-cases (c == slash)) [
  | inl e ↦ skip_slashes_head cs d ds (rw (e, skip_slashes) at h)
  | inr e ↦ let k = rw (e, skip_slashes) at h in ground arith
]

pass_name_head :
    (d : ℕ) (ds : List ℕ) → (d == slash) ≡ false → (pass_name (d ∷ ds)).0 ≡ d ∷ (pass_name ds).0
unfolding pass_name
pass_name_head d ds e = rw e refl

elements_head :
    (d : ℕ) (ds : List ℕ)
    → (d == slash) ≡ false
    → elements (d ∷ ds) ≡ (pass_name (d ∷ ds)).0 ∷ elements (skip_slashes (pass_name (d ∷ ds)).1)
unfolding drop_empty
elements_head d ds e =
    rw (skip_slashes-elements (pass_name (d ∷ ds)).1, pass_name-split (d ∷ ds))
      (rw (pass_name_head d ds e) (
        ap (λ ws. (d ∷ (pass_name ds).0) ∷ ws)
          (after-elements (pass_name (d ∷ ds)).1 (pass_name-StartsAtSlash (d ∷ ds)))))

pub empty_path : elements [] ≡ []
unfolding split drop_empty
empty_path = refl

length-skip_slashes : (cs : List ℕ) → length (skip_slashes cs) ≤ length cs
unfolding skip_slashes
length-skip_slashes [] = omega arith
length-skip_slashes (c ∷ cs) = ground (arith, length-skip_slashes cs)

length-pass_name : (cs : List ℕ) → length (pass_name cs).0 + length (pass_name cs).1 ≡ length cs
unfolding pass_name
length-pass_name [] = omega arith
length-pass_name (c ∷ cs) = ground (arith, length-pass_name cs)

cons-cases : (xs : List ℕ) → (xs ≡ []) ⊎ ((x : ℕ) × (ys : List ℕ) × (xs ≡ x ∷ ys))
cons-cases [] = inl refl
cons-cases (x ∷ xs) = inr (x, xs, refl)

-- skipelem returns null exactly for a path with no elements. Otherwise it stores the first element,
-- with a zero byte if it is shorter than 14 and cut to 14 bytes if not, and returns a shorter path with
-- exactly the elements behind it; so a loop over a path ends after as many rounds as it has elements.
pub skipelem_lem :
    (path : List ℕ)
    → ((skipelem path ≡ none) × (elements path ≡ []))
      ⊎ ((s : List ℕ) × (rest : List ℕ) × (skipelem path ≡ some (stored_name s, rest))
          × (elements path ≡ s ∷ elements rest)
          × (length rest < length path))
unfolding skipelem
skipelem_lem path = elim (cons-cases (skip_slashes path)) [
  | inl e ↦
      inl
        (rw (e, skipelem) refl, sym (skip_slashes-elements path) ∙ none_left (skip_slashes path) e)
  | inr (d, ds, e) ↦
      let n = skip_slashes_head path d ds e in
      inr (
        (pass_name (d ∷ ds)).0,
        skip_slashes (pass_name (d ∷ ds)).1,
        rw (e, skipelem) refl,
        sym (skip_slashes-elements path) ∙ ap elements e ∙ elements_head d ds n,
        omega (
          arith,
          length-skip_slashes path,
          length-pass_name (d ∷ ds),
          length-skip_slashes (pass_name (d ∷ ds)).1,
          ap length e,
          ap length (pass_name_head d ds n),
        ),
      )
]
  where
    none_left : (cs : List ℕ) → cs ≡ [] → elements cs ≡ []
    none_left cs e = rw e (empty_path)

-- What skipelem leaves is at its end exactly when it has no more elements.
pub skipelem-elements :
    (path x rest : List ℕ)
    → skipelem path ≡ some (x, rest)
    → (rest ≡ []) ⊎ ((y : List ℕ) × (ys : List (List ℕ)) × (elements rest ≡ y ∷ ys))
unfolding skipelem
skipelem-elements path x rest h = elim (cons-cases (skip_slashes path)) [
  | inl e ↦ let h2 = rw (e, skipelem) at h in ground (arith, h2)
  | inr (d, ds, e) ↦
      let h2 : some (stored_name (pass_name (d ∷ ds)).0, skip_slashes (pass_name (d ∷ ds)).1)
          ≡ some (x, rest) =
        rw (e, skipelem) at h in
      skipped (pass_name (d ∷ ds)).1 rest (some_rest h2)
]
  where
    some_rest : {a b : List ℕ × List ℕ} → some a ≡ some b → a.1 ≡ b.1
    some_rest p = cc

    skipped :
        (cs rest : List ℕ)
        → skip_slashes cs ≡ rest
        → (rest ≡ []) ⊎ ((y : List ℕ) × (ys : List (List ℕ)) × (elements rest ≡ y ∷ ys))
    skipped cs [] p = inl refl
    skipped cs (d ∷ ds) p = inr (
      (pass_name (d ∷ ds)).0,
      elements (skip_slashes (pass_name (d ∷ ds)).1),
      elements_head d ds (skip_slashes_head cs d ds p),
    )
