-- ===== src/Fs/Pipe/Refine.antt =====
-- A pipe is a queue of at most 512 bytes: what pipe_write and pipe_read do to it.
use mathlib.Core.List.{append-nil, append_assoc}
use fdu2024_os_honor_lab.Prelude.{
  ℕ, zero, suc, ◌+◌, ◌-◌, ◌<◌, ◌≡◌, refl, ap, ap₂, ◌∙◌, inl, inr, Bool, true, not, ◌&&◌, ◌||◌, List,
  [], ◌∷◌, ◌++◌, arith, length, take, drop, leb, if◌then◌else◌, Bool-cases, min, length-take,
  take-append-drop,
}
use fdu2024_os_honor_lab.Fs.Pipe.{
  Pipe, Outcome, returned, failed, waits, pipe_size, is_full, is_empty, put, advance, write_from,
  write, read_loop, read,
}
use fdu2024_os_honor_lab.Fs.Pipe.Inv.{
  IsValid, fill, contents, length-contents, is_full-eq-true, is_full-eq-false, is_empty-eq-true,
  is_empty-eq-false, is_empty-eq-leb, fill-put, put-IsValid, contents-put, advance-IsValid,
  contents-front,
}

-- The free space of a pipe.
abbrev pub room : Pipe → ℕ
room p = pipe_size - fill p

-- How a write of `n` bytes, `i` of them done, leaves a pipe.
abbrev pub write_end : Bool → Pipe → ℕ → ℕ → Outcome
write_end killed p n i =
    if leb n (room p)
    then returned (i + n)
    else if not p.readopen || killed
    then failed
    else waits (i + room p)

record Wrote (killed : Bool) (p : Pipe) (xs : List ℕ) (i : ℕ) (out : Outcome × Pipe) : Type 0 where
  valid : IsValid out.1
  bytes : contents out.1 ≡ contents p ++ take (room p) xs
  how : out.0 ≡ write_end killed p (length xs) i

take-zero {ℓ} : {A : Type ℓ} (n : ℕ) (xs : List A) → n ≡ 0 → take n xs ≡ []
take-zero zero xs h = refl
take-zero (suc n) xs h = absurd (omega arith)

take-cons {ℓ} :
    {A : Type ℓ} (n : ℕ) (x : A) (xs : List A) → 0 < n → take n (x ∷ xs) ≡ x ∷ take (n - 1) xs
take-cons zero x xs h = absurd (omega arith)
take-cons (suc n) x xs h = ap (λ k. x ∷ take k xs) (omega arith)

take-nil {ℓ} : (A : Type ℓ) (n : ℕ) → take {A = A} n [] ≡ []
take-nil A zero = refl
take-nil A (suc n) = refl

readopen-put : (p : Pipe) (x : ℕ) → (put p x).readopen ≡ p.readopen
unfolding put
readopen-put p x = refl

rlock_IsValid : (p : Pipe) (n : ℕ) → IsValid p → IsValid (record p { rlock = n })
rlock_IsValid p n v = record {
  storage = v.storage;
  read_in = v.read_in;
  write_in = v.write_in;
  fits = v.fits;
}

full-Wrote :
    (killed : Bool) (x : ℕ) (xs : List ℕ) (p : Pipe) (i : ℕ)
    → IsValid p
    → is_full p ≡ true
    → Wrote killed p (x ∷ xs) i (write_from killed p (x ∷ xs) i)
unfolding write_from
full-Wrote killed x xs p i v e = rw e (elim (Bool-cases (not p.readopen || killed)) [
  | inl k ↦ rw k (record {
    valid = v;
    bytes = rw (take-zero (room p) (x ∷ xs) none_left, append-nil);
    how = ground (arith, none_left);
  })
  | inr k ↦ rw k (record {
    valid = rlock_IsValid p (p.rlock + 1) v;
    bytes = rw (take-zero (room p) (x ∷ xs) none_left, append-nil);
    how = ground (arith, none_left);
  })
])
  where
    none_left : room p ≡ 0
    none_left = omega (arith, is_full-eq-true p v e)

write_from-Wrote :
    (killed : Bool) (xs : List ℕ) (p : Pipe) (i : ℕ)
    → IsValid p
    → Wrote killed p xs i (write_from killed p xs i)
unfolding write_from
write_from-Wrote killed [] p i v = record {
  valid = rlock_IsValid p (p.rlock + 1) v;
  bytes = rw (take-nil ℕ (room p), append-nil);
  how = ground arith;
}
write_from-Wrote killed (x ∷ xs) p i v = elim (Bool-cases (is_full p)) [
  | inl e ↦ full-Wrote killed x xs p i v e
  | inr e ↦ ground (
    arith,
    is_full-eq-false p v e,
    fill-put p x v,
    readopen-put p x,
    put-IsValid p x v,
    contents-put p x v,
    write_from-Wrote killed xs (put p x) (i + 1),
    take-cons (room p) x xs,
    append_assoc (contents p) (x ∷ []) (take (room p - 1) xs),
  )
]

-- pipe_write keeps the invariant. It appends as many of the bytes, in order, as there is room for,
-- and returns their number if that is all of them; if not, it fails when nobody can read or the
-- caller is killed, and otherwise sleeps with exactly that many bytes written.
pub write_refines :
    (killed : Bool) (p : Pipe) (xs : List ℕ)
    → IsValid p
    → let (how, q) = write killed p xs in
      IsValid q
      × (contents q ≡ contents p ++ take (room p) xs)
      × (how ≡ write_end killed p (length xs) 0)
unfolding write
write_refines killed p xs v = let w = write_from-Wrote killed xs p 0 v in (w.valid, w.bytes, w.how)

record Took (p : Pipe) (n : ℕ) (out : List ℕ × Pipe) : Type 0 where
  valid : IsValid out.1
  bytes : out.0 ≡ take n (contents p)
  left : contents out.1 ≡ drop n (contents p)

drop-nil {ℓ} :
    {A : Type ℓ} (n : ℕ) (xs : List A) → length xs ≡ 0 → (drop n xs ≡ xs) × (take n xs ≡ [])
drop-nil zero xs h = (refl, refl)
drop-nil (suc n) [] h = (refl, refl)
drop-nil (suc n) (x ∷ xs) h = absurd (omega arith)

nil_of_length {ℓ} : {A : Type ℓ} (xs : List A) → length xs ≡ 0 → xs ≡ []
nil_of_length [] h = refl
nil_of_length (x ∷ xs) h = absurd (omega arith)

read_loop-Took : (n : ℕ) (p : Pipe) → IsValid p → Took p n (read_loop p n)
unfolding read_loop
read_loop-Took zero p v = record { valid = v; bytes = refl; left = refl }
read_loop-Took (suc n) p v = elim (Bool-cases (is_empty p)) [
  | inl e ↦ ground (arith, is_empty-eq-true p v e, length-contents p, drop-nil (suc n) (contents p))
  | inr e ↦ ground (
    arith,
    is_empty-eq-false p v e,
    advance-IsValid p v,
    contents-front p v,
    read_loop-Took n (advance p),
  )
]

-- How pipe_read of at most `n` bytes ends, and what it reads.
abbrev pub read_end : Bool → Pipe → ℕ → List ℕ × Outcome
read_end killed p n =
    if leb (fill p) 0 && p.writeopen
    then ([], if killed then failed else waits 0)
    else (take n (contents p), returned (min n (fill p)))

wlock_IsValid : (p : Pipe) (n : ℕ) → IsValid p → IsValid (record p { wlock = n })
wlock_IsValid p n v = record {
  storage = v.storage;
  read_in = v.read_in;
  write_in = v.write_in;
  fits = v.fits;
}

-- pipe_read keeps the invariant. It takes the oldest bytes, at most `n`, out of the pipe and returns
-- their number, which is 0 at the end of the stream; of an empty pipe that can still be written it
-- reads nothing and sleeps, or fails if the caller is killed.
pub read_refines :
    (killed : Bool) (p : Pipe) (n : ℕ)
    → IsValid p
    → let (xs, how, q) = read killed p n in
      IsValid q × ((xs, how) ≡ read_end killed p n) × (contents p ≡ xs ++ contents q)
unfolding read
read_refines killed p n v = elim (Bool-cases (leb (fill p) 0 && p.writeopen)) [
  | inl e ↦
      rw (is_empty-eq-leb p v, e)
        (elim (Bool-cases killed) [ inl k ↦ rw k (v, refl, refl) | inr k ↦ rw k (v, refl, refl) ])
  | inr e ↦
      rw (is_empty-eq-leb p v, e)
        (
          wlock_IsValid (read_loop p n).1 _ t.valid,
          ap₂ pair t.bytes (
              rw t.bytes
                (ap returned (length-take n (contents p) ∙ ap (min n) (length-contents p)))),
          rw (t.bytes, t.left, take-append-drop),
        )
]
  where
    t : Took p n (read_loop p n)
    t = read_loop-Took n p v

    pair : List ℕ → Outcome → List ℕ × Outcome
    pair xs o = (xs, o)
