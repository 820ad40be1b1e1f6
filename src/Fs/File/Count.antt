-- ===== src/Fs/File/Count.antt =====
-- Reference counts of open files against the descriptors that point to them.
use fdu2024_os_honor_lab.Prelude.{
  ℕ, zero, suc, ◌+◌, ◌≡◌, ◌≤◌, ap, refl, Bool, Option, none, some, [], ◌∷◌, ◌==◌, if◌then◌else◌,
  ltb, get_or, set, arith, Bool-cases, Option-cases, inl, inr,
}
use fdu2024_os_honor_lab.Prelude.Int.{ℤ, pos, negsuc}
use fdu2024_os_honor_lab.Prelude.Exec.{Result, done}
use fdu2024_os_honor_lab.Fs.File.{
  Ftable, Oftable, set_file, find_free, file_alloc, file_dup, Closing, file_close, fd2file, fdalloc,
  sys_dup, sys_close, open_inode, close_all, share_all, nopenfile, nfile,
}

abbrev pub points : Option ℕ → ℕ → ℕ
points none i = 0
points (some j) i = if j == i then 1 else 0

-- How many descriptors of a process point to file `i`.
abbrev pub count : ℕ → Oftable → ℕ
count i [] = 0
count i (o ∷ os) = points o i + count i os

-- Every file has at least the references of a process and `others` from elsewhere.
pub record IsCounted (others : ℕ → ℕ) (os : Oftable) (t : Ftable) : Type 0 where
  pub enough : (i : ℕ) → count i os + others i ≤ (t i).ref

-- What fdalloc does to the count, where it finds a place.
abbrev Allocated : Oftable → ℕ → ℕ → Option (ℕ × Oftable) → Type 0
Allocated os f i none = Unit
Allocated os f i (some (n, ps)) = count i ps ≡ count i os + points (some f) i

Allocated-cons :
    (os : Oftable) (f g i : ℕ) (o : Option (ℕ × Oftable))
    → Allocated os f i o
    → Allocated
        (some g ∷ os)
        f
        i
        (elim o [ none ↦ none | some (n, ps) ↦ some (n + 1, some g ∷ ps) ])
Allocated-cons os f g i none a = tt
Allocated-cons os f g i (some (n, ps)) a = omega (arith, a)

fdalloc-Allocated : (os : Oftable) (f i : ℕ) → Allocated os f i (fdalloc os f)
unfolding fdalloc
fdalloc-Allocated [] f i = tt
fdalloc-Allocated (none ∷ os) f i = omega arith
fdalloc-Allocated (some g ∷ os) f i =
    Allocated-cons os f g i (fdalloc os f) (fdalloc-Allocated os f i)

pub count-set :
    (os : Oftable) (n i : ℕ) → count i (set os n none) + points (get_or os n none) i ≡ count i os
count-set [] n i = refl
count-set (o ∷ os) zero i = omega arith
count-set (o ∷ os) (suc n) i = omega (arith, count-set os n i)

module _ (others : ℕ → ℕ) where
  -- Closing a file that one descriptor less points to.
  pub file_close-enough :
      (f : ℕ) (os : Oftable) (t : Ftable)
      → ((i : ℕ) → count i os + points (some f) i + others i ≤ (t i).ref)
      → IsCounted others os (file_close f t).1
  unfolding file_close
  file_close-enough f os t h = record { enough = λ i. ground (arith, h i) }

  pub sys_dup-IsCounted :
      (fd : ℤ) (os : Oftable) (t : Ftable)
      → IsCounted others os t
      → IsCounted others (sys_dup fd os t).1 (sys_dup fd os t).2
  unfolding sys_dup file_dup
  sys_dup-IsCounted fd os t c = elim (Option-cases (fd2file os fd)) [
    | inl e ↦ rw (e, sys_dup) c
    | inr (f, e) ↦ elim (Option-cases (fdalloc os f)) [
      | inl h ↦ rw (e, sys_dup) (rw h c)
      | inr ((n, ps), h) ↦
          rw (e, sys_dup)
            (rw h record {
              enough =
                  λ i. let a = rw h at (fdalloc-Allocated os f i) in ground (arith, a, c.enough i);
            })
    ]
  ]

  IsCounted-returned :
      (os ps : Oftable) (t u : Ftable) (q r : Option Closing)
      → IsCounted others os t
      → ◌≡◌ {A = Result (Option Closing × Oftable × Ftable)} (done (q, os, t)) (done (r, ps, u))
      → IsCounted others ps u
  IsCounted-returned os ps t u q r c h =
      let p : ps ≡ os = ground arith in let k : u ≡ t = ground arith in rw (p, k) c

  pub sys_close-IsCounted :
      (fd : ℤ) (os ps : Oftable) (t u : Ftable) (r : Option Closing)
      → IsCounted others os t
      → sys_close fd os t ≡ done (r, ps, u)
      → IsCounted others ps u
  unfolding sys_close
  sys_close-IsCounted (negsuc n) os ps t u r c h = IsCounted-returned os ps t u none r c h
  sys_close-IsCounted (pos n) os ps t u r c h = elim (Bool-cases (ltb n nopenfile)) [
    | inr e ↦ IsCounted-returned os ps t u none r c (rw e at h)
    | inl e ↦ elim (Option-cases (get_or os n none)) [
      | inl g ↦ let k = rw (e, g) at h in cc
      | inr (f, g) ↦
          let d =
            file_close-enough f (set os n none) t
              (λ i. let a = rw g at (count-set os n i) in omega (arith, a, c.enough i)) in
          IsCounted-returned (set os n none) ps (file_close f t).1 u (some (file_close f t).0) r d
            (rw (e, g) at h)
    ]
  ]

  -- A new file counts one reference that nobody has yet.
  find_free_lem : (n i f : ℕ) (t : Ftable) → find_free n i t ≡ some f → (t f).ref ≡ 0
  unfolding find_free
  find_free_lem zero i f t h = cc
  find_free_lem (suc n) i f t h = elim (Bool-cases ((t i).ref == 0)) [
    | inl e ↦ let k = rw (e, find_free) at h in ground arith
    | inr e ↦ find_free_lem n (i + 1) f t (rw (e, find_free) at h)
  ]

  alloc_fails : (t : Ftable) → find_free nfile 0 t ≡ none → file_alloc t ≡ (none, t)
  unfolding file_alloc
  alloc_fails t e = rw (e, file_alloc) refl

  alloc_finds :
      (t : Ftable) (f : ℕ)
      → find_free nfile 0 t ≡ some f
      → file_alloc t ≡ (some f, set_file f (record (t f) { ref = 1 }) t)
  unfolding file_alloc
  alloc_finds t f e = rw (e, file_alloc) refl

  pub open_inode-IsCounted :
      (ip : ℕ) (readable writable : Bool) (os : Oftable) (t : Ftable)
      → IsCounted others os t
      → IsCounted others
          (open_inode ip readable writable os t).1
          (open_inode ip readable writable os t).2
  unfolding open_inode
  open_inode-IsCounted ip readable writable os t c = elim (Option-cases (find_free nfile 0 t)) [
    | inl e ↦ rw (alloc_fails t e, open_inode) (rw (alloc_fails t e) c)
    | inr (f, e) ↦
        let z : (t f).ref ≡ 0 = find_free_lem nfile 0 f t e in
        elim (Option-cases (fdalloc os f)) [
          | inl h ↦
              rw (alloc_finds t f e, open_inode)
                (rw (h, alloc_finds t f e)
                  (file_close-enough f os (set_file f (record (t f) { ref = 1 }) t)
                    (λ i. ground (arith, c.enough i))))
          | inr ((n, ps), h) ↦
              rw (alloc_finds t f e, open_inode)
                (rw (h, alloc_finds t f e)
                  record {
                    enough = λ i.
                        let a = rw h at (fdalloc-Allocated os f i) in ground (arith, a, c.enough i);
                  })
        ]
  ]

  -- exit leaves no descriptor open.
  pub close_all-IsCounted :
      (os : Oftable) (t : Ftable)
      → IsCounted others os t
      → IsCounted others (close_all os t).1 (close_all os t).2
        × ((i : ℕ) → count i (close_all os t).1 ≡ 0)
  unfolding close_all
  close_all-IsCounted [] t c = (c, λ i. refl)
  close_all-IsCounted (none ∷ os) t c =
      let (d, z) = close_all-IsCounted os t record { enough = λ i. omega (arith, c.enough i) } in
      (record { enough = λ i. omega (arith, d.enough i) }, λ i. omega (arith, z i))
  close_all-IsCounted (some f ∷ os) t c =
      let (d, z) =
        close_all-IsCounted os (file_close f t).1
          (file_close-enough f os t (λ i. omega (arith, c.enough i))) in
      (record { enough = λ i. omega (arith, d.enough i) }, λ i. omega (arith, z i))

-- fork: the child's descriptors count besides the parent's.
pub share_all-IsCounted :
    (others : ℕ → ℕ) (os : Oftable) (t : Ftable)
    → IsCounted others [] t
    → ((share_all os t).0 ≡ os) × IsCounted others os (share_all os t).1
unfolding share_all file_dup
share_all-IsCounted others [] t c = (refl, c)
share_all-IsCounted others (none ∷ os) t c =
    let (e, d) = share_all-IsCounted others os t c in
    (ap (λ ps. none ∷ ps) e, record { enough = λ i. omega (arith, d.enough i) })
share_all-IsCounted others (some f ∷ os) t c =
    let (e, d) =
      share_all-IsCounted (λ i. points (some f) i + others i) os (file_dup f t)
        record { enough = λ i. ground (arith, c.enough i) } in
    (ap (λ ps. some f ∷ ps) e, record { enough = λ i. omega (arith, d.enough i) })
