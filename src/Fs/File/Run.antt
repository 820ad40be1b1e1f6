-- ===== src/Fs/File/Run.antt =====
-- Open files over any sequence of system calls of any processes.
use fdu2024_os_honor_lab.Prelude.{
  ℕ, zero, suc, ◌+◌, ◌≡◌, ◌≢◌, ◌≤◌, ap, refl, Bool, Option, none, some, List, [], ◌∷◌, ◌++◌, get_or,
  set, replicate, arith,
}
use fdu2024_os_honor_lab.Prelude.Int.{ℤ, pos}
use fdu2024_os_honor_lab.Prelude.Exec.{done}
use fdu2024_os_honor_lab.Fs.File.{
  Ftable, Oftable, Closing, keeps, file_close, sys_dup, sys_close, open_inode, close_all, share_all,
  init_oftable, nopenfile,
}
use fdu2024_os_honor_lab.Fs.File.Count.{
  count, IsCounted, sys_dup-IsCounted, sys_close-IsCounted, open_inode-IsCounted,
  close_all-IsCounted, share_all-IsCounted, count-set,
}

-- The global table, and the descriptors of each process.
pub record Files : Type 0 where
  pub table : Ftable
  pub oftables : List Oftable

abbrev pub count_all : ℕ → List Oftable → ℕ
count_all i [] = 0
count_all i (os ∷ pss) = count i os + count_all i pss

pub data Step (p q : Files) : Type 0 where
  starts : q ≡ record { table = p.table; oftables = init_oftable ∷ p.oftables } → Step p q
  dups :
      (xs ys : List Oftable) (os : Oftable) (fd : ℤ)
      → p.oftables ≡ xs ++ (os ∷ ys)
      → q ≡ record {
        table = (sys_dup fd os p.table).2;
        oftables = xs ++ ((sys_dup fd os p.table).1 ∷ ys);
      }
      → Step p q
  closes :
      (xs ys : List Oftable) (os ps : Oftable) (fd : ℤ) (r : Option Closing)
      → p.oftables ≡ xs ++ (os ∷ ys)
      → sys_close fd os p.table ≡ done (r, ps, q.table)
      → q.oftables ≡ xs ++ (ps ∷ ys)
      → Step p q
  opens :
      (xs ys : List Oftable) (os : Oftable) (ip : ℕ) (readable writable : Bool)
      → p.oftables ≡ xs ++ (os ∷ ys)
      → q ≡ record {
        table = (open_inode ip readable writable os p.table).2;
        oftables = xs ++ ((open_inode ip readable writable os p.table).1 ∷ ys);
      }
      → Step p q
  exits :
      (xs ys : List Oftable) (os : Oftable)
      → p.oftables ≡ xs ++ (os ∷ ys)
      → q ≡ record { table = (close_all os p.table).2; oftables = xs ++ ys }
      → Step p q
  forks :
      (xs ys : List Oftable) (os : Oftable)
      → p.oftables ≡ xs ++ (os ∷ ys)
      → q ≡ record {
        table = (share_all os p.table).1;
        oftables = (share_all os p.table).0 ∷ p.oftables;
      }
      → Step p q

pub data Reach (p : Files) : Files → Type 0 where
  here : Reach p p
  next : {q r : Files} → Reach p q → Step q r → Reach p r

-- No file has fewer references than descriptors.
pub record AreCounted (p : Files) : Type 0 where
  pub enough : (i : ℕ) → count_all i p.oftables ≤ (p.table i).ref

count_middle :
    (i : ℕ) (xs ys : List Oftable) (os : Oftable)
    → count_all i (xs ++ (os ∷ ys)) ≡ count i os + count_all i (xs ++ ys)
count_middle i [] ys os = refl
count_middle i (ps ∷ xs) ys os = omega (arith, count_middle i xs ys os)

module _ (xs ys : List Oftable) where
  -- One process among the others.
  focus :
      {p : Files} {os : Oftable}
      → p.oftables ≡ xs ++ (os ∷ ys)
      → AreCounted p
      → IsCounted (λ i. count_all i (xs ++ ys)) os p.table
  focus {p} {os} e c = record {
    enough = λ i. omega (arith, c.enough i, ap (count_all i) e, count_middle i xs ys os);
  }

  unfocus :
      (os : Oftable) (t : Ftable)
      → IsCounted (λ i. count_all i (xs ++ ys)) os t
      → AreCounted record { table = t; oftables = xs ++ (os ∷ ys) }
  unfocus os t c = record { enough = λ i. omega (arith, c.enough i, count_middle i xs ys os) }

count-replicate : (n i : ℕ) → count i (replicate n none) ≡ 0
count-replicate zero i = refl
count-replicate (suc n) i = omega (arith, count-replicate n i)

count-init_oftable : (i : ℕ) → count i init_oftable ≡ 0
unfolding init_oftable
count-init_oftable i = count-replicate nopenfile i

Step-AreCounted : {p q : Files} → Step p q → AreCounted p → AreCounted q
Step-AreCounted {p} (starts h) c =
    rw h record { enough = λ i. omega (arith, c.enough i, count-init_oftable i) }
Step-AreCounted {p} (dups xs ys os fd e h) c = rw h (
    unfocus xs ys (sys_dup fd os p.table).1 (sys_dup fd os p.table).2
      (sys_dup-IsCounted (λ i. count_all i (xs ++ ys)) fd os p.table (focus xs ys e c)))
Step-AreCounted {p} {q} (closes xs ys os ps fd r e h k) c =
    let d = unfocus xs ys ps q.table (
      sys_close-IsCounted (λ i. count_all i (xs ++ ys)) fd os ps p.table q.table r (focus xs ys e c)
        h) in
    record { enough = λ i. rw k (d.enough i) }
Step-AreCounted {p} (opens xs ys os ip readable writable e h) c = rw h (
    unfocus xs ys (open_inode ip readable writable os p.table).1
      (open_inode ip readable writable os p.table).2
      (open_inode-IsCounted (λ i. count_all i (xs ++ ys)) ip readable writable os p.table
        (focus xs ys e c)))
Step-AreCounted {p} (exits xs ys os e h) c =
    let (d, z) = close_all-IsCounted (λ i. count_all i (xs ++ ys)) os p.table (focus xs ys e c) in
    rw h record { enough = λ i. omega (arith, d.enough i) }
Step-AreCounted {p} (forks xs ys os e h) c =
    let (s, d) =
      share_all-IsCounted (λ i. count_all i p.oftables) os p.table
        record { enough = λ i. omega (arith, c.enough i) } in
    rw (h, s) record { enough = λ i. omega (arith, d.enough i) }

Reach-AreCounted : {p q : Files} → AreCounted p → Reach p q → AreCounted q
Reach-AreCounted c here = c
Reach-AreCounted c (next r st) = Step-AreCounted st (Reach-AreCounted c r)

-- A call of file_close that closes the object of a file takes its last reference.
close_last : (f : ℕ) (t : Ftable) → (file_close f t).0 ≢ keeps → (t f).ref ≤ 1
unfolding file_close
close_last f t n = ground arith

-- From a state with no processes, whatever the sequence of process starts, dup, close, openat, exit and fork: when a
-- close of descriptor `n` gives the pipe or inode of file `f` back, no descriptor of any process points
-- to that file afterwards.
pub close_releases_unused :
    {p q : Files} (xs ys : List Oftable) (os ps : Oftable) (n f : ℕ) (r : Closing) (u : Ftable)
    → p.oftables ≡ []
    → Reach p q
    → q.oftables ≡ xs ++ (os ∷ ys)
    → get_or os n none ≡ some f
    → sys_close (pos n) os q.table ≡ done (some r, ps, u)
    → r ≢ keeps
    → count_all f (xs ++ (ps ∷ ys)) ≡ 0
unfolding sys_close
close_releases_unused {p} {q} xs ys os ps n f r u z s e g h k = omega (
  arith,
  c.enough f,
  ap (count_all f) e,
  count_middle f xs ys os,
  count_middle f xs ys ps,
  m,
  last,
  ap (count f) what.1,
)
  where
    c : AreCounted q
    c = Reach-AreCounted record { enough = λ i. rw z (omega arith) } s

    what : (r ≡ (file_close f q.table).0) × (ps ≡ set os n none)
    what = ground (arith, rw g at h)

    m : count f (set os n none) + 1 ≡ count f os
    m = let a = rw g at (count-set os n f) in ground (arith, a)

    last : (q.table f).ref ≤ 1
    last = close_last f q.table (rw what.0 at k)
