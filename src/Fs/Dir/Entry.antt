-- ===== src/Fs/Dir/Entry.antt =====
-- The entry that inode_insert (src/fs/inode.c) puts into a directory.
use fdu2024_os_honor_lab.Prelude.{
  ℕ, zero, suc, ◌+◌, ◌-◌, ◌^◌, ◌≡◌, ◌<◌, ◌∙◌, refl, sym, ap, inl, true, false, ◌&&◌, List, [], ◌∷◌,
  ltb, leb, get_or, arith,
}
use fdu2024_os_honor_lab.Common.Memory.{Memory, strncpy}
use fdu2024_os_honor_lab.Common.Memory.Strings.{padded, padded_cong, padded_copy, strncpy_lem}
use fdu2024_os_honor_lab.Fs.Inode.Write.Bytes.{AreBytes}
use fdu2024_os_honor_lab.Fs.Dir.{entry_no, entry_name, side_by_side, bytes_of, new_entry}
use fdu2024_os_honor_lab.Fs.Dir.Find.{IsNamed}

get_or-bytes_of : (n : ℕ) (m : Memory) (a i : ℕ) → i < n → get_or (bytes_of n m a) i 0 ≡ m (a + i)
get_or-bytes_of zero m a i h = ground (arith, h)
get_or-bytes_of (suc n) m a zero h = ap m (omega arith)
get_or-bytes_of (suc n) m a (suc i) h =
    get_or-bytes_of n m (a + 1) i (omega (arith, h)) ∙ ap m (omega arith)

padded_small : (k : ℕ) (m : Memory) (s : ℕ) → ((j : ℕ) → m (s + j) < 256) → padded m s k < 256
unfolding padded
padded_small zero m s h = let z = h 0 in let p : s + 0 ≡ s = omega arith in rw p at z
padded_small (suc k) m s h = ground (
  arith,
  padded_small k m (s + 1)
      (λ j. let p : s + suc j ≡ s + 1 + j = omega arith in rw p at (h (suc j))),
)

bytes_of-AreBytes :
    (n : ℕ) (m : Memory) (a : ℕ) → ((i : ℕ) → i < n → m (a + i) < 256) → AreBytes (bytes_of n m a)
bytes_of-AreBytes zero m a h = tt
bytes_of-AreBytes (suc n) m a h = (
  (let p : a + 0 ≡ a = omega arith in rw p at (h 0 (omega arith))),
  bytes_of-AreBytes n m (a + 1) (λ i l.
      let p : a + suc i ≡ a + 1 + i = omega arith in rw p at (h (suc i) (omega (arith, l)))),
)

get_or_small : (xs : List ℕ) (i : ℕ) → AreBytes xs → get_or xs i 0 < 256
get_or_small [] i h = omega arith
get_or_small (x ∷ xs) zero h = h.0
get_or_small (x ∷ xs) (suc i) h = get_or_small xs i h.1

module _ (no : ℕ) (name old : List ℕ) where
  abbrev before : Memory
  before = side_by_side (entry_name old) name

  abbrev copied : Memory
  copied = strncpy before 0 14 14

  copied_lem : (i : ℕ) → i < 14 → copied i ≡ padded before 14 i
  copied_lem i h =
      let inside : (leb 0 i && ltb i (0 + 14)) ≡ true = ground (arith, h) in
      strncpy_lem 14 before 0 14 i (inl (omega arith))
      ∙ rw inside (ap (padded before 14) (omega arith))

  pub entry_no-new_entry : no < 2 ^ 16 → entry_no (new_entry no name old) ≡ no
  unfolding new_entry
  entry_no-new_entry h = omega (arith, h)

  pub new_entry-IsNamed : no < 2 ^ 16 → 0 < no → IsNamed name (new_entry no name old)
  unfolding new_entry
  new_entry-IsNamed h pos = ((λ p. omega (arith, p, h, pos)), same)
    where
      name_part :
          (j : ℕ) → j < 14 → side_by_side (bytes_of 14 copied 0) name (0 + j) ≡ padded before 14 j
      name_part j l =
          let first : ltb (0 + j) 14 ≡ true = ground (arith, l) in
          let z : 0 + j ≡ j = omega arith in
          rw first (
            ap (λ i. get_or (bytes_of 14 copied 0) i 0) z
            ∙ get_or-bytes_of 14 copied 0 j l
            ∙ ap copied z
            ∙ copied_lem j l)

      second_part : (j : ℕ) → side_by_side (bytes_of 14 copied 0) name (14 + j) ≡ before (14 + j)
      second_part j = let second : ltb (14 + j) 14 ≡ false = ground arith in rw second refl

      same :
          (k : ℕ)
          → k < 14
          → padded (side_by_side (bytes_of 14 copied 0) name) 0 k
            ≡ padded (side_by_side (bytes_of 14 copied 0) name) 14 k
      same k l =
          padded_copy k before (side_by_side (bytes_of 14 copied 0) name) 0 14
            (λ j q. name_part j (omega (arith, q, l)))
          ∙ sym (
              padded_cong k before (side_by_side (bytes_of 14 copied 0) name) 14
                (λ j q. second_part j))

  pub new_entry-AreBytes : AreBytes name → AreBytes (new_entry no name old)
  unfolding new_entry
  new_entry-AreBytes h = (omega arith, (omega arith, bytes_of-AreBytes 14 copied 0 small))
    where
      small : (i : ℕ) → i < 14 → copied (0 + i) < 256
      small i l =
          let z : 0 + i ≡ i = omega arith in
          rw z (rw (copied_lem i l) (padded_small i before 14 tail))
        where
          tail : (j : ℕ) → before (14 + j) < 256
          tail j =
              let second : ltb (14 + j) 14 ≡ false = ground arith in
              rw second (get_or_small name (14 + j - 14) h)
