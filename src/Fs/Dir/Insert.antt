-- ===== src/Fs/Dir/Insert.antt =====
-- Putting a name into a directory (inode_insert of src/fs/inode.c) and finding it there.
use fdu2024_os_honor_lab.Prelude.{
  ℕ, ◌+◌, ◌-◌, ◌*◌, ◌^◌, ◌≡◌, ◌≢◌, ◌≤◌, ◌<◌, ◌∙◌, refl, sym, ap, inl, inr, Option, some, true,
  false, List, ◌==◌, length, arith, Bool-cases,
}
use mathlib.Core.Path.{subst}
use fdu2024_os_honor_lab.Prelude.Exec.{done, M, ◌>>=◌}
use fdu2024_os_honor_lab.Fs.Cache.{Cache}
use fdu2024_os_honor_lab.Fs.Cache.Use.{Same, Same-trans}
use fdu2024_os_honor_lab.Fs.Inode.{Inode, InodeEntry, inode_directory, inode_device}
use fdu2024_os_honor_lab.Fs.Inode.Read.{file_bytes, file_bytes-Same}
use fdu2024_os_honor_lab.Fs.Inode.Write.{inode_max_bytes}
use fdu2024_os_honor_lab.Fs.Inode.Write.Bytes.{AreBytes, within}
use fdu2024_os_honor_lab.Fs.Inode.Write.Wrote.{IsLaidOut, Wrote}
use fdu2024_os_honor_lab.Fs.Inode.Write.Loop.{Fits, inode_write_lem}
use fdu2024_os_honor_lab.Fs.Dir.{entry_no, free_loop, new_entry, inode_lookup, inode_insert}
use fdu2024_os_honor_lab.Fs.Dir.Find.{
  entry_at, IsNamed, Answers, IsDirectory, IsDirectory-Same, inode_lookup_lem,
}
use fdu2024_os_honor_lab.Fs.Dir.Entry.{entry_no-new_entry, new_entry-IsNamed, new_entry-AreBytes}
use fdu2024_os_honor_lab.Fs.Dir.Slot.{
  IsFirstFree, IsFirstFree-Same, IsLaidOut-Same, file_bytes_are, file_bytes_stay, free_loop_lem,
}

-- The entries after the write of entry `k`
module _ {inode : Inode} {n k : ℕ} {bs : List ℕ} {s t : Cache} (d : IsDirectory inode n s)
    (lt : k < n) (len : length bs ≡ 16) (w : Wrote inode (16 * k) bs s t) where
  pub written-IsDirectory : IsDirectory inode n t
  written-IsDirectory = record {
    valid = w.valid;
    type = d.type;
    size = d.size;
    small = d.small;
    mapped = w.laid_out.mapped;
  }

  new_here : entry_at inode.entry t k ≡ bs
  new_here =
      ap (λ m. file_bytes inode.entry t m (16 * k)) (sym len)
      ∙ file_bytes_are inode.entry t bs (16 * k) λ i l.
        let inside : within (16 * k) (length bs) (16 * k + i) ≡ true = ground (arith, l) in
        let place : 16 * k + i - 16 * k ≡ i = omega arith in
        w.bytes (16 * k + i) (omega (arith, l, len, lt, d.size)) ∙ rw (inside, place) refl

  others_stay : (j : ℕ) → j < n → j ≢ k → entry_at inode.entry t j ≡ entry_at inode.entry s j
  others_stay j l other = file_bytes_stay inode.entry s t 16 (16 * j) λ i a b.
      let outside : within (16 * k) (length bs) i ≡ false = ground (arith, a, b, len, other) in
      w.bytes i (omega (arith, b, l, d.size)) ∙ rw outside refl

-- Only entry `k` has the name, so a search finds it.
only-Answers :
    (e : InodeEntry) (t : Cache) (name : List ℕ) (n k : ℕ) (r : ℕ × Option ℕ)
    → k < n
    → IsNamed name (entry_at e t k)
    → ((j : ℕ) → j < n → j ≢ k → ¬ IsNamed name (entry_at e t j))
    → Answers e t name 0 n r
    → r ≡ (entry_no (entry_at e t k), some (16 * k))
only-Answers e t name n k r lt named no_other (inl (j, le, l, named_j, before, is)) =
    elim (Bool-cases (j == k)) [
      | inl y ↦
          let p : j ≡ k = ground (arith, y) in
          is ∙ ap (λ i. (entry_no (entry_at e t i), some (16 * i))) p
      | inr y ↦ absurd (no_other j l (ground (arith, y)) named_j)
    ]
only-Answers e t name n k r lt named no_other (inr (none_at, is)) =
    absurd (none_at k (omega arith) lt named)

absent-Answers :
    (e : InodeEntry) (s : Cache) (name : List ℕ) (n : ℕ) (r : ℕ × Option ℕ)
    → ((j : ℕ) → j < n → ¬ IsNamed name (entry_at e s j))
    → Answers e s name 0 n r
    → r.0 ≡ 0
absent-Answers e s name n r no_one (inl (j, le, l, named, before, is)) = absurd (no_one j l named)
absent-Answers e s name n r no_one (inr (none_at, is)) = ap (λ x. x.0) is

Fits-Same : {rm a b : ℕ} {s t : Cache} → Same s t → Fits rm a b s → Fits rm a b t
Fits-Same q f lt = ((f lt).0, (let z = (f lt).1 in rw q.log.header z))

-- What inode_insert leaves, before the name is looked up
record Inserted (inode : Inode) (n k no : ℕ) (name : List ℕ) (s t : Cache) : Type 0 where
  directory : IsDirectory inode n t
  here : entry_at inode.entry t k ≡ new_entry no name (entry_at inode.entry s k)
  others : (j : ℕ) → j < n → j ≢ k → entry_at inode.entry t j ≡ entry_at inode.entry s j

module _ (console_read : ℕ → M Cache (List ℕ)) (console_write : List ℕ → M Cache ℕ) (inode : Inode)
    (rm n k no : ℕ) (name entry_there dir_entry : List ℕ) (s : Cache) (d : IsDirectory inode n s)
    (l : IsLaidOut inode s) (free : IsFirstFree inode n k s)
    (absent : (j : ℕ) → j < n → ¬ IsNamed name (entry_at inode.entry s j)) (are : AreBytes name)
    (max : inode.entry.num_bytes ≤ inode_max_bytes) (len : length entry_there ≡ 16)
    (len2 : length dir_entry ≡ 16) (fits : Fits rm (16 * k) (16 * k + 16) s) where
  inode_insert_runs :
      (left : ℕ) × (t : Cache) × (inode_insert console_read console_write
          (some rm)
          inode
          name
          no
          entry_there
          dir_entry
          s
        ≡ done ((16 * k, some left, inode), t))
      × Inserted inode n k no name s t
  unfolding inode_insert new_entry
  inode_insert_runs =
      let old = entry_at inode.entry s k in
      let (r, t1, run1, same1, answer) =
        inode_lookup_lem console_read inode n name entry_there s d len in
      let absent_now : (r.0 == 0) ≡ true =
        let z = absent-Answers inode.entry s name n r absent answer in ground (arith, z) in
      let d1 = IsDirectory-Same same1 d in
      let (t2, run2, same2) =
        free_loop_lem console_read inode.entry.num_bytes inode n k 0 dir_entry t1 d1
          (IsFirstFree-Same same1 free) (omega arith) (omega (arith, d.size)) len2 in
      let same = Same-trans same1 same2 in
      let run2s : free_loop console_read inode.entry.num_bytes inode (16 * 0) dir_entry t1
          ≡ done ((16 * k, old), t2) =
        run2 ∙ ap (λ bs. done ((16 * k, bs), t2)) (file_bytes-Same inode.entry same1 16 (16 * k)) in
      let no_device : inode.entry.type ≢ inode_device = λ p. omega (arith, p, d.type) in
      let room : 16 * k + 16 ≤ inode.entry.num_bytes = omega (arith, d.size, free.inside) in
      let (left, t3, run3, wrote) =
        inode_write_lem console_write inode rm (new_entry no name old) (16 * k) t2 same.valid
          (IsLaidOut-Same same l) no_device room (omega (arith, room, max))
          (new_entry-AreBytes no name old are) (Fits-Same same fits) in
      let d2 = IsDirectory-Same same d in
      let directory : (inode.entry.type == inode_directory) ≡ true = ground (arith, d.type) in
      (
        left,
        t3,
        rw directory (rw (run1, ◌>>=◌) (rw absent_now (rw (run2s, ◌>>=◌) (rw (run3, ◌>>=◌) refl)))),
        record {
          directory = written-IsDirectory d2 free.inside refl wrote;
          here = new_here d2 free.inside refl wrote;
          others = λ j h other.
              others_stay d2 free.inside refl wrote j h other
              ∙ file_bytes-Same inode.entry same 16 (16 * j);
        },
      )

  -- Inserting a new name into a directory puts the number into the first entry that is not in use, returns the
  -- place, and a later inode_lookup of the name finds both; the other entries stay. No block is held, the
  -- parts of the directory have blocks of their own, the number is positive and has 16 bits, the name is in
  -- no entry in use, and the operation and the log have room for a block.
  pub inode_insert-inode_lookup :
      0 < no
      → no < 2 ^ 16
      → (left : ℕ) × (t : Cache) × (u : Cache) × (inode_insert console_read console_write
            (some rm)
            inode
            name
            no
            entry_there
            dir_entry
            s
          ≡ done ((16 * k, some left, inode), t))
        × (inode_lookup console_read inode name dir_entry t ≡ done ((no, some (16 * k)), u))
        × ((j : ℕ) → j < n → j ≢ k → entry_at inode.entry t j ≡ entry_at inode.entry s j)
  unfolding new_entry
  inode_insert-inode_lookup pos small =
      let (left, t, run, i) = inode_insert_runs in
      let (r, u, found, same, answer) =
        inode_lookup_lem console_read inode n name dir_entry t i.directory len2 in
      let old = entry_at inode.entry s k in
      let named : IsNamed name (entry_at inode.entry t k) =
        subst (IsNamed name) (sym i.here) (new_entry-IsNamed no name old small pos) in
      let no_other : (j : ℕ) → j < n → j ≢ k → ¬ IsNamed name (entry_at inode.entry t j) =
        λ j h other. subst (λ bs. ¬ IsNamed name bs) (sym (i.others j h other)) (absent j h) in
      let number : entry_no (entry_at inode.entry t k) ≡ no =
        ap entry_no i.here ∙ entry_no-new_entry no name old small in
      let is : r ≡ (no, some (16 * k)) =
        only-Answers inode.entry t name n k r free.inside named no_other answer
        ∙ ap (λ m. (m, some (16 * k))) number in
      (left, t, u, run, found ∙ ap (λ x. done (x, u)) is, i.others)
