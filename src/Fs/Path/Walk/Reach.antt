-- ===== src/Fs/Path/Walk/Reach.antt =====
-- namex of src/fs/inode.c reaches what the elements of the path lead to, and loses no reference and no lock.
use fdu2024_os_honor_lab.Prelude.{
  ℕ, zero, suc, ◌≡◌, ◌≢◌, ◌<◌, ◌⊎◌, ◌∙◌, refl, sym, ap, inl, inr, Option, none, some, Bool, List,
  ◌==◌, if◌then◌else◌, length, arith, Bool-cases,
}
use fdu2024_os_honor_lab.Prelude.Exec.{done, M, ◌>>=◌}
use fdu2024_os_honor_lab.Fs.Cache.{Cache}
use fdu2024_os_honor_lab.Fs.Path.{stored_name}
use fdu2024_os_honor_lab.Fs.Path.Split.{elements, skipelem_lem}
use fdu2024_os_honor_lab.Fs.Path.Walk.{
  Inodes, bump, inode_share, Arrived, walk, namex, starts_at_root, root_inode_no,
}
use fdu2024_os_honor_lab.Fs.Path.Walk.Round.{End, end-no_more, ends, takes}
use fdu2024_os_honor_lab.Fs.Path.Walk.Steps.{counts, reach, loaded, IsTree, Agrees, Ended, get-runs}

module _ (linked : ℕ → Type 0) (size : ℕ → ℕ) (c : Cache) (tree : IsTree linked size c)
    (console_read : ℕ → M Cache (List ℕ)) (dir_entry : List ℕ)
    (sixteen : length dir_entry ≡ 16) where
  walk_lem :
      (f : ℕ) (parent : Bool) (ans : ℕ) (path name : List ℕ) (s : Inodes)
      → length path < f
      → Agrees linked c s
      → linked ans
      → s.refs ans ≢ 0
      → ((n : ℕ) → s.held n ≡ 0)
      → End linked size c tree console_read dir_entry sixteen parent ans name
          (elements path)
          s
          (walk console_read dir_entry f parent ans path name)
  unfolding walk
  walk_lem zero parent ans path name s enough a l h k = ground (arith, enough)
  walk_lem (suc f) parent ans path name s enough a l h k =
      let more : ℕ → List ℕ → List ℕ → M Inodes Arrived =
        λ next rest element. walk console_read dir_entry f parent next rest element in
      elim (skipelem_lem path) [
        | inl (e, el) ↦
            rw (e, el)
              (ends linked size c tree console_read dir_entry sixteen more parent ans name s a l h)
        | inr (w, rest, e, el, shorter) ↦
            rw (e, el)
              (takes linked size c tree console_read dir_entry sixteen more parent ans name w rest
                (elements rest) s a l h k (end-no_more path (stored_name w) rest e)
                (λ next x ax ln hx kx.
                  walk_lem f parent next rest (stored_name w) x (omega (arith, enough, shorter)) ax
                    ln hx kx))
      ]

  -- In a tree of directories that the root and the directory of the process are in, to which the process holds a
  -- reference, with no lock held and the inodes in memory as on the device or in the cache, namex returns, and what the elements of the path lead to by the
  -- entries of the directories: from the root for a path that starts with a slash and from the directory of the
  -- process otherwise. It takes one reference to the inode that it returns and gives back every other one and every
  -- lock, also where it gives up, and leaves every block as it is.
  pub namex_lem :
      (cwd : ℕ) (path name : List ℕ) (parent : Bool) (s : Inodes)
      → Agrees linked c s
      → linked root_inode_no
      → linked cwd
      → ((n : ℕ) → s.held n ≡ 0)
      → s.refs cwd ≢ 0
      → let found =
          reach c size parent
            (if starts_at_root path then root_inode_no else cwd)
            name
            (elements path) in
        (t : Inodes) × (namex console_read dir_entry cwd path parent name s ≡ done (found, t))
        × Ended linked c (λ n. 0) found.0 s t
  unfolding namex inode_share
  namex_lem cwd path name parent s a root here k refs = elim (Bool-cases (starts_at_root path)) [
    | inl y ↦
        let (x, get, kept) = get-runs linked size c tree root_inode_no s a root in
        let (t, run, e) =
          walk_lem (suc (length path)) parent root_inode_no path name x (omega arith) kept.agrees
            root (ground (arith, kept.refs_are root_inode_no)) (λ n. kept.held_are n ∙ k n) in
        rw y (t, rw (get, ◌>>=◌) run, started root_inode_no x t kept.refs_are kept.held_are e)
    | inr y ↦
        let x : Inodes = record s { refs = bump cwd s.refs } in
        let ax : Agrees linked c x = record { same = a.same; table = shared } in
        let (t, run, e) =
          walk_lem (suc (length path)) parent cwd path name x (omega arith) ax here (ground arith)
            k in
        rw y (t, run, started cwd x t (λ n. refl) (λ n. refl) e)
  ]
    where
      shared :
          (n : ℕ)
          → linked n
          → ((s.table n ≡ none) × (bump cwd s.refs n ≡ 0)) ⊎ (s.table n ≡ some (loaded c n))
      shared n l = elim (a.table n l) [
        | inl (p, z) ↦ elim (Bool-cases (n == cwd)) [
          | inl y ↦ let q : n ≡ cwd = ground (arith, y) in absurd (refs (sym (ap s.refs q) ∙ z))
          | inr y ↦ inl (p, rw y z)
        ]
        | inr p ↦ inr p
      ]

      started :
          {r : Option ℕ} (ans : ℕ) (x t : Inodes)
          → ((n : ℕ) → x.refs n ≡ bump ans s.refs n)
          → ((n : ℕ) → x.held n ≡ s.held n)
          → Ended linked c (counts (some ans)) r x t
          → Ended linked c (λ n. 0) r s t
      started ans x t same_refs same_held e = record {
        refs = λ n. let z = e.refs n in ground (arith, z, same_refs n);
        held = λ n. e.held n ∙ same_held n;
        agrees = e.agrees;
      }
