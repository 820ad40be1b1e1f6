-- ===== src/Fs/Path/Walk/Steps.antt =====
-- The steps of namex (src/fs/inode.c) in a tree of directories, and what the elements of a path lead to.
use fdu2024_os_honor_lab.Prelude.{
  ℕ, ◌+◌, ◌-◌, ◌%◌, ◌≡◌, ◌≢◌, ◌<◌, ◌⊎◌, ◌∙◌, refl, sym, ap, inl, inr, Option, none, some, Bool,
  true, false, not, ◌&&◌, List, [], ◌∷◌, ◌==◌, leb, if◌then◌else◌, length, arith, Bool-cases,
}
use mathlib.Core.Path.{subst}
use fdu2024_os_honor_lab.Prelude.Exec.{done, M, ◌>>=◌}
use fdu2024_os_honor_lab.Fs.Cache.{Cache}
use fdu2024_os_honor_lab.Fs.Cache.Access.{view, IsValid}
use fdu2024_os_honor_lab.Fs.Cache.Batch.{nobody}
use fdu2024_os_honor_lab.Fs.Cache.Use.{Same, Same-trans, read_block_lem}
use fdu2024_os_honor_lab.Fs.Inode.{
  Inode, load_entry, inode_per_block, inode_sync, to_block_no, inode_directory,
}
use fdu2024_os_honor_lab.Fs.Inode.Map.{inode_at}
use fdu2024_os_honor_lab.Fs.Inode.Clear.Empties.{inode_put-kept}
use fdu2024_os_honor_lab.Fs.Dir.{entry_no, inode_lookup}
use fdu2024_os_honor_lab.Fs.Dir.Find.{
  IsDirectory, IsDirectory-Same, entry_at, inode_lookup_lem, Answers-Same,
}
use fdu2024_os_honor_lab.Fs.Path.{stored_name}
use fdu2024_os_honor_lab.Fs.Path.Walk.{
  Inodes, bump, drop_one, put_at, in_cache, object, inode_lock, inode_unlock, unread, read_new,
  inode_get, put, Arrived, unlock_and_fail,
}
use fdu2024_os_honor_lab.Fs.Path.Walk.Child.{first_no, first_no-Answers, first_no-found}

abbrev pub no_more : List (List ℕ) → Bool
no_more [] = true
no_more (w ∷ ws) = false

-- How often `n` is the inode that was returned
abbrev pub counts : Option ℕ → ℕ → ℕ
counts none n = 0
counts (some m) n = if n == m then 1 else 0

-- The object of inode `n` in memory, as its entry is on the device or in the cache
abbrev pub loaded : Cache → ℕ → Inode
loaded c n = record { inode_no = n; valid = true; entry = inode_at c n }

-- The number that directory `n`, of `size n` entries, has for a name, or 0
abbrev pub child : Cache → (ℕ → ℕ) → ℕ → List ℕ → ℕ
child c size n name = first_no name (entry_at (inode_at c n) c) (size n) 0

abbrev pub is_folder : Cache → ℕ → Bool
is_folder c n = (inode_at c n).type == inode_directory

-- What the elements of a path lead to from inode `ans`: through directories, to the inode of the last
-- element, or to the directory that it stands in
abbrev pub reach : Cache → (ℕ → ℕ) → Bool → ℕ → List ℕ → List (List ℕ) → Arrived
reach c size parent ans name [] = (if parent then none else some ans, name)
reach c size parent ans name (w ∷ ws) =
    let element = stored_name w in
    let next = child c size ans element in
    let more = reach c size parent next element ws in
    if not (is_folder c ans)
    then (none, element)
    else if parent && no_more ws
    then (some ans, element)
    else if next == 0
    then (none, element)
    else more

-- A tree of directories: the inodes of `linked` have links, and every entry in use of a directory among them names
-- one of them. The blocks of their entries and of the directories are not the header of the log.
pub record IsTree (linked : ℕ → Type 0) (size : ℕ → ℕ) (c : Cache) : Type 0 where
  pub valid : IsValid nobody c
  pub place : (n : ℕ) → linked n → to_block_no n c ≢ c.sblock.log_start
  pub number : (n : ℕ) → linked n → (n ≢ 0) × (n < c.sblock.num_inodes)
  pub links : (n : ℕ) → linked n → (inode_at c n).num_links ≢ 0
  pub folder : (n : ℕ) → linked n → is_folder c n ≡ true → IsDirectory (loaded c n) (size n) c
  pub entries :
      (n : ℕ)
      → linked n
      → is_folder c n ≡ true
      → (i : ℕ) → i < size n
      → entry_no (entry_at (inode_at c n) c i) ≢ 0
      → linked (entry_no (entry_at (inode_at c n) c i))

-- The blocks are as in `c`, and of the linked inodes those in memory, among them all with a reference, are as there.
pub record Agrees (linked : ℕ → Type 0) (c : Cache) (s : Inodes) : Type 0 where
  pub same : Same c s.cache
  pub table :
      (n : ℕ) → linked n → ((s.table n ≡ none) × (s.refs n ≡ 0)) ⊎ (s.table n ≡ some (loaded c n))

pub lock-runs :
    (n : ℕ) (s : Inodes)
    → s.refs n ≢ 0
    → s.held n ≡ 0
    → inode_lock n s ≡ done (tt, record s { held = bump n s.held })
unfolding inode_lock
lock-runs n s h k = ground (arith, h, k)

pub unlock-runs :
    (n : ℕ) (s : Inodes)
    → s.refs n ≢ 0
    → inode_unlock n s ≡ done (tt, record s { held = drop_one n s.held })
unfolding inode_unlock
unlock-runs n s h = ground (arith, h)

pub get-nothing : (n : ℕ) (s : Inodes) → n ≡ 0 → inode_get n s ≡ done (0, s)
unfolding inode_get
get-nothing n s h = ground (arith, h)

-- How a call ends that leaves the tree as it is
pub record Kept (linked : ℕ → Type 0) (c : Cache) (refs held : ℕ → ℕ) (t : Inodes) : Type 0 where
  pub agrees : Agrees linked c t
  pub refs_are : (x : ℕ) → t.refs x ≡ refs x
  pub held_are : (x : ℕ) → t.held x ≡ held x

-- How a walk from `s` that held `own` references and returns `r` ends
pub record Ended (linked : ℕ → Type 0) (c : Cache) (own : ℕ → ℕ) (r : Option ℕ) (s t : Inodes)
    : Type 0 where
  pub refs : (n : ℕ) → t.refs n + own n ≡ s.refs n + counts r n
  pub held : (n : ℕ) → t.held n ≡ s.held n
  pub agrees : Agrees linked c t

module _ (linked : ℕ → Type 0) (size : ℕ → ℕ) (c : Cache) (tree : IsTree linked size c) where
  pub child-linked :
      (n : ℕ) (name : List ℕ)
      → linked n
      → is_folder c n ≡ true
      → child c size n name ≢ 0
      → linked (child c size n name)
  child-linked n name l f =
      first_no-found linked name (entry_at (inode_at c n) c) (size n) 0
        (λ j lt. tree.entries n l f j (omega (arith, lt)))

  in_memory :
      (n : ℕ) (s : Inodes)
      → Agrees linked c s
      → linked n
      → s.refs n ≢ 0
      → s.table n ≡ some (loaded c n)
  in_memory n s a l h = elim (a.table n l) [ inl (p, z) ↦ absurd (h z) | inr p ↦ p ]

  pub object-runs :
      (n : ℕ) (s : Inodes)
      → Agrees linked c s
      → linked n
      → s.refs n ≢ 0
      → object n s ≡ done (loaded c n, s)
  unfolding object
  object-runs n s a l h = rw (in_memory n s a l h, object) refl

  pub lookup-runs :
      (console_read : ℕ → M Cache (List ℕ)) (dir_entry name : List ℕ) (n : ℕ) (s : Inodes)
      → Agrees linked c s
      → linked n
      → is_folder c n ≡ true
      → length dir_entry ≡ 16
      → (index : Option ℕ) × (t : Cache) × (in_cache
            (inode_lookup console_read (loaded c n) name dir_entry)
            s
          ≡ done ((child c size n name, index), record s { cache = t }))
        × Same c t
  unfolding in_cache
  lookup-runs console_read dir_entry name n s a l f len =
      let (r, t, run, same, answer) =
        inode_lookup_lem console_read (loaded c n) (size n) name dir_entry s.cache
          (IsDirectory-Same a.same (tree.folder n l f)) len in
      let e =
        first_no-Answers (inode_at c n) c name (size n) r
          (Answers-Same (inode_at c n) name 0 (size n) r a.same answer) in
      (
        r.1,
        t,
        rw (run, in_cache) (λ i. done ((e i, r.1), record s { cache = t })),
        Same-trans a.same same,
      )

  -- The objects in memory stay, with other references to `n`.
  table_held :
      (n : ℕ) (s : Inodes)
      → Agrees linked c s
      → s.table n ≡ some (loaded c n)
      → (refs : ℕ → ℕ) → ((m : ℕ) → (m == n) ≡ false → refs m ≡ s.refs m)
      → (m : ℕ) → linked m
      → ((s.table m ≡ none) × (refs m ≡ 0)) ⊎ (s.table m ≡ some (loaded c m))
  table_held n s a p refs others m l = elim (Bool-cases (m == n)) [
    | inl y ↦
        let e : n ≡ m = ground (arith, y) in inr (subst (λ k. s.table k ≡ some (loaded c k)) e p)
    | inr y ↦ elim (a.table m l) [ inl (q, z) ↦ inl (q, others m y ∙ z) | inr q ↦ inr q ]
  ]

  table_put :
      (n : ℕ) (s : Inodes)
      → Agrees linked c s
      → (refs : ℕ → ℕ) → ((m : ℕ) → (m == n) ≡ false → refs m ≡ s.refs m)
      → (m : ℕ) → linked m
      → ((put_at n (some (loaded c n)) s.table m ≡ none) × (refs m ≡ 0))
        ⊎ (put_at n (some (loaded c n)) s.table m ≡ some (loaded c m))
  table_put n s a refs others m l = elim (Bool-cases (m == n)) [
    | inl y ↦ let e : n ≡ m = ground (arith, y) in inr (rw y (ap (λ k. some (loaded c k)) e))
    | inr y ↦ elim (a.table m l) [
      | inl (q, z) ↦ inl (rw y q, others m y ∙ z)
      | inr q ↦ inr (rw y q)
    ]
  ]

  -- Reading the entry of an inode that is not in memory
  sync-runs :
      (n : ℕ) (s : Inodes)
      → Agrees linked c s
      → linked n
      → (t : Cache) × (inode_sync none (unread n) false s.cache ≡ done ((none, loaded c n), t))
        × Same c t
  unfolding inode_sync to_block_no
  sync-runs n s a l =
      let at : to_block_no n s.cache ≡ to_block_no n c = rw a.same.log.sblock refl in
      let (t, run, same) =
        read_block_lem (to_block_no n c) s.cache a.same.valid
          (λ p. tree.place n l (p ∙ ap (λ b. b.log_start) a.same.log.sblock)) in
      let mine : load_entry (n % inode_per_block) (view s.cache (to_block_no n c)) ≡ inode_at c n =
        ap (load_entry (n % inode_per_block)) (a.same.views (to_block_no n c)) in
      (
        t,
        rw (at, ◌>>=◌)
            (rw (run, ◌>>=◌)
              (λ i. done ((none, record { inode_no = n; valid = true; entry = mine i }), t))),
        Same-trans a.same same,
      )

  pub get-runs :
      (n : ℕ) (s : Inodes)
      → Agrees linked c s
      → linked n
      → (t : Inodes) × (inode_get n s ≡ done (n, t)) × Kept linked c (bump n s.refs) s.held t
  unfolding inode_get read_new in_cache
  get-runs n s a l =
      let (ne, lt) = tree.number n l in
      let some_no : (n == 0) ≡ false = ground (arith, ne) in
      let fits : leb s.cache.sblock.num_inodes n ≡ false =
        ground (arith, lt, ap (λ b. b.num_inodes) a.same.log.sblock) in
      elim (a.table n l) [
        | inr p ↦ (
          record s { refs = bump n s.refs },
          rw (some_no, fits, p) refl,
          record {
            agrees = record {
              same = a.same;
              table = table_held n s a p (bump n s.refs) (λ x y. rw y refl);
            };
            refs_are = λ x. refl;
            held_are = λ x. refl;
          },
        )
        | inl (p, z) ↦
            let (t, run, same) = sync-runs n s a l in
            (
              record s {
                refs = bump n s.refs;
                table = put_at n (some (loaded c n)) s.table;
                cache = t;
              },
              rw (some_no, fits, p) (rw (run, ◌>>=◌) refl),
              record {
                agrees = record {
                  same = same;
                  table = table_put n s a (bump n s.refs) (λ x y. rw y refl);
                };
                refs_are = λ x. refl;
                held_are = λ x. refl;
              },
            )
      ]

  pub put-runs :
      (n : ℕ) (s : Inodes)
      → Agrees linked c s
      → linked n
      → s.refs n ≢ 0
      → (t : Inodes) × (put n s ≡ done (tt, t)) × Kept linked c (drop_one n s.refs) s.held t
  unfolding put in_cache
  put-runs n s a l h =
      let left = s.refs n - 1 in
      let ne = tree.links n l in
      let stays : (left == 0 && (inode_at c n).num_links == 0) ≡ false = ground (arith, ne) in
      (
        record s { refs = put_at n left s.refs; table = put_at n (some (loaded c n)) s.table },
        rw (object-runs n s a l h, ◌>>=◌)
            (rw (inode_put-kept s.ctx (s.refs n) (loaded c n) s.cache stays, ◌>>=◌) refl),
        record {
          agrees = record {
            same = a.same;
            table = table_put n s a (put_at n left s.refs) (λ x y. rw y refl);
          };
          refs_are = λ x. elim (Bool-cases (x == n)) [
            | inl y ↦ let e : n ≡ x = ground (arith, y) in rw y (ap (λ k. s.refs k - 1) e)
            | inr y ↦ rw y refl
          ];
          held_are = λ x. refl;
        },
      )

  -- The walk ends at `ans`, whose lock it holds.
  pub given_up :
      (ans : ℕ) (name : List ℕ) (s x : Inodes)
      → Agrees linked c x
      → linked ans
      → s.refs ans ≢ 0
      → ((n : ℕ) → x.refs n ≡ s.refs n)
      → ((n : ℕ) → x.held n ≡ bump ans s.held n)
      → (t : Inodes) × (unlock_and_fail ans name x ≡ done ((none, name), t))
        × Ended linked c (counts (some ans)) none s t
  given_up ans name s x a l h same_refs same_held =
      let free : Inodes = record x { held = drop_one ans x.held } in
      let hx : x.refs ans ≢ 0 = λ p. h (sym (same_refs ans) ∙ p) in
      let (t, run, k) = put-runs ans free (record { same = a.same; table = a.table }) l hx in
      (
        t,
        rw (unlock-runs ans x hx, ◌>>=◌) (rw (run, ◌>>=◌) refl),
        record {
          refs = λ n. ground (arith, h, k.refs_are n, same_refs n);
          held = λ n. ground (arith, k.held_are n, same_held n);
          agrees = k.agrees;
        },
      )
