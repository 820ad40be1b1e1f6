-- ===== src/Fs/Path/Walk/Round.antt =====
-- A round of the loop of namex (src/fs/inode.c).
use fdu2024_os_honor_lab.Prelude.{
  ℕ, ◌≡◌, ◌≢◌, ◌∙◌, refl, sym, ap, inl, inr, Option, none, some, Bool, true, false, ◌&&◌, List, [],
  ◌∷◌, ◌==◌, length, arith, Bool-cases,
}
use fdu2024_os_honor_lab.Prelude.Exec.{done, M, ◌>>=◌, ◌>>◌}
use fdu2024_os_honor_lab.Fs.Cache.{Cache}
use fdu2024_os_honor_lab.Fs.Path.{skipelem, stored_name}
use fdu2024_os_honor_lab.Fs.Path.Split.{elements, skipelem-elements, empty_path}
use fdu2024_os_honor_lab.Fs.Path.Walk.{
  Inodes, bump, drop_one, is_end, inode_unlock, put, Arrived, round,
}
use fdu2024_os_honor_lab.Fs.Path.Walk.Steps.{
  no_more, counts, reach, child, is_folder, IsTree, Agrees, Ended, lock-runs, unlock-runs, put-runs,
  get-runs, get-nothing, object-runs, lookup-runs, child-linked, given_up,
}

pub end-no_more :
    (path x rest : List ℕ) → skipelem path ≡ some (x, rest) → is_end rest ≡ no_more (elements rest)
end-no_more path x rest e = elim (skipelem-elements path x rest e) [
  | inl p ↦ ap is_end p ∙ sym (ap no_more (ap elements p ∙ empty_path))
  | inr (y, ys, p) ↦ not_end rest y ys p ∙ sym (ap no_more p)
]
  where
    not_end : (r y : List ℕ) (ys : List (List ℕ)) → elements r ≡ y ∷ ys → is_end r ≡ false
    not_end [] y ys p = let q = sym empty_path ∙ p in ground (arith, q)
    not_end (c ∷ cs) y ys p = refl

-- A walk from an inode that goes on at the next one, to which it has moved its reference
moved-Ended :
    (linked : ℕ → Type 0) (c : Cache) (ans next : ℕ) (r : Option ℕ) (s x t : Inodes)
    → s.refs ans ≢ 0
    → ((n : ℕ) → x.refs n ≡ drop_one ans (bump next s.refs) n)
    → ((n : ℕ) → x.held n ≡ s.held n)
    → Ended linked c (counts (some next)) r x t
    → Ended linked c (counts (some ans)) r s t
moved-Ended linked c ans next r s x t h refs held e = record {
  refs = λ n.
      let z = e.refs n in
      elim (Bool-cases (n == ans)) [
        | inl y ↦
            let p : n ≡ ans = ground (arith, y) in ground (arith, z, y, h, refs n, ap s.refs p)
        | inr y ↦ ground (arith, z, y, refs n)
      ];
  held = λ n. e.held n ∙ held n;
  agrees = e.agrees;
}

module _ (linked : ℕ → Type 0) (size : ℕ → ℕ) (c : Cache) (tree : IsTree linked size c)
    (console_read : ℕ → M Cache (List ℕ)) (dir_entry : List ℕ)
    (sixteen : length dir_entry ≡ 16) where
  abbrev pub End : Bool → ℕ → List ℕ → List (List ℕ) → Inodes → M Inodes Arrived → Type 0
  End parent ans name ws s run =
      (t : Inodes) × (run s ≡ done (reach c size parent ans name ws, t))
      × Ended linked c (counts (some ans)) (reach c size parent ans name ws).0 s t

  -- The walk behind the last element
  pub ends :
      (more : ℕ → List ℕ → List ℕ → M Inodes Arrived) (parent : Bool) (ans : ℕ) (name : List ℕ)
      (s : Inodes)
      → Agrees linked c s
      → linked ans
      → s.refs ans ≢ 0
      → End parent ans name [] s (round console_read dir_entry more parent ans name none)
  ends more true ans name s a l h =
      let (t, run, k) = put-runs linked size c tree ans s a l h in
      (
        t,
        rw (run, ◌>>=◌) refl,
        record {
          refs = λ n. ground (arith, h, k.refs_are n);
          held = k.held_are;
          agrees = k.agrees;
        },
      )
  ends more false ans name s a l h =
      (s, refl, record { refs = λ n. refl; held = λ n. refl; agrees = a })

  -- From directory `ans`, whose lock is held, to the inode that an entry of it names
  module _ (ans next : ℕ) (s x : Inodes) (a : Agrees linked c x) (l : linked ans) (ln : linked next)
      (h : s.refs ans ≢ 0) (same_refs : (n : ℕ) → x.refs n ≡ bump next s.refs n)
      (same_held : (n : ℕ) → x.held n ≡ bump ans s.held n) where
    record Moved (t : Inodes) : Type 0 where
      agrees : Agrees linked c t
      refs_are : (n : ℕ) → t.refs n ≡ drop_one ans (bump next s.refs) n
      held_are : (n : ℕ) → t.held n ≡ s.held n

    moves :
        (run : M Inodes Arrived)
        → (t : Inodes) × ((do inode_unlock ans; put ans; run) x ≡ run t) × Moved t
    moves run =
        let hx : x.refs ans ≢ 0 = ground (arith, same_refs ans, h) in
        let free : Inodes = record x { held = drop_one ans x.held } in
        let (t, runs, k) =
          put-runs linked size c tree ans free (record { same = a.same; table = a.table }) l hx in
        (
          t,
          rw (unlock-runs ans x hx, ◌>>=◌) (rw (runs, ◌>>=◌) refl),
          record {
            agrees = k.agrees;
            refs_are = λ n. ground (arith, k.refs_are n, same_refs n);
            held_are = λ n. ground (arith, k.held_are n, same_held n);
          },
        )

    next_refs : (t : Inodes) → Moved t → t.refs next ≢ 0
    next_refs t m p = elim (Bool-cases (next == ans)) [
      | inl y ↦
          let e : next ≡ ans = ground (arith, y) in
          ground (arith, p, h, m.refs_are next, ap s.refs e, e)
      | inr y ↦ ground (arith, p, y, m.refs_are next)
    ]

  pub takes :
      (more : ℕ → List ℕ → List ℕ → M Inodes Arrived) (parent : Bool) (ans : ℕ)
      (name w rest : List ℕ) (ws : List (List ℕ)) (s : Inodes)
      → Agrees linked c s
      → linked ans
      → s.refs ans ≢ 0
      → ((n : ℕ) → s.held n ≡ 0)
      → is_end rest ≡ no_more ws
      → ((next : ℕ) (x : Inodes)
          → Agrees linked c x
          → linked next
          → x.refs next ≢ 0
          → ((n : ℕ) → x.held n ≡ 0)
          → End parent next (stored_name w) ws x (more next rest (stored_name w)))
      → End parent ans name
          (w ∷ ws)
          s
          (round console_read dir_entry more parent ans name (some (stored_name w, rest)))
  takes more parent ans name w rest ws s a l h k at_end goes_on =
      let element = stored_name w in
      let next = child c size ans element in
      let locked : Inodes = record s { held = bump ans s.held } in
      let al : Agrees linked c locked = record { same = a.same; table = a.table } in
      let lock = lock-runs ans s h (k ans) in
      let obj = object-runs linked size c tree ans locked al l h in
      elim (Bool-cases (is_folder c ans)) [
        | inr y ↦
            let (t, up, ended) =
              given_up linked size c tree ans element s locked al l h (λ n. refl) (λ n. refl) in
            rw y (t, rw (lock, ◌>>=◌) (rw (obj, ◌>>=◌) (rw y up)), ended)
        | inl y ↦ elim (Bool-cases (parent && no_more ws)) [
          | inl z ↦
              rw (y, z)
                (
                  record s { held = drop_one ans (bump ans s.held) },
                  rw (lock, ◌>>=◌)
                      (rw (obj, ◌>>=◌)
                        (rw (y, at_end, z) (rw (unlock-runs ans locked h, ◌>>=◌) refl))),
                  record {
                    refs = λ n. refl;
                    held = λ n. ground arith;
                    agrees = record { same = a.same; table = a.table };
                  },
                )
          | inr z ↦
              let (index, c2, looks, same) =
                lookup-runs linked size c tree console_read dir_entry element ans locked al l y
                  sixteen in
              let s2 : Inodes = record locked { cache = c2 } in
              let a2 : Agrees linked c s2 = record { same = same; table = a.table } in
              elim (Bool-cases (next == 0)) [
                | inl o ↦
                    let p : next ≡ 0 = ground (arith, o) in
                    let (t, up, ended) =
                      given_up linked size c tree ans element s s2 a2 l h (λ n. refl) (λ n. refl) in
                    rw (y, z, o)
                      (
                        t,
                        rw (lock, ◌>>=◌)
                            (rw (obj, ◌>>=◌)
                              (rw (y, at_end, z)
                                (rw (looks, ◌>>=◌) (rw (get-nothing next s2 p, ◌>>=◌) up)))),
                        ended,
                      )
                | inr o ↦
                    let some_next : next ≢ 0 = ground (arith, o) in
                    let ln = child-linked linked size c tree ans element l y some_next in
                    let (s3, get, k3) = get-runs linked size c tree next s2 a2 ln in
                    let (s4, goes, m) =
                      moves ans next s s3 k3.agrees l ln h k3.refs_are k3.held_are
                        (more next rest element) in
                    let (u, run, e) =
                      goes_on next s4 m.agrees ln
                        (next_refs ans next s s3 k3.agrees l ln h k3.refs_are k3.held_are s4 m)
                        (λ n. m.held_are n ∙ k n) in
                    rw (y, z, o)
                      (
                        u,
                        rw (lock, ◌>>=◌)
                            (rw (obj, ◌>>=◌)
                              (rw (y, at_end, z)
                                (rw (looks, ◌>>=◌) (rw (get, ◌>>=◌) (rw o (goes ∙ run)))))),
                        moved-Ended linked c ans next (reach c size parent next element ws).0 s s4 u
                            h m.refs_are m.held_are e,
                      )
              ]
        ]
      ]
