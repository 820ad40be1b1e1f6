-- ===== src/Fs/Cache/Atomic.antt =====
-- What recovery makes of a device on which only the first writes of a commit were done
-- (src/fs/cache.c).
use fdu2024_os_honor_lab.Prelude.{
  ℕ, zero, suc, ◌+◌, ◌-◌, ◌≤◌, ◌<◌, ◌≡◌, ◌⊎◌, refl, ap, ◌∙◌, inl, inr, List, [], ◌∷◌, ◌++◌, arith,
  leb, if◌then◌else◌, take, length, Bool-cases,
}
use fdu2024_os_honor_lab.Fs.Disk.{Words, Write, update, apply}
use fdu2024_os_honor_lab.Fs.Disk.Crash.{
  apply-append, Avoids, apply-Avoids, Avoids-take, apply-take-redo, apply_cong, take-append_le,
  take-append_ge,
}
use fdu2024_os_honor_lab.Fs.Cache.{LogHeader, to_words, from_words, logged, log_max_size}
use fdu2024_os_honor_lab.Fs.Cache.Log.{empty_header}
use fdu2024_os_honor_lab.Fs.Cache.Writes.{
  Outside, AllOutside, log_writes, restore_writes, home_writes, commit_writes, recovered,
  log_writes-Outside, log_writes-below, length-log_writes, home_writes-inside, Holds,
  Holds-log_writes, Holds-apply, restore-eq-home,
}

-- What the rest of a commit's writes are read from, with `h` its header.
module _ (start : ℕ) (h : LogHeader) (v d : ℕ → Words) where
  abbrev bs : List ℕ
  bs = logged h

  abbrev logs : List Write
  logs = log_writes start 0 bs v

  abbrev homes : List Write
  homes = home_writes bs v

  abbrev last_write : Write
  last_write = (start, to_words (record h { num_blocks = 0 }))

  module _ (fits : length bs < log_max_size) (outside : AllOutside start bs) where
    recovered_of_empty :
        (e : ℕ → Words) (b : ℕ)
        → (from_words (e start)).num_blocks ≡ 0
        → Outside start b
        → recovered start e b ≡ e b
    unfolding recovered restore_writes
    recovered_of_empty e b z o = rw z (apply-Avoids e _ b (omega arith, tt))

    -- The device once the log and the header are written.
    abbrev flushed : ℕ → Words
    flushed = update (apply d logs) start (to_words h)

    flushed-Outside : (b : ℕ) → Outside start b → flushed b ≡ d b
    flushed-Outside b o =
        ground (arith, apply-Avoids d logs b (log_writes-Outside start v 0 bs b o (omega arith)))

    homes-inside : (b : ℕ) → start ≤ b → b ≤ start + log_max_size → Avoids b homes
    homes-inside b lo hi = home_writes-inside start v bs b outside lo hi

    flushed-header : (j : ℕ) → from_words (apply flushed (take j homes) start) ≡ h
    unfolding from_words to_words
    flushed-header j =
        rw
          (apply-Avoids flushed (take j homes) start
            (Avoids-take j homes start (homes-inside start (omega arith) (omega arith))))
          (ground arith)

    flushed-Holds : (j : ℕ) → Holds start v (apply flushed (take j homes)) 0 bs
    unfolding apply
    flushed-Holds j =
        Holds-apply start v flushed (take j homes) 0 bs (omega arith)
          (λ b lo hi. Avoids-take j homes b (homes-inside b (omega arith) hi))
          (Holds-apply start v (apply d logs) ((start, to_words h) ∷ []) 0 bs (omega arith)
            (λ b lo hi. (omega arith, tt)) (Holds-log_writes start v d 0 bs))

    header-Avoids : (b : ℕ) (x : Words) → Outside start b → Avoids b ((start, x) ∷ [])
    header-Avoids b x o = (omega arith, tt)

    -- With the header written and some of the home blocks done.
    crash_while_installing :
        (j : ℕ) (b : ℕ)
        → Outside start b
        → recovered start (apply flushed (take j homes)) b ≡ apply d homes b
    unfolding recovered
    crash_while_installing j b o =
        rw
          (
            flushed-header j,
            restore-eq-home start v _ 0 bs (flushed-Holds j),
            apply-append (apply flushed (take j homes)) homes,
            apply-Avoids (apply (apply flushed (take j homes)) homes) _ b
                (header-Avoids b (to_words (empty_header h)) o),
          )
          (apply-take-redo flushed j homes b ∙ apply_cong flushed d homes b (flushed-Outside b o))

    crash_when_done :
        (b : ℕ)
        → Outside start b
        → recovered start (update (apply flushed homes) start last_write.1) b ≡ apply d homes b
    unfolding from_words to_words
    crash_when_done b o =
        recovered_of_empty (update (apply flushed homes) start last_write.1) b (ground arith) o
        ∙ ground (arith, apply_cong flushed d homes b (flushed-Outside b o))

    crash_while_logging :
        (k : ℕ) (b : ℕ)
        → (from_words (d start)).num_blocks ≡ 0
        → Outside start b
        → recovered start (apply d (take k logs)) b ≡ d b
    crash_while_logging k b z o =
        recovered_of_empty (apply d (take k logs)) b
          (rw
            (apply-Avoids d (take k logs) start
              (Avoids-take k logs start (log_writes-below start v 0 bs start (omega arith))))
            z)
          o
        ∙ apply-Avoids d (take k logs) b
            (Avoids-take k logs b (log_writes-Outside start v 0 bs b o (omega arith)))

    crash_after_header :
        (j : ℕ) (b : ℕ)
        → Outside start b
        → recovered start
            (apply (apply d logs) ((start, to_words h) ∷ take j (homes ++ (last_write ∷ []))))
            b
          ≡ apply d homes b
    unfolding apply
    crash_after_header j b o = elim (Bool-cases (leb j (length homes))) [
      | inl e ↦
          rw (take-append_le j homes (last_write ∷ []) (ground arith))
            (crash_while_installing j b o)
      | inr e ↦
          rw
            (
              take-append_ge j homes (last_write ∷ []) (ground arith),
              all_done (j - length homes) (ground arith),
              apply-append flushed homes,
            )
            (crash_when_done b o)
    ]
      where
        all_done : (n : ℕ) → 0 < n → take n (last_write ∷ []) ≡ last_write ∷ []
        all_done zero q = absurd (omega arith)
        all_done (suc zero) q = refl
        all_done (suc (suc n)) q = refl

    all_done : (n : ℕ) → 0 < n → take n (last_write ∷ []) ≡ last_write ∷ []
    all_done zero q = absurd (omega arith)
    all_done (suc zero) q = refl
    all_done (suc (suc n)) q = refl

    header_after_header :
        (j : ℕ)
        → let e =
            apply (apply d logs) ((start, to_words h) ∷ take j (homes ++ (last_write ∷ []))) in
          (logged (from_words (e start)) ≡ []) ⊎ (logged (from_words (e start)) ≡ bs)
    unfolding apply from_words to_words
    header_after_header j = elim (Bool-cases (leb j (length homes))) [
      | inl e ↦
          rw (take-append_le j homes (last_write ∷ []) (ground arith))
            (inr (ap logged (flushed-header j)))
      | inr e ↦
          rw
            (
              take-append_ge j homes (last_write ∷ []) (ground arith),
              all_done (j - length homes) (ground arith),
              apply-append flushed homes,
            )
            (inl (ap (λ w. logged (from_words w)) header_cleared))
    ]
      where
        header_cleared :
            update (apply flushed homes) start (to_words (record h { num_blocks = 0 })) start
            ≡ to_words (record h { num_blocks = 0 })
        header_cleared = ground arith

    -- The whole of a commit changes the blocks outside the log as its home writes do.
    pub apply-commit_writes :
        (b : ℕ) → Outside start b → apply d (commit_writes start h v) b ≡ apply d homes b
    unfolding commit_writes apply
    apply-commit_writes b o =
        rw
          (
            apply-append d logs,
            apply-append flushed homes,
            apply-Avoids (apply flushed homes) (last_write ∷ []) b (header-Avoids b last_write.1 o),
          )
          (apply_cong flushed d homes b (flushed-Outside b o))

    -- A stopped commit leaves an empty log or the whole of it.
    pub crash_header :
        (k : ℕ)
        → (from_words (d start)).num_blocks ≡ 0
        → (logged (from_words (apply d (take k (commit_writes start h v)) start)) ≡ [])
          ⊎ (logged (from_words (apply d (take k (commit_writes start h v)) start)) ≡ bs)
    unfolding commit_writes
    crash_header k z = elim (Bool-cases (leb k (length bs))) [
      | inl e ↦ inl (
          rw
            (
              take-append_le k logs _ (ground (arith, n_lem)),
              apply-Avoids d (take k logs) start
                  (Avoids-take k logs start (log_writes-below start v 0 bs start (omega arith))),
            )
            (rw z refl))
      | inr e ↦
          rw (take-append_ge k logs _ (ground (arith, n_lem)), apply-append d logs)
            (after_log (k - length logs) (ground (arith, n_lem)))
    ]
      where
        n_lem : length logs ≡ length bs
        n_lem = length-log_writes start v 0 bs

        after_log :
            (j : ℕ)
            → 0 < j
            → let e =
                apply
                  (apply d logs)
                  (take j ((start, to_words h) ∷ (homes ++ (last_write ∷ [])))) in
              (logged (from_words (e start)) ≡ []) ⊎ (logged (from_words (e start)) ≡ bs)
        after_log zero p = absurd (omega arith)
        after_log (suc j) p = header_after_header j

    -- If the machine stops after the first `k` writes of a commit, recovery leaves every block outside
    -- the log as it was before the commit, or, from the write of the header on, every one as it is
    -- after the commit.
    pub commit_atomic :
        (k b : ℕ)
        → (from_words (d start)).num_blocks ≡ 0
        → Outside start b
        → recovered start (apply d (take k (commit_writes start h v))) b
          ≡ (if leb k (length bs) then d b else apply d homes b)
    unfolding commit_writes
    commit_atomic k b z o = elim (Bool-cases (leb k (length bs))) [
      | inl e ↦
          rw (e, take-append_le k logs _ (ground (arith, n_lem))) (crash_while_logging k b z o)
      | inr e ↦
          rw (e, take-append_ge k logs _ (ground (arith, n_lem)), apply-append d logs)
            (after_log (k - length logs) (ground (arith, n_lem)))
    ]
      where
        n_lem : length logs ≡ length bs
        n_lem = length-log_writes start v 0 bs

        after_log :
            (j : ℕ)
            → 0 < j
            → recovered start
                (apply (apply d logs) (take j ((start, to_words h) ∷ (homes ++ (last_write ∷ [])))))
                b
              ≡ apply d homes b
        after_log zero p = absurd (omega arith)
        after_log (suc j) p = crash_after_header j b o
