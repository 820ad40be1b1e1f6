-- ===== src/Fs/Cache/Recovery.antt =====
-- Start-up after a crash (init_bcache of src/fs/cache.c), and what it guarantees of an operation that
-- was being committed.
use fdu2024_os_honor_lab.Prelude.{
  ℕ, ◌-◌, ◌<◌, ◌≡◌, ◌⊎◌, refl, sym, ap, ◌∙◌, inl, inr, false, List, [], ◌∷◌, ◌++◌, arith, ◌==◌, leb,
  ltb, if◌then◌else◌, length, take, Bool-cases,
}
use fdu2024_os_honor_lab.Prelude.Exec.{done, ◌>>=◌}
use fdu2024_os_honor_lab.Fs.Disk
use fdu2024_os_honor_lab.Fs.Disk.{Words, Write, Disk, update, apply}
use fdu2024_os_honor_lab.Fs.Disk.Crash.{apply-append}
use fdu2024_os_honor_lab.Fs.Cache.{
  Cache, SuperBlock, find, write_header, to_words, from_words, logged, log_max_size,
}
use fdu2024_os_honor_lab.Fs.Cache.Log.{commit, end_op, boot, init_bcache, empty_header, contains}
use fdu2024_os_honor_lab.Fs.Cache.Access.{view, IsValid}
use fdu2024_os_honor_lab.Fs.Cache.Writes.{
  Outside, AllOutside, home_writes, restore_writes, commit_writes, recovered,
}
use fdu2024_os_honor_lab.Fs.Cache.Atomic.{commit_atomic, crash_header, apply-commit_writes}
use fdu2024_os_honor_lab.Fs.Cache.Batch.{nobody, restore_lem}
use fdu2024_os_honor_lab.Fs.Cache.Commit.{Committed, commit_lem}

-- Blocks that are not in the log are as on the device.
abbrev pub IsLogged : Cache → Type 0
IsLogged s = (b : ℕ) → contains b (logged s.header) ≡ false → view s b ≡ s.disk.content b

home_writes-view :
    (bs : List ℕ) (d v : ℕ → Words) (b : ℕ)
    → (contains b bs ≡ false → v b ≡ d b)
    → apply d (home_writes bs v) b ≡ v b
unfolding home_writes apply contains
home_writes-view [] d v b h = sym (h refl)
home_writes-view (c ∷ bs) d v b h = home_writes-view bs (update d c (v c)) v b (λ e.
    elim (Bool-cases (c == b)) [
      | inl t ↦ let p : c ≡ b = ground arith in rw t (ap v (sym p))
      | inr t ↦ rw t (h (ground arith))
    ])

boot-IsValid : (sb : SuperBlock) (d : Disk) → IsValid nobody (boot sb d)
unfolding boot find
boot-IsValid sb d = record { distinct = tt; fine = λ c k e. cc; no_header = refl }

-- Start-up returns if the log on the device names only blocks outside the log, and leaves the device
-- with the log copied to those blocks and emptied.
pub init_bcache_lem :
    (sb : SuperBlock) (d : Disk)
    → AllOutside sb.log_start (logged (from_words (d.content sb.log_start)))
    → length (logged (from_words (d.content sb.log_start))) < log_max_size
    → (u : Cache) × (init_bcache sb d ≡ done (tt, u))
      × (u.disk.content ≡ recovered sb.log_start d.content)
unfolding init_bcache boot write_header recovered Disk.write apply view find
init_bcache_lem sb d o fits =
    let (t, r, b) =
      restore_lem sb.log_start 0 (logged (from_words (d.content sb.log_start))) (boot sb d) refl
        (boot-IsValid sb d) o (omega arith) in
    (
      record t {
        header = empty_header t.header;
        disk = Disk.write t.disk t.sblock.log_start (to_words (empty_header t.header));
      },
      rw (r, ◌>>=◌) refl,
      rw (b.log.sblock, b.log.header, b.content)
          (sym (
            apply-append d.content
              (restore_writes sb.log_start 0 (logged (from_words (d.content sb.log_start)))
                d.content)
              ((sb.log_start, to_words (empty_header (from_words (d.content sb.log_start))))
                ∷ []))),
    )

-- The device after the first `k` of some writes.
abbrev pub crashed : Cache → List Write → ℕ → Disk
crashed s ws k = record {
  content = apply s.disk.content (take k ws);
  trace = s.disk.trace ++ take k ws;
}

-- The last operation of a batch ends while no block is held, every block outside the log is as on the
-- device, the log on the device is empty and names fewer than 63 blocks.
pub record CanCommit (s : Cache) : Type 0 where
  pub only : s.outstanding ≡ 1
  pub valid : IsValid nobody s
  pub outside : AllOutside s.sblock.log_start (logged s.header)
  pub fits : length (logged s.header) < log_max_size
  pub empty : (from_words (s.disk.content s.sblock.log_start)).num_blocks ≡ 0
  pub agrees : IsLogged s

module _ (s : Cache) (c : CanCommit s) where
  abbrev ls : ℕ
  ls = s.sblock.log_start

  abbrev ws : List Write
  ws = commit_writes ls s.header (view s)

  log_outside :
      (bs : List ℕ)
      → (bs ≡ []) ⊎ (bs ≡ logged s.header)
      → AllOutside ls bs × (length bs < log_max_size)
  log_outside bs (inl e) = rw e (tt, omega arith)
  log_outside bs (inr e) = rw e (c.outside, c.fits)

  crash_recovers :
      (k b : ℕ)
      → Outside ls b
      → (u : Cache) × (init_bcache s.sblock (crashed s ws k) ≡ done (tt, u))
        × (u.disk.content b
            ≡ (if leb k (length (logged s.header)) then s.disk.content b else view s b))
  crash_recovers k b o =
      let h =
        log_outside (logged (from_words ((crashed s ws k).content ls)))
          (crash_header ls s.header (view s) s.disk.content c.fits c.outside k c.empty) in
      let (u, r, e) = init_bcache_lem s.sblock (crashed s ws k) h.0 h.1 in
      (
        u,
        r,
        rw e (
            commit_atomic ls s.header (view s) s.disk.content c.fits c.outside k b c.empty o
            ∙ rw (home_writes-view (logged s.header) s.disk.content (view s) b (c.agrees b)) refl),
      )

  abbrev pub ended : Cache
  ended = record s { outstanding = s.outstanding - 1 }

  pub end_op-commits : end_op s ≡ commit ended
  unfolding end_op
  end_op-commits = let e : ltb 0 (s.outstanding - 1) ≡ false = rw c.only refl in rw e refl

  ended-IsValid : IsValid nobody ended
  ended-IsValid = record {
    distinct = c.valid.distinct;
    fine = c.valid.fine;
    no_header = c.valid.no_header;
  }

  pub ended_commits : (t : Cache) × Committed ended t
  ended_commits = commit_lem ended ended-IsValid c.outside c.fits

  view-ended : view ended ≡ view s
  unfolding view
  view-ended = refl

-- When the last open operation of a batch ends in a state that can commit (no block is held, the log
-- names fewer than 63 blocks, all outside the log, the other blocks are as on the device, and the log
-- on the device is empty), cache_end_op commits and returns with the log empty again. If the machine
-- stops after the first `k` of the device writes that it makes, start-up returns, and a block outside
-- the log is as it was on the device before the commit if `k` is at most the number of logged blocks,
-- and otherwise is as the operations left it in the cache.
pub end_op_atomic :
    (s : Cache) (k b : ℕ)
    → CanCommit s
    → Outside s.sblock.log_start b
    → (t : Cache) × (ws : List Write) × (u : Cache) × (end_op s ≡ done (tt, t))
      × (t.disk.trace ≡ s.disk.trace ++ ws)
      × (t.header.num_blocks ≡ 0)
      × (init_bcache s.sblock (crashed s ws k) ≡ done (tt, u))
      × (u.disk.content b
          ≡ (if leb k (length (logged s.header)) then s.disk.content b else view s b))
end_op_atomic s k b c o =
    let (t, d) = ended_commits s c in
    let (u, r, e) = crash_recovers s c k b o in
    (t, ws s c, u, end_op-commits s c ∙ d.runs, rw (view-ended s c) at d.trace, d.emptied, r, e)

-- When the last open operation of a batch ends in a state that can commit (no block is held, the log
-- names fewer than 63 blocks, all outside the log, the other blocks are as on the device, and the log
-- on the device is empty), cache_end_op returns with no block held, and every block outside the log is on the
-- device as the operations left it in the cache, where a reader still finds the same.
pub end_op_durable :
    (s : Cache) (b : ℕ)
    → CanCommit s
    → Outside s.sblock.log_start b
    → (t : Cache) × (end_op s ≡ done (tt, t))
      × IsValid nobody t
      × (t.disk.content b ≡ view s b)
      × (view t b ≡ view s b)
end_op_durable s b c o =
    let (t, d) = ended_commits s c in
    (t, end_op-commits s c ∙ d.runs, d.valid, on_disk t d, in_cache t d)
  where
    same :
        (d : ℕ → Words)
        → (contains b (logged s.header) ≡ false → view s b ≡ d b)
        → apply d (ws s c) b ≡ view s b
    same d h =
        apply-commit_writes (ls s c) s.header (view s) d c.fits c.outside b o
        ∙ home_writes-view (logged s.header) d (view s) b h

    on_disk : (t : Cache) → Committed (ended s c) t → t.disk.content b ≡ view s b
    on_disk t d = rw (d.content, view-ended s c) (same s.disk.content (c.agrees b))

    in_cache : (t : Cache) → Committed (ended s c) t → view t b ≡ view s b
    in_cache t d = rw (d.views, view-ended s c) (same (view s) (λ _. refl))
