-- ===== src/Fs/Cache/Writes.antt =====
-- The writes that a commit and a recovery of src/fs/cache.c make, in their order, and which blocks
-- they leave alone.
use fdu2024_os_honor_lab.Prelude.{
  ℕ, suc, ◌+◌, ◌≤◌, ◌<◌, ◌≡◌, ◌⊎◌, refl, ap, ◌∙◌, List, [], ◌∷◌, ◌++◌, arith, length,
}
use fdu2024_os_honor_lab.Fs.Disk.{Words, Write, update, apply}
use fdu2024_os_honor_lab.Fs.Disk.Crash.{Avoids, apply-Avoids}
use fdu2024_os_honor_lab.Fs.Cache.{LogHeader, to_words, from_words, logged, log_max_size}
use fdu2024_os_honor_lab.Fs.Cache.Log.{empty_header}

module _ (start : ℕ) where
  -- A block that is neither the log header nor a block of the log.
  abbrev pub Outside : ℕ → Type 0
  Outside b = (b < start) ⊎ (start + log_max_size < b)

  abbrev pub AllOutside : List ℕ → Type 0
  AllOutside [] = Unit
  AllOutside (b ∷ bs) = Outside b × AllOutside bs

  -- The log gets the new contents `v` of the blocks, from index `i` on.
  unfoldable pub log_writes : ℕ → List ℕ → (ℕ → Words) → List Write
  log_writes i [] v = []
  log_writes i (b ∷ bs) v = (start + i + 1, v b) ∷ log_writes (i + 1) bs v

  -- Recovery copies the log of a device to the home blocks.
  unfoldable pub restore_writes : ℕ → List ℕ → (ℕ → Words) → List Write
  restore_writes i [] d = []
  restore_writes i (b ∷ bs) d = (b, d (start + i + 1)) ∷ restore_writes (i + 1) bs d

-- The home blocks get their new contents.
unfoldable pub home_writes : List ℕ → (ℕ → Words) → List Write
home_writes [] v = []
home_writes (b ∷ bs) v = (b, v b) ∷ home_writes bs v

module _ (start : ℕ) where
  unfoldable pub commit_writes : LogHeader → (ℕ → Words) → List Write
  commit_writes h v =
      log_writes start 0 (logged h) v
      ++ ((start, to_words h)
          ∷ (home_writes (logged h) v ++ ((start, to_words (record h { num_blocks = 0 })) ∷ [])))

  -- The device after start-up.
  unfoldable pub recovered : (ℕ → Words) → ℕ → Words
  recovered d =
      let h = from_words (d start) in
      apply d (restore_writes start 0 (logged h) d ++ ((start, to_words (empty_header h)) ∷ []))

module _ (start : ℕ) (v : ℕ → Words) where
  pub log_writes-Outside :
      (i : ℕ) (bs : List ℕ) (b : ℕ)
      → Outside start b
      → i + length bs < log_max_size
      → Avoids b (log_writes start i bs v)
  unfolding log_writes
  log_writes-Outside i [] b o h = tt
  log_writes-Outside i (c ∷ bs) b o h =
      (omega arith, log_writes-Outside (i + 1) bs b o (omega arith))

  pub log_writes-below :
      (i : ℕ) (bs : List ℕ) (b : ℕ) → b < start + i + 1 → Avoids b (log_writes start i bs v)
  unfolding log_writes
  log_writes-below i [] b h = tt
  log_writes-below i (c ∷ bs) b h = (omega arith, log_writes-below (i + 1) bs b (omega arith))

  pub length-log_writes : (i : ℕ) (bs : List ℕ) → length (log_writes start i bs v) ≡ length bs
  unfolding log_writes
  length-log_writes i [] = refl
  length-log_writes i (c ∷ bs) = ap suc (length-log_writes (i + 1) bs)

  pub length-home_writes : (bs : List ℕ) → length (home_writes bs v) ≡ length bs
  unfolding home_writes
  length-home_writes [] = refl
  length-home_writes (c ∷ bs) = ap suc (length-home_writes bs)

  pub home_writes-inside :
      (bs : List ℕ) (b : ℕ)
      → AllOutside start bs
      → start ≤ b
      → b ≤ start + log_max_size
      → Avoids b (home_writes bs v)
  unfolding home_writes
  home_writes-inside [] b o h k = tt
  home_writes-inside (c ∷ bs) b o h k = (omega arith, home_writes-inside bs b o.1 h k)

  -- The log of a device holds the contents `v`, from index `i` on.
  abbrev pub Holds : (ℕ → Words) → ℕ → List ℕ → Type 0
  Holds e i [] = Unit
  Holds e i (b ∷ bs) = (e (start + i + 1) ≡ v b) × Holds e (i + 1) bs

  pub Holds-log_writes :
      (d : ℕ → Words) (i : ℕ) (bs : List ℕ) → Holds (apply d (log_writes start i bs v)) i bs
  unfolding log_writes apply
  Holds-log_writes d i [] = tt
  Holds-log_writes d i (b ∷ bs) = (
    apply-Avoids _ _ _ (log_writes-below (i + 1) bs (start + i + 1) (omega arith)) ∙ ground arith,
    Holds-log_writes (update d (start + i + 1) (v b)) (i + 1) bs,
  )

  pub Holds-apply :
      (e : ℕ → Words) (ws : List Write) (i : ℕ) (bs : List ℕ)
      → i + length bs < log_max_size
      → ((b : ℕ) → start < b → b ≤ start + log_max_size → Avoids b ws)
      → Holds e i bs
      → Holds (apply e ws) i bs
  Holds-apply e ws i [] h a p = tt
  Holds-apply e ws i (b ∷ bs) h a p = (
    apply-Avoids e ws _ (a _ (omega arith) (omega arith)) ∙ p.0,
    Holds-apply e ws (i + 1) bs (omega arith) a p.1,
  )

  pub restore-eq-home :
      (e : ℕ → Words) (i : ℕ) (bs : List ℕ)
      → Holds e i bs
      → restore_writes start i bs e ≡ home_writes bs v
  unfolding restore_writes home_writes
  restore-eq-home e i [] p = refl
  restore-eq-home e i (b ∷ bs) p = rw (p.0, restore-eq-home e (i + 1) bs p.1)
