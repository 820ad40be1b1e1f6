-- ===== src/Fs/Cache/Commit.antt =====
-- cache_end_op and init_bcache of src/fs/cache.c: a commit is atomic, whenever the machine stops.
use mathlib.Core.Path.{subst, fun_ext}
use mathlib.Core.List.{append_assoc}
use fdu2024_os_honor_lab.Prelude.{
  ℕ, ◌<◌, ◌≡◌, refl, sym, ap, ap₂, ◌∙◌, inl, inr, false, some, List, [], ◌∷◌, ◌++◌, arith, ◌==◌,
  length, Bool-cases,
}
use fdu2024_os_honor_lab.Prelude.Exec.{done, ◌>>=◌}
use fdu2024_os_honor_lab.Fs.Disk
use fdu2024_os_honor_lab.Fs.Disk.{Words, Write, Disk, update, apply}
use fdu2024_os_honor_lab.Fs.Disk.Crash.{apply-append, apply-Avoids}
use fdu2024_os_honor_lab.Fs.Cache.{
  Cache, SuperBlock, Block, find, write_header, to_words, logged, log_max_size, LogHeader,
}
use fdu2024_os_honor_lab.Fs.Cache.Log.{commit, clear_header}
use fdu2024_os_honor_lab.Fs.Cache.Access.{view, IsValid}
use fdu2024_os_honor_lab.Fs.Cache.Writes.{
  Outside, AllOutside, log_writes, log_writes-Outside, home_writes, commit_writes,
}
use fdu2024_os_honor_lab.Fs.Cache.Copy.{header-ne-cached}
use fdu2024_os_honor_lab.Fs.Cache.Batch.{
  nobody, Batch, Batch-trans, write_log_lem, install_lem, home_writes_cong,
}

-- write_header does not go through the cache.
abbrev header_written : Cache → Cache
header_written s = record s { disk = Disk.write s.disk s.sblock.log_start (to_words s.header) }

header-Batch :
    (s : Cache)
    → IsValid nobody s
    → Batch ((s.sblock.log_start, to_words s.header) ∷ []) s (header_written s)
unfolding Disk.write apply view
header-Batch s v = record {
  valid = record {
    distinct = v.distinct;
    fine = λ c k e. rw (other c k e) (v.fine c k e);
    no_header = v.no_header;
  };
  views = fun_ext λ c. elim (Bool-cases (s.sblock.log_start == c)) [
    | inl t ↦ ground (arith, v.no_header)
    | inr t ↦ rw t refl
  ];
  content = refl;
  trace = refl;
  log = record { sblock = refl; header = refl; outstanding = refl };
}
  where
    other : (c : ℕ) (k : Block) → find c s.blocks ≡ some k → (s.sblock.log_start == c) ≡ false
    other c k e = ground (arith, header-ne-cached s c k v.no_header e)

view-clear_header : (t : Cache) → view (clear_header t) ≡ view t
unfolding view
view-clear_header t = refl

-- What a commit of `s` leaves.
pub record Committed (s t : Cache) : Type 0 where
  pub runs : commit s ≡ done (tt, t)
  pub valid : IsValid nobody t
  pub trace : t.disk.trace ≡ s.disk.trace ++ commit_writes s.sblock.log_start s.header (view s)
  pub content :
      t.disk.content ≡ apply s.disk.content (commit_writes s.sblock.log_start s.header (view s))
  pub views : view t ≡ apply (view s) (commit_writes s.sblock.log_start s.header (view s))
  pub open_ops : t.outstanding ≡ s.outstanding
  pub emptied : t.header.num_blocks ≡ 0

module _ (s : Cache) (v : IsValid nobody s) (o : AllOutside s.sblock.log_start (logged s.header))
    (fits : length (logged s.header) < log_max_size) where
  abbrev ls : ℕ
  ls = s.sblock.log_start

  abbrev bs : List ℕ
  bs = logged s.header

  abbrev logs : List Write
  logs = log_writes ls 0 bs (view s)

  abbrev entry : Write
  entry = (ls, to_words s.header)

  abbrev homes : List Write
  homes = home_writes bs (view s)

  header_done : {t : Cache} → Batch logs s t → Batch (logs ++ (entry ∷ [])) s (header_written t)
  header_done {t} b = Batch-trans b (
      subst (λ e. Batch (e ∷ []) t (header_written t))
        (ap₂ (λ (sb : SuperBlock) (h : LogHeader). (sb.log_start, to_words h)) b.log.sblock
          b.log.header)
        (header-Batch t b.valid))

  seen :
      {t : Cache} → Batch (logs ++ (entry ∷ [])) s t → (c : ℕ) → Outside ls c → view s c ≡ view t c
  seen b c oc =
      rw (b.views, apply-append (view s) logs (entry ∷ []))
        (sym (
          apply-Avoids _ (entry ∷ []) c (omega arith, tt)
          ∙ apply-Avoids (view s) logs c (log_writes-Outside ls (view s) 0 bs c oc (omega arith))))

  home_done :
      {t u : Cache}
      → Batch (logs ++ (entry ∷ [])) s t
      → Batch (home_writes bs (view t)) t u
      → Batch ((logs ++ (entry ∷ [])) ++ homes) s u
  home_done {t} b c = Batch-trans b (rw (home_writes_cong ls (view s) (view t) (seen b) bs o) c)

  abbrev cleared : Cache → Cache
  cleared t = header_written (clear_header t)

  abbrev last_entry : List Write
  last_entry = (ls, to_words (record (s.header) { num_blocks = 0 })) ∷ []

  commit_order :
      (z : List Write) → ((logs ++ (entry ∷ [])) ++ homes) ++ z ≡ logs ++ (entry ∷ (homes ++ z))
  commit_order z =
      append_assoc (logs ++ (entry ∷ [])) homes z ∙ append_assoc logs (entry ∷ []) (homes ++ z)

  cleared-Committed :
      {t : Cache}
      → commit s ≡ done (tt, cleared t)
      → Batch ((logs ++ (entry ∷ [])) ++ homes) s t
      → Committed s (cleared t)
  unfolding commit_writes Disk.write apply
  cleared-Committed {t} runs b = record {
    runs = runs;
    valid = (header-Batch (clear_header t) cleared_valid).valid;
    trace =
        rw (b.log.sblock, b.log.header, b.trace)
          (append_assoc s.disk.trace _ _ ∙ ap (λ l. s.disk.trace ++ l) (commit_order _));
    content =
        rw (b.log.sblock, b.log.header, b.content)
          (sym (apply-append s.disk.content ((logs ++ (entry ∷ [])) ++ homes) last_entry)
            ∙ ap (apply s.disk.content) (commit_order last_entry));
    views =
        (header-Batch (clear_header t) cleared_valid).views
        ∙ ap (λ f. apply f ((t.sblock.log_start, to_words (clear_header t).header) ∷ [])) same_view
        ∙ ap₂
            (λ (sb : SuperBlock) (h : LogHeader).
              apply (view t) ((sb.log_start, to_words (record h { num_blocks = 0 })) ∷ []))
            b.log.sblock b.log.header
        ∙ ap (λ f. apply f last_entry) b.views
        ∙ sym (apply-append (view s) ((logs ++ (entry ∷ [])) ++ homes) last_entry)
        ∙ ap (apply (view s)) (commit_order last_entry);
    open_ops = b.log.outstanding;
    emptied = refl;
  }
    where
      same_view : view (clear_header t) ≡ view t
      same_view = view-clear_header t

      cleared_valid : IsValid nobody (clear_header t)
      cleared_valid = record {
        distinct = b.valid.distinct;
        fine = b.valid.fine;
        no_header = b.valid.no_header;
      }

  pub commit_lem : (t : Cache) × Committed s t
  unfolding commit write_header
  commit_lem =
      let (t, r, b) = write_log_lem ls 0 bs s refl v o (omega arith) in
      let b' = header_done b in
      let (u, r', c) =
        install_lem ls bs (header_written t) (ap (λ (x : SuperBlock). x.log_start) b'.log.sblock)
          b'.valid o in
      (cleared u, cleared-Committed (rw (r, ◌>>=◌) (rw (r', ◌>>=◌) refl)) (home_done b' c))
