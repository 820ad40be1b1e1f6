-- ===== src/Fs/Cache/Batch.antt =====
-- Calls of src/fs/cache.c that write several blocks, one after another.
use mathlib.Core.Path.{fun_ext, subst}
use mathlib.Core.List.{append-nil, append_assoc}
use fdu2024_os_honor_lab.Prelude.{
  ℕ, ◌+◌, ◌≤◌, ◌<◌, ◌≡◌, refl, sym, ap, ◌∙◌, inl, inr, Bool, false, List, [], ◌∷◌, ◌++◌, arith,
  ◌==◌, length, Bool-cases,
}
use fdu2024_os_honor_lab.Prelude.Exec.{done, ◌>>=◌}
use fdu2024_os_honor_lab.Fs.Disk
use fdu2024_os_honor_lab.Fs.Disk.{Words, Write, Disk, update, apply}
use fdu2024_os_honor_lab.Fs.Disk.Crash.{apply-append}
use fdu2024_os_honor_lab.Fs.Cache.{Cache, SuperBlock, log_max_size}
use fdu2024_os_honor_lab.Fs.Cache.Log.{write_log, install, restore}
use fdu2024_os_honor_lab.Fs.Cache.Access.{view, IsValid, SameLog}
use fdu2024_os_honor_lab.Fs.Cache.Copy.{Wrote, copy_block_lem, install_block_lem, SameLog-trans}
use fdu2024_os_honor_lab.Fs.Cache.Writes.{
  Outside, AllOutside, log_writes, home_writes, restore_writes,
}

abbrev pub nobody : ℕ → Bool
nobody b = false

-- From `s` to `t` the writes `ws` were done, for every reader and on the device.
pub record Batch (ws : List Write) (s t : Cache) : Type 0 where
  pub valid : IsValid nobody t
  pub views : view t ≡ apply (view s) ws
  pub content : t.disk.content ≡ apply s.disk.content ws
  pub trace : t.disk.trace ≡ s.disk.trace ++ ws
  pub log : SameLog s t

pub Batch-nil : (s : Cache) → IsValid nobody s → Batch [] s s
unfolding apply
Batch-nil s v = record {
  valid = v;
  views = refl;
  content = refl;
  trace = sym (append-nil s.disk.trace);
  log = record { sblock = refl; header = refl; outstanding = refl };
}

pub Batch-one : {b : ℕ} {x : Words} {s t : Cache} → Wrote nobody b x s t → Batch ((b, x) ∷ []) s t
unfolding apply Disk.write
Batch-one w = record {
  valid = w.valid;
  views = fun_ext w.views;
  content = ap (λ (d : Disk). d.content) w.disk;
  trace = ap (λ (d : Disk). d.trace) w.disk;
  log = w.log;
}

pub Batch-at :
    {b c : ℕ} {x : Words} {s t : Cache} → b ≡ c → Wrote nobody b x s t → Batch ((c, x) ∷ []) s t
Batch-at {x = x} {s = s} {t = t} e w = subst (λ c. Batch ((c, x) ∷ []) s t) e (Batch-one w)

pub Batch-trans :
    {xs ys : List Write} {s t u : Cache} → Batch xs s t → Batch ys t u → Batch (xs ++ ys) s u
Batch-trans {xs} {ys} {s} p q = record {
  valid = q.valid;
  views = q.views ∙ ap (λ d. apply d ys) p.views ∙ sym (apply-append (view s) xs ys);
  content = q.content ∙ ap (λ d. apply d ys) p.content ∙ sym (apply-append s.disk.content xs ys);
  trace = q.trace ∙ ap (λ l. l ++ ys) p.trace ∙ append_assoc s.disk.trace xs ys;
  log = SameLog-trans p.log q.log;
}

module _ (start : ℕ) (v w : ℕ → Words) (same : (b : ℕ) → Outside start b → v b ≡ w b) where
  log_writes_cong :
      (i : ℕ) (bs : List ℕ)
      → AllOutside start bs
      → log_writes start i bs v ≡ log_writes start i bs w
  unfolding log_writes
  log_writes_cong i [] o = refl
  log_writes_cong i (b ∷ bs) o = rw (same b o.0, log_writes_cong (i + 1) bs o.1)

  pub home_writes_cong : (bs : List ℕ) → AllOutside start bs → home_writes bs v ≡ home_writes bs w
  unfolding home_writes
  home_writes_cong [] o = refl
  home_writes_cong (b ∷ bs) o = rw (same b o.0, home_writes_cong bs o.1)

-- The first loop of cache_end_op fills the log.
pub write_log_lem :
    (start i : ℕ) (bs : List ℕ) (s : Cache)
    → s.sblock.log_start ≡ start
    → IsValid nobody s
    → AllOutside start bs
    → i + length bs < log_max_size
    → (t : Cache) × (write_log i bs s ≡ done (tt, t)) × Batch (log_writes start i bs (view s)) s t
unfolding write_log log_writes
write_log_lem start i [] s e v o h = (s, refl, Batch-nil s v)
write_log_lem start i (b ∷ bs) s e v o h =
    let (t, runs, w) =
      copy_block_lem nobody b (s.sblock.log_start + i + 1) s v (omega arith) refl refl (omega arith)
        (omega arith) in
    let p : Batch ((start + i + 1, view s b) ∷ []) s t = Batch-at (ap (λ k. k + i + 1) e) w in
    let (u, runs', q) =
      write_log_lem start (i + 1) bs t (ap (λ (x : SuperBlock). x.log_start) w.log.sblock ∙ e)
        w.valid o.1 (omega arith) in
    (
      u,
      rw (runs, ◌>>=◌) runs',
      rw
          (log_writes_cong start (view s) (view t) (λ c oc. sym (w.views c ∙ unwritten t c oc))
            (i + 1) bs o.1)
          (Batch-trans p q),
    )
  where
    unwritten :
        (t : Cache) (c : ℕ)
        → Outside start c
        → update (view s) (s.sblock.log_start + i + 1) (view s b) c ≡ view s c
    unwritten t c oc = ground arith

-- The second loop of cache_end_op writes the blocks to their places, and changes nothing for readers.
pub install_lem :
    (start : ℕ) (bs : List ℕ) (s : Cache)
    → s.sblock.log_start ≡ start
    → IsValid nobody s
    → AllOutside start bs
    → (t : Cache) × (install bs s ≡ done (tt, t)) × Batch (home_writes bs (view s)) s t
unfolding install home_writes
install_lem start [] s e v o = (s, refl, Batch-nil s v)
install_lem start (b ∷ bs) s e v o =
    let (t, runs, w) = install_block_lem nobody b s v refl (omega arith) in
    let (u, runs', q) =
      install_lem start bs t (ap (λ (x : SuperBlock). x.log_start) w.log.sblock ∙ e) w.valid o.1 in
    (
      u,
      rw (runs, ◌>>=◌) runs',
      rw (home_writes_cong start (view s) (view t) (λ c oc. sym (w.views c ∙ unwritten c)) bs o.1)
          (Batch-trans (Batch-one w) q),
    )
  where
    unwritten : (c : ℕ) → update (view s) b (view s b) c ≡ view s c
    unwritten c = elim (Bool-cases (b == c)) [
      | inl t ↦ rw t (let p : b ≡ c = ground arith in ap (view s) p)
      | inr t ↦ rw t refl
    ]

module _ (start : ℕ) (v w : ℕ → Words)
    (same : (b : ℕ) → start < b → b ≤ start + log_max_size → v b ≡ w b) where
  pub restore_writes_cong :
      (i : ℕ) (bs : List ℕ)
      → i + length bs < log_max_size
      → restore_writes start i bs v ≡ restore_writes start i bs w
  unfolding restore_writes
  restore_writes_cong i [] h = refl
  restore_writes_cong i (b ∷ bs) h = rw (
    same (start + i + 1) (omega arith) (omega arith),
    restore_writes_cong (i + 1) bs (omega arith),
  )

-- The loop of init_bcache copies the log to the home blocks.
pub restore_lem :
    (start i : ℕ) (bs : List ℕ) (s : Cache)
    → s.sblock.log_start ≡ start
    → IsValid nobody s
    → AllOutside start bs
    → i + length bs < log_max_size
    → (t : Cache) × (restore i bs s ≡ done (tt, t)) × Batch (restore_writes start i bs (view s)) s t
unfolding restore restore_writes
restore_lem start i [] s e v o h = (s, refl, Batch-nil s v)
restore_lem start i (b ∷ bs) s e v o h =
    let (t, runs, w) =
      copy_block_lem nobody (s.sblock.log_start + i + 1) b s v (omega arith) refl refl (omega arith)
        (omega arith) in
    let (u, runs', q) =
      restore_lem start (i + 1) bs t (ap (λ (x : SuperBlock). x.log_start) w.log.sblock ∙ e) w.valid
        o.1 (omega arith) in
    (
      u,
      rw (runs, ◌>>=◌) runs',
      rw
          (restore_writes_cong start (view s) (view t)
            (λ c lo hi. sym (w.views c ∙ unwritten c lo hi)) (i + 1) bs (omega arith))
          (Batch-trans (subst (λ k. Batch ((b, view s (k + i + 1)) ∷ []) s t) e (Batch-one w)) q),
    )
  where
    unwritten :
        (c : ℕ)
        → start < c
        → c ≤ start + log_max_size
        → update (view s) b (view s (s.sblock.log_start + i + 1)) c ≡ view s c
    unwritten c lo hi = ground (arith, o.0)
