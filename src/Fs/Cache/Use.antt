-- ===== src/Fs/Cache/Use.antt =====
-- How the rest of the file system uses a block: it acquires it, reads or changes its data, and gives it
-- up. As long as no block is held, a reader gets what `view` says and a writer changes `view` there.
use fdu2024_os_honor_lab.Prelude.{
  ℕ, ◌+◌, ◌≡◌, ◌≢◌, ◌∙◌, refl, sym, ap, inl, inr, Bool, true, false, Option, some, arith, ◌==◌,
  if◌then◌else◌, Bool-cases,
}
use fdu2024_os_honor_lab.Prelude.Exec.{done, M, pure, ◌>>=◌, ◌>>◌}
use fdu2024_os_honor_lab.Fs.Disk.{Words, update}
use fdu2024_os_honor_lab.Fs.Cache.{
  Cache, Block, LogHeader, find, change, acquire, release, load, store,
}
use fdu2024_os_honor_lab.Fs.Cache.Blocks.{find-change, change-Distinct}
use fdu2024_os_honor_lab.Fs.Cache.Log.{sync_op}
use fdu2024_os_honor_lab.Fs.Cache.Access.{
  view, IsFine, IsValid, SameLog, hold, Acquired, acquire_lem,
}
use fdu2024_os_honor_lab.Fs.Cache.Copy.{header-ne-cached, SameLog-trans}
use fdu2024_os_honor_lab.Fs.Cache.Batch.{nobody}

unfoldable pub read_block : ℕ → M Cache Words
read_block b = do acquire b; x ← load b; release b; pure x

unfoldable pub edit_block : Option ℕ → ℕ → (Words → Words) → M Cache (Option ℕ)
edit_block ctx b f = do
  acquire b
  x ← load b
  store b (f x)
  ctx1 ← sync_op ctx b
  release b
  pure ctx1

abbrev pub rewrite : Option ℕ → ℕ → Words → M Cache (Bool × Option ℕ)
rewrite ctx b x = do store b x; ctx1 ← sync_op ctx b; release b; pure (true, ctx1)

-- A block that is changed if its words pass a test, and whether they did.
unfoldable pub edit_if : Option ℕ → ℕ → (Words → Bool) → (Words → Words) → M Cache (Bool × Option ℕ)
edit_if ctx b test f = do
  acquire b
  x ← load b
  if test x then rewrite ctx b (f x) else (do release b; pure (false, ctx))

-- A call that leaves every block, the device and the log as they are.
pub record Same (s t : Cache) : Type 0 where
  pub valid : IsValid nobody t
  pub views : (c : ℕ) → view t c ≡ view s c
  pub disk : t.disk ≡ s.disk
  pub log : SameLog s t

pub Same-refl : (s : Cache) → IsValid nobody s → Same s s
Same-refl s v = record {
  valid = v;
  views = λ c. refl;
  disk = refl;
  log = record { sblock = refl; header = refl; outstanding = refl };
}

pub Same-trans : {s t u : Cache} → Same s t → Same t u → Same s u
Same-trans p q = record {
  valid = q.valid;
  views = λ c. q.views c ∙ p.views c;
  disk = q.disk ∙ p.disk;
  log = SameLog-trans p.log q.log;
}

-- The one held block `b`, changed by `g` in its words and by the flags, and given up.
module _ (b : ℕ) (s : Cache) (v : IsValid (hold b nobody) s) (k : Block)
    (e : find b s.blocks ≡ some k) (g : Block → Block)
    (same_no : (j : Block) → (g j).block_no ≡ j.block_no) (h : LogHeader) where
  abbrev pub given_up : Cache
  given_up = record s { blocks = change b g s.blocks; header = h }

  find-given_up :
      (c : ℕ) → find c given_up.blocks ≡ (if b == c then some (g k) else find c s.blocks)
  find-given_up c = ground (arith, find-change g same_no b c s.blocks, e)

  pub given_up-view : (c : ℕ) → view given_up c ≡ update (view s) b (g k).words c
  unfolding view
  given_up-view c = ground (arith, find-given_up c)

  pub given_up-IsValid :
      ((g k).acquired ≡ false)
      → (g k).lock ≡ 1
      → ((g k).pinned ≡ false → (g k).words ≡ s.disk.content b)
      → IsValid nobody given_up
  given_up-IsValid a l w = record {
    distinct = change-Distinct g same_no b s.blocks v.distinct;
    fine = fine;
    no_header =
        find-given_up s.sblock.log_start ∙ rw (header-ne-cached s b k v.no_header e) v.no_header;
  }
    where
      fine :
          (c : ℕ) (j : Block)
          → find c given_up.blocks ≡ some j
          → IsFine false (given_up.disk.content c) j
      fine c j q = elim (Bool-cases (b == c)) [
        | inl t ↦
            let p : b ≡ c = ground arith in rw (← p) (ground (arith, find-given_up c, a, l, w))
        | inr t ↦
            let r : find c s.blocks ≡ some j = rw t at (sym (find-given_up c) ∙ q) in
            let o : hold b nobody c ≡ false = rw t refl in rw o at (v.fine c j r)
      ]

abbrev pub unheld : Block → Block
unheld k = record k { acquired = false; lock = k.lock + 1 }

module _ (b : ℕ) (s : Cache) (v : IsValid nobody s) (b_ne : b ≢ s.sblock.log_start) where
  pub held-IsFine : {t : Cache} (a : Acquired nobody b s t) → IsFine true (t.disk.content b) a.block
  held-IsFine a =
      let e : hold b nobody b ≡ true = ground arith in rw e at (a.valid.fine b a.block a.cached)

  abbrev given_back : Cache → Cache
  given_back t = record t { blocks = change b unheld t.blocks }

  held-Same : {t : Cache} → Acquired nobody b s t → Same s (given_back t)
  held-Same {t} a = record {
    valid =
        given_up-IsValid b t a.valid a.block a.cached unheld (λ j. refl) t.header refl
          (omega (arith, held-IsFine a)) (λ p. a.clean p ∙ sym (ap (λ d. d.content b) a.disk));
    views =
        λ c. given_up-view b t a.valid a.block a.cached unheld (λ j. refl) t.header c ∙ same_view c;
    disk = a.disk;
    log = record { sblock = a.log.sblock; header = a.log.header; outstanding = a.log.outstanding };
  }
    where
      same_view : (c : ℕ) → update (view t) b a.block.words c ≡ view s c
      same_view c = elim (Bool-cases (b == c)) [
        | inl y ↦ let p : b ≡ c = ground arith in rw y (a.reads ∙ ap (view s) p)
        | inr y ↦ rw y (a.views c)
      ]

  read_held : {t : Cache} → Acquired nobody b s t → read_block b s ≡ done (view s b, given_back t)
  unfolding read_block load release
  read_held {t} a =
      rw (a.runs, read_block, ◌>>=◌)
        (rw (a.cached, load, ◌>>=◌) (ap (λ x. done (x, given_back t)) a.reads))

  skip_held :
      {t : Cache} (ctx : Option ℕ) (test : Words → Bool) (f : Words → Words)
      → test (view s b) ≡ false
      → Acquired nobody b s t
      → edit_if ctx b test f s ≡ done ((false, ctx), given_back t)
  unfolding edit_if load release
  skip_held {t} ctx test f fails a =
      let n : test a.block.words ≡ false = rw a.reads fails in
      rw (a.runs, edit_if, ◌>>=◌) (rw (a.cached, load, ◌>>=◌) (rw n refl))

  -- A block that does not pass the test is left as it is.
  pub edit_if_skips :
      (ctx : Option ℕ) (test : Words → Bool) (f : Words → Words)
      → test (view s b) ≡ false
      → (u : Cache) × (edit_if ctx b test f s ≡ done ((false, ctx), u)) × Same s u
  edit_if_skips ctx test f fails =
      let (t, a) = acquire_lem nobody b s v refl b_ne in
      (given_back t, skip_held ctx test f fails a, held-Same a)

  -- Reading a block that is not the log header returns its words.
  pub read_block_lem : (u : Cache) × (read_block b s ≡ done (view s b, u)) × Same s u
  read_block_lem =
      let (t, a) = acquire_lem nobody b s v refl b_ne in (given_back t, read_held a, held-Same a)
