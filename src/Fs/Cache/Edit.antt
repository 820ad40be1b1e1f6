-- ===== src/Fs/Cache/Edit.antt =====
-- Writing a block in an operation (src/fs/cache.c): it is logged, pinned and given up, and readers see its new words.
use fdu2024_os_honor_lab.Prelude.{
  ℕ, ◌+◌, ◌-◌, ◌≡◌, ◌≢◌, ◌<◌, ◌⊎◌, ◌∙◌, refl, ap, inl, inr, Bool, true, false, some, List, [], ◌∷◌,
  arith, ◌==◌, leb, if◌then◌else◌, Bool-cases,
}
use fdu2024_os_honor_lab.Prelude.Exec.{done, pure, ◌>>=◌, ◌>>◌}
use fdu2024_os_honor_lab.Fs.Disk.{Words, update}
use fdu2024_os_honor_lab.Fs.Cache.{
  Cache, Block, change, release, load, store, set_block, logged, log_max_size,
}
use fdu2024_os_honor_lab.Fs.Cache.Log.{contains, sync, sync_op, pin, log_block}
use fdu2024_os_honor_lab.Fs.Cache.Access.{view, IsValid, Acquired, acquire_lem}
use fdu2024_os_honor_lab.Fs.Cache.Batch.{nobody}
use fdu2024_os_honor_lab.Fs.Cache.Use.{
  given_up-view, given_up-IsValid, unheld, held-IsFine, rewrite, edit_block, edit_if,
}

change-change :
    (b : ℕ) (f g : Block → Block) (ks : List Block)
    → ((k : Block) → (g k).block_no ≡ k.block_no)
    → change b f (change b g ks) ≡ change b (λ k. f (g k)) ks
unfolding change
change-change b f g [] e = refl
change-change b f g (k ∷ ks) e = elim (Bool-cases (k.block_no == b)) [
  | inl t ↦ rw t (rw (e k, t, change) refl)
  | inr t ↦ rw t (rw (t, change) (ap (λ js. k ∷ js) (change-change b f g ks e)))
]

-- A block that an operation has written: logged, pinned and given up.
abbrev written : Words → Block → Block
written x k = record k { words = x; pinned = true; acquired = false; lock = k.lock + 1 }

-- The share of an operation that logs block `b`, and the header.
abbrev pub is_logged : ℕ → Cache → Bool
is_logged b s = contains b (logged s.header)

-- What an operation leaves that writes `x` to block `b`.
pub record Edited (b : ℕ) (x : Words) (s t : Cache) : Type 0 where
  pub valid : IsValid nobody t
  pub views : (c : ℕ) → view t c ≡ update (view s) b x c
  pub disk : t.disk ≡ s.disk
  pub sblock : t.sblock ≡ s.sblock
  pub header : t.header ≡ (if is_logged b s then s.header else (log_block b s).header)
  pub outstanding : t.outstanding ≡ s.outstanding

-- The operation may log another block.
abbrev pub HasRoom : ℕ → Cache → Type 0
HasRoom rm s = (0 < rm) × (s.header.num_blocks + 1 < log_max_size)

sync-logged : (rm b : ℕ) (s : Cache) → is_logged b s ≡ true → sync rm b s ≡ done (rm, pin b s)
unfolding sync
sync-logged rm b s e = rw e refl

sync-new :
    (rm b : ℕ) (s : Cache)
    → is_logged b s ≡ false
    → HasRoom rm s
    → sync rm b s ≡ done (rm - 1, log_block b (pin b s))
unfolding sync
sync-new rm b s e h =
    let p : leb rm 0 ≡ false = ground (arith, h) in
    let q : leb log_max_size (s.header.num_blocks + 1) ≡ false = ground (arith, h) in
    rw (e, p, q) refl

module _ (b rm : ℕ) (x : Words) (t : Cache) (room : (is_logged b t ≡ true) ⊎ HasRoom rm t) where
  abbrev left_rm : ℕ
  left_rm = if is_logged b t then rm else rm - 1

  abbrev edited : Cache
  edited = record t {
    blocks = change b (written x) t.blocks;
    header = if is_logged b t then t.header else (log_block b t).header;
  }

  abbrev stored : Cache
  stored = set_block b (λ k. record k { words = x }) t

  written_blocks :
      change b unheld (
        change b
          (λ k. record k { pinned = true })
          (change b (λ k. record k { words = x }) t.blocks))
      ≡ change b (written x) t.blocks
  written_blocks =
      ap (change b unheld) (
        change-change b (λ k. record k { pinned = true }) (λ k. record k { words = x }) t.blocks
          (λ k. refl))
      ∙ change-change b unheld (λ k. record k { words = x; pinned = true }) t.blocks (λ k. refl)

  edit_end :
      (do store b x; ctx1 ← sync_op (some rm) b; release b; pure ctx1) t
      ≡ done (some left_rm, edited)
  unfolding store release sync_op
  edit_end = elim (Bool-cases (is_logged b t)) [
    | inl e ↦ rw (sync-logged rm b stored e, ◌>>=◌) (rw (e, written_blocks) refl)
    | inr e ↦
        rw (sync-new rm b stored e (ground (arith, room, e)), ◌>>=◌) (rw (e, written_blocks) refl)
  ]

  found_end : rewrite (some rm) b x t ≡ done ((true, some left_rm), edited)
  unfolding store release sync_op
  found_end = elim (Bool-cases (is_logged b t)) [
    | inl e ↦ rw (sync-logged rm b stored e, ◌>>=◌) (rw (e, written_blocks) refl)
    | inr e ↦
        rw (sync-new rm b stored e (ground (arith, room, e)), ◌>>=◌) (rw (e, written_blocks) refl)
  ]

module _ (b : ℕ) (s : Cache) (v : IsValid nobody s) (b_ne : b ≢ s.sblock.log_start) (rm : ℕ)
    (f : Words → Words) (room : (is_logged b s ≡ true) ⊎ HasRoom rm s) where
  room_held : {t : Cache} → Acquired nobody b s t → (is_logged b t ≡ true) ⊎ HasRoom rm t
  room_held a = rw a.log.header room

  abbrev share_left : ℕ
  share_left = if is_logged b s then rm else rm - 1

  abbrev after : {t : Cache} → Acquired nobody b s t → Cache
  after {t} a = edited b rm (f a.block.words) t (room_held a)

  held-Edited : {t : Cache} (a : Acquired nobody b s t) → Edited b (f (view s b)) s (after a)
  held-Edited {t} a = record {
    valid =
        given_up-IsValid b t a.valid a.block a.cached (written (f a.block.words)) (λ j. refl)
          (after a).header refl (omega (arith, held-IsFine b s v b_ne a)) (λ p. cc);
    views = λ c.
        given_up-view b t a.valid a.block a.cached (written (f a.block.words)) (λ j. refl)
          (after a).header c
        ∙ new_view c;
    disk = a.disk;
    sblock = a.log.sblock;
    header = rw a.log.header refl;
    outstanding = a.log.outstanding;
  }
    where
      new_view :
          (c : ℕ) → update (view t) b (f a.block.words) c ≡ update (view s) b (f (view s b)) c
      new_view c = ground (arith, a.views c, a.reads)

  edit_held :
      {t : Cache} (a : Acquired nobody b s t)
      → edit_block (some rm) b f s ≡ done (some share_left, after a)
  unfolding edit_block load
  edit_held {t} a =
      rw (a.runs, edit_block, ◌>>=◌)
        (rw (a.cached, load, ◌>>=◌)
          (rw (edit_end b rm (f a.block.words) t (room_held a)) (rw a.log.header refl)))

  change_held :
      {t : Cache} (test : Words → Bool)
      → test (view s b) ≡ true
      → (a : Acquired nobody b s t)
      → edit_if (some rm) b test f s ≡ done ((true, some share_left), after a)
  unfolding edit_if load
  change_held {t} test passes a =
      let n : test a.block.words ≡ true = rw a.reads passes in
      rw (a.runs, edit_if, ◌>>=◌)
        (rw (a.cached, load, ◌>>=◌)
          (rw n (rw (found_end b rm (f a.block.words) t (room_held a)) (rw a.log.header refl))))

  -- A block that passes the test is changed, with the same effect.
  pub edit_if_changes :
      (test : Words → Bool)
      → test (view s b) ≡ true
      → (u : Cache) × (edit_if (some rm) b test f s ≡ done ((true, some share_left), u))
        × Edited b (f (view s b)) s u
  edit_if_changes test passes =
      let (t, a) = acquire_lem nobody b s v refl b_ne in
      (after a, change_held test passes a, held-Edited a)

  -- Changing a block that is not the log header, with room for it in the operation and in the log, is a
  -- write of the new words, in the log unless the block is there already.
  pub edit_block_lem :
      (u : Cache) × (edit_block (some rm) b f s
        ≡ done (some (if is_logged b s then rm else rm - 1), u))
      × Edited b (f (view s b)) s u
  edit_block_lem =
      let (t, a) = acquire_lem nobody b s v refl b_ne in (after a, edit_held a, held-Edited a)

  -- A block that is held and whose words come from what was read there
  pub write_held :
      {t : Cache} (a : Acquired nobody b s t)
      → (u : Cache) × ((do
        store b (f a.block.words)
        ctx1 ← sync_op (some rm) b
        release b
        pure ctx1)
            t
          ≡ done (some share_left, u))
        × Edited b (f (view s b)) s u
  write_held {t} a = (
    after a,
    edit_end b rm (f a.block.words) t (room_held a) ∙ rw a.log.header refl,
    held-Edited a,
  )
