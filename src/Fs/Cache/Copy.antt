-- ===== src/Fs/Cache/Copy.antt =====
-- Copying, installing and writing through of cached blocks (src/fs/cache.c).
use fdu2024_os_honor_lab.Prelude.{
  ℕ, ◌+◌, ◌≡◌, ◌≢◌, refl, sym, ap, ◌∙◌, inl, inr, Bool, true, false, none, some, arith, ◌==◌,
  if◌then◌else◌, Bool-cases,
}
use fdu2024_os_honor_lab.Prelude.Exec.{done, modify, ◌>>=◌, ◌>>◌}
use fdu2024_os_honor_lab.Fs.Disk
use fdu2024_os_honor_lab.Fs.Disk.{Words, Disk, update}
use fdu2024_os_honor_lab.Fs.Cache.{
  Cache, Block, find, change, release, load, store, device_write, copy_block, set_block,
}
use fdu2024_os_honor_lab.Fs.Cache.Blocks.{find-change, change-Distinct}
use fdu2024_os_honor_lab.Fs.Cache.Log.{install_block}
use fdu2024_os_honor_lab.Fs.Cache.Access.{
  view, IsFine, IsValid, SameLog, hold, Acquired, acquire_lem,
}

pub header-ne-cached :
    (s : Cache) (b : ℕ) (k : Block)
    → find s.sblock.log_start s.blocks ≡ none
    → find b s.blocks ≡ some k
    → (b == s.sblock.log_start) ≡ false
header-ne-cached s b k h e = elim (Bool-cases (b == s.sblock.log_start)) [
  | inl t ↦ let p : b ≡ s.sblock.log_start = ground arith in cc (ap (λ c. find c s.blocks) p)
  | inr t ↦ t
]

-- Copying between two blocks that are held, and giving both up.
module _ (held : ℕ → Bool) (from to : ℕ) (s : Cache) (v : IsValid (hold to (hold from held)) s)
    (ne : from ≢ to) (free_from : held from ≡ false) (free_to : held to ≡ false) (kf kt : Block)
    (cf : find from s.blocks ≡ some kf) (ct : find to s.blocks ≡ some kt)
    (clean : kf.pinned ≡ false → kf.words ≡ s.disk.content from) where
  abbrev put : Block → Block
  put k = record k { words = kf.words }

  abbrev give_up : Block → Block
  give_up k = record k { acquired = false; lock = k.lock + 1 }

  abbrev copied : Cache
  copied = record s {
    blocks = change to give_up (change from give_up (change to put s.blocks));
    disk = Disk.write s.disk to kf.words;
  }

  find-copied :
      (c : ℕ)
      → find c copied.blocks ≡ (
          if to == c
          then some (give_up (put kt))
          else if from == c
          then some (give_up kf)
          else find c s.blocks)
  find-copied c = ground (
    arith,
    find-change give_up (λ k. refl) to c (change from give_up (change to put s.blocks)),
    find-change give_up (λ k. refl) from c (change to put s.blocks),
    find-change put (λ k. refl) to c s.blocks,
    cf,
    ct,
  )

  copied-runs :
      (do x ← load from; store to x; device_write to; release from; release to) s
      ≡ done (tt, copied)
  unfolding load store device_write release
  copied-runs = rw (cf, load, ◌>>=◌) (rw (stored, load, ◌>>=◌) refl)
    where
      stored : find to (change to put s.blocks) ≡ some (put kt)
      stored = ground (arith, find-change put (λ k. refl) to to s.blocks, ct)

  IsFine-from : IsFine true (s.disk.content from) kf
  IsFine-from =
      let e : hold to (hold from held) from ≡ true = ground arith in rw e at (v.fine from kf cf)

  IsFine-to : IsFine true (s.disk.content to) kt
  IsFine-to = let e : hold to (hold from held) to ≡ true = ground arith in rw e at (v.fine to kt ct)

  copied-IsFine :
      (c : ℕ) (k : Block)
      → find c copied.blocks ≡ some k
      → IsFine (held c) (copied.disk.content c) k
  unfolding Disk.write
  copied-IsFine c k h = elim (Bool-cases (to == c)) [
    | inl t ↦
        let p : to ≡ c = ground arith in
        rw (← p, free_to) (ground (arith, find-copied c, IsFine-to))
    | inr t ↦ elim (Bool-cases (from == c)) [
      | inl f ↦
          let p : from ≡ c = ground arith in
          rw (← p, free_from) (ground (arith, find-copied c, IsFine-from))
      | inr f ↦ rw t (other f t)
    ]
  ]
    where
      other : (from == c) ≡ false → (to == c) ≡ false → IsFine (held c) (s.disk.content c) k
      other f t =
          let e : hold to (hold from held) c ≡ held c = rw (t, f) refl in
          rw e at (v.fine c k (rw (t, f) at (sym (find-copied c) ∙ h)))

  view-copied : (c : ℕ) → view copied c ≡ update (view s) to kf.words c
  unfolding view Disk.write
  view-copied c = ground (arith, find-copied c, cf)

  cached_ne : (b : ℕ) (k : Block) → find b s.blocks ≡ some k → (b == s.sblock.log_start) ≡ false
  cached_ne b k e = header-ne-cached s b k v.no_header e

  copied-IsValid : IsValid held copied
  copied-IsValid = record {
    distinct =
        change-Distinct give_up (λ k. refl) to _
          (change-Distinct give_up (λ k. refl) from _
            (change-Distinct put (λ k. refl) to s.blocks v.distinct));
    fine = copied-IsFine;
    no_header =
        find-copied s.sblock.log_start ∙ rw (cached_ne to kt ct, cached_ne from kf cf) v.no_header;
  }

-- A call that wrote `x` to the device as block `b`.
pub record Wrote (held : ℕ → Bool) (b : ℕ) (x : Words) (s t : Cache) : Type 0 where
  pub valid : IsValid held t
  pub views : (c : ℕ) → view t c ≡ update (view s) b x c
  pub disk : t.disk ≡ Disk.write s.disk b x
  pub log : SameLog s t

pub SameLog-trans : {s t u : Cache} → SameLog s t → SameLog t u → SameLog s u
SameLog-trans p q = record {
  sblock = q.sblock ∙ p.sblock;
  header = q.header ∙ p.header;
  outstanding = q.outstanding ∙ p.outstanding;
}

module _ (held : ℕ → Bool) (from to : ℕ) (s : Cache) (v : IsValid held s) (ne : from ≢ to)
    (free_from : held from ≡ false) (free_to : held to ≡ false)
    (from_ne : from ≢ s.sblock.log_start) (to_ne : to ≢ s.sblock.log_start) where
  held_twice :
      {s1 s2 : Cache}
      → Acquired held from s s1
      → Acquired (hold from held) to s1 s2
      → (t : Cache) × (copy_block from to s ≡ done (tt, t)) × Wrote held to (view s from) s t
  unfolding copy_block
  held_twice {s1} {s2} a b = (
    copied held from to s2 b.valid ne free_from free_to a.block b.block cf b.cached clean,
    rw (a.runs, ◌>>=◌)
        (rw (b.runs, ◌>>=◌)
          (copied-runs held from to s2 b.valid ne free_from free_to a.block b.block cf b.cached
            clean)),
    record {
      valid =
          copied-IsValid held from to s2 b.valid ne free_from free_to a.block b.block cf b.cached
            clean;
      views = λ c.
          view-copied held from to s2 b.valid ne free_from free_to a.block b.block cf b.cached clean
            c
          ∙ ground (arith, a.reads, b.views c, a.views c);
      disk = rw (a.reads, b.disk, a.disk);
      log = record {
        sblock = b.log.sblock ∙ a.log.sblock;
        header = b.log.header ∙ a.log.header;
        outstanding = b.log.outstanding ∙ a.log.outstanding;
      };
    },
  )
    where
      cf : find from s2.blocks ≡ some a.block
      cf = b.keeps from a.block (ground arith) a.cached

      clean : a.block.pinned ≡ false → a.block.words ≡ s2.disk.content from
      clean p = rw (b.disk, a.disk) (a.clean p)

  -- copy_block returns, having given both blocks up, and has put the contents of the one block into
  -- the other, for every reader and on the device.
  pub copy_block_lem :
      (t : Cache) × (copy_block from to s ≡ done (tt, t)) × Wrote held to (view s from) s t
  copy_block_lem =
      let (s1, a) = acquire_lem held from s v free_from from_ne in
      let (s2, b) = acquire_lem (hold from held) to s1 a.valid still_free (rw a.log.sblock to_ne) in
      held_twice a b
    where
      still_free : hold from held to ≡ false
      still_free = ground arith

module _ (held : ℕ → Bool) (b : ℕ) (s : Cache) (v : IsValid (hold b held) s) (free : held b ≡ false)
    (k : Block) (cached : find b s.blocks ≡ some k) where
  abbrev unpin : Block → Block
  unpin j = record j { pinned = false }

  abbrev leave : Block → Block
  leave j = record j { acquired = false; lock = j.lock + 1 }

  abbrev installed : Cache
  installed = record s {
    blocks = change b leave (change b unpin s.blocks);
    disk = Disk.write s.disk b k.words;
  }

  find-installed :
      (c : ℕ)
      → find c installed.blocks ≡ (if b == c then some (leave (unpin k)) else find c s.blocks)
  find-installed c = ground (
    arith,
    find-change leave (λ j. refl) b c (change b unpin s.blocks),
    find-change unpin (λ j. refl) b c s.blocks,
    cached,
  )

  installed-runs :
      (do device_write b; modify (set_block b unpin); release b) s ≡ done (tt, installed)
  unfolding device_write load release
  installed-runs = rw (cached, load, ◌>>=◌) refl

  installed-IsFine :
      (c : ℕ) (j : Block)
      → find c installed.blocks ≡ some j
      → IsFine (held c) (installed.disk.content c) j
  unfolding Disk.write
  installed-IsFine c j h = elim (Bool-cases (b == c)) [
    | inl t ↦ let p : b ≡ c = ground arith in rw (← p, free) (ground (arith, find-installed c, own))
    | inr t ↦ rw t (other t)
  ]
    where
      own : IsFine true (s.disk.content b) k
      own = let e : hold b held b ≡ true = ground arith in rw e at (v.fine b k cached)

      other : (b == c) ≡ false → IsFine (held c) (s.disk.content c) j
      other t =
          let e : hold b held c ≡ held c = rw t refl in
          rw e at (v.fine c j (rw t at (sym (find-installed c) ∙ h)))

  view-installed : (c : ℕ) → view installed c ≡ update (view s) b k.words c
  unfolding view Disk.write
  view-installed c = ground (arith, find-installed c, cached)

  header_ne : (b == s.sblock.log_start) ≡ false
  header_ne = header-ne-cached s b k v.no_header cached

  installed-IsValid : IsValid held installed
  installed-IsValid = record {
    distinct =
        change-Distinct leave (λ j. refl) b _
          (change-Distinct unpin (λ j. refl) b s.blocks v.distinct);
    fine = installed-IsFine;
    no_header = find-installed s.sblock.log_start ∙ rw header_ne v.no_header;
  }

module _ (held : ℕ → Bool) (b : ℕ) (s : Cache) (v : IsValid held s) (free : held b ≡ false)
    (b_ne : b ≢ s.sblock.log_start) where
  install_held :
      {s1 : Cache}
      → Acquired held b s s1
      → (t : Cache) × (install_block b s ≡ done (tt, t)) × Wrote held b (view s b) s t
  unfolding install_block
  install_held {s1} a = (
    installed held b s1 a.valid free a.block a.cached,
    rw (a.runs, ◌>>=◌) (installed-runs held b s1 a.valid free a.block a.cached),
    record {
      valid = installed-IsValid held b s1 a.valid free a.block a.cached;
      views = λ c.
          view-installed held b s1 a.valid free a.block a.cached c
          ∙ ground (arith, a.reads, a.views c);
      disk = rw (a.reads, a.disk);
      log = record {
        sblock = a.log.sblock;
        header = a.log.header;
        outstanding = a.log.outstanding;
      };
    },
  )

  -- One round of the installation returns, and writes the block's contents to its place on the device.
  pub install_block_lem :
      (t : Cache) × (install_block b s ≡ done (tt, t)) × Wrote held b (view s b) s t
  install_block_lem = let (s1, a) = acquire_lem held b s v free b_ne in install_held a
