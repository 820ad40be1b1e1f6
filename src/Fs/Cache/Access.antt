-- ===== src/Fs/Cache/Access.antt =====
-- What acquiring, copying and writing cached blocks does (src/fs/cache.c), as long as nobody else
-- holds the blocks.
use fdu2024_os_honor_lab.Prelude.{
  ℕ, ◌≡◌, ◌≢◌, refl, sym, ap, ◌∙◌, inl, inr, Bool, true, false, ◌||◌, Option, none, some, List, ◌∷◌,
  arith, ◌==◌, if◌then◌else◌, Bool-cases, Option-cases,
}
use fdu2024_os_honor_lab.Prelude.Exec.{done}
use fdu2024_os_honor_lab.Fs.Disk.{Words}
use fdu2024_os_honor_lab.Fs.Cache.{
  Cache, Block, find, remove, evictable, manage_block_num, fresh, acquire, acquire_cached,
  acquire_new,
}
use fdu2024_os_honor_lab.Fs.Cache.Blocks.{
  Distinct, block_no_of_find, find-remove_ne, find-remove_self, remove-Distinct, Survives,
  manage-Survives, manage-Distinct, find-manage_none,
}

-- What a reader of block `b` gets: the cached contents, or else those of the device.
abbrev pub words_of : Option Block → Words → Words
words_of (some k) x = k.words
words_of none x = x

unfoldable pub view : Cache → ℕ → Words
view s b = words_of (find b s.blocks) (s.disk.content b)

-- A block that is held is locked; any other is not, and is as on the device unless it is pinned.
abbrev pub IsFine : Bool → Words → Block → Type 0
IsFine true x k = (k.acquired ≡ true) × (k.lock ≡ 0)
IsFine false x k = (k.acquired ≡ false) × (k.lock ≡ 1) × (k.pinned ≡ false → k.words ≡ x)

-- The cache between two calls, with the blocks of `held` acquired. The log header is never cached.
pub record IsValid (held : ℕ → Bool) (s : Cache) : Type 0 where
  pub distinct : Distinct s.blocks
  pub fine : (c : ℕ) (k : Block) → find c s.blocks ≡ some k → IsFine (held c) (s.disk.content c) k
  pub no_header : find s.sblock.log_start s.blocks ≡ none

-- What no access to the blocks changes.
pub record SameLog (s t : Cache) : Type 0 where
  pub sblock : t.sblock ≡ s.sblock
  pub header : t.header ≡ s.header
  pub outstanding : t.outstanding ≡ s.outstanding

abbrev pub hold : ℕ → (ℕ → Bool) → ℕ → Bool
hold b held c = b == c || held c

pub record Acquired (held : ℕ → Bool) (b : ℕ) (s t : Cache) : Type 0 where
  pub runs : acquire b s ≡ done (tt, t)
  pub valid : IsValid (hold b held) t
  pub views : (c : ℕ) → view t c ≡ view s c
  pub disk : t.disk ≡ s.disk
  pub log : SameLog s t
  pub block : Block
  pub cached : find b t.blocks ≡ some block
  pub reads : block.words ≡ view s b
  pub clean : block.pinned ≡ false → block.words ≡ s.disk.content b
  pub keeps :
      (c : ℕ) (k : Block) → held c ≡ true → find c s.blocks ≡ some k → find c t.blocks ≡ some k

module _ (held : ℕ → Bool) (b : ℕ) (s : Cache) (v : IsValid held s) (free : held b ≡ false)
    (b_ne : b ≢ s.sblock.log_start) where
  abbrev moved : Block → Cache
  moved k = record s {
    blocks = record k { acquired = true; lock = 0 } ∷ remove k.block_no s.blocks;
  }

  find-moved :
      (k : Block)
      → find b s.blocks ≡ some k
      → (c : ℕ)
      → find c (moved k).blocks
        ≡ (if b == c then some (record k { acquired = true; lock = 0 }) else find c s.blocks)
  unfolding find
  find-moved k e c =
      ground (arith, block_no_of_find b s.blocks k e, find-remove_ne k.block_no c s.blocks)

  is_free : (k : Block) → find b s.blocks ≡ some k → IsFine false (s.disk.content b) k
  is_free k e = rw free at (v.fine b k e)

  differs : (c : ℕ) → held c ≡ true → (b == c) ≡ false
  differs c h = elim (Bool-cases (b == c)) [
    | inl t ↦ let p : b ≡ c = ground arith in cc (ap held p)
    | inr t ↦ t
  ]

  moved-IsFine :
      (k : Block) (e : find b s.blocks ≡ some k) (c : ℕ) (j : Block)
      → find c (moved k).blocks ≡ some j
      → IsFine (hold b held c) (s.disk.content c) j
  moved-IsFine k e c j h = elim (Bool-cases (b == c)) [
    | inl t ↦ rw t (let p = rw t at (sym (find-moved k e c) ∙ h) in (cc p, cc p))
    | inr t ↦ rw t (v.fine c j (rw t at (sym (find-moved k e c) ∙ h)))
  ]

  moved-Acquired : (k : Block) → find b s.blocks ≡ some k → Acquired held b s (moved k)
  unfolding acquire acquire_cached view
  moved-Acquired k e = record {
    runs = rw (e, acquire) (rw ((is_free k e).1, acquire_cached) refl);
    valid = record {
      distinct = (
        find-remove_self k.block_no s.blocks v.distinct,
        remove-Distinct k.block_no s.blocks v.distinct,
      );
      fine = moved-IsFine k e;
      no_header = ground (arith, find-moved k e s.sblock.log_start, v.no_header, b_ne);
    };
    views = λ c. ground (arith, find-moved k e c, e);
    disk = refl;
    log = record { sblock = refl; header = refl; outstanding = refl };
    block = record k { acquired = true; lock = 0 };
    cached = ground (arith, find-moved k e b);
    reads = ground (arith, e);
    clean = (is_free k e).2;
    keeps = λ c j h q. ground (arith, find-moved k e c, differs c h);
  }

  -- A block that is not cached: room is made for it, and it is read.
  find-new :
      (c : ℕ)
      → find b s.blocks ≡ none
      → Survives (find c s.blocks) (find c (manage_block_num s.blocks s.block_num).0)
  find-new c e = manage-Survives c s.blocks s.block_num v.distinct

  new-IsFine :
      (e : find b s.blocks ≡ none) (c : ℕ) (j : Block)
      → find c (acquire_new b s).blocks ≡ some j
      → IsFine (hold b held c) (s.disk.content c) j
  unfolding acquire_new find
  new-IsFine e c j h = elim (Bool-cases (b == c)) [
    | inl t ↦ rw t (let p = rw t at h in (cc p, cc p))
    | inr t ↦ rw t (v.fine c j (survivor (find-new c e) (rw t at h)))
  ]
    where
      survivor :
          Survives (find c s.blocks) (find c (manage_block_num s.blocks s.block_num).0)
          → find c (manage_block_num s.blocks s.block_num).0 ≡ some j
          → find c s.blocks ≡ some j
      survivor (inl same) q = sym same ∙ q
      survivor (inr (k, was, gone, _)) q = cc

  evicted-words :
      (c : ℕ) (k : Block)
      → find c s.blocks ≡ some k
      → evictable k ≡ true
      → k.words ≡ s.disk.content c
  evicted-words c k e w = elim (Bool-cases (held c)) [
    | inl t ↦ let p : IsFine true (s.disk.content c) k = rw t at (v.fine c k e) in ground arith
    | inr t ↦ let p : IsFine false (s.disk.content c) k = rw t at (v.fine c k e) in ground arith
  ]

  view-new : (c : ℕ) → find b s.blocks ≡ none → view (acquire_new b s) c ≡ view s c
  unfolding acquire_new find view
  view-new c e = elim (Bool-cases (b == c)) [
    | inl t ↦ ground (arith, e)
    | inr t ↦ rw t (same (find-new c e))
  ]
    where
      same :
          Survives (find c s.blocks) (find c (manage_block_num s.blocks s.block_num).0)
          → words_of (find c (manage_block_num s.blocks s.block_num).0) (s.disk.content c)
            ≡ words_of (find c s.blocks) (s.disk.content c)
      same (inl p) = rw p
      same (inr (k, was, gone, w)) = rw (was, gone) (sym (evicted-words c k was w))

  new-keeps :
      (e : find b s.blocks ≡ none) (c : ℕ) (k : Block)
      → held c ≡ true
      → find c s.blocks ≡ some k
      → find c (acquire_new b s).blocks ≡ some k
  unfolding acquire_new find
  new-keeps e c k h q = rw (differs c h) (survives (find-new c e))
    where
      is_held : IsFine true (s.disk.content c) k
      is_held = rw h at (v.fine c k q)

      survives :
          Survives (find c s.blocks) (find c (manage_block_num s.blocks s.block_num).0)
          → find c (manage_block_num s.blocks s.block_num).0 ≡ some k
      survives (inl same) = same ∙ q
      survives (inr (j, was, gone, w)) =
          absurd (let p : j ≡ k = cc in ground (arith, ap (λ (i : Block). i.acquired) p, is_held))

  new-Acquired : find b s.blocks ≡ none → Acquired held b s (acquire_new b s)
  unfolding acquire acquire_new view find
  new-Acquired e = record {
    runs = rw (e, acquire) refl;
    valid = record {
      distinct = (
        find-manage_none b s.blocks s.block_num e,
        manage-Distinct s.blocks s.block_num v.distinct,
      );
      fine = new-IsFine e;
      no_header =
          ground
            (arith, find-manage_none s.sblock.log_start s.blocks s.block_num, v.no_header, b_ne);
    };
    views = λ c. view-new c e;
    disk = refl;
    log = record { sblock = refl; header = refl; outstanding = refl };
    block = fresh b (s.disk.content b);
    cached = ground arith;
    reads = ground (arith, e);
    clean = λ p. refl;
    keeps = new-keeps e;
  }

  pub acquire_lem : (t : Cache) × Acquired held b s t
  acquire_lem = elim (Option-cases (find b s.blocks)) [
    | inl e ↦ (acquire_new b s, new-Acquired e)
    | inr e ↦ (moved e.0, moved-Acquired e.0 e.1)
  ]

-- Every cached block has been read from the device.
abbrev pub AreRead : List Block → Type 0
AreRead ks = (c : ℕ) (k : Block) → find c ks ≡ some k → k.valid ≡ true

module _ (held : ℕ → Bool) (b : ℕ) (s : Cache) (v : IsValid held s) (free : held b ≡ false)
    (b_ne : b ≢ s.sblock.log_start) (read : AreRead s.blocks) where
  moved-AreRead :
      (k : Block) → find b s.blocks ≡ some k → AreRead (moved held b s v free b_ne k).blocks
  moved-AreRead k e c j h = elim (Bool-cases (b == c)) [
    | inl t ↦
        let p = rw t at (sym (find-moved held b s v free b_ne k e c) ∙ h) in
        let q = read b k e in cc p
    | inr t ↦ read c j (rw t at (sym (find-moved held b s v free b_ne k e c) ∙ h))
  ]

  new-AreRead : find b s.blocks ≡ none → AreRead (acquire_new b s).blocks
  unfolding acquire_new find
  new-AreRead e c j h = elim (Bool-cases (b == c)) [
    | inl t ↦ let p = rw t at h in cc p
    | inr t ↦ read c j (survivor (find-new held b s v free b_ne c e) (rw t at h))
  ]
    where
      survivor :
          Survives (find c s.blocks) (find c (manage_block_num s.blocks s.block_num).0)
          → find c (manage_block_num s.blocks s.block_num).0 ≡ some j
          → find c s.blocks ≡ some j
      survivor (inl same) q = sym same ∙ q
      survivor (inr (k, was, gone, _)) q = cc

  -- In a valid cache whose blocks have all been read, cache_acquire of a block other than the log header that
  -- nobody holds returns. The block is then held and cached with its content, and has been read, as all that are
  -- cached; no other held block has moved, and neither the device, the log header nor the content that any block is
  -- seen with has changed.
  pub acquire-Acquired :
      (t : Cache) × (a : Acquired held b s t) × (a.block.valid ≡ true) × AreRead t.blocks
  acquire-Acquired = elim (Option-cases (find b s.blocks)) [
    | inl e ↦
        let a = new-Acquired held b s v free b_ne e in
        (acquire_new b s, a, (new-AreRead e) b a.block a.cached, new-AreRead e)
    | inr e ↦
        let a = moved-Acquired held b s v free b_ne e.0 e.1 in
        let r = moved-AreRead e.0 e.1 in
        (moved held b s v free b_ne e.0, a, r b a.block a.cached, r)
  ]
