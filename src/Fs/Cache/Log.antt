-- ===== src/Fs/Cache/Log.antt =====
-- The logged operations of src/fs/cache.c: begin_op, sync, end_op, recovery at start-up, and the
-- allocation of blocks by the bitmap. `log.log_sem` only orders who is woken, and has no field.
use fdu2024_os_honor_lab.Prelude.{
  ℕ, zero, suc, ◌+◌, ◌-◌, ◌*◌, ◌/◌, ◌^◌, Bool, true, false, ◌||◌, Option, none, some, List, [], ◌∷◌,
  ◌==◌, ltb, leb, if◌then◌else◌, set, replicate,
}
use fdu2024_os_honor_lab.Prelude.Exec.{Result, done, panic, sleep, M, pure, modify, ◌>>=◌, ◌>>◌}
use fdu2024_os_honor_lab.Fs.Disk.{Disk}
use fdu2024_os_honor_lab.Fs.Bitmap
use fdu2024_os_honor_lab.Fs.Cache.{
  Cache, SuperBlock, LogHeader, from_words, logged, set_block, acquire, release, load, store,
  device_write, write_header, copy_block, log_max_size, op_max_num_blocks,
}

-- cache_begin_op; the result is `ctx->rm`. A caller that must wait sleeps, and tries again later.
unfoldable pub begin_op : M Cache ℕ
begin_op s =
    if leb log_max_size (s.header.num_blocks + (s.outstanding + 1) * op_max_num_blocks)
    then sleep
    else done (op_max_num_blocks, record s { outstanding = s.outstanding + 1 })

unfoldable pub contains : ℕ → List ℕ → Bool
contains b [] = false
contains b (c ∷ cs) = b == c || contains b cs

-- `header.block_no[header.num_blocks++] = b`
abbrev pub log_block : ℕ → Cache → Cache
log_block b s = record s {
  header = record {
    num_blocks = s.header.num_blocks + 1;
    block_no = set s.header.block_no s.header.num_blocks b;
  };
}

abbrev pub pin : ℕ → Cache → Cache
pin b s = set_block b (λ k. record k { pinned = true }) s

-- cache_sync with a context that has `rm` operations left; the result is the new `ctx->rm`.
unfoldable pub sync : ℕ → ℕ → M Cache ℕ
sync rm b s =
    if contains b (logged s.header)
    then done (rm, pin b s)
    else if leb rm 0 || leb log_max_size (s.header.num_blocks + 1)
    then panic
    else done (rm - 1, log_block b (pin b s))

-- cache_sync with `ctx == NULL` writes through.
unfoldable pub sync_op : Option ℕ → ℕ → M Cache (Option ℕ)
sync_op none b = do device_write b; pure none
sync_op (some rm) b = do r ← sync rm b; pure (some r)

-- The loop of cache_end_op that copies the logged blocks, from index `i` on, to the log.
unfoldable pub write_log : ℕ → List ℕ → M Cache (Unit {0})
write_log i [] = pure tt
write_log i (b ∷ bs) = do (λ s. copy_block b (s.sblock.log_start + i + 1) s); write_log (i + 1) bs

-- One round of the loop that installs the logged blocks.
unfoldable pub install_block : ℕ → M Cache (Unit {0})
install_block b = do
  acquire b
  device_write b
  modify (set_block b (λ k. record k { pinned = false }))
  release b

unfoldable pub install : List ℕ → M Cache (Unit {0})
install [] = pure tt
install (b ∷ bs) = do install_block b; install bs

abbrev pub clear_header : Cache → Cache
clear_header s = record s { header = record (s.header) { num_blocks = 0 } }

-- The commit of cache_end_op: log, header, home blocks, empty header.
unfoldable pub commit : M Cache (Unit {0})
commit = do
  bs ← (λ s. done (logged s.header, s))
  write_log 0 bs
  write_header
  install bs
  modify clear_header
  write_header

-- cache_end_op, which is called only while an operation is open
unfoldable pub end_op : M Cache (Unit {0})
end_op s =
    let t = record s { outstanding = s.outstanding - 1 } in
    if ltb 0 t.outstanding then done (tt, t) else commit t

-- The loop of init_bcache that copies the log, from index `i` on, to the home blocks.
unfoldable pub restore : ℕ → List ℕ → M Cache (Unit {0})
restore i [] = pure tt
restore i (b ∷ bs) = do (λ s. copy_block (s.sblock.log_start + i + 1) b s); restore (i + 1) bs

-- `memset(header.block_no, 0, LOG_MAX_SIZE)`: 63 bytes, which are seven words and seven bytes.
unfoldable pub clear_bytes : ℕ → List ℕ → List ℕ
clear_bytes n [] = []
clear_bytes n (w ∷ ws) =
    if leb 8 n then 0 ∷ clear_bytes (n - 8) ws else w / 2 ^ (8 * n) * 2 ^ (8 * n) ∷ ws

abbrev pub empty_header : LogHeader → LogHeader
empty_header h = record { num_blocks = 0; block_no = clear_bytes log_max_size h.block_no }

-- The static variables after the first lines of init_bcache.
unfoldable pub boot : SuperBlock → Disk → Cache
boot sb d = record {
  sblock = sb;
  blocks = [];
  block_num = 0;
  header = from_words (d.content sb.log_start);
  outstanding = 0;
  disk = d;
}

-- init_bcache
unfoldable pub init_bcache : SuperBlock → Disk → Result (Unit {0} × Cache)
init_bcache sb d =
    (do
      bs ← (λ s. done (logged s.header, s))
      restore 0 bs
      modify (λ s. record s { header = empty_header s.header })
      write_header)
      (boot sb d)

-- What cache_alloc does once it has found the free block `i`.
unfoldable pub alloc_block : Option ℕ → ℕ → List ℕ → ℕ → M Cache (ℕ × Option ℕ)
alloc_block ctx bm cells i = do
  store bm (Bitmap.mark cells i)
  ctx1 ← sync_op ctx bm
  release bm
  acquire i
  store i (replicate 64 0)
  ctx2 ← sync_op ctx1 i
  release i
  pure (i, ctx2)

-- The loop of cache_alloc, for `n` more block numbers from `i` on.
unfoldable pub alloc_from : Option ℕ → ℕ → ℕ → M Cache (ℕ × Option ℕ)
alloc_from ctx zero i = do bm ← (λ s. done (s.sblock.bitmap_start, s)); release bm; (λ s. panic)
alloc_from ctx (suc n) i = do
  bm ← (λ s. done (s.sblock.bitmap_start, s))
  cells ← load bm
  let next = alloc_from ctx n (i + 1)
  let take_i = alloc_block ctx bm cells i
  if Bitmap.get cells i then next else take_i

-- cache_alloc: the block number, and the operations left if there is a context
unfoldable pub alloc : Option ℕ → M Cache (ℕ × Option ℕ)
alloc ctx = do
  bm ← (λ s. done (s.sblock.bitmap_start, s))
  n ← (λ s. done (s.sblock.num_blocks, s))
  acquire bm
  alloc_from ctx n 0

-- cache_free
unfoldable pub free : Option ℕ → ℕ → M Cache (Option ℕ)
free ctx b = do
  bm ← (λ s. done (s.sblock.bitmap_start, s))
  acquire bm
  cells ← load bm
  store bm (Bitmap.clear cells b)
  ctx1 ← sync_op ctx bm
  release bm
  pure ctx1
