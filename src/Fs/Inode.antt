-- ===== src/Fs/Inode.antt =====
-- Inodes (src/fs/inode.h, src/fs/inode.c) on the block cache. A function works on the in-memory inode
-- that it is given, whose lock the caller holds, and gives the new one back; `none` is the null context,
-- and a context is the number of operations it has left. Blocks are words of 8 bytes.
pub mod Packed
pub mod Layout
pub mod Map
pub mod Alloc
pub mod Read
pub mod Write
pub mod Grow
pub mod Clear
mod Tests
use fdu2024_os_honor_lab.Prelude.{
  ℕ, zero, suc, ◌+◌, ◌-◌, ◌*◌, ◌/◌, ◌%◌, ◌^◌, Bool, true, false, not, ◌&&◌, ◌||◌, Option, none,
  some, List, [], ◌∷◌, ◌++◌, ◌==◌, ltb, leb, if◌then◌else◌, get_or, set,
}
use fdu2024_os_honor_lab.Prelude.Exec.{Result, done, panic, M, pure, modify, ◌>>=◌, ◌>>◌}
use fdu2024_os_honor_lab.Fs.Disk.{Words}
use fdu2024_os_honor_lab.Fs.Cache.{Cache, set_block}
use fdu2024_os_honor_lab.Fs.Cache.Log.{alloc, free}
use fdu2024_os_honor_lab.Fs.Cache.Use.{read_block, edit_block}

-- BLOCK_SIZE, INODE_NUM_DIRECT, INODE_PER_BLOCK
abbrev pub block_size : ℕ
block_size = 512

abbrev pub inode_num_direct : ℕ
inode_num_direct = 12

abbrev pub inode_per_block : ℕ
inode_per_block = 8

-- InodeType
abbrev pub inode_directory : ℕ
inode_directory = 1

abbrev pub inode_device : ℕ
inode_device = 3

-- `struct dinode`
pub record InodeEntry : Type 0 where
  pub type : ℕ
  pub major : ℕ
  pub minor : ℕ
  pub num_links : ℕ
  pub num_bytes : ℕ
  pub addrs : List ℕ
  pub indirect : ℕ

-- The fields of `Inode` that its operations read, but for the lock and the count of references.
pub record Inode : Type 0 where
  pub inode_no : ℕ
  pub valid : Bool
  pub entry : InodeEntry

-- `((u32*) data)[i]`, and a store there
unfoldable pub u32 : ℕ → Words → ℕ
u32 i ws = get_or ws (i / 2) 0 / 2 ^ (32 * (i % 2)) % 2 ^ 32

unfoldable pub set_u32 : ℕ → ℕ → Words → Words
set_u32 i x ws =
    let w = get_or ws (i / 2) 0 in
    set ws (i / 2) (if i % 2 == 0 then w / 2 ^ 32 * 2 ^ 32 + x else w % 2 ^ 32 + x * 2 ^ 32)

-- `data[i]` of a block
unfoldable pub byte : ℕ → Words → ℕ
byte i ws = get_or ws (i / 8) 0 / 2 ^ (8 * (i % 8)) % 2 ^ 8

-- `n` addresses from index `i` on
unfoldable pub addrs_at : ℕ → ℕ → Words → List ℕ
addrs_at zero i ws = []
addrs_at (suc n) i ws = u32 i ws ∷ addrs_at n (i + 1) ws

-- `*get_entry(block, inode_no)` with `inode_no % INODE_PER_BLOCK` = `k`: 64 bytes from 64 * `k` on
unfoldable pub load_entry : ℕ → Words → InodeEntry
load_entry k ws =
    let i = 16 * k in
    record {
      type = u32 i ws % 2 ^ 16;
      major = u32 i ws / 2 ^ 16;
      minor = u32 (i + 1) ws % 2 ^ 16;
      num_links = u32 (i + 1) ws / 2 ^ 16;
      num_bytes = u32 (i + 2) ws;
      addrs = addrs_at inode_num_direct (i + 3) ws;
      indirect = u32 (i + 15) ws;
    }

-- The 64 bytes of an entry, as words.
unfoldable pub pack : List ℕ → Words
pack [] = []
pack (a ∷ []) = a ∷ []
pack (a ∷ b ∷ cs) = (a + b * 2 ^ 32) ∷ pack cs

abbrev pub entry_words : InodeEntry → Words
entry_words e = pack (
    (e.type + e.major * 2 ^ 16)
    ∷ (e.minor + e.num_links * 2 ^ 16)
    ∷ e.num_bytes
    ∷ (e.addrs ++ (e.indirect ∷ [])))

unfoldable pub put_words : ℕ → Words → Words → Words
put_words i [] ws = ws
put_words i (x ∷ xs) ws = put_words (i + 1) xs (set ws i x)

-- `memcpy(get_entry(block, inode_no), &inode->entry, sizeof(InodeEntry))`
unfoldable pub store_entry : ℕ → InodeEntry → Words → Words
store_entry k e ws = put_words (8 * k) (entry_words e) ws

-- to_block_no
unfoldable pub to_block_no : ℕ → Cache → ℕ
to_block_no inode_no s = s.sblock.inode_start + inode_no / inode_per_block

-- inode_sync
unfoldable pub inode_sync : Option ℕ → Inode → Bool → M Cache (Option ℕ × Inode)
inode_sync ctx inode do_write =
    let k = inode.inode_no % inode_per_block in
    if inode.valid && do_write
    then (do
      b ← (λ s. done (to_block_no inode.inode_no s, s))
      ctx1 ← edit_block ctx b (store_entry k inode.entry)
      pure (ctx1, inode))
    else if not inode.valid && not do_write
    then (do
      b ← (λ s. done (to_block_no inode.inode_no s, s))
      x ← read_block b
      pure (ctx, record inode { entry = load_entry k x; valid = true }))
    else if inode.valid
    then pure (ctx, inode)
    else (λ s. panic)

abbrev pub set_addr : ℕ → ℕ → Inode → Inode
set_addr i b inode = record inode {
  entry = record (inode.entry) { addrs = set inode.entry.addrs i b };
}

abbrev pub set_indirect : ℕ → Inode → Inode
set_indirect b inode = record inode { entry = record (inode.entry) { indirect = b } }

-- The result of inode_map: the block, and `*modified`, after the context and the inode.
abbrev pub Mapped : Type 0
Mapped = ℕ × Bool × Option ℕ × Inode

abbrev pub is_null : Option ℕ → Bool
is_null none = true
is_null (some rm) = false

-- inode_map of a direct block
unfoldable pub map_direct : Option ℕ → Inode → ℕ → M Cache Mapped
map_direct ctx inode i =
    if get_or inode.entry.addrs i 0 == 0
    then if is_null ctx then pure (0, false, ctx, inode) else (do
      (b, ctx1) ← alloc ctx
      (ctx2, inode1) ← inode_sync ctx1 (set_addr i b inode) true
      pure (b, true, ctx2, inode1))
    else pure (get_or inode.entry.addrs i 0, false, ctx, inode)

-- The indirect block, which is allocated if there is none.
unfoldable pub need_indirect : Option ℕ → Inode → M Cache (Option ℕ × Inode)
need_indirect ctx inode =
    if inode.entry.indirect == 0
    then (do (b, ctx1) ← alloc ctx; pure (ctx1, set_indirect b inode))
    else pure (ctx, inode)

-- inode_map of an indirect block, with index `i` in it. The address is stored after the block was given
-- up, through the pointer to it.
unfoldable pub map_indirect : Option ℕ → Inode → ℕ → M Cache Mapped
map_indirect ctx inode i = do
  (ctx1, inode1) ← need_indirect ctx inode
  x ← read_block inode1.entry.indirect
  if not (u32 i x == 0)
      then pure (u32 i x, false, ctx1, inode1)
      else if is_null ctx
      then pure (0, false, ctx1, inode1)
      else (do
        (b, ctx2) ← alloc ctx1
        modify (set_block inode1.entry.indirect (λ k. record k { words = set_u32 i b k.words }))
        (ctx3, inode2) ← inode_sync ctx2 inode1 true
        pure (b, true, ctx3, inode2))

-- inode_map
unfoldable pub inode_map : Option ℕ → Inode → ℕ → M Cache Mapped
inode_map ctx inode offset =
    if ltb offset inode_num_direct
    then map_direct ctx inode offset
    else map_indirect ctx inode (offset - inode_num_direct)

-- `n` bytes of a block from `i` on
unfoldable pub bytes_at : ℕ → ℕ → Words → List ℕ
bytes_at zero i ws = []
bytes_at (suc n) i ws = byte i ws ∷ bytes_at n (i + 1) ws

-- `sz` of a round of the loop of inode_read
abbrev pub round_size : ℕ → ℕ → ℕ
round_size offset left =
    if ltb left (block_size - offset % block_size) then left else block_size - offset % block_size

-- The loop of inode_read, with fuel, and the assertion after it: `left` is `count - have_read`, and the
-- result is what it writes from `dest` on.
unfoldable pub read_loop : ℕ → Inode → Bool → ℕ → ℕ → M Cache (List ℕ)
read_loop zero inode modified offset left = if modified then (λ s. panic) else pure []
read_loop (suc f) inode modified offset left =
    if left == 0 then (if modified then (λ s. panic) else pure []) else (do
      (b, modified1, ctx, inode1) ← inode_map none inode (offset / block_size)
      x ← read_block b
      rest ←
          read_loop f inode1 modified1 (offset + round_size offset left)
            (left - round_size offset left)
      pure (bytes_at (round_size offset left) (offset % block_size) x ++ rest))

abbrev pub usize_mod : ℕ
usize_mod = 2 ^ 64

-- inode_read; a round reads at least one byte, so `count` rounds are enough. Reading a device is
-- console_read, which does not touch the cache.
unfoldable pub inode_read : (ℕ → M Cache (List ℕ)) → Inode → ℕ → ℕ → M Cache (List ℕ)
inode_read console_read inode offset count =
    if inode.entry.type == inode_device
    then (if inode.entry.major == 1 then console_read count else (λ s. panic))
    else (let size = inode.entry.num_bytes in
        let n =
          if ltb size ((count + offset) % usize_mod)
          then (size + usize_mod - offset) % usize_mod
          else count in
        let end = (offset + n) % usize_mod in
        if ltb size offset || ltb size end || ltb end offset
        then (λ s. panic)
        else read_loop n inode false offset n)
