-- ===== src/Fs/Cache.antt =====
-- The block cache and its write-ahead log (src/fs/cache.h, src/fs/cache.c).
pub mod Log
pub mod Writes
pub mod Atomic
pub mod Blocks
pub mod Access
pub mod Copy
pub mod Batch
pub mod Commit
pub mod Recovery
pub mod Budget
pub mod Use
pub mod Edit
pub mod Spent
pub mod Search
pub mod Alloc
pub mod Free
mod Tests
use mathlib.Core.Option
use fdu2024_os_honor_lab.Prelude.{
  ℕ, zero, suc, ◌+◌, ◌-◌, ◌*◌, ◌/◌, ◌%◌, ◌^◌, Bool, true, false, not, ◌&&◌, ◌||◌, Option, none,
  some, List, [], ◌∷◌, ◌++◌, ◌==◌, ltb, leb, if◌then◌else◌, get_or, set, replicate, take, drop,
}
use fdu2024_os_honor_lab.Prelude.Exec.{Result, done, panic, sleep, M, pure, modify, ◌>>=◌, ◌>>◌}
use fdu2024_os_honor_lab.Fs.Disk.{Words, Write, Disk}
use fdu2024_os_honor_lab.Fs.Disk
use fdu2024_os_honor_lab.Fs.Bitmap

-- LOG_MAX_SIZE, OP_MAX_NUM_BLOCKS, EVICTION_THRESHOLD
abbrev pub log_max_size : ℕ
log_max_size = (512 - 8) / 8

abbrev pub op_max_num_blocks : ℕ
op_max_num_blocks = 10

abbrev pub eviction_threshold : ℕ
eviction_threshold = 20

-- `SuperBlock`
pub record SuperBlock : Type 0 where
  pub num_blocks : ℕ
  pub num_data_blocks : ℕ
  pub num_inodes : ℕ
  pub num_log_blocks : ℕ
  pub log_start : ℕ
  pub inode_start : ℕ
  pub bitmap_start : ℕ

-- `Block`; `lock` is the value of its semaphore.
pub record Block : Type 0 where
  pub block_no : ℕ
  pub acquired : Bool
  pub pinned : Bool
  pub lock : ℕ
  pub valid : Bool
  pub words : Words

-- `LogHeader`: the words of one block.
pub record LogHeader : Type 0 where
  pub num_blocks : ℕ
  pub block_no : List ℕ

unfoldable pub to_words : LogHeader → Words
to_words h = h.num_blocks ∷ h.block_no

unfoldable pub from_words : Words → LogHeader
from_words [] = record { num_blocks = 0; block_no = [] }
from_words (n ∷ bs) = record { num_blocks = n; block_no = bs }

-- The static variables of cache.c, and the device. `blocks` is the list from `head.next` on.
pub record Cache : Type 0 where
  pub sblock : SuperBlock
  pub blocks : List Block
  pub block_num : ℕ
  pub header : LogHeader
  pub outstanding : ℕ
  pub disk : Disk

-- The block numbers that the log holds.
abbrev pub logged : LogHeader → List ℕ
logged h = take h.num_blocks h.block_no

-- the search of `cache_acquire`
unfoldable pub find : ℕ → List Block → Option Block
find b [] = none
find b (k ∷ ks) = if k.block_no == b then some k else find b ks

-- `_detach_from_list` of the first block of that number
unfoldable pub remove : ℕ → List Block → List Block
remove b [] = []
remove b (k ∷ ks) = if k.block_no == b then ks else k ∷ remove b ks

-- A write through a pointer to the cached block `b`.
unfoldable pub change : ℕ → (Block → Block) → List Block → List Block
change b f [] = []
change b f (k ∷ ks) = if k.block_no == b then f k ∷ ks else k ∷ change b f ks

-- the test of manage_block_num
abbrev pub evictable : Block → Bool
evictable k = not k.acquired && not k.pinned

-- manage_block_num: the list is walked from its tail.
unfoldable pub manage_block_num : List Block → ℕ → List Block × ℕ
manage_block_num [] n = ([], n)
manage_block_num (k ∷ ks) n =
    let (rest, m) = manage_block_num ks n in
    if leb eviction_threshold m && evictable k then (rest, m - 1) else (k ∷ rest, m)

-- init_block, and the stores of cache_acquire, on a block that is read from the device
abbrev pub fresh : ℕ → Words → Block
fresh b x = record {
  block_no = b;
  acquired = true;
  pinned = false;
  lock = 0;
  valid = true;
  words = x;
}

unfoldable pub acquire_cached : Block → Cache → Result (Unit {0} × Cache)
acquire_cached k s = elim k.lock [
  | zero ↦ sleep
  | suc n ↦ done (
    tt,
    record s { blocks = record k { acquired = true; lock = n } ∷ remove k.block_no s.blocks },
  )
]

unfoldable pub acquire_new : ℕ → Cache → Cache
acquire_new b s =
    let (ks, n) = manage_block_num s.blocks s.block_num in
    record s { blocks = fresh b (s.disk.content b) ∷ ks; block_num = n + 1 }

-- cache_acquire. The pointer that it returns is `b`.
unfoldable pub acquire : ℕ → M Cache (Unit {0})
acquire b s = elim (find b s.blocks) [
  | some k ↦ acquire_cached k s
  | none ↦ done (tt, acquire_new b s)
]

abbrev pub set_block : ℕ → (Block → Block) → Cache → Cache
set_block b f s = record s { blocks = change b f s.blocks }

-- cache_release
unfoldable pub release : ℕ → M Cache (Unit {0})
release b = modify (set_block b (λ k. record k { acquired = false; lock = k.lock + 1 }))

-- `block->data` of a block that is acquired; a block that is not cached has no pointer
unfoldable pub load : ℕ → M Cache Words
load b s = elim (find b s.blocks) [ some k ↦ done (k.words, s) | none ↦ panic ]

unfoldable pub store : ℕ → Words → M Cache (Unit {0})
store b x = modify (set_block b (λ k. record k { words = x }))

-- device_write
unfoldable pub device_write : ℕ → M Cache (Unit {0})
device_write b = do x ← load b; modify (λ s. record s { disk = Disk.write s.disk b x })

-- write_header
unfoldable pub write_header : M Cache (Unit {0})
write_header =
    modify (λ s. record s { disk = Disk.write s.disk s.sblock.log_start (to_words s.header) })

-- copy_block
unfoldable pub copy_block : ℕ → ℕ → M Cache (Unit {0})
copy_block from to = do
  acquire from
  acquire to
  x ← load from
  store to x
  device_write to
  release from
  release to
