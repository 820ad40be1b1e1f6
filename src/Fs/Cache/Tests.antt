-- ===== src/Fs/Cache/Tests.antt =====
-- The block cache on small inputs.
use fdu2024_os_honor_lab.Prelude.{
  ℕ, ◌+◌, ◌-◌, ◌*◌, ◌^◌, ◌≡◌, ◌<◌, ◌⊎◌, ◌↔◌, ◌==◌, some, refl, inr, true, false, List, [], ◌∷◌,
  ◌++◌, arith, leb, if◌then◌else◌, length, replicate,
}
use fdu2024_os_honor_lab.Prelude.Exec.{done, panic}
use fdu2024_os_honor_lab.Fs.Disk.{Words, Write, Disk}
use fdu2024_os_honor_lab.Fs.Cache.{Cache, Block, SuperBlock, find, from_words, logged}
use fdu2024_os_honor_lab.Fs.Cache.Log.{
  begin_op, sync, end_op, init_bcache, contains, clear_bytes, alloc,
}
use fdu2024_os_honor_lab.Fs.Bitmap
use fdu2024_os_honor_lab.Fs.Cache.Spent.{cost, Spent}
use fdu2024_os_honor_lab.Fs.Cache.Alloc.{in_use, HasBitmap, Allocated, alloc_lem}
use fdu2024_os_honor_lab.Fs.Cache.Access.{view, IsValid, Acquired, AreRead, acquire-Acquired}
use fdu2024_os_honor_lab.Fs.Cache.Batch.{nobody}
use fdu2024_os_honor_lab.Fs.Cache.Recovery.{CanCommit, crashed, end_op_atomic, end_op_durable}
use fdu2024_os_honor_lab.Fs.Cache.Budget.{
  Ops, begin, Reach, here, next, IsFunded, IsIdle, Reach-IsFunded, sync_panics_iff,
}

abbrev sb : SuperBlock
sb = record {
  num_blocks = 1000;
  num_data_blocks = 900;
  num_inodes = 200;
  num_log_blocks = 63;
  log_start = 2;
  inode_start = 66;
  bitmap_start = 95;
}

abbrev zeros : Words
zeros = replicate 64 0

abbrev blank : Disk
blank = record { content = λ b. zeros; trace = [] }

abbrev dirty : Block
dirty = record {
  block_no = 100;
  acquired = false;
  pinned = true;
  lock = 1;
  valid = true;
  words = replicate 64 7;
}

-- One operation is open, and has written block 100.
abbrev written : Cache
written = record {
  sblock = sb;
  blocks = dirty ∷ [];
  block_num = 1;
  header = record { num_blocks = 1; block_no = 100 ∷ replicate 62 0 };
  outstanding = 1;
  disk = blank;
}

written-IsValid : IsValid nobody written
unfolding find
written-IsValid = record { distinct = (refl, tt); fine = λ c k e. ground arith; no_header = refl }

written-CanCommit : CanCommit written
unfolding find from_words contains view
written-CanCommit = record {
  only = refl;
  valid = written-IsValid;
  outside = (inr (omega arith), tt);
  fits = omega arith;
  empty = refl;
  agrees = λ b h. ground arith;
}

end_op_atomic_example :
    (t : Cache) × (ws : List Write) × (u : Cache) × (end_op written ≡ done (tt, t))
    × (t.disk.trace ≡ [] ++ ws)
    × (t.header.num_blocks ≡ 0)
    × (init_bcache sb (crashed written ws 2) ≡ done (tt, u))
    × (u.disk.content 100
        ≡ (if leb 2 (length (logged written.header)) then zeros else view written 100))
end_op_atomic_example = end_op_atomic written 2 100 written-CanCommit (inr (omega arith))

end_op_durable_example :
    (t : Cache) × (end_op written ≡ done (tt, t))
    × IsValid nobody t
    × (t.disk.content 100 ≡ view written 100)
    × (view t 100 ≡ view written 100)
end_op_durable_example = end_op_durable written 100 written-CanCommit (inr (omega arith))

written-AreRead : AreRead written.blocks
unfolding find
written-AreRead c k e = ground arith

acquire-Acquired_example :
    (t : Cache) × (a : Acquired nobody 7 written t) × (a.block.valid ≡ true) × AreRead t.blocks
acquire-Acquired_example =
    acquire-Acquired nobody 7 written written-IsValid refl (omega arith) written-AreRead

abbrev idle : Cache
idle = record written { header = record { num_blocks = 0; block_no = zeros }; outstanding = 0 }

abbrev before : Ops
before = record { cache = idle; open_rm = [] }

abbrev after : Ops
after = record { cache = record idle { outstanding = 1 }; open_rm = 10 ∷ [] }

before-IsIdle : IsIdle before
before-IsIdle = record { nothing_open = refl; not_counted = refl; no_blocks = refl }

one_step : Reach before after
unfolding begin_op
one_step = next here (begin 10 refl refl)

Reach-IsFunded_example : IsFunded after
Reach-IsFunded_example = Reach-IsFunded before-IsIdle one_step

sync_panics_iff_example :
    (sync 10 100 after.cache ≡ panic)
    ↔ (◌≡◌ {A = ℕ} 10 0 × (contains 100 (logged after.cache.header) ≡ false))
sync_panics_iff_example = sync_panics_iff [] [] 10 100 before-IsIdle one_step refl

-- Only the first 63 bytes of the block numbers are cleared.
clear_bytes_runs :
    clear_bytes 63 (replicate 9 (2 ^ 64 - 1))
    ≡ replicate 7 0 ++ ((255 * 2 ^ 56) ∷ (2 ^ 64 - 1) ∷ [])
unfolding clear_bytes
clear_bytes_runs = refl

-- Blocks 0 to 3 are in use, among them the bitmap and the header of the log.
abbrev with_bitmap : Cache
with_bitmap = record {
  sblock = record sb { bitmap_start = 3 };
  blocks = [];
  block_num = 0;
  header = record { num_blocks = 0; block_no = replicate 63 0 };
  outstanding = 1;
  disk = record { content = λ b. if b == 3 then 15 ∷ replicate 63 0 else zeros; trace = [] };
}

with_bitmap-HasBitmap : HasBitmap with_bitmap
unfolding find view Bitmap.get
with_bitmap-HasBitmap = record {
  valid = record { distinct = tt; fine = λ c k e. ground arith; no_header = refl };
  apart = omega arith;
  full = refl;
  fits = omega arith;
  bitmap_used = refl;
  log_used = refl;
  table = refl;
}

alloc_lem_example :
    ((alloc (some 10) with_bitmap ≡ panic) × ((m : ℕ) → m < 1000 → in_use with_bitmap m ≡ true))
    ⊎ ((i : ℕ) × (left : ℕ) × (u : Cache) × (i < 1000)
        × (alloc (some 10) with_bitmap ≡ done ((i, some left), u))
        × Allocated i with_bitmap u
        × Spent (cost 3 with_bitmap + 1) 10 left with_bitmap u)
unfolding contains
alloc_lem_example = alloc_lem 10 with_bitmap with_bitmap-HasBitmap (omega arith, omega arith)
