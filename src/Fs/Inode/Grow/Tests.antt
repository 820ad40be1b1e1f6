-- ===== src/Fs/Inode/Grow/Tests.antt =====
-- A write that extends a small file, and its end (src/fs/inode.c).
use fdu2024_os_honor_lab.Prelude.{◌≢◌, ℕ, ◌≢◌, true, List, [], ◌∷◌, ◌==◌, if◌then◌else◌, replicate}
use fdu2024_os_honor_lab.Fs.Bitmap
use fdu2024_os_honor_lab.Fs.Cache.{Cache}
use fdu2024_os_honor_lab.Fs.Inode.{Inode, InodeEntry, store_entry}

-- 510 bytes, in block 5, of an open file that nothing links any more
abbrev entry : InodeEntry
entry = record {
  type = 2;
  major = 0;
  minor = 0;
  num_links = 0;
  num_bytes = 510;
  addrs = 5 ∷ replicate 11 0;
  indirect = 0;
}

abbrev inode : Inode
inode = record { inode_no = 1; valid = true; entry = entry }

abbrev zeros : List ℕ
zeros = replicate 64 0

-- Blocks 0 to 5 are in use; block 3 is the bitmap, and block 4 holds the inodes.
abbrev disk_words : ℕ → List ℕ
disk_words b =
    if b == 3 then 63 ∷ replicate 63 0 else if b == 4 then store_entry 1 entry zeros else zeros

abbrev small : Cache
small = record {
  sblock = record {
    num_blocks = 20;
    num_data_blocks = 15;
    num_inodes = 8;
    num_log_blocks = 63;
    log_start = 2;
    inode_start = 4;
    bitmap_start = 3;
  };
  blocks = [];
  block_num = 0;
  header = record { num_blocks = 0; block_no = replicate 63 0 };
  outstanding = 1;
  disk = record { content = disk_words; trace = [] };
}
