-- ===== src/Fs/Inode/Tests.antt =====
-- Inodes on a small disk.
use fdu2024_os_honor_lab.Prelude.{
  ◌⊎◌, ◌≢◌, ◌≤◌, ℕ, zero, suc, ◌+◌, ◌*◌, ◌≡◌, ◌<◌, refl, inr, true, false, none, some, [], ◌∷◌,
  arith, ◌==◌, if◌then◌else◌, replicate, length,
}
use fdu2024_os_honor_lab.Prelude.Exec.{done, panic}
use fdu2024_os_honor_lab.Fs.Disk.{Disk}
use fdu2024_os_honor_lab.Fs.Cache.{Cache, SuperBlock, find}
use fdu2024_os_honor_lab.Fs.Cache.Access.{view, IsValid}
use fdu2024_os_honor_lab.Fs.Cache.Batch.{nobody}
use fdu2024_os_honor_lab.Fs.Cache.Use.{Same}
use fdu2024_os_honor_lab.Fs.Inode.{
  Inode, InodeEntry, load_entry, store_entry, to_block_no, inode_sync, inode_read, byte, u32,
}
use fdu2024_os_honor_lab.Fs.Inode.Layout.{IsEntry, load_entry-store_entry}
use fdu2024_os_honor_lab.Fs.Inode.Alloc.{HasInodes, Allocated, inode_alloc, inode_alloc_lem}
use fdu2024_os_honor_lab.Fs.Inode.Map.{IsMapped, block_of, inode_at, inode_sync_round}
use fdu2024_os_honor_lab.Fs.Inode.Write.{inode_write}
use fdu2024_os_honor_lab.Fs.Inode.Write.Wrote.{IsLaidOut, Wrote}
use fdu2024_os_honor_lab.Fs.Inode.Write.Loop.{inode_write_lem}
use fdu2024_os_honor_lab.Fs.Inode.Read.{file_bytes, inode_read_lem}

abbrev sb : SuperBlock
sb = record {
  num_blocks = 1000;
  num_data_blocks = 900;
  num_inodes = 200;
  num_log_blocks = 63;
  log_start = 2;
  inode_start = 66;
  bitmap_start = 95;
}

-- Every word of block b is 1 + b.
abbrev disk : Disk
disk = record { content = λ b. replicate 64 (1 + b); trace = [] }

abbrev cold : Cache
cold = record {
  sblock = sb;
  blocks = [];
  block_num = 0;
  header = record { num_blocks = 0; block_no = replicate 63 0 };
  outstanding = 1;
  disk = disk;
}

cold-IsValid : IsValid nobody cold
unfolding find
cold-IsValid = record { distinct = tt; fine = λ c k e. absurd cc; no_header = refl }

-- A file of 1000 bytes on blocks 100 and 101.
abbrev entry : InodeEntry
entry = record {
  type = 2;
  major = 0;
  minor = 0;
  num_links = 1;
  num_bytes = 1000;
  addrs = 100 ∷ 101 ∷ replicate 10 0;
  indirect = 300;
}

abbrev inode : Inode
inode = record { inode_no = 9; valid = true; entry = entry }

entry-IsEntry : IsEntry entry
entry-IsEntry = record {
  type = omega arith;
  major = omega arith;
  minor = omega arith;
  num_links = omega arith;
  num_bytes = omega arith;
  twelve = refl;
  small = (
    omega arith,
    (
      omega arith,
      (
        omega arith,
        (
          omega arith,
          (
            omega arith,
            (
              omega arith,
              (
                omega arith,
                (omega arith, (omega arith, (omega arith, (omega arith, (omega arith, tt))))),
              ),
            ),
          ),
        ),
      ),
    ),
  );
  indirect = omega arith;
}

load_entry-store_entry_example :
    load_entry 1 (store_entry 1 entry (replicate 64 5))
    ≡ (if 1 == 1 then entry else load_entry 1 (replicate 64 5))
load_entry-store_entry_example =
    load_entry-store_entry entry entry-IsEntry 1 1 (replicate 64 5) refl (omega arith) (omega arith)

-- Part 1 is direct, and part 13 is in the indirect block, block 300 whose addresses are 301 and 0.
indirect_part : IsMapped inode cold 12
unfolding view find u32
indirect_part = record {
  present = λ p. absurd (omega arith);
  outside = λ p. absurd (omega arith);
  indirect = λ l. (λ p. absurd (omega arith), λ p. absurd (omega arith));
}

inode_sync_round_example :
    (left : ℕ) × (t : Cache) × (u : Cache) × (inode_sync (some 5) inode true cold
      ≡ done ((some left, inode), t))
    × (inode_sync none (record { inode_no = 9; valid = false; entry = load_entry 0 [] }) false t
        ≡ done ((none, inode), u))
    × Same t u
    × (inode_at t 3 ≡ inode_at cold 3)
unfolding to_block_no view find
inode_sync_round_example =
    inode_sync_round inode (load_entry 0 []) 5 3 cold cold-IsValid refl entry-IsEntry
      (λ p. absurd (omega arith)) refl (inr (omega arith, omega arith)) (λ p. absurd (omega arith))

both_parts : (i : ℕ) → i * 512 < 1000 → IsMapped inode cold i
unfolding view find u32
both_parts zero l = record {
  present = λ p. absurd (omega arith);
  outside = λ p. absurd (omega arith);
  indirect = λ h. absurd (omega arith);
}
both_parts (suc zero) l = record {
  present = λ p. absurd (omega arith);
  outside = λ p. absurd (omega arith);
  indirect = λ h. absurd (omega arith);
}
both_parts (suc (suc i)) l = absurd (omega arith)

inode_read_lem_example :
    (t : Cache) × (inode_read (λ n s. panic) inode 510 4 cold
      ≡ done (file_bytes entry cold 4 510, t))
    × Same cold t
inode_read_lem_example =
    inode_read_lem (λ n s. panic) inode 510 4 cold cold-IsValid (λ p. absurd (omega arith))
      (omega arith) (omega arith) (omega arith) both_parts

cold-IsLaidOut : IsLaidOut inode cold
unfolding view find
cold-IsLaidOut = record { mapped = both_parts; apart = apart; no_index = no_index; full = full }
  where
    apart :
        (i j : ℕ)
        → i * 512 < 1000
        → j * 512 < 1000
        → block_of entry (view cold) i ≡ block_of entry (view cold) j
        → i ≡ j
    apart zero zero k l e = refl
    apart zero (suc zero) k l e = absurd (omega (arith, e))
    apart (suc zero) zero k l e = absurd (omega (arith, e))
    apart (suc zero) (suc zero) k l e = refl
    apart (suc (suc i)) j k l e = absurd (omega (arith, k))
    apart i (suc (suc j)) k l e = absurd (omega (arith, l))

    no_index : (i : ℕ) → i * 512 < 1000 → block_of entry (view cold) i ≢ 300
    no_index zero l p = omega (arith, p)
    no_index (suc zero) l p = omega (arith, p)
    no_index (suc (suc i)) l p = absurd (omega (arith, l))

    full : (i : ℕ) → i * 512 < 1000 → length (view cold (block_of entry (view cold) i)) ≡ 64
    full zero l = refl
    full (suc zero) l = refl
    full (suc (suc i)) l = absurd (omega (arith, l))

inode_write_lem_example :
    (left : ℕ) × (t : Cache) × (inode_write (λ xs s. panic) (some 2) inode (7 ∷ 8 ∷ 9 ∷ []) 510 cold
      ≡ done ((3, some left, inode), t))
    × Wrote inode 510 (7 ∷ 8 ∷ 9 ∷ []) cold t
inode_write_lem_example =
    inode_write_lem (λ xs s. panic) inode 2 (7 ∷ 8 ∷ 9 ∷ []) 510 cold cold-IsValid cold-IsLaidOut
      (λ p. absurd (omega arith)) (omega arith) (omega arith)
      (omega arith, (omega arith, (omega arith, tt))) (λ l. (omega arith, omega arith))

read_over_two_blocks : file_bytes entry cold 4 510 ≡ 0 ∷ 0 ∷ 102 ∷ 0 ∷ []
unfolding byte view find
read_over_two_blocks = refl

-- In block 66 every inode has the type 67, and inode 0 to 7 stand there.
cold-HasInodes : HasInodes 200 cold
unfolding to_block_no view find
cold-HasInodes = record { apart = λ i l p. absurd (omega arith); size = λ i l. refl }

inode_alloc_lem_example :
    ((inode_alloc (some 3) 2 cold ≡ panic)
      × ((◌≡◌ {A = ℕ} 2 0) ⊎ ((j : ℕ) → 1 ≤ j → j < 200 → (inode_at cold j).type ≢ 0)))
    ⊎ ((◌≢◌ {A = ℕ} 2 0)
        × (m : ℕ) × (left : ℕ) × (t : Cache) × (m < 200)
        × (inode_alloc (some 3) 2 cold ≡ done ((m, some left), t))
        × Allocated 1 m 2 cold t)
inode_alloc_lem_example =
    inode_alloc_lem 3 2 cold cold-IsValid cold-HasInodes (omega arith) (omega arith)
      (omega arith, omega arith)
