-- ===== src/Fs/Dir/Tests.antt =====
-- A directory of two entries.
use fdu2024_os_honor_lab.Prelude.{
  ℕ, zero, suc, ◌+◌, ◌*◌, ◌≡◌, ◌≢◌, ◌<◌, refl, true, Option, some, [], ◌∷◌, arith, replicate,
  length,
}
use fdu2024_os_honor_lab.Prelude.Exec.{done, panic}
use fdu2024_os_honor_lab.Fs.Cache.{Cache, SuperBlock, find}
use fdu2024_os_honor_lab.Fs.Cache.Access.{view}
use fdu2024_os_honor_lab.Fs.Cache.Use.{Same}
use fdu2024_os_honor_lab.Fs.Inode.{Inode, byte, u32}
use fdu2024_os_honor_lab.Fs.Inode.Map.{IsMapped, block_of}
use fdu2024_os_honor_lab.Common.Memory.Strings.{padded}
use fdu2024_os_honor_lab.Fs.Inode.Write.Wrote.{IsLaidOut}
use fdu2024_os_honor_lab.Fs.Dir.Insert.{inode_insert-inode_lookup}
use fdu2024_os_honor_lab.Fs.Dir.Slot.{IsFirstFree}
use fdu2024_os_honor_lab.Fs.Dir.{inode_lookup, inode_insert, entry_no}
use fdu2024_os_honor_lab.Fs.Dir.Find.{Answers, IsDirectory, entry_at, IsNamed, inode_lookup_lem}

abbrev sb : SuperBlock
sb = record {
  num_blocks = 1000;
  num_data_blocks = 900;
  num_inodes = 200;
  num_log_blocks = 63;
  log_start = 2;
  inode_start = 66;
  bitmap_start = 95;
}

-- Every word of block b is b.
abbrev cold : Cache
cold = record {
  sblock = sb;
  blocks = [];
  block_num = 0;
  header = record { num_blocks = 0; block_no = replicate 63 0 };
  outstanding = 1;
  disk = record { content = λ b. replicate 64 b; trace = [] };
}

abbrev folder : Inode
folder = record {
  inode_no = 1;
  valid = true;
  entry = record {
    type = 1;
    major = 0;
    minor = 0;
    num_links = 1;
    num_bytes = 32;
    addrs = 100 ∷ replicate 11 0;
    indirect = 0;
  };
}

folder-IsDirectory : IsDirectory folder 2 cold
unfolding find view u32
folder-IsDirectory = record {
  valid = record { distinct = tt; fine = λ c k e. absurd cc; no_header = refl };
  type = refl;
  size = refl;
  small = omega arith;
  mapped = mapped;
}
  where
    mapped : (i : ℕ) → i * 512 < 32 → IsMapped folder cold i
    mapped zero l = record {
      present = λ p. absurd (omega arith);
      outside = λ p. absurd (omega arith);
      indirect = λ h. absurd (omega arith);
    }
    mapped (suc i) l = absurd (omega (arith, l))

inode_lookup_lem_example :
    (r : ℕ × Option ℕ) × (t : Cache) × (inode_lookup
        (λ n s. panic)
        folder
        (0 ∷ [])
        (replicate 16 5)
        cold
      ≡ done (r, t))
    × Same cold t
    × Answers folder.entry cold (0 ∷ []) 0 2 r
inode_lookup_lem_example =
    inode_lookup_lem (λ n s. panic) folder 2 (0 ∷ []) (replicate 16 5) cold folder-IsDirectory refl

first_entry :
    entry_at folder.entry cold 0
    ≡ 100 ∷ 0 ∷ 0 ∷ 0 ∷ 0 ∷ 0 ∷ 0 ∷ 0 ∷ 100 ∷ 0 ∷ 0 ∷ 0 ∷ 0 ∷ 0 ∷ 0 ∷ 0 ∷ []
unfolding find view byte
first_entry = refl

-- A directory whose first entry is `a` with number 5, and whose second is free.
abbrev half : Cache
half = record cold {
  disk = record { content = λ b. (5 + 97 * 65536) ∷ 0 ∷ replicate 62 0; trace = [] };
}

half-IsDirectory : IsDirectory folder 2 half
unfolding find view u32
half-IsDirectory = record {
  valid = record { distinct = tt; fine = λ c k e. absurd cc; no_header = refl };
  type = refl;
  size = refl;
  small = omega arith;
  mapped = mapped;
}
  where
    mapped : (i : ℕ) → i * 512 < 32 → IsMapped folder half i
    mapped zero l = record {
      present = λ p. absurd (omega arith);
      outside = λ p. absurd (omega arith);
      indirect = λ h. absurd (omega arith);
    }
    mapped (suc i) l = absurd (omega (arith, l))

half-IsLaidOut : IsLaidOut folder half
unfolding find view u32
half-IsLaidOut = record {
  mapped = half-IsDirectory.mapped;
  apart = apart;
  no_index = no_index;
  full = full;
}
  where
    apart :
        (i j : ℕ)
        → i * 512 < 32
        → j * 512 < 32
        → block_of folder.entry (view half) i ≡ block_of folder.entry (view half) j
        → i ≡ j
    apart zero zero k l e = refl
    apart (suc i) j k l e = absurd (omega (arith, k))
    apart zero (suc j) k l e = absurd (omega (arith, l))

    no_index : (i : ℕ) → i * 512 < 32 → block_of folder.entry (view half) i ≢ 0
    no_index zero l p = omega (arith, p)
    no_index (suc i) l p = absurd (omega (arith, l))

    full : (i : ℕ) → i * 512 < 32 → length (view half (block_of folder.entry (view half) i)) ≡ 64
    full zero l = refl
    full (suc i) l = absurd (omega (arith, l))

half-IsFirstFree : IsFirstFree folder 2 1 half
unfolding find view byte
half-IsFirstFree = record { inside = omega arith; free = refl; used = used }
  where
    used : (j : ℕ) → j < 1 → entry_no (entry_at folder.entry half j) ≢ 0
    used zero l p = omega (arith, p)
    used (suc j) l p = absurd (omega (arith, l))

no_b : (j : ℕ) → j < 2 → ¬ IsNamed (98 ∷ 0 ∷ []) (entry_at folder.entry half j)
unfolding find view byte padded
no_b zero l h = let z = h.1 0 (omega arith) in omega (arith, z)
no_b (suc zero) l h = h.0 refl
no_b (suc (suc j)) l h = absurd (omega (arith, l))

inode_insert-inode_lookup_example :
    (left : ℕ) × (t : Cache) × (u : Cache) × (inode_insert
        (λ n s. panic)
        (λ xs s. panic)
        (some 1)
        folder
        (98 ∷ 0 ∷ [])
        7
        (replicate 16 0)
        (replicate 16 0)
        half
      ≡ done ((16, some left, folder), t))
    × (inode_lookup (λ n s. panic) folder (98 ∷ 0 ∷ []) (replicate 16 0) t ≡ done ((7, some 16), u))
    × ((j : ℕ) → j < 2 → j ≢ 1 → entry_at folder.entry t j ≡ entry_at folder.entry half j)
inode_insert-inode_lookup_example =
    inode_insert-inode_lookup (λ n s. panic) (λ xs s. panic) folder 1 2 1 7 (98 ∷ 0 ∷ [])
      (replicate 16 0) (replicate 16 0) half half-IsDirectory half-IsLaidOut half-IsFirstFree no_b
      (omega arith, (omega arith, tt)) (omega arith) refl refl (λ l. (omega arith, omega arith))
      (omega arith) (omega arith)
