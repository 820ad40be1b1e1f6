-- ===== src/Fs/Path/Tests.antt =====
-- The examples in the comments of src/fs/inode.c.
use fdu2024_os_honor_lab.Prelude.{
  ℕ, zero, suc, ◌+◌, ◌*◌, ◌^◌, ◌≡◌, ◌≢◌, ◌<◌, ◌⊎◌, refl, inl, inr, none, some, List, [], ◌∷◌, ◌++◌,
  true, false, ◌==◌, if◌then◌else◌, replicate, arith,
}
use fdu2024_os_honor_lab.Prelude.Exec.{done, panic}
use fdu2024_os_honor_lab.Common.Memory.{strncmp}
use fdu2024_os_honor_lab.Fs.Disk.{Words}
use fdu2024_os_honor_lab.Fs.Cache.{Cache, find}
use fdu2024_os_honor_lab.Fs.Cache.Access.{view, IsValid}
use fdu2024_os_honor_lab.Fs.Cache.Batch.{nobody}
use fdu2024_os_honor_lab.Fs.Cache.Use.{Same-refl}
use fdu2024_os_honor_lab.Fs.Inode.{to_block_no, load_entry, u32, addrs_at, byte}
use fdu2024_os_honor_lab.Fs.Inode.Map.{inode_at, IsMapped}
use fdu2024_os_honor_lab.Fs.Dir.{entry_no, is_match}
use fdu2024_os_honor_lab.Fs.Dir.Find.{IsDirectory, entry_at}
use fdu2024_os_honor_lab.Fs.Path.Walk.{Inodes, namex}
use fdu2024_os_honor_lab.Fs.Path.Walk.Child.{first_no}
use fdu2024_os_honor_lab.Fs.Path.Walk.Steps.{loaded, is_folder, IsTree, Agrees, Ended, reach}
use fdu2024_os_honor_lab.Fs.Path.Walk.Reach.{namex_lem}
use fdu2024_os_honor_lab.Fs.Path.{skip_slashes, pass_name, stored_name, skipelem}
use fdu2024_os_honor_lab.Fs.Path.Split.{split, drop_empty, elements}

-- "///a//bb"
abbrev path : List ℕ
path = 47 ∷ 47 ∷ 47 ∷ 97 ∷ 47 ∷ 47 ∷ 98 ∷ 98 ∷ []

skips : skipelem path ≡ some (97 ∷ 0 ∷ [], 98 ∷ 98 ∷ [])
unfolding skipelem skip_slashes pass_name stored_name
skips = refl

-- Inode 1 is a directory with the entry `a` of inode 2.
abbrev inodes : Words
inodes =
    replicate 8 0
    ++ ((1 + 2 ^ 48) ∷ (16 + 100 * 2 ^ 32) ∷ replicate 6 0)
    ++ ((2 + 2 ^ 48) ∷ replicate 47 0)

abbrev small : Cache
small = record {
  sblock = record {
    num_blocks = 1000;
    num_data_blocks = 900;
    num_inodes = 200;
    num_log_blocks = 63;
    log_start = 2;
    inode_start = 66;
    bitmap_start = 95;
  };
  blocks = [];
  block_num = 0;
  header = record { num_blocks = 0; block_no = replicate 63 0 };
  outstanding = 1;
  disk = record {
    content = λ b.
        if b == 66
        then inodes
        else if b == 100
        then (2 + 97 * 65536) ∷ replicate 63 0
        else replicate 64 0;
    trace = [];
  };
}

data Linked : ℕ → Type 0 where
  root : Linked 1
  leaf : Linked 2

abbrev size : ℕ → ℕ
size n = if n == 1 then 1 else 0

small-IsValid : IsValid nobody small
unfolding find
small-IsValid = record { distinct = tt; fine = λ c k e. absurd cc; no_header = refl }

place : (n : ℕ) → Linked n → to_block_no n small ≢ 2
unfolding to_block_no
place n root p = omega (arith, p)
place n leaf p = omega (arith, p)

number : (n : ℕ) → Linked n → (n ≢ 0) × (n < 200)
number n root = omega arith
number n leaf = omega arith

links : (n : ℕ) → Linked n → (inode_at small n).num_links ≢ 0
unfolding to_block_no view find load_entry u32
links n root p = omega (arith, p)
links n leaf p = omega (arith, p)

mapped : (i : ℕ) → i * 512 < 16 → IsMapped (loaded small 1) small i
unfolding to_block_no view find load_entry u32 addrs_at
mapped zero l = record {
  present = λ p. absurd (omega (arith, p));
  outside = λ p. absurd (omega (arith, p));
  indirect = λ h. absurd (omega (arith, h));
}
mapped (suc i) l = absurd (omega (arith, l))

folder : (n : ℕ) → Linked n → is_folder small n ≡ true → IsDirectory (loaded small n) (size n) small
unfolding to_block_no view find load_entry u32 addrs_at
folder n root f = record {
  valid = small-IsValid;
  type = refl;
  size = refl;
  small = omega arith;
  mapped = mapped;
}
folder n leaf f = absurd cc

entries :
    (n : ℕ)
    → Linked n
    → is_folder small n ≡ true
    → (i : ℕ) → i < size n
    → entry_no (entry_at (inode_at small n) small i) ≢ 0
    → Linked (entry_no (entry_at (inode_at small n) small i))
unfolding to_block_no view find load_entry u32 addrs_at byte
entries n root f zero l ne = leaf
entries n root f (suc i) l ne = absurd (omega (arith, l))
entries n leaf f i l ne = absurd (omega (arith, l))

small-IsTree : IsTree Linked size small
small-IsTree = record {
  valid = small-IsValid;
  place = place;
  number = number;
  links = links;
  folder = folder;
  entries = entries;
}

-- The root is in memory, as the directory of the process.
abbrev idle : Inodes
idle = record {
  refs = λ n. if n == 1 then 1 else 0;
  held = λ n. 0;
  table = λ n. if n == 1 then some (loaded small 1) else none;
  ctx = none;
  cache = small;
}

idle-Agrees : Agrees Linked small idle
idle-Agrees = record { same = Same-refl small small-IsValid; table = table }
  where
    table :
        (n : ℕ)
        → Linked n
        → ((idle.table n ≡ none) × (idle.refs n ≡ 0)) ⊎ (idle.table n ≡ some (loaded small n))
    table n root = inr refl
    table n leaf = inl (refl, refl)

namex_lem_example :
    let found = reach small size false 1 [] (elements (47 ∷ 97 ∷ [])) in
    (t : Inodes) × (namex (λ n s. panic) (replicate 16 5) 1 (47 ∷ 97 ∷ []) false [] idle
      ≡ done (found, t))
    × Ended Linked small (λ n. 0) found.0 idle t
namex_lem_example =
    namex_lem Linked size small small-IsTree (λ n s. panic) (replicate 16 5) refl 1 (47 ∷ 97 ∷ [])
      [] false idle idle-Agrees root root (λ n. refl) (λ p. omega (arith, p))

reached : reach small size false 1 [] (elements (47 ∷ 97 ∷ [])) ≡ (some 2, 97 ∷ 0 ∷ [])
unfolding to_block_no view find load_entry u32 addrs_at byte first_no is_match split drop_empty
    stored_name strncmp
reached = refl
