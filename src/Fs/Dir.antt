-- ===== src/Fs/Dir.antt =====
-- Directories (inode_lookup, inode_insert and inode_remove of src/fs/inode.c): files that hold entries of 16
-- bytes, a number of 2 bytes and a name of 14. A loop has fuel for as many rounds as the directory has
-- bytes; a round goes 16 bytes on.
pub mod Find
pub mod Entry
pub mod Slot
pub mod Insert
mod Tests
use fdu2024_os_honor_lab.Prelude.{
  ℕ, zero, suc, ◌+◌, ◌-◌, ◌*◌, ◌/◌, ◌%◌, ◌^◌, Option, none, some, Bool, true, false, not, ◌&&◌,
  List, [], ◌∷◌, ◌++◌, ◌==◌, ltb, leb, if◌then◌else◌, get_or, length, drop,
}
use fdu2024_os_honor_lab.Prelude.Int.{ℤ, pos, negsuc}
use fdu2024_os_honor_lab.Prelude.Exec.{done, panic, M, pure, ◌>>=◌}
use fdu2024_os_honor_lab.Common.Memory.{Memory, strncmp, strncpy}
use fdu2024_os_honor_lab.Fs.Cache.{Cache}
use fdu2024_os_honor_lab.Fs.Path.{file_name_max_length}
use fdu2024_os_honor_lab.Fs.Inode.{Inode, InodeEntry, inode_read, inode_directory, usize_mod}
use fdu2024_os_honor_lab.Fs.Inode.Write.{inode_write, set_size}

-- sizeof(DirEntry)
abbrev pub entry_size : ℕ
entry_size = 16

-- The fields of a DirEntry
abbrev pub entry_no : List ℕ → ℕ
entry_no bs = get_or bs 0 0 + get_or bs 1 0 * 256

abbrev pub entry_name : List ℕ → List ℕ
entry_name bs = drop 2 bs

-- Memory with one name behind the other
abbrev pub side_by_side : List ℕ → List ℕ → Memory
side_by_side a b i =
    if ltb i file_name_max_length then get_or a i 0 else get_or b (i - file_name_max_length) 0

abbrev pub is_zero : ℤ → Bool
is_zero (pos n) = n == 0
is_zero (negsuc n) = false

-- The test of inode_lookup
unfoldable pub is_match : List ℕ → List ℕ → Bool
is_match name bs =
    is_zero
      (strncmp (side_by_side (entry_name bs) name) 0 file_name_max_length file_name_max_length)
    && not (entry_no bs == 0)

-- What a read of `new` leaves of a variable that held `old`
abbrev pub over : List ℕ → List ℕ → List ℕ
over new old = new ++ drop (length new) old

-- Reading of one entry
abbrev pub read_entry : (ℕ → M Cache (List ℕ)) → Inode → ℕ → List ℕ → M Cache (List ℕ)
read_entry console_read inode i old = do
  new ← inode_read console_read inode i entry_size
  pure (over new old)

-- The loop of inode_lookup: the number, and `*index` where it is stored
unfoldable pub lookup_loop :
    (ℕ → M Cache (List ℕ)) → ℕ → Inode → List ℕ → ℕ → List ℕ → M Cache (ℕ × Option ℕ)
lookup_loop console_read zero inode name i dir_entry = pure (0, none)
lookup_loop console_read (suc f) inode name i dir_entry =
    if ltb i inode.entry.num_bytes
    then (do
      bs ← read_entry console_read inode i dir_entry
      (let more = lookup_loop console_read f inode name (i + entry_size) bs in
          if is_match name bs then pure (entry_no bs, some i) else more))
    else pure (0, none)

-- inode_lookup; `dir_entry` is what its variable holds at first.
unfoldable pub inode_lookup :
    (ℕ → M Cache (List ℕ)) → Inode → List ℕ → List ℕ → M Cache (ℕ × Option ℕ)
inode_lookup console_read inode name dir_entry =
    if inode.entry.type == inode_directory
    then lookup_loop console_read inode.entry.num_bytes inode name 0 dir_entry
    else (λ s. panic)

-- The loop of inode_insert: where it stops, and its variable
unfoldable pub free_loop : (ℕ → M Cache (List ℕ)) → ℕ → Inode → ℕ → List ℕ → M Cache (ℕ × List ℕ)
free_loop console_read zero inode i dir_entry = pure (i, dir_entry)
free_loop console_read (suc f) inode i dir_entry =
    if ltb i inode.entry.num_bytes
    then (do
      bs ← read_entry console_read inode i dir_entry
      (let more = free_loop console_read f inode ((i + entry_size) % 2 ^ 32) bs in
          if entry_no bs == 0 then pure (i, bs) else more))
    else pure (i, dir_entry)

-- `n` bytes of memory from `a` on
abbrev pub bytes_of : ℕ → Memory → ℕ → List ℕ
bytes_of zero m a = []
bytes_of (suc n) m a = m a ∷ bytes_of n m (a + 1)

-- The entry that inode_insert writes
unfoldable pub new_entry : ℕ → List ℕ → List ℕ → List ℕ
new_entry inode_no name bs =
    let m =
      strncpy (side_by_side (entry_name bs) name) 0 file_name_max_length file_name_max_length in
    inode_no % 256 ∷ inode_no / 256 % 256 ∷ bytes_of file_name_max_length m 0

-- inode_insert; -1 is the last `usize`. `entry_there` and `dir_entry` are what the variables of inode_lookup
-- and of inode_insert hold at first.
unfoldable pub inode_insert :
    (ℕ → M Cache (List ℕ))
    → (List ℕ → M Cache ℕ)
    → Option ℕ
    → Inode
    → List ℕ
    → ℕ
    → List ℕ
    → List ℕ
    → M Cache (ℕ × Option ℕ × Inode)
inode_insert console_read console_write ctx inode name inode_no entry_there dir_entry =
    if inode.entry.type == inode_directory
    then (do
      (found, index) ← inode_lookup console_read inode name entry_there
      if not (found == 0) then pure (usize_mod - 1, ctx, inode) else (do
        (i, bs) ← free_loop console_read inode.entry.num_bytes inode 0 dir_entry
        (n, ctx1, inode1) ← inode_write console_write ctx inode (new_entry inode_no name bs) i
        pure (i, ctx1, inode1)))
    else (λ s. panic)

-- inode_remove
unfoldable pub inode_remove :
    (ℕ → M Cache (List ℕ))
    → (List ℕ → M Cache ℕ)
    → Option ℕ
    → Inode
    → ℕ
    → List ℕ
    → M Cache (Option ℕ × Inode)
inode_remove console_read console_write ctx inode index dir_entry =
    let last = (inode.entry.num_bytes + usize_mod - entry_size) % usize_mod in
    if inode.entry.type == inode_directory && ltb index inode.entry.num_bytes
    then (do
      bs ← read_entry console_read inode index dir_entry
      if entry_no bs == 0 then pure (ctx, inode) else (do
        cs ← read_entry console_read inode last bs
        (n, ctx1, inode1) ← inode_write console_write ctx inode cs index
        pure (ctx1, set_size ((inode1.entry.num_bytes + 2 ^ 32 - entry_size) % 2 ^ 32) inode1)))
    else (λ s. panic)
