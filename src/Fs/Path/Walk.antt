-- ===== src/Fs/Path/Walk.antt =====
-- Walking along a path (namex of src/fs/inode.c) on the inodes in memory and the block cache. An inode is its
-- number, which the list of inodes in memory keeps at most one object for.
pub mod Child
pub mod Steps
pub mod Round
pub mod Reach
use fdu2024_os_honor_lab.Prelude.{
  ℕ, zero, suc, ◌+◌, ◌-◌, ◌≡◌, ◌<◌, Option, none, some, Bool, true, false, not, ◌&&◌, ◌||◌, List,
  [], ◌∷◌, ◌==◌, ltb, leb, if◌then◌else◌, length,
}
use fdu2024_os_honor_lab.Prelude.Exec.{done, panic, sleep, M, pure, ◌>>=◌, ◌>>◌}
use fdu2024_os_honor_lab.Fs.Path.{slash, skipelem}
use fdu2024_os_honor_lab.Fs.Cache.{Cache}
use fdu2024_os_honor_lab.Fs.Inode.{Inode, load_entry, inode_sync, inode_directory}
use fdu2024_os_honor_lab.Fs.Inode.Clear
use fdu2024_os_honor_lab.Fs.Dir.{inode_lookup}

-- Per inode, `rc` and how often its lock is held; the objects on the list of inodes in memory; what is left of the
-- operation that the caller is in; and the block cache
pub record Inodes : Type 0 where
  pub refs : ℕ → ℕ
  pub held : ℕ → ℕ
  pub table : ℕ → Option Inode
  pub ctx : Option ℕ
  pub cache : Cache

-- ROOT_INODE_NO
abbrev pub root_inode_no : ℕ
root_inode_no = 1

abbrev pub bump : ℕ → (ℕ → ℕ) → ℕ → ℕ
bump n f x = if x == n then f x + 1 else f x

abbrev pub drop_one : ℕ → (ℕ → ℕ) → ℕ → ℕ
drop_one n f x = if x == n then f x - 1 else f x

abbrev pub put_at : {A : Type 0} → ℕ → A → (ℕ → A) → ℕ → A
put_at n a f x = if x == n then a else f x

-- A call of the block cache
unfoldable pub in_cache : {A : Type 0} → M Cache A → M Inodes A
in_cache run s = elim (run s.cache) [
  | done (a, c) ↦ done (a, record s { cache = c })
  | panic ↦ panic
  | sleep ↦ sleep
]

-- The object of an inode that the caller holds a reference to
unfoldable pub object : ℕ → M Inodes Inode
object n s = elim (s.table n) [ some inode ↦ done (inode, s) | none ↦ panic ]

-- inode_lock; the semaphore of a held lock makes the caller wait.
unfoldable pub inode_lock : ℕ → M Inodes (Unit {0})
inode_lock n s =
    if s.refs n == 0
    then panic
    else if not (s.held n == 0)
    then sleep
    else done (tt, record s { held = bump n s.held })

-- inode_unlock
unfoldable pub inode_unlock : ℕ → M Inodes (Unit {0})
inode_unlock n s = if s.refs n == 0 then panic else done (tt, record s { held = drop_one n s.held })

-- The object that init_inode leaves, with its number; the entry has not been read yet.
abbrev pub unread : ℕ → Inode
unread n = record { inode_no = n; valid = false; entry = load_entry 0 [] }

-- `_insert_into_list(&head, &new_inode->node)`, with the reference
abbrev pub keep : ℕ → Inode → M Inodes ℕ
keep n inode s = done (n, record s { refs = bump n s.refs; table = put_at n (some inode) s.table })

-- The part of inode_get for an inode that is not in memory; its lock is free again behind inode_sync.
unfoldable pub read_new : ℕ → M Inodes ℕ
read_new n = do (ctx, inode) ← in_cache (inode_sync none (unread n) false); keep n inode

-- inode_get; 0 gives no inode.
unfoldable pub inode_get : ℕ → M Inodes ℕ
inode_get n s =
    if n == 0
    then done (0, s)
    else if leb s.cache.sblock.num_inodes n
    then panic
    else elim (s.table n) [
      | some inode ↦ done (n, record s { refs = bump n s.refs })
      | none ↦ read_new n s
    ]

-- inode_share
unfoldable pub inode_share : ℕ → M Inodes ℕ
inode_share n s = done (n, record s { refs = bump n s.refs })

abbrev pub let_go : ℕ → Option ℕ × ℕ × Option Inode → M Inodes (Unit {0})
let_go n (ctx, left, inode) s =
    done (tt, record s { refs = put_at n left s.refs; table = put_at n inode s.table; ctx = ctx })

-- inode_put, of an inode that the caller holds a reference to
unfoldable pub put : ℕ → M Inodes (Unit {0})
put n = do
  inode ← object n
  (ctx, count) ← (λ s. done ((s.ctx, s.refs n), s))
  after ← in_cache (Clear.inode_put ctx count inode)
  let_go n after

-- What namex returns: the inode, if any, and the name
abbrev pub Arrived : Type 0
Arrived = Option ℕ × List ℕ

abbrev pub put_and_fail : ℕ → List ℕ → M Inodes Arrived
put_and_fail ans name = do put ans; pure (none, name)

abbrev pub unlock_and_fail : ℕ → List ℕ → M Inodes Arrived
unlock_and_fail ans name = do inode_unlock ans; put_and_fail ans name

-- `*path == '\0'`
abbrev pub is_end : List ℕ → Bool
is_end [] = true
is_end (c ∷ cs) = false

abbrev pub starts_at_root : List ℕ → Bool
starts_at_root [] = false
starts_at_root (c ∷ cs) = c == slash

-- Reads from the console, and what the variable of inode_lookup holds at first
module _ (console_read : ℕ → M Cache (List ℕ)) (dir_entry : List ℕ) where
  -- A round of the loop of namex, on what skipelem gave, and the end of namex behind the loop; `more` is the
  -- rest of the loop.
  abbrev pub round :
      (ℕ → List ℕ → List ℕ → M Inodes Arrived)
      → Bool
      → ℕ
      → List ℕ
      → Option (List ℕ × List ℕ)
      → M Inodes Arrived
  round more nameiparent ans name none =
      if nameiparent then put_and_fail ans name else pure (some ans, name)
  round more nameiparent ans name (some (element, path)) = do
    inode_lock ans
    inode ← object ans
    (if not (inode.entry.type == inode_directory)
        then unlock_and_fail ans element
        else if nameiparent && is_end path
        then (do inode_unlock ans; pure (some ans, element))
        else (do
          (number, index) ← in_cache (inode_lookup console_read inode element dir_entry)
          next ← inode_get number
          (if next == 0
              then unlock_and_fail ans element
              else (do inode_unlock ans; put ans; more next path element))))

  -- The loop, with fuel
  unfoldable pub walk : ℕ → Bool → ℕ → List ℕ → List ℕ → M Inodes Arrived
  walk zero nameiparent ans path name = λ s. panic
  walk (suc f) nameiparent ans path name =
      round (λ next rest element. walk f nameiparent next rest element) nameiparent ans name
        (skipelem path)

  -- namex, for a process whose directory is `cwd`; a round takes at least one character of the path.
  unfoldable pub namex : ℕ → List ℕ → Bool → List ℕ → M Inodes Arrived
  namex cwd path nameiparent name = do
    ans ← (if starts_at_root path then inode_get root_inode_no else inode_share cwd)
    walk (suc (length path)) nameiparent ans path name

  -- namei and nameiparent
  abbrev pub namei : ℕ → List ℕ → List ℕ → M Inodes Arrived
  namei cwd path name = namex cwd path false name

  abbrev pub nameiparent : ℕ → List ℕ → List ℕ → M Inodes Arrived
  nameiparent cwd path name = namex cwd path true name
