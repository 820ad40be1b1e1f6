-- ===== src/Fs/File.antt =====
-- Open files (src/fs/file.h, src/fs/file.c) and file descriptors (fd2file, fdalloc, dup, close and the
-- end of openat in src/kernel/sysfile.c; the loops over them of exit and fork in src/kernel/proc.c).
-- A pointer to a file is its index in the global table; a process has a list of 128 such pointers.
pub mod Count
pub mod Run
pub mod Io
mod Tests
use fdu2024_os_honor_lab.Prelude.{
  ℕ, zero, suc, ◌+◌, ◌-◌, Bool, true, false, Option, none, some, List, [], ◌∷◌, ◌==◌, if◌then◌else◌,
  ltb, replicate, get_or, set, length,
}
use fdu2024_os_honor_lab.Prelude.Int.{ℤ, pos, negsuc}
use fdu2024_os_honor_lab.Prelude.Exec.{Result, done, panic}

-- NFILE and NOPENFILE
abbrev pub nfile : ℕ
nfile = 65536

abbrev pub nopenfile : ℕ
nopenfile = 128

pub data FileType : Type 0 where
  fd_none : FileType
  fd_pipe : FileType
  fd_inode : FileType

-- `struct file`; `object` is the pointer in its union.
pub record File : Type 0 where
  pub type : FileType
  pub ref : ℕ
  pub readable : Bool
  pub writable : Bool
  pub object : ℕ
  pub off : ℕ

-- `ftable.filelist`
abbrev pub Ftable : Type 0
Ftable = ℕ → File

abbrev pub Oftable : Type 0
Oftable = List (Option ℕ)

abbrev pub set_file : ℕ → File → Ftable → Ftable
set_file i f t j = if i == j then f else t j

-- The loop of file_alloc, for `n` more entries from `i` on.
unfoldable pub find_free : ℕ → ℕ → Ftable → Option ℕ
find_free zero i t = none
find_free (suc n) i t = elim ((t i).ref == 0) [ true ↦ some i | false ↦ find_free n (i + 1) t ]

-- file_alloc
unfoldable pub file_alloc : Ftable → Option ℕ × Ftable
file_alloc t = elim (find_free nfile 0 t) [
  | none ↦ (none, t)
  | some i ↦ (some i, set_file i (record (t i) { ref = 1 }) t)
]

-- file_dup
unfoldable pub file_dup : ℕ → Ftable → Ftable
file_dup i t = set_file i (record (t i) { ref = (t i).ref + 1 }) t

-- What file_close does besides the table: nothing, `pipe_close`, or `inodes.put` in an operation.
pub data Closing : Type 0 where
  keeps : Closing
  closes_pipe : ℕ → Bool → Closing
  puts_inode : ℕ → Closing

abbrev pub last_close : File → Closing
last_close f = elim f.type [
  | fd_none ↦ keeps
  | fd_pipe ↦ closes_pipe f.object f.writable
  | fd_inode ↦ puts_inode f.object
]

abbrev pub is_none : FileType → Bool
is_none fd_none = true
is_none _ = false

-- file_close
unfoldable pub file_close : ℕ → Ftable → Closing × Ftable
file_close i t =
    let f = t i in
    if is_none f.type
    then (keeps, t)
    else if ltb 0 (f.ref - 1)
    then (keeps, set_file i (record f { ref = f.ref - 1 }) t)
    else (last_close f, set_file i (record f { ref = 0; type = fd_none }) t)

-- fd2file
unfoldable pub fd2file : Oftable → ℤ → Option ℕ
fd2file os (negsuc n) = none
fd2file os (pos n) = if ltb n nopenfile then get_or os n none else none

-- fdalloc: the descriptor and the table, or -1
unfoldable pub fdalloc : Oftable → ℕ → Option (ℕ × Oftable)
fdalloc [] f = none
fdalloc (some g ∷ os) f = elim (fdalloc os f) [
  | none ↦ none
  | some (n, ps) ↦ some (n + 1, some g ∷ ps)
]
fdalloc (none ∷ os) f = some (0, some f ∷ os)

-- sys_dup; `none` is -1.
unfoldable pub sys_dup : ℤ → Oftable → Ftable → Option ℕ × Oftable × Ftable
sys_dup fd os t = elim (fd2file os fd) [
  | none ↦ (none, os, t)
  | some f ↦ elim (fdalloc os f) [
    | none ↦ (none, os, t)
    | some (n, ps) ↦ (some n, ps, file_dup f t)
  ]
]

-- sys_close; it follows a null pointer if the descriptor is not open.
unfoldable pub sys_close : ℤ → Oftable → Ftable → Result (Option Closing × Oftable × Ftable)
sys_close (negsuc n) os t = done (none, os, t)
sys_close (pos n) os t =
    if ltb n nopenfile
    then elim (get_or os n none) [
      | none ↦ panic
      | some f ↦ (let (c, u) = file_close f t in done (some c, set os n none, u))
    ]
    else done (none, os, t)

-- The end of sys_openat, from file_alloc on: the descriptor, or -1. The file is for inode `ip`.
unfoldable pub open_inode : ℕ → Bool → Bool → Oftable → Ftable → Option ℕ × Oftable × Ftable
open_inode ip readable writable os t =
    let (o, u) = file_alloc t in
    elim o [
      | none ↦ (none, os, u)
      | some f ↦ elim (fdalloc os f) [
        | none ↦ (none, os, (file_close f u).1)
        | some (n, ps) ↦ (
          some n,
          ps,
          set_file f
              (record (u f) {
                type = fd_inode;
                object = ip;
                off = 0;
                readable = readable;
                writable = writable;
              })
              u,
        )
      ]
    ]

-- The loop of exit that closes every file.
unfoldable pub close_all : Oftable → Ftable → List Closing × Oftable × Ftable
close_all [] t = ([], [], t)
close_all (none ∷ os) t = let (cs, ps, u) = close_all os t in (cs, none ∷ ps, u)
close_all (some f ∷ os) t =
    let (c, u) = file_close f t in let (cs, ps, v) = close_all os u in (c ∷ cs, none ∷ ps, v)

-- The loop of fork that shares every file with the child, whose table is new.
unfoldable pub share_all : Oftable → Ftable → Oftable × Ftable
share_all [] t = ([], t)
share_all (none ∷ os) t = let (ps, u) = share_all os t in (none ∷ ps, u)
share_all (some f ∷ os) t = let (ps, u) = share_all os (file_dup f t) in (some f ∷ ps, u)

-- init_oftable
pub init_oftable : Oftable
init_oftable = replicate nopenfile none
