-- ===== src/Fs/File/Tests.antt =====
-- A file that is opened and closed.
use fdu2024_os_honor_lab.Prelude.{◌≡◌, ◌≢◌, refl, true, false, none, some, [], ◌∷◌, replicate}
use fdu2024_os_honor_lab.Prelude.Exec.{done}
use fdu2024_os_honor_lab.Prelude.Int.{pos}
use fdu2024_os_honor_lab.Fs.File.{
  File, fd_none, Oftable, puts_inode, keeps, find_free, file_alloc, fdalloc, open_inode, sys_close,
  file_close, init_oftable,
}
use fdu2024_os_honor_lab.Fs.File.Run.{
  Files, Reach, here, next, starts, opens, count_all, close_releases_unused,
}

abbrev unused_file : File
unused_file = record {
  type = fd_none;
  ref = 0;
  readable = false;
  writable = false;
  object = 0;
  off = 0;
}

abbrev nothing : Files
nothing = record { table = λ i. unused_file; oftables = [] }

abbrev one_open : Files
one_open = record {
  table = (open_inode 7 true false init_oftable nothing.table).2;
  oftables = (open_inode 7 true false init_oftable nothing.table).1 ∷ [];
}

abbrev descriptors : Oftable
descriptors = some 0 ∷ replicate 127 none

opened : Reach nothing one_open
opened = next (next here (starts refl)) (opens [] [] init_oftable 7 true false refl refl)

one_descriptor : one_open.oftables ≡ descriptors ∷ []
unfolding open_inode file_alloc find_free fdalloc init_oftable
one_descriptor = refl

closed :
    sys_close (pos 0) descriptors one_open.table
    ≡ done (some (puts_inode 7), none ∷ replicate 127 none, (file_close 0 one_open.table).1)
unfolding open_inode file_alloc find_free fdalloc init_oftable sys_close file_close
closed = refl

released : puts_inode 7 ≢ keeps
released e = cc

close_releases_unused_example : count_all 0 ((none ∷ replicate 127 none) ∷ []) ≡ 0
close_releases_unused_example =
    close_releases_unused [] [] descriptors (none ∷ replicate 127 none) 0 0 (puts_inode 7)
      (file_close 0 one_open.table).1 refl opened one_descriptor refl closed released
