-- ===== src/Fs/File/Io.antt =====
-- Reading and writing an open file (file_read and file_write of src/fs/file.c) on the calls of the block cache, of
-- inodes and of pipes that they make. A request is the list of bytes, so that its length is not negative.
use Prim.Native.Nat.{min}
use fdu2024_os_honor_lab.Prelude.{
  ℕ, zero, suc, ◌+◌, ◌-◌, ◌*◌, ◌/◌, ◌%◌, List, [], ltb, if◌then◌else◌, length, take, drop,
}
use fdu2024_os_honor_lab.Prelude.Int.{ℤ, pos, negsuc}
use fdu2024_os_honor_lab.Prelude.Exec.{panic, M, pure, ◌>>=◌, ◌>>◌}
use fdu2024_os_honor_lab.Fs.File.{File, fd_none, fd_pipe, fd_inode}
use fdu2024_os_honor_lab.Fs.Inode.{block_size, usize_mod}
use fdu2024_os_honor_lab.Fs.Inode.Write.{inode_max_bytes}
use fdu2024_os_honor_lab.Fs.Cache.{op_max_num_blocks}

-- The calls of `bcache`, `inodes` and pipes; a context is a number, and so is the pointer to an object. What is
-- written to is given as its bytes, and what is read comes back as a list.
pub record FileOps (S : Type 0) : Type 0 where
  pub begin_op : M S ℕ
  pub end_op : ℕ → M S (Unit {0})
  pub lock : ℕ → M S (Unit {0})
  pub unlock : ℕ → M S (Unit {0})
  pub read : ℕ → ℕ → ℕ → M S (List ℕ)
  pub write : ℕ → ℕ → List ℕ → ℕ → M S (ℕ × ℕ)
  pub pipe_read : ℕ → ℕ → M S (ℤ × List ℕ)
  pub pipe_write : ℕ → List ℕ → M S ℤ

-- MAX_OP_WRITE_N
abbrev pub max_op_write_n : ℕ
max_op_write_n = (op_max_num_blocks - 1 - 1 - 2) / 2 * block_size

abbrev pub move_offset : ℕ → File → File
move_offset n f = record f { off = f.off + n }

module _ {S : Type 0} (ops : FileOps S) where
  -- file_read: the result and the bytes
  unfoldable pub file_read : File → ℕ → M S ((ℤ × List ℕ) × File)
  file_read f n =
      if f.readable
      then elim f.type [
        | fd_pipe ↦ do r ← ops.pipe_read f.object n; pure (r, f)
        | fd_inode ↦ do
          ops.lock f.object
          bytes ← ops.read f.object f.off n
          ops.unlock f.object
          pure ((pos (length bytes), bytes), move_offset (length bytes) f)
        | fd_none ↦ (λ s. panic)
      ]
      else pure ((negsuc 0, []), f)

  -- A round of the loop of file_write, with the bytes that are left
  unfoldable pub write_op : File → List ℕ → M S (ℕ × File)
  write_op f src = do
    ctx ← ops.begin_op
    ops.lock f.object
    (w, ctx1) ← ops.write ctx f.object (take max_op_write_n src) f.off
    ops.unlock f.object
    ops.end_op ctx1
    pure (w, move_offset w f)

  -- The loop of file_write, with fuel: `src` holds the bytes that are left, and `nwrite` counts those that were
  -- written.
  unfoldable pub write_ops : ℕ → File → List ℕ → ℕ → M S (ℕ × File)
  write_ops zero f src nwrite = pure (nwrite, f)
  write_ops (suc fuel) f src nwrite =
      if ltb 0 (length src)
      then (do (w, f1) ← write_op f src; write_ops fuel f1 (drop w src) (nwrite + w))
      else pure (nwrite, f)

  -- file_write; a round writes at least one byte, so as many rounds as bytes are enough.
  unfoldable pub file_write : File → List ℕ → M S (ℤ × File)
  file_write f src =
      if f.writable
      then elim f.type [
        | fd_pipe ↦ do r ← ops.pipe_write f.object src; pure (r, f)
        | fd_inode ↦
            let max_valid_write_n = (inode_max_bytes + usize_mod - f.off) % usize_mod in
            let n = min (length src) max_valid_write_n in
            (do (nwrite, f1) ← write_ops n f (take n src) 0; pure (pos nwrite, f1))
        | fd_none ↦ (λ s. panic)
      ]
      else pure (negsuc 0, f)
