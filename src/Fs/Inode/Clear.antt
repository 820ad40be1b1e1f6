-- ===== src/Fs/Inode/Clear.antt =====
-- Emptying an inode (inode_clear and inode_put of src/fs/inode.c). An inode is one that has been loaded.
pub mod Shrunk
pub mod Direct
pub mod Empties
use fdu2024_os_honor_lab.Prelude.{
  ℕ, zero, suc, ◌+◌, ◌-◌, ◌/◌, Bool, true, false, ◌&&◌, Option, none, some, List, ◌==◌,
  if◌then◌else◌, get_or,
}
use fdu2024_os_honor_lab.Prelude.Exec.{done, panic, M, pure, ◌>>=◌, ◌>>◌}
use fdu2024_os_honor_lab.Fs.Cache.{Cache, acquire, release, load}
use fdu2024_os_honor_lab.Fs.Cache.Log.{free}
use fdu2024_os_honor_lab.Fs.Inode.{Inode, u32, set_addr, set_indirect, inode_sync, inode_num_direct}
use fdu2024_os_honor_lab.Fs.Inode.Write.{set_size}

-- `if (b) cache->free(ctx, b)`
abbrev pub free_if : Option ℕ → ℕ → M Cache (Option ℕ)
free_if ctx b = if b == 0 then pure ctx else free ctx b

-- The loop over the addresses in block `b`, for `n` more from index `i` on. The code reads each of them through a
-- pointer to the block, which it has given up. When cache_free has evicted the block in the meantime, its memory is
-- freed and the read has no defined result; the model stops there.
unfoldable pub free_addrs : ℕ → Option ℕ → ℕ → ℕ → M Cache (Option ℕ)
free_addrs zero ctx b i = pure ctx
free_addrs (suc n) ctx b i = do
  x ← load b
  ctx1 ← free_if ctx (u32 i x)
  free_addrs n ctx1 b (i + 1)

-- The part of inode_clear for the indirect block; INODE_NUM_INDIRECT is 128.
unfoldable pub clear_indirect : Option ℕ → Inode → M Cache (Option ℕ × Inode)
clear_indirect ctx inode = if inode.entry.indirect == 0 then pure (ctx, inode) else (do
  acquire inode.entry.indirect
  release inode.entry.indirect
  ctx1 ← free_addrs (512 / 4) ctx inode.entry.indirect 0
  ctx2 ← free ctx1 inode.entry.indirect
  pure (ctx2, set_indirect 0 inode))

-- The loop of inode_clear over the direct blocks, for `n` more from index `i` on
unfoldable pub clear_direct : ℕ → Option ℕ → Inode → ℕ → M Cache (Option ℕ × Inode)
clear_direct zero ctx inode i = pure (ctx, inode)
clear_direct (suc n) ctx inode i = do
  (ctx1, inode1) ←
      (if get_or inode.entry.addrs i 0 == 0
        then pure (ctx, inode)
        else (do ctx1 ← free ctx (get_or inode.entry.addrs i 0); pure (ctx1, set_addr i 0 inode)))
  clear_direct n ctx1 inode1 (i + 1)

-- inode_clear
unfoldable pub inode_clear : Option ℕ → Inode → M Cache (Option ℕ × Inode)
inode_clear ctx inode = do
  (ctx1, inode1) ← clear_indirect ctx inode
  (ctx2, inode2) ← clear_direct inode_num_direct ctx1 inode1 0
  inode_sync ctx2 (set_size 0 inode2) true

-- `inode->entry.type = INODE_INVALID`
abbrev pub invalidate : Inode → Inode
invalidate inode = record inode { entry = record (inode.entry) { type = 0 } }

-- inode_put of an inode with `count` references. The result is the context, the references left, and the inode,
-- unless it is taken off the list of inodes and freed.
unfoldable pub inode_put : Option ℕ → ℕ → Inode → M Cache (Option ℕ × ℕ × Option Inode)
inode_put ctx count inode =
    let left = count - 1 in
    if left == 0 && inode.entry.num_links == 0
    then (do (ctx1, inode1) ← inode_clear ctx (invalidate inode); pure (ctx1, left, none))
    else pure (ctx, left, some inode)
