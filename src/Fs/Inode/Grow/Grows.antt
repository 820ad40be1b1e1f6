-- ===== src/Fs/Inode/Grow/Grows.antt =====
-- A write on direct blocks, which may extend the file and take new blocks (inode_write of src/fs/inode.c).
use Prim.Native.Nat.{max}
use fdu2024_os_honor_lab.Prelude.{ℕ, ◌+◌, ◌^◌, ◌≡◌, ◌≤◌, ◌<◌, some, List, length}
use fdu2024_os_honor_lab.Prelude.Exec.{done}
use fdu2024_os_honor_lab.Fs.Cache.{Cache}
use fdu2024_os_honor_lab.Fs.Cache.Spent.{Spent}
use fdu2024_os_honor_lab.Fs.Cache.Alloc.Count.{free_blocks}
use fdu2024_os_honor_lab.Fs.Inode.{Inode}
use fdu2024_os_honor_lab.Fs.Inode.Layout.{IsEntry}
use fdu2024_os_honor_lab.Fs.Inode.Write.{grow_to, set_size}
use fdu2024_os_honor_lab.Fs.Inode.Grow.{IsGrowable}
use fdu2024_os_honor_lab.Fs.Inode.Grow.Content.{Change, same_bytes, put_at}
use fdu2024_os_honor_lab.Fs.Inode.Grow.Round.{IsStored, with_addrs, need, HasShare}
use fdu2024_os_honor_lab.Fs.Inode.Grow.Rounds.{touched}

-- grow_to
module _ (inode : Inode) (rm end : ℕ) (s : Cache) (g : IsGrowable inode s) (e : IsEntry inode.entry)
    (before : IsStored inode s) (small : end < 2 ^ 32) (share : HasShare 0 inode rm s) where
  -- The size `n` is up to date, also on the device.
  record Sized (n left : ℕ) (t : Cache) : Type 0 where
    runs : grow_to (some rm) inode end s ≡ done ((some left, set_size n inode), t)
    change : Change same_bytes inode (set_size n inode) s t
    entry : IsEntry (set_size n inode).entry
    stored : IsStored (set_size n inode) t
    paid : ℕ
    spent : Spent paid rm left s t
    bound : paid + need (set_size n inode) t ≤ need inode s
    free : free_blocks t ≡ free_blocks s

-- What a write of `src` at `offset` leaves
pub record Extended (inode inode2 : Inode) (offset : ℕ) (src : List ℕ) (rm left : ℕ) (s t : Cache)
    : Type 0 where
  pub change : Change (put_at offset src) inode inode2 s t
  pub entry :
      inode2
      ≡ with_addrs inode2.entry.addrs
          (set_size (max inode.entry.num_bytes (offset + length src)) inode)
  pub stored : IsStored inode2 t
  pub spent : Spent (need inode s + touched offset (offset + length src)) rm left s t
