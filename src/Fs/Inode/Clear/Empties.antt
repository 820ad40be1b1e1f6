-- ===== src/Fs/Inode/Clear/Empties.antt =====
-- The last reference to an unlinked inode (inode_clear and inode_put of src/fs/inode.c).
use fdu2024_os_honor_lab.Prelude.{
  ℕ, ◌-◌, ◌≡◌, ◌≢◌, refl, false, ◌&&◌, Option, some, ◌==◌, replicate,
}
use fdu2024_os_honor_lab.Prelude.Exec.{done}
use fdu2024_os_honor_lab.Fs.Cache.{Cache}
use fdu2024_os_honor_lab.Fs.Cache.Access.{view}
use fdu2024_os_honor_lab.Fs.Cache.Spent.{Spent}
use fdu2024_os_honor_lab.Fs.Cache.Alloc.{in_use}
use fdu2024_os_honor_lab.Fs.Inode.{Inode}
use fdu2024_os_honor_lab.Fs.Inode.Write.{set_size}
use fdu2024_os_honor_lab.Fs.Inode.Grow.{IsGrowable, addr, place}
use fdu2024_os_honor_lab.Fs.Inode.Grow.Round.{IsStored, with_addrs, need}
use fdu2024_os_honor_lab.Fs.Inode.Clear.{inode_put}

-- The inode without data
abbrev pub emptied : Inode → Inode
emptied inode = with_addrs (replicate 12 0) (set_size 0 inode)

-- What emptying a file leaves
pub record Emptied (inode : Inode) (rm left : ℕ) (s t : Cache) : Type 0 where
  pub stored : IsStored (emptied inode) t
  pub growable : IsGrowable (emptied inode) t
  pub free : (j : ℕ) → addr inode j ≢ 0 → in_use t (addr inode j) ≡ false
  pub used : (c : ℕ) → ((j : ℕ) → addr inode j ≢ 0 → addr inode j ≢ c) → in_use t c ≡ in_use s c
  pub kept : (c : ℕ) → c ≢ s.sblock.bitmap_start → c ≢ place inode s → view t c ≡ view s c
  pub spent : Spent (need inode s) rm left s t

pub inode_put-kept :
    (ctx : Option ℕ) (count : ℕ) (inode : Inode) (s : Cache)
    → (count - 1 == 0 && inode.entry.num_links == 0) ≡ false
    → inode_put ctx count inode s ≡ done ((ctx, count - 1, some inode), s)
unfolding inode_put
inode_put-kept ctx count inode s h = rw h refl
