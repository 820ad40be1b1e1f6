-- ===== src/Fs/Inode/Grow/Round.antt =====
-- A round of a growing write: the part gets a block if it has none (inode_map with cache_alloc and inode_sync), and
-- its bytes are put there (src/fs/inode.c).
use fdu2024_os_honor_lab.Prelude.{
  ℕ, zero, suc, ◌+◌, ◌-◌, ◌%◌, ◌^◌, ◌≡◌, ◌≢◌, ◌≤◌, ◌<◌, ◌∙◌, refl, sym, ap, inl, inr, Bool, true,
  false, some, List, [], ◌∷◌, ◌==◌, ltb, if◌then◌else◌, arith, Bool-cases, set, length-set,
}
use fdu2024_os_honor_lab.Prelude.Exec.{done, ◌>>=◌}
use fdu2024_os_honor_lab.Fs.Cache.{Cache, log_max_size}
use fdu2024_os_honor_lab.Fs.Cache.Access.{view}
use fdu2024_os_honor_lab.Fs.Cache.Edit.{is_logged, edit_block_lem}
use fdu2024_os_honor_lab.Fs.Cache.Spent.{
  cost, Spent, Spent-add, Spent-nothing, cost-kept, cost-logged, HasRoom-cost, edit-Spent,
  edit-logged,
}
use fdu2024_os_honor_lab.Fs.Cache.Alloc.{in_use}
use fdu2024_os_honor_lab.Fs.Cache.Alloc.Count.{free_blocks, count_free, count_same, alloc_succeeds}
use fdu2024_os_honor_lab.Fs.Inode.{
  Inode, store_entry, inode_per_block, set_addr, map_direct, inode_map, inode_sync,
}
use fdu2024_os_honor_lab.Fs.Inode.Layout.{IsEntry}
use fdu2024_os_honor_lab.Fs.Inode.Packed.{AreSmall}
use fdu2024_os_honor_lab.Fs.Inode.Map.{inode_at, edited_mine}
use fdu2024_os_honor_lab.Fs.Inode.Grow.{IsGrowable, addr, place, same_place, edited-in_use}
use fdu2024_os_honor_lab.Fs.Inode.Grow.Taken.{addr-grown_here, allocated_ne}
use fdu2024_os_honor_lab.Fs.Inode.Grow.Content.{Change, same_bytes, Change-trans, set_size-Change}
use fdu2024_os_honor_lab.Fs.Inode.Grow.Steps.{synced-Change, grown-Change, length-store_entry}

-- The entry on the device is that of the inode.
abbrev pub IsStored : Inode → Cache → Type 0
IsStored inode s = inode_at s inode.inode_no ≡ inode.entry

abbrev pub with_addrs : List ℕ → Inode → Inode
with_addrs xs inode = record inode { entry = record (inode.entry) { addrs = xs } }

-- What the bitmap and the entry of the inode still cost
abbrev pub need : Inode → Cache → ℕ
need inode s = cost s.sblock.bitmap_start s + cost (place inode s) s

-- Room for them and for `n` more blocks
abbrev pub HasShare : ℕ → Inode → ℕ → Cache → Type 0
HasShare n inode rm s =
    (need inode s + n ≤ rm) × (s.header.num_blocks + (need inode s + n) < log_max_size)

-- What a part of a growing write leaves
pub record Grown (f : ℕ → ℕ → ℕ) (n : ℕ) (inode inode2 : Inode) (rm left : ℕ) (s t : Cache)
    : Type 0 where
  pub change : Change f inode inode2 s t
  pub entry : IsEntry inode2.entry
  pub stored : IsStored inode s → IsStored inode2 t
  pub others : inode2 ≡ with_addrs inode2.entry.addrs inode
  pub spent : Spent n rm left s t

AreSmall-set : (xs : List ℕ) (i v : ℕ) → AreSmall xs → v < 2 ^ 32 → AreSmall (set xs i v)
AreSmall-set [] i v h l = tt
AreSmall-set (x ∷ xs) zero v h l = (l, h.1)
AreSmall-set (x ∷ xs) (suc i) v h l = (h.0, AreSmall-set xs i v h.1 l)

set_addr-IsEntry :
    (p b : ℕ) (inode : Inode)
    → IsEntry inode.entry
    → b < 2 ^ 32
    → IsEntry (set_addr p b inode).entry
set_addr-IsEntry p b inode e l = record {
  type = e.type;
  major = e.major;
  minor = e.minor;
  num_links = e.num_links;
  num_bytes = e.num_bytes;
  twelve = length-set inode.entry.addrs p b ∙ e.twelve;
  small = AreSmall-set inode.entry.addrs p b e.small l;
  indirect = e.indirect;
}

-- inode_sync of a growable inode
module _ (inode : Inode) (rm : ℕ) (s : Cache) (g : IsGrowable inode s) (e : IsEntry inode.entry)
    (enough : cost (place inode s) s ≤ rm)
    (room : s.header.num_blocks + cost (place inode s) s < log_max_size) where
  pub record Synced (left : ℕ) (t : Cache) : Type 0 where
    pub runs : inode_sync (some rm) inode true s ≡ done ((some left, inode), t)
    pub change : Change same_bytes inode inode s t
    pub stored : IsStored inode t
    pub spent : Spent (cost (place inode s) s) rm left s t
    pub logged : is_logged (place inode s) t ≡ true
    pub same_use : (c : ℕ) → in_use t c ≡ in_use s c
    pub kept : (c : ℕ) → c ≢ place inode s → view t c ≡ view s c

  pub sync-runs : (left : ℕ) × (t : Cache) × Synced left t
  unfolding inode_sync
  sync-runs =
      let b = place inode s in
      let k = inode.inode_no % inode_per_block in
      let f = store_entry k inode.entry in
      let has = HasRoom-cost b rm s enough room in
      let (t, run, d) = edit_block_lem b s g.bitmap.valid g.place_off_log rm f has in
      let spent = edit-Spent b rm has g.bitmap.table d in
      let table = spent.table ∙ g.bitmap.table in
      (
        (if is_logged b s then rm else rm - 1),
        t,
        record {
          runs = rw g.loaded (rw (run, ◌>>=◌) refl);
          change = synced-Change inode g d table;
          stored = edited_mine inode.inode_no inode.entry e s t g.place_full d;
          spent = spent;
          logged = edit-logged b rm has g.bitmap.table d;
          same_use =
              edited-in_use d g.place_off_bitmap (length-store_entry k inode.entry _ ∙ g.place_full)
                g.bitmap table;
          kept = λ c ne. let n : (b == c) ≡ false = ground (arith, ne) in d.views c ∙ rw n refl;
        },
      )

pub free_kept :
    (s t : Cache)
    → t.sblock ≡ s.sblock
    → ((c : ℕ) → in_use t c ≡ in_use s c)
    → free_blocks t ≡ free_blocks s
free_kept s t same used =
    ap (λ k. count_free (in_use t) k.num_blocks) same
    ∙ count_same (in_use s) (in_use t) s.sblock.num_blocks (λ m lt. used m)

-- inode_map of part `p`
pub record Mapped (p : ℕ) (inode : Inode) (rm : ℕ) (s : Cache) : Type 0 where
  pub left : ℕ
  pub inode2 : Inode
  pub mid : Cache
  pub modified : Bool
  pub cost_is : ℕ
  pub runs :
      inode_map (some rm) inode p s ≡ done ((addr inode2 p, modified, some left, inode2), mid)
  pub present : addr inode2 p ≢ 0
  pub grown : Grown same_bytes cost_is inode inode2 rm left s mid
  pub bound : cost_is + cost (addr inode2 p) mid + need inode2 mid ≤ need inode s + 1
  pub free : free_blocks s ≤ free_blocks mid + 1

cost_small : (b : ℕ) (s : Cache) → cost b s ≤ 1
cost_small b s = elim (Bool-cases (is_logged b s)) [
  | inl e ↦ rw e (omega arith)
  | inr e ↦ rw e (omega arith)
]

module _ (p : ℕ) (inode : Inode) (rm : ℕ) (s : Cache) (g : IsGrowable inode s)
    (e : IsEntry inode.entry) (l : p < 12) where
  map-present : addr inode p ≢ 0 → Mapped p inode rm s
  unfolding inode_map map_direct
  map-present has =
      let direct : ltb p 12 ≡ true = ground (arith, l) in
      let n : (addr inode p == 0) ≡ false = ground (arith, has) in
      record {
        left = rm;
        inode2 = inode;
        mid = s;
        modified = false;
        cost_is = 0;
        runs = rw (direct, n) refl;
        present = has;
        grown = record {
          change = set_size-Change inode.entry.num_bytes inode s g;
          entry = e;
          stored = λ h. h;
          others = refl;
          spent = Spent-nothing rm s;
        };
        bound = omega (arith, cost_small (addr inode p) s);
        free = omega arith;
      }

  map-new : addr inode p ≡ 0 → HasShare 1 inode rm s → 0 < free_blocks s → Mapped p inode rm s
  unfolding inode_map map_direct
  map-new empty share free =
      let direct : ltb p 12 ≡ true = ground (arith, l) in
      let n : (addr inode p == 0) ≡ true = ground (arith, empty) in
      let (b, left1, w, lt, run, a, spent, less) =
        alloc_succeeds rm s g.bitmap (omega (arith, share), omega (arith, share)) free in
      let table = spent.table ∙ g.bitmap.table in
      let inode2 = set_addr p b inode in
      let change = grown-Change inode p b s w g a table l empty in
      let at : place inode2 w ≡ place inode s = same_place inode.inode_no s w a.sblock in
      let cheap : cost (place inode2 w) w ≤ cost (place inode s) s =
        omega (arith, ap (λ c. cost c w) at, cost-kept (place inode s) spent) in
      let e2 = set_addr-IsEntry p b inode e (omega (arith, lt, g.bitmap.fits)) in
      let (left, t, y) =
        sync-runs inode2 left1 w change.growable e2 (omega (arith, cheap, spent.share, share))
          (omega (arith, cheap, spent.logged, share)) in
      let self : (p == p) ≡ true = ground arith in
      let now : addr inode2 p ≡ b = addr-grown_here inode p b s w g a table l p self in
      let new_in : cost (addr inode2 p) t ≡ 0 =
        ap (λ c. cost c t) now ∙ cost-logged b t (y.spent.kept b a.logs_new) in
      let bitmap_in : cost t.sblock.bitmap_start t ≡ 0 =
        ap (λ k. cost k.bitmap_start t) (y.change.sblock ∙ a.sblock)
        ∙ cost-logged s.sblock.bitmap_start t (y.spent.kept s.sblock.bitmap_start a.logs_bitmap) in
      let place_in : cost (place inode2 t) t ≡ 0 =
        ap (λ c. cost c t) (same_place inode.inode_no w t y.change.sblock)
        ∙ cost-logged (place inode2 w) t y.logged in
      record {
        left = left;
        inode2 = inode2;
        mid = t;
        modified = true;
        cost_is = cost s.sblock.bitmap_start s + 1 + cost (place inode2 w) w;
        runs =
            rw (direct, n)
              (rw (run, ◌>>=◌)
                (rw (y.runs, ◌>>=◌) (ap (λ c. done ((c, true, some left, inode2), t)) (sym now))));
        present = λ z. allocated_ne a g.bitmap table 0 g.zero_used (sym z ∙ now);
        grown = record {
          change = Change-trans change y.change;
          entry = e2;
          stored = λ h. y.stored;
          others = refl;
          spent = Spent-add spent y.spent;
        };
        bound = omega (arith, new_in, bitmap_in, place_in, cheap);
        free = omega (arith, less, free_kept w t y.change.sblock y.same_use);
      }

  -- With room for its block and a free one, inode_map of a direct part comes back with a block for it.
  pub map-runs : HasShare 1 inode rm s → 0 < free_blocks s → Mapped p inode rm s
  map-runs share free = elim (Bool-cases (addr inode p == 0)) [
    | inl y ↦ map-new (ground (arith, y)) share free
    | inr y ↦ map-present (ground (arith, y))
  ]
