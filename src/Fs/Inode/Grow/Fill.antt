-- ===== src/Fs/Inode/Grow/Fill.antt =====
-- The bytes of a round of a growing write go to the block of their part (src/fs/inode.c).
use fdu2024_os_honor_lab.Prelude.{
  ℕ, ◌+◌, ◌-◌, ◌*◌, ◌%◌, ◌≡◌, ◌≢◌, ◌≤◌, ◌∙◌, refl, ap, Bool, false, some, List, [], ◌++◌, ◌==◌,
  if◌then◌else◌, arith, length, length-append,
}
use fdu2024_os_honor_lab.Prelude.Exec.{done}
use fdu2024_os_honor_lab.Fs.Cache.{Cache}
use fdu2024_os_honor_lab.Fs.Cache.Access.{view}
use fdu2024_os_honor_lab.Fs.Cache.Use.{edit_block}
use fdu2024_os_honor_lab.Fs.Cache.Edit.{is_logged, edit_block_lem}
use fdu2024_os_honor_lab.Fs.Cache.Spent.{
  cost, Spent-add, Spent-more, Spent-nothing, cost-kept, HasRoom-cost, edit-Spent,
}
use fdu2024_os_honor_lab.Fs.Cache.Alloc.Count.{free_blocks}
use fdu2024_os_honor_lab.Fs.Inode.{Inode, inode_map, block_size, load_entry, inode_per_block}
use fdu2024_os_honor_lab.Fs.Inode.Layout.{IsEntry}
use fdu2024_os_honor_lab.Fs.Inode.Write.{put_bytes}
use fdu2024_os_honor_lab.Fs.Inode.Write.Bytes.{AreBytes, length-put_bytes}
use fdu2024_os_honor_lab.Fs.Inode.Write.Wrote.{get_or-append}
use fdu2024_os_honor_lab.Fs.Inode.Grow.{IsGrowable, addr, place, same_place, edited-in_use}
use fdu2024_os_honor_lab.Fs.Inode.Grow.Content.{put_at, Change-trans, Change-map, set_size-Change}
use fdu2024_os_honor_lab.Fs.Inode.Grow.Steps.{put-Change}
use fdu2024_os_honor_lab.Fs.Inode.Grow.Round.{with_addrs, need, HasShare, Grown, Mapped, free_kept}

pub Grown-trans :
    {f g : ℕ → ℕ → ℕ} {a b rm l1 l2 : ℕ} {i1 i2 i3 : Inode} {s t u : Cache}
    → Grown f a i1 i2 rm l1 s t
    → Grown g b i2 i3 l1 l2 t u
    → Grown (λ j x. g j (f j x)) (a + b) i1 i3 rm l2 s u
Grown-trans {i3 = i3} p q = record {
  change = Change-trans p.change q.change;
  entry = q.entry;
  stored = λ h. q.stored (p.stored h);
  others = q.others ∙ ap (with_addrs i3.entry.addrs) p.others;
  spent = Spent-add p.spent q.spent;
}

-- A round with all of its parts
pub record Rounded (p : ℕ) (k : ℕ) (chunk : List ℕ) (inode : Inode) (rm : ℕ) (s : Cache)
    : Type 0 where
  pub inode2 : Inode
  pub mid : Cache
  pub modified : Bool
  pub share : ℕ
  pub left : ℕ
  pub after : Cache
  pub total : ℕ
  pub maps :
      inode_map (some rm) inode p s ≡ done ((addr inode2 p, modified, some share, inode2), mid)
  pub present : addr inode2 p ≢ 0
  pub edits :
      edit_block (some share) (addr inode2 p) (put_bytes k chunk) mid ≡ done (some left, after)
  pub grown : Grown (put_at (p * block_size + k) chunk) total inode inode2 rm left s after
  pub bound : total + need inode2 after ≤ need inode s + 1
  pub free : free_blocks s ≤ free_blocks after + 1

module _ (p k : ℕ) (chunk : List ℕ) (inode : Inode) (rm : ℕ) (s : Cache) (m : Mapped p inode rm s)
    (fits : k + length chunk ≤ block_size) (are : AreBytes chunk)
    (share : HasShare 1 inode rm s) where
  abbrev b : ℕ
  b = addr m.inode2 p

  pub round-edits : Rounded p k chunk inode rm s
  round-edits =
      let g = m.grown.change.growable in
      let f = put_bytes k chunk in
      let data_block = g.owned p m.present in
      let sp = m.grown.spent in
      let has =
        HasRoom-cost b m.left m.mid (omega (arith, m.bound, sp.share, share))
          (omega (arith, m.bound, sp.logged, share)) in
      let (t, run, d) = edit_block_lem b m.mid g.bitmap.valid data_block.off_log m.left f has in
      let spent = edit-Spent b m.left has g.bitmap.table d in
      let table = spent.table ∙ g.bitmap.table in
      let change = put-Change m.inode2 p k chunk m.mid t g m.present fits are d table in
      let at : place m.inode2 t ≡ place m.inode2 m.mid =
        same_place m.inode2.inode_no m.mid t d.sblock in
      let off : (b == place m.inode2 m.mid) ≡ false =
        let ne = data_block.off_place in ground (arith, ne) in
      let same : view t (place m.inode2 t) ≡ view m.mid (place m.inode2 m.mid) =
        ap (view t) at ∙ d.views (place m.inode2 m.mid) ∙ rw off refl in
      let bm_in : cost t.sblock.bitmap_start t ≤ cost m.mid.sblock.bitmap_start m.mid = omega (
        arith,
        ap (λ c. cost c.bitmap_start t) d.sblock,
        cost-kept m.mid.sblock.bitmap_start spent,
      ) in
      let place_in : cost (place m.inode2 t) t ≤ cost (place m.inode2 m.mid) m.mid =
        omega (arith, ap (λ c. cost c t) at, cost-kept (place m.inode2 m.mid) spent) in
      record {
        inode2 = m.inode2;
        mid = m.mid;
        modified = m.modified;
        share = m.left;
        maps = m.runs;
        present = m.present;
        left = if is_logged b m.mid then m.left else m.left - 1;
        after = t;
        total = m.cost_is + cost b m.mid;
        edits = run;
        grown = record {
          change = Change-trans m.grown.change change;
          entry = m.grown.entry;
          stored =
              λ h. ap (load_entry (m.inode2.inode_no % inode_per_block)) same ∙ m.grown.stored h;
          others = m.grown.others;
          spent = Spent-add sp spent;
        };
        bound = omega (arith, m.bound, bm_in, place_in);
        free = omega (
          arith,
          m.free,
          free_kept m.mid t d.sblock (
              edited-in_use d data_block.off_bitmap
                (length-put_bytes k chunk (view m.mid b) ∙ data_block.full) g.bitmap table),
        );
      }

pub Grown-nothing :
    (inode : Inode) (rm n offset : ℕ) (s : Cache)
    → IsGrowable inode s
    → IsEntry inode.entry
    → Grown (put_at offset []) n inode inode rm rm s s
Grown-nothing inode rm n offset s g e = record {
  change = Change-map (λ j x. ground arith) (set_size-Change inode.entry.num_bytes inode s g);
  entry = e;
  stored = λ h. h;
  others = refl;
  spent = Spent-more (omega arith) (Spent-nothing rm s);
}

pub put_at-append :
    (offset : ℕ) (xs ys : List ℕ) (j x : ℕ)
    → put_at (offset + length xs) ys j (put_at offset xs j x) ≡ put_at offset (xs ++ ys) j x
put_at-append offset xs ys j x =
    ground (arith, get_or-append xs ys (j - offset), length-append xs ys)
