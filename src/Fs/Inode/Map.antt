-- ===== src/Fs/Inode/Map.antt =====
-- Which block holds which part of a file (inode_map of src/fs/inode.c), and how an inode gets to its
-- block and back (inode_sync).
use fdu2024_os_honor_lab.Prelude.{
  ℕ, ◌-◌, ◌%◌, ◌≡◌, ◌≢◌, ◌≤◌, ◌⊎◌, ◌∙◌, refl, sym, ap, inl, inr, true, false, Option, none, some,
  ◌==◌, ltb, if◌then◌else◌, get_or, length, arith, Bool-cases,
}
use fdu2024_os_honor_lab.Prelude.Exec.{done, ◌>>=◌}
use fdu2024_os_honor_lab.Fs.Disk.{Words}
use fdu2024_os_honor_lab.Fs.Cache.{Cache}
use fdu2024_os_honor_lab.Fs.Cache.Access.{view, IsValid}
use fdu2024_os_honor_lab.Fs.Cache.Batch.{nobody}
use fdu2024_os_honor_lab.Fs.Cache.Use.{Same, Same-refl, read_block_lem}
use fdu2024_os_honor_lab.Fs.Cache.Edit.{Edited, edit_block_lem, is_logged, HasRoom}
use fdu2024_os_honor_lab.Fs.Inode.{
  Inode, InodeEntry, u32, load_entry, store_entry, to_block_no, inode_sync, map_direct,
  need_indirect, map_indirect, inode_map, inode_num_direct, inode_per_block,
}
use fdu2024_os_honor_lab.Fs.Inode.Layout.{IsEntry, load_entry-store_entry}

-- The block of part `i` of a file, where 0 says that there is none.
abbrev pub block_of : InodeEntry → (ℕ → Words) → ℕ → ℕ
block_of e v i =
    if ltb i inode_num_direct then get_or e.addrs i 0 else u32 (i - inode_num_direct) (v e.indirect)

-- Part `i` of a file has a block, none of its blocks being the header of the log.
pub record IsMapped (inode : Inode) (s : Cache) (i : ℕ) : Type 0 where
  pub present : block_of inode.entry (view s) i ≢ 0
  pub outside : block_of inode.entry (view s) i ≢ s.sblock.log_start
  pub indirect :
      inode_num_direct ≤ i
      → (inode.entry.indirect ≢ 0) × (inode.entry.indirect ≢ s.sblock.log_start)

-- With no block held, and for a part of the file that has a block, where neither it nor an indirect
-- block that leads to it is the header of the log, inode_map with any context returns that block,
-- allocates nothing and leaves every block as it is.
pub inode_map_lem :
    (ctx : Option ℕ) (inode : Inode) (i : ℕ) (s : Cache)
    → IsValid nobody s
    → IsMapped inode s i
    → (t : Cache) × (inode_map ctx inode i s
        ≡ done ((block_of inode.entry (view s) i, false, ctx, inode), t))
      × Same s t
unfolding inode_map map_direct map_indirect need_indirect
inode_map_lem ctx inode i s v m = elim (Bool-cases (ltb i inode_num_direct)) [
  | inl e ↦
      let n : (get_or inode.entry.addrs i 0 == 0) ≡ false =
        let p = rw e at m.present in ground (arith, p) in
      (s, rw (e, n) refl, Same-refl s v)
  | inr e ↦
      let h = m.indirect (ground (arith, e)) in
      let (t, r, same) = read_block_lem inode.entry.indirect s v h.1 in
      let n : (u32 (i - inode_num_direct) (view s inode.entry.indirect) == 0) ≡ false =
        let p = rw e at m.present in ground (arith, p) in
      let z : (inode.entry.indirect == 0) ≡ false = ground (arith, h.0) in
      (t, rw e (rw (z, ◌>>=◌) (rw (r, ◌>>=◌) (rw n refl))), same)
]

-- The inode that stands on the blocks as number `j`.
abbrev pub inode_at : Cache → ℕ → InodeEntry
inode_at s j = load_entry (j % inode_per_block) (view s (to_block_no j s))

-- An entry that was written to its place.
module _ (no : ℕ) (e : InodeEntry) (en : IsEntry e) (s t : Cache)
    (len : length (view s (to_block_no no s)) ≡ 64)
    (d : Edited
      (to_block_no no s)
      (store_entry (no % inode_per_block) e (view s (to_block_no no s)))
      s
      t) where
  same_place : (j : ℕ) → to_block_no j t ≡ to_block_no j s
  unfolding to_block_no
  same_place j = rw d.sblock refl

  pub edited_mine : inode_at t no ≡ e
  edited_mine =
      let b = to_block_no no s in
      let k = no % inode_per_block in
      let self : (b == b) ≡ true = ground arith in
      let same : (k == k) ≡ true = ground arith in
      ap (λ c. load_entry k (view t c)) (same_place no)
      ∙ rw (d.views b) (
          rw self (
            load_entry-store_entry e en k k (view s b) len (omega arith) (omega arith)
            ∙ rw same refl))

  pub edited_others : (j : ℕ) → j ≢ no → inode_at t j ≡ inode_at s j
  unfolding to_block_no
  edited_others j other =
      let b = to_block_no no s in
      let k = no % inode_per_block in
      ap (λ c. load_entry (j % inode_per_block) (view t c)) (same_place j)
      ∙ rw (d.views (to_block_no j s)) (elim (Bool-cases (b == to_block_no j s)) [
        | inl y ↦
            let p : b ≡ to_block_no j s = ground arith in
            let n : (k == (j % inode_per_block)) ≡ false = ground (arith, p, other) in
            rw y (
              load_entry-store_entry e en k (j % inode_per_block) (view s b) len (omega arith)
                (omega arith)
              ∙ rw n (ap (λ c. load_entry (j % inode_per_block) (view s c)) p))
        | inr y ↦ rw y refl
      ])

-- With no block held, an inode that inode_sync writes is the one that a later inode_sync reads, and
-- every other inode stays as it was. The fields of the inode fit its entry, the operation has room
-- for its block, and the block has 64 words and is not the header of the log.
pub inode_sync_round :
    (inode : Inode) (old : InodeEntry) (rm j : ℕ) (s : Cache)
    → IsValid nobody s
    → inode.valid ≡ true
    → IsEntry inode.entry
    → to_block_no inode.inode_no s ≢ s.sblock.log_start
    → length (view s (to_block_no inode.inode_no s)) ≡ 64
    → (is_logged (to_block_no inode.inode_no s) s ≡ true) ⊎ HasRoom rm s
    → j ≢ inode.inode_no
    → (left : ℕ) × (t : Cache) × (u : Cache) × (inode_sync (some rm) inode true s
        ≡ done ((some left, inode), t))
      × (inode_sync none (record { inode_no = inode.inode_no; valid = false; entry = old }) false t
          ≡ done ((none, inode), u))
      × Same t u
      × (inode_at t j ≡ inode_at s j)
unfolding inode_sync to_block_no
inode_sync_round inode old rm j s v valid en ne len room other =
    let b = to_block_no inode.inode_no s in
    let k = inode.inode_no % inode_per_block in
    let f = store_entry k inode.entry in
    let (t, r, d) = edit_block_lem b s v ne rm f room in
    let (u, q, same) = read_block_lem b t d.valid (rw d.sblock ne) in
    let at : to_block_no inode.inode_no t ≡ b = rw d.sblock refl in
    let mine : load_entry k (view t b) ≡ inode.entry = rw (d.views b) (
      rw (refl_eq b) (
        load_entry-store_entry inode.entry en k k (view s b) len (omega arith) (omega arith)
        ∙ rw (refl_eq k) refl)) in
    (
      (if is_logged b s then rm else rm - 1),
      t,
      u,
      rw valid (rw (r, ◌>>=◌) refl),
      rw (at, ◌>>=◌)
          (rw (q, ◌>>=◌)
            (λ i. done (
              (none, record { inode_no = inode.inode_no; valid = sym valid i; entry = mine i }),
              u,
            ))),
      same,
      edited_others inode.inode_no inode.entry en s t len d j other,
    )
  where
    refl_eq : (n : ℕ) → (n == n) ≡ true
    refl_eq n = ground arith
