-- ===== src/Fs/Inode/Write/Loop.antt =====
-- Writing over the blocks of a file (the loop of inode_write of src/fs/inode.c).
use fdu2024_os_honor_lab.Prelude.{
  ℕ, zero, suc, ◌+◌, ◌-◌, ◌*◌, ◌/◌, ◌%◌, ◌≡◌, ◌≢◌, ◌≤◌, ◌<◌, ◌∙◌, ◌⊎◌, refl, sym, ap, inl, inr,
  some, true, false, ◌||◌, List, [], ◌∷◌, ◌==◌, ltb, if◌then◌else◌, arith, Bool-cases, length, take,
  drop, take-append-drop, length-take, length-drop,
}
use mathlib.Core.Path.{subst}
use fdu2024_os_honor_lab.Prelude.Exec.{done, M, ◌>>=◌}
use fdu2024_os_honor_lab.Fs.Disk.{Words}
use fdu2024_os_honor_lab.Fs.Cache.{Cache, log_max_size}
use fdu2024_os_honor_lab.Fs.Cache.Log.{log_block}
use fdu2024_os_honor_lab.Fs.Cache.Access.{view, IsValid}
use fdu2024_os_honor_lab.Fs.Cache.Batch.{nobody}
use fdu2024_os_honor_lab.Fs.Cache.Use.{Same, edit_block}
use fdu2024_os_honor_lab.Fs.Cache.Edit.{Edited, edit_block_lem, is_logged, HasRoom}
use fdu2024_os_honor_lab.Fs.Inode.{Inode, block_size, inode_device, usize_mod, inode_map}
use fdu2024_os_honor_lab.Fs.Inode.Map.{block_of, inode_map_lem}
use fdu2024_os_honor_lab.Fs.Inode.Write.{
  put_bytes, write_size, write_loop, inode_write, grow_to, inode_max_bytes,
}
use fdu2024_os_honor_lab.Fs.Inode.Write.Wrote.{
  IsLaidOut, Wrote, Wrote-nothing, Wrote-append, edited-Wrote,
}
use fdu2024_os_honor_lab.Fs.Inode.Write.Bytes.{AreBytes}

-- The blocks of the file from `offset` to `end`
abbrev pub parts : ℕ → ℕ → ℕ
parts offset end = (end + 511) / block_size - offset / block_size

-- An operation and the log have room for these blocks.
abbrev pub Fits : ℕ → ℕ → ℕ → Cache → Type 0
Fits rm offset end s =
    offset < end → (parts offset end ≤ rm) × (s.header.num_blocks + parts offset end < log_max_size)

pub AreBytes-take : (n : ℕ) (xs : List ℕ) → AreBytes xs → AreBytes (take n xs)
AreBytes-take zero xs h = tt
AreBytes-take (suc n) [] h = tt
AreBytes-take (suc n) (x ∷ xs) h = (h.0, AreBytes-take n xs h.1)

pub AreBytes-drop : (n : ℕ) (xs : List ℕ) → AreBytes xs → AreBytes (drop n xs)
AreBytes-drop zero xs h = h
AreBytes-drop (suc n) [] h = tt
AreBytes-drop (suc n) (x ∷ xs) h = AreBytes-drop n xs h.1

-- A round of the loop up to the change of its block
record Round (inode : Inode) (rm offset end : ℕ) (chunk : List ℕ) (s : Cache) : Type 0 where
  left : ℕ
  mid : Cache
  after : Cache
  maps :
      inode_map (some rm) inode (offset / block_size) s
      ≡ done ((block_of inode.entry (view s) (offset / block_size), false, some rm, inode), mid)
  edits :
      edit_block
        (some rm)
        (block_of inode.entry (view s) (offset / block_size))
        (put_bytes (offset % block_size) chunk)
        mid
      ≡ done (some left, after)
  wrote : Wrote inode offset chunk s after
  fits : Fits left (offset + length chunk) end after

Edited-Same : {b : ℕ} {x : Words} {s t u : Cache} → Same s t → Edited b x t u → Edited b x s u
Edited-Same {b} {x} {s} {t} q d = record {
  valid = d.valid;
  views = λ c. d.views c ∙ ap (λ w. if b == c then x else w) (q.views c);
  disk = d.disk ∙ q.disk;
  sblock = d.sblock ∙ q.log.sblock;
  header = d.header ∙ rw q.log.header refl;
  outstanding = d.outstanding ∙ q.log.outstanding;
}

Fits-after :
    (inode : Inode) (rm offset end n b : ℕ) (s t u : Cache)
    → offset < end
    → n ≡ write_size offset end
    → t.header ≡ s.header
    → u.header ≡ (if is_logged b t then t.header else (log_block b t).header)
    → Fits rm offset end s
    → Fits (if is_logged b t then rm else rm - 1) (offset + n) end u
Fits-after inode rm offset end n b s t u lt len same new fits more =
    let old : t.header.num_blocks ≡ s.header.num_blocks = ap (λ h. h.num_blocks) same in
    let f = fits lt in
    let count : parts offset end ≡ parts (offset + n) end + 1 = ground (arith, len, lt, more) in
    elim (Bool-cases (is_logged b t)) [
      | inl y ↦
          let new2 : u.header ≡ t.header = new ∙ rw y refl in
          let new1 : u.header.num_blocks ≡ t.header.num_blocks = ap (λ h. h.num_blocks) new2 in
          rw y (omega (arith, f.0, count), omega (arith, f.1, count, new1, old))
      | inr y ↦
          let new2 : u.header ≡ (log_block b t).header = new ∙ rw y refl in
          let new1 : u.header.num_blocks ≡ t.header.num_blocks + 1 = ap (λ h. h.num_blocks) new2 in
          rw y (omega (arith, f.0, count), omega (arith, f.1, count, new1, old))
    ]

Round-runs :
    (inode : Inode) (rm offset end : ℕ) (chunk : List ℕ) (s : Cache)
    → IsValid nobody s
    → IsLaidOut inode s
    → offset < end
    → end ≤ inode.entry.num_bytes
    → length chunk ≡ write_size offset end
    → AreBytes chunk
    → Fits rm offset end s
    → Round inode rm offset end chunk s
Round-runs inode rm offset end chunk s v l lt le len are fits =
    let p = offset / block_size in
    let k = offset % block_size in
    let in_file : p * block_size < inode.entry.num_bytes = omega (arith, lt, le) in
    let m = l.mapped p in_file in
    let b = block_of inode.entry (view s) p in
    let (t, run_map, same) = inode_map_lem (some rm) inode p s v m in
    let room : (is_logged b t ≡ true) ⊎ HasRoom rm t = inr (
      omega (arith, (fits lt).0, lt),
      (let f = (fits lt).1 in rw same.log.header (omega (arith, f, lt))),
    ) in
    let (u, run_edit, d) =
      edit_block_lem b t same.valid (rw same.log.sblock m.outside) rm (put_bytes k chunk) room in
    let whole : Edited b (put_bytes k chunk (view s b)) s u =
      rw (same.views b) at (Edited-Same same d) in
    let offset_is : p * block_size + k ≡ offset = omega arith in
    record {
      left = if is_logged b t then rm else rm - 1;
      mid = t;
      after = u;
      maps = run_map;
      edits = run_edit;
      wrote =
          rw offset_is at
            (edited-Wrote inode s l p k chunk in_file (ground (arith, len)) are u whole);
      fits =
          Fits-after inode rm offset end (length chunk) b s t u lt len same.log.header d.header
            fits;
    }

write_loop_lem :
    (f : ℕ) (inode : Inode) (rm : ℕ) (src : List ℕ) (offset end : ℕ) (s : Cache)
    → IsValid nobody s
    → IsLaidOut inode s
    → length src ≤ f
    → offset + length src ≡ end
    → end ≤ inode.entry.num_bytes
    → AreBytes src
    → Fits rm offset end s
    → (left : ℕ) × (t : Cache) × (write_loop f (some rm) inode src offset end s
        ≡ done ((some left, inode), t))
      × Wrote inode offset src s t
unfolding write_loop
write_loop_lem zero inode rm [] offset end s v l enough ends le are fits =
    (rm, s, refl, Wrote-nothing inode offset s v l)
write_loop_lem zero inode rm (x ∷ xs) offset end s v l enough ends le are fits =
    ground (arith, enough)
write_loop_lem (suc f) inode rm [] offset end s v l enough ends le are fits =
    let stop : ltb offset end ≡ false = ground (arith, ends) in
    (rm, s, rw stop refl, Wrote-nothing inode offset s v l)
write_loop_lem (suc f) inode rm (x ∷ xs) offset end s v l enough ends le are fits =
    let src = x ∷ xs in
    let n = write_size offset end in
    let lt : offset < end = omega (arith, ends) in
    let go : ltb offset end ≡ true = ground (arith, lt) in
    let len : length (take n src) ≡ n = length-take n src ∙ ground (arith, ends) in
    let rest_len : length (drop n src) ≡ length src - n = length-drop n src in
    let r =
      Round-runs inode rm offset end (take n src) s v l lt le len (AreBytes-take n src are) fits in
    let fits2 : Fits r.left (offset + n) end r.after = rw len at r.fits in
    let (left, t, run, wrote) =
      write_loop_lem f inode r.left (drop n src) (offset + n) end r.after r.wrote.valid
        r.wrote.laid_out (ground (arith, rest_len, enough, lt)) (ground (arith, rest_len, ends)) le
        (AreBytes-drop n src are) fits2 in
    let b = block_of inode.entry (view s) (offset / block_size) in
    let some_block : (b == 0) ≡ false =
      let m = (l.mapped (offset / block_size) (omega (arith, lt, le))).present in
      ground (arith, m) in
    let len2 : offset + length (take n src) ≡ offset + n = ap (λ k. offset + k) len in
    (
      left,
      t,
      rw go (rw (r.maps, ◌>>=◌) (rw some_block (rw (r.edits, ◌>>=◌) run))),
      rw (take-append-drop n src) at (
          Wrote-append r.wrote
            (subst (λ o. Wrote inode o (drop n src) r.after t) (sym len2) wrote)),
    )

inode_write_runs :
    (console_write : List ℕ → M Cache ℕ) (inode : Inode) (rm left : ℕ) (src : List ℕ) (offset : ℕ)
    (s t : Cache)
    → inode.entry.type ≢ inode_device
    → offset + length src ≤ inode.entry.num_bytes
    → offset + length src ≤ inode_max_bytes
    → write_loop (length src) (some rm) inode src offset (offset + length src) s
      ≡ done ((some left, inode), t)
    → inode_write console_write (some rm) inode src offset s
      ≡ done ((length src, some left, inode), t)
unfolding inode_write grow_to
inode_write_runs console_write inode rm left src offset s t ty le max run =
    let no_device : (inode.entry.type == inode_device) ≡ false = ground (arith, ty) in
    let end : (offset + length src) % usize_mod ≡ offset + length src = omega (arith, max) in
    let fine : (ltb inode.entry.num_bytes offset
          || ltb inode_max_bytes (offset + length src)
          || ltb (offset + length src) offset)
        ≡ false =
      ground (arith, le, max) in
    let same : ltb inode.entry.num_bytes (offset + length src) ≡ false = ground (arith, le) in
    rw (no_device, end, fine) (rw (same, ◌>>=◌) (rw (run, ◌>>=◌) refl))

-- With no block held, inode_write of bytes into a file that is not a device, within its size, succeeds: it
-- returns how many it was given, keeps the inode, and the file then reads as before but for the written
-- range, which holds the bytes; the device, every block that is not one of the file's and the place of its
-- parts stay. Every part of the file has a block of its own, and the operation and the log have room for
-- each block of the range.
pub inode_write_lem :
    (console_write : List ℕ → M Cache ℕ) (inode : Inode) (rm : ℕ) (src : List ℕ) (offset : ℕ)
    (s : Cache)
    → IsValid nobody s
    → IsLaidOut inode s
    → inode.entry.type ≢ inode_device
    → offset + length src ≤ inode.entry.num_bytes
    → offset + length src ≤ inode_max_bytes
    → AreBytes src
    → Fits rm offset (offset + length src) s
    → (left : ℕ) × (t : Cache) × (inode_write console_write (some rm) inode src offset s
        ≡ done ((length src, some left, inode), t))
      × Wrote inode offset src s t
inode_write_lem console_write inode rm src offset s v l ty le max are fits =
    let (left, t, run, wrote) =
      write_loop_lem (length src) inode rm src offset (offset + length src) s v l (omega arith) refl
        le are fits in
    (left, t, inode_write_runs console_write inode rm left src offset s t ty le max run, wrote)
