-- ===== src/Fs/Inode/Grow/Rounds.antt =====
-- The loop of a growing write (inode_write of src/fs/inode.c).
use fdu2024_os_honor_lab.Prelude.{
  ℕ, zero, suc, ◌+◌, ◌-◌, ◌*◌, ◌/◌, ◌%◌, ◌≡◌, ◌≢◌, ◌≤◌, ◌<◌, ◌∙◌, refl, sym, ap, Bool, true, false,
  Option, some, List, [], ◌∷◌, ◌==◌, ltb, if◌then◌else◌, arith, length, take, drop, length-take,
  length-drop, take-append-drop,
}
use fdu2024_os_honor_lab.Prelude.Exec.{done, ◌>>=◌}
use fdu2024_os_honor_lab.Fs.Cache.{Cache}
use fdu2024_os_honor_lab.Fs.Cache.Use.{edit_block}
use fdu2024_os_honor_lab.Fs.Cache.Spent.{Spent-more}
use fdu2024_os_honor_lab.Fs.Cache.Alloc.Count.{free_blocks}
use fdu2024_os_honor_lab.Fs.Inode.{Inode, inode_map, block_size}
use fdu2024_os_honor_lab.Fs.Inode.Layout.{IsEntry}
use fdu2024_os_honor_lab.Fs.Inode.Write.{put_bytes, write_size, write_loop}
use fdu2024_os_honor_lab.Fs.Inode.Write.Bytes.{AreBytes}
use fdu2024_os_honor_lab.Fs.Inode.Write.Loop.{parts, AreBytes-take, AreBytes-drop}
use fdu2024_os_honor_lab.Fs.Inode.Grow.{IsGrowable, addr}
use fdu2024_os_honor_lab.Fs.Inode.Grow.Content.{put_at, Change-map}
use fdu2024_os_honor_lab.Fs.Inode.Grow.Fill.{round-edits, Grown-trans, Grown-nothing, put_at-append}
use fdu2024_os_honor_lab.Fs.Inode.Grow.Round.{need, HasShare, Grown, map-runs}

-- How many blocks the bytes from `offset` to `end` touch
abbrev pub touched : ℕ → ℕ → ℕ
touched offset end = if ltb offset end then parts offset end else 0

touched_next :
    (offset end : ℕ)
    → offset < end
    → touched offset end ≡ touched (offset + write_size offset end) end + 1
touched_next offset end lt = ground (arith, lt)

write_loop-round :
    (f : ℕ) (ctx ctx1 ctx2 : Option ℕ) (modified : Bool) (inode inode2 : Inode) (src : List ℕ)
    (offset end b : ℕ) (s t u : Cache) (y : (Option ℕ × Inode) × Cache)
    → offset < end
    → inode_map ctx inode (offset / block_size) s ≡ done ((b, modified, ctx1, inode2), t)
    → b ≢ 0
    → edit_block ctx1 b (put_bytes (offset % block_size) (take (write_size offset end) src)) t
      ≡ done (ctx2, u)
    → write_loop f ctx2 inode2
        (drop (write_size offset end) src)
        (offset + write_size offset end)
        end
        u
      ≡ done y
    → write_loop (suc f) ctx inode src offset end s ≡ done y
unfolding write_loop
write_loop-round f ctx ctx1 ctx2 modified inode inode2 src offset end b s t u y lt maps present
      edits rest =
    let go : ltb offset end ≡ true = ground (arith, lt) in
    let some_block : (b == 0) ≡ false = ground (arith, present) in
    rw go (rw (maps, ◌>>=◌) (rw some_block (rw (edits, ◌>>=◌) rest)))

-- The bytes of a round and of the rounds behind it
both_rounds :
    {a b m rm l1 l2 : ℕ} (offset n : ℕ) (src : List ℕ) {i1 i2 i3 : Inode} {s t u : Cache}
    → Grown
        (put_at (offset / block_size * block_size + offset % block_size) (take n src))
        a
        i1
        i2
        rm
        l1
        s
        t
    → Grown (put_at (offset + n) (drop n src)) b i2 i3 l1 l2 t u
    → length (take n src) ≡ n
    → a + b ≤ m
    → Grown (put_at offset src) m i1 i3 rm l2 s u
both_rounds offset n src p q len le =
    let c = take n src in
    let d = drop n src in
    let w = Grown-trans p q in
    let start : offset / block_size * block_size + offset % block_size ≡ offset = omega arith in
    let same : (j x : ℕ)
        → put_at (offset + n) d j
            (put_at (offset / block_size * block_size + offset % block_size) c j x)
          ≡ put_at offset src j x =
      λ j x.
        ap (λ o. put_at (offset + n) d j (put_at o c j x)) start
        ∙ ap (λ k. put_at (offset + k) d j (put_at offset c j x)) (sym len)
        ∙ put_at-append offset c d j x
        ∙ ap (λ l. put_at offset l j x) (take-append-drop n src) in
    record {
      change = Change-map same w.change;
      entry = w.entry;
      stored = w.stored;
      others = w.others;
      spent = Spent-more le w.spent;
    }

pub write_loop_grows :
    (f : ℕ) (inode : Inode) (rm : ℕ) (src : List ℕ) (offset end : ℕ) (s : Cache)
    → IsGrowable inode s
    → IsEntry inode.entry
    → length src ≤ f
    → offset + length src ≡ end
    → end ≤ 12 * block_size
    → AreBytes src
    → HasShare (touched offset end) inode rm s
    → touched offset end ≤ free_blocks s
    → (left : ℕ) × (inode2 : Inode) × (t : Cache) × (write_loop f (some rm) inode src offset end s
        ≡ done ((some left, inode2), t))
      × Grown (put_at offset src) (need inode s + touched offset end) inode inode2 rm left s t
unfolding write_loop
write_loop_grows zero inode rm [] offset end s g e enough ends top are share free =
    (rm, inode, s, refl, Grown-nothing inode rm (need inode s + touched offset end) offset s g e)
write_loop_grows zero inode rm (x ∷ xs) offset end s g e enough ends top are share free =
    ground (arith, enough)
write_loop_grows (suc f) inode rm [] offset end s g e enough ends top are share free =
    let stop : ltb offset end ≡ false = ground (arith, ends) in
    (
      rm,
      inode,
      s,
      rw stop refl,
      Grown-nothing inode rm (need inode s + touched offset end) offset s g e,
    )
write_loop_grows (suc f) inode rm (x ∷ xs) offset end s g e enough ends top are share free =
    let src = x ∷ xs in
    let n = write_size offset end in
    let p = offset / block_size in
    let k = offset % block_size in
    let lt : offset < end = omega (arith, ends) in
    let len : length (take n src) ≡ n = length-take n src ∙ ground (arith, ends) in
    let rest_len : length (drop n src) ≡ length src - n = length-drop n src in
    let next : touched offset end ≡ touched (offset + n) end + 1 = touched_next offset end lt in
    let share1 : HasShare 1 inode rm s = (omega (arith, share, next), omega (arith, share, next)) in
    let r =
      round-edits p k (take n src) inode rm s
        (map-runs p inode rm s g e (omega (arith, lt, top)) share1 (omega (arith, free, next)))
        (ground (arith, len)) (AreBytes-take n src are) share1 in
    let sp = r.grown.spent in
    let (left, inode2, t, run, rest) =
      write_loop_grows f r.inode2 r.left (drop n src) (offset + n) end r.after
        r.grown.change.growable r.grown.entry (ground (arith, rest_len, enough, lt))
        (ground (arith, rest_len, ends)) top (AreBytes-drop n src are)
        (
          omega (arith, r.bound, sp.share, share, next),
          omega (arith, r.bound, sp.logged, share, next),
        )
        (omega (arith, r.free, free, next)) in
    (
      left,
      inode2,
      t,
      write_loop-round f (some rm) (some (r.share)) (some (r.left)) r.modified inode r.inode2 src
          offset end (addr r.inode2 p) s r.mid r.after ((some left, inode2), t) lt r.maps r.present
          r.edits run,
      both_rounds offset n src r.grown rest len (omega (arith, r.bound, next)),
    )
