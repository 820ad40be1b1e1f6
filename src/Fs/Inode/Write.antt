-- ===== src/Fs/Inode/Write.antt =====
-- Writing a file (inode_write of src/fs/inode.c).
pub mod Bytes
pub mod Wrote
pub mod Loop
use fdu2024_os_honor_lab.Prelude.{
  ℕ, zero, suc, ◌+◌, ◌-◌, ◌*◌, ◌/◌, ◌%◌, ◌^◌, ◌≡◌, ◌≢◌, ◌≤◌, ◌<◌, ◌∙◌, refl, sym, ap, ap₂, inl, inr,
  Option, none, some, Bool, true, false, ◌||◌, List, [], ◌∷◌, ◌++◌, ◌==◌, ltb, if◌then◌else◌, arith,
  Bool-cases, get_or, set, length, take, drop, min,
}
use fdu2024_os_honor_lab.Prelude.Exec.{done, panic, M, pure, ◌>>=◌}
use fdu2024_os_honor_lab.Fs.Disk.{Words}
use fdu2024_os_honor_lab.Fs.Cache.{Cache}
use fdu2024_os_honor_lab.Fs.Cache.Use.{edit_block}
use fdu2024_os_honor_lab.Fs.Inode.{
  Inode, InodeEntry, byte, block_size, inode_device, usize_mod, inode_map, inode_sync,
}

-- Word `w` with its byte `k` replaced by `x`
unfoldable pub put_byte : ℕ → ℕ → ℕ → ℕ
put_byte zero x w = w / 256 * 256 + x
put_byte (suc k) x w = put_byte k x (w / 256) * 256 + w % 256

-- `data[i] = x` of a block
unfoldable pub set_byte : ℕ → ℕ → Words → Words
set_byte i x ws = set ws (i / 8) (put_byte (i % 8) x (get_or ws (i / 8) 0))

-- `memcpy(data + i, src, n)`, where `src` holds the `n` bytes
unfoldable pub put_bytes : ℕ → List ℕ → Words → Words
put_bytes i [] ws = ws
put_bytes i (x ∷ xs) ws = put_bytes (i + 1) xs (set_byte i x ws)

-- INODE_MAX_BYTES
abbrev pub inode_max_bytes : ℕ
inode_max_bytes = (12 + 512 / 4) * 512

-- `bytes_to_write`
abbrev pub write_size : ℕ → ℕ → ℕ
write_size offset end = min (block_size - offset % block_size) (end - offset)

-- The loop of inode_write, with fuel: `src` holds what is left to write.
unfoldable pub write_loop : ℕ → Option ℕ → Inode → List ℕ → ℕ → ℕ → M Cache (Option ℕ × Inode)
write_loop zero ctx inode src offset end = pure (ctx, inode)
write_loop (suc f) ctx inode src offset end =
    if ltb offset end
    then (do
      (b, modified, ctx1, inode1) ← inode_map ctx inode (offset / block_size)
      ctx2 ←
          (if b == 0
            then (λ s. panic)
            else edit_block ctx1 b
                (put_bytes (offset % block_size) (take (write_size offset end) src)))
      write_loop f ctx2 inode1 (drop (write_size offset end) src) (offset + write_size offset end)
          end)
    else pure (ctx, inode)

abbrev pub set_size : ℕ → Inode → Inode
set_size n inode = record inode { entry = record (inode.entry) { num_bytes = n } }

-- The size that inode_write gives the file, which it writes at once.
unfoldable pub grow_to : Option ℕ → Inode → ℕ → M Cache (Option ℕ × Inode)
grow_to ctx inode end =
    if ltb inode.entry.num_bytes end
    then inode_sync ctx (set_size end inode) true
    else pure (ctx, inode)

-- inode_write of the bytes `src`; a round writes at least one byte, so `count` rounds are enough. Writing a
-- device is console_write, which does not touch the cache.
unfoldable pub inode_write :
    (List ℕ → M Cache ℕ) → Option ℕ → Inode → List ℕ → ℕ → M Cache (ℕ × Option ℕ × Inode)
inode_write console_write ctx inode src offset =
    let count = length src in
    if inode.entry.type == inode_device
    then (if inode.entry.major == 1
        then (do n ← console_write src; pure (n, ctx, inode))
        else (λ s. panic))
    else (let end = (offset + count) % usize_mod in
        if ltb inode.entry.num_bytes offset || ltb inode_max_bytes end || ltb end offset
        then (λ s. panic)
        else (do
          (ctx1, inode1) ← grow_to ctx inode end
          (ctx2, inode2) ← write_loop count ctx1 inode1 src offset end
          pure (count, ctx2, inode2)))
