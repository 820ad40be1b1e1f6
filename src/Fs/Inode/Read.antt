-- ===== src/Fs/Inode/Read.antt =====
-- Reading a file (inode_read of src/fs/inode.c), against the bytes that stand on its blocks.
use fdu2024_os_honor_lab.Prelude.{
  ℕ, zero, suc, ◌+◌, ◌-◌, ◌*◌, ◌/◌, ◌%◌, ◌^◌, ◌≡◌, ◌≢◌, ◌≤◌, ◌<◌, ◌∙◌, refl, sym, ap, ap₂, inl, inr,
  none, false, ◌||◌, List, [], ◌∷◌, ◌++◌, ◌==◌, ltb, if◌then◌else◌, arith, Bool-cases,
}
use fdu2024_os_honor_lab.Prelude.Exec.{done, M, ◌>>=◌}
use fdu2024_os_honor_lab.Fs.Cache.{Cache}
use fdu2024_os_honor_lab.Fs.Cache.Access.{view, IsValid}
use fdu2024_os_honor_lab.Fs.Cache.Batch.{nobody}
use fdu2024_os_honor_lab.Fs.Cache.Use.{Same, Same-refl, Same-trans, read_block_lem}
use fdu2024_os_honor_lab.Fs.Inode.{
  Inode, InodeEntry, byte, bytes_at, inode_read, read_loop, round_size, block_size, inode_device,
  usize_mod,
}
use fdu2024_os_honor_lab.Fs.Inode.Map.{block_of, IsMapped, inode_map_lem}

-- Byte `j` of a file, and `n` bytes from `j` on.
abbrev pub file_byte : InodeEntry → Cache → ℕ → ℕ
file_byte e s j = byte (j % block_size) (view s (block_of e (view s) (j / block_size)))

abbrev pub file_bytes : InodeEntry → Cache → ℕ → ℕ → List ℕ
file_bytes e s zero j = []
file_bytes e s (suc n) j = file_byte e s j ∷ file_bytes e s n (j + 1)

pub block_of-Same :
    (e : InodeEntry) {s t : Cache}
    → Same s t
    → (i : ℕ) → block_of e (view t) i ≡ block_of e (view s) i
block_of-Same e q i = rw (q.views e.indirect) refl

pub IsMapped-Same :
    {inode : Inode} {s t : Cache} {i : ℕ} → Same s t → IsMapped inode s i → IsMapped inode t i
IsMapped-Same {inode} {i = i} q m = record {
  present = rw (block_of-Same inode.entry q i) m.present;
  outside = rw (block_of-Same inode.entry q i, q.log.sblock) m.outside;
  indirect = λ l. rw q.log.sblock (m.indirect l);
}

pub file_bytes-Same :
    (e : InodeEntry) {s t : Cache} → Same s t → (n j : ℕ) → file_bytes e t n j ≡ file_bytes e s n j
file_bytes-Same e q zero j = refl
file_bytes-Same e {s} {t} q (suc n) j =
    ap₂ (λ x xs. x ∷ xs)
      (ap (byte (j % block_size)) (
        ap (view t) (block_of-Same e q (j / block_size))
        ∙ q.views (block_of e (view s) (j / block_size))))
      (file_bytes-Same e q n (j + 1))

file_bytes-append :
    (e : InodeEntry) (s : Cache) (m n j : ℕ)
    → file_bytes e s m j ++ file_bytes e s n (j + m) ≡ file_bytes e s (m + n) j
file_bytes-append e s zero n j =
    let p : j + 0 ≡ j = omega arith in
    let q : n ≡ 0 + n = omega arith in rw p (ap (λ k. file_bytes e s k j) q)
file_bytes-append e s (suc m) n j =
    let p : j + suc m ≡ j + 1 + m = omega arith in
    let q : suc (m + n) ≡ suc m + n = omega arith in
    ap (λ xs. file_byte e s j ∷ xs)
      (ap (λ o. file_bytes e s m (j + 1) ++ file_bytes e s n o) p
        ∙ file_bytes-append e s m n (j + 1))
    ∙ ap (λ k. file_bytes e s k j) q

-- Bytes within one block.
bytes_at-file_bytes :
    (e : InodeEntry) (s : Cache) (n j b i : ℕ)
    → j ≡ b * block_size + i
    → i + n ≤ block_size
    → bytes_at n i (view s (block_of e (view s) b)) ≡ file_bytes e s n j
unfolding bytes_at
bytes_at-file_bytes e s zero j b i p l = refl
bytes_at-file_bytes e s (suc n) j b i p l =
    let q : j / block_size ≡ b = omega (arith, p, l) in
    let r : j % block_size ≡ i = omega (arith, p, l) in
    ap₂ (λ x xs. x ∷ xs) (ap₂ (λ c k. byte k (view s (block_of e (view s) c))) (sym q) (sym r))
      (bytes_at-file_bytes e s n (j + 1) b (i + 1) (omega (arith, p)) (omega (arith, l)))

read_loop_lem :
    (f : ℕ) (inode : Inode) (offset left : ℕ) (s : Cache)
    → IsValid nobody s
    → left ≤ f
    → ((i : ℕ) → i * block_size < offset + left → IsMapped inode s i)
    → (t : Cache) × (read_loop f inode false offset left s
        ≡ done (file_bytes inode.entry s left offset, t))
      × Same s t
unfolding read_loop
read_loop_lem zero inode offset left s v l m =
    let p : left ≡ 0 = omega arith in (s, rw p refl, Same-refl s v)
read_loop_lem (suc f) inode offset left s v l m = elim (Bool-cases (left == 0)) [
  | inl e ↦ let p : left ≡ 0 = ground arith in (s, rw p refl, Same-refl s v)
  | inr e ↦
      let r = round_size offset left in
      let some_left : left ≢ 0 = ground (arith, e) in
      let r_le : r ≤ left = ground arith in
      let r_pos : 0 < r = ground (arith, some_left) in
      let in_block : offset % block_size + r ≤ block_size = ground arith in
      let k = m (offset / block_size) (omega (arith, some_left)) in
      let b = block_of inode.entry (view s) (offset / block_size) in
      let (t, run_map, same_t) = inode_map_lem none inode (offset / block_size) s v k in
      let (u, run_read, same_u) =
        read_block_lem b t same_t.valid (rw same_t.log.sblock k.outside) in
      let same = Same-trans same_t same_u in
      let (w, run_rest, same_w) =
        read_loop_lem f inode (offset + r) (left - r) u same.valid (omega (arith, r_pos, l))
          (λ i h. IsMapped-Same same (m i (omega (arith, h, r_le)))) in
      let all : bytes_at r (offset % block_size) (view t b)
            ++ file_bytes inode.entry u (left - r) (offset + r)
          ≡ file_bytes inode.entry s left offset =
        ap₂ (λ xs ys. xs ++ ys)
          (ap (bytes_at r (offset % block_size)) (same_t.views b)
            ∙ bytes_at-file_bytes inode.entry s r offset (offset / block_size) (offset % block_size)
                (omega arith) in_block)
          (file_bytes-Same inode.entry same (left - r) (offset + r))
        ∙ file_bytes-append inode.entry s r (left - r) offset
        ∙ (let p : r + (left - r) ≡ left = omega (arith, r_le) in
            ap (λ n. file_bytes inode.entry s n offset) p) in
      (
        w,
        rw e (
            rw (run_map, ◌>>=◌)
              (rw (run_read, ◌>>=◌) (rw (run_rest, ◌>>=◌) (ap (λ xs. done (xs, w)) all)))),
        Same-trans same same_w,
      )
]

-- The bytes that a read of `count` bytes at `offset` returns.
abbrev pub available : InodeEntry → ℕ → ℕ → ℕ
available e offset count = if ltb e.num_bytes (offset + count) then e.num_bytes - offset else count

-- With no block held, a read from a file that is not a device returns its bytes from the offset on,
-- as many as asked for or as many as there are, and leaves every block as it is: the size has 32
-- bits, the offset is in the file, its sum with the count fits a machine word, and every part of
-- the file has a block.
pub inode_read_lem :
    (console_read : ℕ → M Cache (List ℕ)) (inode : Inode) (offset count : ℕ) (s : Cache)
    → IsValid nobody s
    → inode.entry.type ≢ inode_device
    → inode.entry.num_bytes < 2 ^ 32
    → offset ≤ inode.entry.num_bytes
    → offset + count < usize_mod
    → ((i : ℕ) → i * block_size < inode.entry.num_bytes → IsMapped inode s i)
    → (t : Cache) × (inode_read console_read inode offset count s
        ≡ done (file_bytes inode.entry s (available inode.entry offset count) offset, t))
      × Same s t
unfolding inode_read
inode_read_lem console_read inode offset count s v ty small le sum m =
    let n = available inode.entry offset count in
    let (t, run, same) =
      read_loop_lem n inode offset n s v (omega arith) (λ i h. m i (ground (arith, h, le))) in
    let no_device : (inode.entry.type == inode_device) ≡ false = ground (arith, ty) in
    let cut : (if ltb inode.entry.num_bytes ((count + offset) % usize_mod)
          then (inode.entry.num_bytes + usize_mod - offset) % usize_mod
          else count)
        ≡ n =
      ground (arith, small, le, sum) in
    let in_file : (ltb inode.entry.num_bytes offset
          || ltb inode.entry.num_bytes ((offset + n) % usize_mod)
          || ltb ((offset + n) % usize_mod) offset)
        ≡ false =
      ground (arith, small, le, sum) in
    (t, rw no_device (rw cut (rw in_file run)), same)
