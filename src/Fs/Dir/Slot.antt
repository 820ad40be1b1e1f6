-- ===== src/Fs/Dir/Slot.antt =====
-- The first free entry of a directory (inode_insert of src/fs/inode.c).
use fdu2024_os_honor_lab.Prelude.{
  ℕ, zero, suc, ◌+◌, ◌*◌, ◌%◌, ◌^◌, ◌≡◌, ◌≢◌, ◌≤◌, ◌<◌, ◌∙◌, refl, sym, ap, ap₂, inl, inr, true,
  false, List, [], ◌∷◌, ◌==◌, ltb, get_or, length, arith, Bool-cases,
}
use fdu2024_os_honor_lab.Prelude.Exec.{done, M, ◌>>=◌}
use fdu2024_os_honor_lab.Fs.Cache.{Cache}
use fdu2024_os_honor_lab.Fs.Cache.Access.{view}
use fdu2024_os_honor_lab.Fs.Cache.Use.{Same, Same-trans}
use fdu2024_os_honor_lab.Fs.Inode.{Inode, InodeEntry}
use fdu2024_os_honor_lab.Fs.Inode.Map.{block_of}
use fdu2024_os_honor_lab.Fs.Inode.Read.{
  file_byte, file_bytes, file_bytes-Same, block_of-Same, IsMapped-Same,
}
use fdu2024_os_honor_lab.Fs.Inode.Write.Wrote.{IsLaidOut}
use fdu2024_os_honor_lab.Fs.Dir.{entry_no, free_loop}
use fdu2024_os_honor_lab.Fs.Dir.Find.{entry_at, IsDirectory, IsDirectory-Same, read_entry_lem}

-- Entry `k` is the first that is not in use.
pub record IsFirstFree (inode : Inode) (n k : ℕ) (s : Cache) : Type 0 where
  pub inside : k < n
  pub free : entry_no (entry_at inode.entry s k) ≡ 0
  pub used : (j : ℕ) → j < k → entry_no (entry_at inode.entry s j) ≢ 0

pub IsFirstFree-Same :
    {inode : Inode} {n k : ℕ} {s t : Cache}
    → Same s t
    → IsFirstFree inode n k s
    → IsFirstFree inode n k t
IsFirstFree-Same {inode} {n} {k} q f = record {
  inside = f.inside;
  free = ap entry_no (file_bytes-Same inode.entry q 16 (16 * k)) ∙ f.free;
  used = λ j h p. f.used j h (sym (ap entry_no (file_bytes-Same inode.entry q 16 (16 * j))) ∙ p);
}

pub IsLaidOut-Same :
    {inode : Inode} {s t : Cache} → Same s t → IsLaidOut inode s → IsLaidOut inode t
IsLaidOut-Same {inode} {s} {t} q l = record {
  mapped = λ i h. IsMapped-Same q (l.mapped i h);
  apart = λ i j h g e. l.apart i j h g (sym (blocks i) ∙ e ∙ blocks j);
  no_index = λ i h p. l.no_index i h (sym (blocks i) ∙ p);
  full = λ i h. ap length (ap (view t) (blocks i) ∙ q.views _) ∙ l.full i h;
}
  where
    blocks : (i : ℕ) → block_of inode.entry (view t) i ≡ block_of inode.entry (view s) i
    blocks = block_of-Same inode.entry q

pub free_loop_lem :
    (console_read : ℕ → M Cache (List ℕ)) (f : ℕ) (inode : Inode) (n k i : ℕ) (old : List ℕ)
    (s : Cache)
    → IsDirectory inode n s
    → IsFirstFree inode n k s
    → i ≤ k
    → n ≤ i + f
    → length old ≡ 16
    → (t : Cache) × (free_loop console_read f inode (16 * i) old s
        ≡ done ((16 * k, entry_at inode.entry s k), t))
      × Same s t
unfolding free_loop
free_loop_lem console_read zero inode n k i old s d free le enough len =
    absurd (omega (arith, le, enough, free.inside))
free_loop_lem console_read (suc f) inode n k i old s d free le enough len =
    let inside : ltb (16 * i) inode.entry.num_bytes ≡ true =
      ground (arith, d.size, free.inside, le) in
    let (t, run, same) =
      read_entry_lem console_read inode n i old s d (omega (arith, free.inside, le)) len in
    elim (Bool-cases (i == k)) [
      | inl y ↦
          let p : i ≡ k = ground (arith, y) in
          let stop : (entry_no (entry_at inode.entry s i) == 0) ≡ true =
            ap (λ j. entry_no (entry_at inode.entry s j) == 0) p
            ∙ (let z = free.free in ground (arith, z)) in
          (
            t,
            rw inside (
                rw (run, ◌>>=◌)
                  (rw stop (ap (λ j. done ((16 * j, entry_at inode.entry s j), t)) p))),
            same,
          )
      | inr y ↦
          let lt : i < k = ground (arith, y, le) in
          let go : (entry_no (entry_at inode.entry s i) == 0) ≡ false =
            let z = free.used i lt in ground (arith, z) in
          let (u, rest, same2) =
            free_loop_lem console_read f inode n k (i + 1) (entry_at inode.entry s i) t
              (IsDirectory-Same same d) (IsFirstFree-Same same free) (omega (arith, lt))
              (omega (arith, enough)) refl in
          let next : (16 * i + 16) % 2 ^ 32 ≡ 16 * (i + 1) =
            omega (arith, d.size, d.small, lt, free.inside) in
          (
            u,
            rw inside (
                rw (run, ◌>>=◌)
                  (rw go (
                    rw next (
                      rest
                      ∙ ap (λ bs. done ((16 * k, bs), u))
                          (file_bytes-Same inode.entry same 16 (16 * k)))))),
            Same-trans same same2,
          )
    ]

-- Bytes of a file that are known one by one
pub file_bytes_are :
    (e : InodeEntry) (t : Cache) (ys : List ℕ) (a : ℕ)
    → ((i : ℕ) → i < length ys → file_byte e t (a + i) ≡ get_or ys i 0)
    → file_bytes e t (length ys) a ≡ ys
file_bytes_are e t [] a h = refl
file_bytes_are e t (y ∷ ys) a h =
    let z : a + 0 ≡ a = omega arith in
    ap₂ (λ x xs. x ∷ xs) (ap (file_byte e t) (sym z) ∙ h 0 (omega arith))
      (file_bytes_are e t ys (a + 1) (λ i l.
        (let p : a + 1 + i ≡ a + suc i = omega arith in ap (file_byte e t) p)
        ∙ h (suc i) (omega (arith, l))))

pub file_bytes_stay :
    (e : InodeEntry) (s t : Cache) (n a : ℕ)
    → ((i : ℕ) → a ≤ i → i < a + n → file_byte e t i ≡ file_byte e s i)
    → file_bytes e t n a ≡ file_bytes e s n a
file_bytes_stay e s t zero a h = refl
file_bytes_stay e s t (suc n) a h =
    ap₂ (λ x xs. x ∷ xs) (h a (omega arith) (omega arith))
      (file_bytes_stay e s t n (a + 1) (λ i l m. h i (omega (arith, l)) (omega (arith, m))))
