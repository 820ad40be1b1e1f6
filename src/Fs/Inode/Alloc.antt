-- ===== src/Fs/Inode/Alloc.antt =====
-- Allocating an inode (inode_alloc of src/fs/inode.c): the first free inode of the device is taken.
use fdu2024_os_honor_lab.Prelude.{
  ℕ, zero, suc, ◌+◌, ◌-◌, ◌/◌, ◌%◌, ◌^◌, ◌≡◌, ◌≢◌, ◌≤◌, ◌<◌, ◌⊎◌, ◌∙◌, refl, sym, ap, inl, inr,
  Bool, Option, some, ◌==◌, if◌then◌else◌, length, replicate, arith, Bool-cases,
}
use fdu2024_os_honor_lab.Prelude.Exec.{done, panic, M, pure, ◌>>=◌}
use fdu2024_os_honor_lab.Fs.Disk.{Words}
use fdu2024_os_honor_lab.Fs.Cache.{Cache}
use fdu2024_os_honor_lab.Fs.Cache.Access.{view, IsValid}
use fdu2024_os_honor_lab.Fs.Cache.Batch.{nobody}
use fdu2024_os_honor_lab.Fs.Cache.Use.{edit_if, edit_if_skips, Same}
use fdu2024_os_honor_lab.Fs.Cache.Edit.{edit_if_changes, is_logged, HasRoom}
use fdu2024_os_honor_lab.Fs.Inode.{
  InodeEntry, load_entry, store_entry, to_block_no, inode_per_block, inode_num_direct,
}
use fdu2024_os_honor_lab.Fs.Inode.Layout.{IsEntry}
use fdu2024_os_honor_lab.Fs.Inode.Map.{inode_at, edited_others, edited_mine}

-- What memset and the store of the type leave in an entry.
abbrev pub blank : ℕ → InodeEntry
blank type = record {
  type = type;
  major = 0;
  minor = 0;
  num_links = 0;
  num_bytes = 0;
  addrs = replicate inode_num_direct 0;
  indirect = 0;
}

-- INODE_INVALID
abbrev pub inode_invalid : ℕ
inode_invalid = 0

abbrev pub is_free : ℕ → Words → Bool
is_free k x = (load_entry k x).type == inode_invalid

-- The loop of inode_alloc from `i` on, for `n` more inodes; behind it is PANIC.
unfoldable pub alloc_loop : ℕ → Option ℕ → ℕ → ℕ → M Cache (ℕ × Option ℕ)
alloc_loop zero ctx type i = λ s. panic
alloc_loop (suc n) ctx type i = do
  b ← (λ s. done (to_block_no i s, s))
  (found, ctx1) ←
      edit_if ctx b (is_free (i % inode_per_block)) (store_entry (i % inode_per_block) (blank type))
  if found then pure (i, ctx1) else alloc_loop n ctx1 type (i + 1)

-- inode_alloc
unfoldable pub inode_alloc : Option ℕ → ℕ → M Cache (ℕ × Option ℕ)
inode_alloc ctx type s =
    if type == inode_invalid then panic else alloc_loop (s.sblock.num_inodes - 1) ctx type 1 s

-- The blocks of inodes `1` to `n - 1` are blocks of 64 words, none of them the header of the log.
pub record HasInodes (n : ℕ) (s : Cache) : Type 0 where
  pub apart : (i : ℕ) → i < n → to_block_no i s ≢ s.sblock.log_start
  pub size : (i : ℕ) → i < n → length (view s (to_block_no i s)) ≡ 64

-- Inode `m` was free, is the first such one from `i` on, and is now the given entry, the others being as
-- they were.
pub record Allocated (i m type : ℕ) (s t : Cache) : Type 0 where
  pub valid : IsValid nobody t
  pub from : i ≤ m
  pub free : (inode_at s m).type ≡ inode_invalid
  pub first : (j : ℕ) → i ≤ j → j < m → (inode_at s j).type ≢ inode_invalid
  pub new : inode_at t m ≡ blank type
  pub others : (j : ℕ) → j ≢ m → inode_at t j ≡ inode_at s j

blank-IsEntry : (type : ℕ) → type < 2 ^ 16 → IsEntry (blank type)
blank-IsEntry type l = record {
  type = l;
  major = omega arith;
  minor = omega arith;
  num_links = omega arith;
  num_bytes = omega arith;
  twelve = refl;
  small = (
    omega arith,
    (
      omega arith,
      (
        omega arith,
        (
          omega arith,
          (
            omega arith,
            (
              omega arith,
              (
                omega arith,
                (omega arith, (omega arith, (omega arith, (omega arith, (omega arith, tt))))),
              ),
            ),
          ),
        ),
      ),
    ),
  );
  indirect = omega arith;
}

inode_at-Same : {s t : Cache} → Same s t → (j : ℕ) → inode_at t j ≡ inode_at s j
unfolding to_block_no
inode_at-Same {s} {t} q j = ap (load_entry (j % inode_per_block)) (
    ap (λ c. view t (c.inode_start + j / inode_per_block)) q.log.sblock
    ∙ q.views (s.sblock.inode_start + j / inode_per_block))

HasInodes-Same : {s t : Cache} (n : ℕ) → Same s t → HasInodes n s → HasInodes n t
unfolding to_block_no view
HasInodes-Same {s} {t} n q h = record {
  apart = λ i l. rw q.log.sblock (h.apart i l);
  size = λ i l.
      rw q.log.sblock (rw (q.views (s.sblock.inode_start + i / inode_per_block)) (h.size i l));
}

-- No inode below `top` is free from `i` on, as the one at `i` is not and the others are as they were.
taken_from :
    (i top : ℕ) {s u : Cache}
    → Same s u
    → (inode_at s i).type ≢ inode_invalid
    → ((j : ℕ) → i + 1 ≤ j → j < top → (inode_at u j).type ≢ inode_invalid)
    → (j : ℕ) → i ≤ j
    → j < top
    → (inode_at s j).type ≢ inode_invalid
taken_from i top {s} {u} q taken rest j x y = elim (Bool-cases (i == j)) [
  | inl e ↦ let p : i ≡ j = ground arith in rw p at taken
  | inr e ↦ λ z. rest j (ground (arith, e, x)) y (rw (inode_at-Same q j) z)
]

alloc_loop_lem :
    (n rm type i : ℕ) (s : Cache)
    → IsValid nobody s
    → HasInodes (i + n) s
    → type < 2 ^ 16
    → HasRoom rm s
    → (((j : ℕ) → i ≤ j → j < i + n → (inode_at s j).type ≢ inode_invalid)
        × (alloc_loop n (some rm) type i s ≡ panic))
      ⊎ ((m : ℕ) × (left : ℕ) × (t : Cache) × (m < i + n)
          × (alloc_loop n (some rm) type i s ≡ done ((m, some left), t))
          × Allocated i m type s t)
unfolding alloc_loop
alloc_loop_lem zero rm type i s v h l room = inl (λ j a b. absurd (omega arith), refl)
alloc_loop_lem (suc n) rm type i s v h l room =
    let b = to_block_no i s in
    let k = i % inode_per_block in
    let f = store_entry k (blank type) in
    let ne = h.apart i (omega arith) in
    elim (Bool-cases (is_free k (view s b))) [
      | inl e ↦
          let (t, r, d) = edit_if_changes b s v ne rm f (inr room) (is_free k) e in
          let len = h.size i (omega arith) in
          inr (
            i,
            (if is_logged b s then rm else rm - 1),
            t,
            omega arith,
            rw (r, ◌>>=◌) refl,
            record {
              valid = d.valid;
              from = omega arith;
              free = ground (arith, e);
              first = λ j x y. absurd (omega arith);
              new = edited_mine i (blank type) (blank-IsEntry type l) s t len d;
              others = edited_others i (blank type) (blank-IsEntry type l) s t len d;
            },
          )
      | inr e ↦
          let (u, r, q) = edit_if_skips b s v ne (some rm) (is_free k) f e in
          let p : i + suc n ≡ i + 1 + n = omega arith in
          let room1 : HasRoom rm u = rw q.log.header room in
          elim (alloc_loop_lem n rm type (i + 1) u q.valid
            (rw p at (HasInodes-Same (i + suc n) q h)) l room1) [
              | inl z ↦ inl (
                taken_from i (i + suc n) q (ground (arith, e))
                    (λ j x y. z.0 j x (omega (arith, y))),
                rw (r, ◌>>=◌) z.1,
              )
              | inr z ↦ inr (
                z.0,
                z.1,
                z.2,
                omega (arith, z.3),
                rw (r, ◌>>=◌) z.4,
                record {
                  valid = z.5.valid;
                  from = omega (arith, z.5.from);
                  free = ap (λ a. a.type) (sym (inode_at-Same q z.0)) ∙ z.5.free;
                  first = taken_from i z.0 q (ground (arith, e)) z.5.first;
                  new = z.5.new;
                  others = λ j n. z.5.others j n ∙ inode_at-Same q j;
                },
              )
            ]
    ]

-- With no block held, inode_alloc calls PANIC, and the type is INODE_INVALID or no inode but number 0 is free; or
-- the type is another one, and it takes the first free inode of the device, number 0 apart: its entry is empty but
-- for the type, and every other inode is as it was. The type has 16 bits, the operation has room
-- for one block, and the inodes stand on blocks of 64 words that are not the header of the log.
pub inode_alloc_lem :
    (rm type : ℕ) (s : Cache)
    → IsValid nobody s
    → HasInodes s.sblock.num_inodes s
    → 0 < s.sblock.num_inodes
    → type < 2 ^ 16
    → HasRoom rm s
    → ((inode_alloc (some rm) type s ≡ panic)
        × ((type ≡ inode_invalid)
            ⊎ ((j : ℕ) → 1 ≤ j → j < s.sblock.num_inodes → (inode_at s j).type ≢ inode_invalid)))
      ⊎ ((type ≢ inode_invalid)
          × (m : ℕ) × (left : ℕ) × (t : Cache) × (m < s.sblock.num_inodes)
          × (inode_alloc (some rm) type s ≡ done ((m, some left), t))
          × Allocated 1 m type s t)
unfolding inode_alloc
inode_alloc_lem rm type s v h some_inode l room = elim (Bool-cases (type == inode_invalid)) [
  | inl e ↦ inl (rw e refl, inl (ground (arith, e)))
  | inr e ↦
      let n = s.sblock.num_inodes - 1 in
      let below : HasInodes (1 + n) s = record {
        apart = λ i x. h.apart i (omega (arith, x, some_inode));
        size = λ i x. h.size i (omega (arith, x, some_inode));
      } in
      elim (alloc_loop_lem n rm type 1 s v below l room) [
        | inl z ↦ inl (rw e z.1, inr (λ j x y. z.0 j x (omega (arith, y))))
        | inr z ↦
            inr (ground (arith, e), z.0, z.1, z.2, omega (arith, z.3, some_inode), rw e z.4, z.5)
      ]
]
