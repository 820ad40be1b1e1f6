-- ===== src/Fs/Inode/Layout.antt =====
-- What stands in a block of inodes and in a block of addresses (src/fs/defines.h, src/fs/inode.c).
use fdu2024_os_honor_lab.Prelude.{
  ℕ, zero, suc, ◌+◌, ◌-◌, ◌*◌, ◌/◌, ◌%◌, ◌^◌, ◌≡◌, ◌≢◌, ◌≤◌, ◌<◌, ◌⊎◌, ◌∙◌, refl, sym, ap, ap₂, inl,
  inr, true, false, ◌&&◌, List, [], ◌∷◌, ◌++◌, ◌==◌, ltb, leb, if◌then◌else◌, get_or, length, arith,
  Bool-cases, length-append,
}
use fdu2024_os_honor_lab.Fs.Disk.{Words}
use fdu2024_os_honor_lab.Fs.Inode.{
  InodeEntry, u32, addrs_at, load_entry, entry_words, put_words, store_entry, inode_num_direct,
}
use fdu2024_os_honor_lab.Fs.Inode.Packed.{
  AreSmall, AreSmall-append, entry_ext, get_or-append, get_or-last, get_or-put_words, length-pack,
  parity, u32-pack, u32_even, u32_odd,
}

-- The bounds of the fields of an entry.
pub record IsEntry (e : InodeEntry) : Type 0 where
  pub type : e.type < 2 ^ 16
  pub major : e.major < 2 ^ 16
  pub minor : e.minor < 2 ^ 16
  pub num_links : e.num_links < 2 ^ 16
  pub num_bytes : e.num_bytes < 2 ^ 32
  pub twelve : length e.addrs ≡ inode_num_direct
  pub small : AreSmall e.addrs
  pub indirect : e.indirect < 2 ^ 32

-- The addresses of 16 words of 32 bits in a block.
u32-put_words :
    (k i : ℕ) (xs ws : Words)
    → length xs ≡ 8
    → 8 * k + 8 ≤ length ws
    → u32 i (put_words (8 * k) xs ws)
      ≡ (if leb (16 * k) i && ltb i (16 * k + 16) then u32 (i - 16 * k) xs else u32 i ws)
u32-put_words k i xs ws l h = elim (parity i) [
  | inl e ↦
      u32_even i (put_words (8 * k) xs ws) e
      ∙ ground (
        arith,
        get_or-put_words xs (8 * k) (i / 2) ws,
        u32_even i ws e,
        u32_even (i - 16 * k) xs,
        half,
        l,
        h,
      )
  | inr e ↦
      u32_odd i (put_words (8 * k) xs ws) e
      ∙ ground (
        arith,
        get_or-put_words xs (8 * k) (i / 2) ws,
        u32_odd i ws e,
        u32_odd (i - 16 * k) xs,
        half,
        l,
        h,
      )
]
  where
    half : 16 * k ≤ i → get_or xs ((i - 16 * k) / 2) 0 ≡ get_or xs (i / 2 - 8 * k) 0
    half g = let p : (i - 16 * k) / 2 ≡ i / 2 - 8 * k = omega arith in rw p refl

addrs_at_lem :
    (us : List ℕ) (i : ℕ) (ws : Words)
    → ((j : ℕ) → j < length us → u32 (i + j) ws ≡ get_or us j 0)
    → addrs_at (length us) i ws ≡ us
unfolding addrs_at
addrs_at_lem [] i ws h = refl
addrs_at_lem (u ∷ us) i ws h =
    ap₂ (λ a bs. a ∷ bs)
      (let p : i ≡ i + 0 = omega arith in ap (λ m. u32 m ws) p ∙ h 0 (omega arith))
      (addrs_at_lem us (i + 1) ws (λ j l.
        let p : i + 1 + j ≡ i + suc j = omega arith in
        ap (λ m. u32 m ws) p ∙ h (suc j) (omega arith)))

addrs_at_same :
    (n i : ℕ) (ws vs : Words)
    → ((j : ℕ) → j < n → u32 (i + j) ws ≡ u32 (i + j) vs)
    → addrs_at n i ws ≡ addrs_at n i vs
unfolding addrs_at
addrs_at_same zero i ws vs h = refl
addrs_at_same (suc n) i ws vs h =
    ap₂ (λ a bs. a ∷ bs)
      (let p : i ≡ i + 0 = omega arith in
        ap (λ m. u32 m ws) p ∙ h 0 (omega arith) ∙ ap (λ m. u32 m vs) (sym p))
      (addrs_at_same n (i + 1) ws vs (λ j l.
        let p : i + 1 + j ≡ i + suc j = omega arith in
        ap (λ m. u32 m ws) p ∙ h (suc j) (omega arith) ∙ ap (λ m. u32 m vs) (sym p)))

module _ (e : InodeEntry) (b : IsEntry e) where
  abbrev cells : List ℕ
  cells =
      (e.type + e.major * 2 ^ 16)
      ∷ (e.minor + e.num_links * 2 ^ 16)
      ∷ e.num_bytes
      ∷ (e.addrs ++ (e.indirect ∷ []))

  cells_small : AreSmall cells
  cells_small = (
    omega (arith, b.type, b.major),
    (
      omega (arith, b.minor, b.num_links),
      (b.num_bytes, AreSmall-append e.addrs (e.indirect ∷ []) b.small (b.indirect, tt)),
    ),
  )

  length-entry_words : length (entry_words e) ≡ 8
  length-entry_words =
      omega (arith, length-pack cells, length-append e.addrs (e.indirect ∷ []), b.twelve)

  last_cell : get_or cells 15 0 ≡ e.indirect
  last_cell = let g = rw b.twelve at (get_or-last e.addrs e.indirect) in g

  -- What a reader finds in the entry, and in the others.
  at_cell :
      (k j : ℕ) (ws : Words)
      → 8 * k + 8 ≤ length ws
      → j < 16
      → u32 (16 * k + j) (store_entry k e ws) ≡ get_or cells j 0
  unfolding store_entry
  at_cell k j ws h l =
      u32-put_words k (16 * k + j) (entry_words e) ws length-entry_words h
      ∙ (let p : 16 * k + j - 16 * k ≡ j = omega arith in
          let q : (leb (16 * k) (16 * k + j) && ltb (16 * k + j) (16 * k + 16)) ≡ true =
            ground arith in
          rw (q, p) (u32-pack cells j cells_small))

  other_cell :
      (k i : ℕ) (ws : Words)
      → 8 * k + 8 ≤ length ws
      → (i < 16 * k) ⊎ (16 * k + 16 ≤ i)
      → u32 i (store_entry k e ws) ≡ u32 i ws
  unfolding store_entry
  other_cell k i ws h l =
      u32-put_words k i (entry_words e) ws length-entry_words h
      ∙ (let q : (leb (16 * k) i && ltb i (16 * k + 16)) ≡ false = ground arith in rw q refl)

  -- Storing an inode to its place in a block of inodes and loading it again gives the same inode, and any
  -- other inode of the block is as it was.
  pub load_entry-store_entry :
      (k j : ℕ) (ws : Words)
      → length ws ≡ 64
      → k < 8
      → j < 8
      → load_entry j (store_entry k e ws) ≡ (if k == j then e else load_entry j ws)
  unfolding load_entry
  load_entry-store_entry k j ws h l m = elim (Bool-cases (k == j)) [
    | inl t ↦ let p : k ≡ j = ground arith in rw t (rw (← p) own)
    | inr t ↦ rw t (other (ground arith))
  ]
    where
      fits : 8 * k + 8 ≤ length ws
      fits = omega (arith, h, l)

      at : (i : ℕ) → i < 16 → u32 (16 * k + i) (store_entry k e ws) ≡ get_or cells i 0
      at i g = at_cell k i ws fits g

      first : u32 (16 * k) (store_entry k e ws) ≡ e.type + e.major * 2 ^ 16
      first =
          let p : 16 * k ≡ 16 * k + 0 = omega arith in
          ap (λ i. u32 i (store_entry k e ws)) p ∙ at 0 (omega arith)

      addrs : addrs_at inode_num_direct (16 * k + 3) (store_entry k e ws) ≡ e.addrs
      addrs = rw b.twelve at (
          addrs_at_lem e.addrs (16 * k + 3) (store_entry k e ws) (λ i g.
            let p : 16 * k + 3 + i ≡ 16 * k + (3 + i) = omega arith in
            ap (λ m. u32 m (store_entry k e ws)) p
            ∙ at (3 + i) (omega (arith, g, b.twelve))
            ∙ shift i g))
        where
          shift : (i : ℕ) → i < length e.addrs → get_or cells (3 + i) 0 ≡ get_or e.addrs i 0
          shift i g =
              let p : 3 + i ≡ suc (suc (suc i)) = omega arith in
              rw p (get_or-append e.addrs (e.indirect ∷ []) i g)

      own : load_entry k (store_entry k e ws) ≡ e
      own =
          entry_ext (rw first (omega (arith, b.type))) (rw first (omega (arith, b.type)))
            (rw (at 1 (omega arith)) (omega (arith, b.minor)))
            (rw (at 1 (omega arith)) (omega (arith, b.minor))) (at 2 (omega arith)) addrs
            (at 15 (omega arith) ∙ last_cell)

      other : k ≢ j → load_entry j (store_entry k e ws) ≡ load_entry j ws
      other n =
          entry_ext (ap (λ x. x % 2 ^ 16) same0) (ap (λ x. x / 2 ^ 16) same0)
            (ap (λ x. x % 2 ^ 16) (same 1 (omega arith)))
            (ap (λ x. x / 2 ^ 16) (same 1 (omega arith))) (same 2 (omega arith))
            (addrs_at_same inode_num_direct (16 * j + 3) (store_entry k e ws) ws
              (λ i g. other_cell k (16 * j + 3 + i) ws fits (omega (arith, n, g))))
            (same 15 (omega arith))
        where
          same0 : u32 (16 * j) (store_entry k e ws) ≡ u32 (16 * j) ws
          same0 = other_cell k (16 * j) ws fits (omega (arith, n))

          same : (i : ℕ) → i < 16 → u32 (16 * j + i) (store_entry k e ws) ≡ u32 (16 * j + i) ws
          same i g = other_cell k (16 * j + i) ws fits (omega (arith, n, g))
