-- ===== src/Fs/Dir/Find.antt =====
-- Looking a name up in a directory (inode_lookup of src/fs/inode.c), against the entries on its blocks.
use fdu2024_os_honor_lab.Prelude.{
  ℕ, zero, suc, ◌+◌, ◌-◌, ◌*◌, ◌^◌, ◌≡◌, ◌≢◌, ◌≤◌, ◌<◌, ◌⊎◌, ◌∙◌, refl, ap, inl, inr, Option, none,
  some, true, false, List, [], ◌∷◌, ◌==◌, ltb, if◌then◌else◌, length, drop, arith, Bool-cases,
}
use mathlib.Core.List.{append-nil}
use mathlib.Core.Path.{subst}
use fdu2024_os_honor_lab.Prelude.Int.{ℤ, pos, negsuc}
use fdu2024_os_honor_lab.Prelude.Exec.{done, M, ◌>>=◌}
use fdu2024_os_honor_lab.Common.Memory.{strncmp}
use fdu2024_os_honor_lab.Common.Memory.Strings.{padded, strncmp_zero_iff}
use fdu2024_os_honor_lab.Fs.Cache.{Cache}
use fdu2024_os_honor_lab.Fs.Cache.Access.{IsValid}
use fdu2024_os_honor_lab.Fs.Cache.Batch.{nobody}
use fdu2024_os_honor_lab.Fs.Cache.Use.{Same, Same-refl, Same-trans}
use fdu2024_os_honor_lab.Fs.Inode.{Inode, InodeEntry, inode_directory, inode_device, block_size}
use fdu2024_os_honor_lab.Fs.Inode.Map.{IsMapped}
use fdu2024_os_honor_lab.Fs.Inode.Read.{file_bytes, file_bytes-Same, IsMapped-Same, inode_read_lem}
use fdu2024_os_honor_lab.Fs.Dir.{
  entry_no, entry_name, side_by_side, is_zero, is_match, read_entry, lookup_loop, inode_lookup,
}

-- Entry `i` of a directory
abbrev pub entry_at : InodeEntry → Cache → ℕ → List ℕ
entry_at e s i = file_bytes e s 16 (16 * i)

-- An entry in use with this name: the two agree to their end or to 14 bytes.
abbrev pub IsNamed : List ℕ → List ℕ → Type 0
IsNamed name bs =
    (entry_no bs ≢ 0)
    × ((k : ℕ)
        → k < 14
        → padded (side_by_side (entry_name bs) name) 0 k
          ≡ padded (side_by_side (entry_name bs) name) 14 k)

is_zero-pos : (z : ℤ) → is_zero z ≡ true → z ≡ pos 0
is_zero-pos (pos n) h = ap pos (ground (arith, h))
is_zero-pos (negsuc n) h = ground (arith, h)

pub is_match-IsNamed : (name bs : List ℕ) → is_match name bs ≡ true → IsNamed name bs
unfolding is_match
is_match-IsNamed name bs h =
    let m = side_by_side (entry_name bs) name in
    let z : strncmp m 0 14 14 ≡ pos 0 = is_zero-pos (strncmp m 0 14 14) (ground (arith, h)) in
    (ground (arith, h), (strncmp_zero_iff 14 m 0 14).0 z)

pub no_match-IsNamed : (name bs : List ℕ) → is_match name bs ≡ false → ¬ IsNamed name bs
unfolding is_match
no_match-IsNamed name bs h named =
    let m = side_by_side (entry_name bs) name in
    let z : strncmp m 0 14 14 ≡ pos 0 = (strncmp_zero_iff 14 m 0 14).1 named.1 in
    let h2 = rw z at h in ground (arith, h2, named.0)

-- The answer of a search through the entries from `i` up to `n`: the first with the name, or none
abbrev pub Answers : InodeEntry → Cache → List ℕ → ℕ → ℕ → ℕ × Option ℕ → Type 0
Answers e s name i n r =
    ((k : ℕ) × (i ≤ k)
      × (k < n)
      × IsNamed name (entry_at e s k)
      × ((j : ℕ) → i ≤ j → j < k → ¬ IsNamed name (entry_at e s j))
      × (r ≡ (entry_no (entry_at e s k), some (16 * k))))
    ⊎ (((j : ℕ) → i ≤ j → j < n → ¬ IsNamed name (entry_at e s j)) × (r ≡ (0, none)))

Answers-next :
    (e : InodeEntry) (s : Cache) (name : List ℕ) (i n : ℕ) (r : ℕ × Option ℕ)
    → ¬ IsNamed name (entry_at e s i)
    → Answers e s name (i + 1) n r
    → Answers e s name i n r
Answers-next e s name i n r no_name (inl (k, le, lt, named, none_before, is)) = inl (
  k,
  omega (arith, le),
  lt,
  named,
  (λ j a b. elim (Bool-cases (i == j)) [
    | inl y ↦ let p : i ≡ j = ground (arith, y) in rw p at no_name
    | inr y ↦ none_before j (ground (arith, a, y)) b
  ]),
  is,
)
Answers-next e s name i n r no_name (inr (none_at, is)) = inr (
  (λ j a b. elim (Bool-cases (i == j)) [
    | inl y ↦ let p : i ≡ j = ground (arith, y) in rw p at no_name
    | inr y ↦ none_at j (ground (arith, a, y)) b
  ]),
  is,
)

drop_all : (n : ℕ) (xs : List ℕ) → length xs ≤ n → drop n xs ≡ []
drop_all zero [] h = refl
drop_all zero (x ∷ xs) h = ground (arith, h)
drop_all (suc n) [] h = refl
drop_all (suc n) (x ∷ xs) h = drop_all n xs (omega (arith, h))

-- A directory of `n` entries, whose every part has a block
pub record IsDirectory (inode : Inode) (n : ℕ) (s : Cache) : Type 0 where
  pub valid : IsValid nobody s
  pub type : inode.entry.type ≡ inode_directory
  pub size : inode.entry.num_bytes ≡ 16 * n
  pub small : inode.entry.num_bytes < 2 ^ 32
  pub mapped : (i : ℕ) → i * block_size < inode.entry.num_bytes → IsMapped inode s i

pub IsDirectory-Same :
    {inode : Inode} {n : ℕ} {s t : Cache} → Same s t → IsDirectory inode n s → IsDirectory inode n t
IsDirectory-Same q d = record {
  valid = q.valid;
  type = d.type;
  size = d.size;
  small = d.small;
  mapped = λ i h. IsMapped-Same q (d.mapped i h);
}

pub read_entry_lem :
    (console_read : ℕ → M Cache (List ℕ)) (inode : Inode) (n i : ℕ) (old : List ℕ) (s : Cache)
    → IsDirectory inode n s
    → i < n
    → length old ≡ 16
    → (t : Cache) × (read_entry console_read inode (16 * i) old s
        ≡ done (entry_at inode.entry s i, t))
      × Same s t
read_entry_lem console_read inode n i old s d lt len =
    let no_device : inode.entry.type ≢ inode_device = λ p. omega (arith, p, d.type) in
    let (t, run, same) =
      inode_read_lem console_read inode (16 * i) 16 s d.valid no_device d.small
        (omega (arith, d.size, lt)) (omega (arith, d.size, d.small, lt)) d.mapped in
    let all : (if ltb inode.entry.num_bytes (16 * i + 16)
          then inode.entry.num_bytes - 16 * i
          else 16)
        ≡ 16 =
      ground (arith, d.size, lt) in
    (
      t,
      rw (rw all at run, ◌>>=◌)
          (rw (drop_all 16 old (omega (arith, len)), append-nil (entry_at inode.entry s i)) refl),
      same,
    )

pub Answers-Same :
    (e : InodeEntry) {s t : Cache} (name : List ℕ) (i n : ℕ) (r : ℕ × Option ℕ)
    → Same s t
    → Answers e t name i n r
    → Answers e s name i n r
Answers-Same e {s} {t} name i n r q a = same a
  where
    entries : (j : ℕ) → entry_at e t j ≡ entry_at e s j
    entries j = file_bytes-Same e q 16 (16 * j)

    same : Answers e t name i n r → Answers e s name i n r
    same (inl (k, le, lt, named, none_before, is)) = inl (
      k,
      le,
      lt,
      subst (IsNamed name) (entries k) named,
      (λ j a b. subst (λ bs. ¬ IsNamed name bs) (entries j) (none_before j a b)),
      is ∙ ap (λ bs. (entry_no bs, some (16 * k))) (entries k),
    )
    same (inr (none_at, is)) =
        inr ((λ j a b. subst (λ bs. ¬ IsNamed name bs) (entries j) (none_at j a b)), is)

lookup_loop_lem :
    (console_read : ℕ → M Cache (List ℕ)) (f : ℕ) (inode : Inode) (n i : ℕ) (name old : List ℕ)
    (s : Cache)
    → IsDirectory inode n s
    → n ≤ i + f
    → length old ≡ 16
    → (r : ℕ × Option ℕ) × (t : Cache) × (lookup_loop console_read f inode name (16 * i) old s
        ≡ done (r, t))
      × Same s t
      × Answers inode.entry s name i n r
unfolding lookup_loop
lookup_loop_lem console_read zero inode n i name old s d enough len = (
  (0, none),
  s,
  refl,
  Same-refl s d.valid,
  inr ((λ j a b. absurd (omega (arith, a, b, enough))), refl),
)
lookup_loop_lem console_read (suc f) inode n i name old s d enough len =
    elim (Bool-cases (ltb (16 * i) inode.entry.num_bytes)) [
      | inr y ↦
          let ended : n ≤ i = ground (arith, y, d.size) in
          (
            (0, none),
            s,
            rw y refl,
            Same-refl s d.valid,
            inr ((λ j a b. absurd (omega (arith, a, b, ended))), refl),
          )
      | inl y ↦
          let lt : i < n = ground (arith, y, d.size) in
          let bs = entry_at inode.entry s i in
          let (t, run, same) = read_entry_lem console_read inode n i old s d lt len in
          elim (Bool-cases (is_match name bs)) [
            | inl m ↦ (
              (entry_no bs, some (16 * i)),
              t,
              rw y (rw (run, ◌>>=◌) (rw m refl)),
              same,
              inl (
                i,
                omega arith,
                lt,
                is_match-IsNamed name bs m,
                (λ j a b. absurd (omega (arith, a, b))),
                refl,
              ),
            )
            | inr m ↦
                let (r, u, rest, same2, answer) =
                  lookup_loop_lem console_read f inode n (i + 1) name bs t (IsDirectory-Same same d)
                    (omega (arith, enough)) refl in
                let next : 16 * (i + 1) ≡ 16 * i + 16 = omega arith in
                let rest2 = rw next at rest in
                (
                  r,
                  u,
                  rw y (rw (run, ◌>>=◌) (rw m rest2)),
                  Same-trans same same2,
                  Answers-next inode.entry s name i n r (no_match-IsNamed name bs m)
                      (Answers-Same inode.entry name (i + 1) n r same answer),
                )
          ]
    ]

-- With no block held, inode_lookup in a directory of `n` entries, whose every part has a block, returns and
-- leaves every block as it is: it gives the number of the first entry in use that has the name, and its
-- place, or 0 when no entry has it.
pub inode_lookup_lem :
    (console_read : ℕ → M Cache (List ℕ)) (inode : Inode) (n : ℕ) (name dir_entry : List ℕ)
    (s : Cache)
    → IsDirectory inode n s
    → length dir_entry ≡ 16
    → (r : ℕ × Option ℕ) × (t : Cache) × (inode_lookup console_read inode name dir_entry s
        ≡ done (r, t))
      × Same s t
      × Answers inode.entry s name 0 n r
unfolding inode_lookup
inode_lookup_lem console_read inode n name dir_entry s d len =
    let directory : (inode.entry.type == inode_directory) ≡ true = ground (arith, d.type) in
    let (r, t, run, same, answer) =
      lookup_loop_lem console_read inode.entry.num_bytes inode n 0 name dir_entry s d
        (omega (arith, d.size)) len in
    (r, t, rw directory run, same, answer)
