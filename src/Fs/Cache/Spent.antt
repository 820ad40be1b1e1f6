-- ===== src/Fs/Cache/Spent.antt =====
-- What the changes of blocks take of the share of an operation and of the log (cache_sync of src/fs/cache.c).
use fdu2024_os_honor_lab.Prelude.{
  ℕ, zero, suc, ◌+◌, ◌-◌, ◌≡◌, ◌≤◌, ◌<◌, ◌⊎◌, ◌∙◌, refl, ap, inl, inr, true, ◌||◌, List, [], ◌∷◌,
  arith, ◌==◌, if◌then◌else◌, Bool-cases, length, length-set, set, take,
}
use fdu2024_os_honor_lab.Fs.Disk.{Words}
use fdu2024_os_honor_lab.Fs.Cache.{Cache, LogHeader, logged, log_max_size}
use fdu2024_os_honor_lab.Fs.Cache.Log.{contains, log_block}
use fdu2024_os_honor_lab.Fs.Cache.Edit.{Edited, is_logged, HasRoom}

-- What a write of block `b` costs
abbrev pub cost : ℕ → Cache → ℕ
cost b s = if is_logged b s then 0 else 1

-- What an operation that takes at most `n` blocks of the log leaves of its share and of the log
pub record Spent (n rm left : ℕ) (s u : Cache) : Type 0 where
  pub share : rm ≤ left + n
  pub logged : u.header.num_blocks ≤ s.header.num_blocks + n
  pub table : length u.header.block_no ≡ length s.header.block_no
  pub kept : (c : ℕ) → is_logged c s ≡ true → is_logged c u ≡ true
  pub outstanding : u.outstanding ≡ s.outstanding

pub Spent-add :
    {a b rm left left2 : ℕ} {s t u : Cache}
    → Spent a rm left s t
    → Spent b left left2 t u
    → Spent (a + b) rm left2 s u
Spent-add p q = record {
  share = omega (arith, p.share, q.share);
  logged = omega (arith, p.logged, q.logged);
  table = q.table ∙ p.table;
  kept = λ c h. q.kept c (p.kept c h);
  outstanding = q.outstanding ∙ p.outstanding;
}

pub Spent-nothing : (rm : ℕ) (s : Cache) → Spent 0 rm rm s s
Spent-nothing rm s = record {
  share = omega arith;
  logged = omega arith;
  table = refl;
  kept = λ c h. h;
  outstanding = refl;
}

pub Spent-more : {a b rm left : ℕ} {s t : Cache} → a ≤ b → Spent a rm left s t → Spent b rm left s t
Spent-more le p = record {
  share = omega (arith, le, p.share);
  logged = omega (arith, le, p.logged);
  table = p.table;
  kept = p.kept;
  outstanding = p.outstanding;
}

pub cost-kept : {n rm left : ℕ} {s u : Cache} (b : ℕ) → Spent n rm left s u → cost b u ≤ cost b s
cost-kept {n} {rm} {left} {s} {u} b p = elim (Bool-cases (is_logged b s)) [
  | inl e ↦ rw (e, p.kept b e) (omega arith)
  | inr e ↦ rw e (ground arith)
]

pub cost-logged : (b : ℕ) (s : Cache) → is_logged b s ≡ true → cost b s ≡ 0
cost-logged b s e = rw e refl

-- Enough for what it costs
pub HasRoom-cost :
    (b rm : ℕ) (s : Cache)
    → cost b s ≤ rm
    → s.header.num_blocks + cost b s < log_max_size
    → (is_logged b s ≡ true) ⊎ HasRoom rm s
HasRoom-cost b rm s p q = elim (Bool-cases (is_logged b s)) [
  | inl e ↦ inl e
  | inr e ↦ let p2 = rw e at p in let q2 = rw e at q in inr (omega (arith, p2), omega (arith, q2))
]

contains-append :
    (c b n : ℕ) (xs : List ℕ)
    → n < length xs
    → contains c (take (suc n) (set xs n b)) ≡ (c == b || contains c (take n xs))
unfolding contains
contains-append c b n [] h = absurd (omega (arith, h))
contains-append c b zero (x ∷ xs) h = refl
contains-append c b (suc n) (x ∷ xs) h = ground (arith, contains-append c b n xs (omega (arith, h)))

log_block-logged :
    (b c : ℕ) (s : Cache)
    → s.header.num_blocks < length s.header.block_no
    → is_logged c (log_block b s) ≡ (c == b || is_logged c s)
log_block-logged b c s h =
    let n = s.header.num_blocks in
    ap (λ m. contains c (take m (set s.header.block_no n b))) (next n)
    ∙ contains-append c b n s.header.block_no h
  where
    next : (n : ℕ) → n + 1 ≡ suc n
    next n = omega arith

module _ (b rm : ℕ) {x : Words} {s u : Cache} (room : (is_logged b s ≡ true) ⊎ HasRoom rm s)
    (table : length s.header.block_no ≡ log_max_size) (d : Edited b x s u) where
  same_logged : {h : LogHeader} → u.header ≡ h → (c : ℕ) → is_logged c u ≡ contains c (logged h)
  same_logged e c = ap (λ k. contains c (logged k)) e

  pub edit-Spent : Spent (cost b s) rm (if is_logged b s then rm else rm - 1) s u
  edit-Spent = elim (Bool-cases (is_logged b s)) [
    | inl e ↦
        let h : u.header ≡ s.header = d.header ∙ rw e refl in
        rw e (record {
          share = omega arith;
          logged = omega (arith, ap (λ k. k.num_blocks) h);
          table = ap (λ k. length k.block_no) h;
          kept = λ c l. same_logged h c ∙ l;
          outstanding = d.outstanding;
        })
    | inr e ↦
        let h : u.header ≡ (log_block b s).header = d.header ∙ rw e refl in
        let lt : s.header.num_blocks < length s.header.block_no = ground (arith, room, e, table) in
        rw e (record {
          share = ground (arith, room, e);
          logged = omega (arith, ap (λ k. k.num_blocks) h);
          table =
              ap (λ k. length k.block_no) h ∙ length-set s.header.block_no s.header.num_blocks b;
          kept = λ c l. same_logged h c ∙ ground (arith, log_block-logged b c s lt, l);
          outstanding = d.outstanding;
        })
  ]

  pub edit-logged : is_logged b u ≡ true
  edit-logged = elim (Bool-cases (is_logged b s)) [
    | inl e ↦ let h : u.header ≡ s.header = d.header ∙ rw e refl in same_logged h b ∙ e
    | inr e ↦
        let h : u.header ≡ (log_block b s).header = d.header ∙ rw e refl in
        let lt : s.header.num_blocks < length s.header.block_no = ground (arith, room, e, table) in
        same_logged h b ∙ ground (arith, log_block-logged b b s lt)
  ]
