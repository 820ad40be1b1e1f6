-- ===== src/Fs/Cache/Budget.antt =====
-- Admission of operations to the log (cache_begin_op, cache_sync, cache_end_op of src/fs/cache.c):
-- any number of threads, each with its own `ctx->rm`, in any order.
use fdu2024_os_honor_lab.Prelude.{
  ℕ, suc, ◌+◌, ◌-◌, ◌*◌, ◌≤◌, ◌<◌, ◌≡◌, ◌⊎◌, ◌↔◌, refl, ap, ◌∙◌, inl, inr, true, false, List, [],
  ◌∷◌, ◌++◌, arith, ltb, length,
}
use fdu2024_os_honor_lab.Prelude.Exec.{done, panic}
use fdu2024_os_honor_lab.Fs.Cache.{Cache, logged, log_max_size, op_max_num_blocks}
use fdu2024_os_honor_lab.Fs.Cache.Log.{begin_op, sync, end_op, contains}
use fdu2024_os_honor_lab.Fs.Cache.Recovery.{CanCommit, ended_commits, end_op-commits}

-- The cache, and `ctx->rm` of every open operation.
pub record Ops : Type 0 where
  pub cache : Cache
  pub open_rm : List ℕ

pub data Step (p q : Ops) : Type 0 where
  begin : (rm : ℕ) → begin_op p.cache ≡ done (rm, q.cache) → q.open_rm ≡ rm ∷ p.open_rm → Step p q
  write :
      (xs ys : List ℕ) (rm rm' b : ℕ)
      → p.open_rm ≡ xs ++ (rm ∷ ys)
      → sync rm b p.cache ≡ done (rm', q.cache)
      → q.open_rm ≡ xs ++ (rm' ∷ ys)
      → Step p q
  leave :
      (xs ys : List ℕ) (rm : ℕ)
      → p.open_rm ≡ xs ++ (rm ∷ ys)
      → (1 < p.cache.outstanding) ⊎ CanCommit p.cache
      → end_op p.cache ≡ done (tt, q.cache)
      → q.open_rm ≡ xs ++ ys
      → Step p q
  -- acquiring, changing and releasing blocks
  other :
      q.cache.header ≡ p.cache.header
      → q.cache.outstanding ≡ p.cache.outstanding
      → q.open_rm ≡ p.open_rm
      → Step p q

pub data Reach (p : Ops) : Ops → Type 0 where
  here : Reach p p
  next : {q r : Ops} → Reach p q → Step q r → Reach p r

abbrev pub sum : List ℕ → ℕ
sum [] = 0
sum (x ∷ xs) = x + sum xs

-- Every context has at most its share.
abbrev pub AtMost : List ℕ → Type 0
AtMost [] = Unit
AtMost (x ∷ xs) = (x ≤ op_max_num_blocks) × AtMost xs

-- The log has room for all that the open operations may still write.
pub record IsFunded (p : Ops) : Type 0 where
  pub count : p.cache.outstanding ≡ length p.open_rm
  pub small : AtMost p.open_rm
  pub room : p.cache.header.num_blocks + sum p.open_rm < log_max_size

sum-le : (xs : List ℕ) → AtMost xs → sum xs ≤ length xs * op_max_num_blocks
sum-le [] h = omega arith
sum-le (x ∷ xs) h = omega (arith, sum-le xs h.1)

-- One context among others: what it adds to the sum, and what stays true of the rest.
sum_middle : (xs ys : List ℕ) (r : ℕ) → sum (xs ++ (r ∷ ys)) ≡ r + sum (xs ++ ys)
sum_middle [] ys r = refl
sum_middle (x ∷ xs) ys r = omega (arith, sum_middle xs ys r)

length_middle : (xs ys : List ℕ) (r : ℕ) → length (xs ++ (r ∷ ys)) ≡ suc (length (xs ++ ys))
length_middle [] ys r = refl
length_middle (x ∷ xs) ys r = omega (arith, length_middle xs ys r)

AtMost-middle :
    (xs ys : List ℕ) (r : ℕ) → AtMost (xs ++ (r ∷ ys)) → (r ≤ op_max_num_blocks) × AtMost (xs ++ ys)
AtMost-middle [] ys r h = (h.0, h.1)
AtMost-middle (x ∷ xs) ys r h = let t = AtMost-middle xs ys r h.1 in (t.0, (h.0, t.1))

AtMost-insert :
    (xs ys : List ℕ) (r : ℕ) → r ≤ op_max_num_blocks → AtMost (xs ++ ys) → AtMost (xs ++ (r ∷ ys))
AtMost-insert [] ys r h a = (h, a)
AtMost-insert (x ∷ xs) ys r h a = (a.0, AtMost-insert xs ys r h a.1)

-- What a successful call of each operation does to the counters.
begin_op_done :
    (s t : Cache) (rm : ℕ)
    → begin_op s ≡ done (rm, t)
    → (rm ≡ op_max_num_blocks)
      × (t.outstanding ≡ s.outstanding + 1)
      × (t.header.num_blocks ≡ s.header.num_blocks)
      × (s.header.num_blocks + (s.outstanding + 1) * op_max_num_blocks < log_max_size)
unfolding begin_op
begin_op_done s t rm h = ground arith

sync_done :
    (s t : Cache) (rm rm' b : ℕ)
    → sync rm b s ≡ done (rm', t)
    → (t.header.num_blocks + rm' ≡ s.header.num_blocks + rm)
      × (rm' ≤ rm)
      × (t.outstanding ≡ s.outstanding)
unfolding sync
sync_done s t rm rm' b h = ground arith

end_op_done :
    (s t : Cache)
    → 1 < s.outstanding
    → end_op s ≡ done (tt, t)
    → (t.outstanding ≡ s.outstanding - 1) × (t.header.num_blocks ≡ s.header.num_blocks)
unfolding end_op
end_op_done s t o h =
    let e : ltb 0 (s.outstanding - 1) ≡ true = ground arith in let p = rw e at h in ground arith

end_op_last :
    (s t : Cache)
    → CanCommit s
    → end_op s ≡ done (tt, t)
    → (t.outstanding ≡ 0) × (t.header.num_blocks ≡ 0)
end_op_last s t c h =
    let (u, d) = ended_commits s c in
    let e : t ≡ u = cc (h, end_op-commits s c, d.runs) in
    rw e (d.open_ops ∙ omega (arith, c.only), d.emptied)

Step-IsFunded : {p q : Ops} → Step p q → IsFunded p → IsFunded q
Step-IsFunded {p} {q} (begin rm h e) f =
    let d = begin_op_done p.cache q.cache rm h in
    record {
      count = rw e (omega (arith, d, f.count));
      small = rw e (omega (arith, d), f.small);
      room = rw e (omega (arith, d, f.count, sum-le p.open_rm f.small));
    }
Step-IsFunded {p} {q} (write xs ys rm rm' b e h e') f =
    let d = sync_done p.cache q.cache rm rm' b h in
    let a = AtMost-middle xs ys rm (rw e at f.small) in
    record {
      count =
          rw e' (
            omega
              (arith, d, f.count, ap length e, length_middle xs ys rm, length_middle xs ys rm'));
      small = rw e' (AtMost-insert xs ys rm' (omega (arith, d, a.0)) a.1);
      room = rw e' (omega (arith, d, f.room, ap sum e, sum_middle xs ys rm, sum_middle xs ys rm'));
    }
Step-IsFunded {p} {q} (leave xs ys rm e c h e') f = record {
  count = rw e' (omega (arith, left, f.count, ap length e, length_middle xs ys rm));
  small = rw e' (AtMost-middle xs ys rm (rw e at f.small)).1;
  room = rw e' (
      omega (
        arith,
        left,
        f.room,
        f.count,
        ap sum e,
        ap length e,
        sum_middle xs ys rm,
        length_middle xs ys rm,
        sum-le (xs ++ ys) (AtMost-middle xs ys rm (rw e at f.small)).1,
      ));
}
  where
    left :
        (q.cache.outstanding ≡ p.cache.outstanding - 1)
        × (q.cache.header.num_blocks ≤ p.cache.header.num_blocks)
    left = elim c [
      | inl o ↦ let d = end_op_done p.cache q.cache o h in (d.0, omega (arith, d))
      | inr k ↦
          let d = end_op_last p.cache q.cache k h in (omega (arith, d, k.only), omega (arith, d))
    ]
Step-IsFunded (other h o e) f = record {
  count = rw (e, o) f.count;
  small = rw e f.small;
  room = rw (e, h) f.room;
}

-- No operation is open, and the log is empty.
pub record IsIdle (p : Ops) : Type 0 where
  pub nothing_open : p.open_rm ≡ []
  pub not_counted : p.cache.outstanding ≡ 0
  pub no_blocks : p.cache.header.num_blocks ≡ 0

IsIdle-IsFunded : {p : Ops} → IsIdle p → IsFunded p
IsIdle-IsFunded i = record {
  count = rw i.nothing_open i.not_counted;
  small = rw i.nothing_open tt;
  room = rw i.nothing_open (omega (arith, i.no_blocks));
}

-- In every state that the operations reach from an idle one, in any order, each batch being ended in a
-- state that can commit, every open operation is
-- counted, has at most its share left, and the log has room for all that the open contexts may still
-- write.
pub Reach-IsFunded : {p q : Ops} → IsIdle p → Reach p q → IsFunded q
Reach-IsFunded i here = IsIdle-IsFunded i
Reach-IsFunded i (next r st) = Step-IsFunded st (Reach-IsFunded i r)

-- In every state that the operations reach from an idle one, in any order, each batch being ended in a
-- state that can commit, cache_sync of an open operation calls
-- PANIC exactly when the operation has used up its share and the block is not in the log yet.
pub sync_panics_iff :
    {p q : Ops} (xs ys : List ℕ) (rm b : ℕ)
    → IsIdle p
    → Reach p q
    → q.open_rm ≡ xs ++ (rm ∷ ys)
    → (sync rm b q.cache ≡ panic) ↔ ((rm ≡ 0) × (contains b (logged q.cache.header) ≡ false))
unfolding sync
sync_panics_iff {p} {q} xs ys rm b i r e = ground (arith, room)
  where
    funded : IsFunded q
    funded = Reach-IsFunded i r

    room : q.cache.header.num_blocks + rm < log_max_size
    room = omega (arith, funded.room, ap sum e, sum_middle xs ys rm)
