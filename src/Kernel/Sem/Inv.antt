-- ===== src/Kernel/Sem/Inv.antt =====
-- The invariant of a semaphore: a negative value counts the sleepers. So no assertion of
-- src/common/sem.c fails.
use mathlib.Core.List.{
  reverse, reverse-reverse, reverse-cons, append-nil, append_assoc, reverse-append,
}
use fdu2024_os_honor_lab.Prelude.{
  ℕ, zero, suc, ◌+◌, ◌<◌, ◌≡◌, ◌∙◌, refl, sym, ap, true, false, none, some, List, [], ◌∷◌, ◌++◌,
  arith, length,
}
use fdu2024_os_honor_lab.Prelude.Int.{pos, neg_part, pos_part}
use fdu2024_os_honor_lab.Prelude.Exec.{done}
use fdu2024_os_honor_lab.Kernel.Sem.{
  Semaphore, init_sem, incr, get_sem, get_all_sem, split_last, post_sem, post_all_from, wait_begin,
}

pub record IsValid (s : Semaphore) : Type 0 where
  pub sleepers : neg_part s.val ≡ length s.sleeplist

pub init_sem-IsValid : (n : ℕ) → IsValid (init_sem n)
unfolding init_sem
init_sem-IsValid n = record { sleepers = refl }

pub get_sem-IsValid : (s : Semaphore) → IsValid s → IsValid (get_sem s).1
unfolding get_sem
get_sem-IsValid s v = ground arith

pub get_all_sem-IsValid : (s : Semaphore) → IsValid s → IsValid (get_all_sem s).1
unfolding get_all_sem
get_all_sem-IsValid s v = ground arith

pub wait_begin-IsValid : (p : ℕ) (s : Semaphore) → IsValid s → IsValid (wait_begin p s).1
unfolding wait_begin
wait_begin-IsValid p s v = ground arith

length_snoc : (ps : List ℕ) (p : ℕ) → length (ps ++ (p ∷ [])) ≡ suc (length ps)
length_snoc [] p = refl
length_snoc (q ∷ ps) p = ap suc (length_snoc ps p)

-- The last of a list.
pub split_last-snoc : (ps : List ℕ) (p : ℕ) → split_last (ps ++ (p ∷ [])) ≡ some (ps, p)
unfolding split_last
split_last-snoc [] p = refl
split_last-snoc (q ∷ ps) p = rw (split_last-snoc ps p) refl

-- A post with a non-negative value wakes nobody.
pub post_sem_idle :
    (s : Semaphore) (n : ℕ)
    → s.val ≡ pos n
    → post_sem s ≡ done (none, record s { val = pos (n + 1) })
unfolding post_sem
post_sem_idle s n e = ground arith

-- The permit of such a post can be taken back at once.
get_again :
    (s : Semaphore) (n : ℕ) → s.val ≡ pos n → get_sem (record s { val = pos (n + 1) }) ≡ (true, s)
unfolding get_sem
get_again s n e = ground arith

-- A post to a semaphore with sleepers activates the one that has slept longest, and never panics.
pub post_sem_wakes :
    (s : Semaphore) (ps : List ℕ) (p : ℕ)
    → IsValid s
    → s.sleeplist ≡ ps ++ (p ∷ [])
    → post_sem s ≡ done (some p, record s { val = incr s.val; sleeplist = ps; woken = p ∷ s.woken })
unfolding post_sem
post_sem_wakes s ps p v e = ground (arith, split_last-snoc ps p, length_snoc ps p, ap length e)

pub post_sem-IsValid :
    (s : Semaphore) (ps : List ℕ) (p : ℕ)
    → IsValid s
    → s.sleeplist ≡ ps ++ (p ∷ [])
    → IsValid (record s { val = incr s.val; sleeplist = ps; woken = p ∷ s.woken })
post_sem-IsValid s ps p v e = ground (arith, length_snoc ps p, ap length e)

-- After a post that woke a sleeper there is no permit to take.
get_nothing :
    (s t : Semaphore) (ps : List ℕ) (p : ℕ)
    → IsValid s
    → s.sleeplist ≡ ps ++ (p ∷ [])
    → t.val ≡ incr s.val
    → get_sem t ≡ (false, t)
unfolding get_sem
get_nothing s t ps p v e i = ground (arith, length_snoc ps p, ap length e)

-- What is left after every sleeper of `s` was woken.
pub record IsEmptied (s u : Semaphore) : Type 0 where
  pub nobody_sleeps : u.sleeplist ≡ []
  pub value : u.val ≡ pos (pos_part s.val)

natural_of : (s : Semaphore) → IsValid s → s.sleeplist ≡ [] → s.val ≡ pos (pos_part s.val)
natural_of s v e = ground (arith, ap length e)

post_all_stop :
    (f n : ℕ) (ps : List ℕ) (s : Semaphore) (k : ℕ)
    → s.val ≡ pos k
    → post_all_from (suc f) n ps s ≡ some (done (n, ps, s))
unfolding post_all_from
post_all_stop f n ps s k e = rw (post_sem_idle s k e, get_again s k e, post_all_from) refl

post_all_next :
    (f n : ℕ) (ps : List ℕ) (s t : Semaphore) (p : ℕ)
    → post_sem s ≡ done (some p, t)
    → get_sem t ≡ (false, t)
    → post_all_from (suc f) n ps s ≡ post_all_from f (n + 1) (ps ++ (p ∷ [])) t
unfolding post_all_from
post_all_next f n ps s t p h g = rw (h, g, post_all_from) refl

no_permit :
    (s : Semaphore) (ps : List ℕ) (p : ℕ)
    → IsValid s
    → s.sleeplist ≡ ps ++ (p ∷ [])
    → pos_part (incr s.val) ≡ pos_part s.val
no_permit s ps p v e = ground (arith, length_snoc ps p, ap length e)

post_all_loop :
    (ws : List ℕ) (f n : ℕ) (ps : List ℕ) (s : Semaphore)
    → length ws < f
    → s.sleeplist ≡ reverse ws
    → IsValid s
    → (u : Semaphore) × (post_all_from f n ps s ≡ some (done (n + length ws, ps ++ ws, u)))
      × IsEmptied s u
post_all_loop ws zero n ps s l e v = absurd (omega arith)
post_all_loop [] (suc f) n ps s l e v = (
  s,
  rw (post_all_stop f n ps s (pos_part s.val) (natural_of s v e), append-nil ps)
      (ap (λ k. some (done (k, ps, s))) (omega arith)),
  record { nobody_sleeps = e; value = natural_of s v e },
)
post_all_loop (w ∷ ws) (suc f) n ps s l e v =
    let t = record s { val = incr s.val; sleeplist = reverse ws; woken = w ∷ s.woken } in
    let snoc : s.sleeplist ≡ reverse ws ++ (w ∷ []) = e ∙ reverse-append (w ∷ []) ws in
    let (u, r, m) =
      post_all_loop ws f (n + 1) (ps ++ (w ∷ [])) t (omega arith) refl
        (post_sem-IsValid s (reverse ws) w v snoc) in
    (
      u,
      post_all_next f n ps s t w (post_sem_wakes s (reverse ws) w v snoc)
            (get_nothing s t (reverse ws) w v snoc refl)
          ∙ r
          ∙ rw (append_assoc ps (w ∷ []) ws)
              (ap (λ k. some (done (k, ps ++ (w ∷ ws), u))) (omega arith)),
      record {
        nobody_sleeps = m.nobody_sleeps;
        value = m.value ∙ ap pos (no_permit s (reverse ws) w v snoc);
      },
    )

length_reversed : (ps : List ℕ) → length (reverse ps) ≡ length ps
length_reversed [] = refl
length_reversed (p ∷ ps) =
    rw (reverse-cons p ps, length_snoc (reverse ps) p, length_reversed ps) refl

-- post_all_sem on a valid semaphore, whose loop gets one round more than there are sleepers: it
-- returns, no assertion fails, it activates every sleeper, the one that has slept longest first, its
-- result is their number, nobody sleeps afterwards, and the permits that there were are left.
pub post_all-wakes :
    (s : Semaphore) (f : ℕ)
    → IsValid s
    → length s.sleeplist < f
    → (u : Semaphore) × (post_all_from f 0 [] s
        ≡ some (done (length s.sleeplist, reverse s.sleeplist, u)))
      × IsEmptied s u
post_all-wakes s f v l =
    let (u, r, m) =
      post_all_loop (reverse s.sleeplist) f 0 [] s (rw (length_reversed s.sleeplist) l)
        (sym (reverse-reverse s.sleeplist)) v in
    (
      u,
      r
          ∙ rw (length_reversed s.sleeplist)
              (ap (λ k. some (done (k, reverse s.sleeplist, u))) (omega arith)),
      m,
    )
