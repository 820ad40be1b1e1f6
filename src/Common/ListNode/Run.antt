-- ===== src/Common/ListNode/Run.antt =====
-- Any use of a queue (src/common/list.c) gives what a list gives, first in first out.
use fdu2024_os_honor_lab.Prelude.{ℕ, ◌≡◌, ◌≢◌, refl, ap, false, List, [], ◌∷◌, ◌++◌}
use fdu2024_os_honor_lab.Prelude.Exec.{Result, done, panic, sleep, M, pure, ◌>>=◌, ◌>>◌}
use fdu2024_os_honor_lab.Common.ListNode.{Queue, queue_push, queue_pop, queue_front}
use fdu2024_os_honor_lab.Common.ListNode.Ring.{is_in}
use fdu2024_os_honor_lab.Common.ListNode.Fifo.{
  Represents, push-Represents, pop-Represents, front-Represents,
}

-- What is done to a queue: a node is pushed, or the first one is looked at and popped.
pub data Action : Type 0 where
  puts : ℕ → Action
  takes : Action

abbrev pub run : List Action → M Queue (List ℕ)
run [] = pure []
run (puts item ∷ acts) = λ q. run acts (queue_push item q)
run (takes ∷ acts) = do a ← queue_front; queue_pop; rest ← run acts; pure (a ∷ rest)

abbrev pub take_first : M (List ℕ) (List ℕ) → M (List ℕ) (List ℕ)
take_first more [] = panic
take_first more (a ∷ ys) = (do rest ← more; pure (a ∷ rest)) ys

-- The same on a list, first in first out
abbrev pub run_list : List Action → M (List ℕ) (List ℕ)
run_list [] = pure []
run_list (puts item ∷ acts) = λ xs. run_list acts (xs ++ (item ∷ []))
run_list (takes ∷ acts) = take_first (run_list acts)

-- What is pushed is a node that does not stand in the queue.
abbrev pub AreFresh : List Action → List ℕ → Type 0
AreFresh [] xs = Unit
AreFresh (puts item ∷ acts) xs =
    (item ≢ 0) × (is_in item xs ≡ false) × AreFresh acts (xs ++ (item ∷ []))
AreFresh (takes ∷ acts) [] = Unit
AreFresh (takes ∷ acts) (a ∷ ys) = AreFresh acts ys

abbrev pub Agree : Result (List ℕ × Queue) → Result (List ℕ × List ℕ) → Type 0
Agree (done (out, q)) (done (out2, xs)) = (out ≡ out2) × Represents q xs
Agree panic panic = Unit
Agree r s = ⊥

Agree-cons :
    (a : ℕ) (r : Result (List ℕ × Queue)) (s : Result (List ℕ × List ℕ))
    → Agree r s
    → Agree
        (elim r [ done (out, q) ↦ done (a ∷ out, q) | panic ↦ panic | sleep ↦ sleep ])
        (elim s [ done (out, xs) ↦ done (a ∷ out, xs) | panic ↦ panic | sleep ↦ sleep ])
Agree-cons a (done (out, q)) (done (out2, xs)) h = (ap (λ o. a ∷ o) h.0, h.1)
Agree-cons a (done (out, q)) panic h = elim h [ ]
Agree-cons a (done (out, q)) sleep h = elim h [ ]
Agree-cons a panic (done _) h = elim h [ ]
Agree-cons a panic panic h = tt
Agree-cons a panic sleep h = elim h [ ]
Agree-cons a sleep s h = elim h [ ]

front-empty : (q : Queue) → q.begin ≡ 0 → queue_front q ≡ panic
unfolding queue_front
front-empty q h = rw h refl

-- From a queue that stands for a list, any sequence of pushes and takes, where only nodes are pushed that do not
-- stand in the queue, gives what it gives on the list, first in first out, and stands for the list that is
-- left; it calls PANIC exactly when the list is empty at a take.
pub run_lem :
    (acts : List Action) (q : Queue) (xs : List ℕ)
    → Represents q xs
    → AreFresh acts xs
    → Agree (run acts q) (run_list acts xs)
run_lem [] q xs h f = (refl, h)
run_lem (puts item ∷ acts) q xs h f =
    run_lem acts (queue_push item q) (xs ++ (item ∷ [])) (push-Represents q xs item h f.0 f.1) f.2
run_lem (takes ∷ acts) q [] h f = rw (front-empty q h.1, ◌>>=◌) tt
run_lem (takes ∷ acts) q (a ∷ ys) h f =
    let (r, runs, rest) = pop-Represents q a ys h in
    rw (front-Represents q a ys h, ◌>>=◌)
      (rw (runs, ◌>>=◌) (Agree-cons a (run acts r) (run_list acts ys) (run_lem acts r ys rest f)))
