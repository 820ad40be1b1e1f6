-- ===== src/Common/ListNode/Tests.antt =====
-- Two nodes through a queue, and a take too many.
use fdu2024_os_honor_lab.Prelude.{◌≡◌, refl, List, [], ◌∷◌, arith}
use fdu2024_os_honor_lab.Prelude.Exec.{panic}
use fdu2024_os_honor_lab.Common.ListNode.{Queue, queue_init, queue_push, queue_pop, queue_front}
use fdu2024_os_honor_lab.Common.ListNode.Run.{Action, puts, takes, run, run_list, Agree, run_lem}

abbrev empty : Queue
empty = queue_init (record { next = λ p. 0; prev = λ p. 0 })

abbrev actions : List Action
actions = puts 4 ∷ puts 7 ∷ takes ∷ puts 4 ∷ takes ∷ []

run_lem_example : Agree (run actions empty) (run_list actions [])
run_lem_example =
    run_lem actions empty [] (refl, refl)
      (
        (λ p. omega (arith, p)),
        refl,
        ((λ p. omega (arith, p)), refl, ((λ p. omega (arith, p)), refl, tt)),
      )

too_many : run (puts 4 ∷ takes ∷ takes ∷ []) empty ≡ panic
unfolding queue_push queue_pop queue_front
too_many = refl
