-- ===== src/Kernel/Proc/Tests.antt =====
-- A process that the root creates, that runs and exits.
use fdu2024_os_honor_lab.Prelude.{
  ℕ, ◌≡◌, ◌⊎◌, refl, true, false, none, some, [], arith, if◌then◌else◌,
}
use fdu2024_os_honor_lab.Prelude.Int.{pos}
use fdu2024_os_honor_lab.Prelude.Exec.{done, sleep}
use fdu2024_os_honor_lab.Kernel.Sched.{set_at, is_zombie, zombie}
use fdu2024_os_honor_lab.Kernel.Proc.{
  Procs, root, is_empty, init_proc, adopt, activate, set_parent_to_this, start_proc, exit, reparent,
  wait, free_child,
}
use fdu2024_os_honor_lab.Kernel.Proc.Counts.{zombies}
use fdu2024_os_honor_lab.Kernel.Proc.Inv.{is_child, IsForest}
use fdu2024_os_honor_lab.Kernel.Proc.Run.{
  System, Reach, start, next, create, adopts, starts, exits, initial, Reach-IsForest,
}
use fdu2024_os_honor_lab.Kernel.Proc.Wait.{after_post, wait_lem}

abbrev born : System
born = record initial { procs = init_proc 1 initial.procs }

abbrev linked : System
linked = record initial { procs = adopt root 1 (init_proc 1 initial.procs) }

abbrev running : System
running = record initial { procs = activate false 1 (adopt root 1 (init_proc 1 initial.procs)) }

running-Reach : Reach running
unfolding init_proc set_parent_to_this start_proc activate
running-Reach =
    next
      (next (next start (create initial 1 refl)) (
        adopts born root 1 linked.procs (refl, refl) refl (λ p. absurd (omega arith)) (omega arith)
          refl))
      (starts linked 1 2 running.procs refl (λ p. absurd (omega arith)) refl)

abbrev after_exit : Procs
after_exit = record (running.procs) {
  exitcode = set_at 1 (pos 7) running.procs.exitcode;
  children = set_at 1 [] (set_at root (running.procs.children root) running.procs.children);
  childexit = set_at root 1 running.procs.childexit;
  state = set_at 1 zombie running.procs.state;
}

abbrev ended : System
ended = record initial { procs = after_exit }

ended-Reach : Reach ended
unfolding init_proc activate exit reparent
ended-Reach = next running-Reach (exits running 1 (pos 7) after_exit (refl, refl) refl refl)

wait_lem_example :
    let s = after_exit in
    ((is_empty (s.children root) ≡ true) × (wait root s ≡ done (none, s)))
    ⊎ ((is_empty (s.children root) ≡ false)
        × (zombies s.state (s.children root) ≡ 0)
        × (wait root s ≡ (if s.killed root then done (none, s) else sleep)))
    ⊎ ((c : ℕ) × (is_child s root c ≡ true)
        × (is_zombie (s.state c) ≡ true)
        × (wait root s
            ≡ done (some (s.pid c, s.exitcode c), free_child root c (after_post root s))))
unfolding init_proc activate
wait_lem_example = wait_lem root ended-Reach (refl, refl) refl

Reach-IsForest_example : IsForest ended.taken ended.procs
Reach-IsForest_example = Reach-IsForest ended-Reach
