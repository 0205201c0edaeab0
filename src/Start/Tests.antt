-- ===== src/Start/Tests.antt =====
-- A start with a number of workers as an option, and the theorem on it.
use nsca_fast.Prelude.{
  ℕ, ◌≡◌, refl, inl, inr, All, arith, true, false, List, [], ◌∷◌, Option, some, replicate, ◌==◌,
  if◌then◌else◌,
}
use nsca_fast.Prelude.Int.{pos, negsuc}
use nsca_fast.Prelude.Text.{codes}
use nsca_fast.Config.{
  Configdata, same_text, find, get_int, strtol, leading_digits, is_space, to_long,
}
use nsca_fast.Process.{
  Manager, Forked, parent_of, in_child, fork_failed, process_main, idle_worker, main_manager,
  become_child, note_child, start_child, start_from, run_workers, Turn, caught_sigchld, loop, round,
  catch_all, sighandler_proxy, sigchld_handler, reap, reset_worker, unfinished,
}
use nsca_fast.Process.Counted.{IsParentAnswer, IsParentTurn, IsTracked}
use nsca_fast.Start.Supervise.{mainloop-IsTracked}
use nsca_fast.Start.{Opt, opt_d, opt_n, Options, mainloop, supervises, worked}

abbrev files : List ℕ → Option (List ℕ)
files path = some (codes "nsca_workers=2 # too few\ndecryption_method=3\n")

abbrev opts : List Opt
opts = opt_d ∷ opt_n (codes "8") ∷ []

abbrev read_opts : Options
read_opts = record {
  daemonize = true;
  max_workers = pos 8;
  nsca_threads_per_worker = negsuc 0;
  path_config = codes "/etc/nagios/nsca.cfg";
  settings = (codes "debug", codes "1") ∷ [];
}

abbrev settings : Configdata
settings =
    (codes "debug", codes "1")
    ∷ (codes "nsca_workers", codes "8")
    ∷ (codes "decryption_method", codes "3")
    ∷ []

abbrev forks : ℕ → Forked
forks i = if i == 0 then parent_of 41 else fork_failed

forks-IsParentAnswer : (i : ℕ) → IsParentAnswer (forks i)
forks-IsParentAnswer i =
    elim (i == 0) as (λ b. IsParentAnswer (if b then parent_of 41 else fork_failed)) [
      | true ↦ inr (41, refl, λ e. omega arith)
      | false ↦ inl refl
    ]

-- The workers of a parent of two, of which one cannot be forked.
abbrev parent_at : ℕ → Manager
parent_at started = record {
  process_mode = process_main;
  workers =
      record { pid = 41; running = true; started = started }
      ∷ record { pid = 0; running = false; started = 0 }
      ∷ [];
  workers_running = pos 1;
  process_internal_id = 0;
  shutdown_requested = false;
}

parent_supervises :
    mainloop true forks 1000 ((codes "nsca_workers", codes "2") ∷ []) ≡ supervises (parent_at 1000)
unfolding mainloop get_int find same_text strtol is_space leading_digits to_long main_manager
    run_workers start_from start_child note_child idle_worker replicate
parent_supervises = refl

-- The worker ends, and the next round forks it again.
abbrev turns : List Turn
turns =
    record { forks = forks; now = 1001; caught = caught_sigchld (41 ∷ []) ∷ [] }
    ∷ record { forks = forks; now = 1002; caught = [] }
    ∷ []

turns-IsParentTurn : All IsParentTurn turns
turns-IsParentTurn =
    ((forks-IsParentAnswer, (((λ e. omega arith), tt), tt)), ((forks-IsParentAnswer, tt), tt))

worker_restarted : loop turns 0 (parent_at 1000) ≡ unfinished (parent_at 1002)
unfolding loop round run_workers start_from start_child note_child catch_all sighandler_proxy
    sigchld_handler reap reset_worker idle_worker
worker_restarted = refl

mainloop-IsTracked_example : IsTracked (parent_at 1002)
mainloop-IsTracked_example =
    mainloop-IsTracked true forks 1000 ((codes "nsca_workers", codes "2") ∷ []) turns
      (parent_at 1000) (parent_at 1002) forks-IsParentAnswer turns-IsParentTurn parent_supervises
      worker_restarted

worker_has_worked :
    mainloop true (λ i. in_child) 1000 ((codes "nsca_workers", codes "2") ∷ []) ≡ worked
unfolding mainloop get_int find same_text strtol is_space leading_digits to_long main_manager
    run_workers start_from start_child become_child idle_worker replicate
worker_has_worked = refl
