-- ===== src/Process/Tests.antt =====
-- A parent of two workers, of which one cannot be forked, and the theorems on it.
use nsca_fast.Prelude.{
  ℕ, zero, suc, ◌≤◌, ◌<◌, ◌≡◌, refl, sym, ap, ◌⊎◌, inl, inr, Bool, true, false, none, some, ◌∷◌, [],
  map, length, get_or, replicate, All, arith, ◌==◌, if◌then◌else◌,
}
use nsca_fast.Prelude.Int.{pos}
use nsca_fast.Process.{
  process_child, in_child, caught_sigint, become_child, Manager, running_worker, process_main,
  Forked, parent_of, fork_failed, Turn, caught_sigchld, sigusr1, sigkill, kill_childs, main_manager,
  loop, round, run_workers, start_from, start_child, catch_all, reap, reset_worker, unfinished,
  finished,
}
use nsca_fast.Prelude.Text.{codes, decimal, digits}
use nsca_fast.Config.{Configdata, same_text, find, get_value, set_value}
use nsca_fast.Process.Downgrade.{Credentials, System, Promises, note_id, take_id, super_downgrade}
use nsca_fast.Process.Counted.{count_running, IsParentAnswer, IsParentTurn, IsTracked}
use nsca_fast.Process.Shutdown.{IsShut, loop_shuts_down}
use nsca_fast.Process.Idle.{IsIdle, child_of_loop_idles}
use nsca_fast.Process.Work.{
  super_limits, threads_start, network_new, network_run, network_delete, threads_join,
  threads_delete, child_work, loop_alone, FirstLimits, child_work-IsDowngraded,
}
use nsca_fast.Process.Kill.{ToChildren, kill_childs_group}

abbrev forks : ℕ → Forked
forks i = if i == 0 then parent_of 41 else fork_failed

forks-IsParentAnswer : (i : ℕ) → IsParentAnswer (forks i)
forks-IsParentAnswer i =
    elim (i == 0) as (λ b. IsParentAnswer (if b then parent_of 41 else fork_failed)) [
      | true ↦ inr (41, refl, λ e. omega arith)
      | false ↦ inl refl
    ]

abbrev quiet : Turn
quiet = record { forks = forks; now = 1000; caught = [] }

abbrev ends_child : Turn
ends_child = record { forks = forks; now = 1001; caught = caught_sigchld (41 ∷ []) ∷ [] }

one_running : Manager
one_running = record {
  process_mode = process_main;
  workers = running_worker 41 1000 ∷ record { pid = 0; running = false; started = 0 } ∷ [];
  workers_running = pos 1;
  process_internal_id = 0;
  shutdown_requested = false;
}

restarted : loop (ends_child ∷ quiet ∷ []) 0 (main_manager 2) ≡ unfinished one_running
unfolding loop round run_workers start_from start_child catch_all reap replicate main_manager
    one_running reset_worker
restarted = refl

one_running-IsTracked : IsTracked one_running
unfolding one_running count_running
one_running-IsTracked = record {
  main = refl;
  counted = refl;
  marked = (inl (refl, λ e. omega arith), (inr (refl, refl), tt));
}

abbrev closing : Manager
closing = record one_running { shutdown_requested = true }

closing-IsTracked : IsTracked closing
unfolding one_running
closing-IsTracked = record {
  main = one_running-IsTracked.main;
  counted = one_running-IsTracked.counted;
  marked = one_running-IsTracked.marked;
}

quiet-IsParentTurn : (n : ℕ) → All IsParentTurn (replicate n quiet)
unfolding replicate
quiet-IsParentTurn zero = tt
quiet-IsParentTurn (suc n) = ((forks-IsParentAnswer, tt), quiet-IsParentTurn n)

fifteen : 15 ≤ length (replicate 15 quiet)
unfolding replicate
fifteen = omega arith

loop_shuts_down_example :
    IsShut (replicate 15 quiet) 0 closing (loop (replicate 15 quiet) 0 closing)
loop_shuts_down_example =
    loop_shuts_down (replicate 15 quiet) closing (quiet-IsParentTurn 15) closing-IsTracked refl
      fifteen

-- The child does not end: after fifteen rounds all pids are signalled, the pid 0 too.
killed : loop (replicate 15 quiet) 0 closing ≡ finished ((41, sigkill) ∷ (0, sigkill) ∷ [])
unfolding loop round catch_all kill_childs replicate one_running
killed = refl

kill_childs_group_example :
    ((count_running one_running.workers ≡ length one_running.workers)
      × ToChildren sigusr1 one_running.workers (kill_childs sigusr1 one_running))
    ⊎ ((count_running one_running.workers < length one_running.workers)
        × (i : ℕ) × (i < length one_running.workers)
        × (get_or (kill_childs sigusr1 one_running) i (1, sigusr1) ≡ (0, sigusr1)))
kill_childs_group_example = kill_childs_group sigusr1 one_running one_running-IsTracked

-- A kernel that lets the superuser change its identifiers.
abbrev only_root : System
only_root = record {
  getgrnam = λ name. some 30;
  getpwnam = λ name. some 20;
  setgid = λ g c. if c.uid == 0 then some (record c { gid = g }) else none;
  setuid = λ u c. if c.uid == 0 then some (record c { uid = u }) else none;
}

same_credentials : (a b : Credentials) → some a ≡ some b → a ≡ b
same_credentials a b h = cc h

change_allowed : (b : Bool) (a c' : Credentials) → (if b then some a else none) ≡ some c' → a ≡ c'
change_allowed true a c' h = same_credentials a c' h
change_allowed false a c' h = absurd (cc h)

only_root-Promises : Promises only_root
only_root-Promises = record {
  setgid_sets = λ g c c' h.
      let same = change_allowed (c.uid == 0) (record c { gid = g }) c' h in
      (sym (ap (λ k. k.gid) same), sym (ap (λ k. k.uid) same));
  setuid_sets = λ u c c' h.
      let same = change_allowed (c.uid == 0) (record c { uid = u }) c' h in
      (sym (ap (λ k. k.uid) same), sym (ap (λ k. k.gid) same));
}

abbrev configuration : Configdata
configuration = (codes "nsca_user", codes "nagios") ∷ (codes "nsca_group", codes "nogroup") ∷ []

abbrev noted : Configdata
noted =
    (codes "nsca_user", codes "nagios")
    ∷ (codes "nsca_group", codes "nogroup")
    ∷ (codes "gid", codes "30")
    ∷ (codes "uid", codes "20")
    ∷ []

downgraded :
    super_downgrade only_root configuration (record { uid = 0; gid = 0 })
    ≡ some (noted, record { uid = 20; gid = 30 })
unfolding super_downgrade take_id note_id get_value find set_value same_text decimal digits
downgraded = refl

abbrev root : Credentials
root = record { uid = 0; gid = 0 }

-- A worker that takes its user and its group.
child_work-IsDowngraded_example :
    FirstLimits only_root configuration root only_root-Promises
      (child_work only_root configuration root 1 one_running)
    × FirstLimits only_root configuration root only_root-Promises
        (loop_alone only_root configuration root one_running)
    × (map (λ a. a.0) (child_work only_root configuration root 1 one_running)
        ≡ super_limits ∷ threads_start ∷ network_new ∷ network_run ∷ network_delete ∷ threads_join
          ∷ threads_delete ∷ [])
child_work-IsDowngraded_example =
    child_work-IsDowngraded only_root configuration root only_root-Promises 1 one_running
      one_running (some (noted, record { uid = 20; gid = 30 })) downgraded

-- The second worker is started by the loop; here is what its own process sees.
abbrev becomes_worker : Turn
becomes_worker = record {
  forks = λ i. if i == 0 then parent_of 41 else in_child;
  now = 1000;
  caught = caught_sigint ∷ [];
}

forked_in_loop : (run_workers becomes_worker.forks 1000 one_running).process_mode ≡ process_child
unfolding run_workers start_from start_child one_running become_child
forked_in_loop = refl

child_of_loop_idles_example :
    (m' : Manager) × (loop (becomes_worker ∷ quiet ∷ quiet ∷ []) 0 one_running ≡ unfinished m')
    × IsIdle m'
unfolding one_running
child_of_loop_idles_example =
    child_of_loop_idles becomes_worker (quiet ∷ quiet ∷ []) 0 one_running refl forked_in_loop
      ((tt, tt), (tt, (tt, tt)))
