-- ===== src/Process/Idle.antt =====
-- What becomes of a worker that was started by the parent's loop in processManager.cpp when its work
-- ends: it is still in that loop.
use nsca_fast.Prelude.{
  ℕ, zero, suc, ◌+◌, ◌≡◌, refl, inl, inr, false, List, [], ◌∷◌, Option, none, some, All, get_or,
  length, not, ◌||◌, Bool-cases,
}
use nsca_fast.Process.{
  process_child, is_main, Manager, Worker, idle_worker, Forked, parent_of, in_child, fork_failed,
  become_child, note_child, start_child, start_from, run_workers, reset_worker, reap,
  sigchld_handler, returns, sigint_handler, Caught, caught_sigchld, caught_sigint, caught_sigusr1,
  sighandler_proxy, catch_all, Turn, round, sleeps, loop, unfinished,
}

-- A child that was not told to shut down.
pub record IsIdle (m : Manager) : Type 0 where
  pub child : m.process_mode ≡ process_child
  pub going : m.shutdown_requested ≡ false

-- A signal that is not the parent's order to shut down.
abbrev pub IsOther : Caught → Type 0
IsOther (caught_sigchld pids) = Unit
IsOther caught_sigint = Unit
IsOther caught_sigusr1 = ⊥

reap-IsIdle : (pid : ℕ) (m : Manager) → IsIdle m → IsIdle (reap pid m)
unfolding reap
reap-IsIdle pid m h = go (reset_worker pid m.workers) refl
  where
    go : (r : Option (List Worker)) → r ≡ reset_worker pid m.workers → IsIdle (reap pid m)
    go none e = rw (← e, reap) h
    go (some workers) e = rw (← e, reap) (record { child = h.child; going = h.going })

sigchld_handler-IsIdle : (pids : List ℕ) (m : Manager) → IsIdle m → IsIdle (sigchld_handler pids m)
unfolding sigchld_handler
sigchld_handler-IsIdle [] m h = h
sigchld_handler-IsIdle (pid ∷ pids) m h =
    sigchld_handler-IsIdle pids (reap pid m) (reap-IsIdle pid m h)

-- The handlers return, with nothing sent.
sighandler_proxy-IsIdle :
    (c : Caught) (m : Manager)
    → IsIdle m
    → IsOther c
    → (m' : Manager) × (sighandler_proxy c m ≡ returns [] m') × IsIdle m'
unfolding sighandler_proxy sigint_handler
sighandler_proxy-IsIdle (caught_sigchld pids) m h other =
    (sigchld_handler pids m, refl, sigchld_handler-IsIdle pids m h)
sighandler_proxy-IsIdle caught_sigint m h other = (m, rw h.child refl, h)
sighandler_proxy-IsIdle caught_sigusr1 m h other = absurd other

catch_all-IsIdle :
    (caught : List Caught) (m : Manager)
    → IsIdle m
    → All IsOther caught
    → (m' : Manager) × (catch_all caught m ≡ returns [] m') × IsIdle m'
unfolding catch_all
catch_all-IsIdle [] m h other = (m, refl, h)
catch_all-IsIdle (c ∷ caught) m h other =
    let (m', handled, h') = sighandler_proxy-IsIdle c m h other.0 in
    let (m'', rest, h'') = catch_all-IsIdle caught m' h' other.1 in
    (m'', rw (handled, catch_all, rest) refl, h'')

-- Turns in which the parent's order does not come.
abbrev pub IsQuiet : Turn → Type 0
IsQuiet t = All IsOther t.caught

round-IsIdle :
    (forks : ℕ → Forked) (now wait : ℕ) (m : Manager)
    → IsIdle m
    → round forks now wait m ≡ sleeps wait m
unfolding round run_workers
round-IsIdle forks now wait m h = rw (h.going, h.child) refl

loop-IsIdle :
    (turns : List Turn) (wait : ℕ) (m : Manager)
    → IsIdle m
    → All IsQuiet turns
    → (m' : Manager) × (loop turns wait m ≡ unfinished m') × IsIdle m'
unfolding loop
loop-IsIdle [] wait m h quiet = (m, refl, h)
loop-IsIdle (t ∷ turns) wait m h quiet =
    let (m', handled, h') = catch_all-IsIdle t.caught m h quiet.0 in
    let (m'', rest, h'') = loop-IsIdle turns wait m' h' quiet.1 in
    (m'', rw (round-IsIdle t.forks t.now wait m h, handled, loop, rest) refl, h'')

-- No start of a worker asks for a shutdown.
start_child-going :
    (f : Forked) (now wid : ℕ) (m : Manager)
    → m.shutdown_requested ≡ false
    → (start_child f now wid m).shutdown_requested ≡ false
unfolding start_child become_child note_child
start_child-going f now wid m h =
    elim (Bool-cases (not (is_main m.process_mode) || (get_or m.workers wid idle_worker).running)) [
      | inl skipped ↦ rw skipped h
      | inr free ↦ forked f free
    ]
  where
    forked :
        (f : Forked)
        → (not (is_main m.process_mode) || (get_or m.workers wid idle_worker).running) ≡ false
        → (start_child f now wid m).shutdown_requested ≡ false
    forked (parent_of pid) free = rw free h
    forked in_child free = rw free refl
    forked fork_failed free = rw free h

start_from-going :
    (forks : ℕ → Forked) (now left wid : ℕ) (m : Manager)
    → m.shutdown_requested ≡ false
    → (start_from forks now left wid m).shutdown_requested ≡ false
unfolding start_from
start_from-going forks now zero wid m h = h
start_from-going forks now (suc left) wid m h =
    start_from-going forks now left (wid + 1) (start_child (forks wid) now wid m)
      (start_child-going (forks wid) now wid m h)

run_workers-going :
    (forks : ℕ → Forked) (now : ℕ) (m : Manager)
    → m.shutdown_requested ≡ false
    → (run_workers forks now m).shutdown_requested ≡ false
unfolding run_workers
run_workers-going forks now m h = elim (Bool-cases (is_main m.process_mode)) [
  | inl main ↦ simp (main, h) (start_from-going forks now (length m.workers) 0 m h)
  | inr other ↦ simp other h
]

round_going :
    (forks : ℕ → Forked) (now wait : ℕ) (m : Manager)
    → m.shutdown_requested ≡ false
    → round forks now wait m ≡ sleeps wait (run_workers forks now m)
unfolding round
round_going forks now wait m h = rw h refl

-- A worker that a round of the parent's loop starts, and whose work ends without the parent's order
-- to shut down, never leaves the loop: over any turns, whatever else is caught in them, it is
-- neither finished nor exited, still a child, and it starts nothing.
pub child_of_loop_idles :
    (t : Turn) (turns : List Turn) (wait : ℕ) (m : Manager)
    → m.shutdown_requested ≡ false
    → (run_workers t.forks t.now m).process_mode ≡ process_child
    → All IsQuiet (t ∷ turns)
    → (m' : Manager) × (loop (t ∷ turns) wait m ≡ unfinished m') × IsIdle m'
unfolding loop
child_of_loop_idles t turns wait m h forked quiet =
    let child : IsIdle (run_workers t.forks t.now m) = record {
      child = forked;
      going = run_workers-going t.forks t.now m h;
    } in
    let (m', handled, h') = catch_all-IsIdle t.caught (run_workers t.forks t.now m) child quiet.0 in
    let (m'', rest, h'') = loop-IsIdle turns wait m' h' quiet.1 in
    (m'', rw (round_going t.forks t.now wait m h, handled, loop, rest) refl, h'')
