-- ===== src/Process.antt =====
-- class processManager and class child_t of processManager.cpp and processManager.h: the parent's
-- table of worker processes, its signal handlers and its loop. What fork and waitpid answer is an
-- argument. `maxWorker` is the length of the table, as setMaxWorker leaves it. Pids that are only
-- logged are left out; the limits and the lock stand in the child Work.
pub mod Counted
pub mod Downgrade
pub mod Kill
pub mod Idle
pub mod Work
pub mod Going
pub mod Shutdown
mod Tests
use nsca_fast.Prelude.{
  ℕ, zero, suc, ◌+◌, ◌-◌, Bool, true, false, not, ◌&&◌, ◌||◌, List, [], ◌∷◌, ◌++◌, Option, none,
  some, map, length, replicate, get_or, set, leb, ◌==◌, if◌then◌else◌,
}
use nsca_fast.Prelude.Int.{ℤ, pos, negsuc, increment, decrement}
use nsca_fast.Network.{Network, stop}

-- child_t; the state is PROCESS_STATE_RUNNING or not.
pub record Worker : Type 0 where
  pub pid : ℕ
  pub running : Bool
  pub started : ℕ

-- child_t::child_t and child_t::reset leave the same.
unfoldable pub idle_worker : Worker
idle_worker = record { pid = 0; running = false; started = 0 }

pub data Mode : Type 0 where
  unset_mode process_main process_child : Mode

pub record Manager : Type 0 where
  pub process_mode : Mode
  pub workers : List Worker
  pub workers_running : ℤ
  pub process_internal_id : ℕ
  pub shutdown_requested : Bool

abbrev pub is_main : Mode → Bool
is_main process_main = true
is_main _ = false

abbrev pub is_child : Mode → Bool
is_child process_child = true
is_child _ = false

-- processManager::processManager; maxWorker is not read before setMaxWorker.
unfoldable pub first_manager : Manager
first_manager = record {
  process_mode = unset_mode;
  workers = [];
  workers_running = pos 0;
  process_internal_id = 0;
  shutdown_requested = false;
}

-- setProcessMode.
unfoldable pub set_process_mode : Mode → Manager → Manager
set_process_mode mode m = record m { process_mode = mode }

-- setMaxWorker, which is called once.
unfoldable pub set_max_worker : ℕ → Manager → Manager
unfolding idle_worker
set_max_worker max_worker m = record m { workers = m.workers ++ replicate max_worker idle_worker }

-- The manager of mainloop.
unfoldable pub main_manager : ℕ → Manager
unfolding first_manager set_process_mode set_max_worker
main_manager max_worker = set_max_worker max_worker (set_process_mode process_main first_manager)

-- reset.
unfoldable pub reset_manager : Manager → Manager
reset_manager m = record m {
  process_mode = unset_mode;
  workers_running = pos 0;
  shutdown_requested = false;
}

-- setInternalProcessId.
unfoldable pub set_internal_process_id : ℕ → Manager → Manager
set_internal_process_id id m = record m { process_internal_id = id }

pub data Forked : Type 0 where
  parent_of : ℕ → Forked
  in_child : Forked
  fork_failed : Forked

-- What a new child does with its copy of the manager.
unfoldable pub become_child : ℕ → Manager → Manager
unfolding reset_manager set_process_mode set_internal_process_id
become_child wid m = set_internal_process_id wid (set_process_mode process_child (reset_manager m))

abbrev pub running_worker : ℕ → ℕ → Worker
running_worker pid now = record { pid = pid; running = true; started = now }

-- What the parent notes of a child.
unfoldable pub note_child : ℕ → ℕ → ℕ → Manager → Manager
note_child pid now wid m = record m {
  process_mode = process_main;
  workers = set m.workers wid (running_worker pid now);
  workers_running = increment m.workers_running;
}

-- startChild of the worker at `wid`.
unfoldable pub start_child : Forked → ℕ → ℕ → Manager → Manager
unfolding become_child note_child idle_worker
start_child f now wid m =
    if not (is_main m.process_mode) || (get_or m.workers wid idle_worker).running
    then m
    else elim f [
      | parent_of pid ↦ note_child pid now wid m
      | in_child ↦ become_child wid m
      | fork_failed ↦ m
    ]

-- The loop of runWorkers from `wid` on, with `left` workers to go.
unfoldable pub start_from : (ℕ → Forked) → ℕ → ℕ → ℕ → Manager → Manager
start_from forks now zero wid m = m
start_from forks now (suc left) wid m =
    start_from forks now left (wid + 1) (start_child (forks wid) now wid m)

unfoldable pub run_workers : (ℕ → Forked) → ℕ → Manager → Manager
run_workers forks now m =
    if not (is_main m.process_mode) || m.shutdown_requested
    then m
    else start_from forks now (length m.workers) 0 m

-- The inner loop of sigchld_handler: the first worker with the pid is reset.
unfoldable pub reset_worker : ℕ → List Worker → Option (List Worker)
unfolding idle_worker
reset_worker pid [] = none
reset_worker pid (w ∷ workers) = elim (w.pid == pid) [
  | true ↦ some (idle_worker ∷ workers)
  | false ↦ elim (reset_worker pid workers) [ none ↦ none | some rest ↦ some (w ∷ rest) ]
]

unfoldable pub reap : ℕ → Manager → Manager
reap pid m = elim (reset_worker pid m.workers) [
  | none ↦ m
  | some workers ↦ record m { workers = workers; workers_running = decrement m.workers_running }
]

-- sigchld_handler, with the positive pids that waitpid returns.
unfoldable pub sigchld_handler : List ℕ → Manager → Manager
sigchld_handler [] m = m
sigchld_handler (pid ∷ pids) m = sigchld_handler pids (reap pid m)

pub data Signal : Type 0 where
  sigusr1 sigkill : Signal

-- killChilds: the calls of `kill`.
unfoldable pub kill_childs : Signal → Manager → List (ℕ × Signal)
kill_childs s m = map (λ w. (w.pid, s)) m.workers

-- shutdown, of a process that runs a network or none.
unfoldable pub shutdown : Option Network → Manager → Manager × Option Network
unfolding stop
shutdown none m = (record m { shutdown_requested = true }, none)
shutdown (some nw) m = (record m { shutdown_requested = true }, some (stop nw).1)

-- A handler returns, with the signals that it has sent, or the process exits.
pub data Handled : Type 0 where
  returns : List (ℕ × Signal) → Manager → Handled
  exits : Handled

-- The parent runs no network; where one runs, its own handler of SIGINT takes the place of this one.
unfoldable pub sigint_handler : Manager → Handled
unfolding kill_childs shutdown
sigint_handler m =
    if not (is_main m.process_mode)
    then returns [] m
    else if m.shutdown_requested
    then exits
    else returns (kill_childs sigusr1 m) (shutdown none m).0

unfoldable pub sigusr1_handler : Option Network → Manager → Manager × Option Network
unfolding shutdown
sigusr1_handler nw m = if is_child m.process_mode then shutdown nw m else (m, nw)

pub data Caught : Type 0 where
  caught_sigchld : List ℕ → Caught
  caught_sigint : Caught
  caught_sigusr1 : Caught

-- sighandler_proxy in a process that is in its loop, where no network runs. SIGTERM goes the way of
-- SIGINT.
unfoldable pub sighandler_proxy : Caught → Manager → Handled
unfolding sigchld_handler sigint_handler sigusr1_handler
sighandler_proxy (caught_sigchld pids) m = returns [] (sigchld_handler pids m)
sighandler_proxy caught_sigint m = sigint_handler m
sighandler_proxy caught_sigusr1 m = returns [] (sigusr1_handler none m).0

-- The signals that are caught one after another.
unfoldable pub catch_all : List Caught → Manager → Handled
unfolding sighandler_proxy
catch_all [] m = returns [] m
catch_all (c ∷ caught) m = elim (sighandler_proxy c m) [
  | exits ↦ exits
  | returns sent m' ↦ elim (catch_all caught m') [
    | exits ↦ exits
    | returns more m'' ↦ returns (sent ++ more) m''
  ]
]

-- What happens in one round of the loop: the answers of fork, the time, and the signals that are
-- caught before the next round begins.
pub record Turn : Type 0 where
  pub forks : ℕ → Forked
  pub now : ℕ
  pub caught : List Caught

abbrev pub max_wait_for_shutdown : ℕ
max_wait_for_shutdown = 15

-- The body of the loop up to its sleep: it breaks, with the signals that it has sent, or goes on.
pub data Round : Type 0 where
  breaks : List (ℕ × Signal) → Round
  sleeps : ℕ → Manager → Round

abbrev pub is_zero : ℤ → Bool
is_zero (pos zero) = true
is_zero _ = false

unfoldable pub round : (ℕ → Forked) → ℕ → ℕ → Manager → Round
unfolding kill_childs run_workers
round forks now wait m =
    if m.shutdown_requested
    then if is_zero m.workers_running
      then breaks []
      else if leb max_wait_for_shutdown (wait + 1)
      then breaks (kill_childs sigkill m)
      else sleeps (wait + 1) m
    else sleeps wait (run_workers forks now m)

pub data Ended : Type 0 where
  finished : List (ℕ × Signal) → Ended
  exited : Ended
  unfinished : Manager → Ended

-- loop of a parent with more than one worker, over some turns.
unfoldable pub loop : List Turn → ℕ → Manager → Ended
unfolding round catch_all
loop [] wait m = unfinished m
loop (t ∷ turns) wait m = elim (round t.forks t.now wait m) [
  | breaks sent ↦ finished sent
  | sleeps wait' m' ↦ elim (catch_all t.caught m') [
    | exits ↦ exited
    | returns sent m'' ↦ loop turns wait' m''
  ]
]
