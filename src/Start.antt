-- ===== src/Start.antt =====
-- main and mainloop of main.cpp: the options of the command line, the settings that they override,
-- and how the daemon starts. `getopt`, the files, the lock and fork are parameters. Output, the file
-- with the pid and the signals' registration are left out.
pub mod Ranged
pub mod Numbers
pub mod Override
pub mod Decimal
pub mod Supervise
mod Tests
use nsca_fast.Prelude.{
  ℕ, zero, suc, ◌-◌, Bool, true, false, not, List, [], ◌∷◌, ◌++◌, Option, none, some, take, ◌==◌,
  if◌then◌else◌,
}
use nsca_fast.Prelude.Int.{ℤ, pos, negsuc, pos_part}
use nsca_fast.Prelude.Text.{codes, decimal}
use nsca_fast.Config.{Configdata, set_value, get_int, int_of, strtol, outside, check_config}
use nsca_fast.Config.Read.{read_config}
use nsca_fast.Process.{
  Forked, parent_of, in_child, fork_failed, Manager, main_manager, run_workers, is_main,
}

-- What `getopt` returns, with its argument.
pub data Opt : Type 0 where
  opt_h : Opt
  opt_f : Opt
  opt_d : Opt
  opt_c : List ℕ → Opt
  opt_n : List ℕ → Opt
  opt_t : List ℕ → Opt
  opt_unknown : Opt

-- The variables of main, with the settings and the path of the configuration.
pub record Options : Type 0 where
  pub daemonize : Bool
  pub max_workers : ℤ
  pub nsca_threads_per_worker : ℤ
  pub path_config : List ℕ
  pub settings : Configdata

unfoldable pub no_options : Options
no_options = record {
  daemonize = true;
  max_workers = pos 0;
  nsca_threads_per_worker = negsuc 0;
  path_config = codes "/etc/nagios/nsca.cfg";
  settings = [];
}

-- One turn of the loop over the options; `none` is the return value 1.
unfoldable pub read_option : Opt → Options → Option Options
unfolding set_value strtol
read_option opt_h o = none
read_option opt_f o = some (record o { daemonize = false })
read_option opt_d o =
    some (record o { settings = set_value (codes "debug") (codes "1") o.settings })
read_option (opt_c path) o = some (record o { path_config = path })
read_option (opt_n arg) o =
    let n = int_of (strtol arg) in
    if outside (pos 0) (pos 100) n then none else some (record o { max_workers = n })
read_option (opt_t arg) o =
    let n = int_of (strtol arg) in
    if outside (pos 0) (pos 1000) n then none else some (record o { nsca_threads_per_worker = n })
read_option opt_unknown o = some o

unfoldable pub read_options : List Opt → Options → Option Options
unfolding read_option
read_options [] o = some o
read_options (opt ∷ opts) o = elim (read_option opt o) [
  | none ↦ none
  | some o' ↦ read_options opts o'
]

-- `snprintf(tmpbuf, 10, "%d", n)`.
unfoldable pub print_int : ℤ → List ℕ
unfolding decimal take
print_int (pos n) = take 9 (decimal n)
print_int (negsuc n) = take 9 (45 ∷ decimal (suc n))

abbrev pub is_zero_int : ℤ → Bool
is_zero_int (pos n) = n == 0
is_zero_int (negsuc n) = false

abbrev pub is_minus_one : ℤ → Bool
is_minus_one (pos n) = false
is_minus_one (negsuc n) = n == 0

-- The numbers of the options, which are set after the configuration is read.
unfoldable pub override : Options → Configdata → Configdata
unfolding print_int set_value
override o d =
    let d' =
      if is_zero_int o.max_workers
      then d
      else set_value (codes "nsca_workers") (print_int o.max_workers) d in
    if is_minus_one o.nsca_threads_per_worker
    then d'
    else set_value (codes "nsca_threads_per_worker") (print_int o.nsca_threads_per_worker) d'

abbrev pub is_one : ℤ → Bool
is_one (pos n) = n == 1
is_one (negsuc n) = false

-- How main ends, or that mainloop is called.
pub data Started : Type 0 where
  returns : ℕ → Started
  starts : Configdata → Started

unfoldable pub fork_daemon : Forked → Configdata → Started
fork_daemon (parent_of pid) d = returns 0
fork_daemon in_child d = starts d
fork_daemon fork_failed d = returns 2

-- From read_config on; a file that cannot be opened ends the program.
unfoldable pub start : Bool → Forked → Options → Option (List ℕ) → Started
unfolding override read_config check_config fork_daemon
start workers_enabled forked o none = returns 1
start workers_enabled forked o (some file) =
    elim (check_config workers_enabled (override o (read_config file o.settings))) [
      | none ↦ returns 1
      | some d ↦ if o.daemonize then fork_daemon forked d else starts d
    ]

unfoldable pub main : Bool → (List ℕ → Option (List ℕ)) → Forked → List Opt → Started
unfolding no_options read_options start
main workers_enabled files forked opts = elim (read_options opts no_options) [
  | none ↦ returns 1
  | some o ↦ start workers_enabled forked o (files o.path_config)
]

-- How mainloop goes on: the lock is held by another daemon, the process works itself, it is the
-- parent of its workers, or it was a worker, which has ended its work.
pub data Mainloop : Type 0 where
  locked_out : Mainloop
  works_alone : Mainloop
  supervises : Manager → Mainloop
  worked : Mainloop

unfoldable pub mainloop : Bool → (ℕ → Forked) → ℕ → Configdata → Mainloop
unfolding get_int main_manager run_workers
mainloop locked forks now d =
    let workers = get_int (codes "nsca_workers") (pos 4) d in
    let m = run_workers forks now (main_manager (pos_part workers)) in
    if not locked
    then locked_out
    else if is_one workers
    then works_alone
    else if is_main m.process_mode
    then supervises m
    else worked
