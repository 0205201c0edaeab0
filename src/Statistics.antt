-- ===== src/Statistics.antt =====
-- class stat_writer of stat_writer.cpp and stat_writer.h: a worker's file of statistics. The files
-- are a map from paths to texts, as Config has one from names to values; what fopen, access and
-- unlink answer is an argument. Times after 1970, and process numbers that are not negative.
pub mod Text
pub mod Apart
mod Tests
use nsca_fast.Prelude.{ℕ, ◌-◌, Bool, true, false, ◌&&◌, List, [], ◌∷◌, ◌++◌, take, if◌then◌else◌}
use nsca_fast.Prelude.Text.{codes, newline, decimal}
use nsca_fast.Config.{Configdata, get_value, set_value, same_text}

abbrev pub filename_max : ℕ
filename_max = 4096

-- The texts of the files by their paths.
abbrev pub StatFiles : Type 0
StatFiles = List (List ℕ × List ℕ)

pub record StatWriter : Type 0 where
  pub path_stat : List ℕ
  pub internal_process_id : ℕ
  pub mypid : ℕ
  pub started : ℕ

-- `snprintf(lPathStat, FILENAME_MAX, "%s/nsca-stats-%d.txt", ...)`.
unfoldable pub stat_path : List ℕ → ℕ → List ℕ
unfolding take
stat_path dir_stats id =
    take (filename_max - 1) (dir_stats ++ (codes "/nsca-stats-" ++ (decimal id ++ codes ".txt")))

-- The constructor: the settings, and what processManager and getpid answer.
unfoldable pub stat_writer : Configdata → ℕ → ℕ → ℕ → StatWriter
unfolding get_value stat_path
stat_writer d internal_process_id started mypid = record {
  path_stat = stat_path (get_value (codes "dir_stats") (codes "/tmp") d) internal_process_id;
  internal_process_id = internal_process_id;
  mypid = mypid;
  started = started;
}

-- The file at a path is gone.
unfoldable pub unlink : List ℕ → StatFiles → StatFiles
unfolding same_text
unlink path [] = []
unlink path ((k, text) ∷ files) =
    let rest = unlink path files in if same_text path k then rest else (k, text) ∷ rest

-- cleanup: `readable` is access's answer, and `removable` whether unlink succeeds.
unfoldable pub cleanup : Bool → Bool → StatWriter → StatFiles → StatFiles
unfolding unlink
cleanup readable removable w files = elim w.path_stat [
  | [] ↦ files
  | _ ∷ _ ↦ if readable then if removable then unlink w.path_stat files else files else files
]

-- The destructor.
unfoldable pub stat_writer_end : Bool → Bool → StatWriter → StatFiles → StatFiles
unfolding cleanup
stat_writer_end readable removable w files = cleanup readable removable w files

-- One line of the file.
unfoldable pub stat_line : List ℕ → ℕ → List ℕ
stat_line key n = key ++ (decimal n ++ newline ∷ [])

-- The numbers of a call of save_stats.
pub record Saved : Type 0 where
  pub now : ℕ
  pub cps : ℕ
  pub connections : ℕ
  pub counter : ℕ
  pub report_success : ℕ
  pub report_failed : ℕ

-- The lines behind the first one: `fprintf(fn, "pid=%d\n", this->mypid)` and so on.
unfoldable pub stat_fields : StatWriter → Saved → List (List ℕ × ℕ)
stat_fields w s =
    (codes "pid=", w.mypid)
    ∷ (codes "process_started_at=", w.started)
    ∷ (codes "file_created_at=", s.now)
    ∷ (codes "connections_per_sec=", s.cps)
    ∷ (codes "connections_current=", s.connections)
    ∷ (codes "connections_counter=", s.counter)
    ∷ (codes "report_success=", s.report_success)
    ∷ (codes "report_failed=", s.report_failed)
    ∷ []

unfoldable pub print_fields : List (List ℕ × ℕ) → List ℕ
unfolding stat_line
print_fields [] = []
print_fields ((key, n) ∷ fields) = stat_line key n ++ print_fields fields

unfoldable pub stats_text : StatWriter → Saved → List ℕ
unfolding print_fields stat_fields
stats_text w s = codes "[nsca stats]" ++ newline ∷ print_fields (stat_fields w s)

-- save_stats: `opens` says whether fopen succeeds.
unfoldable pub save_stats : Bool → StatWriter → Saved → StatFiles → StatFiles
unfolding set_value stats_text
save_stats opens w s files = elim w.path_stat [
  | [] ↦ files
  | _ ∷ _ ↦ if opens then set_value w.path_stat (stats_text w s) files else files
]
