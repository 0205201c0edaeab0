-- ===== src/Statistics/Tests.antt =====
-- Two workers' files of statistics, and the theorems on them.
use nsca_fast.Prelude.{ℕ, ◌≡◌, refl, true, List, [], ◌∷◌, none, some, arith}
use nsca_fast.Prelude.Text.{codes, decimal, digits}
use nsca_fast.Config.{Configdata, find, get_value}
use nsca_fast.Statistics.{stat_writer, stat_writer_end, Saved, save_stats, stats_text}
use nsca_fast.Statistics.Text.{IsReadBack}
use nsca_fast.Statistics.Apart.{HasRoom, save_stats-IsReadBack, save_stats_apart}

abbrev settings : Configdata
settings = (codes "dir_stats", codes "/run") ∷ []

abbrev saved : Saved
saved = record {
  now = 1000;
  cps = 2;
  connections = 1;
  counter = 20;
  report_success = 18;
  report_failed = 2;
}

path_of_two : (stat_writer settings 2 900 71).path_stat ≡ codes "/run/nsca-stats-2.txt"
unfolding stat_writer decimal digits
path_of_two = refl

text_of_two :
    stats_text (stat_writer settings 2 900 71) saved
    ≡ codes
        "[nsca stats]\npid=71\nprocess_started_at=900\nfile_created_at=1000\nconnections_per_sec=2\nconnections_current=1\nconnections_counter=20\nreport_success=18\nreport_failed=2\n"
unfolding stat_writer stats_text decimal digits
text_of_two = refl

save_stats-IsReadBack_example :
    (text : List ℕ) × (find
        (stat_writer settings 2 900 71).path_stat
        (save_stats true (stat_writer settings 2 900 71) saved [])
      ≡ some text)
    × IsReadBack (stat_writer settings 2 900 71) saved text
unfolding stat_writer
save_stats-IsReadBack_example = save_stats-IsReadBack settings 2 900 71 saved [] record {
  pid_fits = omega arith;
  started_fits = omega arith;
  now_fits = omega arith;
  cps_fits = omega arith;
  connections_fits = omega arith;
  counter_fits = omega arith;
  success_fits = omega arith;
  failed_fits = omega arith;
}

room : HasRoom (get_value (codes "dir_stats") (codes "/tmp") settings)
unfolding get_value
room = omega arith

save_stats_apart_example :
    (find
        (stat_writer settings 3 901 72).path_stat
        (save_stats true (stat_writer settings 2 900 71) saved [])
      ≡ none)
    × (find
          (stat_writer settings 3 901 72).path_stat
          (stat_writer_end true true (stat_writer settings 2 900 71) [])
        ≡ none)
    × (find
          (stat_writer settings 2 900 71).path_stat
          (stat_writer_end true true (stat_writer settings 2 900 71) [])
        ≡ none)
unfolding find
save_stats_apart_example =
    save_stats_apart settings 2 3 900 901 71 72 true true true saved [] room (omega arith)
      (omega arith) (λ e. omega arith)
