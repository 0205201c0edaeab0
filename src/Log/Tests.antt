-- ===== src/Log/Tests.antt =====
-- A log with one of its streams closed.
use nsca_fast.Prelude.{ℕ, ◌≡◌, refl, true, false, List, [], ◌∷◌}
use nsca_fast.Prelude.Text.{codes, decimal, digits}
use nsca_fast.Log.{
  Log, first_log, debug_enable, debug, warning, log_output_check, Written, log_line, type_of,
  log_message, padded, debug_sprintf, warning_sprintf, global_sprintf, is_output,
}

abbrev clock : List ℕ
clock = codes "1970-01-01 00:16:40"

abbrev nothing : Written
nothing = record { to_stdout = []; to_stderr = [] }

-- A daemon with debugging, whose standard error is closed.
abbrev log : Log
log = debug_enable (first_log 71)

line_of_log :
    log_line (log_output_check true false log) clock (type_of debug) (codes "hello")
    ≡ codes "1970-01-01 00:16:40 DEBUG [71   ] > hello\n"
unfolding log_line padded type_of decimal digits debug_enable first_log log_output_check
line_of_log = refl

line_written :
    log_message debug (log_output_check true false log) clock (codes "hello") nothing ≡ record {
      to_stdout =
          log_line (log_output_check true false log) clock (type_of debug) (codes "hello") ∷ [];
      to_stderr = [];
    }
unfolding log_message debug_sprintf global_sprintf type_of debug_enable first_log log_output_check
    is_output
line_written = refl

closed_stream :
    log_message warning (log_output_check true false log) clock (codes "hello") nothing ≡ nothing
unfolding log_message warning_sprintf global_sprintf type_of debug_enable first_log log_output_check
    is_output
closed_stream = refl
