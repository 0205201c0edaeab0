-- ===== src/Log.antt =====
-- log.cpp and log.h: the levels of the log and the streams that it is written to. The text of the
-- time is what strftime makes of it, and the message what vsnprintf makes of the format.
pub mod Streams
mod Tests
use nsca_fast.Prelude.{
  ℕ, zero, suc, ◌+◌, ◌-◌, Bool, true, false, not, ◌&&◌, ◌||◌, List, [], ◌∷◌, ◌++◌, length, take,
  replicate, ◌==◌, if◌then◌else◌,
}
use nsca_fast.Prelude.Int.{ℤ, pos, negsuc}
use nsca_fast.Prelude.Text.{codes, newline, decimal}

-- debug_sprintf, info_sprintf, warning_sprintf and error_sprintf.
pub data Level : Type 0 where
  debug info warning error : Level

-- The static variables; the flags are -1 until they are set.
pub record Log : Type 0 where
  pub debug_enabled : ℤ
  pub log_output_enabled_stdout : ℤ
  pub log_output_enabled_stderr : ℤ
  pub debug_pid : ℕ

-- What they start with.
unfoldable pub first_log : ℕ → Log
first_log pid = record {
  debug_enabled = negsuc 0;
  log_output_enabled_stdout = negsuc 0;
  log_output_enabled_stderr = negsuc 0;
  debug_pid = pid;
}

abbrev pub is_enabled : ℤ → Bool
is_enabled (pos n) = n == 1
is_enabled (negsuc n) = false

-- An `int` in a condition.
abbrev pub is_set : ℤ → Bool
is_set (pos n) = not (n == 0)
is_set (negsuc n) = true

unfoldable pub is_debug : Log → Bool
is_debug g = is_enabled g.debug_enabled

unfoldable pub debug_enable : Log → Log
debug_enable g = record g { debug_enabled = pos 1 }

unfoldable pub debug_setpid : ℕ → Log → Log
debug_setpid pid g = record g { debug_pid = pid }

-- log_output_check: whether fcntl finds the descriptors of the two streams open.
unfoldable pub log_output_check : Bool → Bool → Log → Log
log_output_check stdout_open stderr_open g = record g {
  log_output_enabled_stderr = if stderr_open then pos 1 else pos 0;
  log_output_enabled_stdout = if stdout_open then pos 1 else pos 0;
}

-- What was written to the two streams.
pub record Written : Type 0 where
  pub to_stdout : List (List ℕ)
  pub to_stderr : List (List ℕ)

-- `%-5s`.
unfoldable pub padded : List ℕ → List ℕ
unfolding replicate
padded text = text ++ replicate (5 - length text) 32

unfoldable pub type_of : Level → List ℕ
type_of debug = codes "DEBUG"
type_of info = codes "INFO"
type_of warning = codes "WARN"
type_of error = codes "ERROR"

-- `type[0] == 'D' || type[0] == 'I'`.
unfoldable pub is_output : List ℕ → Bool
is_output [] = false
is_output (c ∷ type) = c == 68 || c == 73

-- `"%s %-5s [%-5d] > %s\n"`, with a message that vsnprintf cuts to the buffer of 512.
unfoldable pub log_line : Log → List ℕ → List ℕ → List ℕ → List ℕ
unfolding take
log_line g timebuffer type message =
    timebuffer
    ++ (codes " "
        ++ (padded type
            ++ (codes " ["
                ++ (padded (decimal g.debug_pid)
                    ++ (codes "] > " ++ (take 511 message ++ newline ∷ []))))))

unfoldable pub global_sprintf : Log → List ℕ → List ℕ → List ℕ → Written → Written
unfolding is_output
global_sprintf g timebuffer type message w =
    if not (is_enabled g.log_output_enabled_stderr) && not (is_enabled g.log_output_enabled_stdout)
    then w
    else if is_output type
    then if is_set g.log_output_enabled_stdout
      then record w { to_stdout = w.to_stdout ++ log_line g timebuffer type message ∷ [] }
      else w
    else if is_set g.log_output_enabled_stderr
    then record w { to_stderr = w.to_stderr ++ log_line g timebuffer type message ∷ [] }
    else w

unfoldable pub debug_sprintf : Log → List ℕ → List ℕ → Written → Written
debug_sprintf g timebuffer message w =
    if is_enabled g.debug_enabled then global_sprintf g timebuffer (type_of debug) message w else w

unfoldable pub info_sprintf : Log → List ℕ → List ℕ → Written → Written
info_sprintf g timebuffer message w = global_sprintf g timebuffer (type_of info) message w

unfoldable pub warning_sprintf : Log → List ℕ → List ℕ → Written → Written
warning_sprintf g timebuffer message w = global_sprintf g timebuffer (type_of warning) message w

unfoldable pub error_sprintf : Log → List ℕ → List ℕ → Written → Written
error_sprintf g timebuffer message w = global_sprintf g timebuffer (type_of error) message w

-- A call of one of the four.
unfoldable pub log_message : Level → Log → List ℕ → List ℕ → Written → Written
log_message debug = debug_sprintf
log_message info = info_sprintf
log_message warning = warning_sprintf
log_message error = error_sprintf
