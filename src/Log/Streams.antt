-- ===== src/Log/Streams.antt =====
-- Which stream a message of log.cpp goes to.
use nsca_fast.Prelude.{
  ℕ, ◌+◌, ◌≤◌, ◌≡◌, refl, sym, inl, inr, Bool, true, false, ◌&&◌, not, List, [], ◌∷◌, ◌++◌, length,
  length-append, ◌-◌, replicate, length-take, length-replicate, take, arith, Bool-cases,
}
use mathlib.Core.List.{append-nil}
use nsca_fast.Prelude.Text.{codes, newline, decimal, length-decimal}
use nsca_fast.Log.{
  Level, debug, info, warning, error, Log, is_debug, log_output_check, Written, padded, type_of,
  is_output, log_line, global_sprintf, debug_sprintf, info_sprintf, warning_sprintf, error_sprintf,
  log_message,
}

-- The levels that are meant for the standard output.
abbrev pub is_for_stdout : Level → Bool
is_for_stdout debug = true
is_for_stdout info = true
is_for_stdout warning = false
is_for_stdout error = false

-- Whether a level is logged at all.
abbrev pub is_wanted : Log → Level → Bool
is_wanted g debug = is_debug g
is_wanted g info = true
is_wanted g warning = true
is_wanted g error = true

-- One line or none.
abbrev pub line_if : Bool → List ℕ → List (List ℕ)
line_if true line = line ∷ []
line_if false line = []

abbrev streams : List (List ℕ) → List (List ℕ) → Written
streams a b = record { to_stdout = a; to_stderr = b }

same_streams : {a b a' b' : List (List ℕ)} → a ≡ a' → b ≡ b' → streams a b ≡ streams a' b'
same_streams e f i = record { to_stdout = e i; to_stderr = f i }

global_sprintf-stdout :
    (stdout_open stderr_open : Bool) (g : Log) (timebuffer type message : List ℕ) (w : Written)
    → is_output type ≡ true
    → global_sprintf (log_output_check stdout_open stderr_open g) timebuffer type message w
      ≡ record {
        to_stdout =
            w.to_stdout
            ++ line_if stdout_open
                (log_line (log_output_check stdout_open stderr_open g) timebuffer type message);
        to_stderr = w.to_stderr ++ [];
      }
unfolding global_sprintf log_output_check
global_sprintf-stdout true true g timebuffer type message w h =
    rw h (same_streams refl (sym (append-nil w.to_stderr)))
global_sprintf-stdout true false g timebuffer type message w h =
    rw h (same_streams refl (sym (append-nil w.to_stderr)))
global_sprintf-stdout false true g timebuffer type message w h =
    rw h (same_streams (sym (append-nil w.to_stdout)) (sym (append-nil w.to_stderr)))
global_sprintf-stdout false false g timebuffer type message w h =
    same_streams (sym (append-nil w.to_stdout)) (sym (append-nil w.to_stderr))

global_sprintf-stderr :
    (stdout_open stderr_open : Bool) (g : Log) (timebuffer type message : List ℕ) (w : Written)
    → is_output type ≡ false
    → global_sprintf (log_output_check stdout_open stderr_open g) timebuffer type message w
      ≡ record {
        to_stdout = w.to_stdout ++ [];
        to_stderr =
            w.to_stderr
            ++ line_if stderr_open
                (log_line (log_output_check stdout_open stderr_open g) timebuffer type message);
      }
unfolding global_sprintf log_output_check
global_sprintf-stderr true true g timebuffer type message w h =
    rw h (same_streams (sym (append-nil w.to_stdout)) refl)
global_sprintf-stderr false true g timebuffer type message w h =
    rw h (same_streams (sym (append-nil w.to_stdout)) refl)
global_sprintf-stderr true false g timebuffer type message w h =
    rw h (same_streams (sym (append-nil w.to_stdout)) (sym (append-nil w.to_stderr)))
global_sprintf-stderr false false g timebuffer type message w h =
    same_streams (sym (append-nil w.to_stdout)) (sym (append-nil w.to_stderr))

output_debug : is_output (type_of debug) ≡ true
unfolding is_output type_of
output_debug = refl

output_info : is_output (type_of info) ≡ true
unfolding is_output type_of
output_info = refl

error_warning : is_output (type_of warning) ≡ false
unfolding is_output type_of
error_warning = refl

error_error : is_output (type_of error) ≡ false
unfolding is_output type_of
error_error = refl

-- After log_output_check, a message of a level becomes one line of the stream that the level is meant
-- for, if that stream is open and, for the debugging level, debugging is enabled; nothing is
-- written to the other stream, and nothing otherwise.
pub log_message_lem :
    (level : Level) (stdout_open stderr_open : Bool) (g : Log) (timebuffer message : List ℕ)
    (w : Written)
    → let line =
        log_line (log_output_check stdout_open stderr_open g) timebuffer (type_of level) message in
      log_message level (log_output_check stdout_open stderr_open g) timebuffer message w ≡ record {
        to_stdout =
            w.to_stdout ++ line_if (is_wanted g level && is_for_stdout level && stdout_open) line;
        to_stderr =
            w.to_stderr
            ++ line_if (is_wanted g level && not (is_for_stdout level) && stderr_open) line;
      }
unfolding log_message debug_sprintf info_sprintf warning_sprintf error_sprintf is_debug
    log_output_check
log_message_lem debug stdout_open stderr_open g timebuffer message w =
    elim (Bool-cases (is_debug g)) [
      | inl enabled ↦ rw enabled (
          global_sprintf-stdout stdout_open stderr_open g timebuffer (type_of debug) message w
            output_debug)
      | inr silent ↦
          rw silent (same_streams (sym (append-nil w.to_stdout)) (sym (append-nil w.to_stderr)))
    ]
log_message_lem info stdout_open stderr_open g timebuffer message w =
    global_sprintf-stdout stdout_open stderr_open g timebuffer (type_of info) message w output_info
log_message_lem warning stdout_open stderr_open g timebuffer message w =
    global_sprintf-stderr stdout_open stderr_open g timebuffer (type_of warning) message w
      error_warning
log_message_lem error stdout_open stderr_open g timebuffer message w =
    global_sprintf-stderr stdout_open stderr_open g timebuffer (type_of error) message w error_error

length-padded : (text : List ℕ) → length text ≤ 20 → length (padded text) ≤ 20
unfolding padded
length-padded text h = omega (
  arith,
  length-append text (replicate (5 - length text) 32),
  length-replicate {A = ℕ} (5 - length text) 32,
)

length-type_of : (level : Level) → length (padded (type_of level)) ≡ 5
unfolding padded type_of
length-type_of debug = refl
length-type_of info = refl
length-type_of warning = refl
length-type_of error = refl

-- However long a message is, its line has at most 544 bytes besides the text of the time: the
-- message is cut at 511.
pub length-log_line :
    (level : Level) (g : Log) (timebuffer message : List ℕ)
    → length (log_line g timebuffer (type_of level) message) ≤ length timebuffer + 544
unfolding log_line
length-log_line level g timebuffer message =
    let type = padded (type_of level) in
    let pid = padded (decimal g.debug_pid) in
    let text = take 511 message ++ newline ∷ [] in
    omega (
      arith,
      length-append timebuffer
          (codes " " ++ (type ++ (codes " [" ++ (pid ++ (codes "] > " ++ text))))),
      length-append type (codes " [" ++ (pid ++ (codes "] > " ++ text))),
      length-append pid (codes "] > " ++ text),
      length-append (take 511 message) (newline ∷ []),
      length-take 511 message,
      length-type_of level,
      length-padded (decimal g.debug_pid) (length-decimal g.debug_pid),
    )
