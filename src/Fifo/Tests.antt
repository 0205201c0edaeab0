-- ===== src/Fifo/Tests.antt =====
-- A check of one host, a fifo, and the theorems on them.
use nsca_fast.Prelude.{
  ℕ, ◌<◌, ◌≡◌, ◌↔◌, refl, inr, Bool, true, false, [], ◌∷◌, none, some, All, arith,
}
use nsca_fast.Prelude.Text.{codes, decimal, digits}
use nsca_fast.Packet.{Check}
use nsca_fast.Packet.Layout.{Fits}
use nsca_fast.Fifo.{
  FifoClient, Answers, fifo, opened, Written, written, epipe, command, command_line, init_events,
  open_fifo, write_command,
}
use nsca_fast.Fifo.Stuck.{Opens, results, results_stuck_after_fdopen, command_delivers}

abbrev check : Check
check = record {
  host_name = codes "db";
  svc_description = codes "load";
  return_value = 2;
  plugin_output = codes "high";
}

check-Fits : Fits check
check-Fits = record {
  host_fits = omega arith;
  description_fits = omega arith;
  output_fits = omega arith;
  no_nul = (
    ((λ e. omega arith), ((λ e. omega arith), tt)),
    ((λ e. omega arith), ((λ e. omega arith), ((λ e. omega arith), ((λ e. omega arith), tt)))),
    ((λ e. omega arith), ((λ e. omega arith), ((λ e. omega arith), ((λ e. omega arith), tt)))),
  );
  code_fits = omega arith;
}

abbrev client : FifoClient
client = record { fd = none; fp = false; fifo_path = codes "/run/cmd"; block_fifo_until = 0 }

abbrev answers : Bool → Written → Answers
answers streams w = record { stat = fifo; open_answer = opened 7; fdopen = streams; write = w }

client-Opens : (streams : Bool) (w : Written) → Opens 1000 (answers streams w) client
client-Opens streams w = record {
  not_blocked = omega arith;
  no_descriptor = refl;
  has_path = λ e. cc e;
  is_fifo = refl;
  descriptor = 7;
  opens = refl;
}

line : command_line 1000 check ≡ codes "[1000] PROCESS_SERVICE_CHECK_RESULT;db;load;2;high\n"
unfolding command_line decimal digits
line = refl

results_stuck_after_fdopen_example :
    All
      (λ r. r ≡ false)
      (results
        ((1000, answers false (written 9), check) ∷ (2000, answers true (written 9), check) ∷ [])
        client)
results_stuck_after_fdopen_example =
    results_stuck_after_fdopen 1000 (answers false (written 9)) check
      ((2000, answers true (written 9), check) ∷ []) client (client-Opens false (written 9)) refl

command_delivers_example :
    ((command 1000 (answers true (written 9)) check client).sent ≡ some (command_line 1000 check))
    × (((command 1000 (answers true (written 9)) check client).result ≡ true)
        ↔ ((n : ℕ) × (written 9 ≡ written n) × (0 < n)))
command_delivers_example =
    command_delivers 1000 (answers true (written 9)) check client check-Fits
      (inr (client-Opens true (written 9), refl))

-- A reader that has gone away is noticed, and the next command opens the fifo again.
reopened :
    results
      ((1000, answers true epipe, check) ∷ (1001, answers true (written 9), check) ∷ [])
      client
    ≡ false ∷ true ∷ []
unfolding results command init_events open_fifo write_command
reopened = refl
