-- ===== src/Fifo.antt =====
-- class fifo_client of fifo_client.cpp and fifo_client.h: the command file of Nagios. The answers
-- of the system's calls are a parameter of each operation; `calloc` succeeds. The time is after
-- 1970 and far from the end of `time_t`.
pub mod Line
pub mod Stuck
mod Tests
use nsca_fast.Prelude.{
  ℕ, suc, ◌+◌, ◌-◌, Bool, true, false, not, ◌&&◌, List, [], ◌∷◌, ◌++◌, Option, none, some, length,
  take, ltb, if◌then◌else◌,
}
use nsca_fast.Prelude.Text.{codes, newline, decimal}
use nsca_fast.Packet.{Check, max_hostname_length, max_description_length, max_pluginoutput_length}

-- `parent` is read for the time only, which is an argument. `fd` is -1 for `none`; `fp` says
-- whether the stream is not null.
pub record FifoClient : Type 0 where
  pub fd : Option ℕ
  pub fp : Bool
  pub fifo_path : List ℕ
  pub block_fifo_until : ℕ

pub data Stat : Type 0 where
  fifo : Stat
  other_file : Stat
  stat_error : Stat

pub data Opened : Type 0 where
  opened : ℕ → Opened
  enxio : Opened
  enoent : Opened
  eacces : Opened
  other_error : Opened

pub data Written : Type 0 where
  written : ℕ → Written
  epipe : Written
  write_error : Written

-- What the calls of one `command` answer.
pub record Answers : Type 0 where
  pub stat : Stat
  pub open_answer : Opened
  pub fdopen : Bool
  pub write : Written

-- fifo_client::fifo_client.
unfoldable pub fifo_client : List ℕ → FifoClient
fifo_client path = record { fd = none; fp = false; fifo_path = path; block_fifo_until = 0 }

unfoldable pub block_until : ℕ → FifoClient → FifoClient
block_until time c = record c { block_fifo_until = time }

-- The rest of init_events once the fifo is there: its descriptor is kept also where fdopen fails,
-- after it has been closed.
unfoldable pub open_fifo : ℕ → Answers → FifoClient → FifoClient
unfolding block_until
open_fifo now a c = elim a.open_answer [
  | opened k ↦ record c { fd = some k; fp = a.fdopen; block_fifo_until = 0 }
  | enxio ↦ block_until (now + 3) c
  | enoent ↦ block_until (now + 10) c
  | eacces ↦ block_until (now + 10) c
  | other_error ↦ c
]

-- init_events; its return value is not used.
unfoldable pub init_events : ℕ → Answers → FifoClient → FifoClient
unfolding open_fifo block_until
init_events now a c = elim c.fd [
  | some k ↦ c
  | none ↦ elim c.fifo_path [
    | [] ↦ c
    | _ ∷ _ ↦ elim a.stat [
      | fifo ↦ open_fifo now a c
      | other_file ↦ block_until (now + 60) c
      | stat_error ↦ block_until (now + 60) c
    ]
  ]
]

-- The text that `snprintf` prints, before it is cut.
unfoldable pub command_line : ℕ → Check → List ℕ
unfolding decimal
command_line now check = elim check.svc_description [
  | [] ↦
      codes "["
      ++ (decimal now
          ++ (codes "] PROCESS_HOST_CHECK_RESULT;"
              ++ (check.host_name
                  ++ (codes ";"
                      ++ (decimal check.return_value
                          ++ (codes ";" ++ (check.plugin_output ++ newline ∷ [])))))))
  | _ ∷ _ ↦
      codes "["
      ++ (decimal now
          ++ (codes "] PROCESS_SERVICE_CHECK_RESULT;"
              ++ (check.host_name
                  ++ (codes ";"
                      ++ (check.svc_description
                          ++ (codes ";"
                              ++ (decimal check.return_value
                                  ++ (codes ";" ++ (check.plugin_output ++ newline ∷ [])))))))))
]

abbrev pub maxlen : ℕ
maxlen = max_hostname_length + max_description_length + max_pluginoutput_length + 256

-- The bytes that `write` is given.
unfoldable pub output_buffer : ℕ → Check → List ℕ
unfolding command_line take
output_buffer now check = take (maxlen - 1) (command_line now check)

-- The return value 0 is a `true`; `sent` is what `write` was given.
pub record Commanded : Type 0 where
  pub result : Bool
  pub sent : Option (List ℕ)
  pub client : FifoClient

unfoldable pub write_command : Answers → List ℕ → FifoClient → Commanded
write_command a buffer c = elim a.write [
  | written n ↦ record { result = ltb 0 n; sent = some buffer; client = c }
  | epipe ↦ record {
    result = false;
    sent = some buffer;
    client = record c { fd = none; fp = false };
  }
  | write_error ↦ record { result = false; sent = some buffer; client = c }
]

unfoldable pub command : ℕ → Answers → Check → FifoClient → Commanded
unfolding init_events output_buffer write_command
command now a check c =
    if ltb now c.block_fifo_until
    then record { result = false; sent = none; client = c }
    else (let ready = init_events now a c in
        if ready.fp
        then write_command a (output_buffer now check) ready
        else record { result = false; sent = none; client = ready })
