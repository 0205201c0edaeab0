-- ===== src/Parent/Tests.antt =====
-- Two packets, of which the second is refused, a command file that takes every line, and the theorem
-- on lines.
use nsca_fast.Prelude.{ℕ, suc, ◌≡◌, refl, true, List, [], ◌∷◌, none, some, arith}
use nsca_fast.Prelude.Int.{pos}
use nsca_fast.Crc.{
  calculate_crc32, crc32_table, crc_loop, crc_byte, table_entries, shift_rounds, crc_shift,
}
use nsca_fast.Packet.{Check, check_of, packet_version, crc32_value, timestamp, clear_crc}
use nsca_fast.Packet.Layout.{Fits}
use nsca_fast.Crypt.Mcrypt.{Mcrypt}
use nsca_fast.Client.Settings.{Settings}
use nsca_fast.Client.Judge.{judge}
use nsca_fast.Client.Queue.{Pair, Tally, process_queue_nomcrypt}
use nsca_fast.Client.Queue.Spec.{accepted_checks, some_refused, plain_bytes}
use nsca_fast.Fifo.{FifoClient, fifo, opened, written, command_line}
use nsca_fast.Parent.{Outputs, Outside, parent_delivery}
use nsca_fast.Parent.Lines.{IsConnected, process_queue_nomcrypt_lines}

abbrev no_ciphers : Mcrypt
no_ciphers = record {
  Td = ℕ;
  module_open = λ a. none;
  enc_get_iv_size = λ td. 0;
  enc_get_key_size = λ td. 0;
  generic_init = λ td key keysize iv. 0;
  generic = λ td b. (b, td);
  mdecrypt_generic = λ td b. (b, td);
  enc_set_state = λ td state size. td;
  enc_get_state = λ td. ([], 0);
}

abbrev settings : Settings
settings = record {
  password = [];
  decryption_method = 0;
  max_packet_age = pos 30;
  max_packet_age_enabled = pos 0;
  max_checks_per_connection = pos 10;
  nsca_threads_per_worker = pos 0;
  decryption_mode = 1;
  now = 1000;
}

abbrev packet : List ℕ
packet = 0 ∷ 3 ∷ 0 ∷ 0 ∷ 81 ∷ 32 ∷ 170 ∷ 180 ∷ 0 ∷ 0 ∷ 0 ∷ 0 ∷ 0 ∷ 1 ∷ 104 ∷ 0 ∷ []

abbrev packets : List Pair
packets =
    record { receive_packet = packet; packet_length = 16 }
    ∷ record { receive_packet = 0 ∷ 9 ∷ []; packet_length = 2 }
    ∷ []

abbrev takes_all : Outside
takes_all = record {
  now = 1000;
  cnow = [];
  command_file = 99 ∷ [];
  has_result_path = true;
  write_enabled = true;
  fifo_answers =
      λ i. record { stat = fifo; open_answer = opened 7; fdopen = true; write = written (suc i) };
  write_answers = λ i. record {
    allocated = true;
    mkstemp = nsca_fast.ResultPath.Write.made_none;
    fdopen = true;
    fwrite = true;
    stored = 4096;
    fopen_ok = true;
    unlink = true;
  };
}

abbrev open_client : FifoClient
open_client = record { fd = some 7; fp = true; fifo_path = 99 ∷ []; block_fifo_until = 0 }

abbrev outputs : Outputs
outputs = record {
  fifo_clients = open_client ∷ [];
  lines = [];
  files = [];
  fifo_calls = 0;
  write_calls = 0;
}

abbrev begun : Tally Outputs
begun = record { success = 0; failed = 0; world = outputs }

outputs-IsConnected : IsConnected takes_all 0 outputs
outputs-IsConnected = record {
  in_range = omega arith;
  open_client = record {
    not_blocked = omega arith;
    has_stream = refl;
    descriptor = 7;
    has_descriptor = refl;
  };
}

abbrev check : Check
check = record { host_name = 104 ∷ []; svc_description = []; return_value = 1; plugin_output = [] }

check-Fits : Fits check
check-Fits = record {
  host_fits = omega arith;
  description_fits = omega arith;
  output_fits = omega arith;
  no_nul = (((λ e. omega arith), tt), tt, tt);
  code_fits = omega arith;
}

process_queue_nomcrypt_lines_example :
    (u : Tally Outputs) × (process_queue_nomcrypt no_ciphers
        (parent_delivery takes_all)
        settings
        0
        packets
        none
        begun
      ≡ some u)
    × (u.world.lines ≡ command_line 1000 check ∷ [])
    × (u.world.files ≡ [])
    × (u.success ≡ 1)
    × (u.failed ≡ 1)
unfolding accepted_checks some_refused plain_bytes judge calculate_crc32 crc32_table crc_loop
    crc_byte table_entries shift_rounds crc_shift packet_version crc32_value timestamp clear_crc
    check_of
process_queue_nomcrypt_lines_example =
    process_queue_nomcrypt_lines takes_all 0 refl (λ i. (suc i, refl, omega arith)) no_ciphers
      settings packets none begun (omega arith) (check-Fits, tt) outputs-IsConnected
