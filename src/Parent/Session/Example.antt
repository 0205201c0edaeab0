-- ===== src/Parent/Session/Example.antt =====
-- A client with two checks, a small cipher, buffers that are lists, and a command file that takes
-- every line, on which the theorems about sessions are applied.
use nsca_fast.Prelude.{
  ℕ, suc, ◌+◌, bit_xor, ◌≡◌, refl, true, false, List, [], ◌∷◌, ◌++◌, some, get_or, length, take,
  drop, arith,
}
use nsca_fast.Prelude.Int.{pos}
use nsca_fast.Prelude.Xor.{bit_xor_cancel}
use nsca_fast.Crypt.Mcrypt.{Mcrypt}
use nsca_fast.Crypt.Init.{Globals, Memory}
use nsca_fast.Crypt.Buffer.Laws.{Inverts}
use nsca_fast.Packet.{Check}
use nsca_fast.Client.Settings.{Settings}
use nsca_fast.Client.Libevent.{Libevent, IsQueue}
use nsca_fast.Client.Judge.Wire.{IsSendable}
use nsca_fast.Client.Queue.Stream.{IsResumable}
use nsca_fast.Client.Connection.{Counters}
use nsca_fast.Fifo.{fifo, opened, written}
use nsca_fast.Parent.{Outputs, Outside}
use nsca_fast.Parent.Lines.{IsConnected}
use nsca_fast.Parent.Session.{StartsAtIv}

abbrev pub lists : Libevent
lists = record {
  Evbuffer = List ℕ;
  empty = [];
  get_length = length;
  remove = λ b n. (some (take n b), drop n b);
  add = λ b bytes. b ++ bytes;
}

abbrev pub lists-IsQueue : IsQueue lists
lists-IsQueue = record {
  contents = λ b. b;
  contents-empty = refl;
  get_length-contents = λ b. refl;
  contents-add = λ b bytes. refl;
  remove_front = λ b n h. (refl, refl);
}

-- A cipher whose state is a key and a counter, which starts at the IV.
abbrev pub counter_cipher : Mcrypt
counter_cipher = record {
  Td = ℕ × ℕ;
  module_open = λ a. some (0, 0);
  enc_get_iv_size = λ td. 1;
  enc_get_key_size = λ td. 3;
  generic_init = λ td key keysize iv. (get_or key 0 0, get_or iv 0 0);
  generic = λ td b. (bit_xor b (td.0 + td.1), (td.0, td.1 + 1));
  mdecrypt_generic = λ td b. (bit_xor b (td.0 + td.1), (td.0, td.1 + 1));
  enc_set_state = λ td state size. (td.0, get_or state 0 0);
  enc_get_state = λ td. (td.1 ∷ [], 1);
}

pub counter_cipher-Inverts : Inverts counter_cipher
counter_cipher-Inverts td b = λ i. (bit_xor_cancel b (td.0 + td.1) i, (td.0, td.1 + 1))

abbrev pub counter_cipher_resumable : IsResumable counter_cipher
counter_cipher_resumable = record {
  Same = λ td td'. td.0 ≡ td'.0;
  restores = λ td. refl;
  overrides = λ td td' state size same. λ i. (same i, get_or state 0 0);
}

pub counter_cipher-StartsAtIv : StartsAtIv counter_cipher
counter_cipher-StartsAtIv td key iv = refl

abbrev pub settings : ℕ → Settings
settings now = record {
  password = 112 ∷ 119 ∷ [];
  decryption_method = 3;
  max_packet_age = pos 30;
  max_packet_age_enabled = pos 1;
  max_checks_per_connection = pos 10;
  nsca_threads_per_worker = pos 0;
  decryption_mode = 0;
  now = now;
}

abbrev pub globals : Globals
globals = record {
  random = record { x = 123456789; y = 362436069; z = 521288629 };
  mcrypt_initialized = false;
}

abbrev pub enough : Memory
enough = record { for_instance = true; for_iv = true; for_key = true }

abbrev pub down : Check
down = record { host_name = 104 ∷ []; svc_description = []; return_value = 1; plugin_output = [] }

abbrev pub fine : Check
fine = record {
  host_name = 105 ∷ [];
  svc_description = 115 ∷ [];
  return_value = 0;
  plugin_output = 79 ∷ 75 ∷ [];
}

abbrev pub checks : List Check
checks = down ∷ fine ∷ []

pub down-IsSendable : IsSendable down
down-IsSendable = record {
  fits = record {
    host_fits = omega arith;
    description_fits = omega arith;
    output_fits = omega arith;
    no_nul = (((λ e. omega arith), tt), tt, tt);
    code_fits = omega arith;
  };
  bytes = ((omega arith, tt), tt, tt);
}

pub fine-IsSendable : IsSendable fine
fine-IsSendable = record {
  fits = record {
    host_fits = omega arith;
    description_fits = omega arith;
    output_fits = omega arith;
    no_nul = (
      ((λ e. omega arith), tt),
      ((λ e. omega arith), tt),
      ((λ e. omega arith), ((λ e. omega arith), tt)),
    );
    code_fits = omega arith;
  };
  bytes = ((omega arith, tt), (omega arith, tt), (omega arith, (omega arith, tt)));
}

abbrev pub counters : Counters
counters = record { connections = 1; counter = 1; message_success = 5; message_failed = 0 }

abbrev pub takes_all : Outside
takes_all = record {
  now = 1000;
  cnow = [];
  command_file = 99 ∷ [];
  has_result_path = true;
  write_enabled = true;
  fifo_answers =
      λ i. record { stat = fifo; open_answer = opened 7; fdopen = true; write = written (suc i) };
  write_answers = λ i. record {
    allocated = true;
    mkstemp = nsca_fast.ResultPath.Write.made_none;
    fdopen = true;
    fwrite = true;
    stored = 4096;
    fopen_ok = true;
    unlink = true;
  };
}

abbrev pub outputs : Outputs
outputs = record {
  fifo_clients = record { fd = some 7; fp = true; fifo_path = 99 ∷ []; block_fifo_until = 0 } ∷ [];
  lines = [];
  files = [];
  fifo_calls = 0;
  write_calls = 0;
}

pub outputs-IsConnected : IsConnected takes_all 0 outputs
outputs-IsConnected = record {
  in_range = omega arith;
  open_client = record {
    not_blocked = omega arith;
    has_stream = refl;
    descriptor = 7;
    has_descriptor = refl;
  };
}
