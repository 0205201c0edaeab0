-- ===== src/Network/Tests.antt =====
-- A network that waits for its shutdown, and the theorems on networks.
use nsca_fast.Prelude.{
  ℕ, ◌≡◌, refl, inl, Bool, true, false, List, [], ◌∷◌, ◌++◌, none, some, length, take, drop,
  replicate, arith,
}
use nsca_fast.Crypt.Mcrypt.{Mcrypt, unset, null}
use nsca_fast.Client.Libevent.{Libevent}
use nsca_fast.ResultPath.{Directory}
use nsca_fast.Network.{run, sigint, timer_proxy}
use nsca_fast.Network.Exit.{
  System, with_counters, signals, ticks, Reach, here, next, IsOrderly, Reach-IsOrderly,
}
use nsca_fast.Prelude.Int.{pos}
use nsca_fast.Prelude.Text.{codes}
use nsca_fast.Crypt.Init.{instance_memory, Globals, Memory, transmitted, encrypt_init, blank}
use nsca_fast.Config.{
  Configdata, same_text, find, get_value, get_int, strtol, leading_digits, is_space, to_long,
}
use nsca_fast.Config.Range.{IsChecked}
use nsca_fast.Fifo.{fifo_client}
use nsca_fast.Parent.{fifo_clients_of}
use nsca_fast.Network.Setup.{
  settings_of, Constructed, shared_instance, network, IsUsable, network-IsUsable,
}
use nsca_fast.Network.Ending.{
  network_end, whole_fifo, clients_from, fifo_client_at, fifo_clients_array, crypt_part,
  made_instance, network_end-network,
}
use nsca_fast.Network.Bind.{inet, bind_address, any_address, socket_address, has_colon}
use nsca_fast.Network.Report.{Second, report_seconds, report_seconds-IsReadBack}
use nsca_fast.Statistics.{stat_writer}
use nsca_fast.Statistics.Text.{IsReadBack}

abbrev lists : Libevent
lists = record {
  Evbuffer = List ℕ;
  empty = [];
  get_length = length;
  remove = λ b n. (some (take n b), drop n b);
  add = λ b bytes. b ++ bytes;
}

abbrev no_ciphers : Mcrypt
no_ciphers = record {
  Td = ℕ;
  module_open = λ a. none;
  enc_get_iv_size = λ td. 0;
  enc_get_key_size = λ td. 0;
  generic_init = λ td key keysize iv. 0;
  generic = λ td b. (b, td);
  mdecrypt_generic = λ td b. (b, td);
  enc_set_state = λ td state size. td;
  enc_get_state = λ td. ([], 0);
}

abbrev empty_directory : Directory
empty_directory = record {
  regular_files = 0;
  add_watch = some 5;
  inode = some 1;
  is_directory = true;
  rm_watch = true;
}

abbrev started : System
started = record { network = run 1000 none; open_connections = 0 }

abbrev signalled : System
signalled = record { network = sigint (run 1000 none); open_connections = 0 }

abbrev ended : System
ended = record {
  network = (timer_proxy empty_directory 1001 (sigint (run 1000 none))).1;
  open_connections = 0;
}

signal_and_tick : Reach lists no_ciphers started ended
unfolding run sigint
signal_and_tick = next (next here refl signals) refl (ticks empty_directory 1001 refl)

Reach-IsOrderly_example : IsOrderly ended
Reach-IsOrderly_example = Reach-IsOrderly lists no_ciphers 1000 none signal_and_tick

started_signals : Reach lists no_ciphers started signalled
unfolding run
started_signals = next here refl signals

signalled-IsOrderly : IsOrderly signalled
signalled-IsOrderly = Reach-IsOrderly lists no_ciphers 1000 none started_signals

-- A second connection that gets no bufferevent.
abbrev one_open : System
one_open = record {
  network =
      with_counters
        (record { connections = 1; counter = 1; message_success = 0; message_failed = 0 })
        (run 1000 none);
  open_connections = 1;
}

one_open-IsOrderly : IsOrderly one_open
unfolding run
one_open-IsOrderly = record {
  exact = refl;
  limited = omega arith;
  has_base = refl;
  exit_or_timer = inl (refl, refl);
  shutdown_kept = inl refl;
}

-- A second that ends with one open connection; only the last of five can open the file.
abbrev second_of : ℕ → Bool → Second
second_of counter opens = record {
  counters = record {
    connections = 1;
    counter = counter;
    message_success = 20;
    message_failed = 2;
  };
  directory = empty_directory;
  opens = opens;
}

-- 3, 4, 0, 6 and 2 connections in five seconds.
report_seconds-IsReadBack_example :
    (text : List ℕ) × (find
        (stat_writer [] 1 990 71).path_stat
        (report_seconds
          (stat_writer [] 1 990 71)
          1001
          (second_of 3 false
            ∷ second_of 7 false
            ∷ second_of 7 false
            ∷ second_of 13 false
            ∷ second_of 15 true
            ∷ [])
          (run 1000 none, [])).1
      ≡ some text)
    × IsReadBack
        (stat_writer [] 1 990 71)
        (record {
          now = 1005;
          cps = 3;
          connections = 1;
          counter = 15;
          report_success = 20;
          report_failed = 2;
        })
        text
unfolding run replicate stat_writer
report_seconds-IsReadBack_example =
    report_seconds-IsReadBack 1001 (run 1000 none) (second_of 3 false) (second_of 7 false)
      (second_of 7 false) (second_of 13 false) (second_of 15 true) [] 1 990 71 [] refl refl
      (
        omega arith,
        omega arith,
        (
          omega arith,
          omega arith,
          (omega arith, omega arith, (omega arith, omega arith, (omega arith, omega arith, tt))),
        ),
      )
      refl
      record {
        pid_fits = omega arith;
        started_fits = omega arith;
        now_fits = omega arith;
        cps_fits = omega arith;
        connections_fits = omega arith;
        counter_fits = omega arith;
        success_fits = omega arith;
        failed_fits = omega arith;
      }

abbrev configuration : Configdata
configuration =
    (codes "decryption_mode", codes "1") ∷ (codes "command_file", codes "/run/nagios.cmd") ∷ []

configuration-IsChecked : IsChecked configuration
unfolding get_int find same_text
configuration-IsChecked = record {
  age_in_range = refl;
  threads_in_range = refl;
  checks_positive = refl;
  files_not_negative = refl;
  method_known = refl;
}

abbrev globals : Globals
globals = record { random = record { x = 1; y = 2; z = 3 }; mcrypt_initialized = false }

abbrev memory : Memory
memory = record { for_instance = true; for_iv = true; for_key = true }

abbrev constructed : Constructed no_ciphers
constructed = record {
  settings = record {
    password = [];
    decryption_method = 0;
    max_packet_age = pos 0;
    max_packet_age_enabled = pos 0;
    max_checks_per_connection = pos 1;
    nsca_threads_per_worker = pos 0;
    decryption_mode = 1;
    now = 1000;
  };
  fifo_clients =
      record { fd = none; fp = false; fifo_path = codes "/run/nagios.cmd"; block_fifo_until = 0 }
      ∷ [];
  has_result_path = false;
  use_network_ci = true;
  ci = some record {
    transmitted_iv = 5 ∷ [];
    td = unset;
    key = unset;
    iv = unset;
    blocksize = 1;
    keysize = 7;
    mcrypt_algorithm = null;
    mcrypt_mode = null;
    iv_size = 0;
  };
}

network_made : network no_ciphers globals memory (5 ∷ []) 1000 configuration ≡ some constructed
unfolding network settings_of shared_instance encrypt_init blank fifo_clients_of get_value get_int
    find same_text strtol leading_digits is_space to_long replicate fifo_client take transmitted
network_made = refl

network-IsUsable_example : IsUsable no_ciphers (codes "/run/nagios.cmd") constructed
unfolding get_value
network-IsUsable_example =
    network-IsUsable no_ciphers globals memory (5 ∷ []) 1000 configuration constructed
      configuration-IsChecked network_made

network_end-network_example :
    network_end no_ciphers
      (made_instance no_ciphers globals memory
        (5 ∷ [])
        1000
        configuration).globals.mcrypt_initialized
      constructed
    ≡ some (fifo_client_at 0 ∷ fifo_clients_array ∷ crypt_part instance_memory ∷ [])
unfolding settings_of get_int find same_text strtol leading_digits is_space to_long whole_fifo
    clients_from
network_end-network_example =
    network_end-network no_ciphers globals memory (5 ∷ []) 1000 configuration constructed
      configuration-IsChecked network_made

-- A host name, which inet_pton does not read.
abbrev addresses : Configdata
addresses = (codes "server_address", codes "db") ∷ (codes "server_port", codes "71203") ∷ []

bound_anywhere :
    bind_address (λ family text. none) addresses
    ≡ record { family = inet; address = 0 ∷ 0 ∷ 0 ∷ 0 ∷ []; port = 5667 }
unfolding bind_address any_address socket_address has_colon get_value get_int find same_text strtol
    leading_digits is_space to_long replicate
bound_anywhere = refl
