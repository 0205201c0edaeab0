-- ===== src/Client/Connection/Tests.antt =====
-- Buffers that are lists, a libmcrypt without ciphers, and the theorems on connections.
use nsca_fast.Prelude.{
  ℕ, ◌+◌, ◌*◌, ◌≤◌, ◌<◌, ◌^◌, ◌≡◌, ◌≢◌, ◌↔◌, refl, Bool, true, false, List, [], ◌∷◌, ◌++◌, none,
  some, length, take, drop, replicate, arith,
}
use nsca_fast.Prelude.Int.{pos}
use nsca_fast.Crypt.Mcrypt.{Mcrypt}
use nsca_fast.Client.Settings.{Settings}
use nsca_fast.Client.Libevent.{Libevent, IsQueue}
use nsca_fast.Client.Connection.{
  Connection, stays, readcb, drain_packet, Counters, eventcb, connection_closed, with_own_ci,
  hand_on, destructor,
}
use nsca_fast.Client.Connection.Unread.{unread_packets}
use nsca_fast.Client.Connection.Old.{eventcb_safe, old_packet_two_reads}
use nsca_fast.Client.Connection.Closing.{handed, connection_closed_released}
use nsca_fast.Crypt.Init.{Globals, Memory, encrypt_init, instance_memory}
use nsca_fast.Client.Connection.Reading.{receive, receive_all}
use nsca_fast.Client.Connection.Framing.{IsFramed, arrived, packet_bytes, receive_all-IsFramed}
use nsca_fast.Client.Judge.Age.{distance, is_too_old_iff}
use nsca_fast.Client.Judge.{is_too_old}

abbrev lists : Libevent
lists = record {
  Evbuffer = List ℕ;
  empty = [];
  get_length = length;
  remove = λ b n. (some (take n b), drop n b);
  add = λ b bytes. b ++ bytes;
}

abbrev lists-IsQueue : IsQueue lists
lists-IsQueue = record {
  contents = λ b. b;
  contents-empty = refl;
  get_length-contents = λ b. refl;
  contents-add = λ b bytes. refl;
  remove_front = λ b n h. (refl, refl);
}

abbrev no_ciphers : Mcrypt
no_ciphers = record {
  Td = ℕ;
  module_open = λ a. none;
  enc_get_iv_size = λ td. 0;
  enc_get_key_size = λ td. 0;
  generic_init = λ td key keysize iv. 0;
  generic = λ td b. (b, td);
  mdecrypt_generic = λ td b. (b, td);
  enc_set_state = λ td state size. td;
  enc_get_state = λ td. ([], 0);
}

abbrev settings : Settings
settings = record {
  password = [];
  decryption_method = 1;
  max_packet_age = pos 30;
  max_packet_age_enabled = pos 1;
  max_checks_per_connection = pos 1;
  nsca_threads_per_worker = pos 0;
  decryption_mode = 1;
  now = 1000;
}

abbrev opened : Connection lists no_ciphers
opened = record {
  init_sent = true;
  transmission_iv = none;
  ci = none;
  has_own_ci = false;
  d_failed = 0;
  d_success = 0;
  bytes_received = 0;
  bytes_drained = 0;
  data_packets = [];
  input = [];
  output = [];
  write_enabled = true;
}

opened-IsFramed : IsFramed lists no_ciphers lists-IsQueue settings [] 0 opened
unfolding packet_bytes
opened-IsFramed = record {
  bytes = refl;
  whole = tt;
  drained_bytes = refl;
  paced = omega arith;
  bounded = omega arith;
  held = omega arith;
}

-- A packet in two reads, the second with two bytes of the next packet.
abbrev reads : List (List ℕ × Bool)
reads = (replicate 4000 7, true) ∷ (replicate 304 7 ++ 1 ∷ 2 ∷ [], true) ∷ []

abbrev one_packet : Connection lists no_ciphers
one_packet = record opened {
  bytes_received = 8306;
  bytes_drained = 4304;
  data_packets = record { receive_packet = replicate 4304 7; packet_length = 4304 } ∷ [];
  input = 1 ∷ 2 ∷ [];
}

read_twice : receive_all lists no_ciphers settings reads opened ≡ stays one_packet
unfolding receive_all receive readcb drain_packet take drop replicate
read_twice = refl

receive_all-IsFramed_example :
    IsFramed lists no_ciphers lists-IsQueue settings
      ([] ++ arrived reads)
      (0 + length reads)
      one_packet
receive_all-IsFramed_example =
    receive_all-IsFramed lists no_ciphers lists-IsQueue settings reads [] 0 opened opened-IsFramed
      read_twice

is_too_old_iff_example :
    (is_too_old settings 900 ≡ true) ↔ ((30 < distance 900 1000) × (distance 900 1000 < 2 ^ 31))
is_too_old_iff_example =
    is_too_old_iff settings 900 30 refl refl (omega arith) (omega arith) (omega arith)

one_packet-IsFramed :
    IsFramed lists no_ciphers lists-IsQueue settings
      ([] ++ arrived reads)
      (0 + length reads)
      one_packet
one_packet-IsFramed =
    receive_all-IsFramed lists no_ciphers lists-IsQueue settings reads [] 0 opened opened-IsFramed
      read_twice

-- Two packets in one read leave one of them unread.
abbrev two_at_once : Connection lists no_ciphers
two_at_once = record opened {
  bytes_received = 8608;
  bytes_drained = 4304;
  data_packets = record { receive_packet = replicate 4304 7; packet_length = 4304 } ∷ [];
  input = replicate 4304 7;
}

abbrev one_read : List (List ℕ × Bool)
one_read = (replicate 8608 7, true) ∷ []

read_once : receive_all lists no_ciphers settings one_read opened ≡ stays two_at_once
unfolding receive_all receive readcb drain_packet take drop replicate
read_once = refl

two_packets_long : 4304 * (length one_read + 1) ≤ length (arrived one_read)
unfolding arrived replicate
two_packets_long = omega arith

unread_packets_example :
    (eventcb lists no_ciphers true two_at_once ≡ some two_at_once)
    × (length two_at_once.data_packets ≤ 1)
    × (4304 * 1 ≤ length two_at_once.input)
unread_packets_example =
    unread_packets lists no_ciphers lists-IsQueue settings one_read 1 true opened two_at_once
      opened-IsFramed read_once (omega arith) two_packets_long

eventcb_safe_example : eventcb lists no_ciphers true one_packet ≢ none
eventcb_safe_example =
    eventcb_safe lists no_ciphers lists-IsQueue settings ([] ++ arrived reads) (0 + length reads)
      true one_packet one_packet-IsFramed

abbrev nines : ℕ → List ℕ
nines n = replicate n 9

length_720 : length (nines 720) ≡ 720
unfolding replicate
length_720 = refl

length_parts : 1 + length (nines 719) ≡ 720
unfolding replicate
length_parts = refl

old_packet_two_reads_example :
    (c' : Connection lists no_ciphers) × (receive_all lists no_ciphers settings
        ((1 ∷ [], true) ∷ (nines 719, true) ∷ [])
        opened
      ≡ stays c')
    × (eventcb lists no_ciphers true c' ≡ some c')
    × (c'.data_packets ≡ [])
    × (c'.input ≡ 1 ∷ nines 719)
old_packet_two_reads_example =
    old_packet_two_reads lists no_ciphers lists-IsQueue settings (1 ∷ []) (nines 719) true true true
      opened refl refl (omega arith) length_parts

abbrev globals : Globals
globals = record {
  random = record { x = 123456789; y = 362436069; z = 521288629 };
  mcrypt_initialized = false;
}

abbrev memory : Memory
memory = record { for_instance = true; for_iv = true; for_key = true }

abbrev counters : Counters
counters = record { connections = 4; counter = 9; message_success = 0; message_failed = 0 }

processed_here :
    handed lists no_ciphers
      (connection_closed lists no_ciphers settings globals memory one_packet counters).0
    ≡ some one_packet
unfolding handed connection_closed with_own_ci hand_on replicate
processed_here = refl

-- The mode in which each connection has an instance of its own.
abbrev private_settings : Settings
private_settings = record settings { decryption_mode = 0 }

abbrev owner : Connection lists no_ciphers
owner = record one_packet {
  ci = (encrypt_init no_ciphers globals memory [] 1 none).instance_pointer;
  has_own_ci = true;
}

handed-owner :
    handed lists no_ciphers
      (connection_closed lists no_ciphers private_settings globals memory one_packet counters).0
    ≡ some owner
unfolding handed connection_closed with_own_ci hand_on replicate encrypt_init
handed-owner = refl

connection_closed_released_example :
    destructor lists no_ciphers 1
      (encrypt_init no_ciphers globals memory [] 1 none).globals.mcrypt_initialized
      owner
    ≡ some (instance_memory ∷ [])
connection_closed_released_example =
    connection_closed_released lists no_ciphers private_settings globals memory one_packet owner
      counters refl handed-owner
