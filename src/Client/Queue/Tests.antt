-- ===== src/Client/Queue/Tests.antt =====
-- A packet of sixteen bytes, a small libmcrypt and a delivery that keeps a list, on which the
-- theorems about the queue are applied.
use nsca_fast.Prelude.{
  ℕ, ◌+◌, bit_xor, ◌≡◌, refl, true, false, List, [], ◌∷◌, none, some, get_or, arith,
}
use nsca_fast.Prelude.Int.{pos}
use nsca_fast.Prelude.Xor.{bit_xor_cancel}
use nsca_fast.Crypt.Mcrypt.{Mcrypt, CryptInstance, null, full}
use nsca_fast.Crypt.Buffer.Laws.{Inverts}
use nsca_fast.Crc.{
  calculate_crc32, crc32_table, crc_loop, crc_byte, table_entries, shift_rounds, crc_shift,
}
use nsca_fast.Packet.{Check, check_of, packet_version, crc32_value, timestamp, clear_crc}
use nsca_fast.Client.Settings.{Settings}
use nsca_fast.Client.Judge.{accepted, judge}
use nsca_fast.Client.Deliver.{Delivery}
use nsca_fast.Client.Queue.{Pair, Tally, process_queue_nomcrypt, process_queue_mcrypt}
use nsca_fast.Client.Queue.Spec.{deliver_plain, plain_bytes, process_queue_nomcrypt_lem}
use nsca_fast.Client.Queue.Stream.{IsResumable, decrypt_stream, process_queue_mcrypt_lem}

-- A cipher whose state is a counter; the key is not part of the state.
abbrev counter_cipher : Mcrypt
counter_cipher = record {
  Td = ℕ;
  module_open = λ a. some 1;
  enc_get_iv_size = λ td. 2;
  enc_get_key_size = λ td. 3;
  generic_init = λ td key keysize iv. get_or key 0 0 + get_or iv 0 0;
  generic = λ td b. (bit_xor b td, td + 1);
  mdecrypt_generic = λ td b. (bit_xor b td, td + 1);
  enc_set_state = λ td state size. get_or state 0 0;
  enc_get_state = λ td. (td ∷ [], 1);
}

counter_cipher-Inverts : Inverts counter_cipher
counter_cipher-Inverts td b = λ i. (bit_xor_cancel b td i, td + 1)

abbrev counter_cipher_resumable : IsResumable counter_cipher
counter_cipher_resumable = record {
  Same = λ td td'. Unit {0};
  restores = λ td. refl;
  overrides = λ td td' state size same. refl;
}

abbrev keeps_list : Delivery
keeps_list = record {
  World = List Check;
  has_command_file = true;
  has_result_path = false;
  command = λ thread_id check w. (true, check ∷ w);
  write_result = λ check w. (true, w);
}

abbrev settings : ℕ → Settings
settings method = record {
  password = 112 ∷ 119 ∷ [];
  decryption_method = method;
  max_packet_age = pos 30;
  max_packet_age_enabled = pos 0;
  max_checks_per_connection = pos 10;
  nsca_threads_per_worker = pos 0;
  decryption_mode = 1;
  now = 1000;
}

abbrev packet : List ℕ
packet = 0 ∷ 3 ∷ 0 ∷ 0 ∷ 81 ∷ 32 ∷ 170 ∷ 180 ∷ 0 ∷ 0 ∷ 0 ∷ 0 ∷ 0 ∷ 1 ∷ 104 ∷ 0 ∷ []

abbrev check : Check
check = record { host_name = 104 ∷ []; svc_description = []; return_value = 1; plugin_output = [] }

judge-packet : judge (settings 3) packet 16 ≡ accepted check
unfolding judge calculate_crc32 crc32_table crc_loop crc_byte table_entries shift_rounds crc_shift
    packet_version crc32_value timestamp clear_crc check_of
judge-packet = refl

abbrev pair : Pair
pair = record { receive_packet = packet; packet_length = 16 }

abbrev start : Tally (List Check)
start = record { success = 0; failed = 0; world = [] }

abbrev instance_at : ℕ → CryptInstance counter_cipher
instance_at td = record {
  transmitted_iv = 9 ∷ 8 ∷ [];
  td = full td;
  key = full (1 ∷ 2 ∷ 0 ∷ []);
  iv = full (9 ∷ 8 ∷ []);
  blocksize = 1;
  keysize = 3;
  mcrypt_algorithm = null;
  mcrypt_mode = null;
  iv_size = 2;
}

process_queue_nomcrypt_lem_example :
    process_queue_nomcrypt counter_cipher keeps_list (settings 0) 0 (pair ∷ pair ∷ []) none start
    ≡ some (deliver_plain keeps_list (settings 0) 0 ((packet, 16) ∷ (packet, 16) ∷ []) start)
unfolding plain_bytes
process_queue_nomcrypt_lem_example =
    process_queue_nomcrypt_lem counter_cipher keeps_list (settings 0) 0 (pair ∷ pair ∷ []) none
      start (omega arith)

process_queue_mcrypt_lem_example :
    process_queue_mcrypt counter_cipher keeps_list
      (settings 3)
      0
      true
      (pair ∷ [])
      (some (instance_at 4))
      start
    ≡ some (
        deliver_plain keeps_list (settings 3) 0 (decrypt_stream counter_cipher 9 (pair ∷ [])) start)
process_queue_mcrypt_lem_example =
    process_queue_mcrypt_lem counter_cipher keeps_list (settings 3) 0 (omega arith)
      counter_cipher_resumable (pair ∷ []) (instance_at 4) start refl refl (omega arith)
