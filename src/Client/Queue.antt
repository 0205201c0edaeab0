-- ===== src/Client/Queue.antt =====
-- The queue of a connection's packets and its two loops, process_queue_mcrypt and
-- process_queue_nomcrypt of network_client.cpp. The counters stay below 2^31: a connection would
-- have to queue as many packets.
pub mod Spec
pub mod Stream
pub mod Shared
pub mod Sent
mod Tests
use nsca_fast.Prelude.{
  ℕ, zero, suc, ◌+◌, Bool, true, false, List, [], ◌∷◌, Option, none, some, take, ltb, ◌==◌,
  if◌then◌else◌,
}
use nsca_fast.Packet.{Check}
use nsca_fast.Crypt.Mcrypt.{Mcrypt, CryptInstance, Slot, unset, null, full, transmitted_iv_size}
use nsca_fast.Crypt.Buffer.{decrypt_buffer}
use nsca_fast.Client.Settings.{Settings}
use nsca_fast.Client.Judge.{Verdict, invalid_version, invalid_crc, too_old, accepted, judge}
use nsca_fast.Client.Deliver.{Delivery, send_receive_message}

-- data_packet_pair_t.
pub record Pair : Type 0 where
  pub receive_packet : List ℕ
  pub packet_length : ℕ

-- The counters of the connection and what its messages did outside.
pub record Tally (W : Type 0) : Type 0 where
  pub success : ℕ
  pub failed : ℕ
  pub world : W

module _ (d : Delivery) where
  -- `if (rc) d_success++; else d_failed++;`
  unfoldable pub count_message : ℕ → Check → Tally d.World → Tally d.World
  count_message thread_id check t =
      let (sent, w) = send_receive_message d thread_id check t.world in
      if sent
      then record t { success = t.success + 1; world = w }
      else record t { failed = t.failed + 1; world = w }

  abbrev pub count_failed : Tally d.World → Tally d.World
  count_failed t = record t { failed = t.failed + 1 }

module _ (m : Mcrypt) (d : Delivery) (s : Settings) (thread_id : ℕ) where
  -- `none` is undefined behaviour. A packet that is dropped ends the loop; it and those behind it
  -- stay in the queue for the destructor.
  unfoldable pub process_queue_nomcrypt :
      List Pair → Option (CryptInstance m) → Tally d.World → Option (Tally d.World)
  process_queue_nomcrypt [] ci t = some t
  process_queue_nomcrypt (p ∷ packets) ci t =
      elim (decrypt_buffer m p.receive_packet s.password s.decryption_method ci) [
        | none ↦ none
        | some (packet, ci') ↦ elim (judge s packet p.packet_length) [
          | accepted check ↦ process_queue_nomcrypt packets ci' (count_message d thread_id check t)
          | _ ↦ some (count_failed d t)
        ]
      ]

  -- `mcrypt_enc_set_state` on the instance's stream.
  unfoldable pub set_state : CryptInstance m → List ℕ → ℕ → Option (CryptInstance m)
  set_state ci state size = elim ci.td [
    | full td ↦ some (record ci { td = full (m.enc_set_state td state size) })
    | _ ↦ none
  ]

  -- `mcrypt_enc_get_state` of it.
  unfoldable pub get_state : CryptInstance m → Option (List ℕ × ℕ)
  get_state ci = elim ci.td [ full td ↦ some (m.enc_get_state td) | _ ↦ none ]

  -- The loop, with the state that the stream is put into before the next packet.
  unfoldable pub mcrypt_loop :
      List Pair → CryptInstance m → List ℕ → ℕ → Tally d.World → Option (Tally d.World)
  mcrypt_loop [] ci state size t = some t
  mcrypt_loop (p ∷ packets) ci state size t = elim (set_state ci state size) [
    | none ↦ none
    | some ready ↦
        elim (decrypt_buffer m p.receive_packet s.password s.decryption_method (some ready)) [
          | none ↦ none
          | some (packet, none) ↦ none
          | some (packet, some ci') ↦ elim (get_state ci') [
            | none ↦ none
            | some (state', size') ↦ elim (judge s packet p.packet_length) [
              | accepted check ↦
                  mcrypt_loop packets ci' state' size' (count_message d thread_id check t)
              | _ ↦ some (count_failed d t)
            ]
          ]
        ]
  ]

  -- The first packet is decrypted from the instance's IV. Without memory for the state nothing is
  -- processed.
  unfoldable pub process_queue_mcrypt :
      Bool → List Pair → Option (CryptInstance m) → Tally d.World → Option (Tally d.World)
  process_queue_mcrypt false packets ci t = some t
  process_queue_mcrypt true packets none t = none
  process_queue_mcrypt true packets (some ci) t = elim ci.iv [
    | full iv ↦
        if ltb transmitted_iv_size ci.iv_size then none else mcrypt_loop packets ci iv ci.iv_size t
    | _ ↦ none
  ]

  -- Which loop an encryption method takes.
  unfoldable pub process_packets :
      Bool → List Pair → Option (CryptInstance m) → Tally d.World → Option (Tally d.World)
  process_packets allocated packets ci t =
      if ltb 1 s.decryption_method
      then process_queue_mcrypt allocated packets ci t
      else process_queue_nomcrypt packets ci t
