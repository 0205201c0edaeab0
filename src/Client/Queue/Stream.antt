-- ===== src/Client/Queue/Stream.antt =====
-- process_queue_mcrypt of network_client.cpp: a connection's packets are one stream of the cipher.
use nsca_fast.Prelude.{
  ℕ, ◌≤◌, ◌<◌, ◌≡◌, refl, sym, ap, ◌∙◌, true, false, List, [], ◌∷◌, some, ◌==◌, arith,
}
use nsca_fast.Crypt.Mcrypt.{Mcrypt, CryptInstance, full, encrypt_none, encrypt_xor}
use nsca_fast.Crypt.Buffer.{stream, decrypt_buffer}
use nsca_fast.Crypt.Buffer.Laws.{stream_buffer_open}
use nsca_fast.Client.Settings.{Settings}
use nsca_fast.Client.Deliver.{Delivery}
use nsca_fast.Client.Queue.{Pair, Tally, set_state, get_state, mcrypt_loop, process_queue_mcrypt}
use nsca_fast.Client.Queue.Spec.{Plain, deliver_plain, deliver_plain_nil, deliver_plain_cons}

-- What the documentation of libmcrypt says of the state of a stream. `Same` relates two states of
-- streams that were opened with one key: a state that was read can be put back, what is put in does
-- not depend on what was there, and a stream keeps its key.
pub record IsResumable (m : Mcrypt) : Type 1 where
  pub Same : m.Td → m.Td → Type 0
  pub restores : (td : m.Td) → m.enc_set_state td (m.enc_get_state td).0 (m.enc_get_state td).1 ≡ td
  pub overrides :
      (td td' : m.Td) (state : List ℕ) (size : ℕ)
      → Same td td'
      → m.enc_set_state td state size ≡ m.enc_set_state td' state size

module _ (m : Mcrypt) where
  -- The packets decrypted one after another, by one stream.
  unfoldable pub decrypt_stream : m.Td → List Pair → List Plain
  decrypt_stream td [] = []
  decrypt_stream td (p ∷ packets) =
      let (bytes, td') = stream m.mdecrypt_generic td p.receive_packet in
      (bytes, p.packet_length) ∷ decrypt_stream td' packets

  decrypt_buffer-stream :
      (bytes password : List ℕ) (method : ℕ) (ci : CryptInstance m) (td : m.Td)
      → 1 < method
      → decrypt_buffer m bytes password method (some (record ci { td = full td }))
        ≡ some (
          (stream m.mdecrypt_generic td bytes).0,
          some (record ci { td = full (stream m.mdecrypt_generic td bytes).1 }),
        )
  unfolding decrypt_buffer
  decrypt_buffer-stream bytes password method ci td h =
      rw
        (
          plain,
          xored,
          stream_buffer_open m m.mdecrypt_generic bytes (record ci { td = full td }) {td = td} refl,
        )
        refl
    where
      plain : method == encrypt_none ≡ false
      plain = ground arith

      xored : method == encrypt_xor ≡ false
      xored = ground arith

  module _ (d : Delivery) (s : Settings) (thread_id : ℕ) (ciphered : 1 < s.decryption_method)
      (resumable : IsResumable m) where
    mcrypt_loop_lem :
        (packets : List Pair) (ci : CryptInstance m) (td now : m.Td) (state : List ℕ) (size : ℕ)
        (t : Tally d.World)
        → m.enc_set_state td state size ≡ now
        → mcrypt_loop m d s thread_id packets (record ci { td = full td }) state size t
          ≡ some (deliver_plain d s thread_id (decrypt_stream now packets) t)
    unfolding mcrypt_loop decrypt_stream set_state get_state
    mcrypt_loop_lem [] ci td now state size t e = ap some (sym (deliver_plain_nil d s thread_id t))
    mcrypt_loop_lem (p ∷ packets) ci td now state size t e =
        rw
          (
            e,
            mcrypt_loop,
            decrypt_buffer-stream p.receive_packet s.password s.decryption_method ci now ciphered,
          )
          (deliver_plain_cons d s thread_id bytes p.packet_length (decrypt_stream next packets) t
            (mcrypt_loop m d s thread_id packets (record ci { td = full next })
              (m.enc_get_state next).0 (m.enc_get_state next).1)
            (λ u.
              mcrypt_loop_lem packets ci next next (m.enc_get_state next).0 (m.enc_get_state next).1
                u (resumable.restores next)))
      where
        bytes : List ℕ
        bytes = (stream m.mdecrypt_generic now p.receive_packet).0

        next : m.Td
        next = (stream m.mdecrypt_generic now p.receive_packet).1

    -- With a cipher, an open stream and an IV of at most 128 bytes, process_queue_mcrypt is not
    -- undefined: it decrypts the packets as one stream that starts from the instance's IV, and
    -- delivers, in order, the checks of the packets before the first one that is refused, which
    -- counts as one failure. This holds of every libmcrypt that can put back a state it gave.
    pub process_queue_mcrypt_lem :
        (packets : List Pair) (ci : CryptInstance m) (t : Tally d.World) {td : m.Td} {iv : List ℕ}
        → ci.td ≡ full td
        → ci.iv ≡ full iv
        → ci.iv_size ≤ 128
        → process_queue_mcrypt m d s thread_id true packets (some ci) t
          ≡ some (
              deliver_plain d s thread_id
                (decrypt_stream (m.enc_set_state td iv ci.iv_size) packets)
                t)
    unfolding process_queue_mcrypt
    process_queue_mcrypt_lem packets ci t {td} {iv} open_td kept fits =
        enters
        ∙ ap (λ c. mcrypt_loop m d s thread_id packets c iv ci.iv_size t) same
        ∙ mcrypt_loop_lem packets ci td (m.enc_set_state td iv ci.iv_size) iv ci.iv_size t refl
      where
        same : ci ≡ record ci { td = full td }
        same = λ i. record ci { td = open_td i }

        enters :
            process_queue_mcrypt m d s thread_id true packets (some ci) t
            ≡ mcrypt_loop m d s thread_id packets ci iv ci.iv_size t
        enters = ground arith
