-- ===== src/Client/Queue/Shared.antt =====
-- One crypt instance serves many connections: what a connection's packets become does not depend on
-- the connections before it; and what a sender encrypts with the same key and IV arrives.
use nsca_fast.Prelude.{ℕ, ◌≤◌, ◌<◌, ◌≡◌, refl, sym, ap, ◌∙◌, true, false, List, [], ◌∷◌, some}
use nsca_fast.Crypt.Mcrypt.{Mcrypt, CryptInstance, full}
use nsca_fast.Crypt.Buffer.{stream}
use nsca_fast.Crypt.Buffer.Laws.{Inverts, stream_inverse}
use nsca_fast.Client.Settings.{Settings}
use nsca_fast.Client.Judge.{accepted, judge}
use nsca_fast.Packet.{Check}
use nsca_fast.Client.Deliver.{Delivery}
use nsca_fast.Client.Queue.{Pair, Tally, process_queue_mcrypt}
use nsca_fast.Client.Queue.Spec.{
  Plain, accepted_checks, some_refused, deliver_checks, deliver_plain,
}
use nsca_fast.Client.Queue.Stream.{IsResumable, decrypt_stream, process_queue_mcrypt_lem}

module _ (m : Mcrypt) (d : Delivery) (s : Settings) (thread_id : ℕ)
    (ciphered : 1 < s.decryption_method) (resumable : IsResumable m) where
  -- Two crypt instances that differ only in the states of their streams, which were opened with one
  -- key, process a queue of packets alike: with a shared instance no connection's result depends
  -- on what earlier connections decrypted.
  pub process_queue_mcrypt_shared :
      (packets : List Pair) (ci : CryptInstance m) (t : Tally d.World) (td td' : m.Td) {iv : List ℕ}
      → resumable.Same td td'
      → ci.iv ≡ full iv
      → ci.iv_size ≤ 128
      → process_queue_mcrypt m d s thread_id true packets (some (record ci { td = full td })) t
        ≡ process_queue_mcrypt m d s thread_id true packets (some (record ci { td = full td' })) t
  process_queue_mcrypt_shared packets ci t td td' {iv} same kept fits =
      process_queue_mcrypt_lem m d s thread_id ciphered resumable packets
        (record ci { td = full td }) t refl kept fits
      ∙ ap (λ start. some (deliver_plain d s thread_id (decrypt_stream m start packets) t))
          (resumable.overrides td td' iv ci.iv_size same)
      ∙ sym (
          process_queue_mcrypt_lem m d s thread_id ciphered resumable packets
            (record ci { td = full td' }) t refl kept fits)

-- A sender encrypts its packets one after another with one stream.
unfoldable pub encrypt_stream : (m : Mcrypt) → m.Td → List Plain → List Pair
encrypt_stream m td [] = []
encrypt_stream m td ((packet, n) ∷ packets) =
    record { receive_packet = (stream m.generic td packet).0; packet_length = n }
    ∷ encrypt_stream m (stream m.generic td packet).1 packets

decrypt_stream-encrypt_stream :
    (m : Mcrypt)
    → Inverts m
    → (td : m.Td) (packets : List Plain)
    → decrypt_stream m td (encrypt_stream m td packets) ≡ packets
unfolding decrypt_stream encrypt_stream
decrypt_stream-encrypt_stream m inv td [] = refl
decrypt_stream-encrypt_stream m inv td ((packet, n) ∷ packets) =
    rw (stream_inverse m inv td packet) (
      ap (◌∷◌ (packet, n))
        (decrypt_stream-encrypt_stream m inv (stream m.generic td packet).1 packets))

-- What a list of packets says, if all of them are accepted.
abbrev pub Says : Settings → List Plain → List Check → Type 0
Says s [] [] = Unit
Says s [] (check ∷ checks) = ⊥
Says s ((packet, n) ∷ packets) [] = ⊥
Says s ((packet, n) ∷ packets) (check ∷ checks) =
    (judge s packet n ≡ accepted check) × Says s packets checks

Says-accepted_checks :
    (s : Settings) (packets : List Plain) (checks : List Check)
    → Says s packets checks
    → (accepted_checks s packets ≡ checks) × (some_refused s packets ≡ false)
unfolding accepted_checks some_refused
Says-accepted_checks s [] [] h = (refl, refl)
Says-accepted_checks s [] (check ∷ checks) h = absurd h
Says-accepted_checks s ((packet, n) ∷ packets) [] h = absurd h
Says-accepted_checks s ((packet, n) ∷ packets) (check ∷ checks) h =
    let rest = Says-accepted_checks s packets checks h.1 in
    (rw (h.0, accepted_checks) (ap (◌∷◌ check) rest.0), rw (h.0, some_refused) rest.1)

Says-deliver_plain :
    (d : Delivery) (s : Settings) (thread_id : ℕ) (packets : List Plain) (checks : List Check)
    (t : Tally d.World)
    → Says s packets checks
    → deliver_plain d s thread_id packets t ≡ deliver_checks d thread_id checks t
unfolding deliver_plain
Says-deliver_plain d s thread_id packets checks t h =
    let meant = Says-accepted_checks s packets checks h in rw (meant.0, meant.1) refl

-- When a sender encrypts packets that the daemon accepts, one after another, with the key and the
-- IV of the connection's crypt instance, process_queue_mcrypt recovers them all: it delivers
-- exactly their checks, in order, and refuses none. This holds of every libmcrypt whose
-- mdecrypt_generic inverts its mcrypt_generic and that can put back a state it gave.
pub encrypt_stream_delivered :
    (m : Mcrypt) (d : Delivery) (s : Settings) (thread_id : ℕ)
    → Inverts m
    → IsResumable m
    → 1 < s.decryption_method
    → (packets : List Plain) (checks : List Check) (ci : CryptInstance m) (t : Tally d.World)
      {td : m.Td} {iv : List ℕ}
    → Says s packets checks
    → ci.td ≡ full td
    → ci.iv ≡ full iv
    → ci.iv_size ≤ 128
    → process_queue_mcrypt m d s thread_id true
        (encrypt_stream m (m.enc_set_state td iv ci.iv_size) packets)
        (some ci)
        t
      ≡ some (deliver_checks d thread_id checks t)
encrypt_stream_delivered m d s thread_id inv resumable ciphered packets checks ci t {td} {iv} says
      open_td kept fits =
    process_queue_mcrypt_lem m d s thread_id ciphered resumable _ ci t open_td kept fits
    ∙ ap (λ plain. some (deliver_plain d s thread_id plain t))
        (decrypt_stream-encrypt_stream m inv (m.enc_set_state td iv ci.iv_size) packets)
    ∙ ap some (Says-deliver_plain d s thread_id packets checks t says)
