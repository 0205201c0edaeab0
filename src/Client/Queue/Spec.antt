-- ===== src/Client/Queue/Spec.antt =====
-- What a queue of packets is meant to do: the checks before the first packet that is refused are
-- delivered in order, that packet counts as one failure, and the packets behind it count as
-- nothing. process_queue_nomcrypt of network_client.cpp does this with packets that are plain or
-- exclusive-ored.
use nsca_fast.Prelude.{
  ℕ, ◌≤◌, ◌≡◌, refl, sym, ap, inl, inr, Bool, true, false, List, [], ◌∷◌, Option, none, some, map,
  ◌==◌, if◌then◌else◌, arith, Bool-cases,
}
use nsca_fast.Packet.{Check}
use nsca_fast.Crypt.Mcrypt.{Mcrypt, CryptInstance, encrypt_none, encrypt_xor}
use nsca_fast.Crypt.Buffer.{xor_buffer, decrypt_buffer, encrypt_buffer}
use nsca_fast.Client.Settings.{Settings}
use nsca_fast.Client.Judge.{Verdict, invalid_version, invalid_crc, too_old, accepted, judge}
use nsca_fast.Client.Deliver.{Delivery}
use nsca_fast.Client.Queue.{Pair, Tally, count_message, count_failed, process_queue_nomcrypt}

-- A decrypted packet and its length.
abbrev pub Plain : Type 0
Plain = List ℕ × ℕ

-- The checks of the packets before the first one that is refused.
unfoldable pub accepted_checks : Settings → List Plain → List Check
accepted_checks s [] = []
accepted_checks s ((packet, n) ∷ rest) = elim (judge s packet n) [
  | accepted check ↦ check ∷ accepted_checks s rest
  | _ ↦ []
]

unfoldable pub some_refused : Settings → List Plain → Bool
some_refused s [] = false
some_refused s ((packet, n) ∷ rest) = elim (judge s packet n) [
  | accepted check ↦ some_refused s rest
  | _ ↦ true
]

module _ (d : Delivery) where
  -- Every check is handed to the command file or the result path, in order.
  unfoldable pub deliver_checks : ℕ → List Check → Tally d.World → Tally d.World
  deliver_checks thread_id [] t = t
  deliver_checks thread_id (check ∷ checks) t =
      deliver_checks thread_id checks (count_message d thread_id check t)

  unfoldable pub deliver_plain : Settings → ℕ → List Plain → Tally d.World → Tally d.World
  deliver_plain s thread_id packets t =
      let delivered = deliver_checks thread_id (accepted_checks s packets) t in
      if some_refused s packets then count_failed d delivered else delivered

  pub deliver_plain_nil :
      (s : Settings) (thread_id : ℕ) (t : Tally d.World) → deliver_plain s thread_id [] t ≡ t
  unfolding deliver_plain deliver_checks accepted_checks some_refused
  deliver_plain_nil s thread_id t = refl

  module _ (s : Settings) (thread_id : ℕ) (packet : List ℕ) (n : ℕ) (rest : List Plain)
      (t : Tally d.World) (after : Tally d.World → Option (Tally d.World))
      (meant : (u : Tally d.World) → after u ≡ some (deliver_plain s thread_id rest u)) where
    by_verdict :
        (v : Verdict)
        → judge s packet n ≡ v
        → elim v [
          | accepted check ↦ after (count_message d thread_id check t)
          | _ ↦ some (count_failed d t)
        ]
          ≡ some (deliver_plain s thread_id ((packet, n) ∷ rest) t)
    unfolding deliver_plain deliver_checks accepted_checks some_refused
    by_verdict invalid_version e = rw (e, accepted_checks, some_refused) refl
    by_verdict invalid_crc e = rw (e, accepted_checks, some_refused) refl
    by_verdict too_old e = rw (e, accepted_checks, some_refused) refl
    by_verdict (accepted check) e =
        rw (e, accepted_checks, some_refused) (meant (count_message d thread_id check t))

    -- One round of a loop, and what it does after an accepted packet, against the specification.
    pub deliver_plain_cons :
        elim (judge s packet n) [
          | accepted check ↦ after (count_message d thread_id check t)
          | _ ↦ some (count_failed d t)
        ]
        ≡ some (deliver_plain s thread_id ((packet, n) ∷ rest) t)
    deliver_plain_cons = by_verdict (judge s packet n) refl

-- What decrypt_buffer makes of a packet's bytes without a cipher.
unfoldable pub plain_bytes : {m : Mcrypt} → Settings → Option (CryptInstance m) → List ℕ → List ℕ
plain_bytes s none bytes = bytes
plain_bytes s (some ci) bytes =
    if s.decryption_method == encrypt_none
    then bytes
    else xor_buffer ci.transmitted_iv s.password bytes

decrypt-plain_bytes :
    (m : Mcrypt) (s : Settings) (ci : Option (CryptInstance m)) (bytes : List ℕ)
    → s.decryption_method ≤ 1
    → decrypt_buffer m bytes s.password s.decryption_method ci ≡ some (plain_bytes s ci bytes, ci)
unfolding decrypt_buffer encrypt_buffer plain_bytes
decrypt-plain_bytes m s none bytes h = refl
decrypt-plain_bytes m s (some ci) bytes h =
    elim (Bool-cases (s.decryption_method == encrypt_none)) [
      | inl plain ↦ rw plain refl
      | inr ciphered ↦ rw (ciphered, xored ciphered) refl
    ]
  where
    xored : s.decryption_method == encrypt_none ≡ false → s.decryption_method == encrypt_xor ≡ true
    xored e = ground arith

abbrev pub plain_pairs : {m : Mcrypt} → Settings → Option (CryptInstance m) → List Pair → List Plain
plain_pairs s ci = map (λ p. (plain_bytes s ci p.receive_packet, p.packet_length))

-- Without a cipher process_queue_nomcrypt is never undefined: it delivers, in order, the checks of
-- the packets before the first one that is refused, and counts that one as a failure and nothing
-- behind it. A packet's bytes are taken as they are, or with the exclusive or undone.
pub process_queue_nomcrypt_lem :
    (m : Mcrypt) (d : Delivery) (s : Settings) (thread_id : ℕ) (packets : List Pair)
    (ci : Option (CryptInstance m)) (t : Tally d.World)
    → s.decryption_method ≤ 1
    → process_queue_nomcrypt m d s thread_id packets ci t
      ≡ some (deliver_plain d s thread_id (plain_pairs s ci packets) t)
unfolding process_queue_nomcrypt
process_queue_nomcrypt_lem m d s thread_id [] ci t h =
    ap some (sym (deliver_plain_nil d s thread_id t))
process_queue_nomcrypt_lem m d s thread_id (p ∷ packets) ci t h =
    rw (decrypt-plain_bytes m s ci p.receive_packet h, process_queue_nomcrypt)
      (deliver_plain_cons d s thread_id (plain_bytes s ci p.receive_packet) p.packet_length
        (plain_pairs s ci packets) t (process_queue_nomcrypt m d s thread_id packets ci)
        (λ u. process_queue_nomcrypt_lem m d s thread_id packets ci u h))
