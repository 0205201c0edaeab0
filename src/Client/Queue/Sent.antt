-- ===== src/Client/Queue/Sent.antt =====
-- The packets that a client of the protocol sends: those of its checks, one after another, in one
-- stream of the cipher.
use nsca_fast.Prelude.{
  ℕ, zero, suc, ◌^◌, ◌<◌, ◌≡◌, refl, ap, ◌∙◌, false, List, [], ◌∷◌, length, take, All,
}
use nsca_fast.Packet.{Check, sizeof_data_packet}
use nsca_fast.Packet.Wire.{length-laid_out}
use nsca_fast.Crypt.Mcrypt.{Mcrypt}
use nsca_fast.Crypt.Buffer.{stream}
use nsca_fast.Client.Settings.{Settings}
use nsca_fast.Client.Judge.{is_too_old}
use nsca_fast.Client.Judge.Wire.{IsSendable, packet_of, judge-packet_of}
use nsca_fast.Client.Queue.{Pair}
use nsca_fast.Client.Queue.Spec.{Plain}
use nsca_fast.Client.Queue.Shared.{Says, encrypt_stream}

unfoldable pub packets_of : ℕ → List Check → List Plain
packets_of time [] = []
packets_of time (check ∷ checks) =
    (packet_of time check, sizeof_data_packet) ∷ packets_of time checks

pub packets_of-Says :
    (s : Settings) (time : ℕ) (checks : List Check)
    → All IsSendable checks
    → time < 2 ^ 32
    → is_too_old s time ≡ false
    → Says s (packets_of time checks) checks
unfolding packets_of
packets_of-Says s time [] ready young fresh = tt
packets_of-Says s time (check ∷ checks) ready young fresh = (
  judge-packet_of s time check ready.0 young fresh,
  packets_of-Says s time checks ready.1 young fresh,
)

length-packet_of :
    (time : ℕ) (check : Check)
    → IsSendable check
    → length (packet_of time check) ≡ sizeof_data_packet
unfolding packet_of
length-packet_of time check ready = length-laid_out _ time check ready.fits

length-stream :
    {T : Type 0} (cipher : T → ℕ → ℕ × T) (td : T) (bytes : List ℕ)
    → length (stream cipher td bytes).0 ≡ length bytes
unfolding stream
length-stream cipher td [] = refl
length-stream cipher td (b ∷ bytes) = ap suc (length-stream cipher (cipher td b).1 bytes)

-- A packet of the current format.
abbrev pub IsWhole : Pair → Type 0
IsWhole p = (length p.receive_packet ≡ sizeof_data_packet) × (p.packet_length ≡ sizeof_data_packet)

pub encrypt_stream-IsWhole :
    (m : Mcrypt) (td : m.Td) (time : ℕ) (checks : List Check)
    → All IsSendable checks
    → All IsWhole (encrypt_stream m td (packets_of time checks))
unfolding encrypt_stream packets_of
encrypt_stream-IsWhole m td time [] ready = tt
encrypt_stream-IsWhole m td time (check ∷ checks) ready = (
  (length-stream m.generic td (packet_of time check) ∙ length-packet_of time check ready.0, refl),
  encrypt_stream-IsWhole m (stream m.generic td (packet_of time check)).1 time checks ready.1,
)

-- The first packets are the packets of the first checks.
pub take-encrypt_stream :
    (n : ℕ) (m : Mcrypt) (td : m.Td) (time : ℕ) (checks : List Check)
    → take n (encrypt_stream m td (packets_of time checks))
      ≡ encrypt_stream m td (packets_of time (take n checks))
unfolding take encrypt_stream packets_of
take-encrypt_stream zero m td time checks = refl
take-encrypt_stream (suc n) m td time [] = refl
take-encrypt_stream (suc n) m td time (check ∷ checks) =
    ap
      (◌∷◌ record {
        receive_packet = (stream m.generic td (packet_of time check)).0;
        packet_length = sizeof_data_packet;
      })
      (take-encrypt_stream n m (stream m.generic td (packet_of time check)).1 time checks)

pub length-encrypt_stream :
    (m : Mcrypt) (td : m.Td) (time : ℕ) (checks : List Check)
    → length (encrypt_stream m td (packets_of time checks)) ≡ length checks
unfolding encrypt_stream packets_of
length-encrypt_stream m td time [] = refl
length-encrypt_stream m td time (check ∷ checks) =
    ap suc (length-encrypt_stream m (stream m.generic td (packet_of time check)).1 time checks)
