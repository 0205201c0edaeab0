-- ===== src/Client/Connection/Prefix.antt =====
-- The queue of a connection whose bytes are whole packets one after another: it is the first of
-- these packets.
use nsca_fast.Prelude.{
  append_cancel, ℕ, ◌*◌, ◌≡◌, refl, sym, ap, ap₂, ◌∙◌, List, [], ◌∷◌, ◌++◌, length, length-append,
  take, All, arith,
}
use mathlib.Core.List.{append_assoc}
use nsca_fast.Packet.{sizeof_data_packet}
use nsca_fast.Client.Queue.{Pair}
use nsca_fast.Client.Queue.Sent.{IsWhole}
use nsca_fast.Client.Connection.Framing.{packet_bytes}

pub length-packet_bytes :
    (packets : List Pair)
    → All IsWhole packets
    → length (packet_bytes packets) ≡ sizeof_data_packet * length packets
unfolding packet_bytes
length-packet_bytes [] h = refl
length-packet_bytes (p ∷ packets) h = omega (
  arith,
  length-append p.receive_packet (packet_bytes packets),
  length-packet_bytes packets h.1,
  h.0.0,
)

pub packet_bytes_prefix :
    (queue sent : List Pair) (rest : List ℕ)
    → All IsWhole queue
    → All IsWhole sent
    → packet_bytes queue ++ rest ≡ packet_bytes sent
    → queue ≡ take (length queue) sent
unfolding packet_bytes take
packet_bytes_prefix [] sent rest whole whole' e = refl
packet_bytes_prefix (p ∷ queue) [] rest whole whole' e = absurd (
    omega (
      arith,
      whole.0.0,
      ap length e,
      length-append (p.receive_packet ++ packet_bytes queue) rest,
      length-append p.receive_packet (packet_bytes queue),
    ))
packet_bytes_prefix (p ∷ queue) (p' ∷ sent) rest whole whole' e =
    let (front, behind) =
      append_cancel p.receive_packet (packet_bytes queue ++ rest) p'.receive_packet
        (packet_bytes sent) (whole.0.0 ∙ sym whole'.0.0)
        (sym (append_assoc p.receive_packet (packet_bytes queue) rest) ∙ e) in
    ap₂ ◌∷◌
      (λ i. record { receive_packet = front i; packet_length = (whole.0.1 ∙ sym whole'.0.1) i })
      (packet_bytes_prefix queue sent rest whole.1 whole'.1 behind)
