-- ===== src/Client/Judge/Wire.antt =====
-- The judgement of the packets that a client of the protocol makes: laid out as the struct of
-- nsca_common.h says, with the CRC-32 of the packet whose checksum is 0.
use nsca_fast.Prelude.{
  ℕ, ◌^◌, ◌<◌, ◌≡◌, refl, ap, subst, ◌∙◌, true, false, List, some, take, take-length, IsBytes, ◌==◌,
  arith, u32,
}
use nsca_fast.Packet.{
  Check, check_of, sizeof_data_packet, packet_version, crc32_value, timestamp, clear_crc,
  nsca_packet_version_3,
}
use nsca_fast.Packet.Layout.{Fits}
use nsca_fast.Packet.Wire.{
  laid_out, length-laid_out, check_of-laid_out, laid_out-IsBytes, header-laid_out,
}
use nsca_fast.Crc.{crc32_table, calculate_crc32}
use nsca_fast.Crc.Serial.{crc32_serial, calculate_crc32-crc32_serial}
use nsca_fast.Client.Settings.{Settings}
use nsca_fast.Client.Judge.{accepted, judge, is_too_old, calculated_crc}

-- A check whose texts fit in a packet, and are bytes.
pub record IsSendable (c : Check) : Type 0 where
  pub fits : Fits c
  pub bytes : IsBytes c.host_name × IsBytes c.svc_description × IsBytes c.plugin_output

-- The packet of a check at a time.
unfoldable pub packet_of : ℕ → Check → List ℕ
packet_of time c = laid_out (crc32_serial (laid_out 0 time c)) time c

-- The checksum that the daemon calculates of a packet, whatever stands in its checksum field.
calculated_crc-laid_out :
    (crc time : ℕ) (c : Check)
    → IsSendable c
    → crc < 2 ^ 32
    → time < 2 ^ 32
    → (calculated_crc (laid_out crc time c) sizeof_data_packet ≡ crc32_serial (laid_out 0 time c))
      × (crc32_serial (laid_out 0 time c) < 2 ^ 32)
unfolding calculated_crc
calculated_crc-laid_out crc time c ready small young =
    let header = header-laid_out crc time c small young in
    let serial =
      calculate_crc32-crc32_serial (laid_out 0 time c) sizeof_data_packet
        (laid_out-IsBytes 0 time c ready.bytes.0 ready.bytes.1 ready.bytes.2) in
    let whole : take sizeof_data_packet (laid_out 0 time c) ≡ laid_out 0 time c =
      take-length (laid_out 0 time c) sizeof_data_packet
        (omega (arith, length-laid_out 0 time c ready.fits)) in
    let value = serial.0 ∙ ap crc32_serial whole in
    let small' : crc32_serial (laid_out 0 time c) < 2 ^ 32 =
      subst (λ v. v < 2 ^ 32) value serial.1 in
    (
      ap (λ p. u32 (calculate_crc32 crc32_table (some p) sizeof_data_packet)) header.3
          ∙ ap u32 value
          ∙ omega (arith, small'),
      small',
    )

judge-accepted :
    (s : Settings) (packet : List ℕ) (n : ℕ)
    → packet_version packet == nsca_packet_version_3 ≡ true
    → calculated_crc packet n == crc32_value packet ≡ true
    → is_too_old s (timestamp packet) ≡ false
    → judge s packet n ≡ accepted (check_of (clear_crc packet))
unfolding judge
judge-accepted s packet n version crc fresh = rw (version, crc, fresh) refl

-- A packet that a client makes of a check whose texts fit, at a time that is not too old for the
-- daemon, is accepted, and what the daemon takes out of it is the check, with every text and the
-- return code as they were sent.
pub judge-packet_of :
    (s : Settings) (time : ℕ) (c : Check)
    → IsSendable c
    → time < 2 ^ 32
    → is_too_old s time ≡ false
    → judge s (packet_of time c) sizeof_data_packet ≡ accepted c
unfolding packet_of
judge-packet_of s time c ready young fresh =
    let crc = crc32_serial (laid_out 0 time c) in
    let small = (calculated_crc-laid_out 0 time c ready (omega arith) young).1 in
    let header = header-laid_out crc time c small young in
    let value = (calculated_crc-laid_out crc time c ready small young).0 in
    judge-accepted s (laid_out crc time c) sizeof_data_packet (rw header.0 refl)
      (ground (arith, value, header.1)) (ap (is_too_old s) header.2 ∙ fresh)
    ∙ ap (λ p. accepted (check_of p)) header.3
    ∙ ap accepted (check_of-laid_out 0 time c ready.fits)
