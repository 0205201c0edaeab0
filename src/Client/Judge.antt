-- ===== src/Client/Judge.antt =====
-- The checks that both loops of network_client.cpp make on a decrypted packet: its version, its
-- checksum and its age.
pub mod Age
pub mod Wire
use nsca_fast.Prelude.{ℕ, ◌-◌, Bool, true, false, ◌&&◌, List, some, u32, ltb, ◌==◌, if◌then◌else◌}
use nsca_fast.Prelude.Int.{ℤ, pos, ltb_ℤ, to_int}
use nsca_fast.Packet.{
  nsca_packet_version_3, packet_version, crc32_value, timestamp, clear_crc, Check, check_of,
}
use nsca_fast.Crc.{crc32_table, calculate_crc32}
use nsca_fast.Client.Settings.{Settings, nonzero}

pub data Verdict : Type 0 where
  invalid_version invalid_crc too_old : Verdict
  accepted : Check → Verdict

-- `packet_diff`: the distance of the two times, cut to an `int`.
unfoldable pub packet_diff : ℕ → ℕ → ℤ
packet_diff received now =
    if ltb now received then to_int (received - now) else to_int (now - received)

-- The condition under which a packet is dropped for its age.
unfoldable pub is_too_old : Settings → ℕ → Bool
unfolding packet_diff
is_too_old s received =
    nonzero s.max_packet_age_enabled
    && ltb_ℤ (pos 0) s.max_packet_age
    && ltb_ℤ s.max_packet_age (packet_diff received s.now)

-- `calculated_crc32` of a packet whose checksum field is cleared.
unfoldable pub calculated_crc : List ℕ → ℕ → ℕ
calculated_crc packet packet_length =
    u32 (calculate_crc32 crc32_table (some (clear_crc packet)) packet_length)

unfoldable pub judge : Settings → List ℕ → ℕ → Verdict
unfolding is_too_old calculated_crc
judge s packet packet_length =
    if packet_version packet == nsca_packet_version_3
    then if calculated_crc packet packet_length == crc32_value packet
      then if is_too_old s (timestamp packet)
        then too_old
        else accepted (check_of (clear_crc packet))
      else invalid_crc
    else invalid_version
