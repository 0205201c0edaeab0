-- ===== src/Packet.antt =====
-- nsca_common.h: struct data_packet_struct and struct init_packet_struct as the bytes that travel,
-- at the offsets that the compiler gives the fields (int16_t, two bytes of padding, two u_int32_t,
-- int16_t, three arrays of char, two bytes of padding), and the reads and writes of their fields in
-- network_client.cpp. The daemon runs on a little-endian machine, so that `ntohs` and `ntohl` of a
-- field are its bytes read from the highest.
pub mod Layout
pub mod Wire
mod Tests
use nsca_fast.Prelude.{
  ℕ, zero, suc, ◌+◌, ◌-◌, ◌*◌, ◌/◌, ◌%◌, ◌^◌, List, [], ◌∷◌, ◌++◌, get_or, take, drop, set,
  if◌then◌else◌, ◌==◌,
}

abbrev pub max_hostname_length : ℕ
max_hostname_length = 64

abbrev pub max_description_length : ℕ
max_description_length = 128

abbrev pub max_pluginoutput_length : ℕ
max_pluginoutput_length = 4096

abbrev pub old_pluginoutput_length : ℕ
old_pluginoutput_length = 512

-- sizeof(data_packet): the fields end at 4302, and the struct is aligned to 4.
abbrev pub sizeof_data_packet : ℕ
sizeof_data_packet = 4304

abbrev pub old_packet_length : ℕ
old_packet_length = sizeof_data_packet - (max_pluginoutput_length - old_pluginoutput_length)

abbrev pub nsca_packet_version_3 : ℕ
nsca_packet_version_3 = 3

-- `ntohs` and `ntohl` of the field at an offset.
unfoldable pub net16 : List ℕ → ℕ → ℕ
net16 packet offset = get_or packet offset 0 * 2 ^ 8 + get_or packet (offset + 1) 0

unfoldable pub net32 : List ℕ → ℕ → ℕ
unfolding net16
net32 packet offset = net16 packet offset * 2 ^ 16 + net16 packet (offset + 2)

-- Bytes written over those from an offset on.
unfoldable pub overwrite : List ℕ → ℕ → List ℕ → List ℕ
overwrite packet offset [] = packet
overwrite packet offset (b ∷ bytes) = overwrite (set packet offset b) (offset + 1) bytes

abbrev pub crc_offset : ℕ
crc_offset = 4

abbrev pub timestamp_offset : ℕ
timestamp_offset = 8

abbrev pub return_code_offset : ℕ
return_code_offset = 12

abbrev pub host_offset : ℕ
host_offset = 14

abbrev pub description_offset : ℕ
description_offset = host_offset + max_hostname_length

abbrev pub output_offset : ℕ
output_offset = description_offset + max_description_length

unfoldable pub packet_version : List ℕ → ℕ
unfolding net16
packet_version packet = net16 packet 0

unfoldable pub crc32_value : List ℕ → ℕ
unfolding net32
crc32_value packet = net32 packet crc_offset

unfoldable pub timestamp : List ℕ → ℕ
unfolding net32
timestamp packet = net32 packet timestamp_offset

unfoldable pub return_code : List ℕ → ℕ
unfolding net16
return_code packet = net16 packet return_code_offset

-- `receive_packet->crc32_value = 0L`.
unfoldable pub clear_crc : List ℕ → List ℕ
unfolding overwrite
clear_crc packet = overwrite packet crc_offset (0 ∷ 0 ∷ 0 ∷ 0 ∷ [])

-- The text of an array of char up to its NUL.
unfoldable pub c_string : List ℕ → List ℕ
c_string [] = []
c_string (b ∷ bytes) = let rest = c_string bytes in if b == 0 then [] else b ∷ rest

-- `field[length-1] = '\0'`, and the text that is then read from the field.
unfoldable pub text_field : ℕ → ℕ → List ℕ → List ℕ
unfolding c_string take drop
text_field offset size packet = c_string (set (take size (drop offset packet)) (size - 1) 0)

-- The text fields as send_receive_message passes them on.
pub record Check : Type 0 where
  pub host_name : List ℕ
  pub svc_description : List ℕ
  pub return_value : ℕ
  pub plugin_output : List ℕ

unfoldable pub check_of : List ℕ → Check
unfolding text_field return_code
check_of packet = record {
  host_name = text_field host_offset max_hostname_length packet;
  svc_description = text_field description_offset max_description_length packet;
  return_value = return_code packet;
  plugin_output = text_field output_offset max_pluginoutput_length packet;
}
