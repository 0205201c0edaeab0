-- ===== src/Crc/Tests.antt =====
-- Runs of the checksum: the check value of CRC-32 over the digits 1 to 9, and the theorems on it.
use nsca_fast.Prelude.{ℕ, ◌^◌, ◌<◌, ◌≡◌, ◌≢◌, refl, List, [], ◌∷◌, take, some, arith}
use nsca_fast.Crc.{
  crc32_table, calculate_crc32, crc_loop, crc_byte, shift_rounds, crc_shift, table_entries,
}
use nsca_fast.Crc.Serial.{crc32_serial, calculate_crc32-crc32_serial}
use nsca_fast.Crc.Detect.{calculate_crc32_burst}

abbrev digits : List ℕ
digits = 49 ∷ 50 ∷ 51 ∷ 52 ∷ 53 ∷ 54 ∷ 55 ∷ 56 ∷ 57 ∷ []

check_value : calculate_crc32 crc32_table (some digits) 9 ≡ 0xCBF43926
unfolding calculate_crc32 crc_loop crc_byte crc32_table table_entries shift_rounds crc_shift
check_value = refl

calculate_crc32-crc32_serial_example :
    (calculate_crc32 crc32_table (some digits) 9 ≡ crc32_serial digits)
    × (calculate_crc32 crc32_table (some digits) 9 < 2 ^ 32)
unfolding take
calculate_crc32-crc32_serial_example = calculate_crc32-crc32_serial digits 9 (omega arith)

calculate_crc32_burst_example :
    calculate_crc32 crc32_table (some (49 ∷ 50 ∷ 51 ∷ [])) 3
    ≢ calculate_crc32 crc32_table (some (49 ∷ 178 ∷ 51 ∷ [])) 3
calculate_crc32_burst_example =
    calculate_crc32_burst (49 ∷ []) (50 ∷ []) (178 ∷ []) (51 ∷ []) 3 (omega arith) (omega arith)
      (omega arith) (omega arith) refl (omega arith) (omega arith) (omega arith)
      (λ e. absurd (ground (arith, e)))
