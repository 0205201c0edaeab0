-- ===== src/Crc/Serial.antt =====
-- The table-driven checksum of nsca_utils.cpp against the bit-serial shift register of CRC-32.
use nsca_fast.Prelude.{
  ℕ, zero, suc, ◌/◌, ◌%◌, ◌^◌, ◌<◌, bit_xor, ◌≡◌, refl, sym, ◌∙◌, List, [], ◌∷◌, take, IsBytes,
  All-take, arith, some, if◌then◌else◌, ◌==◌,
}
use native.Mathlib.Nat.{pow-suc}
use nsca_fast.Prelude.Xor.{
  bit_xor-half, bit_xor-mod_two, bit_xor-zero, bit_xor-lt, bit_xor_assoc, bit_xor_comm,
}
use nsca_fast.Crc.{
  crc_poly, crc_shift, shift_rounds, crc32_table, crc_byte, crc_loop, calculate_crc32,
}
use nsca_fast.Crc.Shift.{crc_shift_lem, crc_byte_lem, shift_rounds-lt}

-- The shift register of the standard: one bit of the message enters at a time.
pub feed_bit : ℕ → ℕ → ℕ
feed_bit crc bit = if crc % 2 == bit then crc / 2 else bit_xor (crc / 2) crc_poly

-- The `n` lowest bits of `byte`, the lowest first.
pub feed_bits : ℕ → ℕ → ℕ → ℕ
feed_bits zero crc byte = crc
feed_bits (suc n) crc byte = feed_bits n (feed_bit crc (byte % 2)) (byte / 2)

unfoldable pub feed_bytes : ℕ → List ℕ → ℕ
feed_bytes crc [] = crc
feed_bytes crc (b ∷ bytes) = feed_bytes (feed_bits 8 crc b) bytes

unfoldable pub crc32_serial : List ℕ → ℕ
crc32_serial bytes = bit_xor (feed_bytes 0xFFFFFFFF bytes) 0xFFFFFFFF

feed_bit_lem : (crc b : ℕ) → crc_shift (bit_xor crc b) ≡ bit_xor (feed_bit crc (b % 2)) (b / 2)
unfolding feed_bit
feed_bit_lem crc b = ground (
  arith,
  crc_shift_lem (bit_xor crc b),
  bit_xor-half crc b,
  bit_xor-mod_two crc b,
  bit_xor-zero (bit_xor (crc / 2) (b / 2)),
  bit_xor_assoc (crc / 2) (b / 2) crc_poly,
  bit_xor_assoc (crc / 2) crc_poly (b / 2),
  bit_xor_comm (b / 2) crc_poly,
)

feed_bits_lem : (n crc b : ℕ) → b < 2 ^ n → shift_rounds n (bit_xor crc b) ≡ feed_bits n crc b
unfolding shift_rounds feed_bits
feed_bits_lem zero crc zero h = bit_xor-zero crc
feed_bits_lem zero crc (suc b) h = absurd (omega arith)
feed_bits_lem (suc n) crc b h =
    rw (feed_bit_lem crc b)
      (feed_bits_lem n (feed_bit crc (b % 2)) (b / 2) (omega (arith, pow-suc 2 n)))

pub crc_byte-feed_bits :
    (crc b : ℕ) → crc < 2 ^ 32 → b < 256 → crc_byte crc32_table crc b ≡ feed_bits 8 crc b
crc_byte-feed_bits crc b h hb = crc_byte_lem crc b h hb ∙ feed_bits_lem 8 crc b hb

pub feed_bits-lt : (crc b : ℕ) → crc < 2 ^ 32 → b < 256 → feed_bits 8 crc b < 2 ^ 32
feed_bits-lt crc b h hb =
    rw (← feed_bits_lem 8 crc b hb)
      (shift_rounds-lt 8 (bit_xor crc b) (bit_xor-lt 32 crc b h (omega arith)))

pub feed_bits_eight : (crc b : ℕ) → b < 256 → feed_bits 8 crc b ≡ shift_rounds 8 (bit_xor crc b)
feed_bits_eight crc b h = sym (feed_bits_lem 8 crc b h)

crc_loop-feed_bytes :
    (n crc : ℕ) (bytes : List ℕ)
    → IsBytes bytes
    → crc < 2 ^ 32
    → crc_loop crc32_table n crc bytes ≡ feed_bytes crc (take n bytes)
unfolding crc_loop feed_bytes take
crc_loop-feed_bytes zero crc bytes h lt = refl
crc_loop-feed_bytes (suc n) crc [] h lt = refl
crc_loop-feed_bytes (suc n) crc (b ∷ bytes) h lt =
    rw (crc_byte-feed_bits crc b lt h.0)
      (crc_loop-feed_bytes n (feed_bits 8 crc b) bytes h.1 (feed_bits-lt crc b lt h.0))

pub feed_bytes-lt :
    (crc : ℕ) (bytes : List ℕ) → IsBytes bytes → crc < 2 ^ 32 → feed_bytes crc bytes < 2 ^ 32
unfolding feed_bytes
feed_bytes-lt crc [] h lt = lt
feed_bytes-lt crc (b ∷ bytes) h lt =
    feed_bytes-lt (feed_bits 8 crc b) bytes h.1 (feed_bits-lt crc b lt h.0)

-- Over the first `n` bytes of a buffer of bytes, the table-driven `calculate_crc32`, on the table
-- that `generate_crc32_table` fills, is the bit-serial CRC-32 of those bytes, and its value fits
-- the 32 bits to which its callers cut it.
pub calculate_crc32-crc32_serial :
    (buffer : List ℕ) (n : ℕ)
    → IsBytes buffer
    → (calculate_crc32 crc32_table (some buffer) n ≡ crc32_serial (take n buffer))
      × (calculate_crc32 crc32_table (some buffer) n < 2 ^ 32)
unfolding calculate_crc32 crc32_serial
calculate_crc32-crc32_serial buffer n h =
    let same = crc_loop-feed_bytes n 0xFFFFFFFF buffer h (omega arith) in
    (
      rw same refl,
      rw same (
          bit_xor-lt 32 (feed_bytes 0xFFFFFFFF (take n buffer)) 0xFFFFFFFF
            (feed_bytes-lt 0xFFFFFFFF (take n buffer) (All-take _ n buffer h) (omega arith))
            (omega arith)),
    )
