-- ===== src/Crc.antt =====
-- nsca_utils.cpp: generate_crc32_table and calculate_crc32. `unsigned long` has 64 bits; a byte of
-- the buffer is a number below 256, and `(int)buffer[i]` sign-extends it.
mod Shift
pub mod Serial
pub mod Detect
mod Tests
use nsca_fast.Prelude.{
  ℕ, zero, suc, ◌+◌, ◌-◌, ◌/◌, ◌^◌, bit_and, bit_xor, List, [], ◌∷◌, get_or, if◌then◌else◌, ltb,
  ◌==◌, Option, none, some,
}

abbrev pub crc_poly : ℕ
crc_poly = 0xEDB88320

-- One round of the inner loop of the table.
unfoldable pub crc_shift : ℕ → ℕ
crc_shift crc = if bit_and crc 1 == 0 then crc / 2 ^ 1 else bit_xor (crc / 2 ^ 1) crc_poly

-- The inner loop, with `n` rounds left.
unfoldable pub shift_rounds : ℕ → ℕ → ℕ
shift_rounds zero crc = crc
shift_rounds (suc n) crc = shift_rounds n (crc_shift crc)

-- The outer loop at index `i`, with `n` entries left.
unfoldable pub table_entries : ℕ → ℕ → List ℕ
table_entries zero i = []
table_entries (suc n) i = shift_rounds 8 i ∷ table_entries n (i + 1)

-- The table that `generate_crc32_table` leaves behind.
unfoldable pub crc32_table : List ℕ
crc32_table = table_entries 256 0

-- A `char` as the 64 bits of the `int` that it is converted to.
unfoldable pub sign_extend : ℕ → ℕ
sign_extend b = if ltb b 128 then b else 2 ^ 64 - 256 + b

-- One round of the loop over the buffer.
unfoldable pub crc_byte : List ℕ → ℕ → ℕ → ℕ
unfolding sign_extend
crc_byte table crc b =
    bit_xor (bit_and (crc / 2 ^ 8) 0x00FFFFFF)
      (get_or table (bit_and (bit_xor crc (sign_extend b)) 0xFF) 0)

-- The loop with `left` bytes to go; no call reads past the end of its buffer.
unfoldable pub crc_loop : List ℕ → ℕ → ℕ → List ℕ → ℕ
crc_loop table zero crc buffer = crc
crc_loop table (suc left) crc [] = crc
crc_loop table (suc left) crc (b ∷ buffer) = crc_loop table left (crc_byte table crc b) buffer

-- `none` is the null pointer.
unfoldable pub calculate_crc32 : List ℕ → Option (List ℕ) → ℕ → ℕ
calculate_crc32 table none size = 0
calculate_crc32 table (some buffer) size =
    bit_xor (crc_loop table size 0xFFFFFFFF buffer) 0xFFFFFFFF
