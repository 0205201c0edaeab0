-- ===== src/Crc/Detect.antt =====
-- What the checksum of nsca_utils.cpp detects: damage within four consecutive bytes.
use nsca_fast.Prelude.{
  ℕ, ◌+◌, ◌*◌, ◌^◌, ◌≤◌, ◌<◌, bit_xor, ◌≡◌, ◌≢◌, refl, sym, ap, ap₂, ◌∙◌, List, [], ◌∷◌, ◌++◌,
  take-length, length, IsBytes, All-append, arith, some,
}
use nsca_fast.Prelude.Xor.{
  bit_xor-zero, zero-bit_xor, bit_xor-lt, bit_xor_assoc, bit_xor_injective, bit_xor_left_injective,
  bit_xor_fields,
}
use nsca_fast.Crc.{crc32_table, calculate_crc32, shift_rounds}
use nsca_fast.Crc.Shift.{
  shift_rounds-bit_xor, shift_rounds-eight, shift_rounds_injective, shift_rounds-lt,
}
use nsca_fast.Crc.Serial.{
  feed_bits, feed_bits_eight, feed_bits-lt, feed_bytes, feed_bytes-lt, crc32_serial,
  calculate_crc32-crc32_serial,
}

-- Bytes as one number, the first byte lowest.
little_endian : List ℕ → ℕ
little_endian [] = 0
little_endian (b ∷ bytes) = b + 256 * little_endian bytes

-- Eight rounds for each byte of the list.
byte_rounds : List ℕ → ℕ → ℕ
byte_rounds [] crc = crc
byte_rounds (b ∷ bytes) crc = byte_rounds bytes (shift_rounds 8 crc)

sum-bit_xor : (b r : ℕ) → b < 256 → b + 256 * r ≡ bit_xor b (256 * r)
sum-bit_xor b r h = ground (arith, bit_xor_fields 8 0 b r 0, zero-bit_xor r, bit_xor-zero b)

-- A few bytes enter the register as one number.
feed_bytes-little_endian :
    (crc : ℕ) (bytes : List ℕ)
    → IsBytes bytes
    → feed_bytes crc bytes ≡ byte_rounds bytes (bit_xor crc (little_endian bytes))
unfolding feed_bytes byte_rounds little_endian
feed_bytes-little_endian crc [] h = sym (bit_xor-zero crc)
feed_bytes-little_endian crc (b ∷ bytes) h =
    feed_bytes-little_endian (feed_bits 8 crc b) bytes h.1 ∙ ap (byte_rounds bytes) one_number
  where
    one_number :
        bit_xor (feed_bits 8 crc b) (little_endian bytes)
        ≡ shift_rounds 8 (bit_xor crc (b + 256 * little_endian bytes))
    one_number =
        rw
          (
            sum-bit_xor b (little_endian bytes) h.0,
            feed_bits_eight crc b h.0,
            ← bit_xor_assoc crc b (256 * little_endian bytes),
            shift_rounds-bit_xor 8 (bit_xor crc b) (256 * little_endian bytes),
            shift_rounds-eight (little_endian bytes),
          )
          refl

byte_rounds_injective :
    (bytes other : List ℕ) (a b : ℕ)
    → length bytes ≡ length other
    → a < 2 ^ 32
    → b < 2 ^ 32
    → byte_rounds bytes a ≡ byte_rounds other b
    → a ≡ b
unfolding byte_rounds
byte_rounds_injective [] [] a b l p q e = e
byte_rounds_injective [] (c ∷ other) a b l p q e = absurd (omega arith)
byte_rounds_injective (c ∷ bytes) [] a b l p q e = absurd (omega arith)
byte_rounds_injective (c ∷ bytes) (d ∷ other) a b l p q e = shift_rounds_injective 8 a b p q (
    byte_rounds_injective bytes other (shift_rounds 8 a) (shift_rounds 8 b) (omega arith)
      (shift_rounds-lt 8 a p) (shift_rounds-lt 8 b q) e)

little_endian_injective :
    (xs ys : List ℕ)
    → IsBytes xs
    → IsBytes ys
    → length xs ≡ length ys
    → little_endian xs ≡ little_endian ys
    → xs ≡ ys
unfolding little_endian
little_endian_injective [] [] h k l e = refl
little_endian_injective [] (y ∷ ys) h k l e = absurd (omega arith)
little_endian_injective (x ∷ xs) [] h k l e = absurd (omega arith)
little_endian_injective (x ∷ xs) (y ∷ ys) h k l e =
    let head : x ≡ y = omega arith in
    ap₂ ◌∷◌ head (little_endian_injective xs ys h.1 k.1 (omega arith) (omega arith))

little_endian-lt : (xs : List ℕ) → IsBytes xs → length xs ≤ 4 → little_endian xs < 2 ^ 32
unfolding little_endian
little_endian-lt [] h l = omega arith
little_endian-lt (a ∷ []) h l = omega arith
little_endian-lt (a ∷ b ∷ []) h l = omega arith
little_endian-lt (a ∷ b ∷ c ∷ []) h l = omega arith
little_endian-lt (a ∷ b ∷ c ∷ d ∷ []) h l = omega arith
little_endian-lt (a ∷ b ∷ c ∷ d ∷ e ∷ xs) h l = absurd (omega arith)

feed_bytes-append :
    (crc : ℕ) (xs ys : List ℕ) → feed_bytes crc (xs ++ ys) ≡ feed_bytes (feed_bytes crc xs) ys
unfolding feed_bytes
feed_bytes-append crc [] ys = refl
feed_bytes-append crc (x ∷ xs) ys = feed_bytes-append (feed_bits 8 crc x) xs ys

-- Equal bytes after different registers leave different registers.
feed_bytes_injective :
    (a b : ℕ) (bytes : List ℕ)
    → IsBytes bytes
    → a < 2 ^ 32
    → b < 2 ^ 32
    → feed_bytes a bytes ≡ feed_bytes b bytes
    → a ≡ b
unfolding feed_bytes
feed_bytes_injective a b [] h p q e = e
feed_bytes_injective a b (x ∷ bytes) h p q e =
    let registers =
      feed_bytes_injective (feed_bits 8 a x) (feed_bits 8 b x) bytes h.1 (feed_bits-lt a x p h.0)
        (feed_bits-lt b x q h.0) e in
    bit_xor_injective a b x (
      shift_rounds_injective 8 (bit_xor a x) (bit_xor b x) (bit_xor-lt 32 a x p (omega arith))
        (bit_xor-lt 32 b x q (omega arith))
        (sym (feed_bits_eight a x h.0) ∙ registers ∙ feed_bits_eight b x h.0))

burst_register :
    (crc : ℕ) (xs ys : List ℕ)
    → crc < 2 ^ 32
    → IsBytes xs
    → IsBytes ys
    → length xs ≡ length ys
    → length xs ≤ 4
    → feed_bytes crc xs ≡ feed_bytes crc ys
    → xs ≡ ys
burst_register crc xs ys lt h k l few e = little_endian_injective xs ys h k l (
    bit_xor_left_injective _ _ crc (
      byte_rounds_injective xs ys (bit_xor crc (little_endian xs)) (bit_xor crc (little_endian ys))
        l (bit_xor-lt 32 _ _ lt (little_endian-lt xs h few))
        (bit_xor-lt 32 _ _ lt (little_endian-lt ys k (omega arith)))
        (sym (feed_bytes-little_endian crc xs h) ∙ e ∙ feed_bytes-little_endian crc ys k)))

module _ (pre xs ys post : List ℕ) where
  register_lem :
      IsBytes pre
      → IsBytes xs
      → IsBytes ys
      → IsBytes post
      → length xs ≡ length ys
      → length xs ≤ 4
      → crc32_serial (pre ++ (xs ++ post)) ≡ crc32_serial (pre ++ (ys ++ post))
      → xs ≡ ys
  unfolding crc32_serial
  register_lem hp hx hy ho l few e = burst_register start xs ys started hx hy l few (
      feed_bytes_injective _ _ post ho (feed_bytes-lt start xs hx started)
        (feed_bytes-lt start ys hy started)
        (sym (whole xs) ∙ bit_xor_injective _ _ 0xFFFFFFFF e ∙ whole ys))
    where
      start : ℕ
      start = feed_bytes 0xFFFFFFFF pre

      started : start < 2 ^ 32
      started = feed_bytes-lt 0xFFFFFFFF pre hp (omega arith)

      whole :
          (zs : List ℕ)
          → feed_bytes 0xFFFFFFFF (pre ++ (zs ++ post)) ≡ feed_bytes (feed_bytes start zs) post
      whole zs = feed_bytes-append 0xFFFFFFFF pre (zs ++ post) ∙ feed_bytes-append start zs post

  whole-IsBytes :
      (zs : List ℕ) → IsBytes pre → IsBytes zs → IsBytes post → IsBytes (pre ++ (zs ++ post))
  whole-IsBytes zs hp hz ho = All-append _ pre (zs ++ post) hp (All-append _ zs post hz ho)

  -- Two buffers of bytes that differ only within four consecutive bytes have different checksums
  -- under `calculate_crc32`, when it runs over the whole of both.
  pub calculate_crc32_burst :
      (n : ℕ)
      → IsBytes pre
      → IsBytes xs
      → IsBytes ys
      → IsBytes post
      → length xs ≡ length ys
      → length xs ≤ 4
      → length (pre ++ (xs ++ post)) ≤ n
      → length (pre ++ (ys ++ post)) ≤ n
      → xs ≢ ys
      → calculate_crc32 crc32_table (some (pre ++ (xs ++ post))) n
        ≢ calculate_crc32 crc32_table (some (pre ++ (ys ++ post))) n
  calculate_crc32_burst n hp hx hy ho l few fx fy ne e =
      ne (register_lem hp hx hy ho l few (sym (serial xs hx fx) ∙ e ∙ serial ys hy fy))
    where
      serial :
          (zs : List ℕ)
          → IsBytes zs
          → length (pre ++ (zs ++ post)) ≤ n
          → calculate_crc32 crc32_table (some (pre ++ (zs ++ post))) n
            ≡ crc32_serial (pre ++ (zs ++ post))
      serial zs hz fit =
          (calculate_crc32-crc32_serial (pre ++ (zs ++ post)) n (whole-IsBytes zs hp hz ho)).0
          ∙ ap crc32_serial (take-length _ n fit)
