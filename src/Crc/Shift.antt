-- ===== src/Crc/Shift.antt =====
-- Arithmetic of the shift register: it is linear, drops zero bits, and loses nothing of 32 bits.
use nsca_fast.Prelude.{
  ℕ, zero, suc, ◌+◌, ◌-◌, ◌*◌, ◌/◌, ◌%◌, ◌^◌, ◌≤◌, ◌<◌, bit_and, bit_xor, ◌≡◌, refl, sym, ap, ◌∙◌,
  arith, get_or, if◌then◌else◌, ◌==◌,
}
use nsca_fast.Prelude.Xor.{
  bit_and_mask, bit_xor_swap, bit_xor-half, bit_xor-mod_two, bit_xor-lt, bit_xor-zero,
  bit_xor_injective, bit_xor_fields, zero-bit_xor,
}
use nsca_fast.Crc.{
  crc_poly, crc_shift, shift_rounds, table_entries, crc32_table, sign_extend, crc_byte,
}

-- What a round adds to the halved register.
abbrev pub feedback : ℕ → ℕ
feedback bit = if bit == 0 then 0 else crc_poly

pub crc_shift_lem : (a : ℕ) → crc_shift a ≡ bit_xor (a / 2) (feedback (a % 2))
unfolding crc_shift
crc_shift_lem a = ground (arith, bit_and_mask 1 a, bit_xor-zero (a / 2))

feedback_sum :
    (x y : ℕ) → x < 2 → y < 2 → feedback ((x + y) % 2) ≡ bit_xor (feedback x) (feedback y)
feedback_sum zero zero p q = refl
feedback_sum zero (suc zero) p q = refl
feedback_sum (suc zero) zero p q = refl
feedback_sum (suc zero) (suc zero) p q = refl
feedback_sum zero (suc (suc y)) p q = absurd (omega arith)
feedback_sum (suc zero) (suc (suc y)) p q = absurd (omega arith)
feedback_sum (suc (suc x)) y p q = absurd (omega arith)

pub crc_shift-bit_xor : (a b : ℕ) → crc_shift (bit_xor a b) ≡ bit_xor (crc_shift a) (crc_shift b)
crc_shift-bit_xor a b =
    rw
      (
        crc_shift_lem (bit_xor a b),
        crc_shift_lem a,
        crc_shift_lem b,
        bit_xor-half a b,
        digit,
        feedback_sum (a % 2) (b % 2) (omega arith) (omega arith),
      )
      (bit_xor_swap _ _ _ _)
  where
    digit : bit_xor a b % 2 ≡ (a % 2 + b % 2) % 2
    digit = omega (arith, bit_xor-mod_two a b)

pub shift_rounds-bit_xor :
    (n a b : ℕ) → shift_rounds n (bit_xor a b) ≡ bit_xor (shift_rounds n a) (shift_rounds n b)
unfolding shift_rounds
shift_rounds-bit_xor zero a b = refl
shift_rounds-bit_xor (suc n) a b =
    rw (crc_shift-bit_xor a b) (shift_rounds-bit_xor n (crc_shift a) (crc_shift b))

-- Zero bits are shifted out and change nothing else.
crc_shift-double : (a : ℕ) → crc_shift (2 * a) ≡ a
crc_shift-double a =
    let half : 2 * a / 2 ≡ a = omega arith in
    let even : 2 * a % 2 ≡ 0 = omega arith in
    rw (crc_shift_lem (2 * a), half, even) (bit_xor-zero a)

double_eight : (a : ℕ) → 256 * a ≡ 2 * (2 * (2 * (2 * (2 * (2 * (2 * (2 * a)))))))
double_eight a = omega arith

pub shift_rounds-eight : (a : ℕ) → shift_rounds 8 (256 * a) ≡ a
unfolding shift_rounds
shift_rounds-eight a = rw (double_eight a) (simp crc_shift-double)

-- The top bit of the result tells whether the polynomial was added.
crc_shift-lt : (a : ℕ) → a < 2 ^ 32 → crc_shift a < 2 ^ 32
crc_shift-lt a h =
    rw (crc_shift_lem a) (bit_xor-lt 32 (a / 2) (feedback (a % 2)) (omega arith) (ground arith))

pub shift_rounds-lt : (n a : ℕ) → a < 2 ^ 32 → shift_rounds n a < 2 ^ 32
unfolding shift_rounds
shift_rounds-lt zero a h = h
shift_rounds-lt (suc n) a h = shift_rounds-lt n (crc_shift a) (crc_shift-lt a h)

crc_shift_odd : (a : ℕ) → a < 2 ^ 32 → a % 2 ≡ 1 → 2 ^ 31 ≤ crc_shift a
crc_shift_odd a h e = ground (
  arith,
  crc_shift_lem a,
  bit_xor_fields 31 0 (a / 2) 1 (crc_poly - 2 ^ 31) (omega arith) (omega arith),
  zero-bit_xor 1,
)

crc_shift_even : (a : ℕ) → a < 2 ^ 32 → a % 2 ≡ 0 → crc_shift a < 2 ^ 31
crc_shift_even a h e = ground (arith, crc_shift_lem a, bit_xor-zero (a / 2))

pub crc_shift_injective : (a b : ℕ) → a < 2 ^ 32 → b < 2 ^ 32 → crc_shift a ≡ crc_shift b → a ≡ b
crc_shift_injective a b p q e = omega (arith, digits, halves)
  where
    digits : a % 2 ≡ b % 2
    digits =
        ground (arith, crc_shift_odd a p, crc_shift_odd b q, crc_shift_even a p, crc_shift_even b q)

    halves : a / 2 ≡ b / 2
    halves = bit_xor_injective (a / 2) (b / 2) (feedback (b % 2)) (
        ap (λ t. bit_xor (a / 2) (feedback t)) (sym digits)
        ∙ sym (crc_shift_lem a)
        ∙ e
        ∙ crc_shift_lem b)

pub shift_rounds_injective :
    (n a b : ℕ) → a < 2 ^ 32 → b < 2 ^ 32 → shift_rounds n a ≡ shift_rounds n b → a ≡ b
unfolding shift_rounds
shift_rounds_injective zero a b p q e = e
shift_rounds_injective (suc n) a b p q e =
    crc_shift_injective a b p q
      (shift_rounds_injective n (crc_shift a) (crc_shift b) (crc_shift-lt a p) (crc_shift-lt b q) e)

-- What the table holds.
get_or-table_entries : (n i j : ℕ) → j < n → get_or (table_entries n i) j 0 ≡ shift_rounds 8 (i + j)
unfolding table_entries
get_or-table_entries zero i j h = absurd (omega arith)
get_or-table_entries (suc n) i zero h = ap (shift_rounds 8) {x = i} (omega arith)
get_or-table_entries (suc n) i (suc j) h =
    get_or-table_entries n (i + 1) j (omega arith)
    ∙ ap (shift_rounds 8) {x = i + 1 + j} (omega arith)

pub get_or-crc32_table : (j : ℕ) → j < 256 → get_or crc32_table j 0 ≡ shift_rounds 8 j
unfolding crc32_table
get_or-crc32_table j h =
    get_or-table_entries 256 0 j h ∙ ap (shift_rounds 8) {x = 0 + j} (omega arith)

-- The low byte of a sign-extended byte is that byte.
index_lem :
    (q r b : ℕ)
    → r < 256
    → b < 256
    → bit_and (bit_xor (q * 2 ^ 8 + r) (sign_extend b)) 0xFF ≡ bit_xor r b
unfolding sign_extend
index_lem q r b hr hb = ground (
  arith,
  bit_and_mask 8 (bit_xor (q * 2 ^ 8 + r) (sign_extend b)),
  bit_xor_fields 8 q r 0 b,
  bit_xor_fields 8 q r (2 ^ 56 - 1) b,
  bit_xor-lt 8 r b,
)

-- A register of two fields, the low one a byte.
fields_lem :
    (q r b : ℕ) → r < 256 → b < 256 → bit_xor (q * 2 ^ 8 + r) b ≡ bit_xor (256 * q) (bit_xor r b)
fields_lem q r b hr hb = ground (
  arith,
  bit_xor_fields 8 q r 0 b,
  bit_xor_fields 8 q 0 0 (bit_xor r b),
  bit_xor-lt 8 r b,
  zero-bit_xor (bit_xor r b),
)

high_lem : (q r : ℕ) → q < 2 ^ 24 → r < 256 → bit_and ((q * 2 ^ 8 + r) / 2 ^ 8) 0x00FFFFFF ≡ q
high_lem q r h hr = ground (arith, bit_and_mask 24 ((q * 2 ^ 8 + r) / 2 ^ 8))

crc_byte_fields :
    (q r b : ℕ)
    → q < 2 ^ 24
    → r < 256
    → b < 256
    → crc_byte crc32_table (q * 2 ^ 8 + r) b ≡ shift_rounds 8 (bit_xor (q * 2 ^ 8 + r) b)
unfolding crc_byte
crc_byte_fields q r b h hr hb =
    rw
      (
        high_lem q r h hr,
        index_lem q r b hr hb,
        fields_lem q r b hr hb,
        shift_rounds-bit_xor 8 (256 * q) (bit_xor r b),
        shift_rounds-eight q,
        get_or-crc32_table (bit_xor r b) (bit_xor-lt 8 r b hr hb),
      )
      refl

-- A byte goes through the table as its eight rounds do through the register.
pub crc_byte_lem :
    (crc b : ℕ)
    → crc < 2 ^ 32
    → b < 256
    → crc_byte crc32_table crc b ≡ shift_rounds 8 (bit_xor crc b)
crc_byte_lem crc b h hb = rw parts at fields
  where
    parts : crc / 2 ^ 8 * 2 ^ 8 + crc % 2 ^ 8 ≡ crc
    parts = omega arith

    fields :
        crc_byte crc32_table (crc / 2 ^ 8 * 2 ^ 8 + crc % 2 ^ 8) b
        ≡ shift_rounds 8 (bit_xor (crc / 2 ^ 8 * 2 ^ 8 + crc % 2 ^ 8) b)
    fields = crc_byte_fields (crc / 2 ^ 8) (crc % 2 ^ 8) b (omega arith) (omega arith) hb
