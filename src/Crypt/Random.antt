-- ===== src/Crypt/Random.antt =====
-- nsca_utils.cpp: the generator `xorshf96` over the three static words local_rnd_x, local_rnd_y and
-- local_rnd_z, and `generate_transmitted_iv`. The words have 64 bits.
use nsca_fast.Prelude.{
  ℕ, zero, suc, ◌*◌, ◌/◌, ◌%◌, ◌^◌, ◌<◌, bit_and, bit_xor, ◌≡◌, refl, sym, ap, ap₂, ◌∙◌, List, [],
  ◌∷◌, u64, length, arith, IsBytes,
}
use nsca_fast.Prelude.Xor.{
  bit_xor_fields, bit_xor_swap, bit_xor_self, bit_xor-lt, bit_xor_injective, zero-bit_xor,
  bit_and_mask,
}
use nsca_fast.Crypt.Mcrypt.{transmitted_iv_size}

pub record Random : Type 0 where
  pub x : ℕ
  pub y : ℕ
  pub z : ℕ

abbrev pub IsWords : Random → Type 0
IsWords r = (r.x < 2 ^ 64) × (r.y < 2 ^ 64) × (r.z < 2 ^ 64)

-- The values that the statics start with.
pub first_random : Random
first_random = record { x = 123456789; y = 362436069; z = 521288629 }

-- `x ^= x << k` and `x ^= x >> k`.
unfoldable pub shift_left_xor : ℕ → ℕ → ℕ
shift_left_xor k x = bit_xor x (u64 (x * 2 ^ k))

unfoldable pub shift_right_xor : ℕ → ℕ → ℕ
shift_right_xor k x = bit_xor x (x / 2 ^ k)

-- The three steps on local_rnd_x.
unfoldable pub scramble : ℕ → ℕ
unfolding shift_left_xor shift_right_xor
scramble x = shift_left_xor 1 (shift_right_xor 5 (shift_left_xor 16 x))

unfoldable pub xorshf96 : Random → ℕ × Random
unfolding scramble
xorshf96 r =
    let t = scramble r.x in
    let z = bit_xor (bit_xor t r.y) r.z in (z, record { x = r.y; y = r.z; z = z })

-- The loop with `n` bytes to go.
unfoldable pub iv_bytes : ℕ → Random → List ℕ × Random
iv_bytes zero r = ([], r)
iv_bytes (suc n) r =
    let (word, r') = xorshf96 r in
    let (rest, last) = iv_bytes n r' in (bit_and word 0xff ∷ rest, last)

unfoldable pub generate_transmitted_iv : Random → List ℕ × Random
generate_transmitted_iv r = iv_bytes transmitted_iv_size r

iv_bytes_lem : (n : ℕ) (r : Random) → (length (iv_bytes n r).0 ≡ n) × IsBytes (iv_bytes n r).0
unfolding iv_bytes
iv_bytes_lem zero r = (refl, tt)
iv_bytes_lem (suc n) r =
    let rest = iv_bytes_lem n (xorshf96 r).1 in
    (ap suc rest.0, (omega (arith, bit_and_mask 8 (xorshf96 r).0), rest.1))

-- The generated IV has the 128 bytes of a transmitted IV.
pub generate_transmitted_iv_lem :
    (r : Random)
    → (length (generate_transmitted_iv r).0 ≡ 128) × IsBytes (generate_transmitted_iv r).0
unfolding generate_transmitted_iv
generate_transmitted_iv_lem r = iv_bytes_lem 128 r

zero_of_equal : (a b : ℕ) → bit_xor a b ≡ 0 → a ≡ b
zero_of_equal a b e = bit_xor_injective a b b (e ∙ sym (bit_xor_self b))

-- Shifts and casts are linear.
double-bit_xor : (k a b : ℕ) → 0 < 2 ^ k → bit_xor a b * 2 ^ k ≡ bit_xor (a * 2 ^ k) (b * 2 ^ k)
double-bit_xor k a b h = ground (arith, bit_xor_fields k a 0 b 0 h h, zero-bit_xor 0)

u64-bit_xor : (a b : ℕ) → u64 (bit_xor a b) ≡ bit_xor (u64 a) (u64 b)
u64-bit_xor a b = ground (
  arith,
  bit_xor_fields 64 (a / 2 ^ 64) (u64 a) (b / 2 ^ 64) (u64 b) (omega arith) (omega arith),
  bit_xor-lt 64 (u64 a) (u64 b) (omega arith) (omega arith),
)

half-bit_xor : (a b : ℕ) → bit_xor a b / 2 ^ 5 ≡ bit_xor (a / 2 ^ 5) (b / 2 ^ 5)
half-bit_xor a b = ground (
  arith,
  bit_xor_fields 5 (a / 2 ^ 5) (a % 2 ^ 5) (b / 2 ^ 5) (b % 2 ^ 5) (omega arith) (omega arith),
  bit_xor-lt 5 (a % 2 ^ 5) (b % 2 ^ 5) (omega arith) (omega arith),
)

shift_left_xor-bit_xor :
    (k a b : ℕ)
    → 0 < 2 ^ k
    → shift_left_xor k (bit_xor a b) ≡ bit_xor (shift_left_xor k a) (shift_left_xor k b)
unfolding shift_left_xor
shift_left_xor-bit_xor k a b h =
    rw (double-bit_xor k a b h, u64-bit_xor (a * 2 ^ k) (b * 2 ^ k)) (bit_xor_swap _ _ _ _)

shift_right_xor-bit_xor :
    (a b : ℕ)
    → shift_right_xor 5 (bit_xor a b) ≡ bit_xor (shift_right_xor 5 a) (shift_right_xor 5 b)
unfolding shift_right_xor
shift_right_xor-bit_xor a b = rw (half-bit_xor a b) (bit_xor_swap _ _ _ _)

-- A linear map that takes no other word to zero takes no two words to one.
injective_of_kernel :
    (f : ℕ → ℕ) (a b : ℕ)
    → f (bit_xor a b) ≡ bit_xor (f a) (f b)
    → (f (bit_xor a b) ≡ 0 → bit_xor a b ≡ 0)
    → f a ≡ f b
    → a ≡ b
injective_of_kernel f a b linear kernel e =
    zero_of_equal a b (kernel (linear ∙ ap (λ t. bit_xor t (f b)) e ∙ bit_xor_self (f b)))

kernel_left_16 : (w : ℕ) → w < 2 ^ 64 → shift_left_xor 16 w ≡ 0 → w ≡ 0
unfolding shift_left_xor
kernel_left_16 w h e = omega (arith, zero_of_equal w (u64 (w * 2 ^ 16)) e)

kernel_left_1 : (w : ℕ) → w < 2 ^ 64 → shift_left_xor 1 w ≡ 0 → w ≡ 0
unfolding shift_left_xor
kernel_left_1 w h e = omega (arith, zero_of_equal w (u64 (w * 2 ^ 1)) e)

kernel_right : (w : ℕ) → shift_right_xor 5 w ≡ 0 → w ≡ 0
unfolding shift_right_xor
kernel_right w e = omega (arith, zero_of_equal w (w / 2 ^ 5) e)

shift_left_xor-lt : (k a : ℕ) → a < 2 ^ 64 → shift_left_xor k a < 2 ^ 64
unfolding shift_left_xor
shift_left_xor-lt k a h = bit_xor-lt 64 a (u64 (a * 2 ^ k)) h (omega arith)

shift_right_xor-lt : (a : ℕ) → a < 2 ^ 64 → shift_right_xor 5 a < 2 ^ 64
unfolding shift_right_xor
shift_right_xor-lt a h = bit_xor-lt 64 a (a / 2 ^ 5) h (omega arith)

scramble_injective : (a b : ℕ) → a < 2 ^ 64 → b < 2 ^ 64 → scramble a ≡ scramble b → a ≡ b
unfolding scramble
scramble_injective a b p q e =
    injective_of_kernel (shift_left_xor 16) a b (shift_left_xor-bit_xor 16 a b (omega arith))
      (kernel_left_16 _ (bit_xor-lt 64 a b p q))
      (injective_of_kernel (shift_right_xor 5) _ _ (shift_right_xor-bit_xor _ _) (kernel_right _) (
        injective_of_kernel (shift_left_xor 1) _ _ (shift_left_xor-bit_xor 1 _ _ (omega arith))
          (kernel_left_1 _ (bit_xor-lt 64 _ _ (middle a p) (middle b q))) e))
  where
    middle : (w : ℕ) → w < 2 ^ 64 → shift_right_xor 5 (shift_left_xor 16 w) < 2 ^ 64
    middle w h = shift_right_xor-lt _ (shift_left_xor-lt 16 w h)

scramble-lt : (a : ℕ) → a < 2 ^ 64 → scramble a < 2 ^ 64
unfolding scramble
scramble-lt a h = shift_left_xor-lt 1 _ (shift_right_xor-lt _ (shift_left_xor-lt 16 a h))

-- The generator keeps its three words within 64 bits, and no two states of it have the same
-- successor: no run of `xorshf96` merges two sequences.
xorshf96_injective :
    (r s : Random)
    → IsWords r
    → IsWords s
    → IsWords (xorshf96 r).1 × ((xorshf96 r).1 ≡ (xorshf96 s).1 → r ≡ s)
unfolding xorshf96
xorshf96_injective r s hr hs = (
  (hr.1, hr.2, bit_xor-lt 64 _ _ (bit_xor-lt 64 _ _ (scramble-lt r.x hr.0) hr.1) hr.2),
  λ e.
      let y : r.y ≡ s.y = ap (λ (t : Random). t.x) e in
      let z : r.z ≡ s.z = ap (λ (t : Random). t.y) e in
      let last : bit_xor (bit_xor (scramble r.x) r.y) r.z
          ≡ bit_xor (bit_xor (scramble s.x) s.y) s.z =
        ap (λ (t : Random). t.z) e in
      let x : r.x ≡ s.x = scramble_injective r.x s.x hr.0 hs.0 (
        bit_xor_injective _ _ s.y (
          bit_xor_injective _ _ s.z
            (ap₂ (λ a b. bit_xor (bit_xor (scramble r.x) a) b) (sym y) (sym z) ∙ last))) in
      λ i. record { x = x i; y = y i; z = z i },
)
