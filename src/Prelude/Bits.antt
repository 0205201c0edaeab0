-- ===== src/Prelude/Bits.antt =====
-- Exclusive or and low masks at variables, from the recursion on binary digits.
use Prim.Native.Nat.{
  ℕ, zero, suc, ◌+◌, ◌*◌, ◌/◌, ◌%◌, ◌≤◌, ◌<◌, min, bit_and, bit_xor, digits, bitwise, differ,
  bit_and-bitwise, bit_xor-bitwise,
}
use mathlib.Core.Path.{◌≡◌, refl}
use native.Mathlib.Omega.{arith}

module _ (last : ℕ → ℕ) (op : ℕ → ℕ → ℕ) where
  -- Any fuel that is not below the first number gives the same digits.
  enough_fuel : (x y p q : ℕ) → x ≤ p → x ≤ q → digits last op p x y ≡ digits last op q x y
  enough_fuel zero y zero zero u v = refl
  enough_fuel zero y zero (suc q) u v = refl
  enough_fuel zero y (suc p) zero u v = refl
  enough_fuel zero y (suc p) (suc q) u v = refl
  enough_fuel (suc x) y zero q u v = absurd (omega arith)
  enough_fuel (suc x) y (suc p) zero u v = absurd (omega arith)
  enough_fuel (suc x) y (suc p) (suc q) u v =
      rw (enough_fuel (suc x / 2) (y / 2) p q (omega arith) (omega arith))

  bitwise_step :
      (x y : ℕ)
      → bitwise last op (suc x) y ≡ op (suc x % 2) (y % 2) + 2 * bitwise last op (suc x / 2) (y / 2)
  bitwise_step x y =
      omega (arith, enough_fuel (suc x / 2) (y / 2) x (suc x / 2) (omega arith) (omega arith))

pub bit_and_step : (x y : ℕ) → bit_and x y ≡ bit_and (x / 2) (y / 2) * 2 + min (x % 2) (y % 2)
bit_and_step zero y = simp bit_and-bitwise (omega arith)
bit_and_step (suc x) y = simp bit_and-bitwise (omega (arith, bitwise_step (λ d. 0) min x y))

pub zero-bit_xor : (y : ℕ) → bit_xor 0 y ≡ y
zero-bit_xor y = bit_xor-bitwise 0 y

-- Two digits differ when their sum is odd.
differ_odd : (d e : ℕ) → d < 2 → e < 2 → differ d e ≡ (d + e) % 2
differ_odd zero e u v = omega arith
differ_odd (suc (suc d)) e u v = absurd (omega arith)
differ_odd (suc zero) (suc (suc e)) u v = absurd (omega arith)
differ_odd (suc zero) (suc zero) u v = refl
differ_odd (suc zero) zero u v = refl

pub bit_xor_step : (x y : ℕ) → bit_xor x y ≡ bit_xor (x / 2) (y / 2) * 2 + (x + y) % 2
bit_xor_step zero y = omega (arith, zero-bit_xor y, zero-bit_xor (y / 2))
bit_xor_step (suc x) y = simp bit_xor-bitwise (
    omega (
      arith,
      differ_odd (suc x % 2) (y % 2) (omega arith) (omega arith),
      bitwise_step (λ d. d) differ x y,
    ))
