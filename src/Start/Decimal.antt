-- ===== src/Start/Decimal.antt =====
-- Numbers that main prints and that GetInt of config.cpp reads.
use nsca_fast.Prelude.{
  ℕ, zero, suc, ◌+◌, ◌-◌, ◌*◌, ◌/◌, ◌%◌, ◌^◌, ◌≤◌, ◌<◌, ◌≡◌, refl, ap, ◌∙◌, inl, inr, Bool, true,
  false, ◌&&◌, ◌||◌, List, [], ◌∷◌, ◌++◌, All, All-append, ltb, leb, take, take-length, length,
  length-append, ◌==◌, Bool-cases, arith,
}
use nsca_fast.Prelude.Int.{pos}
use nsca_fast.Prelude.Text.{
  decimal, digits, digits_small, digits_large, read_digits, read_digits-digits,
}
use nsca_fast.Config.{int_of, strtol, leading_digits, is_space, to_long}
use nsca_fast.Start.{print_int}

abbrev IsDigit : ℕ → Type 0
IsDigit c = (48 ≤ c) × (c ≤ 57)

digits-IsDigit : (fuel n : ℕ) → All IsDigit (digits fuel n)
unfolding digits
digits-IsDigit zero n = tt
digits-IsDigit (suc fuel) n = go (digits-IsDigit fuel (n / 10)) (ltb n 10) refl
  where
    go :
        All IsDigit (digits fuel (n / 10))
        → (b : Bool) → ltb n 10 ≡ b
        → All IsDigit
            (elim b [ true ↦ (48 + n) ∷ [] | false ↦ digits fuel (n / 10) ++ (48 + n % 10) ∷ [] ])
    go front true e = ((omega arith, ground (arith, e)), tt)
    go front false e =
        All-append IsDigit (digits fuel (n / 10)) ((48 + n % 10) ∷ []) front
          ((omega arith, omega arith), tt)

leading_digits-read_digits :
    (acc : ℕ) (cs : List ℕ) → All IsDigit cs → leading_digits acc cs ≡ read_digits acc cs
unfolding leading_digits read_digits
leading_digits-read_digits acc [] h = refl
leading_digits-read_digits acc (c ∷ cs) h =
    let e : (leb 48 c && leb c 57) ≡ true = ground (arith, h.0) in
    rw (e, leading_digits, read_digits, leading_digits-read_digits (acc * 10 + (c - 48)) cs h.1)
      refl

strtol_digits :
    (cs : List ℕ) → All IsDigit cs → read_digits 0 cs < 2 ^ 63 → strtol cs ≡ pos (read_digits 0 cs)
unfolding strtol is_space to_long read_digits
strtol_digits [] h small = refl
strtol_digits (c ∷ cs) h small =
    let s : (c == 32 || (leb 9 c && leb c 13)) ≡ false = ground (arith, h.0) in
    let m : (c == 45) ≡ false = ground (arith, h.0) in
    let p : (c == 43) ≡ false = ground (arith, h.0) in
    let b : leb (2 ^ 63) (read_digits 0 (c ∷ cs)) ≡ false = ground (arith, small) in
    rw (s, m, p, leading_digits-read_digits 0 (c ∷ cs) h, b) refl

digits_short : (g f n : ℕ) → n < 10 ^ suc f → length (digits g n) ≤ suc f
unfolding digits
digits_short zero f n h = omega arith
digits_short (suc g) zero n h = elim (Bool-cases (ltb n 10)) [
  | inl small ↦ omega (arith, ap length (digits_small g n small))
  | inr large ↦ absurd (ground (arith, large, h))
]
digits_short (suc g) (suc f) n h = elim (Bool-cases (ltb n 10)) [
  | inl small ↦ omega (arith, ap length (digits_small g n small))
  | inr large ↦ omega (
    arith,
    ap length (digits_large g n large),
    digits_short g f (n / 10) (omega arith),
    length-append (digits g (n / 10)) ((48 + n % 10) ∷ []),
  )
]

pub strtol-decimal : (n : ℕ) → n < 2 ^ 63 → strtol (decimal n) ≡ pos n
unfolding decimal
strtol-decimal n small =
    let e = read_digits-digits 20 n (omega arith) in
    strtol_digits (digits 20 n) (digits-IsDigit 20 n) (omega (arith, e, small)) ∙ ap pos e

take-decimal : (n : ℕ) → n < 10 ^ 9 → take 9 (decimal n) ≡ decimal n
unfolding decimal
take-decimal n small = take-length (digits 20 n) 9 (digits_short 20 8 n small)

-- A number below 10^9 that is printed is read back by GetInt.
pub strtol-print_int : (n : ℕ) → n < 10 ^ 9 → int_of (strtol (print_int (pos n))) ≡ pos n
unfolding print_int
strtol-print_int n small = rw (take-decimal n small, strtol-decimal n (omega arith)) (ground arith)
