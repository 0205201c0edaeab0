-- ===== src/Prelude/Words.antt =====
-- Machine words: the values of `unsigned long` (64 bits) and of its narrower casts.
use Prim.Native.Nat.{ℕ, ◌%◌, ◌^◌, ◌<◌}
use mathlib.Core.List.{List}
use nsca_fast.Prelude.Lists.{All}

abbrev pub u16 : ℕ → ℕ
u16 n = n % 2 ^ 16

abbrev pub u32 : ℕ → ℕ
u32 n = n % 2 ^ 32

abbrev pub u64 : ℕ → ℕ
u64 n = n % 2 ^ 64

abbrev pub IsBytes : List ℕ → Type 0
IsBytes = All (λ b. b < 256)
