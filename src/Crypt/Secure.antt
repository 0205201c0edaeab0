-- ===== src/Crypt/Secure.antt =====
-- generate_transmitted_iv_secure of nsca_utils.cpp, which threadManager uses for the IV that all
-- connections share. The file /dev/urandom, the clock and the generator of the C library are
-- parameters; RAND_MAX is 2^31 - 1, so that the division of doubles is exact.
use nsca_fast.Prelude.{
  ℕ, zero, suc, ◌+◌, ◌-◌, ◌*◌, ◌/◌, ◌%◌, ◌^◌, ◌<◌, ◌≡◌, refl, sym, ap, ◌∙◌, bit_and, List, [], ◌∷◌,
  length, get_or, IsBytes, arith,
}
use nsca_fast.Prelude.Xor.{bit_and_mask}
use nsca_fast.Crypt.Mcrypt.{transmitted_iv_size}

-- `srand` and `rand` of the C library.
pub record Libc : Type 1 where
  pub Generator : Type 0
  pub srand : ℕ → Generator
  pub rand : Generator → ℕ × Generator

-- What fopen and fgetc of /dev/urandom give: no file, the end of the file, or a byte.
pub data Urandom : Type 0 where
  no_file : Urandom
  end_of_file : Urandom
  byte : ℕ → Urandom

-- The seed as the `unsigned int` that srand takes; EOF is -1.
unfoldable pub seed_of : Urandom → ℕ → ℕ
seed_of no_file time = time % 2 ^ 32
seed_of end_of_file time = 2 ^ 32 - 1
seed_of (byte b) time = b

-- The file is opened, and gives a byte if it does not end.
abbrev pub IsRead : Urandom → Type 0
IsRead no_file = ⊥
IsRead end_of_file = Unit
IsRead (byte b) = b < 256

module _ (c : Libc) where
  -- `(char)((int)((256.0*rand())/(RAND_MAX+1.0)) & 0xff)`, `n` times.
  unfoldable pub random_bytes : ℕ → c.Generator → List ℕ
  random_bytes zero g = []
  random_bytes (suc n) g =
      let (r, g') = c.rand g in bit_and (256 * r / 2 ^ 31) 0xff ∷ random_bytes n g'

  unfoldable pub generate_transmitted_iv_secure : Urandom → ℕ → List ℕ
  unfolding seed_of random_bytes
  generate_transmitted_iv_secure u time =
      random_bytes transmitted_iv_size (c.srand (seed_of u time))

  random_bytes-IsBytes :
      (n : ℕ) (g : c.Generator) → (length (random_bytes n g) ≡ n) × IsBytes (random_bytes n g)
  unfolding random_bytes
  random_bytes-IsBytes zero g = (refl, tt)
  random_bytes-IsBytes (suc n) g =
      let rest = random_bytes-IsBytes n (c.rand g).1 in
      (ap suc rest.0, (omega (arith, bit_and_mask 8 (256 * (c.rand g).0 / 2 ^ 31)), rest.1))

  -- The IVs of `left` seeds from `seed` on.
  unfoldable pub seeded_ivs : ℕ → ℕ → List (List ℕ)
  seeded_ivs zero seed = []
  seeded_ivs (suc left) seed =
      random_bytes transmitted_iv_size (c.srand seed) ∷ seeded_ivs left (seed + 1)

  -- Those of the end of the file and of the 256 bytes.
  unfoldable pub possible_ivs : List (List ℕ)
  possible_ivs = random_bytes transmitted_iv_size (c.srand (2 ^ 32 - 1)) ∷ seeded_ivs 256 0

  length-seeded_ivs : (left seed : ℕ) → length (seeded_ivs left seed) ≡ left
  unfolding seeded_ivs
  length-seeded_ivs zero seed = refl
  length-seeded_ivs (suc left) seed = ap suc (length-seeded_ivs left (seed + 1))

  get_or-seeded_ivs :
      (left seed i : ℕ)
      → i < left
      → get_or (seeded_ivs left seed) i [] ≡ random_bytes transmitted_iv_size (c.srand (seed + i))
  unfolding seeded_ivs
  get_or-seeded_ivs zero seed i h = absurd (omega arith)
  get_or-seeded_ivs (suc left) seed zero h =
      let same : seed ≡ seed + 0 = omega arith in
      ap (λ n. random_bytes transmitted_iv_size (c.srand n)) same
  get_or-seeded_ivs (suc left) seed (suc i) h =
      let same : seed + 1 + i ≡ seed + suc i = omega arith in
      get_or-seeded_ivs left (seed + 1) i (omega arith)
      ∙ ap (λ n. random_bytes transmitted_iv_size (c.srand n)) same

  seed_index :
      (u : Urandom) (time : ℕ)
      → IsRead u
      → (i : ℕ) × (i < 257) × (generate_transmitted_iv_secure u time ≡ get_or possible_ivs i [])
  unfolding generate_transmitted_iv_secure possible_ivs
  seed_index no_file time h = absurd h
  seed_index end_of_file time h = (0, omega arith, refl)
  seed_index (byte b) time h =
      let same : b ≡ 0 + b = omega arith in
      (
        suc b,
        omega (arith, h),
        ap (λ n. random_bytes transmitted_iv_size (c.srand n)) same
            ∙ sym (get_or-seeded_ivs 256 0 b h),
      )

  -- With /dev/urandom, generate_transmitted_iv_secure makes 128 bytes, but only one of 257 IVs, for
  -- every generator of the C library and at every time: a list of 257 that depends on nothing else
  -- has it.
  pub generate_transmitted_iv_secure_few :
      (u : Urandom) (time : ℕ)
      → IsRead u
      → (length (generate_transmitted_iv_secure u time) ≡ 128)
        × IsBytes (generate_transmitted_iv_secure u time)
        × (length possible_ivs ≡ 257)
        × ((i : ℕ) × (i < 257) × (generate_transmitted_iv_secure u time ≡ get_or possible_ivs i []))
  unfolding generate_transmitted_iv_secure possible_ivs
  generate_transmitted_iv_secure_few u time h =
      let made = random_bytes-IsBytes 128 (c.srand (seed_of u time)) in
      (made.0, made.1, ap suc (length-seeded_ivs 256 0), seed_index u time h)
