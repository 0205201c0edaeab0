-- ===== src/Crypt/Buffer.antt =====
-- encrypt_buffer and decrypt_buffer of nsca_utils.cpp. `none` is undefined behaviour: a stream
-- cipher called on a descriptor that `encrypt_init` did not open.
pub mod Laws
use nsca_fast.Prelude.{
  ℕ, suc, ◌+◌, bit_xor, Bool, List, [], ◌∷◌, Option, none, some, get_or, length, leb, ◌==◌,
  if◌then◌else◌,
}
use nsca_fast.Crypt.Mcrypt.{
  Mcrypt, CryptInstance, Slot, unset, null, full, encrypt_none, encrypt_xor, transmitted_iv_size,
}

-- `if(x>=size) x=0;`
unfoldable pub wrap : ℕ → ℕ → ℕ
wrap size x = if leb size x then 0 else x

-- `for(y=0,x=0;y<buffer_size;y++,x++){ if(x>=size) x=0; buffer[y]^=key[x]; }` from index `x` on.
unfoldable pub rotate_xor : ℕ → List ℕ → ℕ → List ℕ → List ℕ
unfolding wrap
rotate_xor size key x [] = []
rotate_xor size key x (b ∷ buffer) =
    bit_xor b (get_or key (wrap size x) 0) ∷ rotate_xor size key (wrap size x + 1) buffer

-- The two rotations; an index at the end of the password reads its NUL.
unfoldable pub xor_buffer : List ℕ → List ℕ → List ℕ → List ℕ
unfolding rotate_xor
xor_buffer iv password buffer =
    rotate_xor (length password) password 0 (rotate_xor transmitted_iv_size iv 0 buffer)

-- One call of libmcrypt for each byte.
unfoldable pub stream : {T : Type 0} → (T → ℕ → ℕ × T) → T → List ℕ → List ℕ × T
stream cipher td [] = ([], td)
stream cipher td (b ∷ buffer) =
    let (c, td') = cipher td b in let (rest, last) = stream cipher td' buffer in (c ∷ rest, last)

module _ (m : Mcrypt) where
  unfoldable pub stream_buffer :
      (m.Td → ℕ → ℕ × m.Td) → List ℕ → CryptInstance m → Option (List ℕ × CryptInstance m)
  unfolding stream
  stream_buffer cipher buffer ci = elim ci.td [
    | full td ↦ let (out, td') = stream cipher td buffer in some (out, record ci { td = full td' })
    | _ ↦ none
  ]

  unfoldable pub encrypt_buffer :
      List ℕ → List ℕ → ℕ → Option (CryptInstance m) → Option (List ℕ × Option (CryptInstance m))
  encrypt_buffer buffer password method none = some (buffer, none)
  encrypt_buffer buffer password method (some ci) =
      if method == encrypt_none
      then some (buffer, some ci)
      else if method == encrypt_xor
      then some (xor_buffer ci.transmitted_iv password buffer, some ci)
      else elim (stream_buffer m.generic buffer ci) [
        | none ↦ none
        | some (out, ci') ↦ some (out, some ci')
      ]

  -- The exclusive or is its own inverse, so that its branch calls `encrypt_buffer`.
  unfoldable pub decrypt_buffer :
      List ℕ → List ℕ → ℕ → Option (CryptInstance m) → Option (List ℕ × Option (CryptInstance m))
  decrypt_buffer buffer password method none = some (buffer, none)
  decrypt_buffer buffer password method (some ci) =
      if method == encrypt_none
      then some (buffer, some ci)
      else if method == encrypt_xor
      then encrypt_buffer buffer password method (some ci)
      else elim (stream_buffer m.mdecrypt_generic buffer ci) [
        | none ↦ none
        | some (out, ci') ↦ some (out, some ci')
      ]
