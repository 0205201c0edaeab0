-- ===== src/Crypt/Buffer/Laws.antt =====
-- What the two loops of encrypt_buffer and decrypt_buffer compute.
use native.Mathlib.Nat.{add-mod_left, zero-add, add-zero, mod-eq_of_lt}
use nsca_fast.Prelude.{
  ℕ, zero, suc, ◌+◌, ◌%◌, ◌≤◌, ◌<◌, bit_xor, ◌≡◌, refl, sym, ap, ap₂, ◌∙◌, inl, inr, List, [], ◌∷◌,
  some, get_or, length, leb, ◌==◌, arith, Bool-cases,
}
use nsca_fast.Prelude.Xor.{bit_xor_cancel, bit_xor_assoc, bit_xor_comm}
use nsca_fast.Crypt.Mcrypt.{
  Mcrypt, CryptInstance, full, encrypt_none, encrypt_xor, transmitted_iv_size,
}
use nsca_fast.Crypt.Buffer.{
  wrap, rotate_xor, xor_buffer, stream, stream_buffer, encrypt_buffer, decrypt_buffer,
}

wrap-mod : (size x i : ℕ) → 0 < size → x ≤ size → (wrap size x + i) % size ≡ (x + i) % size
unfolding wrap
wrap-mod size x i pos h = elim (Bool-cases (leb size x)) [
  | inl past ↦
      let e : x ≡ size = ground arith in rw (past, e, zero-add i) (sym (add-mod_left size i))
  | inr within ↦ rw within refl
]

wrap-lt : (size x : ℕ) → 0 < size → x ≤ size → wrap size x < size
unfolding wrap
wrap-lt size x pos h = ground arith

shifted : (w i : ℕ) → w + 1 + i ≡ w + suc i
shifted w i = omega arith

-- The key byte for the `i`th byte of a rotation that starts at index `x`.
get_or-rotate_xor :
    (size : ℕ) (key : List ℕ) (x : ℕ) (buffer : List ℕ) (i : ℕ)
    → 0 < size
    → x ≤ size
    → i < length buffer
    → get_or (rotate_xor size key x buffer) i 0
      ≡ bit_xor (get_or buffer i 0) (get_or key ((x + i) % size) 0)
unfolding rotate_xor
get_or-rotate_xor size key x [] i pos h lt = absurd (omega arith)
get_or-rotate_xor size key x (b ∷ buffer) zero pos h lt =
    ap (λ t. bit_xor b (get_or key t 0)) {x = wrap size x}
      (sym (mod-eq_of_lt (wrap-lt size x pos h))
        ∙ ap (λ t. t % size) (sym (add-zero (wrap size x)))
        ∙ wrap-mod size x 0 pos h)
get_or-rotate_xor size key x (b ∷ buffer) (suc i) pos h lt =
    get_or-rotate_xor size key (wrap size x + 1) buffer i pos (omega (arith, wrap-lt size x pos h))
      (omega arith)
    ∙ ap (λ t. bit_xor (get_or buffer i 0) (get_or key t 0)) {x = (wrap size x + 1 + i) % size}
        (ap (λ t. t % size) (shifted (wrap size x) i) ∙ wrap-mod size x (suc i) pos h)

length-rotate_xor :
    (size : ℕ) (key : List ℕ) (x : ℕ) (buffer : List ℕ)
    → length (rotate_xor size key x buffer) ≡ length buffer
unfolding rotate_xor
length-rotate_xor size key x [] = refl
length-rotate_xor size key x (b ∷ buffer) =
    ap suc (length-rotate_xor size key (wrap size x + 1) buffer)

rotate_xor_self :
    (size : ℕ) (key : List ℕ) (x : ℕ) (buffer : List ℕ)
    → rotate_xor size key x (rotate_xor size key x buffer) ≡ buffer
unfolding rotate_xor
rotate_xor_self size key x [] = refl
rotate_xor_self size key x (b ∷ buffer) =
    ap₂ ◌∷◌ (bit_xor_cancel b _) (rotate_xor_self size key (wrap size x + 1) buffer)

bit_xor_right_comm : (a b c : ℕ) → bit_xor (bit_xor a b) c ≡ bit_xor (bit_xor a c) b
bit_xor_right_comm a b c =
    bit_xor_assoc a b c ∙ ap (bit_xor a) (bit_xor_comm b c) ∙ sym (bit_xor_assoc a c b)

rotate_xor_comm :
    (size size' : ℕ) (key key' : List ℕ) (x x' : ℕ) (buffer : List ℕ)
    → rotate_xor size key x (rotate_xor size' key' x' buffer)
      ≡ rotate_xor size' key' x' (rotate_xor size key x buffer)
unfolding rotate_xor
rotate_xor_comm size size' key key' x x' [] = refl
rotate_xor_comm size size' key key' x x' (b ∷ buffer) =
    ap₂ ◌∷◌ (bit_xor_right_comm b _ _)
      (rotate_xor_comm size size' key key' (wrap size x + 1) (wrap size' x' + 1) buffer)

xor_buffer_self :
    (iv password buffer : List ℕ) → xor_buffer iv password (xor_buffer iv password buffer) ≡ buffer
unfolding xor_buffer
xor_buffer_self iv password buffer =
    rw
      (
        rotate_xor_comm transmitted_iv_size (length password) iv password 0 0
            (rotate_xor transmitted_iv_size iv 0 buffer),
        rotate_xor_self transmitted_iv_size iv 0 buffer,
      )
      (rotate_xor_self (length password) password 0 buffer)

length-xor_buffer :
    (iv password buffer : List ℕ) → length (xor_buffer iv password buffer) ≡ length buffer
unfolding xor_buffer
length-xor_buffer iv password buffer =
    length-rotate_xor (length password) password 0 (rotate_xor transmitted_iv_size iv 0 buffer)
    ∙ length-rotate_xor transmitted_iv_size iv 0 buffer

-- The exclusive or of `encrypt_buffer`, byte by byte: with a password that is not empty, the byte
-- at `i` is combined with the byte at `i` modulo 128 of the transmitted IV and the byte at `i`
-- modulo the password's length of the password. The length stays.
get_or-xor_buffer :
    (iv password buffer : List ℕ) (i : ℕ)
    → 0 < length password
    → i < length buffer
    → (get_or (xor_buffer iv password buffer) i 0
        ≡ bit_xor
            (bit_xor (get_or buffer i 0) (get_or iv (i % 128) 0))
            (get_or password (i % length password) 0))
      × (length (xor_buffer iv password buffer) ≡ length buffer)
unfolding xor_buffer
get_or-xor_buffer iv password buffer i pos lt =
    let inner = rotate_xor transmitted_iv_size iv 0 buffer in
    let long = length-rotate_xor transmitted_iv_size iv 0 buffer in
    (
      get_or-rotate_xor (length password) password 0 inner i pos (omega arith) (omega (arith, long))
          ∙ ground (
            arith,
            get_or-rotate_xor transmitted_iv_size iv 0 buffer i (omega arith) (omega arith) lt,
          ),
      length-xor_buffer iv password buffer,
    )

module _ (m : Mcrypt) where
  -- mdecrypt_generic turns back what mcrypt_generic did to a byte, from the same state of the
  -- stream, and both leave the same state.
  abbrev pub Inverts : Type 0
  Inverts = (td : m.Td) (b : ℕ) → m.mdecrypt_generic td (m.generic td b).0 ≡ (b, (m.generic td b).1)

  pub stream_inverse :
      Inverts
      → (td : m.Td) (buffer : List ℕ)
      → stream m.mdecrypt_generic td (stream m.generic td buffer).0
        ≡ (buffer, (stream m.generic td buffer).1)
  unfolding stream
  stream_inverse inv td [] = refl
  stream_inverse inv td (b ∷ buffer) =
      rw (inv td b, stream_inverse inv (m.generic td b).1 buffer) refl

  pub stream_buffer_open :
      (cipher : m.Td → ℕ → ℕ × m.Td) (buffer : List ℕ) (ci : CryptInstance m) {td : m.Td}
      → ci.td ≡ full td
      → stream_buffer m cipher buffer ci
        ≡ some ((stream cipher td buffer).0, record ci { td = full (stream cipher td buffer).1 })
  unfolding stream_buffer
  stream_buffer_open cipher buffer ci e = ground (arith, e)

  pub length-stream :
      (cipher : m.Td → ℕ → ℕ × m.Td) (td : m.Td) (buffer : List ℕ)
      → length (stream cipher td buffer).0 ≡ length buffer
  unfolding stream
  length-stream cipher td [] = refl
  length-stream cipher td (b ∷ buffer) = ap suc (length-stream cipher (cipher td b).1 buffer)

  -- On a crypt instance whose stream is open, `decrypt_buffer` turns back what `encrypt_buffer` did
  -- to a buffer, whatever the encryption method and the password are, and both leave the same
  -- instance; neither changes the length or is undefined. This holds of every libmcrypt whose
  -- mdecrypt_generic inverts its mcrypt_generic byte by byte.
  pub decrypt_buffer-encrypt_buffer :
      Inverts
      → (buffer password : List ℕ) (method : ℕ) (ci : CryptInstance m) {td : m.Td} → ci.td ≡ full td
      → (out : List ℕ) × (ci' : CryptInstance m) × (encrypt_buffer m buffer password method
            (some ci)
          ≡ some (out, some ci'))
        × (decrypt_buffer m out password method (some ci) ≡ some (buffer, some ci'))
        × (length out ≡ length buffer)
  unfolding encrypt_buffer decrypt_buffer
  decrypt_buffer-encrypt_buffer inv buffer password method ci {td} open_td =
      elim (Bool-cases (method == encrypt_none)) [
        | inl plain ↦ (buffer, ci, rw plain refl, rw plain refl, refl)
        | inr ciphered ↦ elim (Bool-cases (method == encrypt_xor)) [
          | inl xored ↦ (
            xor_buffer ci.transmitted_iv password buffer,
            ci,
            rw (ciphered, xored) refl,
            rw (ciphered, xored, xor_buffer_self ci.transmitted_iv password buffer) refl,
            length-xor_buffer ci.transmitted_iv password buffer,
          )
          | inr streamed ↦ (
            (stream m.generic td buffer).0,
            record ci { td = full (stream m.generic td buffer).1 },
            rw (ciphered, streamed, stream_buffer_open m.generic buffer ci open_td) refl,
            rw
                (
                  ciphered,
                  streamed,
                  stream_buffer_open m.mdecrypt_generic (stream m.generic td buffer).0 ci open_td,
                  stream_inverse inv td buffer,
                )
                refl,
            length-stream m.generic td buffer,
          )
        ]
      ]
