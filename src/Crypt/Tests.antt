-- ===== src/Crypt/Tests.antt =====
-- A small libmcrypt, with one cipher and a counter for the state of a stream, on which the theorems
-- of the parent's modules are applied.
use nsca_fast.Prelude.{
  ℕ, ◌+◌, ◌*◌, ◌%◌, ◌^◌, ◌<◌, IsBytes, arith, bit_xor, ◌≡◌, refl, true, false, List, [], ◌∷◌,
  Option, none, some, length, get_or,
}
use nsca_fast.Prelude.Xor.{bit_xor_cancel}
use nsca_fast.Crypt.Mcrypt.{Mcrypt, CryptInstance, Algorithm, des, algorithm_of, full}
use nsca_fast.Crypt.Secure.{
  Libc, byte, generate_transmitted_iv_secure, possible_ivs, generate_transmitted_iv_secure_few,
}
use nsca_fast.Crypt.Buffer.{encrypt_buffer, decrypt_buffer}
use nsca_fast.Crypt.Buffer.Laws.{Inverts, decrypt_buffer-encrypt_buffer}
use nsca_fast.Crypt.Init.{
  success, Globals, Memory, transmitted, encrypt_init, init_module, init_iv, init_key, blank,
}

abbrev opens : Algorithm → Option ℕ
opens des = some 1
opens _ = none

abbrev counter_cipher : Mcrypt
counter_cipher = record {
  Td = ℕ;
  module_open = opens;
  enc_get_iv_size = λ td. 2;
  enc_get_key_size = λ td. 3;
  generic_init = λ td key keysize iv. get_or key 0 0 + get_or iv 0 0;
  generic = λ td b. (bit_xor b td, td + 1);
  mdecrypt_generic = λ td b. (bit_xor b td, td + 1);
  enc_set_state = λ td state size. get_or state 0 0;
  enc_get_state = λ td. (td ∷ [], 1);
}

counter_cipher-Inverts : Inverts counter_cipher
counter_cipher-Inverts td b = λ i. (bit_xor_cancel b td i, td + 1)

abbrev globals : Globals
globals = record {
  random = record { x = 123456789; y = 362436069; z = 521288629 };
  mcrypt_initialized = false;
}

abbrev enough : Memory
enough = record { for_instance = true; for_iv = true; for_key = true }

abbrev iv : List ℕ
iv = 9 ∷ 8 ∷ 7 ∷ []

abbrev open_ci : CryptInstance counter_cipher
open_ci = record {
  transmitted_iv = iv;
  td = full 5;
  key = full (1 ∷ 2 ∷ 0 ∷ []);
  iv = full (9 ∷ 8 ∷ []);
  blocksize = 1;
  keysize = 3;
  mcrypt_algorithm = full des;
  mcrypt_mode = full tt;
  iv_size = 2;
}

decrypt_buffer-encrypt_buffer_example :
    (out : List ℕ) × (ci' : CryptInstance counter_cipher) × (encrypt_buffer counter_cipher
        (70 ∷ 71 ∷ [])
        []
        2
        (some open_ci)
      ≡ some (out, some ci'))
    × (decrypt_buffer counter_cipher out [] 2 (some open_ci) ≡ some (70 ∷ 71 ∷ [], some ci'))
    × (length out ≡ 2)
decrypt_buffer-encrypt_buffer_example =
    decrypt_buffer-encrypt_buffer counter_cipher counter_cipher-Inverts (70 ∷ 71 ∷ []) [] 2 open_ci
      refl

encrypt_init_succeeds :
    (encrypt_init counter_cipher globals enough (1 ∷ 2 ∷ []) 2 (some iv)).status ≡ success
unfolding encrypt_init init_module init_iv init_key blank transmitted algorithm_of
encrypt_init_succeeds = refl

-- A generator whose state is its last number.
abbrev counting : Libc
counting = record { Generator = ℕ; srand = λ seed. seed; rand = λ g. (g * 2 ^ 23 % 2 ^ 31, g + 1) }

generate_transmitted_iv_secure_few_example :
    (length (generate_transmitted_iv_secure counting (byte 7) 1000) ≡ 128)
    × IsBytes (generate_transmitted_iv_secure counting (byte 7) 1000)
    × (length (possible_ivs counting) ≡ 257)
    × ((i : ℕ) × (i < 257)
        × (generate_transmitted_iv_secure counting (byte 7) 1000
            ≡ get_or (possible_ivs counting) i []))
generate_transmitted_iv_secure_few_example =
    generate_transmitted_iv_secure_few counting (byte 7) 1000 (omega arith)
