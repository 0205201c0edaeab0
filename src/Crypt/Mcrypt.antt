-- ===== src/Crypt/Mcrypt.antt =====
-- libmcrypt as nsca_utils.cpp and network_client.cpp call it, and the encryption types of
-- nsca_common.h. The macros MCRYPT_DES to MCRYPT_SAFERPLUS name the algorithms; their texts are
-- mcrypt.h's, so that a constructor stands for each.
use nsca_fast.Prelude.{ℕ, List, Option, ◌==◌, if◌then◌else◌}

pub data Algorithm : Type 0 where
  des triple_des cast_128 cast_256 xtea threeway blowfish twofish loki97 rc2 arcfour : Algorithm
  rijndael_128 rijndael_192 rijndael_256 wake serpent enigma gost : Algorithm
  safer_sk64 safer_sk128 saferplus unknown : Algorithm

-- A thread descriptor `MCRYPT td` is the state of one stream. `none` is MCRYPT_FAILED.
pub record Mcrypt : Type 1 where
  pub Td : Type 0
  pub module_open : Algorithm → Option Td
  pub enc_get_iv_size : Td → ℕ
  pub enc_get_key_size : Td → ℕ
  pub generic_init : Td → List ℕ → ℕ → List ℕ → Td
  pub generic : Td → ℕ → ℕ × Td
  pub mdecrypt_generic : Td → ℕ → ℕ × Td
  pub enc_set_state : Td → List ℕ → ℕ → Td
  pub enc_get_state : Td → List ℕ × ℕ

abbrev pub encrypt_none : ℕ
encrypt_none = 0

abbrev pub encrypt_xor : ℕ
encrypt_xor = 1

abbrev pub transmitted_iv_size : ℕ
transmitted_iv_size = 128

-- The switch of `encrypt_init`, in the order of its cases.
unfoldable pub algorithm_of : ℕ → Algorithm
algorithm_of method =
    if method == 2
    then des
    else if method == 3
    then triple_des
    else if method == 4
    then cast_128
    else if method == 5
    then cast_256
    else if method == 6
    then xtea
    else if method == 7
    then threeway
    else if method == 8
    then blowfish
    else if method == 9
    then twofish
    else if method == 10
    then loki97
    else if method == 11
    then rc2
    else if method == 12
    then arcfour
    else if method == 14
    then rijndael_128
    else if method == 15
    then rijndael_192
    else if method == 16
    then rijndael_256
    else if method == 19
    then wake
    else if method == 20
    then serpent
    else if method == 22
    then enigma
    else if method == 23
    then gost
    else if method == 24
    then safer_sk64
    else if method == 25
    then safer_sk128
    else if method == 26
    then saferplus
    else unknown

-- A field that `malloc` left unset, that holds a null pointer, or that holds a value.
pub data Slot (A : Type 0) : Type 0 where
  unset : Slot A
  null : Slot A
  full : A → Slot A

pub record CryptInstance (m : Mcrypt) : Type 0 where
  pub transmitted_iv : List ℕ
  pub td : Slot (m.Td)
  pub key : Slot (List ℕ)
  pub iv : Slot (List ℕ)
  pub blocksize : ℕ
  pub keysize : ℕ
  pub mcrypt_algorithm : Slot Algorithm
  pub mcrypt_mode : Slot (Unit {0})
  pub iv_size : ℕ
