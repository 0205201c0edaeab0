-- ===== src/Crypt/Init.antt =====
-- encrypt_init and encrypt_cleanup of nsca_utils.cpp. Which calls of `malloc` succeed is an
-- argument; a field that nothing has assigned yet is `unset`.
pub mod Laws
use nsca_fast.Prelude.{
  ℕ, zero, suc, ◌-◌, Bool, true, false, ◌||◌, List, [], ◌∷◌, ◌++◌, Option, none, some, length, take,
  replicate, ltb, leb, ◌==◌, if◌then◌else◌,
}
use nsca_fast.Crypt.Mcrypt.{
  Mcrypt, CryptInstance, Algorithm, algorithm_of, Slot, unset, null, full, encrypt_none,
  encrypt_xor, transmitted_iv_size,
}
use nsca_fast.Crypt.Random.{Random, generate_transmitted_iv}

pub data Status : Type 0 where
  success failure : Status

-- The static variables that these functions use.
pub record Globals : Type 0 where
  pub random : Random
  pub mcrypt_initialized : Bool

-- Which allocations succeed.
pub record Memory : Type 0 where
  pub for_instance : Bool
  pub for_iv : Bool
  pub for_key : Bool

-- `bzero` of the key, then `strncpy` of the password or of its first `keysize` bytes.
unfoldable pub key_of : ℕ → List ℕ → List ℕ
key_of keysize password =
    if ltb keysize (length password)
    then take keysize password
    else password ++ replicate (keysize - length password) 0

unfoldable pub transmitted : Option (List ℕ) → Random → List ℕ × Random
transmitted none r = generate_transmitted_iv r
transmitted (some received) r = (take transmitted_iv_size received, r)

-- No encryption, or exclusive or.
abbrev pub is_plain : ℕ → Bool
is_plain method = method == encrypt_none || method == encrypt_xor

module _ (m : Mcrypt) where
  pub record Initialised : Type 0 where
    pub status : Status
    pub instance_pointer : Option (CryptInstance m)
    pub globals : Globals

  -- The instance before the cipher is chosen.
  unfoldable pub blank : List ℕ → CryptInstance m
  blank iv = record {
    transmitted_iv = iv;
    td = unset;
    key = unset;
    iv = unset;
    blocksize = 1;
    keysize = 7;
    mcrypt_algorithm = null;
    mcrypt_mode = null;
    iv_size = 0;
  }

  -- From the allocation of the key on.
  unfoldable pub init_key :
      Globals → Memory → List ℕ → m.Td → CryptInstance m → List ℕ → Initialised
  init_key g mem password td ci iv =
      let keysize = m.enc_get_key_size td in
      let sized = record ci { keysize = keysize } in
      if mem.for_key
      then record {
        status = success;
        instance_pointer = some (record sized {
          key = full (key_of keysize password);
          td = full (m.generic_init td (key_of keysize password) keysize iv);
        });
        globals = record g { mcrypt_initialized = true };
      }
      else record {
        status = failure;
        instance_pointer = some (record sized { key = null });
        globals = g;
      }

  -- From the size of the IV on.
  unfoldable pub init_iv : Globals → Memory → List ℕ → m.Td → CryptInstance m → Initialised
  unfolding init_key
  init_iv g mem password td ci =
      let iv_size = m.enc_get_iv_size td in
      let iv = take iv_size ci.transmitted_iv in
      let sized = record ci { iv_size = iv_size } in
      if ltb transmitted_iv_size iv_size
      then record { status = failure; instance_pointer = some ci; globals = g }
      else if mem.for_iv
      then init_key g mem password td (record sized { iv = full iv }) iv
      else record {
        status = failure;
        instance_pointer = some (record sized { iv = null });
        globals = g;
      }

  -- From the names of algorithm and mode on.
  unfoldable pub init_module : Globals → Memory → List ℕ → ℕ → CryptInstance m → Initialised
  unfolding init_iv
  init_module g mem password method ci =
      let named = record ci {
        mcrypt_algorithm = full (algorithm_of method);
        mcrypt_mode = full tt;
      } in
      elim (m.module_open (algorithm_of method)) [
        | none ↦ record {
          status = failure;
          instance_pointer = some (record named { td = null });
          globals = g;
        }
        | some td ↦ init_iv g mem password td (record named { td = full td })
      ]

  unfoldable pub encrypt_init : Globals → Memory → List ℕ → ℕ → Option (List ℕ) → Initialised
  encrypt_init g mem password method received =
      if mem.for_instance
      then (let (iv, random) = transmitted received g.random in
          let g' = record g { random = random } in
          if is_plain method
          then record { status = success; instance_pointer = some (blank iv); globals = g' }
          else init_module g' mem password method (blank iv))
      else record { status = failure; instance_pointer = none; globals = g }

-- What `encrypt_cleanup` gives back.
pub data Resource : Type 0 where
  stream_of key_of_stream iv_of_stream algorithm_name mode_name instance_memory : Resource

-- `free` of a field: freeing null does nothing, freeing an unset field is undefined.
unfoldable pub free : {A : Type 0} → Slot A → Resource → Option (List Resource)
free unset r = none
free null r = some []
free (full a) r = some (r ∷ [])

-- `mcrypt_generic_end`, which is called on an open stream only.
unfoldable pub end_stream : {A : Type 0} → Slot A → Option (List Resource)
end_stream unset = none
end_stream null = none
end_stream (full td) = some (stream_of ∷ [])

-- One release after another.
unfoldable pub both : Option (List Resource) → Option (List Resource) → Option (List Resource)
both none rest = none
both (some done) none = none
both (some done) (some rest) = some (done ++ rest)

module _ (m : Mcrypt) where
  -- `none` is undefined behaviour, and `some` lists what is released.
  unfoldable pub encrypt_cleanup : Bool → ℕ → Option (CryptInstance m) → Option (List Resource)
  unfolding free end_stream both
  encrypt_cleanup mcrypt_initialized method none = some []
  encrypt_cleanup mcrypt_initialized method (some ci) =
      if is_plain method
      then some (instance_memory ∷ [])
      else both (if mcrypt_initialized then end_stream ci.td else some []) (
          both (free ci.key key_of_stream) (
            both (free ci.iv iv_of_stream) (
              both (free ci.mcrypt_algorithm algorithm_name)
                (both (free ci.mcrypt_mode mode_name) (some (instance_memory ∷ []))))))
