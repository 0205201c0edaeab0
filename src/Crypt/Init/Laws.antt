-- ===== src/Crypt/Init/Laws.antt =====
-- When encrypt_init succeeds, what it leaves, and which instances encrypt_cleanup can take.
use nsca_fast.Prelude.{
  ℕ, ◌-◌, ◌≤◌, ◌≡◌, ◌≢◌, ◌⊎◌, inl, inr, refl, sym, ◌∙◌, Bool, true, false, List, [], ◌∷◌, Option,
  none, some, ap, subst, length, take, replicate, arith, ltb, if◌then◌else◌, length-append,
  length-take, length-replicate, Bool-cases, Option-cases,
}
use mathlib.Core.Option.{some-injective}
use nsca_fast.Crypt.Mcrypt.{Mcrypt, CryptInstance, algorithm_of, full, transmitted_iv_size}
use nsca_fast.Crypt.Init.{
  success, failure, Globals, Memory, key_of, transmitted, is_plain, Initialised, blank, init_key,
  init_iv, init_module, encrypt_init, encrypt_cleanup, stream_of, key_of_stream, iv_of_stream,
  algorithm_name, mode_name, instance_memory, free, end_stream, both,
}

-- A key has the size that the cipher asks for.
pub length-key_of : (keysize : ℕ) (password : List ℕ) → length (key_of keysize password) ≡ keysize
unfolding key_of
length-key_of keysize password = ground (
  arith,
  length-take keysize password,
  length-append password (replicate (keysize - length password) 0),
  length-replicate {A = ℕ} (keysize - length password) 0,
)

module _ (m : Mcrypt) where
  -- A stream that is open on the key made of the password and on the first bytes of the IV.
  pub record IsOpen (password : List ℕ) (ci : CryptInstance m) : Type 0 where
    pub opened : m.Td
    pub keyed :
        ci.td
        ≡ full (
            m.generic_init opened
              (key_of ci.keysize password)
              ci.keysize
              (take ci.iv_size ci.transmitted_iv))
    pub keysize_asked : ci.keysize ≡ m.enc_get_key_size opened
    pub iv_size_asked : ci.iv_size ≡ m.enc_get_iv_size opened
    pub iv_fits : ci.iv_size ≤ 128
    pub iv_copied : ci.iv ≡ full (take ci.iv_size ci.transmitted_iv)
    pub key_kept : ci.key ≡ full (key_of ci.keysize password)

  -- The instance that a successful initialisation leaves.
  unfoldable pub open_instance : List ℕ → ℕ → List ℕ → m.Td → CryptInstance m
  open_instance password method iv td = record {
    transmitted_iv = iv;
    td = full (
        m.generic_init td (key_of (m.enc_get_key_size td) password) (m.enc_get_key_size td)
          (take (m.enc_get_iv_size td) iv));
    key = full (key_of (m.enc_get_key_size td) password);
    iv = full (take (m.enc_get_iv_size td) iv);
    blocksize = 1;
    keysize = m.enc_get_key_size td;
    mcrypt_algorithm = full (algorithm_of method);
    mcrypt_mode = full tt;
    iv_size = m.enc_get_iv_size td;
  }

  open_instance-IsOpen :
      (password : List ℕ) (method : ℕ) (iv : List ℕ) (td : m.Td)
      → m.enc_get_iv_size td ≤ 128
      → IsOpen password (open_instance password method iv td)
  unfolding open_instance
  open_instance-IsOpen password method iv td h = record {
    opened = td;
    keyed = refl;
    keysize_asked = refl;
    iv_size_asked = refl;
    iv_fits = h;
    iv_copied = refl;
    key_kept = refl;
  }

  module _ (mem : Memory) (password : List ℕ) (method : ℕ) where
    -- Success means that every call on the way succeeded.
    abbrev Succeeds : List ℕ → Initialised m → Type 0
    Succeeds iv r =
        (r.status ≡ failure)
        ⊎ ((td : m.Td) × (m.module_open (algorithm_of method) ≡ some td)
            × (m.enc_get_iv_size td ≤ 128)
            × (r.instance_pointer ≡ some (open_instance password method iv td)))

    init_module_cases :
        (g : Globals) (iv : List ℕ) → Succeeds iv (init_module m g mem password method (blank m iv))
    unfolding init_module open_instance blank
    init_module_cases g iv = elim (Option-cases (m.module_open (algorithm_of method))) [
      | inl e ↦ inl (rw (e, init_module) refl)
      | inr (td, e) ↦ elim (Bool-cases (ltb transmitted_iv_size (m.enc_get_iv_size td))) [
        | inl large ↦ inl (rw (e, init_module, large) refl)
        | inr fits ↦ elim (Bool-cases mem.for_iv) [
          | inl iv_there ↦ elim (Bool-cases mem.for_key) [
            | inl key_there ↦
                inr (td, e, ground arith, rw (e, init_module, fits, iv_there, key_there) refl)
            | inr no_key ↦ inl (rw (e, init_module, fits, iv_there, no_key) refl)
          ]
          | inr no_iv ↦ inl (rw (e, init_module, fits, no_iv) refl)
        ]
      ]
    ]

    module _ (g : Globals) (received : Option (List ℕ)) where
      -- `encrypt_init` with a cipher, when it succeeds, leaves an instance whose stream is open: the
      -- IV, at most 128 bytes, is the start of the transmitted IV, the key is the password cut or
      -- padded with zeros to the cipher's size, and libmcrypt was initialised with both. The
      -- transmitted IV is the received one if there is one, and else a generated one.
      pub encrypt_init-IsOpen :
          is_plain method ≡ false
          → (encrypt_init m g mem password method received).status ≡ success
          → (ci : CryptInstance m) × ((encrypt_init m g mem password method
                received).instance_pointer
              ≡ some ci)
            × IsOpen password ci
            × (ci.transmitted_iv ≡ (transmitted received g.random).0)
      unfolding encrypt_init init_module
      encrypt_init-IsOpen ciphered ok = elim (Bool-cases mem.for_instance) [
        | inl there ↦ elim (init_module_cases started iv) [
          | inl failed ↦ absurd (cc (sym (rw (there, ciphered) at ok) ∙ failed))
          | inr (td, e, fits, made) ↦ (
            open_instance password method iv td,
            rw (there, ciphered) made,
            open_instance-IsOpen password method iv td fits,
            unfold open_instance in refl,
          )
        ]
        | inr missing ↦ absurd (cc (rw missing at ok))
      ]
        where
          iv : List ℕ
          iv = (transmitted received g.random).0

          started : Globals
          started = record g { random = (transmitted received g.random).1 }

      -- The same with the stream that libmcrypt opens for the method.
      pub encrypt_init-open_instance :
          (td : m.Td)
          → is_plain method ≡ false
          → m.module_open (algorithm_of method) ≡ some td
          → (encrypt_init m g mem password method received).status ≡ success
          → ((encrypt_init m g mem password method received).instance_pointer
              ≡ some (open_instance password method (transmitted received g.random).0 td))
            × (m.enc_get_iv_size td ≤ 128)
      unfolding encrypt_init init_module
      encrypt_init-open_instance td ciphered opened ok = elim (Bool-cases mem.for_instance) [
        | inl there ↦
            elim (init_module_cases (record g { random = (transmitted received g.random).1 })
              (transmitted received g.random).0) [
                | inl failed ↦ absurd (cc (sym (rw (there, ciphered) at ok) ∙ failed))
                | inr (td', opened', fits, made) ↦
                    let same = some-injective td' td (sym opened' ∙ opened) in
                    (
                      rw (there, ciphered)
                          (made
                            ∙ ap
                                (λ t. some (
                                  open_instance password method (transmitted received g.random).0
                                    t))
                                same),
                      subst (λ t. m.enc_get_iv_size t ≤ 128) same fits,
                    )
              ]
        | inr missing ↦ absurd (cc (rw missing at ok))
      ]

  -- An instance that `encrypt_init` made with success is released whole by `encrypt_cleanup`: with a
  -- cipher its stream, key, IV and names and then the instance, and else the instance alone.
  pub encrypt_cleanup-encrypt_init :
      (g : Globals) (mem : Memory) (password : List ℕ) (method : ℕ) (received : Option (List ℕ))
      → (encrypt_init m g mem password method received).status ≡ success
      → encrypt_cleanup m
          (encrypt_init m g mem password method received).globals.mcrypt_initialized
          method
          (encrypt_init m g mem password method received).instance_pointer
        ≡ some (
            if is_plain method
            then instance_memory ∷ []
            else stream_of ∷ key_of_stream ∷ iv_of_stream ∷ algorithm_name ∷ mode_name
              ∷ instance_memory ∷ [])
  unfolding encrypt_cleanup encrypt_init init_module init_iv init_key blank free end_stream both
  encrypt_cleanup-encrypt_init g mem password method received ok = ground arith

  -- Whenever libmcrypt cannot open the module, `encrypt_init` fails but still hands out an instance,
  -- and `encrypt_cleanup` of that instance with that method is undefined: its key is never set.
  pub encrypt_cleanup_undefined :
      (g : Globals) (mem : Memory) (password : List ℕ) (method : ℕ) (received : Option (List ℕ))
      → is_plain method ≡ false
      → mem.for_instance ≡ true
      → m.module_open (algorithm_of method) ≡ none
      → (initialized : Bool)
      → let r = encrypt_init m g mem password method received in
        (r.status ≡ failure)
        × (r.instance_pointer ≢ none)
        × (encrypt_cleanup m initialized method r.instance_pointer ≡ none)
  unfolding encrypt_cleanup encrypt_init init_module init_iv init_key blank free end_stream both
  encrypt_cleanup_undefined g mem password method received ciphered there closed initialized =
      ground arith
