-- ===== src/Threads/Manager.antt =====
-- start and join of threadManager.cpp: the crypt instances of the threads. Which calls of `malloc`
-- succeed is an argument, by the thread's number.
use nsca_fast.Prelude.{
  ℕ, zero, suc, ◌+◌, ◌≡◌, ◌≢◌, refl, Bool, true, false, List, [], ◌∷◌, Option, none, some,
}
use nsca_fast.Crypt.Mcrypt.{Mcrypt, CryptInstance, algorithm_of}
use nsca_fast.Crypt.Init.{Globals, Memory, Resource, both, is_plain, encrypt_init, encrypt_cleanup}
use nsca_fast.Crypt.Init.Laws.{encrypt_cleanup_undefined}

module _ (m : Mcrypt) (password : List ℕ) (method : ℕ) (iv : List ℕ) (mem : ℕ → Memory) where
  -- The instances of `left` threads from thread `i` on, whatever encrypt_init returns.
  unfoldable pub init_from : ℕ → ℕ → Globals → List (Option (CryptInstance m)) × Globals
  unfolding encrypt_init
  init_from zero i g = ([], g)
  init_from (suc left) i g =
      let r = encrypt_init m g (mem i) password method (some iv) in
      let rest = init_from left (i + 1) r.globals in (r.instance_pointer ∷ rest.0, rest.1)

  -- start: nothing if there are threads already.
  unfoldable pub start_threads :
      ℕ
      → Option (List (Option (CryptInstance m)))
      → Globals
      → Option (List (Option (CryptInstance m))) × Globals
  unfolding init_from
  start_threads max_crypt_threads (some threads) g = (some threads, g)
  start_threads max_crypt_threads none g =
      let r = init_from max_crypt_threads 0 g in (some r.0, r.1)

  -- join, as far as the instances go; `none` is undefined behaviour.
  unfoldable pub cleanup_all : Bool → List (Option (CryptInstance m)) → Option (List Resource)
  unfolding encrypt_cleanup both
  cleanup_all initialized [] = some []
  cleanup_all initialized (none ∷ rest) = cleanup_all initialized rest
  cleanup_all initialized (some ci ∷ rest) =
      both (encrypt_cleanup m initialized method (some ci)) (cleanup_all initialized rest)

  unfoldable pub join_threads :
      Bool → Option (List (Option (CryptInstance m))) → Option (List Resource)
  unfolding cleanup_all
  join_threads initialized none = some []
  join_threads initialized (some threads) = cleanup_all initialized threads

  cleanup_all_undefined :
      (initialized : Bool) (ci : Option (CryptInstance m)) (rest : List (Option (CryptInstance m)))
      → ci ≢ none
      → encrypt_cleanup m initialized method ci ≡ none
      → cleanup_all initialized (ci ∷ rest) ≡ none
  unfolding cleanup_all both
  cleanup_all_undefined initialized none rest there undefined_now = absurd (there refl)
  cleanup_all_undefined initialized (some ci) rest there undefined_now =
      rw (undefined_now, both) refl

  -- If libmcrypt cannot open the cipher's module, a start with at least one thread goes through, and
  -- the join of its threads is undefined.
  pub join_threads_undefined :
      (threads : ℕ) (g : Globals) (initialized : Bool)
      → is_plain method ≡ false
      → (mem 0).for_instance ≡ true
      → m.module_open (algorithm_of method) ≡ none
      → join_threads initialized (start_threads (suc threads) none g).0 ≡ none
  unfolding join_threads start_threads init_from
  join_threads_undefined threads g initialized ciphered there closed =
      let broken =
        encrypt_cleanup_undefined m g (mem 0) password method (some iv) ciphered there closed
          initialized in
      cleanup_all_undefined initialized _ _ broken.1 broken.2
