-- ===== src/Threads/Tests.antt =====
-- A thread with two jobs, and the theorems on threads.
use nsca_fast.Prelude.{ℕ, ◌+◌, ◌≤◌, ◌≡◌, refl, true, false, List, [], ◌∷◌, none, some, take, arith}
use nsca_fast.Threads.{
  QueueItem, checks, waits, works, CryptThread, crypt_thread, add, notify_one, check_queue, handled,
  idle, joins, System, begin, Step, pushes, tells, looks, wakes, Reach, here, next,
}
use nsca_fast.Threads.Kept.{system, thread, IsKept, all_handled}
use nsca_fast.Threads.Order.{Reach-IsKept}
use nsca_fast.Threads.Stop.{shutdown_drops, join_hangs}
use nsca_fast.Crypt.Mcrypt.{Mcrypt}
use nsca_fast.Crypt.Init.{Globals, Memory}
use nsca_fast.Threads.Manager.{start_threads, join_threads, join_threads_undefined}
use nsca_fast.Threads.Deal.{add_jobs, dealt, queue_of, add_jobs-dealt}

abbrev decrypts : ℕ → QueueItem
decrypts n = record { method = 2; network_client = n }

-- Two jobs come before the thread takes the first.
abbrev at_first : System
at_first =
    system (thread true (decrypts 8 ∷ []) false (works (decrypts 7))) idle
      (decrypts 7 ∷ decrypts 8 ∷ []) (decrypts 7 ∷ []) []

two_jobs : Reach (begin true) at_first
unfolding begin crypt_thread add notify_one check_queue take
two_jobs =
    next
      (next
        (next (next (next here (pushes (decrypts 7) refl (λ e. cc e))) (tells refl))
          (pushes (decrypts 8) refl (λ e. cc e)))
        (tells refl))
      (looks refl)

Reach-IsKept_example : IsKept true at_first
Reach-IsKept_example = Reach-IsKept true two_jobs

abbrev asked : System
asked =
    system (thread true (decrypts 7 ∷ decrypts 8 ∷ []) true checks) joins
      (decrypts 7 ∷ decrypts 8 ∷ []) [] []

one_taken : Reach asked (
    system
      (thread true (decrypts 8 ∷ []) true (works (decrypts 7)))
      joins
      (decrypts 7 ∷ decrypts 8 ∷ [])
      (decrypts 7 ∷ [])
      [])
unfolding check_queue take
one_taken = next here (looks refl)

shutdown_drops_example : 2 ≤ 1 + 1
shutdown_drops_example = shutdown_drops one_taken refl refl

abbrev hung : System
hung = system (thread true [] true waits) joins (decrypts 7 ∷ []) (decrypts 7 ∷ []) (7 ∷ [])

woken :
    Step hung
      (system (thread true [] true checks) joins (decrypts 7 ∷ []) (decrypts 7 ∷ []) (7 ∷ []))
woken = wakes refl

join_hangs_example :
    Reach (begin true) hung
    × (system (thread true [] true checks) joins (decrypts 7 ∷ []) (decrypts 7 ∷ []) (7 ∷ [])
        ≡ system (thread true [] true checks) joins (decrypts 7 ∷ []) (decrypts 7 ∷ []) (7 ∷ []))
unfolding all_handled handled
join_hangs_example =
    join_hangs true (decrypts 7 ∷ [])
      (system (thread true [] true checks) joins (decrypts 7 ∷ []) (decrypts 7 ∷ []) (7 ∷ [])) woken

abbrev two_threads : List CryptThread
two_threads = crypt_thread true ∷ crypt_thread true ∷ []

abbrev jobs : List QueueItem
jobs = decrypts 5 ∷ decrypts 6 ∷ decrypts 7 ∷ []

add_jobs-dealt_example :
    (threads : List CryptThread) × (c : ℕ) × (add_jobs jobs
        (record { max_crypt_threads = 2; crypt_threads = some two_threads; lazy_job_counter = 0 })
      ≡ some (record { max_crypt_threads = 2; crypt_threads = some threads; lazy_job_counter = c }))
    × (queue_of 0 threads ≡ decrypts 5 ∷ decrypts 7 ∷ [])
unfolding dealt crypt_thread
add_jobs-dealt_example = add_jobs-dealt 2 0 0 two_threads jobs (omega arith) refl (omega arith)

-- A libmcrypt without ciphers.
abbrev no_ciphers : Mcrypt
no_ciphers = record {
  Td = ℕ;
  module_open = λ a. none;
  enc_get_iv_size = λ td. 0;
  enc_get_key_size = λ td. 0;
  generic_init = λ td key keysize iv. 0;
  generic = λ td b. (b, td);
  mdecrypt_generic = λ td b. (b, td);
  enc_set_state = λ td state size. td;
  enc_get_state = λ td. ([], 0);
}

abbrev globals : Globals
globals = record { random = record { x = 1; y = 2; z = 3 }; mcrypt_initialized = false }

abbrev memory : ℕ → Memory
memory i = record { for_instance = true; for_iv = true; for_key = true }

join_threads_undefined_example :
    join_threads no_ciphers
      (7 ∷ [])
      3
      (5 ∷ [])
      memory
      false
      (start_threads no_ciphers (7 ∷ []) 3 (5 ∷ []) memory 2 none globals).0
    ≡ none
join_threads_undefined_example =
    join_threads_undefined no_ciphers (7 ∷ []) 3 (5 ∷ []) memory 1 globals false refl refl refl
