-- ===== src/Threads/Deal.antt =====
-- Which thread gets which job.
use native.Mathlib.Nat.{suc-mod, mod_self, mod-eq_of_lt, mod-lt}
use mathlib.Core.List.{append_assoc, append-nil}
use nsca_fast.Prelude.{
  ℕ, suc, ◌+◌, ◌%◌, ◌≤◌, ◌<◌, ◌≡◌, ◌≢◌, refl, sym, ap, ◌∙◌, inl, inr, Bool, true, false, List, [],
  ◌∷◌, ◌++◌, Option, none, some, length, get_or, set, leb, lt→ltb, length-set, get_or-set_same,
  get_or-set_other, arith, ◌==◌, if◌then◌else◌, Bool-cases,
}
use nsca_fast.Threads.{
  QueueItem, CryptThread, crypt_thread, add, ThreadManager, next_thread, add_job,
}

-- Jobs one after another.
unfoldable pub add_jobs : List QueueItem → ThreadManager → Option ThreadManager
add_jobs [] m = some m
add_jobs (item ∷ items) m = elim (add_job item m) [ none ↦ none | some m' ↦ add_jobs items m' ]

-- Of the items from position i on, those whose positions modulo n are k.
unfoldable pub dealt : ℕ → ℕ → ℕ → List QueueItem → List QueueItem
dealt n k i [] = []
dealt n k i (item ∷ items) =
    let rest = dealt n k (suc i) items in if i % n == k then item ∷ rest else rest

abbrev pub queue_of : ℕ → List CryptThread → List QueueItem
queue_of k threads = (get_or threads k (crypt_thread false)).queue_items

dealt_mod :
    (n k i j : ℕ) (items : List QueueItem) → i % n ≡ j % n → dealt n k i items ≡ dealt n k j items
unfolding dealt
dealt_mod n k i j [] e = refl
dealt_mod n k i j (item ∷ items) e =
    rw
      (
        e,
        dealt,
        dealt_mod n k (suc i) (suc j) items
            (suc-mod i n ∙ ap (λ r. suc r % n) e ∙ sym (suc-mod j n)),
      )
      refl

full_counter : (n c : ℕ) → c ≤ n → leb n c ≡ true → c ≡ n
full_counter n c bound h = ground arith

leb-false : (a b : ℕ) → leb a b ≡ false → b < a
leb-false a b h = ground arith

next_thread_mod :
    (n c : ℕ) (threads : Option (List CryptThread))
    → 0 < n
    → c ≤ n
    → next_thread (record { max_crypt_threads = n; crypt_threads = threads; lazy_job_counter = c })
      ≡ c % n
unfolding next_thread
next_thread_mod n c threads some_threads bound = elim (Bool-cases (leb n c)) [
  | inl full ↦ rw (full, full_counter n c bound full) (sym (mod_self n))
  | inr room ↦ rw room (sym (mod-eq_of_lt (leb-false n c room)))
]

add_job_lem :
    (n c : ℕ) (threads : List CryptThread) (item : QueueItem)
    → 0 < n
    → length threads ≡ n
    → c ≤ n
    → add_job item
        (record { max_crypt_threads = n; crypt_threads = some threads; lazy_job_counter = c })
      ≡ some (record {
        max_crypt_threads = n;
        crypt_threads =
            some (set threads (c % n) (add item (get_or threads (c % n) (crypt_thread false))));
        lazy_job_counter = c % n + 1;
      })
unfolding add_job
add_job_lem n c threads item some_threads long bound =
    rw
      (
        next_thread_mod n c (some threads) some_threads bound,
        lt→ltb (c % n) (length threads) (omega (arith, mod-lt c some_threads, long)),
      )
      refl

eq_of_test : (a b : ℕ) → (a == b) ≡ true → a ≡ b
eq_of_test a b h = ground arith

eq_absurd : (a b : ℕ) → (a == b) ≡ false → a ≢ b
eq_absurd a b h = ground arith

queue_of-set :
    (threads : List CryptThread) (i k : ℕ) (item : QueueItem)
    → i < length threads
    → queue_of k (set threads i (add item (get_or threads i (crypt_thread false))))
      ≡ queue_of k threads ++ (if i == k then item ∷ [] else [])
unfolding add
queue_of-set threads i k item h = elim (Bool-cases (i == k)) [
  | inl same ↦
      rw (same, ← eq_of_test i k same)
        (ap (λ t. t.queue_items)
          (get_or-set_same threads i (add item (get_or threads i (crypt_thread false)))
            (crypt_thread false) h))
  | inr other ↦ rw other (
      ap (λ t. t.queue_items)
        (get_or-set_other threads i k (add item (get_or threads i (crypt_thread false)))
          (crypt_thread false) (λ e. eq_absurd i k other e))
      ∙ sym (append-nil (queue_of k threads)))
]

dealt_cons :
    (n k c : ℕ) (item : QueueItem) (items : List QueueItem)
    → (if c % n == k then item ∷ [] else []) ++ dealt n k (c % n + 1) items
      ≡ dealt n k c (item ∷ items)
unfolding dealt
dealt_cons n k c item items =
    ap (λ xs. (if c % n == k then item ∷ [] else []) ++ xs)
      (dealt_mod n k (c % n + 1) (suc c) items (ap (λ x. x % n) (omega arith) ∙ sym (suc-mod c n)))
    ∙ choice (c % n == k)
  where
    choice :
        (b : Bool)
        → (if b then item ∷ [] else []) ++ dealt n k (suc c) items
          ≡ (if b then item ∷ dealt n k (suc c) items else dealt n k (suc c) items)
    choice true = refl
    choice false = refl

-- Jobs that a manager deals out, with its counter at most the number of its threads: no access is
-- out of the array, and each thread's queue gets, in order, the jobs whose positions, counted from
-- the counter on, are the thread's number modulo the number of threads.
pub add_jobs-dealt :
    (n c k : ℕ) (threads : List CryptThread) (items : List QueueItem)
    → 0 < n
    → length threads ≡ n
    → c ≤ n
    → (threads' : List CryptThread) × (c' : ℕ) × (add_jobs items
          (record { max_crypt_threads = n; crypt_threads = some threads; lazy_job_counter = c })
        ≡ some (record {
          max_crypt_threads = n;
          crypt_threads = some threads';
          lazy_job_counter = c';
        }))
      × (queue_of k threads' ≡ queue_of k threads ++ dealt n k c items)
unfolding add_jobs dealt
add_jobs-dealt n c k threads [] some_threads long bound =
    (threads, c, refl, sym (append-nil (queue_of k threads)))
add_jobs-dealt n c k threads (item ∷ items) some_threads long bound =
    let below = mod-lt c some_threads in
    let dealt_to = set threads (c % n) (add item (get_or threads (c % n) (crypt_thread false))) in
    let rest =
      add_jobs-dealt n (c % n + 1) k dealt_to items some_threads
        (length-set threads (c % n) (add item (get_or threads (c % n) (crypt_thread false))) ∙ long)
        (omega (arith, below)) in
    (
      rest.0,
      rest.1,
      rw (add_job_lem n c threads item some_threads long bound, add_jobs) rest.2,
      rest.3
          ∙ ap (λ xs. xs ++ dealt n k (c % n + 1) items)
              (queue_of-set threads (c % n) k item (omega (arith, below, long)))
          ∙ append_assoc (queue_of k threads) (if c % n == k then item ∷ [] else [])
              (dealt n k (c % n + 1) items)
          ∙ ap (λ xs. queue_of k threads ++ xs) (dealt_cons n k c item items),
    )
