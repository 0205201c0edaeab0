-- ===== src/Threads/Kept.antt =====
-- What a thread of crypt_thread_t.cpp and its caller are to keep, as a predicate on their states.
use nsca_fast.Prelude.{ℕ, ◌≡◌, ◌≢◌, refl, sym, ap, ◌∙◌, ◌⊎◌, Bool, true, false, List, [], ◌∷◌, ◌++◌}
use mathlib.Core.List.{append_assoc}
use nsca_fast.Threads.{
  QueueItem, Place, checks, falls_asleep, waits, works, finished, CryptThread, handled, Caller,
  notifies, System,
}

-- The clients of the items that are handled.
unfoldable pub all_handled : Bool → List QueueItem → List ℕ
unfolding handled
all_handled has_ci [] = []
all_handled has_ci (item ∷ items) = handled has_ci item ++ all_handled has_ci items

-- The client that the thread is working for.
unfoldable pub at_work : Bool → Place → List ℕ
unfolding handled
at_work has_ci (works item) = handled has_ci item
at_work has_ci checks = []
at_work has_ci falls_asleep = []
at_work has_ci waits = []
at_work has_ci finished = []

abbrev pub asleep : Place → Bool
asleep falls_asleep = true
asleep waits = true
asleep checks = false
asleep (works item) = false
asleep finished = false

-- Items are taken in the order in which they were added, the clients of the taken ones are processed
-- in that order, and the thread does not sleep over an item of which it is not about to be told.
pub record IsKept (has_ci : Bool) (s : System) : Type 0 where
  pub same_ci : s.thread.has_ci ≡ has_ci
  pub in_order : s.added ≡ s.taken ++ s.thread.queue_items
  pub done : s.processed ++ at_work has_ci s.thread.place ≡ all_handled has_ci s.taken
  pub awake :
      (asleep s.thread.place ≡ false)
      ⊎ (s.thread.queue_items ≡ [])
      ⊎ ((s.thread.place ≡ waits) × (s.caller ≡ notifies))
  pub ended : (s.thread.place ≢ finished) ⊎ (s.thread.shutdown_requested ≡ true)

pub all_handled-append :
    (has_ci : Bool) (xs ys : List QueueItem)
    → all_handled has_ci (xs ++ ys) ≡ all_handled has_ci xs ++ all_handled has_ci ys
unfolding all_handled
all_handled-append has_ci [] ys = refl
all_handled-append has_ci (x ∷ xs) ys =
    ap (λ rest. handled has_ci x ++ rest) (all_handled-append has_ci xs ys)
    ∙ sym (append_assoc (handled has_ci x) (all_handled has_ci xs) (all_handled has_ci ys))

abbrev pub system : CryptThread → Caller → List QueueItem → List QueueItem → List ℕ → System
system t caller added taken processed = record {
  thread = t;
  caller = caller;
  added = added;
  taken = taken;
  processed = processed;
}

abbrev pub thread : Bool → List QueueItem → Bool → Place → CryptThread
thread c items down place = record {
  has_ci = c;
  queue_items = items;
  shutdown_requested = down;
  place = place;
}
