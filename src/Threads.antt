-- ===== src/Threads.antt =====
-- crypt_thread_t.cpp and threadManager.cpp: the threads that decrypt packets, and how jobs are dealt
-- out to them. A client is a number. The mutex and the condition variable are in the order of steps:
-- what is done with the mutex is one step, but for the time between the test of the condition and
-- the wait.
pub mod Kept
pub mod Order
pub mod Stop
pub mod Deal
pub mod Manager
mod Tests
use nsca_fast.Prelude.{
  ℕ, suc, ◌+◌, ◌≡◌, ◌≢◌, Bool, true, false, ◌&&◌, List, [], ◌∷◌, ◌++◌, Option, none, some, length,
  get_or, set, take, leb, ltb, ◌==◌, if◌then◌else◌,
}

pub record QueueItem : Type 0 where
  pub method : ℕ
  pub network_client : ℕ

abbrev pub method_decrypt_packet : ℕ
method_decrypt_packet = 2

-- Where the thread is in its loop: `checks` is before the test of the condition, `falls_asleep`
-- after it with the mutex still locked.
pub data Place : Type 0 where
  checks : Place
  falls_asleep : Place
  waits : Place
  works : QueueItem → Place
  finished : Place

pub record CryptThread : Type 0 where
  pub has_ci : Bool
  pub queue_items : List QueueItem
  pub shutdown_requested : Bool
  pub place : Place

unfoldable pub crypt_thread : Bool → CryptThread
crypt_thread has_ci = record {
  has_ci = has_ci;
  queue_items = [];
  shutdown_requested = false;
  place = checks;
}

-- The locked part of add.
unfoldable pub add : QueueItem → CryptThread → CryptThread
add item t = record t { queue_items = t.queue_items ++ item ∷ [] }

unfoldable pub notify_one : CryptThread → CryptThread
notify_one t = elim t.place [
  | waits ↦ record t { place = checks }
  | checks ↦ t
  | falls_asleep ↦ t
  | works item ↦ t
  | finished ↦ t
]

-- The start of join.
unfoldable pub request_shutdown : CryptThread → CryptThread
request_shutdown t = record t { shutdown_requested = true }

-- The turn of the loop up to the unlock: with an empty queue the thread ends or falls asleep.
unfoldable pub check_queue : CryptThread → CryptThread
check_queue t = elim t.queue_items [
  | [] ↦ record t { place = if t.shutdown_requested then finished else falls_asleep }
  | item ∷ rest ↦ record t { queue_items = rest; place = works item }
]

-- The client whose packets are processed for an item.
unfoldable pub handled : Bool → QueueItem → List ℕ
handled has_ci item =
    if item.method == method_decrypt_packet && has_ci then item.network_client ∷ [] else []

-- The end of a turn.
unfoldable pub end_turn : CryptThread → CryptThread
end_turn t = record t { place = if t.shutdown_requested then finished else checks }

-- The thread of the event loop, which adds jobs and joins at the end.
pub data Caller : Type 0 where
  idle : Caller
  notifies : Caller
  notifies_last : Caller
  joins : Caller

-- A thread and its caller, with what was added, what was taken off the queue and which clients were
-- processed, each in order.
pub record System : Type 0 where
  pub thread : CryptThread
  pub caller : Caller
  pub added : List QueueItem
  pub taken : List QueueItem
  pub processed : List ℕ

unfoldable pub begin : Bool → System
begin has_ci = record {
  thread = crypt_thread has_ci;
  caller = idle;
  added = [];
  taken = [];
  processed = [];
}

pub data Step (s : System) : System → Type 0 where
  pushes :
      (item : QueueItem)
      → s.caller ≡ idle
      → s.thread.place ≢ falls_asleep
      → Step s
          (record s { thread = add item s.thread; caller = notifies; added = s.added ++ item ∷ [] })
  tells : s.caller ≡ notifies → Step s (record s { thread = notify_one s.thread; caller = idle })
  -- join does not lock the mutex
  requests :
      s.caller ≡ idle
      → Step s (record s { thread = request_shutdown s.thread; caller = notifies_last })
  tells_last :
      s.caller ≡ notifies_last → Step s (record s { thread = notify_one s.thread; caller = joins })
  looks :
      s.thread.place ≡ checks
      → Step s (record s {
        thread = check_queue s.thread;
        taken = s.taken ++ take 1 s.thread.queue_items;
      })
  sleeps :
      s.thread.place ≡ falls_asleep
      → Step s (record s { thread = record s.thread { place = waits } })
  -- a wait may end without a notification
  wakes : s.thread.place ≡ waits → Step s (record s { thread = record s.thread { place = checks } })
  ends_turn :
      (item : QueueItem)
      → s.thread.place ≡ works item
      → Step s (record s {
        thread = end_turn s.thread;
        processed = s.processed ++ handled s.thread.has_ci item;
      })

pub data Reach (s : System) : System → Type 0 where
  here : Reach s s
  next : {t u : System} → Reach s t → Step t u → Reach s u

-- threadManager: the threads' queues.
pub record ThreadManager : Type 0 where
  pub max_crypt_threads : ℕ
  pub crypt_threads : Option (List CryptThread)
  pub lazy_job_counter : ℕ

-- The thread that gets the next job.
unfoldable pub next_thread : ThreadManager → ℕ
next_thread m = if leb m.max_crypt_threads m.lazy_job_counter then 0 else m.lazy_job_counter

-- add_job up to the notification; `none` is an access out of the array.
unfoldable pub add_job : QueueItem → ThreadManager → Option ThreadManager
unfolding next_thread
add_job item m = elim m.crypt_threads [
  | none ↦ some m
  | some threads ↦
      let i = next_thread m in
      if ltb i (length threads)
      then some (record m {
        crypt_threads = some (set threads i (add item (get_or threads i (crypt_thread false))));
        lazy_job_counter = i + 1;
      })
      else none
]
