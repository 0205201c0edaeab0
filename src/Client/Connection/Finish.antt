-- ===== src/Client/Connection/Finish.antt =====
-- What becomes of the queue of a connection that connection_closed of network_client.cpp ends: it is
-- processed at once, or by the crypt thread that takes it, in the loop of crypt_thread_t.cpp.
use nsca_fast.Prelude.{
  ℕ, ◌≡◌, ◌≢◌, refl, ap, ◌∙◌, Bool, true, false, List, [], ◌∷◌, Option, none, some, if◌then◌else◌,
}
use nsca_fast.Prelude.Int.{pos, ltb_ℤ}
use nsca_fast.Crypt.Mcrypt.{Mcrypt, CryptInstance}
use nsca_fast.Crypt.Init.{Globals, Memory}
use nsca_fast.Client.Settings.{Settings}
use nsca_fast.Client.Libevent.{Libevent}
use nsca_fast.Client.Deliver.{Delivery}
use nsca_fast.Client.Queue.{Pair}
use nsca_fast.Client.Connection.{
  Connection, Counters, set_ci, is_shared, Closed, dropped, queued, processed, with_own_ci, hand_on,
  connection_closed, process_queue,
}
use nsca_fast.Client.Connection.Closing.{handed, hand_on-packets}

module _ (l : Libevent) (m : Mcrypt) (d : Delivery) (s : Settings) (thread_id : ℕ)
    (thread_ci : Option (CryptInstance m)) where
  -- The turn of a crypt thread for a client: nothing without an instance of the thread's.
  unfoldable pub process_item : Connection l m → d.World → Counters → Option (d.World × Counters)
  process_item c w k = elim thread_ci [
    | none ↦ some (w, k)
    | some ci ↦ process_queue l m d s thread_id true (set_ci l m (some ci) c) w k
  ]

  -- The event loop processes a queue as the thread 0, a crypt thread as itself. `calloc` succeeds.
  unfoldable pub process_closed : Closed l m → d.World → Counters → Option (d.World × Counters)
  unfolding process_item
  process_closed dropped w k = some (w, k)
  process_closed (queued c) w k = process_item c w k
  process_closed (processed c) w k = process_queue l m d s 0 true c w k

  -- Who processes a queue, and on which instance in the shared mode.
  abbrev pub has_threads : Bool
  has_threads = ltb_ℤ (pos 0) s.nsca_threads_per_worker

  abbrev pub processing_id : ℕ
  processing_id = if has_threads then thread_id else 0

  set_ci_shared :
      (c : Connection l m) (ci : CryptInstance m)
      → c.has_own_ci ≡ false
      → set_ci l m (some ci) c ≡ record c { ci = some ci }
  unfolding set_ci
  set_ci_shared c ci shared = rw shared refl

  with_own_ci_shared :
      (g : Globals) (mem : Memory) (c : Connection l m)
      → is_shared s ≡ true
      → (with_own_ci l m s g mem c).0 ≡ some c
  unfolding with_own_ci
  with_own_ci_shared g mem c shared = rw shared refl

  -- In the shared mode a closed connection with packets is processed on the instance of the thread
  -- that takes it, and without threads on that of the network.
  pub process_closed_shared :
      (g : Globals) (mem : Memory) (c : Connection l m) (k : Counters)
      (network_ci : Option (CryptInstance m)) (ci : CryptInstance m) (w : d.World) (k' : Counters)
      → is_shared s ≡ true
      → c.data_packets ≢ []
      → c.ci ≡ network_ci
      → c.has_own_ci ≡ false
      → (if has_threads then thread_ci else network_ci) ≡ some ci
      → process_closed (connection_closed l m s g mem c k).0 w k'
        ≡ process_queue l m d s processing_id true (record c { ci = some ci }) w k'
  unfolding process_closed connection_closed hand_on
  process_closed_shared g mem c k network_ci ci w k' shared some_packets same no_own used =
      ap (λ r. process_closed (hand_on l m s r) w k') (with_own_ci_shared g mem c shared)
      ∙ by_packets c.data_packets has_threads some_packets used
    where
      by_packets :
          (packets : List Pair) (threads : Bool)
          → packets ≢ []
          → (if threads then thread_ci else network_ci) ≡ some ci
          → process_closed
              (elim packets [ [] ↦ dropped | _ ∷ _ ↦ if threads then queued c else processed c ])
              w
              k'
            ≡ process_queue l m d s
                (if threads then thread_id else 0)
                true
                (record c { ci = some ci })
                w
                k'
      by_packets [] threads some_there chosen = absurd (some_there refl)
      by_packets (p ∷ packets) true some_there chosen =
          rw (chosen, process_item, set_ci_shared c ci no_own) refl
      by_packets (p ∷ packets) false some_there chosen =
          ap (λ i. process_queue l m d s 0 true (record c { ci = i }) w k') (same ∙ chosen)

  set_ci_own :
      (c : Connection l m) (ci : CryptInstance m) → c.has_own_ci ≡ true → set_ci l m (some ci) c ≡ c
  unfolding set_ci
  set_ci_own c ci own = rw own refl

  process_item_own :
      (c : Connection l m) (w : d.World) (k : Counters)
      → c.has_own_ci ≡ true
      → thread_ci ≢ none
      → process_item c w k ≡ process_queue l m d s thread_id true c w k
  unfolding process_item
  process_item_own c w k own there = by_instance thread_ci refl
    where
      by_instance :
          (t : Option (CryptInstance m))
          → thread_ci ≡ t
          → process_item c w k ≡ process_queue l m d s thread_id true c w k
      by_instance none e = absurd (there e)
      by_instance (some ci) e = rw (e, process_item, set_ci_own c ci own) refl

  -- A closed connection with an instance of its own is processed on that one, if its thread has one
  -- at all.
  pub process_closed_own :
      (g : Globals) (mem : Memory) (c own : Connection l m) (k : Counters) (w : d.World)
      (k' : Counters)
      → handed l m (connection_closed l m s g mem c k).0 ≡ some own
      → own.has_own_ci ≡ true
      → (has_threads ≡ true → thread_ci ≢ none)
      → process_closed (connection_closed l m s g mem c k).0 w k'
        ≡ process_queue l m d s processing_id true own w k'
  unfolding process_closed connection_closed hand_on
  process_closed_own g mem c own k w k' e owns there =
      let ready = hand_on-packets l m s (with_own_ci l m s g mem c).0 own e in
      ap (λ r. process_closed (hand_on l m s r) w k') ready.0
      ∙ by_packets own.data_packets has_threads ready.1 there
    where
      by_packets :
          (packets : List Pair) (threads : Bool)
          → packets ≢ []
          → (threads ≡ true → thread_ci ≢ none)
          → process_closed
              (elim packets [
                | [] ↦ dropped
                | _ ∷ _ ↦ if threads then queued own else processed own
              ])
              w
              k'
            ≡ process_queue l m d s (if threads then thread_id else 0) true own w k'
      by_packets [] threads some_there has_ci = absurd (some_there refl)
      by_packets (p ∷ packets) true some_there has_ci = process_item_own own w k' owns (has_ci refl)
      by_packets (p ∷ packets) false some_there has_ci = refl
