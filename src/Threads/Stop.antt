-- ===== src/Threads/Stop.antt =====
-- What a shutdown does to a thread and its jobs.
use nsca_fast.Prelude.{
  ℕ, ◌+◌, ◌≤◌, ◌≡◌, refl, sym, ap, subst, ◌∙◌, Bool, true, false, List, [], ◌∷◌, ◌++◌, length, take,
  arith,
}
use mathlib.Core.List.{append_assoc, append-nil}
use nsca_fast.Threads.{
  QueueItem, Place, checks, falls_asleep, waits, works, finished, CryptThread, crypt_thread, add,
  notify_one, request_shutdown, check_queue, handled, end_turn, Caller, idle, notifies,
  notifies_last, joins, System, begin, Step, pushes, tells, requests, tells_last, looks, sleeps,
  wakes, ends_turn, Reach, here, next,
}
use nsca_fast.Threads.Kept.{system, thread, all_handled}

-- The caller has requested the shutdown.
abbrev pub requested : Caller → Bool
requested idle = false
requested notifies = false
requested notifies_last = true
requested joins = true

-- An item that has been taken since the request.
abbrev spent : Place → ℕ
spent checks = 0
spent falls_asleep = 0
spent waits = 0
spent (works item) = 1
spent finished = 1

abbrev left : System → ℕ
left s = length s.thread.queue_items + spent s.thread.place

notify_one_left :
    (t : CryptThread)
    → t.shutdown_requested ≡ true
    → ((notify_one t).shutdown_requested ≡ true)
      × (length t.queue_items + spent t.place
          ≤ length (notify_one t).queue_items + spent (notify_one t).place)
unfolding notify_one
notify_one_left t down = ground (arith, down)

check_queue_left :
    (t : CryptThread)
    → t.place ≡ checks
    → t.shutdown_requested ≡ true
    → ((check_queue t).shutdown_requested ≡ true)
      × (length t.queue_items + spent t.place
          ≤ length (check_queue t).queue_items + spent (check_queue t).place)
unfolding check_queue
check_queue_left t at down = ground (arith, at, down)

Step-left :
    {s t : System}
    → Step s t
    → s.thread.shutdown_requested ≡ true
    → requested s.caller ≡ true
    → (t.thread.shutdown_requested ≡ true) × (requested t.caller ≡ true) × (left s ≤ left t)
unfolding end_turn
Step-left (pushes item free unlocked) down r = absurd (cc (sym (ap requested free) ∙ r))
Step-left (tells told) down r = absurd (cc (sym (ap requested told) ∙ r))
Step-left (requests free) down r = absurd (cc (sym (ap requested free) ∙ r))
Step-left {s} (tells_last told) down r =
    let kept = notify_one_left s.thread down in (kept.0, refl, kept.1)
Step-left {s} (looks at) down r =
    let kept = check_queue_left s.thread at down in (kept.0, r, kept.1)
Step-left {s} (sleeps at) down r = (down, r, omega (arith, ap spent at))
Step-left {s} (wakes at) down r = (down, r, omega (arith, ap spent at))
Step-left {s} (ends_turn item at) down r = (down, r, simp down (omega (arith, ap spent at)))

Reach-left :
    {s t : System}
    → Reach s t
    → s.thread.shutdown_requested ≡ true
    → requested s.caller ≡ true
    → (t.thread.shutdown_requested ≡ true) × (requested t.caller ≡ true) × (left s ≤ left t)
Reach-left here down r = (down, r, omega arith)
Reach-left (next before step) down r =
    let sofar = Reach-left before down r in
    let after = Step-left step sofar.0 sofar.1 in
    (after.0, after.1, omega (arith, sofar.2, after.2))

spent_one : (p : Place) → spent p ≤ 1
spent_one p = ground arith

-- Once join has requested the shutdown, all but one of the items that are in the queue stay there,
-- however the steps go on.
pub shutdown_drops :
    {s t : System}
    → Reach s t
    → s.thread.shutdown_requested ≡ true
    → requested s.caller ≡ true
    → length s.thread.queue_items ≤ length t.thread.queue_items + 1
shutdown_drops {s} {t} r down asked =
    omega (arith, (Reach-left r down asked).2, spent_one t.thread.place)

-- A thread that falls asleep when all its items are processed, with the mutex still locked.
abbrev drowsy : Bool → List QueueItem → List ℕ → System
drowsy ci items processed = system (thread ci [] false falls_asleep) idle items items processed

abbrev drowsy_joined : Bool → List QueueItem → List ℕ → System
drowsy_joined ci items processed = system (thread ci [] true waits) joins items items processed

drowsy_next :
    (ci : Bool) (s : System) (item : QueueItem) (items : List QueueItem) (processed : List ℕ)
    → Reach s (drowsy ci items processed)
    → Reach s (drowsy ci (items ++ item ∷ []) (processed ++ handled ci item))
unfolding add notify_one check_queue end_turn take
drowsy_next ci s item items processed r =
    subst
      (λ xs. Reach s (
        system (thread ci [] false falls_asleep) idle (items ++ item ∷ []) xs
          (processed ++ handled ci item)))
      (append-nil (items ++ item ∷ []))
      (next
        (next
          (next (next (next (next r (sleeps refl)) (pushes item refl (λ e. cc e))) (tells refl))
            (looks refl))
          (ends_turn item refl))
        (looks refl))

drowsy_all :
    (ci : Bool) (s : System) (items more : List QueueItem) (processed : List ℕ)
    → Reach s (drowsy ci items processed)
    → Reach s (drowsy ci (items ++ more) (processed ++ all_handled ci more))
unfolding all_handled
drowsy_all ci s items [] processed r =
    subst (λ xs. Reach s (drowsy ci xs (processed ++ []))) (sym (append-nil items))
      (subst (λ ps. Reach s (drowsy ci items ps)) (sym (append-nil processed)) r)
drowsy_all ci s items (item ∷ more) processed r =
    subst (λ xs. Reach s (drowsy ci xs (processed ++ all_handled ci (item ∷ more))))
      (append_assoc items (item ∷ []) more)
      (subst (λ ps. Reach s (drowsy ci ((items ++ item ∷ []) ++ more) ps))
        (append_assoc processed (handled ci item) (all_handled ci more))
        (drowsy_all ci s (items ++ item ∷ []) more (processed ++ handled ci item)
          (drowsy_next ci s item items processed r)))

begin-drowsy : (ci : Bool) → Reach (begin ci) (drowsy ci [] [])
unfolding begin crypt_thread check_queue take
begin-drowsy ci = next here (looks refl)

drowsy_joins :
    (ci : Bool) (s : System) (items : List QueueItem) (processed : List ℕ)
    → Reach s (drowsy ci items processed)
    → Reach s (drowsy_joined ci items processed)
unfolding request_shutdown notify_one
drowsy_joins ci s items processed r =
    next (next (next r (requests refl)) (tells_last refl)) (sleeps refl)

-- After any items the steps can come to a thread that waits while join waits for its end: join
-- notified it between its test of the condition and its wait. The only step from there is a wait
-- that ends without a notification.
pub join_hangs :
    (ci : Bool) (items : List QueueItem) (t : System)
    → Step (system (thread ci [] true waits) joins items items (all_handled ci items)) t
    → Reach (begin ci) (system (thread ci [] true waits) joins items items (all_handled ci items))
      × (t ≡ system (thread ci [] true checks) joins items items (all_handled ci items))
join_hangs ci items t step = (
  drowsy_joins ci (begin ci) items (all_handled ci items)
      (drowsy_all ci (begin ci) [] items [] (begin-drowsy ci)),
  only_wakes step,
)
  where
    only_wakes :
        {u : System}
        → Step (drowsy_joined ci items (all_handled ci items)) u
        → u ≡ system (thread ci [] true checks) joins items items (all_handled ci items)
    only_wakes (pushes item free unlocked) = absurd (cc free)
    only_wakes (tells told) = absurd (cc told)
    only_wakes (requests free) = absurd (cc free)
    only_wakes (tells_last told) = absurd (cc told)
    only_wakes (looks at) = absurd (cc at)
    only_wakes (sleeps at) = absurd (cc at)
    only_wakes (wakes at) = refl
    only_wakes (ends_turn item at) = absurd (cc at)
