-- ===== src/Threads/Order.antt =====
-- The order of a thread's jobs, whatever the order of its steps and of its caller's.
use nsca_fast.Prelude.{
  ℕ, ◌≡◌, ◌≢◌, refl, sym, ap, subst, ◌∙◌, ◌⊎◌, inl, inr, Bool, true, false, List, [], ◌∷◌, ◌++◌,
  take,
}
use mathlib.Core.List.{append_assoc, append-nil}
use nsca_fast.Threads.{
  QueueItem, Place, checks, falls_asleep, waits, works, finished, crypt_thread, add, notify_one,
  request_shutdown, check_queue, handled, end_turn, Caller, idle, notifies, joins, System, begin,
  Step, pushes, tells, requests, tells_last, looks, sleeps, wakes, ends_turn, Reach, here, next,
}
use nsca_fast.Threads.Kept.{
  all_handled, at_work, asleep, IsKept, all_handled-append, system, thread,
}

module _ (ci : Bool) where
  begin-IsKept : IsKept ci (begin ci)
  unfolding begin crypt_thread at_work all_handled
  begin-IsKept = record {
    same_ci = refl;
    in_order = refl;
    done = refl;
    awake = inl refl;
    ended = inl (λ e. cc e);
  }

  -- The steps of the thread.
  look-IsKept :
      (c : Bool) (items : List QueueItem) (down : Bool) (caller : Caller)
      (added taken : List QueueItem) (processed : List ℕ)
      → IsKept ci (system (thread c items down checks) caller added taken processed)
      → IsKept ci (
          system
            (check_queue (thread c items down checks))
            caller
            added
            (taken ++ take 1 items)
            processed)
  unfolding check_queue at_work take all_handled
  look-IsKept c [] true caller added taken processed k = record {
    same_ci = k.same_ci;
    in_order = k.in_order ∙ sym (append-nil (taken ++ []));
    done = k.done ∙ sym (ap (all_handled ci) (append-nil taken));
    awake = inl refl;
    ended = inr refl;
  }
  look-IsKept c [] false caller added taken processed k = record {
    same_ci = k.same_ci;
    in_order = k.in_order ∙ sym (append-nil (taken ++ []));
    done = k.done ∙ sym (ap (all_handled ci) (append-nil taken));
    awake = inr (inl refl);
    ended = inl (λ e. cc e);
  }
  look-IsKept c (item ∷ items) down caller added taken processed k = record {
    same_ci = k.same_ci;
    in_order = k.in_order ∙ sym (append_assoc taken (item ∷ []) items);
    done =
        ap (λ xs. xs ++ handled ci item) (sym (append-nil processed) ∙ k.done)
        ∙ ap (λ xs. all_handled ci taken ++ xs) (sym (append-nil (handled ci item)))
        ∙ sym (all_handled-append ci taken (item ∷ []));
    awake = inl refl;
    ended = inl (λ e. cc e);
  }

  end-IsKept :
      (c : Bool) (items : List QueueItem) (down : Bool) (item : QueueItem) (caller : Caller)
      (added taken : List QueueItem) (processed : List ℕ)
      → IsKept ci (system (thread c items down (works item)) caller added taken processed)
      → IsKept ci (
          system
            (end_turn (thread c items down (works item)))
            caller
            added
            taken
            (processed ++ handled c item))
  unfolding end_turn at_work
  end-IsKept c items true item caller added taken processed k = record {
    same_ci = k.same_ci;
    in_order = k.in_order;
    done = append-nil (processed ++ handled c item) ∙ rw k.same_ci k.done;
    awake = inl refl;
    ended = inr refl;
  }
  end-IsKept c items false item caller added taken processed k = record {
    same_ci = k.same_ci;
    in_order = k.in_order;
    done = append-nil (processed ++ handled c item) ∙ rw k.same_ci k.done;
    awake = inl refl;
    ended = inl (λ e. cc e);
  }

  -- A place that changes while nothing is taken or processed.
  moved :
      (s : System) (place : Place) (caller : Caller)
      → IsKept ci s
      → at_work ci place ≡ at_work ci s.thread.place
      → place ≢ finished
      → (asleep place ≡ false)
        ⊎ (s.thread.queue_items ≡ [])
        ⊎ ((place ≡ waits) × (caller ≡ notifies))
      → IsKept ci (record s { thread = record s.thread { place = place }; caller = caller })
  moved s place caller k same running awake = record {
    same_ci = k.same_ci;
    in_order = k.in_order;
    done = ap (λ xs. s.processed ++ xs) same ∙ k.done;
    awake = awake;
    ended = inl running;
  }

  -- Asleep with the mutex locked, the queue is empty.
  empty_asleep :
      (s : System) → IsKept ci s → s.thread.place ≡ falls_asleep → s.thread.queue_items ≡ []
  empty_asleep s k e = elim k.awake [
    | inl a ↦ absurd (cc (sym (ap asleep e) ∙ a))
    | inr (inl empty) ↦ empty
    | inr (inr (w, n)) ↦ absurd (cc (e, w))
  ]

  notify-IsKept :
      (c : Bool) (items : List QueueItem) (down : Bool) (place : Place) (caller caller' : Caller)
      (added taken : List QueueItem) (processed : List ℕ)
      → IsKept ci (system (thread c items down place) caller added taken processed)
      → IsKept ci (system (notify_one (thread c items down place)) caller' added taken processed)
  unfolding notify_one at_work
  notify-IsKept c items down checks caller caller' added taken processed k =
      moved (system (thread c items down checks) caller added taken processed) checks caller' k refl
        (λ e. cc e) (inl refl)
  notify-IsKept c items down falls_asleep caller caller' added taken processed k =
      moved (system (thread c items down falls_asleep) caller added taken processed) falls_asleep
        caller' k refl (λ e. cc e)
        (inr (
          inl (
            empty_asleep (system (thread c items down falls_asleep) caller added taken processed) k
              refl)))
  notify-IsKept c items down waits caller caller' added taken processed k =
      moved (system (thread c items down waits) caller added taken processed) checks caller' k refl
        (λ e. cc e) (inl refl)
  notify-IsKept c items down (works item) caller caller' added taken processed k =
      moved (system (thread c items down (works item)) caller added taken processed) (works item)
        caller' k refl (λ e. cc e) (inl refl)
  notify-IsKept c items down finished caller caller' added taken processed k = record {
    same_ci = k.same_ci;
    in_order = k.in_order;
    done = k.done;
    awake = inl refl;
    ended = k.ended;
  }

  place_cases : (p : Place) → (asleep p ≡ false) ⊎ (p ≡ falls_asleep) ⊎ (p ≡ waits)
  place_cases checks = inl refl
  place_cases falls_asleep = inr (inl refl)
  place_cases waits = inr (inr refl)
  place_cases (works item) = inl refl
  place_cases finished = inl refl

  Step-IsKept : {s t : System} → Step s t → IsKept ci s → IsKept ci t
  unfolding add request_shutdown at_work
  Step-IsKept {s} (pushes item free unlocked) k = record {
    same_ci = k.same_ci;
    in_order =
        ap (λ xs. xs ++ item ∷ []) k.in_order
        ∙ append_assoc s.taken s.thread.queue_items (item ∷ []);
    done = k.done;
    awake = elim (place_cases s.thread.place) [
      | inl a ↦ inl a
      | inr (inl e) ↦ absurd (unlocked e)
      | inr (inr e) ↦ inr (inr (e, refl))
    ];
    ended = k.ended;
  }
  Step-IsKept {s} (tells told) k =
      notify-IsKept s.thread.has_ci s.thread.queue_items s.thread.shutdown_requested s.thread.place
        s.caller idle s.added s.taken s.processed k
  Step-IsKept {s} (requests free) k = record {
    same_ci = k.same_ci;
    in_order = k.in_order;
    done = k.done;
    awake = elim k.awake [
      | inl a ↦ inl a
      | inr (inl e) ↦ inr (inl e)
      | inr (inr (e, n)) ↦ absurd (cc (free, n))
    ];
    ended = inr refl;
  }
  Step-IsKept {s} (tells_last told) k =
      notify-IsKept s.thread.has_ci s.thread.queue_items s.thread.shutdown_requested s.thread.place
        s.caller joins s.added s.taken s.processed k
  Step-IsKept {s} (looks at) k =
      subst
        (λ p.
          IsKept ci (
            system (thread s.thread.has_ci s.thread.queue_items s.thread.shutdown_requested p)
              s.caller s.added s.taken s.processed)
          → IsKept ci (
              system
                (check_queue
                  (thread s.thread.has_ci s.thread.queue_items s.thread.shutdown_requested p))
                s.caller s.added (s.taken ++ take 1 s.thread.queue_items) s.processed))
        (sym at)
        (look-IsKept s.thread.has_ci s.thread.queue_items s.thread.shutdown_requested s.caller
          s.added s.taken s.processed)
        k
  Step-IsKept {s} (sleeps at) k =
      moved s waits s.caller k (sym (ap (at_work ci) at)) (λ e. cc e)
        (inr (inl (empty_asleep s k at)))
  Step-IsKept {s} (wakes at) k =
      moved s checks s.caller k (sym (ap (at_work ci) at)) (λ e. cc e) (inl refl)
  Step-IsKept {s} (ends_turn item at) k =
      subst
        (λ p.
          IsKept ci (
            system (thread s.thread.has_ci s.thread.queue_items s.thread.shutdown_requested p)
              s.caller s.added s.taken s.processed)
          → IsKept ci (
              system
                (end_turn
                  (thread s.thread.has_ci s.thread.queue_items s.thread.shutdown_requested p))
                s.caller s.added s.taken (s.processed ++ handled s.thread.has_ci item)))
        (sym at)
        (end-IsKept s.thread.has_ci s.thread.queue_items s.thread.shutdown_requested item s.caller
          s.added s.taken s.processed)
        k

  -- However the steps of a thread and of its caller are ordered: the items are taken in the order in
  -- which they were added, the rest is in the queue; the clients of the taken items are processed in
  -- their order; and the thread does not sleep while its queue has an item, but where its caller is
  -- about to notify it.
  pub Reach-IsKept : {s : System} → Reach (begin ci) s → IsKept ci s
  Reach-IsKept here = begin-IsKept
  Reach-IsKept (next before step) = Step-IsKept step (Reach-IsKept before)
