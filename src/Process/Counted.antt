-- ===== src/Process/Counted.antt =====
-- The parent's count of running workers in processManager.cpp, over whole turns of its loop.
use nsca_fast.Prelude.{
  ℕ, zero, suc, ◌+◌, ◌≤◌, ◌<◌, ◌≡◌, ◌≢◌, refl, sym, ap, ◌∙◌, ◌⊎◌, inl, inr, true, false, List, [],
  ◌∷◌, ◌++◌, none, some, length, get_or, set, replicate, All, arith, ◌==◌, Bool-cases,
  if◌then◌else◌, length-set,
}
use nsca_fast.Prelude.Int.{pos, increment, decrement}
use nsca_fast.Process.{
  Worker, idle_worker, process_main, Manager, main_manager, Forked, parent_of, fork_failed,
  note_child, running_worker, start_child, start_from, run_workers, reset_worker, reap,
  sigchld_handler, Handled, returns, exits, sigint_handler, sigusr1_handler, Caught, caught_sigchld,
  caught_sigint, caught_sigusr1, sighandler_proxy, catch_all, Turn, sleeps, round, shutdown, Signal,
}

unfoldable pub count_running : List Worker → ℕ
count_running [] = 0
count_running (w ∷ workers) = (if w.running then 1 else 0) + count_running workers

-- A worker is running exactly if it has a pid.
abbrev pub IsMarked : Worker → Type 0
IsMarked w = ((w.running ≡ true) × (w.pid ≢ 0)) ⊎ ((w.running ≡ false) × (w.pid ≡ 0))

-- The table of a parent that counts its running workers right.
pub record IsTracked (m : Manager) : Type 0 where
  pub main : m.process_mode ≡ process_main
  pub counted : m.workers_running ≡ pos (count_running m.workers)
  pub marked : All IsMarked m.workers

-- What fork answers in the parent.
abbrev pub IsParentAnswer : Forked → Type 0
IsParentAnswer f = (f ≡ fork_failed) ⊎ ((pid : ℕ) × (f ≡ parent_of pid) × (pid ≢ 0))

count_running-set :
    (workers : List Worker) (wid : ℕ) (w : Worker)
    → wid < length workers
    → (get_or workers wid idle_worker).running ≡ false
    → w.running ≡ true
    → count_running (set workers wid w) ≡ suc (count_running workers)
unfolding count_running
count_running-set [] wid w lt h r = absurd (omega arith)
count_running-set (v ∷ workers) zero w lt h r = rw (h, r) (omega arith)
count_running-set (v ∷ workers) (suc wid) w lt h r =
    omega (arith, count_running-set workers wid w (omega arith) h r)

All-set :
    (workers : List Worker) (wid : ℕ) (w : Worker)
    → All IsMarked workers
    → IsMarked w
    → All IsMarked (set workers wid w)
All-set [] wid w h hw = tt
All-set (v ∷ workers) zero w h hw = (hw, h.1)
All-set (v ∷ workers) (suc wid) w h hw = (h.0, All-set workers wid w h.1 hw)

note_child-IsTracked :
    (pid now wid : ℕ) (m : Manager)
    → pid ≢ 0
    → wid < length m.workers
    → (get_or m.workers wid idle_worker).running ≡ false
    → IsTracked m
    → IsTracked (note_child pid now wid m)
unfolding note_child
note_child-IsTracked pid now wid m some_pid lt idle t = record {
  main = refl;
  counted =
      ap increment t.counted
      ∙ ap pos (sym (count_running-set m.workers wid (running_worker pid now) lt idle refl));
  marked = All-set m.workers wid (running_worker pid now) t.marked (inl (refl, some_pid));
}

-- What startChild does in a parent.
start_child_cases :
    (f : Forked) (now wid : ℕ) (m : Manager)
    → IsParentAnswer f
    → m.process_mode ≡ process_main
    → (start_child f now wid m ≡ m)
      ⊎ ((pid : ℕ) × (pid ≢ 0)
          × ((get_or m.workers wid idle_worker).running ≡ false)
          × (start_child f now wid m ≡ note_child pid now wid m))
unfolding start_child
start_child_cases f now wid m answer main =
    elim (Bool-cases (get_or m.workers wid idle_worker).running) [
      | inl busy ↦ inl (rw busy (ground arith))
      | inr idle ↦ elim answer [
        | inl failed ↦ inl (rw (idle, failed) (ground arith))
        | inr (pid, forked, some_pid) ↦ inr (pid, some_pid, idle, rw (idle, forked) (ground arith))
      ]
    ]

start_child-IsTracked :
    (f : Forked) (now wid : ℕ) (m : Manager)
    → IsParentAnswer f
    → wid < length m.workers
    → IsTracked m
    → IsTracked (start_child f now wid m)
      × (length (start_child f now wid m).workers ≡ length m.workers)
unfolding note_child
start_child-IsTracked f now wid m answer lt t = elim (start_child_cases f now wid m answer t.main) [
  | inl same ↦ rw same (t, refl)
  | inr (pid, some_pid, idle, noted) ↦ rw noted (
    note_child-IsTracked pid now wid m some_pid lt idle t,
    length-set m.workers wid (running_worker pid now),
  )
]

start_from-IsTracked :
    (forks : ℕ → Forked) (now left wid : ℕ) (m : Manager)
    → ((i : ℕ) → IsParentAnswer (forks i))
    → wid + left ≤ length m.workers
    → IsTracked m
    → IsTracked (start_from forks now left wid m)
      × (length (start_from forks now left wid m).workers ≡ length m.workers)
unfolding start_from
start_from-IsTracked forks now zero wid m answers le t = (t, refl)
start_from-IsTracked forks now (suc left) wid m answers le t =
    let one = start_child-IsTracked (forks wid) now wid m (answers wid) (omega arith) t in
    let rest =
      start_from-IsTracked forks now left (wid + 1) (start_child (forks wid) now wid m) answers
        (omega (arith, one.1)) one.0 in
    (rest.0, rest.1 ∙ one.1)

run_workers_cases :
    (forks : ℕ → Forked) (now : ℕ) (m : Manager)
    → (run_workers forks now m ≡ m)
      ⊎ (run_workers forks now m ≡ start_from forks now (length m.workers) 0 m)
unfolding run_workers
run_workers_cases forks now m = ground arith

pub run_workers-IsTracked :
    (forks : ℕ → Forked) (now : ℕ) (m : Manager)
    → ((i : ℕ) → IsParentAnswer (forks i))
    → IsTracked m
    → IsTracked (run_workers forks now m)
run_workers-IsTracked forks now m answers t = elim (run_workers_cases forks now m) [
  | inl same ↦ rw same t
  | inr runs ↦
      rw runs (start_from-IsTracked forks now (length m.workers) 0 m answers (omega arith) t).0
]

-- A worker that is reset was counted.
reset_worker-IsMarked :
    (pid : ℕ) (workers : List Worker)
    → pid ≢ 0
    → All IsMarked workers
    → (reset_worker pid workers ≡ none)
      ⊎ ((rest : List Worker) × (reset_worker pid workers ≡ some rest)
          × (count_running workers ≡ suc (count_running rest))
          × All IsMarked rest)
unfolding reset_worker count_running idle_worker
reset_worker-IsMarked pid [] some_pid h = inl refl
reset_worker-IsMarked pid (w ∷ workers) some_pid h = elim (Bool-cases (w.pid == pid)) [
  | inl same ↦ inr (
    idle_worker ∷ workers,
    rw (same, reset_worker) refl,
    ground (arith, h.0, same, some_pid),
    (inr (refl, refl), h.1),
  )
  | inr other ↦ elim (reset_worker-IsMarked pid workers some_pid h.1) [
    | inl absent ↦ inl (rw (other, reset_worker, absent) refl)
    | inr (rest, found, fewer, marked) ↦
        inr (w ∷ rest, rw (other, reset_worker, found) refl, omega (arith, fewer), (h.0, marked))
  ]
]

reap_absent : (pid : ℕ) (m : Manager) → reset_worker pid m.workers ≡ none → reap pid m ≡ m
unfolding reap
reap_absent pid m e = rw (e, reap) refl

reap_found :
    (pid : ℕ) (m : Manager) (rest : List Worker)
    → reset_worker pid m.workers ≡ some rest
    → reap pid m ≡ record m { workers = rest; workers_running = decrement m.workers_running }
unfolding reap
reap_found pid m rest e = rw (e, reap) refl

reap-IsTracked : (pid : ℕ) (m : Manager) → pid ≢ 0 → IsTracked m → IsTracked (reap pid m)
reap-IsTracked pid m some_pid t = elim (reset_worker-IsMarked pid m.workers some_pid t.marked) [
  | inl absent ↦ rw (reap_absent pid m absent) t
  | inr (rest, found, fewer, marked) ↦
      rw (reap_found pid m rest found)
        record { main = t.main; counted = ap decrement (t.counted ∙ ap pos fewer); marked = marked }
]

-- The pids that waitpid returns.
abbrev pub Reaped : Caught → Type 0
Reaped (caught_sigchld pids) = All (λ pid. pid ≢ 0) pids
Reaped caught_sigint = Unit
Reaped caught_sigusr1 = Unit

sigchld_handler-IsTracked :
    (pids : List ℕ) (m : Manager)
    → All (λ pid. pid ≢ 0) pids
    → IsTracked m
    → IsTracked (sigchld_handler pids m)
unfolding sigchld_handler
sigchld_handler-IsTracked [] m h t = t
sigchld_handler-IsTracked (pid ∷ pids) m h t =
    sigchld_handler-IsTracked pids (reap pid m) h.1 (reap-IsTracked pid m h.0 t)

-- What holds of the manager after handlers that return.
abbrev pub After : (Manager → Type 0) → Handled → Type 0
After P exits = Unit
After P (returns sent m) = P m

pub sighandler_proxy-IsTracked :
    (c : Caught) (m : Manager) → Reaped c → IsTracked m → After IsTracked (sighandler_proxy c m)
unfolding sighandler_proxy sigint_handler sigusr1_handler shutdown
sighandler_proxy-IsTracked (caught_sigchld pids) m h t = sigchld_handler-IsTracked pids m h t
sighandler_proxy-IsTracked caught_sigint m h t = ground (arith, t.main, t.counted, t.marked)
sighandler_proxy-IsTracked caught_sigusr1 m h t = ground (arith, t.main, t.counted, t.marked)

-- The signals of an earlier handler do not matter.
with_sent : List (ℕ × Signal) → Handled → Handled
with_sent sent exits = exits
with_sent sent (returns more m) = returns (sent ++ more) m

module _ (P : Manager → Type 0) where
  After-with_sent :
      (sent : List (ℕ × Signal)) (r : Handled) → After P r → After P (with_sent sent r)
  unfolding with_sent
  After-with_sent sent exits a = tt
  After-with_sent sent (returns more m) a = a

  catch-After :
      (c : Caught) (caught : List Caught) (m : Manager) (r : Handled)
      → sighandler_proxy c m ≡ r
      → After P r
      → ((m' : Manager) → P m' → After P (catch_all caught m'))
      → After P (catch_all (c ∷ caught) m)
  unfolding catch_all with_sent
  catch-After c caught m exits e a rest = rw (e, catch_all) tt
  catch-After c caught m (returns sent m') e a rest =
      rw (e, catch_all) (ground (arith, After-with_sent sent (catch_all caught m') (rest m' a)))

  -- What each handler keeps, a sequence of them keeps.
  pub After-catch_all :
      ((c : Caught) (m : Manager) → Reaped c → P m → After P (sighandler_proxy c m))
      → (caught : List Caught) (m : Manager) → All Reaped caught
      → P m
      → After P (catch_all caught m)
  unfolding catch_all
  After-catch_all keeps [] m h p = p
  After-catch_all keeps (c ∷ caught) m h p =
      catch-After c caught m (sighandler_proxy c m) refl (keeps c m h.0 p)
        (λ m' p'. After-catch_all keeps caught m' h.1 p')

-- The answers and signals of a turn in a parent.
abbrev pub IsParentTurn : Turn → Type 0
IsParentTurn t = ((i : ℕ) → IsParentAnswer (t.forks i)) × All Reaped t.caught

pub round-IsTracked :
    (forks : ℕ → Forked) (now wait wait' : ℕ) (m m' : Manager)
    → ((i : ℕ) → IsParentAnswer (forks i))
    → IsTracked m
    → round forks now wait m ≡ sleeps wait' m'
    → IsTracked m'
unfolding round
round-IsTracked forks now wait wait' m m' answers t e =
    ground (arith, run_workers-IsTracked forks now m answers t)

pub main_manager-IsTracked : (max_worker : ℕ) → IsTracked (main_manager max_worker)
unfolding main_manager replicate count_running idle_worker
main_manager-IsTracked max_worker = record {
  main = refl;
  counted = ap pos (sym (idle max_worker).0);
  marked = (idle max_worker).1;
}
  where
    idle :
        (n : ℕ)
        → (count_running (replicate n idle_worker) ≡ 0) × All IsMarked (replicate n idle_worker)
    idle zero = (refl, tt)
    idle (suc n) = (omega (arith, (idle n).0), (inr (refl, refl), (idle n).1))
