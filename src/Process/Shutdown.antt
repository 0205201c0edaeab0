-- ===== src/Process/Shutdown.antt =====
-- The loop of processManager.cpp ends once a shutdown is requested.
use nsca_fast.Prelude.{
  ℕ, zero, suc, ◌+◌, ◌≤◌, ◌<◌, ◌≡◌, ◌≢◌, ◌++◌, refl, sym, subst, ap, ◌∙◌, ◌⊎◌, inl, inr, true, List,
  [], ◌∷◌, length, All, arith, leb, Bool-cases,
}
use nsca_fast.Prelude.Int.{pos}
use nsca_fast.Process.{
  Manager, Forked, Signal, sigkill, kill_childs, Handled, returns, exits, Caught, caught_sigchld,
  caught_sigint, caught_sigusr1, sighandler_proxy, sigint_handler, sigusr1_handler, sigchld_handler,
  reap, shutdown, catch_all, Turn, Round, breaks, sleeps, round, Ended, finished, exited,
  unfinished, loop, is_zero, max_wait_for_shutdown,
}
use nsca_fast.Process.Counted.{
  count_running, IsTracked, After, Reaped, After-catch_all, sighandler_proxy-IsTracked,
  IsParentTurn,
}

-- A parent that is to shut down.
abbrev IsClosing : Manager → Type 0
IsClosing m = IsTracked m × (m.shutdown_requested ≡ true)

sigchld_handler-shutdown_requested :
    (pids : List ℕ) (m : Manager)
    → (sigchld_handler pids m).shutdown_requested ≡ m.shutdown_requested
unfolding sigchld_handler reap
sigchld_handler-shutdown_requested [] m = refl
sigchld_handler-shutdown_requested (pid ∷ pids) m =
    sigchld_handler-shutdown_requested pids (reap pid m) ∙ ground arith

sighandler_proxy-IsClosing :
    (c : Caught) (m : Manager) → Reaped c → IsClosing m → After IsClosing (sighandler_proxy c m)
unfolding sighandler_proxy sigint_handler sigusr1_handler shutdown
sighandler_proxy-IsClosing (caught_sigchld pids) m h c = (
  sighandler_proxy-IsTracked (caught_sigchld pids) m h c.0,
  sigchld_handler-shutdown_requested pids m ∙ c.1,
)
sighandler_proxy-IsClosing caught_sigint m h c = rw (c.0.main, c.1) tt
sighandler_proxy-IsClosing caught_sigusr1 m h c = ground (arith, c.0.main)

-- The last round that a loop comes to: the turns before it leave the loop going on with a manager.
pub record Last (turns : List Turn) (wait : ℕ) (m : Manager) : Type 0 where
  pub before : List Turn
  pub turn : Turn
  pub after : List Turn
  pub manager : Manager
  pub splits : turns ≡ before ++ turn ∷ after
  pub reached : loop before wait m ≡ unfinished manager

-- How a loop that shuts down may end: in its last round it breaks with no worker running and without
-- a signal, or as its fifteenth round with SIGKILL for the pids of the whole table as it is then; or
-- a SIGINT or SIGTERM is caught in it.
abbrev pub IsShut : List Turn → ℕ → Manager → Ended → Type 0
IsShut turns wait m (finished sent) =
    (r : Last turns wait m) × IsTracked r.manager
    × (((sent ≡ []) × (count_running r.manager.workers ≡ 0))
        ⊎ ((sent ≡ kill_childs sigkill r.manager)
            × (count_running r.manager.workers ≢ 0)
            × (wait + length r.before + 1 ≡ max_wait_for_shutdown)))
IsShut turns wait m exited =
    (r : Last turns wait m) × (front : List Caught) × (back : List Caught) × (r.turn.caught
      ≡ front ++ caught_sigint ∷ back)
IsShut turns wait m (unfinished m') = ⊥

loop_sleeps :
    (t : Turn) (turns : List Turn) (wait wait' : ℕ) (m m' m'' : Manager) (sent : List (ℕ × Signal))
    → round t.forks t.now wait m ≡ sleeps wait' m'
    → catch_all t.caught m' ≡ returns sent m''
    → loop (t ∷ turns) wait m ≡ loop turns wait' m''
unfolding loop
loop_sleeps t turns wait wait' m m' m'' sent e e' = rw (e, loop, e') refl

loop_exits :
    (t : Turn) (turns : List Turn) (wait wait' : ℕ) (m m' : Manager)
    → round t.forks t.now wait m ≡ sleeps wait' m'
    → catch_all t.caught m' ≡ exits
    → loop (t ∷ turns) wait m ≡ exited
unfolding loop
loop_exits t turns wait wait' m m' e e' = rw (e, loop, e') refl

loop_breaks :
    (t : Turn) (turns : List Turn) (wait : ℕ) (m : Manager) (sent : List (ℕ × Signal))
    → round t.forks t.now wait m ≡ breaks sent
    → loop (t ∷ turns) wait m ≡ finished sent
unfolding loop
loop_breaks t turns wait m sent e = rw (e, loop) refl

-- The last round is this one.
now_last : (t : Turn) (turns : List Turn) (wait : ℕ) (m : Manager) → Last (t ∷ turns) wait m
unfolding loop
now_last t turns wait m = record {
  before = [];
  turn = t;
  after = turns;
  manager = m;
  splits = refl;
  reached = refl;
}

-- A round that is not the last.
module _ (t : Turn) (turns : List Turn) (wait : ℕ) (m m' m'' : Manager) (sent : List (ℕ × Signal))
    (e : round t.forks t.now wait m ≡ sleeps (wait + 1) m')
    (e' : catch_all t.caught m' ≡ returns sent m'') where
  later_last : Last turns (wait + 1) m'' → Last (t ∷ turns) wait m
  later_last r = record {
    before = t ∷ r.before;
    turn = r.turn;
    after = r.after;
    manager = r.manager;
    splits = ap (◌∷◌ t) r.splits;
    reached = loop_sleeps t r.before wait (wait + 1) m m' m'' sent e e' ∙ r.reached;
  }

  later-IsShut :
      (ended : Ended) → IsShut turns (wait + 1) m'' ended → IsShut (t ∷ turns) wait m ended
  unfolding later_last
  later-IsShut (finished signals) (r, tracked, inl none_left) =
      (later_last r, tracked, inl none_left)
  later-IsShut (finished signals) (r, tracked, inr (killed, some_left, rounds)) =
      (later_last r, tracked, inr (killed, some_left, omega (arith, rounds)))
  later-IsShut exited (r, front, back, caught) = (later_last r, front, back, caught)
  later-IsShut (unfinished n) h = absurd h

sighandler_proxy-exits :
    (c : Caught) (m : Manager) → sighandler_proxy c m ≡ exits → c ≡ caught_sigint
unfolding sighandler_proxy
sighandler_proxy-exits (caught_sigchld pids) m e = absurd (cc e)
sighandler_proxy-exits caught_sigint m e = refl
sighandler_proxy-exits caught_sigusr1 m e = absurd (cc e)

catch_all-exits :
    (caught : List Caught) (m : Manager)
    → catch_all caught m ≡ exits
    → (front : List Caught) × (back : List Caught) × (caught ≡ front ++ caught_sigint ∷ back)
unfolding catch_all
catch_all-exits [] m e = absurd (cc e)
catch_all-exits (c ∷ caught) m e =
    go (λ m' e'. catch_all-exits caught m' e') (sighandler_proxy c m) refl
  where
    Interrupted : List Caught → Type 0
    Interrupted cs =
        (front : List Caught) × (back : List Caught) × (cs ≡ front ++ caught_sigint ∷ back)

    behind :
        ((m' : Manager) → catch_all caught m' ≡ exits → Interrupted caught)
        → (m' : Manager) (sent : List (ℕ × Signal)) (h : Handled)
        → sighandler_proxy c m ≡ returns sent m'
        → catch_all caught m' ≡ h
        → Interrupted (c ∷ caught)
    behind rest m' sent exits e1 e2 =
        let (front, back, splits) = rest m' e2 in (c ∷ front, back, ap (◌∷◌ c) splits)
    behind rest m' sent (returns more m'') e1 e2 = absurd (cc (rw (e1, catch_all, e2) at e))

    go :
        ((m' : Manager) → catch_all caught m' ≡ exits → Interrupted caught)
        → (h : Handled) → sighandler_proxy c m ≡ h
        → Interrupted (c ∷ caught)
    go rest exits e1 = ([], caught, ap (λ x. x ∷ caught) (sighandler_proxy-exits c m e1))
    go rest (returns sent m') e1 = behind rest m' sent (catch_all caught m') e1 refl

-- What a round of a closing parent does.
data Closes (wait : ℕ) (m : Manager) : Round → Type 0 where
  ends : count_running m.workers ≡ 0 → Closes wait m (breaks [])
  kills :
      count_running m.workers ≢ 0
      → max_wait_for_shutdown ≤ wait + 1
      → Closes wait m (breaks (kill_childs sigkill m))
  waits : wait + 1 < max_wait_for_shutdown → Closes wait m (sleeps (wait + 1) m)

pos_zero : (n : ℕ) → is_zero (pos n) ≡ true → n ≡ 0
pos_zero zero h = refl
pos_zero (suc n) h = absurd (cc h)

round-Closes :
    (forks : ℕ → Forked) (now wait : ℕ) (m : Manager)
    → IsClosing m
    → Closes wait m (round forks now wait m)
unfolding round
round-Closes forks now wait m c = elim (Bool-cases (is_zero m.workers_running)) [
  | inl none_left ↦
      simp (c.1, none_left)
        (ends (pos_zero (count_running m.workers) (ap is_zero (sym c.0.counted) ∙ none_left)))
  | inr some_left ↦ elim (Bool-cases (leb max_wait_for_shutdown (wait + 1))) [
    | inl late ↦
        simp (c.1, some_left, late)
          (kills (λ none_left. cc (some_left, c.0.counted, none_left)) (ground (arith, late)))
    | inr early ↦ simp (c.1, some_left, early) (waits (ground (arith, early)))
  ]
]

loop-IsShut :
    (turns : List Turn) (wait : ℕ) (m : Manager)
    → All IsParentTurn turns
    → IsClosing m
    → wait < max_wait_for_shutdown
    → max_wait_for_shutdown ≤ wait + length turns
    → IsShut turns wait m (loop turns wait m)
unfolding now_last
loop-IsShut [] wait m h c late enough = absurd (omega arith)
loop-IsShut (turn ∷ turns) wait m h c late enough =
    go (λ m' c' later. loop-IsShut turns (wait + 1) m' h.1 c' later (omega arith))
      (round turn.forks turn.now wait m) refl (round-Closes turn.forks turn.now wait m c)
  where
    Rest : Type 0
    Rest =
        (m' : Manager)
        → IsClosing m'
        → wait + 1 < max_wait_for_shutdown
        → IsShut turns (wait + 1) m' (loop turns (wait + 1) m')

    caught :
        Rest
        → (handled : Handled) → round turn.forks turn.now wait m ≡ sleeps (wait + 1) m
        → wait + 1 < max_wait_for_shutdown
        → catch_all turn.caught m ≡ handled
        → After IsClosing handled
        → IsShut (turn ∷ turns) wait m (loop (turn ∷ turns) wait m)
    caught rest exits e early e' closing =
        subst (IsShut (turn ∷ turns) wait m) (sym (loop_exits turn turns wait (wait + 1) m m e e'))
          (let (front, back, splits) = catch_all-exits turn.caught m e' in
            (now_last turn turns wait m, front, back, splits))
    caught rest (returns sent m') e early e' closing =
        subst (IsShut (turn ∷ turns) wait m)
          (sym (loop_sleeps turn turns wait (wait + 1) m m m' sent e e'))
          (later-IsShut turn turns wait m m m' sent e e' (loop turns (wait + 1) m')
            (rest m' closing early))

    go :
        Rest
        → (r : Round) → round turn.forks turn.now wait m ≡ r
        → Closes wait m r
        → IsShut (turn ∷ turns) wait m (loop (turn ∷ turns) wait m)
    go rest r e (ends none_left) =
        subst (IsShut (turn ∷ turns) wait m) (sym (loop_breaks turn turns wait m [] e))
          (now_last turn turns wait m, c.0, inl (refl, none_left))
    go rest r e (kills some_left last) =
        subst (IsShut (turn ∷ turns) wait m)
          (sym (loop_breaks turn turns wait m (kill_childs sigkill m) e))
          (now_last turn turns wait m, c.0, inr (refl, some_left, omega arith))
    go rest r e (waits early) =
        caught rest (catch_all turn.caught m) e early refl
          (After-catch_all IsClosing sighandler_proxy-IsClosing turn.caught m h.0.1 c)

-- Once a shutdown is requested, the loop of a parent that counts its workers right ends within
-- fifteen rounds, whatever its children do: in its last round, which it comes to over the turns
-- before, a SIGINT or SIGTERM is caught; or no worker is running and no signal is sent; or it is the
-- fifteenth round, a worker is still running, and SIGKILL is sent to the pid of every worker in the
-- table as it is in that round.
pub loop_shuts_down :
    (turns : List Turn) (m : Manager)
    → All IsParentTurn turns
    → IsTracked m
    → m.shutdown_requested ≡ true
    → 15 ≤ length turns
    → IsShut turns 0 m (loop turns 0 m)
loop_shuts_down turns m h t down enough =
    loop-IsShut turns 0 m h (t, down) (omega arith) (omega arith)
