-- ===== src/Process/Going.antt =====
-- What the loop of processManager.cpp keeps while it goes on.
use nsca_fast.Prelude.{ℕ, ◌≡◌, refl, subst, List, [], ◌∷◌, All}
use nsca_fast.Process.{
  Manager, Signal, Handled, returns, exits, catch_all, Turn, Round, breaks, sleeps, round, Ended,
  finished, exited, unfinished, loop,
}
use nsca_fast.Process.Counted.{
  IsTracked, After, After-catch_all, sighandler_proxy-IsTracked, round-IsTracked, IsParentTurn,
}

-- A loop that goes on has kept what each of its parts keeps.
abbrev Unfinished : (Manager → Type 0) → Ended → Type 0
Unfinished P (unfinished m) = P m
Unfinished P _ = Unit

loop_after :
    (P : Ended → Type 0) (t : Turn) (turns : List Turn) (wait : ℕ) (m : Manager) (r : Round)
    → round t.forks t.now wait m ≡ r
    → ((sent : List (ℕ × Signal)) → r ≡ breaks sent → P (finished sent))
    → P exited
    → ((wait' : ℕ) (m' : Manager)
        → r ≡ sleeps wait' m'
        → After (λ m''. P (loop turns wait' m'')) (catch_all t.caught m'))
    → P (loop (t ∷ turns) wait m)
unfolding loop
loop_after P t turns wait m (breaks sent) e breaking exit going = rw (e, loop) (breaking sent refl)
loop_after P t turns wait m (sleeps wait' m') e breaking exit going =
    rw (e, loop) (go (catch_all t.caught m') (going wait' m' refl))
  where
    go :
        (h : Handled)
        → After (λ m''. P (loop turns wait' m'')) h
        → P (elim h [ exits ↦ exited | returns sent m'' ↦ loop turns wait' m'' ])
    go exits a = exit
    go (returns sent m'') a = a

After-mono :
    (P Q : Manager → Type 0) (h : Handled) → ((m : Manager) → P m → Q m) → After P h → After Q h
After-mono P Q exits f a = tt
After-mono P Q (returns sent m) f a = f m a

loop-IsTracked :
    (turns : List Turn) (wait : ℕ) (m : Manager)
    → All IsParentTurn turns
    → IsTracked m
    → Unfinished IsTracked (loop turns wait m)
unfolding loop
loop-IsTracked [] wait m h t = t
loop-IsTracked (turn ∷ turns) wait m h t =
    loop_after (Unfinished IsTracked) turn turns wait m (round turn.forks turn.now wait m) refl
      (λ sent e. tt) tt
      (λ wait' m' e.
        After-mono IsTracked (λ m''. Unfinished IsTracked (loop turns wait' m''))
          (catch_all turn.caught m') (λ m'' t''. loop-IsTracked turns wait' m'' h.1 t'')
          (After-catch_all IsTracked sighandler_proxy-IsTracked turn.caught m' h.0.1
            (round-IsTracked turn.forks turn.now wait wait' m m' h.0.0 t e)))

-- Over any turns of the loop of a parent that counts its workers right, with the answers of the
-- system and the signals that are caught in them: while the loop goes on, it counts them right.
pub loop_unfinished-IsTracked :
    (turns : List Turn) (m m' : Manager)
    → All IsParentTurn turns
    → IsTracked m
    → loop turns 0 m ≡ unfinished m'
    → IsTracked m'
loop_unfinished-IsTracked turns m m' h t e =
    subst (Unfinished IsTracked) e (loop-IsTracked turns 0 m h t)
