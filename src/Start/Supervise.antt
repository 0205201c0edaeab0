-- ===== src/Start/Supervise.antt =====
-- The parent that mainloop of main.cpp makes, over the turns of its loop.
use nsca_fast.Prelude.{ℕ, ◌≡◌, Bool, true, false, not, List, if◌then◌else◌}
use nsca_fast.Prelude.Int.{pos, pos_part}
use nsca_fast.Prelude.Text.{codes}
use nsca_fast.Prelude.{All, subst}
use nsca_fast.Config.{Configdata, get_int}
use nsca_fast.Process.{Manager, Forked, Turn, loop, unfinished, main_manager, run_workers, is_main}
use nsca_fast.Process.Counted.{
  IsParentAnswer, IsParentTurn, IsTracked, main_manager-IsTracked, run_workers-IsTracked,
}
use nsca_fast.Process.Going.{loop_unfinished-IsTracked}
use nsca_fast.Start.{locked_out, works_alone, supervises, worked, is_one, mainloop}

supervises_injective : (a b : Manager) → supervises a ≡ supervises b → a ≡ b
supervises_injective a b h = cc h

-- The parent of mainloop is that of the first runWorkers.
mainloop_first :
    (locked : Bool) (forks : ℕ → Forked) (now : ℕ) (d : Configdata) (m : Manager)
    → mainloop locked forks now d ≡ supervises m
    → run_workers forks now (main_manager (pos_part (get_int (codes "nsca_workers") (pos 4) d))) ≡ m
unfolding mainloop
mainloop_first locked forks now d m e =
    go locked (is_one (get_int (codes "nsca_workers") (pos 4) d)) (is_main first.process_mode) e
  where
    first : Manager
    first =
        run_workers forks now (main_manager (pos_part (get_int (codes "nsca_workers") (pos 4) d)))

    go :
        (l one main : Bool)
        → (if not l
            then locked_out
            else if one
            then works_alone
            else if main
            then supervises first
            else worked)
          ≡ supervises m
        → first ≡ m
    go false one main h = absurd (cc h)
    go true true main h = absurd (cc h)
    go true false true h = supervises_injective first m h
    go true false false h = absurd (cc h)

-- From a parent that mainloop makes on, over any turns of its loop with the answers of the system and
-- the signals that are caught in them: while the loop goes on, `workers_running` is the number of
-- running workers in the table, and a worker is running exactly if it has a pid.
pub mainloop-IsTracked :
    (locked : Bool) (forks : ℕ → Forked) (now : ℕ) (d : Configdata) (turns : List Turn)
    (m m' : Manager)
    → ((i : ℕ) → IsParentAnswer (forks i))
    → All IsParentTurn turns
    → mainloop locked forks now d ≡ supervises m
    → loop turns 0 m ≡ unfinished m'
    → IsTracked m'
mainloop-IsTracked locked forks now d turns m m' answers good made goes_on =
    loop_unfinished-IsTracked turns m m' good
      (subst IsTracked (mainloop_first locked forks now d m made) (
        run_workers-IsTracked forks now
          (main_manager (pos_part (get_int (codes "nsca_workers") (pos 4) d))) answers
          (main_manager-IsTracked (pos_part (get_int (codes "nsca_workers") (pos 4) d)))))
      goes_on
