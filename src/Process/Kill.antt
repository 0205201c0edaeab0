-- ===== src/Process/Kill.antt =====
-- Whom killChilds of processManager.cpp signals: `kill` with the pid 0 goes to the process group of
-- the caller, the parent included.
use nsca_fast.Prelude.{
  ℕ, suc, ◌<◌, ◌≡◌, ◌≢◌, refl, ◌⊎◌, inl, inr, List, [], ◌∷◌, map, length, get_or, All, arith, true,
}
use nsca_fast.Process.{Worker, Manager, Signal, kill_childs}
use nsca_fast.Process.Counted.{count_running, IsMarked, IsTracked}

abbrev call : Signal → Worker → ℕ × Signal
call s w = (w.pid, s)

-- There is one call for each worker of a table, in the order of the table: with its pid, which is
-- that of a running child.
abbrev pub ToChildren : Signal → List Worker → List (ℕ × Signal) → Type 0
ToChildren s [] [] = Unit
ToChildren s [] (k ∷ calls) = ⊥
ToChildren s (w ∷ workers) [] = ⊥
ToChildren s (w ∷ workers) (k ∷ calls) =
    (w.running ≡ true) × (w.pid ≢ 0) × (k ≡ (w.pid, s)) × ToChildren s workers calls

-- All workers run, or one of them is signalled by the pid 0.
Reaches : Signal → List Worker → Type 0
Reaches s workers =
    ((count_running workers ≡ length workers) × ToChildren s workers (map (call s) workers))
    ⊎ ((count_running workers < length workers)
        × (i : ℕ) × (i < length workers)
        × (get_or (map (call s) workers) i (1, s) ≡ (0, s)))

marked-Reaches : (s : Signal) (workers : List Worker) → All IsMarked workers → Reaches s workers
unfolding Reaches count_running
marked-Reaches s [] h = inl (refl, tt)
marked-Reaches s (w ∷ workers) (here, h) = elim (marked-Reaches s workers h) [
  | inl (all, pids) ↦ elim here [
    | inl (runs, some_pid) ↦ inl (rw runs (omega (arith, all)), (runs, some_pid, refl, pids))
    | inr (idle, no_pid) ↦ inr (rw idle (omega (arith, all)), 0, omega arith, rw no_pid refl)
  ]
  | inr (fewer, i, lt, group) ↦ inr (ground (arith, fewer), suc i, omega (arith, lt), group)
]

-- Of a parent that counts its workers right: if all its workers run, killChilds calls kill once for
-- each of them, in the order of the table, with the pid of that child and the signal; and if one of them is not running, one of its calls has the pid 0, which
-- signals the parent's whole process group.
pub kill_childs_group :
    (s : Signal) (m : Manager)
    → IsTracked m
    → ((count_running m.workers ≡ length m.workers) × ToChildren s m.workers (kill_childs s m))
      ⊎ ((count_running m.workers < length m.workers)
          × (i : ℕ) × (i < length m.workers)
          × (get_or (kill_childs s m) i (1, s) ≡ (0, s)))
unfolding kill_childs Reaches
kill_childs_group s m t = marked-Reaches s m.workers t.marked
