-- ===== src/Network/Stops.antt =====
-- What stop and the timer of network.cpp do to a network.
use nsca_fast.Prelude.{◌≡◌, ◌⊎◌, true, false, arith}
use nsca_fast.ResultPath.{Directory}
use nsca_fast.Network.{Network, stop, check_result_path, next_timer}

-- A step of the timer leaves the count and the base, and moves the exit.
pub check_result_path_kept :
    (d : Directory) (n : Network)
    → ((check_result_path d n).counters ≡ n.counters)
      × ((check_result_path d n).has_base ≡ n.has_base)
      × ((check_result_path d n).loop_exit ≡ n.loop_exit)
      × ((check_result_path d n).listening ≡ n.listening)
      × ((check_result_path d n).shutdown_requested ≡ n.shutdown_requested)
unfolding check_result_path
check_result_path_kept d n = ground arith

-- Whether an exit is scheduled or the timer pending, and whether a shutdown is kept.
abbrev pub GoesOn : Network → Type 0
GoesOn n =
    ((n.loop_exit ≡ false) × (n.timer ≡ true))
    ⊎ ((n.loop_exit ≡ true) × (n.listening ≡ false) × (n.counters.connections ≡ 0))

abbrev pub Keeps : Network → Type 0
Keeps n = (n.listening ≡ true) ⊎ ((n.shutdown_requested ≡ true) ⊎ (n.loop_exit ≡ true))

pub stop-GoesOn :
    (n : Network)
    → n.has_base ≡ true
    → GoesOn n
    → ((stop n).1.counters ≡ n.counters)
      × ((stop n).1.has_base ≡ true)
      × GoesOn (stop n).1
      × Keeps (stop n).1
unfolding stop
stop-GoesOn n base going = ground (arith, base)

pub next_timer-GoesOn :
    (n : Network)
    → n.has_base ≡ true
    → (n.loop_exit ≡ false)
      ⊎ ((n.loop_exit ≡ true) × (n.listening ≡ false) × (n.counters.connections ≡ 0))
    → Keeps n
    → ((next_timer n).counters ≡ n.counters)
      × ((next_timer n).has_base ≡ true)
      × GoesOn (next_timer n)
      × Keeps (next_timer n)
unfolding next_timer stop
next_timer-GoesOn n base going kept = ground (arith, base)
