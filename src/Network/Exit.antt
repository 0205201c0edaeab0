-- ===== src/Network/Exit.antt =====
-- A network over the steps of its event loop, in any order: connections that are accepted and that
-- end, seconds of the timer, and signals: SIGINT and SIGTERM, which are events of the loop, and
-- SIGUSR1, whose handler in processManager.cpp calls stop, between two callbacks. With at most 65535
-- descriptors, as super_limits sets them.
pub mod Ends
use nsca_fast.Prelude.{
  ℕ, ◌+◌, ◌-◌, ◌≤◌, ◌<◌, ◌≡◌, ◌≢◌, refl, sym, ap, ◌∙◌, ◌⊎◌, inl, inr, true, false, Option, some,
  subst, arith, Bool-cases,
}
use nsca_fast.Crypt.Mcrypt.{Mcrypt, CryptInstance}
use nsca_fast.Crypt.Init.{Globals, Memory}
use nsca_fast.Client.Settings.{Settings}
use nsca_fast.Client.Libevent.{Libevent}
use nsca_fast.Client.Connection.{
  Connection, Counters, connected, disconnected, report_success_failed, take_variables, destroyed,
  settle, proper_destroy, connection_closed,
}
use nsca_fast.ResultPath.{ResultPathClient, Directory}
use nsca_fast.Network.{
  Network, run, break_loop, sigint, stop, count_second, check_result_path, next_timer, timer_proxy,
}
use nsca_fast.Process.{Manager, is_child, sigusr1_handler, shutdown}
use nsca_fast.Network.Stops.{check_result_path_kept, GoesOn, Keeps, stop-GoesOn, next_timer-GoesOn}

-- The network and the number of its connections that are open.
pub record System : Type 0 where
  pub network : Network
  pub open_connections : ℕ

abbrev pub with_counters : Counters → Network → Network
with_counters k n = record n { counters = k }

abbrev pub max_connections : ℕ
max_connections = 65535

module _ (l : Libevent) (m : Mcrypt) where
  pub data Step (s : System) : System → Type 0 where
    -- listener_proxy, with a connection that gets its bufferevent
    accepts :
        (settings : Settings) (ci : Option (CryptInstance m)) (g : Globals)
        → s.network.listening ≡ true
        → s.open_connections < max_connections
        → Step s record {
          network =
              with_counters (take_variables l m settings ci true g s.network.counters).2 s.network;
          open_connections = s.open_connections + 1;
        }
    -- and with one that does not, which breaks the loop
    refuses :
        (settings : Settings) (ci : Option (CryptInstance m)) (g : Globals)
        → s.network.listening ≡ true
        → Step s record {
          network =
              with_counters
                (take_variables l m settings ci false g s.network.counters).2
                (break_loop s.network);
          open_connections = s.open_connections;
        }
    destroys :
        0 < s.open_connections
        → Step s record {
          network = with_counters (settle l m destroyed s.network.counters) s.network;
          open_connections = s.open_connections - 1;
        }
    closes :
        (settings : Settings) (g : Globals) (mem : Memory) (c : Connection l m)
        → 0 < s.open_connections
        → Step s record {
          network =
              with_counters (connection_closed l m settings g mem c s.network.counters).2 s.network;
          open_connections = s.open_connections - 1;
        }
    reports :
        (sent lost : ℕ)
        → Step s record {
          network = with_counters (report_success_failed sent lost s.network.counters) s.network;
          open_connections = s.open_connections;
        }
    ticks :
        (d : Directory) (now : ℕ)
        → s.network.timer ≡ true
        → Step s record {
          network = (timer_proxy d now s.network).1;
          open_connections = s.open_connections;
        }
    signals : Step s record { network = sigint s.network; open_connections = s.open_connections }
    -- SIGUSR1 in the worker that runs the network
    shuts_down :
        (manager : Manager) (n : Network)
        → (sigusr1_handler (some s.network) manager).1 ≡ some n
        → Step s record { network = n; open_connections = s.open_connections }

  pub data Reach (s : System) : System → Type 0 where
    here : Reach s s
    next : {t u : System} → Reach s t → t.network.loop_break ≡ false → Step t u → Reach s u

-- The counter is exact; the timer goes on until the loop's exit is scheduled, which is done with no
-- connection open and none to come; and no shutdown is lost: the listener is only turned off with the
-- exit scheduled, or a shutdown that the timer finds.
pub record IsOrderly (s : System) : Type 0 where
  pub exact : s.network.counters.connections ≡ s.open_connections
  pub limited : s.open_connections ≤ max_connections
  pub has_base : s.network.has_base ≡ true
  pub exit_or_timer :
      ((s.network.loop_exit ≡ false) × (s.network.timer ≡ true))
      ⊎ ((s.network.loop_exit ≡ true) × (s.network.listening ≡ false) × (s.open_connections ≡ 0))
  pub shutdown_kept :
      (s.network.listening ≡ true)
      ⊎ ((s.network.shutdown_requested ≡ true) ⊎ (s.network.loop_exit ≡ true))

run-IsOrderly :
    (now : ℕ) (client : Option ResultPathClient)
    → IsOrderly (record { network = run now client; open_connections = 0 })
unfolding run
run-IsOrderly now client = record {
  exact = refl;
  limited = omega arith;
  has_base = refl;
  exit_or_timer = inl (refl, refl);
  shutdown_kept = inl refl;
}

-- What the network itself has of its order.
of_network :
    (n : Network) (k : Counters) (open_connections : ℕ)
    → n.counters ≡ k
    → k.connections ≡ open_connections
    → open_connections ≤ max_connections
    → n.has_base ≡ true
    → GoesOn n
    → Keeps n
    → IsOrderly (record { network = n; open_connections = open_connections })
of_network n k open_connections same exact limit base going kept =
    let now_open = ap (λ c. c.connections) same ∙ exact in
    record {
      exact = now_open;
      limited = limit;
      has_base = base;
      exit_or_timer = elim going [
        | inl goes_on ↦ inl goes_on
        | inr (exit, off, none_left) ↦ inr (exit, off, sym now_open ∙ none_left)
      ];
      shutdown_kept = kept;
    }

timer_proxy-IsOrderly :
    (d : Directory) (now open_connections : ℕ) (n : Network)
    → IsOrderly (record { network = n; open_connections = open_connections })
    → IsOrderly (record { network = (timer_proxy d now n).1; open_connections = open_connections })
unfolding timer_proxy count_second
timer_proxy-IsOrderly d now open_connections n o =
    let counted = count_second now n in
    let checked = check_result_path d counted in
    let (same, base, exit, listening, requested) = check_result_path_kept d counted in
    let after =
      next_timer-GoesOn checked (base ∙ o.has_base)
        (elim o.exit_or_timer [
          | inl (going, pending) ↦ inl (exit ∙ going)
          | inr (exits, off, none_left) ↦
              inr
                (exit ∙ exits, listening ∙ off, ap (λ k. k.connections) same ∙ o.exact ∙ none_left)
        ])
        (elim o.shutdown_kept [
          | inl on ↦ inl (listening ∙ on)
          | inr (inl down) ↦ inr (inl (requested ∙ down))
          | inr (inr exits) ↦ inr (inr (exit ∙ exits))
        ]) in
    of_network (timer_proxy d now n).1 n.counters open_connections (after.0 ∙ same) o.exact
      o.limited after.1 after.2 after.3

-- SIGUSR1 leaves the network, or stops it.
sigusr1_cases :
    (manager : Manager) (n : Network)
    → ((sigusr1_handler (some n) manager).1 ≡ some n)
      ⊎ ((sigusr1_handler (some n) manager).1 ≡ some (stop n).1)
unfolding sigusr1_handler shutdown
sigusr1_cases manager n = elim (Bool-cases (is_child manager.process_mode)) [
  | inl child ↦ inr (rw child refl)
  | inr other ↦ inl (rw other refl)
]

sigusr1-IsOrderly :
    (manager : Manager) (open_connections : ℕ) (n n' : Network)
    → (sigusr1_handler (some n) manager).1 ≡ some n'
    → IsOrderly (record { network = n; open_connections = open_connections })
    → IsOrderly (record { network = n'; open_connections = open_connections })
sigusr1-IsOrderly manager open_connections n n' e o = elim (sigusr1_cases manager n) [
  | inl same ↦ subst Orderly (some_injective n n' (sym same ∙ e)) o
  | inr stops ↦
      let after = stop-GoesOn n o.has_base (going_of o.exit_or_timer) in
      subst Orderly (some_injective (stop n).1 n' (sym stops ∙ e)) (
        of_network (stop n).1 n.counters open_connections after.0 o.exact o.limited after.1 after.2
          after.3)
]
  where
    Orderly : Network → Type 0
    Orderly v = IsOrderly (record { network = v; open_connections = open_connections })

    some_injective : (a b : Network) → some a ≡ some b → a ≡ b
    some_injective a b h = cc h

    going_of :
        ((n.loop_exit ≡ false) × (n.timer ≡ true))
          ⊎ ((n.loop_exit ≡ true) × (n.listening ≡ false) × (open_connections ≡ 0))
        → GoesOn n
    going_of (inl goes_on) = inl goes_on
    going_of (inr (exit, off, none_left)) = inr (exit, off, o.exact ∙ none_left)

-- Connections that come or go, with the counters that note it.
recount-IsOrderly :
    (s : System) (k : Counters) (now_open : ℕ)
    → IsOrderly s
    → k.connections ≡ now_open
    → now_open ≤ max_connections
    → (s.network.listening ≡ false → s.open_connections ≡ 0 → now_open ≡ 0)
    → IsOrderly (record { network = with_counters k s.network; open_connections = now_open })
recount-IsOrderly s k now_open o same limit still = record {
  exact = same;
  limited = limit;
  has_base = o.has_base;
  exit_or_timer = elim o.exit_or_timer [
    | inl going ↦ inl going
    | inr (exit, off, none_left) ↦ inr (exit, off, still off none_left)
  ];
  shutdown_kept = o.shutdown_kept;
}

break_loop-IsOrderly :
    (s : System)
    → IsOrderly s
    → IsOrderly (record { network = break_loop s.network; open_connections = s.open_connections })
unfolding break_loop
break_loop-IsOrderly s o = record {
  exact = o.exact;
  limited = o.limited;
  has_base = o.has_base;
  exit_or_timer = o.exit_or_timer;
  shutdown_kept = o.shutdown_kept;
}

module _ (l : Libevent) (m : Mcrypt) where
  Step-IsOrderly : {s t : System} → Step l m s t → IsOrderly s → IsOrderly t
  unfolding take_variables connected disconnected settle proper_destroy connection_closed
      report_success_failed sigint break_loop
  Step-IsOrderly {s} (accepts settings ci g listening room) o =
      recount-IsOrderly s _ (s.open_connections + 1) o (omega (arith, o.exact)) (omega arith)
        (λ off none_left. absurd (cc (listening, off)))
  Step-IsOrderly {s} (refuses settings ci g listening) o =
      recount-IsOrderly
        (record { network = break_loop s.network; open_connections = s.open_connections }) _
        s.open_connections (break_loop-IsOrderly s o) (omega (arith, o.exact, o.limited)) o.limited
        (λ off none_left. none_left)
  Step-IsOrderly {s} (destroys some_open) o =
      recount-IsOrderly s _ (s.open_connections - 1) o (omega (arith, o.exact, o.limited))
        (omega (arith, o.limited)) (λ off none_left. omega (arith, none_left))
  Step-IsOrderly {s} (closes settings g mem c some_open) o =
      recount-IsOrderly s _ (s.open_connections - 1) o (omega (arith, o.exact, o.limited))
        (omega (arith, o.limited)) (λ off none_left. omega (arith, none_left))
  Step-IsOrderly {s} (reports sent lost) o =
      recount-IsOrderly s _ s.open_connections o o.exact o.limited (λ off none_left. none_left)
  Step-IsOrderly {s} (ticks d now pending) o =
      timer_proxy-IsOrderly d now s.open_connections s.network o
  Step-IsOrderly {s} signals o = record {
    exact = o.exact;
    limited = o.limited;
    has_base = o.has_base;
    exit_or_timer = o.exit_or_timer;
    shutdown_kept = elim o.shutdown_kept [ inl on ↦ inl on | inr kept ↦ inr (inl refl) ];
  }
  Step-IsOrderly {s} (shuts_down manager n e) o =
      sigusr1-IsOrderly manager s.open_connections s.network n e o

  -- However the steps of a network's event loop are ordered, from run on, with the signals that its
  -- process catches between two of its callbacks: its counter is the number of its open connections;
  -- either its timer goes on, or the loop's exit is scheduled while no connection is open and no new
  -- one is accepted; and the listener is only off with the exit scheduled or with a shutdown
  -- requested, which the timer finds.
  pub Reach-IsOrderly :
      (now : ℕ) (client : Option ResultPathClient) {s : System}
      → Reach l m (record { network = run now client; open_connections = 0 }) s
      → IsOrderly s
  Reach-IsOrderly now client here = run-IsOrderly now client
  Reach-IsOrderly now client (next before goes step) =
      Step-IsOrderly step (Reach-IsOrderly now client before)
