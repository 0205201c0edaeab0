-- ===== src/Network/Exit/Ends.antt =====
-- How a network of network.cpp comes to its end: by a connection without a bufferevent, or by the
-- timer.
use nsca_fast.Prelude.{ℕ, ◌≡◌, ◌≢◌, refl, ap, ◌∙◌, ◌⊎◌, true, false, Option, arith}
use nsca_fast.Crypt.Mcrypt.{Mcrypt, CryptInstance}
use nsca_fast.Crypt.Init.{Globals}
use nsca_fast.Client.Settings.{Settings}
use nsca_fast.Client.Libevent.{Libevent}
use nsca_fast.Client.Connection.{connected, disconnected, take_variables}
use nsca_fast.ResultPath.{Directory}
use nsca_fast.Network.{break_loop, stop, count_second, check_result_path, next_timer, timer_proxy}
use nsca_fast.Network.Exit.{System, with_counters, Reach, here, next, IsOrderly}

module _ (l : Libevent) (m : Mcrypt) where
  broken_ends : {t u : System} → Reach l m t u → t.network.loop_break ≡ true → u ≡ t
  broken_ends here broken = refl
  broken_ends (next before goes step) broken =
      absurd (cc (ap (λ v. v.network.loop_break) (broken_ends before broken), goes, broken))

  -- When a connection gets no bufferevent, the event loop is broken at once: the connections that
  -- are open stay open and counted, no timer, signal or callback of theirs is served any more, and
  -- whatever state is reached from there is that one.
  pub refused_ends :
      (settings : Settings) (ci : Option (CryptInstance m)) (g : Globals) (s : System) {u : System}
      → IsOrderly s
      → Reach l m
          (record {
            network =
                with_counters
                  (take_variables l m settings ci false g s.network.counters).2
                  (break_loop s.network);
            open_connections = s.open_connections;
          })
          u
      → (u.open_connections ≡ s.open_connections)
        × (u.network.counters.connections ≡ s.open_connections)
        × (u.network.timer ≡ s.network.timer)
        × (u.network.loop_exit ≡ s.network.loop_exit)
  unfolding take_variables connected disconnected break_loop
  refused_ends settings ci g s o reached =
      let same = broken_ends reached refl in
      (
        ap (λ v. v.open_connections) same,
        ap (λ v. v.network.counters.connections) same ∙ omega (arith, o.exact, o.limited),
        ap (λ v. v.network.timer) same,
        ap (λ v. v.network.loop_exit) same,
      )

-- Once a shutdown is requested, the next second of the timer schedules the loop's exit if no
-- connection is open, and else turns the listener off and the timer on again.
pub timer_proxy_stops :
    (d : Directory) (now : ℕ) (s : System)
    → IsOrderly s
    → s.network.shutdown_requested ≡ true
    → ((s.open_connections ≡ 0) × ((timer_proxy d now s.network).1.loop_exit ≡ true))
      ⊎ ((s.open_connections ≢ 0)
          × ((timer_proxy d now s.network).1.listening ≡ false)
          × ((timer_proxy d now s.network).1.timer ≡ true))
unfolding timer_proxy count_second check_result_path next_timer stop
timer_proxy_stops d now s o down = ground (arith, o.exact, o.has_base, down)
