-- ===== src/Network/Report.antt =====
-- The statistics of a network of network.cpp in its worker's file: timer_proxy with the save_stats
-- that save_statistics calls.
use nsca_fast.Prelude.{
  ℕ, ◌+◌, ◌-◌, ◌/◌, ◌%◌, ◌^◌, ◌≤◌, ◌<◌, ◌≡◌, refl, ap, ap₂, ◌∙◌, Bool, true, List, [], ◌∷◌, Option,
  none, some, length, map, set, arith,
}
use nsca_fast.Client.Connection.{Counters}
use nsca_fast.Config.{Configdata, find}
use nsca_fast.ResultPath.{Directory}
use nsca_fast.Statistics.{StatFiles, StatWriter, Saved, stat_writer, save_stats}
use nsca_fast.Statistics.Text.{IsStored, IsReadBack}
use nsca_fast.Statistics.Apart.{save_stats-IsReadBack}
use nsca_fast.Network.{
  Network, Statistics, count_diff, count_second, sum_rps, stop, save_statistics, check_result_path,
  next_timer, timer_proxy,
}
use nsca_fast.Network.Rate.{count_seconds, save_statistics_rate}

-- `save_stats(now, rps, connections, counter, message_success, message_failed)`.
unfoldable pub saved_of : Statistics → Saved
saved_of t = record {
  now = t.at;
  cps = t.rps;
  connections = t.current.connections;
  counter = t.current.counter;
  report_success = t.current.message_success;
  report_failed = t.current.message_failed;
}

unfoldable pub save_on : Bool → StatWriter → Option Statistics → StatFiles → StatFiles
unfolding saved_of
save_on opens w none files = files
save_on opens w (some t) files = save_stats opens w (saved_of t) files

-- A second before a call of timer_proxy: the counters that its connections leave, the directory that
-- the call finds, and whether fopen succeeds.
pub record Second : Type 0 where
  pub counters : Counters
  pub directory : Directory
  pub opens : Bool

-- timer_proxy with its file.
unfoldable pub report_second : StatWriter → ℕ → Second → Network × StatFiles → Network × StatFiles
unfolding save_on
report_second w now s (n, files) =
    let (saved, n') = timer_proxy s.directory now (record n { counters = s.counters }) in
    (n', save_on s.opens w saved files)

unfoldable pub report_seconds :
    StatWriter → ℕ → List Second → Network × StatFiles → Network × StatFiles
unfolding report_second
report_seconds w now [] state = state
report_seconds w now (s ∷ seconds) state =
    report_seconds w (now + 1) seconds (report_second w now s state)

-- Two networks with the same statistics of connections.
record SameCounts (n m : Network) : Type 0 where
  same_rps : n.counter_rps ≡ m.counter_rps
  same_prev : n.counter_prev ≡ m.counter_prev

next_timer-SameCounts : (n : Network) → SameCounts (next_timer n) n
unfolding next_timer stop
next_timer-SameCounts n = record { same_rps = ground arith; same_prev = ground arith }

check_result_path-SameCounts : (d : Directory) (n : Network) → SameCounts (check_result_path d n) n
unfolding check_result_path
check_result_path-SameCounts d n = record { same_rps = ground arith; same_prev = ground arith }

timer_proxy-SameCounts :
    (d : Directory) (now : ℕ) (n : Network)
    → SameCounts (timer_proxy d now n).1 (count_second now n)
unfolding timer_proxy
timer_proxy-SameCounts d now n =
    let counted = count_second now n in
    let timed = next_timer-SameCounts (check_result_path d counted) in
    let checked = check_result_path-SameCounts d counted in
    record {
      same_rps = timed.same_rps ∙ checked.same_rps;
      same_prev = timed.same_prev ∙ checked.same_prev;
    }

-- A second counts alike in networks that have counted alike.
report_second-SameCounts :
    (w : StatWriter) (now : ℕ) (s : Second) (n m : Network) (files : StatFiles)
    → SameCounts n m
    → SameCounts (report_second w now s (n, files)).0 (
        count_second now
          (record m { counters = record m.counters { counter = s.counters.counter } }))
unfolding report_second count_second
report_second-SameCounts w now s n m files h =
    let timed = timer_proxy-SameCounts s.directory now (record n { counters = s.counters }) in
    record {
      same_rps =
          timed.same_rps
          ∙ ap₂ (λ rps prev. set rps (now % 5) (count_diff s.counters.counter prev)) h.same_rps
              h.same_prev;
      same_prev = timed.same_prev;
    }

abbrev counter_of : Second → ℕ
counter_of s = s.counters.counter

report_seconds-SameCounts :
    (w : StatWriter) (seconds : List Second) (now : ℕ) (n m : Network) (files : StatFiles)
    → SameCounts n m
    → SameCounts
        (report_seconds w now seconds (n, files)).0
        (count_seconds now (map counter_of seconds) m)
unfolding report_seconds count_seconds
report_seconds-SameCounts w [] now n m files h = h
report_seconds-SameCounts w (s ∷ seconds) now n m files h =
    report_seconds-SameCounts w seconds (now + 1) (report_second w now s (n, files)).0 _
      (report_second w now s (n, files)).1 (report_second-SameCounts w now s n m files h)

-- Counters of connections from a last one on, less than 2^31 apart.
abbrev pub Grows : ℕ → List ℕ → Type 0
Grows prev [] = Unit
Grows prev (c ∷ counts) = (prev ≤ c) × (c - prev < 2 ^ 31) × Grows c counts

-- What is to be saved: the rate over five seconds, and the counters at the last of them.
abbrev pub report_of : ℕ → ℕ → Counters → Saved
report_of at prev k = record {
  now = at;
  cps = (k.counter - prev) / 5;
  connections = k.connections;
  counter = k.counter;
  report_success = k.message_success;
  report_failed = k.message_failed;
}

-- The last of five seconds, if it is one in which the statistics are saved.
save_at_fifth :
    (w : StatWriter) (now : ℕ) (s : Second) (n : Network) (files : StatFiles)
    → now % 5 ≡ 0
    → s.opens ≡ true
    → (report_second w now s (n, files)).1
      ≡ save_stats true w
          (saved_of (save_statistics (count_second now (record n { counters = s.counters }))))
          files
unfolding report_second timer_proxy save_on
save_at_fifth w now s n files at_zero opens = rw (at_zero, opens, save_on) refl

module _ (now : ℕ) (n : Network) (s1 s2 s3 s4 s5 : Second) where
  abbrev pub five_seconds : List Second
  five_seconds = s1 ∷ s2 ∷ s3 ∷ s4 ∷ s5 ∷ []

  saved_at_fifth :
      (n4 : Network)
      → length n.counter_rps ≡ 5
      → Grows n.counter_prev (map counter_of five_seconds)
      → s5.counters.counter < 2 ^ 64
      → SameCounts n4 (count_seconds now (map counter_of (s1 ∷ s2 ∷ s3 ∷ s4 ∷ [])) n)
      → saved_of (
          save_statistics
            (count_second (now + 1 + 1 + 1 + 1) (record n4 { counters = s5.counters })))
        ≡ report_of (now + 4) n.counter_prev s5.counters
  unfolding saved_of save_statistics count_second count_seconds
  saved_at_fifth n4 long grows word h =
      let rate =
        save_statistics_rate now s1.counters.counter s2.counters.counter s3.counters.counter
          s4.counters.counter s5.counters.counter n long grows.0 grows.1 grows.2.0 grows.2.1
          grows.2.2.0 grows.2.2.1 grows.2.2.2.0 grows.2.2.2.1 grows.2.2.2.2.0 grows.2.2.2.2.1
          word in
      ap₂ (λ at r. record (report_of at n.counter_prev s5.counters) { cps = r }) (omega arith)
        (ap₂
            (λ rps prev.
              sum_rps (set rps ((now + 1 + 1 + 1 + 1) % 5) (count_diff s5.counters.counter prev))
              / 5)
            h.same_rps h.same_prev
          ∙ rate)

  -- Over five calls of timer_proxy, a second apart, of which the last one is in a second that saves:
  -- if the counter of connections never falls and grows by less than 2^31 in each second, from the
  -- last one that the network has counted on, and the last call can open the file, a reader of the
  -- worker's file then finds the time of the last call, as the rate a fifth of the connections of the
  -- five seconds, the four counters as they are then, and the worker's pid and start, if these
  -- numbers have 64 bits. The directories, a shutdown and the other files do not matter.
  pub report_seconds-IsReadBack :
      (d : Configdata) (id started pid : ℕ) (files : StatFiles)
      → (now + 4) % 5 ≡ 0
      → length n.counter_rps ≡ 5
      → Grows n.counter_prev (map counter_of five_seconds)
      → s5.opens ≡ true
      → IsStored (stat_writer d id started pid) (report_of (now + 4) n.counter_prev s5.counters)
      → (text : List ℕ) × (find
            (stat_writer d id started pid).path_stat
            (report_seconds (stat_writer d id started pid) now five_seconds (n, files)).1
          ≡ some text)
        × IsReadBack
            (stat_writer d id started pid)
            (report_of (now + 4) n.counter_prev s5.counters)
            text
  unfolding report_seconds
  report_seconds-IsReadBack d id started pid files at_zero long grows opens stored =
      let w = stat_writer d id started pid in
      let four = report_seconds w now (s1 ∷ s2 ∷ s3 ∷ s4 ∷ []) (n, files) in
      let counted =
        report_seconds-SameCounts w (s1 ∷ s2 ∷ s3 ∷ s4 ∷ []) now n n files
          (record { same_rps = refl; same_prev = refl }) in
      let read =
        save_stats-IsReadBack d id started pid (report_of (now + 4) n.counter_prev s5.counters)
          four.1 stored in
      (
        read.0,
        ap (find w.path_stat) (
              save_at_fifth w (now + 1 + 1 + 1 + 1) s5 four.0 four.1 (omega (arith, at_zero)) opens
              ∙ ap (λ r. save_stats true w r four.1)
                  (saved_at_fifth four.0 long grows stored.counter_fits counted))
            ∙ read.1,
        read.2,
      )
