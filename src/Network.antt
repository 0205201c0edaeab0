-- ===== src/Network.antt =====
-- class network of network.cpp and network.h: the timer, the statistics of connections and the
-- shutdown. The listener, the event loop and the timer of libevent are flags; what the system answers
-- about the result path's directory is an argument. A time is after 1970.
pub mod Stops
pub mod Exit
pub mod Rate
pub mod Report
pub mod Setup
pub mod Bind
pub mod Ending
mod Tests
use nsca_fast.Prelude.{
  ℕ, zero, suc, ◌+◌, ◌-◌, ◌*◌, ◌/◌, ◌%◌, ◌^◌, Bool, true, false, not, ◌&&◌, List, [], ◌∷◌, Option,
  none, some, set, replicate, ◌==◌, if◌then◌else◌,
}
use nsca_fast.Prelude.Int.{ℤ, pos, negsuc, to_int}
use nsca_fast.Client.Connection.{Counters}
use nsca_fast.ResultPath.{ResultPathClient, Directory, check}

abbrev pub rps_resolution : ℕ
rps_resolution = 5

pub record Network : Type 0 where
  pub now : ℕ
  pub counters : Counters
  pub counter_prev : ℕ
  pub counter_rps : List ℕ
  pub result_path_client : Option ResultPathClient
  pub shutdown_requested : Bool
  -- ev_base is not null
  pub has_base : Bool
  -- the listener is enabled
  pub listening : Bool
  -- the timer's event is pending
  pub timer : Bool
  -- event_base_loopexit has been called
  pub loop_exit : Bool
  -- event_base_loopbreak has been called
  pub loop_break : Bool

-- The network of run, when its event loop begins.
unfoldable pub run : ℕ → Option ResultPathClient → Network
run now client = record {
  now = now;
  counters = record { connections = 0; counter = 0; message_success = 0; message_failed = 0 };
  counter_prev = 0;
  counter_rps = replicate rps_resolution 0;
  result_path_client = client;
  shutdown_requested = false;
  has_base = true;
  listening = true;
  timer = true;
  loop_exit = false;
  loop_break = false;
}

-- What init_events of a network_client does to the network when it gets no bufferevent.
unfoldable pub break_loop : Network → Network
break_loop n = record n { loop_break = true }

unfoldable pub sigint : Network → Network
sigint n = record n { shutdown_requested = true }

-- stop: whether it returns something else than 0, and the network.
unfoldable pub stop : Network → Bool × Network
stop n =
    if not n.has_base
    then (true, n)
    else if n.counters.connections == 0
    then (false, record n { listening = false; loop_exit = true })
    else (true, record n { listening = false; shutdown_requested = true })

-- An `int` assigned to a uint64_t.
abbrev pub to_u64 : ℤ → ℕ
to_u64 (pos n) = n
to_u64 (negsuc n) = 2 ^ 64 - suc n

-- `int diff = n->counter - n->counter_prev`, as it is stored in counter_rps.
unfoldable pub count_diff : ℕ → ℕ → ℕ
count_diff counter prev = to_u64 (to_int ((counter + 2 ^ 64 - prev) % 2 ^ 64))

-- The statistics of a second: its bucket takes the connections since the last one.
unfoldable pub count_second : ℕ → Network → Network
unfolding count_diff
count_second now n = record n {
  now = now;
  counter_rps =
      set n.counter_rps (now % rps_resolution) (count_diff n.counters.counter n.counter_prev);
  counter_prev = n.counters.counter;
}

unfoldable pub sum_rps : List ℕ → ℕ
sum_rps [] = 0
sum_rps (r ∷ rest) = (r + sum_rps rest) % 2 ^ 64

-- What save_statistics hands to its stat_writer.
pub record Statistics : Type 0 where
  pub at : ℕ
  pub rps : ℕ
  pub current : Counters

unfoldable pub save_statistics : Network → Statistics
unfolding sum_rps
save_statistics n = record {
  at = n.now;
  rps = sum_rps n.counter_rps / rps_resolution;
  current = n.counters;
}

-- The result path client's check, unless a shutdown is requested.
unfoldable pub check_result_path : Directory → Network → Network
check_result_path d n = if n.shutdown_requested then n else elim n.result_path_client [
  | none ↦ n
  | some client ↦ record n { result_path_client = some (check d client).1 }
]

-- The end of timer_proxy: the timer is added again unless stop returns 0.
unfoldable pub next_timer : Network → Network
unfolding stop
next_timer n =
    if n.shutdown_requested
    then (let (busy, n') = stop n in record n' { timer = busy })
    else record n { timer = true }

-- timer_proxy at a time: the statistics that are saved, and the network.
unfoldable pub timer_proxy : Directory → ℕ → Network → Option Statistics × Network
unfolding count_second check_result_path next_timer save_statistics
timer_proxy d now n =
    let counted = count_second now n in
    (
      if now % rps_resolution == 0 then some (save_statistics counted) else none,
      next_timer (check_result_path d counted),
    )
