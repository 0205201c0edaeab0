-- ===== src/Parent/Session/Shared.antt =====
-- A whole session where the connections share a crypt instance: that of the network, or without one
-- those of the crypt threads. Earlier connections have left its stream in any state.
mod Tests
use nsca_fast.Prelude.{
  ℕ, ◌+◌, ◌*◌, ◌^◌, ◌≤◌, ◌<◌, ◌≡◌, ◌≢◌, refl, sym, ap, ap₂, ◌∙◌, Bool, true, false, List, [], ◌++◌,
  Option, none, some, length, take, map, All, All-take, arith, if◌then◌else◌,
}
use nsca_fast.Prelude.Int.{pos, ltb_ℤ}
use nsca_fast.Packet.{Check, sizeof_data_packet}
use nsca_fast.Crypt.Mcrypt.{Mcrypt, CryptInstance, full}
use nsca_fast.Crypt.Buffer.Laws.{Inverts}
use nsca_fast.Crypt.Init.{Globals, Memory, key_of}
use nsca_fast.Crypt.Init.Laws.{open_instance}
use nsca_fast.Client.Settings.{Settings}
use nsca_fast.Client.Libevent.{Libevent, IsQueue}
use nsca_fast.Client.Judge.{is_too_old}
use nsca_fast.Client.Judge.Wire.{IsSendable}
use nsca_fast.Client.Queue.Stream.{IsResumable}
use nsca_fast.Client.Queue.Shared.{encrypt_stream}
use nsca_fast.Client.Queue.Sent.{packets_of}
use nsca_fast.Client.Connection.{
  Connection, Counters, stays, take_variables, writecb, is_shared, connection_closed,
  report_success_failed,
}
use nsca_fast.Client.Connection.Reading.{receive_all}
use nsca_fast.Client.Connection.Framing.{arrived, packet_bytes}
use nsca_fast.Client.Connection.Kept.{IsKept, IsKept-refl, receive_all-IsKept}
use nsca_fast.Client.Connection.Session.{told_iv, told_time, IsGreeted, writecb-IsGreeted_shared}
use nsca_fast.Client.Connection.Finish.{
  process_closed, has_threads, processing_id, process_closed_shared,
}
use nsca_fast.Fifo.{written, command_line}
use nsca_fast.Parent.{Outputs, Outside, is_empty, parent_delivery}
use nsca_fast.Parent.Lines.{IsConnected}
use nsca_fast.Parent.Arrive.{received_queue, unread_bytes, queue_arrives}
use nsca_fast.Parent.Session.{client_stream, client_bytes, StartsAtIv, greeted-IsFramed}

-- The instance that encrypt_init made for the shared IV, with its stream in a later state.
abbrev pub instance_in_use : (m : Mcrypt) → Settings → List ℕ → m.Td → m.Td → CryptInstance m
instance_in_use m s shared_iv td used =
    record (open_instance m s.password s.decryption_method shared_iv td) { td = full used }

module _ (l : Libevent) (m : Mcrypt) (q : IsQueue l) (s : Settings) (inv : Inverts m)
    (resumable : IsResumable m) (starts : StartsAtIv m) (ciphered : 1 < s.decryption_method)
    (shared : is_shared s ≡ true) (o : Outside) (thread_id : ℕ)
    (has_file : is_empty o.command_file ≡ false)
    (writes : (i : ℕ) → (n : ℕ) × ((o.fifo_answers i).write ≡ written n) × (0 < n)) where
  -- A client connects at a time and is sent the shared IV and the time; it opens a stream with the
  -- daemon's password and that IV, sends checks whose texts fit, with that time, and closes. Its
  -- bytes arrive in any pieces, over reads that leave the connection open and queue a packet, and
  -- when the connection is closed the time is not too old. Then connection_closed and, if there are
  -- threads, the turn of the thread that takes the connection write exactly the lines of the first
  -- checks, one for each queued packet, in order, with every text as it was sent; they count as the
  -- only successes, nothing counts as a failure, the result path is not used, and the bytes that
  -- were not read are those of the other checks. This holds in the shared mode, where the thread's
  -- instance, and without threads the network's, is one made for the shared IV whose stream other
  -- connections have left in any state; of a libmcrypt that decrypts what it encrypts, can put back
  -- a state and starts a stream at its IV; and of a command file that is open and takes what it is
  -- given.
  pub session_arrives_shared :
      (began : ℕ) (network_ci thread_ci : Option (CryptInstance m)) (g g' : Globals) (mem : Memory)
      (k k' k'' : Counters) (shared_iv : List ℕ) (c c' : Connection l m)
      (reads : List (List ℕ × Bool)) (checks : List Check) (td used : m.Td) (w : Outputs)
      → began < 2 ^ 32
      → is_too_old s began ≡ false
      → All IsSendable checks
      → length shared_iv ≡ 128
      → m.enc_get_iv_size td ≤ 128
      → (if ltb_ℤ (pos 0) s.nsca_threads_per_worker then thread_ci else network_ci)
        ≡ some (instance_in_use m s shared_iv td used)
      → resumable.Same used (client_stream m td s.password shared_iv)
      → (take_variables l m (record s { now = began }) network_ci true g k).0 ≡ stays c
      → arrived reads
        ≡ client_bytes m td s.password
            (q.contents (writecb l m (record s { now = began }) shared_iv c).output)
            checks
      → receive_all l m s reads (writecb l m (record s { now = began }) shared_iv c) ≡ stays c'
      → c'.data_packets ≢ []
      → IsConnected o (processing_id l m (parent_delivery o) s thread_id thread_ci) w
      → (sizeof_data_packet * length (take (length c'.data_packets) checks)
            + length (q.contents c'.input)
          ≡ sizeof_data_packet * length checks)
        × (w' : Outputs) × (process_closed l m
              (parent_delivery o)
              s
              thread_id
              thread_ci
              (connection_closed l m s g' mem c' k').0
              w
              k''
            ≡ some
                (w', report_success_failed (length (take (length c'.data_packets) checks)) 0 k''))
        × (w'.lines ≡ w.lines ++ map (command_line o.now) (take (length c'.data_packets) checks))
        × (w'.files ≡ w.files)
  unfolding open_instance
  session_arrives_shared began network_ci thread_ci g g' mem k k' k'' shared_iv c c' reads checks td
        used w young age ready full_iv fits chosen same accepted sent e some_packets connected =
      let c1 = writecb l m (record s { now = began }) shared_iv c in
      let n = length c'.data_packets in
      let d = parent_delivery o in
      let greeted =
        writecb-IsGreeted_shared l m q (record s { now = began }) network_ci shared_iv g k c shared
          full_iv young accepted in
      let start = client_stream m td s.password shared_iv in
      let sent' =
        sent
        ∙ ap₂
            (λ v t.
              packet_bytes
                (encrypt_stream m (client_stream m td s.password v) (packets_of t checks)))
            greeted.iv_told greeted.time_told in
      let fresh = greeted-IsFramed l m q s shared_iv began c1 greeted in
      let queue =
        received_queue l m q s inv resumable ciphered reads start began checks c1 ready fresh sent'
          e in
      let kept = receive_all-IsKept l m q s reads c1 c1 c' (IsKept-refl l m c1) e in
      let ci = instance_in_use m s shared_iv td used in
      let iv = take (m.enc_get_iv_size td) shared_iv in
      let restarted =
        resumable.overrides used start iv (m.enc_get_iv_size td) same
        ∙ starts td (key_of (m.enc_get_key_size td) s.password) iv in
      let own : Connection l m = record c' { ci = some ci } in
      let arrives =
        queue_arrives l m q s inv resumable ciphered o (processing_id l m d s thread_id thread_ci)
          has_file writes began (take n checks) own ci {td = used} {iv = iv} w k''
          (All-take IsSendable n checks ready) young age
          (queue ∙ ap (λ t. encrypt_stream m t (packets_of began (take n checks))) (sym restarted))
          refl refl refl fits connected in
      (
        unread_bytes l m q s inv resumable ciphered reads start began checks c1 ready fresh sent' e,
        arrives.0,
        process_closed_shared l m d s thread_id thread_ci g' mem c' k' network_ci ci w k'' shared
              some_packets (kept.same_ci ∙ greeted.network_instance)
              (kept.same_own ∙ greeted.no_own_ci) chosen
            ∙ arrives.1
            ∙ ap₂
                (λ a b. some (arrives.0, report_success_failed (a + length (take n checks)) b k''))
                (kept.same_success ∙ greeted.no_success) (kept.same_failed ∙ greeted.no_failed)
            ∙ ap (λ a. some (arrives.0, report_success_failed a 0 k'')) (omega arith),
        arrives.2,
        arrives.3,
      )
