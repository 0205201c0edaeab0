-- ===== src/Parent/Session.antt =====
-- A whole session: a client connects, is told the IV and the time, sends its checks encrypted with
-- the password, and closes; the connection is closed and its queue processed into the command file.
-- This is take_variables, writecb, readcb, connection_closed and process_queue of
-- network_client.cpp, and a turn of the loop of crypt_thread_t.cpp, where the connections do not
-- share a crypt instance.
pub mod Shared
mod Example
mod Tests
use nsca_fast.Prelude.{
  ℕ, ◌+◌, ◌*◌, ◌^◌, ◌≤◌, ◌<◌, ◌≡◌, ◌≢◌, refl, sym, ap, ap₂, subst, ◌∙◌, Bool, true, false, List, [],
  ◌∷◌, ◌++◌, Option, none, some, length, length-take_of_le, take, map, All, All-take, arith,
}
use nsca_fast.Packet.{Check, sizeof_data_packet}
use nsca_fast.Crypt.Mcrypt.{Mcrypt, CryptInstance, algorithm_of, full}
use nsca_fast.Crypt.Buffer.Laws.{Inverts}
use nsca_fast.Crypt.Random.{generate_transmitted_iv}
use nsca_fast.Crypt.Init.{Globals, Memory, success, encrypt_init, key_of, is_plain}
use nsca_fast.Crypt.Init.Laws.{open_instance}
use nsca_fast.Client.Settings.{Settings}
use nsca_fast.Client.Libevent.{Libevent, IsQueue}
use nsca_fast.Client.Judge.{is_too_old}
use nsca_fast.Client.Judge.Wire.{IsSendable}
use nsca_fast.Client.Queue.Stream.{IsResumable}
use nsca_fast.Client.Queue.Shared.{encrypt_stream}
use nsca_fast.Client.Queue.Sent.{packets_of}
use nsca_fast.Client.Connection.{
  Connection, Counters, stays, take_variables, writecb, is_shared, connection_closed, process_queue,
  report_success_failed,
}
use nsca_fast.Client.Connection.Reading.{receive_all}
use nsca_fast.Client.Connection.Framing.{IsFramed, arrived, packet_bytes}
use nsca_fast.Client.Connection.Closing.{handed}
use nsca_fast.Client.Connection.Kept.{IsKept, IsKept-refl, receive_all-IsKept}
use nsca_fast.Client.Connection.Session.{
  told_iv, told_time, IsGreeted, writecb-IsGreeted, connection_closed_own,
}
use nsca_fast.Client.Connection.Finish.{process_closed, processing_id, process_closed_own}
use nsca_fast.Prelude.Int.{pos, ltb_ℤ}
use nsca_fast.Fifo.{written, command_line}
use nsca_fast.Parent.{Outputs, Outside, is_empty, parent_delivery}
use nsca_fast.Parent.Lines.{IsConnected}
use nsca_fast.Parent.Arrive.{received_queue, unread_bytes, queue_arrives}

-- The stream that a client opens with a password and an IV, on a module of its own.
abbrev pub client_stream : (m : Mcrypt) → m.Td → List ℕ → List ℕ → m.Td
client_stream m td password iv =
    m.generic_init td (key_of (m.enc_get_key_size td) password) (m.enc_get_key_size td)
      (take (m.enc_get_iv_size td) iv)

-- What a client sends that was told an IV and a time by a greeting.
abbrev pub client_bytes : (m : Mcrypt) → m.Td → List ℕ → List ℕ → List Check → List ℕ
client_bytes m td password greeting checks = packet_bytes (
    encrypt_stream m (client_stream m td password (told_iv greeting))
      (packets_of (told_time greeting) checks))

-- The state of a stream that has just been opened is its IV.
abbrev pub StartsAtIv : Mcrypt → Type 0
StartsAtIv m =
    (td : m.Td) (key iv : List ℕ)
    → m.enc_set_state (m.generic_init td key (m.enc_get_key_size td) iv) iv (m.enc_get_iv_size td)
      ≡ m.generic_init td key (m.enc_get_key_size td) iv

module _ (l : Libevent) (m : Mcrypt) (q : IsQueue l) (s : Settings) where
  pub greeted-IsFramed :
      {network_ci : Option (CryptInstance m)} {own : Option (List ℕ)} (iv : List ℕ) (now : ℕ)
      (c : Connection l m)
      → IsGreeted l m q network_ci own iv now c
      → IsFramed l m q s [] 0 c
  unfolding packet_bytes
  greeted-IsFramed {network_ci} {own} iv now c h = record {
    bytes = ap₂ (λ ps input. packet_bytes ps ++ input) h.no_packets h.no_input;
    whole = subst (All _) (sym h.no_packets) tt;
    drained_bytes = omega (arith, h.nothing_drained, ap length h.no_packets);
    paced = omega (arith, ap length h.no_packets);
    bounded = omega (arith, ap length h.no_packets);
    held = omega (arith, ap length h.no_input);
  }

  module _ (inv : Inverts m) (resumable : IsResumable m) (starts : StartsAtIv m)
      (ciphered : 1 < s.decryption_method) (private : is_shared s ≡ false) (o : Outside)
      (thread_id : ℕ) (has_file : is_empty o.command_file ≡ false)
      (writes : (i : ℕ) → (n : ℕ) × ((o.fifo_answers i).write ≡ written n) × (0 < n)) where
    -- A client connects at a time and is sent the IV of its connection and the time; it opens a
    -- stream with the daemon's password and that IV, sends checks whose texts fit, with that time,
    -- and closes. Its bytes arrive in any pieces, over reads that leave the connection open and queue
    -- a packet, and when the connection is closed the time is not too old and encrypt_init succeeds.
    -- Then connection_closed and, if there are threads, the turn of the thread that takes the
    -- connection write exactly the lines of the first checks, one for each queued packet, in order,
    -- with every text as it was sent; they count as the only successes, nothing counts as a failure,
    -- the result path is not used, and the bytes that were not read are those of the other checks.
    -- This holds where the connections do not share an instance and the thread has one, of a libmcrypt that decrypts what it encrypts, can put back a state and
    -- starts a stream at its IV, and of a command file that is open and takes what it is given.
    pub session_arrives :
        (began : ℕ) (network_ci thread_ci : Option (CryptInstance m)) (g g' : Globals)
        (mem : Memory) (k k' k'' : Counters) (shared_iv : List ℕ) (c c' : Connection l m)
        (reads : List (List ℕ × Bool)) (checks : List Check) (td : m.Td) (w : Outputs)
        → began < 2 ^ 32
        → is_too_old s began ≡ false
        → All IsSendable checks
        → m.module_open (algorithm_of s.decryption_method) ≡ some td
        → (take_variables l m (record s { now = began }) network_ci true g k).0 ≡ stays c
        → arrived reads
          ≡ client_bytes m td s.password
              (q.contents (writecb l m (record s { now = began }) shared_iv c).output)
              checks
        → receive_all l m s reads (writecb l m (record s { now = began }) shared_iv c) ≡ stays c'
        → c'.data_packets ≢ []
        → (encrypt_init m g' mem s.password s.decryption_method c'.transmission_iv).status ≡ success
        → (ltb_ℤ (pos 0) s.nsca_threads_per_worker ≡ true → thread_ci ≢ none)
        → IsConnected o (processing_id l m (parent_delivery o) s thread_id thread_ci) w
        → (sizeof_data_packet * length (take (length c'.data_packets) checks)
              + length (q.contents c'.input)
            ≡ sizeof_data_packet * length checks)
          × (w' : Outputs) × (process_closed l m
                (parent_delivery o)
                s
                thread_id
                thread_ci
                (connection_closed l m s g' mem c' k').0
                w
                k''
              ≡ some
                  (w', report_success_failed (length (take (length c'.data_packets) checks)) 0 k''))
          × (w'.lines ≡ w.lines ++ map (command_line o.now) (take (length c'.data_packets) checks))
          × (w'.files ≡ w.files)
    unfolding open_instance
    session_arrives began network_ci thread_ci g g' mem k k' k'' shared_iv c c' reads checks td w
          young age ready opened accepted sent e some_packets ok there connected =
        let iv = (generate_transmitted_iv g.random).0 in
        let c1 = writecb l m (record s { now = began }) shared_iv c in
        let n = length c'.data_packets in
        let greeted =
          writecb-IsGreeted l m q (record s { now = began }) network_ci shared_iv g k c private
            young accepted in
        let start = client_stream m td s.password iv in
        let sent' =
          sent
          ∙ ap₂
              (λ v t.
                packet_bytes
                  (encrypt_stream m (client_stream m td s.password v) (packets_of t checks)))
              greeted.iv_told greeted.time_told in
        let fresh = greeted-IsFramed iv began c1 greeted in
        let queue =
          received_queue l m q s inv resumable ciphered reads start began checks c1 ready fresh
            sent' e in
        let kept = receive_all-IsKept l m q s reads c1 c1 c' (IsKept-refl l m c1) e in
        let plain : is_plain s.decryption_method ≡ false = ground arith in
        let closed =
          connection_closed_own l m s g' mem c' k' td iv private plain opened ok
            (kept.same_iv ∙ greeted.own_iv) greeted.whole_iv some_packets in
        let ci = open_instance m s.password s.decryption_method iv td in
        let own : Connection l m = record c' { ci = some ci; has_own_ci = true } in
        let key = key_of (m.enc_get_key_size td) s.password in
        let at_iv = starts td key (take (m.enc_get_iv_size td) iv) in
        let arrives =
          queue_arrives l m q s inv resumable ciphered o
            (processing_id l m (parent_delivery o) s thread_id thread_ci) has_file writes began
            (take n checks) own ci {td = start} {iv = take (m.enc_get_iv_size td) iv} w k''
            (All-take IsSendable n checks ready) young age
            (queue ∙ ap (λ t. encrypt_stream m t (packets_of began (take n checks))) (sym at_iv))
            refl refl refl closed.1 connected in
        (
          unread_bytes l m q s inv resumable ciphered reads start began checks c1 ready fresh sent'
              e,
          arrives.0,
          process_closed_own l m (parent_delivery o) s thread_id thread_ci g' mem c' own k' w k''
                closed.0 refl there
              ∙ arrives.1
              ∙ ap₂
                  (λ a b.
                    some (arrives.0, report_success_failed (a + length (take n checks)) b k''))
                  (kept.same_success ∙ greeted.no_success) (kept.same_failed ∙ greeted.no_failed)
              ∙ ap (λ a. some (arrives.0, report_success_failed a 0 k'')) (omega arith),
          arrives.2,
          arrives.3,
        )
