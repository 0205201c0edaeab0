-- ===== src/Parent/Arrive.antt =====
-- A connection from its client's checks to the lines of the command file: the packets of the client,
-- the reads of the connection, its queue and the deliveries together.
use nsca_fast.Prelude.{
  ℕ, ◌+◌, ◌*◌, ◌^◌, ◌≤◌, ◌<◌, ◌≡◌, refl, ap, ap₂, ◌∙◌, Bool, true, false, List, [], ◌∷◌, ◌++◌,
  Option, some, lt→ltb, length, length-append, take, map, All, arith,
}
use nsca_fast.Packet.{Check, sizeof_data_packet}
use nsca_fast.Packet.Layout.{Fits}
use nsca_fast.Crypt.Mcrypt.{Mcrypt, CryptInstance, full}
use nsca_fast.Crypt.Buffer.Laws.{Inverts}
use nsca_fast.Client.Settings.{Settings}
use nsca_fast.Client.Libevent.{Libevent, IsQueue}
use nsca_fast.Client.Judge.{is_too_old}
use nsca_fast.Client.Judge.Wire.{IsSendable}
use nsca_fast.Client.Deliver.{Delivery}
use nsca_fast.Client.Queue.{Pair, Tally, process_packets}
use nsca_fast.Client.Queue.Spec.{deliver_checks}
use nsca_fast.Client.Queue.Stream.{IsResumable}
use nsca_fast.Client.Queue.Shared.{encrypt_stream, encrypt_stream_delivered}
use nsca_fast.Client.Queue.Sent.{
  length-encrypt_stream, packets_of, packets_of-Says, encrypt_stream-IsWhole, take-encrypt_stream,
}
use nsca_fast.Client.Connection.{Connection, Counters, stays, process_queue, report_success_failed}
use nsca_fast.Client.Connection.Reading.{receive_all}
use nsca_fast.Client.Connection.Framing.{IsFramed, arrived, packet_bytes, receive_all-IsFramed}
use nsca_fast.Client.Connection.Prefix.{packet_bytes_prefix, length-packet_bytes}
use nsca_fast.Fifo.{written, command_line}
use nsca_fast.Parent.{Outputs, Outside, is_empty, parent_delivery}
use nsca_fast.Parent.Lines.{IsConnected, deliver_checks-IsDelivered}

All-Fits : (checks : List Check) → All IsSendable checks → All Fits checks
All-Fits [] ready = tt
All-Fits (check ∷ checks) ready = (ready.0.fits, All-Fits checks ready.1)

module _ (l : Libevent) (m : Mcrypt) (q : IsQueue l) (s : Settings) (inv : Inverts m)
    (resumable : IsResumable m) (ciphered : 1 < s.decryption_method) where
  -- The bytes that a client sends for its checks at a time.
  abbrev pub sent_bytes : m.Td → ℕ → List Check → List ℕ
  sent_bytes td time checks = packet_bytes (encrypt_stream m td (packets_of time checks))

  pub received_queue :
      (reads : List (List ℕ × Bool)) (td : m.Td) (time : ℕ) (checks : List Check)
      (c : Connection l m) {c' : Connection l m}
      → All IsSendable checks
      → IsFramed l m q s [] 0 c
      → arrived reads ≡ sent_bytes td time checks
      → receive_all l m s reads c ≡ stays c'
      → c'.data_packets
        ≡ encrypt_stream m td (packets_of time (take (length c'.data_packets) checks))
  received_queue reads td time checks c {c'} ready fresh sent e =
      let framed = receive_all-IsFramed l m q s reads [] 0 c fresh e in
      packet_bytes_prefix c'.data_packets (encrypt_stream m td (packets_of time checks))
        (q.contents c'.input) framed.whole (encrypt_stream-IsWhole m td time checks ready)
        (framed.bytes ∙ sent)
      ∙ take-encrypt_stream (length c'.data_packets) m td time checks

  length-queue :
      (queue : List Pair) (td : m.Td) (time n : ℕ) (checks : List Check)
      → queue ≡ encrypt_stream m td (packets_of time (take n checks))
      → length queue ≡ length (take n checks)
  length-queue queue td time n checks e =
      ap length e ∙ length-encrypt_stream m td time (take n checks)

  -- The bytes that are left in the input are those of the packets that are not in the queue.
  pub unread_bytes :
      (reads : List (List ℕ × Bool)) (td : m.Td) (time : ℕ) (checks : List Check)
      (c : Connection l m) {c' : Connection l m}
      → All IsSendable checks
      → IsFramed l m q s [] 0 c
      → arrived reads ≡ sent_bytes td time checks
      → receive_all l m s reads c ≡ stays c'
      → sizeof_data_packet * length (take (length c'.data_packets) checks)
          + length (q.contents c'.input)
        ≡ sizeof_data_packet * length checks
  unread_bytes reads td time checks c {c'} ready fresh sent e =
      let framed = receive_all-IsFramed l m q s reads [] 0 c fresh e in
      let packets = encrypt_stream m td (packets_of time checks) in
      omega (
        arith,
        length-queue c'.data_packets td time (length c'.data_packets) checks
            (received_queue reads td time checks c ready fresh sent e),
        length-packet_bytes c'.data_packets framed.whole,
        length-packet_bytes packets (encrypt_stream-IsWhole m td time checks ready),
        length-encrypt_stream m td time checks,
        ap length (framed.bytes ∙ sent),
        length-append (packet_bytes c'.data_packets) (q.contents c'.input),
      )

  process_packets_sent :
      (d : Delivery) (thread_id time : ℕ) (checks : List Check) (queue : List Pair)
      (instance_pointer : Option (CryptInstance m)) (ci : CryptInstance m) (t : Tally d.World)
      {td : m.Td} {iv : List ℕ}
      → All IsSendable checks
      → time < 2 ^ 32
      → is_too_old s time ≡ false
      → queue ≡ encrypt_stream m (m.enc_set_state td iv ci.iv_size) (packets_of time checks)
      → instance_pointer ≡ some ci
      → ci.td ≡ full td
      → ci.iv ≡ full iv
      → ci.iv_size ≤ 128
      → process_packets m d s thread_id true queue instance_pointer t
        ≡ some (deliver_checks d thread_id checks t)
  unfolding process_packets
  process_packets_sent d thread_id time checks queue instance_pointer ci t ready young age is_queue
        has_ci open_td kept fits =
      rw (lt→ltb 1 s.decryption_method ciphered, is_queue, has_ci)
        (encrypt_stream_delivered m d s thread_id inv resumable ciphered (packets_of time checks)
          checks ci t (packets_of-Says s time checks ready young age) open_td kept fits)

  process_queue_done :
      (d : Delivery) (thread_id : ℕ) (c : Connection l m) (w : d.World) (k : Counters)
      (t : Tally d.World)
      → process_packets m d s thread_id true c.data_packets c.ci
          (record { success = c.d_success; failed = c.d_failed; world = w })
        ≡ some t
      → process_queue l m d s thread_id true c w k
        ≡ some (t.world, report_success_failed t.success t.failed k)
  unfolding process_queue
  process_queue_done d thread_id c w k t e = rw (e, process_queue) refl

  module _ (o : Outside) (thread_id : ℕ) (has_file : is_empty o.command_file ≡ false)
      (writes : (i : ℕ) → (n : ℕ) × ((o.fifo_answers i).write ≡ written n) × (0 < n)) where
    -- A queue that holds the packets of checks, encrypted from the IV of the connection's instance,
    -- is delivered whole.
    pub queue_arrives :
        (time : ℕ) (checks : List Check) (c : Connection l m) (ci : CryptInstance m) {td : m.Td}
        {iv : List ℕ} (w : Outputs) (k : Counters)
        → All IsSendable checks
        → time < 2 ^ 32
        → is_too_old s time ≡ false
        → c.data_packets
          ≡ encrypt_stream m (m.enc_set_state td iv ci.iv_size) (packets_of time checks)
        → c.ci ≡ some ci
        → ci.td ≡ full td
        → ci.iv ≡ full iv
        → ci.iv_size ≤ 128
        → IsConnected o thread_id w
        → (w' : Outputs) × (process_queue l m (parent_delivery o) s thread_id true c w k
            ≡ some (w', report_success_failed (c.d_success + length checks) c.d_failed k))
          × (w'.lines ≡ w.lines ++ map (command_line o.now) checks)
          × (w'.files ≡ w.files)
    queue_arrives time checks c ci w k ready young age queue has_ci open_td kept fits connected =
        let begun : Tally Outputs = record {
          success = c.d_success;
          failed = c.d_failed;
          world = w;
        } in
        let end = deliver_checks (parent_delivery o) thread_id checks begun in
        let delivered =
          deliver_checks-IsDelivered o thread_id has_file writes checks begun
            (All-Fits checks ready) connected in
        let processed =
          process_packets_sent (parent_delivery o) thread_id time checks c.data_packets c.ci ci
            begun ready young age queue has_ci open_td kept fits in
        (
          end.world,
          process_queue_done (parent_delivery o) thread_id c w k end processed
              ∙ ap₂ (λ a b. some (end.world, report_success_failed a b k)) delivered.successes
                  delivered.failures,
          delivered.all_lines,
          delivered.same_files,
        )
