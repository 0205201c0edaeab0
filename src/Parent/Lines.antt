-- ===== src/Parent/Lines.antt =====
-- What a connection's packets become in the command file.
use mathlib.Core.List.{append_assoc, append-nil}
use nsca_fast.Prelude.{
  ℕ, ◌+◌, ◌≤◌, ◌<◌, ◌≡◌, refl, sym, ap, subst, ◌∙◌, Bool, true, false, List, [], ◌∷◌, ◌++◌, Option,
  some, All, map, length, get_or, get_or-set_same, length-set, ltb, if◌then◌else◌, arith,
}
use nsca_fast.Packet.{Check}
use nsca_fast.Packet.Layout.{Fits}
use nsca_fast.Crypt.Mcrypt.{Mcrypt, CryptInstance}
use nsca_fast.Client.Settings.{Settings}
use nsca_fast.Client.Deliver.{try_command, send_receive_message}
use nsca_fast.Client.Queue.{Pair, Tally, count_message, process_queue_nomcrypt}
use nsca_fast.Client.Queue.Spec.{
  accepted_checks, some_refused, deliver_checks, deliver_plain, plain_pairs,
  process_queue_nomcrypt_lem,
}
use nsca_fast.Fifo.{FifoClient, Answers, written, fifo_client, command_line, write_command, command}
use nsca_fast.Fifo.Line.{output_buffer_whole}
use nsca_fast.Fifo.Stuck.{init_events_kept}
use nsca_fast.Parent.{Outputs, Outside, command_at, line_sent, is_empty, parent_delivery}

-- A client whose stream is open, and which does not wait before it is opened again.
pub record IsOpenClient (now : ℕ) (c : FifoClient) : Type 0 where
  pub not_blocked : c.block_fifo_until ≤ now
  pub has_stream : c.fp ≡ true
  pub descriptor : ℕ
  pub has_descriptor : c.fd ≡ some descriptor

command_open :
    (now n : ℕ) (a : Answers) (check : Check) (c : FifoClient)
    → Fits check
    → IsOpenClient now c
    → a.write ≡ written n
    → 0 < n
    → ((command now a check c).result ≡ true)
      × ((command now a check c).sent ≡ some (command_line now check))
      × ((command now a check c).client ≡ c)
unfolding command write_command
command_open now n a check c fits ready writes some_bytes =
    let free : ltb now c.block_fifo_until ≡ false = ground (arith, ready.not_blocked) in
    let positive : ltb 0 n ≡ true = ground (arith, some_bytes) in
    rw
      (
        free,
        init_events_kept now a c ready.descriptor ready.has_descriptor,
        ready.has_stream,
        output_buffer_whole now check fits,
        writes,
        positive,
      )
      (refl, refl, refl)

module _ (o : Outside) (thread_id : ℕ) where
  -- The client of the thread is there, with its stream.
  pub record IsConnected (w : Outputs) : Type 0 where
    pub in_range : thread_id < length w.fifo_clients
    pub open_client : IsOpenClient o.now (get_or w.fifo_clients thread_id (fifo_client []))

  -- A message that the command file takes.
  record IsSent (check : Check) (w : Outputs) (r : Bool × Outputs) : Type 0 where
    counted : r.0 ≡ true
    one_line : r.1.lines ≡ w.lines ++ command_line o.now check ∷ []
    same_files : r.1.files ≡ w.files
    connected : IsConnected r.1

  module _ (has_file : is_empty o.command_file ≡ false)
      (writes : (i : ℕ) → (n : ℕ) × ((o.fifo_answers i).write ≡ written n) × (0 < n)) where
    command_at-IsSent :
        (check : Check) (w : Outputs)
        → Fits check
        → IsConnected w
        → IsSent check w (command_at o thread_id check w)
    unfolding command_at
    command_at-IsSent check w fits ready =
        let answered = writes w.fifo_calls in
        let c = get_or w.fifo_clients thread_id (fifo_client []) in
        let done =
          command_open o.now answered.0 (o.fifo_answers w.fifo_calls) check c fits ready.open_client
            answered.1 answered.2 in
        record {
          counted = done.0;
          one_line = ap (λ sent. w.lines ++ line_sent sent) done.1;
          same_files = refl;
          connected = record {
            in_range =
                subst (λ n. thread_id < n) (sym (length-set w.fifo_clients thread_id _))
                  ready.in_range;
            open_client =
                subst (IsOpenClient o.now)
                  (sym (
                    get_or-set_same w.fifo_clients thread_id _ (fifo_client []) ready.in_range
                    ∙ done.2))
                  ready.open_client;
          };
        }

    send-IsSent :
        (check : Check) (w : Outputs)
        → Fits check
        → IsConnected w
        → IsSent check w (send_receive_message (parent_delivery o) thread_id check w)
    unfolding send_receive_message try_command
    send-IsSent check w fits ready =
        let sent = command_at-IsSent check w fits ready in
        rw (has_file, sent.counted)
          record {
            counted = refl;
            one_line = sent.one_line;
            same_files = sent.same_files;
            connected = sent.connected;
          }

    -- Every check is one line and one success, and nothing else changes.
    pub record IsDelivered (checks : List Check) (t u : Tally Outputs) : Type 0 where
      pub all_lines : u.world.lines ≡ t.world.lines ++ map (command_line o.now) checks
      pub same_files : u.world.files ≡ t.world.files
      pub successes : u.success ≡ t.success + length checks
      pub failures : u.failed ≡ t.failed

    count_message-IsDelivered :
        (check : Check) (t : Tally Outputs)
        → Fits check
        → IsConnected t.world
        → IsDelivered (check ∷ []) t (count_message (parent_delivery o) thread_id check t)
          × IsConnected (count_message (parent_delivery o) thread_id check t).world
    unfolding count_message
    count_message-IsDelivered check t fits ready =
        let sent = send-IsSent check t.world fits ready in
        rw sent.counted (
          record {
            all_lines = sent.one_line;
            same_files = sent.same_files;
            successes = refl;
            failures = refl;
          },
          sent.connected,
        )

    pub deliver_checks-IsDelivered :
        (checks : List Check) (t : Tally Outputs)
        → All Fits checks
        → IsConnected t.world
        → IsDelivered checks t (deliver_checks (parent_delivery o) thread_id checks t)
    unfolding deliver_checks
    deliver_checks-IsDelivered [] t fits ready = record {
      all_lines = sym (append-nil t.world.lines);
      same_files = refl;
      successes = omega arith;
      failures = refl;
    }
    deliver_checks-IsDelivered (check ∷ checks) t fits ready =
        let (first, still) = count_message-IsDelivered check t fits.0 ready in
        let rest =
          deliver_checks-IsDelivered checks (count_message (parent_delivery o) thread_id check t)
            fits.1 still in
        record {
          all_lines =
              rest.all_lines
              ∙ ap (λ ls. ls ++ map (command_line o.now) checks) first.all_lines
              ∙ append_assoc t.world.lines (command_line o.now check ∷ [])
                  (map (command_line o.now) checks);
          same_files = rest.same_files ∙ first.same_files;
          successes = omega (arith, rest.successes, first.successes);
          failures = rest.failures ∙ first.failures;
        }

    -- Without a cipher, with a command file whose client is open and takes what it is given, a queue
    -- of packets becomes exactly the lines of the checks before the first refused packet, in order:
    -- the result path is not used, each of these checks counts as a success, and the refused packet
    -- as a failure.
    pub process_queue_nomcrypt_lines :
        (m : Mcrypt) (s : Settings) (packets : List Pair) (ci : Option (CryptInstance m))
        (t : Tally Outputs)
        → s.decryption_method ≤ 1
        → All Fits (accepted_checks s (plain_pairs s ci packets))
        → IsConnected t.world
        → (u : Tally Outputs) × (process_queue_nomcrypt m
              (parent_delivery o)
              s
              thread_id
              packets
              ci
              t
            ≡ some u)
          × (u.world.lines
              ≡ t.world.lines
                ++ map (command_line o.now) (accepted_checks s (plain_pairs s ci packets)))
          × (u.world.files ≡ t.world.files)
          × (u.success ≡ t.success + length (accepted_checks s (plain_pairs s ci packets)))
          × (u.failed ≡ t.failed + (if some_refused s (plain_pairs s ci packets) then 1 else 0))
    unfolding deliver_plain
    process_queue_nomcrypt_lines m s packets ci t plain fits ready =
        let plains = plain_pairs s ci packets in
        let checks = accepted_checks s plains in
        let done = deliver_checks-IsDelivered checks t fits ready in
        let delivered = deliver_checks (parent_delivery o) thread_id checks t in
        let ends = at_end (some_refused s plains) checks delivered done in
        (
          deliver_plain (parent_delivery o) s thread_id plains t,
          process_queue_nomcrypt_lem m (parent_delivery o) s thread_id packets ci t plain,
          ends.0,
          ends.1,
          ends.2,
          ends.3,
        )
      where
        counted : Bool → Tally Outputs → Tally Outputs
        counted refused u = if refused then record u { failed = u.failed + 1 } else u

        at_end :
            (refused : Bool) (checks : List Check) (delivered : Tally Outputs)
            → IsDelivered checks t delivered
            → ((counted refused delivered).world.lines
                ≡ t.world.lines ++ map (command_line o.now) checks)
              × ((counted refused delivered).world.files ≡ t.world.files)
              × ((counted refused delivered).success ≡ t.success + length checks)
              × ((counted refused delivered).failed ≡ t.failed + (if refused then 1 else 0))
        at_end true checks delivered d =
            (d.all_lines, d.same_files, d.successes, omega (arith, d.failures))
        at_end false checks delivered d =
            (d.all_lines, d.same_files, d.successes, omega (arith, d.failures))
