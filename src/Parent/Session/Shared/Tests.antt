-- ===== src/Parent/Session/Shared/Tests.antt =====
-- A session of the client with two checks where two crypt threads share the network's IV: the second
-- thread, whose stream earlier connections have used, takes the connection's queue.
use nsca_fast.Prelude.{
  ℕ, suc, ◌+◌, ◌*◌, ◌≡◌, refl, ap, ◌∙◌, Bool, true, false, List, [], ◌∷◌, ◌++◌, none, some, map,
  take, drop, replicate, take-append-drop, arith,
}
use mathlib.Core.List.{append-nil}
use nsca_fast.Prelude.Int.{pos}
use nsca_fast.Crypt.Init.{key_of}
use nsca_fast.Crypt.Buffer.{stream}
use nsca_fast.Packet.Wire.{laid_out, texts, field}
use nsca_fast.Client.Settings.{Settings}
use nsca_fast.Client.Judge.{is_too_old}
use nsca_fast.Client.Judge.Wire.{packet_of}
use nsca_fast.Client.Queue.Shared.{encrypt_stream}
use nsca_fast.Client.Queue.Sent.{packets_of}
use nsca_fast.Client.Connection.{
  Connection, stays, network_client, take_variables, writecb, init_packet, readcb, drain_packet,
  connection_closed, report_success_failed,
}
use nsca_fast.Client.Connection.Reading.{receive, receive_all}
use nsca_fast.Client.Connection.Framing.{arrived, packet_bytes}
use nsca_fast.Client.Connection.Session.{told_iv, told_time}
use nsca_fast.Fifo.{command_line}
use nsca_fast.Parent.{Outputs, parent_delivery}
use nsca_fast.Parent.Lines.{IsConnected}
use nsca_fast.Parent.Session.{client_stream, client_bytes}
use nsca_fast.Parent.Session.Example.{
  lists, lists-IsQueue, counter_cipher, counter_cipher-Inverts, counter_cipher_resumable,
  counter_cipher-StartsAtIv, settings, globals, enough, checks, down-IsSendable, fine-IsSendable,
  counters, takes_all, outputs,
}
use nsca_fast.Parent.Session.Shared.{instance_in_use, session_arrives_shared}
use nsca_fast.Client.Connection.Finish.{process_closed}

abbrev shared_settings : ℕ → Settings
shared_settings now = record (settings now) { nsca_threads_per_worker = pos 2; decryption_mode = 1 }

abbrev shared_iv : List ℕ
shared_iv = replicate 128 7

abbrev accepted : Connection lists counter_cipher
accepted = network_client lists counter_cipher

accepts :
    (take_variables lists counter_cipher (shared_settings 990) none true globals counters).0
    ≡ stays accepted
unfolding take_variables network_client
accepts = refl

abbrev greeted : Connection lists counter_cipher
greeted = writecb lists counter_cipher (shared_settings 990) shared_iv accepted

abbrev sent : List ℕ
sent = client_bytes counter_cipher (0, 0) (112 ∷ 119 ∷ []) greeted.output checks

abbrev reads : List (List ℕ × Bool)
reads = (take 5000 sent, true) ∷ (drop 5000 sent, true) ∷ []

reads_sent : arrived reads ≡ sent
unfolding arrived
reads_sent = ap (◌++◌ (take 5000 sent)) (append-nil (drop 5000 sent)) ∙ take-append-drop 5000 sent

abbrev two_packets : Connection lists counter_cipher
two_packets = record greeted {
  bytes_received = 9304;
  bytes_drained = 8608;
  data_packets =
      encrypt_stream counter_cipher
        (client_stream counter_cipher (0, 0) (112 ∷ 119 ∷ []) (told_iv greeted.output))
        (packets_of 990 checks);
}

read_twice :
    receive_all lists counter_cipher (shared_settings 1000) reads greeted ≡ stays two_packets
unfolding receive_all receive readcb drain_packet take drop replicate encrypt_stream packets_of
    packet_of laid_out texts field stream packet_bytes writecb init_packet network_client told_iv
    told_time key_of
read_twice = refl

not_old : is_too_old (shared_settings 1000) 990 ≡ false
unfolding is_too_old
not_old = refl

abbrev two_clients : Outputs
two_clients = record outputs {
  fifo_clients =
      record { fd = none; fp = false; fifo_path = 99 ∷ []; block_fifo_until = 0 }
      ∷ record { fd = some 7; fp = true; fifo_path = 99 ∷ []; block_fifo_until = 0 }
      ∷ [];
}

two_clients-IsConnected : IsConnected takes_all 1 two_clients
two_clients-IsConnected = record {
  in_range = omega arith;
  open_client = record {
    not_blocked = omega arith;
    has_stream = refl;
    descriptor = 7;
    has_descriptor = refl;
  };
}

session_arrives_shared_example :
    (4304 * 2 + 0 ≡ 4304 * 2)
    × (w' : Outputs) × (process_closed lists counter_cipher
          (parent_delivery takes_all)
          (shared_settings 1000)
          1
          (some (instance_in_use counter_cipher (shared_settings 1000) shared_iv (0, 0) (112, 99)))
          (connection_closed lists counter_cipher
            (shared_settings 1000)
            globals
            enough
            two_packets
            counters).0
          two_clients
          counters
        ≡ some (w', report_success_failed 2 0 counters))
    × (w'.lines ≡ map (command_line 1000) checks)
    × (w'.files ≡ [])
unfolding take encrypt_stream packets_of writecb network_client replicate key_of
session_arrives_shared_example =
    session_arrives_shared lists counter_cipher lists-IsQueue (shared_settings 1000)
      counter_cipher-Inverts counter_cipher_resumable counter_cipher-StartsAtIv (omega arith) refl
      takes_all 1 refl (λ i. (suc i, refl, omega arith)) 990 none
      (some (instance_in_use counter_cipher (shared_settings 1000) shared_iv (0, 0) (112, 99)))
      globals globals enough counters counters counters shared_iv accepted two_packets reads checks
      (0, 0) (112, 99) two_clients (omega arith) not_old (down-IsSendable, (fine-IsSendable, tt))
      refl (omega arith) refl refl accepts reads_sent read_twice (λ e. cc e) two_clients-IsConnected
