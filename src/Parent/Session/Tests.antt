-- ===== src/Parent/Session/Tests.antt =====
-- A session of a client with two checks, whose bytes come in two reads, neither of which is a packet,
-- and the theorem on it.
use nsca_fast.Prelude.{
  ℕ, suc, ◌+◌, ◌*◌, ◌≡◌, refl, ap, ◌∙◌, Bool, true, false, List, [], ◌∷◌, ◌++◌, none, some, map,
  take, drop, replicate, take-append-drop, arith,
}
use mathlib.Core.List.{append-nil}
use nsca_fast.Crypt.Mcrypt.{algorithm_of}
use nsca_fast.Crypt.Random.{generate_transmitted_iv, iv_bytes, xorshf96}
use nsca_fast.Crypt.Init.{
  success, encrypt_init, init_module, init_iv, init_key, key_of, blank, transmitted,
}
use nsca_fast.Crypt.Buffer.{stream}
use nsca_fast.Packet.Wire.{laid_out, texts, field}
use nsca_fast.Client.Judge.{is_too_old}
use nsca_fast.Client.Judge.Wire.{packet_of}
use nsca_fast.Client.Queue.Shared.{encrypt_stream}
use nsca_fast.Client.Queue.Sent.{packets_of}
use nsca_fast.Client.Connection.{
  Connection, stays, network_client, take_variables, writecb, init_packet, readcb, drain_packet,
  connection_closed, report_success_failed,
}
use nsca_fast.Client.Connection.Reading.{receive, receive_all}
use nsca_fast.Client.Connection.Framing.{arrived, packet_bytes}
use nsca_fast.Client.Connection.Session.{told_iv, told_time}
use nsca_fast.Fifo.{command_line}
use nsca_fast.Parent.{Outputs, parent_delivery}
use nsca_fast.Client.Connection.Finish.{process_closed}
use nsca_fast.Parent.Session.{client_stream, client_bytes, session_arrives}
use nsca_fast.Parent.Session.Example.{
  lists, lists-IsQueue, counter_cipher, counter_cipher-Inverts, counter_cipher_resumable,
  counter_cipher-StartsAtIv, settings, globals, enough, checks, down-IsSendable, fine-IsSendable,
  counters, takes_all, outputs, outputs-IsConnected,
}

-- The connection that is accepted, and then told its client the IV and the time.
abbrev accepted : Connection lists counter_cipher
accepted = record (network_client lists counter_cipher) {
  transmission_iv = some (generate_transmitted_iv globals.random).0;
}

accepts :
    (take_variables lists counter_cipher (settings 990) none true globals counters).0
    ≡ stays accepted
unfolding take_variables
accepts = refl

abbrev greeted : Connection lists counter_cipher
greeted = writecb lists counter_cipher (settings 990) [] accepted

abbrev sent : List ℕ
sent = client_bytes counter_cipher (0, 0) (112 ∷ 119 ∷ []) greeted.output checks

abbrev reads : List (List ℕ × Bool)
reads = (take 5000 sent, true) ∷ (drop 5000 sent, true) ∷ []

reads_sent : arrived reads ≡ sent
unfolding arrived
reads_sent = ap (◌++◌ (take 5000 sent)) (append-nil (drop 5000 sent)) ∙ take-append-drop 5000 sent

abbrev two_packets : Connection lists counter_cipher
two_packets = record greeted {
  bytes_received = 9304;
  bytes_drained = 8608;
  data_packets =
      encrypt_stream counter_cipher
        (client_stream counter_cipher (0, 0) (112 ∷ 119 ∷ []) (told_iv greeted.output))
        (packets_of 990 checks);
}

read_twice : receive_all lists counter_cipher (settings 1000) reads greeted ≡ stays two_packets
unfolding receive_all receive readcb drain_packet take drop replicate encrypt_stream packets_of
    packet_of laid_out texts field stream packet_bytes writecb init_packet network_client told_iv
    told_time generate_transmitted_iv iv_bytes xorshf96 key_of
read_twice = refl

initialises :
    (encrypt_init counter_cipher globals enough
      (112 ∷ 119 ∷ [])
      3
      two_packets.transmission_iv).status
    ≡ success
unfolding encrypt_init init_module init_iv init_key blank transmitted algorithm_of writecb
initialises = refl

not_old : is_too_old (settings 1000) 990 ≡ false
unfolding is_too_old
not_old = refl

session_arrives_example :
    (4304 * 2 + 0 ≡ 4304 * 2)
    × (w' : Outputs) × (process_closed lists counter_cipher
          (parent_delivery takes_all)
          (settings 1000)
          0
          none
          (connection_closed lists counter_cipher
            (settings 1000)
            globals
            enough
            two_packets
            counters).0
          outputs
          counters
        ≡ some (w', report_success_failed 2 0 counters))
    × (w'.lines ≡ map (command_line 1000) checks)
    × (w'.files ≡ [])
unfolding take encrypt_stream packets_of writecb network_client
session_arrives_example =
    session_arrives lists counter_cipher lists-IsQueue (settings 1000) counter_cipher-Inverts
      counter_cipher_resumable counter_cipher-StartsAtIv (omega arith) refl takes_all 0 refl
      (λ i. (suc i, refl, omega arith)) 990 none none globals globals enough counters counters
      counters [] accepted two_packets reads checks (0, 0) outputs (omega arith) not_old
      (down-IsSendable, (fine-IsSendable, tt)) refl accepts reads_sent read_twice (λ e. cc e)
      initialises (λ e. cc e) outputs-IsConnected
