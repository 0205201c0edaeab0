-- ===== src/Client/Connection.antt =====
-- class network_client of network_client.cpp and network_client.h: the callbacks of a connection,
-- from take_variables to connection_closed. The byte counters stay below 2^64 and the packet
-- counters below 2^31. `connection_state` has one flag, CONNECTION_STATE_INIT_SENT.

pub mod Reading
pub mod Framing
pub mod Prefix
pub mod Old
pub mod Unread
pub mod Closing
pub mod Kept
pub mod Session
pub mod Finish
mod Tests
use nsca_fast.Prelude.{
  ℕ, zero, suc, ◌+◌, ◌-◌, ◌/◌, ◌%◌, ◌^◌, Bool, true, false, not, ◌&&◌, ◌||◌, List, [], ◌∷◌, ◌++◌,
  Option, none, some, length, replicate, bit_and, ltb, leb, ◌==◌, if◌then◌else◌, u16, u32,
}
use nsca_fast.Prelude.Int.{ℤ, pos, ltb_ℤ}
use nsca_fast.Packet.{sizeof_data_packet, old_packet_length}
use nsca_fast.Crypt.Mcrypt.{Mcrypt, CryptInstance}
use nsca_fast.Crypt.Random.{generate_transmitted_iv}
use nsca_fast.Crypt.Init.{
  Globals, Memory, Status, success, failure, encrypt_init, Resource, encrypt_cleanup,
}
use nsca_fast.Client.Settings.{Settings, to_size}
use nsca_fast.Client.Deliver.{Delivery}
use nsca_fast.Client.Queue.{Pair, Tally, process_packets}
use nsca_fast.Client.Libevent.{Libevent}

-- The counters of `class network` that its connections change: two of its 32-bit and 64-bit words.
pub record Counters : Type 0 where
  pub connections : ℕ
  pub counter : ℕ
  pub message_success : ℕ
  pub message_failed : ℕ

-- `connections++` and `connections--` on a uint32_t.
unfoldable pub connected : Counters → Counters
connected c = record c { connections = u32 (c.connections + 1) }

unfoldable pub disconnected : Counters → Counters
disconnected c = record c { connections = u32 (c.connections + 2 ^ 32 - 1) }

-- `report_success_failed(uint16_t success, uint16_t failed)` of network.cpp; the totals have 64 bits.
unfoldable pub report_success_failed : ℕ → ℕ → Counters → Counters
report_success_failed sent lost c = record c {
  message_success = (c.message_success + u16 sent) % 2 ^ 64;
  message_failed = (c.message_failed + u16 lost) % 2 ^ 64;
}

abbrev pub is_shared : Settings → Bool
is_shared s = not (bit_and s.decryption_mode 1 == 0)

pub record Connection (l : Libevent) (m : Mcrypt) : Type 0 where
  pub init_sent : Bool
  pub transmission_iv : Option (List ℕ)
  pub ci : Option (CryptInstance m)
  pub has_own_ci : Bool
  pub d_failed : ℕ
  pub d_success : ℕ
  pub bytes_received : ℕ
  pub bytes_drained : ℕ
  pub data_packets : List Pair
  pub input : l.Evbuffer
  pub output : l.Evbuffer
  pub write_enabled : Bool

-- A callback leaves the connection open, or frees its bufferevent and calls proper_destroy, which
-- deletes it; settle counts it off.
pub data Event (l : Libevent) (m : Mcrypt) : Type 0 where
  stays : Connection l m → Event l m
  destroyed : Event l m

module _ (l : Libevent) (m : Mcrypt) where
  -- set_CI.
  unfoldable pub set_ci : Option (CryptInstance m) → Connection l m → Connection l m
  set_ci my_ci c = if c.has_own_ci then c else record c { ci = my_ci }

  -- The constructor.
  unfoldable pub network_client : Connection l m
  network_client = record {
    init_sent = false;
    transmission_iv = none;
    ci = none;
    has_own_ci = false;
    d_failed = 0;
    d_success = 0;
    bytes_received = 0;
    bytes_drained = 0;
    data_packets = [];
    input = l.empty;
    output = l.empty;
    write_enabled = true;
  }

  -- take_variables, without the texts of addresses: `network_ci` is the instance of the network if
  -- it uses one, and `bound` says whether init_events got its bufferevent.
  unfoldable pub take_variables :
      Settings
      → Option (CryptInstance m)
      → Bool
      → Globals
      → Counters
      → Event l m × Globals × Counters
  unfolding set_ci connected disconnected network_client
  take_variables s network_ci bound g c =
      let opened = record (connected c) { counter = (c.counter + 1) % 2 ^ 64 } in
      let with_ci = set_ci network_ci network_client in
      let (iv, random) = generate_transmitted_iv g.random in
      let (ready, g') : Connection l m × Globals =
        if is_shared s
        then (with_ci, g)
        else (record with_ci { transmission_iv = some iv }, record g { random = random }) in
      if bound then (stays ready, g', opened) else (destroyed, g', disconnected opened)

  -- writecb: the IV and the time once, as the bytes of an init_packet; then nothing more.
  unfoldable pub init_packet : List ℕ → ℕ → List ℕ
  init_packet iv now =
      iv ++ (now / 2 ^ 24 % 2 ^ 8 ∷ now / 2 ^ 16 % 2 ^ 8 ∷ now / 2 ^ 8 % 2 ^ 8 ∷ now % 2 ^ 8 ∷ [])

  unfoldable pub writecb : Settings → List ℕ → Connection l m → Connection l m
  unfolding init_packet
  writecb s shared_iv c = if c.init_sent then record c { write_enabled = false } else record c {
    output =
        l.add c.output
          (init_packet (elim c.transmission_iv [ some iv ↦ iv | none ↦ shared_iv ]) s.now);
    init_sent = true;
  }

  -- proper_destroy as far as the network sees it, and the counters after a callback.
  unfoldable pub proper_destroy : Counters → Counters
  unfolding disconnected
  proper_destroy k = disconnected k

  unfoldable pub settle : Event l m → Counters → Counters
  unfolding proper_destroy
  settle (stays c) k = k
  settle destroyed k = proper_destroy k

  -- readcb, from the removal of a packet on.
  unfoldable pub drain_packet : Connection l m → Event l m
  drain_packet c =
      let (removed, rest) = l.remove c.input sizeof_data_packet in
      elim removed [
        | none ↦ destroyed
        | some bytes ↦
            if ltb (length bytes) sizeof_data_packet
            then destroyed
            else stays (record c {
              bytes_drained = c.bytes_drained + length bytes;
              data_packets =
                  c.data_packets
                  ++ record { receive_packet = bytes; packet_length = sizeof_data_packet } ∷ [];
              input = rest;
            })
      ]

  -- readcb; `allocated` says whether `calloc` succeeds.
  unfoldable pub readcb : Settings → Bool → Connection l m → Event l m
  readcb s allocated c =
      let rsize = l.get_length c.input in
      let counted = record c { bytes_received = c.bytes_received + rsize } in
      if ltb rsize sizeof_data_packet
      then stays counted
      else if ltb (to_size s.max_checks_per_connection) (length c.data_packets)
      then destroyed
      else if allocated
      then drain_packet counted
      else stays counted

  -- The part of eventcb before the bufferevent is freed: an old packet, which is shorter, is queued
  -- with zeros behind it. `none` is a write past the packet's struct. The removal fails if it
  -- copies fewer bytes than the buffer has.
  unfoldable pub drain_old_packet : Connection l m → Option (Connection l m)
  drain_old_packet c =
      let rsize = l.get_length c.input in
      let (removed, rest) = l.remove c.input rsize in
      elim removed [
        | none ↦ some (record c { d_failed = c.d_failed + 1 })
        | some bytes ↦
            if ltb sizeof_data_packet (length bytes)
            then none
            else if ltb (length bytes) rsize
            then some (record c { d_failed = c.d_failed + 1 })
            else some (record c {
              data_packets =
                  c.data_packets
                  ++ record {
                    receive_packet = bytes ++ replicate (sizeof_data_packet - length bytes) 0;
                    packet_length = rsize;
                  }
                    ∷ [];
              input = rest;
            })
      ]

  -- eventcb up to its call of connection_closed. The event's kind is only logged.
  unfoldable pub eventcb : Bool → Connection l m → Option (Connection l m)
  unfolding drain_old_packet
  eventcb allocated c =
      if c.bytes_received == old_packet_length && c.bytes_drained == 0
      then if allocated then drain_old_packet c else some c
      else some c

  -- What connection_closed does with the connection: it is deleted unprocessed, it is handed to a
  -- worker thread, or its queue is processed here and now.
  pub data Closed : Type 0 where
    dropped : Closed
    queued : Connection l m → Closed
    processed : Connection l m → Closed

  unfoldable pub with_own_ci :
      Settings → Globals → Memory → Connection l m → Option (Connection l m) × Globals
  with_own_ci s g mem c =
      if is_shared s
      then (some c, g)
      else (let made = encrypt_init m g mem s.password s.decryption_method c.transmission_iv in
          elim made.status [
            | success ↦
                (some (record c { ci = made.instance_pointer; has_own_ci = true }), made.globals)
            | failure ↦ (none, made.globals)
          ])

  -- A connection is handed on if it is ready and has packets.
  unfoldable pub hand_on : Settings → Option (Connection l m) → Closed
  hand_on s none = dropped
  hand_on s (some own) = elim own.data_packets [
    | [] ↦ dropped
    | _ ∷ _ ↦ if ltb_ℤ (pos 0) s.nsca_threads_per_worker then queued own else processed own
  ]

  unfoldable pub connection_closed :
      Settings → Globals → Memory → Connection l m → Counters → Closed × Globals × Counters
  connection_closed s g mem c k =
      let (ready, g') = with_own_ci s g mem c in (hand_on s ready, g', disconnected k)

  -- process_queue: the packets, and then the report. `none` is undefined behaviour.
  unfoldable pub process_queue :
      (d : Delivery)
      → Settings
      → ℕ
      → Bool
      → Connection l m
      → d.World
      → Counters
      → Option (d.World × Counters)
  process_queue d s thread_id allocated c w k =
      let tally : Tally d.World = record {
        success = c.d_success;
        failed = c.d_failed;
        world = w;
      } in
      elim (process_packets m d s thread_id allocated c.data_packets c.ci tally) [
        | none ↦ none
        | some t ↦ some (t.world, report_success_failed t.success t.failed k)
      ]

  -- The destructor, as far as a crypt instance is released: with the method of the network, and with
  -- `mcrypt_initialized`. `none` is undefined behaviour.
  unfoldable pub destructor : ℕ → Bool → Connection l m → Option (List Resource)
  destructor method mcrypt_initialized c =
      if c.has_own_ci then encrypt_cleanup m mcrypt_initialized method c.ci else some []
