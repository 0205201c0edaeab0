-- ===== src/Client/Connection/Framing.antt =====
-- How the reads of network_client.cpp cut a connection's bytes into packets.
use nsca_fast.Prelude.{
  ℕ, suc, ◌+◌, ◌-◌, ◌*◌, ◌≤◌, ◌≡◌, refl, sym, ap, ◌∙◌, Bool, List, [], ◌∷◌, ◌++◌, length, drop,
  length-take_of_le, length-append, take-append-drop, length-drop, All, All-append, arith,
}
use mathlib.Core.Path.{subst₂, subst}
use native.Mathlib.Nat.{add-zero}
use mathlib.Core.List.{append_assoc, append-nil}
use nsca_fast.Packet.{sizeof_data_packet}
use nsca_fast.Crypt.Mcrypt.{Mcrypt}
use nsca_fast.Client.Settings.{Settings, to_size}
use nsca_fast.Client.Libevent.{Libevent, IsQueue}
use nsca_fast.Client.Queue.{Pair}
use nsca_fast.Client.Queue.Sent.{IsWhole}
use nsca_fast.Client.Connection.{Connection, Event, stays, destroyed, readcb}
use nsca_fast.Client.Connection.Reading.{
  receive, receive_all, Reads, waits, starves, takes, overflows, readcb-Reads,
}

-- The bytes of the packets in the queue, in order.
unfoldable pub packet_bytes : List Pair → List ℕ
packet_bytes [] = []
packet_bytes (p ∷ packets) = p.receive_packet ++ packet_bytes packets

packet_bytes_snoc :
    (packets : List Pair) (p : Pair)
    → packet_bytes (packets ++ p ∷ []) ≡ packet_bytes packets ++ p.receive_packet
unfolding packet_bytes
packet_bytes_snoc [] p = append-nil p.receive_packet
packet_bytes_snoc (o ∷ packets) p =
    ap (◌++◌ o.receive_packet) (packet_bytes_snoc packets p)
    ∙ sym (append_assoc o.receive_packet (packet_bytes packets) p.receive_packet)

-- The bytes of all reads.
unfoldable pub arrived : List (List ℕ × Bool) → List ℕ
arrived [] = []
arrived ((bytes, allocated) ∷ reads) = bytes ++ arrived reads

module _ (l : Libevent) (m : Mcrypt) (q : IsQueue l) (s : Settings) where
  -- What holds after `reads` reads that brought the bytes `stream`.
  pub record IsFramed (stream : List ℕ) (reads : ℕ) (c : Connection l m) : Type 0 where
    -- the queue and then the input hold all the bytes, in order
    pub bytes : packet_bytes c.data_packets ++ q.contents c.input ≡ stream
    pub whole : All IsWhole c.data_packets
    pub drained_bytes : c.bytes_drained ≡ sizeof_data_packet * length c.data_packets
    -- no read queues two packets
    pub paced : length c.data_packets ≤ reads
    -- the limit is exceeded by one packet at most
    pub bounded : length c.data_packets ≤ to_size s.max_checks_per_connection + 1
    pub held : length (q.contents c.input) ≤ c.bytes_received

  abbrev Keeps : List ℕ → ℕ → Event l m → Type 0
  Keeps stream reads (stays c) = IsFramed stream reads c
  Keeps stream reads destroyed = Unit {0}

  Reads-IsFramed :
      (stream : List ℕ) (reads : ℕ) (allocated : Bool) (c : Connection l m) (e : Event l m)
      → packet_bytes c.data_packets ++ q.contents c.input ≡ stream
      → All IsWhole c.data_packets
      → c.bytes_drained ≡ sizeof_data_packet * length c.data_packets
      → length c.data_packets ≤ reads
      → length c.data_packets ≤ to_size s.max_checks_per_connection + 1
      → Reads l m q s allocated c e
      → Keeps stream (reads + 1) e
  Reads-IsFramed stream reads allocated c e b w n p o (waits short) = record {
    bytes = b;
    whole = w;
    drained_bytes = n;
    paced = omega arith;
    bounded = o;
    held = omega (arith, q.get_length-contents c.input);
  }
  Reads-IsFramed stream reads allocated c e b w n p o (starves missing) = record {
    bytes = b;
    whole = w;
    drained_bytes = n;
    paced = omega arith;
    bounded = o;
    held = omega (arith, q.get_length-contents c.input);
  }
  Reads-IsFramed stream reads allocated c e b w n p o
        (takes front rest enough few is_front is_rest) =
      record {
        bytes = in_order ∙ b;
        whole = All-append IsWhole c.data_packets _ w ((long, refl), tt);
        drained_bytes = omega (arith, long, length-append c.data_packets (queued ∷ []));
        paced = omega (arith, length-append c.data_packets (queued ∷ []));
        bounded = omega (arith, length-append c.data_packets (queued ∷ []));
        held = omega (arith, q.get_length-contents c.input, left);
      }
    where
      queued : Pair
      queued = record { receive_packet = front; packet_length = sizeof_data_packet }

      long : length front ≡ sizeof_data_packet
      long = rw is_front (length-take_of_le sizeof_data_packet (q.contents c.input) enough)

      left : length (q.contents rest) ≡ length (q.contents c.input) - sizeof_data_packet
      left = rw is_rest (length-drop sizeof_data_packet (q.contents c.input))

      in_order :
          packet_bytes (c.data_packets ++ queued ∷ []) ++ q.contents rest
          ≡ packet_bytes c.data_packets ++ q.contents c.input
      in_order =
          rw
            (
              packet_bytes_snoc c.data_packets queued,
              is_rest,
              append_assoc (packet_bytes c.data_packets) front
                  (drop sizeof_data_packet (q.contents c.input)),
              is_front,
            )
            (ap (◌++◌ (packet_bytes c.data_packets))
              (take-append-drop sizeof_data_packet (q.contents c.input)))
  Reads-IsFramed stream reads allocated c e b w n p o (overflows many) = tt

  receive-IsFramed :
      (stream bytes : List ℕ) (reads : ℕ) (allocated : Bool) (c : Connection l m)
      → IsFramed stream reads c
      → Keeps (stream ++ bytes) (reads + 1) (receive l m s bytes allocated c)
  unfolding receive
  receive-IsFramed stream bytes reads allocated c f =
      Reads-IsFramed (stream ++ bytes) reads allocated fed (readcb l m s allocated fed)
        (rw
          (
            q.contents-add c.input bytes,
            ← append_assoc (packet_bytes c.data_packets) (q.contents c.input) bytes,
            f.bytes,
          )
          refl)
        f.whole f.drained_bytes f.paced f.bounded (readcb-Reads l m q s allocated fed)
    where
      fed : Connection l m
      fed = record c { input = l.add c.input bytes }

  after_event : Connection l m → Event l m → Connection l m
  after_event c (stays c') = c'
  after_event c destroyed = c

  stays_injective : (c c' : Connection l m) → stays c ≡ stays c' → c ≡ c'
  unfolding after_event
  stays_injective c c' e = ap (after_event c) e

  -- The reads behind one whose event is known.
  after_receive :
      (P : Connection l m → Type 0) (reads : List (List ℕ × Bool)) (stream : List ℕ) (n : ℕ)
      (e : Event l m) {c' : Connection l m}
      → Keeps stream n e
      → elim e [ destroyed ↦ destroyed | stays c ↦ receive_all l m s reads c ] ≡ stays c'
      → ((c : Connection l m) → IsFramed stream n c → receive_all l m s reads c ≡ stays c' → P c')
      → P c'
  after_receive P reads stream n (stays c) f e go = go c f e
  after_receive P reads stream n destroyed f e go = absurd (cc e)

  -- Over any reads of a connection that they leave open, the queued packets and then the input's
  -- rest are the bytes that arrived, in order; every queued packet has the 4304 bytes of a packet;
  -- the drained bytes are counted right; each read queues at most one packet; and the queue holds
  -- at most one packet more than max_checks_per_connection.
  pub receive_all-IsFramed :
      (reads : List (List ℕ × Bool)) (stream : List ℕ) (before : ℕ) (c : Connection l m)
      {c' : Connection l m}
      → IsFramed stream before c
      → receive_all l m s reads c ≡ stays c'
      → IsFramed (stream ++ arrived reads) (before + length reads) c'
  unfolding receive_all arrived
  receive_all-IsFramed [] stream before c {c'} f e =
      rw (append-nil stream, add-zero before)
        (subst (IsFramed stream before) (stays_injective c c' e) f)
  receive_all-IsFramed ((bytes, allocated) ∷ reads) stream before c {c'} f e =
      after_receive goal reads (stream ++ bytes) (before + 1) (receive l m s bytes allocated c)
        (receive-IsFramed stream bytes before allocated c f) e
        (λ c'' f' e'.
          subst₂ (λ bs n. IsFramed bs n c') (append_assoc stream bytes (arrived reads)) sum
            (receive_all-IsFramed reads (stream ++ bytes) (before + 1) c'' f' e'))
    where
      goal : Connection l m → Type 0
      goal c'' = IsFramed (stream ++ (bytes ++ arrived reads)) (before + suc (length reads)) c''

      sum : before + 1 + length reads ≡ before + suc (length reads)
      sum = omega arith
