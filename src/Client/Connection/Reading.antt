-- ===== src/Client/Connection/Reading.antt =====
-- What one call of readcb of network_client.cpp does, and a connection's reads one after another.
use nsca_fast.Prelude.{
  ℕ, ◌+◌, ◌≤◌, ◌<◌, ◌≡◌, refl, inl, inr, Bool, true, false, List, [], ◌∷◌, ◌++◌, length, take, drop,
  length-take_of_le, ltb, arith, tests, Bool-cases,
}
use nsca_fast.Packet.{sizeof_data_packet}
use nsca_fast.Crypt.Mcrypt.{Mcrypt}
use nsca_fast.Client.Settings.{Settings, to_size}
use nsca_fast.Client.Libevent.{Libevent, IsQueue}
use nsca_fast.Client.Connection.{Connection, Event, stays, destroyed, readcb, drain_packet}

module _ (l : Libevent) (m : Mcrypt) where
  -- Bytes arrive at the socket, and libevent calls readcb once.
  unfoldable pub receive : Settings → List ℕ → Bool → Connection l m → Event l m
  receive s bytes allocated c = readcb l m s allocated (record c { input = l.add c.input bytes })

  -- One read after another, each with the outcome of its `calloc`, until one destroys the connection.
  unfoldable pub receive_all : Settings → List (List ℕ × Bool) → Connection l m → Event l m
  receive_all s [] c = stays c
  receive_all s ((bytes, allocated) ∷ reads) c = elim (receive s bytes allocated c) [
    | destroyed ↦ destroyed
    | stays c' ↦ receive_all s reads c'
  ]

  -- The connection after the count of a read.
  abbrev pub counted : Connection l m → Connection l m
  counted c = record c { bytes_received = c.bytes_received + l.get_length c.input }

  -- The connection after a packet has been taken off its input.
  abbrev pub drained : List ℕ → l.Evbuffer → Connection l m → Connection l m
  drained bytes rest c = record c {
    bytes_drained = c.bytes_drained + length bytes;
    data_packets =
        c.data_packets
        ++ record { receive_packet = bytes; packet_length = sizeof_data_packet } ∷ [];
    input = rest;
  }

  module _ (q : IsQueue l) where
    abbrev unread : Connection l m → List ℕ
    unread c = q.contents c.input

    -- A readcb waits for a whole packet, takes one off, or destroys a connection with too many.
    pub data Reads (s : Settings) (allocated : Bool) (c : Connection l m) : Event l m → Type 0 where
      waits : length (unread c) < sizeof_data_packet → Reads s allocated c (stays (counted c))
      starves : allocated ≡ false → Reads s allocated c (stays (counted c))
      takes :
          (bytes : List ℕ) (rest : l.Evbuffer)
          → sizeof_data_packet ≤ length (unread c)
          → length c.data_packets ≤ to_size s.max_checks_per_connection
          → bytes ≡ take sizeof_data_packet (unread c)
          → q.contents rest ≡ drop sizeof_data_packet (unread c)
          → Reads s allocated c (stays (drained bytes rest (counted c)))
      overflows :
          to_size s.max_checks_per_connection < length c.data_packets
          → Reads s allocated c destroyed

    drain_packet_lem :
        (c : Connection l m)
        → sizeof_data_packet ≤ length (unread c)
        → drain_packet l m c
          ≡ stays (
              drained
                (take sizeof_data_packet (unread c))
                (l.remove c.input sizeof_data_packet).1
                c)
    unfolding drain_packet
    drain_packet_lem c h =
        rw
          (
            (q.remove_front c.input sizeof_data_packet h).0,
            drain_packet,
            length-take_of_le sizeof_data_packet (unread c) h,
          )
          refl

    Reads-drain_packet :
        (s : Settings) (allocated : Bool) (c : Connection l m)
        → sizeof_data_packet ≤ length (unread c)
        → length c.data_packets ≤ to_size s.max_checks_per_connection
        → Reads s allocated c (drain_packet l m (counted c))
    Reads-drain_packet s allocated c whole few = rw (drain_packet_lem (counted c) whole) (
        takes (take sizeof_data_packet (unread c)) (l.remove c.input sizeof_data_packet).1 whole few
          refl (q.remove_front c.input sizeof_data_packet whole).1)

    -- Every outcome of readcb is one of those.
    pub readcb-Reads :
        (s : Settings) (allocated : Bool) (c : Connection l m)
        → Reads s allocated c (readcb l m s allocated c)
    unfolding readcb
    readcb-Reads s allocated c = elim (Bool-cases (ltb (l.get_length c.input) sizeof_data_packet)) [
      | inl short ↦ rw short (waits (omega (tests, short, q.get_length-contents c.input)))
      | inr long ↦
          elim (Bool-cases (ltb (to_size s.max_checks_per_connection) (length c.data_packets))) [
            | inl many ↦ rw (long, many) (overflows (omega (tests, many)))
            | inr few ↦ elim (Bool-cases allocated) [
              | inl there ↦
                  rw (long, few, there)
                    (Reads-drain_packet s true c (whole long) (ground (arith, few)))
              | inr missing ↦ rw (long, few, missing) (starves refl)
            ]
          ]
    ]
      where
        whole :
            ltb (l.get_length c.input) sizeof_data_packet ≡ false
            → sizeof_data_packet ≤ length (unread c)
        whole h = ground (arith, q.get_length-contents c.input)
