-- ===== src/Client/Connection/Unread.antt =====
-- Packets of a connection in network_client.cpp that nothing takes: readcb takes one a call, and
-- eventcb, which is called when the client has closed, none.
use nsca_fast.Prelude.{
  ℕ, ◌+◌, ◌*◌, ◌≤◌, ◌<◌, ◌≡◌, ap, Bool, List, [], ◌∷◌, length, length-append, arith, some,
}
use nsca_fast.Packet.{sizeof_data_packet}
use nsca_fast.Crypt.Mcrypt.{Mcrypt}
use nsca_fast.Client.Settings.{Settings}
use nsca_fast.Client.Libevent.{Libevent, IsQueue}
use nsca_fast.Client.Connection.{Connection, Event, stays, destroyed, eventcb}
use nsca_fast.Client.Connection.Reading.{
  receive, receive_all, Reads, waits, starves, takes, overflows, readcb-Reads,
}
use nsca_fast.Client.Connection.Framing.{IsFramed, arrived, packet_bytes, receive_all-IsFramed}
use nsca_fast.Client.Connection.Prefix.{length-packet_bytes}
use nsca_fast.Client.Connection.Old.{eventcb_other}

module _ (l : Libevent) (m : Mcrypt) (q : IsQueue l) (s : Settings) where
  -- A connection that is left open has counted so many bytes.
  abbrev HasCounted : ℕ → Event l m → Type 0
  HasCounted n (stays c) = n ≤ c.bytes_received
  HasCounted n destroyed = Unit {0}

  Reads-HasCounted :
      (allocated : Bool) (c : Connection l m) (e : Event l m)
      → Reads l m q s allocated c e
      → HasCounted (c.bytes_received + l.get_length c.input) e
  Reads-HasCounted allocated c e (waits short) = omega arith
  Reads-HasCounted allocated c e (starves missing) = omega arith
  Reads-HasCounted allocated c e (takes front rest enough few is_front is_rest) = omega arith
  Reads-HasCounted allocated c e (overflows many) = tt

  HasCounted-mono : (n k : ℕ) (e : Event l m) → k ≤ n → HasCounted n e → HasCounted k e
  HasCounted-mono n k (stays c) le h = omega arith
  HasCounted-mono n k destroyed le h = tt

  receive-HasCounted :
      (bytes : List ℕ) (allocated : Bool) (n : ℕ) (c : Connection l m)
      → n ≤ c.bytes_received
      → HasCounted (n + length bytes) (receive l m s bytes allocated c)
  unfolding receive
  receive-HasCounted bytes allocated n c le =
      let fed : Connection l m = record c { input = l.add c.input bytes } in
      HasCounted-mono (c.bytes_received + l.get_length fed.input) (n + length bytes) _
        (omega (
          arith,
          q.get_length-contents (l.add c.input bytes),
          ap length (q.contents-add c.input bytes),
          length-append (q.contents c.input) bytes,
        ))
        (Reads-HasCounted allocated fed _ (readcb-Reads l m q s allocated fed))

  stays_equal : {a b : Connection l m} → stays a ≡ stays b → a ≡ b
  stays_equal e = cc e

  HasCounted-behind :
      (reads : List (List ℕ × Bool)) (n : ℕ) (c' : Connection l m) (e : Event l m)
      → HasCounted n e
      → elim e [ destroyed ↦ destroyed | stays c ↦ receive_all l m s reads c ] ≡ stays c'
      → ((c : Connection l m)
          → n ≤ c.bytes_received
          → receive_all l m s reads c ≡ stays c'
          → n + length (arrived reads) ≤ c'.bytes_received)
      → n + length (arrived reads) ≤ c'.bytes_received
  HasCounted-behind reads n c' (stays c) h e go = go c h e
  HasCounted-behind reads n c' destroyed h e go = absurd (cc e)

  -- The bytes that arrive are counted, those that wait in the input again and again.
  receive_all-counts :
      (reads : List (List ℕ × Bool)) (n : ℕ) (c c' : Connection l m)
      → n ≤ c.bytes_received
      → receive_all l m s reads c ≡ stays c'
      → n + length (arrived reads) ≤ c'.bytes_received
  unfolding receive_all arrived
  receive_all-counts [] n c c' h e = omega (arith, h, ap (λ v. v.bytes_received) (stays_equal e))
  receive_all-counts ((bytes, allocated) ∷ reads) n c c' h e =
      let behind =
        HasCounted-behind reads (n + length bytes) c' (receive l m s bytes allocated c)
          (receive-HasCounted bytes allocated n c h) e
          (λ c'' h' e'. receive_all-counts reads (n + length bytes) c'' c' h' e') in
      omega (arith, behind, length-append bytes (arrived reads))

  -- If a new connection stays open over its reads, and they bring the bytes of as many packets as
  -- there are reads and of `extra` more, then eventcb takes nothing when the client has closed, and
  -- the queue that is processed has at most as many packets as there were reads: the bytes of at
  -- least `extra` packets are left in the input.
  pub unread_packets :
      (reads : List (List ℕ × Bool)) (extra : ℕ) (allocated : Bool) (c c' : Connection l m)
      → IsFramed l m q s [] 0 c
      → receive_all l m s reads c ≡ stays c'
      → 0 < extra
      → sizeof_data_packet * (length reads + extra) ≤ length (arrived reads)
      → (eventcb l m allocated c' ≡ some c')
        × (length c'.data_packets ≤ length reads)
        × (sizeof_data_packet * extra ≤ length (q.contents c'.input))
  unread_packets reads extra allocated c c' fresh e more enough =
      let f = receive_all-IsFramed l m q s reads [] 0 c fresh e in
      let counted = receive_all-counts reads 0 c c' (omega arith) e in
      (
        eventcb_other l m q s allocated c' (λ old. omega (arith, old, counted)),
        omega (arith, f.paced),
        omega (
          arith,
          f.paced,
          length-packet_bytes c'.data_packets f.whole,
          ap length f.bytes,
          length-append (packet_bytes c'.data_packets) (q.contents c'.input),
        ),
      )
