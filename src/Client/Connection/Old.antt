-- ===== src/Client/Connection/Old.antt =====
-- The end of a connection in network_client.cpp: packets of the old format, which eventcb takes.
use nsca_fast.Prelude.{
  ℕ, ◌+◌, ◌-◌, ◌≤◌, ◌<◌, ◌≡◌, ◌≢◌, refl, ap, ◌∙◌, ◌⊎◌, inl, inr, Bool, true, false, List, [], ◌∷◌,
  ◌++◌, none, some, length, replicate, length-append, take-length, ltb, ◌==◌, arith,
}
use nsca_fast.Packet.{sizeof_data_packet, old_packet_length}
use nsca_fast.Crypt.Mcrypt.{Mcrypt}
use nsca_fast.Client.Settings.{Settings}
use nsca_fast.Client.Libevent.{Libevent, IsQueue}
use nsca_fast.Client.Queue.{Pair}
use nsca_fast.Client.Connection.{Connection, stays, readcb, eventcb, drain_old_packet}
use nsca_fast.Client.Connection.Reading.{receive, receive_all, counted}
use nsca_fast.Client.Connection.Framing.{IsFramed}

-- An old packet as it is queued.
abbrev pub old_packet : List ℕ → ℕ → Pair
old_packet bytes n = record {
  receive_packet = bytes ++ replicate (sizeof_data_packet - length bytes) 0;
  packet_length = n;
}

module _ (l : Libevent) (m : Mcrypt) (q : IsQueue l) (s : Settings) where
  -- The removal of all that a buffer holds.
  remove_all : (b : l.Evbuffer) → (l.remove b (l.get_length b)).0 ≡ some (q.contents b)
  remove_all b =
      rw (q.get_length-contents b, (q.remove_front b (length (q.contents b)) (omega arith)).0)
        (ap some (take-length (q.contents b) (length (q.contents b)) (omega arith)))

  drain_old_packet_lem :
      (c : Connection l m)
      → length (q.contents c.input) ≤ sizeof_data_packet
      → drain_old_packet l m c
        ≡ some (record c {
          data_packets =
              c.data_packets ++ old_packet (q.contents c.input) (l.get_length c.input) ∷ [];
          input = (l.remove c.input (l.get_length c.input)).1;
        })
  unfolding drain_old_packet
  drain_old_packet_lem c h = rw (remove_all c.input, drain_old_packet, short, whole) refl
    where
      short : ltb sizeof_data_packet (length (q.contents c.input)) ≡ false
      short = ground arith

      whole : ltb (length (q.contents c.input)) (l.get_length c.input) ≡ false
      whole = ground (arith, q.get_length-contents c.input)

  pub eventcb_other :
      (allocated : Bool) (c : Connection l m)
      → c.bytes_received ≢ old_packet_length
      → eventcb l m allocated c ≡ some c
  unfolding eventcb
  eventcb_other allocated c other = rw differs refl
    where
      differs : (c.bytes_received == old_packet_length) ≡ false
      differs = ground arith

  eventcb_old :
      (c : Connection l m)
      → c.bytes_received ≡ old_packet_length
      → c.bytes_drained ≡ 0
      → eventcb l m true c ≡ drain_old_packet l m c
  unfolding eventcb
  eventcb_old c received drained = rw (same, none_drained) refl
    where
      same : (c.bytes_received == old_packet_length) ≡ true
      same = ground arith

      none_drained : (c.bytes_drained == 0) ≡ true
      none_drained = ground arith

  drain_old_packet_safe :
      (c : Connection l m)
      → length (q.contents c.input) ≤ sizeof_data_packet
      → drain_old_packet l m c ≢ none
  drain_old_packet_safe c h e = cc (drain_old_packet_lem c h, e)

  eventcb_cases :
      (allocated : Bool) (c : Connection l m)
      → (eventcb l m allocated c ≡ some c)
        ⊎ ((c.bytes_received ≡ old_packet_length)
            × (eventcb l m allocated c ≡ drain_old_packet l m c))
  unfolding eventcb
  eventcb_cases true c = ground arith
  eventcb_cases false c = ground arith

  -- After any reads, eventcb does not write past the struct of a packet.
  pub eventcb_safe :
      (stream : List ℕ) (reads : ℕ) (allocated : Bool) (c : Connection l m)
      → IsFramed l m q s stream reads c
      → eventcb l m allocated c ≢ none
  eventcb_safe stream reads allocated c f e = elim (eventcb_cases allocated c) [
    | inl unchanged ↦ cc (unchanged, e)
    | inr (old, drains) ↦ cc (drains, e, drain_old_packet_lem c (omega (arith, old, f.held)))
  ]

  -- A short read leaves its bytes in the input.
  receive_short :
      (bytes : List ℕ) (allocated : Bool) (c : Connection l m)
      → length (q.contents c.input) + length bytes < sizeof_data_packet
      → receive l m s bytes allocated c
        ≡ stays (counted l m (record c { input = l.add c.input bytes }))
  unfolding receive readcb
  receive_short bytes allocated c h = rw short refl
    where
      short : ltb (l.get_length (l.add c.input bytes)) sizeof_data_packet ≡ true
      short = ground (
        arith,
        q.get_length-contents (l.add c.input bytes),
        ap length (q.contents-add c.input bytes),
        length-append (q.contents c.input) bytes,
      )

  receive_all_step :
      (bytes : List ℕ) (allocated : Bool) (reads : List (List ℕ × Bool)) (c c' : Connection l m)
      → receive l m s bytes allocated c ≡ stays c'
      → receive_all l m s ((bytes, allocated) ∷ reads) c ≡ receive_all l m s reads c'
  unfolding receive_all
  receive_all_step bytes allocated reads c c' h = rw (h, receive_all) refl

  receive_all_end : (c : Connection l m) → receive_all l m s [] c ≡ stays c
  unfolding receive_all
  receive_all_end c = refl

  -- An old packet that a new connection gets in one read is queued: with zeros behind its 720 bytes,
  -- and with 720 as the length that is decrypted and checked.
  pub old_packet_one_read :
      (bytes : List ℕ) (allocated : Bool) (c : Connection l m)
      → q.contents c.input ≡ []
      → c.bytes_received ≡ 0
      → c.bytes_drained ≡ 0
      → c.data_packets ≡ []
      → length bytes ≡ old_packet_length
      → (c' c'' : Connection l m) × (receive_all l m s ((bytes, allocated) ∷ []) c ≡ stays c')
        × (eventcb l m true c' ≡ some c'')
        × (c''.data_packets ≡ old_packet bytes old_packet_length ∷ [])
  old_packet_one_read bytes allocated c empty received drained queue long = (
    c',
    _,
    receive_all_step bytes allocated [] c c'
          (receive_short bytes allocated c (omega (arith, ap length empty)))
        ∙ receive_all_end c',
    eventcb_old c' all_received drained ∙ drain_old_packet_lem c' (omega (arith, ap length holds)),
    rw (holds, queue, count) refl,
  )
    where
      fed : Connection l m
      fed = record c { input = l.add c.input bytes }

      c' : Connection l m
      c' = counted l m fed

      holds : q.contents (l.add c.input bytes) ≡ bytes
      holds = rw (q.contents-add c.input bytes, empty) refl

      count : l.get_length (l.add c.input bytes) ≡ old_packet_length
      count = omega (arith, q.get_length-contents (l.add c.input bytes), ap length holds)

      all_received : c.bytes_received + l.get_length (l.add c.input bytes) ≡ old_packet_length
      all_received = omega (arith, count)

  -- An old packet that comes in two reads is not queued: the first read's bytes are counted twice,
  -- so that the count is not 720, and eventcb leaves the packet in the input.
  pub old_packet_two_reads :
      (first second : List ℕ) (a a' allocated : Bool) (c : Connection l m)
      → q.contents c.input ≡ []
      → c.bytes_received ≡ 0
      → 0 < length first
      → length first + length second ≡ old_packet_length
      → (c' : Connection l m) × (receive_all l m s ((first, a) ∷ (second, a') ∷ []) c ≡ stays c')
        × (eventcb l m allocated c' ≡ some c')
        × (c'.data_packets ≡ c.data_packets)
        × (q.contents c'.input ≡ first ++ second)
  old_packet_two_reads first second a a' allocated c empty received some_first long = (
    c2,
    receive_all_step first a ((second, a') ∷ []) c c1
          (receive_short first a c (omega (arith, ap length empty)))
        ∙ receive_all_step second a' [] c1 c2
            (receive_short second a' c1 (omega (arith, ap length holds)))
        ∙ receive_all_end c2,
    eventcb_other allocated c2 (λ e. omega (
      arith,
      e,
      q.get_length-contents (l.add c.input first),
      ap length holds,
      q.get_length-contents (l.add (l.add c.input first) second),
      ap length both,
      length-append first second,
    )),
    refl,
    both,
  )
    where
      c1 : Connection l m
      c1 = counted l m (record c { input = l.add c.input first })

      c2 : Connection l m
      c2 = counted l m (record c1 { input = l.add c1.input second })

      holds : q.contents (l.add c.input first) ≡ first
      holds = rw (q.contents-add c.input first, empty) refl

      both : q.contents (l.add (l.add c.input first) second) ≡ first ++ second
      both = rw (q.contents-add (l.add c.input first) second, holds) refl
