-- ===== src/Client/Connection/Session.antt =====
-- A connection of network_client.cpp from its beginning to its end: what take_variables and writecb
-- tell the client, and the instance that connection_closed makes for it, when the connections do not
-- share one.
use nsca_fast.Prelude.{
  ℕ, ◌/◌, ◌%◌, ◌^◌, ◌≤◌, ◌<◌, ◌≡◌, ◌≢◌, refl, sym, ap, subst, ◌∙◌, Bool, true, false, List, [], ◌∷◌,
  ◌++◌, Option, none, some, length, take, drop, take-append, drop-append, take-length, arith,
  if◌then◌else◌,
}
use nsca_fast.Prelude.Int.{pos, ltb_ℤ}
use nsca_fast.Crypt.Mcrypt.{Mcrypt, CryptInstance, algorithm_of}
use nsca_fast.Crypt.Random.{generate_transmitted_iv, generate_transmitted_iv_lem}
use nsca_fast.Crypt.Init.{Globals, Memory, success, encrypt_init, is_plain, transmitted}
use nsca_fast.Crypt.Init.Laws.{open_instance, encrypt_init-open_instance}
use nsca_fast.Packet.{net32}
use nsca_fast.Client.Settings.{Settings}
use nsca_fast.Client.Libevent.{Libevent, IsQueue}
use nsca_fast.Client.Queue.{Pair}
use nsca_fast.Client.Connection.{
  Connection, Counters, stays, network_client, take_variables, writecb, init_packet, is_shared,
  connection_closed, with_own_ci, hand_on, dropped, queued, processed,
}
use nsca_fast.Client.Connection.Closing.{handed}

-- The IV and the time that a client finds in an init_packet.
unfoldable pub told_iv : List ℕ → List ℕ
unfolding take
told_iv bytes = take 128 bytes

unfoldable pub told_time : List ℕ → ℕ
unfolding net32 drop
told_time bytes = net32 (drop 128 bytes) 0

module _ (l : Libevent) (m : Mcrypt) where
  told-init_packet :
      (iv : List ℕ) (now : ℕ)
      → length iv ≡ 128
      → now < 2 ^ 32
      → (told_iv (init_packet l m iv now) ≡ iv) × (told_time (init_packet l m iv now) ≡ now)
  unfolding told_iv told_time init_packet
  told-init_packet iv now full young =
      let time : List ℕ =
        now / 2 ^ 24 % 2 ^ 8 ∷ now / 2 ^ 16 % 2 ^ 8 ∷ now / 2 ^ 8 % 2 ^ 8 ∷ now % 2 ^ 8 ∷ [] in
      (
        ap (λ n. take n (iv ++ time)) (sym full) ∙ take-append iv time,
        ap (λ n. net32 (drop n (iv ++ time)) 0) (sym full)
            ∙ ap (λ b. net32 b 0) (drop-append iv time)
            ∙ omega (arith, young),
      )

  -- A connection that take_variables leaves open, with the instance of the network if it uses one
  -- and an IV of its own if the mode is not shared.
  abbrev accepted : Option (CryptInstance m) → Option (List ℕ) → Connection l m
  accepted network_ci own = record (network_client l m) { ci = network_ci; transmission_iv = own }

  take_variables_private :
      (s : Settings) (network_ci : Option (CryptInstance m)) (g : Globals) (k : Counters)
      → is_shared s ≡ false
      → (take_variables l m s network_ci true g k).0
        ≡ stays (accepted network_ci (some (generate_transmitted_iv g.random).0))
  unfolding take_variables
  take_variables_private s network_ci g k private = rw private refl

  take_variables_shared :
      (s : Settings) (network_ci : Option (CryptInstance m)) (g : Globals) (k : Counters)
      → is_shared s ≡ true
      → (take_variables l m s network_ci true g k).0 ≡ stays (accepted network_ci none)
  unfolding take_variables network_client
  take_variables_shared s network_ci g k shared = rw shared refl

  some_stays : {a b : Connection l m} → stays a ≡ stays b → a ≡ b
  some_stays e = cc e

  abbrev iv_of : Option (List ℕ) → List ℕ → List ℕ
  iv_of none shared_iv = shared_iv
  iv_of (some iv) shared_iv = iv

  module _ (q : IsQueue l) where
    -- What is known of a connection when its client has been told the IV and the time.
    pub record IsGreeted (network_ci : Option (CryptInstance m)) (own : Option (List ℕ))
        (iv : List ℕ) (now : ℕ) (c : Connection l m) : Type 0 where
      pub own_iv : c.transmission_iv ≡ own
      pub whole_iv : length iv ≡ 128
      pub iv_told : told_iv (q.contents c.output) ≡ iv
      pub time_told : told_time (q.contents c.output) ≡ now
      pub network_instance : c.ci ≡ network_ci
      pub no_own_ci : c.has_own_ci ≡ false
      pub no_success : c.d_success ≡ 0
      pub no_failed : c.d_failed ≡ 0
      pub no_packets : c.data_packets ≡ []
      pub no_input : q.contents c.input ≡ []
      pub nothing_drained : c.bytes_drained ≡ 0

    module _ (s : Settings) (network_ci : Option (CryptInstance m)) (shared_iv : List ℕ) where
      sent_packet :
          (own : Option (List ℕ))
          → q.contents (writecb l m s shared_iv (accepted network_ci own)).output
            ≡ init_packet l m (iv_of own shared_iv) s.now
      unfolding writecb network_client
      sent_packet none =
          q.contents-add l.empty (init_packet l m shared_iv s.now)
          ∙ ap (λ before. before ++ init_packet l m shared_iv s.now) q.contents-empty
      sent_packet (some iv) =
          q.contents-add l.empty (init_packet l m iv s.now)
          ∙ ap (λ before. before ++ init_packet l m iv s.now) q.contents-empty

      accepted-IsGreeted :
          (own : Option (List ℕ))
          → length (iv_of own shared_iv) ≡ 128
          → s.now < 2 ^ 32
          → IsGreeted network_ci own
              (iv_of own shared_iv)
              s.now
              (writecb l m s shared_iv (accepted network_ci own))
      unfolding writecb network_client
      accepted-IsGreeted own full young =
          let told = told-init_packet (iv_of own shared_iv) s.now full young in
          record {
            own_iv = refl;
            whole_iv = full;
            iv_told = ap told_iv (sent_packet own) ∙ told.0;
            time_told = ap told_time (sent_packet own) ∙ told.1;
            network_instance = refl;
            no_own_ci = refl;
            no_success = refl;
            no_failed = refl;
            no_packets = refl;
            no_input = q.contents-empty;
            nothing_drained = refl;
          }

      -- After writecb, a client of a connection that has no shared instance knows the connection's
      -- IV and the daemon's time.
      pub writecb-IsGreeted :
          (g : Globals) (k : Counters) (c : Connection l m)
          → is_shared s ≡ false
          → s.now < 2 ^ 32
          → (take_variables l m s network_ci true g k).0 ≡ stays c
          → IsGreeted network_ci
              (some (generate_transmitted_iv g.random).0)
              (generate_transmitted_iv g.random).0
              s.now
              (writecb l m s shared_iv c)
      writecb-IsGreeted g k c private young e =
          let iv = (generate_transmitted_iv g.random).0 in
          subst (λ o. IsGreeted network_ci (some iv) iv s.now (writecb l m s shared_iv o))
            (some_stays (sym (take_variables_private s network_ci g k private) ∙ e))
            (accepted-IsGreeted (some iv) (generate_transmitted_iv_lem g.random).0 young)

      -- In the shared mode it knows the IV of the network.
      pub writecb-IsGreeted_shared :
          (g : Globals) (k : Counters) (c : Connection l m)
          → is_shared s ≡ true
          → length shared_iv ≡ 128
          → s.now < 2 ^ 32
          → (take_variables l m s network_ci true g k).0 ≡ stays c
          → IsGreeted network_ci none shared_iv s.now (writecb l m s shared_iv c)
      writecb-IsGreeted_shared g k c shared full young e =
          subst (λ o. IsGreeted network_ci none shared_iv s.now (writecb l m s shared_iv o))
            (some_stays (sym (take_variables_shared s network_ci g k shared) ∙ e))
            (accepted-IsGreeted none full young)

  hand_on_ready :
      (s : Settings) (own : Connection l m)
      → own.data_packets ≢ []
      → handed l m (hand_on l m s (some own)) ≡ some own
  unfolding handed hand_on
  hand_on_ready s own some_packets =
      by_packets own.data_packets (ltb_ℤ (pos 0) s.nsca_threads_per_worker) some_packets
    where
      by_packets :
          (packets : List Pair) (threads : Bool)
          → packets ≢ []
          → handed l m (elim packets [
            | [] ↦ dropped
            | _ ∷ _ ↦ if threads then queued own else processed own
          ])
            ≡ some own
      by_packets [] threads some_there = absurd (some_there refl)
      by_packets (p ∷ packets) true some_there = refl
      by_packets (p ∷ packets) false some_there = refl

  with_own_ci_made :
      (s : Settings) (g : Globals) (mem : Memory) (c : Connection l m) (ci : CryptInstance m)
      → is_shared s ≡ false
      → (encrypt_init m g mem s.password s.decryption_method c.transmission_iv).status ≡ success
      → (encrypt_init m g mem s.password s.decryption_method c.transmission_iv).instance_pointer
        ≡ some ci
      → (with_own_ci l m s g mem c).0 ≡ some (record c { ci = some ci; has_own_ci = true })
  unfolding with_own_ci
  with_own_ci_made s g mem c ci private ok made = rw (private, ok, made) refl

  -- The whole IV is copied.
  transmitted_whole :
      (g : Globals) (iv : List ℕ) → length iv ≡ 128 → (transmitted (some iv) g.random).0 ≡ iv
  unfolding transmitted
  transmitted_whole g iv full = take-length iv 128 (omega (arith, full))

  -- A connection with packets is handed on with an instance that is open on its own IV.
  pub connection_closed_own :
      (s : Settings) (g : Globals) (mem : Memory) (c : Connection l m) (k : Counters) (td : m.Td)
      (iv : List ℕ)
      → is_shared s ≡ false
      → is_plain s.decryption_method ≡ false
      → m.module_open (algorithm_of s.decryption_method) ≡ some td
      → (encrypt_init m g mem s.password s.decryption_method c.transmission_iv).status ≡ success
      → c.transmission_iv ≡ some iv
      → length iv ≡ 128
      → c.data_packets ≢ []
      → (handed l m (connection_closed l m s g mem c k).0
          ≡ some (record c {
            ci = some (open_instance m s.password s.decryption_method iv td);
            has_own_ci = true;
          }))
        × (m.enc_get_iv_size td ≤ 128)
  unfolding connection_closed
  connection_closed_own s g mem c k td iv private ciphered opened ok own full some_packets =
      let made =
        encrypt_init-open_instance m mem s.password s.decryption_method g c.transmission_iv td
          ciphered opened ok in
      let copied = ap (λ t. (transmitted t g.random).0) own ∙ transmitted_whole g iv full in
      let ci = open_instance m s.password s.decryption_method iv td in
      let own_ci =
        with_own_ci_made s g mem c ci private ok
          (made.0 ∙ ap (λ v. some (open_instance m s.password s.decryption_method v td)) copied) in
      let ready : Connection l m = record c { ci = some ci; has_own_ci = true } in
      (ap (λ r. handed l m (hand_on l m s r)) own_ci ∙ hand_on_ready s ready some_packets, made.1)
