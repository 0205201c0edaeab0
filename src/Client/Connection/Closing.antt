-- ===== src/Client/Connection/Closing.antt =====
-- The end of a connection of network_client.cpp and the counters of network.cpp.
use nsca_fast.Prelude.{
  ℕ, ◌+◌, ◌%◌, ◌^◌, ◌<◌, ◌≡◌, ◌≢◌, refl, sym, ap, ◌∙◌, ◌⊎◌, inl, inr, true, false, if◌then◌else◌,
  List, [], ◌∷◌, Option, none, some, arith, Bool-cases,
}
use nsca_fast.Prelude.Int.{pos, ltb_ℤ}
use nsca_fast.Crypt.Mcrypt.{Mcrypt, CryptInstance}
use nsca_fast.Crypt.Init.{Globals, Memory, Status, success, failure, encrypt_init}
use nsca_fast.Crypt.Init.{
  is_plain, stream_of, key_of_stream, iv_of_stream, algorithm_name, mode_name, instance_memory,
}
use nsca_fast.Crypt.Init.Laws.{encrypt_cleanup-encrypt_init}
use nsca_fast.Client.Settings.{Settings}
use nsca_fast.Client.Libevent.{Libevent}
use nsca_fast.Client.Queue.{Pair}
use nsca_fast.Client.Connection.{
  Connection, Counters, connected, disconnected, take_variables, destructor, connection_closed,
  Closed, dropped, queued, processed, with_own_ci, is_shared, hand_on, destroyed, settle,
  proper_destroy,
}

disconnected-connected :
    (k : Counters) (n : ℕ)
    → k.connections < 2 ^ 32
    → (disconnected (record (connected k) { counter = n })).connections ≡ k.connections
unfolding disconnected connected
disconnected-connected k n h = omega arith

module _ (l : Libevent) (m : Mcrypt) where
  connection_closed-connections :
      (s : Settings) (g : Globals) (mem : Memory) (c : Connection l m) (k : Counters)
      → (connection_closed l m s g mem c k).2 ≡ disconnected k
  unfolding connection_closed
  connection_closed-connections s g mem c k = refl

  -- A connection that could not get its bufferevent, that a callback destroyed, or that was closed
  -- after any callbacks, is no longer counted as open.
  pub connections_balanced :
      (s s' : Settings) (ci : Option (CryptInstance m)) (g g' : Globals) (mem : Memory)
      (c : Connection l m) (k : Counters)
      → k.connections < 2 ^ 32
      → ((take_variables l m s ci false g k).2.connections ≡ k.connections)
        × ((settle l m destroyed (take_variables l m s ci true g k).2).connections ≡ k.connections)
        × ((connection_closed l m s' g' mem c (take_variables l m s ci true g k).2).2.connections
            ≡ k.connections)
  unfolding take_variables settle proper_destroy
  connections_balanced s s' ci g g' mem c k h = (
    disconnected-connected k ((k.counter + 1) % 2 ^ 64) h,
    disconnected-connected k ((k.counter + 1) % 2 ^ 64) h,
    ap (λ n. n.connections)
          (connection_closed-connections s' g' mem c
            (record (connected k) { counter = (k.counter + 1) % 2 ^ 64 }))
        ∙ disconnected-connected k ((k.counter + 1) % 2 ^ 64) h,
  )

  -- The connection whose queue a closed connection has processed, here or on a worker thread.
  unfoldable pub handed : Closed l m → Option (Connection l m)
  handed dropped = none
  handed (queued c) = some c
  handed (processed c) = some c

  -- A connection that is handed on: what it has in common with the one that was closed.
  pub record IsHanded (s : Settings) (g : Globals) (mem : Memory) (c own : Connection l m)
      : Type 0 where
    pub same_packets : own.data_packets ≡ c.data_packets
    pub some_packets : own.data_packets ≢ []
    pub same_iv : own.transmission_iv ≡ c.transmission_iv
    -- the instance is the shared one, or one of its own
    pub instance_kind :
        ((is_shared s ≡ true) × (own ≡ c))
        ⊎ ((is_shared s ≡ false)
            × ((encrypt_init m g mem s.password s.decryption_method c.transmission_iv).status
                ≡ success)
            × (own.ci
                ≡ (encrypt_init m g mem s.password s.decryption_method
                    c.transmission_iv).instance_pointer)
            × (own.has_own_ci ≡ true))

  -- What with_own_ci keeps.
  record IsOwn (s : Settings) (g : Globals) (mem : Memory) (c own : Connection l m) : Type 0 where
    kept_packets : own.data_packets ≡ c.data_packets
    kept_iv : own.transmission_iv ≡ c.transmission_iv
    kept_kind :
        ((is_shared s ≡ true) × (own ≡ c))
        ⊎ ((is_shared s ≡ false)
            × ((encrypt_init m g mem s.password s.decryption_method c.transmission_iv).status
                ≡ success)
            × (own.ci
                ≡ (encrypt_init m g mem s.password s.decryption_method
                    c.transmission_iv).instance_pointer)
            × (own.has_own_ci ≡ true))

  some_equal : {a b : Connection l m} → some a ≡ some b → a ≡ b
  some_equal e = cc e

  with_own_ci_shared :
      (s : Settings) (g : Globals) (mem : Memory) (c : Connection l m)
      → is_shared s ≡ true
      → (with_own_ci l m s g mem c).0 ≡ some c
  unfolding with_own_ci
  with_own_ci_shared s g mem c h = rw h refl

  -- The instance that encrypt_init makes for a connection of its own.
  abbrev made_ready : Settings → Globals → Memory → Connection l m → Connection l m
  made_ready s g mem c = record c {
    ci = (encrypt_init m g mem s.password s.decryption_method c.transmission_iv).instance_pointer;
    has_own_ci = true;
  }

  with_own_ci_private :
      (s : Settings) (g : Globals) (mem : Memory) (c : Connection l m)
      → is_shared s ≡ false
      → (((encrypt_init m g mem s.password s.decryption_method c.transmission_iv).status ≡ success)
          × ((with_own_ci l m s g mem c).0 ≡ some (made_ready s g mem c)))
        ⊎ ((with_own_ci l m s g mem c).0 ≡ none)
  unfolding with_own_ci
  with_own_ci_private s g mem c h =
      go (encrypt_init m g mem s.password s.decryption_method c.transmission_iv).status refl
    where
      go :
          (status : Status)
          → status ≡ (encrypt_init m g mem s.password s.decryption_method c.transmission_iv).status
          → (((encrypt_init m g mem s.password s.decryption_method c.transmission_iv).status
                ≡ success)
              × ((with_own_ci l m s g mem c).0 ≡ some (made_ready s g mem c)))
            ⊎ ((with_own_ci l m s g mem c).0 ≡ none)
      go success e = inl (sym e, rw (h, ← e) refl)
      go failure e = inr (rw (h, ← e) refl)

  with_own_ci-IsOwn :
      (s : Settings) (g : Globals) (mem : Memory) (c own : Connection l m)
      → (with_own_ci l m s g mem c).0 ≡ some own
      → IsOwn s g mem c own
  with_own_ci-IsOwn s g mem c own e = elim (Bool-cases (is_shared s)) [
    | inl shared ↦ same shared (some_equal (sym (with_own_ci_shared s g mem c shared) ∙ e))
    | inr private ↦ elim (with_own_ci_private s g mem c private) [
      | inl (ok, ready) ↦ other private ok (some_equal (sym ready ∙ e))
      | inr fails ↦ absurd (cc (fails, e))
    ]
  ]
    where
      same : is_shared s ≡ true → c ≡ own → IsOwn s g mem c own
      same shared e = record {
        kept_packets = ap (λ o. o.data_packets) (sym e);
        kept_iv = ap (λ o. o.transmission_iv) (sym e);
        kept_kind = inl (shared, sym e);
      }

      other :
          is_shared s ≡ false
          → (encrypt_init m g mem s.password s.decryption_method c.transmission_iv).status ≡ success
          → made_ready s g mem c ≡ own
          → IsOwn s g mem c own
      other private ok e = record {
        kept_packets = ap (λ o. o.data_packets) (sym e);
        kept_iv = ap (λ o. o.transmission_iv) (sym e);
        kept_kind = inr (private, ok, ap (λ o. o.ci) (sym e), ap (λ o. o.has_own_ci) (sym e));
      }

  pub hand_on-packets :
      (s : Settings) (ready : Option (Connection l m)) (own : Connection l m)
      → handed (hand_on l m s ready) ≡ some own
      → (ready ≡ some own) × (own.data_packets ≢ [])
  unfolding hand_on handed
  hand_on-packets s none own e = absurd (cc e)
  hand_on-packets s (some c) own e = go c.data_packets refl
    where
      go :
          (packets : List Pair)
          → packets ≡ c.data_packets
          → (some c ≡ some own) × (own.data_packets ≢ [])
      go [] p = absurd (cc (rw (← p, hand_on) at e))
      go (x ∷ xs) p = elim (Bool-cases (ltb_ℤ (pos 0) s.nsca_threads_per_worker)) [
        | inl threads ↦ keep (rw (← p, threads, hand_on) at e)
        | inr none_there ↦ keep (rw (← p, none_there, hand_on) at e)
      ]
        where
          keep : some c ≡ some own → (some c ≡ some own) × (own.data_packets ≢ [])
          keep same = (same, λ z. cc (same, p, z))

  -- A connection that connection_closed hands on has the packets that were received, and at least
  -- one; in the shared mode it is unchanged, and otherwise it has an instance of its own, made with
  -- its own IV by an encrypt_init that succeeded.
  pub connection_closed_hands :
      (s : Settings) (g : Globals) (mem : Memory) (c own : Connection l m) (k : Counters)
      → handed (connection_closed l m s g mem c k).0 ≡ some own
      → IsHanded s g mem c own
  unfolding connection_closed
  connection_closed_hands s g mem c own k e = record {
    same_packets = r.kept_packets;
    some_packets = (hand_on-packets s (with_own_ci l m s g mem c).0 own e).1;
    same_iv = r.kept_iv;
    instance_kind = r.kept_kind;
  }
    where
      r : IsOwn s g mem c own
      r = with_own_ci-IsOwn s g mem c own (hand_on-packets s (with_own_ci l m s g mem c).0 own e).0

  -- If the mode is not shared, the destructor of a connection that connection_closed hands on
  -- releases the connection's own crypt instance whole.
  pub connection_closed_released :
      (s : Settings) (g : Globals) (mem : Memory) (c own : Connection l m) (k : Counters)
      → is_shared s ≡ false
      → handed (connection_closed l m s g mem c k).0 ≡ some own
      → destructor l m s.decryption_method
          (encrypt_init m g mem s.password s.decryption_method
            c.transmission_iv).globals.mcrypt_initialized
          own
        ≡ some (
            if is_plain s.decryption_method
            then instance_memory ∷ []
            else stream_of ∷ key_of_stream ∷ iv_of_stream ∷ algorithm_name ∷ mode_name
              ∷ instance_memory ∷ [])
  unfolding destructor
  connection_closed_released s g mem c own k private e =
      elim (connection_closed_hands s g mem c own k e).instance_kind [
        | inl (shared, same) ↦ absurd (cc (private, shared))
        | inr (other, ok, instance_made, has_own) ↦
            rw (has_own, instance_made)
              (encrypt_cleanup-encrypt_init m g mem s.password s.decryption_method c.transmission_iv
                ok)
      ]
