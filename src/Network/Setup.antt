-- ===== src/Network/Setup.antt =====
-- network::network of network.cpp: what a network takes from the configuration, its clients of the
-- command file, and the crypt instance that its connections share without threads. An exception is
-- `none`.
use nsca_fast.Prelude.{
  ℕ, zero, suc, ◌-◌, All, replicate, ◌^◌, ◌≤◌, ◌≡◌, ◌≢◌, refl, subst, ◌⊎◌, inl, inr, Bool, true,
  false, not, ◌&&◌, List, [], ◌∷◌, Option, none, some, length, length-replicate, arith,
  if◌then◌else◌,
}
use nsca_fast.Prelude.Int.{ℤ, pos, negsuc, ltb_ℤ}
use nsca_fast.Prelude.Text.{codes}
use nsca_fast.Crypt.Mcrypt.{Mcrypt, CryptInstance}
use nsca_fast.Crypt.Init.{
  Globals, Memory, Initialised, Status, success, failure, encrypt_init, init_module, init_iv,
  init_key, blank,
}
use nsca_fast.Config.{Configdata, get_value, get_int, outside}
use nsca_fast.Config.Range.{IsChecked}
use nsca_fast.Client.Settings.{Settings}
use nsca_fast.Client.Connection.{is_shared}
use nsca_fast.Fifo.{FifoClient, fifo_client}
use nsca_fast.Parent.{fifo_clients_of, iters, is_empty}

-- The 32 bits of an `int`.
abbrev pub bits_of : ℤ → ℕ
bits_of (pos n) = n
bits_of (negsuc n) = 2 ^ 32 - suc n

unfoldable pub settings_of : ℕ → Configdata → Settings
unfolding get_value get_int
settings_of now d = record {
  password = get_value (codes "password") [] d;
  decryption_method = bits_of (get_int (codes "decryption_method") (pos 0) d);
  max_packet_age = get_int (codes "max_packet_age") (pos 0) d;
  max_packet_age_enabled = get_int (codes "max_packet_age_enabled") (pos 0) d;
  max_checks_per_connection = get_int (codes "max_checks_per_connection") (pos 1) d;
  nsca_threads_per_worker = get_int (codes "nsca_threads_per_worker") (pos 0) d;
  decryption_mode = bits_of (get_int (codes "decryption_mode") (pos 0) d);
  now = now;
}

-- The clients of a command file: none without a path, and else one for each thread's number, with
-- that path.
abbrev pub HasClients : List ℕ → ℤ → List FifoClient → Type 0
HasClients path threads clients =
    ((path ≡ []) × (clients ≡ []))
    ⊎ ((path ≢ [])
        × (length clients ≡ iters threads)
        × All (λ client. client.fifo_path ≡ path) clients)

module _ (m : Mcrypt) where
  pub record Constructed : Type 0 where
    pub settings : Settings
    pub fifo_clients : List FifoClient
    pub has_result_path : Bool
    pub use_network_ci : Bool
    pub ci : Option (CryptInstance m)

  -- encrypt_init of the shared instance, or the exception.
  unfoldable pub shared_instance : Initialised m → Constructed → Option Constructed
  shared_instance r c = elim r.status [
    | success ↦ some (record c { use_network_ci = true; ci = r.instance_pointer })
    | failure ↦ none
  ]

  unfoldable pub network : Globals → Memory → List ℕ → ℕ → Configdata → Option Constructed
  unfolding settings_of shared_instance encrypt_init fifo_clients_of get_value
  network g mem iv now d =
      let s = settings_of now d in
      let path = get_value (codes "command_file") [] d in
      let c : Constructed = record {
        settings = s;
        fifo_clients = fifo_clients_of path s.nsca_threads_per_worker;
        has_result_path = not (is_empty (get_value (codes "check_result_path") [] d));
        use_network_ci = false;
        ci = none;
      } in
      if ltb_ℤ s.nsca_threads_per_worker (pos 1) && is_shared s
      then shared_instance (encrypt_init m g mem s.password s.decryption_method (some iv)) c
      else some c

  -- A network that is ready for the connections and threads that use it, with a command file.
  pub record IsUsable (path : List ℕ) (c : Constructed) : Type 0 where
    pub method_known : c.settings.decryption_method ≤ 26
    pub checks_positive : ltb_ℤ c.settings.max_checks_per_connection (pos 1) ≡ false
    pub clients_enough : HasClients path c.settings.nsca_threads_per_worker c.fifo_clients
    -- without threads and with a shared mode there is an instance to use
    pub shared_made :
        ((ltb_ℤ c.settings.nsca_threads_per_worker (pos 1) && is_shared c.settings) ≡ false)
        ⊎ ((c.use_network_ci ≡ true) × (c.ci ≢ none))

  fifo_clients_enough :
      (path : List ℕ) (threads : ℤ) → HasClients path threads (fifo_clients_of path threads)
  unfolding fifo_clients_of fifo_client
  fifo_clients_enough [] threads = inl (refl, refl)
  fifo_clients_enough (c ∷ cs) threads = inr (
    λ e. cc e,
    length-replicate (iters threads) (fifo_client (c ∷ cs)),
    All-replicate (iters threads),
  )
    where
      All-replicate :
          (n : ℕ) → All (λ client. client.fifo_path ≡ c ∷ cs) (replicate n (fifo_client (c ∷ cs)))
      All-replicate zero = tt
      All-replicate (suc n) = (refl, All-replicate n)

  known_bits : (v : ℤ) → outside (pos 0) (pos 26) v ≡ false → bits_of v ≤ 26
  known_bits (pos n) h = ground (arith, h)
  known_bits (negsuc n) h = absurd (ground (arith, h))

  encrypt_init_instance :
      (g : Globals) (mem : Memory) (password : List ℕ) (method : ℕ) (received : Option (List ℕ))
      → (encrypt_init m g mem password method received).status ≡ success
      → (encrypt_init m g mem password method received).instance_pointer ≢ none
  unfolding encrypt_init init_module init_iv init_key blank
  encrypt_init_instance g mem password method received h = ground arith

  same_network :
      (path : List ℕ) (a b : Constructed) → some a ≡ some b → IsUsable path a → IsUsable path b
  same_network path a b h usable = subst (IsUsable path) (some_injective h) usable
    where
      some_injective : some a ≡ some b → a ≡ b
      some_injective e = cc e

  shared_instance-IsUsable :
      (path : List ℕ) (r : Initialised m) (c c' : Constructed)
      → (r.status ≡ success → r.instance_pointer ≢ none)
      → c.settings.decryption_method ≤ 26
      → ltb_ℤ c.settings.max_checks_per_connection (pos 1) ≡ false
      → HasClients path c.settings.nsca_threads_per_worker c.fifo_clients
      → shared_instance r c ≡ some c'
      → IsUsable path c'
  unfolding shared_instance
  shared_instance-IsUsable path r c c' there known positive enough e = go r.status refl
    where
      go : (st : Status) → r.status ≡ st → IsUsable path c'
      go failure bad = absurd (cc (rw (bad, shared_instance) at e))
      go success good =
          same_network path (record c { use_network_ci = true; ci = r.instance_pointer }) c'
            (rw (good, shared_instance) at e)
            record {
              method_known = known;
              checks_positive = positive;
              clients_enough = enough;
              shared_made = inr (refl, there good);
            }

  -- From checked settings the constructor either throws or makes a usable network: its method is one
  -- of 0 to 26, a connection may have a check; if the configuration has a command file, there is a
  -- client of it for every thread's number, and else there is none; and without threads a shared mode
  -- has its crypt instance.
  pub network-IsUsable :
      (g : Globals) (mem : Memory) (iv : List ℕ) (now : ℕ) (d : Configdata) (c : Constructed)
      → IsChecked d
      → network g mem iv now d ≡ some c
      → IsUsable (get_value (codes "command_file") [] d) c
  unfolding network settings_of
  network-IsUsable g mem iv now d c checked e =
      go (ltb_ℤ s.nsca_threads_per_worker (pos 1) && is_shared s) refl e
    where
      s : Settings
      s = settings_of now d

      plain : Constructed
      plain = record {
        settings = s;
        fifo_clients =
            fifo_clients_of (get_value (codes "command_file") [] d) s.nsca_threads_per_worker;
        has_result_path = not (is_empty (get_value (codes "check_result_path") [] d));
        use_network_ci = false;
        ci = none;
      }

      known : s.decryption_method ≤ 26
      known = known_bits (get_int (codes "decryption_method") (pos 0) d) checked.method_known

      path : List ℕ
      path = get_value (codes "command_file") [] d

      enough : HasClients path plain.settings.nsca_threads_per_worker plain.fifo_clients
      enough = fifo_clients_enough path s.nsca_threads_per_worker

      go :
          (b : Bool)
          → (ltb_ℤ s.nsca_threads_per_worker (pos 1) && is_shared s) ≡ b
          → (if b
              then shared_instance
                  (encrypt_init m g mem s.password s.decryption_method (some iv))
                  plain
              else some plain)
            ≡ some c
          → IsUsable path c
      go true shared e =
          shared_instance-IsUsable path
            (encrypt_init m g mem s.password s.decryption_method (some iv)) plain c
            (encrypt_init_instance g mem s.password s.decryption_method (some iv)) known
            checked.checks_positive enough e
      go false alone e = same_network path plain c e record {
        method_known = known;
        checks_positive = checked.checks_positive;
        clients_enough = enough;
        shared_made = inl alone;
      }
