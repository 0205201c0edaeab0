-- ===== src/Network/Ending.antt =====
-- The end of a network of network.cpp: what run does when its event loop has ended, and the
-- destructor.
use nsca_fast.Prelude.{
  ℕ, zero, suc, ◌+◌, ◌≤◌, ◌≡◌, refl, sym, ap, ap₂, subst, not, ◌∙◌, inl, inr, Bool, true, false,
  ◌&&◌, List, [], ◌∷◌, ◌++◌, Option, none, some, map, length, ltb, arith, if◌then◌else◌,
}
use nsca_fast.Prelude.Int.{ℤ, pos, ltb_ℤ}
use nsca_fast.Crypt.Mcrypt.{Mcrypt, CryptInstance}
use nsca_fast.Crypt.Init.{
  Globals, Memory, Initialised, Status, success, failure, encrypt_init, Resource, encrypt_cleanup,
  is_plain, stream_of, key_of_stream, iv_of_stream, algorithm_name, mode_name, instance_memory,
}
use nsca_fast.Crypt.Init.Laws.{encrypt_cleanup-encrypt_init}
use nsca_fast.Prelude.Text.{codes}
use nsca_fast.Parent.{fifo_clients_of, iters, is_empty}
use nsca_fast.Fifo.{FifoClient}
use nsca_fast.Config.Range.{IsChecked}
use nsca_fast.Config.{Configdata, get_value}
use nsca_fast.Client.Connection.{is_shared}
use nsca_fast.ResultPath.{Directory, uninit}
use nsca_fast.Network.{Network}
use nsca_fast.Network.Setup.{
  Constructed, network, settings_of, shared_instance, HasClients, network-IsUsable,
}

-- run, from the end of the event loop on.
unfoldable pub run_end : Directory → Network → Network
unfolding uninit
run_end d n = record n {
  listening = false;
  result_path_client = elim n.result_path_client [
    | none ↦ none
    | some client ↦ some (uninit d client).1
  ];
  has_base = false;
}

some_injective : (m : Mcrypt) (a b : Constructed m) → some a ≡ some b → a ≡ b
some_injective m a b e = cc e

-- What the destructor deletes: the clients of the command file by their numbers, their array, the
-- result path client, and the parts of the crypt instance.
pub data Deleted : Type 0 where
  fifo_client_at : ℕ → Deleted
  fifo_clients_array result_path_deleted : Deleted
  crypt_part : Resource → Deleted

-- The loop over the clients, from a number on; `none` is an access out of the array.
unfoldable pub delete_clients : ℕ → ℕ → List FifoClient → Option (List Deleted)
delete_clients zero i clients = some (fifo_clients_array ∷ [])
delete_clients (suc left) i clients =
    let rest = delete_clients left (i + 1) clients in
    if ltb i (length clients)
    then elim rest [ none ↦ none | some deleted ↦ some (fifo_client_at i ∷ deleted) ]
    else none

-- Without clients the array is null.
unfoldable pub delete_fifo : ℤ → List FifoClient → Option (List Deleted)
unfolding delete_clients
delete_fifo threads [] = some []
delete_fifo threads (client ∷ clients) = delete_clients (iters threads) 0 (client ∷ clients)

-- The clients from a number on, each once, and the array.
unfoldable pub clients_from : ℕ → ℕ → List Deleted
clients_from i zero = fifo_clients_array ∷ []
clients_from i (suc left) = fifo_client_at i ∷ clients_from (i + 1) left

unfoldable pub whole_fifo : List FifoClient → List Deleted
unfolding clients_from
whole_fifo [] = []
whole_fifo (client ∷ clients) = clients_from 0 (length (client ∷ clients))

delete_clients_all :
    (left i : ℕ) (clients : List FifoClient)
    → i + left ≤ length clients
    → delete_clients left i clients ≡ some (clients_from i left)
unfolding delete_clients clients_from
delete_clients_all zero i clients le = refl
delete_clients_all (suc left) i clients le =
    let within : ltb i (length clients) ≡ true = ground arith in
    rw (within, delete_clients_all left (i + 1) clients (omega arith)) refl

delete_fifo_all :
    (path : List ℕ) (threads : ℤ) (clients : List FifoClient)
    → HasClients path threads clients
    → delete_fifo threads clients ≡ some (whole_fifo clients)
unfolding delete_fifo whole_fifo
delete_fifo_all path threads [] h = refl
delete_fifo_all path threads (client ∷ clients) (inl (no_path, none_there)) = absurd (cc none_there)
delete_fifo_all path threads (client ∷ clients) (inr (some_path, enough, same)) =
    ap (λ n. delete_clients n 0 (client ∷ clients)) (sym enough)
    ∙ delete_clients_all (length (client ∷ clients)) 0 (client ∷ clients) (omega arith)

abbrev pub path_part : Bool → List Deleted
path_part has_result_path = if has_result_path then result_path_deleted ∷ [] else []

-- One part of the destructor after another.
unfoldable pub then_deleted :
    Option (List Deleted) → List Deleted → Option (List Resource) → Option (List Deleted)
then_deleted none path parts = none
then_deleted (some clients) path none = none
then_deleted (some clients) path (some parts) = some (clients ++ (path ++ map crypt_part parts))

module _ (m : Mcrypt) where
  -- The destructor's part for the crypt instance; `none` is undefined behaviour.
  unfoldable pub crypt_end : Bool → Constructed m → Option (List Resource)
  unfolding encrypt_cleanup
  crypt_end initialized c = elim c.ci [
    | none ↦ some []
    | some ci ↦ encrypt_cleanup m initialized c.settings.decryption_method (some ci)
  ]

  -- The destructor.
  unfoldable pub network_end : Bool → Constructed m → Option (List Deleted)
  unfolding delete_fifo crypt_end then_deleted
  network_end initialized c =
      then_deleted (delete_fifo c.settings.nsca_threads_per_worker c.fifo_clients)
        (path_part c.has_result_path) (crypt_end initialized c)

  network_end_parts :
      (initialized : Bool) (c : Constructed m) (parts : List Resource)
      → delete_fifo c.settings.nsca_threads_per_worker c.fifo_clients
        ≡ some (whole_fifo c.fifo_clients)
      → crypt_end initialized c ≡ some parts
      → network_end initialized c
        ≡ some (whole_fifo c.fifo_clients ++ (path_part c.has_result_path ++ map crypt_part parts))
  unfolding network_end then_deleted
  network_end_parts initialized c parts e e' =
      ap₂ (λ clients ends. then_deleted clients (path_part c.has_result_path) ends) e e'

  crypt_end-cleanup :
      (initialized : Bool) (c : Constructed m)
      → crypt_end initialized c ≡ encrypt_cleanup m initialized c.settings.decryption_method c.ci
  unfolding crypt_end encrypt_cleanup
  crypt_end-cleanup initialized c = go c.ci refl
    where
      go :
          (ci : Option (CryptInstance m))
          → ci ≡ c.ci
          → crypt_end initialized c
            ≡ encrypt_cleanup m initialized c.settings.decryption_method c.ci
      go none e = rw (← e, crypt_end, encrypt_cleanup) refl
      go (some ci) e = rw (← e, crypt_end) refl

  cleanup_none :
      (initialized : Bool) (method : ℕ) → encrypt_cleanup m initialized method none ≡ some []
  unfolding encrypt_cleanup
  cleanup_none initialized method = refl

  -- What a crypt instance consists of.
  abbrev pub whole_instance : ℕ → List Resource
  whole_instance method =
      if is_plain method
      then instance_memory ∷ []
      else stream_of ∷ key_of_stream ∷ iv_of_stream ∷ algorithm_name ∷ mode_name ∷ instance_memory
        ∷ []

  module _ (g : Globals) (mem : Memory) (iv : List ℕ) (now : ℕ) (d : Configdata) where
    abbrev pub made_instance : Initialised m
    made_instance =
        encrypt_init m g mem (settings_of now d).password (settings_of now d).decryption_method
          (some iv)

    -- Whether the connections share an instance that belongs to the network.
    abbrev pub owns_instance : Bool
    owns_instance =
        ltb_ℤ (settings_of now d).nsca_threads_per_worker (pos 1) && is_shared (settings_of now d)

    -- The parts of the instance are released if the connections share one without threads.
    crypt_end-network :
        (c : Constructed m)
        → network m g mem iv now d ≡ some c
        → crypt_end made_instance.globals.mcrypt_initialized c
          ≡ some
              (if owns_instance then whole_instance (settings_of now d).decryption_method else [])
    unfolding network
    crypt_end-network c e = go owns_instance refl e
      where
        plain : Constructed m
        plain = record {
          settings = settings_of now d;
          fifo_clients =
              fifo_clients_of (get_value (codes "command_file") [] d)
                (settings_of now d).nsca_threads_per_worker;
          has_result_path = not (is_empty (get_value (codes "check_result_path") [] d));
          use_network_ci = false;
          ci = none;
        }

        Ends : Constructed m → Type 0
        Ends c =
            crypt_end made_instance.globals.mcrypt_initialized c
            ≡ some
                (if owns_instance then whole_instance (settings_of now d).decryption_method else [])

        by_status :
            (st : Status)
            → made_instance.status ≡ st
            → owns_instance ≡ true
            → shared_instance m made_instance plain ≡ some c
            → Ends c
        by_status failure bad shares e = absurd (cc (rw (bad, shared_instance) at e))
        by_status success good shares e =
            subst Ends (some_injective m _ c (rw (good, shared_instance) at e)) (
              rw shares (
                crypt_end-cleanup made_instance.globals.mcrypt_initialized
                  (record plain { use_network_ci = true; ci = made_instance.instance_pointer })
                ∙ encrypt_cleanup-encrypt_init m g mem (settings_of now d).password
                    (settings_of now d).decryption_method (some iv) good))

        go :
            (b : Bool)
            → owns_instance ≡ b
            → (if b then shared_instance m made_instance plain else some plain) ≡ some c
            → Ends c
        go false alone e = subst Ends (some_injective m plain c e) (
            rw alone (
              crypt_end-cleanup made_instance.globals.mcrypt_initialized plain
              ∙ cleanup_none made_instance.globals.mcrypt_initialized
                  (settings_of now d).decryption_method))
        go true shares e = by_status made_instance.status refl shares e

    -- The destructor of a network whose settings were checked deletes what its constructor made and
    -- nothing else, each part once and without undefined behaviour: every client of the command file
    -- and their array if there is a command file, the result path client if there is a result path,
    -- and all parts of the crypt instance if the connections share one without threads.
    pub network_end-network :
        (c : Constructed m)
        → IsChecked d
        → network m g mem iv now d ≡ some c
        → network_end made_instance.globals.mcrypt_initialized c
          ≡ some (
              whole_fifo c.fifo_clients
              ++ (path_part c.has_result_path
                  ++ map crypt_part (
                      if owns_instance
                      then whole_instance (settings_of now d).decryption_method
                      else [])))
    network_end-network c checked e =
        network_end_parts made_instance.globals.mcrypt_initialized c _
          (delete_fifo_all (get_value (codes "command_file") [] d)
            c.settings.nsca_threads_per_worker c.fifo_clients
            (network-IsUsable m g mem iv now d c checked e).clients_enough)
          (crypt_end-network c e)
