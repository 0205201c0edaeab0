-- ===== src/Network/Bind.antt =====
-- The address and the port that network::run of network.cpp listens on. inet_pton is a parameter; a
-- sockaddr_storage is zero where nothing is written.
use nsca_fast.Prelude.{
  ℕ, ◌-◌, ◌%◌, ◌^◌, ◌<◌, ◌≡◌, refl, ap, ◌∙◌, Bool, true, false, List, [], ◌∷◌, Option, none, some,
  replicate, ◌==◌, if◌then◌else◌, arith,
}
use nsca_fast.Prelude.Int.{ℤ, pos, negsuc}
use nsca_fast.Prelude.Text.{codes, decimal}
use nsca_fast.Config.{Configdata, find, get_value, get_int, int_of}
use nsca_fast.Config.Range.{get_int-some}
use nsca_fast.Start.Decimal.{strtol-decimal}

pub data Family : Type 0 where
  inet inet6 : Family

-- A sockaddr_in or a sockaddr_in6.
pub record SocketAddress : Type 0 where
  pub family : Family
  pub address : List ℕ
  pub port : ℕ

-- A number assigned to a uint16_t.
abbrev pub port_of : ℤ → ℕ
port_of (pos n) = n % 2 ^ 16
port_of (negsuc n) = 2 ^ 16 - 1 - n % 2 ^ 16

-- `strstr(server_address.c_str(), ":")`.
unfoldable pub has_colon : List ℕ → Bool
has_colon [] = false
has_colon (c ∷ cs) = let rest = has_colon cs in if c == 58 then true else rest

abbrev pub family_of : List ℕ → Family
family_of text = if has_colon text then inet6 else inet

-- The address that no inet_pton has written: every interface.
unfoldable pub any_address : Family → List ℕ
unfolding replicate
any_address inet = replicate 4 0
any_address inet6 = replicate 16 0

get_value-some :
    (k v default : List ℕ) (d : Configdata) → find k d ≡ some v → get_value k default d ≡ v
unfolding get_value
get_value-some k v default d e = rw (e, get_value) refl

module _ (inet_pton : Family → List ℕ → Option (List ℕ)) where
  unfoldable pub socket_address : Family → List ℕ → ℕ → SocketAddress
  unfolding any_address
  socket_address family text port = record {
    family = family;
    address = elim (inet_pton family text) [ some bytes ↦ bytes | none ↦ any_address family ];
    port = port;
  }

  -- run, up to evconnlistener_new_bind.
  unfoldable pub bind_address : Configdata → SocketAddress
  bind_address d =
      let port = port_of (get_int (codes "server_port") (pos 5667) d) in
      let server_address = get_value (codes "server_address") (codes "0.0.0.0") d in
      if has_colon server_address
      then socket_address inet6 server_address port
      else socket_address inet server_address port

  socket_address_parsed :
      (family : Family) (text bytes : List ℕ) (port : ℕ)
      → inet_pton family text ≡ some bytes
      → socket_address family text port ≡ record { family = family; address = bytes; port = port }
  unfolding socket_address
  socket_address_parsed family text bytes port e = rw e refl

  socket_address_any :
      (family : Family) (text : List ℕ) (port : ℕ)
      → inet_pton family text ≡ none
      → socket_address family text port
        ≡ record { family = family; address = any_address family; port = port }
  unfolding socket_address
  socket_address_any family text port e = rw e refl

  bind_address-socket_address :
      (d : Configdata) (text : List ℕ) (p : ℕ)
      → find (codes "server_address") d ≡ some text
      → find (codes "server_port") d ≡ some (decimal p)
      → p < 2 ^ 31
      → bind_address d ≡ socket_address (family_of text) text (p % 2 ^ 16)
  unfolding bind_address
  bind_address-socket_address d text p named numbered small =
      rw
        (get_value-some (codes "server_address") text (codes "0.0.0.0") d named, read, bind_address)
        (by_family (has_colon text))
    where
      read : get_int (codes "server_port") (pos 5667) d ≡ pos p
      read =
          get_int-some (codes "server_port") (decimal p) (pos 5667) d numbered
          ∙ ap int_of (strtol-decimal p (omega arith))
          ∙ ground arith

      by_family :
          (b : Bool)
          → (if b
              then socket_address inet6 text (p % 2 ^ 16)
              else socket_address inet text (p % 2 ^ 16))
            ≡ socket_address (if b then inet6 else inet) text (p % 2 ^ 16)
      by_family true = refl
      by_family false = refl

  -- With a server_address and a server_port in the configuration, the network listens on the port
  -- modulo 65536; on the address if inet_pton reads one of its family, which is IPv6 exactly if the
  -- text has a colon; and on every interface of that family if inet_pton reads none.
  pub bind_address_lem :
      (d : Configdata) (text : List ℕ) (p : ℕ) (read : Option (List ℕ))
      → find (codes "server_address") d ≡ some text
      → find (codes "server_port") d ≡ some (decimal p)
      → p < 2 ^ 31
      → inet_pton (family_of text) text ≡ read
      → bind_address d ≡ record {
        family = family_of text;
        address = elim read [ some bytes ↦ bytes | none ↦ any_address (family_of text) ];
        port = p % 2 ^ 16;
      }
  bind_address_lem d text p (some bytes) named numbered small e =
      bind_address-socket_address d text p named numbered small
      ∙ socket_address_parsed (family_of text) text bytes (p % 2 ^ 16) e
  bind_address_lem d text p none named numbered small e =
      bind_address-socket_address d text p named numbered small
      ∙ socket_address_any (family_of text) text (p % 2 ^ 16) e
