-- ===== src/Client/Libevent.antt =====
-- The evbuffers of libevent as network_client.cpp uses them, and what it relies on.
use nsca_fast.Prelude.{ℕ, ◌≤◌, ◌≡◌, List, [], ◌++◌, Option, some, length, take, drop}

pub record Libevent : Type 1 where
  pub Evbuffer : Type 0
  pub empty : Evbuffer
  -- evbuffer_get_length
  pub get_length : Evbuffer → ℕ
  -- evbuffer_remove: the bytes that were copied, or `none` for -1
  pub remove : Evbuffer → ℕ → Option (List ℕ) × Evbuffer
  -- evbuffer_add, and what libevent itself does with the bytes that a socket delivers
  pub add : Evbuffer → List ℕ → Evbuffer

-- A buffer is a queue of bytes.
pub record IsQueue (l : Libevent) : Type 0 where
  pub contents : l.Evbuffer → List ℕ
  pub contents-empty : contents l.empty ≡ []
  pub get_length-contents : (b : l.Evbuffer) → l.get_length b ≡ length (contents b)
  pub contents-add :
      (b : l.Evbuffer) (bytes : List ℕ) → contents (l.add b bytes) ≡ contents b ++ bytes
  pub remove_front :
      (b : l.Evbuffer) (n : ℕ)
      → n ≤ length (contents b)
      → ((l.remove b n).0 ≡ some (take n (contents b)))
        × (contents (l.remove b n).1 ≡ drop n (contents b))
