-- ===== src/Client/Settings.antt =====
-- The fields of `class network` that a connection reads through `parent`. An `int` is an integer;
-- `now` is a time after 1970.
use nsca_fast.Prelude.{ℕ, suc, ◌-◌, ◌^◌, Bool, true, not, List, ◌==◌}
use nsca_fast.Prelude.Int.{ℤ, pos, negsuc}

pub record Settings : Type 0 where
  pub password : List ℕ
  pub decryption_method : ℕ
  pub max_packet_age : ℤ
  pub max_packet_age_enabled : ℤ
  pub max_checks_per_connection : ℤ
  pub nsca_threads_per_worker : ℤ
  pub decryption_mode : ℕ
  pub now : ℕ

-- An `int` in a condition.
abbrev pub nonzero : ℤ → Bool
nonzero (pos n) = not (n == 0)
nonzero (negsuc n) = true

-- An `int` cast to `size_t`.
abbrev pub to_size : ℤ → ℕ
to_size (pos n) = n
to_size (negsuc n) = 2 ^ 64 - suc n
