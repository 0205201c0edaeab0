-- ===== src/Client/Judge/Age.antt =====
-- What the age check of network_client.cpp accepts.
use nsca_fast.Prelude.{ℕ, ◌+◌, ◌-◌, ◌^◌, ◌<◌, ◌≡◌, ◌↔◌, true, arith}
use nsca_fast.Prelude.Int.{pos}
use nsca_fast.Client.Settings.{Settings, nonzero}
use nsca_fast.Client.Judge.{packet_diff, is_too_old}

-- The distance of two times.
abbrev pub distance : ℕ → ℕ → ℕ
distance a b = (a - b) + (b - a)

-- With the age check enabled and a positive limit, and times of 32 bits, a packet is dropped for its
-- age exactly when its time is more than the limit away from the daemon's and less than 2^31
-- seconds: at 2^31 seconds and more the distance has become a negative `int`, and the packet passes.
pub is_too_old_iff :
    (s : Settings) (received age : ℕ)
    → nonzero s.max_packet_age_enabled ≡ true
    → s.max_packet_age ≡ pos age
    → 0 < age
    → received < 2 ^ 32
    → s.now < 2 ^ 32
    → (is_too_old s received ≡ true)
      ↔ ((age < distance received s.now) × (distance received s.now < 2 ^ 31))
unfolding is_too_old packet_diff
is_too_old_iff s received age enabled limit positive small now_small = ground arith
