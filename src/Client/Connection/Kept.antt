-- ===== src/Client/Connection/Kept.antt =====
-- What the reads of a connection of network_client.cpp leave alone.
use nsca_fast.Prelude.{ℕ, ◌≡◌, refl, subst, Bool, List, [], ◌∷◌}
use nsca_fast.Crypt.Mcrypt.{Mcrypt}
use nsca_fast.Client.Settings.{Settings}
use nsca_fast.Client.Libevent.{Libevent, IsQueue}
use nsca_fast.Client.Connection.{Connection, Event, stays, destroyed}
use nsca_fast.Client.Connection.Reading.{
  receive, receive_all, Reads, waits, starves, takes, overflows, readcb-Reads,
}

module _ (l : Libevent) (m : Mcrypt) where
  -- What the reads of a connection leave alone.
  pub record IsKept (c c' : Connection l m) : Type 0 where
    pub same_iv : c'.transmission_iv ≡ c.transmission_iv
    pub same_success : c'.d_success ≡ c.d_success
    pub same_failed : c'.d_failed ≡ c.d_failed
    pub same_ci : c'.ci ≡ c.ci
    pub same_own : c'.has_own_ci ≡ c.has_own_ci

  abbrev EventKeeps : Connection l m → Event l m → Type 0
  EventKeeps c (stays c') = IsKept c c'
  EventKeeps c destroyed = Unit {0}

  pub IsKept-refl : (c : Connection l m) → IsKept c c
  IsKept-refl c = record {
    same_iv = refl;
    same_success = refl;
    same_failed = refl;
    same_ci = refl;
    same_own = refl;
  }

  stays_equal : {a b : Connection l m} → stays a ≡ stays b → a ≡ b
  stays_equal e = cc e

  module _ (q : IsQueue l) (s : Settings) where
    Reads-IsKept :
        (allocated : Bool) (before c : Connection l m) (e : Event l m)
        → IsKept before c
        → Reads l m q s allocated c e
        → EventKeeps before e
    Reads-IsKept allocated before c e k (waits short) = record {
      same_iv = k.same_iv;
      same_success = k.same_success;
      same_failed = k.same_failed;
      same_ci = k.same_ci;
      same_own = k.same_own;
    }
    Reads-IsKept allocated before c e k (starves missing) = record {
      same_iv = k.same_iv;
      same_success = k.same_success;
      same_failed = k.same_failed;
      same_ci = k.same_ci;
      same_own = k.same_own;
    }
    Reads-IsKept allocated before c e k (takes front rest enough few is_front is_rest) = record {
      same_iv = k.same_iv;
      same_success = k.same_success;
      same_failed = k.same_failed;
      same_ci = k.same_ci;
      same_own = k.same_own;
    }
    Reads-IsKept allocated before c e k (overflows many) = tt

    receive-IsKept :
        (bytes : List ℕ) (allocated : Bool) (before c : Connection l m)
        → IsKept before c
        → EventKeeps before (receive l m s bytes allocated c)
    unfolding receive
    receive-IsKept bytes allocated before c k =
        let fed : Connection l m = record c { input = l.add c.input bytes } in
        Reads-IsKept allocated before fed _
          record {
            same_iv = k.same_iv;
            same_success = k.same_success;
            same_failed = k.same_failed;
            same_ci = k.same_ci;
            same_own = k.same_own;
          }
          (readcb-Reads l m q s allocated fed)

    IsKept-behind :
        (reads : List (List ℕ × Bool)) (before c' : Connection l m) (e : Event l m)
        → EventKeeps before e
        → elim e [ destroyed ↦ destroyed | stays c ↦ receive_all l m s reads c ] ≡ stays c'
        → ((c : Connection l m)
            → IsKept before c
            → receive_all l m s reads c ≡ stays c'
            → IsKept before c')
        → IsKept before c'
    IsKept-behind reads before c' (stays c) k e go = go c k e
    IsKept-behind reads before c' destroyed k e go = absurd (cc e)

    pub receive_all-IsKept :
        (reads : List (List ℕ × Bool)) (before c c' : Connection l m)
        → IsKept before c
        → receive_all l m s reads c ≡ stays c'
        → IsKept before c'
    unfolding receive_all
    receive_all-IsKept [] before c c' k e = subst (IsKept before) (stays_equal e) k
    receive_all-IsKept ((bytes, allocated) ∷ reads) before c c' k e =
        IsKept-behind reads before c' (receive l m s bytes allocated c)
          (receive-IsKept bytes allocated before c k) e
          (λ c'' k' e'. receive_all-IsKept reads before c'' c' k' e')
