-- ===== src/Process/Work.antt =====
-- What a process does that works, in processManager.cpp: the limits, the change of user, and then
-- work, which runs a network between the start and the join of the crypt threads. Each act is noted
-- with the credentials under which it is done. The lock of mainloop is here too.
use nsca_fast.Prelude.{
  ℕ, ◌≡◌, refl, Bool, true, false, not, ◌&&◌, List, [], ◌∷◌, Option, none, some, map, All, length,
  ◌==◌, if◌then◌else◌,
}
use nsca_fast.Prelude.Int.{ℤ, pos, negsuc}
use nsca_fast.Prelude.Text.{codes}
use nsca_fast.Config.{Configdata, get_value}
use nsca_fast.Process.{Manager, is_main, is_child, become_child}
use nsca_fast.Process.Downgrade.{
  Credentials, System, Promises, super_downgrade, Takes, super_downgrade-Takes,
}

pub data Act : Type 0 where
  super_limits threads_start network_new network_run network_delete threads_join threads_delete :
      Act

-- work: nothing in a process that is neither a child nor the only one.
unfoldable pub work : Manager → List Act
work m =
    if not (is_child m.process_mode) && not (length m.workers == 1)
    then []
    else threads_start ∷ network_new ∷ network_run ∷ network_delete ∷ threads_join ∷ threads_delete
      ∷ []

-- The limits, super_downgrade, which may exit, and work.
unfoldable pub limited_work : System → Configdata → Credentials → Manager → List (Act × Credentials)
unfolding work super_downgrade
limited_work s d c m =
    (super_limits, c)
    ∷ elim (super_downgrade s d c) [ none ↦ [] | some (d', c') ↦ map (λ a. (a, c')) (work m) ]

-- startChild in the child that fork makes.
unfoldable pub child_work :
    System → Configdata → Credentials → ℕ → Manager → List (Act × Credentials)
unfolding become_child limited_work
child_work s d c wid m = limited_work s d c (become_child wid m)

-- loop of a process that works itself, as maxWorker is 1.
unfoldable pub loop_alone : System → Configdata → Credentials → Manager → List (Act × Credentials)
unfolding limited_work
loop_alone s d c m = if length m.workers == 1 then limited_work s d c m else []

pub record LockAnswers : Type 0 where
  -- open: a descriptor, or none for -1
  pub open_answer : Option ℕ
  pub flock : Bool

-- lock: the return value, and lockfd.
unfoldable pub lock : LockAnswers → Manager → ℤ × Option ℕ
lock a m = if not (is_main m.process_mode) then (pos 0, none) else elim a.open_answer [
  | none ↦ (negsuc 0, none)
  | some fd ↦ if a.flock then (pos 0, some fd) else (negsuc 1, some fd)
]

-- Done as the user and the group of the configuration; only the limits are set before.
pub record IsDowngraded (s : System) (d : Configdata) (c : Credentials) (act : Act × Credentials)
    : Type 0 where
  pub as_group : Takes s.getgrnam (get_value (codes "nsca_group") [] d) c.gid act.1.gid
  pub as_user : Takes s.getpwnam (get_value (codes "nsca_user") [] d) c.uid act.1.uid

module _ (s : System) (d : Configdata) (c : Credentials) (p : Promises s) where
  map-IsDowngraded :
      (d' : Configdata) (c' : Credentials) (acts : List Act)
      → super_downgrade s d c ≡ some (d', c')
      → All (IsDowngraded s d c) (map (λ a. (a, c')) acts)
  map-IsDowngraded d' c' [] e = tt
  map-IsDowngraded d' c' (a ∷ acts) e =
      let taken = super_downgrade-Takes s d d' c c' p e in
      (record { as_group = taken.0; as_user = taken.1 }, map-IsDowngraded d' c' acts e)

  -- The limits come first; everything behind them is downgraded.
  abbrev pub FirstLimits : List (Act × Credentials) → Type 0
  FirstLimits [] = Unit
  FirstLimits (a ∷ acts) = (a ≡ (super_limits, c)) × All (IsDowngraded s d c) acts

  limited_work-FirstLimits : (m : Manager) → FirstLimits (limited_work s d c m)
  unfolding limited_work
  limited_work-FirstLimits m = (refl, behind (super_downgrade s d c) refl)
    where
      behind :
          (r : Option (Configdata × Credentials))
          → super_downgrade s d c ≡ r
          → All
              (IsDowngraded s d c)
              (elim r [ none ↦ [] | some (d', c') ↦ map (λ a. (a, c')) (work m) ])
      behind none e = tt
      behind (some (d', c')) e = map-IsDowngraded d' c' (work m) e

  -- All that a worker does, if super_downgrade succeeds.
  abbrev pub acts_of : Option (Configdata × Credentials) → List Act
  acts_of none = super_limits ∷ []
  acts_of (some taken) =
      super_limits ∷ threads_start ∷ network_new ∷ network_run ∷ network_delete ∷ threads_join
      ∷ threads_delete ∷ []

  child_work-acts_of :
      (wid : ℕ) (m : Manager) (r : Option (Configdata × Credentials))
      → super_downgrade s d c ≡ r
      → map (λ a. a.0) (child_work s d c wid m) ≡ acts_of r
  unfolding child_work limited_work work become_child
  child_work-acts_of wid m none e = rw (e, limited_work) refl
  child_work-acts_of wid m (some taken) e = rw (e, limited_work) refl

  -- A worker, and a process that works alone, first set their limits; all that they do then, from the
  -- start of the crypt threads and the making of the network on, is done as the user and the group of
  -- the configuration, or as before where the configuration names none. A worker does all of it
  -- unless super_downgrade exits, and then nothing. This holds of a system whose setgid and setuid
  -- do what they promise.
  pub child_work-IsDowngraded :
      (wid : ℕ) (m m' : Manager) (r : Option (Configdata × Credentials))
      → super_downgrade s d c ≡ r
      → FirstLimits (child_work s d c wid m)
        × FirstLimits (loop_alone s d c m')
        × (map (λ a. a.0) (child_work s d c wid m) ≡ acts_of r)
  unfolding child_work loop_alone
  child_work-IsDowngraded wid m m' r e = (
    limited_work-FirstLimits (become_child wid m),
    alone (length m'.workers == 1),
    child_work-acts_of wid m r e,
  )
    where
      alone : (b : Bool) → FirstLimits (if b then limited_work s d c m' else [])
      alone true = limited_work-FirstLimits m'
      alone false = tt
