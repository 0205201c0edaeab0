-- ===== src/Process/Downgrade.antt =====
-- super_downgrade of processManager.cpp: a worker takes the group and the user of the configuration
-- before it works. The databases of groups and users and the kernel are a parameter; `exit(1)` is
-- `none`. An identifier is below 2^31.
use nsca_fast.Prelude.{
  ℕ, ◌≡◌, refl, sym, ap, subst, ◌∙◌, inl, inr, List, [], ◌∷◌, Option, none, some, Option-cases,
}
use nsca_fast.Prelude.Text.{codes, decimal}
use nsca_fast.Config.{Configdata, set_value, get_value}

pub record Credentials : Type 0 where
  pub uid : ℕ
  pub gid : ℕ

pub record System : Type 0 where
  pub getgrnam : List ℕ → Option ℕ
  pub getpwnam : List ℕ → Option ℕ
  pub setgid : ℕ → Credentials → Option Credentials
  pub setuid : ℕ → Credentials → Option Credentials

-- What setgid and setuid promise when they succeed.
pub record Promises (s : System) : Type 0 where
  pub setgid_sets :
      (g : ℕ) (c c' : Credentials) → s.setgid g c ≡ some c' → (c'.gid ≡ g) × (c'.uid ≡ c.uid)
  pub setuid_sets :
      (u : ℕ) (c c' : Credentials) → s.setuid u c ≡ some c' → (c'.uid ≡ u) × (c'.gid ≡ c.gid)

-- What is noted in the configuration of an identifier that was taken.
unfoldable pub note_id :
    List ℕ → ℕ → Configdata → Option Credentials → Option (Configdata × Credentials)
unfolding set_value decimal
note_id key id d none = none
note_id key id d (some c) = some (set_value key (decimal id) d, c)

-- The same code for the group and for the user: a name that is not empty is looked up and taken.
unfoldable pub take_id :
    List ℕ
    → (List ℕ → Option ℕ)
    → (ℕ → Credentials → Option Credentials)
    → List ℕ
    → Configdata
    → Credentials
    → Option (Configdata × Credentials)
unfolding note_id
take_id key lookup take [] d c = some (d, c)
take_id key lookup take (x ∷ xs) d c = elim (lookup (x ∷ xs)) [
  | none ↦ none
  | some id ↦ note_id key id d (take id c)
]

-- Both names are read first.
unfoldable pub super_downgrade :
    System → Configdata → Credentials → Option (Configdata × Credentials)
unfolding take_id get_value
super_downgrade s d c =
    let username = get_value (codes "nsca_user") [] d in
    let groupname = get_value (codes "nsca_group") [] d in
    elim (take_id (codes "gid") s.getgrnam s.setgid groupname d c) [
      | none ↦ none
      | some (d', c') ↦ take_id (codes "uid") s.getpwnam s.setuid username d' c'
    ]

-- The identifier that is taken for a name, or the one before for an empty name.
abbrev pub Takes : (List ℕ → Option ℕ) → List ℕ → ℕ → ℕ → Type 0
Takes lookup [] before after = after ≡ before
Takes lookup (x ∷ xs) before after = lookup (x ∷ xs) ≡ some after

same_pair :
    (d d' : Configdata) (c c' : Credentials)
    → ◌≡◌ {A = Option (Configdata × Credentials)} (some (d, c)) (some (d', c'))
    → c ≡ c'
same_pair d d' c c' h = cc h

module _ (key : List ℕ) (lookup : List ℕ → Option ℕ) (take : ℕ → Credentials → Option Credentials)
    (mine other : Credentials → ℕ)
    (sets : (id : ℕ) (c c' : Credentials)
      → take id c ≡ some c'
      → (mine c' ≡ id) × (other c' ≡ other c)) where
  note_id-Takes :
      (id : ℕ) (d d' : Configdata) (c c' : Credentials) (r : Option Credentials)
      → take id c ≡ r
      → note_id key id d r ≡ some (d', c')
      → (mine c' ≡ id) × (other c' ≡ other c)
  unfolding note_id
  note_id-Takes id d d' c c' none a e = absurd (cc e)
  note_id-Takes id d d' c c' (some k) a e =
      sets id c c' (a ∙ ap some (same_pair (set_value key (decimal id) d) d' k c' e))

  take_id-Takes :
      (name : List ℕ) (d d' : Configdata) (c c' : Credentials)
      → take_id key lookup take name d c ≡ some (d', c')
      → Takes lookup name (mine c) (mine c') × (other c' ≡ other c)
  unfolding take_id
  take_id-Takes [] d d' c c' e =
      let same = same_pair d d' c c' e in (sym (ap mine same), sym (ap other same))
  take_id-Takes (x ∷ xs) d d' c c' e = elim (Option-cases (lookup (x ∷ xs))) [
    | inl missing ↦ absurd (cc (rw (missing, take_id) at e))
    | inr (id, found) ↦
        let set = note_id-Takes id d d' c c' (take id c) refl (rw (found, take_id) at e) in
        (found ∙ ap some (sym set.0), set.1)
  ]

-- A worker that goes on behind super_downgrade has the group of the configured name and the user of
-- the configured name; where a name is empty it keeps what it had.
pub super_downgrade-Takes :
    (s : System) (d d' : Configdata) (c c' : Credentials)
    → Promises s
    → super_downgrade s d c ≡ some (d', c')
    → Takes s.getgrnam (get_value (codes "nsca_group") [] d) c.gid c'.gid
      × Takes s.getpwnam (get_value (codes "nsca_user") [] d) c.uid c'.uid
unfolding super_downgrade
super_downgrade-Takes s d d' c c' p e =
    go (take_id (codes "gid") s.getgrnam s.setgid group d c) refl e
  where
    group : List ℕ
    group = get_value (codes "nsca_group") [] d

    user : List ℕ
    user = get_value (codes "nsca_user") [] d

    go :
        (first : Option (Configdata × Credentials))
        → take_id (codes "gid") s.getgrnam s.setgid group d c ≡ first
        → (elim first [
          | none ↦ none
          | some (e1, k) ↦ take_id (codes "uid") s.getpwnam s.setuid user e1 k
        ])
          ≡ some (d', c')
        → Takes s.getgrnam group c.gid c'.gid × Takes s.getpwnam user c.uid c'.uid
    go none f e = absurd (cc e)
    go (some (e1, k)) f e =
        let (has_group, same_user) =
          take_id-Takes (codes "gid") s.getgrnam s.setgid (λ q. q.gid) (λ q. q.uid) p.setgid_sets
            group d e1 c k f in
        let (has_user, same_group) =
          take_id-Takes (codes "uid") s.getpwnam s.setuid (λ q. q.uid) (λ q. q.gid) p.setuid_sets
            user e1 d' k c' e in
        (
          subst (Takes s.getgrnam group c.gid) (sym same_group) has_group,
          subst (λ before. Takes s.getpwnam user before c'.uid) same_user has_user,
        )
