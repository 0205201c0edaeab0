-- ===== src/Start/Ranged.antt =====
-- The numbers of the options in main of main.cpp.
use nsca_fast.Prelude.{
  ◌≡◌, refl, ◌⊎◌, inl, inr, false, List, [], ◌∷◌, Option, none, some, Bool-cases,
}
use nsca_fast.Prelude.Int.{pos, negsuc}
use nsca_fast.Config.{int_of, strtol, outside}
use nsca_fast.Start.{
  Opt, opt_h, opt_f, opt_d, opt_c, opt_n, opt_t, opt_unknown, Options, no_options, read_option,
  read_options,
}

-- The numbers of the options, which the loop over them has tested.
pub record IsRanged (o : Options) : Type 0 where
  pub workers_ranged : outside (pos 0) (pos 100) o.max_workers ≡ false
  pub threads_ranged :
      (o.nsca_threads_per_worker ≡ negsuc 0)
      ⊎ (outside (pos 0) (pos 1000) o.nsca_threads_per_worker ≡ false)

abbrev pub RangedOption : Option Options → Type 0
RangedOption none = Unit
RangedOption (some o) = IsRanged o

pub no_options-IsRanged : IsRanged no_options
unfolding no_options
no_options-IsRanged = record { workers_ranged = refl; threads_ranged = inl refl }

read_option-IsRanged : (opt : Opt) (o : Options) → IsRanged o → RangedOption (read_option opt o)
unfolding read_option
read_option-IsRanged opt_h o r = tt
read_option-IsRanged opt_f o r = record {
  workers_ranged = r.workers_ranged;
  threads_ranged = r.threads_ranged;
}
read_option-IsRanged opt_d o r = record {
  workers_ranged = r.workers_ranged;
  threads_ranged = r.threads_ranged;
}
read_option-IsRanged (opt_c path) o r = record {
  workers_ranged = r.workers_ranged;
  threads_ranged = r.threads_ranged;
}
read_option-IsRanged (opt_n arg) o r =
    elim (Bool-cases (outside (pos 0) (pos 100) (int_of (strtol arg)))) [
      | inl far ↦ rw far tt
      | inr near ↦ rw near (record { workers_ranged = near; threads_ranged = r.threads_ranged })
    ]
read_option-IsRanged (opt_t arg) o r =
    elim (Bool-cases (outside (pos 0) (pos 1000) (int_of (strtol arg)))) [
      | inl far ↦ rw far tt
      | inr near ↦ rw near (record { workers_ranged = r.workers_ranged; threads_ranged = inr near })
    ]
read_option-IsRanged opt_unknown o r = r

pub read_options-IsRanged :
    (opts : List Opt) (o : Options) → IsRanged o → RangedOption (read_options opts o)
unfolding read_options
read_options-IsRanged [] o r = r
read_options-IsRanged (opt ∷ opts) o r =
    go (read_option opt o) (read_option-IsRanged opt o r)
      (λ o' r'. read_options-IsRanged opts o' r')
  where
    go :
        (first : Option Options)
        → RangedOption first
        → ((o' : Options) → IsRanged o' → RangedOption (read_options opts o'))
        → RangedOption (elim first [ none ↦ none | some o' ↦ read_options opts o' ])
    go none r rest = tt
    go (some o') r rest = rest o' r
