-- ===== src/Config/Kept.antt =====
-- What check_config of config.cpp makes of the numbers of threads and of workers.
use nsca_fast.Prelude.{
  ℕ, ◌≡◌, refl, sym, ap, ◌∙◌, inl, inr, Bool, true, false, List, some, if◌then◌else◌, Bool-cases,
}
use nsca_fast.Prelude.Int.{ℤ, pos, ltb_ℤ}
use nsca_fast.Prelude.Text.{codes}
use nsca_fast.Config.{
  Configdata, same_text, set_if, get_int, int_of, strtol, outside, max_age, check_workers,
  leading_digits, is_space, to_long, check_config,
}
use nsca_fast.Config.Range.{get_int-set_if_other, get_int-set_if, get_int-check_workers}

some_injective : (d e : Configdata) → some d ≡ some e → d ≡ e
some_injective d e h = cc h

module _ (enabled : Bool) (d : Configdata) where
  d_age : Configdata
  d_age =
      set_if (outside (pos 0) (pos max_age) (get_int (codes "max_packet_age") (pos 0) d))
        (codes "max_packet_age") (codes "30") d

  d_workers : Configdata
  unfolding d_age
  d_workers = check_workers enabled (get_int (codes "nsca_workers") (pos 0) d) d_age

  d_threads : Configdata
  unfolding d_workers
  d_threads =
      set_if (outside (pos 0) (pos 1000) (get_int (codes "nsca_threads_per_worker") (pos 4) d))
        (codes "nsca_threads_per_worker") (codes "4") d_workers

  d_checks : Configdata
  unfolding d_threads
  d_checks =
      set_if (ltb_ℤ (get_int (codes "max_checks_per_connection") (pos 500) d) (pos 1))
        (codes "max_checks_per_connection") (codes "1") d_threads

  d_files : Configdata
  unfolding d_checks
  d_files =
      set_if (ltb_ℤ (get_int (codes "check_result_path_max_files") (pos 0) d) (pos 0))
        (codes "check_result_path_max_files") (codes "0") d_checks

  -- What check_config leaves when it succeeds, and that the method is then one of 0 to 26.
  check_config-some :
      (d' : Configdata)
      → check_config enabled d ≡ some d'
      → (d_files ≡ d')
        × (outside (pos 0) (pos 26) (get_int (codes "decryption_method") (pos 0) d) ≡ false)
  unfolding check_config d_age d_workers d_threads d_checks d_files
  check_config-some d' e =
      elim (Bool-cases (outside (pos 0) (pos 26) (get_int (codes "decryption_method") (pos 0) d))) [
        | inl unknown ↦ absurd (cc (rw unknown at e))
        | inr known ↦ (some_injective d_files d' (rw known at e), known)
      ]

  -- The last two settings are not a name that comes before them.
  kept_by_last :
      (j : List ℕ) (x : ℤ)
      → same_text j (codes "check_result_path_max_files") ≡ false
      → same_text j (codes "max_checks_per_connection") ≡ false
      → get_int j x d_files ≡ get_int j x d_threads
  unfolding d_files d_checks
  kept_by_last j x files checks =
      get_int-set_if_other (ltb_ℤ (get_int (codes "check_result_path_max_files") (pos 0) d) (pos 0))
        j (codes "check_result_path_max_files") (codes "0") x d_checks files
      ∙ get_int-set_if_other
          (ltb_ℤ (get_int (codes "max_checks_per_connection") (pos 500) d) (pos 1)) j
          (codes "max_checks_per_connection") (codes "1") x d_threads checks

  threads_after :
      (x : ℤ)
      → get_int (codes "nsca_threads_per_worker") x d_files ≡ (
          if outside (pos 0) (pos 1000) (get_int (codes "nsca_threads_per_worker") (pos 4) d)
          then int_of (strtol (codes "4"))
          else get_int (codes "nsca_threads_per_worker") x d)
  unfolding same_text d_threads d_workers d_age
  threads_after x =
      kept_by_last (codes "nsca_threads_per_worker") x refl refl
      ∙ get_int-set_if
          (outside (pos 0) (pos 1000) (get_int (codes "nsca_threads_per_worker") (pos 4) d))
          (codes "nsca_threads_per_worker") (codes "4") x d_workers refl
      ∙ ap
          (λ v.
            if outside (pos 0) (pos 1000) (get_int (codes "nsca_threads_per_worker") (pos 4) d)
            then int_of (strtol (codes "4"))
            else v)
          (get_int-check_workers enabled (codes "nsca_threads_per_worker") x
              (get_int (codes "nsca_workers") (pos 0) d) d_age refl
            ∙ get_int-set_if_other
                (outside (pos 0) (pos max_age) (get_int (codes "max_packet_age") (pos 0) d))
                (codes "nsca_threads_per_worker") (codes "max_packet_age") (codes "30") x d refl)

module _ (d : Configdata) where
  workers_after :
      (x : ℤ)
      → get_int (codes "nsca_workers") x (d_files true d) ≡ (
          if outside (pos 1) (pos 2000) (get_int (codes "nsca_workers") (pos 0) d)
          then int_of (strtol (codes "4"))
          else get_int (codes "nsca_workers") x d)
  unfolding same_text d_threads d_workers d_age check_workers
  workers_after x =
      kept_by_last true d (codes "nsca_workers") x refl refl
      ∙ get_int-set_if_other
          (outside (pos 0) (pos 1000) (get_int (codes "nsca_threads_per_worker") (pos 4) d))
          (codes "nsca_workers") (codes "nsca_threads_per_worker") (codes "4") x (d_workers true d)
          refl
      ∙ get_int-set_if (outside (pos 1) (pos 2000) (get_int (codes "nsca_workers") (pos 0) d))
          (codes "nsca_workers") (codes "4") x (d_age true d) refl
      ∙ ap
          (λ v.
            if outside (pos 1) (pos 2000) (get_int (codes "nsca_workers") (pos 0) d)
            then int_of (strtol (codes "4"))
            else v)
          (get_int-set_if_other
            (outside (pos 0) (pos max_age) (get_int (codes "max_packet_age") (pos 0) d))
            (codes "nsca_workers") (codes "max_packet_age") (codes "30") x d refl)

-- What check_config lets through for the threads, when it succeeds: a number in its range, or 4.
pub check_config_threads :
    (enabled : Bool) (d d' : Configdata) (x : ℤ)
    → check_config enabled d ≡ some d'
    → get_int (codes "nsca_threads_per_worker") x d' ≡ (
        if outside (pos 0) (pos 1000) (get_int (codes "nsca_threads_per_worker") (pos 4) d)
        then pos 4
        else get_int (codes "nsca_threads_per_worker") x d)
unfolding strtol leading_digits is_space to_long
check_config_threads enabled d d' x e =
    ap (get_int (codes "nsca_threads_per_worker") x) (sym (check_config-some enabled d d' e).0)
    ∙ threads_after enabled d x

-- And for the workers, where workers are enabled.
pub check_config_workers :
    (d d' : Configdata) (x : ℤ)
    → check_config true d ≡ some d'
    → get_int (codes "nsca_workers") x d' ≡ (
        if outside (pos 1) (pos 2000) (get_int (codes "nsca_workers") (pos 0) d)
        then pos 4
        else get_int (codes "nsca_workers") x d)
unfolding strtol leading_digits is_space to_long
check_config_workers d d' x e =
    ap (get_int (codes "nsca_workers") x) (sym (check_config-some true d d' e).0)
    ∙ workers_after d x

pub check_config_method :
    (enabled : Bool) (d d' : Configdata)
    → check_config enabled d ≡ some d'
    → outside (pos 0) (pos 26) (get_int (codes "decryption_method") (pos 0) d) ≡ false
check_config_method enabled d d' e = (check_config-some enabled d d' e).1
