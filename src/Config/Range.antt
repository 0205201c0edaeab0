-- ===== src/Config/Range.antt =====
-- The numbers that check_config of config.cpp lets through.
use nsca_fast.Prelude.{
  ℕ, ◌≡◌, refl, sym, ap, ◌∙◌, inl, inr, Bool, true, false, List, [], ◌∷◌, Option, none, some, ◌==◌,
  if◌then◌else◌, arith, Bool-cases,
}
use nsca_fast.Prelude.Int.{ℤ, pos, ltb_ℤ}
use nsca_fast.Prelude.Text.{codes}
use nsca_fast.Config.{
  Configdata, same_text, find, set_value, set_if, get_int, int_of, strtol, outside, max_age,
  check_workers, check_config, to_long, leading_digits, is_space,
}

pub same_text_sound : (xs ys : List ℕ) → same_text xs ys ≡ true → xs ≡ ys
unfolding same_text
same_text_sound [] [] h = refl
same_text_sound [] (y ∷ ys) h = absurd (cc h)
same_text_sound (x ∷ xs) [] h = absurd (cc h)
same_text_sound (x ∷ xs) (y ∷ ys) h = elim (Bool-cases (x == y)) [
  | inl same ↦
      ap (λ c. c ∷ xs) (ground (arith, same)) ∙ ap (◌∷◌ y) (same_text_sound xs ys (rw same at h))
  | inr other ↦ absurd (cc (rw other at h))
]

pub find-set_value_other :
    (j k v : List ℕ) (d : Configdata) → same_text j k ≡ false → find j (set_value k v d) ≡ find j d
unfolding find set_value
find-set_value_other j k v [] h = rw h refl
find-set_value_other j k v ((i, w) ∷ d) h = elim (Bool-cases (same_text k i)) [
  | inl same ↦ rw (same, set_value, ← same_text_sound k i same, h) refl
  | inr other ↦ rw (other, set_value, find-set_value_other j k v d h) refl
]

find_head : (k i v : List ℕ) (d : Configdata) → same_text k i ≡ true → find k ((i, v) ∷ d) ≡ some v
unfolding find
find_head k i v d same = rw same refl

set_value_head :
    (k i v w : List ℕ) (d : Configdata)
    → same_text k i ≡ true
    → set_value k v ((i, w) ∷ d) ≡ (i, v) ∷ d
unfolding set_value
set_value_head k i v w d same = rw same refl

find_tail :
    (k i v : List ℕ) (d : Configdata) → same_text k i ≡ false → find k ((i, v) ∷ d) ≡ find k d
unfolding find
find_tail k i v d other = rw other refl

set_value_tail :
    (k i v w : List ℕ) (d : Configdata)
    → same_text k i ≡ false
    → set_value k v ((i, w) ∷ d) ≡ (i, w) ∷ set_value k v d
unfolding set_value
set_value_tail k i v w d other = rw other refl

pub find-set_value :
    (k v : List ℕ) (d : Configdata) → same_text k k ≡ true → find k (set_value k v d) ≡ some v
unfolding find set_value
find-set_value k v [] h = rw h refl
find-set_value k v ((i, w) ∷ d) h = elim (Bool-cases (same_text k i)) [
  | inl same ↦ ap (find k) (set_value_head k i v w d same) ∙ find_head k i v d same
  | inr other ↦
      ap (find k) (set_value_tail k i v w d other)
      ∙ find_tail k i w (set_value k v d) other
      ∙ find-set_value k v d h
]

pub get_int-set_if_other :
    (test : Bool) (j k v : List ℕ) (n : ℤ) (d : Configdata)
    → same_text j k ≡ false
    → get_int j n (set_if test k v d) ≡ get_int j n d
unfolding get_int set_if
get_int-set_if_other true j k v n d h = rw (get_int, find-set_value_other j k v d h) refl
get_int-set_if_other false j k v n d h = refl

pub get_int-set_if :
    (test : Bool) (k v : List ℕ) (n : ℤ) (d : Configdata)
    → same_text k k ≡ true
    → get_int k n (set_if test k v d) ≡ (if test then int_of (strtol v) else get_int k n d)
unfolding get_int set_if
get_int-set_if true k v n d h = rw (get_int, find-set_value k v d h) refl
get_int-set_if false k v n d h = refl

get_int-none : (k : List ℕ) (n : ℤ) (d : Configdata) → find k d ≡ none → get_int k n d ≡ int_of n
unfolding get_int
get_int-none k n d e = rw (e, get_int) refl

pub get_int-some :
    (k v : List ℕ) (n : ℤ) (d : Configdata) → find k d ≡ some v → get_int k n d ≡ int_of (strtol v)
unfolding get_int
get_int-some k v n d e = rw (e, get_int) refl

-- A number that is replaced when it does not pass a test, as it is read afterwards.
replaced :
    (test : ℤ → Bool) (k : List ℕ) (r n n' : ℤ) (d : Configdata)
    → test r ≡ false
    → test (int_of n') ≡ false
    → test (if test (get_int k n d) then r else get_int k n' d) ≡ false
replaced test k r n n' d good default = go (find k d) refl
  where
    keep : (b : Bool) (v : ℤ) → (b ≡ false → test v ≡ false) → test (if b then r else v) ≡ false
    keep true v h = good
    keep false v h = h refl

    go :
        (o : Option (List ℕ))
        → o ≡ find k d
        → test (if test (get_int k n d) then r else get_int k n' d) ≡ false
    go none e =
        rw (get_int-none k n d (sym e), get_int-none k n' d (sym e))
          (keep (test (int_of n)) (int_of n') (λ h. default))
    go (some v) e =
        rw (get_int-some k v n d (sym e), get_int-some k v n' d (sym e))
          (keep (test (int_of (strtol v))) (int_of (strtol v)) (λ h. h))

-- The settings with the numbers that a network and its processes read, within their ranges.
pub record IsChecked (d : Configdata) : Type 0 where
  pub age_in_range :
      outside (pos 0) (pos max_age) (get_int (codes "max_packet_age") (pos 0) d) ≡ false
  pub threads_in_range :
      outside (pos 0) (pos 1000) (get_int (codes "nsca_threads_per_worker") (pos 0) d) ≡ false
  pub checks_positive :
      ltb_ℤ (get_int (codes "max_checks_per_connection") (pos 1) d) (pos 1) ≡ false
  pub files_not_negative :
      ltb_ℤ (get_int (codes "check_result_path_max_files") (pos 0) d) (pos 0) ≡ false
  pub method_known :
      outside (pos 0) (pos 26) (get_int (codes "decryption_method") (pos 0) d) ≡ false

pub get_int-check_workers :
    (enabled : Bool) (j : List ℕ) (n w : ℤ) (d : Configdata)
    → same_text j (codes "nsca_workers") ≡ false
    → get_int j n (check_workers enabled w d) ≡ get_int j n d
unfolding check_workers
get_int-check_workers true j n w d h =
    get_int-set_if_other (outside (pos 1) (pos 2000) w) j (codes "nsca_workers") (codes "4") n d h
get_int-check_workers false j n w d h =
    get_int-set_if_other (outside (pos 1) (pos 1) w) j (codes "nsca_workers") (codes "1") n d h

-- If the decryption method is one of 0 to 26, check_config succeeds, and of the settings it leaves
-- the numbers that are read afterwards are in their ranges, also where a name is missing.
pub check_config-IsChecked :
    (enabled : Bool) (d : Configdata)
    → outside (pos 0) (pos 26) (get_int (codes "decryption_method") (pos 0) d) ≡ false
    → (d' : Configdata) × (check_config enabled d ≡ some d') × IsChecked d'
unfolding check_config same_text strtol leading_digits is_space to_long
check_config-IsChecked enabled d known = (
  d_files,
  rw known refl,
  record {
    age_in_range =
        ap (λ v. outside (pos 0) (pos max_age) v)
          (get_int-set_if_other under (codes "max_packet_age") (codes "check_result_path_max_files")
              (codes "0") (pos 0) d_checks refl
            ∙ get_int-set_if_other low (codes "max_packet_age") (codes "max_checks_per_connection")
                (codes "1") (pos 0) d_threads refl
            ∙ get_int-set_if_other crowded (codes "max_packet_age")
                (codes "nsca_threads_per_worker") (codes "4") (pos 0) d_workers refl
            ∙ get_int-check_workers enabled (codes "max_packet_age") (pos 0) workers d_age refl
            ∙ get_int-set_if late (codes "max_packet_age") (codes "30") (pos 0) d refl)
        ∙ replaced (λ v. outside (pos 0) (pos max_age) v) (codes "max_packet_age")
            (int_of (strtol (codes "30"))) (pos 0) (pos 0) d refl refl;
    threads_in_range =
        ap (λ v. outside (pos 0) (pos 1000) v)
          (get_int-set_if_other under (codes "nsca_threads_per_worker")
              (codes "check_result_path_max_files") (codes "0") (pos 0) d_checks refl
            ∙ get_int-set_if_other low (codes "nsca_threads_per_worker")
                (codes "max_checks_per_connection") (codes "1") (pos 0) d_threads refl
            ∙ get_int-set_if crowded (codes "nsca_threads_per_worker") (codes "4") (pos 0) d_workers
                refl
            ∙ ap (λ v. if crowded then int_of (strtol (codes "4")) else v)
                (get_int-check_workers enabled (codes "nsca_threads_per_worker") (pos 0) workers
                    d_age refl
                  ∙ get_int-set_if_other late (codes "nsca_threads_per_worker")
                      (codes "max_packet_age") (codes "30") (pos 0) d refl))
        ∙ replaced (λ v. outside (pos 0) (pos 1000) v) (codes "nsca_threads_per_worker")
            (int_of (strtol (codes "4"))) (pos 4) (pos 0) d refl refl;
    checks_positive =
        ap (λ v. ltb_ℤ v (pos 1))
          (get_int-set_if_other under (codes "max_checks_per_connection")
              (codes "check_result_path_max_files") (codes "0") (pos 1) d_checks refl
            ∙ get_int-set_if low (codes "max_checks_per_connection") (codes "1") (pos 1) d_threads
                refl
            ∙ ap (λ v. if low then int_of (strtol (codes "1")) else v)
                (get_int-set_if_other crowded (codes "max_checks_per_connection")
                    (codes "nsca_threads_per_worker") (codes "4") (pos 1) d_workers refl
                  ∙ get_int-check_workers enabled (codes "max_checks_per_connection") (pos 1)
                      workers d_age refl
                  ∙ get_int-set_if_other late (codes "max_checks_per_connection")
                      (codes "max_packet_age") (codes "30") (pos 1) d refl))
        ∙ replaced (λ v. ltb_ℤ v (pos 1)) (codes "max_checks_per_connection")
            (int_of (strtol (codes "1"))) (pos 500) (pos 1) d refl refl;
    files_not_negative =
        ap (λ v. ltb_ℤ v (pos 0))
          (get_int-set_if under (codes "check_result_path_max_files") (codes "0") (pos 0) d_checks
              refl
            ∙ ap (λ v. if under then int_of (strtol (codes "0")) else v)
                (get_int-set_if_other low (codes "check_result_path_max_files")
                    (codes "max_checks_per_connection") (codes "1") (pos 0) d_threads refl
                  ∙ get_int-set_if_other crowded (codes "check_result_path_max_files")
                      (codes "nsca_threads_per_worker") (codes "4") (pos 0) d_workers refl
                  ∙ get_int-check_workers enabled (codes "check_result_path_max_files") (pos 0)
                      workers d_age refl
                  ∙ get_int-set_if_other late (codes "check_result_path_max_files")
                      (codes "max_packet_age") (codes "30") (pos 0) d refl))
        ∙ replaced (λ v. ltb_ℤ v (pos 0)) (codes "check_result_path_max_files")
            (int_of (strtol (codes "0"))) (pos 0) (pos 0) d refl refl;
    method_known =
        ap (λ v. outside (pos 0) (pos 26) v)
          (get_int-set_if_other under (codes "decryption_method")
              (codes "check_result_path_max_files") (codes "0") (pos 0) d_checks refl
            ∙ get_int-set_if_other low (codes "decryption_method")
                (codes "max_checks_per_connection") (codes "1") (pos 0) d_threads refl
            ∙ get_int-set_if_other crowded (codes "decryption_method")
                (codes "nsca_threads_per_worker") (codes "4") (pos 0) d_workers refl
            ∙ get_int-check_workers enabled (codes "decryption_method") (pos 0) workers d_age refl
            ∙ get_int-set_if_other late (codes "decryption_method") (codes "max_packet_age")
                (codes "30") (pos 0) d refl)
        ∙ known;
  },
)
  where
    late : Bool
    late = outside (pos 0) (pos max_age) (get_int (codes "max_packet_age") (pos 0) d)

    crowded : Bool
    crowded = outside (pos 0) (pos 1000) (get_int (codes "nsca_threads_per_worker") (pos 4) d)

    low : Bool
    low = ltb_ℤ (get_int (codes "max_checks_per_connection") (pos 500) d) (pos 1)

    under : Bool
    under = ltb_ℤ (get_int (codes "check_result_path_max_files") (pos 0) d) (pos 0)

    workers : ℤ
    workers = get_int (codes "nsca_workers") (pos 0) d

    d_age : Configdata
    d_age = set_if late (codes "max_packet_age") (codes "30") d

    d_workers : Configdata
    d_workers = check_workers enabled workers d_age

    d_threads : Configdata
    d_threads = set_if crowded (codes "nsca_threads_per_worker") (codes "4") d_workers

    d_checks : Configdata
    d_checks = set_if low (codes "max_checks_per_connection") (codes "1") d_threads

    d_files : Configdata
    d_files = set_if under (codes "check_result_path_max_files") (codes "0") d_checks
