-- ===== src/Start/Numbers.antt =====
-- The numbers of workers and threads that a configuration stands for, after the options of main.cpp
-- and check_config of config.cpp.
use nsca_fast.Prelude.{
  ℕ, zero, suc, ◌≡◌, refl, ap, ◌∙◌, ◌⊎◌, inl, inr, true, false, List, Option, none, some,
  if◌then◌else◌, Bool-cases, arith,
}
use nsca_fast.Prelude.Int.{ℤ, pos, negsuc}
use nsca_fast.Prelude.Text.{codes}
use nsca_fast.Config.{Configdata, same_text, set_value, find, get_int, outside, check_config}
use nsca_fast.Config.Range.{find-set_value, find-set_value_other, get_int-some}
use nsca_fast.Config.Kept.{check_config_workers}
use nsca_fast.Start.{Options, print_int, is_zero_int, is_minus_one, override}
use nsca_fast.Start.Decimal.{strtol-print_int}
use nsca_fast.Start.Ranged.{IsRanged}

-- A number up to 1000 that is set and read.
pub get_int-set_value :
    (key : List ℕ) (v x : ℤ) (d : Configdata)
    → same_text key key ≡ true
    → outside (pos 0) (pos 1000) v ≡ false
    → get_int key x (set_value key (print_int v) d) ≡ v
get_int-set_value key (pos n) x d same near =
    get_int-some key (print_int (pos n)) x (set_value key (print_int (pos n)) d)
      (find-set_value key (print_int (pos n)) d same)
    ∙ strtol-print_int n (ground (arith, near))
get_int-set_value key (negsuc n) x d same near = absurd (ground (arith, near))

pub get_int-other :
    (j k v : List ℕ) (x : ℤ) (d : Configdata)
    → same_text j k ≡ false
    → get_int j x (set_value k v d) ≡ get_int j x d
unfolding get_int
get_int-other j k v x d other = rw (find-set_value_other j k v d other, get_int) refl

pub override_threads :
    (o : Options) (d : Configdata) (x : ℤ)
    → is_minus_one o.nsca_threads_per_worker ≡ false
    → outside (pos 0) (pos 1000) o.nsca_threads_per_worker ≡ false
    → get_int (codes "nsca_threads_per_worker") x (override o d) ≡ o.nsca_threads_per_worker
unfolding override same_text
override_threads o d x given near =
    rw (given, override)
      (get_int-set_value (codes "nsca_threads_per_worker") o.nsca_threads_per_worker x
        (if is_zero_int o.max_workers
          then d
          else set_value (codes "nsca_workers") (print_int o.max_workers) d)
        refl near)

pub override_workers :
    (o : Options) (d : Configdata) (x : ℤ)
    → is_zero_int o.max_workers ≡ false
    → outside (pos 0) (pos 1000) o.max_workers ≡ false
    → get_int (codes "nsca_workers") x (override o d) ≡ o.max_workers
unfolding override same_text
override_workers o d x given near = elim (Bool-cases (is_minus_one o.nsca_threads_per_worker)) [
  | inl absent ↦
      rw (given, override, absent)
        (get_int-set_value (codes "nsca_workers") o.max_workers x d refl near)
  | inr present ↦
      rw (given, override, present)
        (get_int-other (codes "nsca_workers") (codes "nsca_threads_per_worker")
            (print_int o.nsca_threads_per_worker) x
            (set_value (codes "nsca_workers") (print_int o.max_workers) d) refl
          ∙ get_int-set_value (codes "nsca_workers") o.max_workers x d refl near)
]

-- A number that is not given leaves the setting of the file.
pub override_threads_absent :
    (o : Options) (d : Configdata) (x : ℤ)
    → is_minus_one o.nsca_threads_per_worker ≡ true
    → get_int (codes "nsca_threads_per_worker") x (override o d)
      ≡ get_int (codes "nsca_threads_per_worker") x d
unfolding override same_text
override_threads_absent o d x absent = elim (Bool-cases (is_zero_int o.max_workers)) [
  | inl zero_given ↦ rw (absent, override, zero_given) refl
  | inr given ↦
      rw (absent, override, given)
        (get_int-other (codes "nsca_threads_per_worker") (codes "nsca_workers")
          (print_int o.max_workers) x d refl)
]

pub override_workers_absent :
    (o : Options) (d : Configdata) (x : ℤ)
    → is_zero_int o.max_workers ≡ true
    → get_int (codes "nsca_workers") x (override o d) ≡ get_int (codes "nsca_workers") x d
unfolding override same_text
override_workers_absent o d x absent = elim (Bool-cases (is_minus_one o.nsca_threads_per_worker)) [
  | inl none_given ↦ rw (absent, override, none_given) refl
  | inr given ↦
      rw (absent, override, given)
        (get_int-other (codes "nsca_workers") (codes "nsca_threads_per_worker")
          (print_int o.nsca_threads_per_worker) x d refl)
]

-- The number of workers that a configuration stands for: its own in its range, and else 4.
abbrev pub workers_of : Configdata → ℤ
workers_of d =
    let n = get_int (codes "nsca_workers") (pos 0) d in
    if outside (pos 1) (pos 2000) n then pos 4 else n

-- And that of threads.
abbrev pub threads_of : Configdata → ℤ
threads_of d =
    let n = get_int (codes "nsca_threads_per_worker") (pos 4) d in
    if outside (pos 0) (pos 1000) n then pos 4 else n

-- A number that is not 0 does not depend on the default.
pub get_int-default :
    (key : List ℕ) (x : ℤ) (d : Configdata)
    → outside (pos 1) (pos 2000) (get_int key (pos 0) d) ≡ false
    → get_int key x d ≡ get_int key (pos 0) d
unfolding get_int
get_int-default key x d inside = go (find key d) refl
  where
    go : (v : Option (List ℕ)) → find key d ≡ v → get_int key x d ≡ get_int key (pos 0) d
    go none e = absurd (cc (rw (e, get_int) at inside))
    go (some value) e = rw (e, get_int) refl

-- What check_config makes of the workers, whatever default they are read with.
pub checked_workers :
    (before d : Configdata) (x : ℤ)
    → check_config true before ≡ some d
    → get_int (codes "nsca_workers") x d ≡ workers_of before
checked_workers before d x checked =
    elim (Bool-cases (outside (pos 1) (pos 2000) (get_int (codes "nsca_workers") (pos 0) before))) [
      | inl far ↦ check_config_workers before d x checked ∙ rw far refl
      | inr inside ↦
          check_config_workers before d x checked
          ∙ rw inside (get_int-default (codes "nsca_workers") x before inside)
    ]

pub workers_of-range : (d : Configdata) → outside (pos 1) (pos 2000) (workers_of d) ≡ false
workers_of-range d =
    elim (Bool-cases (outside (pos 1) (pos 2000) (get_int (codes "nsca_workers") (pos 0) d))) [
      | inl far ↦ rw far refl
      | inr inside ↦ rw inside inside
    ]

-- The numbers as cases.
pub workers_cases :
    (v : ℤ)
    → outside (pos 0) (pos 100) v ≡ false
    → (is_zero_int v ≡ true)
      ⊎ ((is_zero_int v ≡ false)
          × (outside (pos 0) (pos 1000) v ≡ false)
          × (outside (pos 1) (pos 2000) v ≡ false))
workers_cases (pos zero) near = inl refl
workers_cases (pos (suc n)) near = inr (ground arith, ground (arith, near), ground (arith, near))
workers_cases (negsuc n) near = absurd (ground (arith, near))

pub workers_override :
    (o : Options) (file : Configdata)
    → IsRanged o
    → workers_of (override o file)
      ≡ (if is_zero_int o.max_workers then workers_of file else o.max_workers)
workers_override o file r = elim (workers_cases o.max_workers r.workers_ranged) [
  | inl absent ↦
      ap (λ n. if outside (pos 1) (pos 2000) n then pos 4 else n)
        (override_workers_absent o file (pos 0) absent)
      ∙ rw absent refl
  | inr (given, near, inside) ↦
      ap (λ n. if outside (pos 1) (pos 2000) n then pos 4 else n)
        (override_workers o file (pos 0) given near)
      ∙ rw (given, inside) refl
]

pub threads_given : (v : ℤ) → outside (pos 0) (pos 1000) v ≡ false → is_minus_one v ≡ false
threads_given (pos n) near = refl
threads_given (negsuc n) near = absurd (ground (arith, near))
