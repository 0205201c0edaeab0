-- ===== src/Config.antt =====
-- class config of config.cpp: the settings by their names, their values as numbers, and
-- check_config. Names and values are lists of bytes; the warnings are left out.
pub mod Range
pub mod Read
pub mod Kept
mod Tests
use nsca_fast.Prelude.{
  ℕ, suc, ◌+◌, ◌-◌, ◌*◌, ◌^◌, Bool, true, false, not, ◌&&◌, ◌||◌, List, [], ◌∷◌, Option, none, some,
  ltb, leb, ◌==◌, if◌then◌else◌,
}
use nsca_fast.Prelude.Int.{ℤ, pos, negsuc, ltb_ℤ, to_int}
use nsca_fast.Prelude.Text.{codes}

abbrev pub Configdata : Type 0
Configdata = List (List ℕ × List ℕ)

unfoldable pub same_text : List ℕ → List ℕ → Bool
same_text [] [] = true
same_text [] (y ∷ ys) = false
same_text (x ∷ xs) [] = false
same_text (x ∷ xs) (y ∷ ys) = (x == y) && same_text xs ys

-- `find` on the map.
unfoldable pub find : List ℕ → Configdata → Option (List ℕ)
unfolding same_text
find key [] = none
find key ((k, v) ∷ d) = let rest = find key d in if same_text key k then some v else rest

-- Set.
unfoldable pub set_value : List ℕ → List ℕ → Configdata → Configdata
unfolding same_text
set_value key value [] = (key, value) ∷ []
set_value key value ((k, v) ∷ d) =
    let rest = set_value key value d in if same_text key k then (k, value) ∷ d else (k, v) ∷ rest

-- Get.
unfoldable pub get_value : List ℕ → List ℕ → Configdata → List ℕ
unfolding find
get_value key default d = elim (find key d) [ none ↦ default | some value ↦ value ]

unfoldable pub is_space : ℕ → Bool
is_space c = c == 32 || (leb 9 c && leb c 13)

unfoldable pub leading_digits : ℕ → List ℕ → ℕ
leading_digits acc [] = acc
leading_digits acc (c ∷ cs) =
    let rest = leading_digits (acc * 10 + (c - 48)) cs in if leb 48 c && leb c 57 then rest else acc

-- A magnitude and its sign as a `long`, which strtol cuts at its ends.
unfoldable pub to_long : Bool → ℕ → ℤ
to_long negative n =
    if negative
    then (if n == 0 then pos 0 else if leb (2 ^ 63) n then negsuc (2 ^ 63 - 1) else negsuc (n - 1))
    else if leb (2 ^ 63) n
    then pos (2 ^ 63 - 1)
    else pos n

-- `strtol` in base 10.
unfoldable pub strtol : List ℕ → ℤ
unfolding is_space leading_digits to_long
strtol [] = pos 0
strtol (c ∷ cs) =
    let rest = strtol cs in
    if is_space c
    then rest
    else if c == 45
    then to_long true (leading_digits 0 cs)
    else if c == 43
    then to_long false (leading_digits 0 cs)
    else to_long false (leading_digits 0 (c ∷ cs))

-- A `long` cast to `int`.
abbrev pub int_of : ℤ → ℤ
int_of (pos n) = to_int n
int_of (negsuc n) = to_int (2 ^ 64 - suc n)

-- GetInt, cast to `int`.
unfoldable pub get_int : List ℕ → ℤ → Configdata → ℤ
unfolding find
get_int key default d = elim (find key d) [
  | none ↦ int_of default
  | some value ↦ int_of (strtol value)
]

abbrev pub outside : ℤ → ℤ → ℤ → Bool
outside low high n = ltb_ℤ n low || ltb_ℤ high n

-- `if (...) { this->Set(...); }`
unfoldable pub set_if : Bool → List ℕ → List ℕ → Configdata → Configdata
unfolding set_value
set_if test key value d = if test then set_value key value d else d

abbrev pub max_age : ℕ
max_age = 604800 * 52

-- The workers: without WORKERS_ENABLED there is one.
unfoldable pub check_workers : Bool → ℤ → Configdata → Configdata
unfolding set_if
check_workers workers_enabled n d =
    if workers_enabled
    then set_if (outside (pos 1) (pos 2000) n) (codes "nsca_workers") (codes "4") d
    else set_if (outside (pos 1) (pos 1) n) (codes "nsca_workers") (codes "1") d

-- check_config: all numbers are read before the first is replaced. `none` is the return value -1.
unfoldable pub check_config : Bool → Configdata → Option Configdata
unfolding get_int set_if check_workers
check_config workers_enabled d =
    let age = get_int (codes "max_packet_age") (pos 0) d in
    let method = get_int (codes "decryption_method") (pos 0) d in
    let workers = get_int (codes "nsca_workers") (pos 0) d in
    let threads = get_int (codes "nsca_threads_per_worker") (pos 4) d in
    let checks = get_int (codes "max_checks_per_connection") (pos 500) d in
    let files = get_int (codes "check_result_path_max_files") (pos 0) d in
    let aged = set_if (outside (pos 0) (pos max_age) age) (codes "max_packet_age") (codes "30") d in
    if outside (pos 0) (pos 26) method
    then none
    else some (
        set_if (ltb_ℤ files (pos 0)) (codes "check_result_path_max_files") (codes "0") (
          set_if (ltb_ℤ checks (pos 1)) (codes "max_checks_per_connection") (codes "1") (
            set_if (outside (pos 0) (pos 1000) threads) (codes "nsca_threads_per_worker")
              (codes "4") (check_workers workers_enabled workers aged))))
