-- ===== src/Config/Read.antt =====
-- read_config of config.cpp with its trims, from the bytes of the file. Opening the file is left out,
-- and so are the warnings.
pub mod Trim
pub mod Written
pub mod Lines
pub mod Known
use nsca_fast.Prelude.{
  ℕ, Bool, true, false, ◌||◌, List, [], ◌∷◌, Option, none, some, ◌==◌, ◌-◌, leb, if◌then◌else◌,
}
use nsca_fast.Prelude.Text.{codes, newline}
use nsca_fast.Config.{Configdata, same_text, set_value}

-- The characters that read_config trims.
abbrev pub is_sep : ℕ → Bool
is_sep c = c == 13 || c == 10 || c == 9 || c == 32

unfoldable pub ltrim : List ℕ → List ℕ
ltrim [] = []
ltrim (c ∷ cs) = let rest = ltrim cs in if is_sep c then rest else c ∷ cs

unfoldable pub rtrim : List ℕ → List ℕ
rtrim [] = []
rtrim (c ∷ cs) = elim (rtrim cs) [ [] ↦ if is_sep c then [] else c ∷ [] | x ∷ xs ↦ c ∷ x ∷ xs ]

unfoldable pub trim : List ℕ → List ℕ
unfolding ltrim rtrim
trim str = ltrim (rtrim str)

-- A buffer as a string: up to its NUL.
unfoldable pub c_string : List ℕ → List ℕ
c_string [] = []
c_string (c ∷ cs) = let rest = c_string cs in if c == 0 then [] else c ∷ rest

abbrev pub hash : ℕ
hash = 35

abbrev pub equals_sign : ℕ
equals_sign = 61

-- What is before the last #, if there is one.
unfoldable pub before_hash : List ℕ → Option (List ℕ)
before_hash [] = none
before_hash (c ∷ cs) = elim (before_hash cs) [
  | none ↦ if c == hash then some [] else none
  | some front ↦ some (c ∷ front)
]

unfoldable pub cut_comment : List ℕ → List ℕ
unfolding before_hash
cut_comment buf = elim (before_hash buf) [ none ↦ buf | some front ↦ front ]

-- The name before the first = and the value behind it.
unfoldable pub key_and_value : List ℕ → Option (List ℕ × List ℕ)
key_and_value [] = none
key_and_value (c ∷ cs) =
    let rest = key_and_value cs in
    if c == equals_sign
    then some ([], cs)
    else elim rest [ none ↦ none | some (key, value) ↦ some (c ∷ key, value) ]

-- set_allowed_config_keys.
abbrev pub valid_keywords : List (List ℕ)
valid_keywords =
    codes "check_result_path"
    ∷ codes "pid_file"
    ∷ codes "command_file"
    ∷ codes "nsca_user"
    ∷ codes "nsca_group"
    ∷ codes "server_address"
    ∷ codes "server_port"
    ∷ codes "debug"
    ∷ codes "max_packet_age"
    ∷ codes "password"
    ∷ codes "decryption_method"
    ∷ codes "nsca_workers"
    ∷ codes "nsca_threads_per_worker"
    ∷ codes "max_checks_per_connection"
    ∷ codes "max_packet_age_enabled"
    ∷ codes "decryption_mode"
    ∷ codes "dir_stats"
    ∷ codes "check_result_path_max_files"
    ∷ []

unfoldable pub contains : List ℕ → List (List ℕ) → Bool
unfolding same_text
contains key [] = false
contains key (k ∷ ks) = same_text key k || contains key ks

-- A name with a value: an empty value is ignored, and so is a name that is not known.
unfoldable pub read_setting : List ℕ → Configdata → Configdata
unfolding key_and_value contains set_value
read_setting buf d = elim (key_and_value buf) [
  | none ↦ d
  | some (key, []) ↦ d
  | some (key, c ∷ value) ↦ if contains key valid_keywords then set_value key (c ∷ value) d else d
]

unfoldable pub read_line : List ℕ → Configdata → Configdata
unfolding trim c_string cut_comment read_setting
read_line line d = elim (trim (c_string line)) [
  | [] ↦ d
  | c ∷ cs ↦ elim (cut_comment (c ∷ cs)) [ [] ↦ d | b ∷ bs ↦ read_setting (trim (b ∷ bs)) d ]
]

unfoldable pub read_lines : List (List ℕ) → Configdata → Configdata
unfolding read_line
read_lines [] d = d
read_lines (line ∷ lines) d = read_lines lines (read_line line d)

abbrev pub dbuffer_4k_size : ℕ
dbuffer_4k_size = 4096

unfoldable pub put_back : ℕ → List (List ℕ) → List (List ℕ)
put_back c [] = (c ∷ []) ∷ []
put_back c (line ∷ lines) = (c ∷ line) ∷ lines

-- What the calls `fgets(buf, DBUFFER_4K_SIZE, fp)` return one after another, where the one that has
-- begun may take `left` more bytes: each ends behind a newline, or with its buffer full.
unfoldable pub fgets_lines : ℕ → List ℕ → List (List ℕ)
unfolding put_back
fgets_lines left [] = []
fgets_lines left (c ∷ cs) =
    let ends = c == newline || leb left 1 in
    let rest = fgets_lines (if ends then dbuffer_4k_size - 1 else left - 1) cs in
    if ends then (c ∷ []) ∷ rest else put_back c rest

unfoldable pub read_config : List ℕ → Configdata → Configdata
unfolding fgets_lines read_lines
read_config file d = read_lines (fgets_lines (dbuffer_4k_size - 1) file) d
