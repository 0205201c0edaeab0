-- ===== src/Statistics/Text.antt =====
-- What a reader of a file of statistics finds in it: the numbers, each at its key.
use nsca_fast.Prelude.{
  ℕ, zero, suc, ◌+◌, ◌/◌, ◌%◌, ◌^◌, ◌<◌, ◌≡◌, refl, sym, ap, ◌∙◌, inl, inr, Bool, true, false, ◌==◌,
  List, [], ◌∷◌, ◌++◌, Option, none, some, map, All, if◌then◌else◌, ltb, arith, Bool-cases,
}
use mathlib.Core.List.{append_assoc}
use nsca_fast.Prelude.Text.{
  codes, newline, digits, decimal, read_digits, read_digits-decimal, digits_small, digits_large,
}
use nsca_fast.Statistics.{StatWriter, Saved, stat_line, stat_fields, print_fields, stats_text}

-- A text's lines, without their newlines.
unfoldable pub lines_of : List ℕ → List (List ℕ)
lines_of [] = []
lines_of (c ∷ cs) =
    let rest = lines_of cs in
    if c == newline
    then [] ∷ rest
    else elim rest [ [] ↦ (c ∷ []) ∷ [] | line ∷ lines ↦ (c ∷ line) ∷ lines ]

-- What is behind a key.
unfoldable pub behind_key : List ℕ → List ℕ → Option (List ℕ)
behind_key [] line = some line
behind_key (k ∷ key) [] = none
behind_key (k ∷ key) (c ∷ line) = let rest = behind_key key line in if k == c then rest else none

-- The number at a key, in the first line that begins with it.
unfoldable pub value_at : List ℕ → List (List ℕ) → Option ℕ
unfolding behind_key
value_at key [] = none
value_at key (line ∷ lines) =
    let rest = value_at key lines in
    elim (behind_key key line) [ some number ↦ some (read_digits 0 number) | none ↦ rest ]

-- A text without a newline.
unfoldable pub is_one_line : List ℕ → Bool
is_one_line [] = true
is_one_line (c ∷ cs) = let rest = is_one_line cs in if c == newline then false else rest

one_line_append :
    (xs ys : List ℕ) → is_one_line xs ≡ true → is_one_line ys ≡ true → is_one_line (xs ++ ys) ≡ true
unfolding is_one_line
one_line_append [] ys h h' = h'
one_line_append (x ∷ xs) ys h h' = elim (Bool-cases (x == newline)) [
  | inl ends ↦ absurd (cc (rw ends at h))
  | inr goes ↦ rw (goes, one_line_append xs ys (rw goes at h) h') refl
]

digit_one_line : (d : ℕ) → is_one_line ((48 + d) ∷ []) ≡ true
unfolding is_one_line
digit_one_line d = ground arith

one_line_digits : (fuel n : ℕ) → is_one_line (digits fuel n) ≡ true
unfolding digits is_one_line
one_line_digits zero n = refl
one_line_digits (suc fuel) n = elim (Bool-cases (ltb n 10)) [
  | inl small ↦ ap is_one_line (digits_small fuel n small) ∙ digit_one_line n
  | inr large ↦
      ap is_one_line (digits_large fuel n large)
      ∙ one_line_append (digits fuel (n / 10)) ((48 + n % 10) ∷ []) (one_line_digits fuel (n / 10))
          (digit_one_line (n % 10))
]

lines_of-line :
    (line rest : List ℕ)
    → is_one_line line ≡ true
    → lines_of (line ++ newline ∷ rest) ≡ line ∷ lines_of rest
unfolding lines_of is_one_line
lines_of-line [] rest h = refl
lines_of-line (c ∷ line) rest h = elim (Bool-cases (c == newline)) [
  | inl ends ↦ absurd (cc (rw ends at h))
  | inr goes ↦ rw (goes, lines_of-line line rest (rw goes at h), lines_of) refl
]

lines_of-stat_line :
    (key rest : List ℕ) (n : ℕ)
    → is_one_line key ≡ true
    → lines_of (stat_line key n ++ rest) ≡ (key ++ decimal n) ∷ lines_of rest
unfolding stat_line decimal
lines_of-stat_line key rest n h =
    ap lines_of (
      append_assoc key (decimal n ++ newline ∷ []) rest
      ∙ ap (◌++◌ key) (append_assoc (decimal n) (newline ∷ []) rest)
      ∙ sym (append_assoc key (decimal n) (newline ∷ rest)))
    ∙ lines_of-line (key ++ decimal n) rest
        (one_line_append key (decimal n) h (one_line_digits 20 n))

field_line : List ℕ × ℕ → List ℕ
field_line (key, n) = key ++ decimal n

lines_of-print_fields :
    (fields : List (List ℕ × ℕ))
    → All (λ f. is_one_line f.0 ≡ true) fields
    → lines_of (print_fields fields) ≡ map field_line fields
unfolding print_fields lines_of field_line
lines_of-print_fields [] h = refl
lines_of-print_fields ((key, n) ∷ fields) h =
    lines_of-stat_line key (print_fields fields) n h.0
    ∙ ap (◌∷◌ (key ++ decimal n)) (lines_of-print_fields fields h.1)

lines_of-stats_text :
    (w : StatWriter) (s : Saved)
    → lines_of (stats_text w s) ≡ codes "[nsca stats]" ∷ map field_line (stat_fields w s)
unfolding stats_text stat_fields is_one_line
lines_of-stats_text w s =
    lines_of-line (codes "[nsca stats]") _ refl
    ∙ ap (◌∷◌ (codes "[nsca stats]")) (
        lines_of-print_fields (stat_fields w s)
          (refl, (refl, (refl, (refl, (refl, (refl, (refl, (refl, tt)))))))))

-- The numbers have 64 bits.
pub record IsStored (w : StatWriter) (s : Saved) : Type 0 where
  pub pid_fits : w.mypid < 2 ^ 64
  pub started_fits : w.started < 2 ^ 64
  pub now_fits : s.now < 2 ^ 64
  pub cps_fits : s.cps < 2 ^ 64
  pub connections_fits : s.connections < 2 ^ 64
  pub counter_fits : s.counter < 2 ^ 64
  pub success_fits : s.report_success < 2 ^ 64
  pub failed_fits : s.report_failed < 2 ^ 64

-- The numbers that a reader of a text finds are those that were saved.
pub record IsReadBack (w : StatWriter) (s : Saved) (text : List ℕ) : Type 0 where
  pub pid_read : value_at (codes "pid=") (lines_of text) ≡ some w.mypid
  pub started_read : value_at (codes "process_started_at=") (lines_of text) ≡ some w.started
  pub now_read : value_at (codes "file_created_at=") (lines_of text) ≡ some s.now
  pub cps_read : value_at (codes "connections_per_sec=") (lines_of text) ≡ some s.cps
  pub connections_read :
      value_at (codes "connections_current=") (lines_of text) ≡ some s.connections
  pub counter_read : value_at (codes "connections_counter=") (lines_of text) ≡ some s.counter
  pub success_read : value_at (codes "report_success=") (lines_of text) ≡ some s.report_success
  pub failed_read : value_at (codes "report_failed=") (lines_of text) ≡ some s.report_failed

pub stats_text-IsReadBack :
    (w : StatWriter) (s : Saved) → IsStored w s → IsReadBack w s (stats_text w s)
unfolding value_at stat_fields field_line
stats_text-IsReadBack w s h = record {
  pid_read = read (codes "pid=") w.mypid h.pid_fits refl;
  started_read = read (codes "process_started_at=") w.started h.started_fits refl;
  now_read = read (codes "file_created_at=") s.now h.now_fits refl;
  cps_read = read (codes "connections_per_sec=") s.cps h.cps_fits refl;
  connections_read = read (codes "connections_current=") s.connections h.connections_fits refl;
  counter_read = read (codes "connections_counter=") s.counter h.counter_fits refl;
  success_read = read (codes "report_success=") s.report_success h.success_fits refl;
  failed_read = read (codes "report_failed=") s.report_failed h.failed_fits refl;
}
  where
    read :
        (key : List ℕ) (n : ℕ)
        → n < 2 ^ 64
        → value_at key (codes "[nsca stats]" ∷ map field_line (stat_fields w s))
          ≡ some (read_digits 0 (decimal n))
        → value_at key (lines_of (stats_text w s)) ≡ some n
    read key n fits e =
        ap (value_at key) (lines_of-stats_text w s) ∙ e ∙ ap some (read_digits-decimal n fits)
