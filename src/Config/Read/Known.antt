-- ===== src/Config/Read/Known.antt =====
-- The settings after read_config, name by name.
use nsca_fast.Prelude.{
  ℕ, ◌+◌, ◌<◌, length, ◌≡◌, refl, sym, ap, subst, ◌∙◌, inl, inr, true, false, List, [], ◌∷◌, Option,
  none, some, All, if◌then◌else◌, Bool-cases, map,
}
use nsca_fast.Config.{Configdata, same_text, find, set_value}
use nsca_fast.Config.Range.{same_text_sound, find-set_value_other, find-set_value}
use nsca_fast.Config.Read.{
  trim, c_string, hash, cut_comment, key_and_value, valid_keywords, contains, read_setting,
  read_line, read_config, read_lines, dbuffer_4k_size,
}
use nsca_fast.Prelude.Text.{newline}
use nsca_fast.Config.Read.Lines.{IsLine, concat_lines, fgets_lines-concat}
use nsca_fast.Config.Read.Trim.{Without}
use nsca_fast.Config.Read.Written.{line_of, IsValue, line_of-IsLine, read_line-line_of}

-- A setting that a line of the buffer can hold: a known name, and a value without a # and without a
-- newline, which fit in it with the = and the newline.
abbrev pub IsSetting : List ℕ × List ℕ → Type 0
IsSetting (key, value) =
    (contains key valid_keywords ≡ true)
    × IsValue value
    × Without hash value
    × Without newline value
    × (length key + length value + 2 < dbuffer_4k_size)

abbrev pub line_of_setting : List ℕ × List ℕ → List ℕ
line_of_setting (key, value) = line_of key value

-- The last value that a list of settings has for a name, or else another one.
unfoldable pub last_value : List ℕ → List (List ℕ × List ℕ) → Option (List ℕ) → Option (List ℕ)
unfolding same_text
last_value name [] before = before
last_value name ((key, value) ∷ settings) before =
    last_value name settings (if same_text name key then some value else before)

find-set_value_if :
    (name key value : List ℕ) (d : Configdata)
    → find name (set_value key value d) ≡ (if same_text name key then some value else find name d)
find-set_value_if name key value d = elim (Bool-cases (same_text name key)) [
  | inl same ↦
      let e = same_text_sound name key same in
      rw same (
        subst (λ k. find name (set_value k value d) ≡ some value) e
          (find-set_value name value d (subst (λ k. same_text name k ≡ true) (sym e) same)))
  | inr other ↦ rw other (find-set_value_other name key value d other)
]

find-read_lines :
    (name : List ℕ) (settings : List (List ℕ × List ℕ)) (d : Configdata)
    → All IsSetting settings
    → find name (read_lines (map line_of_setting settings) d)
      ≡ last_value name settings (find name d)
unfolding read_lines last_value
find-read_lines name [] d good = refl
find-read_lines name ((key, value) ∷ settings) d good =
    ap (λ e. find name (read_lines (map line_of_setting settings) e))
      (read_line-line_of key value d good.0.0 good.0.1 good.0.2)
    ∙ find-read_lines name settings (set_value key value d) good.1
    ∙ ap (last_value name settings) (find-set_value_if name key value d)

settings-IsLine :
    (settings : List (List ℕ × List ℕ))
    → All IsSetting settings
    → All IsLine (map line_of_setting settings)
settings-IsLine [] good = tt
settings-IsLine ((key, value) ∷ settings) good =
    (line_of-IsLine key value good.0.0 good.0.3 good.0.4, settings-IsLine settings good.1)

-- Settings that are written as lines of a file, which fit in the buffer of read_config, are read
-- back: a name has the last value that they give it, and the one it had before if they give it none.
pub find-read_config :
    (name : List ℕ) (settings : List (List ℕ × List ℕ)) (d : Configdata)
    → All IsSetting settings
    → find name (read_config (concat_lines (map line_of_setting settings)) d)
      ≡ last_value name settings (find name d)
unfolding read_config
find-read_config name settings d good =
    ap (λ lines. find name (read_lines lines d))
      (fgets_lines-concat (map line_of_setting settings) (settings-IsLine settings good))
    ∙ find-read_lines name settings d good

find-read_setting :
    (name : List ℕ) (o : Option (List ℕ × List ℕ)) (buf : List ℕ) (d : Configdata)
    → contains name valid_keywords ≡ false
    → key_and_value buf ≡ o
    → find name (read_setting buf d) ≡ find name d
unfolding read_setting
find-read_setting name none buf d unknown e = rw (e, read_setting) refl
find-read_setting name (some (key, [])) buf d unknown e = rw (e, read_setting) refl
find-read_setting name (some (key, c ∷ value)) buf d unknown e =
    elim (Bool-cases (contains key valid_keywords)) [
      | inl known ↦
          rw (e, read_setting, known) (find-set_value_other name key (c ∷ value) d (other known))
      | inr not_known ↦ rw (e, read_setting, not_known) refl
    ]
  where
    other : contains key valid_keywords ≡ true → same_text name key ≡ false
    other known = elim (Bool-cases (same_text name key)) [
      | inr e ↦ e
      | inl same ↦
          absurd (
            cc
              (known, unknown, ap (λ k. contains k valid_keywords) (same_text_sound name key same)))
    ]

find-read_line :
    (name line : List ℕ) (d : Configdata)
    → contains name valid_keywords ≡ false
    → find name (read_line line d) ≡ find name d
unfolding read_line
find-read_line name line d unknown = go (trim (c_string line))
  where
    setting : (buf : List ℕ) → find name (read_setting buf d) ≡ find name d
    setting buf = find-read_setting name (key_and_value buf) buf d unknown refl

    cut :
        (xs : List ℕ)
        → find name (elim xs [ [] ↦ d | b ∷ bs ↦ read_setting (trim (b ∷ bs)) d ]) ≡ find name d
    cut [] = refl
    cut (b ∷ bs) = setting (trim (b ∷ bs))

    go :
        (xs : List ℕ)
        → find name (elim xs [
          | [] ↦ d
          | c ∷ cs ↦ elim (cut_comment (c ∷ cs)) [
            | [] ↦ d
            | b ∷ bs ↦ read_setting (trim (b ∷ bs)) d
          ]
        ])
          ≡ find name d
    go [] = refl
    go (c ∷ cs) = cut (cut_comment (c ∷ cs))

-- Whatever the lines are, a name that is not one of the known ones keeps its value.
read_lines_unknown :
    (name : List ℕ) (lines : List (List ℕ)) (d : Configdata)
    → contains name valid_keywords ≡ false
    → find name (read_lines lines d) ≡ find name d
unfolding read_lines
read_lines_unknown name [] d unknown = refl
read_lines_unknown name (line ∷ lines) d unknown =
    read_lines_unknown name lines (read_line line d) unknown ∙ find-read_line name line d unknown
