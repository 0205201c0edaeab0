-- ===== src/Config/Read/Written.antt =====
-- What read_config reads of settings that were written as lines.
use nsca_fast.Prelude.{
  ℕ, ◌+◌, ◌<◌, ◌≡◌, ◌≢◌, length, length-append, refl, ap, ◌∙◌, inl, inr, Bool, true, false, ◌&&◌,
  ◌||◌, List, [], ◌∷◌, ◌++◌, All-append, leb, ◌==◌, Bool-cases, arith,
}
use nsca_fast.Prelude.Text.{newline}
use nsca_fast.Config.{Configdata, same_text, set_value}
use nsca_fast.Config.Range.{same_text_sound}
use nsca_fast.Config.Read.{
  is_sep, ltrim, rtrim, trim, c_string, hash, equals_sign, cut_comment, valid_keywords, contains,
  read_setting, read_line, dbuffer_4k_size,
}
use nsca_fast.Config.Read.Lines.{IsLine}
use nsca_fast.Config.Read.Trim.{
  Without, IsRtrimmed, Without-rtrim, c_string_whole, rtrim-append_sep, rtrim-append, ltrim_kept,
  rtrim_mark, before_hash-none, before_hash-append, key_and_value-append,
}

equal : (a b : ℕ) → (a == b) ≡ true → a ≡ b
equal a b h = ground arith

-- A character of a name: a small letter or an underscore.
abbrev name_char : ℕ → Bool
name_char c = (leb 97 c && leb c 122) || c == 95

abbrev name_rest : List ℕ → Bool
name_rest [] = true
name_rest (c ∷ cs) = name_char c && name_rest cs

abbrev is_name : List ℕ → Bool
is_name [] = false
is_name (c ∷ cs) = name_rest (c ∷ cs)

abbrev all_names : List (List ℕ) → Bool
all_names [] = true
all_names (k ∷ ks) = is_name k && all_names ks

and_left : (a b : Bool) → (a && b) ≡ true → a ≡ true
and_left a b h = ground arith

and_right : (a b : Bool) → (a && b) ≡ true → b ≡ true
and_right a b h = ground arith

contains_name :
    (key : List ℕ) (ks : List (List ℕ))
    → contains key ks ≡ true
    → all_names ks ≡ true
    → is_name key ≡ true
unfolding contains
contains_name key [] h all = absurd (cc h)
contains_name key (k ∷ ks) h all = elim (Bool-cases (same_text key k)) [
  | inl same ↦ rw (same_text_sound key k same) (and_left (is_name k) (all_names ks) all)
  | inr other ↦ contains_name key ks (rw other at h) (and_right (is_name k) (all_names ks) all)
]

name_rest-Without : (c : ℕ) (cs : List ℕ) → name_char c ≡ false → name_rest cs ≡ true → Without c cs
name_rest-Without c [] other h = tt
name_rest-Without c (x ∷ xs) other h = (
  different (and_left (name_char x) (name_rest xs) h),
  name_rest-Without c xs other (and_right (name_char x) (name_rest xs) h),
)
  where
    different : name_char x ≡ true → (x == c) ≡ false
    different named = elim (Bool-cases (x == c)) [
      | inr e ↦ e
      | inl e ↦ absurd (cc (named, other, ap name_char (equal x c e)))
    ]

name_char-is_sep : (c : ℕ) → name_char c ≡ true → is_sep c ≡ false
name_char-is_sep c h = ground arith

read_line_text :
    (line : List ℕ) (c : ℕ) (cs : List ℕ) (b : ℕ) (bs : List ℕ) (d : Configdata)
    → trim (c_string line) ≡ c ∷ cs
    → cut_comment (c ∷ cs) ≡ b ∷ bs
    → trim (b ∷ bs) ≡ b ∷ bs
    → read_line line d ≡ read_setting (b ∷ bs) d
unfolding read_line
read_line_text line c cs b bs d trimmed cut again = rw (trimmed, read_line, cut, again) refl

-- A name, =, and a text that does not end with a blank, before a line's end or a comment.
module _ (k : ℕ) (key value : List ℕ) (named : is_name (k ∷ key) ≡ true) where
  abbrev written : List ℕ
  written = key ++ equals_sign ∷ value

  key-Without : (c : ℕ) → name_char c ≡ false → Without c (k ∷ key)
  key-Without c other = name_rest-Without c (k ∷ key) other named

  written-Without :
      (c : ℕ)
      → name_char c ≡ false
      → (equals_sign == c) ≡ false
      → Without c value
      → Without c (k ∷ written)
  written-Without c other sign free =
      All-append (λ x. (x == c) ≡ false) (k ∷ key) (equals_sign ∷ value) (key-Without c other)
        (sign, free)

  starts : is_sep k ≡ false
  starts = name_char-is_sep k (and_left (name_char k) (name_rest key) named)

  rtrim-written : IsRtrimmed value → rtrim (k ∷ written) ≡ k ∷ written
  rtrim-written trimmed =
      rtrim-append (k ∷ key) (equals_sign ∷ value) equals_sign value
        (rtrim_mark equals_sign value refl ∙ ap (◌∷◌ equals_sign) trimmed)

  trim-written : IsRtrimmed value → trim (k ∷ written) ≡ k ∷ written
  unfolding trim
  trim-written trimmed = ap ltrim (rtrim-written trimmed) ∙ ltrim_kept k written starts

  read_setting-written :
      (d : Configdata) (v : ℕ) (vs : List ℕ)
      → contains (k ∷ key) valid_keywords ≡ true
      → value ≡ v ∷ vs
      → read_setting (k ∷ written) d ≡ set_value (k ∷ key) value d
  unfolding read_setting
  read_setting-written d v vs known e =
      rw
        (
          key_and_value-append (k ∷ key) value (key-Without equals_sign refl),
          read_setting,
          e,
          known,
        )
        refl

  -- The line's end is trimmed.
  trim-line :
      IsRtrimmed value
      → Without 0 value
      → trim (c_string ((k ∷ written) ++ newline ∷ [])) ≡ k ∷ written
  unfolding trim
  trim-line trimmed free =
      ap (λ s. ltrim (rtrim s))
        (c_string_whole ((k ∷ written) ++ newline ∷ []) (
          All-append (λ x. (x == 0) ≡ false) (k ∷ written) (newline ∷ [])
            (written-Without 0 refl refl free) (refl, tt)))
      ∙ ap ltrim (rtrim-append_sep (k ∷ written) newline refl ∙ rtrim-written trimmed)
      ∙ ltrim_kept k written starts

  cut_comment-written : Without hash value → cut_comment (k ∷ written) ≡ k ∷ written
  unfolding cut_comment
  cut_comment-written free =
      rw (before_hash-none (k ∷ written) (written-Without hash refl refl free), cut_comment) refl

  -- And so is what follows a comment.
  trim-comment :
      (comment : List ℕ)
      → Without 0 value
      → Without 0 comment
      → trim (c_string ((k ∷ written) ++ hash ∷ (comment ++ newline ∷ [])))
        ≡ k ∷ (written ++ hash ∷ rtrim comment)
  unfolding trim
  trim-comment comment free free' =
      ap (λ s. ltrim (rtrim s))
        (c_string_whole ((k ∷ written) ++ hash ∷ (comment ++ newline ∷ [])) (
          All-append (λ x. (x == 0) ≡ false) (k ∷ written) (hash ∷ (comment ++ newline ∷ []))
            (written-Without 0 refl refl free)
            (refl, All-append (λ x. (x == 0) ≡ false) comment (newline ∷ []) free' (refl, tt))))
      ∙ ap ltrim (
          rtrim-append (k ∷ written) (hash ∷ (comment ++ newline ∷ [])) hash (rtrim comment) (
            rtrim_mark hash (comment ++ newline ∷ []) refl
            ∙ ap (◌∷◌ hash) (rtrim-append_sep comment newline refl)))
      ∙ ltrim_kept k (written ++ hash ∷ rtrim comment) starts

  cut_comment-comment :
      (comment : List ℕ)
      → Without hash comment
      → cut_comment (k ∷ (written ++ hash ∷ rtrim comment)) ≡ k ∷ written
  unfolding cut_comment
  cut_comment-comment comment free =
      rw
        (
          before_hash-append (k ∷ written) (rtrim comment) (Without-rtrim hash comment free),
          cut_comment,
        )
        refl

-- The line of a setting, and that of a setting with a comment behind it.
abbrev pub line_of : List ℕ → List ℕ → List ℕ
line_of key value = (key ++ equals_sign ∷ value) ++ newline ∷ []

abbrev pub commented : List ℕ → List ℕ → List ℕ → List ℕ
commented key value comment = (key ++ equals_sign ∷ value) ++ hash ∷ (comment ++ newline ∷ [])

-- A value that a line can hold: not empty, without a NUL, and without a blank at its end.
pub record IsValue (value : List ℕ) : Type 0 where
  pub not_empty : value ≢ []
  pub no_blank : IsRtrimmed value
  pub no_nul : Without 0 value

-- The line of a setting is one line for fgets, if it fits in the buffer.
pub line_of-IsLine :
    (key value : List ℕ)
    → contains key valid_keywords ≡ true
    → Without newline value
    → length key + length value + 2 < dbuffer_4k_size
    → IsLine (line_of key value)
line_of-IsLine [] value known free fits = absurd (cc (contains_name [] valid_keywords known refl))
line_of-IsLine (k ∷ key) value known free fits = (
  k ∷ (key ++ equals_sign ∷ value),
  refl,
  written-Without k key value (contains_name (k ∷ key) valid_keywords known refl) newline refl refl
      free,
  omega (arith, fits, length-append key (equals_sign ∷ value)),
)

pub read_line-line_of :
    (key value : List ℕ) (d : Configdata)
    → contains key valid_keywords ≡ true
    → IsValue value
    → Without hash value
    → read_line (line_of key value) d ≡ set_value key value d
read_line-line_of [] value d known good free =
    absurd (cc (contains_name [] valid_keywords known refl))
read_line-line_of key [] d known good free = absurd (good.not_empty refl)
read_line-line_of (k ∷ key) (v ∷ vs) d known good free =
    let named = contains_name (k ∷ key) valid_keywords known refl in
    read_line_text (line_of (k ∷ key) (v ∷ vs)) k (key ++ equals_sign ∷ v ∷ vs) k
      (key ++ equals_sign ∷ v ∷ vs) d (trim-line k key (v ∷ vs) named good.no_blank good.no_nul)
      (cut_comment-written k key (v ∷ vs) named free)
      (trim-written k key (v ∷ vs) named good.no_blank)
    ∙ read_setting-written k key (v ∷ vs) named d v vs known refl

-- A line with a comment: the value is all that is before the last #, also where it has one itself.
pub read_line-commented :
    (key value comment : List ℕ) (d : Configdata)
    → contains key valid_keywords ≡ true
    → IsValue value
    → Without 0 comment
    → Without hash comment
    → read_line (commented key value comment) d ≡ set_value key value d
read_line-commented [] value comment d known good nul free =
    absurd (cc (contains_name [] valid_keywords known refl))
read_line-commented key [] comment d known good nul free = absurd (good.not_empty refl)
read_line-commented (k ∷ key) (v ∷ vs) comment d known good nul free =
    let named = contains_name (k ∷ key) valid_keywords known refl in
    read_line_text (commented (k ∷ key) (v ∷ vs) comment) k
      ((key ++ equals_sign ∷ v ∷ vs) ++ hash ∷ rtrim comment) k (key ++ equals_sign ∷ v ∷ vs) d
      (trim-comment k key (v ∷ vs) named comment good.no_nul nul)
      (cut_comment-comment k key (v ∷ vs) named comment free)
      (trim-written k key (v ∷ vs) named good.no_blank)
    ∙ read_setting-written k key (v ∷ vs) named d v vs known refl
