-- ===== src/Config/Read/Trim.antt =====
-- Lines that the trims of config.cpp and the cut of a comment leave alone.
use nsca_fast.Prelude.{
  ℕ, ◌≡◌, refl, Bool, true, false, List, [], ◌∷◌, ◌++◌, none, some, All, ◌==◌, if◌then◌else◌,
}
use nsca_fast.Config.Read.{
  is_sep, ltrim, rtrim, c_string, hash, equals_sign, before_hash, key_and_value,
}

-- None of these characters is in a list.
abbrev pub Without : ℕ → List ℕ → Type 0
Without c = All (λ x. (x == c) ≡ false)

-- A list that does not end with a character that is trimmed.
abbrev pub IsRtrimmed : List ℕ → Type 0
IsRtrimmed xs = rtrim xs ≡ xs

pub c_string_whole : (xs : List ℕ) → Without 0 xs → c_string xs ≡ xs
unfolding c_string
c_string_whole [] h = refl
c_string_whole (x ∷ xs) h = rw (h.0, c_string_whole xs h.1) refl

pub rtrim-append_sep : (xs : List ℕ) (c : ℕ) → is_sep c ≡ true → rtrim (xs ++ c ∷ []) ≡ rtrim xs
unfolding rtrim
rtrim-append_sep [] c h = rw h refl
rtrim-append_sep (x ∷ xs) c h = rw (rtrim-append_sep xs c h, rtrim) refl

pub rtrim-append :
    (xs ys : List ℕ) (y : ℕ) (zs : List ℕ) → rtrim ys ≡ y ∷ zs → rtrim (xs ++ ys) ≡ xs ++ y ∷ zs
unfolding rtrim
rtrim-append [] ys y zs h = h
rtrim-append (x ∷ []) ys y zs h = rw (h, rtrim) refl
rtrim-append (x ∷ x' ∷ xs) ys y zs h = rw (rtrim-append (x' ∷ xs) ys y zs h, rtrim) refl

pub ltrim_kept : (x : ℕ) (xs : List ℕ) → is_sep x ≡ false → ltrim (x ∷ xs) ≡ x ∷ xs
unfolding ltrim
ltrim_kept x xs h = rw h refl

pub rtrim_mark : (x : ℕ) (xs : List ℕ) → is_sep x ≡ false → rtrim (x ∷ xs) ≡ x ∷ rtrim xs
unfolding rtrim
rtrim_mark x xs h = rtrim_mark_go (rtrim xs) h
  where
    rtrim_mark_go :
        (rest : List ℕ)
        → is_sep x ≡ false
        → (elim rest [ [] ↦ (if is_sep x then [] else x ∷ []) | y ∷ ys ↦ x ∷ y ∷ ys ]) ≡ x ∷ rest
    rtrim_mark_go [] h = rw h refl
    rtrim_mark_go (y ∷ ys) h = refl

pub Without-rtrim : (c : ℕ) (xs : List ℕ) → Without c xs → Without c (rtrim xs)
unfolding rtrim
Without-rtrim c [] h = tt
Without-rtrim c (x ∷ xs) h = go (rtrim xs) (Without-rtrim c xs h.1) (is_sep x)
  where
    go :
        (rest : List ℕ)
        → Without c rest
        → (b : Bool)
        → Without c (elim rest [ [] ↦ (if b then [] else x ∷ []) | y ∷ ys ↦ x ∷ y ∷ ys ])
    go [] w true = tt
    go [] w false = (h.0, tt)
    go (y ∷ ys) w b = (h.0, w)

pub before_hash-none : (xs : List ℕ) → Without hash xs → before_hash xs ≡ none
unfolding before_hash
before_hash-none [] h = refl
before_hash-none (x ∷ xs) h = rw (before_hash-none xs h.1, before_hash, h.0) refl

pub before_hash-append :
    (xs ys : List ℕ) → Without hash ys → before_hash (xs ++ hash ∷ ys) ≡ some xs
unfolding before_hash
before_hash-append [] ys h = rw (before_hash-none ys h, before_hash) refl
before_hash-append (x ∷ xs) ys h = rw (before_hash-append xs ys h, before_hash) refl

pub key_and_value-append :
    (key value : List ℕ)
    → Without equals_sign key
    → key_and_value (key ++ equals_sign ∷ value) ≡ some (key, value)
unfolding key_and_value
key_and_value-append [] value h = refl
key_and_value-append (k ∷ key) value h =
    rw (h.0, key_and_value, key_and_value-append key value h.1) refl
