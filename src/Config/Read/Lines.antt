-- ===== src/Config/Read/Lines.antt =====
-- How fgets cuts the bytes of a configuration file into the lines that read_config of config.cpp sees.
use nsca_fast.Prelude.{
  ℕ, ◌+◌, ◌-◌, ◌<◌, ◌≡◌, refl, sym, ap, ◌∙◌, false, List, [], ◌∷◌, ◌++◌, All, length, leb, arith,
}
use nsca_fast.Prelude.Text.{newline}
use nsca_fast.Config.Read.{dbuffer_4k_size, put_back, fgets_lines}
use nsca_fast.Config.Read.Trim.{Without}

-- A line that fits in the buffer with its newline is returned whole.
fgets_lines-append :
    (line : List ℕ) (left : ℕ) (rest : List ℕ)
    → Without newline line
    → length line < left
    → fgets_lines left ((line ++ newline ∷ []) ++ rest)
      ≡ (line ++ newline ∷ []) ∷ fgets_lines (dbuffer_4k_size - 1) rest
unfolding fgets_lines put_back
fgets_lines-append [] left rest free fits = refl
fgets_lines-append (c ∷ cs) left rest free fits =
    let more : leb left 1 ≡ false = ground (arith, fits) in
    rw (free.0, more, fgets_lines-append cs (left - 1) rest free.1 (omega (arith, fits))) refl

abbrev pub concat_lines : List (List ℕ) → List ℕ
concat_lines [] = []
concat_lines (line ∷ lines) = line ++ concat_lines lines

-- A line that ends with its only newline and fits in the buffer.
abbrev pub IsLine : List ℕ → Type 0
IsLine line =
    (text : List ℕ) × (line ≡ text ++ newline ∷ [])
    × Without newline text
    × (length text + 1 < dbuffer_4k_size)

pub fgets_lines-concat :
    (lines : List (List ℕ))
    → All IsLine lines
    → fgets_lines (dbuffer_4k_size - 1) (concat_lines lines) ≡ lines
unfolding fgets_lines
fgets_lines-concat [] h = refl
fgets_lines-concat (line ∷ lines) ((text, same, free, fits), h) =
    ap (λ l. fgets_lines (dbuffer_4k_size - 1) (l ++ concat_lines lines)) same
    ∙ fgets_lines-append text (dbuffer_4k_size - 1) (concat_lines lines) free (omega (arith, fits))
    ∙ ap (λ ls. (text ++ newline ∷ []) ∷ ls) (fgets_lines-concat lines h)
    ∙ ap (λ l. l ∷ lines) (sym same)
