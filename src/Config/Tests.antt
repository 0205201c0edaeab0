-- ===== src/Config/Tests.antt =====
-- Lines of a configuration file, and the theorems on them.
use nsca_fast.Prelude.{ℕ, ◌≡◌, refl, List, [], ◌∷◌, some, All, map, arith}
use nsca_fast.Prelude.Int.{negsuc}
use nsca_fast.Prelude.Text.{codes}
use nsca_fast.Config.{same_text, find, strtol, leading_digits, is_space, to_long}
use nsca_fast.Config.Read.{contains, rtrim, read_config}
use nsca_fast.Config.Read.Lines.{concat_lines}
use nsca_fast.Config.Read.Known.{IsSetting, line_of_setting, last_value, find-read_config}

negative : strtol (codes "-5") ≡ negsuc 4
unfolding strtol leading_digits is_space to_long
negative = refl

abbrev written : List (List ℕ × List ℕ)
written =
    (codes "password", codes "a=b c")
    ∷ (codes "decryption_method", codes " 14")
    ∷ (codes "password", codes "x")
    ∷ []

written-IsSetting : All IsSetting written
unfolding contains same_text rtrim
written-IsSetting = (
  (
    refl,
    record {
      not_empty = λ e. cc e;
      no_blank = refl;
      no_nul = (refl, (refl, (refl, (refl, (refl, tt)))));
    },
    (refl, (refl, (refl, (refl, (refl, tt))))),
    (refl, (refl, (refl, (refl, (refl, tt))))),
    omega arith,
  ),
  (
    (
      refl,
      record { not_empty = λ e. cc e; no_blank = refl; no_nul = (refl, (refl, (refl, tt))) },
      (refl, (refl, (refl, tt))),
      (refl, (refl, (refl, tt))),
      omega arith,
    ),
    (
      (
        refl,
        record { not_empty = λ e. cc e; no_blank = refl; no_nul = (refl, tt) },
        (refl, tt),
        (refl, tt),
        omega arith,
      ),
      tt,
    ),
  ),
)

find-read_config_example :
    find (codes "password") (read_config (concat_lines (map line_of_setting written)) [])
    ≡ some (codes "x")
unfolding last_value same_text
find-read_config_example = find-read_config (codes "password") written [] written-IsSetting
