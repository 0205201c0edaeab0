-- ===== src/Statistics/Apart.antt =====
-- The files of statistics of several workers: each has its own, and a save of one worker leaves those
-- of the others.
use nsca_fast.Prelude.{
  ℕ, zero, suc, ◌+◌, ◌-◌, ◌^◌, ◌<◌, ◌≡◌, ◌≢◌, refl, sym, ap, ◌∙◌, inl, inr, true, false, List, [],
  ◌∷◌, ◌++◌, Bool, none, some, if◌then◌else◌, length, length-append, take, take-length,
  append_cancel, ◌==◌, arith, Bool-cases,
}
use nsca_fast.Prelude.Text.{codes, decimal, read_digits, read_digits-decimal, length-decimal}
use nsca_fast.Config.{Configdata, find, set_value, get_value, same_text}
use nsca_fast.Config.Range.{same_text_sound, find-set_value, find-set_value_other}
use nsca_fast.Statistics.{
  filename_max, StatFiles, StatWriter, stat_writer, stat_path, unlink, cleanup, stat_writer_end,
  Saved, stats_text, save_stats,
}
use nsca_fast.Statistics.Text.{IsStored, IsReadBack, stats_text-IsReadBack}

same_text_refl : (xs : List ℕ) → same_text xs xs ≡ true
unfolding same_text
same_text_refl [] = refl
same_text_refl (x ∷ xs) =
    let same : x == x ≡ true = ground arith in rw (same, same_text_refl xs) refl

same_text_other : (xs ys : List ℕ) → xs ≢ ys → same_text xs ys ≡ false
same_text_other xs ys h = elim (Bool-cases (same_text xs ys)) [
  | inl same ↦ absurd (h (same_text_sound xs ys same))
  | inr other ↦ other
]

decimal_injective : (a b : ℕ) → a < 2 ^ 64 → b < 2 ^ 64 → decimal a ≡ decimal b → a ≡ b
decimal_injective a b ha hb e =
    sym (read_digits-decimal a ha) ∙ ap (read_digits 0) e ∙ read_digits-decimal b hb

-- The directory leaves room for the file's name.
abbrev pub HasRoom : List ℕ → Type 0
HasRoom dir = length dir + 36 < filename_max

stat_path_injective :
    (dir : List ℕ) (a b : ℕ)
    → HasRoom dir
    → a < 2 ^ 64
    → b < 2 ^ 64
    → stat_path dir a ≡ stat_path dir b
    → a ≡ b
unfolding stat_path
stat_path_injective dir a b room ha hb e =
    let whole = sym (uncut a) ∙ e ∙ uncut b in
    let names = (append_cancel dir (name a) dir (name b) refl whole).1 in
    let ends = (append_cancel prefix (tail a) prefix (tail b) refl names).1 in
    decimal_injective a b ha hb
      (append_cancel (decimal a) (codes ".txt") (decimal b) (codes ".txt") (same_length ends)
        ends).0
  where
    prefix : List ℕ
    prefix = codes "/nsca-stats-"

    tail : ℕ → List ℕ
    tail n = decimal n ++ codes ".txt"

    name : ℕ → List ℕ
    name n = prefix ++ tail n

    uncut : (n : ℕ) → take (filename_max - 1) (dir ++ name n) ≡ dir ++ name n
    uncut n = take-length (dir ++ name n) (filename_max - 1) (
        omega (
          arith,
          room,
          length-append dir (name n),
          length-append (decimal n) (codes ".txt"),
          length-decimal n,
        ))

    same_length : tail a ≡ tail b → length (decimal a) ≡ length (decimal b)
    same_length h = omega (
      arith,
      ap length h,
      length-append (decimal a) (codes ".txt"),
      length-append (decimal b) (codes ".txt"),
    )

take-nonempty : (n : ℕ) (xs : List ℕ) → 0 < n → 0 < length xs → 0 < length (take n xs)
unfolding take
take-nonempty zero xs positive some_there = absurd (omega arith)
take-nonempty (suc n) [] positive some_there = absurd (omega arith)
take-nonempty (suc n) (x ∷ xs) positive some_there = omega arith

-- A worker's file has a name.
stat_path-nonempty : (dir : List ℕ) (id : ℕ) → 0 < length (stat_path dir id)
unfolding stat_path
stat_path-nonempty dir id =
    let tail = decimal id ++ codes ".txt" in
    let name = codes "/nsca-stats-" ++ tail in
    take-nonempty (filename_max - 1) (dir ++ name) (omega arith)
      (omega (arith, length-append dir name, length-append (codes "/nsca-stats-") tail))

find-unlink_same : (path : List ℕ) (files : StatFiles) → find path (unlink path files) ≡ none
unfolding find unlink
find-unlink_same path [] = refl
find-unlink_same path ((k, text) ∷ files) = elim (Bool-cases (same_text path k)) [
  | inl same ↦ rw (same, unlink) (find-unlink_same path files)
  | inr other ↦ rw (other, unlink, other, find) (find-unlink_same path files)
]

find-unlink_other :
    (j path : List ℕ) (files : StatFiles)
    → same_text j path ≡ false
    → find j (unlink path files) ≡ find j files
unfolding find unlink
find-unlink_other j path [] h = refl
find-unlink_other j path ((k, text) ∷ files) h = elim (Bool-cases (same_text path k)) [
  | inl same ↦
      rw (same, unlink, ← same_text_sound path k same, h, find) (find-unlink_other j path files h)
  | inr other ↦ rw (other, unlink, find, find-unlink_other j path files h) refl
]

module _ (w : StatWriter) (named : 0 < length w.path_stat) where
  save_stats_named :
      (opens : Bool) (s : Saved) (files : StatFiles)
      → save_stats opens w s files
        ≡ (if opens then set_value w.path_stat (stats_text w s) files else files)
  unfolding save_stats
  save_stats_named opens s files = go w.path_stat refl
    where
      go :
          (path : List ℕ)
          → path ≡ w.path_stat
          → save_stats opens w s files
            ≡ (if opens then set_value w.path_stat (stats_text w s) files else files)
      go [] e = absurd (omega (arith, named, ap length e))
      go (c ∷ path) e = rw (← e) refl

  cleanup_named :
      (readable removable : Bool) (files : StatFiles)
      → stat_writer_end readable removable w files
        ≡ (if readable then if removable then unlink w.path_stat files else files else files)
  unfolding stat_writer_end cleanup
  cleanup_named readable removable files = go w.path_stat refl
    where
      go :
          (path : List ℕ)
          → path ≡ w.path_stat
          → stat_writer_end readable removable w files
            ≡ (if readable then if removable then unlink w.path_stat files else files else files)
      go [] e = absurd (omega (arith, named, ap length e))
      go (c ∷ path) e = rw (← e) refl

-- A worker's stat_writer.
stat_writer-nonempty :
    (d : Configdata) (id started pid : ℕ) → 0 < length (stat_writer d id started pid).path_stat
unfolding stat_writer
stat_writer-nonempty d id started pid =
    stat_path-nonempty (get_value (codes "dir_stats") (codes "/tmp") d) id

-- When the file can be opened, what save_stats leaves at the worker's path is a text in which a
-- reader finds at each of the eight keys the number that was saved, if the numbers have 64 bits.
pub save_stats-IsReadBack :
    (d : Configdata) (id started pid : ℕ) (s : Saved) (files : StatFiles)
    → IsStored (stat_writer d id started pid) s
    → (text : List ℕ) × (find
          (stat_writer d id started pid).path_stat
          (save_stats true (stat_writer d id started pid) s files)
        ≡ some text)
      × IsReadBack (stat_writer d id started pid) s text
save_stats-IsReadBack d id started pid s files stored =
    let w = stat_writer d id started pid in
    (
      stats_text w s,
      ap (find w.path_stat)
            (save_stats_named w (stat_writer-nonempty d id started pid) true s files)
          ∙ find-set_value w.path_stat (stats_text w s) files (same_text_refl w.path_stat),
      stats_text-IsReadBack w s stored,
    )

paths_apart :
    (d : Configdata) (a b started started' pid pid' : ℕ)
    → HasRoom (get_value (codes "dir_stats") (codes "/tmp") d)
    → a < 2 ^ 64
    → b < 2 ^ 64
    → a ≢ b
    → same_text (stat_writer d b started' pid').path_stat (stat_writer d a started pid).path_stat
      ≡ false
unfolding stat_writer
paths_apart d a b started started' pid pid' room ha hb other =
    let dir = get_value (codes "dir_stats") (codes "/tmp") d in
    same_text_other (stat_path dir b) (stat_path dir a)
      (λ e. other (sym (stat_path_injective dir b a room hb ha e)))

-- Workers with different numbers, in a directory whose name leaves room, have different files:
-- whatever the calls of the system answer, one worker's save_stats and the end of its stat_writer
-- leave another one's file as it is; and if its calls succeed, its end removes its own.
pub save_stats_apart :
    (d : Configdata) (a b started started' pid pid' : ℕ) (opens readable removable : Bool)
    (s : Saved) (files : StatFiles)
    → HasRoom (get_value (codes "dir_stats") (codes "/tmp") d)
    → a < 2 ^ 64
    → b < 2 ^ 64
    → a ≢ b
    → (find
          (stat_writer d b started' pid').path_stat
          (save_stats opens (stat_writer d a started pid) s files)
        ≡ find (stat_writer d b started' pid').path_stat files)
      × (find
            (stat_writer d b started' pid').path_stat
            (stat_writer_end readable removable (stat_writer d a started pid) files)
          ≡ find (stat_writer d b started' pid').path_stat files)
      × (find
            (stat_writer d a started pid).path_stat
            (stat_writer_end true true (stat_writer d a started pid) files)
          ≡ none)
save_stats_apart d a b started started' pid pid' opens readable removable s files room ha hb other =
    let w = stat_writer d a started pid in
    let w' = stat_writer d b started' pid' in
    let named = stat_writer-nonempty d a started pid in
    let apart = paths_apart d a b started started' pid pid' room ha hb other in
    (
      ap (find w'.path_stat) (save_stats_named w named opens s files) ∙ saved apart opens,
      ap (find w'.path_stat) (cleanup_named w named readable removable files)
          ∙ ended apart readable removable,
      ap (find w.path_stat) (cleanup_named w named true true files)
          ∙ find-unlink_same w.path_stat files,
    )
  where
    p : List ℕ
    p = (stat_writer d a started pid).path_stat

    p' : List ℕ
    p' = (stat_writer d b started' pid').path_stat

    text : List ℕ
    text = stats_text (stat_writer d a started pid) s

    saved :
        same_text p' p ≡ false
        → (opens : Bool) → find p' (if opens then set_value p text files else files) ≡ find p' files
    saved apart true = find-set_value_other p' p text files apart
    saved apart false = refl

    ended :
        same_text p' p ≡ false
        → (readable removable : Bool)
        → find p' (if readable then if removable then unlink p files else files else files)
          ≡ find p' files
    ended apart false removable = refl
    ended apart true false = refl
    ended apart true true = find-unlink_other p' p files apart
