-- ===== src/ResultPath/Write/Publish.antt =====
-- When a check result is seen, and what the return value of write_result says about it.
use nsca_fast.Prelude.{
  ℕ, ◌≤◌, ◌<◌, ◌≡◌, ◌≢◌, refl, inl, inr, ◌⊎◌, true, false, List, [], ◌∷◌, length, take, Bool-cases,
}
use nsca_fast.Prelude.Int.{ℤ, pos}
use nsca_fast.Packet.{Check}
use nsca_fast.ResultPath.Write.{
  Files, made, WriteAnswers, ok_name, unlink_file, publish, write_result,
}

-- All calls whose answers are looked at succeed.
pub record Succeeds (a : WriteAnswers) (name : List ℕ) : Type 0 where
  pub allocates : a.allocated ≡ true
  pub makes : a.mkstemp ≡ made name
  pub opens : a.fdopen ≡ true
  pub writes : a.fwrite ≡ true
  pub marks : a.fopen_ok ≡ true

-- What a write_result does to the files: it publishes the whole text or a part of it with its mark,
-- it leaves the files, or it leaves a file without a mark.
pub data Writes (text : List ℕ) (a : WriteAnswers) (files : Files) : ℤ × Files → Type 0 where
  publishes :
      (name : List ℕ)
      → Succeeds a name
      → length text ≤ a.stored
      → Writes text a files (pos 0, (ok_name name, []) ∷ (name, text) ∷ files)
  cuts :
      (name : List ℕ)
      → Succeeds a name
      → a.stored < length text
      → Writes text a files (pos 0, (ok_name name, []) ∷ (name, take a.stored text) ∷ files)
  leaves : (rc : ℤ) → ((name : List ℕ) → ¬ Succeeds a name) → Writes text a files (rc, files)
  strays :
      (name : List ℕ)
      → a.unlink ≡ false
      → ((name : List ℕ) → ¬ Succeeds a name)
      → Writes text a files (pos 0, (name, take a.stored text) ∷ files)
  leaks :
      (rc : ℤ) (name : List ℕ)
      → rc ≢ pos 0
      → ((name : List ℕ) → ¬ Succeeds a name)
      → Writes text a files (rc, (name, []) ∷ files)

-- If a buffer cannot be allocated, or fwrite or the opening of the mark fails and unlink succeeds,
-- the return value of write_result is 0 as for a success, and the files are as before.
pub write_result_lost :
    (a : WriteAnswers) (name : List ℕ) (now : ℕ) (cnow : List ℕ) (check : Check) (files : Files)
    → ((a.allocated ≡ false)
        ⊎ ((a.allocated ≡ true)
            × (a.mkstemp ≡ made name)
            × (a.fdopen ≡ true)
            × (a.unlink ≡ true)
            × ((a.fwrite ≡ false) ⊎ (a.fopen_ok ≡ false))))
    → write_result true a now cnow check files ≡ (pos 0, files)
unfolding write_result publish unlink_file
write_result_lost a name now cnow check files (inl missing) = rw missing refl
write_result_lost a name now cnow check files (inr (there, makes, opens, gone, inl short)) =
    rw (there, makes, opens, short, gone) refl
write_result_lost a name now cnow check files (inr (there, makes, opens, gone, inr unmarked)) =
    elim (Bool-cases a.fwrite) [
      | inl whole ↦ rw (there, makes, opens, whole, unmarked, gone) refl
      | inr short ↦ rw (there, makes, opens, short, gone) refl
    ]
