-- ===== src/ResultPath/Writer.antt =====
-- write_result_path of result_path_writer.cpp, the writer of a check result without a gate. The
-- answers of the system's calls are those of Write; the text is appended piece by piece.
use nsca_fast.Prelude.{
  ℕ, ◌-◌, ◌≡◌, refl, inl, inr, true, not, List, [], ◌∷◌, ◌++◌, take, if◌then◌else◌, Bool-cases,
}
use nsca_fast.Prelude.Int.{ℤ, pos, negsuc}
use nsca_fast.Prelude.Text.{codes, newline, decimal}
use nsca_fast.Packet.{Check}
use nsca_fast.ResultPath.Write.{
  tmpbuf_size_max, Files, Made, made_none, made_zero, made, WriteAnswers, ok_name, printed,
  result_text, text_file, unlink_file, publish, write_result,
}

-- `snprintf(tmpbuf, tmpbuf_size_max, ...); fbuf.append(tmpbuf);`, one after another.
unfoldable pub append_pieces : List (List ℕ) → List ℕ
unfolding take
append_pieces [] = []
append_pieces (piece ∷ pieces) = take (tmpbuf_size_max - 1) piece ++ append_pieces pieces

-- The name of the kind of check that `service.length()` tells.
unfoldable pub kind_name : List ℕ → List ℕ
kind_name [] = codes "Host"
kind_name (c ∷ service) = codes "Service"

-- The line that a host check has not.
unfoldable pub service_pieces : List ℕ → List (List ℕ)
service_pieces [] = []
service_pieces (c ∷ service) =
    (codes "service_description=" ++ ((c ∷ service) ++ newline ∷ [])) ∷ []

-- What is printed behind the line of the service.
unfoldable pub rest_pieces : ℕ → ℕ → List ℕ → List (List ℕ)
unfolding decimal
rest_pieces now return_code plugin_output =
    codes "check_type=1\n"
    ∷ codes "scheduled_check=0\n"
    ∷ codes "reschedule_check=0\n"
    ∷ codes "latency=0\n"
    ∷ (codes "start_time=" ++ (decimal now ++ codes ".0\n"))
    ∷ (codes "finish_time=" ++ (decimal now ++ codes ".0\n"))
    ∷ (codes "return_code=" ++ (decimal return_code ++ newline ∷ []))
    ∷ (codes "output=" ++ (plugin_output ++ newline ∷ []))
    ∷ (newline ∷ [])
    ∷ []

unfoldable pub fbuf : ℕ → List ℕ → List ℕ → List ℕ → ℕ → List ℕ → List ℕ
unfolding append_pieces kind_name service_pieces rest_pieces
fbuf now cnow hostname service return_code plugin_output = append_pieces (
    codes "### NSCA Passive Check Result ###\n"
    ∷ (codes "# Time: " ++ cnow)
    ∷ (codes "file_time=" ++ (decimal now ++ codes "\n\n"))
    ∷ (codes "### " ++ (kind_name service ++ codes " Check Result ###\n"))
    ∷ (codes "host_name=" ++ (hostname ++ newline ∷ []))
    ∷ (service_pieces service ++ rest_pieces now return_code plugin_output))

-- From the write on: the return value stays 0.
unfoldable pub write_files : WriteAnswers → List ℕ → List ℕ → Files → Files
unfolding text_file unlink_file
write_files a checkresult_file text files =
    if a.fwrite
    then if a.fopen_ok
      then (ok_name checkresult_file, []) ∷ text_file a checkresult_file text ∷ files
      else unlink_file a (text_file a checkresult_file text) files
    else unlink_file a (text_file a checkresult_file text) files

unfoldable pub write_result_path :
    WriteAnswers → ℕ → List ℕ → List ℕ → List ℕ → ℕ → List ℕ → Files → ℤ × Files
unfolding fbuf write_files
write_result_path a now cnow hostname service return_code plugin_output files =
    if not a.allocated then (pos 0, files) else elim a.mkstemp [
      | made_zero name ↦ (negsuc 3, (name, []) ∷ files)
      | made name ↦ if not a.fdopen then (negsuc 1, (name, []) ∷ files) else (
        pos 0,
        write_files a name (fbuf now cnow hostname service return_code plugin_output) files,
      )
      | made_none ↦ (negsuc 0, files)
    ]

fbuf-result_text :
    (now : ℕ) (cnow : List ℕ) (check : Check)
    → fbuf now cnow check.host_name check.svc_description check.return_value check.plugin_output
      ≡ result_text now cnow check
unfolding fbuf append_pieces rest_pieces result_text printed take
fbuf-result_text now cnow check = go check.svc_description
  where
    go :
        (service : List ℕ)
        → fbuf now cnow check.host_name service check.return_value check.plugin_output
          ≡ result_text now cnow (record check { svc_description = service })
    go [] = refl
    go (c ∷ service) = refl

write_files-publish :
    (a : WriteAnswers) (name text : List ℕ) (files : Files)
    → (pos 0, write_files a name text files) ≡ publish a name text files
unfolding write_files publish
write_files-publish a name text files = elim (Bool-cases a.fwrite) [
  | inr short ↦ rw short refl
  | inl whole ↦ elim (Bool-cases a.fopen_ok) [
    | inl marked ↦ rw (whole, marked) refl
    | inr unmarked ↦ rw (whole, unmarked) refl
  ]
]

-- write_result_path does what write_result does when writing is enabled: the same return value, and
-- the same files with the same text and names, whatever the calls of the system answer.
pub write_result_path-write_result :
    (a : WriteAnswers) (now : ℕ) (cnow : List ℕ) (check : Check) (files : Files)
    → write_result_path a now cnow check.host_name check.svc_description check.return_value
        check.plugin_output files
      ≡ write_result true a now cnow check files
unfolding write_result_path write_result
write_result_path-write_result a now cnow check files = elim (Bool-cases a.allocated) [
  | inr missing ↦ rw missing refl
  | inl there ↦ go a.mkstemp refl there
]
  where
    go :
        (m : Made)
        → m ≡ a.mkstemp
        → a.allocated ≡ true
        → write_result_path a now cnow check.host_name check.svc_description check.return_value
            check.plugin_output files
          ≡ write_result true a now cnow check files
    go made_none e there = rw (there, ← e) refl
    go (made_zero name) e there = rw (there, ← e) refl
    go (made name) e there = elim (Bool-cases a.fdopen) [
      | inr fails ↦ rw (there, ← e, fails) refl
      | inl opens ↦
          rw (there, ← e, opens, fbuf-result_text now cnow check)
            (write_files-publish a name (result_text now cnow check) files)
    ]
