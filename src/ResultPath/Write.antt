-- ===== src/ResultPath/Write.antt =====
-- result_path_client::write_result of result_path_client.cpp, which result_path_writer.cpp
-- repeats: a check result as a file of Nagios's, and the empty file whose name tells that it is
-- complete. The answers of the system's calls are parameters; the texts are shorter than the
-- buffers of 4608 bytes, and the path than FILENAME_MAX. A `time_t` after 1970.
pub mod Publish
use nsca_fast.Prelude.{
  ℕ, suc, ◌+◌, ◌-◌, Bool, true, false, not, ◌&&◌, ◌||◌, List, [], ◌∷◌, ◌++◌, Option, none, some,
  take, if◌then◌else◌,
}
use nsca_fast.Prelude.Int.{ℤ, pos, negsuc}
use nsca_fast.Prelude.Text.{codes, newline, decimal}
use nsca_fast.Packet.{Check}

abbrev pub tmpbuf_size_max : ℕ
tmpbuf_size_max = 4096 + 512

-- `snprintf(tmpbuf, tmpbuf_size_max, ...); fbuf.append(tmpbuf);`
unfoldable pub printed : List ℕ → List ℕ
unfolding take
printed text = take (tmpbuf_size_max - 1) text

unfoldable pub service_lines : Check → List ℕ
unfolding printed
service_lines check = elim check.svc_description [
  | [] ↦ []
  | _ ∷ _ ↦ printed (codes "service_description=" ++ (check.svc_description ++ newline ∷ []))
]

unfoldable pub kind_line : Check → List ℕ
unfolding printed
kind_line check = elim check.svc_description [
  | [] ↦ printed (codes "### Host Check Result ###\n")
  | _ ∷ _ ↦ printed (codes "### Service Check Result ###\n")
]

-- The text of the file.
unfoldable pub result_text : ℕ → List ℕ → Check → List ℕ
unfolding printed service_lines kind_line decimal
result_text now cnow check =
    codes "### NSCA Passive Check Result ###\n"
    ++ (printed (codes "# Time: " ++ cnow)
        ++ (printed (codes "file_time=" ++ (decimal now ++ codes "\n\n"))
            ++ (kind_line check
                ++ (printed (codes "host_name=" ++ (check.host_name ++ newline ∷ []))
                    ++ (service_lines check
                        ++ (codes "check_type=1\nscheduled_check=0\nreschedule_check=0\nlatency=0\n"
                            ++ (printed (codes "start_time=" ++ (decimal now ++ codes ".0\n"))
                                ++ (printed (codes "finish_time=" ++ (decimal now ++ codes ".0\n"))
                                    ++ (printed (
                                          codes "return_code="
                                          ++ (decimal check.return_value ++ newline ∷ []))
                                        ++ (printed (
                                              codes "output="
                                              ++ (check.plugin_output ++ newline ∷ []))
                                            ++ newline ∷ []))))))))))

-- The files of the directory by name, the newest first.
abbrev pub Files : Type 0
Files = List (List ℕ × List ℕ)

-- mkstemp's answer: -1, 0, or a positive descriptor and the name of the new file.
pub data Made : Type 0 where
  made_none : Made
  made_zero : List ℕ → Made
  made : List ℕ → Made

-- What the calls of one write_result answer.
pub record WriteAnswers : Type 0 where
  -- the three buffers
  pub allocated : Bool
  pub mkstemp : Made
  pub fdopen : Bool
  -- fwrite returns 1
  pub fwrite : Bool
  -- how much of the text is in the file once fclose has written the buffer out
  pub stored : ℕ
  -- the second file can be opened
  pub fopen_ok : Bool
  -- unlink, of which there is one call at most
  pub unlink : Bool

abbrev pub ok_name : List ℕ → List ℕ
ok_name name = name ++ codes ".ok"

-- The file of the text after fclose, whose own answer nothing looks at.
unfoldable pub text_file : WriteAnswers → List ℕ → List ℕ → List ℕ × List ℕ
unfolding take
text_file a name text = (name, take a.stored text)

-- `unlink(checkresult_file)`, whose answer nothing looks at either.
unfoldable pub unlink_file : WriteAnswers → List ℕ × List ℕ → Files → Files
unlink_file a file files = if a.unlink then files else file ∷ files

-- The return value and the files, once the stream is open. The mask of umask is left out.
unfoldable pub publish : WriteAnswers → List ℕ → List ℕ → Files → ℤ × Files
unfolding text_file unlink_file
publish a name text files =
    if not a.fwrite
    then (pos 0, unlink_file a (text_file a name text) files)
    else if a.fopen_ok
    then (pos 0, (ok_name name, []) ∷ text_file a name text ∷ files)
    else (pos 0, unlink_file a (text_file a name text) files)

unfoldable pub write_result : Bool → WriteAnswers → ℕ → List ℕ → Check → Files → ℤ × Files
unfolding publish result_text
write_result write_enabled a now cnow check files =
    if not write_enabled
    then (negsuc 4, files)
    else if not a.allocated
    then (pos 0, files)
    else elim a.mkstemp [
      | made_zero name ↦ (negsuc 3, (name, []) ∷ files)
      | made_none ↦ (negsuc 0, files)
      | made name ↦
          if a.fdopen
          then publish a name (result_text now cnow check) files
          else (negsuc 1, (name, []) ∷ files)
    ]
