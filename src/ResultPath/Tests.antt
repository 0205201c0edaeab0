-- ===== src/ResultPath/Tests.antt =====
-- A directory of two files, a result, and the theorems on them.
use nsca_fast.Prelude.{
  ℕ, ◌<◌, ◌≡◌, ◌↔◌, refl, inr, Bool, true, false, List, [], ◌∷◌, some, map, arith,
}
use nsca_fast.Prelude.Int.{pos}
use nsca_fast.Prelude.Text.{codes, decimal, digits}
use nsca_fast.Packet.{Check}
use nsca_fast.ResultPath.{
  ResultPathClient, Directory, InotifyEvent, check, readcb, event_received, count_change, set_gate,
}
use nsca_fast.ResultPath.Count.{
  created, deleted, directory_created, event_of, files_after, IsSettled, check_counts,
}
use nsca_fast.ResultPath.Renewal.{removed, check_renews}
use nsca_fast.ResultPath.Write.{WriteAnswers, made, write_result, result_text}
use nsca_fast.ResultPath.Write.Publish.{write_result_lost}

abbrev directory : ℕ → Directory
directory ino = record {
  regular_files = 1;
  add_watch = some 5;
  inode = some ino;
  is_directory = true;
  rm_watch = true;
}

abbrev client : ResultPathClient
client = record {
  has_inotify = true;
  wd = some 4;
  dir_inode = 900;
  files_in_directory = pos 2;
  dir_watched = true;
  write_enabled = true;
  check_result_path_max_files = pos 3;
}

abbrev filling : List nsca_fast.ResultPath.Count.Change
filling = created ∷ directory_created ∷ created ∷ deleted ∷ []

filled : files_after filling 2 ≡ some 3
unfolding files_after
filled = refl

check_counts_example :
    ((check (directory 900) (readcb (map event_of filling) client)).0 ≡ false)
    × (((check (directory 900) (readcb (map event_of filling) client)).1.write_enabled ≡ true)
        ↔ (3 < 3))
check_counts_example =
    check_counts filling 2 3 2 (directory 900) client
      record {
        inotify = refl;
        max_files = refl;
        watched = refl;
        same_inode = refl;
        directory = refl;
      }
      refl filled

check_renews_example :
    ((check (directory 901) client).0 ≡ true)
    × ((check (directory 901) client).1.dir_watched ≡ true)
    × ((check
          (directory 902)
          (event_received removed (check (directory 901) client).1)).1.dir_watched
        ≡ true)
    × ((check (directory 902) (event_received removed (check (directory 901) client).1)).1.dir_inode
        ≡ 902)
    × ((check (directory 902) (event_received removed (check (directory 901) client).1)).1.wd
        ≡ some 5)
    × ((check
          (directory 902)
          (event_received removed (check (directory 901) client).1)).1.files_in_directory
        ≡ pos 1)
check_renews_example =
    check_renews 2 901 902 4 5 (directory 901) (directory 902) client
      record {
        inotify = refl;
        max_files = refl;
        watched = refl;
        watch = refl;
        found = refl;
        directory = refl;
        other = λ e. omega arith;
        removable = refl;
      }
      record { found = refl; directory = refl; watch = refl }

abbrev answers : Bool → WriteAnswers
answers marks = record {
  allocated = true;
  mkstemp = made (codes "cAbCdEf");
  fdopen = true;
  fwrite = true;
  stored = 1000;
  fopen_ok = marks;
  unlink = true;
}

abbrev host_check : Check
host_check = record {
  host_name = codes "db";
  svc_description = [];
  return_value = 1;
  plugin_output = codes "down";
}

abbrev clock : List ℕ
clock = codes "Thu Jan  1 00:16:40 1970\n"

text :
    result_text 1000 clock host_check
    ≡ codes
        "### NSCA Passive Check Result ###\n# Time: Thu Jan  1 00:16:40 1970\nfile_time=1000\n\n### Host Check Result ###\nhost_name=db\ncheck_type=1\nscheduled_check=0\nreschedule_check=0\nlatency=0\nstart_time=1000.0\nfinish_time=1000.0\nreturn_code=1\noutput=down\n\n"
unfolding result_text decimal digits
text = refl

write_result_lost_example : write_result true (answers false) 1000 clock host_check [] ≡ (pos 0, [])
write_result_lost_example =
    write_result_lost (answers false) (codes "cAbCdEf") 1000 clock host_check []
      (inr (refl, refl, refl, refl, inr refl))
