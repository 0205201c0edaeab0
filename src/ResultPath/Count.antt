-- ===== src/ResultPath/Count.antt =====
-- The count of files and the watch of result_path_client.cpp over the events of a directory.
use nsca_fast.Prelude.{
  ℕ, zero, suc, ◌<◌, ◌≡◌, ◌↔◌, refl, true, false, List, [], ◌∷◌, Option, none, some, map, arith,
}
use nsca_fast.Prelude.Int.{pos}
use nsca_fast.ResultPath.{
  ResultPathClient, Directory, InotifyEvent, count_change, event_received, readcb, set_gate, check,
}

-- What happens to a directory, as far as it is watched: a file comes or goes, or a directory does.
pub data Change : Type 0 where
  created : Change
  deleted : Change
  directory_created : Change
  directory_deleted : Change

-- The regular files after changes; `none` if there is none to delete.
unfoldable pub files_after : List Change → ℕ → Option ℕ
files_after [] n = some n
files_after (created ∷ changes) n = files_after changes (suc n)
files_after (deleted ∷ changes) zero = none
files_after (deleted ∷ changes) (suc n) = files_after changes n
files_after (directory_created ∷ changes) n = files_after changes n
files_after (directory_deleted ∷ changes) n = files_after changes n

-- The event by which inotify tells of a change.
abbrev pub event_of : Change → InotifyEvent
event_of created = record { isdir = false; is_delete = false; is_create = true; ignored = false }
event_of deleted = record { isdir = false; is_delete = true; is_create = false; ignored = false }
event_of directory_created = record {
  isdir = true;
  is_delete = false;
  is_create = true;
  ignored = false;
}
event_of directory_deleted = record {
  isdir = true;
  is_delete = true;
  is_create = false;
  ignored = false;
}

abbrev Counts : ResultPathClient → ResultPathClient → ℕ → Type 0
Counts c' c k = c' ≡ record c { files_in_directory = pos k }

some_equal : {n k : ℕ} → some n ≡ some k → n ≡ k
some_equal e = cc e

readcb-Counts :
    (changes : List Change) (n k : ℕ) (c : ResultPathClient)
    → c.files_in_directory ≡ pos n
    → files_after changes n ≡ some k
    → Counts (readcb (map event_of changes) c) c k
unfolding readcb files_after event_received count_change
readcb-Counts [] n k c e f = rw (← some_equal f, ← e) refl
readcb-Counts (created ∷ changes) n k c e f =
    readcb-Counts changes (suc n) k (event_received (event_of created) c) (rw e refl) f
readcb-Counts (deleted ∷ changes) zero k c e f = absurd (cc f)
readcb-Counts (deleted ∷ changes) (suc n) k c e f =
    readcb-Counts changes n k (event_received (event_of deleted) c) (rw e refl) f
readcb-Counts (directory_created ∷ changes) n k c e f =
    readcb-Counts changes n k (event_received (event_of directory_created) c) e f
readcb-Counts (directory_deleted ∷ changes) n k c e f =
    readcb-Counts changes n k (event_received (event_of directory_deleted) c) e f

-- The settled state of a watch on the directory that stat finds.
pub record IsSettled (limit : ℕ) (d : Directory) (c : ResultPathClient) : Type 0 where
  pub inotify : c.has_inotify ≡ true
  pub max_files : c.check_result_path_max_files ≡ pos (suc limit)
  pub watched : c.dir_watched ≡ true
  pub same_inode : d.inode ≡ some c.dir_inode
  pub directory : d.is_directory ≡ true

check_settled :
    (limit : ℕ) (d : Directory) (c : ResultPathClient)
    → IsSettled limit d c
    → check d c ≡ (false, set_gate c)
unfolding check
check_settled limit d c s =
    ground (arith, s.inotify, s.max_files, s.watched, s.same_inode, s.directory)

-- A client that watches a directory of `n` regular files and is told of its changes opens its gate
-- at the next check exactly if there are now fewer files than the limit, and asks for no new watch.
pub check_counts :
    (changes : List Change) (n k limit : ℕ) (d : Directory) (c : ResultPathClient)
    → IsSettled limit d c
    → c.files_in_directory ≡ pos n
    → files_after changes n ≡ some k
    → ((check d (readcb (map event_of changes) c)).0 ≡ false)
      × (((check d (readcb (map event_of changes) c)).1.write_enabled ≡ true) ↔ (k < suc limit))
unfolding set_gate
check_counts changes n k limit d c s e f =
    rw
      (
        readcb-Counts changes n k c e f,
        check_settled limit d (record c { files_in_directory = pos k })
            record {
              inotify = s.inotify;
              max_files = s.max_files;
              watched = s.watched;
              same_inode = s.same_inode;
              directory = s.directory;
            },
        s.max_files,
      )
      (refl, ground arith)
