-- ===== src/ResultPath/Renewal.antt =====
-- How result_path_client.cpp comes to watch a directory that has taken the place of another.
use nsca_fast.Prelude.{ℕ, suc, ◌≡◌, ◌≢◌, refl, true, false, some, arith}
use nsca_fast.Prelude.Int.{pos}
use nsca_fast.ResultPath.{
  ResultPathClient, Directory, InotifyEvent, event_received, count_change, check, watch_directory,
  unwatch_directory, count_files, set_gate,
}

-- The event that inotify sends when a watch has been removed.
abbrev pub removed : InotifyEvent
removed = record { isdir = false; is_delete = false; is_create = false; ignored = true }

-- A client that watches one directory, while stat finds another.
pub record IsReplaced (limit ino w : ℕ) (d : Directory) (c : ResultPathClient) : Type 0 where
  pub inotify : c.has_inotify ≡ true
  pub max_files : c.check_result_path_max_files ≡ pos (suc limit)
  pub watched : c.dir_watched ≡ true
  pub watch : c.wd ≡ some w
  pub found : d.inode ≡ some ino
  pub directory : d.is_directory ≡ true
  pub other : c.dir_inode ≢ ino
  pub removable : d.rm_watch ≡ true

check_replaced :
    (limit ino w : ℕ) (d : Directory) (c : ResultPathClient)
    → IsReplaced limit ino w d c
    → check d c ≡ (true, set_gate c)
unfolding check watch_directory unwatch_directory set_gate
check_replaced limit ino w d c r =
    ground (
      arith, r.inotify, r.max_files, r.watched, r.watch, r.found, r.directory, r.other, r.removable,
    )

-- What the system answers for a directory that can be watched.
pub record IsWatchable (ino k : ℕ) (d : Directory) : Type 0 where
  pub found : d.inode ≡ some ino
  pub directory : d.is_directory ≡ true
  pub watch : d.add_watch ≡ some k

check_unwatched :
    (limit ino k : ℕ) (d : Directory) (c : ResultPathClient)
    → c.has_inotify ≡ true
    → c.check_result_path_max_files ≡ pos (suc limit)
    → c.dir_watched ≡ false
    → IsWatchable ino k d
    → (check d c).1 ≡ record (set_gate c) {
      files_in_directory = pos d.regular_files;
      dir_inode = ino;
      wd = some k;
      dir_watched = true;
    }
unfolding check watch_directory unwatch_directory set_gate count_files
check_unwatched limit ino k d c inotify limited unwatched w =
    ground (arith, inotify, limited, unwatched, w.found, w.directory, w.watch)

-- After the directory has been replaced, a check has the old watch removed and keeps the client's
-- marks; with the event of the removal, the next check watches the directory that is found then,
-- and counts its files anew.
pub check_renews :
    (limit ino ino' w k : ℕ) (d d' : Directory) (c : ResultPathClient)
    → IsReplaced limit ino w d c
    → IsWatchable ino' k d'
    → ((check d c).0 ≡ true)
      × ((check d c).1.dir_watched ≡ true)
      × ((check d' (event_received removed (check d c).1)).1.dir_watched ≡ true)
      × ((check d' (event_received removed (check d c).1)).1.dir_inode ≡ ino')
      × ((check d' (event_received removed (check d c).1)).1.wd ≡ some k)
      × ((check d' (event_received removed (check d c).1)).1.files_in_directory
          ≡ pos d'.regular_files)
unfolding event_received count_change set_gate
check_renews limit ino ino' w k d d' c r n =
    rw
      (
        check_replaced limit ino w d c r,
        check_unwatched limit ino' k d' (event_received removed (set_gate c)) r.inotify r.max_files
            refl n,
      )
      (refl, r.watched, refl, refl, refl, refl)
