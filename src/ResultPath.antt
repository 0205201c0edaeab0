-- ===== src/ResultPath.antt =====
-- class result_path_client of result_path_client.cpp and result_path_client.h: its watch of the
-- directory check_result_path and its gate on writing. The answers of the system's calls are a
-- parameter of each operation. `inotifyFd` is not -1, except where a field says so; the writes of
-- a result stand in the child Write.
pub mod Write
pub mod Writer
pub mod Count
pub mod Renewal
mod Tests
use nsca_fast.Prelude.{
  ℕ, zero, suc, ◌+◌, ◌-◌, Bool, true, false, not, ◌&&◌, ◌||◌, List, [], ◌∷◌, Option, none, some,
  ◌==◌, if◌then◌else◌,
}
use nsca_fast.Prelude.Int.{ℤ, pos, negsuc, ltb_ℤ, increment, decrement}

pub record ResultPathClient : Type 0 where
  -- inotifyFd != -1
  pub has_inotify : Bool
  pub wd : Option ℕ
  pub dir_inode : ℕ
  pub files_in_directory : ℤ
  pub dir_watched : Bool
  pub write_enabled : Bool
  pub check_result_path_max_files : ℤ

-- What the system answers about the directory: the regular files that readdir finds, or 0 if it
-- cannot be opened; the new watch; the inode; whether it is a directory; whether a watch is removed.
pub record Directory : Type 0 where
  pub regular_files : ℕ
  pub add_watch : Option ℕ
  pub inode : Option ℕ
  pub is_directory : Bool
  pub rm_watch : Bool

-- The bits of an inotify event's mask that are read.
pub record InotifyEvent : Type 0 where
  pub isdir : Bool
  pub is_delete : Bool
  pub is_create : Bool
  pub ignored : Bool

-- The constructor; `inotify` says whether inotify_init1 succeeds.
unfoldable pub result_path_client : ℤ → Bool → ResultPathClient
result_path_client max_files inotify = record {
  has_inotify = elim max_files [ pos zero ↦ false | _ ↦ inotify ];
  wd = none;
  dir_inode = 0;
  files_in_directory = pos 0;
  dir_watched = false;
  write_enabled = true;
  check_result_path_max_files = max_files;
}

unfoldable pub count_change : InotifyEvent → ℤ → ℤ
count_change i n =
    if i.isdir
    then n
    else (let less = if i.is_delete then decrement n else n in
        if i.is_create then increment less else less)

unfoldable pub event_received : InotifyEvent → ResultPathClient → ResultPathClient
unfolding count_change
event_received i c =
    let counted = record c { files_in_directory = count_change i c.files_in_directory } in
    if i.ignored then record counted { dir_watched = false; wd = none; dir_inode = 0 } else counted

-- readcb: the events of one read, one after another.
unfoldable pub readcb : List InotifyEvent → ResultPathClient → ResultPathClient
readcb [] c = c
readcb (i ∷ events) c = readcb events (event_received i c)

unfoldable pub count_files : Directory → ResultPathClient → ResultPathClient
count_files d c = record c { files_in_directory = pos d.regular_files }

unfoldable pub watch_directory : Directory → ResultPathClient → ResultPathClient
unfolding count_files
watch_directory d c = if not c.has_inotify || c.dir_watched then c else elim d.add_watch [
  | none ↦ count_files d c
  | some k ↦ record (count_files d c) {
    dir_inode = elim d.inode [ some ino ↦ ino | none ↦ c.dir_inode ];
    wd = some k;
    dir_watched = true;
  }
]

-- unwatch_directory changes no field; the system removes the watch, and answers with an event.
unfoldable pub unwatch_directory : Directory → ResultPathClient → Bool
unwatch_directory d c = c.has_inotify && (elim c.wd [ none ↦ false | some k ↦ d.rm_watch ])

-- `bev` says whether the bufferevent is there or can be made.
unfoldable pub init : Directory → Bool → ResultPathClient → ResultPathClient
unfolding watch_directory
init d bev c = if not c.has_inotify || not bev then c else watch_directory d c

-- uninit: whether the watch is removed, and the client without its inotify.
unfoldable pub uninit : Directory → ResultPathClient → Bool × ResultPathClient
unfolding unwatch_directory
uninit d c = (unwatch_directory d c, record c { has_inotify = false })

-- The threshold of check.
unfoldable pub set_gate : ResultPathClient → ResultPathClient
set_gate c = record c { write_enabled = ltb_ℤ c.files_in_directory c.check_result_path_max_files }

-- check, for a check_result_path that is not empty: whether a watch is removed, and the client.
unfoldable pub check : Directory → ResultPathClient → Bool × ResultPathClient
unfolding set_gate watch_directory unwatch_directory
check d c = elim c.check_result_path_max_files [
  | pos zero ↦ (false, c)
  | _ ↦
      if not c.has_inotify
      then (false, c)
      else (let gated = set_gate c in
          elim d.inode [
            | none ↦ (false, gated)
            | some ino ↦
                if not d.is_directory || (c.dir_watched && c.dir_inode == ino)
                then (false, gated)
                else (unwatch_directory d gated, watch_directory d gated)
          ])
]
