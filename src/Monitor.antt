-- ===== src/Monitor.antt =====
-- The state of src/monitor.c and the operations on it: watches (add_watch_item, find_path_by_wd), the table of
-- snapshots and the tasks that go to the event pipe. What the calls on directories answer is a record, one for each
-- time the monitor looks; write_full on the pipe and log messages leave no other trace than the list of tasks.
pub mod Scan
pub mod Events
pub mod Depth
pub mod Run
pub mod Listing
pub mod Marks
pub mod Quiet
use mini_sync.Common.{
  ℕ, zero, suc, Bool, true, false, not, ◌||◌, Option, none, some, List, [], ◌∷◌, ◌++◌, Text,
  text_eq, Text-discrete, length, take, replicate, leb, ltb, ◌==◌, if◌then◌else◌,
}
use mini_sync.Task.{SyncTask, init_sync_task, event_delete}
use mini_sync.FilePath.{fits, get_relative_path}
use mini_sync.FilePath.Target.{max_path_len}
use mini_sync.FileSystem.{is_dir_mode}

abbrev pub max_watches : ℕ
max_watches = 4096

abbrev pub max_snapshots : ℕ
max_snapshots = 8192

-- What lstat(2) says of a path.
pub record LinkStat : Type 0 where
  pub size : ℕ
  pub mode : ℕ
  pub mtime : ℕ

-- The directories at a time.
pub record Tree : Type 0 where
  -- The names that readdir(3) gives, if opendir(3) succeeds.
  pub names : Text → Option (List Text)
  pub lstat : Text → Option LinkStat
  -- is_directory of src/file_utils.c
  pub is_directory : Text → Bool
  -- inotify_add_watch(2)
  pub add_watch : Text → Option ℕ

pub record WatchItem : Type 0 where
  pub wd : ℕ
  pub path : Text

-- An entry in use; `none` in the table is one that is not.
pub record FileSnapshot : Type 0 where
  pub seen : Bool
  pub rel_path : Text
  pub src_path : Text
  pub size : ℕ
  pub mtime : ℕ
  pub mode : ℕ
  pub is_dir : Bool

abbrev pub Table : Type 0
Table = List (Option FileSnapshot)

abbrev pub no_snapshots : Table
no_snapshots = replicate max_snapshots none

-- `emitted` has what was written to the event pipe, in order.
pub record Monitor : Type 0 where
  pub watch_items : List WatchItem
  pub snapshots : Table
  pub emitted : List SyncTask

-- The search over the items; `none` if no item has the descriptor.
abbrev pub replace_watch : List WatchItem → ℕ → Text → Option (List WatchItem)
replace_watch [] wd path = none
replace_watch (w ∷ ws) wd path =
    let rest = replace_watch ws wd path in
    if w.wd == wd
    then some (record w { path = take 511 path } ∷ ws)
    else elim rest [ none ↦ none | some ws' ↦ some (w ∷ ws') ]

-- The result is ignored by the caller; after -1 the items are as they were.
unfoldable pub add_watch_item : List WatchItem → ℕ → Text → List WatchItem
add_watch_item items wd path = elim (replace_watch items wd path) [
  | some items' ↦ items'
  | none ↦
      if leb max_watches (length items)
      then items
      else if leb max_path_len (length path)
      then items
      else items ++ (record { wd = wd; path = path } ∷ [])
]

unfoldable pub find_path_by_wd : List WatchItem → ℕ → Option Text
find_path_by_wd [] wd = none
find_path_by_wd (w ∷ ws) wd =
    let rest = find_path_by_wd ws wd in if w.wd == wd then some w.path else rest

unfoldable pub emit_task : Monitor → SyncTask → Monitor
emit_task m task = record m { emitted = m.emitted ++ (task ∷ []) }

abbrev pub with_stat : SyncTask → Option LinkStat → SyncTask
with_stat task none = task
with_stat task (some st) = record task {
  file_size = st.size;
  mode = st.mode;
  mtime = st.mtime;
  is_dir = is_dir_mode st.mode;
}

unfoldable pub build_task_from_path : Tree → (event_type : ℕ) → (root path : Text) → Option SyncTask
unfolding get_relative_path
build_task_from_path tree event_type root path = elim (fits max_path_len path) [
  | none ↦ none
  | some src ↦ elim (get_relative_path max_path_len root path) [
    | none ↦ none
    | some rel ↦ some (
        with_stat
          (record init_sync_task { event_type = event_type; src_path = src; rel_path = rel })
          (tree.lstat path))
  ]
]

-- `snapshots[i].used && strcmp(snapshots[i].rel_path, rel_path) == 0`
abbrev pub is_for : Text → Option FileSnapshot → Bool
is_for rel_path none = false
is_for rel_path (some e) = text_eq e.rel_path rel_path

abbrev pub is_free : Option FileSnapshot → Bool
is_free none = true
is_free (some e) = false

-- The first entry that passes a test, as the loops over `i` find it.
unfoldable pub first_entry : (Option FileSnapshot → Bool) → Table → Option ℕ
first_entry test [] = none
first_entry test (e ∷ table) =
    let rest = first_entry test table in
    if test e then some zero else elim rest [ none ↦ none | some i ↦ some (suc i) ]

unfoldable pub snapshot_find : Table → Text → Option ℕ
unfolding first_entry Text-discrete
snapshot_find table rel_path = first_entry (is_for rel_path) table

unfoldable pub snapshot_alloc : Table → Option ℕ
unfolding first_entry
snapshot_alloc table = first_entry is_free table

abbrev pub unseen : Option FileSnapshot → Option FileSnapshot
unseen none = none
unseen (some e) = some (record e { seen = false })

unfoldable pub snapshot_mark_all_unseen : Table → Table
snapshot_mark_all_unseen [] = []
snapshot_mark_all_unseen (e ∷ table) = unseen e ∷ snapshot_mark_all_unseen table

-- `snapshots[i] = e`, for an index in range.
unfoldable pub set_snapshot : Table → ℕ → Option FileSnapshot → Table
set_snapshot [] i e = []
set_snapshot (_ ∷ table) zero e = e ∷ table
set_snapshot (d ∷ table) (suc i) e = d ∷ set_snapshot table i e

abbrev pub snapshot_of : SyncTask → FileSnapshot
snapshot_of task = record {
  seen = true;
  rel_path = task.rel_path;
  src_path = task.src_path;
  size = task.file_size;
  mtime = task.mtime;
  mode = task.mode;
  is_dir = task.is_dir;
}

unfoldable pub snapshot_update_from_task : Table → ℕ → SyncTask → Table
unfolding set_snapshot
snapshot_update_from_task table idx task = set_snapshot table idx (some (snapshot_of task))

unfoldable pub emit_delete_task : Monitor → (root path : Text) → (is_dir : Bool) → Monitor
unfolding get_relative_path emit_task
emit_delete_task m root path is_dir = elim (fits max_path_len path) [
  | none ↦ m
  | some src ↦ elim (get_relative_path max_path_len root path) [
    | none ↦ m
    | some rel ↦ emit_task m (record init_sync_task {
      event_type = event_delete;
      is_dir = is_dir;
      src_path = src;
      rel_path = rel;
    })
  ]
]
