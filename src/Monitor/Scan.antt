-- ===== src/Monitor/Scan.antt =====
-- The walks of src/monitor.c over directories: poll_scan_path, poll_scan_and_emit_changes, add_watch_recursive and
-- scan_directory_and_emit_tasks. The fuel bounds the depth; `none` is that it runs out. A walk sees one state of the
-- directories.
use mini_sync.Common.{
  ℕ, zero, suc, Bool, true, not, ◌||◌, Option, none, some, List, [], ◌∷◌, ◌++◌, Text, text_eq,
  Text-discrete, ◌==◌, if◌then◌else◌,
}
use mini_sync.Task.{
  SyncTask, init_sync_task, event_create, event_modify, event_delete, event_fullscan,
}
use mini_sync.FilePath.{dot, join_path}
use mini_sync.FilePath.Target.{max_path_len}
use mini_sync.Monitor.{
  Tree, FileSnapshot, Table, Monitor, add_watch_item, emit_task, build_task_from_path,
  snapshot_find, snapshot_alloc, set_snapshot, snapshot_mark_all_unseen, snapshot_update_from_task,
}

abbrev pub is_dots : Text → Bool
is_dots name = text_eq name (dot ∷ []) || text_eq name (dot ∷ dot ∷ [])

-- The loop over readdir: the names `.` and `..`, and those that give too long a path, are passed over.
unfoldable pub for_entries :
    (visit : Text → Monitor → Option Monitor) → (dir : Text) → List Text → Monitor → Option Monitor
for_entries visit dir [] m = some m
for_entries visit dir (name ∷ names) m =
    if is_dots name then for_entries visit dir names m else elim (join_path max_path_len dir name) [
      | none ↦ for_entries visit dir names m
      | some path ↦ elim (visit path m) [ none ↦ none | some m' ↦ for_entries visit dir names m' ]
    ]

-- An entry of the table against the file that is there.
abbrev pub differs : FileSnapshot → SyncTask → Bool
differs e task =
    not (e.size == task.file_size) || (not (e.mtime == task.mtime) || not (e.mode == task.mode))

abbrev pub entry_at : Table → ℕ → Option FileSnapshot
entry_at [] i = none
entry_at (e ∷ table) zero = e
entry_at (e ∷ table) (suc i) = entry_at table i

abbrev pub known : Monitor → ℕ → SyncTask → Option FileSnapshot → Monitor
known m idx task none = m
known m idx task (some e) =
    if differs e task
    then record (emit_task m task) { snapshots = snapshot_update_from_task m.snapshots idx task }
    else record m { snapshots = set_snapshot m.snapshots idx (some (record e { seen = true })) }

-- The body of poll_scan_path once the task is built, whose event type is MODIFY.
unfoldable pub compare_snapshot : SyncTask → Monitor → Monitor
unfolding snapshot_find snapshot_alloc snapshot_update_from_task set_snapshot emit_task
compare_snapshot task m = elim (snapshot_find m.snapshots task.rel_path) [
  | some idx ↦ known m idx task (entry_at m.snapshots idx)
  | none ↦ elim (snapshot_alloc m.snapshots) [
    | none ↦ m
    | some idx ↦
        let created : SyncTask = record task { event_type = event_create } in
        record (emit_task m created) {
          snapshots = snapshot_update_from_task m.snapshots idx created;
        }
  ]
]

-- What is done for one path, `next` for a directory.
abbrev pub poll_path :
    Tree
    → (root : Text) → (next : Text → Monitor → Option Monitor) → (path : Text) → Monitor
    → Option Monitor
poll_path tree root next path m = elim (build_task_from_path tree event_modify root path) [
  | none ↦ some m
  | some task ↦ let m' = compare_snapshot task m in if task.is_dir then next path m' else some m'
]

unfoldable pub poll_scan_path : ℕ → Tree → (root dir : Text) → Monitor → Option Monitor
unfolding for_entries build_task_from_path compare_snapshot join_path Text-discrete
poll_scan_path zero tree root dir m = none
poll_scan_path (suc fuel) tree root dir m = elim (tree.names dir) [
  | none ↦ some m
  | some names ↦ for_entries (poll_path tree root (poll_scan_path fuel tree root)) dir names m
]

-- The deletion of an entry that has not been seen.
abbrev pub deletion_of : FileSnapshot → SyncTask
deletion_of e = record init_sync_task {
  event_type = event_delete;
  is_dir = e.is_dir;
  rel_path = e.rel_path;
  src_path = e.src_path;
}

-- The loop at the end: the table without the entries that have not been seen, and their deletions.
unfoldable pub emit_deletions : Table → List SyncTask × Table
emit_deletions [] = ([], [])
emit_deletions (none ∷ table) = let (tasks, table') = emit_deletions table in (tasks, none ∷ table')
emit_deletions (some e ∷ table) =
    let (tasks, table') = emit_deletions table in
    if e.seen then (tasks, some e ∷ table') else (deletion_of e ∷ tasks, none ∷ table')

unfoldable pub poll_scan_and_emit_changes : ℕ → Tree → (root : Text) → Monitor → Option Monitor
unfolding poll_scan_path snapshot_mark_all_unseen emit_deletions
poll_scan_and_emit_changes fuel tree root m =
    elim (poll_scan_path fuel tree root root
      (record m { snapshots = snapshot_mark_all_unseen m.snapshots })) [
        | none ↦ none
        | some m' ↦
            let (tasks, table) = emit_deletions m'.snapshots in
            some (record m' { snapshots = table; emitted = m'.emitted ++ tasks })
      ]

-- The results of the recursive calls are ignored.
unfoldable pub add_watch_recursive : ℕ → Tree → (dir_path : Text) → Monitor → Option Monitor
unfolding for_entries add_watch_item join_path Text-discrete
add_watch_recursive zero tree dir_path m = none
add_watch_recursive (suc fuel) tree dir_path m = elim (tree.names dir_path) [
  | none ↦ some m
  | some names ↦ elim (tree.add_watch dir_path) [
    | none ↦ some m
    | some wd ↦
        for_entries
          (λ child m'.
            if tree.is_directory child then add_watch_recursive fuel tree child m' else some m')
          dir_path names (record m { watch_items = add_watch_item m.watch_items wd dir_path })
  ]
]

-- The entry for a path, or one that is free.
abbrev pub find_or_alloc : Table → Text → Option ℕ
find_or_alloc table rel_path = elim (snapshot_find table rel_path) [
  | some idx ↦ some idx
  | none ↦ snapshot_alloc table
]

abbrev pub report : Option SyncTask → Monitor → Monitor
report none m = m
report (some task) m = elim (find_or_alloc m.snapshots task.rel_path) [
  | none ↦ emit_task m task
  | some idx ↦ record (emit_task m task) {
    snapshots = snapshot_update_from_task m.snapshots idx task;
  }
]

-- inotify_init1 has succeeded, so that a directory is watched before it is scanned.
abbrev pub scan_path :
    ℕ
    → Tree
    → (root : Text) → (next : Text → Monitor → Option Monitor) → (path : Text) → Monitor
    → Option Monitor
scan_path fuel tree root next path m =
    let m' = report (build_task_from_path tree event_fullscan root path) m in
    if tree.is_directory path
    then elim (add_watch_recursive fuel tree path m') [ none ↦ none | some m'' ↦ next path m'' ]
    else some m'

unfoldable pub scan_directory_and_emit_tasks :
    ℕ → Tree → (root dir : Text) → Monitor → Option Monitor
unfolding for_entries build_task_from_path snapshot_find snapshot_alloc snapshot_update_from_task
    emit_task add_watch_recursive join_path Text-discrete
scan_directory_and_emit_tasks zero tree root dir m = none
scan_directory_and_emit_tasks (suc fuel) tree root dir m = elim (tree.names dir) [
  | none ↦ some m
  | some names ↦
      for_entries (scan_path fuel tree root (scan_directory_and_emit_tasks fuel tree root)) dir
        names m
]
