-- ===== src/Monitor/Events.antt =====
-- handle_event and the loop of monitor_process of src/monitor.c.
use mini_sync.Common.{
  ℕ, ◌-◌, Bool, true, false, not, ◌&&◌, ◌||◌, Option, none, some, List, [], ◌∷◌, Text, take, drop,
  length, ltb, ◌==◌, if◌then◌else◌,
}
use mini_sync.Task.{SyncTask, event_create, event_modify, event_rename}
use mini_sync.FilePath.{join_path, trim_len, starts_with, relative_part}
use mini_sync.FilePath.Target.{max_path_len}
use mini_sync.Monitor.{
  Tree, Monitor, find_path_by_wd, build_task_from_path, emit_task, emit_delete_task,
}
use mini_sync.Monitor.Scan.{
  add_watch_recursive, scan_directory_and_emit_tasks, poll_scan_and_emit_changes,
}

-- An inotify event, with the bits of its mask that the code tests.
pub record Event : Type 0 where
  pub wd : ℕ
  pub cookie : ℕ
  pub len : ℕ
  pub name : Text
  pub moved_from : Bool
  pub moved_to : Bool
  pub delete : Bool
  pub create : Bool
  pub close_write : Bool
  pub modify : Bool
  pub is_dir : Bool

pub record MoveRecord : Type 0 where
  pub cookie : ℕ
  pub old_path : Text
  pub old_rel_path : Text
  pub is_dir : Bool
  pub ts_ms : ℕ

-- All bytes are zero.
abbrev pub no_move : MoveRecord
no_move = record { cookie = 0; old_path = []; old_rel_path = []; is_dir = false; ts_ms = 0 }

-- The buffer after get_relative_path, which is used whatever it returns.
unfoldable pub old_rel_of : (root path : Text) → Text
unfolding trim_len starts_with relative_part
old_rel_of root path =
    let root_len = trim_len root (length root) in
    if starts_with (take root_len root) path
    then take 511 (relative_part (drop root_len path))
    else []

abbrev pub matches : MoveRecord → Event → Bool
matches move ev = not (move.cookie == 0) && (move.cookie == ev.cookie)

-- A directory that has appeared: watched, then scanned.
abbrev pub watch_and_scan : ℕ → Tree → (root path : Text) → Bool → Monitor → Option Monitor
watch_and_scan fuel tree root path false m = some m
watch_and_scan fuel tree root path true m = elim (add_watch_recursive fuel tree path m) [
  | none ↦ none
  | some m' ↦ scan_directory_and_emit_tasks fuel tree root path m'
]

abbrev pub with_move : MoveRecord → Option Monitor → Option (Monitor × MoveRecord)
with_move move none = none
with_move move (some m) = some (m, move)

abbrev pub emit_if : Option SyncTask → Monitor → Monitor
emit_if none m = m
emit_if (some task) m = emit_task m task

abbrev pub handle_moved_to :
    ℕ
    → Tree
    → (root path : Text) → Event
    → Monitor
    → MoveRecord
    → Option SyncTask
    → Option (Monitor × MoveRecord)
handle_moved_to fuel tree root path ev m move none = some (m, move)
handle_moved_to fuel tree root path ev m move (some task) =
    let renamed : SyncTask =
      if matches move ev then record task { old_rel_path = move.old_rel_path } else task in
    with_move no_move (watch_and_scan fuel tree root path ev.is_dir (emit_task m renamed))

-- `handle_event` once the path is known.
abbrev pub handle_path :
    ℕ
    → Tree
    → (root path : Text) → (now_ms : ℕ) → Event
    → Monitor
    → MoveRecord
    → Option (Monitor × MoveRecord)
handle_path fuel tree root path now_ms ev m move =
    if ev.moved_from
    then some (
      m,
      record {
        cookie = ev.cookie;
        old_path = path;
        old_rel_path = old_rel_of root path;
        is_dir = ev.is_dir;
        ts_ms = now_ms;
      },
    )
    else if ev.moved_to
    then handle_moved_to fuel tree root path ev m move
        (build_task_from_path tree event_rename root path)
    else if ev.delete
    then some (emit_delete_task m root path ev.is_dir, move)
    else if ev.create
    then with_move move (
        watch_and_scan fuel tree root path ev.is_dir
          (emit_if (build_task_from_path tree event_create root path) m))
    else if (ev.close_write || ev.modify) && not ev.is_dir
    then some (emit_if (build_task_from_path tree event_modify root path) m, move)
    else some (m, move)

-- The value returned is ignored by the caller.
unfoldable pub handle_event :
    ℕ
    → Tree
    → (root : Text) → (now_ms : ℕ) → Event
    → Monitor
    → MoveRecord
    → Option (Monitor × MoveRecord)
unfolding find_path_by_wd join_path build_task_from_path emit_task emit_delete_task old_rel_of
    add_watch_recursive scan_directory_and_emit_tasks
handle_event fuel tree root now_ms ev m move =
    if ev.len == 0 then some (m, move) else elim (find_path_by_wd m.watch_items ev.wd) [
      | none ↦ some (m, move)
      | some parent ↦ elim (join_path max_path_len parent ev.name) [
        | none ↦ some (m, move)
        | some path ↦ handle_path fuel tree root path now_ms ev m move
      ]
    ]

-- A return of select: a second has passed, or events are read, each with what the directories and the clock are then.
-- The records of one read are handled in order.
pub data Wake : Type 0 where
  timeout : Tree → (now_ms : ℕ) → Wake
  event : Tree → (now_ms : ℕ) → Event → Wake

unfoldable pub expire_move :
    (root : Text) → (now_ms : ℕ) → Monitor → MoveRecord → Monitor × MoveRecord
unfolding emit_delete_task
expire_move root now_ms m move =
    if not (move.cookie == 0) && ltb 2000 (now_ms - move.ts_ms)
    then (emit_delete_task m root move.old_path move.is_dir, no_move)
    else (m, move)

unfoldable pub monitor_step :
    ℕ → (root : Text) → Monitor → MoveRecord → Wake → Option (Monitor × MoveRecord)
unfolding handle_event expire_move poll_scan_and_emit_changes
monitor_step fuel root m move (Wake.event tree now_ms ev) =
    handle_event fuel tree root now_ms ev m move
monitor_step fuel root m move (Wake.timeout tree now_ms) =
    let (m', move') = expire_move root now_ms m move in
    with_move move' (poll_scan_and_emit_changes fuel tree root m')

unfoldable pub monitor_loop :
    ℕ → (root : Text) → Monitor → MoveRecord → List Wake → Option (Monitor × MoveRecord)
unfolding monitor_step
monitor_loop fuel root m move [] = some (m, move)
monitor_loop fuel root m move (wake ∷ wakes) = elim (monitor_step fuel root m move wake) [
  | none ↦ none
  | some (m', move') ↦ monitor_loop fuel root m' move' wakes
]

-- From the first watch on; a failure of add_watch_recursive is only logged.
unfoldable pub monitor_process :
    ℕ → Tree → (root : Text) → Monitor → List Wake → Option (Monitor × MoveRecord)
unfolding monitor_loop
monitor_process fuel tree root m wakes = elim (watch_and_scan fuel tree root root true m) [
  | none ↦ none
  | some m' ↦ monitor_loop fuel root m' no_move wakes
]
