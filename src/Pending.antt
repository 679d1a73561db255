-- ===== src/Pending.antt =====
-- The debounce table of src/transfer.c and include/transfer.h: pending_find, pending_remove,
-- pending_update_or_insert, pending_flush_stable_tasks, pending_flush_all and should_debounce. The table is
-- an array; its length is left open, and `empty_table` has that of the source. The queue is that of
-- TaskQueue.Shared, with workers at work on it and a `calloc` that can fail: what task_queue_push returns
-- is not looked at, and the entry is cleared either way. A time is what current_time_ms returns, a
-- parameter of the call.
pub mod Find
pub mod Flush
pub mod Unique
use mini_sync.Common.{
  ℕ, zero, suc, ◌+◌, Bool, true, false, ◌&&◌, ◌||◌, Option, none, some, List, [], ◌∷◌, Text,
  text_eq, Text-discrete, replicate, leb, not, ◌==◌, if◌then◌else◌,
}
use mini_sync.Task.{SyncTask, init_sync_task, event_create, event_modify, event_fullscan}
use mini_sync.TaskQueue.Shared
use mini_sync.TaskQueue.Shared.{Shared}

abbrev pub max_pending_tasks : ℕ
max_pending_tasks = 4096

pub record PendingTask : Type 0 where
  pub used : Bool
  pub task : SyncTask
  pub last_update_ms : ℕ

abbrev pub Table : Type 0
Table = List PendingTask

-- An entry after `memset`.
abbrev pub cleared : PendingTask
cleared = record { used = false; task = init_sync_task; last_update_ms = 0 }

abbrev pub empty_table : Table
empty_table = replicate max_pending_tasks cleared

-- `table[i].used && strcmp(table[i].task.rel_path, rel_path) == 0`
abbrev pub holds : PendingTask → Text → Bool
holds e rel_path = e.used && text_eq e.task.rel_path rel_path

-- The first index at which the test passes, the loops over `i` of the source. `none` is -1.
unfoldable pub find_index : (PendingTask → Bool) → Table → Option ℕ
find_index test [] = none
find_index test (e ∷ table) =
    let rest = find_index test table in
    if test e then some 0 else elim rest [ none ↦ none | some i ↦ some (suc i) ]

-- `table[i] = e`, for an index in range.
unfoldable pub set_entry : Table → ℕ → PendingTask → Table
set_entry [] i e = []
set_entry (_ ∷ table) zero e = e ∷ table
set_entry (d ∷ table) (suc i) e = d ∷ set_entry table i e

unfoldable pub pending_find : Table → Text → Option ℕ
unfolding find_index Text-discrete
pending_find table rel_path = find_index (λ e. holds e rel_path) table

unfoldable pub pending_remove : Table → Text → Table
unfolding pending_find set_entry
pending_remove table rel_path = elim (pending_find table rel_path) [
  | none ↦ table
  | some idx ↦ set_entry table idx cleared
]

abbrev pub entry_of : SyncTask → ℕ → PendingTask
entry_of task now = record { used = true; task = task; last_update_ms = now }

-- The entry of the path, or else the first unused one; with neither, the task is dropped.
unfoldable pub pending_update_or_insert : Table → SyncTask → (now : ℕ) → Table
unfolding pending_find set_entry
pending_update_or_insert table task now = elim (pending_find table task.rel_path) [
  | some idx ↦ set_entry table idx (entry_of task now)
  | none ↦ elim (find_index (λ e. not e.used) table) [
    | some idx ↦ set_entry table idx (entry_of task now)
    | none ↦ table
  ]
]

-- `now - table[i].last_update_ms >= debounce_ms`, over signed 64-bit numbers, which do not overflow at
-- the times of a monotonic clock.
abbrev pub is_stable : PendingTask → (debounce_ms now : ℕ) → Bool
is_stable e debounce_ms now = leb (e.last_update_ms + debounce_ms) now

unfoldable pub pending_flush_stable_tasks : Table → Shared → (debounce_ms now : ℕ) → Table × Shared
unfolding Shared.push
pending_flush_stable_tasks [] q debounce_ms now = ([], q)
pending_flush_stable_tasks (e ∷ table) q debounce_ms now =
    let flushed = e.used && is_stable e debounce_ms now in
    let q' = if flushed then (Shared.push q e.task).1 else q in
    let (table', end) = pending_flush_stable_tasks table q' debounce_ms now in
    ((if flushed then cleared else e) ∷ table', end)

unfoldable pub pending_flush_all : Table → Shared → Table × Shared
unfolding Shared.push
pending_flush_all [] q = ([], q)
pending_flush_all (e ∷ table) q =
    let q' = if e.used then (Shared.push q e.task).1 else q in
    let (table', end) = pending_flush_all table q' in
    ((if e.used then cleared else e) ∷ table', end)

unfoldable pub should_debounce : SyncTask → Bool
should_debounce task =
    task.event_type == event_modify
    || task.event_type == event_create
    || task.event_type == event_fullscan
