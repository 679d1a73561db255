-- ===== src/Task.antt =====
-- include/task.h and the first functions of src/task_queue.c: events and the tasks they become.
use Prim.Native.String.{String}
use mini_sync.Common.{ℕ, Bool, [], Text, text_eq, Text-discrete, ◌==◌, if◌then◌else◌}

abbrev pub event_create : ℕ
event_create = 1

abbrev pub event_modify : ℕ
event_modify = 2

abbrev pub event_delete : ℕ
event_delete = 3

abbrev pub event_rename : ℕ
event_rename = 4

abbrev pub event_fullscan : ℕ
event_fullscan = 5

abbrev pub event_exit : ℕ
event_exit = 99

abbrev pub max_retry_count : ℕ
max_retry_count = 3

-- Paths are the C strings in the buffers. `mode` and `mtime` are only stored, sent and compared.
pub record SyncTask : Type 0 where
  pub event_type : ℕ
  pub src_path : Text
  pub rel_path : Text
  pub old_rel_path : Text
  pub file_size : ℕ
  pub mode : ℕ
  pub mtime : ℕ
  pub is_dir : Bool
  pub retry_count : ℕ

-- `init_sync_task`: all bytes are zero.
abbrev pub init_sync_task : SyncTask
init_sync_task = record {
  event_type = 0;
  src_path = [];
  rel_path = [];
  old_rel_path = [];
  file_size = 0;
  mode = 0;
  mtime = 0;
  is_dir = Bool.false;
  retry_count = 0;
}

unfoldable pub event_type_to_string : ℕ → String
event_type_to_string e =
    if e == event_create
    then "CREATE"
    else if e == event_modify
    then "MODIFY"
    else if e == event_delete
    then "DELETE"
    else if e == event_rename
    then "RENAME"
    else if e == event_fullscan
    then "FULLSCAN"
    else if e == event_exit
    then "EXIT"
    else "UNKNOWN"

unfoldable pub sync_task_same_target : SyncTask → SyncTask → Bool
unfolding Text-discrete
sync_task_same_target a b = text_eq a.rel_path b.rel_path
