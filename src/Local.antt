-- ===== src/Local.antt =====
-- Local synchronisation: ensure_backup_layout, sync_local_file and sync_task_local of src/transfer.c. Log
-- messages leave no trace; releasing the read lock and closing descriptors leave none either.
-- A task is one step: no other worker and no other program changes files while it runs.
pub mod Sync
pub mod Task
use mini_sync.Common.{
  ℕ, Bool, true, false, not, ◌&&◌, Option, none, some, List, [], ◌∷◌, Text, codes, ◌==◌,
  if◌then◌else◌,
}
use mini_sync.Net.{Io, done, broken, out_of_fuel, and_then}
use mini_sync.FilePath.{sanitize_rel_path, join_path}
use mini_sync.FilePath.Target.{max_path_len, local_target_path}
use mini_sync.Task.{SyncTask, event_delete, event_rename}
use mini_sync.Config.{ClientConfig, is_empty}
use mini_sync.FileSystem.{FileSystem}
use mini_sync.FileOps.{
  ensure_dir_exists, ensure_parent_dir_exists, is_regular_file, copy_file_with_hash_check,
  safe_rename_or_copy_unlink, set_file_metadata,
}
use mini_sync.FileOps.Versions.{backup_old_version, move_to_trash}

module _ (F : FileSystem) where
  unfoldable pub ensure_backup_layout : F.State → (root : Text) → Io (Unit {0}) F.State
  unfolding join_path ensure_dir_exists
  ensure_backup_layout s root = elim (join_path max_path_len root (codes "current")) [
    | none ↦ broken s
    | some current ↦ elim (join_path max_path_len root (codes ".versions")) [
      | none ↦ broken s
      | some versions ↦ elim (join_path max_path_len root (codes ".trash")) [
        | none ↦ broken s
        | some trash ↦
            and_then (ensure_dir_exists F s current) (λ _ t.
              and_then (ensure_dir_exists F t versions) (λ _ u. ensure_dir_exists F u trash))
      ]
    ]
  ]

  -- The result of set_file_metadata is ignored.
  abbrev pub with_metadata : Text → (mode mtime : ℕ) → F.State → F.State
  with_metadata path mode mtime s = (set_file_metadata F s path mode mtime).1

  -- From local_target_path on. The hashes before and after the copy are taken and compared as
  -- copy_file_with_hash_check does it.
  abbrev pub replace_target :
      ℕ → ClientConfig → F.State → SyncTask → Option Text → Io (Unit {0}) F.State
  replace_target fuel config s task none = broken s
  replace_target fuel config s task (some dst) =
      and_then (backup_old_version F fuel s config.dst_root task.rel_path) (λ _ t.
        and_then (copy_file_with_hash_check F fuel t task.src_path dst)
          (λ _ u. done tt (with_metadata dst task.mode task.mtime u)))

  unfoldable pub sync_local_file : ℕ → ClientConfig → F.State → SyncTask → Io (Unit {0}) F.State
  unfolding is_regular_file backup_old_version copy_file_with_hash_check set_file_metadata
      local_target_path
  sync_local_file fuel config s task =
      if is_regular_file F s task.src_path
      then elim (F.open_in s task.src_path) [
        | none ↦ broken s
        | some _ ↦
            if F.read_lock s task.src_path
            then replace_target fuel config s task
                (local_target_path max_path_len config.dst_root task.rel_path)
            else broken s
      ]
      else done tt s

  -- The renaming of the target, before its failure is answered by synchronising the new path.
  unfoldable pub rename_target : ℕ → ClientConfig → F.State → SyncTask → Io (Unit {0}) F.State
  unfolding ensure_parent_dir_exists safe_rename_or_copy_unlink local_target_path
  rename_target fuel config s task =
      elim (local_target_path max_path_len config.dst_root task.old_rel_path) [
        | none ↦ broken s
        | some old_path ↦ elim (local_target_path max_path_len config.dst_root task.rel_path) [
          | none ↦ broken s
          | some new_path ↦
              and_then (ensure_parent_dir_exists F s new_path)
                (λ _ t. safe_rename_or_copy_unlink F fuel t old_path new_path)
        ]
      ]

  abbrev pub or_else :
      Io (Unit {0}) F.State → (F.State → Io (Unit {0}) F.State) → Io (Unit {0}) F.State
  or_else (done _ s) k = done tt s
  or_else (broken s) k = k s
  or_else out_of_fuel k = out_of_fuel

  -- The end of sync_task_local: a directory is made, a file is copied.
  unfoldable pub sync_target : ℕ → ClientConfig → F.State → SyncTask → Io (Unit {0}) F.State
  unfolding ensure_dir_exists sync_local_file local_target_path
  sync_target fuel config s task =
      if task.is_dir
      then elim (local_target_path max_path_len config.dst_root task.rel_path) [
        | none ↦ broken s
        | some dst ↦ ensure_dir_exists F s dst
      ]
      else sync_local_file fuel config s task

  unfoldable pub sync_task_local : ℕ → ClientConfig → F.State → SyncTask → Io (Unit {0}) F.State
  unfolding sanitize_rel_path move_to_trash rename_target sync_target
  sync_task_local fuel config s task =
      if not (sanitize_rel_path task.rel_path)
      then broken s
      else if task.event_type == event_delete
      then move_to_trash F fuel s config.dst_root task.rel_path
      else if (task.event_type == event_rename) && not (is_empty task.old_rel_path)
      then or_else (rename_target fuel config s task) (λ t. sync_target fuel config t task)
      else sync_target fuel config s task
