-- ===== src/FileOps/Versions.antt =====
-- backup_old_version and move_to_trash of src/file_utils.c: what becomes of a file under `current` before it is
-- replaced or deleted.
use mini_sync.Common.{ℕ, Option, none, some, Text, codes, if◌then◌else◌}
use mini_sync.Net.{Io, done, broken}
use mini_sync.FilePath.Target.{max_path_len, current_path}
use mini_sync.FileSystem.{FileSystem}
use mini_sync.FileOps.{
  is_directory, ensure_dir_exists, copy_file_atomic, safe_rename_or_copy_unlink, stamped_path,
}

module _ (F : FileSystem) where
  abbrev pub version_to : ℕ → F.State → (src : Text) → Option Text → Io (Unit {0}) F.State
  version_to fuel s src none = broken s
  version_to fuel s src (some dst) =
      if is_directory F s src then ensure_dir_exists F s dst else copy_file_atomic F fuel s src dst

  -- The path of `rel_path` below `current` is built as current_path builds it.
  unfoldable pub backup_old_version :
      ℕ → F.State → (backup_root rel_path : Text) → Io (Unit {0}) F.State
  unfolding is_directory ensure_dir_exists copy_file_atomic stamped_path current_path
  backup_old_version fuel s backup_root rel_path =
      elim (current_path max_path_len backup_root rel_path) [
        | none ↦ broken s
        | some src ↦
            if F.access s src
            then version_to fuel s src (stamped_path F s backup_root (codes ".versions") rel_path)
            else done tt s
      ]

  abbrev pub trash_to : ℕ → F.State → (src : Text) → Option Text → Io (Unit {0}) F.State
  trash_to fuel s src none = broken s
  trash_to fuel s src (some dst) = safe_rename_or_copy_unlink F fuel s src dst

  unfoldable pub move_to_trash : ℕ → F.State → (backup_root rel_path : Text) → Io (Unit {0}) F.State
  unfolding safe_rename_or_copy_unlink stamped_path current_path
  move_to_trash fuel s backup_root rel_path =
      elim (current_path max_path_len backup_root rel_path) [
        | none ↦ broken s
        | some src ↦
            if F.access s src
            then trash_to fuel s src (stamped_path F s backup_root (codes ".trash") rel_path)
            else done tt s
      ]
