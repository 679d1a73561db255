-- ===== src/Tests/Files.antt =====
-- Files on a file system in memory: what the operations on files, local synchronisation and the server do to them.
use mini_sync.Common.{
  ◌≡◌, refl, ◌≢◌, ◌∙◌, sym, ◌⊎◌, true, false, none, some, arith, Text, codes, Text-discrete,
}
use mini_sync.FilePath.{
  skip_slashes, is_slash_at, join_path, sanitize_rel_path, contains, starts_with,
}
use mini_sync.FilePath.Target.{max_path_len, current_path}
use mini_sync.Task.{SyncTask, init_sync_task, event_modify, event_delete, event_rename}
use mini_sync.Config.{ClientConfig, default_config}
use mini_sync.FileSystem.{Same}
use mini_sync.FileSystem.Memory.{opened-none, Files, memory, memory-OneDevice, set}
use mini_sync.FileOps.{stamped_path, copy_file_atomic, copy_file_plain, is_regular_file}
use mini_sync.FileOps.Outcome.{Outcome}
use mini_sync.FileOps.Copy.{EnoughFor, Copied, copy_file_plain_lem}
use mini_sync.FileOps.Atomic.{AllOrNothing, copy_file_atomic-AllOrNothing}
use mini_sync.FileOps.Kept.{IsTrash, Trashed}
use mini_sync.FileOps.Checked.{AmpleAt}
use mini_sync.Local.{sync_task_local}
use mini_sync.Local.Sync.{Synced, Unbroken}
use mini_sync.Local.Task.{sync_task_local-Synced, sync_task_local-Trashed, sync_task_local-Renamed}
use mini_sync.Tests.Places.{
  L, ne, memory-Ample, root, rel, source, target, temporary, target-at, trash-at, temporary-at,
  laid_out, files, AmpleAt-of_length, source-at, target_holds,
}

EnoughFor-source : EnoughFor memory L 20 files source
EnoughFor-source = memory-Ample 20 (codes "new text") (omega arith) files source source-at

copy_file_plain_example :
    Copied memory L source target files (copy_file_plain memory 20 files source target)
copy_file_plain_example =
    copy_file_plain_lem memory L 20 files source target tt laid_out.src-dst EnoughFor-source

copy_file_atomic_example :
    AllOrNothing memory L source temporary target files
      (copy_file_atomic memory 20 files source target)
copy_file_atomic_example =
    copy_file_atomic-AllOrNothing memory L 20 files source target temporary memory-OneDevice tt tt
      laid_out.src-tmp temporary-at EnoughFor-source

source-regular : is_regular_file memory files source ≡ true
unfolding is_regular_file set Text-discrete
source-regular = refl

abbrev task : SyncTask
task = record init_sync_task {
  event_type = event_modify;
  src_path = source;
  rel_path = rel;
  file_size = 8;
}

abbrev config : ClientConfig
config = record default_config { dst_root = root }

source_ample : AmpleAt memory L 20 files source
source_ample = AmpleAt-of_length 20 files source (codes "new text") source-at (omega arith)

target_ample : AmpleAt memory L 20 files target
target_ample = AmpleAt-of_length 20 files target (codes "old") target_holds (omega arith)

sync_task_local-Synced_example :
    Outcome
      (Synced memory L root rel source target files)
      (Unbroken memory L source target files)
      (sync_task_local memory 20 config files task)
sync_task_local-Synced_example =
    sync_task_local-Synced memory L memory-OneDevice 20 config files task target temporary laid_out
      source_ample target_ample refl refl refl source-regular

abbrev deletion : SyncTask
deletion = record init_sync_task { event_type = event_delete; rel_path = rel }

trash_apart : (p : Text) → IsTrash memory L root rel p → target ≢ p
unfolding Text-discrete
trash_apart p (s, e) same =
    ne target (codes "/b/.trash/2024-05-06_07-08-09/f") refl (same ∙ sym (the_trash s p e))
  where
    the_trash :
        (s : Files) (p : Text)
        → stamped_path memory s root (codes ".trash") rel ≡ some p
        → codes "/b/.trash/2024-05-06_07-08-09/f" ≡ p
    the_trash s p e =
        let same : some (codes "/b/.trash/2024-05-06_07-08-09/f") ≡ some p = sym (trash-at s) ∙ e in
        cc

sync_task_local-Trashed_example :
    Outcome
      (Trashed memory L root rel target (codes "old"))
      (Same L.content files)
      (sync_task_local memory 20 config files deletion)
sync_task_local-Trashed_example =
    sync_task_local-Trashed memory L memory-OneDevice 20 config files deletion target (codes "old")
      refl target-at tt trash_apart target_holds

-- The target of another path takes the place of this one.
abbrev renaming : SyncTask
renaming = record init_sync_task {
  event_type = event_rename;
  src_path = source;
  rel_path = rel;
  old_rel_path = codes "g";
}

old_target-at : current_path max_path_len root (codes "g") ≡ some (codes "/b/current/g")
unfolding current_path join_path skip_slashes is_slash_at sanitize_rel_path contains starts_with
    Text-discrete
old_target-at = refl

abbrev two_files : Files
two_files =
    set source (some (codes "text")) (set (codes "/b/current/g") (some (codes "text")) (λ p. none))

source_of_two : two_files source ≡ some (codes "text")
unfolding set Text-discrete
source_of_two = refl

old_target_holds : two_files (codes "/b/current/g") ≡ some (codes "text")
unfolding set Text-discrete
old_target_holds = refl

two_ample : AmpleAt memory L 20 two_files target
unfolding set Text-discrete
two_ample t q same i e = absurd (opened-none (t q) i same e)

sync_task_local-Renamed_example :
    Outcome
      (λ t.
        ((t target ≡ some (codes "text"))
          × (Unit → codes "/b/current/g" ≢ target → t (codes "/b/current/g") ≡ none))
        ⊎ (Synced memory L root rel source target two_files t
            ⊎ ((is_regular_file memory t source ≡ false) × Same L.content two_files t)))
      (Unbroken memory L source target two_files)
      (sync_task_local memory 20 config two_files renaming)
sync_task_local-Renamed_example =
    sync_task_local-Renamed memory L memory-OneDevice 20 config two_files renaming target temporary
      laid_out (AmpleAt-of_length 20 two_files source (codes "text") source_of_two (omega arith))
      two_ample refl (codes "/b/current/g") (codes "text") refl refl old_target-at old_target_holds
