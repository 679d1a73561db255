-- ===== src/Local/Task.antt =====
-- sync_task_local of src/transfer.c on one file system: what each kind of task does to the backup.
use mini_sync.Common.{
  ℕ, ◌≡◌, refl, ◌≢◌, ◌∙◌, sym, ◌⊎◌, inl, inr, true, false, not, ◌&&◌, none, some, List, arith, Text,
  ◌==◌, if◌then◌else◌, Bool-cases,
}
use mini_sync.Net.{Io, done, broken, out_of_fuel}
use mini_sync.FilePath.{sanitize_rel_path}
use mini_sync.FilePath.Target.{max_path_len, current_path, local_target_path}
use mini_sync.Task.{SyncTask, event_delete, event_rename}
use mini_sync.Config.{ClientConfig, is_empty}
use mini_sync.FileSystem.{FileSystem, IsFileSystem, Same}
use mini_sync.FileOps.{is_regular_file, ensure_parent_dir_exists, safe_rename_or_copy_unlink}
use mini_sync.FileOps.Outcome.{Outcome, Outcome-and_then, Outcome-weaken}
use mini_sync.FileOps.Directories.{Keeps, ensure_parent_dir_exists-Keeps}
use mini_sync.FileOps.Atomic.{OneDevice, safe_rename_or_copy_unlink-Moved}
use mini_sync.FileOps.Versions.{move_to_trash}
use mini_sync.FileOps.Kept.{IsTrash, Trashed, move_to_trash-Trashed}
use mini_sync.FileOps.Checked.{AmpleAt}
use mini_sync.Local.{rename_target, or_else, sync_local_file, sync_target, sync_task_local}
use mini_sync.Local.Sync.{IsLaidOut, Synced, Unbroken, sync_local_file-Synced}

current_path-clean :
    (size : ℕ) (root rel dst : Text)
    → current_path size root rel ≡ some dst
    → sanitize_rel_path rel ≡ true
unfolding current_path
current_path-clean size root rel dst at = ground (arith, at)

-- The tests of sync_task_local on a task for an accepted path.
sync_task_local-eq :
    (F : FileSystem) (fuel : ℕ) (config : ClientConfig) (s : F.State) (task : SyncTask)
    → sanitize_rel_path task.rel_path ≡ true
    → sync_task_local F fuel config s task ≡ (
        if task.event_type == event_delete
        then move_to_trash F fuel s config.dst_root task.rel_path
        else if (task.event_type == event_rename) && not (is_empty task.old_rel_path)
        then or_else F (rename_target F fuel config s task) (λ t. sync_target F fuel config t task)
        else sync_target F fuel config s task)
unfolding sync_task_local
sync_task_local-eq F fuel config s task clean = rw (clean, sync_task_local) refl

module _ (F : FileSystem) (L : IsFileSystem F) (one : OneDevice F L) (fuel : ℕ)
    (config : ClientConfig) (s : F.State) (task : SyncTask) (dst : Text) where
  open L use {content, Sole}

  -- A task to delete a target with the bytes `b` ends: after 0 they are in the trash and the target is gone, after -1
  -- every file is as it was. Renaming crosses no device, no other path leads to the target, and the target is no place
  -- in the trash.
  pub sync_task_local-Trashed :
      (b : List ℕ)
      → task.event_type ≡ event_delete
      → current_path max_path_len config.dst_root task.rel_path ≡ some dst
      → Sole dst
      → ((p : Text) → IsTrash F L config.dst_root task.rel_path p → dst ≢ p)
      → content s dst ≡ some b
      → Outcome
          (Trashed F L config.dst_root task.rel_path dst b)
          (Same content s)
          (sync_task_local F fuel config s task)
  sync_task_local-Trashed b kind at sole apart has =
      let deletes : (task.event_type == event_delete) ≡ true = ground (arith, kind) in
      rw
        (
          sync_task_local-eq F fuel config s task
              (current_path-clean max_path_len config.dst_root task.rel_path dst at),
          deletes,
        )
        (move_to_trash-Trashed F L fuel s config.dst_root task.rel_path dst b one at sole apart has)

  module _ (tmp : Text) (laid : IsLaidOut F L config.dst_root task.rel_path task.src_path dst tmp)
      (ample : AmpleAt F L fuel s task.src_path) (room : AmpleAt F L fuel s dst)
      (file : task.is_dir ≡ false) where
    abbrev Copied : F.State → F.State → Type 0
    Copied = Synced F L config.dst_root task.rel_path task.src_path dst

    abbrev Whole : F.State → F.State → Type 0
    Whole = Unbroken F L task.src_path dst

    -- From a state with the same files.
    sync_target-Synced :
        (t : F.State)
        → Same content s t
        → is_regular_file F t task.src_path ≡ true
        → Outcome (Copied s) (Whole s) (sync_target F fuel config t task)
    unfolding sync_target
    sync_target-Synced t same regular =
        rw (file, sync_target)
          (Outcome-weaken (Copied t) (Whole t) (Copied s) (Whole s) _
            (sync_local_file-Synced F L fuel config t task dst tmp one laid
              (λ u q e. ample u q (e ∙ same task.src_path)) (λ u q e. room u q (e ∙ same dst))
              regular)
            (λ u h. (
              h.0,
              sym (same task.src_path) ∙ h.1,
              h.2,
              h.3 ∙ same task.src_path,
              λ old at. h.4 old (same dst ∙ at),
            ))
            (λ u h. (
              elim h.0 [
                | inl old ↦ inl (old ∙ same dst)
                | inr new ↦ inr (new ∙ same task.src_path)
              ],
              h.1 ∙ same task.src_path,
            )))

    -- A task for a regular file that is neither a deletion nor a renaming ends: after 0 the target has exactly the
    -- bytes of the source, and the bytes that it had before are in a version of it; after -1 it is as it was or has
    -- all bytes of the source, since the hashes are compared after the target was replaced, and never anything in
    -- between. The source is not changed. The task is no directory, renaming crosses no device, the paths lead to
    -- different files and have no other path, the fuel is enough for the two files, and nobody else changes files
    -- meanwhile, so that no other worker has the temporary file of the same target.
    pub sync_task_local-Synced :
        ((task.event_type == event_delete) ≡ false)
        → ((task.event_type == event_rename) ≡ false)
        → is_regular_file F s task.src_path ≡ true
        → Outcome (Copied s) (Whole s) (sync_task_local F fuel config s task)
    sync_task_local-Synced kept here regular =
        rw
          (
            sync_task_local-eq F fuel config s task
                (current_path-clean max_path_len config.dst_root task.rel_path dst laid.placed.at),
            kept,
            here,
          )
          (sync_target-Synced s (λ q. refl) regular)

    -- The bytes that the old path had are at the new one, and nothing is at the old one.
    abbrev pub Renamed : (old_path : Text) → List ℕ → F.State → Type 0
    Renamed old_path b t =
        (content t dst ≡ some b) × (Sole old_path → old_path ≢ dst → content t old_path ≡ none)

    -- The source is no regular file any more, and nothing was done.
    abbrev pub Skipped : F.State → Type 0
    Skipped t = (is_regular_file F t task.src_path ≡ false) × Same content s t

    rename_target-Became :
        (old_path : Text) (b : List ℕ)
        → current_path max_path_len config.dst_root task.old_rel_path ≡ some old_path
        → content s old_path ≡ some b
        → Outcome (Renamed old_path b) (Same content s) (rename_target F fuel config s task)
    unfolding rename_target local_target_path
    rename_target-Became old_path b at has =
        rw (at, laid.placed.at, rename_target)
          (Outcome-and_then (Keeps F L s) (Keeps F L s) (Renamed old_path b) (Same content s)
            (ensure_parent_dir_exists F s dst) _ (ensure_parent_dir_exists-Keeps F L s dst)
            (λ t kept.
              Outcome-weaken _ _ (Renamed old_path b) (Same content s)
                (safe_rename_or_copy_unlink F fuel t old_path dst)
                (safe_rename_or_copy_unlink-Moved F L fuel t old_path dst b one
                  (kept.0 old_path ∙ has))
                (λ u h. (h.0, h.1)) (λ u same q. same q ∙ kept.0 q))
            (λ t kept. kept.0))

    -- The copy from a state with the same files, whatever has become of the source.
    sync_target-Skipped :
        (t : F.State)
        → Same content s t
        → Outcome (λ u. Copied s u ⊎ Skipped u) (Whole s) (sync_target F fuel config t task)
    unfolding sync_target sync_local_file
    sync_target-Skipped t same = elim (Bool-cases (is_regular_file F t task.src_path)) [
      | inl regular ↦
          Outcome-weaken (Copied s) (Whole s) (λ u. Copied s u ⊎ Skipped u) (Whole s)
            (sync_target F fuel config t task) (sync_target-Synced t same regular) (λ u c. inl c)
            (λ u q. q)
      | inr gone ↦ rw (file, gone, sync_target, sync_local_file) (inr (gone, same))
    ]

    or_else-Outcome :
        (P P' Q : F.State → Type 0) (r : Io (Unit {0}) F.State)
        (k : F.State → Io (Unit {0}) F.State)
        → Outcome P (Same content s) r
        → ((t : F.State) → Same content s t → Outcome P' Q (k t))
        → Outcome (λ t. P t ⊎ P' t) Q (or_else F r k)
    or_else-Outcome P P' Q (done _ t) k h next = inl h
    or_else-Outcome P P' Q (broken t) k h next =
        Outcome-weaken P' Q (λ u. P u ⊎ P' u) Q (k t) (next t h) (λ u c. inr c) (λ u q. q)
    or_else-Outcome P P' Q out_of_fuel k h next = h

    -- A renaming of an old target with the bytes `b` ends. After 0 the new path has these bytes, and the old one is
    -- gone if it is another and no link leads to its file; or the new path has the bytes of the source and a version
    -- keeps what it had; or the source is no regular file any more and every file is as it was. After -1 the new path
    -- is as it was or has all bytes of the source. The task is no directory, renaming crosses no device, source and
    -- new path lead to different files and have no other path, the fuel is enough for the two files, and nobody else
    -- changes files meanwhile.
    pub sync_task_local-Renamed :
        (old_path : Text) (b : List ℕ)
        → task.event_type ≡ event_rename
        → is_empty task.old_rel_path ≡ false
        → current_path max_path_len config.dst_root task.old_rel_path ≡ some old_path
        → content s old_path ≡ some b
        → Outcome
            (λ t. Renamed old_path b t ⊎ (Copied s t ⊎ Skipped t))
            (Whole s)
            (sync_task_local F fuel config s task)
    sync_task_local-Renamed old_path b kind old at has =
        let kept : (task.event_type == event_delete) ≡ false = ground (arith, kind) in
        let renames : (task.event_type == event_rename) ≡ true = ground (arith, kind) in
        rw
          (
            sync_task_local-eq F fuel config s task
                (current_path-clean max_path_len config.dst_root task.rel_path dst laid.placed.at),
            kept,
            renames,
            old,
          )
          (or_else-Outcome (Renamed old_path b) (λ u. Copied s u ⊎ Skipped u) (Whole s)
            (rename_target F fuel config s task) (λ t. sync_target F fuel config t task)
            (rename_target-Became old_path b at has) sync_target-Skipped)
