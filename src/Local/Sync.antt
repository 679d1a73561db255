-- ===== src/Local/Sync.antt =====
-- sync_local_file of src/transfer.c on one file system: a file is replaced as a whole, and what it replaces is kept.
use mini_sync.Common.{
  ℕ, ◌≡◌, refl, ◌≢◌, ◌∙◌, sym, ◌⊎◌, inl, inr, true, some, List, Text, Bool-cases, Option-cases,
}
use mini_sync.Net.{done, and_then}
use mini_sync.FilePath.Target.{local_target_path}
use mini_sync.Task.{SyncTask}
use mini_sync.Config.{ClientConfig}
use mini_sync.FileSystem.{FileSystem, IsFileSystem}
use mini_sync.FileOps.{syncing_path, is_regular_file, copy_file_with_hash_check}
use mini_sync.FileOps.Versions.{backup_old_version}
use mini_sync.FileOps.Outcome.{Outcome, Outcome-and_then}
use mini_sync.FileOps.Directories.{set_file_metadata-Same}
use mini_sync.FileOps.Atomic.{OneDevice}
use mini_sync.FileOps.Kept.{
  IsVersion, Apart, Placed, SameButVersions, HasVersion, backup_old_version-Kept,
}
use mini_sync.FileOps.Checked.{
  AmpleAt, EnoughFor-of_AmpleAt, Whole, OldOrWhole, copy_file_with_hash_check-Whole,
}
use mini_sync.Local.{with_metadata, sync_local_file}

module _ (F : FileSystem) (L : IsFileSystem F) where
  open L use {content, Sole}

  -- The source, the target and the temporary file of a task are apart from each other and from the versions.
  pub record IsLaidOut (root rel src dst tmp : Text) : Type 0 where
    pub placed : Placed F L root rel dst
    pub named : syncing_path dst ≡ some tmp
    pub src_sole : Sole src
    pub src_apart : Apart F L root rel src
    pub src-dst : src ≢ dst
    pub src-tmp : src ≢ tmp
    pub versions-tmp : (version : Text) → IsVersion F L root rel version → version ≢ tmp

  -- The target has the bytes of the source, and what it had is in a version.
  abbrev pub Synced : (root rel src dst : Text) → F.State → F.State → Type 0
  Synced root rel src dst s t =
      (b : List ℕ) × (content s src ≡ some b)
      × (content t dst ≡ some b)
      × (content t src ≡ content s src)
      × HasVersion F L root rel dst s t

  -- The target is as it was, or has the bytes of the source.
  abbrev pub Unbroken : (src dst : Text) → F.State → F.State → Type 0
  Unbroken src dst s t =
      ((content t dst ≡ content s dst) ⊎ (content t dst ≡ content s src))
      × (content t src ≡ content s src)

  module _ (one : OneDevice F L) (fuel : ℕ) (s : F.State) (root rel src dst tmp : Text)
      (laid : IsLaidOut root rel src dst tmp) (ample : AmpleAt F L fuel s src) where
    open laid use {placed}

    -- After the version has been made: the copy.
    copied :
        (t : F.State)
        → SameButVersions F L root rel s t
        → HasVersion F L root rel dst s t
        → (u : F.State) → Whole F L src tmp dst t u
        → Synced root rel src dst s u
    copied t same kept u (b, from, to, others) =
        let from_s : content s src ≡ some b = sym (same src laid.src_sole laid.src_apart) ∙ from in
        (
          b,
          from_s,
          to,
          others src laid.src_sole laid.src-dst laid.src-tmp
              ∙ same src laid.src_sole laid.src_apart,
          λ old at.
              let (v, is, has) = kept old at in
              (
                v,
                is,
                others v (placed.versions_sole v is) (λ e. (placed.apart v tmp is).0 (sym e))
                      (laid.versions-tmp v is)
                    ∙ has,
              ),
        )

    not_copied :
        (t : F.State)
        → SameButVersions F L root rel s t
        → (u : F.State) → OldOrWhole F L src tmp dst t u
        → Unbroken src dst s u
    not_copied t same u (which, others) = (
      elim which [
        | inl old ↦ inl (old ∙ same dst placed.sole placed.apart)
        | inr new ↦ inr (new ∙ same src laid.src_sole laid.src_apart)
      ],
      others src laid.src_sole laid.src-dst laid.src-tmp ∙ same src laid.src_sole laid.src_apart,
    )

    Synced-metadata :
        (mode mtime : ℕ) (u : F.State)
        → Synced root rel src dst s u
        → Synced root rel src dst s (with_metadata F dst mode mtime u)
    Synced-metadata mode mtime u (b, from, to, kept, version) =
        let same = set_file_metadata-Same F L u dst mode mtime in
        (
          b,
          from,
          same dst ∙ to,
          same src ∙ kept,
          λ old at. let (v, is, has) = version old at in (v, is, same v ∙ has),
        )

    replace-Synced :
        (mode mtime : ℕ)
        → AmpleAt F L fuel s dst
        → Outcome (Synced root rel src dst s) (Unbroken src dst s) (
            and_then (backup_old_version F fuel s root rel) (λ _ t.
              and_then
                (copy_file_with_hash_check F fuel t src dst)
                (λ _ u. done tt (with_metadata F dst mode mtime u))))
    replace-Synced mode mtime room =
        Outcome-and_then _ _ _ _ (backup_old_version F fuel s root rel) _
          (backup_old_version-Kept F L one fuel s root rel dst placed
            (EnoughFor-of_AmpleAt F L fuel s dst room))
          (λ t kept.
            Outcome-and_then _ _ _ _ (copy_file_with_hash_check F fuel t src dst) _
              (copy_file_with_hash_check-Whole F L fuel t src dst tmp one laid.src_sole placed.sole
                laid.src-tmp laid.named
                (λ u q same. ample u q (same ∙ kept.0 src laid.src_sole laid.src_apart)))
              (λ u h. Synced-metadata mode mtime u (copied t kept.0 kept.1 u h))
              (λ u h. not_copied t kept.0 u h))
          (λ t same.
            (inl (same dst placed.sole placed.apart), same src laid.src_sole laid.src_apart))

  -- Synchronising a regular file ends. After 0 the target has exactly the bytes of the source, and the bytes that it
  -- had before are in a version of it; after -1 it is as it was or has all bytes of the source, and never anything in
  -- between. The source is not changed. All paths lie on one device and lead to different files, and the fuel
  -- is enough for the two files.
  pub sync_local_file-Synced :
      (fuel : ℕ) (config : ClientConfig) (s : F.State) (task : SyncTask) (dst tmp : Text)
      → OneDevice F L
      → IsLaidOut config.dst_root task.rel_path task.src_path dst tmp
      → AmpleAt F L fuel s task.src_path
      → AmpleAt F L fuel s dst
      → is_regular_file F s task.src_path ≡ true
      → Outcome
          (Synced config.dst_root task.rel_path task.src_path dst s)
          (Unbroken task.src_path dst s)
          (sync_local_file F fuel config s task)
  unfolding sync_local_file local_target_path
  sync_local_file-Synced fuel config s task dst tmp one laid ample room regular =
      elim (Option-cases (F.open_in s task.src_path)) [
        | inl missing ↦ rw (regular, missing, sync_local_file) (inl refl, refl)
        | inr (i, at) ↦ elim (Bool-cases (F.read_lock s task.src_path)) [
          | inr busy ↦ rw (regular, at, busy, sync_local_file) (inl refl, refl)
          | inl free ↦
              rw (regular, at, free, laid.placed.at, sync_local_file)
                (replace-Synced one fuel s config.dst_root task.rel_path task.src_path dst tmp laid
                  ample task.mode task.mtime room)
        ]
      ]
