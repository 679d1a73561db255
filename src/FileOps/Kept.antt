-- ===== src/FileOps/Kept.antt =====
-- backup_old_version and move_to_trash of src/file_utils.c on one file system: the version or trash that is kept, and what stays as it was.
use mini_sync.Common.{
  ℕ, ◌≡◌, refl, ◌≢◌, ◌∙◌, sym, true, false, Option, none, some, List, Text, codes, ◌⊎◌, inl, inr,
  false≢true, Bool-cases, Option-cases, if◌then◌else◌,
}
use mini_sync.Net.{Io, done, broken}
use mini_sync.FilePath.Target.{max_path_len, current_path}
use mini_sync.FileSystem.{FileSystem, IsFileSystem, Same}
use mini_sync.FileOps.{
  syncing_path, is_directory, ensure_dir_exists, copy_file_atomic, safe_rename_or_copy_unlink,
  stamped_path,
}
use mini_sync.FileOps.Outcome.{Outcome, Outcome-weaken}
use mini_sync.FileOps.Directories.{ensure_dir_exists-Keeps}
use mini_sync.FileOps.Copy.{EnoughFor}
use mini_sync.FileOps.Atomic.{
  OneDevice, safe_rename_or_copy_unlink-Moved, copy_file_atomic-AllOrNothing,
}
use mini_sync.FileOps.Versions.{version_to, backup_old_version, trash_to, move_to_trash}

copy_file_atomic-too_long :
    (F : FileSystem) (fuel : ℕ) (s : F.State) (src dst : Text)
    → syncing_path dst ≡ none
    → copy_file_atomic F fuel s src dst ≡ broken s
unfolding copy_file_atomic
copy_file_atomic-too_long F fuel s src dst long = rw (long, copy_file_atomic) refl

module _ (F : FileSystem) (L : IsFileSystem F) where
  open L use {content, Sole}

  -- A version of `rel`, made at some time.
  abbrev pub IsVersion : (root rel version : Text) → Type 0
  IsVersion root rel version =
      (s : F.State) × (stamped_path F s root (codes ".versions") rel ≡ some version)

  -- No version, and no temporary file beside one.
  abbrev pub Apart : (root rel p : Text) → Type 0
  Apart root rel p =
      (version tmp : Text)
      → IsVersion root rel version
      → (p ≢ version) × (syncing_path version ≡ some tmp → p ≢ tmp)

  -- `dst` is the target of `rel`; no other path leads to it or to a version of it.
  pub record Placed (root rel dst : Text) : Type 0 where
    pub at : current_path max_path_len root rel ≡ some dst
    pub sole : Sole dst
    pub versions_sole : (version : Text) → IsVersion root rel version → Sole version
    pub apart : Apart root rel dst

  -- Every file but the versions of `rel` is as it was.
  abbrev pub SameButVersions : (root rel : Text) → F.State → F.State → Type 0
  SameButVersions root rel s t = (p : Text) → Sole p → Apart root rel p → content t p ≡ content s p

  -- The bytes that the target had are in a version of it.
  abbrev pub HasVersion : (root rel dst : Text) → F.State → F.State → Type 0
  HasVersion root rel dst s t =
      (old : List ℕ)
      → content s dst ≡ some old
      → (v : Text) × IsVersion root rel v × (content t v ≡ some old)

  abbrev pub Kept : (root rel dst : Text) → F.State → Io (Unit {0}) F.State → Type 0
  Kept root rel dst s r =
      Outcome (λ t. SameButVersions root rel s t × HasVersion root rel dst s t)
        (SameButVersions root rel s) r

  module _ (one : OneDevice F L) (fuel : ℕ) (s : F.State) (root rel dst : Text)
      (placed : Placed root rel dst) (enough : EnoughFor F L fuel s dst) where
    not_directory : (old : List ℕ) → content s dst ≡ some old → is_directory F s dst ≡ false
    unfolding is_directory
    not_directory old at = elim (Option-cases (F.stat s dst)) [
      | inl missing ↦ rw (missing, is_directory) refl
      | inr (st, found) ↦ rw (found, is_directory) (L.stat-content s dst old st at found)
    ]

    copy-Kept :
        (version : Text)
        → stamped_path F s root (codes ".versions") rel ≡ some version
        → Kept root rel dst s (copy_file_atomic F fuel s dst version)
    copy-Kept version stamped = elim (Option-cases (syncing_path version)) [
      | inl long ↦ rw (copy_file_atomic-too_long F fuel s dst version long) (λ p sole apart. refl)
      | inr (tmp, named) ↦
          Outcome-weaken _ _ _ _ (copy_file_atomic F fuel s dst version)
            (copy_file_atomic-AllOrNothing F L fuel s dst version tmp one placed.sole
              (placed.versions_sole version (s, stamped))
              ((placed.apart version tmp (s, stamped)).1 named) named enough)
            (λ t h. (
              λ p sole apart.
                  h.3 p sole (apart version tmp (s, stamped)).0
                    ((apart version tmp (s, stamped)).1 named),
              λ old at. (version, (s, stamped), h.2 ∙ sym h.1 ∙ at),
            ))
            (λ t h p sole apart.
              h.1 p sole (apart version tmp (s, stamped)).0
                ((apart version tmp (s, stamped)).1 named))
    ]

    -- Before a target is replaced, backup_old_version ends, and after 0 the bytes that the target had are in a
    -- version of it; whatever it returns, the target and all other files are as they were.
    pub backup_old_version-Kept : Kept root rel dst s (backup_old_version F fuel s root rel)
    unfolding backup_old_version
    backup_old_version-Kept =
        rw (placed.at, backup_old_version) (accessed (Bool-cases (F.access s dst)))
      where
        nothing_there : F.access s dst ≡ false → HasVersion root rel dst s s
        nothing_there missing old at =
            absurd (false≢true (sym missing ∙ L.access-content s dst old at))

        version_to-Kept :
            (to : Option Text)
            → ((version : Text)
                → to ≡ some version
                → stamped_path F s root (codes ".versions") rel ≡ some version)
            → Kept root rel dst s (version_to F fuel s dst to)
        version_to-Kept none stamped = λ p sole apart. refl
        version_to-Kept (some version) stamped = elim (Bool-cases (is_directory F s dst)) [
          | inr file ↦ rw file (copy-Kept version (stamped version refl))
          | inl dir ↦ rw dir (
              Outcome-weaken _ _ _ _ (ensure_dir_exists F s version)
                (ensure_dir_exists-Keeps F L s version)
                (λ t kept. (
                  λ p sole apart. kept.0 p,
                  λ old at. absurd (false≢true (sym (not_directory old at) ∙ dir)),
                ))
                (λ t kept p sole apart. kept.0 p))
        ]

        accessed :
            (F.access s dst ≡ true) ⊎ (F.access s dst ≡ false)
            → Kept root rel dst s (
                if F.access s dst
                then version_to F fuel s dst (stamped_path F s root (codes ".versions") rel)
                else done tt s)
        accessed (inl there) =
            rw there
              (version_to-Kept (stamped_path F s root (codes ".versions") rel) (λ version e. e))
        accessed (inr missing) = rw missing ((λ p sole apart. refl), nothing_there missing)

  -- A place in the trash for `rel`.
  abbrev pub IsTrash : (root rel p : Text) → Type 0
  IsTrash root rel p = (s : F.State) × (stamped_path F s root (codes ".trash") rel ≡ some p)

  -- The target is gone, and what it had is in the trash.
  abbrev pub Trashed : (root rel dst : Text) → List ℕ → F.State → Type 0
  Trashed root rel dst b t =
      (p : Text) × IsTrash root rel p × (content t p ≡ some b) × (content t dst ≡ none)

  -- On one device, move_to_trash of a target with the bytes `b` and no other path ends: after 0 these bytes are in the trash and the
  -- target is gone, after -1 every file is as it was.
  pub move_to_trash-Trashed :
      (fuel : ℕ) (s : F.State) (root rel dst : Text) (b : List ℕ)
      → OneDevice F L
      → current_path max_path_len root rel ≡ some dst
      → Sole dst
      → ((p : Text) → IsTrash root rel p → dst ≢ p)
      → content s dst ≡ some b
      → Outcome (Trashed root rel dst b) (Same content s) (move_to_trash F fuel s root rel)
  unfolding move_to_trash
  move_to_trash-Trashed fuel s root rel dst b one at sole apart has =
      rw (at, L.access-content s dst b has, move_to_trash)
        (moved (stamped_path F s root (codes ".trash") rel) (λ p e. e))
    where
      moved :
          (to : Option Text)
          → ((p : Text) → to ≡ some p → stamped_path F s root (codes ".trash") rel ≡ some p)
          → Outcome (Trashed root rel dst b) (Same content s) (trash_to F fuel s dst to)
      moved none stamped = λ q. refl
      moved (some p) stamped =
          Outcome-weaken _ _ _ _ (safe_rename_or_copy_unlink F fuel s dst p)
            (safe_rename_or_copy_unlink-Moved F L fuel s dst p b one has)
            (λ t h. (p, (s, stamped p refl), h.0, h.1 sole (apart p (s, stamped p refl))))
            (λ t h. h)
