-- ===== src/FileOps/Atomic.antt =====
-- copy_file_atomic of src/file_utils.c on one file system.
use mini_sync.Common.{
  ℕ, ◌≡◌, refl, ◌≢◌, ap, ◌∙◌, none, some, List, ◌++◌, arith, Text, codes, length, length-append,
}
use mini_sync.Net.{Io, done, broken, out_of_fuel, and_then}
use mini_sync.FilePath.Target.{max_path_len}
use mini_sync.FilePath.Relative.{fits-some}
use mini_sync.FileSystem.{
  FileSystem, IsFileSystem, RenameReply, renamed, cross_device, Same, SameBut,
}
use mini_sync.FileOps.{
  syncing_path, copy_file_plain, rename_reply, safe_rename_or_copy_unlink, copy_file_atomic,
  ensure_parent_dir_exists, unlink_path,
}
use mini_sync.FileOps.Outcome.{Outcome, Outcome-and_then, Outcome-or_clean}
use mini_sync.FileOps.Directories.{Keeps, ensure_parent_dir_exists-Keeps}
use mini_sync.FileOps.Copy.{Only, EnoughFor, copy_file_plain_lem}

pub syncing_path-eq : (dst tmp : Text) → syncing_path dst ≡ some tmp → tmp ≡ dst ++ codes ".syncing"
unfolding syncing_path
syncing_path-eq dst tmp e = (fits-some max_path_len (dst ++ codes ".syncing") tmp e).0

pub syncing_path-ne : (dst tmp : Text) → syncing_path dst ≡ some tmp → dst ≢ tmp
syncing_path-ne dst tmp e same = absurd (
    omega (
      arith,
      ap length (same ∙ syncing_path-eq dst tmp e),
      length-append {0} dst (codes ".syncing"),
    ))

module _ (F : FileSystem) (L : IsFileSystem F) where
  open L use {content, Sole}

  -- The file system is one device: rename(2) does not answer EXDEV.
  abbrev pub OneDevice : Type 0
  OneDevice = (s : F.State) (src dst : Text) → (F.rename s src dst).0 ≢ cross_device

  -- At most these two files have changed.
  abbrev pub SameButTwo : (p p' : Text) → F.State → F.State → Type 0
  SameButTwo p p' s t = (q : Text) → Sole q → q ≢ p → q ≢ p' → content t q ≡ content s q

  -- The file `tmp` with the bytes `b` has become `dst`, or else every file is as it was.
  abbrev pub Became : (tmp dst : Text) → List ℕ → F.State → F.State → Type 0
  Became tmp dst b s t =
      (content t dst ≡ some b)
      × (Sole tmp → tmp ≢ dst → content t tmp ≡ none)
      × SameButTwo dst tmp s t

  abbrev pub Moved : (tmp dst : Text) → List ℕ → F.State → Io (Unit {0}) F.State → Type 0
  Moved tmp dst b s r = Outcome (Became tmp dst b s) (λ t. Same content s t) r

  rename_reply-Moved :
      (fuel : ℕ) (s t : F.State) (tmp dst : Text) (b : List ℕ) (reply : RenameReply)
      → content s tmp ≡ some b
      → F.rename s tmp dst ≡ (reply, t)
      → reply ≢ cross_device
      → Moved tmp dst b s (rename_reply F fuel tmp dst (reply, t))
  rename_reply-Moved fuel s t tmp dst b renamed at e one = (
    L.rename-content s t tmp dst b e at,
    L.rename-gone s t tmp dst b e at,
    λ q sole ne ne'. L.rename-SameBut s t tmp dst q b e at sole ne' ne,
  )
  rename_reply-Moved fuel s t tmp dst b cross_device at e one = absurd (one refl)
  rename_reply-Moved fuel s t tmp dst b RenameReply.failed at e one =
      rw (← ap (λ o. o.1) e) (L.rename-Same s tmp dst (λ h. cc (ap (λ o. o.0) e)))

  -- On one device, moving a regular file takes it to the target as a whole or leaves every file as it was.
  pub safe_rename_or_copy_unlink-Moved :
      (fuel : ℕ) (s : F.State) (tmp dst : Text) (b : List ℕ)
      → OneDevice
      → content s tmp ≡ some b
      → Moved tmp dst b s (safe_rename_or_copy_unlink F fuel s tmp dst)
  unfolding safe_rename_or_copy_unlink
  safe_rename_or_copy_unlink-Moved fuel s tmp dst b one at =
      Outcome-and_then (Keeps F L s) (Keeps F L s) (Became tmp dst b s) (Same content s)
        (ensure_parent_dir_exists F s dst) (λ _ t. rename_reply F fuel tmp dst (F.rename t tmp dst))
        (ensure_parent_dir_exists-Keeps F L s dst)
        (λ t kept. from_kept t kept.0 (rename_reply F fuel tmp dst (F.rename t tmp dst)) (
          rename_reply-Moved fuel t (F.rename t tmp dst).1 tmp dst b (F.rename t tmp dst).0
            (kept.0 tmp ∙ at) refl (one t tmp dst)))
        (λ t kept. kept.0)
    where
      from_kept :
          (t : F.State)
          → Same content s t
          → (r : Io (Unit {0}) F.State) → Moved tmp dst b t r
          → Moved tmp dst b s r
      from_kept t same (done _ u) (has, gone, others) =
          (has, gone, λ q sole ne ne'. others q sole ne ne' ∙ same q)
      from_kept t same (broken u) kept = λ q. kept q ∙ same q
      from_kept t same out_of_fuel h = h

  -- The target has the bytes of the source, or is as it was; but for the target and the temporary file, nothing has
  -- changed.
  abbrev pub AllOrNothing : (src tmp dst : Text) → F.State → Io (Unit {0}) F.State → Type 0
  AllOrNothing src tmp dst s r =
      Outcome
        (λ t.
          (b : List ℕ) × (content s src ≡ some b)
          × (content t dst ≡ some b)
          × SameButTwo dst tmp s t)
        (λ t. (content t dst ≡ content s dst) × SameButTwo dst tmp s t) r

  -- On one device, copy_file_atomic ends, and puts the whole contents of the source in place of the target or leaves
  -- the target as it was, whatever fails. No other file changes but the temporary one. The source and the target
  -- have no other path, and the source is neither the target nor the temporary file.
  pub copy_file_atomic-AllOrNothing :
      (fuel : ℕ) (s : F.State) (src dst tmp : Text)
      → OneDevice
      → Sole src
      → Sole dst
      → src ≢ tmp
      → syncing_path dst ≡ some tmp
      → EnoughFor F L fuel s src
      → AllOrNothing src tmp dst s (copy_file_atomic F fuel s src dst)
  unfolding copy_file_atomic
  copy_file_atomic-AllOrNothing fuel s src dst tmp one sole sole' apart named enough =
      rw (named, copy_file_atomic)
        (Outcome-or_clean
          (λ t.
            (b : List ℕ) × (content s src ≡ some b)
            × (content t dst ≡ some b)
            × SameButTwo dst tmp s t)
          (λ t. (content t dst ≡ content s dst) × SameButTwo dst tmp s t) _ _
          (and_then (copy_file_plain F fuel s src tmp)
            (λ _ t. safe_rename_or_copy_unlink F fuel t tmp dst))
          (unlink_path F tmp)
          (Outcome-and_then _ (Only F L tmp s) _ _ (copy_file_plain F fuel s src tmp)
            (λ _ t. safe_rename_or_copy_unlink F fuel t tmp dst)
            (copy_file_plain_lem F L fuel s src tmp sole apart enough)
            (λ t h.
              moved t h.0 h.1 h.3.1.0 (safe_rename_or_copy_unlink F fuel t tmp dst)
                (safe_rename_or_copy_unlink-Moved fuel t tmp dst h.0 one h.3.0))
            (λ t h. (h.0 dst sole' (syncing_path-ne dst tmp named), λ q s' ne ne'. h.0 q s' ne')))
          (λ t h. h)
          (λ t h. (
            L.unlink-SameBut t tmp dst sole' (syncing_path-ne dst tmp named) ∙ h.0,
            λ q s' ne ne'. L.unlink-SameBut t tmp q s' ne' ∙ h.1 q s' ne ne',
          )))
    where
      moved :
          (t : F.State) (b : List ℕ)
          → content s src ≡ some b
          → SameBut content Sole tmp s t
          → (r : Io (Unit {0}) F.State) → Moved tmp dst b t r
          → AllOrNothing src tmp dst s r
      moved t b from kept (done _ u) (has, gone, others) =
          (b, from, has, λ q s' ne ne'. others q s' ne ne' ∙ kept q s' ne')
      moved t b from kept (broken u) same = (
        same dst ∙ kept dst sole' (syncing_path-ne dst tmp named),
        λ q s' ne ne'. same q ∙ kept q s' ne',
      )
      moved t b from kept out_of_fuel h = h
