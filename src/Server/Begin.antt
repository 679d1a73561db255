-- ===== src/Server/Begin.antt =====
-- server_handle_file_begin and handle_large_block_stream of src/server.c: a target changes as a whole.
use mathlib.Core.Path.{subst}
use mini_sync.Common.{
  ℕ, ◌≡◌, refl, ◌∙◌, ap, ◌⊎◌, inl, inr, Bool, true, false, some, List, [], arith, Text, Bool-cases,
  codes,
}
use mini_sync.Input.{Input}
use mini_sync.Output.{Output}
use mini_sync.Net.{and_then}
use mini_sync.Protocol.{SyncHeader}
use mini_sync.Blocks.{Received, ended, recv_file_blocks_until_end}
use mini_sync.Blocks.Accept.{recv_file_blocks-AllChecked}
use mini_sync.Blocks.Keep.{recv_file_blocks-AtEnd}
use mini_sync.FileSystem.{is_dir_mode, FileSystem, IsFileSystem, SameBut}
use mini_sync.FileOps.{ensure_parent_dir_exists}
use mini_sync.FileOps.Outcome.{Outcome, Outcome-and_then, Outcome-weaken}
use mini_sync.FileOps.Directories.{Keeps, ensure_parent_dir_exists-Keeps}
use mini_sync.FileOps.Versions.{backup_old_version}
use mini_sync.FileOps.Atomic.{OneDevice}
use mini_sync.FileOps.Kept.{backup_old_version-Kept}
use mini_sync.FileOps.Checked.{AmpleAt, EnoughFor-of_AmpleAt}
use mini_sync.Server.{Session, target_paths, open_mode, hash_or, temp_file, refuse}
use mini_sync.Server.Handlers.{take_place, file_ended, receive_file, server_handle_file_begin}
use mini_sync.Server.Writing.{Writing, Writing-pwrite, after_blocks-Safely}
use mini_sync.Server.Replace.{
  Safely, IsServed, Ready, Taken, Untouched, HasHash, Ready-SameBut, Taken-Became, refuse-Safely,
  on_files-Safely, take_place-Safely, check_hash-Safely,
}

pub target_paths-eq :
    (F : FileSystem) (L : IsFileSystem F) (root rel dst tmp : Text)
    → IsServed F L root rel dst tmp
    → target_paths root rel ≡ some (dst, tmp)
unfolding target_paths
target_paths-eq F L root rel dst tmp served = rw (served.placed.at, served.named, target_paths) refl

-- The announced hash that is compared in the end.
hash_or-agrees :
    (first second : ℕ)
    → (second ≡ 0) ⊎ ((first ≡ 0) ⊎ (first ≡ second))
    → (second ≡ 0) ⊎ (hash_or first second ≡ second)
hash_or-agrees first second (inl none_) = inl none_
hash_or-agrees first second (inr agreed) = inr (ground (arith, agreed))

module _ (F : FileSystem) (L : IsFileSystem F) (malloc : ℕ → Bool) (I : Input) (O : Output)
    (one : OneDevice F L) (s : F.State) (root rel dst tmp : Text)
    (served : IsServed F L root rel dst tmp) where
  open L use {content, Sole}

  abbrev Prepared : F.State → Type 0
  Prepared = Ready F L s root rel dst

  abbrev Old : F.State → Type 0
  Old = Untouched F L s root rel dst

  abbrev New : SyncHeader → F.State → Type 0
  New header = Taken F L s root rel dst (HasHash header.total_hash)

  -- The end of a file: its hash is checked, and it becomes the target.
  file_ended-Safely :
      (fuel : ℕ) (header e : SyncHeader) (d : Session F I O)
      → Prepared d.files
      → ((b : List ℕ) × (content d.files tmp ≡ some b))
      → ((b : List ℕ)
          → HasHash (hash_or e.total_hash header.total_hash) b
          → HasHash header.total_hash b)
      → Safely F L malloc I O (New header) Old (file_ended F malloc I O fuel header dst tmp e d)
  file_ended-Safely fuel header e d ready (b, at) announced =
      check_hash-Safely F L malloc I O tmp (New header) Old fuel
        (hash_or e.total_hash header.total_hash) b d
        (take_place F malloc I O fuel header (codes "file receive failed") dst tmp)
        (refuse F I O fuel (codes "file receive failed")) at
        (λ hash.
          take_place-Safely F L malloc I O (New header) Old fuel header
            (codes "file receive failed") dst tmp b d one at
            (λ u h.
              Taken-Became F L s root rel dst tmp served (HasHash header.total_hash) d.files u b
                header.mode header.mtime ready (announced b hash) h)
            (λ u same. same dst ∙ ready.0))
        (refuse-Safely F L malloc I O (New header) Old fuel (codes "file receive failed") d ready.0)

  keeps : (t u : F.State) → SameBut content Sole tmp t u → Prepared t → Prepared u
  keeps t u = Ready-SameBut F L s root rel dst tmp served t u

  receive_file-Safely :
      (fuel : ℕ) (header : SyncHeader) (c : Session F I O)
      → Prepared c.files
      → Safely F L malloc I O (New header) Old (receive_file F malloc I O fuel header dst tmp c)
  receive_file-Safely fuel header c ready =
      elim (Bool-cases (F.open_out c.files tmp true (open_mode header.mode)).0) [
        | inr not_opened ↦ rw not_opened (
            refuse-Safely F L malloc I O (New header) Old fuel (codes "open temp failed")
              opened_session open_ready.0)
        | inl opened ↦ rw opened (
            after_blocks-Safely F L malloc I O tmp Prepared keeps (New header) Old
              (file_ended F malloc I O fuel header dst tmp)
              (refuse F I O fuel (codes "file receive failed")) opened_session (received)
              (recv_file_blocks-AtEnd (temp_file F tmp) malloc I
                (Writing F L malloc I O tmp Prepared keeps)
                (Writing-pwrite F L malloc I O tmp Prepared keeps) fuel fuel c.input
                opened_session.files header.total_hash (open_ready, ([], truncated opened)))
              (λ e i t d r same w. file_ended-Safely fuel header e d w.0 w.1 (announced e i t r))
              (λ d w.
                refuse-Safely F L malloc I O (New header) Old fuel (codes "file receive failed") d
                  w.0.0))
      ]
    where
      opened_session : Session F I O
      opened_session = record c { files = (F.open_out c.files tmp true (open_mode header.mode)).1 }

      received : Received F.State I.State
      received =
          recv_file_blocks_until_end (temp_file F tmp) malloc I fuel fuel c.input
            opened_session.files header.total_hash

      truncated :
          (F.open_out c.files tmp true (open_mode header.mode)).0 ≡ true
          → content opened_session.files tmp ≡ some []
      truncated opened =
          L.open_out-content c.files opened_session.files tmp (open_mode header.mode)
            (ap (λ b. (b, opened_session.files)) opened)

      open_ready : Prepared opened_session.files
      open_ready =
          Ready-SameBut F L s root rel dst tmp served c.files opened_session.files
            (L.open_out-SameBut c.files tmp true (open_mode header.mode)) ready

      announced :
          (e : SyncHeader) (i : I.State) (t : F.State)
          → received ≡ ended e i t
          → (b : List ℕ) → HasHash (hash_or e.total_hash header.total_hash) b
          → HasHash header.total_hash b
      announced e i t r b hash =
          let (blocks, _, checked, writes, all, last, agreed) =
            recv_file_blocks-AllChecked (temp_file F tmp) malloc I fuel fuel c.input
              opened_session.files header.total_hash e i t r in
          elim (hash_or-agrees e.total_hash header.total_hash agreed) [
            | inl none_ ↦ inl none_
            | inr same ↦ subst (λ h. HasHash h b) same hash
          ]

  prepare-Ready :
      (fuel : ℕ)
      → AmpleAt F L fuel s dst
      → Outcome Prepared Old (
          and_then (ensure_parent_dir_exists F s dst) (λ _ t. backup_old_version F fuel t root rel))
  prepare-Ready fuel room =
      Outcome-and_then (Keeps F L s) (Keeps F L s) Prepared Old (ensure_parent_dir_exists F s dst) _
        (ensure_parent_dir_exists-Keeps F L s dst)
        (λ t kept.
          Outcome-weaken _ _ Prepared Old (backup_old_version F fuel t root rel)
            (backup_old_version-Kept F L one fuel t root rel dst served.placed
              (EnoughFor-of_AmpleAt F L fuel t dst (λ u q same. room u q (same ∙ kept.0 dst))))
            (λ u h. (
              h.0 dst served.placed.sole served.placed.apart ∙ kept.0 dst,
              λ old at. h.1 old (kept.0 dst ∙ at),
            ))
            (λ u same. same dst served.placed.sole served.placed.apart ∙ kept.0 dst))
        (λ t kept. kept.0 dst)

-- Whatever a peer sends after FILE_BEGIN for a file, and whichever calls fail: after 0 the target has bytes with the
-- hash that the request announced, if it announced one, and what it had before is in a version of it; after -1
-- the target is untouched. All paths lie on one device, the target, its versions and the temporary file are
-- different files, and the fuel is enough for the file that is replaced.
pub server_handle_file_begin-Taken :
    (F : FileSystem) (L : IsFileSystem F) (malloc : ℕ → Bool) (I : Input) (O : Output) (fuel : ℕ)
    (header : SyncHeader) (root rel dst tmp : Text) (c : Session F I O)
    → OneDevice F L
    → IsServed F L root rel dst tmp
    → AmpleAt F L fuel c.files dst
    → is_dir_mode header.mode ≡ false
    → Safely F L malloc I O
        (Taken F L c.files root rel dst (HasHash header.total_hash))
        (Untouched F L c.files root rel dst)
        (server_handle_file_begin F malloc I O fuel header root rel c)
unfolding server_handle_file_begin
server_handle_file_begin-Taken F L malloc I O fuel header root rel dst tmp c one served room file =
    rw (target_paths-eq F L root rel dst tmp served, file, server_handle_file_begin)
      (on_files-Safely F L malloc I O (Taken F L c.files root rel dst (HasHash header.total_hash))
        (Untouched F L c.files root rel dst) (Ready F L c.files root rel dst)
        (Untouched F L c.files root rel dst) c
        (and_then (ensure_parent_dir_exists F c.files dst)
          (λ _ t. backup_old_version F fuel t root rel))
        (receive_file F malloc I O fuel header dst tmp)
        (refuse F I O fuel (codes "prepare destination failed"))
        (prepare-Ready F L malloc I O one c.files root rel dst tmp served fuel room)
        (λ t ready.
          receive_file-Safely F L malloc I O one c.files root rel dst tmp served fuel header
            (record c { files = t }) ready)
        (λ t old.
          refuse-Safely F L malloc I O (Taken F L c.files root rel dst (HasHash header.total_hash))
            (Untouched F L c.files root rel dst) fuel (codes "prepare destination failed")
            (record c { files = t }) old))
