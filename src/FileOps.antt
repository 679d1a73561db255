-- ===== src/FileOps.antt =====
-- The file operations of src/file_utils.c: ensure_dir_exists, ensure_parent_dir_exists and the functions from
-- is_regular_file to set_file_metadata; FileOps.Versions has backup_old_version and move_to_trash. A function that
-- returns 0 or -1 is a step on the state of the file system; closing a descriptor leaves no trace. Null pointers
-- are not modelled.
pub mod Outcome
pub mod Atomic
pub mod Copy
pub mod Directories
pub mod Versions
pub mod Kept
pub mod Checked
use mini_sync.Common.{
  ℕ, zero, suc, ◌-◌, ◌%◌, Bool, true, false, Option, none, some, List, [], ◌∷◌, ◌++◌, Text, codes,
  length, take, drop, ◌==◌, if◌then◌else◌,
}
use mini_sync.Input
use mini_sync.Input.{ReadReply, got}
use mini_sync.Output
use mini_sync.Output.{WriteReply, wrote}
use mini_sync.Net.{Io, done, broken, out_of_fuel, and_then}
use mini_sync.Hash.{hash_file_fnv1a}
use mini_sync.FilePath.{slash, fits, join_path, trim_len, sanitize_rel_path}
use mini_sync.FilePath.Target.{max_path_len}
use mini_sync.FileSystem.{FileSystem, MkdirReply, RenameReply, renamed, cross_device}

-- The bytes before the last slash, and whether there is one, as strrchr finds it.
unfoldable pub last_slash : Text → Option ℕ
last_slash [] = none
last_slash (c ∷ t) =
    let rest = last_slash t in
    elim rest [ some n ↦ some (suc n) | none ↦ if c == slash then some 0 else none ]

-- Cleaning up after a failure: what follows runs, and the result is -1.
abbrev pub or_clean {ℓ} : {A : Type 0} {S : Type ℓ} → Io A S → (S → S) → Io A S
or_clean (done a s) clean = done a s
or_clean (broken s) clean = broken (clean s)
or_clean out_of_fuel clean = out_of_fuel

-- What snprintf makes of "%s.syncing", if it fits.
unfoldable pub syncing_path : Text → Option Text
syncing_path dst = fits max_path_len (dst ++ codes ".syncing")

abbrev pub step_of {ℓ} : {S : Type ℓ} → Bool × S → Io (Unit {0}) S
step_of (true, s) = done tt s
step_of (false, s) = broken s

module _ (F : FileSystem) where
  abbrev pub mkdir_reply : MkdirReply × F.State → Io (Unit {0}) F.State
  mkdir_reply (MkdirReply.made, s) = done tt s
  mkdir_reply (MkdirReply.exists, s) = done tt s
  mkdir_reply (MkdirReply.failed, s) = broken s

  -- The loop from `tmp + 1`: every part of the path that ends before a slash.
  unfoldable pub make_parents : (before rest : Text) → F.State → Io (Unit {0}) F.State
  make_parents before [] s = done tt s
  make_parents before (c ∷ rest) s =
      let next = λ (s' : F.State). make_parents (before ++ (c ∷ [])) rest s' in
      if c == slash then and_then (mkdir_reply (F.mkdir s before)) (λ _ s'. next s') else next s

  abbrev pub make_trimmed : Text → F.State → Io (Unit {0}) F.State
  make_trimmed [] s = broken s
  make_trimmed (c ∷ rest) s =
      and_then (make_parents (c ∷ []) rest s) (λ _ s'. mkdir_reply (F.mkdir s' (c ∷ rest)))

  unfoldable pub ensure_dir_exists : F.State → Text → Io (Unit {0}) F.State
  unfolding make_parents trim_len
  ensure_dir_exists s [] = broken s
  ensure_dir_exists s (c ∷ dir) = elim (fits max_path_len (c ∷ dir)) [
    | none ↦ broken s
    | some tmp ↦ make_trimmed (take (trim_len tmp (length tmp)) tmp) s
  ]

  unfoldable pub ensure_parent_dir_exists : F.State → Text → Io (Unit {0}) F.State
  unfolding ensure_dir_exists last_slash
  ensure_parent_dir_exists s file_path = elim (fits max_path_len file_path) [
    | none ↦ broken s
    | some tmp ↦ elim (last_slash tmp) [
      | none ↦ done tt s
      | some n ↦ ensure_dir_exists s (take (if n == 0 then 1 else n) tmp)
    ]
  ]

  unfoldable pub is_regular_file : F.State → Text → Bool
  is_regular_file s path = elim (F.stat s path) [ none ↦ false | some st ↦ st.is_reg ]

  unfoldable pub is_directory : F.State → Text → Bool
  is_directory s path = elim (F.stat s path) [ none ↦ false | some st ↦ st.is_dir ]

  unfoldable pub get_file_size : F.State → Text → Option ℕ
  get_file_size s path = elim (F.stat s path) [ none ↦ none | some st ↦ some st.size ]

  -- `while (left > 0)`: the writes of one piece.
  abbrev pub write_reply :
      (next : F.State → List ℕ → Io (Unit {0}) F.State)
      → List ℕ
      → WriteReply × F.State
      → Io (Unit {0}) F.State
  write_reply next bytes (wrote n, s) = next s (drop n bytes)
  write_reply next bytes (WriteReply.interrupted, s) = next s bytes
  write_reply next bytes (WriteReply.again, s) = broken s
  write_reply next bytes (WriteReply.failed, s) = broken s

  unfoldable pub write_piece : ℕ → Text → F.State → List ℕ → Io (Unit {0}) F.State
  write_piece zero dst s bytes = out_of_fuel
  write_piece (suc fuel) dst s bytes =
      let round = write_reply (write_piece fuel dst) bytes (F.write s dst bytes) in
      if length bytes == 0 then done tt s else round

  -- `while (1)`: a round, once `read` has returned.
  abbrev pub copy_reply :
      (next : F.input.State → F.State → Io (Unit {0}) F.State)
      → (write : F.State → List ℕ → Io (Unit {0}) F.State) → F.State
      → ReadReply × F.input.State
      → Io (Unit {0}) F.State
  copy_reply next write s (ReadReply.interrupted, i) = next i s
  copy_reply next write s (ReadReply.failed, i) = broken s
  copy_reply next write s (got [], i) = done tt s
  copy_reply next write s (got (b ∷ bs), i) = and_then (write s (b ∷ bs)) (λ _ s'. next i s')

  -- Both loops have the same fuel.
  unfoldable pub copy_loop :
      (write_fuel fuel : ℕ) → Text → F.input.State → F.State → Io (Unit {0}) F.State
  copy_loop write_fuel zero dst i s = out_of_fuel
  copy_loop write_fuel (suc fuel) dst i s =
      copy_reply (copy_loop write_fuel fuel dst) (write_piece write_fuel dst) s
        (F.input.read i 8192)

  -- `fsync` is called whether or not the loop succeeded.
  abbrev pub sync_copy : Text → Io (Unit {0}) F.State → Io (Unit {0}) F.State
  sync_copy dst (done _ s) = step_of (F.fsync s dst)
  sync_copy dst (broken s) = broken (F.fsync s dst).1
  sync_copy dst out_of_fuel = out_of_fuel

  abbrev pub copy_into : ℕ → Text → F.input.State → Bool × F.State → Io (Unit {0}) F.State
  copy_into fuel dst i (false, s) = broken s
  copy_into fuel dst i (true, s) = sync_copy dst (copy_loop fuel fuel dst i s)

  unfoldable pub copy_file_plain : ℕ → F.State → (src dst : Text) → Io (Unit {0}) F.State
  unfolding ensure_parent_dir_exists copy_loop write_piece
  copy_file_plain fuel s src dst = elim (F.open_in s src) [
    | none ↦ broken s
    | some i ↦
        and_then (ensure_parent_dir_exists s dst)
          (λ _ t. copy_into fuel dst i (F.open_out t dst true 0o644))
  ]

  abbrev pub rename_reply : ℕ → (src dst : Text) → RenameReply × F.State → Io (Unit {0}) F.State
  rename_reply fuel src dst (renamed, s) = done tt s
  rename_reply fuel src dst (cross_device, s) =
      and_then (copy_file_plain fuel s src dst) (λ _ t. step_of (F.unlink t src))
  rename_reply fuel src dst (RenameReply.failed, s) = broken s

  unfoldable pub safe_rename_or_copy_unlink : ℕ → F.State → (src dst : Text) → Io (Unit {0}) F.State
  unfolding ensure_parent_dir_exists copy_file_plain
  safe_rename_or_copy_unlink fuel s src dst =
      and_then (ensure_parent_dir_exists s dst)
        (λ _ t. rename_reply fuel src dst (F.rename t src dst))

  abbrev pub unlink_path : Text → F.State → F.State
  unlink_path p s = (F.unlink s p).1

  unfoldable pub copy_file_atomic : ℕ → F.State → (src dst : Text) → Io (Unit {0}) F.State
  unfolding copy_file_plain safe_rename_or_copy_unlink syncing_path
  copy_file_atomic fuel s src dst = elim (syncing_path dst) [
    | none ↦ broken s
    | some tmp ↦
        or_clean
          (and_then (copy_file_plain fuel s src tmp)
            (λ _ t. safe_rename_or_copy_unlink fuel t tmp dst))
          (unlink_path tmp)
  ]

  -- The hash of the file that a path leads to, 0 if it cannot be read; `none` is no fuel left.
  unfoldable pub hash_of : ℕ → F.State → Text → Option ℕ
  unfolding hash_file_fnv1a
  hash_of fuel s path = hash_file_fnv1a F.input F.seek fuel (F.open_in s path)

  abbrev pub compare_hashes : Option ℕ → Option ℕ → F.State → Io (Unit {0}) F.State
  compare_hashes (some before) (some after) s = if before == after then done tt s else broken s
  compare_hashes _ _ s = out_of_fuel

  unfoldable pub copy_file_with_hash_check : ℕ → F.State → (src dst : Text) → Io (Unit {0}) F.State
  unfolding copy_file_atomic hash_of
  copy_file_with_hash_check fuel s src dst =
      let before = hash_of fuel s src in
      and_then (copy_file_atomic fuel s src dst)
        (λ _ t. compare_hashes before (hash_of fuel t dst) t)

  unfoldable pub set_file_metadata : F.State → Text → (mode mtime : ℕ) → Bool × F.State
  set_file_metadata s path mode mtime = F.utime (F.chmod s path (mode % 0o10000)) path mtime mtime

  -- A time-stamped path for `rel_path` below `backup_root`, as the last part of both functions below builds it.
  unfoldable pub stamped_path : F.State → (backup_root name rel_path : Text) → Option Text
  unfolding join_path
  stamped_path s backup_root name rel_path = elim (F.timestamp s) [
    | none ↦ none
    | some stamp ↦ elim (join_path max_path_len backup_root name) [
      | none ↦ none
      | some stamps_root ↦ elim (join_path max_path_len stamps_root stamp) [
        | none ↦ none
        | some stamp_dir ↦ join_path max_path_len stamp_dir rel_path
      ]
    ]
  ]
