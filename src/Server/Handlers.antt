-- ===== src/Server/Handlers.antt =====
-- The handlers of src/server.c, one for each request.
use mini_sync.Common.{
  ℕ, Bool, true, false, not, ◌&&◌, Option, none, some, List, Text, codes, length, leb, ◌==◌,
  if◌then◌else◌,
}
use mini_sync.Input.{Input}
use mini_sync.Output.{Output}
use mini_sync.Net.{Io, done, broken, out_of_fuel, and_then, read_full}
use mini_sync.Hash.{hash_buffer_fnv1a}
use mini_sync.Protocol.{SyncHeader, init_sync_header, send_header}
use mini_sync.Protocol.Msg
use mini_sync.FilePath.Target.{max_path_len, current_path}
use mini_sync.Blocks.{Received, ended, failed, no_fuel, recv_file_blocks_until_end}
use mini_sync.Remote.{strnlen, rename_paths}
use mini_sync.FileSystem.{is_dir_mode, FileSystem}
use mini_sync.FileOps.{
  ensure_dir_exists, ensure_parent_dir_exists, get_file_size, safe_rename_or_copy_unlink, hash_of,
  set_file_metadata,
}
use mini_sync.FileOps.Versions.{backup_old_version, move_to_trash}
use mini_sync.Server.{
  Session, target_paths, open_mode, hash_or, temp_file, accept, refuse, on_files, on_output,
}

module _ (F : FileSystem) (malloc : ℕ → Bool) (I : Input) (O : Output) where
  abbrev pub Step : Type 0
  Step = Session F I O → Io (Unit {0}) (Session F I O)

  -- The last steps on a temporary file: it takes the place of the target, gets its metadata, and the peer an answer.
  abbrev pub take_place : ℕ → SyncHeader → (error dst tmp : Text) → Step
  take_place fuel header error dst tmp c =
      on_files F I O c (safe_rename_or_copy_unlink F fuel c.files tmp dst)
        (λ c'.
          accept F I O fuel header.file_size
            (record c' { files = (set_file_metadata F c'.files dst header.mode header.mtime).1 }))
        (refuse F I O fuel error)

  -- The hash of the temporary file against the one that the peer has announced, which is 0 if it has announced none.
  abbrev pub check_hash : (expected : ℕ) → Option ℕ → (good bad : Step) → Step
  check_hash expected none good bad c = out_of_fuel
  check_hash expected (some actual) good bad c =
      if not (expected == 0) && not (actual == expected) then bad c else good c

  -- After the blocks: fsync is called whether or not they have come.
  abbrev pub after_blocks :
      (tmp : Text)
      → (good : SyncHeader → Step) → (bad : Step) → Session F I O
      → Received F.State I.State
      → Io (Unit {0}) (Session F I O)
  after_blocks tmp good bad c no_fuel = out_of_fuel
  after_blocks tmp good bad c (failed i s) = bad (record c { files = (F.fsync s tmp).1; input = i })
  after_blocks tmp good bad c (ended e i s) =
      let (synced, t) = F.fsync s tmp in
      let c' : Session F I O = record c { files = t; input = i } in
      if synced then good e c' else bad c'

  abbrev pub file_ended : ℕ → SyncHeader → (dst tmp : Text) → (end_header : SyncHeader) → Step
  file_ended fuel header dst tmp end_header c =
      check_hash (hash_or end_header.total_hash header.total_hash) (hash_of F fuel c.files tmp)
        (take_place fuel header (codes "file receive failed") dst tmp)
        (refuse F I O fuel (codes "file receive failed")) c

  -- `server_handle_file_begin` from the opening of the temporary file on.
  abbrev pub receive_file : ℕ → SyncHeader → (dst tmp : Text) → Step
  receive_file fuel header dst tmp c =
      let (opened, s) = F.open_out c.files tmp true (open_mode header.mode) in
      let c' : Session F I O = record c { files = s } in
      if opened
      then after_blocks tmp (file_ended fuel header dst tmp)
          (refuse F I O fuel (codes "file receive failed")) c'
          (recv_file_blocks_until_end (temp_file F tmp) malloc I fuel fuel c'.input s
            header.total_hash)
      else refuse F I O fuel (codes "open temp failed") c'

  unfoldable pub server_handle_file_begin : ℕ → SyncHeader → (root rel_path : Text) → Step
  unfolding accept refuse hash_of safe_rename_or_copy_unlink set_file_metadata ensure_dir_exists
      ensure_parent_dir_exists backup_old_version target_paths recv_file_blocks_until_end
  server_handle_file_begin fuel header root rel_path c = elim (target_paths root rel_path) [
    | none ↦ refuse F I O fuel (codes "invalid path") c
    | some (dst, tmp) ↦
        if is_dir_mode header.mode
        then on_files F I O c (ensure_dir_exists F c.files dst) (accept F I O fuel 0)
            (refuse F I O fuel (codes "mkdir failed"))
        else on_files F I O c
            (and_then (ensure_parent_dir_exists F c.files dst)
              (λ _ t. backup_old_version F fuel t root rel_path))
            (receive_file fuel header dst tmp)
            (refuse F I O fuel (codes "prepare destination failed"))
  ]

  unfoldable pub server_handle_file_delete : ℕ → (root rel_path : Text) → Step
  unfolding accept refuse move_to_trash
  server_handle_file_delete fuel root rel_path c =
      on_files F I O c (move_to_trash F fuel c.files root rel_path) (accept F I O fuel 0)
        (refuse F I O fuel (codes "delete failed"))

  abbrev pub rename_current : ℕ → Option Text → Option Text → Step
  rename_current fuel (some old_path) (some new_path) c =
      on_files F I O c
        (and_then (ensure_parent_dir_exists F c.files new_path)
          (λ _ t. safe_rename_or_copy_unlink F fuel t old_path new_path))
        (accept F I O fuel 0) (refuse F I O fuel (codes "rename failed"))
  rename_current fuel _ _ c = refuse F I O fuel (codes "rename path too long") c

  -- Of the two answers with an error, the first is the one for a payload without a NUL.
  unfoldable pub server_handle_file_rename : ℕ → (root : Text) → (combined_path : List ℕ) → Step
  unfolding accept refuse rename_paths strnlen current_path ensure_parent_dir_exists
      safe_rename_or_copy_unlink
  server_handle_file_rename fuel root combined_path c = elim (rename_paths combined_path) [
    | none ↦
        refuse F I O fuel
          (if leb (length combined_path) (strnlen combined_path)
            then codes "invalid rename payload"
            else codes "invalid rename path")
          c
    | some (old_rel, new_rel) ↦
        rename_current fuel (current_path max_path_len root old_rel)
          (current_path max_path_len root new_rel) c
  ]

  unfoldable pub server_handle_query_offset : ℕ → (root rel_path : Text) → Step
  unfolding refuse target_paths get_file_size send_header init_sync_header
  server_handle_query_offset fuel root rel_path c = elim (target_paths root rel_path) [
    | none ↦ refuse F I O fuel (codes "invalid query path") c
    | some (dst, tmp) ↦
        let size : ℕ = elim (get_file_size F c.files tmp) [ none ↦ 0 | some size ↦ size ] in
        on_output F I O c (
          send_header O fuel c.output
            (record (init_sync_header Msg.offset_reply) { offset = size }))
  ]

  -- The result of backup_old_version is ignored here.
  abbrev pub back_up_and_take_place : ℕ → SyncHeader → (root rel_path dst tmp : Text) → Step
  back_up_and_take_place fuel first_block root rel_path dst tmp c =
      let next = take_place fuel first_block (codes "large file receive failed") dst tmp in
      on_files F I O c (backup_old_version F fuel c.files root rel_path) next next

  -- The first block, once `read_full` has filled the buffer or failed, and the blocks that follow it.
  abbrev pub first_block_read :
      ℕ → SyncHeader → (tmp : Text) → Session F I O → Io (List ℕ) I.State → Received F.State I.State
  first_block_read fuel first_block tmp c out_of_fuel = no_fuel
  first_block_read fuel first_block tmp c (broken i) = failed i c.files
  first_block_read fuel first_block tmp c (done buf i) =
      let (written, s) = F.pwrite c.files tmp buf first_block.offset in
      if not (hash_buffer_fnv1a buf == first_block.block_hash)
      then failed i c.files
      else if written
      then recv_file_blocks_until_end (temp_file F tmp) malloc I fuel fuel i s 0
      else failed i s

  abbrev pub stream_ended :
      ℕ → SyncHeader → (root rel_path dst tmp : Text) → (end_header : SyncHeader) → Step
  stream_ended fuel first_block root rel_path dst tmp end_header c =
      check_hash (hash_or end_header.total_hash first_block.total_hash) (hash_of F fuel c.files tmp)
        (back_up_and_take_place fuel first_block root rel_path dst tmp)
        (refuse F I O fuel (codes "large file receive failed")) c

  -- `handle_large_block_stream` from the opening of the temporary file on.
  abbrev pub receive_stream : ℕ → SyncHeader → (root rel_path dst tmp : Text) → Step
  receive_stream fuel first_block root rel_path dst tmp c =
      let (opened, s) = F.open_out c.files tmp false (open_mode first_block.mode) in
      let c' : Session F I O = record c { files = s } in
      if not opened
      then refuse F I O fuel (codes "open temp failed") c'
      else if not (malloc first_block.data_len)
      then refuse F I O fuel (codes "alloc failed") c'
      else after_blocks tmp (stream_ended fuel first_block root rel_path dst tmp)
          (refuse F I O fuel (codes "large file receive failed")) c'
          (first_block_read fuel first_block tmp c'
            (read_full I fuel c'.input first_block.data_len))

  unfoldable pub handle_large_block_stream : ℕ → SyncHeader → (root rel_path : Text) → Step
  unfolding accept refuse hash_of hash_buffer_fnv1a safe_rename_or_copy_unlink set_file_metadata
      ensure_parent_dir_exists backup_old_version target_paths recv_file_blocks_until_end read_full
  handle_large_block_stream fuel first_block root rel_path c = elim (target_paths root rel_path) [
    | none ↦ refuse F I O fuel (codes "invalid path") c
    | some (dst, tmp) ↦
        on_files F I O c (ensure_parent_dir_exists F c.files dst)
          (receive_stream fuel first_block root rel_path dst tmp)
          (refuse F I O fuel (codes "prepare destination failed"))
  ]
