-- ===== src/Blocks.antt =====
-- The contents of a file on a connection: recv_file_blocks_until_end of src/server.c, and send_file_block
-- and send_file_end of src/transfer.c, with the parts of send_remote_small_file and (in Large)
-- send_remote_large_file that call them. pwrite and malloc are parameters.
pub mod Accept
pub mod Keep
pub mod Large
pub mod Receive
pub mod Send
pub mod Small
use mini_sync.Common.{
  ℕ, zero, suc, ◌*◌, Bool, true, false, not, ◌&&◌, ◌||◌, List, [], ◌∷◌, length, ltb, ◌==◌,
  if◌then◌else◌,
}
use mini_sync.Input.{Input}
use mini_sync.Output.{Output}
use mini_sync.Net.{Io, done, broken, out_of_fuel, and_then, read_full, write_full}
use mini_sync.Hash.{hash_buffer_fnv1a}
use mini_sync.Protocol.{SyncHeader, init_sync_header, recv_header, send_header}
use mini_sync.Protocol.Msg

-- A file that is open for writing. `pwrite f buf offset` says whether all bytes of `buf` were written.
pub record OutFile : Type 1 where
  pub File : Type 0
  pub pwrite : File → List ℕ → (offset : ℕ) → Bool × File

-- The result of receiving: 0 with the header that ended the file, or -1, with the connection and the file.
pub data Received (F S : Type 0) : Type 0 where
  ended : SyncHeader → S → F → Received F S
  failed : S → F → Received F S
  no_fuel : Received F S

abbrev pub max_block_len : ℕ
max_block_len = 16 * 1024 * 1024

module _ (D : OutFile) (malloc : ℕ → Bool) (I : Input) where
  -- The rest of a round, once `read_full` has filled the buffer or failed.
  abbrev pub block_read :
      (next : I.State → D.File → Received D.File I.State)
      → SyncHeader
      → D.File
      → Io (List ℕ) I.State
      → Received D.File I.State
  block_read next h f out_of_fuel = no_fuel
  block_read next h f (broken s) = failed s f
  block_read next h f (done buf s) =
      let (ok, f') = D.pwrite f buf h.offset in
      if not (h.block_hash == 0) && not (hash_buffer_fnv1a buf == h.block_hash)
      then failed s f
      else if ok
      then next s f'
      else failed s f'

  -- A round, once `recv_header` has returned.
  abbrev pub header_read :
      (io_fuel : ℕ)
      → (next : I.State → D.File → Received D.File I.State) → (expected_hash : ℕ) → D.File
      → Io SyncHeader I.State
      → Received D.File I.State
  header_read io_fuel next expected_hash f out_of_fuel = no_fuel
  header_read io_fuel next expected_hash f (broken s) = failed s f
  header_read io_fuel next expected_hash f (done h s) =
      if h.msg_type == Msg.file_end
      then if not (expected_hash == 0)
          && (not (h.total_hash == 0) && not (expected_hash == h.total_hash))
        then failed s f
        else ended h s f
      else if not (h.msg_type == Msg.file_block)
          || ((h.data_len == 0) || ltb max_block_len h.data_len)
      then failed s f
      else if not (malloc h.data_len)
      then failed s f
      else block_read next h f (read_full I io_fuel s h.data_len)

  -- The first fuel is for the loops over `read`, the second for this loop.
  unfoldable pub recv_file_blocks_until_end :
      (io_fuel fuel : ℕ) → I.State → D.File → (expected_hash : ℕ) → Received D.File I.State
  recv_file_blocks_until_end io_fuel zero s f expected_hash = no_fuel
  recv_file_blocks_until_end io_fuel (suc fuel) s f expected_hash =
      header_read io_fuel (λ s' f'. recv_file_blocks_until_end io_fuel fuel s' f' expected_hash)
        expected_hash f (recv_header I io_fuel s)

-- What the headers of a file have in common.
pub record FileInfo : Type 0 where
  pub file_size : ℕ
  pub total_hash : ℕ
  pub mode : ℕ
  pub mtime : ℕ

unfoldable pub block_header : (buf : List ℕ) → (offset : ℕ) → FileInfo → SyncHeader
unfolding init_sync_header
block_header buf offset info = record (init_sync_header Msg.file_block) {
  file_size = info.file_size;
  offset = offset;
  data_len = length buf;
  mode = info.mode;
  mtime = info.mtime;
  total_hash = info.total_hash;
  block_hash = hash_buffer_fnv1a buf;
}

unfoldable pub end_header : FileInfo → SyncHeader
unfolding init_sync_header
end_header info = record (init_sync_header Msg.file_end) {
  file_size = info.file_size;
  offset = info.file_size;
  mode = info.mode;
  mtime = info.mtime;
  total_hash = info.total_hash;
}

module _ (O : Output) where
  unfoldable pub send_file_block :
      ℕ → O.State → (buf : List ℕ) → (offset : ℕ) → FileInfo → Io (Unit {0}) O.State
  send_file_block fuel s buf offset info =
      and_then (send_header O fuel s (block_header buf offset info))
        (λ _ t. write_full O fuel t buf)

  unfoldable pub send_file_end : ℕ → O.State → FileInfo → Io (Unit {0}) O.State
  send_file_end fuel s info = send_header O fuel s (end_header info)

  -- A small file, once its path is sent and its bytes are read: one block, if there are any, and the end.
  unfoldable pub send_small_contents :
      ℕ → O.State → (buf : List ℕ) → FileInfo → Io (Unit {0}) O.State
  unfolding send_file_block send_file_end
  send_small_contents fuel s buf info =
      and_then (if ltb 0 info.file_size then send_file_block fuel s buf 0 info else done tt s)
        (λ _ t. send_file_end fuel t info)
