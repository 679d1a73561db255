-- ===== src/Protocol.antt =====
-- include/protocol.h and the protocol part of src/net_utils.c: the header, its bytes on the wire, and the
-- calls that send and receive headers and paths.
pub mod Msg
pub mod Wire
pub mod Transport
use Prim.Native.String.{String}
use mini_sync.Common.{
  ℕ, zero, suc, ◌+◌, ◌*◌, ◌/◌, ◌%◌, Bool, true, false, List, [], ◌∷◌, ◌++◌, Text, codes, length,
  take, drop, ltb, leb, ◌==◌, ◌||◌, not, ◌^◌, if◌then◌else◌,
}
use mini_sync.Input.{Input}
use mini_sync.Output.{Output}
use mini_sync.Net.{Io, done, broken, and_then, read_full, write_full}

abbrev pub max_net_path : ℕ
max_net_path = 512

abbrev pub protocol_magic : ℕ
protocol_magic = 0x4D53594E

abbrev pub protocol_version : ℕ
protocol_version = 1

-- A field is the number that its bits stand for, read without a sign; `mtime` is an int64_t.
pub record SyncHeader : Type 0 where
  pub magic : ℕ
  pub version : ℕ
  pub msg_type : ℕ
  pub path_len : ℕ
  pub file_size : ℕ
  pub offset : ℕ
  pub data_len : ℕ
  pub mode : ℕ
  pub mtime : ℕ
  pub total_hash : ℕ
  pub block_hash : ℕ

-- `memset(&header, 0, sizeof(header))`
abbrev pub zero_header : SyncHeader
zero_header = record {
  magic = 0;
  version = 0;
  msg_type = 0;
  path_len = 0;
  file_size = 0;
  offset = 0;
  data_len = 0;
  mode = 0;
  mtime = 0;
  total_hash = 0;
  block_hash = 0;
}

unfoldable pub init_sync_header : ℕ → SyncHeader
init_sync_header msg_type = record zero_header {
  magic = protocol_magic;
  version = protocol_version;
  msg_type = msg_type;
}

-- true for 0, false for -1
unfoldable pub validate_sync_header : SyncHeader → Bool
validate_sync_header h =
    if not (h.magic == protocol_magic)
    then false
    else if not (h.version == protocol_version)
    then false
    else if ltb max_net_path h.path_len
    then false
    else true

unfoldable pub msg_type_to_string : ℕ → String
msg_type_to_string t =
    if t == Msg.hello
    then "HELLO"
    else if t == Msg.file_begin
    then "FILE_BEGIN"
    else if t == Msg.file_block
    then "FILE_BLOCK"
    else if t == Msg.file_end
    then "FILE_END"
    else if t == Msg.file_delete
    then "FILE_DELETE"
    else if t == Msg.file_rename
    then "FILE_RENAME"
    else if t == Msg.query_offset
    then "QUERY_OFFSET"
    else if t == Msg.offset_reply
    then "OFFSET_REPLY"
    else if t == Msg.ack
    then "ACK"
    else if t == Msg.error
    then "ERROR"
    else if t == Msg.exit
    then "EXIT"
    else "UNKNOWN"

-- The `k` bytes of a number, the lowest first, and the number of some bytes.
unfoldable pub to_bytes : ℕ → ℕ → List ℕ
to_bytes zero n = []
to_bytes (suc k) n = (n % 256) ∷ to_bytes k (n / 256)

unfoldable pub of_bytes : List ℕ → ℕ
of_bytes [] = 0
of_bytes (b ∷ bs) = b + 256 * of_bytes bs

abbrev pub header_size : ℕ
header_size = 64

-- The 64 bytes of a header, which is sent as it lies in memory: little-endian fields with no padding
-- between them, as on x86-64 and AArch64.
unfoldable pub header_bytes : SyncHeader → List ℕ
unfolding to_bytes
header_bytes h =
    to_bytes 4 h.magic
    ++ (to_bytes 4 h.version
        ++ (to_bytes 4 h.msg_type
            ++ (to_bytes 4 h.path_len
                ++ (to_bytes 8 h.file_size
                    ++ (to_bytes 8 h.offset
                        ++ (to_bytes 4 h.data_len
                            ++ (to_bytes 4 h.mode
                                ++ (to_bytes 8 h.mtime
                                    ++ (to_bytes 8 h.total_hash ++ to_bytes 8 h.block_hash)))))))))

-- The field of `width` bytes at an offset.
abbrev pub field_at : ℕ → ℕ → List ℕ → ℕ
field_at at width bytes = of_bytes (take width (drop at bytes))

unfoldable pub header_of_bytes : List ℕ → SyncHeader
unfolding of_bytes
header_of_bytes bytes = record {
  magic = field_at 0 4 bytes;
  version = field_at 4 4 bytes;
  msg_type = field_at 8 4 bytes;
  path_len = field_at 12 4 bytes;
  file_size = field_at 16 8 bytes;
  offset = field_at 24 8 bytes;
  data_len = field_at 32 4 bytes;
  mode = field_at 36 4 bytes;
  mtime = field_at 40 8 bytes;
  total_hash = field_at 48 8 bytes;
  block_hash = field_at 56 8 bytes;
}

module _ (O : Output) where
  unfoldable pub send_header : ℕ → O.State → SyncHeader → Io (Unit {0}) O.State
  unfolding header_bytes
  send_header fuel s h = write_full O fuel s (header_bytes h)

  unfoldable pub send_path : ℕ → O.State → Text → Io (Unit {0}) O.State
  send_path fuel s rel_path =
      if ltb max_net_path (length rel_path) then broken s else write_full O fuel s rel_path

  unfoldable pub send_ack : ℕ → O.State → ℕ → Io (Unit {0}) O.State
  unfolding send_header init_sync_header
  send_ack fuel s offset =
      send_header fuel s (record (init_sync_header Msg.ack) { offset = offset })

  -- The payload is cut to the path length that the header can announce.
  unfoldable pub send_error : ℕ → O.State → Text → Io (Unit {0}) O.State
  unfolding send_header init_sync_header
  send_error fuel s message =
      let path_len =
        if ltb max_net_path (length message % 2 ^ 32)
        then max_net_path
        else length message % 2 ^ 32 in
      and_then (send_header fuel s (record (init_sync_header Msg.error) { path_len = path_len }))
        (λ _ t. write_full O fuel t (take path_len message))

module _ (I : Input) where
  unfoldable pub recv_header : ℕ → I.State → Io SyncHeader I.State
  unfolding header_of_bytes validate_sync_header
  recv_header fuel s = and_then (read_full I fuel s header_size) (λ bytes t.
      let h = header_of_bytes bytes in if validate_sync_header h then done h t else broken t)

  -- The bytes that the buffer holds before the NUL that is put behind them.
  unfoldable pub recv_path : ℕ → I.State → (max_len path_len : ℕ) → Io Text I.State
  recv_path fuel s max_len path_len =
      if leb max_len path_len || ltb max_net_path path_len
      then broken s
      else if path_len == 0
      then done [] s
      else read_full I fuel s path_len
