-- ===== src/Server/Connection.antt =====
-- server_handle_connection of src/server.c: the requests of one connection.
use mini_sync.Common.{ℕ, zero, suc, Bool, ◌||◌, List, [], Text, codes, take, ◌==◌, if◌then◌else◌}
use mini_sync.Input.{Input}
use mini_sync.Output.{Output}
use mini_sync.Net.{Io, done, broken, out_of_fuel, and_then}
use mini_sync.Protocol.{SyncHeader, recv_header, recv_path, send_ack}
use mini_sync.Protocol.Msg
use mini_sync.Config.{is_empty}
use mini_sync.Remote.{strnlen}
use mini_sync.FileSystem.{FileSystem}
use mini_sync.Server.{Session, refuse, on_output}
use mini_sync.Server.Handlers.{
  server_handle_file_begin, server_handle_file_delete, server_handle_file_rename,
  server_handle_query_offset, handle_large_block_stream,
}

-- The C string in a buffer that a NUL follows.
abbrev pub c_string : List ℕ → Text
c_string bytes = take (strnlen bytes) bytes

-- Whether a request names the file that blocks are for.
abbrev pub names_file : ℕ → Bool
names_file msg_type = (msg_type == Msg.file_begin) || (msg_type == Msg.query_offset)

-- Whether the connection goes on after a request.
abbrev pub keeps_open : ℕ → Bool
keeps_open msg_type = (msg_type == Msg.hello) || (msg_type == Msg.query_offset)

module _ (F : FileSystem) (malloc : ℕ → Bool) (I : Input) (O : Output) where
  abbrev Step : Type 0
  Step = Session F I O → Io (Unit {0}) (Session F I O)

  -- The switch; `last` is the path in last_rel_path.
  unfoldable pub handle_request :
      ℕ → (root : Text) → SyncHeader → (rel_path : List ℕ) → (last : Text) → Step
  unfolding server_handle_file_begin server_handle_file_delete server_handle_file_rename
      server_handle_query_offset handle_large_block_stream refuse send_ack strnlen
  handle_request fuel root header rel_path last c =
      if header.msg_type == Msg.hello
      then on_output F I O c (send_ack O fuel c.output 0)
      else if header.msg_type == Msg.file_begin
      then server_handle_file_begin F malloc I O fuel header root (c_string rel_path) c
      else if header.msg_type == Msg.query_offset
      then server_handle_query_offset F malloc I O fuel root (c_string rel_path) c
      else if header.msg_type == Msg.file_block
      then if is_empty last
        then refuse F I O fuel (codes "missing path before block") c
        else handle_large_block_stream F malloc I O fuel header root last c
      else if header.msg_type == Msg.file_delete
      then server_handle_file_delete F malloc I O fuel root (c_string rel_path) c
      else if header.msg_type == Msg.file_rename
      then server_handle_file_rename F malloc I O fuel root rel_path c
      else refuse F I O fuel (codes "unknown message type") c

  -- A round, once the path of the request has been received.
  abbrev pub path_read :
      (next : Session F I O → (last : Text) → Io (Unit {0}) (Session F I O))
      → ℕ
      → (root : Text) → SyncHeader
      → (last : Text) → Session F I O
      → Io Text I.State
      → Io (Unit {0}) (Session F I O)
  path_read next fuel root header last c out_of_fuel = out_of_fuel
  path_read next fuel root header last c (broken i) =
      refuse F I O fuel (codes "read path failed") (record c { input = i })
  path_read next fuel root header last c (done rel_path i) =
      let last' = if names_file header.msg_type then c_string rel_path else last in
      and_then (handle_request fuel root header rel_path last' (record c { input = i }))
        (λ _ c'. if keeps_open header.msg_type then next c' last' else done tt c')

  -- A round, once `recv_header` has returned.
  abbrev pub request_read :
      (next : Session F I O → (last : Text) → Io (Unit {0}) (Session F I O))
      → ℕ
      → (root : Text) → (last : Text) → Session F I O
      → Io SyncHeader I.State
      → Io (Unit {0}) (Session F I O)
  request_read next fuel root last c out_of_fuel = out_of_fuel
  request_read next fuel root last c (broken i) = broken (record c { input = i })
  request_read next fuel root last c (done header i) =
      if header.msg_type == Msg.exit
      then done tt (record c { input = i })
      else path_read next fuel root header last c
          (if header.path_len == 0 then done [] i else recv_path I fuel i 513 header.path_len)

  -- The first fuel is for what a request does, the second for this loop.
  unfoldable pub serve :
      (fuel rounds : ℕ)
      → (root : Text) → Session F I O
      → (last : Text) → Io (Unit {0}) (Session F I O)
  unfolding handle_request recv_header recv_path
  serve fuel zero root c last = out_of_fuel
  serve fuel (suc rounds) root c last =
      request_read (serve fuel rounds root) fuel root last c (recv_header I fuel c.input)

  unfoldable pub server_handle_connection :
      (fuel rounds : ℕ) → (root : Text) → Session F I O → Io (Unit {0}) (Session F I O)
  unfolding serve
  server_handle_connection fuel rounds root c = serve fuel rounds root c []
