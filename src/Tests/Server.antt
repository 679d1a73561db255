-- ===== src/Tests/Server.antt =====
-- Requests to the server: runs of whole connections on a file system in memory, and the theorems at them.
use mini_sync.Common.{
  ℕ, ◌≡◌, refl, ◌∙◌, Bool, true, Option, none, some, List, [], ◌∷◌, ◌++◌, Text, codes,
  Text-discrete, arith,
}
use mini_sync.Input.Scheduled.{ready, signal, stream, read_events}
use mini_sync.Output.Scheduled
use mini_sync.Output.Scheduled.{Sink, sink, write_events}
use mini_sync.Net.{Io, done, broken, out_of_fuel}
use mini_sync.Protocol.{SyncHeader, init_sync_header, header_bytes}
use mini_sync.Protocol.Msg
use mini_sync.Hash.{hash_buffer_fnv1a, hash_loop, hash_fd_range}
use mini_sync.Net.{readn_loop, writen_loop, write_full}
use mini_sync.FileOps.{make_parents, copy_loop, write_piece}
use mini_sync.Blocks.{FileInfo, block_header, end_header}
use mini_sync.FileSystem.{Same}
use mini_sync.FileSystem.Memory.{Files, memory, memory-OneDevice, set}
use mini_sync.FileOps.Kept.{Apart}
use mini_sync.FileOps.Checked.{AmpleAt}
use mini_sync.Server.{Session}
use mini_sync.Server.Handlers.{server_handle_file_begin, handle_large_block_stream}
use mini_sync.Server.Connection.{server_handle_connection}
use mini_sync.Server.Replace.{Safely, IsServed, Taken, Untouched, HasHash}
use mini_sync.Server.Begin.{server_handle_file_begin-Taken}
use mini_sync.Server.Stream.{Streamed, handle_large_block_stream-Streamed}
use mini_sync.Server.Requests.{AtMostOne, server_handle_connection-AtMostOne}
use mini_sync.Tests.Places.{
  L, ne, root, rel, target, temporary, version, temporary-at, the_version, apart, placed, files,
  target_holds, AmpleAt-of_length,
}

abbrev malloc : ℕ → Bool
malloc n = true

abbrev info : FileInfo
info = record { file_size = 5; total_hash = 0xa430d84680aabd0b; mode = 0; mtime = 7 }

abbrev begin_header : SyncHeader
begin_header = record (init_sync_header Msg.file_begin) {
  path_len = 1;
  file_size = 5;
  mtime = 7;
  total_hash = 0xa430d84680aabd0b;
}

-- "hello" in two blocks, and the end of the file.
abbrev contents : List ℕ
contents =
    header_bytes (block_header (codes "hel") 0 info)
    ++ (codes "hel"
        ++ (header_bytes (block_header (codes "lo") 3 info)
            ++ (codes "lo" ++ header_bytes (end_header info))))

abbrev session : List ℕ → Session memory stream sink
session bytes = record {
  files = files;
  input = record { bytes = bytes; events = ready 20 ∷ signal ∷ ready 3 ∷ [] };
  output = record { sent = []; events = Scheduled.Event.busy ∷ Scheduled.Event.room 9 ∷ [] };
}

target_ample : AmpleAt memory L 400 files target
target_ample = AmpleAt-of_length 400 files target (codes "old") target_holds (omega arith)

served : IsServed memory L root rel target temporary
unfolding Text-discrete
served = record {
  placed = placed;
  named = temporary-at;
  versions-tmp = λ v is e. ne version temporary refl (the_version v is ∙ e);
}

server_handle_file_begin_example :
    Safely memory L malloc stream sink
      (Taken memory L files root rel target (HasHash 0xa430d84680aabd0b))
      (Untouched memory L files root rel target)
      (server_handle_file_begin memory malloc stream sink 400 begin_header root rel
        (session contents))
unfolding init_sync_header
server_handle_file_begin_example =
    server_handle_file_begin-Taken memory L malloc stream sink 400 begin_header root rel target
      temporary (session contents) memory-OneDevice served target_ample refl

abbrev first_block : SyncHeader
first_block = record (block_header (codes "hel") 0 info) { path_len = 0 }

-- What comes after the header of the first block.
abbrev stream_rest : List ℕ
stream_rest =
    codes "hel"
    ++ (header_bytes (block_header (codes "lo") 3 info)
        ++ (codes "lo" ++ header_bytes (end_header info)))

temporary_apart : Apart memory L root rel temporary
unfolding Text-discrete
temporary_apart = apart temporary refl refl

handle_large_block_stream_example :
    Safely memory L malloc stream sink
      (λ t.
        (p : Files) × Same L.content files p
        × Streamed memory L malloc stream sink memory-OneDevice files root rel target temporary
            served tt temporary_apart 400 first_block
            (record (session stream_rest) { files = p })
            t)
      (Untouched memory L files root rel target)
      (handle_large_block_stream memory malloc stream sink 400 first_block root rel
        (session stream_rest))
handle_large_block_stream_example =
    handle_large_block_stream-Streamed memory L malloc stream sink memory-OneDevice 400 first_block
      root rel target temporary (session stream_rest) served tt temporary_apart target_ample

abbrev hello_bytes : List ℕ
hello_bytes = header_bytes (init_sync_header Msg.hello)

abbrev whole_request : List ℕ
whole_request = hello_bytes ++ (header_bytes begin_header ++ (rel ++ contents))

server_handle_connection_example :
    AtMostOne memory malloc stream sink 400 root
      (session whole_request)
      (server_handle_connection memory malloc stream sink 400 4 root (session whole_request))
server_handle_connection_example =
    server_handle_connection-AtMostOne memory malloc stream sink 400 4 root (session whole_request)

-- The file that a connection leaves at a path, if it ends with 0.
abbrev left_by : Io (Unit {0}) (Session memory stream sink) → Text → Option (List ℕ)
left_by (done _ c) p = c.files p
left_by (broken c) p = none
left_by out_of_fuel p = none

-- After HELLO and the file, the connection ends with 0; the target is replaced, and its old bytes are in a version.
begin_run :
    (left_by
        (server_handle_connection memory malloc stream sink 400 4 root (session whole_request))
        target
      ≡ some (codes "hello"))
    × (left_by
          (server_handle_connection memory malloc stream sink 400 4 root (session whole_request))
          version
        ≡ some (codes "old"))
unfolding server_handle_connection hash_loop readn_loop writen_loop write_full hash_fd_range
    make_parents copy_loop write_piece read_events write_events header_bytes block_header end_header
    init_sync_header hash_buffer_fnv1a set Text-discrete
begin_run = (refl, refl)

-- The client resumes: it asks for the offset, and sends the blocks.
abbrev resumed : List ℕ
resumed =
    header_bytes (record (init_sync_header Msg.query_offset) { path_len = 1 })
    ++ (rel ++ (header_bytes first_block ++ stream_rest))

stream_run :
    left_by (server_handle_connection memory malloc stream sink 400 4 root (session resumed)) target
    ≡ some (codes "hello")
unfolding server_handle_connection hash_loop readn_loop writen_loop write_full hash_fd_range
    make_parents copy_loop write_piece read_events write_events header_bytes block_header end_header
    init_sync_header hash_buffer_fnv1a set Text-discrete
stream_run = refl
