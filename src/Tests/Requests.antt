-- ===== src/Tests/Requests.antt =====
-- Requests and replies of src/transfer.c and src/server.c at concrete paths.
use mini_sync.Common.{
  ℕ, ◌+◌, ◌≡◌, refl, ◌<◌, ◌≤◌, true, none, some, List, [], ◌∷◌, ◌++◌, arith, codes, length,
}
use mini_sync.Input.Scheduled.{Stream, stream, stream-IsReadable, stream-NeverFails, signals}
use mini_sync.Output.Scheduled
use mini_sync.Output.Scheduled.{Sink, sink, sink-IsWritable, sink-NeverFails}
use mini_sync.Net.{done}
use mini_sync.Protocol.{send_ack, recv_header, recv_path, max_net_path}
use mini_sync.Protocol.Msg
use mini_sync.Remote.Request.{request_header, recv_path-send_header_with_path}
use mini_sync.FilePath.{sanitize_rel_path}
use mini_sync.Remote.{rename_payload, rename_paths, send_header_with_path, wait_for_ack}
use mini_sync.Remote.Rename.{rename_paths-rename_payload}
use mini_sync.Remote.Ack.{wait_for_ack-send_ack}

-- A payload without a NUL, and one whose new path leads upwards.
bad_payloads :
    (rename_paths (codes "ab") ≡ none) × (rename_paths (codes "a" ++ (0 ∷ codes "../b")) ≡ none)
unfolding rename_paths
bad_payloads = (refl, refl)

clean_old : sanitize_rel_path (codes "a/b") ≡ true
unfolding sanitize_rel_path
clean_old = refl

clean_new : sanitize_rel_path (codes "c") ≡ true
unfolding sanitize_rel_path
clean_new = refl

rename_example :
    (payload : List ℕ) × (rename_payload (codes "a/b") (codes "c") ≡ some payload)
    × (length payload ≤ max_net_path)
    × (rename_paths payload ≡ some (codes "a/b", codes "c"))
rename_example =
    rename_paths-rename_payload (codes "a/b") (codes "c")
      ((λ e. ground arith), ((λ e. ground arith), ((λ e. ground arith), tt)))
      ((λ e. ground arith), tt) clean_old clean_new (omega arith)

abbrev slow_sink : Sink
slow_sink = record { sent = []; events = Scheduled.Event.room 1 ∷ Scheduled.Event.signal ∷ [] }

ack_example :
    (o : Sink) × (send_ack sink 100 slow_sink 4096 ≡ done tt o)
    × ((s : Stream) (more : List ℕ)
        → [] ++ s.bytes ≡ o.sent ++ more
        → length s.bytes + signals s.events < 100
        → (t : Stream) × (wait_for_ack stream 100 s ≡ done tt t) × (t.bytes ≡ more))
ack_example =
    wait_for_ack-send_ack sink sink-IsWritable sink-NeverFails stream stream-IsReadable
      stream-NeverFails 100 slow_sink 4096 (omega arith) (omega arith)

request_example :
    (o : Sink) × (send_header_with_path sink 100 slow_sink Msg.file_delete (codes "a/b")
      ≡ done tt o)
    × ((s : Stream) (more : List ℕ)
        → [] ++ s.bytes ≡ o.sent ++ more
        → length s.bytes + signals s.events < 100
        → (u t : Stream) × (recv_header stream 100 s
            ≡ done (request_header Msg.file_delete (codes "a/b")) u)
          × (recv_path stream 100 u 513 3 ≡ done (codes "a/b") t)
          × (t.bytes ≡ more))
request_example =
    recv_path-send_header_with_path sink sink-IsWritable sink-NeverFails stream stream-IsReadable
      stream-NeverFails 100 slow_sink Msg.file_delete (codes "a/b") (omega arith) (omega arith)
      (omega arith)
