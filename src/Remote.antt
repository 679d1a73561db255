-- ===== src/Remote.antt =====
-- Requests of the client in src/transfer.c and their replies: the payload of send_remote_rename with the
-- part of server_handle_file_rename in src/server.c that takes it apart, send_header_with_path and
-- wait_for_ack. Opening and closing the connection are not modelled.
pub mod Rename
pub mod Ack
pub mod Request
use mini_sync.Common.{
  ℕ, suc, ◌+◌, ◌%◌, ◌^◌, Bool, true, false, not, ◌&&◌, ◌||◌, Option, none, some, List, [], ◌∷◌,
  ◌++◌, Text, length, take, drop, leb, ltb, ◌==◌, if◌then◌else◌,
}
use mini_sync.Input.{Input}
use mini_sync.Output.{Output}
use mini_sync.Net.{Io, done, broken, and_then}
use mini_sync.Protocol.{
  SyncHeader, max_net_path, init_sync_header, recv_header, send_header, send_path,
}
use mini_sync.Protocol.Msg
use mini_sync.FilePath.{sanitize_rel_path}

-- The payload of a rename request, or -1.
unfoldable pub rename_payload : (old_rel_path rel_path : Text) → Option (List ℕ)
rename_payload [] rel_path = none
rename_payload (c ∷ old) rel_path =
    if ltb max_net_path (length (c ∷ old) + 1 + length rel_path)
    then none
    else some ((c ∷ old) ++ (0 ∷ rel_path))

-- `strnlen` over the bytes of a buffer: those before the first NUL.
unfoldable pub strnlen : List ℕ → ℕ
strnlen [] = 0
strnlen (c ∷ t) = if c == 0 then 0 else suc (strnlen t)

-- The old and the new path of a payload of `length combined_path` bytes, which a NUL follows in the
-- buffer; `none` for the two answers with an error.
unfoldable pub rename_paths : (combined_path : List ℕ) → Option (Text × Text)
unfolding strnlen sanitize_rel_path
rename_paths combined_path =
    let path_len = length combined_path in
    let old_len = strnlen combined_path in
    if leb path_len old_len
    then none
    else let old_rel = take old_len combined_path in
      let rest = drop (old_len + 1) combined_path in
      let new_rel = take (strnlen rest) rest in
      if leb path_len (old_len + 1)
        || (not (sanitize_rel_path old_rel) || not (sanitize_rel_path new_rel))
      then none
      else some (old_rel, new_rel)

module _ (O : Output) where
  unfoldable pub send_header_with_path : ℕ → O.State → (msg_type : ℕ) → Text → Io (Unit {0}) O.State
  unfolding init_sync_header send_header send_path
  send_header_with_path fuel s msg_type rel_path =
      let path_len = length rel_path % 2 ^ 32 in
      if ltb max_net_path path_len
      then broken s
      else and_then
          (send_header O fuel s (record (init_sync_header msg_type) { path_len = path_len }))
          (λ _ t. send_path O fuel t rel_path)

module _ (I : Input) where
  unfoldable pub wait_for_ack : ℕ → I.State → Io (Unit {0}) I.State
  unfolding recv_header
  wait_for_ack fuel s = and_then (recv_header I fuel s) (λ reply t.
      if (reply.msg_type == Msg.ack) || (reply.msg_type == Msg.offset_reply)
      then done tt t
      else broken t)
