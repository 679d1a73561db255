-- ===== src/Remote/Request.antt =====
-- A request that names a path, from send_header_with_path of src/transfer.c to the two calls with which
-- server_handle_connection of src/server.c receives it.
use mini_sync.Common.{
  ℕ, ◌+◌, ◌%◌, ◌^◌, ◌≤◌, ◌<◌, ◌≡◌, ap, ◌∙◌, true, List, ◌++◌, arith, length, length-append,
  append_assoc, Text,
}
use mini_sync.Input
use mini_sync.Input.{Input, IsReadable}
use mini_sync.Output
use mini_sync.Output.{Output, IsWritable}
use mini_sync.Net.{done}
use mini_sync.Net.Write.{write_full_lem}
use mini_sync.Protocol.{
  SyncHeader, init_sync_header, validate_sync_header, header_bytes, header_size, send_header,
  send_path, recv_header, recv_path, max_net_path,
}
use mini_sync.Protocol.Wire.{IsHeader, length-header_bytes}
use mini_sync.Protocol.Transport.{recv_header_sent, recv_path_sent, append_cancel}
use mini_sync.Remote.{send_header_with_path}

-- The header of a request for a path.
abbrev pub request_header : ℕ → Text → SyncHeader
request_header msg_type path = record (init_sync_header msg_type) { path_len = length path }

request_header-IsHeader :
    (msg_type : ℕ) (path : Text)
    → msg_type < 2 ^ 32
    → length path ≤ max_net_path
    → IsHeader (request_header msg_type path)
unfolding init_sync_header
request_header-IsHeader msg_type path kind short = record {
  magic = omega arith;
  version = omega arith;
  msg_type = kind;
  path_len = omega (arith, short);
  file_size = omega arith;
  offset = omega arith;
  data_len = omega arith;
  mode = omega arith;
  mtime = omega arith;
  total_hash = omega arith;
  block_hash = omega arith;
}

request_header-valid :
    (msg_type : ℕ) (path : Text)
    → length path ≤ max_net_path
    → validate_sync_header (request_header msg_type path) ≡ true
unfolding init_sync_header validate_sync_header
request_header-valid msg_type path short = ground (arith, short)

module _ (O : Output) (W : IsWritable O) (writes : Output.NeverFails O) where
  send_header_with_path_lem :
      (fuel : ℕ) (o : O.State) (msg_type : ℕ) (path : Text)
      → length path ≤ max_net_path
      → header_size + length path + W.retries o < fuel
      → (o' : O.State) × (send_header_with_path O fuel o msg_type path ≡ done tt o')
        × (W.sent o' ≡ W.sent o ++ (header_bytes (request_header msg_type path) ++ path))
  unfolding send_header_with_path send_header send_path
  send_header_with_path_lem fuel o msg_type path short room =
      let h = header_bytes (request_header msg_type path) in
      let (p, e, sent, fewer) =
        write_full_lem O W writes fuel o h
          (omega (arith, length-header_bytes (request_header msg_type path))) in
      let (q, e', sent', _) = write_full_lem O W writes fuel p path (omega (arith, fewer)) in
      let whole : length path % 2 ^ 32 ≡ length path = omega (arith, short) in
      (
        q,
        rw (whole) (ground (arith, short, e, e')),
        sent' ∙ ap (λ x. x ++ path) sent ∙ append_assoc (W.sent o) h path,
      )

  module _ (I : Input) (R : IsReadable I) (reads : Input.NeverFails I) where
    -- A request for a path of at most 512 bytes is sent whole, and the server, which receives a header and then as
    -- many bytes of path as the header says, gets its type and its path; what follows is left to be read.
    pub recv_path-send_header_with_path :
        (fuel : ℕ) (o : O.State) (msg_type : ℕ) (path : Text)
        → msg_type < 2 ^ 32
        → length path ≤ max_net_path
        → header_size + length path + W.retries o < fuel
        → (o' : O.State) × (send_header_with_path O fuel o msg_type path ≡ done tt o')
          × ((s : I.State) (more : List ℕ)
              → W.sent o ++ R.rest s ≡ W.sent o' ++ more
              → length (R.rest s) + R.retries s < fuel
              → (u : I.State) × (t : I.State) × (recv_header I fuel s
                  ≡ done (request_header msg_type path) u)
                × (recv_path I fuel u 513 (length path) ≡ done path t)
                × (R.rest t ≡ more))
    recv_path-send_header_with_path fuel o msg_type path kind short room =
        let h = request_header msg_type path in
        let (o', e, sent) = send_header_with_path_lem fuel o msg_type path short room in
        (
          o',
          e,
          λ s more joined enough.
              let arrives =
                append_cancel (W.sent o) _ _ (
                  joined
                  ∙ ap (λ x. x ++ more) sent
                  ∙ append_assoc (W.sent o) (header_bytes h ++ path) more)
                ∙ append_assoc (header_bytes h) path more in
              let (u, r, after, fewer) =
                recv_header_sent I R reads fuel s h (path ++ more)
                  (request_header-IsHeader msg_type path kind short) arrives enough in
              let size_u : length (R.rest u) + R.retries u < fuel = omega (
                arith,
                ap length arrives,
                length-append {0} (header_bytes h) (path ++ more),
                ap length after,
                fewer,
              ) in
              let (t, r', after', _) =
                recv_path_sent I R reads fuel u 513 path more after (omega (arith, short)) short
                  size_u in
              (u, t, ground (arith, r, request_header-valid msg_type path short), r', after'),
        )
