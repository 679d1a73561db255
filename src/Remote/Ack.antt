-- ===== src/Remote/Ack.antt =====
-- The replies of the server and what wait_for_ack of src/transfer.c makes of them.
use mini_sync.Common.{ℕ, ◌+◌, ◌^◌, ◌<◌, ◌≡◌, List, ◌++◌, arith, length}
use mini_sync.Input
use mini_sync.Input.{Input, IsReadable}
use mini_sync.Output
use mini_sync.Output.{Output, IsWritable}
use mini_sync.Net.{done}
use mini_sync.Protocol.{SyncHeader, init_sync_header, validate_sync_header, header_size, send_ack}
use mini_sync.Protocol.Msg
use mini_sync.Protocol.Wire.{IsHeader}
use mini_sync.Protocol.Transport.{recv_header-send_header}
use mini_sync.Remote.{wait_for_ack}

-- A reply with a number and nothing else.
abbrev pub ack_header : ℕ → SyncHeader
ack_header offset = record (init_sync_header Msg.ack) { offset = offset }

ack_header-IsHeader : (offset : ℕ) → offset < 2 ^ 64 → IsHeader (ack_header offset)
unfolding init_sync_header
ack_header-IsHeader offset small = record {
  magic = omega arith;
  version = omega arith;
  msg_type = omega arith;
  path_len = omega arith;
  file_size = omega arith;
  offset = small;
  data_len = omega arith;
  mode = omega arith;
  mtime = omega arith;
  total_hash = omega arith;
  block_hash = omega arith;
}

module _ (O : Output) (W : IsWritable O) (writes : Output.NeverFails O) (I : Input)
    (R : IsReadable I) (reads : Input.NeverFails I) where
  -- An acknowledgement that the server sends, with any 64-bit number, makes wait_for_ack return 0, and what
  -- follows on the connection is left to be read.
  pub wait_for_ack-send_ack :
      (fuel : ℕ) (o : O.State) (offset : ℕ)
      → offset < 2 ^ 64
      → header_size + W.retries o < fuel
      → (o' : O.State) × (send_ack O fuel o offset ≡ done tt o')
        × ((s : I.State) (more : List ℕ)
            → W.sent o ++ R.rest s ≡ W.sent o' ++ more
            → length (R.rest s) + R.retries s < fuel
            → (t : I.State) × (wait_for_ack I fuel s ≡ done tt t) × (R.rest t ≡ more))
  unfolding send_ack wait_for_ack init_sync_header validate_sync_header
  wait_for_ack-send_ack fuel o offset small room =
      let (o', e, received) =
        recv_header-send_header O W writes I R reads fuel o (ack_header offset)
          (ack_header-IsHeader offset small) room in
      (
        o',
        e,
        λ s more joined enough.
            let (t, r, after) = received s more joined enough in (t, ground (arith, r), after),
      )
