-- ===== src/Blocks/Send.antt =====
-- What send_file_block, send_file_end and send_remote_small_file of src/transfer.c put on the wire.
use mini_sync.Common.{
  ℕ, ◌+◌, ◌^◌, ◌≤◌, ◌<◌, ◌≡◌, refl, ap, ◌∙◌, inr, List, [], ◌∷◌, ◌++◌, arith, length, append_assoc,
}
use mini_sync.Output
use mini_sync.Output.{Output, IsWritable}
use mini_sync.Net.{done}
use mini_sync.Net.Write.{write_full_lem}
use mini_sync.Hash.Detect.{hash_buffer-lt}
use mini_sync.Protocol.{
  validate_sync_header, init_sync_header, header_bytes, header_size, send_header,
}
use mini_sync.Protocol.Wire.{IsHeader, length-header_bytes}
use mini_sync.Blocks.{
  max_block_len, FileInfo, block_header, end_header, send_file_block, send_file_end,
  send_small_contents,
}
use mini_sync.Blocks.Receive.{Block, wire, AllBlocks}

-- The fields fit their C types.
pub record IsInfo (info : FileInfo) : Type 0 where
  pub file_size : info.file_size < 2 ^ 64
  pub total_hash : info.total_hash < 2 ^ 64
  pub mode : info.mode < 2 ^ 32
  pub mtime : info.mtime < 2 ^ 64

-- The blocks that a small file is sent in.
abbrev pub small_blocks : List ℕ → FileInfo → List Block
small_blocks [] info = []
small_blocks (b ∷ buf) info = (block_header (b ∷ buf) 0 info, b ∷ buf) ∷ []

pub block_header-IsHeader :
    (buf : List ℕ) (offset : ℕ) (info : FileInfo)
    → IsInfo info
    → length buf ≤ max_block_len
    → offset < 2 ^ 64
    → IsHeader (block_header buf offset info)
unfolding block_header init_sync_header
block_header-IsHeader buf offset info v short at = record {
  magic = omega arith;
  version = omega arith;
  msg_type = omega arith;
  path_len = omega arith;
  file_size = v.file_size;
  offset = at;
  data_len = omega (arith, short);
  mode = v.mode;
  mtime = v.mtime;
  total_hash = v.total_hash;
  block_hash = hash_buffer-lt buf;
}

pub end_header-IsHeader : (info : FileInfo) → IsInfo info → IsHeader (end_header info)
unfolding end_header init_sync_header
end_header-IsHeader info v = record {
  magic = omega arith;
  version = omega arith;
  msg_type = omega arith;
  path_len = omega arith;
  file_size = v.file_size;
  offset = v.file_size;
  data_len = omega arith;
  mode = v.mode;
  mtime = v.mtime;
  total_hash = v.total_hash;
  block_hash = omega arith;
}

pub small_blocks-AllBlocks :
    (buf : List ℕ) (info : FileInfo)
    → IsInfo info
    → length buf ≤ max_block_len
    → AllBlocks (small_blocks buf info)
unfolding block_header init_sync_header validate_sync_header
small_blocks-AllBlocks [] info v short = tt
small_blocks-AllBlocks (b ∷ buf) info v short = (
  record {
    header = block_header-IsHeader (b ∷ buf) 0 info v short (omega arith);
    valid = refl;
    kind = refl;
    len = refl;
    some_bytes = omega arith;
    short = short;
    hash = inr refl;
  },
  tt,
)

module _ (O : Output) (W : IsWritable O) (writes : Output.NeverFails O) where
  pub send_file_block_lem :
      (fuel : ℕ) (o : O.State) (buf : List ℕ) (offset : ℕ) (info : FileInfo)
      → header_size + length buf + W.retries o < fuel
      → (o' : O.State) × (send_file_block O fuel o buf offset info ≡ done tt o')
        × (W.sent o' ≡ W.sent o ++ (header_bytes (block_header buf offset info) ++ buf))
        × (W.retries o' ≤ W.retries o)
  unfolding send_file_block send_header
  send_file_block_lem fuel o buf offset info room =
      let h = header_bytes (block_header buf offset info) in
      let (p, e, sent, fewer) =
        write_full_lem O W writes fuel o h
          (omega (arith, length-header_bytes (block_header buf offset info))) in
      let (q, e', sent', fewer') = write_full_lem O W writes fuel p buf (omega (arith, fewer)) in
      (
        q,
        ground (arith, e, e'),
        sent' ∙ ap (λ x. x ++ buf) sent ∙ append_assoc (W.sent o) h buf,
        omega (arith, fewer, fewer'),
      )

  send_file_end_lem :
      (fuel : ℕ) (o : O.State) (info : FileInfo)
      → header_size + W.retries o < fuel
      → (o' : O.State) × (send_file_end O fuel o info ≡ done tt o')
        × (W.sent o' ≡ W.sent o ++ header_bytes (end_header info))
  unfolding send_file_end send_header
  send_file_end_lem fuel o info room =
      let (q, e, sent, fewer) =
        write_full_lem O W writes fuel o (header_bytes (end_header info))
          (omega (arith, length-header_bytes (end_header info))) in
      (q, e, sent)

  pub send_small_contents_lem :
      (fuel : ℕ) (o : O.State) (buf : List ℕ) (info : FileInfo)
      → info.file_size ≡ length buf
      → header_size + length buf + W.retries o < fuel
      → (o' : O.State) × (send_small_contents O fuel o buf info ≡ done tt o')
        × (W.sent o' ≡ W.sent o ++ wire (small_blocks buf info) (header_bytes (end_header info)))
  unfolding send_small_contents
  send_small_contents_lem fuel o [] info size room =
      let (q, e, sent) = send_file_end_lem fuel o info (omega arith) in
      (q, ground (arith, size, e), sent)
  send_small_contents_lem fuel o (b ∷ buf) info size room =
      let h = header_bytes (block_header (b ∷ buf) 0 info) in
      let (p, e, sent, fewer) = send_file_block_lem fuel o (b ∷ buf) 0 info room in
      let (q, e', sent') = send_file_end_lem fuel p info (omega (arith, fewer)) in
      (
        q,
        ground (arith, size, e, e'),
        sent'
            ∙ ap (λ x. x ++ header_bytes (end_header info)) sent
            ∙ append_assoc (W.sent o) (h ++ (b ∷ buf)) (header_bytes (end_header info))
            ∙ ap (λ x. W.sent o ++ x) (append_assoc h (b ∷ buf) (header_bytes (end_header info))),
      )
