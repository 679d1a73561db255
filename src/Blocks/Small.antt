-- ===== src/Blocks/Small.antt =====
-- A small file from send_remote_small_file of src/transfer.c to recv_file_blocks_until_end of
-- src/server.c.
use mini_sync.Common.{
  ℕ, ◌+◌, ◌≤◌, ◌<◌, ◌≡◌, refl, ap, sym, ◌∙◌, inr, Bool, true, List, [], ◌∷◌, ◌++◌, arith, length,
  append_assoc,
}
use mini_sync.Input
use mini_sync.Input.{Input, IsReadable}
use mini_sync.Output
use mini_sync.Output.{Output, IsWritable}
use mini_sync.Net.{done}
use mini_sync.Protocol.{
  SyncHeader, validate_sync_header, init_sync_header, header_bytes, header_size,
}
use mini_sync.Protocol.Transport.{append_cancel}
use mini_sync.Blocks.{
  OutFile, ended, max_block_len, recv_file_blocks_until_end, FileInfo, block_header, end_header,
  send_small_contents,
}
use mini_sync.Blocks.Receive.{wire, AllWritten, written, recv_file_blocks_lem}
use mini_sync.Blocks.Send.{
  IsInfo, small_blocks, small_blocks-AllBlocks, end_header-IsHeader, send_small_contents_lem,
}

wire-append :
    (blocks : List (SyncHeader × List ℕ)) (a b : List ℕ) → wire blocks (a ++ b) ≡ wire blocks a ++ b
wire-append [] a b = refl
wire-append ((h, buf) ∷ blocks) a b =
    ap (λ x. header_bytes h ++ (buf ++ x)) (wire-append blocks a b)
    ∙ ap (λ x. header_bytes h ++ x) (sym (append_assoc buf (wire blocks a) b))
    ∙ sym (append_assoc (header_bytes h) (buf ++ wire blocks a) b)

pub end_header-valid : (info : FileInfo) → validate_sync_header (end_header info) ≡ true
unfolding end_header init_sync_header validate_sync_header
end_header-valid info = refl

-- What pwrite promises of an empty file: what is written at its start is then its contents.
abbrev pub WritesWhole : (D : OutFile) → (content : D.File → List ℕ) → Type 0
WritesWhole D content =
    (f : D.File) (buf : List ℕ)
    → content f ≡ []
    → ((D.pwrite f buf 0).0 ≡ true) × (content (D.pwrite f buf 0).1 ≡ buf)

module _ (D : OutFile) (content : D.File → List ℕ) (writes_whole : WritesWhole D content) where
  small_written :
      (buf : List ℕ) (info : FileInfo) (f : D.File)
      → content f ≡ []
      → AllWritten D f (small_blocks buf info)
        × (content (written D f (small_blocks buf info)) ≡ buf)
  unfolding block_header
  small_written [] info f empty = (tt, empty)
  small_written (b ∷ buf) info f empty =
      let (whole, has) = writes_whole f (b ∷ buf) empty in ((whole, tt), has)

  module _ (malloc : ℕ → Bool) (O : Output) (W : IsWritable O) (writes : Output.NeverFails O)
      (I : Input) (R : IsReadable I) (reads : Input.NeverFails I) where
    -- The contents of a file of at most 2^24 bytes, sent by the client after its path, are the contents of the
    -- server's new file when the call that receives them returns 0, as it does; what follows on the connection is
    -- left. It is so where no call on the connection fails with another error than an interruption, which the
    -- fuels allow for, memory suffices, and pwrite writes an empty file whole.
    pub recv_file_blocks-send_small_contents :
        (fuel : ℕ) (o : O.State) (buf : List ℕ) (info : FileInfo)
        → info.file_size ≡ length buf
        → length buf ≤ max_block_len
        → IsInfo info
        → ((n : ℕ) → n ≤ max_block_len → malloc n ≡ true)
        → header_size + length buf + W.retries o < fuel
        → (o' : O.State) × (send_small_contents O fuel o buf info ≡ done tt o')
          × ((s : I.State) (more : List ℕ) (f : D.File)
              → W.sent o ++ R.rest s ≡ W.sent o' ++ more
              → length (R.rest s) + R.retries s < fuel
              → content f ≡ []
              → (t : I.State) × (f' : D.File) × (recv_file_blocks_until_end D malloc I fuel 2 s f
                    info.total_hash
                  ≡ ended (end_header info) t f')
                × (content f' ≡ buf)
                × (R.rest t ≡ more))
    unfolding end_header init_sync_header
    recv_file_blocks-send_small_contents fuel o buf info size short v alloc room =
        let (o', e, sent) = send_small_contents_lem O W writes fuel o buf info size room in
        (
          o',
          e,
          λ s more f joined enough empty.
              let (all, has) = small_written buf info f empty in
              let arrives = append_cancel (W.sent o) _ _ (
                joined
                ∙ ap (λ x. x ++ more) sent
                ∙ append_assoc (W.sent o)
                    (wire (small_blocks buf info) (header_bytes (end_header info))) more) in
              let (t, r, after, _) =
                recv_file_blocks_lem D malloc I R reads fuel 2 (small_blocks buf info) s f
                  info.total_hash (end_header info) more alloc
                  (small_blocks-AllBlocks buf info v short) all (end_header-IsHeader info v)
                  (end_header-valid info) refl (inr (inr refl))
                  (arrives
                    ∙ sym
                        (wire-append (small_blocks buf info) (header_bytes (end_header info)) more))
                  enough (one_block buf) in
              (t, written D f (small_blocks buf info), r, has, after),
        )
      where
        one_block : (bytes : List ℕ) → length (small_blocks bytes info) < 2
        one_block [] = omega arith
        one_block (b ∷ bytes) = omega arith
