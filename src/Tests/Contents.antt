-- ===== src/Tests/Contents.antt =====
-- The contents of a small file across a connection that takes and delivers them in pieces.
use mini_sync.Common.{
  ℕ, zero, suc, ◌+◌, ◌≡◌, refl, ◌<◌, ◌≤◌, ◌⊎◌, ◌^◌, inr, inl, true, List, [], ◌∷◌, ◌++◌, arith,
  codes, length, drop, append-nil, ap, ◌∙◌,
}
use mini_sync.Input.Scheduled.{
  Stream, ready, signal, stream, stream-IsReadable, stream-NeverFails, signals,
}
use mini_sync.Output.Scheduled
use mini_sync.Output.Scheduled.{Sink, sink, sink-IsWritable, sink-NeverFails}
use mini_sync.Net.{done}
use mini_sync.Blocks.{
  OutFile, ended, FileInfo, max_block_len, block_header, end_header, send_small_contents,
  recv_file_blocks_until_end,
}
use mini_sync.Protocol.{validate_sync_header, init_sync_header, header_bytes}
use mini_sync.Protocol.Msg
use mini_sync.Blocks.Receive.{
  Block, IsBlock, AllBlocks, AllWritten, wire, written, recv_file_blocks_lem,
}
use mini_sync.Blocks.Accept.{AllChecked, Gives, recv_file_blocks-AllChecked}
use mini_sync.Blocks.Send.{IsInfo, block_header-IsHeader, end_header-IsHeader}
use mini_sync.Blocks.Large.{Consecutive, send_large_blocks, send_large_blocks_lem}
use mini_sync.Blocks.Small.{WritesWhole, end_header-valid, recv_file_blocks-send_small_contents}

-- A file as a list of bytes, with zeros in its gaps.
abbrev patch : List ℕ → List ℕ → ℕ → List ℕ
patch file buf zero = buf ++ drop (length buf) file
patch [] buf (suc offset) = 0 ∷ patch [] buf offset
patch (b ∷ file) buf (suc offset) = b ∷ patch file buf offset

abbrev disk : OutFile
disk = record { File = List ℕ; pwrite = λ file buf offset. (true, patch file buf offset) }

drop-nil : (n : ℕ) → drop {A = ℕ} n [] ≡ []
drop-nil zero = refl
drop-nil (suc n) = refl

abbrev content : List ℕ → List ℕ
content file = file

disk-WritesWhole : WritesWhole disk content
disk-WritesWhole file buf empty = (
  refl,
  ap (λ f. buf ++ drop (length buf) f) empty
      ∙ ap (λ x. buf ++ x) (drop-nil (length buf))
      ∙ append-nil buf,
)

abbrev info : FileInfo
info = record { file_size = 5; total_hash = 0xa430d84680aabd0b; mode = 0; mtime = 0 }

info-IsInfo : IsInfo info
info-IsInfo = record {
  file_size = omega arith;
  total_hash = omega arith;
  mode = omega arith;
  mtime = omega arith;
}

abbrev busy_sink : Sink
busy_sink = record {
  sent = [];
  events = Scheduled.Event.room 1 ∷ Scheduled.Event.busy ∷ Scheduled.Event.signal ∷ [];
}

small_contents_example :
    (o : Sink) × (send_small_contents sink 300 busy_sink (codes "hello") info ≡ done tt o)
    × ((s : Stream) (more file : List ℕ)
        → [] ++ s.bytes ≡ o.sent ++ more
        → length s.bytes + signals s.events < 300
        → file ≡ []
        → (t : Stream) × (file' : List ℕ) × (recv_file_blocks_until_end disk
              (λ n. true)
              stream
              300
              2
              s
              file
              0xa430d84680aabd0b
            ≡ ended (end_header info) t file')
          × (file' ≡ codes "hello")
          × (t.bytes ≡ more))
small_contents_example =
    recv_file_blocks-send_small_contents disk content disk-WritesWhole (λ n. true) sink
      sink-IsWritable sink-NeverFails stream stream-IsReadable stream-NeverFails 300 busy_sink
      (codes "hello") info refl (omega arith) info-IsInfo (λ n small. refl) (omega arith)

abbrev two_blocks : List Block
two_blocks =
    (block_header (codes "ab") 0 info, codes "ab")
    ∷ (block_header (codes "cd") 2 info, codes "cd")
    ∷ []

block_header-IsBlock :
    (buf : List ℕ) (offset : ℕ)
    → 0 < length buf
    → length buf ≤ max_block_len
    → offset < 2 ^ 64
    → IsBlock (block_header buf offset info, buf)
unfolding block_header init_sync_header validate_sync_header
block_header-IsBlock buf offset some_bytes short at = record {
  header = block_header-IsHeader buf offset info info-IsInfo short at;
  valid = refl;
  kind = refl;
  len = refl;
  some_bytes = some_bytes;
  short = short;
  hash = inr refl;
}

two_blocks-AllBlocks : AllBlocks two_blocks
two_blocks-AllBlocks = (
  block_header-IsBlock (codes "ab") 0 (omega arith) (omega arith) (omega arith),
  (block_header-IsBlock (codes "cd") 2 (omega arith) (omega arith) (omega arith), tt),
)

abbrev incoming : Stream
incoming = record {
  bytes = wire two_blocks (header_bytes (end_header info) ++ codes "!");
  events = signal ∷ ready 10 ∷ [];
}

incoming_room : length incoming.bytes + signals incoming.events < 300
unfolding header_bytes
incoming_room = omega arith

end_kind : (end_header info).msg_type ≡ Msg.file_end
unfolding end_header init_sync_header
end_kind = refl

two_blocks_example :
    (t : Stream) × (recv_file_blocks_until_end disk (λ n. true) stream 300 3 incoming [] 0
      ≡ ended (end_header info) t (written disk [] two_blocks))
    × (t.bytes ≡ codes "!")
    × (signals t.events ≤ 1)
two_blocks_example =
    recv_file_blocks_lem disk (λ n. true) stream stream-IsReadable stream-NeverFails 300 3
      two_blocks incoming [] 0 (end_header info) (codes "!") (λ n small. refl) two_blocks-AllBlocks
      (refl, (refl, tt)) (end_header-IsHeader info info-IsInfo) (end_header-valid info) end_kind
      (inl refl) refl incoming_room (omega arith)

abbrev no_hash : ℕ
no_hash = 0

incoming_received :
    (t : Stream) × (recv_file_blocks_until_end disk (λ n. true) stream 300 3 incoming [] no_hash
      ≡ ended (end_header info) t (written disk [] two_blocks))
    × (t.bytes ≡ codes "!")
    × (signals t.events ≤ 1)
incoming_received =
    recv_file_blocks_lem disk (λ n. true) stream stream-IsReadable stream-NeverFails 300 3
      two_blocks incoming [] no_hash (end_header info) (codes "!") (λ n small. refl)
      two_blocks-AllBlocks (refl, (refl, tt)) (end_header-IsHeader info info-IsInfo)
      (end_header-valid info) end_kind (inl refl) refl incoming_room (omega arith)

incoming-AllChecked_example :
    (blocks : List Block) × Gives disk
      (λ n. true)
      stream
      300
      incoming
      blocks
      (end_header info)
      incoming_received.0
    × AllChecked blocks
    × AllWritten disk [] blocks
    × (written disk [] blocks ≡ written disk [] two_blocks)
    × ((end_header info).msg_type ≡ Msg.file_end)
    × ((no_hash ≡ 0)
        ⊎ (((end_header info).total_hash ≡ 0) ⊎ ((end_header info).total_hash ≡ no_hash)))
incoming-AllChecked_example =
    recv_file_blocks-AllChecked disk (λ n. true) stream 300 3 incoming [] no_hash (end_header info)
      incoming_received.0 (written disk [] two_blocks) incoming_received.1

abbrev source : Stream
source = record { bytes = codes "abcde"; events = ready 1 ∷ signal ∷ [] }

large_example :
    (blocks : List Block) × (t : Stream) × (o : Sink) × (send_large_blocks stream sink 300 2 info 20
        source busy_sink 4096
      ≡ done tt (t, o))
    × AllBlocks blocks
    × Consecutive 4096 blocks (codes "abcde")
    × (o.sent ≡ [] ++ wire blocks [])
large_example =
    send_large_blocks_lem stream stream-IsReadable stream-NeverFails sink sink-IsWritable
      sink-NeverFails 300 2 (omega arith) (omega arith) info info-IsInfo 20 source busy_sink 4096
      (omega arith) (omega arith) (omega arith)
