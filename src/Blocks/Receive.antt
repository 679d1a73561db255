-- ===== src/Blocks/Receive.antt =====
-- What recv_file_blocks_until_end of src/server.c makes of a stream of blocks.
use mini_sync.Common.{
  ℕ, zero, suc, ◌+◌, ◌≤◌, ◌<◌, ◌≡◌, refl, ◌⊎◌, ap, ◌∙◌, inl, inr, Bool, true, List, [], ◌∷◌, ◌++◌,
  arith, length, take, drop, length-append, take-append_self, drop-append_self, leb, le→leb,
}
use mini_sync.Input
use mini_sync.Input.{Input, IsReadable}
use mini_sync.Net.{done, read_full}
use mini_sync.Net.Read.{read_full_lem}
use mini_sync.Hash.{hash_buffer_fnv1a}
use mini_sync.Protocol.{SyncHeader, validate_sync_header, header_bytes, recv_header}
use mini_sync.Protocol.Msg
use mini_sync.Protocol.Wire.{IsHeader, length-header_bytes}
use mini_sync.Protocol.Transport.{recv_header_sent}
use mini_sync.Blocks.{
  OutFile, Received, ended, max_block_len, block_read, header_read, recv_file_blocks_until_end,
}

-- A block as it is sent: its header and its bytes.
abbrev pub Block : Type 0
Block = SyncHeader × List ℕ

-- A block that the receiver takes.
pub record IsBlock (b : Block) : Type 0 where
  pub header : IsHeader b.0
  pub valid : validate_sync_header b.0 ≡ true
  pub kind : b.0.msg_type ≡ Msg.file_block
  pub len : b.0.data_len ≡ length b.1
  pub some_bytes : 0 < length b.1
  pub short : length b.1 ≤ max_block_len
  pub hash : (b.0.block_hash ≡ 0) ⊎ (b.0.block_hash ≡ hash_buffer_fnv1a b.1)

-- Blocks on the wire, followed by `more`.
abbrev pub wire : List Block → List ℕ → List ℕ
wire [] more = more
wire ((h, buf) ∷ blocks) more = header_bytes h ++ (buf ++ wire blocks more)

abbrev pub AllBlocks : List Block → Type 0
AllBlocks [] = Unit
AllBlocks (b ∷ blocks) = IsBlock b × AllBlocks blocks

module _ (D : OutFile) where
  -- The file after all blocks are written, each where its header says.
  abbrev pub written : D.File → List Block → D.File
  written f [] = f
  written f ((h, buf) ∷ blocks) = written (D.pwrite f buf h.offset).1 blocks

  -- Each of these writes writes all its bytes.
  abbrev pub AllWritten : D.File → List Block → Type 0
  AllWritten f [] = Unit
  AllWritten f ((h, buf) ∷ blocks) =
      ((D.pwrite f buf h.offset).0 ≡ true) × AllWritten (D.pwrite f buf h.offset).1 blocks

module _ (D : OutFile) (malloc : ℕ → Bool) (I : Input) (R : IsReadable I)
    (ok : Input.NeverFails I) where
  open R use {rest, retries}

  read_block :
      (fuel : ℕ) (s : I.State) (buf more : List ℕ)
      → rest s ≡ buf ++ more
      → length (rest s) + retries s < fuel
      → (t : I.State) × (read_full I fuel s (length buf) ≡ done buf t)
        × (rest t ≡ more)
        × (retries t ≤ retries s)
  read_block fuel s buf more arrives enough =
      let (t, e, h) = read_full_lem I R ok fuel s (length buf) enough in
      let long : leb (length buf) (length (rest s)) ≡ true =
        le→leb (length buf) (length (rest s))
          (omega (arith, ap length arrives, length-append {0} buf more)) in
      let took : take (length buf) (rest s) ≡ buf =
        ap (take (length buf)) arrives ∙ take-append_self buf more in
      (
        t,
        e ∙ rw (long, took) refl,
        h.rest_after ∙ ap (drop (length buf)) arrives ∙ drop-append_self buf more,
        h.retries_after,
      )

  header_taken :
      (io_fuel : ℕ) (next : I.State → D.File → Received D.File I.State) (u : I.State) (f : D.File)
      (expected : ℕ) (h : SyncHeader) (buf : List ℕ)
      → IsBlock (h, buf)
      → malloc (length buf) ≡ true
      → header_read D malloc I io_fuel next expected f (done h u)
        ≡ block_read D malloc I next h f (read_full I io_fuel u h.data_len)
  header_taken io_fuel next u f expected h buf v room =
      let kind = v.kind in
      let room' : malloc h.data_len ≡ true = ap malloc v.len ∙ room in
      let some_bytes : 0 < h.data_len = omega (arith, v.len, v.some_bytes) in
      let short : h.data_len ≤ max_block_len = omega (arith, v.len, v.short) in
      ground (arith, kind, room', some_bytes, short)

  block_taken :
      (next : I.State → D.File → Received D.File I.State) (t : I.State) (f : D.File)
      (h : SyncHeader) (buf : List ℕ)
      → (h.block_hash ≡ 0) ⊎ (h.block_hash ≡ hash_buffer_fnv1a buf)
      → (D.pwrite f buf h.offset).0 ≡ true
      → block_read D malloc I next h f (done buf t) ≡ next t (D.pwrite f buf h.offset).1
  block_taken next t f h buf (inl unhashed) write = ground (arith, unhashed, write)
  block_taken next t f h buf (inr hashed) write = ground (arith, hashed, write)

  recv_block :
      (fuel io_fuel : ℕ) (s u : I.State) (f : D.File) (expected : ℕ) (h : SyncHeader)
      (buf more : List ℕ)
      → IsBlock (h, buf)
      → malloc (length buf) ≡ true
      → (D.pwrite f buf h.offset).0 ≡ true
      → recv_header I io_fuel s ≡ done h u
      → rest u ≡ buf ++ more
      → length (rest u) + retries u < io_fuel
      → (t : I.State) × (recv_file_blocks_until_end D malloc I io_fuel (suc fuel) s f expected
          ≡ recv_file_blocks_until_end D malloc I io_fuel fuel t
              (D.pwrite f buf h.offset).1
              expected)
        × (rest t ≡ more)
        × (retries t ≤ retries u)
  unfolding recv_file_blocks_until_end
  recv_block fuel io_fuel s u f expected h buf more v room write got arrives enough =
      let (t, r, after, fewer) = read_block io_fuel u buf more arrives enough in
      let next : I.State → D.File → Received D.File I.State =
        λ s' f'. recv_file_blocks_until_end D malloc I io_fuel fuel s' f' expected in
      (
        t,
        ap (header_read D malloc I io_fuel next expected f) got
            ∙ header_taken io_fuel next u f expected h buf v room
            ∙ ap (block_read D malloc I next h f) (ap (read_full I io_fuel u) v.len ∙ r)
            ∙ block_taken next t f h buf v.hash write,
        after,
        fewer,
      )

  end_taken :
      (io_fuel : ℕ) (next : I.State → D.File → Received D.File I.State) (u : I.State) (f : D.File)
      (expected : ℕ) (e : SyncHeader)
      → e.msg_type ≡ Msg.file_end
      → (expected ≡ 0) ⊎ ((e.total_hash ≡ 0) ⊎ (e.total_hash ≡ expected))
      → header_read D malloc I io_fuel next expected f (done e u) ≡ ended e u f
  end_taken io_fuel next u f expected e kind (inl none_) = ground (arith, kind, none_)
  end_taken io_fuel next u f expected e kind (inr (inl none_)) = ground (arith, kind, none_)
  end_taken io_fuel next u f expected e kind (inr (inr same)) = ground (arith, kind, same)

  -- Blocks that arrive one after the other, followed by FILE_END, are all written where their headers say,
  -- in order, and the call returns 0 with that end: if each is a FILE_BLOCK of 1 to 2^24 bytes with the hash of
  -- its bytes or none, memory and every write suffice, the hash of the end does not differ from an expected
  -- one, and the fuels exceed the bytes with the interruptions and the blocks.
  pub recv_file_blocks_lem :
      (io_fuel fuel : ℕ) (blocks : List Block) (s : I.State) (f : D.File) (expected : ℕ)
      (e : SyncHeader) (more : List ℕ)
      → ((n : ℕ) → n ≤ max_block_len → malloc n ≡ true)
      → AllBlocks blocks
      → AllWritten D f blocks
      → IsHeader e
      → validate_sync_header e ≡ true
      → e.msg_type ≡ Msg.file_end
      → (expected ≡ 0) ⊎ ((e.total_hash ≡ 0) ⊎ (e.total_hash ≡ expected))
      → rest s ≡ wire blocks (header_bytes e ++ more)
      → length (rest s) + retries s < io_fuel
      → length blocks < fuel
      → (t : I.State) × (recv_file_blocks_until_end D malloc I io_fuel fuel s f expected
          ≡ ended e t (written D f blocks))
        × (rest t ≡ more)
        × (retries t ≤ retries s)
  unfolding recv_file_blocks_until_end
  recv_file_blocks_lem io_fuel zero blocks s f expected e more alloc vs writes ve valid kind same
        arrives enough rounds =
      absurd (omega arith)
  recv_file_blocks_lem io_fuel (suc fuel) [] s f expected e more alloc vs writes ve valid kind same
        arrives enough rounds =
      let (t, r, after, fewer) = recv_header_sent I R ok io_fuel s e more ve arrives enough in
      let next : I.State → D.File → Received D.File I.State =
        λ s' f'. recv_file_blocks_until_end D malloc I io_fuel fuel s' f' expected in
      let got : recv_header I io_fuel s ≡ done e t = ground (arith, r, valid) in
      (
        t,
        ap (header_read D malloc I io_fuel next expected f) got
            ∙ end_taken io_fuel next t f expected e kind same,
        after,
        fewer,
      )
  recv_file_blocks_lem io_fuel (suc fuel) ((h, buf) ∷ blocks) s f expected e more alloc (v, vs)
        (write, writes) ve valid kind same arrives enough rounds =
      let tail = wire blocks (header_bytes e ++ more) in
      let (u, r, after, fewer) =
        recv_header_sent I R ok io_fuel s h (buf ++ tail) v.header arrives enough in
      let got : recv_header I io_fuel s ≡ done h u = ground (arith, r, v.valid) in
      let size_s : length (rest u) + retries u < io_fuel = omega (
        arith,
        ap length arrives,
        length-append {0} (header_bytes h) (buf ++ tail),
        length-header_bytes h,
        ap length after,
        fewer,
      ) in
      let (t, one, after', fewer') =
        recv_block fuel io_fuel s u f expected h buf tail v (alloc (length buf) v.short) write got
          after size_s in
      let size_t : length (rest t) + retries t < io_fuel =
        omega (arith, ap length after, ap length after', length-append {0} buf tail, size_s) in
      let (w, all, end, fewer'') =
        recv_file_blocks_lem io_fuel fuel blocks t (D.pwrite f buf h.offset).1 expected e more alloc
          vs writes ve valid kind same after' size_t (omega arith) in
      (w, one ∙ all, end, omega (arith, fewer, fewer', fewer''))
