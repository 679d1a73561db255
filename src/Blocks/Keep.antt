-- ===== src/Blocks/Keep.antt =====
-- What recv_file_blocks_until_end of src/server.c leaves alone, whatever comes on the connection.
use mini_sync.Common.{ℕ, zero, suc, Bool, not, ◌&&◌, ◌||◌, List, inl, inr, ltb, ◌==◌, Bool-cases}
use mini_sync.Input.{Input}
use mini_sync.Net.{Io, done, broken, out_of_fuel, read_full}
use mini_sync.Hash.{hash_buffer_fnv1a}
use mini_sync.Protocol.{SyncHeader, recv_header}
use mini_sync.Protocol.Msg
use mini_sync.Blocks.{
  OutFile, Received, ended, failed, no_fuel, max_block_len, block_read, header_read,
  recv_file_blocks_until_end,
}

module _ (D : OutFile) (malloc : ℕ → Bool) (I : Input) (P : D.File → Type 0) where
  -- The file that is left, if the fuel is enough.
  abbrev pub AtEnd : Received D.File I.State → Type 0
  AtEnd (ended e s f) = P f
  AtEnd (failed s f) = P f
  AtEnd no_fuel = Unit

  module _
      (kept : (f : D.File) (buf : List ℕ) (offset : ℕ) → P f → P (D.pwrite f buf offset).1) where
    abbrev Keeping : (I.State → D.File → Received D.File I.State) → Type 0
    Keeping next = (s : I.State) (f : D.File) → P f → AtEnd (next s f)

    block_read-AtEnd :
        (next : I.State → D.File → Received D.File I.State) (h : SyncHeader) (f : D.File)
        (r : Io (List ℕ) I.State)
        → Keeping next
        → P f
        → AtEnd (block_read D malloc I next h f r)
    block_read-AtEnd next h f out_of_fuel keeps p = tt
    block_read-AtEnd next h f (broken s) keeps p = p
    block_read-AtEnd next h f (done buf s) keeps p =
        elim (Bool-cases (not (h.block_hash == 0) && not (hash_buffer_fnv1a buf == h.block_hash))) [
          | inl wrong ↦ rw wrong p
          | inr right ↦ elim (Bool-cases (D.pwrite f buf h.offset).0) [
            | inl whole ↦
                rw (right, whole) (keeps s (D.pwrite f buf h.offset).1 (kept f buf h.offset p))
            | inr cut ↦ rw (right, cut) (kept f buf h.offset p)
          ]
        ]

    header_read-AtEnd :
        (io_fuel : ℕ) (next : I.State → D.File → Received D.File I.State) (expected : ℕ)
        (f : D.File) (r : Io SyncHeader I.State)
        → Keeping next
        → P f
        → AtEnd (header_read D malloc I io_fuel next expected f r)
    header_read-AtEnd io_fuel next expected f out_of_fuel keeps p = tt
    header_read-AtEnd io_fuel next expected f (broken s) keeps p = p
    header_read-AtEnd io_fuel next expected f (done h s) keeps p =
        elim (Bool-cases (h.msg_type == Msg.file_end)) [
          | inl last ↦
              elim (Bool-cases (
                not (expected == 0)
                && (not (h.total_hash == 0) && not (expected == h.total_hash)))) [
                  | inl wrong ↦ rw (last, wrong) p
                  | inr right ↦ rw (last, right) p
                ]
          | inr block ↦
              elim (Bool-cases (
                not (h.msg_type == Msg.file_block)
                || ((h.data_len == 0) || ltb max_block_len h.data_len))) [
                  | inl bad ↦ rw (block, bad) p
                  | inr good ↦ elim (Bool-cases (malloc h.data_len)) [
                    | inr full ↦ rw (block, good, full) p
                    | inl room ↦
                        rw (block, good, room)
                          (block_read-AtEnd next h f (read_full I io_fuel s h.data_len) keeps p)
                  ]
                ]
        ]

    -- What every write to the file keeps, receiving its contents keeps.
    pub recv_file_blocks-AtEnd :
        (io_fuel fuel : ℕ) (s : I.State) (f : D.File) (expected : ℕ)
        → P f
        → AtEnd (recv_file_blocks_until_end D malloc I io_fuel fuel s f expected)
    unfolding recv_file_blocks_until_end
    recv_file_blocks-AtEnd io_fuel zero s f expected p = tt
    recv_file_blocks-AtEnd io_fuel (suc fuel) s f expected p =
        header_read-AtEnd io_fuel
          (λ s' f'. recv_file_blocks_until_end D malloc I io_fuel fuel s' f' expected) expected f
          (recv_header I io_fuel s)
          (λ s' f' p'. recv_file_blocks-AtEnd io_fuel fuel s' f' expected p') p
