-- ===== src/Blocks/Accept.antt =====
-- What recv_file_blocks_until_end of src/server.c has checked when it returns 0, whoever the peer is.
use mini_sync.Common.{
  ℕ, zero, suc, ◌≤◌, ◌<◌, ◌≡◌, refl, ◌⊎◌, ap, sym, ◌∙◌, inl, inr, Bool, true, not, ◌&&◌, ◌||◌, List,
  [], ◌∷◌, arith, ltb, ◌==◌, Bool-cases,
}
use mini_sync.Input.{Input}
use mini_sync.Net.{Io, done, broken, out_of_fuel, read_full}
use mini_sync.Hash.{hash_buffer_fnv1a}
use mini_sync.Protocol.{SyncHeader, recv_header}
use mini_sync.Protocol.Msg
use mini_sync.Blocks.{
  OutFile, Received, ended, max_block_len, block_read, header_read, recv_file_blocks_until_end,
}
use mini_sync.Blocks.Receive.{Block, AllWritten, written}

-- A block that has passed the tests.
pub record IsChecked (b : Block) : Type 0 where
  pub kind : b.0.msg_type ≡ Msg.file_block
  pub some_bytes : 0 < b.0.data_len
  pub short : b.0.data_len ≤ max_block_len
  pub hash : (b.0.block_hash ≡ 0) ⊎ (b.0.block_hash ≡ hash_buffer_fnv1a b.1)

abbrev pub AllChecked : List Block → Type 0
AllChecked [] = Unit
AllChecked (b ∷ blocks) = IsChecked b × AllChecked blocks

module _ (D : OutFile) (malloc : ℕ → Bool) (I : Input) where
  abbrev Next : Type 0
  Next = I.State → D.File → Received D.File I.State

  -- The round has written one block, and the loop goes on.
  abbrev GoesOn :
      Next → SyncHeader → D.File → Io (List ℕ) I.State → Received D.File I.State → Type 0
  GoesOn next h f r result =
      (buf : List ℕ) × (u : I.State) × (r ≡ done buf u)
      × ((h.block_hash ≡ 0) ⊎ (h.block_hash ≡ hash_buffer_fnv1a buf))
      × ((D.pwrite f buf h.offset).0 ≡ true)
      × (next u (D.pwrite f buf h.offset).1 ≡ result)

  block_read-GoesOn :
      (next : Next) (h : SyncHeader) (f : D.File) (r : Io (List ℕ) I.State) (e : SyncHeader)
      (t : I.State) (f' : D.File)
      → block_read D malloc I next h f r ≡ ended e t f'
      → GoesOn next h f r (ended e t f')
  block_read-GoesOn next h f out_of_fuel e t f' eq = cc
  block_read-GoesOn next h f (broken s) e t f' eq = cc
  block_read-GoesOn next h f (done buf s) e t f' eq =
      elim (Bool-cases (not (h.block_hash == 0) && not (hash_buffer_fnv1a buf == h.block_hash))) [
        | inl wrong ↦ absurd (ground (arith, wrong))
        | inr right ↦ elim (Bool-cases (D.pwrite f buf h.offset).0) [
          | inr cut ↦ absurd (ground (arith, right, cut))
          | inl whole ↦ (buf, s, refl, ground (arith, right), whole, ground (arith, right, whole))
        ]
      ]

  -- The round has read FILE_END.
  abbrev Ends : ℕ → D.File → SyncHeader → I.State → SyncHeader → I.State → D.File → Type 0
  Ends expected f h u e t f' =
      (h ≡ e)
      × (u ≡ t)
      × (f ≡ f')
      × (h.msg_type ≡ Msg.file_end)
      × ((expected ≡ 0) ⊎ ((h.total_hash ≡ 0) ⊎ (h.total_hash ≡ expected)))

  abbrev Taken : SyncHeader → Type 0
  Taken h = (h.msg_type ≡ Msg.file_block) × (0 < h.data_len) × (h.data_len ≤ max_block_len)

  header_read-cases :
      (io_fuel : ℕ) (next : Next) (expected : ℕ) (f : D.File) (r : Io SyncHeader I.State)
      (e : SyncHeader) (t : I.State) (f' : D.File)
      → header_read D malloc I io_fuel next expected f r ≡ ended e t f'
      → (h : SyncHeader) × (u : I.State) × (r ≡ done h u)
        × (Ends expected f h u e t f'
            ⊎ (Taken h × GoesOn next h f (read_full I io_fuel u h.data_len) (ended e t f')))
  header_read-cases io_fuel next expected f out_of_fuel e t f' eq = cc
  header_read-cases io_fuel next expected f (broken s) e t f' eq = cc
  header_read-cases io_fuel next expected f (done h s) e t f' eq =
      elim (Bool-cases (h.msg_type == Msg.file_end)) [
        | inl last ↦
            elim (Bool-cases (
              not (expected == 0) && (not (h.total_hash == 0) && not (expected == h.total_hash)))) [
                | inl wrong ↦ absurd (ground (arith, last, wrong))
                | inr right ↦
                    let same : ended h s f ≡ ended e t f' = ground (arith, last, right) in
                    (h, s, refl, inl (cc, cc, cc, ground (arith, last), ground (arith, right)))
              ]
        | inr block ↦
            elim (Bool-cases (
              not (h.msg_type == Msg.file_block)
              || ((h.data_len == 0) || ltb max_block_len h.data_len))) [
                | inl bad ↦ absurd (ground (arith, block, bad))
                | inr good ↦ elim (Bool-cases (malloc h.data_len)) [
                  | inr none_ ↦ absurd (ground (arith, block, good, none_))
                  | inl room ↦ (
                    h,
                    s,
                    refl,
                    inr (
                      (ground (arith, good), ground (arith, good), ground (arith, good)),
                      block_read-GoesOn next h f (read_full I io_fuel s h.data_len) e t f'
                          (ground (arith, block, good, room)),
                    ),
                  )
                ]
              ]
      ]

  -- From this state the connection gives the blocks, the header of each and then as many bytes as it
  -- announces, and then the header `e`.
  abbrev pub Gives : (io_fuel : ℕ) → I.State → List Block → SyncHeader → I.State → Type 0
  Gives io_fuel s [] e t = recv_header I io_fuel s ≡ done e t
  Gives io_fuel s ((h, buf) ∷ blocks) e t =
      (s1 : I.State) × (s2 : I.State) × (recv_header I io_fuel s ≡ done h s1)
      × (read_full I io_fuel s1 h.data_len ≡ done buf s2)
      × Gives io_fuel s2 blocks e t

  -- If the call returns 0, the connection gave a list of blocks and then the header that is returned, and
  -- the file is what these blocks make of it, each of them a FILE_BLOCK of 1 to 2^24 bytes whose bytes have
  -- the hash that its header announces, if that is not 0, and each written whole, in order; the header
  -- returned is a FILE_END whose hash is the expected one, if neither is 0. This holds for every connection
  -- and every peer.
  pub recv_file_blocks-AllChecked :
      (io_fuel fuel : ℕ) (s : I.State) (f : D.File) (expected : ℕ) (e : SyncHeader) (t : I.State)
      (f' : D.File)
      → recv_file_blocks_until_end D malloc I io_fuel fuel s f expected ≡ ended e t f'
      → (blocks : List Block) × Gives io_fuel s blocks e t
        × AllChecked blocks
        × AllWritten D f blocks
        × (written D f blocks ≡ f')
        × (e.msg_type ≡ Msg.file_end)
        × ((expected ≡ 0) ⊎ ((e.total_hash ≡ 0) ⊎ (e.total_hash ≡ expected)))
  unfolding recv_file_blocks_until_end
  recv_file_blocks-AllChecked io_fuel zero s f expected e t f' eq = cc
  recv_file_blocks-AllChecked io_fuel (suc fuel) s f expected e t f' eq =
      let next : Next = λ s' g. recv_file_blocks_until_end D malloc I io_fuel fuel s' g expected in
      let (h, s1, head, taken) =
        header_read-cases io_fuel next expected f (recv_header I io_fuel s) e t f' eq in
      elim taken [
        | inl (same, at, kept, last, hash) ↦ (
          [],
          head ∙ ap (λ g. done g s1) same ∙ ap (done e) at,
          tt,
          tt,
          kept,
          ap (λ g. g.msg_type) (sym same) ∙ last,
          ground (arith, same),
        )
        | inr ((kind, some_bytes, short), (buf, s2, body, hash, whole, rest)) ↦
            let (blocks, gives, checked, writes, all, last, agreed) =
              recv_file_blocks-AllChecked io_fuel fuel s2 (D.pwrite f buf h.offset).1 expected e t
                f' rest in
            (
              (h, buf) ∷ blocks,
              (s1, s2, head, body, gives),
              (
                record { kind = kind; some_bytes = some_bytes; short = short; hash = hash },
                checked,
              ),
              (whole, writes),
              all,
              last,
              agreed,
            )
      ]
