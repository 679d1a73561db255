-- ===== src/Blocks/Large.antt =====
-- The loop of send_remote_large_file of src/transfer.c that reads a file from an offset on and sends it in
-- blocks.
use mathlib.Core.Path.{subst}
use mini_sync.Common.{
  ℕ, zero, suc, ◌+◌, ◌%◌, ◌^◌, ◌≤◌, ◌<◌, ◌≡◌, refl, ap, sym, ◌∙◌, inr, List, [], ◌∷◌, ◌++◌, arith,
  length, length-append, append_assoc, append-nil,
}
use mini_sync.Input
use mini_sync.Input.{Input, ReadReply, got, interrupted, failed, IsReadable}
use mini_sync.Output
use mini_sync.Output.{Output, IsWritable}
use mini_sync.Net.{Io, done, broken, out_of_fuel}
use mini_sync.Protocol.{header_size, header_bytes, init_sync_header, validate_sync_header}
use mini_sync.Blocks.{max_block_len, FileInfo, block_header, send_file_block}
use mini_sync.Blocks.Receive.{Block, IsBlock, wire, AllBlocks}
use mini_sync.Blocks.Send.{IsInfo, block_header-IsHeader, send_file_block_lem}

-- A round, once `send_file_block` has returned.
abbrev pub block_sent {ℓ} :
    {S T : Type ℓ}
    → (next : S → T → Io (Unit {0}) (S × T)) → S
    → Io (Unit {0}) T
    → Io (Unit {0}) (S × T)
block_sent next s (done _ o) = next s o
block_sent next s (broken o) = broken (s, o)
block_sent next s out_of_fuel = out_of_fuel

module _ (I : Input) (O : Output) where
  -- A round, once `read` has returned.
  abbrev pub large_reply :
      (next : I.State → O.State → ℕ → Io (Unit {0}) (I.State × O.State))
      → (io_fuel : ℕ) → O.State
      → (pos : ℕ) → FileInfo
      → ReadReply × I.State
      → Io (Unit {0}) (I.State × O.State)
  large_reply next io_fuel o pos info (interrupted, t) = next t o pos
  large_reply next io_fuel o pos info (failed, t) = broken (t, o)
  large_reply next io_fuel o pos info (got [], t) = done tt (t, o)
  large_reply next io_fuel o pos info (got (b ∷ bs), t) =
      block_sent (λ t' o'. next t' o' ((pos + length (b ∷ bs)) % 2 ^ 64)) t
        (send_file_block O io_fuel o (b ∷ bs) pos info)

  pub send_large_blocks :
      (io_fuel block_size : ℕ)
      → FileInfo
      → (fuel : ℕ) → I.State
      → O.State
      → (pos : ℕ) → Io (Unit {0}) (I.State × O.State)
  send_large_blocks io_fuel block_size info zero s o pos = out_of_fuel
  send_large_blocks io_fuel block_size info (suc fuel) s o pos =
      large_reply (send_large_blocks io_fuel block_size info fuel) io_fuel o pos info
        (I.read s block_size)

-- The blocks carry the bytes, one after the other, from the offset on.
abbrev pub Consecutive : ℕ → List Block → List ℕ → Type 0
Consecutive pos [] bytes = bytes ≡ []
Consecutive pos ((h, buf) ∷ blocks) bytes =
    (h.offset ≡ pos)
    × ((more : List ℕ) × (bytes ≡ buf ++ more) × Consecutive (pos + length buf) blocks more)

module _ (I : Input) (R : IsReadable I) (reads : Input.NeverFails I) (O : Output) (W : IsWritable O)
    (writes : Output.NeverFails O) (io_fuel block_size : ℕ) (some_size : 0 < block_size)
    (short : block_size ≤ max_block_len) (info : FileInfo) (v : IsInfo info) where
  abbrev SentAll : I.State → O.State → ℕ → Io (Unit {0}) (I.State × O.State) → Type 0
  SentAll s o pos r =
      (blocks : List Block) × (t : I.State) × (o' : O.State) × (r ≡ done tt (t, o'))
      × AllBlocks blocks
      × Consecutive pos blocks (R.rest s)
      × (W.sent o' ≡ W.sent o ++ wire blocks [])

  block_header-IsBlock :
      (b : ℕ) (bs : List ℕ) (pos : ℕ)
      → length (b ∷ bs) ≤ max_block_len
      → pos < 2 ^ 64
      → IsBlock (block_header (b ∷ bs) pos info, b ∷ bs)
  unfolding block_header init_sync_header validate_sync_header
  block_header-IsBlock b bs pos fits at = record {
    header = block_header-IsHeader (b ∷ bs) pos info v fits at;
    valid = refl;
    kind = refl;
    len = refl;
    some_bytes = omega arith;
    short = fits;
    hash = inr refl;
  }

  reply_lem :
      (next : I.State → O.State → ℕ → Io (Unit {0}) (I.State × O.State)) (fuel : ℕ)
      → ((t : I.State) (o : O.State) (pos : ℕ)
          → length (R.rest t) + R.retries t < fuel
          → header_size + block_size + W.retries o < io_fuel
          → pos + length (R.rest t) < 2 ^ 64
          → SentAll t o pos (next t o pos))
      → (s : I.State) (o : O.State) (pos : ℕ) (reply : ReadReply × I.State)
      → length (R.rest s) + R.retries s < suc fuel
      → header_size + block_size + W.retries o < io_fuel
      → pos + length (R.rest s) < 2 ^ 64
      → I.read s block_size ≡ reply
      → SentAll s o pos (large_reply I O next io_fuel o pos info reply)
  unfolding block_header
  reply_lem next fuel ih s o pos (interrupted, t) enough room low e =
      let same = R.rest-interrupted s t block_size e in
      let fewer = R.retries-interrupted s t block_size e in
      let (blocks, u, o', r, checked, all, sent) =
        ih t o pos (omega (arith, ap length same, fewer)) room
          (omega (arith, ap length same, low)) in
      (blocks, u, o', r, checked, subst (Consecutive pos blocks) same all, sent)
  reply_lem next fuel ih s o pos (failed, t) enough room low e = absurd (reads s t block_size e)
  reply_lem next fuel ih s o pos (got [], t) enough room low e =
      ([], t, o, refl, tt, R.got_end s t block_size some_size e, sym (append-nil (W.sent o)))
  reply_lem next fuel ih s o pos (got (b ∷ bs), t) enough room low e =
      let split = R.rest-got s t block_size (b ∷ bs) e in
      let fits = R.got_at_most s t block_size (b ∷ bs) e in
      let sizes = ap length split ∙ length-append {0} (b ∷ bs) (R.rest t) in
      let fewer = R.retries-got s t block_size (b ∷ bs) e in
      let (p, one, wrote_one, left) =
        send_file_block_lem O W writes io_fuel o (b ∷ bs) pos info (omega (arith, fits, room)) in
      let exact : (pos + length (b ∷ bs)) % 2 ^ 64 ≡ pos + length (b ∷ bs) =
        omega (arith, sizes, low) in
      let (blocks, u, o', r, checked, all, sent) =
        ih t p (pos + length (b ∷ bs)) (omega (arith, sizes, fewer, enough))
          (omega (arith, left, room)) (omega (arith, sizes, low)) in
      let h = header_bytes (block_header (b ∷ bs) pos info) in
      (
        (block_header (b ∷ bs) pos info, b ∷ bs) ∷ blocks,
        u,
        o',
        ap (block_sent (λ t' q. next t' q ((pos + length (b ∷ bs)) % 2 ^ 64)) t) one
            ∙ ap (next t p) exact
            ∙ r,
        (block_header-IsBlock b bs pos (omega (arith, fits, short)) (omega (arith, low)), checked),
        (refl, (R.rest t, split, all)),
        sent
            ∙ ap (λ x. x ++ wire blocks []) wrote_one
            ∙ append_assoc (W.sent o) (h ++ (b ∷ bs)) (wire blocks [])
            ∙ ap (λ x. W.sent o ++ x) (append_assoc h (b ∷ bs) (wire blocks [])),
      )

  -- The blocks that the loop sends carry all bytes that the file has from the offset on, one after the other and
  -- each once, every block as the receiver takes it, however `read` cuts the file: if no call fails with an error
  -- other than an interruption, for which the fuels allow, the block size is at most 2^24 and positions stay below
  -- 2^64.
  pub send_large_blocks_lem :
      (fuel : ℕ) (s : I.State) (o : O.State) (pos : ℕ)
      → length (R.rest s) + R.retries s < fuel
      → header_size + block_size + W.retries o < io_fuel
      → pos + length (R.rest s) < 2 ^ 64
      → SentAll s o pos (send_large_blocks I O io_fuel block_size info fuel s o pos)
  unfolding send_large_blocks
  send_large_blocks_lem zero s o pos enough room low = absurd (omega arith)
  send_large_blocks_lem (suc fuel) s o pos enough room low =
      reply_lem (send_large_blocks I O io_fuel block_size info fuel) fuel
        (send_large_blocks_lem fuel) s o pos (I.read s block_size) enough room low refl
