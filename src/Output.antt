-- ===== src/Output.antt =====
-- write(2) on a descriptor, as the loops of src/net_utils.c and src/file_utils.c use it; see Input.
pub mod Scheduled
use mini_sync.Common.{ℕ, ◌<◌, ◌≤◌, ◌≡◌, ◌≢◌, List, ◌++◌, length, take}

-- One answer of `write`: how many bytes it took, or -1 with `errno`; `again` is EAGAIN or EWOULDBLOCK.
pub data WriteReply : Type 0 where
  wrote : ℕ → WriteReply
  interrupted : WriteReply
  again : WriteReply
  failed : WriteReply

-- A descriptor that is open for writing. `write s bs` offers the bytes `bs`.
pub record Output : Type 1 where
  pub State : Type 0
  pub write : State → List ℕ → WriteReply × State

-- What write(2) promises of `sent`, the bytes that the descriptor has taken. `retries` bounds the calls
-- to come that take none: a descriptor that is never ready again holds its writer for ever.
pub record IsWritable (O : Output) : Type 0 where
  pub sent : O.State → List ℕ
  pub retries : O.State → ℕ
  pub wrote_at_most :
      (s t : O.State) (bs : List ℕ) (n : ℕ) → O.write s bs ≡ (wrote n, t) → n ≤ length bs
  pub sent-wrote :
      (s t : O.State) (bs : List ℕ) (n : ℕ)
      → O.write s bs ≡ (wrote n, t)
      → sent t ≡ sent s ++ take n bs
  pub sent-interrupted :
      (s t : O.State) (bs : List ℕ) → O.write s bs ≡ (interrupted, t) → sent t ≡ sent s
  pub sent-again : (s t : O.State) (bs : List ℕ) → O.write s bs ≡ (again, t) → sent t ≡ sent s
  pub retries-wrote :
      (s t : O.State) (bs : List ℕ) (n : ℕ) → O.write s bs ≡ (wrote n, t) → retries t ≤ retries s
  pub retries-wrote_zero :
      (s t : O.State) (bs : List ℕ)
      → 0 < length bs
      → O.write s bs ≡ (wrote 0, t)
      → retries t < retries s
  pub retries-interrupted :
      (s t : O.State) (bs : List ℕ) → O.write s bs ≡ (interrupted, t) → retries t < retries s
  pub retries-again :
      (s t : O.State) (bs : List ℕ) → O.write s bs ≡ (again, t) → retries t < retries s

-- No call fails with an error other than EINTR and EAGAIN.
abbrev pub NeverFails : Output → Type 0
NeverFails O = (s t : O.State) (bs : List ℕ) → O.write s bs ≢ (failed, t)
