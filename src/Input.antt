-- ===== src/Input.antt =====
-- read(2) and write(2) on a descriptor, as the loops of src/hash.c, src/file_utils.c and
-- src/net_utils.c use them. The kernel is no code of the repository: its calls are the fields of a
-- record that the models take, with the documented behaviour as laws. `Input.Scheduled` and
-- `Output.Scheduled` are kernels that meet them.
pub mod Scheduled
use mini_sync.Common.{ℕ, ◌<◌, ◌≤◌, ◌≡◌, ◌≢◌, List, [], ◌++◌, length}

-- One answer of `read`: the bytes that it stores (none at the end of the file), or -1 with `errno`.
pub data ReadReply : Type 0 where
  got : List ℕ → ReadReply
  interrupted : ReadReply
  failed : ReadReply

-- A descriptor that is open for reading. `read s n` asks for at most `n` bytes.
pub record Input : Type 1 where
  pub State : Type 0
  pub read : State → ℕ → ReadReply × State

-- What read(2) promises of `rest`, the bytes that the descriptor has yet to deliver. `retries` bounds
-- the signals that are still to come, since a call that is interrupted for ever never returns.
pub record IsReadable (I : Input) : Type 0 where
  pub rest : I.State → List ℕ
  pub retries : I.State → ℕ
  pub got_at_most : (s t : I.State) (n : ℕ) (bs : List ℕ) → I.read s n ≡ (got bs, t) → length bs ≤ n
  pub rest-got :
      (s t : I.State) (n : ℕ) (bs : List ℕ) → I.read s n ≡ (got bs, t) → rest s ≡ bs ++ rest t
  pub got_end : (s t : I.State) (n : ℕ) → 0 < n → I.read s n ≡ (got [], t) → rest s ≡ []
  pub rest-interrupted : (s t : I.State) (n : ℕ) → I.read s n ≡ (interrupted, t) → rest t ≡ rest s
  pub retries-got :
      (s t : I.State) (n : ℕ) (bs : List ℕ) → I.read s n ≡ (got bs, t) → retries t ≤ retries s
  pub retries-interrupted :
      (s t : I.State) (n : ℕ) → I.read s n ≡ (interrupted, t) → retries t < retries s

-- No call fails with an error other than EINTR.
abbrev pub NeverFails : Input → Type 0
NeverFails I = (s t : I.State) (n : ℕ) → I.read s n ≢ (failed, t)
