-- ===== src/Net.antt =====
-- The loops of src/net_utils.c over read(2) and write(2): readn, writen, read_full, write_full. A loop
-- runs on fuel; Net.Read and Net.Write show how much is enough.
pub mod Read
pub mod Write
use mini_sync.Common.{ℕ, zero, suc, ◌-◌, List, [], ◌∷◌, ◌++◌, length, drop, ◌==◌, if◌then◌else◌}
use mini_sync.Input
use mini_sync.Input.{Input, ReadReply, got}
use mini_sync.Output
use mini_sync.Output.{Output, WriteReply, wrote}

-- The result of a call on a descriptor in a state `S`: a value, -1, or no fuel left.
pub data Io {ℓ} (A : Type 0) (S : Type ℓ) : Type ℓ where
  done : A → S → Io A S
  broken : S → Io A S
  out_of_fuel : Io A S

abbrev pub and_then {ℓ} : {A B : Type 0} {S : Type ℓ} → Io A S → (A → S → Io B S) → Io B S
and_then (done a s) k = k a s
and_then (broken s) k = broken s
and_then out_of_fuel k = out_of_fuel

-- What a round of `readn` does with the answer of `read`. `buf` is what the buffer holds so far, and the
-- value returned is its length.
abbrev pub readn_reply :
    {S : Type 0}
    → (next : S → ℕ → List ℕ → Io (List ℕ) S) → (left : ℕ) → (buf : List ℕ) → ReadReply × S
    → Io (List ℕ) S
readn_reply next left buf (ReadReply.interrupted, t) = next t left buf
readn_reply next left buf (ReadReply.failed, t) = broken t
readn_reply next left buf (got [], t) = done buf t
readn_reply next left buf (got (b ∷ bs), t) = next t (left - length (b ∷ bs)) (buf ++ (b ∷ bs))

module _ (I : Input) where
  unfoldable pub readn_loop : ℕ → I.State → ℕ → List ℕ → Io (List ℕ) I.State
  readn_loop zero s left buf = out_of_fuel
  readn_loop (suc fuel) s left buf =
      let round = readn_reply (readn_loop fuel) left buf (I.read s left) in
      if left == 0 then done buf s else round

  unfoldable pub readn : ℕ → I.State → ℕ → Io (List ℕ) I.State
  unfolding readn_loop
  readn fuel s n = readn_loop fuel s n []

  -- `return r == n ? r : -1;`
  unfoldable pub read_full : ℕ → I.State → ℕ → Io (List ℕ) I.State
  unfolding readn
  read_full fuel s n =
      and_then (readn fuel s n) (λ buf t. if length buf == n then done buf t else broken t)

-- A round of `writen`. The pause of 10 ms before a retry leaves no trace.
abbrev pub writen_reply :
    {S : Type 0}
    → (next : S → List ℕ → Io (Unit {0}) S) → (bytes : List ℕ) → WriteReply × S
    → Io (Unit {0}) S
writen_reply next bytes (WriteReply.interrupted, t) = next t bytes
writen_reply next bytes (WriteReply.again, t) = next t bytes
writen_reply next bytes (WriteReply.failed, t) = broken t
writen_reply next bytes (wrote n, t) = if n == 0 then next t bytes else next t (drop n bytes)

module _ (O : Output) where
  -- The list is what is left to write, so `left` is its length.
  unfoldable pub writen_loop : ℕ → O.State → List ℕ → Io (Unit {0}) O.State
  writen_loop zero s bytes = out_of_fuel
  writen_loop (suc fuel) s bytes =
      let round = writen_reply (writen_loop fuel) bytes (O.write s bytes) in
      if length bytes == 0 then done tt s else round

  unfoldable pub writen : ℕ → O.State → List ℕ → Io (Unit {0}) O.State
  unfolding writen_loop
  writen fuel s bytes = writen_loop fuel s bytes

  unfoldable pub write_full : ℕ → O.State → List ℕ → Io (Unit {0}) O.State
  unfolding writen
  write_full fuel s bytes = writen fuel s bytes
