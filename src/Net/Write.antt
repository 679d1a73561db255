-- ===== src/Net/Write.antt =====
-- `writen` and `write_full` of src/net_utils.c over a descriptor that takes its bytes in pieces.
use mini_sync.Common.{
  ℕ, zero, suc, ◌+◌, ◌≤◌, ◌<◌, ◌≡◌, refl, ap, sym, ◌∙◌, false, List, [], ◌∷◌, ◌++◌, arith, length,
  take, drop, append_assoc, append-nil, take-append-drop, length-drop, ◌==◌,
}
use mini_sync.Output.{Output, WriteReply, wrote, IsWritable, NeverFails}
use mini_sync.Net.{Io, done, writen_reply, writen_loop, write_full}

module _ (O : Output) (W : IsWritable O) (ok : NeverFails O) where
  open W use {sent, retries}

  abbrev Finished : O.State → List ℕ → Io (Unit {0}) O.State → Type 0
  Finished s bytes r =
      (t : O.State) × (r ≡ done tt t) × (sent t ≡ sent s ++ bytes) × (retries t ≤ retries s)

  Finished-idle :
      (s t : O.State) (bytes : List ℕ) (r : Io (Unit {0}) O.State)
      → sent t ≡ sent s
      → retries t < retries s
      → Finished t bytes r
      → Finished s bytes r
  Finished-idle s t bytes r same fewer (u, e, h, k) =
      (u, e, h ∙ ap (λ b. b ++ bytes) same, omega arith)

  sent-wrote_zero :
      (s t : O.State) (bytes : List ℕ) → O.write s bytes ≡ (wrote 0, t) → sent t ≡ sent s
  sent-wrote_zero s t bytes e = W.sent-wrote s t bytes 0 e ∙ append-nil (sent s)

  writen_reply_lem :
      (fuel : ℕ) (s t : O.State) (bytes : List ℕ) (reply : WriteReply)
      → ((u : O.State) (b : List ℕ)
          → length b + retries u < fuel
          → Finished u b (writen_loop O fuel u b))
      → length bytes + retries s < suc fuel
      → 0 < length bytes
      → O.write s bytes ≡ (reply, t)
      → Finished s bytes (writen_reply (writen_loop O fuel) bytes (reply, t))
  writen_reply_lem fuel s t bytes WriteReply.interrupted next enough pos e =
      let fewer = W.retries-interrupted s t bytes e in
      Finished-idle s t bytes _ (W.sent-interrupted s t bytes e) fewer
        (next t bytes (omega (arith, fewer)))
  writen_reply_lem fuel s t bytes WriteReply.again next enough pos e =
      let fewer = W.retries-again s t bytes e in
      Finished-idle s t bytes _ (W.sent-again s t bytes e) fewer
        (next t bytes (omega (arith, fewer)))
  writen_reply_lem fuel s t bytes WriteReply.failed next enough pos e = absurd (ok s t bytes e)
  writen_reply_lem fuel s t bytes (wrote zero) next enough pos e =
      let fewer = W.retries-wrote_zero s t bytes pos e in
      Finished-idle s t bytes _ (sent-wrote_zero s t bytes e) fewer
        (next t bytes (omega (arith, fewer)))
  writen_reply_lem fuel s t bytes (wrote (suc n)) next enough pos e =
      let fewer = W.retries-wrote s t bytes (suc n) e in
      let (u, r, h, k) =
        next t (drop (suc n) bytes)
          (omega (arith, fewer, W.wrote_at_most s t bytes (suc n) e, length-drop (suc n) bytes)) in
      rw suc-ne-zero (
        u,
        r,
        h
            ∙ ap (λ b. b ++ drop (suc n) bytes) (W.sent-wrote s t bytes (suc n) e)
            ∙ append_assoc (sent s) (take (suc n) bytes) (drop (suc n) bytes)
            ∙ ap (λ b. sent s ++ b) (take-append-drop (suc n) bytes),
        omega (arith, fewer),
      )
    where
      suc-ne-zero : (suc n == 0) ≡ false
      suc-ne-zero = ground arith

  writen_loop_lem :
      (fuel : ℕ) (s : O.State) (bytes : List ℕ)
      → length bytes + retries s < fuel
      → Finished s bytes (writen_loop O fuel s bytes)
  unfolding writen_loop
  writen_loop_lem zero s bytes enough = absurd (omega arith)
  writen_loop_lem (suc fuel) s [] enough = (s, refl, sym (append-nil (sent s)), omega arith)
  writen_loop_lem (suc fuel) s (b ∷ bs) enough = rw suc-ne-zero (
      writen_reply_lem fuel s (O.write s (b ∷ bs)).1 (b ∷ bs) (O.write s (b ∷ bs)).0
        (writen_loop_lem fuel) enough (omega arith) refl)
    where
      suc-ne-zero : (suc (length bs) == 0) ≡ false
      suc-ne-zero = ground arith

  -- `write_full` hands over all its bytes, in order and once each, whatever part of them each call takes
  -- and however often the descriptor is interrupted or not ready, where no call fails with another error
  -- and the fuel exceeds the bytes and interruptions.
  pub write_full_lem :
      (fuel : ℕ) (s : O.State) (bytes : List ℕ)
      → length bytes + retries s < fuel
      → (t : O.State) × (write_full O fuel s bytes ≡ done tt t)
        × (sent t ≡ sent s ++ bytes)
        × (retries t ≤ retries s)
  unfolding write_full
  write_full_lem fuel s bytes enough = writen_loop_lem fuel s bytes enough
