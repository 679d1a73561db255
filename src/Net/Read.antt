-- ===== src/Net/Read.antt =====
-- `readn` and `read_full` of src/net_utils.c over a stream that comes in pieces.
use mini_sync.Common.{
  ℕ, zero, suc, ◌+◌, ◌-◌, ◌≤◌, ◌<◌, ◌≡◌, refl, ap, sym, ◌∙◌, false, List, [], ◌∷◌, ◌++◌, arith,
  length, take, drop, take-append, drop-append, length-append, length-take, append_assoc,
  append-nil, leb, ◌==◌, if◌then◌else◌,
}
use mini_sync.Input.{Input, ReadReply, got, IsReadable, NeverFails}
use mini_sync.Net.{Io, done, broken, readn_reply, readn_loop, readn, read_full}

take-nil : (n : ℕ) → take {A = ℕ} n [] ≡ []
take-nil zero = refl
take-nil (suc n) = refl

drop-nil : (n : ℕ) → drop {A = ℕ} n [] ≡ []
drop-nil zero = refl
drop-nil (suc n) = refl

module _ (I : Input) (R : IsReadable I) (ok : NeverFails I) where
  open R use {rest, retries}

  -- Where a stream in state `s` stands after `n` of its bytes have been taken.
  pub record HasRead (s : I.State) (n : ℕ) (t : I.State) : Type 0 where
    pub rest_after : rest t ≡ drop n (rest s)
    pub retries_after : retries t ≤ retries s

  abbrev Finished : I.State → ℕ → List ℕ → Io (List ℕ) I.State → Type 0
  Finished s left buf r =
      (t : I.State) × (r ≡ done (buf ++ take left (rest s)) t) × HasRead s left t

  Finished-interrupted :
      (s t : I.State) (left : ℕ) (buf : List ℕ) (r : Io (List ℕ) I.State)
      → rest t ≡ rest s
      → retries t ≤ retries s
      → Finished t left buf r
      → Finished s left buf r
  Finished-interrupted s t left buf r same fewer (u, e, h) = (
    u,
    rw (← same) e,
    record {
      rest_after = h.rest_after ∙ ap (drop left) same;
      retries_after = omega (arith, h.retries_after);
    },
  )

  Finished-got :
      (s t : I.State) (left : ℕ) (buf bs : List ℕ) (r : Io (List ℕ) I.State)
      → rest s ≡ bs ++ rest t
      → length bs ≤ left
      → retries t ≤ retries s
      → Finished t (left - length bs) (buf ++ bs) r
      → Finished s left buf r
  Finished-got s t left buf bs r whole short fewer (u, e, h) = (
    u,
    e
        ∙ ap (λ b. done b u)
            (append_assoc buf bs _
              ∙ ap (λ b. buf ++ b) (sym (take-append bs (rest t) left short))
              ∙ ap (λ b. buf ++ take left b) (sym whole)),
    record {
      rest_after =
          h.rest_after ∙ sym (drop-append bs (rest t) left short) ∙ ap (drop left) (sym whole);
      retries_after = omega (arith, h.retries_after);
    },
  )

  readn_reply_lem :
      (fuel : ℕ) (s t : I.State) (left : ℕ) (buf : List ℕ) (reply : ReadReply)
      → ((u : I.State) (n : ℕ) (b : List ℕ)
          → length (rest u) + retries u < fuel
          → Finished u n b (readn_loop I fuel u n b))
      → length (rest s) + retries s < suc fuel
      → 0 < left
      → I.read s left ≡ (reply, t)
      → Finished s left buf (readn_reply (readn_loop I fuel) left buf (reply, t))
  readn_reply_lem fuel s t left buf ReadReply.interrupted next enough pos e =
      let same = R.rest-interrupted s t left e in
      let fewer = R.retries-interrupted s t left e in
      Finished-interrupted s t left buf _ same (omega (arith, fewer))
        (next t left buf (omega (arith, fewer, ap length same)))
  readn_reply_lem fuel s t left buf ReadReply.failed next enough pos e = absurd (ok s t left e)
  readn_reply_lem fuel s t left buf (got []) next enough pos e =
      let end = R.got_end s t left pos e in
      let same = R.rest-got s t left [] e in
      (
        t,
        ap (λ b. done b t)
            (sym (append-nil buf) ∙ ap (λ b. buf ++ b) (sym (ap (take left) end ∙ take-nil left))),
        record {
          rest_after = sym same ∙ end ∙ sym (ap (drop left) end ∙ drop-nil left);
          retries_after = R.retries-got s t left [] e;
        },
      )
  readn_reply_lem fuel s t left buf (got (b ∷ bs)) next enough pos e =
      let whole = R.rest-got s t left (b ∷ bs) e in
      let fewer = R.retries-got s t left (b ∷ bs) e in
      Finished-got s t left buf (b ∷ bs) _ whole (R.got_at_most s t left (b ∷ bs) e) fewer (
        next t (left - length (b ∷ bs)) (buf ++ (b ∷ bs))
          (omega (arith, fewer, ap length whole, length-append {0} (b ∷ bs) (rest t))))

  readn_loop_lem :
      (fuel : ℕ) (s : I.State) (left : ℕ) (buf : List ℕ)
      → length (rest s) + retries s < fuel
      → Finished s left buf (readn_loop I fuel s left buf)
  unfolding readn_loop
  readn_loop_lem zero s left buf enough = absurd (omega arith)
  readn_loop_lem (suc fuel) s zero buf enough = (
    s,
    ap (λ b. done b s) (sym (append-nil buf)),
    record { rest_after = refl; retries_after = omega arith },
  )
  readn_loop_lem (suc fuel) s (suc n) buf enough = rw suc-ne-zero (
      readn_reply_lem fuel s (I.read s (suc n)).1 (suc n) buf (I.read s (suc n)).0
        (readn_loop_lem fuel) enough (omega arith) refl)
    where
      suc-ne-zero : (suc n == 0) ≡ false
      suc-ne-zero = ground arith

  -- `readn` returns the next `n` bytes of the stream, or all of them if it ends before, however the
  -- kernel splits them and whenever signals interrupt it; the stream stands right after them.
  pub readn_lem :
      (fuel : ℕ) (s : I.State) (n : ℕ)
      → length (rest s) + retries s < fuel
      → (t : I.State) × (readn I fuel s n ≡ done (take n (rest s)) t) × HasRead s n t
  unfolding readn
  readn_lem fuel s n enough = readn_loop_lem fuel s n [] enough

  -- Where no call fails with an error other than EINTR and the fuel exceeds the bytes and interruptions to
  -- come, `read_full` returns the next `n` bytes if there are as many, and -1 if not. Either way these
  -- bytes, or what there is of them, are then off the stream.
  pub read_full_lem :
      (fuel : ℕ) (s : I.State) (n : ℕ)
      → length (rest s) + retries s < fuel
      → (t : I.State) × (read_full I fuel s n
          ≡ (if leb n (length (rest s)) then done (take n (rest s)) t else broken t))
        × HasRead s n t
  unfolding read_full
  read_full_lem fuel s n enough =
      let (t, e, h) = readn_lem fuel s n enough in
      (t, rw e (ground (arith, length-take n (rest s))), h)
