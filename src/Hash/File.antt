-- ===== src/Hash/File.antt =====
-- Hashing a file in pieces, as `hash_fd_range` of src/hash.c does, against hashing its bytes at once.
use mini_sync.Common.{
  ℕ, zero, suc, ◌+◌, ◌-◌, ◌≤◌, ◌<◌, ◌≡◌, refl, sym, ap, ◌∙◌, inl, inr, Bool, true, false, Option,
  some, List, [], ◌∷◌, ◌++◌, arith, length, take, drop, length-drop, length-append, take-append,
  lt→ltb, ◌==◌, ◌&&◌, if◌then◌else◌, Bool-cases,
}
use mini_sync.Input.{Input, ReadReply, got, interrupted, failed, IsReadable, NeverFails}
use mini_sync.Hash.{
  fnv1a_64_offset_basis, fnv_step, fnv_bytes, hash_buffer_fnv1a, want, hash_reply, hash_loop,
  hash_fd_range, hash_file_fnv1a, hash_file_range_fnv1a,
}

pub fnv_bytes-append :
    (hash : ℕ) (xs ys : List ℕ) → fnv_bytes hash (xs ++ ys) ≡ fnv_bytes (fnv_bytes hash xs) ys
unfolding fnv_bytes
fnv_bytes-append hash [] ys = refl
fnv_bytes-append hash (x ∷ xs) ys = fnv_bytes-append (fnv_step hash x) xs ys

fnv_bytes-nil : (hash : ℕ) → ◌≡◌ {A = Option ℕ} (some hash) (some (fnv_bytes hash []))
unfolding fnv_bytes
fnv_bytes-nil hash = refl

-- The part of the bytes that the loop hashes.
abbrev covered : ℕ → Bool → List ℕ → List ℕ
covered len limited bytes = if limited then take len bytes else bytes

abbrev left : ℕ → Bool → ℕ → ℕ
left len limited n = if limited then len - n else len

covered-nil : (len : ℕ) (limited : Bool) → covered len limited [] ≡ []
covered-nil len false = refl
covered-nil zero true = refl
covered-nil (suc len) true = refl

covered-append :
    (len : ℕ) (limited : Bool) (bs rest : List ℕ)
    → length bs ≤ want len limited
    → covered len limited (bs ++ rest) ≡ bs ++ covered (left len limited (length bs)) limited rest
covered-append len false bs rest h = refl
covered-append len true bs rest h = take-append bs rest len (ground arith)

covered_done :
    (len : ℕ) (limited : Bool) (bytes : List ℕ)
    → (limited && (len == 0)) ≡ true
    → covered len limited bytes ≡ []
covered_done len false bytes h = cc
covered_done zero true bytes h = refl
covered_done (suc len) true bytes h = absurd (ground arith)

want_pos : (len : ℕ) (limited : Bool) → (limited && (len == 0)) ≡ false → 0 < want len limited
want_pos len false h = omega arith
want_pos len true h = ground arith

covered_hash :
    (hash len : ℕ) (limited : Bool) (bs r whole : List ℕ)
    → whole ≡ bs ++ r
    → length bs ≤ want len limited
    → ◌≡◌ {A = Option ℕ}
        (some (fnv_bytes hash (covered len limited whole)))
        (some (fnv_bytes (fnv_bytes hash bs) (covered (left len limited (length bs)) limited r)))
covered_hash hash len limited bs r whole p h =
    rw (p, covered-append len limited bs r h, fnv_bytes-append hash bs)

module _ (I : Input) (R : IsReadable I) (ok : NeverFails I) where
  open R use {rest, retries}

  -- One round of the loop, from what `read` answers.
  hash_reply_lem :
      (fuel : ℕ) (s t : I.State) (len : ℕ) (limited : Bool) (hash : ℕ) (reply : ReadReply)
      → ((u : I.State) (len' hash' : ℕ)
          → length (rest u) + retries u < fuel
          → hash_loop I fuel limited u len' hash'
            ≡ some (fnv_bytes hash' (covered len' limited (rest u))))
      → length (rest s) + retries s < suc fuel
      → (limited && (len == 0)) ≡ false
      → I.read s (want len limited) ≡ (reply, t)
      → hash_reply (hash_loop I fuel limited) len limited hash (reply, t)
        ≡ some (fnv_bytes hash (covered len limited (rest s)))
  hash_reply_lem fuel s t len limited hash interrupted again enough more e =
      let same = R.rest-interrupted s t _ e in
      again t len hash (omega (arith, R.retries-interrupted s t _ e, ap length same))
      ∙ ap (λ r. some (fnv_bytes hash (covered len limited r))) same
  hash_reply_lem fuel s t len limited hash failed again enough more e = absurd (ok s t _ e)
  hash_reply_lem fuel s t len limited hash (got []) again enough more e =
      rw (R.got_end s t _ (want_pos len limited more) e, covered-nil) (fnv_bytes-nil hash)
  hash_reply_lem fuel s t len limited hash (got (b ∷ bs)) again enough more e =
      let whole = R.rest-got s t _ (b ∷ bs) e in
      again t (left len limited (length (b ∷ bs))) (fnv_bytes hash (b ∷ bs)) (
        omega
          (arith, R.retries-got s t _ (b ∷ bs) e, ap length whole, length-append (b ∷ bs) (rest t)))
      ∙ sym (
          covered_hash hash len limited (b ∷ bs) (rest t) (rest s) whole
            (R.got_at_most s t _ (b ∷ bs) e))

  -- Enough fuel: one round for each byte and each interruption to come.
  hash_loop_lem :
      (fuel : ℕ) (limited : Bool) (s : I.State) (len : ℕ) (hash : ℕ)
      → length (rest s) + retries s < fuel
      → hash_loop I fuel limited s len hash ≡ some (fnv_bytes hash (covered len limited (rest s)))
  unfolding hash_loop
  hash_loop_lem zero limited s len hash enough = absurd (omega arith)
  hash_loop_lem (suc fuel) limited s len hash enough = elim (Bool-cases (limited && (len == 0))) [
    | inl done ↦ rw (done, covered_done len limited (rest s) done) (fnv_bytes-nil hash)
    | inr more ↦ rw more (
        hash_reply_lem fuel s (I.read s (want len limited)).1 len limited hash
          (I.read s (want len limited)).0
          (λ u len' hash' h. hash_loop_lem fuel limited u len' hash' h) enough more refl)
  ]

  module _ (seek : I.State → ℕ → Option I.State) where
    -- The hash of an opened file is the hash of its bytes, however `read` cuts them into pieces, where no
    -- `read` fails and the fuel exceeds the bytes and interruptions.
    pub hash_file-eq-hash_buffer :
        (fuel : ℕ) (s : I.State)
        → length (rest s) + retries s < fuel
        → hash_file_fnv1a I seek fuel (some s) ≡ some (hash_buffer_fnv1a (rest s))
    unfolding hash_file_fnv1a hash_fd_range hash_buffer_fnv1a
    hash_file-eq-hash_buffer fuel s enough =
        hash_loop_lem fuel false s 0 fnv1a_64_offset_basis enough

    -- The hash of a range is the hash of the bytes in it, where `seek` skips to the offset; a range
    -- that reaches past the end of the file covers what the file has of it.
    pub hash_file_range-eq-hash_buffer :
        (fuel : ℕ) (s t : I.State) (offset len : ℕ)
        → seek s offset ≡ some t
        → rest t ≡ drop offset (rest s)
        → retries t ≤ retries s
        → length (rest s) + retries s < fuel
        → hash_file_range_fnv1a I seek fuel (some s) offset len
          ≡ some (hash_buffer_fnv1a (take len (drop offset (rest s))))
    unfolding hash_file_range_fnv1a hash_fd_range hash_buffer_fnv1a
    hash_file_range-eq-hash_buffer fuel s t zero len sought skipped fewer enough =
        hash_loop_lem fuel true s len fnv1a_64_offset_basis enough
    hash_file_range-eq-hash_buffer fuel s t (suc k) len sought skipped fewer enough =
        rw (lt→ltb 0 (suc k) (omega arith), sought, ← skipped)
          (hash_loop_lem fuel true t len fnv1a_64_offset_basis
            (omega (arith, ap length skipped, length-drop (suc k) (rest s))))

-- A file of which the first read fails gets the hash 0.
pub hash_file-unreadable :
    (I : Input) (seek : I.State → ℕ → Option I.State) (fuel : ℕ) (s : I.State) (h : ℕ)
    → (I.read s 8192).0 ≡ failed
    → hash_file_fnv1a I seek fuel (some s) ≡ some h
    → h ≡ 0
unfolding hash_file_fnv1a hash_fd_range hash_loop
hash_file-unreadable I seek zero s h bad e = cc
hash_file-unreadable I seek (suc fuel) s h bad e =
    reply_failed (I.read s 8192).0 (I.read s 8192).1 bad e
  where
    reply_failed :
        (reply : ReadReply) (t : I.State)
        → reply ≡ failed
        → hash_reply (hash_loop I fuel false) 0 false fnv1a_64_offset_basis (reply, t) ≡ some h
        → h ≡ 0
    reply_failed failed t bad e = cc
    reply_failed interrupted t bad e = cc
    reply_failed (got bs) t bad e = cc
