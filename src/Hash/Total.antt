-- ===== src/Hash/Total.antt =====
-- Hashing a whole file with `hash_file_fnv1a` of src/hash.c where a `read` may fail.
use mini_sync.Common.{
  ℕ, zero, suc, ◌+◌, ◌<◌, ◌≡◌, refl, ap, ◌⊎◌, inl, inr, false, Option, none, some, ◌≢◌, List, [],
  ◌∷◌, arith, length, length-append,
}
use mini_sync.Input.{Input, ReadReply, got, interrupted, failed, IsReadable}
use mini_sync.Hash.{
  fnv1a_64_offset_basis, fnv_bytes, hash_buffer_fnv1a, hash_reply, hash_loop, hash_fd_range,
  hash_file_fnv1a,
}
use mini_sync.Hash.File.{fnv_bytes-append}

-- 0, or the hash of the bytes, from a given hash.
abbrev ZeroOrHash : ℕ → List ℕ → Option ℕ → Type 0
ZeroOrHash hash bytes r = (r ≡ some 0) ⊎ (r ≡ some (fnv_bytes hash bytes))

module _ (I : Input) (R : IsReadable I) where
  open R use {rest, retries}

  hash_reply_total :
      (fuel : ℕ) (s t : I.State) (len hash : ℕ) (reply : ReadReply)
      → ((u : I.State) (hash' : ℕ)
          → length (rest u) + retries u < fuel
          → ZeroOrHash hash' (rest u) (hash_loop I fuel false u len hash'))
      → length (rest s) + retries s < suc fuel
      → I.read s 8192 ≡ (reply, t)
      → ZeroOrHash hash (rest s) (hash_reply (hash_loop I fuel false) len false hash (reply, t))
  unfolding fnv_bytes
  hash_reply_total fuel s t len hash interrupted again enough e =
      let same = R.rest-interrupted s t 8192 e in
      rw (← same) (again t hash (omega (arith, R.retries-interrupted s t 8192 e, ap length same)))
  hash_reply_total fuel s t len hash failed again enough e = inl refl
  hash_reply_total fuel s t len hash (got []) again enough e =
      rw (R.got_end s t 8192 (omega arith) e) (inr refl)
  hash_reply_total fuel s t len hash (got (b ∷ bs)) again enough e =
      let whole = R.rest-got s t 8192 (b ∷ bs) e in
      rw (whole, fnv_bytes-append hash (b ∷ bs) (rest t))
        (again t (fnv_bytes hash (b ∷ bs)) (
          omega (
            arith,
            R.retries-got s t 8192 (b ∷ bs) e,
            ap length whole,
            length-append {0} (b ∷ bs) (rest t),
          )))

  hash_loop_total :
      (fuel : ℕ) (s : I.State) (len hash : ℕ)
      → length (rest s) + retries s < fuel
      → ZeroOrHash hash (rest s) (hash_loop I fuel false s len hash)
  unfolding hash_loop
  hash_loop_total zero s len hash enough = absurd (omega arith)
  hash_loop_total (suc fuel) s len hash enough =
      hash_reply_total fuel s (I.read s 8192).1 len hash (I.read s 8192).0
        (λ u hash' h. hash_loop_total fuel u len hash' h) enough refl

  module _ (seek : I.State → ℕ → Option I.State) where
    -- The hash of an opened file is 0 or the hash of its bytes, whichever calls fail.
    pub hash_file_total :
        (fuel : ℕ) (s : I.State)
        → length (rest s) + retries s < fuel
        → (hash_file_fnv1a I seek fuel (some s) ≡ some 0)
          ⊎ (hash_file_fnv1a I seek fuel (some s) ≡ some (hash_buffer_fnv1a (rest s)))
    unfolding hash_file_fnv1a hash_fd_range hash_buffer_fnv1a
    hash_file_total fuel s enough = hash_loop_total fuel s 0 fnv1a_64_offset_basis enough

module _ (I : Input) (R : IsReadable I) where
  open R use {rest}

  -- No fuel left, 0, or the hash of the bytes.
  abbrev Hashed : ℕ → List ℕ → Option ℕ → Type 0
  Hashed hash bytes r = (r ≡ none) ⊎ ZeroOrHash hash bytes r

  hash_reply_safe :
      (fuel : ℕ) (s t : I.State) (len hash : ℕ) (reply : ReadReply)
      → ((u : I.State) (hash' : ℕ) → Hashed hash' (rest u) (hash_loop I fuel false u len hash'))
      → I.read s 8192 ≡ (reply, t)
      → Hashed hash (rest s) (hash_reply (hash_loop I fuel false) len false hash (reply, t))
  unfolding fnv_bytes
  hash_reply_safe fuel s t len hash interrupted again e =
      rw (← R.rest-interrupted s t 8192 e) (again t hash)
  hash_reply_safe fuel s t len hash failed again e = inr (inl refl)
  hash_reply_safe fuel s t len hash (got []) again e =
      rw (R.got_end s t 8192 (omega arith) e) (inr (inr refl))
  hash_reply_safe fuel s t len hash (got (b ∷ bs)) again e =
      rw (R.rest-got s t 8192 (b ∷ bs) e, fnv_bytes-append hash (b ∷ bs) (rest t))
        (again t (fnv_bytes hash (b ∷ bs)))

  hash_loop_safe :
      (fuel : ℕ) (s : I.State) (len hash : ℕ)
      → Hashed hash (rest s) (hash_loop I fuel false s len hash)
  unfolding hash_loop
  hash_loop_safe zero s len hash = inl refl
  hash_loop_safe (suc fuel) s len hash =
      hash_reply_safe fuel s (I.read s 8192).1 len hash (I.read s 8192).0
        (λ u hash'. hash_loop_safe fuel u len hash') refl

  -- A hash other than 0 is that of the bytes.
  pub hash_file_safe :
      (seek : I.State → ℕ → Option I.State) (fuel : ℕ) (s : I.State) (h : ℕ)
      → hash_file_fnv1a I seek fuel (some s) ≡ some h
      → h ≢ 0
      → hash_buffer_fnv1a (rest s) ≡ h
  unfolding hash_file_fnv1a hash_fd_range hash_buffer_fnv1a
  hash_file_safe seek fuel s h e given = elim (hash_loop_safe fuel s 0 fnv1a_64_offset_basis) [
    | inl over ↦ cc
    | inr (inl unread) ↦ absurd (given (cc))
    | inr (inr same) ↦ cc
  ]
