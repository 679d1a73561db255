-- ===== src/Hash.antt =====
-- src/hash.c, with the constants of include/hash.h: the 64-bit FNV-1a hash of a buffer, and of a file
-- that is read in pieces.
pub mod Detect
pub mod File
pub mod Total
use Prim.Native.Nat.{bit_xor}
use mini_sync.Common.{
  ℕ, zero, suc, ◌-◌, ◌*◌, ◌%◌, ◌^◌, Bool, true, false, Option, none, some, List, [], ◌∷◌, length,
  ltb, ◌==◌, ◌&&◌, if◌then◌else◌,
}
use mini_sync.Input.{Input, ReadReply, got, interrupted, failed}

abbrev pub fnv1a_64_offset_basis : ℕ
fnv1a_64_offset_basis = 14695981039346656037

abbrev pub fnv1a_64_prime : ℕ
fnv1a_64_prime = 1099511628211

-- `hash ^= (uint64_t)p[i]; hash *= FNV1A_64_PRIME;`
unfoldable pub fnv_step : ℕ → ℕ → ℕ
fnv_step hash byte = (bit_xor hash byte * fnv1a_64_prime) % 2 ^ 64

-- The loop over the bytes, from a given hash.
unfoldable pub fnv_bytes : ℕ → List ℕ → ℕ
fnv_bytes hash [] = hash
fnv_bytes hash (b ∷ bs) = fnv_bytes (fnv_step hash b) bs

unfoldable pub hash_buffer_fnv1a : List ℕ → ℕ
unfolding fnv_bytes fnv_step
hash_buffer_fnv1a bytes = fnv_bytes fnv1a_64_offset_basis bytes

-- What is asked of one `read`: the buffer's 8192 bytes, or what is left of the range.
abbrev pub want : ℕ → Bool → ℕ
want len limited = if limited && ltb len 8192 then len else 8192

-- What a round of the loop does with the answer of `read`; `again` is the next round.
abbrev pub hash_reply {ℓ} :
    {S : Type ℓ} → (again : S → ℕ → ℕ → Option ℕ) → ℕ → Bool → ℕ → ReadReply × S → Option ℕ
hash_reply again len limited hash (interrupted, t) = again t len hash
hash_reply again len limited hash (failed, t) = some 0
hash_reply again len limited hash (got [], t) = some hash
hash_reply again len limited hash (got (b ∷ bs), t) =
    again t (if limited then len - length (b ∷ bs) else len) (fnv_bytes hash (b ∷ bs))

module _ (I : Input) where
  -- The reading loop, `none` when the fuel runs out.
  unfoldable pub hash_loop : ℕ → Bool → I.State → ℕ → ℕ → Option ℕ
  hash_loop zero limited s len hash = none
  hash_loop (suc fuel) limited s len hash =
      let reply = I.read s (want len limited) in
      let round = hash_reply (hash_loop fuel limited) len limited hash reply in
      if limited && (len == 0) then some hash else round

  -- `seek` is lseek(2) from the start of the file.
  unfoldable pub hash_fd_range :
      (seek : I.State → ℕ → Option I.State) → ℕ → I.State → ℕ → ℕ → Bool → Option ℕ
  hash_fd_range seek fuel s offset len limited =
      if ltb 0 offset
      then elim (seek s offset) [
        | none ↦ some 0
        | some t ↦ hash_loop fuel limited t len fnv1a_64_offset_basis
      ]
      else hash_loop fuel limited s len fnv1a_64_offset_basis

  -- The option is the descriptor that `open` gives for the path.
  unfoldable pub hash_file_fnv1a :
      (seek : I.State → ℕ → Option I.State) → ℕ → Option I.State → Option ℕ
  hash_file_fnv1a seek fuel none = some 0
  hash_file_fnv1a seek fuel (some s) = hash_fd_range seek fuel s 0 0 false

  unfoldable pub hash_file_range_fnv1a :
      (seek : I.State → ℕ → Option I.State) → ℕ → Option I.State → ℕ → ℕ → Option ℕ
  hash_file_range_fnv1a seek fuel none offset len = some 0
  hash_file_range_fnv1a seek fuel (some s) offset len = hash_fd_range seek fuel s offset len true
