-- ===== src/Hash/Detect.antt =====
-- The hash of src/hash.c on buffers that differ in one byte.
use Prim.Native.Nat.{bit_xor}
use mini_sync.Common.{ℕ, ◌*◌, ◌%◌, ◌^◌, ◌<◌, ◌≡◌, ◌≢◌, sym, ◌∙◌, List, [], ◌∷◌, ◌++◌, arith}
use mini_sync.Common.Xor.{bit_xor-lt, bit_xor-injective_left, bit_xor-injective_right}
use mini_sync.Hash.{fnv1a_64_offset_basis, fnv1a_64_prime, fnv_step, fnv_bytes, hash_buffer_fnv1a}
use mini_sync.Hash.File.{fnv_bytes-append}

abbrev pub AreBytes : List ℕ → Type 0
AreBytes [] = Unit
AreBytes (b ∷ bs) = (b < 256) × AreBytes bs

-- The prime is odd, so that multiplication by it modulo 2 ^ 64 loses nothing.
prime_cancel :
    (x y : ℕ)
    → x < 2 ^ 64
    → y < 2 ^ 64
    → (x * fnv1a_64_prime) % 2 ^ 64 ≡ (y * fnv1a_64_prime) % 2 ^ 64
    → x ≡ y
prime_cancel x y p q e = omega arith

fnv_step-lt : (h b : ℕ) → fnv_step h b < 2 ^ 64
unfolding fnv_step
fnv_step-lt h b = omega arith

fnv_step-injective_hash :
    (h g b : ℕ) → h < 2 ^ 64 → g < 2 ^ 64 → b < 256 → fnv_step h b ≡ fnv_step g b → h ≡ g
unfolding fnv_step
fnv_step-injective_hash h g b ph pg pb e = bit_xor-injective_left 64 h g b ph pg (
    prime_cancel (bit_xor h b) (bit_xor g b) (bit_xor-lt 64 h b ph (omega arith))
      (bit_xor-lt 64 g b pg (omega arith)) e)

fnv_step-injective_byte :
    (h b c : ℕ) → h < 2 ^ 64 → b < 256 → c < 256 → fnv_step h b ≡ fnv_step h c → b ≡ c
unfolding fnv_step
fnv_step-injective_byte h b c ph pb pc e =
    bit_xor-injective_right 64 h b c (omega arith) (omega arith) (
      prime_cancel (bit_xor h b) (bit_xor h c) (bit_xor-lt 64 h b ph (omega arith))
        (bit_xor-lt 64 h c ph (omega arith)) e)

-- The hash after a run of bytes tells apart the hashes before it, and stays a 64-bit number.
fnv_bytes-injective :
    (h g : ℕ) (bs : List ℕ)
    → h < 2 ^ 64
    → g < 2 ^ 64
    → AreBytes bs
    → fnv_bytes h bs ≡ fnv_bytes g bs
    → h ≡ g
unfolding fnv_bytes
fnv_bytes-injective h g [] ph pg bytes e = e
fnv_bytes-injective h g (b ∷ bs) ph pg (pb, bytes) e = fnv_step-injective_hash h g b ph pg pb (
    fnv_bytes-injective (fnv_step h b) (fnv_step g b) bs (fnv_step-lt h b) (fnv_step-lt g b) bytes
      e)

pub fnv_bytes-lt : (h : ℕ) (bs : List ℕ) → h < 2 ^ 64 → fnv_bytes h bs < 2 ^ 64
unfolding fnv_bytes
fnv_bytes-lt h [] p = p
fnv_bytes-lt h (b ∷ bs) p = fnv_bytes-lt (fnv_step h b) bs (fnv_step-lt h b)

-- Two buffers that differ in exactly one byte, anywhere, have different hashes.
pub hash_buffer-ne_of_one_byte :
    (before after : List ℕ) (b c : ℕ)
    → AreBytes after
    → b < 256
    → c < 256
    → b ≢ c
    → hash_buffer_fnv1a (before ++ (b ∷ after)) ≢ hash_buffer_fnv1a (before ++ (c ∷ after))
unfolding hash_buffer_fnv1a
hash_buffer-ne_of_one_byte before after b c bytes pb pc ne e = ne (
    fnv_step-injective_byte h b c ph pb pc (
      fnv_bytes-injective (fnv_step h b) (fnv_step h c) after (fnv_step-lt h b) (fnv_step-lt h c)
        bytes
        (sym (fnv_bytes-append _ before (b ∷ after)) ∙ e ∙ fnv_bytes-append _ before (c ∷ after))))
  where
    h : ℕ
    h = fnv_bytes fnv1a_64_offset_basis before

    ph : h < 2 ^ 64
    ph = fnv_bytes-lt fnv1a_64_offset_basis before (omega arith)

pub hash_buffer-lt : (bytes : List ℕ) → hash_buffer_fnv1a bytes < 2 ^ 64
unfolding hash_buffer_fnv1a
hash_buffer-lt bytes = fnv_bytes-lt fnv1a_64_offset_basis bytes (omega arith)
