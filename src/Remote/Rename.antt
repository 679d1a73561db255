-- ===== src/Remote/Rename.antt =====
-- The payload of a rename request, from src/transfer.c to src/server.c.
use mini_sync.Common.{
  ℕ, suc, ◌+◌, ◌≤◌, ◌<◌, ◌≡◌, refl, ◌≢◌, ap, ◌∙◌, true, some, List, [], ◌∷◌, ◌++◌, arith, Text,
  length, take, drop, take-append_self, length-append,
}
use mini_sync.FilePath.{sanitize_rel_path}
use mini_sync.Protocol.{max_net_path}
use mini_sync.Remote.{rename_payload, strnlen, rename_paths}

-- A C string: no byte before the end is NUL.
abbrev pub IsString : Text → Type 0
IsString [] = Unit
IsString (c ∷ t) = (c ≢ 0) × IsString t

strnlen-append : (t more : Text) → IsString t → strnlen (t ++ (0 ∷ more)) ≡ length t
unfolding strnlen
strnlen-append [] more v = refl
strnlen-append (c ∷ t) more (ne, v) = ground (arith, ne, strnlen-append t more v)

strnlen_self : (t : Text) → IsString t → strnlen t ≡ length t
unfolding strnlen
strnlen_self [] v = refl
strnlen_self (c ∷ t) (ne, v) = ground (arith, ne, strnlen_self t v)

take_self : (t : Text) → take (length t) t ≡ t
take_self [] = refl
take_self (c ∷ t) = ap (λ l. c ∷ l) (take_self t)

drop-past : (t more : Text) → drop (suc (length t)) (t ++ (0 ∷ more)) ≡ more
drop-past [] more = refl
drop-past (c ∷ t) more = drop-past t more

clean-ne-nil : (t : Text) → sanitize_rel_path t ≡ true → 0 < length t
unfolding sanitize_rel_path
clean-ne-nil [] h = cc
clean-ne-nil (c ∷ t) h = omega arith

rename_paths-joined :
    (old new : Text)
    → IsString old
    → IsString new
    → sanitize_rel_path old ≡ true
    → sanitize_rel_path new ≡ true
    → rename_paths (old ++ (0 ∷ new)) ≡ some (old, new)
unfolding rename_paths
rename_paths-joined old new vo vn co cn =
    let at = strnlen-append old new vo in
    let first : take (strnlen (old ++ (0 ∷ new))) (old ++ (0 ∷ new)) ≡ old =
      ap (λ n. take n (old ++ (0 ∷ new))) at ∙ take-append_self old (0 ∷ new) in
    let next : strnlen (old ++ (0 ∷ new)) + 1 ≡ suc (length old) = omega (arith, at) in
    let behind : drop (strnlen (old ++ (0 ∷ new)) + 1) (old ++ (0 ∷ new)) ≡ new =
      ap (λ n. drop n (old ++ (0 ∷ new))) next ∙ drop-past old new in
    let second : take (strnlen new) new ≡ new =
      ap (λ n. take n new) (strnlen_self new vn) ∙ take_self new in
    let total : length (old ++ (0 ∷ new)) ≡ length old + suc (length new) =
      length-append {0} old (0 ∷ new) in
    let some_new = clean-ne-nil new cn in split_off first behind second total next some_new
  where
    split_off :
        take (strnlen (old ++ (0 ∷ new))) (old ++ (0 ∷ new)) ≡ old
        → drop (strnlen (old ++ (0 ∷ new)) + 1) (old ++ (0 ∷ new)) ≡ new
        → take (strnlen new) new ≡ new
        → length (old ++ (0 ∷ new)) ≡ length old + suc (length new)
        → strnlen (old ++ (0 ∷ new)) + 1 ≡ suc (length old)
        → 0 < length new
        → rename_paths (old ++ (0 ∷ new)) ≡ some (old, new)
    split_off first behind second total next some_new =
        rw (first, behind, second, co, cn) (ground (arith, total, next, some_new))

-- The request to rename one accepted path to another is taken apart into these two paths by the server, and no
-- accepted pair of paths that fits into 512 bytes with the NUL between them is refused.
pub rename_paths-rename_payload :
    (old new : Text)
    → IsString old
    → IsString new
    → sanitize_rel_path old ≡ true
    → sanitize_rel_path new ≡ true
    → length old + 1 + length new ≤ max_net_path
    → (payload : List ℕ) × (rename_payload old new ≡ some payload)
      × (length payload ≤ max_net_path)
      × (rename_paths payload ≡ some (old, new))
unfolding rename_payload
rename_paths-rename_payload [] new vo vn co cn short = absurd (omega (arith, clean-ne-nil [] co))
rename_paths-rename_payload (c ∷ old) new vo vn co cn short = (
  (c ∷ old) ++ (0 ∷ new),
  ground (arith, short),
  omega (arith, short, length-append {0} (c ∷ old) (0 ∷ new)),
  rename_paths-joined (c ∷ old) new vo vn co cn,
)
