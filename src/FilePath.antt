-- ===== src/FilePath.antt =====
-- The path functions of src/file_utils.c (sanitize_rel_path, join_path, get_relative_path), over C
-- strings. A function that fills an `out` buffer of a given size returns what it stores there, and
-- `none` for -1; the callers use no buffer after a -1. Null pointers are not modelled.
pub mod Sanitize
pub mod Relative
pub mod Target
use mini_sync.Common.{
  ℕ, zero, suc, ◌-◌, Bool, true, false, not, ◌&&◌, ◌||◌, Option, none, some, List, [], ◌∷◌, ◌++◌,
  Text, codes, text_eq, Text-discrete, length, take, drop, get_elem?, ltb, ◌==◌, if◌then◌else◌,
}

abbrev pub slash : ℕ
slash = b'/'

abbrev pub dot : ℕ
dot = b'.'

-- `strncmp(prefix, text, strlen(prefix)) == 0`
unfoldable pub starts_with : Text → Text → Bool
starts_with [] text = true
starts_with (p ∷ prefix) [] = false
starts_with (p ∷ prefix) (c ∷ text) = p == c && starts_with prefix text

-- `strstr(text, needle) != NULL`
unfoldable pub contains : Text → Text → Bool
unfolding starts_with
contains needle [] = starts_with needle []
contains needle (c ∷ text) = starts_with needle (c ∷ text) || contains needle text

-- true for 0, false for -1
unfoldable pub sanitize_rel_path : Text → Bool
unfolding contains starts_with Text-discrete
sanitize_rel_path [] = false
sanitize_rel_path (c ∷ t) =
    if c == slash
    then false
    else if text_eq (c ∷ t) (dot ∷ []) || text_eq (c ∷ t) (dot ∷ dot ∷ [])
    then false
    else not (
        contains (dot ∷ dot ∷ slash ∷ []) (c ∷ t)
        || contains (slash ∷ dot ∷ dot ∷ []) (c ∷ t)
        || contains (slash ∷ slash ∷ []) (c ∷ t))

-- `while (*rel == '/') rel++;`
unfoldable pub skip_slashes : Text → Text
skip_slashes [] = []
skip_slashes (c ∷ t) = if c == slash then skip_slashes t else c ∷ t

-- `text[i] == '/'`
unfoldable pub is_slash_at : Text → ℕ → Bool
is_slash_at text i = elim (get_elem? text i) [ none ↦ false | some c ↦ c == slash ]

-- What snprintf stores, if it fits with its terminator.
abbrev pub fits : ℕ → Text → Option Text
fits out_size text = if ltb (length text) out_size then some text else none

unfoldable pub join_path : (out_size : ℕ) → (base rel : Text) → Option Text
unfolding skip_slashes is_slash_at
join_path zero base rel = none
join_path (suc size) base rel =
    if ltb 0 (length base) && is_slash_at base (length base - 1)
    then fits (suc size) (base ++ skip_slashes rel)
    else fits (suc size) (base ++ (slash ∷ skip_slashes rel))

-- `while (root_len > 1 && root[root_len - 1] == '/') root_len--;`
unfoldable pub trim_len : Text → ℕ → ℕ
unfolding is_slash_at
trim_len root zero = zero
trim_len root (suc n) = if ltb 1 (suc n) && is_slash_at root n then trim_len root n else suc n

-- `if (*rel == '/') rel++;  if (*rel == '\0') rel = ".";`
unfoldable pub relative_part : Text → Text
relative_part [] = dot ∷ []
relative_part (c ∷ []) = if c == slash then dot ∷ [] else c ∷ []
relative_part (c ∷ d ∷ t) = if c == slash then d ∷ t else c ∷ d ∷ t

unfoldable pub get_relative_path : (out_size : ℕ) → (root path : Text) → Option Text
unfolding trim_len starts_with relative_part sanitize_rel_path
get_relative_path zero root path = none
get_relative_path (suc size) root path =
    let root_len = trim_len root (length root) in
    let rel = relative_part (drop root_len path) in
    if starts_with (take root_len root) path && ltb (length rel) (suc size) && sanitize_rel_path rel
    then some rel
    else none
