-- ===== src/FilePath/Relative.antt =====
-- `join_path` and `get_relative_path` of src/file_utils.c against one another, and against the
-- components of a path.
use mini_sync.Common.{
  ℕ, zero, suc, ◌+◌, ◌-◌, ◌<◌, ◌≡◌, refl, ◌≢◌, ◌∙◌, sym, ap, Bool, true, false, none, some, [], ◌∷◌,
  ◌++◌, arith, Text, length, take, get_elem?, if◌then◌else◌, append_assoc, length-append,
  take-append_self, drop-append_self, lt→ltb,
}
use mini_sync.FilePath.{
  slash, starts_with, sanitize_rel_path, skip_slashes, is_slash_at, fits, join_path, trim_len,
  relative_part, get_relative_path,
}

get_elem?-append_self : (t r : Text) (c : ℕ) → get_elem? (t ++ (c ∷ r)) (length t) ≡ some c
get_elem?-append_self [] r c = refl
get_elem?-append_self (x ∷ t) r c = get_elem?-append_self t r c

starts_with_self : (t r : Text) → starts_with t (t ++ r) ≡ true
unfolding starts_with
starts_with_self [] r = refl
starts_with_self (c ∷ t) r = ground (arith, starts_with_self t r)

trim_len-slash :
    (t : Text) (n : ℕ)
    → is_slash_at t (suc n) ≡ true
    → trim_len t (suc (suc n)) ≡ trim_len t (suc n)
unfolding trim_len
trim_len-slash t n h = ground arith

pub join_path_split :
    (size n : ℕ) (base rel : Text) (slashed : Bool)
    → length base ≡ suc n
    → is_slash_at base n ≡ slashed
    → join_path (suc size) base rel
      ≡ fits
          (suc size)
          (if slashed then base ++ skip_slashes rel else base ++ (slash ∷ skip_slashes rel))
unfolding join_path
join_path_split size n base rel slashed long ends =
    let at : is_slash_at base (length base - 1) ≡ slashed =
      rw long (ap (is_slash_at base) (omega arith) ∙ ends) in
    rw (at, lt→ltb 0 (length base) (omega arith)) (ground arith)

-- A root as a user writes it: some name, then a slash or nothing.
abbrev pub root_text : Text → ℕ → Bool → Text
root_text name last slashed = name ++ (last ∷ (if slashed then slash ∷ [] else []))

get_elem?-append_next :
    (t r : Text) (c d : ℕ) → get_elem? (t ++ (c ∷ d ∷ r)) (suc (length t)) ≡ some d
get_elem?-append_next [] r c d = refl
get_elem?-append_next (x ∷ t) r c d = get_elem?-append_next t r c d

module _ (name : Text) (last : ℕ) (ne : last ≢ slash) where
  pub length-plain : length (name ++ (last ∷ [])) ≡ suc (length name)
  length-plain = omega (arith, length-append {0} name (last ∷ []))

  length-slashed : length (name ++ (last ∷ slash ∷ [])) ≡ suc (suc (length name))
  length-slashed = omega (arith, length-append {0} name (last ∷ slash ∷ []))

  pub no_slash_at_last : (r : Text) → is_slash_at (name ++ (last ∷ r)) (length name) ≡ false
  unfolding is_slash_at
  no_slash_at_last r = rw (get_elem?-append_self name r last, is_slash_at) (ground arith)

  slash_at_end : is_slash_at (name ++ (last ∷ slash ∷ [])) (suc (length name)) ≡ true
  unfolding is_slash_at
  slash_at_end = rw (get_elem?-append_next name [] last slash, is_slash_at)

  trim_len-stops :
      (r : Text) → trim_len (name ++ (last ∷ r)) (suc (length name)) ≡ suc (length name)
  unfolding trim_len
  trim_len-stops r = ground (arith, no_slash_at_last r)

  -- The trailing slash is taken off.
  trim_len-root_text :
      (slashed : Bool)
      → trim_len (root_text name last slashed) (length (root_text name last slashed))
        ≡ suc (length name)
  trim_len-root_text false = rw length-plain (trim_len-stops [])
  trim_len-root_text true = rw length-slashed (trimmed ∙ trim_len-stops (slash ∷ []))
    where
      trimmed :
          trim_len (name ++ (last ∷ slash ∷ [])) (suc (suc (length name)))
          ≡ trim_len (name ++ (last ∷ slash ∷ [])) (suc (length name))
      trimmed = trim_len-slash (name ++ (last ∷ slash ∷ [])) (length name) slash_at_end

pub skip_slashes_of_sanitized : (rel : Text) → sanitize_rel_path rel ≡ true → skip_slashes rel ≡ rel
unfolding sanitize_rel_path skip_slashes
skip_slashes_of_sanitized [] h = refl
skip_slashes_of_sanitized (c ∷ t) h = ground arith

relative_part_lem : (rel : Text) → sanitize_rel_path rel ≡ true → relative_part (slash ∷ rel) ≡ rel
unfolding relative_part sanitize_rel_path
relative_part_lem [] clean = cc
relative_part_lem (c ∷ t) clean = refl

get_relative_path_split :
    (size : ℕ) (root pre rel : Text)
    → trim_len root (length root) ≡ length pre
    → take (length pre) root ≡ pre
    → sanitize_rel_path rel ≡ true
    → length rel < suc size
    → get_relative_path (suc size) root (pre ++ (slash ∷ rel)) ≡ some rel
unfolding get_relative_path
get_relative_path_split size root pre rel trimmed took clean short = rw (
  trimmed,
  took,
  drop-append_self pre (slash ∷ rel),
  relative_part_lem rel clean,
  starts_with_self pre (slash ∷ rel),
  lt→ltb (length rel) (suc size) short,
  clean,
)

pub fits-some : (n : ℕ) (t p : Text) → fits n t ≡ some p → (p ≡ t) × (length t < n)
fits-some n t p e = (ground arith, ground arith)

pub join_path-zero : (base rel : Text) → join_path zero base rel ≡ none
unfolding join_path
join_path-zero base rel = refl

module _ (name : Text) (last : ℕ) (rel : Text) (ne : last ≢ slash)
    (clean : sanitize_rel_path rel ≡ true) where
  abbrev joined : Text
  joined = (name ++ (last ∷ [])) ++ (slash ∷ rel)

  append_plain : name ++ (last ∷ slash ∷ rel) ≡ joined
  append_plain = sym (append_assoc name (last ∷ []) (slash ∷ rel))

  join_path-root_text :
      (size : ℕ) (slashed : Bool)
      → join_path (suc size) (root_text name last slashed) rel ≡ fits (suc size) joined
  unfolding join_path
  join_path-root_text size false =
      join_path_split size (length name) _ rel false (length-plain name last ne)
        (no_slash_at_last name last ne [])
      ∙ ap (λ r. fits (suc size) ((name ++ (last ∷ [])) ++ (slash ∷ r)))
          (skip_slashes_of_sanitized rel clean)
  join_path-root_text size true =
      join_path_split size (suc (length name)) _ rel true (length-slashed name last ne)
        (slash_at_end name last ne)
      ∙ ap (λ r. fits (suc size) ((name ++ (last ∷ slash ∷ [])) ++ r))
          (skip_slashes_of_sanitized rel clean)
      ∙ ap (fits (suc size)) (append_assoc name (last ∷ slash ∷ []) rel ∙ append_plain)

  relative_part_of_sanitized : relative_part (slash ∷ rel) ≡ rel
  relative_part_of_sanitized = relative_part_lem rel clean

  length-joined : length joined ≡ suc (length name) + suc (length rel)
  length-joined =
      omega
        (arith, length-append {0} (name ++ (last ∷ [])) (slash ∷ rel), length-plain name last ne)

  -- What `join_path` builds from a root and a sanitised relative path, `get_relative_path` takes apart
  -- into that path again, whether or not the root is written with a trailing slash.
  pub get_relative_path-join_path :
      (size : ℕ) (slashed : Bool) (path : Text)
      → join_path size (root_text name last slashed) rel ≡ some path
      → get_relative_path size (root_text name last slashed) path ≡ some rel
  get_relative_path-join_path zero slashed path e =
      cc (join_path-zero (root_text name last slashed) rel)
  get_relative_path-join_path (suc size) slashed path e =
      let (at, short) =
        fits-some (suc size) joined path (sym (join_path-root_text size slashed) ∙ e) in
      rw at (
        get_relative_path_split size (root_text name last slashed) (name ++ (last ∷ [])) rel
          (trim_len-root_text name last ne slashed ∙ sym (length-plain name last ne))
          (ap (take (length (name ++ (last ∷ []))))
              (sym (append_assoc name (last ∷ []) (if slashed then slash ∷ [] else [])))
            ∙ take-append_self (name ++ (last ∷ [])) (if slashed then slash ∷ [] else []))
          clean (omega (arith, length-joined)))
