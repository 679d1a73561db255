-- ===== src/FilePath/Target.antt =====
-- `local_target_path` of src/transfer.c and `current_path` of src/server.c: where a relative path lies
-- in a backup root.
use mini_sync.Common.{
  ℕ, suc, ◌≡◌, refl, ◌∙◌, sym, ◌<◌, zero, ◌-◌, ltb, ◌&&◌, true, false, Option, none, some, List, [],
  ◌∷◌, ◌++◌, arith, Text, codes, length, if◌then◌else◌, append_assoc, inl, inr, Bool-cases,
}
use mini_sync.FilePath.{slash, sanitize_rel_path, skip_slashes, is_slash_at, fits, join_path}
use mini_sync.FilePath.Sanitize.{
  first_component, later_components, components, walk, sanitize_rel_path-stays_below,
}
use mini_sync.FilePath.Relative.{
  join_path_split, length-plain, no_slash_at_last, skip_slashes_of_sanitized, fits-some,
  join_path-zero,
}

-- The size of every path buffer, from include/common.h.
abbrev pub max_path_len : ℕ
max_path_len = 512

unfoldable pub current_path : (out_size : ℕ) → (root rel_path : Text) → Option Text
unfolding sanitize_rel_path join_path
current_path out_size root rel_path =
    if sanitize_rel_path rel_path
    then elim (join_path max_path_len root (codes "current")) [
      | none ↦ none
      | some current ↦ join_path out_size current rel_path
    ]
    else none

-- The same code stands in transfer.c under another name.
unfoldable pub local_target_path : (out_size : ℕ) → (backup_root rel_path : Text) → Option Text
unfolding current_path
local_target_path out_size backup_root rel_path = current_path out_size backup_root rel_path

first_component-append : (a b : Text) → first_component (a ++ (slash ∷ b)) ≡ first_component a
unfolding first_component
first_component-append [] b = refl
first_component-append (c ∷ a) b = ground (arith, first_component-append a b)

later_components-append :
    (a b : Text) → later_components (a ++ (slash ∷ b)) ≡ later_components a ++ components b
unfolding later_components components
later_components-append [] b = refl
later_components-append (c ∷ a) b =
    ground (arith, first_component-append a b, later_components-append a b)

components-append : (a b : Text) → components (a ++ (slash ∷ b)) ≡ components a ++ components b
unfolding components
components-append a b = rw (first_component-append, later_components-append)

walk-append :
    (stack ws vs : List Text) (u : List Text)
    → walk stack ws ≡ some u
    → walk stack (ws ++ vs) ≡ walk u vs
unfolding walk
walk-append stack [] vs u e = ground arith
walk-append [] (w ∷ ws) vs u e =
    ground (arith, walk-append (w ∷ []) ws vs u, walk-append [] ws vs u)
walk-append (d ∷ ds) (w ∷ ws) vs u e =
    ground (
      arith,
      walk-append (w ∷ d ∷ ds) ws vs u,
      walk-append (d ∷ ds) ws vs u,
      walk-append ds ws vs u,
    )

-- The directory `current` of a root: its name does not end in a slash.
current_ends :
    (root current : Text)
    → join_path max_path_len root (codes "current") ≡ some current
    → (name : Text) × (current ≡ name ++ (b't' ∷ []))
unfolding join_path skip_slashes
current_ends root current e =
    elim (Bool-cases (ltb 0 (length root) && is_slash_at root (length root - 1))) [
      | inl h ↦ (
        root ++ codes "curren",
        (fits-some 512 (root ++ codes "current") current (ground arith)).0
            ∙ sym (append_assoc root (codes "curren") (b't' ∷ [])),
      )
      | inr h ↦ (
        root ++ codes "/curren",
        (fits-some 512 (root ++ codes "/current") current (ground arith)).0
            ∙ sym (append_assoc root (codes "/curren") (b't' ∷ [])),
      )
    ]

-- Below `current` the target of an accepted path is that directory's text, a slash and the path.
pub current_path-eq :
    (size : ℕ) (root current rel target : Text)
    → join_path max_path_len root (codes "current") ≡ some current
    → current_path size root rel ≡ some target
    → (sanitize_rel_path rel ≡ true) × (target ≡ current ++ (slash ∷ rel)) × (length target < size)
unfolding current_path
current_path-eq zero root current rel target at e =
    absurd (ground (arith, join_path-zero current rel))
current_path-eq (suc size) root current rel target at e =
    let clean : sanitize_rel_path rel ≡ true = ground arith in
    let (name, ends) = current_ends root current at in
    let joined : join_path (suc size) current rel
        ≡ fits (suc size) (current ++ (slash ∷ skip_slashes rel)) =
      rw ends (
        join_path_split size (length name) (name ++ (b't' ∷ [])) rel false
          (length-plain name b't' (omega arith)) (no_slash_at_last name b't' (omega arith) [])) in
    let (same, short) =
      fits-some (suc size) (current ++ (slash ∷ rel)) target
        (ground (arith, joined, skip_slashes_of_sanitized rel clean)) in
    (clean, same, rw (← same) at short)

-- No relative path that a peer or the monitor names leads out of the `current` directory of the root:
-- wherever that directory resolves to, the target of the path resolves to it or to a place below it.
pub current_path-stays_in_current :
    (size : ℕ) (root current rel target : Text) (start base : List Text)
    → join_path max_path_len root (codes "current") ≡ some current
    → current_path size root rel ≡ some target
    → walk start (components current) ≡ some base
    → (below : List Text) × (walk start (components target) ≡ some (below ++ base))
current_path-stays_in_current size root current rel target start base at e resolved =
    let (clean, same, short) = current_path-eq size root current rel target at e in
    let (below, stays) = (sanitize_rel_path-stays_below rel base clean).2 in
    (
      below,
      rw (same, components-append current rel)
          (walk-append start (components current) (components rel) base resolved ∙ stays),
    )
