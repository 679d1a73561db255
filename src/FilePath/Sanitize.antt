-- ===== src/FilePath/Sanitize.antt =====
-- `sanitize_rel_path` of src/file_utils.c and the components of a path.
use mathlib.Core.List.{tail}
use mini_sync.Common.{
  ◌≡◌, ◌≢◌, refl, ◌⊎◌, inl, inr, Option, none, some, append_assoc, true, false, ◌||◌, List, [], ◌∷◌,
  ◌++◌, arith, Text, Text-discrete, text_eq, ◌==◌, if◌then◌else◌, Bool-cases,
}
use mini_sync.FilePath.{slash, dot, starts_with, contains, sanitize_rel_path}

abbrev pub dot_dot : Text
dot_dot = dot ∷ dot ∷ []

-- The components between the slashes, the empty ones included. The first stands apart.
unfoldable pub first_component : Text → Text
first_component [] = []
first_component (c ∷ t) = if c == slash then [] else c ∷ first_component t

unfoldable pub later_components : Text → List Text
unfolding first_component
later_components [] = []
later_components (c ∷ t) =
    let rest = later_components t in if c == slash then first_component t ∷ rest else rest

abbrev pub All {ℓ κ} : {A : Type ℓ} → (A → Type κ) → List A → Type κ
All P [] = Unit
All P (x ∷ xs) = P x × All P xs

-- A first component `..` shows at the beginning of the text, and is followed by its end or a slash.
starts_with-first_component :
    (t : Text) → first_component t ≡ dot_dot → starts_with dot_dot t ≡ true
unfolding first_component starts_with
starts_with-first_component [] e = cc
starts_with-first_component (a ∷ []) e = ground arith
starts_with-first_component (a ∷ b ∷ t) e = ground arith

dot_dot_alone :
    (t : Text)
    → first_component t ≡ dot_dot
    → (t ≡ dot_dot) ⊎ (starts_with (dot ∷ dot ∷ slash ∷ []) t ≡ true)
unfolding first_component starts_with
dot_dot_alone [] e = cc
dot_dot_alone (a ∷ []) e = ground arith
dot_dot_alone (a ∷ b ∷ []) e = ground arith
dot_dot_alone (a ∷ b ∷ c ∷ t) e = ground arith

later-ne-dot_dot :
    (t : Text) → contains (slash ∷ dot_dot) t ≡ false → All (λ w. w ≢ dot_dot) (later_components t)
unfolding contains later_components
later-ne-dot_dot [] h = tt
later-ne-dot_dot (c ∷ t) h = elim (Bool-cases (c == slash)) [
  | inl at ↦ rw at ((λ e. here at e), later-ne-dot_dot t (ground arith))
  | inr off ↦ rw off (later-ne-dot_dot t (ground arith))
]
  where
    here : (c == slash) ≡ true → first_component t ≡ dot_dot → ⊥
    here at e = ground (arith, starts_with-first_component t e)

first-ne-dot_dot :
    (t : Text)
    → t ≢ dot_dot
    → contains (dot ∷ dot ∷ slash ∷ []) t ≡ false
    → first_component t ≢ dot_dot
unfolding contains
first-ne-dot_dot [] ne h e = ne_of_first-nil e
  where
    ne_of_first-nil : first_component [] ≢ dot_dot
    ne_of_first-nil e' = elim (dot_dot_alone [] e') [ inl q ↦ ne q | inr q ↦ ground arith ]
first-ne-dot_dot (c ∷ t) ne h e = elim (dot_dot_alone (c ∷ t) e) [
  | inl q ↦ ne q
  | inr q ↦ ground arith
]

unfoldable pub components : Text → List Text
components t = first_component t ∷ later_components t

-- Resolving components from a stack of directories, innermost first: `..` leaves the innermost one,
-- and `none` is the attempt to leave the last.
unfoldable pub walk : List Text → List Text → Option (List Text)
walk stack [] = some stack
walk stack (w ∷ ws) =
    let deeper = walk (w ∷ stack) ws in
    let same = walk stack ws in
    let parent = walk (tail stack) ws in
    if text_eq w dot_dot
    then (elim stack [ [] ↦ none | d ∷ ds ↦ parent ])
    else if text_eq w [] || text_eq w (dot ∷ [])
    then same
    else deeper

walk_below :
    (stack ws : List Text)
    → All (λ w. w ≢ dot_dot) ws
    → (below : List Text) × (walk stack ws ≡ some (below ++ stack))
unfolding walk
walk_below stack [] h = ([], refl)
walk_below stack (w ∷ ws) (here, later) = elim (Text-discrete w dot_dot) [
  | yes p ↦ absurd (here p)
  | no n ↦ elim (Bool-cases (text_eq w [] || text_eq w (dot ∷ []))) [
    | inl skipped ↦ let (below, e) = walk_below stack ws later in (below, ground arith)
    | inr kept ↦
        let (below, e) = walk_below (w ∷ stack) ws later in
        (below ++ (w ∷ []), ground (arith, append_assoc below (w ∷ []) stack))
  ]
]

-- A relative path that the check lets through is not empty and not absolute, none of its components is
-- `..`, and resolving it from any directory ends in that directory or below it.
pub sanitize_rel_path-stays_below :
    (t : Text) (base : List Text)
    → sanitize_rel_path t ≡ true
    → (first_component t ≢ [])
      × All (λ w. w ≢ dot_dot) (components t)
      × ((below : List Text) × (walk base (components t) ≡ some (below ++ base)))
unfolding sanitize_rel_path components first_component
sanitize_rel_path-stays_below [] base h = cc
sanitize_rel_path-stays_below (c ∷ t) base h =
    ((λ e. ground arith), safe, walk_below base (components (c ∷ t)) safe)
  where
    safe : All (λ w. w ≢ dot_dot) (components (c ∷ t))
    safe = (
      (λ e. first-ne-dot_dot (c ∷ t) (λ q. ground arith) (ground arith) e),
      later-ne-dot_dot (c ∷ t) (ground arith),
    )

contains_inside :
    (needle d n : Text)
    → starts_with needle (needle ++ n) ≡ true
    → contains needle (d ++ (needle ++ n)) ≡ true
unfolding contains
contains_inside [] [] [] h = h
contains_inside [] [] (x ∷ n) h = refl
contains_inside (p ∷ needle) [] n h = ground arith
contains_inside needle (c ∷ d) n h = ground (arith, contains_inside needle d n h)

-- The check refuses more than the parent directory: no path with a component, after the first, whose
-- name merely begins with two dots passes it, such as `d/..config`.
pub sanitize_rel_path-refuses_dots :
    (d n : Text) → sanitize_rel_path (d ++ (slash ∷ dot ∷ dot ∷ n)) ≡ false
unfolding sanitize_rel_path
sanitize_rel_path-refuses_dots [] n = refl
sanitize_rel_path-refuses_dots (c ∷ d) n =
    ground (arith, contains_inside (slash ∷ dot_dot) (c ∷ d) n refl)
