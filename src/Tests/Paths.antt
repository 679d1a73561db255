-- ===== src/Tests/Paths.antt =====
-- The path functions of src/file_utils.c at concrete paths.
use mini_sync.Common.{
  ◌≡◌, refl, ◌≢◌, true, false, none, some, List, [], ◌∷◌, ◌++◌, arith, Text, Text-discrete, codes,
}
use mini_sync.FilePath.{slash, dot, sanitize_rel_path, join_path, get_relative_path}
use mini_sync.FilePath.Sanitize.{
  All, dot_dot, first_component, components, later_components, walk, sanitize_rel_path-stays_below,
  sanitize_rel_path-refuses_dots,
}
use mini_sync.FilePath.Relative.{root_text, get_relative_path-join_path}
use mini_sync.FilePath.Target.{current_path, current_path-stays_in_current}

sanitize_runs :
    (sanitize_rel_path (codes "a/b.txt") ≡ true)
    × (sanitize_rel_path (codes "../b") ≡ false)
    × (sanitize_rel_path (codes "a/..") ≡ false)
    × (sanitize_rel_path (codes "/etc") ≡ false)
    × (sanitize_rel_path (codes "a//b") ≡ false)
unfolding sanitize_rel_path
sanitize_runs = (refl, refl, refl, refl, refl)

-- With two slashes at the end of the root every path below it is refused.
double_slash_root :
    (join_path 512 (codes "src//") (codes "a") ≡ some (codes "src//a"))
    × (get_relative_path 512 (codes "src//") (codes "src//a") ≡ none)
unfolding join_path get_relative_path
double_slash_root = (refl, refl)

clean_path : sanitize_rel_path (codes "a/b") ≡ true
unfolding sanitize_rel_path
clean_path = refl

stays_below_example :
    (first_component (codes "a/b") ≢ [])
    × All (λ w. w ≢ dot_dot) (components (codes "a/b"))
    × ((below : List Text) × (walk (codes "root" ∷ []) (components (codes "a/b"))
          ≡ some (below ++ (codes "root" ∷ []))))
stays_below_example = sanitize_rel_path-stays_below (codes "a/b") (codes "root" ∷ []) clean_path

refuses_dots_example : sanitize_rel_path (codes "d" ++ (slash ∷ dot ∷ dot ∷ codes "config")) ≡ false
refuses_dots_example = sanitize_rel_path-refuses_dots (codes "d") (codes "config")

joined_path :
    join_path 512 (root_text (codes "./tes") b't' true) (codes "a/b") ≡ some (codes "./test/a/b")
unfolding join_path
joined_path = refl

get_relative_example :
    get_relative_path 512 (root_text (codes "./tes") b't' true) (codes "./test/a/b")
    ≡ some (codes "a/b")
get_relative_example =
    get_relative_path-join_path (codes "./tes") b't' (codes "a/b") (omega arith) clean_path 512 true
      (codes "./test/a/b") joined_path

root_current : join_path 512 (codes "root") (codes "current") ≡ some (codes "root/current")
unfolding join_path
root_current = refl

root_target : current_path 512 (codes "root") (codes "a/b") ≡ some (codes "root/current/a/b")
unfolding current_path
root_target = refl

root_walk : walk [] (components (codes "root/current")) ≡ some (codes "current" ∷ codes "root" ∷ [])
unfolding walk components first_component later_components Text-discrete
root_walk = refl

stays_in_current_example :
    (below : List Text) × (walk [] (components (codes "root/current/a/b"))
      ≡ some (below ++ (codes "current" ∷ codes "root" ∷ [])))
stays_in_current_example =
    current_path-stays_in_current 512 (codes "root") (codes "root/current") (codes "a/b")
      (codes "root/current/a/b") [] (codes "current" ∷ codes "root" ∷ []) root_current root_target
      root_walk
