-- ===== src/Pending/Find.antt =====
-- What the debounce table of src/transfer.c holds for a path, and how the calls change it.
use mini_sync.Common.{
  ℕ, zero, suc, ◌≡◌, refl, ◌≢◌, Bool, true, false, not, ◌||◌, Option, none, some, [], ◌∷◌, arith,
  Text, text_eq, if◌then◌else◌,
}
use mini_sync.Pending.{
  PendingTask, Table, cleared, holds, find_index, set_entry, pending_find, pending_remove,
}

-- The entry for a path.
abbrev pub lookup : Table → Text → Option PendingTask
lookup [] p = none
lookup (e ∷ table) p = let rest = lookup table p in if holds e p then some e else rest

-- No two used entries have the same path.
abbrev pub IsUnique : Table → Type 0
IsUnique [] = Unit
IsUnique (e ∷ table) = (e.used ≡ true → lookup table e.task.rel_path ≡ none) × IsUnique table

abbrev pub has_room : Table → Bool
has_room [] = false
has_room (e ∷ table) = not e.used || has_room table

pub lookup_of_pending_find :
    (table : Table) (p : Text) → pending_find table p ≡ none → lookup table p ≡ none
unfolding pending_find find_index
lookup_of_pending_find [] p h = refl
lookup_of_pending_find (e ∷ table) p h = ground (arith, lookup_of_pending_find table p)

-- Clearing the first entry of a path.
remove_first : Table → Text → Table
remove_first [] p = []
remove_first (e ∷ table) p = if holds e p then cleared ∷ table else e ∷ remove_first table p

pending_remove-eq : (table : Table) (p : Text) → pending_remove table p ≡ remove_first table p
unfolding pending_remove find_index remove_first
pending_remove-eq [] p = refl
pending_remove-eq (e ∷ table) p = ground (arith, pending_remove-eq table p)

-- Writing the entry of a task at the first place that a test accepts.
pub put_first : (PendingTask → Bool) → Table → PendingTask → Table
put_first test [] n = []
put_first test (e ∷ table) n = if test e then n ∷ table else e ∷ put_first test table n

pub set_entry-find_index :
    (test : PendingTask → Bool) (table : Table) (n : PendingTask) (i : ℕ)
    → find_index test table ≡ some i
    → set_entry table i n ≡ put_first test table n
unfolding find_index set_entry put_first
set_entry-find_index test [] n i h = cc
set_entry-find_index test (e ∷ table) n zero h = ground arith
set_entry-find_index test (e ∷ table) n (suc i) h =
    ground (arith, set_entry-find_index test table n i)

pub find_index-used :
    (table : Table) → find_index (λ e. not e.used) table ≡ none → has_room table ≡ false
unfolding find_index
find_index-used [] h = refl
find_index-used (e ∷ table) h = ground (arith, find_index-used table)

pub find_index-room :
    (table : Table) (i : ℕ) → find_index (λ e. not e.used) table ≡ some i → has_room table ≡ true
unfolding find_index
find_index-room [] i h = cc
find_index-room (e ∷ table) zero h = ground arith
find_index-room (e ∷ table) (suc i) h = ground (arith, find_index-room table i)

-- What `change` does to the entries, path by path: the path `p` gets `v`, every other keeps its own.
pub record Updates (p : Text) (v : Option PendingTask) (table table' : Table) : Type 0 where
  pub lookup_after : (r : Text) → lookup table' r ≡ (if text_eq p r then v else lookup table r)
  pub unique_after : IsUnique table'

remove_first-lookup :
    (table : Table) (p r : Text)
    → IsUnique table
    → lookup (remove_first table p) r ≡ (if text_eq p r then none else lookup table r)
unfolding remove_first
remove_first-lookup [] p r u = ground arith
remove_first-lookup (e ∷ table) p r u = ground (arith, remove_first-lookup table p r u.1)

remove_first-IsUnique :
    (table : Table) (p : Text) → IsUnique table → IsUnique (remove_first table p)
unfolding remove_first
remove_first-IsUnique [] p u = tt
remove_first-IsUnique (e ∷ table) p u =
    ground
      (arith, remove_first-IsUnique table p u.1, remove_first-lookup table p e.task.rel_path u.1)

-- After `pending_remove` nothing is pending for the path; all else is as it was.
pub pending_remove-Updates :
    (table : Table) (p : Text) → IsUnique table → Updates p none table (pending_remove table p)
pending_remove-Updates table p u = rw (pending_remove-eq table p) (record {
  lookup_after = λ r. remove_first-lookup table p r u;
  unique_after = remove_first-IsUnique table p u;
})

module _ (p : Text) (n : PendingTask) (used : n.used ≡ true) (named : n.task.rel_path ≡ p) where
  pub replace-lookup :
      (table : Table) (r : Text)
      → lookup table p ≢ none
      → lookup (put_first (λ e. holds e p) table n) r
        ≡ (if text_eq p r then some n else lookup table r)
  unfolding put_first
  replace-lookup [] r known = absurd (known refl)
  replace-lookup (e ∷ table) r known = ground (arith, replace-lookup table r)

  pub replace-IsUnique :
      (table : Table)
      → lookup table p ≢ none
      → IsUnique table
      → IsUnique (put_first (λ e. holds e p) table n)
  unfolding put_first
  replace-IsUnique [] known u = absurd (known refl)
  replace-IsUnique (e ∷ table) known u =
      ground (arith, replace-lookup table e.task.rel_path, replace-IsUnique table)

  pub insert-lookup :
      (table : Table) (r : Text)
      → lookup table p ≡ none
      → has_room table ≡ true
      → lookup (put_first (λ e. not e.used) table n) r
        ≡ (if text_eq p r then some n else lookup table r)
  unfolding put_first
  insert-lookup [] r new room = cc
  insert-lookup (e ∷ table) r new room = ground (arith, insert-lookup table r)

  pub insert-IsUnique :
      (table : Table)
      → lookup table p ≡ none
      → has_room table ≡ true
      → IsUnique table
      → IsUnique (put_first (λ e. not e.used) table n)
  unfolding put_first
  insert-IsUnique [] new room u = cc
  insert-IsUnique (e ∷ table) new room u =
      ground (arith, insert-lookup table e.task.rel_path, insert-IsUnique table)
