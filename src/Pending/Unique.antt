-- ===== src/Pending/Unique.antt =====
-- `pending_update_or_insert` of src/transfer.c: the three cases of a known path, a free entry and a full
-- table.
use mini_sync.Common.{
  ℕ, zero, suc, ◌≡◌, refl, ◌≢◌, ◌⊎◌, sym, ◌∙◌, inl, inr, true, false, not, none, some, [], ◌∷◌,
  arith, Text, Option-cases, false≢true,
}
use mini_sync.Task.{SyncTask}
use mini_sync.Pending.{Table, holds, entry_of, find_index, pending_find, pending_update_or_insert}
use mini_sync.Pending.Find.{
  lookup, IsUnique, has_room, lookup_of_pending_find, set_entry-find_index, find_index-used,
  find_index-room, Updates, replace-lookup, replace-IsUnique, insert-lookup, insert-IsUnique,
}

lookup_of_found :
    (table : Table) (p : Text) (i : ℕ)
    → find_index (λ e. holds e p) table ≡ some i
    → lookup table p ≢ none
unfolding find_index
lookup_of_found [] p i h = cc
lookup_of_found (e ∷ table) p zero h = ground arith
lookup_of_found (e ∷ table) p (suc i) h = ground (arith, lookup_of_found table p i)

module _ (table : Table) (task : SyncTask) (now : ℕ) (u : IsUnique table) where
  abbrev changed : Table
  changed = pending_update_or_insert table task now

  put_known :
      (i : ℕ)
      → pending_find table task.rel_path ≡ some i
      → Updates task.rel_path (some (entry_of task now)) table changed
  unfolding pending_update_or_insert
  put_known i at =
      let known = lookup_of_found table task.rel_path i at in
      rw
        (
          at,
          pending_update_or_insert,
          set_entry-find_index (λ e. holds e task.rel_path) table (entry_of task now) i at,
        )
        (record {
          lookup_after =
              λ r. replace-lookup task.rel_path (entry_of task now) refl refl table r known;
          unique_after = replace-IsUnique task.rel_path (entry_of task now) refl refl table known u;
        })

  put_new :
      (i : ℕ)
      → pending_find table task.rel_path ≡ none
      → find_index (λ e. not e.used) table ≡ some i
      → Updates task.rel_path (some (entry_of task now)) table changed
  unfolding pending_update_or_insert
  put_new i missing at =
      let new = lookup_of_pending_find table task.rel_path missing in
      let room = find_index-room table i at in
      rw
        (
          missing,
          at,
          pending_update_or_insert,
          set_entry-find_index (λ e. not e.used) table (entry_of task now) i at,
        )
        (record {
          lookup_after =
              λ r. insert-lookup task.rel_path (entry_of task now) refl refl table r new room;
          unique_after =
              insert-IsUnique task.rel_path (entry_of task now) refl refl table new room u;
        })

  -- The task becomes what is pending for its path, with its deadline counted from now, if something was
  -- pending for the path or an entry is free; nothing else changes.
  pub pending_update_or_insert-Updates :
      (lookup table task.rel_path ≢ none) ⊎ (has_room table ≡ true)
      → Updates task.rel_path (some (entry_of task now)) table changed
  pending_update_or_insert-Updates ok = elim (Option-cases (pending_find table task.rel_path)) [
    | inr (i, at) ↦ put_known i at
    | inl missing ↦ elim (Option-cases (find_index (λ e. not e.used) table)) [
      | inr (i, at) ↦ put_new i missing at
      | inl full ↦ elim ok [
        | inl known ↦ absurd (known (lookup_of_pending_find table task.rel_path missing))
        | inr room ↦ absurd (false≢true (sym (find_index-used table full) ∙ room))
      ]
    ]
  ]

  -- In a full table a task of a path that is not yet there is lost.
  pub pending_update_or_insert-full :
      lookup table task.rel_path ≡ none → has_room table ≡ false → changed ≡ table
  unfolding pending_update_or_insert
  pending_update_or_insert-full new full = elim (Option-cases (pending_find table task.rel_path)) [
    | inr (i, at) ↦ absurd (lookup_of_found table task.rel_path i at new)
    | inl missing ↦ elim (Option-cases (find_index (λ e. not e.used) table)) [
      | inr (i, at) ↦ absurd (false≢true (sym full ∙ find_index-room table i at))
      | inl used ↦ rw (missing, used, pending_update_or_insert)
    ]
  ]
