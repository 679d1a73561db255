-- ===== src/Monitor/Quiet.antt =====
-- Polls of src/monitor.c that find the directories as the table says.
use mini_sync.Common.{
  ◌<◌, ℕ, ◌≡◌, refl, ◌∙◌, sym, ap, true, none, some, List, [], ◌∷◌, arith, Text, append-nil, inl,
  inr,
}
use mini_sync.Task.{SyncTask}
use mini_sync.Monitor.{Tree, Table, Monitor, snapshot_mark_all_unseen}
use mini_sync.Monitor.Scan.{poll_scan_path, emit_deletions, poll_scan_and_emit_changes}
use mini_sync.Monitor.Depth.{IsTree, poll_scan_path-Ends}
use mini_sync.Monitor.Listing.{listing, compare_all, poll_scan_path-Compares}
use mini_sync.Monitor.Marks.{
  marks-empty, AllCurrent, AllCurrent-unseen, marks, AllCurrent-marks, compare_all-marks, Absent,
  names_one, marks-none, or_true, marks-some,
}

-- No two entries have the same path, and the path of each is that of a task.
abbrev pub AllNamed : List SyncTask → Table → Type 0
AllNamed tasks [] = Unit
AllNamed tasks (none ∷ table) = AllNamed tasks table
AllNamed tasks (some e ∷ table) =
    Absent e.rel_path table × (names_one tasks e.rel_path ≡ true) × AllNamed tasks table

Absent-unseen :
    (r : Text) (table : Table) → Absent r table → Absent r (snapshot_mark_all_unseen table)
unfolding snapshot_mark_all_unseen
Absent-unseen r [] h = tt
Absent-unseen r (none ∷ table) h = Absent-unseen r table h
Absent-unseen r (some e ∷ table) (h, hs) = (h, Absent-unseen r table hs)

AllNamed-unseen :
    (tasks : List SyncTask) (table : Table)
    → AllNamed tasks table
    → AllNamed tasks (snapshot_mark_all_unseen table)
unfolding snapshot_mark_all_unseen
AllNamed-unseen tasks [] h = tt
AllNamed-unseen tasks (none ∷ table) h = AllNamed-unseen tasks table h
AllNamed-unseen tasks (some e ∷ table) (absent, named, hs) =
    (Absent-unseen e.rel_path table absent, named, AllNamed-unseen tasks table hs)

-- Every entry is marked, so none is deleted.
emit_deletions-marks :
    (tasks : List SyncTask) (table : Table)
    → AllNamed tasks table
    → emit_deletions (marks tasks table) ≡ ([], marks tasks table)
unfolding emit_deletions
emit_deletions-marks tasks [] h = rw (marks-empty tasks) refl
emit_deletions-marks tasks (none ∷ table) h =
    rw (marks-none tasks table, emit_deletions-marks tasks table h) refl
emit_deletions-marks tasks (some e ∷ table) (absent, named, hs) =
    rw (marks-some tasks e table absent, named, or_true e.seen, emit_deletions-marks tasks table hs)
      refl

-- A poll of directories that are as the table says reports nothing: if each file that the walk meets is as the first
-- entry for its path says, and each entry has a path of its own, that of such a file, then the poll ends, no task is
-- emitted, and the files are still as the table says. What readdir gives are names.
pub poll_scan_and_emit_changes-quiet :
    (fuel : ℕ) (tree : Tree) (root : Text) (m : Monitor)
    → 512 < fuel
    → IsTree tree
    → AllCurrent (listing fuel tree root root) m.snapshots
    → AllNamed (listing fuel tree root root) m.snapshots
    → (table : Table) × (poll_scan_and_emit_changes fuel tree root m
        ≡ some (record m { snapshots = table }))
      × AllCurrent (listing fuel tree root root) table
unfolding poll_scan_and_emit_changes
poll_scan_and_emit_changes-quiet fuel tree root m deep plain current named =
    let tasks = listing fuel tree root root in
    let unseen_table = snapshot_mark_all_unseen m.snapshots in
    let started : Monitor = record m { snapshots = unseen_table } in
    let walked : poll_scan_path fuel tree root root started ≡ some (compare_all tasks started) =
      elim (poll_scan_path-Compares fuel tree root root started) [
        | inl over ↦ absurd (
            some-ne-none (
              sym
                (poll_scan_path-Ends tree plain fuel root root started
                  (omega (arith, deep), omega (arith, deep))).1
              ∙ over))
        | inr e ↦ e
      ] in
    let all_current = AllCurrent-unseen tasks m.snapshots current in
    (
      marks tasks unseen_table,
      rw
          (
            walked ∙ ap some (compare_all-marks tasks started all_current),
            emit_deletions-marks tasks unseen_table (AllNamed-unseen tasks m.snapshots named),
            append-nil m.emitted,
            poll_scan_and_emit_changes,
          )
          refl,
      AllCurrent-marks tasks tasks unseen_table all_current,
    )
  where
    some-ne-none : {x : Monitor} → some x ≡ none → ⊥
    some-ne-none e = cc
