-- ===== src/Monitor/Marks.antt =====
-- The table of src/monitor.c while a walk meets files that are as their entries say: entries are only marked as seen.
use mathlib.Core.Path.{subst}
use mathlib.Core.Logic.{ite}
use mini_sync.Common.{
  ℕ, zero, suc, ◌≡◌, refl, ◌∙◌, sym, ap, Bool, true, false, false≢true, ◌||◌, none, some, List, [],
  ◌∷◌, Text, text_eq, Text-discrete, if◌then◌else◌, inl, inr, Bool-cases,
}
use mini_sync.Task.{SyncTask}
use mini_sync.Monitor.{
  FileSnapshot, Table, Monitor, snapshot_find, set_snapshot, first_entry, is_for,
  snapshot_mark_all_unseen,
}
use mini_sync.Monitor.Scan.{differs, entry_at, compare_snapshot}
use mini_sync.Monitor.Listing.{compare_all}

-- The first entry for a path gets its mark.
pub mark : Text → Table → Table
mark r [] = []
mark r (none ∷ table) = none ∷ mark r table
mark r (some e ∷ table) =
    if text_eq e.rel_path r then some (record e { seen = true }) ∷ table else some e ∷ mark r table

-- The first entry for the path of a task is as the file is.
abbrev pub Current : SyncTask → Table → Type 0
Current task [] = ⊥
Current task (none ∷ table) = Current task table
Current task (some e ∷ table) =
    if text_eq e.rel_path task.rel_path then differs e task ≡ false else Current task table

-- What a search finds for such a task.
abbrev Found : SyncTask → Table → Type 0
Found task table =
    (idx : ℕ) × (e : FileSnapshot) × (first_entry (is_for task.rel_path) table ≡ some idx)
    × (entry_at table idx ≡ some e)
    × (differs e task ≡ false)
    × (set_snapshot table idx (some (record e { seen = true })) ≡ mark task.rel_path table)

Found-Current : (task : SyncTask) (table : Table) → Current task table → Found task table
unfolding first_entry set_snapshot mark
Found-Current task [] h = absurd h
Found-Current task (none ∷ table) h =
    let (idx, e, found, at, same, set) = Found-Current task table h in
    (suc idx, e, rw found refl, at, same, ap (λ t. none ∷ t) set)
Found-Current task (some d ∷ table) h = elim (Bool-cases (text_eq d.rel_path task.rel_path)) [
  | inl here ↦ (zero, d, rw here refl, refl, rw here at h, rw here refl)
  | inr other ↦
      let (idx, e, found, at, same, set) = Found-Current task table (rw other at h) in
      (suc idx, e, rw (other, found) refl, at, same, rw other (ap (λ t. some d ∷ t) set))
]

Current-mark :
    (task : SyncTask) (r : Text) (table : Table) → Current task table → Current task (mark r table)
unfolding mark
Current-mark task r [] h = absurd h
Current-mark task r (none ∷ table) h = Current-mark task r table h
Current-mark task r (some e ∷ table) h = elim (Bool-cases (text_eq e.rel_path r)) [
  | inl here ↦ rw here h
  | inr other ↦ elim (Bool-cases (text_eq e.rel_path task.rel_path)) [
    | inl first ↦ rw (other, first) (rw first at h)
    | inr later ↦ rw (other, later) (Current-mark task r table (rw later at h))
  ]
]

Current-unseen :
    (task : SyncTask) (table : Table)
    → Current task table
    → Current task (snapshot_mark_all_unseen table)
unfolding snapshot_mark_all_unseen
Current-unseen task [] h = absurd h
Current-unseen task (none ∷ table) h = Current-unseen task table h
Current-unseen task (some e ∷ table) h = elim (Bool-cases (text_eq e.rel_path task.rel_path)) [
  | inl first ↦ rw first (rw first at h)
  | inr later ↦ rw later (Current-unseen task table (rw later at h))
]

abbrev pub AllCurrent : List SyncTask → Table → Type 0
AllCurrent [] table = Unit
AllCurrent (task ∷ tasks) table = Current task table × AllCurrent tasks table

AllCurrent-mark :
    (tasks : List SyncTask) (r : Text) (table : Table)
    → AllCurrent tasks table
    → AllCurrent tasks (mark r table)
AllCurrent-mark [] r table h = tt
AllCurrent-mark (task ∷ tasks) r table (h, hs) =
    (Current-mark task r table h, AllCurrent-mark tasks r table hs)

pub AllCurrent-unseen :
    (tasks : List SyncTask) (table : Table)
    → AllCurrent tasks table
    → AllCurrent tasks (snapshot_mark_all_unseen table)
AllCurrent-unseen [] table h = tt
AllCurrent-unseen (task ∷ tasks) table (h, hs) =
    (Current-unseen task table h, AllCurrent-unseen tasks table hs)

abbrev pub marks : List SyncTask → Table → Table
marks [] table = table
marks (task ∷ tasks) table = marks tasks (mark task.rel_path table)

pub AllCurrent-marks :
    (tasks others : List SyncTask) (table : Table)
    → AllCurrent tasks table
    → AllCurrent tasks (marks others table)
AllCurrent-marks tasks [] table h = h
AllCurrent-marks tasks (task ∷ others) table h =
    AllCurrent-marks tasks others (mark task.rel_path table)
      (AllCurrent-mark tasks task.rel_path table h)

-- A file that is as its entry says is only marked.
compare_snapshot-mark :
    (task : SyncTask) (m : Monitor)
    → Current task m.snapshots
    → compare_snapshot task m ≡ record m { snapshots = mark task.rel_path m.snapshots }
unfolding compare_snapshot snapshot_find
compare_snapshot-mark task m h =
    let (idx, e, found, at, same, set) = Found-Current task m.snapshots h in
    rw (found, at, same, set, compare_snapshot) refl

pub compare_all-marks :
    (tasks : List SyncTask) (m : Monitor)
    → AllCurrent tasks m.snapshots
    → compare_all tasks m ≡ record m { snapshots = marks tasks m.snapshots }
compare_all-marks [] m h = refl
compare_all-marks (task ∷ tasks) m (h, hs) =
    ap (compare_all tasks) (compare_snapshot-mark task m h)
    ∙ compare_all-marks tasks (record m { snapshots = mark task.rel_path m.snapshots })
        (AllCurrent-mark tasks task.rel_path m.snapshots hs)

-- No entry has this path.
abbrev pub Absent : Text → Table → Type 0
Absent r [] = Unit
Absent r (none ∷ table) = Absent r table
Absent r (some e ∷ table) = (text_eq e.rel_path r ≡ false) × Absent r table

mark-Absent : (r : Text) (table : Table) → Absent r table → mark r table ≡ table
unfolding mark
mark-Absent r [] h = refl
mark-Absent r (none ∷ table) h = ap (λ t. none ∷ t) (mark-Absent r table h)
mark-Absent r (some e ∷ table) (h, hs) = rw h (ap (λ t. some e ∷ t) (mark-Absent r table hs))

abbrev pub names_one : List SyncTask → Text → Bool
names_one [] r = false
names_one (task ∷ tasks) r = text_eq r task.rel_path || names_one tasks r

text_eq→eq : (a b : Text) → text_eq a b ≡ true → a ≡ b
text_eq→eq a b = elim (Text-discrete a b) as (λ d. ite d true false ≡ true → a ≡ b) [
  | yes e ↦ λ _. e
  | no n ↦ λ e. absurd (false≢true e)
]

pub marks-empty : (tasks : List SyncTask) → marks tasks [] ≡ []
unfolding mark
marks-empty [] = refl
marks-empty (task ∷ tasks) = marks-empty tasks

pub marks-none :
    (tasks : List SyncTask) (table : Table) → marks tasks (none ∷ table) ≡ none ∷ marks tasks table
unfolding mark
marks-none [] table = refl
marks-none (task ∷ tasks) table = marks-none tasks (mark task.rel_path table)

pub or_true : (b : Bool) → (b || true) ≡ true
or_true true = refl
or_true false = refl

or_false : (b : Bool) → (b || false) ≡ b
or_false true = refl
or_false false = refl

Absent-mark : (r r' : Text) (table : Table) → Absent r table → Absent r (mark r' table)
unfolding mark
Absent-mark r r' [] h = tt
Absent-mark r r' (none ∷ table) h = Absent-mark r r' table h
Absent-mark r r' (some e ∷ table) (h, hs) = elim (Bool-cases (text_eq e.rel_path r')) [
  | inl here ↦ rw here (h, hs)
  | inr other ↦ rw other (h, Absent-mark r r' table hs)
]

pub marks-some :
    (tasks : List SyncTask) (e : FileSnapshot) (table : Table)
    → Absent e.rel_path table
    → marks tasks (some e ∷ table)
      ≡ some (record e { seen = e.seen || names_one tasks e.rel_path }) ∷ marks tasks table
unfolding mark
marks-some [] e table absent =
    ap (λ b. some (record e { seen = b }) ∷ table) (sym (or_false e.seen))
marks-some (task ∷ tasks) e table absent = elim (Bool-cases (text_eq e.rel_path task.rel_path)) [
  | inl here ↦
      let away : Absent task.rel_path table =
        subst (λ r. Absent r table) (text_eq→eq e.rel_path task.rel_path here) absent in
      rw (here, or_true e.seen, mark-Absent task.rel_path table away)
        (marks-some tasks (record e { seen = true }) table absent)
  | inr other ↦ rw other (
      marks-some tasks e (mark task.rel_path table)
        (Absent-mark e.rel_path task.rel_path table absent))
]
