-- ===== src/Tests/Directories.antt =====
-- The monitor on a small directory, seen at the start, at an event and at a poll.
use mathlib.Core.Path.{subst}
use mini_sync.Common.{
  ℕ, ◌≡◌, refl, Bool, true, false, Option, none, some, List, [], ◌∷◌, arith, Text, codes, text_eq,
  Text-discrete, map, replicate, if◌then◌else◌,
}
use mini_sync.Task.{event_modify, event_fullscan}
use mini_sync.FilePath.{join_path}
use mini_sync.Monitor.{Tree, Monitor, FileSnapshot, Table, build_task_from_path}
use mini_sync.Monitor.Scan.{poll_scan_and_emit_changes}
use mini_sync.Monitor.Listing.{listing}
use mini_sync.Monitor.Marks.{AllCurrent}
use mini_sync.Monitor.Quiet.{AllNamed, poll_scan_and_emit_changes-quiet}
use mini_sync.Monitor.Depth.{IsTree, AllNames}
use mini_sync.Monitor.Events.{Event, MoveRecord, Wake, monitor_process}
use mini_sync.Monitor.Run.{monitor_process-Ends}

-- Two files in `/s`, the second of the given size.
abbrev names_in : Bool → Option (List Text)
names_in true = some (codes "." ∷ codes "a" ∷ codes "b" ∷ [])
names_in false = none

abbrev tree : ℕ → Tree
tree size = record {
  names = λ dir. names_in (text_eq dir (codes "/s"));
  lstat = λ path. some (record {
    size = if text_eq path (codes "/s/b") then size else 1;
    mode = 0o100644;
    mtime = 5;
  });
  is_directory = λ path. text_eq path (codes "/s");
  add_watch = λ path. some 1;
}

tree-IsTree : (size : ℕ) → IsTree (tree size)
tree-IsTree size dir names at = all (text_eq dir (codes "/s")) names at
  where
    all : (b : Bool) (names : List Text) → names_in b ≡ some names → AllNames names
    all false names e = cc
    all true names e =
        let same : codes "." ∷ codes "a" ∷ codes "b" ∷ [] ≡ names = cc in
        subst AllNames same (refl, (refl, (refl, tt)))

abbrev start : Monitor
start = record { watch_items = []; snapshots = replicate 4 none; emitted = [] }

-- A file is written, then a second passes in which the other file grows.
abbrev written : Event
written = record {
  wd = 1;
  cookie = 0;
  len = 16;
  name = codes "a";
  moved_from = false;
  moved_to = false;
  delete = false;
  create = false;
  close_write = true;
  modify = false;
  is_dir = false;
}

abbrev wakes : List Wake
wakes = Wake.event (tree 1) 10 written ∷ Wake.timeout (tree 2) 1010 ∷ []

monitor_process_example :
    (r : Monitor × MoveRecord) × (monitor_process 513 (tree 1) (codes "/s") start wakes ≡ some r)
monitor_process_example =
    monitor_process-Ends 513 (tree 1) (codes "/s") start wakes (omega arith) (tree-IsTree 1)
      (tree-IsTree 1, (tree-IsTree 2, tt))

abbrev kinds : Option (Monitor × MoveRecord) → List ℕ
kinds none = []
kinds (some (m, move)) = map (λ task. task.event_type) m.emitted

-- Both files are reported at the start, the written one at the event, the other one at the poll.
kinds_run :
    kinds (monitor_process 4 (tree 1) (codes "/s") start wakes)
    ≡ event_fullscan ∷ event_fullscan ∷ event_modify ∷ event_modify ∷ []
unfolding monitor_process Text-discrete
kinds_run = refl

-- What the first scan leaves in the table.
abbrev entry : Text → Text → FileSnapshot
entry rel src = record {
  seen = true;
  rel_path = rel;
  src_path = src;
  size = 1;
  mtime = 5;
  mode = 0o100644;
  is_dir = false;
}

abbrev scanned : Monitor
scanned = record start {
  snapshots =
      none
      ∷ some (entry (codes "b") (codes "/s/b"))
      ∷ some (entry (codes "a") (codes "/s/a"))
      ∷ none
      ∷ [];
}

scanned-AllCurrent : AllCurrent (listing 513 (tree 1) (codes "/s") (codes "/s")) scanned.snapshots
unfolding listing build_task_from_path join_path Text-discrete
scanned-AllCurrent = (refl, (refl, tt))

scanned-AllNamed : AllNamed (listing 513 (tree 1) (codes "/s") (codes "/s")) scanned.snapshots
unfolding listing build_task_from_path join_path Text-discrete
scanned-AllNamed = ((refl, tt), refl, (tt, refl, tt))

quiet_example :
    (table : Table) × (poll_scan_and_emit_changes 513 (tree 1) (codes "/s") scanned
      ≡ some (record scanned { snapshots = table }))
    × AllCurrent (listing 513 (tree 1) (codes "/s") (codes "/s")) table
quiet_example =
    poll_scan_and_emit_changes-quiet 513 (tree 1) (codes "/s") scanned (omega arith) (tree-IsTree 1)
      scanned-AllCurrent scanned-AllNamed
