-- ===== src/Monitor/Listing.antt =====
-- poll_scan_path of src/monitor.c against a listing of the directories.
use mini_sync.Common.{
  ℕ, zero, suc, ◌≡◌, refl, ◌⊎◌, Bool, true, false, Option, none, some, List, [], ◌∷◌, ◌++◌, Text,
  if◌then◌else◌, inl, inr, Bool-cases, Option-cases,
}
use mini_sync.Task.{SyncTask, event_modify}
use mini_sync.FilePath.{join_path}
use mini_sync.FilePath.Target.{max_path_len}
use mini_sync.Monitor.{Tree, Monitor, build_task_from_path}
use mini_sync.Monitor.Scan.{is_dots, for_entries, compare_snapshot, poll_path, poll_scan_path}

-- What is visited below a directory, with the tasks that are built there, in the order of the walk.
abbrev listed : (visit : Text → List SyncTask) → (dir : Text) → List Text → List SyncTask
listed visit dir [] = []
listed visit dir (name ∷ names) =
    if is_dots name then listed visit dir names else elim (join_path max_path_len dir name) [
      | none ↦ listed visit dir names
      | some path ↦ visit path ++ listed visit dir names
    ]

abbrev listed_path :
    Tree → (root : Text) → (next : Text → List SyncTask) → (path : Text) → List SyncTask
listed_path tree root next path = elim (build_task_from_path tree event_modify root path) [
  | none ↦ []
  | some task ↦ task ∷ (if task.is_dir then next path else [])
]

-- The files below a directory, each as a task.
unfoldable pub listing : ℕ → Tree → (root dir : Text) → List SyncTask
listing zero tree root dir = []
listing (suc fuel) tree root dir = elim (tree.names dir) [
  | none ↦ []
  | some names ↦ listed (listed_path tree root (listing fuel tree root)) dir names
]

abbrev pub compare_all : List SyncTask → Monitor → Monitor
compare_all [] m = m
compare_all (task ∷ tasks) m = compare_all tasks (compare_snapshot task m)

compare_all-append :
    (xs ys : List SyncTask) (m : Monitor)
    → compare_all (xs ++ ys) m ≡ compare_all ys (compare_all xs m)
compare_all-append [] ys m = refl
compare_all-append (x ∷ xs) ys m = compare_all-append xs ys (compare_snapshot x m)

-- If a walk has a result, it is that of comparing what is listed.
abbrev pub Compares : List SyncTask → Monitor → Option Monitor → Type 0
Compares tasks m r = (r ≡ none) ⊎ (r ≡ some (compare_all tasks m))

for_entries-Compares :
    (visit : Text → Monitor → Option Monitor) (list : Text → List SyncTask) (dir : Text)
    → ((path : Text) (m : Monitor) → Compares (list path) m (visit path m))
    → (names : List Text) (m : Monitor)
    → Compares (listed list dir names) m (for_entries visit dir names m)
unfolding for_entries
for_entries-Compares visit list dir each [] m = inr refl
for_entries-Compares visit list dir each (name ∷ names) m = elim (Bool-cases (is_dots name)) [
  | inl dots ↦ rw dots (for_entries-Compares visit list dir each names m)
  | inr entry ↦ elim (Option-cases (join_path max_path_len dir name)) [
    | inl long ↦ rw (entry, long) (for_entries-Compares visit list dir each names m)
    | inr (path, at) ↦ elim (each path m) [
      | inl over ↦ rw (entry, at, over) (inl refl)
      | inr e ↦
          rw (entry, at, e, compare_all-append (list path) (listed list dir names) m)
            (for_entries-Compares visit list dir each names (compare_all (list path) m))
    ]
  ]
]

poll_path-Compares :
    (tree : Tree) (root path : Text) (next : Text → Monitor → Option Monitor)
    (list : Text → List SyncTask) (m : Monitor)
    → ((m' : Monitor) → Compares (list path) m' (next path m'))
    → Compares (listed_path tree root list path) m (poll_path tree root next path m)
poll_path-Compares tree root path next list m below =
    elim (Option-cases (build_task_from_path tree event_modify root path)) [
      | inl skipped ↦ rw (skipped, poll_path, listed_path) (inr refl)
      | inr (task, at) ↦ rw (at, poll_path, listed_path) (by_kind task task.is_dir)
    ]
  where
    by_kind :
        (task : SyncTask) (dir : Bool)
        → Compares
            (task ∷ (if dir then list path else []))
            m
            (if dir then next path (compare_snapshot task m) else some (compare_snapshot task m))
    by_kind task true = below (compare_snapshot task m)
    by_kind task false = inr refl

pub poll_scan_path-Compares :
    (fuel : ℕ) (tree : Tree) (root dir : Text) (m : Monitor)
    → Compares (listing fuel tree root dir) m (poll_scan_path fuel tree root dir m)
unfolding poll_scan_path listing
poll_scan_path-Compares zero tree root dir m = inl refl
poll_scan_path-Compares (suc fuel) tree root dir m = elim (Option-cases (tree.names dir)) [
  | inl missing ↦ rw (missing, poll_scan_path, listing) (inr refl)
  | inr (names, at) ↦
      rw (at, poll_scan_path, listing)
        (for_entries-Compares (poll_path tree root (poll_scan_path fuel tree root))
          (listed_path tree root (listing fuel tree root)) dir
          (λ path m'.
            poll_path-Compares tree root path (poll_scan_path fuel tree root)
              (listing fuel tree root) m' (λ m''. poll_scan_path-Compares fuel tree root path m''))
          names m)
]
