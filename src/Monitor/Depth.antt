-- ===== src/Monitor/Depth.antt =====
-- The walks of src/monitor.c end: a path grows with every directory, and none has more than 511 bytes.
use mini_sync.Common.{
  ℕ, zero, suc, ◌+◌, ◌-◌, ◌<◌, ◌≡◌, refl, ap, Bool, true, false, ◌&&◌, Option, none, some, List, [],
  ◌∷◌, ◌++◌, arith, Text, length, length-append, ltb, ◌==◌, if◌then◌else◌, inl, inr, Bool-cases,
  Option-cases,
}
use mini_sync.Task.{event_modify, event_fullscan}
use mini_sync.FilePath.{slash, skip_slashes, is_slash_at, fits, join_path}
use mini_sync.FilePath.Relative.{fits-some}
use mini_sync.FilePath.Target.{max_path_len}
use mini_sync.Monitor.{Tree, Monitor, build_task_from_path, snapshot_mark_all_unseen}
use mini_sync.Monitor.Scan.{
  is_dots, for_entries, poll_path, poll_scan_path, poll_scan_and_emit_changes, add_watch_recursive,
  report, scan_path, scan_directory_and_emit_tasks, compare_snapshot,
}

-- The name of an entry of a directory: it is not empty and does not begin with a slash.
abbrev pub IsName : Text → Type 0
IsName [] = ⊥
IsName (c ∷ t) = (c == slash) ≡ false

abbrev pub AllNames : List Text → Type 0
AllNames [] = Unit
AllNames (name ∷ names) = IsName name × AllNames names

-- readdir(3) gives names.
abbrev pub IsTree : Tree → Type 0
IsTree tree = (dir : Text) (names : List Text) → tree.names dir ≡ some names → AllNames names

skip_slashes-IsName : (name : Text) → IsName name → skip_slashes name ≡ name
unfolding skip_slashes
skip_slashes-IsName [] plain = absurd plain
skip_slashes-IsName (c ∷ t) plain = rw (plain, skip_slashes) refl

length-IsName : (name : Text) → IsName name → 0 < length name
length-IsName [] plain = absurd plain
length-IsName (c ∷ t) plain = omega arith

-- The path of an entry is longer than that of its directory.
join_path-grows :
    (dir name path : Text)
    → IsName name
    → join_path max_path_len dir name ≡ some path
    → (length dir < length path) × (length path < 512)
unfolding join_path
join_path-grows dir name path plain at =
    elim (Bool-cases (ltb 0 (length dir) && is_slash_at dir (length dir - 1))) [
      | inl ends ↦
          let joined : fits 512 (dir ++ skip_slashes name) ≡ some path = ground (arith, at, ends) in
          let (same, short) = fits-some 512 (dir ++ skip_slashes name) path joined in
          (
            omega (
              arith,
              ap length same,
              length-append {0} dir (skip_slashes name),
              ap length (skip_slashes-IsName name plain),
              length-IsName name plain,
            ),
            omega (arith, short, ap length same),
          )
      | inr plain_end ↦
          let joined : fits 512 (dir ++ (slash ∷ skip_slashes name)) ≡ some path =
            ground (arith, at, plain_end) in
          let (same, short) = fits-some 512 (dir ++ (slash ∷ skip_slashes name)) path joined in
          (
            omega (arith, ap length same, length-append {0} dir (slash ∷ skip_slashes name)),
            omega (arith, short, ap length same),
          )
    ]

-- The walk has a result.
abbrev pub Ends {ℓ} : {A : Type ℓ} → Option A → Type ℓ
Ends {A = A} r = (a : A) × (r ≡ some a)

pub then-Ends :
    (r : Option Monitor) (k : Monitor → Option Monitor)
    → Ends r
    → ((m : Monitor) → Ends (k m))
    → Ends (elim r [ none ↦ none | some m ↦ k m ])
then-Ends r k (m, e) next = rw e (next m)

pub if-Ends :
    {A : Type 0} (b : Bool) (r r' : Option A) → Ends r → Ends r' → Ends (if b then r else r')
if-Ends true r r' h h' = h
if-Ends false r r' h h' = h'

for_entries-Ends :
    (visit : Text → Monitor → Option Monitor) (dir : Text)
    → ((path : Text) (m : Monitor)
        → length dir < length path
        → length path < 512
        → Ends (visit path m))
    → (names : List Text) → AllNames names
    → (m : Monitor) → Ends (for_entries visit dir names m)
unfolding for_entries
for_entries-Ends visit dir each [] all m = (m, refl)
for_entries-Ends visit dir each (name ∷ names) (plain, all) m = elim (Bool-cases (is_dots name)) [
  | inl dots ↦ rw dots (for_entries-Ends visit dir each names all m)
  | inr entry ↦ elim (Option-cases (join_path max_path_len dir name)) [
    | inl long ↦ rw (entry, long) (for_entries-Ends visit dir each names all m)
    | inr (path, at) ↦
        let (longer, short) = join_path-grows dir name path plain at in
        let (m', e) = each path m longer short in
        rw (entry, at, e) (for_entries-Ends visit dir each names all m')
  ]
]

-- Enough depth below a directory.
abbrev Deep : ℕ → Text → Type 0
Deep fuel dir = (0 < fuel) × (512 < fuel + length dir)

module _ (tree : Tree) (plain : IsTree tree) where
  -- A walk that visits the entries of each directory ends if each visit does.
  entries-Ends :
      (visit : Text → Monitor → Option Monitor) (dir : Text) (m : Monitor)
      → ((path : Text) (m' : Monitor)
          → length dir < length path
          → length path < 512
          → Ends (visit path m'))
      → (listing : Option (List Text)) → tree.names dir ≡ listing
      → Ends (elim listing [ none ↦ some m | some names ↦ for_entries visit dir names m ])
  entries-Ends visit dir m each none at = (m, refl)
  entries-Ends visit dir m each (some names) at =
      for_entries-Ends visit dir each names (plain dir names at) m

  poll_path-Ends :
      (root path : Text) (next : Text → Monitor → Option Monitor) (m : Monitor)
      → ((m' : Monitor) → Ends (next path m'))
      → Ends (poll_path tree root next path m)
  poll_path-Ends root path next m ends =
      elim (Option-cases (build_task_from_path tree event_modify root path)) [
        | inl skipped ↦ rw (skipped, poll_path) (m, refl)
        | inr (task, at) ↦
            rw (at, poll_path)
              (if-Ends task.is_dir (next path (compare_snapshot task m))
                (some (compare_snapshot task m)) (ends (compare_snapshot task m))
                (compare_snapshot task m, refl))
      ]

  pub poll_scan_path-Ends :
      (fuel : ℕ) (root dir : Text) (m : Monitor)
      → Deep fuel dir
      → Ends (poll_scan_path fuel tree root dir m)
  unfolding poll_scan_path
  poll_scan_path-Ends zero root dir m deep = absurd (omega (arith, deep.0))
  poll_scan_path-Ends (suc fuel) root dir m deep =
      entries-Ends (poll_path tree root (poll_scan_path fuel tree root)) dir m
        (λ path m' longer short. poll_path-Ends root path (poll_scan_path fuel tree root) m' (λ m''.
          poll_scan_path-Ends fuel root path m'' (omega (arith, deep.1), omega (arith, deep.1))))
        (tree.names dir) refl

  pub poll_scan_and_emit_changes-Ends :
      (fuel : ℕ) (root : Text) (m : Monitor)
      → 512 < fuel
      → Ends (poll_scan_and_emit_changes fuel tree root m)
  unfolding poll_scan_and_emit_changes
  poll_scan_and_emit_changes-Ends fuel root m deep =
      let (m', e) =
        poll_scan_path-Ends fuel root root
          (record m { snapshots = snapshot_mark_all_unseen m.snapshots })
          (omega (arith, deep), omega (arith, deep)) in
      rw (e, poll_scan_and_emit_changes) (_, refl)

  pub add_watch_recursive-Ends :
      (fuel : ℕ) (dir : Text) (m : Monitor)
      → Deep fuel dir
      → Ends (add_watch_recursive fuel tree dir m)
  unfolding add_watch_recursive
  add_watch_recursive-Ends zero dir m deep = absurd (omega (arith, deep.0))
  add_watch_recursive-Ends (suc fuel) dir m deep = elim (Option-cases (tree.names dir)) [
    | inl missing ↦ rw (missing, add_watch_recursive) (m, refl)
    | inr (names, at) ↦ elim (Option-cases (tree.add_watch dir)) [
      | inl unwatched ↦ rw (at, unwatched, add_watch_recursive) (m, refl)
      | inr (wd, watched) ↦
          rw (at, watched, add_watch_recursive)
            (for_entries-Ends _ dir
              (λ path m' longer short.
                if-Ends (tree.is_directory path) (add_watch_recursive fuel tree path m') (some m')
                  (add_watch_recursive-Ends fuel path m'
                    (omega (arith, deep.1), omega (arith, deep.1)))
                  (m', refl))
              names (plain dir names at) _)
    ]
  ]

  scan_path-Ends :
      (fuel : ℕ) (root path : Text) (next : Text → Monitor → Option Monitor) (m : Monitor)
      → Deep fuel path
      → ((m' : Monitor) → Ends (next path m'))
      → Ends (scan_path fuel tree root next path m)
  scan_path-Ends fuel root path next m deep ends =
      let m' = report (build_task_from_path tree event_fullscan root path) m in
      elim (Bool-cases (tree.is_directory path)) [
        | inl dir ↦
            rw dir (then-Ends _ (next path) (add_watch_recursive-Ends fuel path m' deep) ends)
        | inr file ↦ rw file (m', refl)
      ]

  pub scan_directory-Ends :
      (fuel : ℕ) (root dir : Text) (m : Monitor)
      → Deep fuel dir
      → Ends (scan_directory_and_emit_tasks fuel tree root dir m)
  unfolding scan_directory_and_emit_tasks
  scan_directory-Ends zero root dir m deep = absurd (omega (arith, deep.0))
  scan_directory-Ends (suc fuel) root dir m deep =
      entries-Ends (scan_path fuel tree root (scan_directory_and_emit_tasks fuel tree root)) dir m
        (λ path m' longer short.
          scan_path-Ends fuel root path (scan_directory_and_emit_tasks fuel tree root) m'
            (omega (arith, deep.1), omega (arith, deep.1))
            (λ m''.
              scan_directory-Ends fuel root path m''
                (omega (arith, deep.1), omega (arith, deep.1))))
        (tree.names dir) refl
