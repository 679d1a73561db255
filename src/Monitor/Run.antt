-- ===== src/Monitor/Run.antt =====
-- monitor_process of src/monitor.c handles every sequence of events and polls to its end.
use mini_sync.Common.{
  ℕ, ◌<◌, ◌≡◌, refl, Bool, true, false, not, ◌&&◌, ◌||◌, Option, none, some, List, [], ◌∷◌, arith,
  Text, ◌==◌, inl, inr, Bool-cases, Option-cases,
}
use mini_sync.Task.{SyncTask}
use mini_sync.FilePath.{join_path}
use mini_sync.FilePath.Target.{max_path_len}
use mini_sync.Monitor.{Tree, Monitor, find_path_by_wd}
use mini_sync.Monitor.Scan.{scan_directory_and_emit_tasks}
use mini_sync.Monitor.Events.{
  Event, MoveRecord, no_move, watch_and_scan, with_move, handle_moved_to, handle_path, handle_event,
  Wake, expire_move, monitor_step, monitor_loop, monitor_process,
}
use mini_sync.Monitor.Depth.{
  IsTree, Ends, then-Ends, if-Ends, poll_scan_and_emit_changes-Ends, add_watch_recursive-Ends,
  scan_directory-Ends,
}

module _ (tree : Tree) (plain : IsTree tree) where
  watch_and_scan-Ends :
      (fuel : ℕ) (root path : Text) (dir : Bool) (m : Monitor)
      → 512 < fuel
      → Ends (watch_and_scan fuel tree root path dir m)
  watch_and_scan-Ends fuel root path false m deep = (m, refl)
  watch_and_scan-Ends fuel root path true m deep =
      then-Ends _ (scan_directory_and_emit_tasks fuel tree root path)
        (add_watch_recursive-Ends tree plain fuel path m (omega (arith, deep), omega (arith, deep)))
        (λ m'.
          scan_directory-Ends tree plain fuel root path m'
            (omega (arith, deep), omega (arith, deep)))

  with_move-Ends : (move : MoveRecord) (r : Option Monitor) → Ends r → Ends (with_move move r)
  with_move-Ends move r (m, e) = rw e ((m, move), refl)

  handle_moved_to-Ends :
      (fuel : ℕ) (root path : Text) (ev : Event) (m : Monitor) (move : MoveRecord)
      (task : Option SyncTask)
      → 512 < fuel
      → Ends (handle_moved_to fuel tree root path ev m move task)
  handle_moved_to-Ends fuel root path ev m move none deep = ((m, move), refl)
  handle_moved_to-Ends fuel root path ev m move (some task) deep =
      with_move-Ends no_move _ (watch_and_scan-Ends fuel root path ev.is_dir _ deep)

  handle_path-Ends :
      (fuel : ℕ) (root path : Text) (now_ms : ℕ) (ev : Event) (m : Monitor) (move : MoveRecord)
      → 512 < fuel
      → Ends (handle_path fuel tree root path now_ms ev m move)
  handle_path-Ends fuel root path now_ms ev m move deep =
      if-Ends ev.moved_from _ _ (_, refl)
        (if-Ends ev.moved_to _ _ (handle_moved_to-Ends fuel root path ev m move _ deep) (
          if-Ends ev.delete _ _ (_, refl)
            (if-Ends ev.create _ _
              (with_move-Ends move _ (watch_and_scan-Ends fuel root path ev.is_dir _ deep))
              (if-Ends ((ev.close_write || ev.modify) && not ev.is_dir) _ _ (_, refl) (_, refl)))))

  handle_event-Ends :
      (fuel : ℕ) (root : Text) (now_ms : ℕ) (ev : Event) (m : Monitor) (move : MoveRecord)
      → 512 < fuel
      → Ends (handle_event fuel tree root now_ms ev m move)
  unfolding handle_event
  handle_event-Ends fuel root now_ms ev m move deep = elim (Bool-cases (ev.len == 0)) [
    | inl nameless ↦ rw (nameless, handle_event) ((m, move), refl)
    | inr named ↦ elim (Option-cases (find_path_by_wd m.watch_items ev.wd)) [
      | inl unknown ↦ rw (named, unknown, handle_event) ((m, move), refl)
      | inr (parent, at) ↦ elim (Option-cases (join_path max_path_len parent ev.name)) [
        | inl long ↦ rw (named, at, long, handle_event) ((m, move), refl)
        | inr (path, joined) ↦
            rw (named, at, joined, handle_event)
              (handle_path-Ends fuel root path now_ms ev m move deep)
      ]
    ]
  ]

-- Every state of the directories that the monitor sees.
abbrev pub AllTrees : List Wake → Type 0
AllTrees [] = Unit
AllTrees (Wake.timeout tree now_ms ∷ wakes) = IsTree tree × AllTrees wakes
AllTrees (Wake.event tree now_ms ev ∷ wakes) = IsTree tree × AllTrees wakes

monitor_loop-Ends :
    (fuel : ℕ) (root : Text) (m : Monitor) (move : MoveRecord) (wakes : List Wake)
    → 512 < fuel
    → AllTrees wakes
    → Ends (monitor_loop fuel root m move wakes)
unfolding monitor_loop monitor_step
monitor_loop-Ends fuel root m move [] deep all = ((m, move), refl)
monitor_loop-Ends fuel root m move (Wake.timeout tree now_ms ∷ wakes) deep (plain, all) =
    let expired = expire_move root now_ms m move in
    let (m', e) = poll_scan_and_emit_changes-Ends tree plain fuel root expired.0 deep in
    rw (e, monitor_loop) (monitor_loop-Ends fuel root m' expired.1 wakes deep all)
monitor_loop-Ends fuel root m move (Wake.event tree now_ms ev ∷ wakes) deep (plain, all) =
    let ((m', move'), e) = handle_event-Ends tree plain fuel root now_ms ev m move deep in
    rw (e, monitor_loop) (monitor_loop-Ends fuel root m' move' wakes deep all)

-- Whatever the directories hold when the monitor looks, links that lead back included, and whatever events it reads:
-- each walk ends at a depth of at most 512, so the start, every event and every poll come to an end. What readdir
-- gives are names, not empty and without a slash at the beginning.
pub monitor_process-Ends :
    (fuel : ℕ) (tree : Tree) (root : Text) (m : Monitor) (wakes : List Wake)
    → 512 < fuel
    → IsTree tree
    → AllTrees wakes
    → (r : Monitor × MoveRecord) × (monitor_process fuel tree root m wakes ≡ some r)
unfolding monitor_process
monitor_process-Ends fuel tree root m wakes deep plain all =
    let (m', e) = watch_and_scan-Ends tree plain fuel root root true m deep in
    rw (e, monitor_process) (monitor_loop-Ends fuel root m' no_move wakes deep all)
