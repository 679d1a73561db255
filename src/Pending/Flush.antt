-- ===== src/Pending/Flush.antt =====
-- The two flushes of src/transfer.c: what leaves the debounce table, and what stays.
use mini_sync.Common.{
  ℕ, ◌+◌, ltb, not, ◌≡◌, refl, inl, inr, true, false, ◌&&◌, Option, none, some, List, [], ◌∷◌,
  arith, Text, if◌then◌else◌, Bool-cases,
}
use mini_sync.Task.{SyncTask}
use mini_sync.TaskQueue.Shared
use mini_sync.TaskQueue.Shared.{
  Shared, Moment, arrivals, later, history, Pushed, Pushed-nil, Pushed-cons, push-Pushed,
}
use mini_sync.Pending.{PendingTask, Table, is_stable, pending_flush_stable_tasks, pending_flush_all}
use mini_sync.Pending.Find.{lookup, IsUnique}

-- The tasks whose path has been quiet for the debounce time, in the order of the table.
abbrev pub stable_tasks : Table → (debounce_ms now : ℕ) → List SyncTask
stable_tasks [] debounce_ms now = []
stable_tasks (e ∷ table) debounce_ms now =
    let rest = stable_tasks table debounce_ms now in
    if e.used && not (ltb now (e.last_update_ms + debounce_ms)) then e.task ∷ rest else rest

abbrev pub all_tasks : Table → List SyncTask
all_tasks [] = []
all_tasks (e ∷ table) = let rest = all_tasks table in if e.used then e.task ∷ rest else rest

-- What stays: the entry whose path was changed less than the debounce time ago.
abbrev pub unstable_only : (debounce_ms now : ℕ) → Option PendingTask → Option PendingTask
unstable_only debounce_ms now none = none
unstable_only debounce_ms now (some e) =
    if ltb now (e.last_update_ms + debounce_ms) then some e else none

flush_stable-Pushed :
    (table : Table) (q : Shared) (debounce_ms now : ℕ)
    → q.fifo.stopped ≡ false
    → Pushed q
        (stable_tasks table debounce_ms now)
        (pending_flush_stable_tasks table q debounce_ms now).1
unfolding pending_flush_stable_tasks
flush_stable-Pushed [] q debounce_ms now running = Pushed-nil q running
flush_stable-Pushed (e ∷ table) q debounce_ms now running =
    elim (Bool-cases (e.used && is_stable e debounce_ms now)) [
      | inl go ↦
          let due : (e.used && not (ltb now (e.last_update_ms + debounce_ms))) ≡ true =
            ground (arith, go) in
          rw (go, due, pending_flush_stable_tasks)
            (Pushed-cons q e.task (stable_tasks table debounce_ms now)
              (pending_flush_stable_tasks table (Shared.push q e.task).1 debounce_ms now).1 running
              (flush_stable-Pushed table (Shared.push q e.task).1 debounce_ms now
                (push-Pushed q e.task running).running))
      | inr stay ↦
          let early : (e.used && not (ltb now (e.last_update_ms + debounce_ms))) ≡ false =
            ground (arith, stay) in
          rw (stay, early, pending_flush_stable_tasks)
            (flush_stable-Pushed table q debounce_ms now running)
    ]

flush_stable-lookup :
    (table : Table) (q : Shared) (debounce_ms now : ℕ) (r : Text)
    → IsUnique table
    → lookup (pending_flush_stable_tasks table q debounce_ms now).0 r
      ≡ unstable_only debounce_ms now (lookup table r)
unfolding pending_flush_stable_tasks
flush_stable-lookup [] q debounce_ms now r u = refl
flush_stable-lookup (e ∷ table) q debounce_ms now r u =
    elim (Bool-cases (e.used && is_stable e debounce_ms now)) [
      | inl go ↦
          ground (arith, flush_stable-lookup table (Shared.push q e.task).1 debounce_ms now r u.1)
      | inr stay ↦ ground (arith, flush_stable-lookup table q debounce_ms now r u.1)
    ]

flush_stable-IsUnique :
    (table : Table) (q : Shared) (debounce_ms now : ℕ)
    → IsUnique table
    → IsUnique (pending_flush_stable_tasks table q debounce_ms now).0
unfolding pending_flush_stable_tasks
flush_stable-IsUnique [] q debounce_ms now u = tt
flush_stable-IsUnique (e ∷ table) q debounce_ms now u =
    elim (Bool-cases (e.used && is_stable e debounce_ms now)) [
      | inl go ↦
          ground (arith, flush_stable-IsUnique table (Shared.push q e.task).1 debounce_ms now u.1)
      | inr stay ↦ ground (
        arith,
        flush_stable-IsUnique table q debounce_ms now u.1,
        flush_stable-lookup table q debounce_ms now e.task.rel_path u.1,
      )
    ]

-- While the queue is not stopped and no two entries of the table share a path, a flush pushes exactly
-- the tasks whose path was last changed at least the debounce time before `now`, each once and in the
-- order of the table: what it adds to all that was ever queued is each of these tasks for which `calloc`
-- returns memory, behind what the workers requeue before that push. It takes exactly these out of the
-- table, pushed or lost: the entry of a path that was changed later stays as it is, and no two entries
-- share a path.
pub pending_flush_stable_tasks_lem :
    (table : Table) (q : Shared) (debounce_ms now : ℕ)
    → IsUnique table
    → q.fifo.stopped ≡ false
    → let (table', q') = pending_flush_stable_tasks table q debounce_ms now in
      Pushed q (stable_tasks table debounce_ms now) q'
      × ((r : Text) → lookup table' r ≡ unstable_only debounce_ms now (lookup table r))
      × IsUnique table'
pending_flush_stable_tasks_lem table q debounce_ms now u running = (
  flush_stable-Pushed table q debounce_ms now running,
  (λ r. flush_stable-lookup table q debounce_ms now r u),
  flush_stable-IsUnique table q debounce_ms now u,
)

-- The last flush pushes every pending task and leaves the table empty.
pub pending_flush_all_lem :
    (table : Table) (q : Shared)
    → q.fifo.stopped ≡ false
    → let (table', q') = pending_flush_all table q in
      Pushed q (all_tasks table) q' × (all_tasks table' ≡ [])
unfolding pending_flush_all
pending_flush_all_lem [] q running = (Pushed-nil q running, refl)
pending_flush_all_lem (e ∷ table) q running = elim (Bool-cases e.used) [
  | inl go ↦
      let (more, empty) =
        pending_flush_all_lem table (Shared.push q e.task).1
          (push-Pushed q e.task running).running in
      (
        rw (go, pending_flush_all)
            (Pushed-cons q e.task (all_tasks table)
              (pending_flush_all table (Shared.push q e.task).1).1 running more),
        ground (arith, empty),
      )
  | inr stay ↦
      let (more, empty) = pending_flush_all_lem table q running in
      (rw (stay, pending_flush_all) more, ground (arith, empty))
]
