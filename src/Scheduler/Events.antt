-- ===== src/Scheduler/Events.antt =====
-- How the scheduler of src/transfer.c reacts to one event.
use mini_sync.Common.{
  ℕ, ◌≡◌, refl, ap, ◌∙◌, ◌≢◌, ◌⊎◌, inl, inr, Bool, true, false, not, ◌||◌, ◌&&◌, Text-discrete,
  none, some, [], ◌∷◌, ◌++◌, arith, Text, text_eq, if◌then◌else◌, Bool-cases,
}
use mini_sync.Task.{
  SyncTask, event_create, event_modify, event_delete, event_rename, event_fullscan,
}
use mini_sync.TaskQueue.Shared
use mini_sync.TaskQueue.Shared.{
  Pushed, push-Pushed, arrivals, later, requeued, history, next_turn-history,
}
use mini_sync.Pending.{Table, pending_flush_all, entry_of, pending_remove, should_debounce}
use mini_sync.Pending.Find.{lookup, IsUnique, has_room, pending_remove-Updates}
use mini_sync.Pending.Flush.{all_tasks, pending_flush_all_lem}
use mini_sync.Pending.Unique.{pending_update_or_insert-Updates}
use mini_sync.Scheduler.{Context, is_immediate, is_named, cancel_pending, handle_task, finish}

-- What holds while the thread runs.
pub record IsRunning (c : Context) : Type 0 where
  pub unique : IsUnique c.table
  pub open_queue : c.queue.fifo.stopped ≡ false
  pub going : c.stop ≡ false

-- The events that are queued at once, and those that are debounced.
abbrev pub DeletesOrRenames : SyncTask → Type 0
DeletesOrRenames task = (task.event_type ≡ event_delete) ⊎ (task.event_type ≡ event_rename)

abbrev pub Changes : SyncTask → Type 0
Changes task =
    (task.event_type ≡ event_create)
    ⊎ ((task.event_type ≡ event_modify) ⊎ (task.event_type ≡ event_fullscan))

-- The paths whose pending changes a deletion or a renaming cancels: its path, and its old path unless that
-- is empty.
abbrev pub cancels : SyncTask → Text → Bool
cancels task p =
    text_eq task.rel_path p || (not (text_eq task.old_rel_path []) && text_eq task.old_rel_path p)

is_named-text_eq : (p : Text) → is_named p ≡ not (text_eq p [])
unfolding Text-discrete
is_named-text_eq [] = refl
is_named-text_eq (_ ∷ _) = refl

pub is_immediate-true : (task : SyncTask) → DeletesOrRenames task → is_immediate task ≡ true
is_immediate-true task (inl deletes) = ground (arith, deletes)
is_immediate-true task (inr renames) = ground (arith, renames)

pub debounces :
    (task : SyncTask) → Changes task → (is_immediate task ≡ false) × (should_debounce task ≡ true)
unfolding should_debounce
debounces task (inl creates) = (ground (arith, creates), ground (arith, creates))
debounces task (inr (inl modifies)) = (ground (arith, modifies), ground (arith, modifies))
debounces task (inr (inr scans)) = (ground (arith, scans), ground (arith, scans))

cancel_pending-lookup :
    (task : SyncTask) (table : Table) (p : Text)
    → IsUnique table
    → lookup (cancel_pending task table) p ≡ (if cancels task p then none else lookup table p)
unfolding cancel_pending
cancel_pending-lookup task table p u =
    let first = pending_remove-Updates table task.rel_path u in
    let second =
      pending_remove-Updates (pending_remove table task.rel_path) task.old_rel_path
        first.unique_after in
    ground (arith, first.lookup_after p, second.lookup_after p, is_named-text_eq task.old_rel_path)

cancel_pending-IsUnique :
    (task : SyncTask) (table : Table) → IsUnique table → IsUnique (cancel_pending task table)
unfolding cancel_pending
cancel_pending-IsUnique task table u = elim (Bool-cases (is_named task.old_rel_path)) [
  | inl named ↦
      rw (named, cancel_pending)
        (pending_remove-Updates (pending_remove table task.rel_path) task.old_rel_path
          (pending_remove-Updates table task.rel_path u).unique_after).unique_after
  | inr alone ↦
      rw (alone, cancel_pending) (pending_remove-Updates table task.rel_path u).unique_after
]

-- While the thread runs and no two entries of the table share a path, a deletion or a renaming is pushed
-- at once, and this stays so: what it adds to all that was ever queued is the task, unless `calloc`
-- fails, behind what the workers requeue before it. No earlier change of its path, or of its old path if
-- that is not empty, stays pending; the pending changes of all other paths stay.
pub handle_task_immediate :
    (task : SyncTask) (now : ℕ) (c : Context)
    → IsRunning c
    → DeletesOrRenames task
    → let c' = handle_task task now c in
      Pushed c.queue (task ∷ []) c'.queue
      × ((p : Text) → lookup c'.table p ≡ (if cancels task p then none else lookup c.table p))
      × IsRunning c'
unfolding handle_task
handle_task_immediate task now c v kind =
    let imm = is_immediate-true task kind in
    let queued = push-Pushed c.queue task v.open_queue in
    rw (imm, handle_task)
      (
        queued,
        (λ p. cancel_pending-lookup task c.table p v.unique),
        record {
          unique = cancel_pending-IsUnique task c.table v.unique;
          open_queue = queued.running;
          going = v.going;
        },
      )

-- A debounced change becomes what is pending for its path; nothing is queued yet.
pub handle_task_debounced :
    (task : SyncTask) (now : ℕ) (c : Context)
    → IsRunning c
    → Changes task
    → (lookup c.table task.rel_path ≢ none) ⊎ (has_room c.table ≡ true)
    → let c' = handle_task task now c in
      (c'.queue ≡ c.queue)
      × ((p : Text)
          → lookup c'.table p
            ≡ (if text_eq task.rel_path p then some (entry_of task now) else lookup c.table p))
      × IsRunning c'
unfolding handle_task
handle_task_debounced task now c v kind room =
    let done = pending_update_or_insert-Updates c.table task now v.unique room in
    let (imm, deb) = debounces task kind in
    rw (imm, deb, handle_task)
      (
        refl,
        done.lookup_after,
        record { unique = done.unique_after; open_queue = v.open_queue; going = v.going },
      )

-- When the thread ends, with a queue that was not stopped before, every pending task has been pushed: what
-- this adds to all that was ever queued is each pending task for which `calloc` returns memory, behind what
-- the workers requeue before that push, and then what they requeue before the queue is stopped. The queue
-- is stopped, the flag that the workers read is set, and the table is empty.
pub finish_lem :
    (c : Context)
    → c.queue.fifo.stopped ≡ false
    → (history (finish c).queue
        ≡ (history c.queue ++ arrivals c.queue.ahead (all_tasks c.table))
          ++ requeued (later (all_tasks c.table) c.queue.ahead 0).others)
      × ((finish c).queue.fifo.stopped ≡ true)
      × ((finish c).stop ≡ true)
      × (all_tasks (finish c).table ≡ [])
unfolding finish Shared.stop
finish_lem c running =
    let (pushed, emptied) = pending_flush_all_lem c.table c.queue running in
    let q = (pending_flush_all c.table c.queue).1 in
    (
      (next_turn-history q pushed.running).0
          ∙ ap (λ ahead. history q ++ requeued (ahead 0).others) pushed.left
          ∙ ap (λ l. l ++ requeued (later (all_tasks c.table) c.queue.ahead 0).others)
              pushed.queued,
      refl,
      refl,
      emptied,
    )
