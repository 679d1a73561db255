-- ===== src/Scheduler.antt =====
-- `scheduler_thread_main` of src/transfer.c: the thread that debounces events and feeds the queue.
-- The workers call the queue at any time (TaskQueue.Shared): what they do takes effect before the next call
-- of this thread. Only this thread stops the queue, and only it sets ctx->stop while it runs.
pub mod Events
pub mod Occurs
pub mod Steps
pub mod Delivery
use mini_sync.Common.{
  ℕ, Bool, true, false, not, ◌&&◌, ◌||◌, List, [], ◌∷◌, Text, text_eq, Text-discrete, ◌==◌,
  if◌then◌else◌,
}
use mini_sync.Task.{SyncTask, event_delete, event_rename, event_exit}
use mini_sync.TaskQueue.Shared
use mini_sync.TaskQueue.Shared.{Shared}
use mini_sync.Pending.{
  Table, pending_remove, pending_update_or_insert, pending_flush_stable_tasks, pending_flush_all,
  should_debounce,
}

-- The part of `TransferContext` that the thread works on.
pub record Context : Type 0 where
  pub table : Table
  pub queue : Shared
  pub stop : Bool

-- What a round of the loop meets: `select` is interrupted or fails, nothing arrives within the 100 ms,
-- the pipe is closed, or a task arrives. The times are those of the calls of current_time_ms.
pub data Round : Type 0 where
  interrupted : Round
  select_failed : Round
  quiet : (flushed_at : ℕ) → Round
  closed : Round
  event : SyncTask → (now flushed_at : ℕ) → Round

abbrev pub is_immediate : SyncTask → Bool
is_immediate task = task.event_type == event_delete || task.event_type == event_rename

abbrev pub is_named : Text → Bool
is_named [] = false
is_named (_ ∷ _) = true

-- The pending changes that a deletion or a renaming cancels.
unfoldable pub cancel_pending : SyncTask → Table → Table
unfolding pending_remove
cancel_pending task table =
    let table' = pending_remove table task.rel_path in
    if is_named task.old_rel_path then pending_remove table' task.old_rel_path else table'

-- The reaction to a task that is not EXIT.
unfoldable pub handle_task : SyncTask → ℕ → Context → Context
unfolding Shared.push cancel_pending pending_update_or_insert should_debounce
handle_task task now c =
    if is_immediate task
    then record c { table = cancel_pending task c.table; queue = (Shared.push c.queue task).1 }
    else if should_debounce task
    then record c { table = pending_update_or_insert c.table task now }
    else record c { queue = (Shared.push c.queue task).1 }

unfoldable pub flush : (debounce_ms now : ℕ) → Context → Context
unfolding pending_flush_stable_tasks
flush debounce_ms now c =
    let (table, queue) = pending_flush_stable_tasks c.table c.queue debounce_ms now in
    record c { table = table; queue = queue }

-- What follows the loop.
unfoldable pub finish : Context → Context
unfolding pending_flush_all Shared.stop
finish c =
    let (table, queue) = pending_flush_all c.table c.queue in
    record c { table = table; queue = Shared.stop queue; stop = true }

-- One round of the loop; true is a `break`.
unfoldable pub round : (debounce_ms : ℕ) → Round → Context → Bool × Context
unfolding handle_task flush
round debounce_ms interrupted c = (false, c)
round debounce_ms select_failed c = (true, c)
round debounce_ms closed c = (true, c)
round debounce_ms (quiet t) c = (false, flush debounce_ms t c)
round debounce_ms (event task now t) c =
    if task.event_type == event_exit
    then (true, c)
    else (false, flush debounce_ms t (handle_task task now c))

abbrev pub continue : (Context → Bool × Context) → Bool × Context → Bool × Context
continue next (true, c) = (true, finish c)
continue next (false, c) = next c

-- The rounds so far. The flag says whether the thread has ended.
unfoldable pub scheduler : (debounce_ms : ℕ) → List Round → Context → Bool × Context
unfolding round finish
scheduler debounce_ms [] c = if c.stop then (true, finish c) else (false, c)
scheduler debounce_ms (r ∷ rounds) c =
    if c.stop
    then (true, finish c)
    else continue (scheduler debounce_ms rounds) (round debounce_ms r c)
