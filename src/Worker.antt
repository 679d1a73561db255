-- ===== src/Worker.antt =====
-- The worker threads of src/transfer.c: worker_thread_main and requeue_or_fail. Steps of the workers
-- interleave freely; a step is what a thread does between two accesses of what the threads share.
pub mod Shutdown
pub mod Retry
use mini_sync.Common.{ℕ, zero, suc, ◌+◌, Bool, true, false, List, [], ◌∷◌, ltb, if◌then◌else◌}
use mini_sync.Task.{SyncTask, max_retry_count}
use mini_sync.TaskQueue.{PopReply, waits, finished, popped}
use mini_sync.TaskQueue.Fifo
use mini_sync.TaskQueue.Fifo.{Fifo}

-- Where a worker is: about to read `ctx->stop`, in task_queue_pop, at work on a task, or gone.
pub data Phase : Type 0 where
  checking : Phase
  popping : Phase
  working : SyncTask → Phase
  exited : Phase

-- `requeue_or_fail`: true if the task is tried again. The result of task_queue_push is not looked at.
unfoldable pub requeue_or_fail : Fifo → SyncTask → Bool × Fifo
unfolding Fifo.push
requeue_or_fail q task =
    if ltb task.retry_count max_retry_count
    then (true, (Fifo.push q (record task { retry_count = task.retry_count + 1 })).1)
    else (false, q)

abbrev pub popped_phase : PopReply → Phase
popped_phase waits = popping
popped_phase finished = exited
popped_phase (popped task) = working task

-- One step of a worker. `synced` is whether sync_task_local or sync_task_remote returns 0.
unfoldable pub worker_step : (synced stop : Bool) → Phase → Fifo → Phase × Fifo
unfolding requeue_or_fail Fifo.pop
worker_step synced stop checking q = (if stop then exited else popping, q)
worker_step synced stop popping q = let (reply, q') = Fifo.pop q in (popped_phase reply, q')
worker_step synced stop (working task) q =
    (checking, if synced then q else (requeue_or_fail q task).1)
worker_step synced stop exited q = (exited, q)

-- A step of the worker of a given index.
unfoldable pub pool_step : (i : ℕ) → (synced stop : Bool) → List Phase → Fifo → List Phase × Fifo
unfolding worker_step
pool_step i synced stop [] q = ([], q)
pool_step zero synced stop (w ∷ ws) q = let (w', q') = worker_step synced stop w q in (w' ∷ ws, q')
pool_step (suc i) synced stop (w ∷ ws) q =
    let (ws', q') = pool_step i synced stop ws q in (w ∷ ws', q')

-- A schedule: which worker makes the next step, and how its synchronisation ends if it is at work.
unfoldable pub run_pool : (stop : Bool) → List (ℕ × Bool) → List Phase → Fifo → List Phase × Fifo
unfolding pool_step
run_pool stop [] ws q = (ws, q)
run_pool stop ((i, synced) ∷ schedule) ws q =
    let (ws', q') = pool_step i synced stop ws q in run_pool stop schedule ws' q'
