-- ===== src/Worker/Shutdown.antt =====
-- What the workers of src/transfer.c do with the queue once `ctx->stop` is set.
use mini_sync.Common.{
  ℕ, zero, suc, ◌+◌, ◌≤◌, ◌≡◌, refl, Bool, true, false, List, [], ◌∷◌, arith, length,
}
use mini_sync.Task.{SyncTask}
use mini_sync.TaskQueue.Fifo
use mini_sync.TaskQueue.Fifo.{Fifo}
use mini_sync.Worker.{
  Phase, checking, popping, working, exited, popped_phase, requeue_or_fail, worker_step, pool_step,
  run_pool,
}

-- The workers that are already in `task_queue_pop`.
abbrev pub is_popping : Phase → ℕ
is_popping popping = 1
is_popping _ = 0

abbrev pub poppers : List Phase → ℕ
poppers [] = 0
poppers (w ∷ ws) = is_popping w + poppers ws

-- A step after the stop takes at most one task, and only of a worker that was in `task_queue_pop`.
abbrev Bounded : (before after : ℕ) → (q q' : Fifo) → Type 0
Bounded before after q q' =
    (length q.items + after ≤ length q'.items + before) × (q'.stopped ≡ true)

pop_items-Bounded :
    (items : List SyncTask) (stopped : Bool)
    → stopped ≡ true
    → let q : Fifo = record { items = items; stopped = stopped } in
      Bounded 1 (is_popping (popped_phase (Fifo.pop q).0)) q (Fifo.pop q).1
unfolding Fifo.pop
pop_items-Bounded [] false h = absurd (ground arith)
pop_items-Bounded [] true h = (omega arith, refl)
pop_items-Bounded (t ∷ items) stopped h = (omega arith, h)

requeue_stopped : (q : Fifo) (task : SyncTask) → q.stopped ≡ true → (requeue_or_fail q task).1 ≡ q
unfolding requeue_or_fail Fifo.push
requeue_stopped q task h = ground arith

pop-Bounded :
    (q : Fifo)
    → q.stopped ≡ true
    → Bounded 1 (is_popping (popped_phase (Fifo.pop q).0)) q (Fifo.pop q).1
unfolding Fifo.pop
pop-Bounded q h = pop_items-Bounded q.items q.stopped h

worker_step-Bounded :
    (synced : Bool) (w : Phase) (q : Fifo)
    → q.stopped ≡ true
    → let (w', q') = worker_step synced true w q in Bounded (is_popping w) (is_popping w') q q'
unfolding worker_step
worker_step-Bounded synced checking q h = (omega arith, h)
worker_step-Bounded synced popping q h = pop-Bounded q h
worker_step-Bounded synced (working task) q h = ground (arith, requeue_stopped q task h)
worker_step-Bounded synced exited q h = (omega arith, h)

pool_step-Bounded :
    (i : ℕ) (synced : Bool) (ws : List Phase) (q : Fifo)
    → q.stopped ≡ true
    → let (ws', q') = pool_step i synced true ws q in Bounded (poppers ws) (poppers ws') q q'
unfolding pool_step
pool_step-Bounded i synced [] q h = (omega arith, h)
pool_step-Bounded zero synced (w ∷ ws) q h =
    let (fewer, still) = worker_step-Bounded synced w q h in (omega (arith, fewer), still)
pool_step-Bounded (suc i) synced (w ∷ ws) q h =
    let (fewer, still) = pool_step-Bounded i synced ws q h in (omega (arith, fewer), still)

run_pool-Bounded :
    (schedule : List (ℕ × Bool)) (ws : List Phase) (q : Fifo)
    → q.stopped ≡ true
    → let (ws', q') = run_pool true schedule ws q in Bounded (poppers ws) (poppers ws') q q'
unfolding run_pool
run_pool-Bounded [] ws q h = (omega arith, h)
run_pool-Bounded ((i, synced) ∷ schedule) ws q h =
    let (fewer, still) = pool_step-Bounded i synced ws q h in
    let (rest, end) =
      run_pool-Bounded schedule (pool_step i synced true ws q).0 (pool_step i synced true ws q).1
        still in
    (omega (arith, fewer, rest), end)

poppers-le-length : (ws : List Phase) → poppers ws ≤ length ws
poppers-le-length [] = omega arith
poppers-le-length (checking ∷ ws) = omega (arith, poppers-le-length ws)
poppers-le-length (popping ∷ ws) = omega (arith, poppers-le-length ws)
poppers-le-length (working t ∷ ws) = omega (arith, poppers-le-length ws)
poppers-le-length (exited ∷ ws) = omega (arith, poppers-le-length ws)

-- Once `ctx->stop` is set and the queue is stopped, the workers take at most one task each from the queue,
-- and only those that were waiting in `task_queue_pop` do: every other queued task stays there, whatever
-- the schedule.
pub run_pool_strands :
    (schedule : List (ℕ × Bool)) (ws : List Phase) (q : Fifo)
    → q.stopped ≡ true
    → let q' = (run_pool true schedule ws q).1 in
      (length q.items ≤ length q'.items + poppers ws)
      × (length q.items ≤ length q'.items + length ws)
run_pool_strands schedule ws q h =
    let (fewer, _) = run_pool-Bounded schedule ws q h in
    (omega (arith, fewer), omega (arith, fewer, poppers-le-length ws))
