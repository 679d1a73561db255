-- ===== src/Worker/Retry.antt =====
-- How often the workers of src/transfer.c try a task.
use mini_sync.Common.{
  ℕ, zero, suc, ◌+◌, ◌-◌, ◌*◌, ◌≤◌, ◌≡◌, refl, Bool, true, false, List, [], ◌∷◌, ◌++◌, arith,
  length,
}
use mini_sync.Task.{SyncTask, max_retry_count}
use mini_sync.TaskQueue.Fifo
use mini_sync.TaskQueue.Fifo.{Fifo}
use mini_sync.Worker.{
  Phase, checking, popping, working, exited, popped_phase, requeue_or_fail, worker_step, pool_step,
}

-- How often a task can still be tried.
abbrev pub tries_left : SyncTask → ℕ
tries_left task = suc (max_retry_count - task.retry_count)

abbrev pub queue_tries : List SyncTask → ℕ
queue_tries [] = 0
queue_tries (t ∷ ts) = tries_left t + queue_tries ts

abbrev pub worker_tries : List Phase → ℕ
worker_tries [] = 0
worker_tries (working t ∷ ws) = tries_left t + worker_tries ws
worker_tries (_ ∷ ws) = worker_tries ws

abbrev phase_tries : Phase → ℕ
phase_tries (working t) = tries_left t
phase_tries _ = 0

-- Whether the step of worker `i` is one call of sync_task_local or sync_task_remote.
abbrev pub is_attempt : ℕ → List Phase → ℕ
is_attempt i [] = 0
is_attempt zero (working t ∷ ws) = 1
is_attempt zero (_ ∷ ws) = 0
is_attempt (suc i) (_ ∷ ws) = is_attempt i ws

-- The number of attempts in a schedule.
pub attempts : (stop : Bool) → List (ℕ × Bool) → List Phase → Fifo → ℕ
attempts stop [] ws q = 0
attempts stop ((i, synced) ∷ schedule) ws q =
    let (ws', q') = pool_step i synced stop ws q in is_attempt i ws + attempts stop schedule ws' q'

queue_tries-append :
    (ts us : List SyncTask) → queue_tries (ts ++ us) ≡ queue_tries ts + queue_tries us
queue_tries-append [] us = omega arith
queue_tries-append (t ∷ ts) us = omega (arith, queue_tries-append ts us)

requeue-tries :
    (q : Fifo) (task : SyncTask)
    → suc (queue_tries (requeue_or_fail q task).1.items) ≤ queue_tries q.items + tries_left task
unfolding requeue_or_fail Fifo.push
requeue-tries q task =
    ground
      (arith, queue_tries-append q.items (record task { retry_count = task.retry_count + 1 } ∷ []))

pop-tries :
    (items : List SyncTask) (stopped : Bool)
    → let q : Fifo = record { items = items; stopped = stopped } in
      queue_tries (Fifo.pop q).1.items + phase_tries (popped_phase (Fifo.pop q).0)
      ≤ queue_tries items
unfolding Fifo.pop
pop-tries [] false = omega arith
pop-tries [] true = omega arith
pop-tries (t ∷ items) stopped = omega arith

abbrev attempt_of : Phase → ℕ
attempt_of (working t) = 1
attempt_of _ = 0

worker_step-tries :
    (synced stop : Bool) (w : Phase) (q : Fifo)
    → let (w', q') = worker_step synced stop w q in
      attempt_of w + queue_tries q'.items + phase_tries w' ≤ queue_tries q.items + phase_tries w
unfolding worker_step
worker_step-tries synced stop checking q = ground arith
worker_step-tries synced stop popping q = omega (arith, pop-tries q.items q.stopped)
worker_step-tries synced stop (working task) q = ground (arith, requeue-tries q task)
worker_step-tries synced stop exited q = omega arith

worker_tries-cons :
    (w : Phase) (ws : List Phase) → worker_tries (w ∷ ws) ≡ phase_tries w + worker_tries ws
worker_tries-cons checking ws = omega arith
worker_tries-cons popping ws = omega arith
worker_tries-cons (working t) ws = refl
worker_tries-cons exited ws = omega arith

is_attempt-zero : (w : Phase) (ws : List Phase) → is_attempt 0 (w ∷ ws) ≡ attempt_of w
is_attempt-zero checking ws = refl
is_attempt-zero popping ws = refl
is_attempt-zero (working t) ws = refl
is_attempt-zero exited ws = refl

pool_step-tries :
    (i : ℕ) (synced stop : Bool) (ws : List Phase) (q : Fifo)
    → let (ws', q') = pool_step i synced stop ws q in
      is_attempt i ws + queue_tries q'.items + worker_tries ws'
      ≤ queue_tries q.items + worker_tries ws
unfolding pool_step
pool_step-tries i synced stop [] q = omega arith
pool_step-tries zero synced stop (w ∷ ws) q = omega (
  arith,
  worker_step-tries synced stop w q,
  is_attempt-zero w ws,
  worker_tries-cons w ws,
  worker_tries-cons (worker_step synced stop w q).0 ws,
)
pool_step-tries (suc i) synced stop (w ∷ ws) q = omega (
  arith,
  pool_step-tries i synced stop ws q,
  worker_tries-cons w ws,
  worker_tries-cons w (pool_step i synced stop ws q).0,
)

-- Under every schedule the workers make, in all, no more attempts than the queued tasks and those at work
-- have tries left, whether they succeed or fail. A task has one try, and one for each retry not yet used.
pub attempts-le-tries :
    (stop : Bool) (schedule : List (ℕ × Bool)) (ws : List Phase) (q : Fifo)
    → attempts stop schedule ws q ≤ queue_tries q.items + worker_tries ws
unfolding attempts
attempts-le-tries stop [] ws q = omega arith
attempts-le-tries stop ((i, synced) ∷ schedule) ws q = omega (
  arith,
  pool_step-tries i synced stop ws q,
  attempts-le-tries stop schedule (pool_step i synced stop ws q).0 (pool_step i synced stop ws q).1,
)

queue_tries_fresh : (ts : List SyncTask) → queue_tries ts ≤ 4 * length ts
queue_tries_fresh [] = omega arith
queue_tries_fresh (t ∷ ts) = omega (arith, queue_tries_fresh ts)

-- So a pool that starts with idle workers makes at most four attempts for each queued task.
pub attempts-le-four_times :
    (stop : Bool) (schedule : List (ℕ × Bool)) (ws : List Phase) (q : Fifo)
    → worker_tries ws ≡ 0
    → attempts stop schedule ws q ≤ 4 * length q.items
attempts-le-four_times stop schedule ws q idle =
    omega (arith, attempts-le-tries stop schedule ws q, queue_tries_fresh q.items)
