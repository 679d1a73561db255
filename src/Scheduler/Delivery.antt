-- ===== src/Scheduler/Delivery.antt =====
-- A debounced change in the scheduler of src/transfer.c, from its arrival to the end of the thread.
use mathlib.Core.Path.{subst}
use mini_sync.Common.{
  ℕ, ◌≡◌, ◌≢◌, ◌⊎◌, sym, ap, ◌∙◌, inl, inr, Bool, true, false, none, some, List, [], ◌∷◌, arith,
  ◌==◌, Bool-cases,
}
use mini_sync.Task.{SyncTask, event_exit}
use mini_sync.TaskQueue.Shared.{history}
use mini_sync.Pending.{entry_of, should_debounce}
use mini_sync.Pending.Find.{lookup, has_room}
use mini_sync.Scheduler.{
  Context, Round, interrupted, select_failed, quiet, closed, event, handle_task, flush, round,
  continue, scheduler,
}
use mini_sync.Scheduler.Events.{IsRunning, Changes, debounces, handle_task_debounced}
use mini_sync.Scheduler.Occurs.{Occurs, HasMemory}
use mini_sync.Scheduler.Steps.{
  Spares, AllSpare, Covered, IsFed, handle_task-Covered, flush-Covered, finish-Covered,
}

round-Covered :
    (debounce_ms : ℕ) (task : SyncTask) (r : Round) (c : Context)
    → IsFed c
    → Spares task.rel_path r
    → Covered task c
    → IsFed (round debounce_ms r c).1 × Covered task (round debounce_ms r c).1
unfolding round
round-Covered debounce_ms task interrupted c v spared covered = (v, covered)
round-Covered debounce_ms task select_failed c v spared covered = (v, covered)
round-Covered debounce_ms task closed c v spared covered = (v, covered)
round-Covered debounce_ms task (quiet t) c v spared covered =
    flush-Covered task debounce_ms t c v covered
round-Covered debounce_ms task (event e now t) c v spared covered =
    elim (Bool-cases (e.event_type == event_exit)) [
      | inl exit ↦ rw (exit, round) (v, covered)
      | inr other ↦
          let (v', covered') = handle_task-Covered task e now c v spared covered in
          rw (other, round) (flush-Covered task debounce_ms t (handle_task e now c) v' covered')
    ]

continue_ends :
    (task : SyncTask) (next : Context → Bool × Context) (broke : Bool) (c : Context)
    → IsFed c
    → Covered task c
    → ((next c).0 ≡ true → Occurs task (history (next c).1.queue))
    → (continue next (broke, c)).0 ≡ true
    → Occurs task (history (continue next (broke, c)).1.queue)
continue_ends task next true c v covered later ended = finish-Covered task c v covered
continue_ends task next false c v covered later ended = later ended

scheduler-running :
    (debounce_ms : ℕ) (r : Round) (rounds : List Round) (c : Context)
    → c.stop ≡ false
    → scheduler debounce_ms (r ∷ rounds) c
      ≡ continue (scheduler debounce_ms rounds) (round debounce_ms r c)
unfolding scheduler
scheduler-running debounce_ms r rounds c going = ground arith

scheduler-nil :
    (debounce_ms : ℕ) (c : Context) → c.stop ≡ false → (scheduler debounce_ms [] c).0 ≢ true
unfolding scheduler
scheduler-nil debounce_ms c going = ground arith

round_debounced :
    (debounce_ms : ℕ) (task : SyncTask) (now t : ℕ) (c : Context)
    → should_debounce task ≡ true
    → round debounce_ms (event task now t) c ≡ (false, flush debounce_ms t (handle_task task now c))
unfolding round should_debounce
round_debounced debounce_ms task now t c deb = ground arith

scheduler-Covered :
    (debounce_ms : ℕ) (task : SyncTask) (rounds : List Round) (c : Context)
    → IsFed c
    → AllSpare task.rel_path rounds
    → Covered task c
    → (scheduler debounce_ms rounds c).0 ≡ true
    → Occurs task (history (scheduler debounce_ms rounds c).1.queue)
scheduler-Covered debounce_ms task [] c v spared covered ended = absurd (not_ended ended)
  where
    not_ended : (scheduler debounce_ms [] c).0 ≢ true
    not_ended = scheduler-nil debounce_ms c v.running.going
scheduler-Covered debounce_ms task (r ∷ rounds) c v (here, spared) covered ended =
    let (v', covered') = round-Covered debounce_ms task r c v here covered in
    let unrolled = scheduler-running debounce_ms r rounds c v.running.going in
    subst (λ e. Occurs task (history e.1.queue)) (sym unrolled)
      (continue_ends task (scheduler debounce_ms rounds) (round debounce_ms r c).0
        (round debounce_ms r c).1 v' covered'
        (scheduler-Covered debounce_ms task rounds (round debounce_ms r c).1 v' spared covered')
        (sym (ap (λ e. e.0) unrolled) ∙ ended))

-- A creation, a modification or a full-scan event that finds room in the table is queued by the time the
-- thread ends, so that it is in the queue or a worker has taken it. This holds whatever other events, quiet
-- rounds and interruptions come in between, whenever the table is flushed and whatever the workers take and
-- requeue meanwhile, if at the start neither the thread nor the queue is stopped and no two entries of the
-- table share a path, no `calloc` of task_queue_push fails and no event about the same path follows.
pub scheduler_delivers :
    (debounce_ms : ℕ) (task : SyncTask) (now t : ℕ) (rounds : List Round) (c : Context)
    → IsRunning c
    → HasMemory c.queue.ahead
    → Changes task
    → (lookup c.table task.rel_path ≢ none) ⊎ (has_room c.table ≡ true)
    → AllSpare task.rel_path rounds
    → (scheduler debounce_ms (event task now t ∷ rounds) c).0 ≡ true
    → Occurs task (history (scheduler debounce_ms (event task now t ∷ rounds) c).1.queue)
scheduler_delivers debounce_ms task now t rounds c v memory kind room spared ended =
    let (same, looked, v') = handle_task_debounced task now c v kind room in
    let at : lookup (handle_task task now c).table task.rel_path ≡ some (entry_of task now) =
      ground (arith, looked task.rel_path) in
    let fed : IsFed (handle_task task now c) = record {
      running = v';
      memory = subst (λ q. HasMemory q.ahead) (sym same) memory;
    } in
    let (v'', covered) =
      flush-Covered task debounce_ms t (handle_task task now c) fed (inl (now, at)) in
    let unrolled = scheduler-running debounce_ms (event task now t) rounds c v.going in
    let stepped = round_debounced debounce_ms task now t c (debounces task kind).1 in
    let whole = unrolled ∙ ap (continue (scheduler debounce_ms rounds)) stepped in
    subst (λ e. Occurs task (history e.1.queue)) (sym whole)
      (scheduler-Covered debounce_ms task rounds (flush debounce_ms t (handle_task task now c)) v''
        spared covered (sym (ap (λ e. e.0) whole) ∙ ended))
