-- ===== src/Scheduler/Steps.antt =====
-- What each step of the scheduler of src/transfer.c does to a pending change: it stays pending or is queued.
use mathlib.Core.Path.{subst}
use mini_sync.Common.{
  ℕ, ◌+◌, ltb, ◌||◌, ◌≡◌, refl, ◌⊎◌, sym, ◌∙◌, inl, inr, Bool, false, some, List, [], ◌∷◌, ◌++◌,
  arith, Text, text_eq, ◌==◌, if◌then◌else◌, Bool-cases, Option-cases, append-nil,
}
use mini_sync.Task.{SyncTask, event_delete, event_rename}
use mini_sync.TaskQueue.Shared
use mini_sync.TaskQueue.Shared.{Moment, arrivals, later, requeued, history, Pushed, push-Pushed}
use mini_sync.Pending.{Table, entry_of, pending_update_or_insert, should_debounce}
use mini_sync.Pending.Find.{lookup, IsUnique, has_room}
use mini_sync.Pending.Flush.{unstable_only, stable_tasks, all_tasks, pending_flush_stable_tasks_lem}
use mini_sync.Pending.Unique.{pending_update_or_insert-Updates, pending_update_or_insert-full}
use mini_sync.Scheduler.{Context, Round, event, is_immediate, handle_task, flush, finish}
use mini_sync.Scheduler.Events.{
  IsRunning, DeletesOrRenames, is_immediate-true, cancels, handle_task_immediate, finish_lem,
}
use mini_sync.Scheduler.Occurs.{
  Occurs, Occurs-append_left, Occurs-append_right, Occurs-stable_tasks, Occurs-all_tasks, HasMemory,
  HasMemory-later, Occurs-arrivals,
}

-- The events that replace or cancel what is pending for a path.
abbrev pub concerns : SyncTask → Text → Bool
concerns task p =
    if task.event_type == event_delete || task.event_type == event_rename
    then cancels task p
    else text_eq task.rel_path p

abbrev pub Spares : Text → Round → Type 0
Spares p (event task _ _) = concerns task p ≡ false
Spares p _ = Unit

abbrev pub AllSpare : Text → List Round → Type 0
AllSpare p [] = Unit
AllSpare p (r ∷ rounds) = Spares p r × AllSpare p rounds

-- The task is pending for its path, or was queued.
abbrev pub Covered : SyncTask → Context → Type 0
Covered task c =
    ((n : ℕ) × (lookup c.table task.rel_path ≡ some (entry_of task n)))
    ⊎ Occurs task (history c.queue)

update_other :
    (table : Table) (t : SyncTask) (now : ℕ) (p : Text)
    → IsUnique table
    → text_eq t.rel_path p ≡ false
    → (lookup (pending_update_or_insert table t now) p ≡ lookup table p)
      × IsUnique (pending_update_or_insert table t now)
update_other table t now p u other = elim (Option-cases (lookup table t.rel_path)) [
  | inr (e, known) ↦
      let done = pending_update_or_insert-Updates table t now u (inl (λ new. cc)) in
      (ground (arith, done.lookup_after p), done.unique_after)
  | inl new ↦ elim (Bool-cases (has_room table)) [
    | inl room ↦
        let done = pending_update_or_insert-Updates table t now u (inr room) in
        (ground (arith, done.lookup_after p), done.unique_after)
    | inr full ↦
        let same = pending_update_or_insert-full table t now u new full in rw same (refl, u)
  ]
]

-- A step that keeps what is pending for the path and only adds to the queue, or moves what is pending for
-- the path to the queue.
abbrev Grows : Context → Context → Type 0
Grows c c' = (more : List SyncTask) × (history c'.queue ≡ history c.queue ++ more)

Covered-kept :
    (task : SyncTask) (c c' : Context)
    → lookup c'.table task.rel_path ≡ lookup c.table task.rel_path
    → Grows c c'
    → Covered task c
    → Covered task c'
Covered-kept task c c' same grows (inl (n, at)) = inl (n, same ∙ at)
Covered-kept task c c' same (more, e) (inr queued) =
    inr (Occurs-append_left task (history c.queue) more (history c'.queue) e queued)

-- The thread runs, and each `calloc` to come returns memory.
pub record IsFed (c : Context) : Type 0 where
  pub running : IsRunning c
  pub memory : HasMemory c.queue.ahead

Pushed-IsFed :
    (tasks : List SyncTask) (c c' : Context)
    → IsFed c
    → IsRunning c'
    → Pushed c.queue tasks c'.queue
    → IsFed c'
Pushed-IsFed tasks c c' v v' pushed = record {
  running = v';
  memory = subst HasMemory (sym pushed.left) (HasMemory-later tasks c.queue.ahead v.memory);
}

Pushed-Grows : (tasks : List SyncTask) (c c' : Context) → Pushed c.queue tasks c'.queue → Grows c c'
Pushed-Grows tasks c c' pushed = (arrivals c.queue.ahead tasks, pushed.queued)

is_immediate-cases : (t : SyncTask) → DeletesOrRenames t ⊎ (is_immediate t ≡ false)
is_immediate-cases t = elim (Bool-cases (t.event_type == event_delete)) [
  | inl deletes ↦ inl (inl (ground (arith, deletes)))
  | inr other ↦ elim (Bool-cases (t.event_type == event_rename)) [
    | inl renames ↦ inl (inr (ground (arith, renames)))
    | inr neither ↦ inr (ground (arith, other, neither))
  ]
]

handle_task_other :
    (t : SyncTask) (now : ℕ) (c : Context) (p : Text)
    → IsFed c
    → concerns t p ≡ false
    → IsFed (handle_task t now c)
      × (lookup (handle_task t now c).table p ≡ lookup c.table p)
      × Grows c (handle_task t now c)
unfolding handle_task
handle_task_other t now c p v spared = elim (is_immediate-cases t) [
  | inl kind ↦
      let (queued, looked, v') = handle_task_immediate t now c v.running kind in
      let imm = is_immediate-true t kind in
      (
        Pushed-IsFed (t ∷ []) c (handle_task t now c) v v' queued,
        looked p ∙ ground (arith, imm, spared),
        Pushed-Grows (t ∷ []) c (handle_task t now c) queued,
      )
  | inr late ↦ elim (Bool-cases (should_debounce t)) [
    | inl deb ↦
        let (same, u) = update_other c.table t now p v.running.unique (ground arith) in
        rw (late, deb, handle_task)
          (
            record {
              running = record {
                unique = u;
                open_queue = v.running.open_queue;
                going = v.running.going;
              };
              memory = v.memory;
            },
            same,
            ([], sym (append-nil (history c.queue))),
          )
    | inr plain ↦
        let queued = push-Pushed c.queue t v.running.open_queue in
        let c' : Context = record c { queue = (Shared.push c.queue t).1 } in
        rw (late, plain, handle_task)
          (
            Pushed-IsFed (t ∷ []) c c' v
                (record {
                  unique = v.running.unique;
                  open_queue = queued.running;
                  going = v.running.going;
                })
                queued,
            refl,
            Pushed-Grows (t ∷ []) c c' queued,
          )
  ]
]

pub handle_task-Covered :
    (task t : SyncTask) (now : ℕ) (c : Context)
    → IsFed c
    → concerns t task.rel_path ≡ false
    → Covered task c
    → IsFed (handle_task t now c) × Covered task (handle_task t now c)
handle_task-Covered task t now c v spared covered =
    let (v', same, grows) = handle_task_other t now c task.rel_path v spared in
    (v', Covered-kept task c (handle_task t now c) same grows covered)

flush_parts :
    (debounce_ms now : ℕ) (c : Context)
    → IsFed c
    → IsFed (flush debounce_ms now c)
      × Pushed c.queue (stable_tasks c.table debounce_ms now) (flush debounce_ms now c).queue
      × ((p : Text)
          → lookup (flush debounce_ms now c).table p
            ≡ unstable_only debounce_ms now (lookup c.table p))
unfolding flush
flush_parts debounce_ms now c v =
    let (queued, looked, u) =
      pending_flush_stable_tasks_lem c.table c.queue debounce_ms now v.running.unique
        v.running.open_queue in
    (
      Pushed-IsFed (stable_tasks c.table debounce_ms now) c (flush debounce_ms now c) v
          (record { unique = u; open_queue = queued.running; going = v.running.going }) queued,
      queued,
      looked,
    )

pub flush-Covered :
    (task : SyncTask) (debounce_ms now : ℕ) (c : Context)
    → IsFed c
    → Covered task c
    → IsFed (flush debounce_ms now c) × Covered task (flush debounce_ms now c)
flush-Covered task debounce_ms now c v (inr waiting) =
    let (v', queued, looked) = flush_parts debounce_ms now c v in
    (v', inr (Occurs-append_left task (history c.queue) _ _ queued.queued waiting))
flush-Covered task debounce_ms now c v (inl (n, at)) =
    let (v', queued, looked) = flush_parts debounce_ms now c v in
    elim (Bool-cases (ltb now (n + debounce_ms))) [
      | inl waits ↦ (v', inl (n, ground (arith, looked task.rel_path)))
      | inr stable ↦
          let (before, after, in_table) =
            Occurs-stable_tasks c.table task.rel_path (entry_of task n) debounce_ms now at stable in
          (
            v',
            inr (
                Occurs-append_right task (history c.queue) _ _ queued.queued (
                  subst (λ tasks. Occurs task (arrivals c.queue.ahead tasks)) (sym in_table)
                    (Occurs-arrivals task before after c.queue.ahead v.memory))),
          )
    ]

pub finish-Covered :
    (task : SyncTask) (c : Context)
    → IsFed c
    → Covered task c
    → Occurs task (history (finish c).queue)
finish-Covered task c v covered =
    let arrived = arrivals c.queue.ahead (all_tasks c.table) in
    let ended = (finish_lem c v.running.open_queue).0 in
    Occurs-append_left task (history c.queue ++ arrived) _ _ ended (before_stop covered)
  where
    before_stop :
        Covered task c → Occurs task (history c.queue ++ arrivals c.queue.ahead (all_tasks c.table))
    before_stop (inl (n, at)) =
        let (before, after, in_table) =
          Occurs-all_tasks c.table task.rel_path (entry_of task n) at in
        Occurs-append_right task (history c.queue) _ _ refl (
          subst (λ tasks. Occurs task (arrivals c.queue.ahead tasks)) (sym in_table)
            (Occurs-arrivals task before after c.queue.ahead v.memory))
    before_stop (inr queued) = Occurs-append_left task (history c.queue) _ _ refl queued
