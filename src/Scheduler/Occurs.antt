-- ===== src/Scheduler/Occurs.antt =====
-- That a task stands in a list of tasks: in what a flush of src/transfer.c takes out of the debounce table, and in
-- what arrives in the queue.
use mini_sync.Common.{
  ℕ, suc, ◌+◌, ltb, not, ◌≡◌, refl, sym, ap, ◌∙◌, inl, inr, true, false, ◌&&◌, some, List, [], ◌∷◌,
  ◌++◌, arith, Text, if◌then◌else◌, Bool-cases, append_assoc,
}
use mini_sync.Task.{SyncTask}
use mini_sync.TaskQueue.Shared.{Moment, arrivals, later, requeued}
use mini_sync.Pending.{Table, PendingTask, holds}
use mini_sync.Pending.Find.{lookup}
use mini_sync.Pending.Flush.{stable_tasks, all_tasks}

-- The task stands in a list.
abbrev pub Occurs : SyncTask → List SyncTask → Type 0
Occurs task items =
    (before : List SyncTask) × (after : List SyncTask) × (items ≡ before ++ (task ∷ after))

pub Occurs-append_left :
    (task : SyncTask) (items more all : List SyncTask)
    → all ≡ items ++ more
    → Occurs task items
    → Occurs task all
Occurs-append_left task items more all e (before, after, at) =
    (before, after ++ more, e ∙ ap (λ l. l ++ more) at ∙ append_assoc before (task ∷ after) more)

pub Occurs-append_right :
    (task : SyncTask) (items more all : List SyncTask)
    → all ≡ items ++ more
    → Occurs task more
    → Occurs task all
Occurs-append_right task items more all e (before, after, at) = (
  items ++ before,
  after,
  e ∙ ap (λ l. items ++ l) at ∙ sym (append_assoc items before (task ∷ after)),
)

pub Occurs-stable_tasks :
    (table : Table) (p : Text) (e : PendingTask) (debounce_ms now : ℕ)
    → lookup table p ≡ some e
    → ltb now (e.last_update_ms + debounce_ms) ≡ false
    → Occurs e.task (stable_tasks table debounce_ms now)
Occurs-stable_tasks [] p e debounce_ms now at stable = cc
Occurs-stable_tasks (d ∷ table) p e debounce_ms now at stable = elim (Bool-cases (holds d p)) [
  | inl here ↦ ([], stable_tasks table debounce_ms now, ground arith)
  | inr there ↦
      let (before, after, later) =
        Occurs-stable_tasks table p e debounce_ms now (ground arith) stable in
      (
        (if d.used && not (ltb now (d.last_update_ms + debounce_ms))
            then d.task ∷ before
            else before),
        after,
        ground (arith, later),
      )
]

pub Occurs-all_tasks :
    (table : Table) (p : Text) (e : PendingTask)
    → lookup table p ≡ some e
    → Occurs e.task (all_tasks table)
Occurs-all_tasks [] p e at = cc
Occurs-all_tasks (d ∷ table) p e at = elim (Bool-cases (holds d p)) [
  | inl here ↦ ([], all_tasks table, ground arith)
  | inr there ↦
      let (before, after, later) = Occurs-all_tasks table p e (ground arith) in
      ((if d.used then d.task ∷ before else before), after, ground (arith, later))
]

-- Each `calloc` to come returns memory.
abbrev pub HasMemory : (ℕ → Moment) → Type 0
HasMemory ahead = (n : ℕ) → (ahead n).memory ≡ true

pub HasMemory-later :
    (tasks : List SyncTask) (ahead : ℕ → Moment) → HasMemory ahead → HasMemory (later tasks ahead)
HasMemory-later [] ahead all = all
HasMemory-later (_ ∷ tasks) ahead all =
    HasMemory-later tasks (λ n. ahead (suc n)) (λ n. all (suc n))

pub Occurs-arrivals :
    (task : SyncTask) (before after : List SyncTask) (ahead : ℕ → Moment)
    → HasMemory ahead
    → Occurs task (arrivals ahead (before ++ (task ∷ after)))
Occurs-arrivals task [] after ahead all =
    (requeued (ahead 0).others, arrivals (λ n. ahead (suc n)) after, rw (all 0) refl)
Occurs-arrivals task (first ∷ before) after ahead all =
    let (left, right, at) =
      Occurs-arrivals task before after (λ n. ahead (suc n)) (λ n. all (suc n)) in
    Occurs-append_right task (requeued (ahead 0).others) _ _ refl
      (rw (all 0) ((first ∷ left, right, ap (λ l. first ∷ l) at)))
