-- ===== src/TaskQueue/Refine.antt =====
-- The calls of src/task_queue.c, one by one, against those of the queue of Fifo.
use mathlib.Core.Path.{subst}
use mini_sync.Common.{
  ◌+◌, ◌-◌, ◌≡◌, refl, ◌≢◌, inl, inr, Bool-cases, sym, ap, ◌∙◌, true, false, Option, none, some, [],
  ◌∷◌, ◌++◌, arith, length, length-append, ◌==◌,
}
use mini_sync.Task.{SyncTask}
use mini_sync.TaskQueue.{
  Ptr, null, Heap, update, TaskQueue, task_queue_init, link_last, task_queue_push, waits, finished,
  popped, task_queue_pop, task_queue_stop,
}
use mini_sync.TaskQueue.Cells.{
  Cells, has, tasks, last_ptr, Chain, nil, cons, Chain-update, has_of_none, last_ptr-snoc,
  tasks-snoc, first_node, eq_null_of_nil, last_node, last_ptr-ne-null, Chain-link,
}
use mini_sync.TaskQueue.Fifo
use mini_sync.TaskQueue.Fifo.{Fifo}

-- The representation invariant.
pub record IsQueue (q : TaskQueue) (cs : Cells) : Type 0 where
  pub chain : Chain q.heap q.front cs
  pub rear : q.rear ≡ last_ptr cs
  pub size : q.size ≡ length cs

abbrev pub view : TaskQueue → Cells → Fifo
view q cs = record { items = tasks cs; stopped = q.stopped }

-- The outcome of a call, and the queue that it leaves, are those of the first-in first-out queue.
abbrev pub Agrees : {A : Type 0} → Option (A × TaskQueue) → A × Fifo → Type 0
Agrees {A} r spec =
    (a : A) × (q : TaskQueue) × (cs : Cells) × (r ≡ some (a, q))
    × IsQueue q cs
    × (spec ≡ (a, view q cs))

link_last-IsQueue :
    {q : TaskQueue} (cs : Cells) (node : Ptr) (task : SyncTask)
    → IsQueue q cs
    → node ≢ null
    → has node cs ≡ false
    → q.heap node ≡ some (record { task = task; next = null })
    → (q' : TaskQueue) × (link_last q node ≡ some q')
      × IsQueue q' (cs ++ ((node, task) ∷ []))
      × (q'.stopped ≡ q.stopped)
unfolding link_last
link_last-IsQueue {q} [] node task v ne out at = (
  record q { front = node; rear = node; size = q.size + 1 },
  rw (v.rear, link_last),
  record { chain = cons ne at refl nil; rear = refl; size = omega (arith, v.size) },
  refl,
)
link_last-IsQueue {q} (c ∷ cs) node task v ne out at =
    let (u, end) = last_node v.chain in
    let some_rear : (q.rear == null) ≡ false = ground (arith, v.rear, last_ptr-ne-null v.chain) in
    let end' : q.heap q.rear ≡ some (record { task = u; next = null }) = ap q.heap v.rear ∙ end in
    (
      record q {
        heap = update q.heap q.rear (some (record { task = u; next = node }));
        rear = node;
        size = q.size + 1;
      },
      ground (arith, some_rear, end'),
      record {
        chain =
            subst
              (λ r.
                Chain (update q.heap r (some (record { task = u; next = node }))) q.front
                  ((c ∷ cs) ++ ((node, task) ∷ [])))
              (sym v.rear) (Chain-link node task u v.chain ne out at end);
        rear = sym (last_ptr-snoc (c ∷ cs) node task);
        size = omega (arith, v.size, length-append {0} (c ∷ cs) ((node, task) ∷ []));
      },
      refl,
    )

pub task_queue_init-IsQueue : (h : Heap) → IsQueue (task_queue_init h) []
task_queue_init-IsQueue h = record { chain = nil; rear = refl; size = refl }

-- The node of a push is unused: calloc gives the address of no node that is in use.
pub push_refines :
    {q : TaskQueue} (cs : Cells) (node : Ptr) (task : SyncTask)
    → IsQueue q cs
    → node ≢ null
    → q.heap node ≡ none
    → Agrees (task_queue_push node q task) (Fifo.push (view q cs) task)
unfolding task_queue_push Fifo.push
push_refines {q} cs node task v ne unused = elim (Bool-cases q.stopped) [
  | inl halted ↦ (
    false,
    record q {
      heap = update (update q.heap node (some (record { task = task; next = null }))) node none;
    },
    cs,
    ground arith,
    record {
      chain =
          Chain-update node none
            (Chain-update node (some (record { task = task; next = null })) v.chain new) new;
      rear = v.rear;
      size = v.size;
    },
    ground arith,
  )
  | inr running ↦
      let filled : TaskQueue = record q {
        heap = update q.heap node (some (record { task = task; next = null }));
      } in
      let ready : IsQueue filled cs = record {
        chain = Chain-update node (some (record { task = task; next = null })) v.chain new;
        rear = v.rear;
        size = v.size;
      } in
      let (q', linked, v', same) = link_last-IsQueue cs node task ready ne new (ground arith) in
      (
        true,
        q',
        cs ++ ((node, task) ∷ []),
        ground (arith, linked),
        v',
        ground (arith, same, tasks-snoc cs node task),
      )
]
  where
    new : has node cs ≡ false
    new = has_of_none node v.chain unused

pub pop_refines :
    {q : TaskQueue} (cs : Cells) → IsQueue q cs → Agrees (task_queue_pop q) (Fifo.pop (view q cs))
unfolding task_queue_pop Fifo.pop
pop_refines {q} [] v = elim (Bool-cases q.stopped) [
  | inl halted ↦ (finished, q, [], ground arith, v, ground arith)
  | inr running ↦ (waits, q, [], ground arith, v, ground arith)
]
pop_refines {q} ((p, t) ∷ []) v =
    let (at, ne, new, (next, holds, rest)) = first_node v.chain in
    (
      popped t,
      record q { heap = update q.heap q.front none; front = next; rear = null; size = q.size - 1 },
      [],
      ground (arith, eq_null_of_nil rest),
      record {
        chain =
            subst (λ a. Chain (update q.heap q.front none) a []) (sym (eq_null_of_nil rest)) nil;
        rear = refl;
        size = omega (arith, v.size);
      },
      refl,
    )
pop_refines {q} ((p, t) ∷ (p', t') ∷ cs) v =
    let (at, ne, new, (next, holds, rest)) = first_node v.chain in
    let (_, ne', _, _) = first_node rest in
    (
      popped t,
      record q { heap = update q.heap q.front none; front = next; size = q.size - 1 },
      (p', t') ∷ cs,
      ground arith,
      record {
        chain =
            Chain-update q.front none rest
              (subst (λ a. has a ((p', t') ∷ cs) ≡ false) (sym at) new);
        rear = v.rear;
        size = omega (arith, v.size);
      },
      refl,
    )

-- Stopping keeps the queued tasks.
pub stop_refines :
    {q : TaskQueue} (cs : Cells)
    → IsQueue q cs
    → IsQueue (task_queue_stop q) cs × (view (task_queue_stop q) cs ≡ Fifo.stop (view q cs))
unfolding task_queue_stop Fifo.stop
stop_refines cs v = (record { chain = v.chain; rear = v.rear; size = v.size }, refl)
