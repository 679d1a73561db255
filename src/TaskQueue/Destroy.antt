-- ===== src/TaskQueue/Destroy.antt =====
-- `task_queue_destroy` of src/task_queue.c and the nodes of the queue.
use mini_sync.Common.{ℕ, zero, suc, ◌<◌, ◌≡◌, refl, none, some, [], arith, length, if◌then◌else◌}
use mini_sync.TaskQueue.{Ptr, null, Heap, update, TaskQueue, free_nodes, task_queue_destroy}
use mini_sync.TaskQueue.Cells.{Cells, has, Chain, nil, cons, Chain-update}
use mini_sync.TaskQueue.Refine.{IsQueue}

Freed : Heap → Cells → Heap → Type 0
Freed h cs h' = (a : Ptr) → h' a ≡ (if has a cs then none else h a)

free_nodes_lem :
    {h : Heap} {p : Ptr} {cs : Cells} (fuel : ℕ)
    → Chain h p cs
    → length cs < fuel
    → (h' : Heap) × (free_nodes fuel h p ≡ some h') × Freed h cs h'
unfolding free_nodes Freed
free_nodes_lem zero s enough = absurd (omega arith)
free_nodes_lem {h} (suc fuel) nil enough = (h, refl, λ a. refl)
free_nodes_lem {h} {p} (suc fuel) (cons {q} {cs} ne e new s) enough =
    let (h', freed, at) =
      free_nodes_lem {h = update h p none} {p = q} {cs = cs} fuel (Chain-update p none s new)
        (omega arith) in
    (h', ground (arith, freed), λ a. ground (arith, at a))

-- Destroying a well-formed queue dereferences no stray pointer and ends, with one round for each node and
-- one more: the addresses of its nodes are free afterwards, every other address is as it was, and the
-- queue is empty.
pub task_queue_destroy_lem :
    {q : TaskQueue} (cs : Cells) (fuel : ℕ)
    → IsQueue q cs
    → length cs < fuel
    → (q' : TaskQueue) × (task_queue_destroy fuel q ≡ some q')
      × ((a : Ptr) → q'.heap a ≡ (if has a cs then none else q.heap a))
      × IsQueue q' []
unfolding task_queue_destroy Freed
task_queue_destroy_lem {q} cs fuel v enough =
    let (h', freed, at) = free_nodes_lem fuel v.chain enough in
    (
      record q { heap = h'; front = null; rear = null; size = 0 },
      rw (freed, task_queue_destroy),
      at,
      record { chain = nil; rear = refl; size = refl },
    )
