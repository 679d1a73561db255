-- ===== src/TaskQueue.antt =====
-- The queue of src/task_queue.c and include/task_queue.h: a singly linked list on the heap. Each function
-- holds the mutex from its first to its last access of the queue, so it is one step on the state; where
-- `task_queue_pop` would wait for the condition, the step says so and changes nothing.
pub mod Cells
pub mod Fifo
pub mod Refine
pub mod Run
pub mod Shared
pub mod Destroy
use mini_sync.Common.{
  ℕ, zero, suc, ◌+◌, ◌-◌, Bool, true, false, not, ◌&&◌, Option, none, some, ◌==◌, if◌then◌else◌,
}
use mini_sync.Task.{SyncTask}

abbrev pub Ptr : Type 0
Ptr = ℕ

abbrev pub null : Ptr
null = 0

pub record TaskNode : Type 0 where
  pub task : SyncTask
  pub next : Ptr

abbrev pub Heap : Type 0
Heap = Ptr → Option TaskNode

abbrev pub update : Heap → Ptr → Option TaskNode → Heap
update h p c a = if a == p then c else h a

-- The queue with the heap that its nodes lie on. The mutex and the condition have no state of their own
-- between two steps.
pub record TaskQueue : Type 0 where
  pub heap : Heap
  pub front : Ptr
  pub rear : Ptr
  pub size : ℕ
  pub stopped : Bool

-- `task_queue_init`
abbrev pub task_queue_init : Heap → TaskQueue
task_queue_init h = record { heap = h; front = null; rear = null; size = 0; stopped = false }

-- `q->rear->next = node` or `q->front = node`, then `q->rear = node; q->size++`. `none` is a dereference
-- of a pointer to no node.
link_last : TaskQueue → Ptr → Option TaskQueue
link_last q node =
    if q.rear == null
    then some (record q { front = node; rear = node; size = q.size + 1 })
    else elim (q.heap q.rear) [
      | none ↦ none
      | some last ↦ some (record q {
        heap = update q.heap q.rear (some (record last { next = node }));
        rear = node;
        size = q.size + 1;
      })
    ]

-- `node` is what calloc returns. The first result is true for 0 and false for -1.
unfoldable pub task_queue_push : (node : Ptr) → TaskQueue → SyncTask → Option (Bool × TaskQueue)
unfolding link_last
task_queue_push node q task =
    if node == null
    then some (false, q)
    else let filled = record q {
      heap = update q.heap node (some (record { task = task; next = null }));
    } in
      if q.stopped
      then some (false, record filled { heap = update filled.heap node none })
      else elim (link_last filled node) [ none ↦ none | some q' ↦ some (true, q') ]

pub data PopReply : Type 0 where
  -- The call waits on the condition.
  waits : PopReply
  -- It returns 0: the queue is stopped and empty.
  finished : PopReply
  -- It returns 1 with this task.
  popped : SyncTask → PopReply

unfoldable pub task_queue_pop : TaskQueue → Option (PopReply × TaskQueue)
task_queue_pop q =
    if q.size == 0 && not q.stopped
    then some (waits, q)
    else if q.size == 0 && q.stopped
    then some (finished, q)
    else elim (q.heap q.front) [
      | none ↦ none
      | some node ↦ some (
        popped node.task,
        record q {
          heap = update q.heap q.front none;
          front = node.next;
          rear = if node.next == null then null else q.rear;
          size = q.size - 1;
        },
      )
    ]

unfoldable pub task_queue_stop : TaskQueue → TaskQueue
task_queue_stop q = record q { stopped = true }

-- The loop of `task_queue_destroy` over the nodes, on fuel.
unfoldable pub free_nodes : ℕ → Heap → Ptr → Option Heap
free_nodes zero h node = none
free_nodes (suc fuel) h node =
    if node == null
    then some h
    else elim (h node) [ none ↦ none | some n ↦ free_nodes fuel (update h node none) n.next ]

unfoldable pub task_queue_destroy : ℕ → TaskQueue → Option TaskQueue
unfolding free_nodes
task_queue_destroy fuel q = elim (free_nodes fuel q.heap q.front) [
  | none ↦ none
  | some h ↦ some (record q { heap = h; front = null; rear = null; size = 0 })
]
