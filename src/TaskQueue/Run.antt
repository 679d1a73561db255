-- ===== src/TaskQueue/Run.antt =====
-- Sequences of calls of the queue of src/task_queue.c, from any threads, against those of Fifo.
use mathlib.Core.Path.{subst}
use mini_sync.Common.{◌≡◌, refl, ◌≢◌, sym, ap, ◌∙◌, Option, none, some, List, [], ◌∷◌, ◌++◌}
use mini_sync.TaskQueue.{Ptr, null, TaskQueue, task_queue_push, task_queue_pop, task_queue_stop}
use mini_sync.TaskQueue.Cells.{Cells, tasks}
use mini_sync.TaskQueue.Fifo
use mini_sync.TaskQueue.Fifo.{
  Fifo, Call, push_call, pop_call, stop_call, Reply, push_reply, pop_reply, stop_reply, accepted,
  handed_out, run-Conserves,
}
use mini_sync.TaskQueue.Refine.{IsQueue, view, Agrees, push_refines, pop_refines, stop_refines}

abbrev Outcome : Type 0
Outcome = Option (List Reply × TaskQueue)

abbrev after : Reply → Outcome → Outcome
after reply none = none
after reply (some (replies, q)) = some (reply ∷ replies, q)

abbrev after_call :
    {A : Type 0} → (A → Reply) → (TaskQueue → Outcome) → Option (A × TaskQueue) → Outcome
after_call reply next none = none
after_call reply next (some (a, q)) = after (reply a) (next q)

-- Each call comes with the address that calloc gives if it is a push.
abbrev pub Calls : Type 0
Calls = List (Ptr × Call)

abbrev pub calls_of : Calls → List Call
calls_of [] = []
calls_of ((_, c) ∷ calls) = c ∷ calls_of calls

-- `none` if a call dereferences a pointer to no node.
unfoldable pub run : TaskQueue → Calls → Outcome
unfolding task_queue_push task_queue_pop task_queue_stop
run q [] = some ([], q)
run q ((node, push_call task) ∷ calls) =
    after_call push_reply (λ q'. run q' calls) (task_queue_push node q task)
run q ((_, pop_call) ∷ calls) = after_call pop_reply (λ q'. run q' calls) (task_queue_pop q)
run q ((_, stop_call) ∷ calls) = after stop_reply (run (task_queue_stop q) calls)

abbrev pub state_after : {A : Type 0} → TaskQueue → Option (A × TaskQueue) → TaskQueue
state_after q none = q
state_after q (some (_, q')) = q'

-- calloc does not fail, and gives an address that is not in use at the time of the call.
unfoldable pub IsFresh : TaskQueue → Calls → Type 0
IsFresh q [] = Unit
IsFresh q ((node, push_call task) ∷ calls) =
    (node ≢ null)
    × (q.heap node ≡ none)
    × IsFresh (state_after q (task_queue_push node q task)) calls
IsFresh q ((_, pop_call) ∷ calls) = IsFresh (state_after q (task_queue_pop q)) calls
IsFresh q ((_, stop_call) ∷ calls) = IsFresh (task_queue_stop q) calls

run_refines :
    (calls : Calls) {q : TaskQueue} (cs : Cells)
    → IsQueue q cs
    → IsFresh q calls
    → Agrees (run q calls) (Fifo.run (view q cs) (calls_of calls))
unfolding run Fifo.run IsFresh
run_refines [] {q} cs v fresh = ([], q, cs, refl, v, refl)
run_refines ((node, push_call task) ∷ calls) {q} cs v (ne, unused, fresh) =
    let (done, q', cs', pushed, v', spec) = push_refines cs node task v ne unused in
    let (replies, q'', cs'', ran, v'', spec') =
      run_refines calls cs' v' (subst (λ r. IsFresh (state_after q r) calls) pushed fresh) in
    (
      push_reply done ∷ replies,
      q'',
      cs'',
      ap (after_call push_reply (λ p. run p calls)) pushed ∙ ap (after (push_reply done)) ran,
      v'',
      rw (spec, spec'),
    )
run_refines ((_, pop_call) ∷ calls) {q} cs v fresh =
    let (reply, q', cs', popped, v', spec) = pop_refines cs v in
    let (replies, q'', cs'', ran, v'', spec') =
      run_refines calls cs' v' (subst (λ r. IsFresh (state_after q r) calls) popped fresh) in
    (
      pop_reply reply ∷ replies,
      q'',
      cs'',
      ap (after_call pop_reply (λ p. run p calls)) popped ∙ ap (after (pop_reply reply)) ran,
      v'',
      rw (spec, spec'),
    )
run_refines ((_, stop_call) ∷ calls) {q} cs v fresh =
    let (v', spec) = stop_refines cs v in
    let (replies, q'', cs'', ran, v'', spec') = run_refines calls cs v' fresh in
    (stop_reply ∷ replies, q'', cs'', ap (after stop_reply) ran, v'', rw (← spec, spec'))

-- From a well-formed queue every sequence of calls, of whatever threads, runs without a stray dereference
-- and answers as the first-in first-out queue of the same tasks does, where calloc gives unused addresses.
-- The tasks handed out, followed by those still queued, are the tasks that were queued, followed by those
-- accepted, in order; the queue is well formed again.
pub run-Fifo :
    (calls : Calls) {q : TaskQueue} (cs : Cells)
    → IsQueue q cs
    → IsFresh q calls
    → (replies : List Reply) × (q' : TaskQueue) × (cs' : Cells) × (run q calls ≡ some (replies, q'))
      × (replies ≡ (Fifo.run (view q cs) (calls_of calls)).0)
      × (handed_out replies ++ tasks cs' ≡ tasks cs ++ accepted (calls_of calls) replies)
      × IsQueue q' cs'
run-Fifo calls {q} cs v fresh =
    let (replies, q', cs', ran, v', spec) = run_refines calls cs v fresh in
    let kept = run-Conserves (calls_of calls) (view q cs) in
    (
      replies,
      q',
      cs',
      ran,
      ap (λ e. e.0) (sym spec),
      subst (λ e. handed_out e.0 ++ e.1.items ≡ tasks cs ++ accepted (calls_of calls) e.0) spec
          kept,
      v',
    )
