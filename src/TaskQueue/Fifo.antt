-- ===== src/TaskQueue/Fifo.antt =====
-- The first-in first-out queue that src/task_queue.c is meant to be.
use mini_sync.Common.{
  ◌≡◌, sym, ap, inl, inr, Bool-cases, append-nil, append_assoc, arith, Bool, true, false, List, [],
  ◌∷◌, ◌++◌, if◌then◌else◌,
}
use mini_sync.Task.{SyncTask}
use mini_sync.TaskQueue.{PopReply, waits, finished, popped}

pub record Fifo : Type 0 where
  pub items : List SyncTask
  pub stopped : Bool

unfoldable pub push : Fifo → SyncTask → Bool × Fifo
push q task = if q.stopped then (false, q) else (true, record q { items = q.items ++ (task ∷ []) })

pop_items : List SyncTask → Bool → PopReply × Fifo
pop_items [] false = (waits, record { items = []; stopped = false })
pop_items [] true = (finished, record { items = []; stopped = true })
pop_items (task ∷ items) stopped = (popped task, record { items = items; stopped = stopped })

unfoldable pub pop : Fifo → PopReply × Fifo
unfolding pop_items
pop q = pop_items q.items q.stopped

unfoldable pub stop : Fifo → Fifo
stop q = record q { stopped = true }

-- The calls of the threads, in the order in which they get the mutex, and what each call returns.
pub data Call : Type 0 where
  push_call : SyncTask → Call
  pop_call : Call
  stop_call : Call

pub data Reply : Type 0 where
  push_reply : Bool → Reply
  pop_reply : PopReply → Reply
  stop_reply : Reply

unfoldable pub run : Fifo → List Call → List Reply × Fifo
unfolding push pop stop
run q [] = ([], q)
run q (push_call task ∷ calls) =
    let (done, q') = push q task in
    let (replies, end) = run q' calls in (push_reply done ∷ replies, end)
run q (pop_call ∷ calls) =
    let (reply, q') = pop q in let (replies, end) = run q' calls in (pop_reply reply ∷ replies, end)
run q (stop_call ∷ calls) = let (replies, end) = run (stop q) calls in (stop_reply ∷ replies, end)

-- The tasks that the calls accepted, and those that they handed out, in order.
abbrev pub accepted : List Call → List Reply → List SyncTask
accepted (push_call task ∷ calls) (push_reply done ∷ replies) =
    let rest = accepted calls replies in if done then task ∷ rest else rest
accepted (_ ∷ calls) (_ ∷ replies) = accepted calls replies
accepted _ _ = []

abbrev pub handed_out : List Reply → List SyncTask
handed_out [] = []
handed_out (pop_reply (popped task) ∷ replies) = task ∷ handed_out replies
handed_out (_ ∷ replies) = handed_out replies

abbrev Conserves : List Call → Fifo → Type 0
Conserves calls q =
    handed_out (run q calls).0 ++ (run q calls).1.items ≡ q.items ++ accepted calls (run q calls).0

Conserves-pop :
    (items : List SyncTask) (stopped : Bool) (calls : List Call)
    → Conserves calls (pop_items items stopped).1
    → handed_out (pop_reply (pop_items items stopped).0 ∷ (run (pop_items items stopped).1 calls).0)
        ++ (run (pop_items items stopped).1 calls).1.items
      ≡ items ++ accepted calls (run (pop_items items stopped).1 calls).0
unfolding pop_items
Conserves-pop [] false calls ih = ih
Conserves-pop [] true calls ih = ih
Conserves-pop (task ∷ items) stopped calls ih = ap (λ l. task ∷ l) ih

-- What was handed out, followed by what is still queued, is what was queued, followed by what was
-- accepted.
pub run-Conserves : (calls : List Call) (q : Fifo) → Conserves calls q
unfolding run
run-Conserves [] q = sym (append-nil q.items)
run-Conserves (push_call task ∷ calls) q = elim (Bool-cases q.stopped) [
  | inl halted ↦ ground (arith, run-Conserves calls q)
  | inr running ↦ ground (
    arith,
    run-Conserves calls (record q { items = q.items ++ (task ∷ []) }),
    append_assoc q.items (task ∷ [])
        (accepted calls (run (record q { items = q.items ++ (task ∷ []) }) calls).0),
  )
]
run-Conserves (pop_call ∷ calls) q =
    Conserves-pop q.items q.stopped calls (run-Conserves calls (pop_items q.items q.stopped).1)
run-Conserves (stop_call ∷ calls) q = run-Conserves calls (stop q)
