-- ===== src/Tests/Queue.antt =====
-- src/task_queue.c, and the debounce table, the scheduler and the workers of src/transfer.c at small
-- states.
use mini_sync.Common.{
  ◌+◌, ◌≤◌, ◌≡◌, refl, inl, inr, not, Bool, true, false, none, some, List, [], ◌∷◌, ◌++◌, arith,
  Text, Text-discrete, codes, length, ◌==◌, if◌then◌else◌,
}
use mini_sync.Task.{SyncTask, init_sync_task, event_create, event_modify, event_delete, event_exit}
use mini_sync.TaskQueue.{
  Ptr, null, Heap, TaskQueue, task_queue_init, task_queue_destroy, task_queue_push, task_queue_pop,
}
use mini_sync.TaskQueue.Cells.{Cells, has, tasks, nil, cons}
use mini_sync.TaskQueue.Fifo
use mini_sync.TaskQueue.Fifo.{
  Fifo, Call, push_call, pop_call, stop_call, Reply, push_reply, pop_reply, stop_reply, accepted,
  handed_out,
}
use mini_sync.TaskQueue.Refine.{IsQueue, view, task_queue_init-IsQueue}
use mini_sync.TaskQueue.Run.{Calls, calls_of, run, IsFresh, run-Fifo}
use mini_sync.TaskQueue.Destroy.{task_queue_destroy_lem}
use mini_sync.TaskQueue.Shared.{Shared, takes, requeues, history, arrivals, Pushed}
use mini_sync.Pending.{
  Table, cleared, entry_of, pending_update_or_insert, pending_flush_stable_tasks, pending_flush_all,
}
use mini_sync.Pending.Find.{lookup, IsUnique, Updates}
use mini_sync.Pending.Unique.{pending_update_or_insert-Updates, pending_update_or_insert-full}
use mini_sync.Pending.Flush.{stable_tasks, unstable_only, all_tasks, pending_flush_stable_tasks_lem}
use mini_sync.Scheduler.{Context, Round, interrupted, quiet, event, handle_task, finish, scheduler}
use mini_sync.Scheduler.Events.{IsRunning, cancels, handle_task_immediate, finish_lem}
use mini_sync.Scheduler.Occurs.{Occurs}
use mini_sync.Scheduler.Steps.{AllSpare}
use mini_sync.Scheduler.Delivery.{scheduler_delivers}
use mini_sync.Worker.{popping, working, run_pool}
use mini_sync.Worker.Shutdown.{run_pool_strands}
use mini_sync.Worker.Retry.{attempts, queue_tries, attempts-le-tries}

abbrev create_a : SyncTask
create_a = record init_sync_task { event_type = event_create; rel_path = codes "a" }

abbrev modify_b : SyncTask
modify_b = record init_sync_task { event_type = event_modify; rel_path = codes "b" }

abbrev delete_a : SyncTask
delete_a = record init_sync_task { event_type = event_delete; rel_path = codes "a" }

abbrev empty_heap : Heap
empty_heap p = none

abbrev some_calls : Calls
some_calls = (1, push_call create_a) ∷ (2, push_call modify_b) ∷ (0, pop_call) ∷ (0, stop_call) ∷ []

some_calls-IsFresh : IsFresh (task_queue_init empty_heap) some_calls
unfolding IsFresh task_queue_push task_queue_pop
some_calls-IsFresh = (omega arith, refl, (omega arith, refl, tt))

run-Fifo_example :
    (replies : List Reply) × (q' : TaskQueue) × (cs' : Cells) × (run
        (task_queue_init empty_heap)
        some_calls
      ≡ some (replies, q'))
    × (replies ≡ (Fifo.run (view (task_queue_init empty_heap) []) (calls_of some_calls)).0)
    × (handed_out replies ++ tasks cs' ≡ [] ++ accepted (calls_of some_calls) replies)
    × IsQueue q' cs'
run-Fifo_example = run-Fifo some_calls [] (task_queue_init-IsQueue empty_heap) some_calls-IsFresh

abbrev two_nodes : TaskQueue
two_nodes = record {
  heap = λ p.
      if p == 1
      then some (record { task = create_a; next = 2 })
      else if p == 2
      then some (record { task = modify_b; next = null })
      else none;
  front = 1;
  rear = 2;
  size = 2;
  stopped = true;
}

two_nodes-IsQueue : IsQueue two_nodes ((1, create_a) ∷ (2, modify_b) ∷ [])
two_nodes-IsQueue = record {
  chain = cons (omega arith) refl refl (cons (omega arith) refl refl nil);
  rear = refl;
  size = refl;
}

task_queue_destroy_example :
    (q' : TaskQueue) × (task_queue_destroy 3 two_nodes ≡ some q')
    × ((a : Ptr)
        → q'.heap a
          ≡ (if has a ((1, create_a) ∷ (2, modify_b) ∷ []) then none else two_nodes.heap a))
    × IsQueue q' []
task_queue_destroy_example =
    task_queue_destroy_lem ((1, create_a) ∷ (2, modify_b) ∷ []) 3 two_nodes-IsQueue (omega arith)

abbrev empty_fifo : Fifo
empty_fifo = record { items = []; stopped = false }

abbrev waiting : Table
waiting = entry_of create_a 100 ∷ cleared ∷ entry_of modify_b 700 ∷ []

waiting-IsUnique : IsUnique waiting
unfolding Text-discrete
waiting-IsUnique = ((λ h. refl), ((λ h. refl), ((λ h. refl), tt)))

update_example :
    Updates
      (codes "a")
      (some (entry_of delete_a 900))
      waiting
      (pending_update_or_insert waiting delete_a 900)
update_example = pending_update_or_insert-Updates waiting delete_a 900 waiting-IsUnique (inr refl)

abbrev full : Table
full = entry_of create_a 100 ∷ []

new_in_full : lookup full (codes "b") ≡ none
unfolding Text-discrete
new_in_full = refl

full-IsUnique : IsUnique full
full-IsUnique = (λ h. refl, tt)

dropped_example : pending_update_or_insert full modify_b 200 ≡ full
dropped_example = pending_update_or_insert-full full modify_b 200 full-IsUnique new_in_full refl

-- Before each call of the scheduler a worker takes a task and requeues another.
abbrev in_use : Shared
in_use = record {
  fifo = empty_fifo;
  taken = [];
  ahead = λ n. record { memory = true; others = takes ∷ requeues delete_a ∷ [] };
}

-- The first `calloc` of the flush fails, the others do not.
abbrev short_of_memory : Shared
short_of_memory = record in_use {
  ahead = λ n. record { memory = not (n == 0); others = takes ∷ [] };
}

lost : history (pending_flush_all waiting short_of_memory).1 ≡ modify_b ∷ []
unfolding pending_flush_all
lost = refl

flush_example :
    let (table', q') = pending_flush_stable_tasks waiting in_use 500 800 in
    Pushed in_use (stable_tasks waiting 500 800) q'
    × ((r : Text) → lookup table' r ≡ unstable_only 500 800 (lookup waiting r))
    × IsUnique table'
flush_example = pending_flush_stable_tasks_lem waiting in_use 500 800 waiting-IsUnique refl

abbrev started : Context
started = record { table = waiting; queue = in_use; stop = false }

started-IsRunning : IsRunning started
started-IsRunning = record { unique = waiting-IsUnique; open_queue = refl; going = refl }

immediate_example :
    let c' = handle_task delete_a 800 started in
    Pushed in_use (delete_a ∷ []) c'.queue
    × ((p : Text) → lookup c'.table p ≡ (if cancels delete_a p then none else lookup waiting p))
    × IsRunning c'
immediate_example = handle_task_immediate delete_a 800 started started-IsRunning (inl refl)

finish_example :
    (history (finish started).queue
      ≡ ([] ++ arrivals in_use.ahead (all_tasks waiting)) ++ (delete_a ∷ []))
    × ((finish started).queue.fifo.stopped ≡ true)
    × ((finish started).stop ≡ true)
    × (all_tasks (finish started).table ≡ [])
finish_example = finish_lem started refl

abbrev create_c : SyncTask
create_c = record init_sync_task { event_type = event_create; rel_path = codes "c" }

abbrev exit_task : SyncTask
exit_task = record init_sync_task { event_type = event_exit }

abbrev some_rounds : List Round
some_rounds =
    interrupted
    ∷ quiet 900
    ∷ event delete_a 1000 1000
    ∷ event modify_b 1200 1300
    ∷ event exit_task 1400 1400
    ∷ []

abbrev Ends : (List Round → Context → Bool × Context) → Type 0
Ends schedule = (schedule (event create_c 800 800 ∷ some_rounds) started).0 ≡ true

some_rounds-end : Ends (scheduler 500)
unfolding scheduler Text-discrete
some_rounds-end = refl

create_c-spared : AllSpare (codes "c") some_rounds
unfolding Text-discrete
create_c-spared = (tt, (tt, (refl, (refl, (refl, tt)))))

delivers_example :
    Occurs create_c (history (scheduler 500 (event create_c 800 800 ∷ some_rounds) started).1.queue)
delivers_example =
    scheduler_delivers 500 create_c 800 800 some_rounds started started-IsRunning (λ n. refl)
      (inl refl) (inr refl) create_c-spared some_rounds-end

abbrev flushed : Fifo
flushed = record { items = create_a ∷ modify_b ∷ create_c ∷ []; stopped = true }

-- One worker waits for a task, the other is at work; both go on for as long as they can.
strands_example :
    let q' =
      (run_pool true
        ((0, true) ∷ (0, true) ∷ (1, false) ∷ (0, true) ∷ [])
        (popping ∷ working delete_a ∷ [])
        flushed).1 in
    (3 ≤ length q'.items + 1) × (3 ≤ length q'.items + 2)
strands_example =
    run_pool_strands ((0, true) ∷ (0, true) ∷ (1, false) ∷ (0, true) ∷ [])
      (popping ∷ working delete_a ∷ []) flushed refl

attempts_example :
    attempts false
      ((0, true) ∷ (0, false) ∷ (0, false) ∷ [])
      (popping ∷ [])
      (record flushed { stopped = false })
    ≤ queue_tries (create_a ∷ modify_b ∷ create_c ∷ []) + 0
attempts_example =
    attempts-le-tries false ((0, true) ∷ (0, false) ∷ (0, false) ∷ []) (popping ∷ [])
      (record flushed { stopped = false })
