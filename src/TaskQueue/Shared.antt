-- ===== src/TaskQueue/Shared.antt =====
-- The queue of src/task_queue.c as the scheduler meets it: several workers take tasks from it and requeue
-- tasks while the scheduler runs, and the `calloc` of task_queue_push can fail.
use mini_sync.Common.{
  ℕ, suc, ◌≡◌, refl, sym, ap, ◌∙◌, inl, inr, Bool, false, List, [], ◌∷◌, ◌++◌, arith, append-nil,
  append_assoc, if◌then◌else◌, Bool-cases,
}
use mini_sync.Task.{SyncTask}
use mini_sync.TaskQueue.Fifo
use mini_sync.TaskQueue.Fifo.{Fifo}

-- What a worker does with the mutex: it takes the first task, if there is one, or requeues a task.
pub data WorkerCall : Type 0 where
  takes : WorkerCall
  requeues : SyncTask → WorkerCall

-- What goes with one call of the scheduler: whether `calloc` returns memory, and the calls of the workers
-- that get the mutex since the last call of the scheduler, in order.
pub record Moment : Type 0 where
  pub memory : Bool
  pub others : List WorkerCall

-- `taken` is what the workers have taken so far, in order; `ahead` is what goes with the calls to come.
pub record Shared : Type 0 where
  pub fifo : Fifo
  pub taken : List SyncTask
  pub ahead : ℕ → Moment

take_first : List SyncTask → Shared → Shared
take_first [] q = q
take_first (task ∷ items) q = record q {
  fifo = record q.fifo { items = items };
  taken = q.taken ++ (task ∷ []);
}

unfoldable pub work : List WorkerCall → Shared → Shared
unfolding take_first Fifo.push
work [] q = q
work (takes ∷ calls) q = work calls (take_first q.fifo.items q)
work (requeues task ∷ calls) q = work calls (record q { fifo = (Fifo.push q.fifo task).1 })

-- The workers' calls before the next call of the scheduler.
unfoldable pub next_turn : Shared → Shared
unfolding work
next_turn q = work (q.ahead 0).others (record q { ahead = λ n. q.ahead (suc n) })

unfoldable pub push : Shared → SyncTask → Bool × Shared
unfolding next_turn Fifo.push
push q task =
    let q' = next_turn q in
    let (accepted, fifo) = Fifo.push q'.fifo task in
    if (q.ahead 0).memory then (accepted, record q' { fifo = fifo }) else (false, q')

unfoldable pub stop : Shared → Shared
unfolding next_turn Fifo.stop
stop q = let q' = next_turn q in record q' { fifo = Fifo.stop q'.fifo }

-- All tasks that were queued so far, in order: those that a worker has taken, and those in the queue.
abbrev pub history : Shared → List SyncTask
history q = q.taken ++ q.fifo.items

abbrev pub requeued : List WorkerCall → List SyncTask
requeued [] = []
requeued (takes ∷ calls) = requeued calls
requeued (requeues task ∷ calls) = task ∷ requeued calls

-- What arrives in the queue when the scheduler pushes the tasks: each task for which `calloc` returns
-- memory, behind what the workers requeue before it.
abbrev pub arrivals : (ℕ → Moment) → List SyncTask → List SyncTask
arrivals ahead [] = []
arrivals ahead (task ∷ tasks) =
    let rest = arrivals (λ n. ahead (suc n)) tasks in
    requeued (ahead 0).others ++ (if (ahead 0).memory then task ∷ rest else rest)

take_first-keeps :
    (items : List SyncTask) (q : Shared)
    → q.fifo.items ≡ items
    → (history (take_first items q) ≡ history q)
      × ((take_first items q).fifo.stopped ≡ q.fifo.stopped)
      × ((take_first items q).ahead ≡ q.ahead)
unfolding take_first
take_first-keeps [] q e = (refl, refl, refl)
take_first-keeps (task ∷ items) q e =
    (append_assoc q.taken (task ∷ []) items ∙ ap (λ l. q.taken ++ l) (sym e), refl, refl)

pub work-history :
    (calls : List WorkerCall) (q : Shared)
    → q.fifo.stopped ≡ false
    → (history (work calls q) ≡ history q ++ requeued calls)
      × ((work calls q).fifo.stopped ≡ false)
      × ((work calls q).ahead ≡ q.ahead)
unfolding work Fifo.push
work-history [] q running = (sym (append-nil (history q)), running, refl)
work-history (takes ∷ calls) q running =
    let (same, stopped, ahead) = take_first-keeps q.fifo.items q refl in
    let (h, s, a) = work-history calls (take_first q.fifo.items q) (stopped ∙ running) in
    (h ∙ ap (λ l. l ++ requeued calls) same, s, a ∙ ahead)
work-history (requeues task ∷ calls) q running =
    let fifo = (Fifo.push q.fifo task).1 in
    let items : fifo.items ≡ q.fifo.items ++ (task ∷ []) = ground (arith, running) in
    let (h, s, a) = work-history calls (record q { fifo = fifo }) (ground (arith, running)) in
    (
      h
          ∙ ap (λ l. (q.taken ++ l) ++ requeued calls) items
          ∙ ap (λ l. l ++ requeued calls) (sym (append_assoc q.taken q.fifo.items (task ∷ [])))
          ∙ append_assoc (history q) (task ∷ []) (requeued calls),
      s,
      a,
    )

pub next_turn-history :
    (q : Shared)
    → q.fifo.stopped ≡ false
    → (history (next_turn q) ≡ history q ++ requeued (q.ahead 0).others)
      × ((next_turn q).fifo.stopped ≡ false)
      × ((next_turn q).ahead ≡ (λ n. q.ahead (suc n)))
unfolding next_turn
next_turn-history q running =
    work-history (q.ahead 0).others (record q { ahead = λ n. q.ahead (suc n) }) running

-- One push of the scheduler, with what the workers requeue before it; a failed `calloc` loses the task.
pub push-history :
    (q : Shared) (task : SyncTask)
    → q.fifo.stopped ≡ false
    → let q' = (push q task).1 in
      (history q' ≡ history q ++ arrivals q.ahead (task ∷ []))
      × (q'.fifo.stopped ≡ false)
      × (q'.ahead ≡ (λ n. q.ahead (suc n)))
unfolding push Fifo.push
push-history q task running =
    let (h, s, a) = next_turn-history q running in
    elim (Bool-cases (q.ahead 0).memory) [
      | inl memory ↦
          rw (memory, s, push, Fifo.push)
            (
              sym (append_assoc (next_turn q).taken (next_turn q).fifo.items (task ∷ []))
                  ∙ ap (λ l. l ++ (task ∷ [])) h
                  ∙ append_assoc (history q) (requeued (q.ahead 0).others) (task ∷ []),
              refl,
              a,
            )
      | inr lost ↦
          rw (lost, push)
            (h ∙ ap (λ l. history q ++ l) (sym (append-nil (requeued (q.ahead 0).others))), s, a)
    ]

-- What goes with the calls that follow one push of each of the tasks.
abbrev pub later : List SyncTask → (ℕ → Moment) → ℕ → Moment
later [] ahead = ahead
later (_ ∷ tasks) ahead = later tasks (λ n. ahead (suc n))

arrivals-cons :
    (ahead : ℕ → Moment) (task : SyncTask) (tasks : List SyncTask)
    → arrivals ahead (task ∷ tasks)
      ≡ arrivals ahead (task ∷ []) ++ arrivals (λ n. ahead (suc n)) tasks
arrivals-cons ahead task tasks =
    let rest = arrivals (λ n. ahead (suc n)) tasks in
    elim (Bool-cases (ahead 0).memory) [
      | inl memory ↦ rw memory (sym (append_assoc (requeued (ahead 0).others) (task ∷ []) rest))
      | inr lost ↦ rw lost (sym (ap (λ l. l ++ rest) (append-nil (requeued (ahead 0).others))))
    ]

-- The state after the scheduler has pushed the tasks.
pub record Pushed (q : Shared) (tasks : List SyncTask) (q' : Shared) : Type 0 where
  pub queued : history q' ≡ history q ++ arrivals q.ahead tasks
  pub running : q'.fifo.stopped ≡ false
  pub left : q'.ahead ≡ later tasks q.ahead

pub Pushed-nil : (q : Shared) → q.fifo.stopped ≡ false → Pushed q [] q
Pushed-nil q running = record {
  queued = sym (append-nil (history q));
  running = running;
  left = refl;
}

pub Pushed-cons :
    (q : Shared) (task : SyncTask) (tasks : List SyncTask) (q' : Shared)
    → q.fifo.stopped ≡ false
    → Pushed (push q task).1 tasks q'
    → Pushed q (task ∷ tasks) q'
Pushed-cons q task tasks q' running more =
    let (h, s, a) = push-history q task running in
    let first = arrivals q.ahead (task ∷ []) in
    record {
      queued =
          more.queued
          ∙ ap (λ ahead. history (push q task).1 ++ arrivals ahead tasks) a
          ∙ ap (λ l. l ++ arrivals (λ n. q.ahead (suc n)) tasks) h
          ∙ append_assoc (history q) first (arrivals (λ n. q.ahead (suc n)) tasks)
          ∙ ap (λ l. history q ++ l) (sym (arrivals-cons q.ahead task tasks));
      running = more.running;
      left = more.left ∙ ap (λ ahead. later tasks ahead) a;
    }

pub push-Pushed :
    (q : Shared) (task : SyncTask) → q.fifo.stopped ≡ false → Pushed q (task ∷ []) (push q task).1
push-Pushed q task running =
    Pushed-cons q task [] (push q task).1 running
      (Pushed-nil (push q task).1 (push-history q task running).1)
