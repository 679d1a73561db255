-- ===== src/TaskQueue/Cells.antt =====
-- The chain of nodes that a queue of src/task_queue.c consists of.
use mini_sync.Common.{
  ◌≡◌, refl, ◌≢◌, ap, Bool, true, false, ◌||◌, Option, none, some, List, [], ◌∷◌, ◌++◌, arith, ◌==◌,
}
use mini_sync.Task.{SyncTask}
use mini_sync.TaskQueue.{Ptr, null, TaskNode, Heap, update}

-- Address and task of each node, in order.
abbrev pub Cells : Type 0
Cells = List (Ptr × SyncTask)

abbrev pub has : Ptr → Cells → Bool
has a [] = false
has a ((p, _) ∷ cs) = a == p || has a cs

abbrev pub tasks : Cells → List SyncTask
tasks [] = []
tasks ((_, t) ∷ cs) = t ∷ tasks cs

-- The address of the last node, or NULL.
abbrev pub last_ptr : Cells → Ptr
last_ptr [] = null
last_ptr ((p, _) ∷ []) = p
last_ptr (_ ∷ c ∷ cs) = last_ptr (c ∷ cs)

-- From `p` the `next` pointers lead through the distinct nodes `cs` to NULL.
pub data Chain (h : Heap) : Ptr → Cells → Type 0 where
  nil : Chain h null []
  cons :
      {p q : Ptr} {t : SyncTask} {cs : Cells}
      → p ≢ null
      → h p ≡ some (record { task = t; next = q })
      → has p cs ≡ false
      → Chain h q cs
      → Chain h p ((p, t) ∷ cs)

-- A chain survives a write outside of it.
pub Chain-update :
    {h : Heap} {p : Ptr} {cs : Cells} (a : Ptr) (c : Option TaskNode)
    → Chain h p cs
    → has a cs ≡ false
    → Chain (update h a c) p cs
Chain-update a c nil out = nil
Chain-update a c (cons ne e new s) out =
    cons ne (ground arith) new (Chain-update a c s (ground arith))

pub has_of_none :
    {h : Heap} {p : Ptr} {cs : Cells} (a : Ptr) → Chain h p cs → h a ≡ none → has a cs ≡ false
has_of_none a nil free = refl
has_of_none a (cons ne e new s) free = ground (arith, has_of_none a s free)

has-append :
    (a b : Ptr) (t : SyncTask) (cs : Cells) → has a (cs ++ ((b, t) ∷ [])) ≡ (has a cs || a == b)
has-append a b t [] = ground arith
has-append a b t (c ∷ cs) = ground (arith, has-append a b t cs)

-- `last_ptr` is an address of the chain.
has-last_ptr : (c : Ptr × SyncTask) (cs : Cells) → has (last_ptr (c ∷ cs)) (c ∷ cs) ≡ true
has-last_ptr (p, t) [] = ground arith
has-last_ptr (p, t) (c ∷ cs) = ground (arith, has-last_ptr c cs)

pub last_ptr-snoc : (cs : Cells) (a : Ptr) (t : SyncTask) → last_ptr (cs ++ ((a, t) ∷ [])) ≡ a
last_ptr-snoc [] a t = refl
last_ptr-snoc (c ∷ []) a t = refl
last_ptr-snoc (c ∷ d ∷ cs) a t = last_ptr-snoc (d ∷ cs) a t

pub tasks-snoc :
    (cs : Cells) (a : Ptr) (t : SyncTask) → tasks (cs ++ ((a, t) ∷ [])) ≡ tasks cs ++ (t ∷ [])
tasks-snoc [] a t = refl
tasks-snoc ((_, u) ∷ cs) a t = ap (λ l. u ∷ l) (tasks-snoc cs a t)

-- The last node of a chain points nowhere.
pub last_node :
    {h : Heap} {p : Ptr} {c : Ptr × SyncTask} {cs : Cells}
    → Chain h p (c ∷ cs)
    → (u : SyncTask) × (h (last_ptr (c ∷ cs)) ≡ some (record { task = u; next = null }))
last_node (cons {p} {t} ne e new nil) = (t, e)
last_node (cons ne e new (cons ne' e' new' s)) = last_node (cons ne' e' new' s)

pub last_ptr-ne-null :
    {h : Heap} {p : Ptr} {c : Ptr × SyncTask} {cs : Cells}
    → Chain h p (c ∷ cs)
    → last_ptr (c ∷ cs) ≢ null
last_ptr-ne-null (cons ne e new nil) = ne
last_ptr-ne-null (cons ne e new (cons ne' e' new' s)) = last_ptr-ne-null (cons ne' e' new' s)

-- Linking a node behind the last one extends the chain by it.
pub Chain-link :
    {h : Heap} {p : Ptr} {c : Ptr × SyncTask} {cs : Cells} (a : Ptr) (t u : SyncTask)
    → Chain h p (c ∷ cs)
    → a ≢ null
    → has a (c ∷ cs) ≡ false
    → h a ≡ some (record { task = t; next = null })
    → h (last_ptr (c ∷ cs)) ≡ some (record { task = u; next = null })
    → Chain
        (update h (last_ptr (c ∷ cs)) (some (record { task = u; next = a })))
        p
        ((c ∷ cs) ++ ((a, t) ∷ []))
Chain-link a t u (cons {p} {t = v} ne e new nil) ok out at end =
    cons ne (ground arith) (ground arith) (cons ok (ground arith) refl nil)
Chain-link a t u (cons {p} {t = v} ne e new (cons {p = p'} {t = v'} {cs} ne' e' new' s)) ok out at
      end =
    cons ne (ground (arith, has-last_ptr (p', v') cs))
      (ground (arith, has-append p a t ((p', v') ∷ cs)))
      (Chain-link a t u (cons ne' e' new' s) ok (ground arith) at end)

-- The first node of a chain, and the chain behind it.
pub first_node :
    {h : Heap} {p a : Ptr} {t : SyncTask} {cs : Cells}
    → Chain h p ((a, t) ∷ cs)
    → (p ≡ a)
      × (p ≢ null)
      × (has a cs ≡ false)
      × ((q : Ptr) × (h p ≡ some (record { task = t; next = q })) × Chain h q cs)
first_node (cons {q} ne e new s) = (refl, ne, new, (q, e, s))

pub eq_null_of_nil : {h : Heap} {p : Ptr} → Chain h p [] → p ≡ null
eq_null_of_nil nil = refl
