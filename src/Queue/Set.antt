-- ===== src/Queue/Set.antt =====
-- shell-operator/pkg/task/queue/queue_set.go: the named queues. A dictionary's order is one of
-- those in which Go ranges over the map; the handler of the queues is the operator's.
pub mod Wait
use argodemo.Common.{
  Option-cases, Bool-cases, any, refl, inl, inr, ◌>>=◌, ◌≡◌, ◌≢◌, ap, ◌↔◌, Bool, true, false, not,
  ◌&&◌, String, List, [], ◌∷◌, Option, some, none, Outcome, ok, panic, arith, if◌then◌else◌, ◌==◌,
  eq_refl, Dict, lookup, insert, delete, lookup-insert, lookup-delete,
}
use argodemo.Queue.{
  TaskQueue, Status, new_tasks_queue, with_context, stop_queue, Context, unset, live,
}

pub record TaskQueueSet : Type 0 where
  pub queues : Dict TaskQueue
  pub main_name : String
  pub context : Context

unfoldable pub new_task_queue_set : TaskQueueSet
new_task_queue_set = record { queues = []; main_name = ""; context = unset }

unfoldable pub with_main_name : TaskQueueSet → String → TaskQueueSet
with_main_name tqs name = record tqs { main_name = name }

unfoldable pub add : TaskQueueSet → TaskQueue → TaskQueueSet
add tqs q = record tqs { queues = insert q.name q tqs.queues }

-- A queue of the same name is replaced by an empty one, whose context is made from the set's.
unfoldable pub new_named_queue : TaskQueueSet → String → Outcome TaskQueueSet
unfolding new_tasks_queue with_context
new_named_queue tqs name = do
  q ← with_context tqs.context (record new_tasks_queue { name = name })
  ok (record tqs { queues = insert name q tqs.queues })

unfoldable pub get_by_name : TaskQueueSet → String → Option TaskQueue
get_by_name tqs name = lookup name tqs.queues

unfoldable pub get_main : TaskQueueSet → Option TaskQueue
unfolding get_by_name
get_main tqs = get_by_name tqs tqs.main_name

-- `Start` of one queue: its goroutine clears the status, and a second call does nothing.
unfoldable pub start_queue : TaskQueue → TaskQueue
start_queue q = if q.started then q else record q { status = Status.empty; started = true }

-- A missing queue is a nil pointer, which `Start` dereferences.
unfoldable pub start_by_name : TaskQueueSet → String → Outcome TaskQueueSet
unfolding start_queue
start_by_name tqs name = elim (lookup name tqs.queues) [
  | none ↦ panic
  | some q ↦ ok (record tqs { queues = insert name (start_queue q) tqs.queues })
]

unfoldable pub start_main : TaskQueueSet → Outcome TaskQueueSet
unfolding start_by_name
start_main tqs = start_by_name tqs tqs.main_name

abbrev each : (TaskQueue → TaskQueue) → Dict TaskQueue → Dict TaskQueue
each f [] = []
each f ((k, q) ∷ qs) = (k, f q) ∷ each f qs

-- `Start`.
unfoldable pub start_queues : TaskQueueSet → TaskQueueSet
unfolding start_queue
start_queues tqs = record tqs { queues = each start_queue tqs.queues }

-- `WithContext` of the set.
unfoldable pub with_set_context : TaskQueueSet → TaskQueueSet
with_set_context tqs = record tqs { context = live }

-- `Stop`. The contexts of the queues are made from that of the set, with which they are cancelled.
unfoldable pub stop_queues : TaskQueueSet → TaskQueueSet
unfolding stop_queue
stop_queues tqs = elim tqs.context [
  | unset ↦ tqs
  | _ ↦ record tqs { context = Context.done; queues = each stop_queue tqs.queues }
]

unfoldable pub others : String → Dict TaskQueue → List TaskQueue
others main [] = []
others main ((k, q) ∷ qs) = if not (q.name == main) then q ∷ others main qs else others main qs

-- The queues that `Iterate` visits, in its order.
unfoldable pub iterate : TaskQueueSet → List TaskQueue
unfolding get_main others
iterate tqs = elim (get_main tqs) [
  | none ↦ others tqs.main_name tqs.queues
  | some q ↦ q ∷ others tqs.main_name tqs.queues
]

-- The removed queue is cancelled; its goroutine keeps the pointer.
unfoldable pub remove_queue : TaskQueueSet → String → Option TaskQueue × TaskQueueSet
remove_queue tqs name = (
  elim (lookup name tqs.queues) [ none ↦ none | some q ↦ some (stop_queue q) ],
  record tqs { queues = delete name tqs.queues },
)

abbrev on_queue : (TaskQueue → TaskQueue) → Option TaskQueue → Option TaskQueue
on_queue f none = none
on_queue f (some q) = some (f q)

lookup-each :
    (f : TaskQueue → TaskQueue) (name : String) (qs : Dict TaskQueue)
    → lookup name (each f qs) ≡ on_queue f (lookup name qs)
unfolding lookup
lookup-each f name [] = refl
lookup-each f name ((k, q) ∷ qs) = elim (Bool-cases (k == name)) [
  | inl e ↦ rw e refl
  | inr e ↦ rw e (lookup-each f name qs)
]

-- `Start` starts each queue of the set, and `Stop` of a set with a running context cancels each.
get_by_name-stop_queues :
    (tqs : TaskQueueSet) (name : String)
    → tqs.context ≡ live
    → (get_by_name (start_queues tqs) name ≡ on_queue start_queue (get_by_name tqs name))
      × (get_by_name (stop_queues tqs) name ≡ on_queue stop_queue (get_by_name tqs name))
unfolding get_by_name start_queues stop_queues
get_by_name-stop_queues tqs name e =
    (lookup-each start_queue name tqs.queues, rw e (lookup-each stop_queue name tqs.queues))

-- An empty queue that is not started.
abbrev pub unstarted_queue : Context → String → TaskQueue
unstarted_queue context name = record {
  items = [];
  started = false;
  name = name;
  status = Status.empty;
  context = context;
}

with_context-set :
    (c : Context) (q : TaskQueue) → c ≢ unset → with_context c q ≡ ok (record q { context = c })
unfolding with_context
with_context-set unset q set = absurd (set refl)
with_context-set live q set = refl
with_context-set Context.done q set = refl

-- `NewNamedQueue` of a set with a context puts an empty queue with that context under the name.
pub new_named_queue-set :
    (tqs : TaskQueueSet) (name : String)
    → tqs.context ≢ unset
    → new_named_queue tqs name
      ≡ ok (record tqs { queues = insert name (unstarted_queue tqs.context name) tqs.queues })
unfolding new_named_queue new_tasks_queue
new_named_queue-set tqs name set =
    ap (λ o. o >>= λ q. ok (record tqs { queues = insert name q tqs.queues }))
      (with_context-set tqs.context (record new_tasks_queue { name = name }) set)

-- After `Remove` the name stands for no queue, and no other name is touched.
get_by_name-remove_queue :
    (tqs : TaskQueueSet) (name other : String)
    → get_by_name (remove_queue tqs name).1 other
      ≡ (if name == other then none else get_by_name tqs other)
unfolding get_by_name remove_queue
get_by_name-remove_queue tqs name other = lookup-delete name other tqs.queues

insert-insert :
    (k : String) (v w : TaskQueue) (m : Dict TaskQueue) → insert k v (insert k w m) ≡ insert k v m
unfolding insert
insert-insert k v w [] = ground (arith, eq_refl k)
insert-insert k v w ((j, u) ∷ m) = ground (arith, eq_refl k, insert-insert k v w m)

start_queue-start_queue : (q : TaskQueue) → start_queue (start_queue q) ≡ start_queue q
unfolding start_queue
start_queue-start_queue q = ground arith

-- A second start of a queue changes nothing, and a start panics exactly if there is no queue of
-- the name.
pub start_by_name-start_by_name :
    (tqs : TaskQueueSet) (name : String)
    → ((start_by_name tqs name >>= λ s. start_by_name s name) ≡ start_by_name tqs name)
      × ((start_by_name tqs name ≡ panic) ↔ (get_by_name tqs name ≡ none))
unfolding start_by_name get_by_name
start_by_name-start_by_name tqs name = elim (Option-cases (lookup name tqs.queues)) [
  | inl e ↦ (ground (arith, e), (λ _. e, λ _. ground (arith, e)))
  | inr (q, e) ↦ (
    ground (
      arith,
      e,
      lookup-insert name name (start_queue q) tqs.queues,
      eq_refl name,
      start_queue-start_queue q,
      insert-insert name (start_queue q) (start_queue q) tqs.queues,
    ),
    (λ h. ground (arith, e, h), λ h. ground (arith, e, h)),
  )
]
