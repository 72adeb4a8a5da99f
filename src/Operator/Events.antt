-- ===== src/Operator/Events.antt =====
-- shell-operator/pkg/shell-operator: tasks are made of the events of the managers, in
-- operator.go, `InitHookManager`, and put into the queues, in manager_events_handler.go.
use argodemo.Common.{
  arith, ℕ, ◌≡◌, String, List, [], ◌∷◌, ◌++◌, append-nil, append_assoc, none, some, if◌then◌else◌,
  ◌==◌, eq_iff, Dict, lookup, insert, lookup-insert, Option-cases, inl, inr,
}
use argodemo.Task.{Task, new_task, hook_run}
use argodemo.Task.Context.{BindingType}
use argodemo.Hook.Bindings.{BindingExecutionInfo}
use argodemo.Metrics.Storage.{merge_labels}
use argodemo.Queue.{TaskQueue, Slot, add_last}
use argodemo.Queue.Set.{TaskQueueSet, get_by_name}

-- A task to run a hook with an info: the fresh id, the name of the hook, the binding type, the
-- log labels of the event and the queue's name.
unfoldable pub hook_run_task :
    String → String → BindingType → Dict String → String → BindingExecutionInfo → Task
unfolding new_task merge_labels
hook_run_task id hook_name type labels queue info = record (new_task id hook_run) {
  metadata = some (record {
    hook_name = hook_name;
    binding = info.binding;
    group = info.group;
    binding_type = type;
    binding_context = info.binding_context;
    allow_failure = info.allow_failure;
  });
  log_labels = merge_labels (new_task id hook_run).log_labels labels;
  queue_name = queue;
}

-- The body of the loop of `Start`: a task with the time at which it is queued. A task for a queue
-- that does not exist is dropped.
unfoldable pub queue_task : TaskQueueSet → Task → ℕ → TaskQueueSet
unfolding get_by_name add_last
queue_task tqs t now = elim (get_by_name tqs t.queue_name) [
  | none ↦ tqs
  | some q ↦ record tqs {
    queues = insert t.queue_name (add_last q (record t { queued_at = now })) tqs.queues;
  }
]

unfoldable pub queue_tail_tasks : TaskQueueSet → List (Task × ℕ) → TaskQueueSet
unfolding queue_task
queue_tail_tasks tqs [] = tqs
queue_tail_tasks tqs ((t, now) ∷ ts) = queue_tail_tasks (queue_task tqs t now) ts

-- The slots of the tasks that name the queue, in order.
pub slots_for : String → List (Task × ℕ) → List Slot
slots_for name [] = []
slots_for name ((t, now) ∷ ts) =
    if t.queue_name == name
    then some (record t { queued_at = now }) ∷ slots_for name ts
    else slots_for name ts

pub append_slots : List Slot → TaskQueue → TaskQueue
append_slots ts q = record q { items = q.items ++ ts }

queue_task-get_by_name :
    (tqs : TaskQueueSet) (t : Task) (now : ℕ) (name : String)
    → get_by_name (queue_task tqs t now) name ≡ elim (get_by_name tqs name) [
      | none ↦ none
      | some q ↦ some (append_slots (slots_for name ((t, now) ∷ [])) q)
    ]
unfolding queue_task get_by_name append_slots slots_for add_last
queue_task-get_by_name tqs t now name = elim (Option-cases (lookup t.queue_name tqs.queues)) [
  | inl e ↦ (elim (Option-cases (lookup name tqs.queues)) [
    | inl f ↦ ground (arith, e, f)
    | inr (p, f) ↦ ground (arith, e, f, eq_iff t.queue_name name, append-nil p.items)
  ])
  | inr (q, e) ↦
      (let later : TaskQueue = add_last q (record t { queued_at = now }) in
        elim (Option-cases (lookup name tqs.queues)) [
          | inl f ↦ ground (
            arith,
            e,
            f,
            eq_iff t.queue_name name,
            lookup-insert t.queue_name name later tqs.queues,
          )
          | inr (p, f) ↦ ground (
            arith,
            e,
            f,
            eq_iff t.queue_name name,
            append-nil p.items,
            lookup-insert t.queue_name name later tqs.queues,
          )
        ])
]

-- After a batch of tasks is queued, each queue that was there holds at its tail exactly the tasks
-- of the batch that name it, in order, with their times, and no queue is made. So a task for a
-- queue that is not there is in none of them.
pub queue_tail_tasks-get_by_name :
    (tqs : TaskQueueSet) (ts : List (Task × ℕ)) (name : String)
    → get_by_name (queue_tail_tasks tqs ts) name ≡ elim (get_by_name tqs name) [
      | none ↦ none
      | some q ↦ some (append_slots (slots_for name ts) q)
    ]
unfolding queue_tail_tasks append_slots slots_for
queue_tail_tasks-get_by_name tqs [] name = elim (Option-cases (get_by_name tqs name)) [
  | inl e ↦ ground (arith, e)
  | inr (q, e) ↦ ground (arith, e, append-nil q.items)
]
queue_tail_tasks-get_by_name tqs ((t, now) ∷ ts) name = elim (Option-cases (get_by_name tqs name)) [
  | inl e ↦ ground (
    arith,
    e,
    queue_task-get_by_name tqs t now name,
    queue_tail_tasks-get_by_name (queue_task tqs t now) ts name,
  )
  | inr (q, e) ↦ ground (
    arith,
    e,
    queue_task-get_by_name tqs t now name,
    queue_tail_tasks-get_by_name (queue_task tqs t now) ts name,
    append-nil q.items,
    append_assoc q.items (slots_for name ((t, now) ∷ [])) (slots_for name ts),
  )
]
