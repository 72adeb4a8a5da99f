-- ===== src/Operator/Combine.antt =====
-- shell-operator/pkg/shell-operator/operator.go, `CombineBindingContextForHook`: the tasks that
-- follow a task for the same hook are merged into it.
pub mod Compact
pub mod Merge
use argodemo.Common.{
  ℕ, ◌≡◌, String, Bool, true, false, not, ◌&&◌, List, [], ◌∷◌, ◌++◌, Option, none, some,
  if◌then◌else◌, ◌==◌, Dict, lookup, insert, Outcome, ok, panic, ◌>>=◌,
}
use argodemo.Task.{
  Task, TaskType, HookMetadata, hook_run, enable_kubernetes_bindings, enable_schedule_bindings,
}
use argodemo.Task.Context.{BindingContext}
use argodemo.Queue.{TaskQueue, Slot, filter}
use argodemo.Queue.Set.{TaskQueueSet, get_by_name}

abbrev pub same_type : TaskType → TaskType → Bool
same_type hook_run hook_run = true
same_type enable_kubernetes_bindings enable_kubernetes_bindings = true
same_type enable_schedule_bindings enable_schedule_bindings = true
same_type _ _ = false

-- The task can be merged into one of type `type` for the hook.
abbrev pub combines : String → TaskType → (Task → Bool) → Task → Bool
combines hook type stop x = elim x.metadata [
  | none ↦ false
  | some m ↦ m.hook_name == hook && (same_type type x.type && not (stop x))
]

-- The iteration over the queue: `otherTasks`. Once it stops, the later slots are not looked at.
unfoldable pub other_tasks :
    String → TaskType → String → (Task → Bool) → List Slot → Outcome (List Task)
other_tasks id type hook stop [] = ok []
other_tasks id type hook stop (none ∷ ts) = panic
other_tasks id type hook stop (some x ∷ ts) =
    let later = other_tasks id type hook stop ts in
    if x.id == id
    then later
    else if combines hook type stop x
    then (later >>= λ r. ok (x ∷ r))
    else ok []

abbrev pub contexts_of : Task → List BindingContext
contexts_of x = elim x.metadata [ none ↦ [] | some m ↦ m.binding_context ]

unfoldable pub combined_context : List BindingContext → List Task → List BindingContext
combined_context bcs [] = bcs
combined_context bcs (x ∷ xs) = combined_context (bcs ++ contexts_of x) xs

-- `tasksFilter`
unfoldable pub mark : Dict Bool → List Task → Dict Bool
mark m [] = m
mark m (x ∷ xs) = mark (insert x.id false m) xs

unfoldable pub stays : Dict Bool → Slot → Outcome Bool
stays m none = panic
stays m (some x) = ok (elim (lookup x.id m) [ none ↦ true | some v ↦ v ])

-- A context is skipped if the next one is of the same group.
unfoldable pub compact : List BindingContext → List BindingContext
compact [] = []
compact (c ∷ []) = c ∷ []
compact (c ∷ d ∷ cs) =
    let later = compact (d ∷ cs) in
    if not (c.metadata.group == "") && d.metadata.group == c.metadata.group
    then later
    else c ∷ later

-- The contexts, or nil, and the queues without the merged tasks. The filtered queue is looked up
-- once more by the task's queue name; a nil queue panics there.
unfoldable pub combine_binding_context_for_hook :
    Option TaskQueue
    → Task
    → (Task → Bool)
    → TaskQueueSet
    → Outcome (Option (List BindingContext) × TaskQueueSet)
unfolding other_tasks combined_context mark stays compact
combine_binding_context_for_hook none t stop tqs = ok (none, tqs)
combine_binding_context_for_hook (some q) t stop tqs = elim t.metadata [
  | none ↦ ok (none, tqs)
  | some meta ↦ other_tasks t.id t.type meta.hook_name stop q.items >>= λ others. (elim others [
    | [] ↦ ok (none, tqs)
    | x ∷ xs ↦ (elim (get_by_name tqs t.queue_name) [
      | none ↦ panic
      | some p ↦ filter p (stays (mark (insert t.id true []) (x ∷ xs))) >>= λ p'. ok (
        some (compact (combined_context meta.binding_context (x ∷ xs))),
        record tqs { queues = insert t.queue_name p' tqs.queues },
      )
    ])
  ])
]
