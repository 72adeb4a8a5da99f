-- ===== src/Operator/Combine/Merge.antt =====
-- The tasks that are merged, and what is left of the queue.
use argodemo.Common.{
  sym, append-nil, ◌∙◌, ◌≡◌, refl, String, Bool, true, false, ◌||◌, List, [], ◌∷◌, ◌++◌,
  append_assoc, none, some, if◌then◌else◌, ◌==◌, eq_refl, arith, Dict, lookup, insert,
  lookup-insert, ok,
}
use argodemo.Task.{Task, TaskType, HookMetadata}
use argodemo.Task.Context.{BindingContext}
use argodemo.Queue.{TaskQueue, Slot, filter, filter_items}
use argodemo.Queue.Set.{TaskQueueSet, get_by_name}
use argodemo.Queue.Handle.Success.{slots}
use argodemo.Operator.Combine.{
  combines, other_tasks, contexts_of, combined_context, mark, stays, compact,
  combine_binding_context_for_hook,
}

abbrev pub has_id : String → List Task → Bool
has_id id [] = false
has_id id (x ∷ xs) = x.id == id || has_id id xs

-- Each of the tasks can be merged into one with the id, of the type and for the hook.
abbrev pub AllCombine : String → TaskType → String → (Task → Bool) → List Task → Type 0
AllCombine id type hook stop [] = Unit
AllCombine id type hook stop (x ∷ xs) =
    ((x.id == id) ≡ false) × ((combines hook type stop x ≡ true) × AllCombine id type hook stop xs)

-- The items end, or go on with a task that cannot be merged.
abbrev pub Blocked : String → TaskType → String → (Task → Bool) → List Slot → Type 0
Blocked id type hook stop [] = Unit
Blocked id type hook stop (none ∷ ts) = ⊥
Blocked id type hook stop (some x ∷ ts) =
    ((x.id == id) ≡ false) × (combines hook type stop x ≡ false)

other_tasks-Blocked :
    (id : String) (type : TaskType) (hook : String) (stop : Task → Bool) (rest : List Slot)
    → Blocked id type hook stop rest
    → other_tasks id type hook stop rest ≡ ok []
unfolding other_tasks
other_tasks-Blocked id type hook stop [] b = refl
other_tasks-Blocked id type hook stop (none ∷ ts) b = absurd b
other_tasks-Blocked id type hook stop (some x ∷ ts) b = rw (b.0, b.1)

other_tasks-split :
    (id : String) (type : TaskType) (hook : String) (stop : Task → Bool) (others : List Task)
    (rest : List Slot)
    → AllCombine id type hook stop others
    → Blocked id type hook stop rest
    → other_tasks id type hook stop (slots others ++ rest) ≡ ok others
unfolding other_tasks
other_tasks-split id type hook stop [] rest a b = other_tasks-Blocked id type hook stop rest b
other_tasks-split id type hook stop (x ∷ xs) rest a b =
    rw (a.0, a.1.0, other_tasks-split id type hook stop xs rest a.1.1 b)

lookup-mark :
    (k : String) (xs : List Task) (m : Dict Bool)
    → lookup k (mark m xs) ≡ (if has_id k xs then some false else lookup k m)
unfolding mark
lookup-mark k [] m = refl
lookup-mark k (x ∷ xs) m =
    lookup-mark k xs (insert x.id false m) ∙ ground (arith, lookup-insert x.id k false m)

-- None of the items is nil or has the id of one of the tasks.
abbrev pub Foreign : List Task → List Slot → Type 0
Foreign xs [] = Unit
Foreign xs (none ∷ ts) = ⊥
Foreign xs (some y ∷ ts) = (has_id y.id xs ≡ false) × Foreign xs ts

abbrev marks : Task → List Task → Dict Bool
marks t xs = mark (insert t.id true []) xs

stays-other :
    (t : Task) (xs : List Task) (y : Task)
    → has_id y.id xs ≡ true
    → stays (marks t xs) (some y) ≡ ok false
unfolding stays
stays-other t xs y h = rw (lookup-mark y.id xs (insert t.id true []), h)

stays-foreign :
    (t : Task) (xs : List Task) (y : Task)
    → has_id y.id xs ≡ false
    → stays (marks t xs) (some y) ≡ ok true
unfolding stays lookup
stays-foreign t xs y h =
    ground (arith, lookup-mark y.id xs (insert t.id true []), lookup-insert t.id y.id true [], h)

filter-Foreign :
    (t : Task) (xs : List Task) (ts : List Slot)
    → Foreign xs ts
    → filter_items (stays (marks t xs)) ts ≡ ok ts
unfolding filter_items
filter-Foreign t xs [] f = refl
filter-Foreign t xs (none ∷ ts) f = absurd f
filter-Foreign t xs (some y ∷ ts) f = rw (stays-foreign t xs y f.0, filter-Foreign t xs ts f.1)

abbrev Inside : List Task → List Task → Type 0
Inside xs [] = Unit
Inside xs (y ∷ ys) = (has_id y.id xs ≡ true) × Inside xs ys

Inside-weaken : (x : Task) (xs ys : List Task) → Inside xs ys → Inside (x ∷ xs) ys
Inside-weaken x xs [] i = tt
Inside-weaken x xs (y ∷ ys) i = (ground (arith, i.0), Inside-weaken x xs ys i.1)

Inside-self : (xs : List Task) → Inside xs xs
Inside-self [] = tt
Inside-self (x ∷ xs) = (rw (eq_refl x.id), Inside-weaken x xs xs (Inside-self xs))

filter-Inside :
    (t : Task) (xs ys : List Task) (ts : List Slot)
    → Inside xs ys
    → Foreign xs ts
    → filter_items (stays (marks t xs)) (slots ys ++ ts) ≡ ok ts
unfolding filter_items
filter-Inside t xs [] ts i f = filter-Foreign t xs ts f
filter-Inside t xs (y ∷ ys) ts i f = rw (stays-other t xs y i.0, filter-Inside t xs ys ts i.1 f)

has_id-AllCombine :
    (id : String) (type : TaskType) (hook : String) (stop : Task → Bool) (xs : List Task)
    → AllCombine id type hook stop xs
    → has_id id xs ≡ false
has_id-AllCombine id type hook stop [] a = refl
has_id-AllCombine id type hook stop (x ∷ xs) a =
    rw (a.0, has_id-AllCombine id type hook stop xs a.1.1)

other_tasks_self :
    (t : Task) (hook : String) (stop : Task → Bool) (ts : List Slot)
    → other_tasks t.id t.type hook stop (some t ∷ ts) ≡ other_tasks t.id t.type hook stop ts
unfolding other_tasks
other_tasks_self t hook stop ts = rw (eq_refl t.id)

-- The contexts of the tasks in their order.
abbrev pub all_contexts : List Task → List BindingContext
all_contexts [] = []
all_contexts (x ∷ xs) = contexts_of x ++ all_contexts xs

combined_context_lem :
    (bcs : List BindingContext) (xs : List Task) → combined_context bcs xs ≡ bcs ++ all_contexts xs
unfolding combined_context
combined_context_lem bcs [] = sym (append-nil bcs)
combined_context_lem bcs (x ∷ xs) =
    combined_context_lem (bcs ++ contexts_of x) xs
    ∙ append_assoc bcs (contexts_of x) (all_contexts xs)

filtered :
    (q : TaskQueue) (t : Task) (xs : List Task) (rest : List Slot)
    → q.items ≡ some t ∷ (slots xs ++ rest)
    → has_id t.id xs ≡ false
    → Foreign xs rest
    → filter q (stays (marks t xs)) ≡ ok (record q { items = some t ∷ rest })
unfolding filter filter_items
filtered q t xs rest e h f =
    rw (e, stays-foreign t xs t h, filter-Inside t xs xs rest (Inside-self xs) f)

-- A task with metadata, at the head of the queue of its queue name, is given the contexts of the
-- tasks right behind it that can be merged, one or more, in the order of the queue and compacted;
-- these tasks leave the queue, and the task and all that stands behind them stay, as long as none
-- of that is a nil slot or has the id of a merged task.
pub combine-merge :
    (q : TaskQueue) (t : Task) (meta : HookMetadata) (stop : Task → Bool) (tqs : TaskQueueSet)
    (x : Task) (xs : List Task) (rest : List Slot)
    → t.metadata ≡ some meta
    → get_by_name tqs t.queue_name ≡ some q
    → q.items ≡ some t ∷ (slots (x ∷ xs) ++ rest)
    → AllCombine t.id t.type meta.hook_name stop (x ∷ xs)
    → Blocked t.id t.type meta.hook_name stop rest
    → Foreign (x ∷ xs) rest
    → combine_binding_context_for_hook (some q) t stop tqs
      ≡ ok (
        some (compact (meta.binding_context ++ all_contexts (x ∷ xs))),
        record tqs { queues = insert t.queue_name (record q { items = some t ∷ rest }) tqs.queues },
      )
unfolding combine_binding_context_for_hook
combine-merge q t meta stop tqs x xs rest m g e a b f = ground (
  arith,
  m,
  g,
  found,
  filtered q t (x ∷ xs) rest e (has_id-AllCombine t.id t.type meta.hook_name stop (x ∷ xs) a) f,
  combined_context_lem meta.binding_context (x ∷ xs),
)
  where
    found : other_tasks t.id t.type meta.hook_name stop q.items ≡ ok (x ∷ xs)
    found = rw e (
        other_tasks_self t meta.hook_name stop (slots (x ∷ xs) ++ rest)
        ∙ other_tasks-split t.id t.type meta.hook_name stop (x ∷ xs) rest a b)

-- With no task to merge behind it, a task at the head of its queue is given no new contexts, and
-- the queues stay as they are.
pub combine-none :
    (q : TaskQueue) (t : Task) (meta : HookMetadata) (stop : Task → Bool) (tqs : TaskQueueSet)
    (rest : List Slot)
    → t.metadata ≡ some meta
    → q.items ≡ some t ∷ rest
    → Blocked t.id t.type meta.hook_name stop rest
    → combine_binding_context_for_hook (some q) t stop tqs ≡ ok (none, tqs)
unfolding combine_binding_context_for_hook
combine-none q t meta stop tqs rest m e b = ground (arith, m, found)
  where
    found : other_tasks t.id t.type meta.hook_name stop q.items ≡ ok []
    found = rw e (
        other_tasks_self t meta.hook_name stop rest
        ∙ other_tasks-Blocked t.id t.type meta.hook_name stop rest b)
