-- ===== src/Queue.antt =====
-- shell-operator/pkg/task/queue/task_queue.go: the queue's state and its operations. A slot of
-- `items` may hold a nil task; the operations that read a task's id panic on it. Locks, metrics
-- and the add and remove handlers, which nobody sets, are left out. Tasks are pointers in the
-- source: a task is found again in the queue by its id, which is a fresh UUID.
pub mod Insert
pub mod Remove
pub mod Handle
pub mod Worker
pub mod Set
pub mod Refinement
pub mod Dump
mod Tests
use argodemo.Common.{
  ℕ, zero, suc, ◌+◌, String, Bool, true, false, List, [], ◌∷◌, ◌++◌, Option, none, some,
  if◌then◌else◌, ◌==◌, not, length, replicate, set, keep, Outcome, ok, panic, ◌>>=◌, map,
}
use argodemo.Task.{Task}

-- `context.WithCancel`: not called yet, running, or cancelled.
pub data Context : Type 0 where
  unset live done : Context

-- The texts of `Status`, with the durations that they show.
pub data Status : Type 0 where
  empty stop run_first_task repeat_head_task : Status
  sleep_after_fail sleep waiting_for_task : ℕ → Status
  elapsed : Status → ℕ → Status

abbrev pub Slot : Type 0
Slot = Option Task

pub record TaskQueue : Type 0 where
  pub items : List Slot
  pub started : Bool
  pub name : String
  pub status : Status
  pub context : Context

unfoldable pub new_tasks_queue : TaskQueue
new_tasks_queue = record {
  items = [];
  started = false;
  name = "";
  status = empty;
  context = Context.unset;
}

module _ {ℓ} {A : Type ℓ} where
  -- `items[0]` and `items[len(items)-1]`, or nil where the list is empty.
  abbrev pub first : List (Option A) → Option A
  first [] = none
  first (t ∷ ts) = t

  abbrev pub last : List (Option A) → Option A
  last [] = none
  last (t ∷ []) = t
  last (t ∷ u ∷ ts) = last (u ∷ ts)

  abbrev pub rest : List A → List A
  rest [] = []
  rest (t ∷ ts) = ts

  abbrev pub init : List A → List A
  init [] = []
  init (t ∷ []) = []
  init (t ∷ u ∷ ts) = t ∷ init (u ∷ ts)

  abbrev pub take : ℕ → List A → List A
  take zero ts = []
  take (suc n) [] = []
  take (suc n) (t ∷ ts) = t ∷ take n ts

  abbrev pub drop : ℕ → List A → List A
  drop zero ts = ts
  drop (suc n) [] = []
  drop (suc n) (t ∷ ts) = drop n ts

unfoldable pub is_empty : TaskQueue → Bool
is_empty q = elim q.items [ [] ↦ true | _ ∷ _ ↦ false ]

unfoldable pub queue_length : TaskQueue → ℕ
queue_length q = length q.items

unfoldable pub add_first : TaskQueue → Task → TaskQueue
add_first q t = record q { items = some t ∷ q.items }

unfoldable pub add_last : TaskQueue → Task → TaskQueue
add_last q t = record q { items = q.items ++ some t ∷ [] }

unfoldable pub remove_first : TaskQueue → Slot × TaskQueue
remove_first q = (first q.items, record q { items = rest q.items })

unfoldable pub get_first : TaskQueue → Slot
get_first q = first q.items

unfoldable pub remove_last : TaskQueue → Slot × TaskQueue
remove_last q = (last q.items, record q { items = init q.items })

unfoldable pub get_last : TaskQueue → Slot
get_last q = last q.items

find : String → List Slot → Outcome Slot
find id [] = ok none
find id (none ∷ ts) = panic
find id (some t ∷ ts) = if t.id == id then ok (some t) else find id ts

unfoldable pub get : TaskQueue → String → Outcome Slot
unfolding find
get q id = find id q.items

-- The loop of `AddAfter` over index `i`, the old items from `i` on, `newItems` and `idFound`.
copy_after : String → Task → ℕ → List Slot → List Slot → Bool → Outcome (List Slot)
copy_after id new i [] out found = ok out
copy_after id new i (t ∷ ts) out true = copy_after id new (suc i) ts (set out (suc i) t) true
copy_after id new i (none ∷ ts) out false = panic
copy_after id new i (some t ∷ ts) out false =
    let copied = set out i (some t) in
    copy_after id new (suc i) ts (if t.id == id then set copied (suc i) (some new) else copied)
      (t.id == id)

unfoldable pub add_after : TaskQueue → String → Task → Outcome TaskQueue
unfolding copy_after
add_after q id new = do
  items ← copy_after id new 0 q.items (replicate (suc (length q.items)) none) false
  ok (record q { items = items })

-- The loop of `AddBefore`.
copy_before : String → Task → ℕ → List Slot → List Slot → Bool → Outcome (List Slot)
copy_before id new i [] out found = ok out
copy_before id new i (t ∷ ts) out true = copy_before id new (suc i) ts (set out (suc i) t) true
copy_before id new i (none ∷ ts) out false = panic
copy_before id new i (some t ∷ ts) out false =
    copy_before id new (suc i) ts
      (if t.id == id then set (set out i (some new)) (suc i) (some t) else set out i (some t))
      (t.id == id)

unfoldable pub add_before : TaskQueue → String → Task → Outcome TaskQueue
unfolding copy_before
add_before q id new = do
  items ← copy_before id new 0 q.items (replicate (suc (length q.items)) none) false
  ok (record q { items = items })

-- The search loop of `Remove`: `none` is the index -1.
index_of : String → ℕ → List Slot → Outcome (Option ℕ)
index_of id i [] = ok none
index_of id i (none ∷ ts) = panic
index_of id i (some t ∷ ts) = if t.id == id then ok (some i) else index_of id (suc i) ts

abbrev nth : ℕ → List Slot → Slot
nth n [] = none
nth zero (t ∷ ts) = t
nth (suc n) (t ∷ ts) = nth n ts

remove_at : TaskQueue → Option ℕ → Slot × TaskQueue
remove_at q none = (none, q)
remove_at q (some i) = (nth i q.items, record q { items = take i q.items ++ drop (suc i) q.items })

unfoldable pub remove : TaskQueue → String → Outcome (Slot × TaskQueue)
unfolding index_of remove_at
remove q id = do i ← index_of id 0 q.items; ok (remove_at q i)

-- The filter function is called on every slot; it may panic on a nil task.
unfoldable pub filter_items : (Slot → Outcome Bool) → List Slot → Outcome (List Slot)
filter_items p [] = ok []
filter_items p (t ∷ ts) = do b ← p t; kept ← filter_items p ts; ok (if b then t ∷ kept else kept)

unfoldable pub filter : TaskQueue → (Slot → Outcome Bool) → Outcome TaskQueue
unfolding filter_items
filter q p = do items ← filter_items p q.items; ok (record q { items = items })

-- A change to the task with the given id, seen through the queue's pointer to it.
unfoldable pub update_task : String → (Task → Task) → List Slot → List Slot
update_task id f [] = []
update_task id f (none ∷ ts) = none ∷ update_task id f ts
update_task id f (some t ∷ ts) = (if t.id == id then some (f t) else some t) ∷ update_task id f ts

-- The context is made from that of the parent: it is cancelled if that one is, and a parent that is
-- not set panics in `context.WithCancel`.
unfoldable pub with_context : Context → TaskQueue → Outcome TaskQueue
with_context unset q = panic
with_context live q = ok (record q { context = live })
with_context done q = ok (record q { context = done })

-- `cancel` is nil until `WithContext`.
unfoldable pub stop_queue : TaskQueue → TaskQueue
stop_queue q = elim q.context [ unset ↦ q | _ ↦ record q { context = done } ]
