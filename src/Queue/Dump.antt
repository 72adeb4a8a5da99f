-- ===== src/Queue/Dump.antt =====
-- shell-operator/pkg/task/dump/dump.go and `String` of shell-operator/pkg/task/queue/task_queue.go:
-- the queues as a text for the debug server. `sort` is `sort.Sort`. A nil task panics.
pub mod Order
use argodemo.Common.{
  ℕ, zero, suc, ◌≡◌, String, Bool, true, false, List, [], ◌∷◌, ◌++◌, Option, none, some, map,
  if◌then◌else◌, ◌==◌, Outcome, ok, panic, ◌>>=◌, nat_eq, less_text,
}
use argodemo.Task.{Task}
use argodemo.Task.Description.{Piece, lit, clipped, number, padded, duration, get_description}
use argodemo.Queue.{TaskQueue, Slot, Status, queue_length}
use argodemo.Queue.Set.{TaskQueueSet, get_by_name, iterate}

-- `Less` of `AsQueueNames`: the main queue goes before all others.
unfoldable pub less_queue : String → String → Bool
less_queue p q = if q == "main" then false else if p == "main" then true else less_text p q

unfoldable pub status_text : Status → List Piece
status_text Status.empty = []
status_text Status.stop = lit "stop" ∷ []
status_text Status.run_first_task = lit "run first task" ∷ []
status_text Status.repeat_head_task = lit "repeat head task" ∷ []
status_text (Status.sleep_after_fail d) = lit "sleep after fail for " ∷ duration d ∷ []
status_text (Status.sleep d) = lit "sleep for " ∷ duration d ∷ []
status_text (Status.waiting_for_task d) = lit "waiting for task " ∷ duration d ∷ []
status_text (Status.elapsed s d) = status_text s ++ lit " (elapsed " ∷ duration d ∷ lit ")" ∷ []

-- The lines of `TaskQueueToText` from `index` on.
task_lines : ℕ → List Slot → Outcome (List Piece)
task_lines index [] = ok []
task_lines index (none ∷ ts) = panic
task_lines index (some t ∷ ts) = do
  later ← task_lines (suc index) ts
  ok ((padded index ∷ lit ". " ∷ get_description t) ++ lit "\n" ∷ later)

unfoldable pub task_queue_to_text : TaskQueue → Outcome (List Piece)
unfolding task_lines queue_length status_text
task_queue_to_text q = do
  tasks ← task_lines 1 q.items
  ok (
      (lit "Queue '"
        ∷ lit q.name
        ∷ lit "': length "
        ∷ number (queue_length q)
        ∷ lit ", status: '"
        ∷ status_text q.status)
      ++ lit "'\n" ∷ lit "\n" ∷ tasks)

-- One round of the loop of `TaskQueueSetToText` over the names.
unfoldable pub queue_text : TaskQueueSet → String → Outcome (List Piece)
queue_text tqs name = elim (get_by_name tqs name) [
  | none ↦ ok (lit "Queue '" ∷ lit name ∷ lit "' is not created\n" ∷ [])
  | some q ↦ task_queue_to_text q
]

-- The loop from index `i` on.
unfoldable pub queue_texts : TaskQueueSet → ℕ → List String → Outcome (List Piece)
queue_texts tqs i [] = ok []
queue_texts tqs i (name ∷ names) = do
  text ← queue_text tqs name
  later ← queue_texts tqs (suc i) names
  ok ((if nat_eq i 0 then [] else lit "==========\n\n" ∷ []) ++ text ++ later)

unfoldable pub task_queue_set_to_text :
    (List String → List String) → TaskQueueSet → Outcome (List Piece)
unfolding iterate
task_queue_set_to_text sort tqs = queue_texts tqs 0 (sort (map (λ q. q.name) (iterate tqs)))

-- The loop of `String` over the tasks, with the index behind each.
string_parts : ℕ → ℕ → List Slot → Outcome (List Piece)
string_parts length index [] = ok []
string_parts length index (none ∷ ts) = panic
string_parts length index (some t ∷ ts) = do
  later ← string_parts length (suc index) ts
  ok (
      (lit "[" ∷ get_description t)
      ++ lit ",id="
        ∷ clipped t.id
        ∷ lit "]"
        ∷ (if nat_eq (suc index) length then [] else lit ", " ∷ [])
      ++ later)

unfoldable pub string : TaskQueue → Outcome (List Piece)
unfolding string_parts queue_length
string q = string_parts (queue_length q) 0 q.items
