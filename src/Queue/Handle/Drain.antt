-- ===== src/Queue/Handle/Drain.antt =====
-- The loop of `Start` of shell-operator/pkg/task/queue/task_queue.go over the results of its
-- handler, without the waits: what becomes of the tasks of a queue.
use argodemo.Common.{ℕ, ◌≡◌, List, [], ◌∷◌, ◌++◌, replicate, none, some, Outcome, ok, panic, ◌>>=◌}
use argodemo.Task.{Task}
use argodemo.Queue.{TaskQueue, Slot, Status, get_first, live, done, unset}
use argodemo.Queue.Insert.{Lacks}
use argodemo.Queue.Handle.{TaskResult, no_result, success, fail, stopped, again, after_handler}

-- A result for each turn, with the random part of its delay. The loop ends where its context is
-- cancelled or there is no task.
unfoldable pub serve : List (TaskResult × ℕ) → TaskQueue → Outcome TaskQueue
unfolding get_first after_handler
serve [] q = ok q
serve ((res, random) ∷ rest) q = elim q.context [
  | unset ↦ panic
  | done ↦ ok (record q { status = Status.stop })
  | live ↦ (elim (get_first q) [
    | none ↦ ok q
    | some t ↦
        (after_handler q t res random >>= λ turn. elim turn [
          | stopped q' ↦ ok q'
          | again q' delay ↦ serve rest q'
        ])
  ])
]

abbrev pub failure : TaskResult
failure = record no_result { status = fail }

abbrev pub succeeded : TaskResult
succeeded = record no_result { status = success }

-- Each task fails a number of times before it succeeds.
abbrev pub attempts : ℕ → List ℕ → List (TaskResult × ℕ)
attempts random [] = []
attempts random (k ∷ ks) = replicate k (failure, random) ++ (succeeded, random) ∷ attempts random ks

-- Every slot holds a task, and no id stands twice.
abbrev pub DistinctTasks : List Slot → Type 0
DistinctTasks [] = Unit
DistinctTasks (none ∷ ts) = ⊥
DistinctTasks (some t ∷ ts) = Lacks t.id ts × DistinctTasks ts

-- The queue has gone on to the tasks `ts`.
abbrev GoneOn : TaskQueue → List Slot → List (TaskResult × ℕ) → Outcome TaskQueue → Type 0
GoneOn q ts rest out =
    (q' : TaskQueue) × (out ≡ serve rest q') × (q'.items ≡ ts) × (q'.context ≡ q.context)
