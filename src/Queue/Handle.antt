-- ===== src/Queue/Handle.antt =====
-- task_queue.go, `Start`: what a queue does with the result of its handler.
pub mod Success
pub mod Retry
pub mod Drain
use argodemo.Common.{
  ℕ, zero, suc, ◌+◌, ◌*◌, nat_eq, String, Bool, true, false, List, [], ◌∷◌, ◌++◌, Option, none,
  some, if◌then◌else◌, ◌==◌, Outcome, ok, panic, ◌>>=◌,
}
use argodemo.Task.{Task, increment_failure_count}
use argodemo.Backoff.{second, millisecond, calculate_delay}
use argodemo.Queue.{
  TaskQueue, Slot, Status, Context, add_first, add_last, add_after, remove, update_task, live, done,
  unset,
}

-- The values of `TaskResult.Status` that the loop tests for, and any other.
pub data ResultStatus : Type 0 where
  fail success repeat other : ResultStatus

-- `AfterHandle`, a callback that no handler of the repository sets, is left out.
pub record TaskResult : Type 0 where
  pub status : ResultStatus
  pub head_tasks : List Task
  pub tail_tasks : List Task
  pub after_tasks : List Task
  pub delay_before_next_task : ℕ

abbrev pub no_result : TaskResult
no_result = record {
  status = other;
  head_tasks = [];
  tail_tasks = [];
  after_tasks = [];
  delay_before_next_task = 0;
}

abbrev pub delay_on_failed_task : ℕ
delay_on_failed_task = 5 * second

abbrev pub delay_on_repeat : ℕ
delay_on_repeat = 25 * millisecond

-- `for i := len(AfterTasks) - 1; i >= 0; i--`: the last task first.
unfoldable pub add_after_all : TaskQueue → String → List Task → Outcome TaskQueue
add_after_all q id [] = ok q
add_after_all q id (t ∷ ts) = add_after_all q id ts >>= λ r. add_after r id t

unfoldable pub add_last_all : TaskQueue → List Task → TaskQueue
add_last_all q [] = q
add_last_all q (t ∷ ts) = add_last_all (add_last q t) ts

unfoldable pub add_first_all : TaskQueue → List Task → TaskQueue
add_first_all q [] = q
add_first_all q (t ∷ ts) = add_first_all (add_first q t) ts

unfoldable pub on_success : TaskQueue → Task → TaskResult → Outcome TaskQueue
on_success q t res = do
  with_after ← add_after_all q t.id res.after_tasks
  (_, removed) ← remove (add_last_all with_after res.tail_tasks) t.id
  ok (record (add_first_all removed res.head_tasks) { status = Status.empty })

-- The delay reads the failure count before it is incremented.
unfoldable pub on_fail : TaskQueue → Task → ℕ → TaskQueue × ℕ
on_fail q t rnd =
    let delay = calculate_delay delay_on_failed_task t.failure_count rnd in
    (
      record q {
        items = update_task t.id increment_failure_count q.items;
        status = Status.sleep_after_fail delay;
      },
      delay,
    )

unfoldable pub on_repeat : TaskQueue → TaskQueue × ℕ
on_repeat q = (record q { status = Status.repeat_head_task }, delay_on_repeat)

unfoldable pub on_status :
    TaskQueue → Task → TaskResult → ℕ → ResultStatus → Outcome (TaskQueue × ℕ)
on_status q t res rnd fail = ok (on_fail q t rnd)
on_status q t res rnd success = on_success q t res >>= λ r. ok (r, 0)
on_status q t res rnd repeat = ok (on_repeat q)
on_status q t res rnd other = ok (q, 0)

-- A delay in the result takes the place of the one that the status asks for.
unfoldable pub override_delay : TaskResult → TaskQueue × ℕ → TaskQueue × ℕ
override_delay res (q, delay) =
    if nat_eq res.delay_before_next_task 0
    then (q, delay)
    else (record q { status = Status.sleep res.delay_before_next_task }, res.delay_before_next_task)

-- The goroutine has ended, or goes on with a queue and a delay for the next wait.
pub data Turn : Type 0 where
  stopped : TaskQueue → Turn
  again : TaskQueue → ℕ → Turn

-- From the check of the context behind the handler to the end of the loop's body. The task is
-- read after the handler, which may have changed it through its pointer. A context that is not
-- set is a nil interface, whose `Done` panics.
unfoldable pub after_handler : TaskQueue → Task → TaskResult → ℕ → Outcome Turn
after_handler q t res rnd = elim q.context [
  | unset ↦ panic
  | done ↦ ok (stopped (record q { status = Status.stop }))
  | live ↦ on_status q t res rnd res.status >>= λ r.
      (let (q', d) = override_delay res r in ok (again q' d))
]
