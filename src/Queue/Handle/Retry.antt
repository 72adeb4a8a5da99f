-- ===== src/Queue/Handle/Retry.antt =====
-- task_queue.go, `Start`: a task whose handler failed stays at the head of the queue.
use argodemo.Common.{
  eq_refl, ℕ, zero, suc, ◌≤◌, ◌<◌, ◌*◌, ◌≡◌, refl, String, List, [], ◌∷◌, some, none, ok, arith,
}
use argodemo.Task.{Task, increment_failure_count}
use argodemo.Backoff.{second, calculate_delay, exponential_delay_random_ms}
use argodemo.Backoff.Bounds.{calculate_delay_range}
use argodemo.Queue.{TaskQueue, Slot, Status, update_task, live}
use argodemo.Queue.Insert.{Lacks}
use argodemo.Queue.Handle.{
  TaskResult, fail, again, on_fail, on_status, override_delay, after_handler,
}

update_task-Lacks :
    (id : String) (f : Task → Task) (ts : List Slot) → Lacks id ts → update_task id f ts ≡ ts
unfolding update_task
update_task-Lacks id f [] l = refl
update_task-Lacks id f (none ∷ ts) l = absurd l
update_task-Lacks id f (some t ∷ ts) l = rw (l.0, update_task-Lacks id f ts l.1)

update_task-head :
    (t : Task) (f : Task → Task) (ts : List Slot)
    → Lacks t.id ts
    → update_task t.id f (some t ∷ ts) ≡ some (f t) ∷ ts
unfolding update_task
update_task-head t f ts l = rw (eq_refl t.id, update_task-Lacks t.id f ts l)

update_task-items :
    (q : TaskQueue) (t : Task) (ts : List Slot)
    → q.items ≡ some t ∷ ts
    → Lacks t.id ts
    → update_task t.id increment_failure_count q.items ≡ some (increment_failure_count t) ∷ ts
update_task-items q t ts e l = rw e (update_task-head t increment_failure_count ts l)

delay_bounds :
    (k rnd : ℕ)
    → rnd < exponential_delay_random_ms
    → (5 * second ≤ calculate_delay (5 * second) k rnd)
      × (calculate_delay (5 * second) k rnd ≤ 32 * second)
delay_bounds zero rnd h = omega (arith, calculate_delay_range zero rnd h)
delay_bounds (suc zero) rnd h = omega (arith, calculate_delay_range 1 rnd h)
delay_bounds (suc (suc zero)) rnd h = omega (arith, calculate_delay_range 2 rnd h)
delay_bounds (suc (suc (suc zero))) rnd h = omega (arith, calculate_delay_range 3 rnd h)
delay_bounds (suc (suc (suc (suc zero)))) rnd h = omega (arith, calculate_delay_range 4 rnd h)
delay_bounds (suc (suc (suc (suc (suc zero))))) rnd h = omega (arith, calculate_delay_range 5 rnd h)
delay_bounds (suc (suc (suc (suc (suc (suc k)))))) rnd h =
    omega (arith, calculate_delay_range (suc (suc (suc (suc (suc (suc k)))))) rnd h)

-- While the context, which is set, is not cancelled, a failed head task with no delay in its result stays at
-- the head with its failure count one higher, no other task changes, and the loop goes on after
-- 5 to 32 seconds.
pub after_handler-fail :
    (q : TaskQueue) (t : Task) (ts : List Slot) (res : TaskResult) (rnd : ℕ)
    → q.context ≡ live
    → q.items ≡ some t ∷ ts
    → Lacks t.id ts
    → res.status ≡ fail
    → res.delay_before_next_task ≡ 0
    → rnd < exponential_delay_random_ms
    → (d : ℕ) × (after_handler q t res rnd
        ≡ ok (
            again
              (record q {
                items = some (increment_failure_count t) ∷ ts;
                status = Status.sleep_after_fail d;
              })
              d))
      × (5 * second ≤ d)
      × (d ≤ 32 * second)
unfolding after_handler on_status on_fail override_delay
after_handler-fail q t ts res rnd alive e l s z h = (
  calculate_delay (5 * second) t.failure_count rnd,
  ground (arith, alive, e, update_task-items q t ts e l),
  (delay_bounds t.failure_count rnd h).0,
  (delay_bounds t.failure_count rnd h).1,
)
