-- ===== src/Queue/Tests.antt =====
-- Small queues, what the operations do on them, and the theorems about them applied.
use argodemo.Common.{
  map, times, Ordered, less_text, insertion_sort, insertion_sort-Sorts, ℕ, ◌≡◌, ◌≤◌, ◌*◌, refl,
  String, true, List, [], ◌∷◌, ◌++◌, some, none, ok, arith, ◌>>=◌,
}
use argodemo.Task.{Task, TaskType, increment_failure_count}
use argodemo.Backoff.{second}
use argodemo.Queue.{
  is_empty, add_last, get_first, TaskQueue, Slot, Status, live, add_after, add_before, get, remove,
}
use argodemo.Queue.Insert.{add_after-split, add_after-absent}
use argodemo.Queue.Remove.{remove-split}
use argodemo.Queue.Handle.{TaskResult, success, fail, no_result, on_success, after_handler, again}
use argodemo.Queue.Handle.Success.{slots, on_success-split}
use argodemo.Queue.Handle.Retry.{after_handler-fail}
use argodemo.Queue.Worker.Ends.{wait_for_task-Returns}
use argodemo.Queue.Refinement.{
  Command, put_after, take_first, take_out, put_last, apply_all, specified_all, Gives, specified,
  behind, without, apply_all-specified_all,
}
use argodemo.Queue.Worker.{
  done_fires, stops, got, delay_fires, adds, second_fires, wait_for_task, Fair, Grown,
  wait_for_task-Fair,
}
use argodemo.Queue.Set.{TaskQueueSet, iterate}
use argodemo.Queue.Dump.{less_queue, task_queue_to_text, queue_texts, task_queue_set_to_text}
use argodemo.Queue.Dump.Order.{task_queue_set_to_text-main}

abbrev task : String → Task
task id = record {
  id = id;
  type = TaskType.hook_run;
  log_labels = [];
  failure_count = 0;
  failure_message = "";
  queue_name = "main";
  queued_at = 0;
  metadata = none;
}

abbrev queue : TaskQueue
queue = record {
  items = some (task "a") ∷ some (task "b") ∷ some (task "c") ∷ [];
  started = true;
  name = "main";
  status = Status.empty;
  context = live;
}

add_after-split_example :
    (add_after queue "b" (task "n")
      ≡ ok (record queue { items = slots (task "a" ∷ task "b" ∷ task "n" ∷ task "c" ∷ []) }))
    × (add_before queue "b" (task "n")
        ≡ ok (record queue { items = slots (task "a" ∷ task "n" ∷ task "b" ∷ task "c" ∷ []) }))
add_after-split_example =
    add_after-split queue (task "n") (some (task "a") ∷ []) (task "b") (some (task "c") ∷ []) refl
      (refl, tt)

add_after-absent_example :
    (add_after queue "x" (task "n") ≡ ok (record queue { items = queue.items ++ none ∷ [] }))
    × (add_before queue "x" (task "n") ≡ ok (record queue { items = queue.items ++ none ∷ [] }))
add_after-absent_example = add_after-absent queue "x" (task "n") (refl, (refl, (refl, tt)))

remove-split_example :
    (get queue "b" ≡ ok (some (task "b")))
    × (remove queue "b"
        ≡ ok (some (task "b"), record queue { items = slots (task "a" ∷ task "c" ∷ []) }))
remove-split_example =
    remove-split queue (some (task "a") ∷ []) (task "b") (some (task "c") ∷ []) refl (refl, tt)

abbrev result : TaskResult
result = record no_result {
  status = success;
  head_tasks = task "h1" ∷ task "h2" ∷ [];
  after_tasks = task "n1" ∷ task "n2" ∷ [];
  tail_tasks = task "t" ∷ [];
}

-- The two head tasks change places.
on_success-split_example :
    on_success queue (task "a") result
    ≡ ok (record queue {
      items =
          slots
            (task "h2" ∷ task "h1" ∷ task "n1" ∷ task "n2" ∷ task "b" ∷ task "c" ∷ task "t" ∷ []);
      status = Status.empty;
    })
on_success-split_example =
    on_success-split queue (task "a") result [] (some (task "b") ∷ some (task "c") ∷ []) refl tt

after_handler-fail_example :
    (d : ℕ) × (after_handler queue (task "a") (record no_result { status = fail }) 7
      ≡ ok (
          again
            (record queue {
              items = some (increment_failure_count (task "a")) ∷ slots (task "b" ∷ task "c" ∷ []);
              status = Status.sleep_after_fail d;
            })
            d))
    × (5 * second ≤ d)
    × (d ≤ 32 * second)
after_handler-fail_example =
    after_handler-fail queue (task "a") (slots (task "b" ∷ task "c" ∷ []))
      (record no_result { status = fail }) 7 refl refl (refl, (refl, tt)) refl refl (omega arith)

abbrev longer : TaskQueue
longer = record queue {
  items = slots (task "a" ∷ task "b" ∷ task "c" ∷ task "d" ∷ []);
  status = Status.elapsed Status.empty 1;
}

wait_for_task-Fair_example : Fair (some (task "a")) longer × Grown queue.items longer
unfolding wait_for_task is_empty add_last get_first
wait_for_task-Fair_example =
    wait_for_task-Fair (second_fires 1 ∷ adds (task "d") ∷ delay_fires ∷ []) 5 queue longer
      (some (task "a")) ((λ e. cc), ((λ e. cc), ((λ e. cc), tt))) refl

abbrev main_only : TaskQueueSet
main_only = record { queues = ("main", queue) ∷ []; main_name = "main"; context = live }

wait_for_task-Returns_example :
    (s : Slot) × (q : TaskQueue) × (wait_for_task
        (adds (task "d") ∷ stops ∷ done_fires ∷ [])
        5
        queue
      ≡ got s q)
wait_for_task-Returns_example = wait_for_task-Returns (adds (task "d") ∷ []) [] [] 5 queue (λ e. cc)

abbrev commands : List Command
commands = put_after "b" (task "n") ∷ take_first ∷ take_out "c" ∷ put_last (task "d") ∷ []

apply_all-specified_all_example :
    Gives (apply_all commands queue) (task "b" ∷ task "n" ∷ task "d" ∷ [])
unfolding specified_all specified behind without
apply_all-specified_all_example =
    apply_all-specified_all commands queue (task "a" ∷ task "b" ∷ task "c" ∷ [])
      (task "b" ∷ task "n" ∷ task "d" ∷ []) refl refl

abbrev two_queues : TaskQueueSet
two_queues = record {
  queues = ("slow", record queue { name = "slow"; items = [] }) ∷ ("main", queue) ∷ [];
  main_name = "main";
  context = live;
}

task_queue_set_to_text-main_example :
    (later : List String) × Ordered less_text later
    × ((name : String)
        → times name ("main" ∷ later) ≡ times name (map (λ u. u.name) (iterate two_queues)))
    × (task_queue_set_to_text (insertion_sort less_queue) two_queues ≡ (
        task_queue_to_text queue >>= λ text.
        queue_texts two_queues 1 later >>= λ rest. ok (text ++ rest)))
unfolding argodemo.Queue.Set.get_main argodemo.Common.lookup
task_queue_set_to_text-main_example =
    task_queue_set_to_text-main (insertion_sort less_queue) (insertion_sort-Sorts less_queue)
      two_queues queue refl refl refl
