-- ===== src/Operator/Handler.antt =====
-- shell-operator/pkg/shell-operator/operator.go: `TaskHandler`, the event handlers that
-- `InitHookManager` sets, and a turn of the loop of a queue with this handler. The hooks are
-- pointers: a hook that changes is the one that its name finds.
use argodemo.Common.{
  ℕ, suc, String, List, [], ◌∷◌, Option, none, some, Dict, insert, Outcome, ok, panic, ◌>>=◌,
}
use argodemo.Kube.Types.{KubeEvent}
use argodemo.Kube.EventText.{kube_event_text}
use argodemo.Kube.Informer.{Filters}
use argodemo.Kube.Manager.{Manager}
use argodemo.Kube.MonitorState.{Client}
use argodemo.Task.{
  Task, hook_run, enable_kubernetes_bindings, enable_schedule_bindings, hook_metadata_accessor,
}
use argodemo.Task.Context.{BindingType, kubernetes, schedule}
use argodemo.Metrics.Vault.Collectors.{Library}
use argodemo.Metrics.Storage.{BatchError}
use argodemo.Schedule.{ScheduleManager, Cron}
use argodemo.Hook.Bindings.{BindingExecutionInfo}
use argodemo.Hook.Manager.{
  Hook, HookManager, get_hook, get_hooks_in_order, kube_events_of, schedule_events_of,
}
use argodemo.Hook.Controller.{hook_enable_schedule_bindings}
use argodemo.Hook.Run.{Process}
use argodemo.Hook.Run
use argodemo.Queue.{unset, live, done, Status, TaskQueue, get_first, update_task}
use argodemo.Queue.Handle.{TaskResult, no_result, success, Turn, stopped, again, after_handler}
use argodemo.Queue.Dump.{string}
use argodemo.Queue.Set.{get_by_name}
use argodemo.Operator.Events.{hook_run_task, queue_tail_tasks}
use argodemo.Operator.HookRun.{Operator, task_handle_hook_run}
use argodemo.Operator.Enable.{task_handle_enable_kubernetes_bindings}

-- What the operator works with and does not change: the code that is not in the repository, the
-- log labels of an event and the text of a failure.
pub record Setting (F C : Type 0) : Type 0 where
  pub filters : Filters
  pub client : Client
  pub cron : Cron C
  pub library : Library F
  pub error_text : BatchError → String
  pub process : Process F
  pub sort : List (Hook F) → List (Hook F)
  pub log_labels : Dict String
  pub failure_message : String

pub record World (F C : Type 0) : Type 0 where
  pub operator : Operator F
  pub hooks : HookManager F
  pub monitors : Manager
  pub schedules : ScheduleManager C

-- The time of a turn, and fresh ids.
pub record Moment : Type 0 where
  pub now : ℕ
  pub ids : ℕ → String
  pub random : ℕ

module _ {F C : Type 0} (set : Setting F C) (at : Moment) where
  abbrev with_hook : String → Hook F → World F C → World F C
  with_hook name h w = record w {
    hooks = record w.hooks { hooks_by_name = insert name h w.hooks.hooks_by_name };
  }

  abbrev with_queue : String → TaskQueue → World F C → World F C
  with_queue name q w = record w {
    operator = record w.operator {
      task_queues = record w.operator.task_queues {
        queues = insert name q w.operator.task_queues.queues;
      };
    };
  }

  abbrev hook_name : Task → String
  hook_name t = (hook_metadata_accessor t.metadata).hook_name

  unfoldable pub handle_hook_run : Task → World F C → Outcome (TaskResult × Task × World F C)
  unfolding task_handle_hook_run
  handle_hook_run t w =
      task_handle_hook_run set.library set.error_text
        (λ h type bcs. Run.hook_run set.process set.filters set.client w.monitors h bcs) w.hooks t
        at.now w.operator
      >>= λ r. ok (r.0, r.1, record w { operator = r.2 })

  unfoldable pub handle_enable_kubernetes :
      Task → World F C → Outcome (TaskResult × Task × World F C)
  unfolding get_hook task_handle_enable_kubernetes_bindings
  handle_enable_kubernetes t w = elim (get_hook w.hooks (hook_name t)) [
    | none ↦ panic
    | some h ↦
        (task_handle_enable_kubernetes_bindings set.filters set.client set.log_labels at.now at.ids
            set.failure_message h w.monitors t
          >>= λ r. ok (r.0, r.1, with_hook (hook_name t) r.2 (record w { monitors = r.3 })))
  ]

  unfoldable pub handle_enable_schedule : Task → World F C → Outcome (TaskResult × Task × World F C)
  unfolding get_hook hook_enable_schedule_bindings
  handle_enable_schedule t w = elim (get_hook w.hooks (hook_name t)) [
    | none ↦ panic
    | some h ↦
        (let (h', schedules) = hook_enable_schedule_bindings set.cron h w.schedules in
          ok (
            record no_result { status = success },
            t,
            with_hook (hook_name t) h' (record w { schedules = schedules }),
          ))
  ]

  -- With the task as the handler leaves it.
  unfoldable pub task_handler : Task → World F C → Outcome (TaskResult × Task × World F C)
  unfolding handle_hook_run handle_enable_kubernetes handle_enable_schedule
  task_handler t w = elim t.type [
    | hook_run ↦ handle_hook_run t w
    | enable_kubernetes_bindings ↦ handle_enable_kubernetes t w
    | enable_schedule_bindings ↦ handle_enable_schedule t w
  ]

  -- The tasks of an event, in order, with the time at which they are queued.
  unfoldable pub event_tasks :
      BindingType → ℕ → List (Hook F × BindingExecutionInfo) → List (Task × ℕ)
  unfolding hook_run_task
  event_tasks type n [] = []
  event_tasks type n ((h, info) ∷ rest) =
      (hook_run_task (at.ids n) h.name type set.log_labels info.queue_name info, at.now)
      ∷ event_tasks type (suc n) rest

  abbrev pub or_nil : Option (List String) → List String
  or_nil none = []
  or_nil (some names) = names

  abbrev pub queued : List (Task × ℕ) → World F C → World F C
  queued ts w = record w {
    operator = record w.operator { task_queues = queue_tail_tasks w.operator.task_queues ts };
  }

  -- An event of the kube events manager, from the channel to the queues. The text of the event is
  -- made for a log, and may panic.
  unfoldable pub handle_kube_event : KubeEvent → World F C → Outcome (World F C)
  unfolding get_hooks_in_order kube_events_of event_tasks queue_tail_tasks
  handle_kube_event ev w = kube_event_text ev >>= λ shown.
      kube_events_of set.filters set.client w.monitors w.hooks ev
        (or_nil (get_hooks_in_order set.sort w.hooks kubernetes))
      >>= λ infos. ok (queued (event_tasks kubernetes 0 infos) w)

  unfoldable pub handle_schedule_event : String → World F C → Outcome (World F C)
  unfolding get_hooks_in_order schedule_events_of event_tasks queue_tail_tasks
  handle_schedule_event crontab w =
      schedule_events_of set.filters set.client w.monitors w.hooks crontab
        (or_nil (get_hooks_in_order set.sort w.hooks schedule))
      >>= λ infos. ok (queued (event_tasks schedule 0 infos) w)

  abbrev pub turned : String → Turn → World F C → World F C
  turned name (stopped q) w = with_queue name q w
  turned name (again q delay) w = with_queue name q w

  -- What the queue does with the result of a task. The task in the queue is the one that the
  -- handler changes.
  unfoldable pub after_task : String → Task → TaskResult × Task × World F C → Outcome (World F C)
  unfolding get_by_name update_task after_handler
  after_task name t r = elim (get_by_name r.2.operator.task_queues name) [
    | none ↦ ok r.2
    | some q ↦
        (after_handler (record q { items = update_task t.id (λ x. r.1) q.items }) r.1 r.0 at.random
          >>= λ turn. ok (turned name turn r.2))
  ]

  -- A turn of a queue's loop: it stops if its context is cancelled, and panics if it is not set.
  -- Else the task at the head, if there is one, is handled, with the end of the loop's body. The
  -- text of the queue is made for a log before.
  unfoldable pub queue_turn : String → World F C → Outcome (World F C)
  unfolding get_by_name get_first task_handler after_task
  queue_turn name w = elim (get_by_name w.operator.task_queues name) [
    | none ↦ ok w
    | some q ↦ (elim q.context [
      | unset ↦ panic
      | done ↦ ok (with_queue name (record q { status = Status.stop }) w)
      | live ↦ (elim (get_first q) [
        | none ↦ ok w
        | some t ↦ (string q >>= λ shown. task_handler t w >>= after_task name t)
      ])
    ])
  ]
