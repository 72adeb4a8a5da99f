-- ===== src/Operator/SystemTests.antt =====
-- An operator with the hook of a small directory, and the theorems about its runs applied.
use argodemo.Common.{
  ℕ, ◌≡◌, refl, [], ◌∷◌, none, some, inr, Outcome, ok, panic, lookup, insert, true,
}
use argodemo.Kube.Types.{KubeEvent, KubeEventType}
use argodemo.Kube.Tests.{filters, client}
use argodemo.Kube.Manager.{Manager}
use argodemo.Task.{Task, TaskType, no_hook_metadata}
use argodemo.Hook.Tests.{lib, no_monitors}
use argodemo.Hook.LoadTests.{loader, files, loaded_hook, loaded_hooks, loaded_hooks-initialised}
use argodemo.Hook.Run.{Process}
use argodemo.Queue.{live}
use argodemo.Queue.Handle.{TaskResult}
use argodemo.Schedule.Tests.{Counting, counting, empty}
use argodemo.Operator.Handler.{
  Setting, World, Moment, handle_kube_event, handle_schedule_event, handle_enable_kubernetes,
  queue_turn,
}
use argodemo.Operator.System.Reach.{here, then, worker}
use argodemo.Operator.System.Initial.{init_hooks-Steps, init_hooks-enable}
use argodemo.Operator.Startup.{started_queue}

abbrev process : Process ℕ
process = record {
  valid_json = λ text. true;
  context_file = λ name contexts. inr "/tmp/context";
  metrics_file = λ name. inr "/tmp/metrics";
  execute = λ name contexts metrics. none;
  decode_metrics = λ path. inr [];
}

abbrev setting : Setting ℕ Counting
setting = record {
  filters = filters;
  client = client;
  cron = counting;
  library = record {
    hash = λ values. 0;
    to_uint64 = λ x. x;
    registers = λ name names. true;
    sorted = λ names. names;
  };
  error_text = λ e. "metrics";
  process = process;
  sort = λ hooks. hooks;
  log_labels = [];
  failure_message = "cannot enable";
}

abbrev moment : Moment
moment = record { now = 5; ids = λ n. "id"; random = 0 }

abbrev enable : Task
enable = record {
  id = "e";
  type = TaskType.enable_kubernetes_bindings;
  log_labels = [];
  failure_count = 0;
  failure_message = "";
  queue_name = "main";
  queued_at = 0;
  metadata = some (record no_hook_metadata { hook_name = "h" });
}

abbrev start : World ℕ Counting
start = record {
  operator = record {
    task_queues = record {
      queues = ("main", record (started_queue live "main") { items = some enable ∷ [] }) ∷ [];
      main_name = "main";
      context = live;
    };
    hook_metric_storage = record { grouped_vault = []; calls = [] };
    allowed_errors_total = 0;
    errors_total = 0;
    success_total = 0;
  };
  hooks = loaded_hooks;
  monitors = no_monitors;
  schedules = empty;
}

abbrev Completes : Outcome (World ℕ Counting) → Type 0
Completes (ok w) = Unit
Completes panic = ⊥

completed :
    (out : Outcome (World ℕ Counting)) → Completes out → (w : World ℕ Counting) × (out ≡ ok w)
completed (ok w) c = (w, refl)
completed panic c = absurd c

-- The task at the head of the main queue is handled first.
enabled : (w : World ℕ Counting) × (queue_turn setting moment "main" start ≡ ok w)
unfolding queue_turn lookup argodemo.Hook.Init.init_hooks
    argodemo.Hook.Config.Version1.convert_and_check_v1 argodemo.Hook.Config.Checks.count_bindings
    insert argodemo.Kube.Manager.add_monitor argodemo.Kube.Monitor.namespaces
    argodemo.Kube.Monitor.names argodemo.Kube.Monitor.adjust_field_selector
    argodemo.Kube.Informer.load_existed_objects argodemo.Kube.Manager.start_monitor
    argodemo.Queue.Handle.on_status argodemo.Queue.Handle.on_success
    argodemo.Queue.Handle.add_after_all argodemo.Queue.remove argodemo.Queue.Handle.add_last_all
    argodemo.Queue.Dump.string
enabled = completed (queue_turn setting moment "main" start) tt

abbrev event : KubeEvent
event = record { monitor_id = "m"; type = KubeEventType.event; watch_events = []; objects = [] }

init_hooks-Steps_example :
    ((w : World ℕ Counting) × (handle_kube_event setting moment event enabled.0 ≡ ok w))
    × ((w : World ℕ Counting) × (handle_schedule_event setting moment "0 * * * *" enabled.0 ≡ ok w))
init_hooks-Steps_example =
    init_hooks-Steps setting moment lib loader files "/hooks" start enabled.0 event "0 * * * *"
      loaded_hooks-initialised (then (worker moment "main" enabled.1) here) (λ e. cc)

init_hooks-enable_example :
    (out : TaskResult × Task × World ℕ Counting) × (handle_enable_kubernetes setting moment enable
        start
      ≡ ok out)
unfolding lookup argodemo.Hook.Manager.get_hook argodemo.Hook.Init.init_hooks
    argodemo.Hook.Config.Version1.convert_and_check_v1 argodemo.Hook.Config.Checks.count_bindings
    insert argodemo.Task.hook_metadata_accessor
init_hooks-enable_example =
    init_hooks-enable setting moment lib loader files "/hooks" start start enable loaded_hook
      loaded_hooks-initialised here refl
