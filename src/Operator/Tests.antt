-- ===== src/Operator/Tests.antt =====
-- Small queues, hooks and batches, and the theorems of the operator applied.
use argodemo.Common.{
  panic, ℕ, ◌≡◌, ◌⊎◌, refl, String, Bool, true, false, List, [], ◌∷◌, keep, any, none, some, ◌==◌,
  if◌then◌else◌, lookup, insert, ok, Outcome,
}
use argodemo.Task.{Task, hook_run, HookMetadata, no_hook_metadata}
use argodemo.Task.Context.{BindingContext, BindingType, no_context, no_metadata}
use argodemo.Kube.Types.{ObjectAndFilterResult, KubeEvent, KubeEventType, added, event}
use argodemo.Kube.Informer.{unstructured, new_resource_informer, handle_watch_event}
use argodemo.Kube.Manager.{Manager}
use argodemo.Kube.Tests.{filters, client, monitor, pod}
use argodemo.Metrics.Vault.Collectors.{Library}
use argodemo.Metrics.Storage.{BatchError}
use argodemo.Hook.Manager.{Hook, HookManager, get_hook}
use argodemo.Hook.Run.{RunResult, failed}
use argodemo.Hook.Tests.{controller, no_monitors}
use argodemo.Queue.{TaskQueue, Slot, live}
use argodemo.Queue.Handle.{TaskResult, success, fail}
use argodemo.Queue.Set.{TaskQueueSet, get_by_name}
use argodemo.Hook.Kubernetes.{MonitorLink, convert_kube_event_to_binding_context}
use argodemo.Task.Context.{convert_binding_context_list}
use argodemo.Operator.Legacy.{handle_watch_event-panic}
use argodemo.Operator.Combine.{combine_binding_context_for_hook, compact}
use argodemo.Operator.Combine.Compact.{IsCompact, ungrouped, in_group, compact_lem}
use argodemo.Operator.Combine.Merge.{combine-merge}
use argodemo.Operator.Events.{
  queue_tail_tasks, append_slots, slots_for, queue_tail_tasks-get_by_name,
}
use argodemo.Hook.Kubernetes.Synchronized.{EachSynchronized, fails}
use argodemo.Operator.Startup.{ensure_queues, started_queue, ensure_queues-get_by_name}
use argodemo.Operator.HookRun.{
  Operator, combined_metadata, task_handle_hook_run, Accounted, task_handle_hook_run-Accounted,
}
use argodemo.Operator.Enable.{
  task_handle_enable_kubernetes_bindings, task_handle_enable_kubernetes_bindings-ok, RunsFor,
}

abbrev context : String → String → BindingContext
context binding group = record no_context {
  binding = binding;
  metadata = record no_metadata { group = group };
}

abbrev metadata : String → List BindingContext → HookMetadata
metadata hook bcs = record no_hook_metadata { hook_name = hook; binding_context = bcs }

abbrev task : String → String → List BindingContext → Task
task id hook bcs = record {
  id = id;
  type = hook_run;
  log_labels = [];
  failure_count = 0;
  failure_message = "";
  queue_name = "main";
  queued_at = 0;
  metadata = some (metadata hook bcs);
}

abbrev a : Task
a = task "a" "h" (context "x" "g" ∷ [])

abbrev b : Task
b = task "b" "h" (context "y" "g" ∷ [])

abbrev c : Task
c = task "c" "other" (context "z" "" ∷ [])

abbrev queue : List Slot → TaskQueue
queue items = record (started_queue live "main") { items = items }

abbrev set : TaskQueue → TaskQueueSet
set q = record { queues = ("main", q) ∷ []; main_name = "main"; context = live }

abbrev stop : Task → Bool
stop x = false

compact_lem_example :
    IsCompact (compact (context "x" "g" ∷ context "y" "g" ∷ []))
    × (keep ungrouped (compact (context "x" "g" ∷ context "y" "g" ∷ []))
        ≡ keep ungrouped (context "x" "g" ∷ context "y" "g" ∷ []))
    × (any (in_group "g") (compact (context "x" "g" ∷ context "y" "g" ∷ []))
        ≡ any (in_group "g") (context "x" "g" ∷ context "y" "g" ∷ []))
compact_lem_example = compact_lem (context "x" "g" ∷ context "y" "g" ∷ []) "g"

abbrev three : TaskQueue
three = queue (some a ∷ some b ∷ some c ∷ [])

combine-merge_example :
    combine_binding_context_for_hook (some three) a stop (set three)
    ≡ ok (
      some (compact (context "x" "g" ∷ context "y" "g" ∷ [])),
      record (set three) {
        queues = insert "main" (queue (some a ∷ some c ∷ [])) (set three).queues;
      },
    )
unfolding get_by_name lookup
combine-merge_example =
    combine-merge three a (metadata "h" (context "x" "g" ∷ [])) stop (set three) b [] (some c ∷ [])
      refl refl refl (refl, (refl, tt)) (refl, refl) (refl, tt)

abbrev two : TaskQueue
two = queue (some a ∷ some c ∷ [])

queue_tail_tasks-get_by_name_example :
    get_by_name (queue_tail_tasks (set two) ((a, 7) ∷ (b, 8) ∷ [])) "main"
    ≡ elim (get_by_name (set two) "main") [
      | none ↦ none
      | some q ↦ some (append_slots (slots_for "main" ((a, 7) ∷ (b, 8) ∷ [])) q)
    ]
queue_tail_tasks-get_by_name_example =
    queue_tail_tasks-get_by_name (set two) ((a, 7) ∷ (b, 8) ∷ []) "main"

ensure_queues-get_by_name_example :
    (s : TaskQueueSet) × (ensure_queues (set two) ("main" ∷ "side" ∷ []) ≡ ok s)
    × ((n : String)
        → get_by_name s n ≡ elim (get_by_name (set two) n) [
          | some q ↦ some q
          | none ↦
              (if any (λ m. m == n) ("main" ∷ "side" ∷ [])
                then some (started_queue live n)
                else none)
        ])
ensure_queues-get_by_name_example =
    ensure_queues-get_by_name (set two) ("main" ∷ "side" ∷ []) (λ e. cc)

abbrev hook : Hook ℕ
hook = record {
  name = "h";
  config = record { version = "v0"; on_startup = none; schedules = []; on_kubernetes_events = [] };
  kubernetes_controller = some controller;
  schedule_controller = none;
}

abbrev hooks : HookManager ℕ
hooks = record {
  hook_names_in_order = "h" ∷ [];
  hooks_by_name = ("h", hook) ∷ [];
  hooks_in_order = λ t. [];
}

abbrev lib : Library ℕ
lib = record {
  hash = λ values. 0;
  to_uint64 = λ x. x;
  registers = λ name names. true;
  sorted = λ names. names;
}

abbrev operator : Operator ℕ
operator = record {
  task_queues = set two;
  hook_metric_storage = record { grouped_vault = []; calls = [] };
  allowed_errors_total = 0;
  errors_total = 0;
  success_total = 0;
}

abbrev run : Hook ℕ → BindingType → List BindingContext → Outcome (RunResult ℕ)
run h t bcs = ok (failed "exit status 1")

abbrev error_text : BatchError → String
error_text e = "metrics"

task_handle_hook_run-Accounted_example :
    (out : TaskResult × Task × Operator ℕ) × (task_handle_hook_run lib error_text run hooks a 9
        operator
      ≡ ok out)
    × Accounted lib error_text
        (metadata "h" (context "x" "g" ∷ []))
        a
        operator
        9
        (failed "exit status 1")
        out
unfolding combined_metadata get_hook lookup
task_handle_hook_run-Accounted_example =
    task_handle_hook_run-Accounted lib error_text run hooks a 9 operator hook
      (metadata "h" (context "x" "g" ∷ []), a, operator) (failed "exit status 1") refl refl refl

task_handle_enable_kubernetes_bindings-ok_example :
    (out : TaskResult × Task × Hook ℕ × Manager) × (task_handle_enable_kubernetes_bindings filters
        client [] 9
        (λ n. "id")
        "error"
        hook
        no_monitors
        a
      ≡ ok out)
    × ((any (fails filters client) controller.kubernetes_bindings ≡ true)
          × (out.0.status ≡ fail)
          × (out.0.head_tasks ≡ [])
          × (out.1 ≡ record a { failure_message = "error" })
        ⊎ (out.0.status ≡ success)
          × (out.1 ≡ a)
          × EachSynchronized filters client
              (RunsFor filters client "h" 9)
              controller.kubernetes_bindings
              out.0.head_tasks)
task_handle_enable_kubernetes_bindings-ok_example =
    task_handle_enable_kubernetes_bindings-ok filters client [] 9 (λ n. "id") "error" hook
      controller no_monitors a refl tt

abbrev dropped : ObjectAndFilterResult
dropped = record {
  jq_filter = "";
  checksum = "1";
  resource_id = "a";
  remove_object = true;
  object = none;
  filter_result = "";
  object_bytes = 0;
}

abbrev fired : KubeEvent
fired = record {
  monitor_id = "m";
  type = KubeEventType.unset;
  watch_events = added ∷ [];
  objects = dropped ∷ [];
}

abbrev link : MonitorLink
link = record {
  binding_name = "pods";
  monitor_id = "m";
  include_snapshots = [];
  allow_failure = false;
  jq_filter = "";
  queue_name = "main";
  group = "";
  wait_for_synchronization = false;
}

handle_watch_event-panic_example :
    convert_binding_context_list
      (λ s. true)
      "v0"
      (convert_kube_event_to_binding_context (record fired { type = event }) link)
    ≡ panic
unfolding new_resource_informer handle_watch_event lookup insert
handle_watch_event-panic_example =
    handle_watch_event-panic filters (λ s. true) (new_resource_informer monitor)
      (record (new_resource_informer monitor) { cached_objects = ("a", dropped) ∷ [] })
      (unstructured (pod "a" "1")) added fired link refl refl
