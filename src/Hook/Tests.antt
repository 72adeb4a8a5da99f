-- ===== src/Hook/Tests.antt =====
-- Small configurations and controllers, and the theorems about them applied.
use argodemo.Common.{
  ℕ, ◌≡◌, refl, true, false, [], ◌∷◌, ◌++◌, none, ◌==◌, if◌then◌else◌, lookup, All,
}
use argodemo.Kube.Types.{incremental, added, deleted}
use argodemo.Kube.Manager.{Manager}
use argodemo.Kube.Tests.{filters, client, monitor}
use argodemo.Hook.Bindings.{OnKubernetesEventConfig}
use argodemo.Hook.Kubernetes.{KubernetesBindingsController, enable_kubernetes_bindings}
use argodemo.Hook.Config.{HookConfig, null, Library}
use argodemo.Hook.Config.Checks.{count_bindings}
use argodemo.Hook.Config.Groups.{fresh, merged, group_snapshots, names_in, merged-group_snapshots}
use argodemo.Hook.Config.Version0.{HookConfigV0, OnKubernetesEventConfigV0, convert_kubernetes_v0}
use argodemo.Hook.Config.Version1.{
  HookConfigV1, OnKubernetesEventConfigV1, ScheduleConfigV1, convert_and_check_v1,
  convert_kubernetes_v1, convert_schedule_v1,
}
use argodemo.Hook.Config.Includes.{Resolved, convert_and_check_v1-Resolved}

abbrev pub pods : OnKubernetesEventConfig
pods = record {
  binding_name = "pods";
  allow_failure = false;
  monitor = monitor;
  include_snapshots_from = [];
  queue = "main";
  group = "g";
  execute_hook_on_synchronization = true;
  wait_for_synchronization = true;
  keep_full_objects_in_memory = true;
}

abbrev pub nodes : OnKubernetesEventConfig
nodes = record pods { binding_name = "nodes"; monitor = record monitor { monitor_id = "n" } }

abbrev pub controller : KubernetesBindingsController
controller = record { binding_monitor_links = []; kubernetes_bindings = pods ∷ nodes ∷ [] }

abbrev pub no_monitors : Manager
no_monitors = record { monitors = []; removed = [] }

abbrev enabled : KubernetesBindingsController × Manager
enabled = (
  (enable_kubernetes_bindings filters client controller no_monitors).1,
  (enable_kubernetes_bindings filters client controller no_monitors).2,
)

merged-group_snapshots_example :
    merged (group_snapshots (pods ∷ nodes ∷ []) []) "g" ("pods" ∷ []) ≡ (
      if "g" == ""
      then "pods" ∷ []
      else ("pods" ∷ []) ++ fresh ("pods" ∷ []) (names_in "g" (pods ∷ nodes ∷ [])))
merged-group_snapshots_example = merged-group_snapshots (pods ∷ nodes ∷ []) "g" ("pods" ∷ [])

abbrev pub lib : Library
lib = record {
  parses_crontab = λ s. true;
  parses_group_version = λ s. true;
  formats_label_selector = λ l. true;
  monitor_id = λ i. "m";
  schedule_id = λ i. "s";
  monitor_debug_name = λ name i. name;
}

abbrev legacy_pods : OnKubernetesEventConfigV0
legacy_pods = record {
  name = "pods";
  event_types = "add" ∷ "delete" ∷ [];
  kind = "Pod";
  selector = none;
  object_name = "";
  namespace_selector = none;
  jq_filter = "";
  allow_failure = false;
}

abbrev pub legacy : HookConfigV0 ℕ
legacy = record { on_startup = null; schedule = []; on_kubernetes_event = legacy_pods ∷ [] }

abbrev legacy_config : HookConfig ℕ
legacy_config = record {
  version = "v0";
  on_startup = none;
  schedules = [];
  on_kubernetes_events = convert_kubernetes_v0 lib 0 legacy_pods (added ∷ deleted ∷ []) ∷ [];
}

abbrev raw_pods : OnKubernetesEventConfigV1
raw_pods = record {
  name = "pods";
  watch_event_types = none;
  execute_hook_on_events = none;
  execute_hook_on_synchronization = "";
  wait_for_synchronization = "";
  keep_full_objects_in_memory = "";
  mode = incremental;
  api_version = "v1";
  kind = "Pod";
  name_selector = none;
  label_selector = none;
  field_selector = none;
  namespace = none;
  jq_filter = "";
  allow_failure = false;
  include_snapshots_from = "pods" ∷ [];
  queue = "";
  group = "";
}

abbrev raw_schedule : ScheduleConfigV1
raw_schedule = record {
  name = "hourly";
  crontab = "0 * * * *";
  allow_failure = false;
  include_snapshots_from = "pods" ∷ [];
  queue = "";
  group = "";
}

abbrev pub current : HookConfigV1 ℕ
current = record {
  on_startup = null;
  schedule = raw_schedule ∷ [];
  on_kubernetes_event = raw_pods ∷ [];
}

abbrev pub current_config : HookConfig ℕ
current_config = record {
  version = "v1";
  on_startup = none;
  schedules = convert_schedule_v1 lib 0 raw_schedule ∷ [];
  on_kubernetes_events = convert_kubernetes_v1 lib 0 raw_pods ∷ [];
}

convert_and_check_v1-Resolved_example :
    All
      (λ k. Resolved current_config.on_kubernetes_events k.include_snapshots_from)
      current.on_kubernetes_event
    × All
        (λ s. Resolved current_config.on_kubernetes_events s.include_snapshots_from)
        current.schedule
unfolding convert_and_check_v1 count_bindings lookup
convert_and_check_v1-Resolved_example =
    convert_and_check_v1-Resolved lib current current_config refl
