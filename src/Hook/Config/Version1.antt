-- ===== src/Hook/Config/Version1.antt =====
-- hook_config.go, `ConvertAndCheckV1` with `ConvertScheduleV1`, `CheckScheduleV1` and
-- `CheckOnKubernetesEventV1`: the current configuration.
use argodemo.Common.{
  ℕ, suc, String, Bool, not, ◌&&◌, List, [], ◌∷◌, ◌++◌, Option, none, some, if◌then◌else◌, ◌==◌,
}
use argodemo.Kube.Types.{WatchEventType, KubeEventMode}
use argodemo.Kube.Monitor.{
  MonitorConfig, no_monitor, LabelSelector, FieldSelectorRequirement, NamespaceSelector, with_mode,
  with_event_types, with_name_selector, with_namespace_selector, with_field_selector,
  with_label_selector, format_field_selector_ok,
}
use argodemo.Hook.Bindings.{ScheduleConfig, OnKubernetesEventConfig}
use argodemo.Hook.Config.{
  HookConfig, RawValue, ConfigError, CheckError, crontab_is_invalid, api_version_is_invalid,
  label_selector_is_invalid, field_selector_is_invalid, mutually_exclusive, invalid_schedule,
  invalid_kubernetes, invalid_include_snapshots, Checked, valid, invalid, and_then, Library,
  or_default, nonempty, convert_on_startup,
}
use argodemo.Hook.Config.Checks.{check_include_snapshots}
use argodemo.Hook.Config.Groups.{group_snapshots, update_kubernetes, update_schedules}

pub record ScheduleConfigV1 : Type 0 where
  pub name : String
  pub crontab : String
  pub allow_failure : Bool
  pub include_snapshots_from : List String
  pub queue : String
  pub group : String

-- `none` is an absent field. The resynchronization period is never read, and left out.
pub record OnKubernetesEventConfigV1 : Type 0 where
  pub name : String
  pub watch_event_types : Option (List WatchEventType)
  pub execute_hook_on_events : Option (List WatchEventType)
  pub execute_hook_on_synchronization : String
  pub wait_for_synchronization : String
  pub keep_full_objects_in_memory : String
  pub mode : KubeEventMode
  pub api_version : String
  pub kind : String
  pub name_selector : Option (List String)
  pub label_selector : Option LabelSelector
  pub field_selector : Option (List FieldSelectorRequirement)
  pub namespace : Option NamespaceSelector
  pub jq_filter : String
  pub allow_failure : Bool
  pub include_snapshots_from : List String
  pub queue : String
  pub group : String

pub record HookConfigV1 (F : Type 0) : Type 0 where
  pub on_startup : RawValue F
  pub schedule : List ScheduleConfigV1
  pub on_kubernetes_event : List OnKubernetesEventConfigV1

-- One error for each requirement on the name of the object.
abbrev name_requirements : List FieldSelectorRequirement → List CheckError
name_requirements [] = []
name_requirements (r ∷ rs) =
    if r.field == "metadata.name"
    then mutually_exclusive ∷ name_requirements rs
    else name_requirements rs

abbrev include_errors : List OnKubernetesEventConfig → List String → List CheckError
include_errors bs includes = elim (check_include_snapshots bs includes) [
  | none ↦ []
  | some e ↦ e ∷ []
]

module _ (lib : Library) where
  unfoldable pub check_on_kubernetes_event_v1 : OnKubernetesEventConfigV1 → List CheckError
  unfolding format_field_selector_ok
  check_on_kubernetes_event_v1 k =
      (if k.api_version == ""
        then []
        else if lib.parses_group_version k.api_version
        then []
        else api_version_is_invalid ∷ [])
      ++ elim k.label_selector [
        | none ↦ []
        | some l ↦ (if lib.formats_label_selector l then [] else label_selector_is_invalid ∷ [])
      ]
      ++ (if format_field_selector_ok k.field_selector then [] else field_selector_is_invalid ∷ [])
      ++ elim k.name_selector [
        | none ↦ []
        | some ns ↦
            (if nonempty ns
              then (elim k.field_selector [ none ↦ [] | some rs ↦ name_requirements rs ])
              else [])
      ]

  -- No check is made of an empty list, which has no error anyway.
  unfoldable pub check_schedule_v1 :
      List OnKubernetesEventConfig → ScheduleConfigV1 → List CheckError
  unfolding check_include_snapshots
  check_schedule_v1 bs s =
      (if lib.parses_crontab s.crontab then [] else crontab_is_invalid ∷ [])
      ++ include_errors bs s.include_snapshots_from

  unfoldable pub convert_schedule_v1 : ℕ → ScheduleConfigV1 → ScheduleConfig
  convert_schedule_v1 i s = record {
    binding_name = or_default "schedule" s.name;
    allow_failure = s.allow_failure;
    schedule_entry = record { crontab = s.crontab; id = lib.schedule_id i };
    include_snapshots_from = s.include_snapshots_from;
    queue = or_default "main" s.queue;
    group = s.group;
  }

  unfoldable pub convert_schedules_v1 :
      List OnKubernetesEventConfig → ℕ → List ScheduleConfigV1 → Checked (List ScheduleConfig)
  unfolding check_schedule_v1 convert_schedule_v1
  convert_schedules_v1 bs i [] = valid []
  convert_schedules_v1 bs i (s ∷ ss) =
      let later = convert_schedules_v1 bs (suc i) ss in
      (elim (check_schedule_v1 bs s) [
        | e ∷ es ↦ invalid (invalid_schedule i (e ∷ es))
        | [] ↦ and_then later (λ rest. valid (convert_schedule_v1 i s ∷ rest))
      ])

  unfoldable pub event_types_v1 : OnKubernetesEventConfigV1 → Option (List WatchEventType)
  event_types_v1 k = elim k.execute_hook_on_events [
    | some types ↦ some types
    | none ↦ k.watch_event_types
  ]

  unfoldable pub monitor_v1 : ℕ → OnKubernetesEventConfigV1 → Bool → MonitorConfig
  unfolding with_mode with_event_types with_name_selector with_namespace_selector
      with_field_selector with_label_selector event_types_v1
  monitor_v1 i k keep =
      let named = record no_monitor {
        debug_name = lib.monitor_debug_name k.name i;
        monitor_id = lib.monitor_id i;
      } in
      let typed = record (with_mode k.mode named) { api_version = k.api_version; kind = k.kind } in
      let selected = with_label_selector k.label_selector (
        with_namespace_selector k.namespace
          (with_field_selector k.field_selector (with_name_selector k.name_selector typed))) in
      record (with_event_types (event_types_v1 k) (record selected { jq_filter = k.jq_filter })) {
        keep_full_objects_in_memory = keep;
      }

  unfoldable pub convert_kubernetes_v1 : ℕ → OnKubernetesEventConfigV1 → OnKubernetesEventConfig
  unfolding monitor_v1
  convert_kubernetes_v1 i k =
      let keep = not (k.keep_full_objects_in_memory == "false") in
      record {
        binding_name = or_default "kubernetes" k.name;
        allow_failure = k.allow_failure;
        monitor = monitor_v1 i k keep;
        include_snapshots_from = k.include_snapshots_from;
        queue = or_default "main" k.queue;
        group = k.group;
        execute_hook_on_synchronization = not (k.execute_hook_on_synchronization == "false");
        wait_for_synchronization =
            not (k.wait_for_synchronization == "false" && not (k.queue == ""));
        keep_full_objects_in_memory = keep;
      }

  unfoldable pub convert_all_v1 :
      ℕ → List OnKubernetesEventConfigV1 → Checked (List OnKubernetesEventConfig)
  unfolding check_on_kubernetes_event_v1 convert_kubernetes_v1
  convert_all_v1 i [] = valid []
  convert_all_v1 i (k ∷ ks) =
      let later = convert_all_v1 (suc i) ks in
      (elim (check_on_kubernetes_event_v1 k) [
        | e ∷ es ↦ invalid (invalid_kubernetes i (e ∷ es))
        | [] ↦ and_then later (λ rest. valid (convert_kubernetes_v1 i k ∷ rest))
      ])

  -- The second loop over the kubernetes bindings.
  unfoldable pub check_all_includes :
      List OnKubernetesEventConfig → ℕ → List OnKubernetesEventConfigV1 → Option ConfigError
  unfolding check_include_snapshots
  check_all_includes bs i [] = none
  check_all_includes bs i (k ∷ ks) =
      let later = check_all_includes bs (suc i) ks in
      (elim (include_errors bs k.include_snapshots_from) [
        | e ∷ es ↦ some (invalid_include_snapshots i (e ∷ es))
        | [] ↦ later
      ])

  unfoldable pub convert_and_check_v1 : {F : Type 0} → HookConfigV1 F → Checked (HookConfig F)
  unfolding convert_on_startup convert_all_v1 check_all_includes convert_schedules_v1
      group_snapshots update_kubernetes update_schedules
  convert_and_check_v1 c = and_then (convert_on_startup c.on_startup) (λ startup.
      and_then (convert_all_v1 0 c.on_kubernetes_event) (λ events.
        elim (check_all_includes events 0 c.on_kubernetes_event) [
          | some e ↦ invalid e
          | none ↦ and_then (convert_schedules_v1 events 0 c.schedule) (λ schedules.
              (let groups = group_snapshots events [] in
                valid (record {
                  version = "v1";
                  on_startup = startup;
                  schedules = update_schedules groups schedules;
                  on_kubernetes_events = update_kubernetes groups events;
                })))
        ]))
