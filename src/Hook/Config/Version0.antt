-- ===== src/Hook/Config/Version0.antt =====
-- hook_config.go, `ConvertAndCheckV0` with `ConvertScheduleV0` and `CheckScheduleV0`: the legacy
-- configuration. `CheckOnKubernetesEventV0` accepts everything.
use argodemo.Common.{
  ℕ, suc, String, Bool, false, List, [], ◌∷◌, Option, none, some, if◌then◌else◌, ◌==◌,
}
use argodemo.Kube.Types.{WatchEventType, KubeEventMode, added, modified, deleted}
use argodemo.Kube.Monitor.{
  MonitorConfig, no_monitor, LabelSelector, with_mode, with_event_types, with_name_selector,
  with_namespace_selector, with_label_selector,
}
use argodemo.Hook.Bindings.{ScheduleConfig, OnKubernetesEventConfig}
use argodemo.Hook.Config.{
  HookConfig, RawValue, CheckError, crontab_is_invalid, unsupported_event, invalid_schedule,
  Checked, valid, invalid, and_then, Library, or_default, convert_on_startup,
}

pub record ScheduleConfigV0 : Type 0 where
  pub name : String
  pub crontab : String
  pub allow_failure : Bool

pub record KubeNamespaceSelectorV0 : Type 0 where
  pub match_names : List String
  pub any : Bool

pub record OnKubernetesEventConfigV0 : Type 0 where
  pub name : String
  pub event_types : List String
  pub kind : String
  pub selector : Option LabelSelector
  pub object_name : String
  pub namespace_selector : Option KubeNamespaceSelectorV0
  pub jq_filter : String
  pub allow_failure : Bool

pub record HookConfigV0 (F : Type 0) : Type 0 where
  pub on_startup : RawValue F
  pub schedule : List ScheduleConfigV0
  pub on_kubernetes_event : List OnKubernetesEventConfigV0

unfoldable pub convert_event_types : List String → Checked (List WatchEventType)
convert_event_types [] = valid []
convert_event_types (e ∷ es) =
    let later = convert_event_types es in
    if e == "add"
    then and_then later (λ ts. valid (added ∷ ts))
    else if e == "update"
    then and_then later (λ ts. valid (modified ∷ ts))
    else if e == "delete"
    then and_then later (λ ts. valid (deleted ∷ ts))
    else invalid (unsupported_event e)

module _ (lib : Library) where
  unfoldable pub check_schedule_v0 : ScheduleConfigV0 → List CheckError
  check_schedule_v0 s = if lib.parses_crontab s.crontab then [] else crontab_is_invalid ∷ []

  unfoldable pub convert_schedule_v0 : ℕ → ScheduleConfigV0 → ScheduleConfig
  convert_schedule_v0 i s = record {
    binding_name = or_default "schedule" s.name;
    allow_failure = s.allow_failure;
    schedule_entry = record { crontab = s.crontab; id = lib.schedule_id i };
    include_snapshots_from = [];
    queue = "main";
    group = "";
  }

  unfoldable pub convert_schedules_v0 : ℕ → List ScheduleConfigV0 → Checked (List ScheduleConfig)
  unfolding check_schedule_v0 convert_schedule_v0
  convert_schedules_v0 i [] = valid []
  convert_schedules_v0 i (s ∷ ss) =
      let later = convert_schedules_v0 (suc i) ss in
      (elim (check_schedule_v0 s) [
        | e ∷ es ↦ invalid (invalid_schedule i (e ∷ es))
        | [] ↦ and_then later (λ rest. valid (convert_schedule_v0 i s ∷ rest))
      ])

  unfoldable pub monitor_v0 : ℕ → OnKubernetesEventConfigV0 → List WatchEventType → MonitorConfig
  unfolding with_mode with_event_types with_name_selector with_namespace_selector
      with_label_selector
  monitor_v0 i k types =
      let named = record no_monitor {
        debug_name = lib.monitor_debug_name k.name i;
        monitor_id = lib.monitor_id i;
      } in
      let typed = record (with_event_types (some types) (with_mode KubeEventMode.v0 named)) {
        kind = k.kind;
      } in
      let for_object =
        if k.object_name == ""
        then typed
        else with_name_selector (some (k.object_name ∷ [])) typed in
      let for_namespace : MonitorConfig = elim k.namespace_selector [
        | none ↦ for_object
        | some n ↦
            (if n.any
              then for_object
              else with_namespace_selector
                  (some (record { name_selector = some n.match_names; label_selector = none }))
                  for_object)
      ] in
      record (with_label_selector k.selector for_namespace) { jq_filter = k.jq_filter }

  -- The fields that are not assigned keep the zero value.
  unfoldable pub convert_kubernetes_v0 :
      ℕ → OnKubernetesEventConfigV0 → List WatchEventType → OnKubernetesEventConfig
  unfolding monitor_v0
  convert_kubernetes_v0 i k types = record {
    binding_name = or_default "onKubernetesEvent" k.name;
    allow_failure = k.allow_failure;
    monitor = monitor_v0 i k types;
    include_snapshots_from = [];
    queue = "main";
    group = "";
    execute_hook_on_synchronization = false;
    wait_for_synchronization = false;
    keep_full_objects_in_memory = false;
  }

  unfoldable pub convert_all_v0 :
      ℕ → List OnKubernetesEventConfigV0 → Checked (List OnKubernetesEventConfig)
  unfolding convert_event_types convert_kubernetes_v0
  convert_all_v0 i [] = valid []
  convert_all_v0 i (k ∷ ks) =
      let later = convert_all_v0 (suc i) ks in
      and_then (convert_event_types k.event_types)
        (λ types. and_then later (λ rest. valid (convert_kubernetes_v0 i k types ∷ rest)))

  unfoldable pub convert_and_check_v0 : {F : Type 0} → HookConfigV0 F → Checked (HookConfig F)
  unfolding convert_on_startup convert_schedules_v0 convert_all_v0
  convert_and_check_v0 c = and_then (convert_on_startup c.on_startup) (λ startup.
      and_then (convert_schedules_v0 0 c.schedule) (λ schedules.
        and_then (convert_all_v0 0 c.on_kubernetes_event) (λ events. valid (record {
          version = "v0";
          on_startup = startup;
          schedules = schedules;
          on_kubernetes_events = events;
        }))))
