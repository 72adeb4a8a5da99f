-- ===== src/Hook/Manager.antt =====
-- shell-operator/pkg/hook/hook_manager.go with hook_controller.go: the hooks, their order, and
-- the infos that an event gives for each of them. Loading hooks from files is left out.
use argodemo.Common.{
  String, Bool, true, false, not, List, [], ◌∷◌, ◌++◌, map, Option, none, some, if◌then◌else◌, Dict,
  lookup, Outcome, ok, panic, ◌>>=◌, any,
}
use argodemo.Kube.Types.{KubeEvent}
use argodemo.Kube.Informer.{Filters}
use argodemo.Kube.Manager.{Manager}
use argodemo.Kube.MonitorState.{Client}
use argodemo.Task.Context.{BindingType, on_startup, is_empty}
use argodemo.Hook.Bindings.{BindingExecutionInfo, ScheduleConfig, OnKubernetesEventConfig}
use argodemo.Hook.Config.{HookConfig, has_binding}
use argodemo.Hook.Schedules
use argodemo.Hook.Kubernetes

-- A controller is nil where the hook has no bindings of its type.
pub record Hook (F : Type 0) : Type 0 where
  pub name : String
  pub config : HookConfig F
  pub kubernetes_controller : Option Kubernetes.KubernetesBindingsController
  pub schedule_controller : Option Schedules.ScheduleBindingsController

-- `hooks_in_order` is the index by binding type; a missing key is an empty list.
pub record HookManager (F : Type 0) : Type 0 where
  pub hook_names_in_order : List String
  pub hooks_by_name : Dict (Hook F)
  pub hooks_in_order : BindingType → List (Hook F)

abbrev on_startup_hooks : BindingType → Bool
on_startup_hooks on_startup = true
on_startup_hooks _ = false

-- The first context is given the snapshots that the binding includes.
unfoldable pub with_snapshots :
    Filters
    → Client
    → Manager
    → Kubernetes.KubernetesBindingsController
    → BindingExecutionInfo
    → BindingExecutionInfo
with_snapshots env client mgr c info = elim info.binding_context [
  | [] ↦ info
  | bc ∷ bcs ↦
      (if is_empty info.include_snapshots then info else record info {
        binding_context =
            record bc {
              snapshots = Kubernetes.snapshots_from env client c mgr info.include_snapshots;
            }
            ∷ bcs;
      })
]

module _ {F : Type 0} where
  unfoldable pub init_kubernetes_bindings : Hook F → List OnKubernetesEventConfig → Hook F
  init_kubernetes_bindings h [] = h
  init_kubernetes_bindings h (b ∷ bs) = record h {
    kubernetes_controller =
        some (record { binding_monitor_links = []; kubernetes_bindings = b ∷ bs });
  }

  unfoldable pub init_schedule_bindings : Hook F → List ScheduleConfig → Hook F
  init_schedule_bindings h [] = h
  init_schedule_bindings h (b ∷ bs) = record h {
    schedule_controller = some (record { schedule_links = []; schedule_bindings = b ∷ bs });
  }

  unfoldable pub get_hook : HookManager F → String → Option (Hook F)
  get_hook hm name = lookup name hm.hooks_by_name

  -- `sort` is `sort.Slice` by the order of `onStartup`. `none` is an error. The order that
  -- sorting leaves in the index is not used but through this function, which sorts again.
  unfoldable pub get_hooks_in_order :
      (List (Hook F) → List (Hook F)) → HookManager F → BindingType → Option (List String)
  get_hooks_in_order sort hm t =
      let hooks = hm.hooks_in_order t in
      if on_startup_hooks t
      then (if any (λ h. not (has_binding h.config on_startup)) hooks
          then none
          else some (map (λ h. h.name) (sort hooks)))
      else some (map (λ h. h.name) hooks)

  unfoldable pub can_handle_kube_event : Hook F → KubeEvent → Bool
  can_handle_kube_event h ev = elim h.kubernetes_controller [
    | none ↦ false
    | some c ↦ Kubernetes.can_handle_event c ev
  ]

  unfoldable pub can_handle_schedule_event : Hook F → String → Bool
  can_handle_schedule_event h crontab = elim h.schedule_controller [
    | none ↦ false
    | some c ↦ Schedules.can_handle_event c crontab
  ]

  module _ (env : Filters) (client : Client) (mgr : Manager) where
    unfoldable pub hook_kube_event : Hook F → KubeEvent → List BindingExecutionInfo
    unfolding with_snapshots
    hook_kube_event h ev = elim h.kubernetes_controller [
      | none ↦ []
      | some c ↦ with_snapshots env client mgr c (Kubernetes.handle_event c ev) ∷ []
    ]

    unfoldable pub hook_schedule_event : Hook F → String → List BindingExecutionInfo
    unfolding with_snapshots
    hook_schedule_event h crontab = elim h.schedule_controller [
      | none ↦ []
      | some s ↦ (elim h.kubernetes_controller [
        | none ↦ Schedules.handle_event s crontab
        | some c ↦ map (with_snapshots env client mgr c) (Schedules.handle_event s crontab)
      ])
    ]

    abbrev named : Hook F → List BindingExecutionInfo → List (Hook F × BindingExecutionInfo)
    named h infos = map (λ i. (h, i)) infos

    -- The calls of the callback, in order. A hook that is not found is nil, which panics.
    unfoldable pub kube_events_of :
        HookManager F → KubeEvent → List String → Outcome (List (Hook F × BindingExecutionInfo))
    unfolding get_hook can_handle_kube_event hook_kube_event
    kube_events_of hm ev [] = ok []
    kube_events_of hm ev (name ∷ rest) =
        let later = kube_events_of hm ev rest in
        (elim (get_hook hm name) [
          | none ↦ panic
          | some h ↦
              (if can_handle_kube_event h ev
                then (later >>= λ r. ok (named h (hook_kube_event h ev) ++ r))
                else later)
        ])

    unfoldable pub schedule_events_of :
        HookManager F → String → List String → Outcome (List (Hook F × BindingExecutionInfo))
    unfolding get_hook can_handle_schedule_event hook_schedule_event
    schedule_events_of hm crontab [] = ok []
    schedule_events_of hm crontab (name ∷ rest) =
        let later = schedule_events_of hm crontab rest in
        (elim (get_hook hm name) [
          | none ↦ panic
          | some h ↦
              (if can_handle_schedule_event h crontab
                then (later >>= λ r. ok (named h (hook_schedule_event h crontab) ++ r))
                else later)
        ])
