-- ===== src/Hook/Controller.antt =====
-- The rest of shell-operator/pkg/hook/controller/hook_controller.go: the two controllers of a
-- hook, either of which may be nil, and the snapshots of a hook.
pub mod Refreshed
use argodemo.Common.{
  ◌≡◌, refl, arith, String, List, [], ◌∷◌, map, any, Option, none, some, if◌then◌else◌, ◌==◌, Dict,
  lookup, Outcome, ok, panic, All, subst, sym, ap,
}
use argodemo.Kube.Types.{ObjectAndFilterResult}
use argodemo.Kube.Informer.{Filters}
use argodemo.Kube.Manager.{Manager}
use argodemo.Kube.MonitorState.{Client}
use argodemo.Task.Context.{BindingContext, BindingType}
use argodemo.Schedule.{ScheduleManager, Cron}
use argodemo.Hook.Bindings.{BindingExecutionInfo, ScheduleConfig, OnKubernetesEventConfig}
use argodemo.Hook.Schedules
use argodemo.Hook.Kubernetes
use argodemo.Hook.Kubernetes.Snapshots.{lookup-snapshots_from}
use argodemo.Hook.Manager.{Hook}

-- The snapshots that the first binding of the name includes.
unfoldable pub includes_of_kubernetes : List OnKubernetesEventConfig → String → List String
includes_of_kubernetes [] name = []
includes_of_kubernetes (b ∷ bs) name =
    if name == b.binding_name then b.include_snapshots_from else includes_of_kubernetes bs name

unfoldable pub includes_of_schedule : List ScheduleConfig → String → List String
includes_of_schedule [] name = []
includes_of_schedule (b ∷ bs) name =
    if name == b.binding_name then b.include_snapshots_from else includes_of_schedule bs name

module _ {F : Type 0} where
  -- `kubernetesBindings` and `scheduleBindings` are those of the controllers.
  unfoldable pub included_for : Hook F → BindingType → String → List String
  unfolding includes_of_kubernetes includes_of_schedule
  included_for h BindingType.kubernetes name = elim h.kubernetes_controller [
    | none ↦ []
    | some c ↦ includes_of_kubernetes c.kubernetes_bindings name
  ]
  included_for h BindingType.schedule name = elim h.schedule_controller [
    | none ↦ []
    | some c ↦ includes_of_schedule c.schedule_bindings name
  ]
  included_for h BindingType.on_startup name = []
  included_for h BindingType.unset name = []

  unfoldable pub hook_start_monitors : Hook F → Manager → Outcome Manager
  hook_start_monitors h mgr = elim h.kubernetes_controller [
    | none ↦ ok mgr
    | some c ↦ Kubernetes.start_monitors c mgr
  ]

  unfoldable pub hook_stop_monitors : Hook F → Manager → Manager
  hook_stop_monitors h mgr = elim h.kubernetes_controller [
    | none ↦ mgr
    | some c ↦ Kubernetes.stop_monitors c mgr
  ]

  module _ {C : Type 0} (lib : Cron C) where
    unfoldable pub hook_enable_schedule_bindings :
        Hook F → ScheduleManager C → Hook F × ScheduleManager C
    hook_enable_schedule_bindings h sm = elim h.schedule_controller [
      | none ↦ (h, sm)
      | some c ↦
          (let (c', sm') = Schedules.enable_schedule_bindings lib c sm in
            (record h { schedule_controller = some c' }, sm'))
    ]

    unfoldable pub hook_disable_schedule_bindings :
        Hook F → ScheduleManager C → Hook F × ScheduleManager C
    hook_disable_schedule_bindings h sm = elim h.schedule_controller [
      | none ↦ (h, sm)
      | some c ↦
          (let (c', sm') = Schedules.disable_schedule_bindings lib c sm in
            (record h { schedule_controller = some c' }, sm'))
    ]

  module _ (env : Filters) (client : Client) (mgr : Manager) where
    -- The infos for the callback, or `none` for an error.
    unfoldable pub hook_enable_kubernetes_bindings :
        Hook F → Option (List BindingExecutionInfo) × Hook F × Manager
    hook_enable_kubernetes_bindings h = elim h.kubernetes_controller [
      | none ↦ (some [], h, mgr)
      | some c ↦
          (let (infos, c', mgr') = Kubernetes.enable_kubernetes_bindings env client c mgr in
            (infos, record h { kubernetes_controller = some c' }, mgr'))
    ]

    unfoldable pub kubernetes_snapshots : Hook F → Dict (List ObjectAndFilterResult)
    kubernetes_snapshots h = elim h.kubernetes_controller [
      | none ↦ []
      | some c ↦ Kubernetes.snapshots env client c mgr
    ]

    -- A nil controller panics.
    unfoldable pub kubernetes_snapshots_for :
        Hook F → BindingType → String → Outcome (Dict (List ObjectAndFilterResult))
    unfolding included_for
    kubernetes_snapshots_for h type name = elim h.kubernetes_controller [
      | none ↦ panic
      | some c ↦ ok (Kubernetes.snapshots_from env client c mgr (included_for h type name))
    ]

    -- With the controller, whose snapshots are there.
    abbrev pub refreshed :
        Hook F → Kubernetes.KubernetesBindingsController → BindingContext → BindingContext
    refreshed h c bc = record bc {
      snapshots =
          Kubernetes.snapshots_from env client c mgr
            (included_for h bc.metadata.binding_type bc.binding);
    }

    unfoldable pub update_snapshots : Hook F → List BindingContext → List BindingContext
    unfolding included_for
    update_snapshots h bcs = elim h.kubernetes_controller [
      | none ↦ bcs
      | some c ↦ map (refreshed h c) bcs
    ]
