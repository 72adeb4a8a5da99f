-- ===== src/Operator/System/Initial.antt =====
-- A running operator of shell-operator/pkg/shell-operator, from the hooks of a directory.
use argodemo.Common.{
  ℕ, ◌≡◌, ◌≢◌, refl, sym, ap, ◌∙◌, subst, arith, String, false, List, [], ◌∷◌, All, none, some,
  ◌==◌, Dict, lookup, lookup-insert, Option-cases, Bool-cases, inl, inr, ok, ◌>>=◌,
}
use argodemo.Kube.Types.{KubeEvent, synchronization}
use argodemo.Kube.EventText.{kube_event_text-ok}
use argodemo.Kube.Manager.{Manager}
use argodemo.Task.{Task, hook_metadata_accessor}
use argodemo.Task.Context.{kubernetes, schedule}
use argodemo.Hook.Config.{Library}
use argodemo.Hook.Config.Load.{Loader, load_and_validate, loaded, failed, Loaded}
use argodemo.Hook.Bindings.{OnKubernetesEventConfig, ScheduleConfig}
use argodemo.Hook.Kubernetes.{KubernetesBindingsController}
use argodemo.Hook.Kubernetes.Monitors.{Linked}
use argodemo.Hook.Manager.{
  Hook, HookManager, get_hook, get_hooks_in_order, kube_events_of, init_kubernetes_bindings,
  init_schedule_bindings,
}
use argodemo.Hook.Init.{
  HookFiles, no_hooks, register_hook, load_hook, init_each, init_hooks, with_controllers,
  library_for,
}
use argodemo.Hook.Init.Indexes.{
  Known, All-with_binding, init_hooks-Indexed, kube_events_of-Known, schedule_events_of-Known,
}
use argodemo.Operator.Handler.{
  Setting, World, Moment, handle_kube_event, handle_schedule_event, handle_enable_kubernetes,
  queued, event_tasks, or_nil,
}
use argodemo.Operator.System.{Sound}
use argodemo.Operator.System.Reach.{Steps, Steps-Sound, after_enabled}
use argodemo.Operator.Enable.{
  task_handle_enable_kubernetes_bindings, task_handle_enable_kubernetes_bindings-ok,
}
use argodemo.Queue.Handle.{TaskResult, no_result, success}
use argodemo.Kube.Informer.{Filters}
use argodemo.Kube.MonitorState.{Client}

module _ {F : Type 0} where
  -- No hook has a link to a monitor.
  abbrev Unlinked : HookManager F → Type 0
  Unlinked hooks =
      (name : String) (h : Hook F) (c : KubernetesBindingsController)
      → lookup name hooks.hooks_by_name ≡ some h
      → h.kubernetes_controller ≡ some c
      → c.binding_monitor_links ≡ []

  abbrev NewHook : Hook F → Type 0
  NewHook h =
      (c : KubernetesBindingsController)
      → h.kubernetes_controller ≡ some c
      → c.binding_monitor_links ≡ []

  init_bindings-NewHook :
      (h : Hook F) (ks : List OnKubernetesEventConfig) (ss : List ScheduleConfig)
      → h.kubernetes_controller ≡ none
      → NewHook (init_schedule_bindings (init_kubernetes_bindings h ks) ss)
  unfolding init_schedule_bindings init_kubernetes_bindings
  init_bindings-NewHook h [] [] e c f = ground (arith, e, f)
  init_bindings-NewHook h [] (s ∷ ss) e c f = ground (arith, e, f)
  init_bindings-NewHook h (k ∷ ks) [] e c f = ground (arith, e, f)
  init_bindings-NewHook h (k ∷ ks) (s ∷ ss) e c f = ground (arith, e, f)

  register_hook-Unlinked :
      (h : Hook F) (hooks : HookManager F)
      → NewHook h
      → Unlinked hooks
      → Unlinked (register_hook h hooks)
  unfolding register_hook
  register_hook-Unlinked h hooks new u name g c e f = elim (Bool-cases (h.name == name)) [
    | inl same ↦
        (let is_h : h ≡ g =
            ground (arith, e, same, lookup-insert h.name name h hooks.hooks_by_name) in
          new c (ap (λ (h : Hook F). h.kubernetes_controller) is_h ∙ f))
    | inr apart ↦
        u name g c (ground (arith, e, apart, lookup-insert h.name name h hooks.hooks_by_name)) f
  ]

  module _ (lib : Library) (loader : Loader F) (files : HookFiles) (dir : String) where
    load_hook-NewHook :
        (path : String) (h : Hook F) → load_hook lib loader files dir path ≡ some h → NewHook h
    unfolding load_hook
    load_hook-NewHook path h e = elim (Option-cases (files.relative dir path)) [
      | inl f ↦ ground (arith, e, f)
      | inr (name, f) ↦ (elim (Option-cases (files.config_output path)) [
        | inl g ↦ ground (arith, e, f, g)
        | inr (output, g) ↦
            by_config name output f g
              (load_and_validate (library_for lib loader files dir path) loader output) refl
      ])
    ]
      where
        by_config :
            (name output : String)
            → files.relative dir path ≡ some name
            → files.config_output path ≡ some output
            → (r : Loaded F)
            → load_and_validate (library_for lib loader files dir path) loader output ≡ r
            → NewHook h
        by_config name output f g (failed err) k = ground (arith, e, f, g, k)
        by_config name output f g (loaded c) k =
            (let same : with_controllers lib loader files dir name c ≡ h =
                ground (arith, e, f, g, k) in
              subst NewHook same (init_bindings-NewHook _ c.on_kubernetes_events c.schedules refl))

    init_each-Unlinked :
        (paths : List String) (hm after : HookManager F)
        → Unlinked hm
        → init_each lib loader files dir paths hm ≡ (false, after)
        → Unlinked after
    unfolding init_each
    init_each-Unlinked [] hm after u e = subst Unlinked (ap (λ r. r.1) e) u
    init_each-Unlinked (path ∷ paths) hm after u e =
        elim (Option-cases (load_hook lib loader files dir path)) [
          | inl f ↦ ground (arith, e, f)
          | inr (h, f) ↦
              init_each-Unlinked paths (register_hook h hm) after
                (register_hook-Unlinked h hm (load_hook-NewHook path h f) u) (ground (arith, e, f))
        ]

    pub init_hooks-Sound :
        (hooks : HookManager F) (mgr : Manager)
        → init_hooks lib loader files dir ≡ (false, hooks)
        → Sound hooks mgr
    unfolding init_hooks get_hook lookup
    init_hooks-Sound hooks mgr e =
        let (paths, f, hs, g, i) = init_hooks-Indexed lib loader files dir hooks e in
        record {
          known = λ t.
              subst (All (Known hooks)) (sym (i.in_order t)) (All-with_binding hooks t hs i.known);
          linked = λ name h c found k.
              subst (λ ls. Linked ls mgr)
                (sym (
                  init_each-Unlinked (files.sort paths) no_hooks hooks
                    (λ n h c l k. ground (arith, l)) (ground (arith, e, f)) name h c found k))
                tt;
        }

  -- When the hooks of a directory are initialised without an error and the operator starts with
  -- them, then after any steps, in any order, no event of the kube events manager that is not a
  -- Synchronization and no crontab of the schedule manager panics on its way to the queues.
  pub init_hooks-Steps :
      {C : Type 0} (set : Setting F C) (at : Moment) (lib : Library) (loader : Loader F)
      (files : HookFiles) (dir : String) (w w' : World F C) (ev : KubeEvent) (spec : String)
      → init_hooks lib loader files dir ≡ (false, w.hooks)
      → Steps set w w'
      → ev.type ≢ synchronization
      → ((after : World F C) × (handle_kube_event set at ev w' ≡ ok after))
        × ((after : World F C) × (handle_schedule_event set at spec w' ≡ ok after))
  unfolding handle_kube_event handle_schedule_event get_hooks_in_order
  init_hooks-Steps set at lib loader files dir w w' ev spec e steps event =
      let s =
        Steps-Sound set w w' steps (init_hooks-Sound lib loader files dir w.hooks w.monitors e) in
      let (infos, f) =
        kube_events_of-Known set.filters set.client w'.monitors w'.hooks ev
          (w'.hooks.hooks_in_order kubernetes) (s.known kubernetes) in
      let (runs, g) =
        schedule_events_of-Known set.filters set.client w'.monitors w'.hooks spec
          (w'.hooks.hooks_in_order schedule) (s.known schedule) in
      (
        (
          queued set at (event_tasks set at kubernetes 0 infos) w',
          ap
                (λ o. o >>= λ shown.
                  kube_events_of set.filters set.client w'.monitors w'.hooks ev
                    (or_nil set at (get_hooks_in_order set.sort w'.hooks kubernetes))
                  >>= λ infos. ok (queued set at (event_tasks set at kubernetes 0 infos) w'))
                (kube_event_text-ok ev event).1
              ∙ ap
                  (λ o.
                    o >>= λ infos. ok (queued set at (event_tasks set at kubernetes 0 infos) w'))
                  f,
        ),
        (
          queued set at (event_tasks set at schedule 0 runs) w',
          ap (λ o. o >>= λ infos. ok (queued set at (event_tasks set at schedule 0 infos) w')) g,
        ),
      )

  idle-enabled :
      (env : Filters) (client : Client) (labels : Dict String) (now : ℕ) (ids : ℕ → String)
      (message : String) (h : Hook F) (mgr : Manager) (t : Task)
      → h.kubernetes_controller ≡ none
      → task_handle_enable_kubernetes_bindings env client labels now ids message h mgr t
        ≡ ok (record no_result { status = success }, t, h, mgr)
  unfolding task_handle_enable_kubernetes_bindings
  idle-enabled env client labels now ids message h mgr t f = ground (arith, f)

  -- In every world that such an operator reaches, a task that enables the kubernetes bindings of a
  -- hook that is found is handled without a panic.
  pub init_hooks-enable :
      {C : Type 0} (set : Setting F C) (at : Moment) (lib : Library) (loader : Loader F)
      (files : HookFiles) (dir : String) (w w' : World F C) (t : Task) (h : Hook F)
      → init_hooks lib loader files dir ≡ (false, w.hooks)
      → Steps set w w'
      → get_hook w'.hooks (hook_metadata_accessor t.metadata).hook_name ≡ some h
      → (out : TaskResult × Task × World F C) × (handle_enable_kubernetes set at t w' ≡ ok out)
  unfolding handle_enable_kubernetes
  init_hooks-enable set at lib loader files dir w w' t h e steps found =
      let s =
        Steps-Sound set w w' steps (init_hooks-Sound lib loader files dir w.hooks w.monitors e) in
      let name = (hook_metadata_accessor t.metadata).hook_name in
      elim (Option-cases h.kubernetes_controller) [
        | inl f ↦ (
          after_enabled set at name w' (record no_result { status = success }, t, h, w'.monitors),
          ground (
            arith,
            found,
            idle-enabled set.filters set.client set.log_labels at.now at.ids set.failure_message h
                w'.monitors t f,
          ),
        )
        | inr (c, f) ↦
            (let ran =
                task_handle_enable_kubernetes_bindings-ok set.filters set.client set.log_labels
                  at.now at.ids set.failure_message h c w'.monitors t f
                  (s.linked name h c found f) in
              (after_enabled set at name w' ran.0, ground (arith, found, ran.1)))
      ]
