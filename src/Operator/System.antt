-- ===== src/Operator/System.antt =====
-- The running operator of shell-operator/pkg/shell-operator as steps: events of the managers, and
-- turns of the queues, in any order.
pub mod Reach
pub mod Initial
use argodemo.Common.{
  ◌≡◌, ◌≢◌, refl, sym, ap, ◌∙◌, subst, arith, ℕ, String, Bool, true, false, List, [], ◌∷◌, map, All,
  Option, none, some, if◌then◌else◌, ◌==◌, eq_refl, eq_iff, lookup, insert, lookup-insert, has_key,
  has_key-insert, has_key-lookup, Dict, Option-cases, Bool-cases, inl, inr, Outcome, ok, panic,
  ◌>>=◌, >>=-eq-ok,
}
use argodemo.Kube.Types.{KubeEvent}
use argodemo.Kube.Informer.{Filters}
use argodemo.Kube.Manager.{Manager}
use argodemo.Kube.MonitorState.{Client}
use argodemo.Task.{Task, TaskType, hook_metadata_accessor}
use argodemo.Task.Context.{BindingType, kubernetes, schedule}
use argodemo.Hook.Bindings.{BindingExecutionInfo}
use argodemo.Hook.Kubernetes.{KubernetesBindingsController}
use argodemo.Hook.Kubernetes
use argodemo.Hook.Kubernetes.Monitors.{
  Linked, Same, More, Linked-More, enable_kubernetes_bindings-Linked,
  start_monitors-enable_kubernetes_bindings,
}
use argodemo.Hook.Manager.{Hook, HookManager, get_hook}
use argodemo.Hook.Init.Indexes.{Known}
use argodemo.Queue.Handle.{TaskResult}
use argodemo.Operator.Enable.{task_handle_enable_kubernetes_bindings}

module _ {F : Type 0} where
  -- Every hook of an index is found by its name, and is linked to monitors of the manager.
  pub record Sound (hooks : HookManager F) (mgr : Manager) : Type 0 where
    pub known : (t : BindingType) → All (Known hooks) (hooks.hooks_in_order t)
    pub linked :
        (name : String) (h : Hook F) (c : KubernetesBindingsController)
        → get_hook hooks name ≡ some h
        → h.kubernetes_controller ≡ some c
        → Linked c.binding_monitor_links mgr

  abbrev pub with_hook : String → Hook F → HookManager F → HookManager F
  with_hook name h hooks = record hooks { hooks_by_name = insert name h hooks.hooks_by_name }

  All-Known :
      (name : String) (h : Hook F) (hooks : HookManager F) (hs : List (Hook F))
      → All (Known hooks) hs
      → All (Known (with_hook name h hooks)) hs
  All-Known name h hooks [] a = tt
  All-Known name h hooks (g ∷ hs) (k, a) = (
    ground (arith, k, has_key-insert name g.name h hooks.hooks_by_name),
    All-Known name h hooks hs a,
  )

  -- A hook that changes stays linked, while the manager forgets no monitor.
  pub with_hook-Sound :
      (name : String) (h : Hook F) (hooks : HookManager F) (mgr mgr' : Manager)
      → Sound hooks mgr
      → More mgr mgr'
      → ((c : KubernetesBindingsController)
          → h.kubernetes_controller ≡ some c
          → Linked c.binding_monitor_links mgr')
      → Sound (with_hook name h hooks) mgr'
  unfolding get_hook
  with_hook-Sound name h hooks mgr mgr' s more l = record {
    known = λ t. All-Known name h hooks (hooks.hooks_in_order t) (s.known t);
    linked = λ other g c found e. elim (Bool-cases (name == other)) [
      | inl same ↦
          (let is_h : h ≡ g =
              ground (arith, found, same, lookup-insert name other h hooks.hooks_by_name) in
            l c (ap (λ (h : Hook F). h.kubernetes_controller) is_h ∙ e))
      | inr apart ↦ Linked-More c.binding_monitor_links mgr mgr' more (
          s.linked other g c
            (ground (arith, found, apart, lookup-insert name other h hooks.hooks_by_name)) e)
    ];
  }

  -- What the handler that enables kubernetes bindings does to a hook and the manager.
  abbrev pub Enabled : Manager → TaskResult × Task × Hook F × Manager → Type 0
  Enabled mgr out =
      More mgr out.3
      × ((c : KubernetesBindingsController)
          → out.2.kubernetes_controller ≡ some c
          → Linked c.binding_monitor_links out.3)

  Enabled-from :
      (mgr m : Manager) (out : TaskResult × Task × Hook F × Manager)
      (c : KubernetesBindingsController)
      → out.3 ≡ m
      → out.2.kubernetes_controller ≡ some c
      → More mgr m
      → Linked c.binding_monitor_links m
      → Enabled mgr out
  Enabled-from mgr m out c e f more l = (
    subst (More mgr) (sym e) more,
    λ d g.
        (let same : c ≡ d = ground (arith, f, g) in
          subst (λ (c : KubernetesBindingsController). Linked c.binding_monitor_links out.3) same
            (subst (Linked c.binding_monitor_links) (sym e) l)),
  )

  pub task_handle_enable_kubernetes_bindings-Enabled :
      (env : Filters) (client : Client) (labels : Dict String) (now : ℕ) (ids : ℕ → String)
      (message : String) (h : Hook F) (mgr : Manager) (t : Task)
      (out : TaskResult × Task × Hook F × Manager)
      → ((c : KubernetesBindingsController)
          → h.kubernetes_controller ≡ some c
          → Linked c.binding_monitor_links mgr)
      → task_handle_enable_kubernetes_bindings env client labels now ids message h mgr t ≡ ok out
      → Enabled mgr out
  unfolding task_handle_enable_kubernetes_bindings
  task_handle_enable_kubernetes_bindings-Enabled env client labels now ids message h mgr t out l e =
      elim (Option-cases h.kubernetes_controller) [
        | inl f ↦
            (let same : out.2 ≡ h = ground (arith, e, f) in
              let same' : out.3 ≡ mgr = ground (arith, e, f) in
              (subst (More mgr) (sym same') (λ id h. h), λ c g. ground (arith, f, g, same)))
        | inr (c, f) ↦
            (let kept = enable_kubernetes_bindings-Linked env client c mgr (l c f) in
              let ran = start_monitors-enable_kubernetes_bindings env client c mgr (l c f) in
              let enabled = Kubernetes.enable_kubernetes_bindings env client c mgr in
              elim (Option-cases enabled.0) [
                | inl g ↦
                    Enabled-from mgr enabled.2 out enabled.1 (ground (arith, e, f, g))
                      (ground (arith, e, f, g)) kept.1 kept.0
                | inr (infos, g) ↦
                    Enabled-from mgr ran.0 out enabled.1 (ground (arith, e, f, g, ran.1))
                      (ground (arith, e, f, g, ran.1)) (λ id k. ran.2 id ∙ kept.1 id k)
                      (Linked-More enabled.1.binding_monitor_links enabled.2 ran.0
                        (λ id k. ran.2 id ∙ k) kept.0)
              ])
      ]
