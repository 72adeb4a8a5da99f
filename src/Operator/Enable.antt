-- ===== src/Operator/Enable.antt =====
-- shell-operator/pkg/shell-operator/operator.go, `TaskHandleEnableKubernetesBindings`: the task
-- that starts the monitors of a hook and gives the tasks for their first events.
use argodemo.Common.{
  arith, ℕ, suc, ◌≡◌, ◌⊎◌, inl, inr, refl, String, List, [], ◌∷◌, any, Bool-cases, none, some, Dict,
  Outcome, ok, ◌>>=◌, true,
}
use argodemo.Task.{Task, hook_run}
use argodemo.Task.Context.{kubernetes}
use argodemo.Kube.Informer.{Filters}
use argodemo.Kube.Manager.{Manager}
use argodemo.Kube.MonitorState.{Client, Monitor}
use argodemo.Hook.Bindings.{BindingExecutionInfo, OnKubernetesEventConfig}
use argodemo.Hook.Kubernetes.{
  KubernetesBindingsController, enable_kubernetes_bindings, start_monitors,
}
use argodemo.Hook.Kubernetes.Monitors.{Linked, start_monitors-enable_kubernetes_bindings}
use argodemo.Hook.Kubernetes.Synchronized.{
  EachSynchronized, synchronization_context, synchronizes, info_of, fails, enable_each-Enabling,
  if-then, if-else,
}
use argodemo.Hook.Manager.{Hook}
use argodemo.Queue.Handle.{TaskResult, no_result, success, fail}
use argodemo.Operator.Events.{hook_run_task}

-- The tasks of a hook for the first events of its monitors: they stay in the main queue.
unfoldable pub synchronization_tasks :
    String → Dict String → ℕ → (ℕ → String) → ℕ → List BindingExecutionInfo → List Task
unfolding hook_run_task
synchronization_tasks name labels now ids n [] = []
synchronization_tasks name labels now ids n (info ∷ infos) =
    record (hook_run_task (ids n) name kubernetes labels "main" info) { queued_at = now }
    ∷ synchronization_tasks name labels now ids (suc n) infos

-- The task runs the hook of the name in the main queue for a binding, with all objects that the
-- binding's new monitor holds, and keeps what the binding says of its failures.
abbrev pub RunsFor :
    Filters → Client → String → ℕ → OnKubernetesEventConfig → Monitor → Task → Type 0
RunsFor env client name now b m t =
    (t.type ≡ hook_run)
    × (t.queue_name ≡ "main")
    × (t.queued_at ≡ now)
    × (t.metadata
        ≡ some (record {
          hook_name = name;
          binding = b.binding_name;
          group = b.group;
          binding_type = kubernetes;
          binding_context = synchronization_context env client b m ∷ [];
          allow_failure = b.allow_failure;
        }))

module _ (env : Filters) (client : Client) (name : String) (labels : Dict String) (now : ℕ)
    (ids : ℕ → String) where
  synchronization_tasks-RunsFor :
      (bs : List OnKubernetesEventConfig) (infos : List BindingExecutionInfo) (n : ℕ)
      → EachSynchronized env client (λ b m info. info ≡ info_of env client b m) bs infos
      → EachSynchronized env client
          (RunsFor env client name now)
          bs
          (synchronization_tasks name labels now ids n infos)
  unfolding synchronization_tasks hook_run_task
  synchronization_tasks-RunsFor [] infos n each = rw each refl
  synchronization_tasks-RunsFor (b ∷ bs) infos n (m, e, rest) = elim (Bool-cases (synchronizes b)) [
    | inl s ↦
        (let (info, later, f, same, each) = if-then _ _ (synchronizes b) s rest in
          (
            m,
            e,
            rw (s, f, same)
                (
                  _,
                  _,
                  refl,
                  (refl, refl, refl, refl),
                  synchronization_tasks-RunsFor bs later (suc n) each,
                ),
          ))
    | inr s ↦ (
      m,
      e,
      rw s (synchronization_tasks-RunsFor bs infos n (if-else _ _ (synchronizes b) s rest)),
    )
  ]

module _ {F : Type 0} where
  -- With the hook, whose controller is changed, and the kube events manager.
  unfoldable pub task_handle_enable_kubernetes_bindings :
      Filters
      → Client
      → Dict String
      → ℕ
      → (ℕ → String)
      → String
      → Hook F
      → Manager
      → Task
      → Outcome (TaskResult × Task × Hook F × Manager)
  unfolding enable_kubernetes_bindings start_monitors synchronization_tasks
  task_handle_enable_kubernetes_bindings env client labels now ids message h mgr t =
      elim h.kubernetes_controller [
        | none ↦ ok (record no_result { status = success }, t, h, mgr)
        | some c ↦
            (let enabled = enable_kubernetes_bindings env client c mgr in
              let h' : Hook F = record h { kubernetes_controller = some enabled.1 } in
              elim enabled.0 [
                | none ↦ ok (
                  record no_result { status = fail },
                  record t { failure_message = message },
                  h',
                  enabled.2,
                )
                | some infos ↦
                    (start_monitors enabled.1 enabled.2 >>= λ m. ok (
                      record no_result {
                        status = success;
                        head_tasks = synchronization_tasks h.name labels now ids 0 infos;
                      },
                      t,
                      h',
                      m,
                    ))
              ])
      ]

  -- The handler does not panic for a hook with kubernetes bindings whose links are known to the
  -- manager. If the informers of the monitor of some binding cannot be made, it fails, without
  -- tasks. Otherwise it is a success, and its tasks, for the head of the main queue, are in the order
  -- of the bindings one for each binding that asks for a run on Synchronization and is not of the
  -- mode `v0`: a run of this hook for this binding, with the name, the group and the leave to fail of
  -- the binding and a single context, which holds the objects of the new monitor.
  pub task_handle_enable_kubernetes_bindings-ok :
      (env : Filters) (client : Client) (labels : Dict String) (now : ℕ) (ids : ℕ → String)
      (message : String) (h : Hook F) (c : KubernetesBindingsController) (mgr : Manager) (t : Task)
      → h.kubernetes_controller ≡ some c
      → Linked c.binding_monitor_links mgr
      → (out : TaskResult × Task × Hook F × Manager) × (task_handle_enable_kubernetes_bindings env
            client labels now ids message h mgr t
          ≡ ok out)
        × ((any (fails env client) c.kubernetes_bindings ≡ true)
              × (out.0.status ≡ fail)
              × (out.0.head_tasks ≡ [])
              × (out.1 ≡ record t { failure_message = message })
            ⊎ (out.0.status ≡ success)
              × (out.1 ≡ t)
              × EachSynchronized env client
                  (RunsFor env client h.name now)
                  c.kubernetes_bindings
                  out.0.head_tasks)
  unfolding task_handle_enable_kubernetes_bindings enable_kubernetes_bindings
  task_handle_enable_kubernetes_bindings-ok env client labels now ids message h c mgr t e l =
      let enabled = enable_kubernetes_bindings env client c mgr in
      let s = start_monitors-enable_kubernetes_bindings env client c mgr l in
      let h' : Hook F = record h { kubernetes_controller = some enabled.1 } in
      elim (enable_each-Enabling env client c.kubernetes_bindings c mgr) [
        | inl (f, broken) ↦ (
          (
            record no_result { status = fail },
            record t { failure_message = message },
            h',
            enabled.2,
          ),
          ground (arith, e, f),
          inl (broken, refl, refl, refl),
        )
        | inr (infos, f, each) ↦ (
          (
            record no_result {
              status = success;
              head_tasks = synchronization_tasks h.name labels now ids 0 infos;
            },
            t,
            h',
            s.0,
          ),
          ground (arith, e, f, s.1),
          inr (
            refl,
            refl,
            synchronization_tasks-RunsFor env client h.name labels now ids c.kubernetes_bindings
                infos 0 each,
          ),
        )
      ]
