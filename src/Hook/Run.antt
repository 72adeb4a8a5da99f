-- ===== src/Hook/Run.antt =====
-- `Run` of shell-operator/pkg/hook/hook.go with its files: a hook is run with the contexts of a
-- task. The removal of the files is left out.
use argodemo.Common.{
  ◌⊎◌, inl, inr, String, Bool, List, Option, none, some, Dict, Outcome, ok, ◌>>=◌,
}
use argodemo.Kube.Types.{Value}
use argodemo.Kube.Informer.{Filters}
use argodemo.Kube.Manager.{Manager}
use argodemo.Kube.MonitorState.{Client}
use argodemo.Task.Context.{BindingContext, convert_binding_context_list}
use argodemo.Metrics.Operation.{MetricOperation, metric_operations_from_reader}
use argodemo.Hook.Manager.{Hook}
use argodemo.Hook.Controller.{update_snapshots}

-- The metric operations that a hook returns, or the text of an error.
pub data RunResult (F : Type 0) : Type 0 where
  metrics : List (MetricOperation F) → RunResult F
  failed : String → RunResult F

-- The files and the process of a hook, each with the text of an error on the left: the file of the
-- contexts, which is given their JSON, the file of the metrics, a run of the hook with the paths
-- of both, and the metric operations that are decoded from the file after the run.
pub record Process (F : Type 0) : Type 0 where
  pub valid_json : String → Bool
  pub context_file : String → List (Dict Value) → String ⊎ String
  pub metrics_file : String → String ⊎ String
  pub execute : String → String → String → Option String
  pub decode_metrics : String → String ⊎ List (MetricOperation F)

module _ {F : Type 0} (process : Process F) where
  unfoldable pub metric_operations_from_file : String → String ⊎ List (MetricOperation F)
  unfolding metric_operations_from_reader
  metric_operations_from_file path = elim (process.decode_metrics path) [
    | inl e ↦ inl e
    | inr ops ↦ inr (metric_operations_from_reader ops)
  ]

  -- With the contexts as they are written for the hook.
  unfoldable pub run_with : Hook F → List (Dict Value) → RunResult F
  unfolding metric_operations_from_file
  run_with h contexts = elim (process.context_file h.name contexts) [
    | inl e ↦ failed e
    | inr context_path ↦ (elim (process.metrics_file h.name) [
      | inl e ↦ failed e
      | inr metrics_path ↦ (elim (process.execute h.name context_path metrics_path) [
        | some e ↦ failed e
        | none ↦ (elim (metric_operations_from_file metrics_path) [
          | inl e ↦ failed e
          | inr ops ↦ metrics ops
        ])
      ])
    ])
  ]

  unfoldable pub hook_run :
      Filters → Client → Manager → Hook F → List BindingContext → Outcome (RunResult F)
  unfolding update_snapshots run_with
  hook_run env client mgr h bcs =
      convert_binding_context_list process.valid_json h.config.version
        (update_snapshots env client mgr h bcs)
      >>= λ contexts. ok (run_with h contexts)
