-- ===== src/Operator/HookRun.antt =====
-- shell-operator/pkg/shell-operator/operator.go, `TaskHandleHookRun`: what the
-- handler of a queue does with a task to run a hook. The run of the hook, `run`, is that of
-- Hook/Run.antt. Of the operator's own metrics, the counters of results are kept.
use argodemo.Common.{
  arith, ℕ, suc, ◌+◌, ◌≡◌, ◌⊎◌, inl, inr, refl, String, true, false, List, [], ◌∷◌, Option, none,
  some, Bool-cases, if◌then◌else◌, ◌==◌, Outcome, ok, panic, ◌>>=◌,
}
use argodemo.Task.{Task, HookMetadata, hook_metadata_accessor}
use argodemo.Task.Context.{BindingContext, BindingType}
use argodemo.Metrics.Vault.Collectors.{Library}
use argodemo.Metrics.Operation.{MetricOperation}
use argodemo.Metrics.Storage.{MetricStorage, BatchError, send_batch}
use argodemo.Hook.Manager.{Hook, HookManager, get_hook}
use argodemo.Hook.Run.{RunResult, metrics, failed}
use argodemo.Queue.Handle.{TaskResult, no_result, success, fail}
use argodemo.Queue.Set.{TaskQueueSet, get_by_name}
use argodemo.Operator.Combine.{combine_binding_context_for_hook}

pub record Operator (F : Type 0) : Type 0 where
  pub task_queues : TaskQueueSet
  pub hook_metric_storage : MetricStorage F
  pub allowed_errors_total : ℕ
  pub errors_total : ℕ
  pub success_total : ℕ

module _ {F : Type 0} (lib : Library F) (error_text : BatchError → String) where
  -- The result of the task, and the task and the operator after it. The task is the one in the
  -- queue, by its pointer.
  unfoldable pub finish :
      HookMetadata → Task → Operator F → ℕ → Option String → TaskResult × Task × Operator F
  finish meta t op now none =
      (record no_result { status = success }, t, record op { success_total = suc op.success_total })
  finish meta t op now (some message) =
      if meta.allow_failure
      then (
        record no_result { status = success },
        t,
        record op { allowed_errors_total = suc op.allowed_errors_total },
      )
      else (
        record no_result { status = fail },
        record t { failure_message = message; queued_at = now },
        record op { errors_total = suc op.errors_total },
      )

  -- The contexts of a `v1` hook are combined with those of the tasks that follow.
  unfoldable pub combined_metadata :
      Hook F → Task → Operator F → Outcome (HookMetadata × Task × Operator F)
  unfolding hook_metadata_accessor
  combined_metadata h t op =
      let meta = hook_metadata_accessor t.metadata in
      if h.config.version == "v1"
      then (combine_binding_context_for_hook (get_by_name op.task_queues t.queue_name) t
            (λ x. false) op.task_queues
          >>= λ r. (elim r.0 [
            | none ↦ ok (meta, t, record op { task_queues = r.1 })
            | some bcs ↦
                (let meta' : HookMetadata = record meta { binding_context = bcs } in
                  ok (meta', record t { metadata = some meta' }, record op { task_queues = r.1 }))
          ]))
      else ok (meta, t, op)

  unfoldable pub after_run :
      HookMetadata → Task → Operator F → ℕ → RunResult F → TaskResult × Task × Operator F
  unfolding finish
  after_run meta t op now (failed message) = finish meta t op now (some message)
  after_run meta t op now (metrics ops) =
      let sent = send_batch lib ops (("hook", meta.hook_name) ∷ []) op.hook_metric_storage in
      let op' : Operator F = record op { hook_metric_storage = sent.1 } in
      finish meta t op' now (elim sent.0 [ none ↦ none | some e ↦ some (error_text e) ])

  -- A hook that is not found is nil, which panics.
  unfoldable pub task_handle_hook_run :
      (Hook F → BindingType → List BindingContext → Outcome (RunResult F))
      → HookManager F
      → Task
      → ℕ
      → Operator F
      → Outcome (TaskResult × Task × Operator F)
  unfolding get_hook combined_metadata after_run
  task_handle_hook_run run hm t now op =
      elim (get_hook hm (hook_metadata_accessor t.metadata).hook_name) [
        | none ↦ panic
        | some h ↦
            (combined_metadata h t op >>= λ r.
            run h r.0.binding_type r.0.binding_context >>= λ result.
            ok (after_run r.0 r.1 r.2 now result))
      ]

  abbrev Returned : Type 0
  Returned = TaskResult × Task × Operator F

  abbrev sent :
      HookMetadata → Operator F → List (MetricOperation F) → Option BatchError × MetricStorage F
  sent meta op ops = send_batch lib ops (("hook", meta.hook_name) ∷ []) op.hook_metric_storage

  -- The hook ran without an error, and its metrics were accepted.
  abbrev Works : HookMetadata → Operator F → RunResult F → Type 0
  Works meta op result =
      (ops : List (MetricOperation F)) × (result ≡ metrics ops) × ((sent meta op ops).0 ≡ none)

  -- The run of the hook failed with the message, or its metrics were refused with it.
  abbrev Breaks : HookMetadata → Operator F → RunResult F → String → Type 0
  Breaks meta op result message =
      (result ≡ failed message)
      ⊎ ((ops : List (MetricOperation F)) × (err : BatchError) × (result ≡ metrics ops)
          × ((sent meta op ops).0 ≡ some err)
          × (message ≡ error_text err))

  -- The counters of successes, of allowed errors and of errors, and what they were raised by.
  abbrev Counts : Operator F → Operator F → ℕ → ℕ → ℕ → Type 0
  Counts op op' successes allowed errors =
      (op'.success_total ≡ op.success_total + successes)
      × (op'.allowed_errors_total ≡ op.allowed_errors_total + allowed)
      × (op'.errors_total ≡ op.errors_total + errors)

  abbrev Succeeded : Task → Operator F → Returned → Type 0
  Succeeded t op out = (out.0.status ≡ success) × (out.1 ≡ t) × Counts op out.2 1 0 0

  abbrev Allowed : HookMetadata → Task → Operator F → Returned → Type 0
  Allowed meta t op out =
      (meta.allow_failure ≡ true) × (out.0.status ≡ success) × (out.1 ≡ t) × Counts op out.2 0 1 0

  abbrev Failed : HookMetadata → Task → Operator F → ℕ → String → Returned → Type 0
  Failed meta t op now message out =
      (meta.allow_failure ≡ false)
      × (out.0.status ≡ fail)
      × (out.1 ≡ record t { failure_message = message; queued_at = now })
      × Counts op out.2 0 0 1

  -- No task is returned, and the queues are left alone.
  abbrev Quiet : Operator F → Returned → Type 0
  Quiet op out =
      (out.0.head_tasks ≡ [])
      × (out.0.tail_tasks ≡ [])
      × (out.0.after_tasks ≡ [])
      × (out.2.task_queues ≡ op.task_queues)

  abbrev pub Accounted : HookMetadata → Task → Operator F → ℕ → RunResult F → Returned → Type 0
  Accounted meta t op now result out =
      (Works meta op result × Succeeded t op out
        ⊎ (message : String) × Breaks meta op result message
          × (Allowed meta t op out ⊎ Failed meta t op now message out))
      × Quiet op out

  finish-some :
      (meta : HookMetadata) (t : Task) (op : Operator F) (now : ℕ) (message : String)
      → (Allowed meta t op (finish meta t op now (some message))
          ⊎ Failed meta t op now message (finish meta t op now (some message)))
        × Quiet op (finish meta t op now (some message))
  unfolding finish
  finish-some meta t op now message = elim (Bool-cases meta.allow_failure) [
    | inl e ↦
        rw e (
          inl (refl, refl, refl, (omega arith, omega arith, omega arith)),
          (refl, refl, refl, refl),
        )
    | inr e ↦
        rw e (
          inr (refl, refl, refl, (omega arith, omega arith, omega arith)),
          (refl, refl, refl, refl),
        )
  ]

  finish-none :
      (meta : HookMetadata) (t : Task) (op : Operator F) (now : ℕ)
      → Succeeded t op (finish meta t op now none) × Quiet op (finish meta t op now none)
  unfolding finish
  finish-none meta t op now =
      ((refl, refl, (omega arith, omega arith, omega arith)), (refl, refl, refl, refl))

  after_run-Accounted :
      (meta : HookMetadata) (t : Task) (op : Operator F) (now : ℕ) (r : RunResult F)
      → Accounted meta t op now r (after_run meta t op now r)
  unfolding after_run
  after_run-Accounted meta t op now (failed message) =
      let (counted, quiet) = finish-some meta t op now message in
      (inr (message, inl refl, counted), quiet)
  after_run-Accounted meta t op now (metrics ops) = by_error (sent meta op ops).0 refl
    where
      op' : Operator F
      op' = record op { hook_metric_storage = (sent meta op ops).1 }

      by_error :
          (err : Option BatchError)
          → (sent meta op ops).0 ≡ err
          → Accounted meta t op now (metrics ops) (
              finish meta t op' now
                (elim err as (λ o. Option String) [ none ↦ none | some e ↦ some (error_text e) ]))
      by_error none f =
          let (counted, quiet) = finish-none meta t op' now in
          (inl ((ops, refl, f), counted), quiet)
      by_error (some err) f =
          let (counted, quiet) = finish-some meta t op' now (error_text err) in
          (inr (error_text err, inr (ops, err, refl, f, refl), counted), quiet)

  -- The task of a hook that is found, whose contexts are combined and given to the hook without a
  -- panic, does not panic. If the hook runs without an error and its metrics are accepted, the task
  -- is a success, is left as it is and raises just the counter of successes. If the run or the
  -- metrics give an error that is allowed, it is a success too, but raises just the counter of
  -- allowed errors; if the error is not allowed, the task fails, keeps the message and the time,
  -- and raises just the counter of errors. No task is returned, and no queue is changed but by the
  -- combination.
  pub task_handle_hook_run-Accounted :
      (run : Hook F → BindingType → List BindingContext → Outcome (RunResult F))
      (hm : HookManager F) (t : Task) (now : ℕ) (op : Operator F) (h : Hook F)
      (r : HookMetadata × Task × Operator F) (result : RunResult F)
      → get_hook hm (hook_metadata_accessor t.metadata).hook_name ≡ some h
      → combined_metadata h t op ≡ ok r
      → run h r.0.binding_type r.0.binding_context ≡ ok result
      → (out : TaskResult × Task × Operator F) × (task_handle_hook_run run hm t now op ≡ ok out)
        × Accounted r.0 r.1 r.2 now result out
  unfolding task_handle_hook_run
  task_handle_hook_run-Accounted run hm t now op h r result found combined ran = (
    after_run r.0 r.1 r.2 now result,
    ground (arith, found, combined, ran),
    after_run-Accounted r.0 r.1 r.2 now result,
  )
