-- ===== src/Metrics/Storage.antt =====
-- shell-operator/pkg/metric_storage/metric_storage.go: batches of metric operations from hooks.
-- What is written to the Prometheus vectors outside the vault is a list of calls, which
-- Metrics/Vectors.antt performs.
pub mod Batch
use argodemo.Common.{
  ℕ, ◌≡◌, refl, String, Bool, true, false, List, [], ◌∷◌, ◌++◌, Option, none, some, if◌then◌else◌,
  ◌==◌, Dict, lookup, insert, arith,
}
use argodemo.Metrics.Operation.{MetricOperation, OperationError, validate_operations}
use argodemo.Metrics.Vault.Collectors.{
  Vault, Library, expire_vault, vault_counter_add, vault_gauge_set,
}

pub data Call (F : Type 0) : Type 0 where
  counter_add gauge_set : String → F → Dict String → Call F

pub data BatchError : Type 0 where
  invalid : List OperationError → BatchError
  no_operation : String → BatchError

pub record MetricStorage (F : Type 0) : Type 0 where
  pub grouped_vault : Vault F
  pub calls : List (Call F)

-- `MergeLabels` of two maps: the keys of the last one win.
unfoldable pub merge_labels : Dict String → Dict String → Dict String
merge_labels a [] = a
merge_labels a ((k, v) ∷ b) = merge_labels (insert k v a) b

-- The operations of each group, in the order in which they are in the batch.
abbrev pub or_nil {ℓ} : {A : Type ℓ} → Option (List A) → List A
or_nil none = []
or_nil (some l) = l

module _ {F : Type 0} where
  -- The loop over the operations, with `groupedOps` so far.
  unfoldable pub group_ops :
      Dict (List (MetricOperation F)) → List (MetricOperation F) → Dict (List (MetricOperation F))
  group_ops grouped [] = grouped
  group_ops grouped (op ∷ ops) =
      group_ops
        (if op.group == ""
          then grouped
          else insert op.group (or_nil (lookup op.group grouped) ++ op ∷ []) grouped)
        ops

  unfoldable pub non_grouped_ops : List (MetricOperation F) → List (MetricOperation F)
  non_grouped_ops [] = []
  non_grouped_ops (op ∷ ops) =
      if op.group == "" then op ∷ non_grouped_ops ops else non_grouped_ops ops

  abbrev write : Call F → MetricStorage F → MetricStorage F
  write c m = record m { calls = m.calls ++ c ∷ [] }

  -- `SendBatchV0`: an operation with neither shortcut ends the batch with an error.
  unfoldable pub send_batch_v0 :
      Dict String → List (MetricOperation F) → MetricStorage F → Option BatchError × MetricStorage F
  unfolding merge_labels
  send_batch_v0 common [] m = (none, m)
  send_batch_v0 common (op ∷ ops) m =
      let labels = merge_labels op.labels common in
      elim op.add [
        | some v ↦ send_batch_v0 common ops (write (counter_add op.name v labels) m)
        | none ↦ elim op.set [
          | some v ↦ send_batch_v0 common ops (write (gauge_set op.name v labels) m)
          | none ↦ (some (no_operation op.name), m)
        ]
      ]

  -- `ApplyOperation`.
  unfoldable pub apply_operation :
      MetricOperation F → Dict String → MetricStorage F → MetricStorage F
  unfolding merge_labels
  apply_operation op common m =
      let labels = merge_labels op.labels common in
      elim op.add [
        | some v ↦ write (counter_add op.name v labels) m
        | none ↦ elim op.set [ some v ↦ write (gauge_set op.name v labels) m | none ↦ m ]
      ]

module _ {F : Type 0} (lib : Library F) where
  unfoldable pub apply_group_operation :
      String → Dict String → MetricOperation F → Vault F → Vault F
  unfolding merge_labels
  apply_group_operation group common op v =
      if op.action == "expire" then expire_vault group v else elim op.value [
        | none ↦ v
        | some x ↦
            (if op.action == "add"
              then vault_counter_add lib group op.name x (merge_labels op.labels common) v
              else if op.action == "set"
              then vault_gauge_set lib group op.name x (merge_labels op.labels common) v
              else v)
      ]

  apply_each : String → Dict String → List (MetricOperation F) → Vault F → Vault F
  unfolding apply_group_operation
  apply_each group common [] v = v
  apply_each group common (op ∷ ops) v =
      apply_each group common ops (apply_group_operation group common op v)

  -- `ApplyGroupOperations`: the group is expired first.
  unfoldable pub apply_group_operations :
      String → Dict String → List (MetricOperation F) → Vault F → Vault F
  unfolding apply_each
  apply_group_operations group common ops v = apply_each group common ops (expire_vault group v)

  apply_groups : Dict String → Dict (List (MetricOperation F)) → Vault F → Vault F
  unfolding apply_group_operations
  apply_groups common [] v = v
  apply_groups common ((group, ops) ∷ gs) v =
      apply_groups common gs (apply_group_operations group common ops v)

  unfoldable pub send_batch :
      List (MetricOperation F) → Dict String → MetricStorage F → Option BatchError × MetricStorage F
  unfolding apply_groups
  send_batch ops common m = elim (validate_operations ops) [
    | [] ↦
        send_batch_v0 common (non_grouped_ops ops)
          (record m { grouped_vault = apply_groups common (group_ops [] ops) m.grouped_vault })
    | e ∷ es ↦ (some (invalid (e ∷ es)), m)
  ]
