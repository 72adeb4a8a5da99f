-- ===== src/Metrics/Storage/Batch.antt =====
-- Batches of metric operations: errors, the grouping, and the metrics of the vault.
use argodemo.Common.{
  ◌⊎◌, ◌∙◌, ◌≡◌, refl, String, Bool, true, false, not, ◌&&◌, ◌||◌, List, [], ◌∷◌, ◌++◌, some,
  if◌then◌else◌, ◌==◌, eq_iff, Dict, lookup, insert, lookup-insert, arith, keep, append-nil,
  append_assoc, Option-cases, Bool-cases, inl, inr,
}
use argodemo.Metrics.Operation.{MetricOperation, OperationError, is_some, validate_operations}
use argodemo.Metrics.Vault.Collectors.{Library}
use argodemo.Metrics.Storage.{
  MetricStorage, invalid, or_nil, group_ops, non_grouped_ops, send_batch_v0, send_batch,
}

module _ {F : Type 0} where
  abbrev pub of_group : String → List (MetricOperation F) → List (MetricOperation F)
  of_group g ops = keep (λ op. op.group == g) ops

  group_ops_from :
      (g : String) (ops : List (MetricOperation F)) (grouped : Dict (List (MetricOperation F)))
      → (g == "") ≡ false
      → or_nil (lookup g (group_ops grouped ops)) ≡ or_nil (lookup g grouped) ++ of_group g ops
  unfolding group_ops
  group_ops_from g [] grouped h = ground (arith, append-nil (or_nil (lookup g grouped)))
  group_ops_from g (op ∷ ops) grouped h = elim (Bool-cases (op.group == "")) [
    | inl e ↦ rw (e, other e) (group_ops_from g ops grouped h)
    | inr e ↦ rw e (group_ops_from g ops _ h ∙ step (Bool-cases (op.group == g)))
  ]
    where
      other : (op.group == "") ≡ true → (op.group == g) ≡ false
      other e = ground (arith, eq_iff op.group "", eq_iff op.group g, eq_iff g "")

      step :
          ((op.group == g) ≡ true) ⊎ ((op.group == g) ≡ false)
          → or_nil
                (lookup g (insert op.group (or_nil (lookup op.group grouped) ++ op ∷ []) grouped))
              ++ of_group g ops
            ≡ or_nil (lookup g grouped)
              ++ (if op.group == g then op ∷ of_group g ops else of_group g ops)
      step (inl same) = ground (
        arith,
        lookup-insert op.group g (or_nil (lookup op.group grouped) ++ op ∷ []) grouped,
        same,
        eq_iff op.group g,
        append_assoc (or_nil (lookup g grouped)) (op ∷ []) (of_group g ops),
      )
      step (inr diff) =
          rw (lookup-insert op.group g (or_nil (lookup op.group grouped) ++ op ∷ []) grouped, diff)

  -- The operations of a named group are those of the batch, in the order of the batch.
  pub group_ops-of_group :
      (g : String) (ops : List (MetricOperation F))
      → (g == "") ≡ false
      → or_nil (lookup g (group_ops [] ops)) ≡ of_group g ops
  unfolding lookup
  group_ops-of_group g ops h = group_ops_from g ops [] h

  -- Every operation has a shortcut.
  abbrev pub all_shortcuts : List (MetricOperation F) → Bool
  all_shortcuts [] = true
  all_shortcuts (op ∷ ops) = (is_some op.add || is_some op.set) && all_shortcuts ops

  send_batch_v0-all_shortcuts :
      (common : Dict String) (ops : List (MetricOperation F)) (m : MetricStorage F)
      → not (is_some (send_batch_v0 common ops m).0) ≡ all_shortcuts ops
  unfolding send_batch_v0
  send_batch_v0-all_shortcuts common [] m = refl
  send_batch_v0-all_shortcuts common (op ∷ ops) m = elim (Option-cases op.add) [
    | inr (v, e) ↦ rw e (send_batch_v0-all_shortcuts common ops _)
    | inl e ↦ elim (Option-cases op.set) [
      | inr (v, s) ↦ rw (e, s) (send_batch_v0-all_shortcuts common ops _)
      | inl s ↦ rw (e, s)
    ]
  ]

-- The result of a batch, by the errors of its validation.
abbrev pub Reported :
    {F : Type 0}
    → Library F
    → List (MetricOperation F)
    → Dict String
    → MetricStorage F
    → List OperationError
    → Type 0
Reported lib ops common m [] =
    not (is_some (send_batch lib ops common m).0) ≡ all_shortcuts (non_grouped_ops ops)
Reported lib ops common m (e ∷ es) = send_batch lib ops common m ≡ (some (invalid (e ∷ es)), m)

-- A batch with an invalid operation changes nothing and reports the errors. A batch of valid
-- operations succeeds exactly if each one without a group is written with a shortcut: one with
-- an action and a value is valid, and refused.
pub send_batch-errors :
    {F : Type 0} (lib : Library F) (ops : List (MetricOperation F)) (common : Dict String)
    (m : MetricStorage F)
    → Reported lib ops common m (validate_operations ops)
unfolding send_batch
send_batch-errors lib ops common m = go (validate_operations ops) refl
  where
    go :
        (errors : List OperationError)
        → validate_operations ops ≡ errors
        → Reported lib ops common m errors
    go [] h = rw (h, send_batch, not) (send_batch_v0-all_shortcuts common (non_grouped_ops ops) _)
    go (e ∷ es) h = rw (h, send_batch)
