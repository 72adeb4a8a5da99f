-- ===== src/Metrics/Operation.antt =====
-- shell-operator/pkg/metric_storage/operation/operation.go. `F` stands for float64.
use argodemo.Common.{
  ◌≡◌, refl, String, Bool, true, false, not, ◌&&◌, ◌||◌, List, [], ◌∷◌, ◌++◌, Option, none, some,
  if◌then◌else◌, ◌==◌, eq_iff, Dict, arith,
}

pub record MetricOperation (F : Type 0) : Type 0 where
  pub name : String
  pub add : Option F
  pub set : Option F
  pub value : Option F
  pub labels : Dict String
  pub group : String
  pub action : String

-- The texts of the errors, without the operation that each of them quotes.
pub data OperationError : Type 0 where
  action_required unsupported_action name_required name_required_for_action : OperationError
  value_required_for_set value_required_for_add set_and_add : OperationError

abbrev pub is_some {ℓ} : {A : Type ℓ} → Option A → Bool
is_some none = false
is_some (some a) = true

abbrev report : Bool → OperationError → List OperationError
report b e = if b then e ∷ [] else []

abbrev pub no_errors : List OperationError → Bool
no_errors [] = true
no_errors (e ∷ es) = false

-- The two sides of the theorem below over the tests that they make: the action is empty, `set`,
-- `add` or `expire`; no name, no group, a value, both shortcuts.
abbrev Agree : (e s a x n g v b : Bool) → Type 0
Agree e s a x n g v b =
    no_errors (
      report e action_required
      ++ (report (if g then not s && not a else not x && (not s && not a)) unsupported_action
          ++ (report (n && g) name_required
              ++ (report (n && (not g && not x)) name_required_for_action
                  ++ (report (s && not v) value_required_for_set
                      ++ (report (a && not v) value_required_for_add ++ report b set_and_add))))))
    ≡ (not b && ((x && not g) || ((s || a) && (not n && v))))

agree :
    (e s a x n g v b : Bool)
    → (e && s) ≡ false
    → (e && a) ≡ false
    → (e && x) ≡ false
    → (s && a) ≡ false
    → (s && x) ≡ false
    → (a && x) ≡ false
    → Agree e s a x n g v b
agree true false false false n g v b _ _ _ _ _ _ = ground arith
agree false true false false n g v b _ _ _ _ _ _ = ground arith
agree false false true false n g v b _ _ _ _ _ _ = ground arith
agree false false false true n g v b _ _ _ _ _ _ = ground arith
agree false false false false n g v b _ _ _ _ _ _ = ground arith
agree true true a x n g v b h1 h2 h3 h4 h5 h6 = cc
agree true false true x n g v b h1 h2 h3 h4 h5 h6 = cc
agree true false false true n g v b h1 h2 h3 h4 h5 h6 = cc
agree false true true x n g v b h1 h2 h3 h4 h5 h6 = cc
agree false true false true n g v b h1 h2 h3 h4 h5 h6 = cc
agree false false true true n g v b h1 h2 h3 h4 h5 h6 = cc

-- A text is not equal to two different ones.
not_both : (x s t : String) → (s == t) ≡ false → ((x == s) && (x == t)) ≡ false
not_both x s t h = ground (arith, eq_iff x s, eq_iff x t, eq_iff s t)

module _ {F : Type 0} where
  -- The shortcut transforms of `MetricOperationsFromReader` on one decoded operation.
  unfoldable pub shortcut_transforms : MetricOperation F → MetricOperation F
  shortcut_transforms op =
      let by_set : MetricOperation F =
        if is_some op.set && not (is_some op.add)
        then record op { action = "set"; value = op.set }
        else op in
      if is_some op.add && not (is_some op.set)
      then record by_set { action = "add"; value = op.add }
      else by_set

  unfoldable pub metric_operations_from_reader : List (MetricOperation F) → List (MetricOperation F)
  unfolding shortcut_transforms
  metric_operations_from_reader [] = []
  metric_operations_from_reader (op ∷ ops) =
      shortcut_transforms op ∷ metric_operations_from_reader ops

  -- The errors in the order in which they are appended.
  unfoldable pub validate_metric_operation : MetricOperation F → List OperationError
  validate_metric_operation op =
      report (op.action == "") action_required
      ++ (report
            (if op.group == ""
              then not (op.action == "set") && not (op.action == "add")
              else not (op.action == "expire")
                && (not (op.action == "set") && not (op.action == "add")))
            unsupported_action
          ++ (report (op.name == "" && op.group == "") name_required
              ++ (report (op.name == "" && (not (op.group == "") && not (op.action == "expire")))
                    name_required_for_action
                  ++ (report (op.action == "set" && not (is_some op.value)) value_required_for_set
                      ++ (report (op.action == "add" && not (is_some op.value))
                            value_required_for_add
                          ++ report (is_some op.set && is_some op.add) set_and_add)))))

  unfoldable pub validate_operations : List (MetricOperation F) → List OperationError
  validate_operations [] = []
  validate_operations (op ∷ ops) = validate_metric_operation op ++ validate_operations ops

  -- What an operation has to be: the expiry of a group, or a named value to set or to add; and
  -- not both shortcuts.
  pub is_valid : MetricOperation F → Bool
  is_valid op =
      not (is_some op.set && is_some op.add)
      && ((op.action == "expire" && not (op.group == ""))
          || ((op.action == "set" || op.action == "add")
              && (not (op.name == "") && is_some op.value)))

  -- `ValidateMetricOperation` accepts exactly the operations that expire a named group, or that set
  -- or add a value under a name, and that do not have both shortcuts.
  pub validate_metric_operation-is_valid :
      (op : MetricOperation F) → no_errors (validate_metric_operation op) ≡ is_valid op
  unfolding validate_metric_operation is_valid
  validate_metric_operation-is_valid op =
      agree (op.action == "") (op.action == "set") (op.action == "add") (op.action == "expire")
        (op.name == "") (op.group == "") (is_some op.value) (is_some op.set && is_some op.add)
        (not_both op.action "" "set" refl) (not_both op.action "" "add" refl)
        (not_both op.action "" "expire" refl) (not_both op.action "set" "add" refl)
        (not_both op.action "set" "expire" refl) (not_both op.action "add" "expire" refl)
