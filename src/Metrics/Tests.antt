-- ===== src/Metrics/Tests.antt =====
-- Sample operations and vaults, and the theorems about them applied. A float64 is a number here,
-- and the hash of label values is the length of the first one.
use Prim.Native.String.{len}
use argodemo.Common.{
  ℕ, ◌+◌, ◌≡◌, refl, String, true, false, List, [], ◌∷◌, Option, none, some, lookup,
}
use argodemo.Metrics.Operation.{
  MetricOperation, validate_operations, validate_metric_operation,
  validate_metric_operation-is_valid, is_valid, no_errors,
}
use argodemo.Metrics.Vault.{Grouped}
use argodemo.Metrics.Vault.Collectors.{Library, Vault, expire_vault, counter}
use argodemo.Metrics.Vault.Groups.{metric_group, metric_group-expire_vault, unless_same}
use argodemo.Metrics.Vectors.{Prometheus, Vec, Vectors, perform_all}
use argodemo.Metrics.Vectors.Totals.{value, total, perform_all-total}
use argodemo.Metrics.Storage.{Call, counter_add, gauge_set, MetricStorage}
use argodemo.Metrics.Storage.Batch.{send_batch-errors, Reported}

abbrev hash : List String → ℕ
hash [] = 0
hash (s ∷ ss) = len s

abbrev lib : Library ℕ
lib = record {
  hash = hash;
  to_uint64 = λ x. x;
  registers = λ name names. true;
  sorted = λ names. names;
}

abbrev op : String → String → Option ℕ → MetricOperation ℕ
op group action value = record {
  name = "requests";
  add = none;
  set = none;
  value = value;
  labels = ("code", "200") ∷ [];
  group = group;
  action = action;
}

abbrev ops : List (MetricOperation ℕ)
ops = op "a" "add" (some 3) ∷ op "b" "set" (some 1) ∷ op "a" "expire" none ∷ []

abbrev stored : Grouped ℕ
stored = record { value = 5; label_values = "200" ∷ []; group = "a" }

abbrev vault : Vault ℕ
vault = ("requests", counter ("code" ∷ []) ((3, stored) ∷ [])) ∷ []

abbrev storage : MetricStorage ℕ
storage = record { grouped_vault = vault; calls = [] }

validate_metric_operation-is_valid_example :
    no_errors (validate_metric_operation (op "" "expire" none)) ≡ is_valid (op "" "expire" none)
validate_metric_operation-is_valid_example =
    validate_metric_operation-is_valid (op "" "expire" none)

metric_group-expire_vault_example :
    metric_group "requests" 3 (expire_vault "a" vault)
    ≡ unless_same "a" (metric_group "requests" 3 vault)
metric_group-expire_vault_example = metric_group-expire_vault "a" "requests" 3 vault ((tt, tt), tt)

-- A valid operation without a group and without a shortcut.
send_batch-errors_example :
    Reported lib
      (op "" "set" (some 1) ∷ [])
      []
      storage
      (validate_operations (op "" "set" (some 1) ∷ []))
send_batch-errors_example = send_batch-errors lib (op "" "set" (some 1) ∷ []) [] storage

abbrev prometheus : Prometheus ℕ
prometheus = record {
  accepts = λ registered name names. true;
  child = λ names labels. lookup "code" labels;
  plus = λ x y. x + y;
  zero = 0;
  negative = λ x. false;
  linear_buckets = [];
  sorted = λ names. names;
  resolve = λ prefix name. name;
}

abbrev registered : Vec ℕ
registered = record { label_names = "code" ∷ []; children = ("200", 4) ∷ [] }

abbrev vectors : Vectors ℕ
vectors = record {
  prefix = "";
  counters = ("requests", registered) ∷ [];
  gauges = [];
  histograms = [];
  histogram_buckets = [];
  registered = ("requests", "code" ∷ []) ∷ [];
}

abbrev calls : List (Call ℕ)
calls =
    counter_add "requests" 3 (("code", "200") ∷ [])
    ∷ counter_add "requests" 5 (("method", "get") ∷ [])
    ∷ gauge_set "size" 9 []
    ∷ []

perform_all-total_example :
    (vec : Vec ℕ) × (lookup "requests" (perform_all prometheus calls vectors).counters ≡ some vec)
    × (vec.label_names ≡ "code" ∷ [])
    × (value prometheus vec "200" ≡ total prometheus ("code" ∷ []) "requests" "200" calls 4)
unfolding lookup
perform_all-total_example =
    perform_all-total prometheus "requests" "200" calls vectors registered refl
