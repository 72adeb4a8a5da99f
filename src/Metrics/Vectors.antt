-- ===== src/Metrics/Vectors.antt =====
-- shell-operator/pkg/metric_storage/metric_storage.go: the Prometheus vectors outside the vault.
-- The locks and a nil storage are left out. A panic of the client library is recovered by the
-- operation, which then writes nothing.
pub mod Totals
use argodemo.Common.{
  String, Bool, true, false, List, [], ◌∷◌, ◌++◌, Option, none, some, if◌then◌else◌, ◌==◌, Dict,
  lookup, insert, map,
}
use argodemo.Metrics.Storage.{Call, counter_add, gauge_set}

-- The code that is not in the repository, and the float64 type `F`: whether `MustRegister` accepts
-- a name with label names after those that are registered, the child of a vector that labels
-- select, or `none` where `With` panics, the sum, the numbers below zero, and
-- `LinearBuckets` of the defaults. `sorted` is `sort.Strings`, and `resolve` replaces the first
-- prefix template of a name by the prefix.
pub record Prometheus (F : Type 0) : Type 0 where
  pub accepts : List (String × List String) → String → List String → Bool
  pub child : List String → Dict String → Option String
  pub plus : F → F → F
  pub zero : F
  pub negative : F → Bool
  pub linear_buckets : List F
  pub sorted : List String → List String
  pub resolve : String → String → String

pub record Vec (V : Type 0) : Type 0 where
  pub label_names : List String
  pub children : Dict V

pub record Histogram (F : Type 0) : Type 0 where
  pub buckets : List F
  pub observed : Vec (List F)

-- `registered` is the registry of the client library.
pub record Vectors (F : Type 0) : Type 0 where
  pub prefix : String
  pub counters : Dict (Vec F)
  pub gauges : Dict (Vec F)
  pub histograms : Dict (Histogram F)
  pub histogram_buckets : Dict (List F)
  pub registered : List (String × List String)

abbrev keys {ℓ} : {V : Type ℓ} → Dict V → List String
keys [] = []
keys ((k, v) ∷ m) = k ∷ keys m

abbrev pub or_else {ℓ} : {A : Type ℓ} → Option A → A → A
or_else none a = a
or_else (some b) a = b

module _ {F : Type 0} (lib : Prometheus F) where
  unfoldable pub label_names : Dict String → List String
  label_names labels = lib.sorted (keys labels)

  unfoldable pub resolve_metric_name : Vectors F → String → String
  resolve_metric_name m name = lib.resolve m.prefix name

  -- `MustRegister` of a new vector.
  abbrev must_register : String → Dict String → Vectors F → Option (Vectors F)
  must_register metric labels m =
      let name = resolve_metric_name m metric in
      let names = label_names labels in
      if lib.accepts m.registered name names
      then some (record m { registered = (name, names) ∷ m.registered })
      else none

  -- The vector, or nil after a panic that is recovered.
  unfoldable pub register_gauge : String → Dict String → Vectors F → Option (Vec F) × Vectors F
  unfolding label_names resolve_metric_name
  register_gauge metric labels m = elim (lookup metric m.gauges) [
    | some vec ↦ (some vec, m)
    | none ↦ (elim (must_register metric labels m) [
      | none ↦ (none, m)
      | some m' ↦
          (let vec : Vec F = record { label_names = label_names labels; children = [] } in
            (some vec, record m' { gauges = insert metric vec m.gauges }))
    ])
  ]

  unfoldable pub gauge : String → Dict String → Vectors F → Option (Vec F) × Vectors F
  unfolding register_gauge
  gauge metric labels m = elim (lookup metric m.gauges) [
    | some vec ↦ (some vec, m)
    | none ↦ register_gauge metric labels m
  ]

  unfoldable pub register_counter : String → Dict String → Vectors F → Option (Vec F) × Vectors F
  unfolding label_names resolve_metric_name
  register_counter metric labels m = elim (lookup metric m.counters) [
    | some vec ↦ (some vec, m)
    | none ↦ (elim (must_register metric labels m) [
      | none ↦ (none, m)
      | some m' ↦
          (let vec : Vec F = record { label_names = label_names labels; children = [] } in
            (some vec, record m' { counters = insert metric vec m.counters }))
    ])
  ]

  unfoldable pub counter : String → Dict String → Vectors F → Option (Vec F) × Vectors F
  unfolding register_counter
  counter metric labels m = elim (lookup metric m.counters) [
    | some vec ↦ (some vec, m)
    | none ↦ register_counter metric labels m
  ]

  unfoldable pub register_histogram :
      String → Dict String → Vectors F → Option (Histogram F) × Vectors F
  unfolding label_names resolve_metric_name
  register_histogram metric labels m = elim (lookup metric m.histograms) [
    | some h ↦ (some h, m)
    | none ↦
        (let buckets = or_else (lookup metric m.histogram_buckets) lib.linear_buckets in
          elim (must_register metric labels m) [
            | none ↦ (none, m)
            | some m' ↦
                (let h : Histogram F = record {
                  buckets = buckets;
                  observed = record { label_names = label_names labels; children = [] };
                } in
                  (some h, record m' { histograms = insert metric h m.histograms }))
          ])
  ]

  unfoldable pub histogram : String → Dict String → Vectors F → Option (Histogram F) × Vectors F
  unfolding register_histogram
  histogram metric labels m = elim (lookup metric m.histograms) [
    | some h ↦ (some h, m)
    | none ↦ register_histogram metric labels m
  ]

  unfoldable pub histogram_define_buckets : String → List F → Vectors F → Vectors F
  histogram_define_buckets metric buckets m = record m {
    histogram_buckets = insert metric buckets m.histogram_buckets;
  }

  unfoldable pub register_histogram_with_buckets :
      String → Dict String → List F → Vectors F → Option (Histogram F) × Vectors F
  unfolding histogram_define_buckets register_histogram
  register_histogram_with_buckets metric labels buckets m =
      register_histogram metric labels (histogram_define_buckets metric buckets m)

  -- The child is made where it is missing.
  abbrev updated {ℓ} : {V : Type ℓ} → V → (V → V) → String → Dict V → Dict V
  updated start f c children = insert c (f (or_else (lookup c children) start)) children

  abbrev with_gauge : String → Dict String → (F → F) → Vectors F → Vectors F
  with_gauge metric labels f m =
      let found = gauge metric labels m in
      elim found.0 [
        | none ↦ found.1
        | some vec ↦ (elim (lib.child vec.label_names labels) [
          | none ↦ found.1
          | some c ↦ record found.1 {
            gauges =
                insert metric (record vec { children = updated lib.zero f c vec.children })
                  found.1.gauges;
          }
        ])
      ]

  unfoldable pub vector_gauge_set : String → F → Dict String → Vectors F → Vectors F
  unfolding gauge
  vector_gauge_set metric value labels m = with_gauge metric labels (λ old. value) m

  unfoldable pub vector_gauge_add : String → F → Dict String → Vectors F → Vectors F
  unfolding gauge
  vector_gauge_add metric value labels m = with_gauge metric labels (λ old. lib.plus old value) m

  -- `With` and the update of the child, which it makes where it is missing.
  abbrev pub write_counter : String → Dict String → (F → F) → Option (Vec F) × Vectors F → Vectors F
  write_counter metric labels f (none, m) = m
  write_counter metric labels f (some vec, m) = elim (lib.child vec.label_names labels) [
    | none ↦ m
    | some c ↦ record m {
      counters =
          insert metric (record vec { children = updated lib.zero f c vec.children }) m.counters;
    }
  ]

  -- `Add` panics on a value below zero, when the child is made.
  unfoldable pub vector_counter_add : String → F → Dict String → Vectors F → Vectors F
  unfolding counter
  vector_counter_add metric value labels m =
      write_counter metric labels (λ old. if lib.negative value then old else lib.plus old value)
        (counter metric labels m)

  unfoldable pub histogram_observe : String → F → Dict String → Vectors F → Vectors F
  unfolding histogram
  histogram_observe metric value labels m =
      let found = histogram metric labels m in
      elim found.0 [
        | none ↦ found.1
        | some h ↦ (elim (lib.child h.observed.label_names labels) [
          | none ↦ found.1
          | some c ↦
              (let seen = updated [] (λ (old : List F). old ++ value ∷ []) c h.observed.children in
                record found.1 {
                  histograms =
                      insert metric (record h { observed = record h.observed { children = seen } })
                        found.1.histograms;
                })
        ])
      ]

  -- A call that a batch of operations makes.
  unfoldable pub perform : Call F → Vectors F → Vectors F
  unfolding vector_counter_add vector_gauge_set
  perform (counter_add metric value labels) m = vector_counter_add metric value labels m
  perform (gauge_set metric value labels) m = vector_gauge_set metric value labels m

  unfoldable pub perform_all : List (Call F) → Vectors F → Vectors F
  unfolding perform
  perform_all [] m = m
  perform_all (c ∷ cs) m = perform_all cs (perform c m)
