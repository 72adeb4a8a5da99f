-- ===== src/Metrics/Vault/Collectors.antt =====
-- shell-operator/pkg/metric_storage/vault/vault.go: the collectors by metric name. Whether the
-- Prometheus registerer accepts a new collector is a parameter, and so is `sort.Strings`.
use argodemo.Common.{
  ℕ, String, Bool, List, [], ◌∷◌, Option, none, some, if◌then◌else◌, Dict, lookup, insert,
}
use argodemo.Metrics.Vault.{Collection, expire_group_metrics, counter_add, gauge_set}

pub data Collector (F : Type 0) : Type 0 where
  counter : List String → Collection ℕ → Collector F
  gauge : List String → Collection F → Collector F

abbrev pub Vault : Type 0 → Type 0
Vault F = Dict (Collector F)

abbrev pub keys : Dict String → List String
keys [] = []
keys ((k, v) ∷ m) = k ∷ keys m

-- What is not under src/.
pub record Library (F : Type 0) : Type 0 where
  pub hash : List String → ℕ
  pub to_uint64 : F → ℕ
  pub registers : String → List String → Bool
  pub sorted : List String → List String

module _ {F : Type 0} where
  unfoldable pub expire_collector : String → Collector F → Collector F
  expire_collector g (counter names c) = counter names (expire_group_metrics g c)
  expire_collector g (gauge names c) = gauge names (expire_group_metrics g c)

  -- `GroupedVault.ExpireGroupMetrics`
  unfoldable pub expire_vault : String → Vault F → Vault F
  unfolding expire_collector
  expire_vault g [] = []
  expire_vault g ((name, c) ∷ v) = (name, expire_collector g c) ∷ expire_vault g v

module _ {F : Type 0} (lib : Library F) where
  open lib use {hash, to_uint64, registers, sorted}

  -- `GetOrCreateCounterCollector`: `none` is an error, of the registration or of the kind.
  unfoldable pub get_or_create_counter_collector :
      String → List String → Vault F → Option (List String × Collection ℕ) × Vault F
  get_or_create_counter_collector name names v = elim (lookup name v) [
    | none ↦
        if registers name names
        then (some (names, []), insert name (counter names []) v)
        else (none, v)
    | some (counter old c) ↦ (some (old, c), v)
    | some (gauge old c) ↦ (none, v)
  ]

  unfoldable pub get_or_create_gauge_collector :
      String → List String → Vault F → Option (List String × Collection F) × Vault F
  get_or_create_gauge_collector name names v = elim (lookup name v) [
    | none ↦
        if registers name names
        then (some (names, []), insert name (gauge names []) v)
        else (none, v)
    | some (gauge old c) ↦ (some (old, c), v)
    | some (counter old c) ↦ (none, v)
  ]

  -- `GroupedVault.CounterAdd` and `GroupedVault.GaugeSet`: an error is logged. The collector is a
  -- pointer, so its new metrics are written back under its name.
  unfoldable pub vault_counter_add : String → String → F → Dict String → Vault F → Vault F
  unfolding get_or_create_counter_collector
  vault_counter_add g name value labels v =
      let (c, w) = get_or_create_counter_collector name (sorted (keys labels)) v in
      elim c [
        | none ↦ w
        | some (names, m) ↦
            insert name (counter names (counter_add hash to_uint64 names g value labels m)) w
      ]

  unfoldable pub vault_gauge_set : String → String → F → Dict String → Vault F → Vault F
  unfolding get_or_create_gauge_collector
  vault_gauge_set g name value labels v =
      let (c, w) = get_or_create_gauge_collector name (sorted (keys labels)) v in
      elim c [
        | none ↦ w
        | some (names, m) ↦ insert name (gauge names (gauge_set hash names g value labels m)) w
      ]
