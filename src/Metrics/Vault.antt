-- ===== src/Metrics/Vault.antt =====
-- shell-operator/pkg/metric_storage/vault/collector.go: the metrics of one collector, by the hash
-- of their label values. Parameters are the FNV hash of the separated label values, the
-- conversion of a float64 to uint64, and float64 itself, `F`.
pub mod Collectors
pub mod Groups
use argodemo.Common.{
  Option-cases, inl, inr, ℕ, ◌+◌, ◌%◌, ◌^◌, ◌≡◌, ◌≢◌, refl, String, Bool, true, false, List, [],
  ◌∷◌, Option, none, some, if◌then◌else◌, ◌==◌, eq_iff, Dict, lookup, arith, nat_eq, map, All,
}

pub record Grouped (V : Type 0) : Type 0 where
  pub value : V
  pub label_values : List String
  pub group : String

abbrev pub Collection : Type 0 → Type 0
Collection V = List (ℕ × Grouped V)

module _ {V : Type 0} where
  unfoldable pub find : ℕ → Collection V → Option (Grouped V)
  find h [] = none
  find h ((k, m) ∷ c) = if nat_eq k h then some m else find h c

  unfoldable pub put : ℕ → Grouped V → Collection V → Collection V
  put h m [] = (h, m) ∷ []
  put h m ((k, n) ∷ c) = if nat_eq k h then (h, m) ∷ c else (k, n) ∷ put h m c

  -- `ExpireGroupMetrics` of a collector.
  unfoldable pub expire_group_metrics : String → Collection V → Collection V
  expire_group_metrics g [] = []
  expire_group_metrics g ((k, m) ∷ c) =
      if m.group == g then expire_group_metrics g c else (k, m) ∷ expire_group_metrics g c

  -- No hash stands twice.
  abbrev pub Absent : ℕ → Collection V → Type 0
  Absent h [] = Unit
  Absent h ((k, m) ∷ c) = (k ≢ h) × Absent h c

  abbrev pub Unique : Collection V → Type 0
  Unique [] = Unit
  Unique ((k, m) ∷ c) = Absent k c × Unique c

  pub find-put :
      (h j : ℕ) (m : Grouped V) (c : Collection V)
      → find j (put h m c) ≡ (if nat_eq h j then some m else find j c)
  unfolding find put
  find-put h j m [] = refl
  find-put h j m ((k, n) ∷ c) = ground (arith, find-put h j m c)

  find-Absent : (h : ℕ) (c : Collection V) → Absent h c → find h c ≡ none
  unfolding find
  find-Absent h [] a = refl
  find-Absent h ((k, m) ∷ c) a = ground (arith, find-Absent h c)

  put-Absent :
      (h j : ℕ) (m : Grouped V) (c : Collection V) → h ≢ j → Absent j c → Absent j (put h m c)
  unfolding put
  put-Absent h j m [] n a = (n, tt)
  put-Absent h j m ((k, o) ∷ c) n a = ground (arith, put-Absent h j m c)

  put-Unique : (h : ℕ) (m : Grouped V) (c : Collection V) → Unique c → Unique (put h m c)
  unfolding put
  put-Unique h m [] u = (tt, tt)
  put-Unique h m ((k, o) ∷ c) u = ground (arith, put-Unique h m c, put-Absent h k m c)

  expire-Absent :
      (g : String) (j : ℕ) (c : Collection V) → Absent j c → Absent j (expire_group_metrics g c)
  unfolding expire_group_metrics
  expire-Absent g j [] a = tt
  expire-Absent g j ((k, o) ∷ c) a = ground (arith, expire-Absent g j c)

  pub expire-Unique : (g : String) (c : Collection V) → Unique c → Unique (expire_group_metrics g c)
  unfolding expire_group_metrics
  expire-Unique g [] u = tt
  expire-Unique g ((k, o) ∷ c) u = ground (arith, expire-Unique g c, expire-Absent g k c)

  abbrev pub unless_group : String → Option (Grouped V) → Option (Grouped V)
  unless_group g none = none
  unless_group g (some m) = if m.group == g then none else some m

  -- Expiring a group removes exactly the metrics of the group.
  pub find-expire_group_metrics :
      (g : String) (h : ℕ) (c : Collection V)
      → Unique c
      → find h (expire_group_metrics g c) ≡ unless_group g (find h c)
  unfolding find expire_group_metrics
  find-expire_group_metrics g h [] u = refl
  find-expire_group_metrics g h ((k, m) ∷ c) u = ground (
    arith,
    find-expire_group_metrics g h c,
    find-Absent k c,
    find-Absent k (expire_group_metrics g c),
    expire-Absent g k c,
  )

-- `LabelValues` of shell-operator/pkg/utils/labels/labels.go: a missing label is empty.
abbrev or_empty : Option String → String
or_empty none = ""
or_empty (some s) = s

unfoldable pub label_values : Dict String → List String → List String
label_values labels names = map (λ n. or_empty (lookup n labels)) names

module _ {F : Type 0} (hash : List String → ℕ) (to_uint64 : F → ℕ) where
  -- `ConstCounterCollector.Add`, with the wrap-around of `atomic.AddUint64`.
  unfoldable pub counter_add : List String → String → F → Dict String → Collection ℕ → Collection ℕ
  unfolding label_values
  counter_add names g v labels c =
      let values = label_values labels names in
      elim (find (hash values) c) [
        | none ↦
            put (hash values) (record { value = to_uint64 v; label_values = values; group = g }) c
        | some m ↦ put (hash values) (record m { value = (m.value + to_uint64 v) % 2 ^ 64 }) c
      ]

  pub counter_add-Unique :
      (names : List String) (g : String) (v : F) (labels : Dict String) (c : Collection ℕ)
      → Unique c
      → Unique (counter_add names g v labels c)
  unfolding counter_add
  counter_add-Unique names g v labels c u =
      elim (Option-cases (find (hash (label_values labels names)) c)) [
        | inl e ↦ rw (e, Unique) (put-Unique _ _ c u)
        | inr (m, e) ↦ rw (e, Unique) (put-Unique _ _ c u)
      ]

module _ {F : Type 0} (hash : List String → ℕ) where
  -- `ConstGaugeCollector.Set`
  unfoldable pub gauge_set : List String → String → F → Dict String → Collection F → Collection F
  unfolding label_values
  gauge_set names g v labels c =
      let values = label_values labels names in
      elim (find (hash values) c) [
        | none ↦ put (hash values) (record { value = v; label_values = values; group = g }) c
        | some m ↦ put (hash values) (record m { value = v }) c
      ]

  pub gauge_set-Unique :
      (names : List String) (g : String) (v : F) (labels : Dict String) (c : Collection F)
      → Unique c
      → Unique (gauge_set names g v labels c)
  unfolding gauge_set
  gauge_set-Unique names g v labels c u =
      elim (Option-cases (find (hash (label_values labels names)) c)) [
        | inl e ↦ rw (e, Unique) (put-Unique _ _ c u)
        | inr (m, e) ↦ rw (e, Unique) (put-Unique _ _ c u)
      ]
