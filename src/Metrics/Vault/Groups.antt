-- ===== src/Metrics/Vault/Groups.antt =====
-- The groups of the metrics in a vault: what expiry takes away, and that no hash stands twice.
use argodemo.Common.{
  ◌⊎◌, ◌∙◌, ℕ, ◌≡◌, refl, String, true, List, [], ◌∷◌, Option, none, some, if◌then◌else◌, ◌==◌,
  Dict, lookup, insert, arith, Bool-cases, inl, inr, ap, subst,
}
use argodemo.Metrics.Vault.{
  Collection, Grouped, Unique, unless_group, find, expire-Unique, find-expire_group_metrics,
  counter_add, counter_add-Unique, gauge_set, gauge_set-Unique,
}
use argodemo.Metrics.Vault.Collectors.{
  Collector, counter, gauge, Vault, Library, keys, expire_collector, expire_vault,
  vault_counter_add, vault_gauge_set,
}

abbrev group_in : {V : Type 0} → Option (Grouped V) → Option String
group_in none = none
group_in (some m) = some m.group

abbrev collector_group : {F : Type 0} → ℕ → Option (Collector F) → Option String
collector_group h none = none
collector_group h (some (counter names c)) = group_in (find h c)
collector_group h (some (gauge names c)) = group_in (find h c)

-- The group of the metric with a hash under a name.
pub metric_group : {F : Type 0} → String → ℕ → Vault F → Option String
metric_group name h v = collector_group h (lookup name v)

abbrev UniqueCollector : {F : Type 0} → Collector F → Type 0
UniqueCollector (counter names c) = Unique c
UniqueCollector (gauge names c) = Unique c

-- In no collector does a hash stand twice.
abbrev pub UniqueVault : {F : Type 0} → Vault F → Type 0
UniqueVault [] = Unit
UniqueVault ((name, c) ∷ v) = UniqueCollector c × UniqueVault v

abbrev pub unless_same : String → Option String → Option String
unless_same g none = none
unless_same g (some k) = if k == g then none else some k

group_in-unless_group :
    {V : Type 0} (g : String) (o : Option (Grouped V))
    → group_in (unless_group g o) ≡ unless_same g (group_in o)
group_in-unless_group g none = refl
group_in-unless_group g (some m) = ground arith

module _ {F : Type 0} where
  collector_group-expire :
      (g : String) (h : ℕ) (c : Collector F)
      → UniqueCollector c
      → collector_group h (some (expire_collector g c)) ≡ unless_same g (collector_group h (some c))
  unfolding expire_collector
  collector_group-expire g h (counter names c) u =
      ap group_in (find-expire_group_metrics g h c u) ∙ group_in-unless_group g (find h c)
  collector_group-expire g h (gauge names c) u =
      ap group_in (find-expire_group_metrics g h c u) ∙ group_in-unless_group g (find h c)

  -- Expiring a group takes away the metrics of this group, in all collectors, and no others.
  pub metric_group-expire_vault :
      (g name : String) (h : ℕ) (v : Vault F)
      → UniqueVault v
      → metric_group name h (expire_vault g v) ≡ unless_same g (metric_group name h v)
  unfolding metric_group expire_vault lookup
  metric_group-expire_vault g name h [] u = refl
  metric_group-expire_vault g name h ((k, c) ∷ v) u = elim (Bool-cases (k == name)) [
    | inl e ↦ rw e (collector_group-expire g h c u.0)
    | inr e ↦ rw e (metric_group-expire_vault g name h v u.1)
  ]

  expire_vault-UniqueVault :
      (g : String) (v : Vault F) → UniqueVault v → UniqueVault (expire_vault g v)
  unfolding expire_vault expire_collector
  expire_vault-UniqueVault g [] u = tt
  expire_vault-UniqueVault g ((k, counter names c) ∷ v) u =
      (expire-Unique g c u.0, expire_vault-UniqueVault g v u.1)
  expire_vault-UniqueVault g ((k, gauge names c) ∷ v) u =
      (expire-Unique g c u.0, expire_vault-UniqueVault g v u.1)

  insert-UniqueVault :
      (k : String) (c : Collector F) (v : Vault F)
      → UniqueCollector c
      → UniqueVault v
      → UniqueVault (insert k c v)
  unfolding insert
  insert-UniqueVault k c [] uc u = (uc, tt)
  insert-UniqueVault k c ((j, d) ∷ v) uc u = elim (Bool-cases (j == k)) [
    | inl e ↦ rw (e, UniqueVault) (uc, u.1)
    | inr e ↦ rw (e, UniqueVault) (u.0, insert-UniqueVault k c v uc u.1)
  ]

  lookup-UniqueCollector :
      (k : String) (c : Collector F) (v : Vault F)
      → UniqueVault v
      → lookup k v ≡ some c
      → UniqueCollector c
  unfolding lookup
  lookup-UniqueCollector k c [] u e = cc
  lookup-UniqueCollector k c ((j, d) ∷ v) u e = elim (Bool-cases (j == k)) [
    | inl s ↦ subst UniqueCollector (same s) u.0
    | inr s ↦ lookup-UniqueCollector k c v u.1 (ground (arith, s, e))
  ]
    where
      same : (j == k) ≡ true → d ≡ c
      same s = ground arith

module _ {F : Type 0} (lib : Library F) (g name : String) (x : F) (labels : Dict String)
    (v : Vault F) where
  vault_counter_add-eq :
      (names : List String) (c : Collection ℕ)
      → lookup name v ≡ some (counter names c)
      → vault_counter_add lib g name x labels v
        ≡ insert name (counter names (counter_add lib.hash lib.to_uint64 names g x labels c)) v
  unfolding vault_counter_add
  vault_counter_add-eq names c e = ground (arith, e)

  vault_gauge_set-eq :
      (names : List String) (c : Collection F)
      → lookup name v ≡ some (gauge names c)
      → vault_gauge_set lib g name x labels v
        ≡ insert name (gauge names (gauge_set lib.hash names g x labels c)) v
  unfolding vault_gauge_set
  vault_gauge_set-eq names c e = ground (arith, e)

  -- A metric of the other kind under the name leaves the vault as it is.
  pub vault_kind_clash :
      (names : List String) (c : Collection ℕ) (d : Collection F)
      → (lookup name v ≡ some (counter names c) → vault_gauge_set lib g name x labels v ≡ v)
        × (lookup name v ≡ some (gauge names d) → vault_counter_add lib g name x labels v ≡ v)
  unfolding vault_counter_add vault_gauge_set
  vault_kind_clash names c d = (λ e. ground (arith, e), λ e. ground (arith, e))

  vault_counter_add-new :
      lookup name v ≡ none
      → (vault_counter_add lib g name x labels v ≡ v)
        ⊎ (vault_counter_add lib g name x labels v
            ≡ insert name
                (counter
                  (lib.sorted (keys labels))
                  (counter_add lib.hash lib.to_uint64 (lib.sorted (keys labels)) g x labels []))
                (insert name (counter (lib.sorted (keys labels)) []) v))
  unfolding vault_counter_add
  vault_counter_add-new e = elim (Bool-cases (lib.registers name (lib.sorted (keys labels)))) [
    | inl r ↦ inr (ground (arith, e, r))
    | inr r ↦ inl (ground (arith, e, r))
  ]

  vault_gauge_set-new :
      lookup name v ≡ none
      → (vault_gauge_set lib g name x labels v ≡ v)
        ⊎ (vault_gauge_set lib g name x labels v
            ≡ insert name
                (gauge
                  (lib.sorted (keys labels))
                  (gauge_set lib.hash (lib.sorted (keys labels)) g x labels []))
                (insert name (gauge (lib.sorted (keys labels)) []) v))
  unfolding vault_gauge_set
  vault_gauge_set-new e = elim (Bool-cases (lib.registers name (lib.sorted (keys labels)))) [
    | inl r ↦ inr (ground (arith, e, r))
    | inr r ↦ inl (ground (arith, e, r))
  ]

  vault_counter_add-UniqueVault :
      UniqueVault v → UniqueVault (vault_counter_add lib g name x labels v)
  vault_counter_add-UniqueVault u = go (lookup name v) refl
    where
      go :
          (o : Option (Collector F))
          → lookup name v ≡ o
          → UniqueVault (vault_counter_add lib g name x labels v)
      go none e = elim (vault_counter_add-new e) [
        | inl s ↦ rw s u
        | inr s ↦ rw s (
            insert-UniqueVault name _ _
              (counter_add-Unique lib.hash lib.to_uint64 _ g x labels [] tt)
              (insert-UniqueVault name _ v tt u))
      ]
      go (some (counter names c)) e = rw (vault_counter_add-eq names c e) (
          insert-UniqueVault name _ v
            (counter_add-Unique lib.hash lib.to_uint64 names g x labels c
              (lookup-UniqueCollector name (counter names c) v u e))
            u)
      go (some (gauge names c)) e = rw ((vault_kind_clash names [] c).1 e) u

  vault_gauge_set-UniqueVault : UniqueVault v → UniqueVault (vault_gauge_set lib g name x labels v)
  vault_gauge_set-UniqueVault u = go (lookup name v) refl
    where
      go :
          (o : Option (Collector F))
          → lookup name v ≡ o
          → UniqueVault (vault_gauge_set lib g name x labels v)
      go none e = elim (vault_gauge_set-new e) [
        | inl s ↦ rw s u
        | inr s ↦ rw s (
            insert-UniqueVault name _ _ (gauge_set-Unique lib.hash _ g x labels [] tt)
              (insert-UniqueVault name _ v tt u))
      ]
      go (some (gauge names c)) e = rw (vault_gauge_set-eq names c e) (
          insert-UniqueVault name _ v
            (gauge_set-Unique lib.hash names g x labels c
              (lookup-UniqueCollector name (gauge names c) v u e))
            u)
      go (some (counter names c)) e = rw ((vault_kind_clash names c []).0 e) u
