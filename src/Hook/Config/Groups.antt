-- ===== src/Hook/Config/Groups.antt =====
-- hook_config.go, the end of `ConvertAndCheckV1` and `MergeArrays`: a binding of a group includes
-- the snapshots of every kubernetes binding of the group.
use argodemo.Common.{
  arith, ◌≡◌, refl, ap, String, Bool, true, false, not, List, [], ◌∷◌, ◌++◌, append-nil,
  append_assoc, none, some, if◌then◌else◌, ◌==◌, eq_iff, eq_refl, Dict, lookup, insert,
  lookup-insert, any, Option-cases, Bool-cases, inl, inr,
}
use argodemo.Hook.Bindings.{ScheduleConfig, OnKubernetesEventConfig}

-- The three loops of `MergeArrays` over the map `union`.
unfoldable pub set_all : Bool → List String → Dict Bool → Dict Bool
set_all v [] union = union
set_all v (a ∷ more) union = set_all v more (insert a v union)

abbrev pub is_set : String → Dict Bool → Bool
is_set a union = elim (lookup a union) [ none ↦ false | some v ↦ v ]

unfoldable pub appended : Dict Bool → List String → List String
appended union [] = []
appended union (a ∷ more) =
    if is_set a union then a ∷ appended (insert a false union) more else appended union more

unfoldable pub merge_arrays : List String → List String → List String
unfolding set_all appended
merge_arrays a1 a2 = a1 ++ appended (set_all false a1 (set_all true a2 [])) a2

-- `groupSnapshots`
unfoldable pub group_snapshots :
    List OnKubernetesEventConfig → Dict (List String) → Dict (List String)
group_snapshots [] m = m
group_snapshots (b ∷ bs) m =
    if b.group == ""
    then group_snapshots bs m
    else group_snapshots bs (
        insert b.group
          (elim (lookup b.group m) [ none ↦ [] | some names ↦ names ] ++ b.binding_name ∷ []) m)

abbrev pub merged : Dict (List String) → String → List String → List String
merged m group includes = elim (lookup group m) [
  | none ↦ includes
  | some names ↦ merge_arrays includes names
]

unfoldable pub update_kubernetes :
    Dict (List String) → List OnKubernetesEventConfig → List OnKubernetesEventConfig
update_kubernetes m [] = []
update_kubernetes m (b ∷ bs) =
    record b { include_snapshots_from = merged m b.group b.include_snapshots_from }
    ∷ update_kubernetes m bs

unfoldable pub update_schedules : Dict (List String) → List ScheduleConfig → List ScheduleConfig
update_schedules m [] = []
update_schedules m (b ∷ bs) =
    record b { include_snapshots_from = merged m b.group b.include_snapshots_from }
    ∷ update_schedules m bs

-- The elements of the second list that are in neither the first one nor earlier in the second.
pub fresh : List String → List String → List String
fresh seen [] = []
fresh seen (a ∷ more) =
    if any (λ s. s == a) seen then fresh seen more else a ∷ fresh (a ∷ seen) more

is_set-insert :
    (k a : String) (v : Bool) (m : Dict Bool)
    → is_set a (insert k v m) ≡ (if k == a then v else is_set a m)
is_set-insert k a v m = ground (arith, lookup-insert k a v m)

is_set-set_all :
    (v : Bool) (more : List String) (m : Dict Bool) (a : String)
    → is_set a (set_all v more m) ≡ (if any (λ s. s == a) more then v else is_set a m)
unfolding set_all
is_set-set_all v [] m a = refl
is_set-set_all v (b ∷ more) m a =
    ground (arith, is_set-set_all v more (insert b v m) a, is_set-insert b a v m)

-- A name of the second list is set exactly as long as it has not been seen.
appended-fresh :
    (union : Dict Bool) (seen more : List String)
    → ((a : String) → any (λ s. s == a) more ≡ true → is_set a union ≡ not (any (λ s. s == a) seen))
    → appended union more ≡ fresh seen more
unfolding appended fresh
appended-fresh union seen [] h = refl
appended-fresh union seen (a ∷ more) h = elim (Bool-cases (any (λ s. s == a) seen)) [
  | inl e ↦ ground (
    arith,
    e,
    h a (ground (arith, eq_refl a)),
    appended-fresh union seen more (λ b k. h b (ground (arith, k))),
  )
  | inr e ↦
      (let rest =
          appended-fresh (insert a false union) (a ∷ seen) more
            (λ b k. ground (arith, k, is_set-insert a b false union, h b (ground (arith, k)))) in
        ground (arith, e, h a (ground (arith, eq_refl a)), rest))
]

-- Merging keeps the first list and appends each name of the second that is not in it, once and in
-- order.
pub merge_arrays-fresh : (a1 a2 : List String) → merge_arrays a1 a2 ≡ a1 ++ fresh a1 a2
unfolding merge_arrays
merge_arrays-fresh a1 a2 =
    ap (λ r. a1 ++ r) (appended-fresh (set_all false a1 (set_all true a2 [])) a1 a2 set)
  where
    set :
        (a : String)
        → any (λ s. s == a) a2 ≡ true
        → is_set a (set_all false a1 (set_all true a2 [])) ≡ not (any (λ s. s == a) a1)
    set a h =
        ground
          (arith, h, is_set-set_all false a1 (set_all true a2 []) a, is_set-set_all true a2 [] a)

-- The names of the bindings of a group.
pub names_in : String → List OnKubernetesEventConfig → List String
names_in g [] = []
names_in g (b ∷ bs) = if b.group == g then b.binding_name ∷ names_in g bs else names_in g bs

lookup-group_snapshots :
    (g : String) (bs : List OnKubernetesEventConfig) (m : Dict (List String))
    → lookup g (group_snapshots bs m) ≡ (
        if g == "" then lookup g m else elim (lookup g m) [
          | some names ↦ some (names ++ names_in g bs)
          | none ↦ elim (names_in g bs) [ [] ↦ none | n ∷ ns ↦ some (n ∷ ns) ]
        ])
unfolding group_snapshots names_in
lookup-group_snapshots g [] m = elim (Option-cases (lookup g m)) [
  | inl e ↦ ground (arith, e)
  | inr (ns, e) ↦ ground (arith, e, append-nil ns)
]
lookup-group_snapshots g (b ∷ bs) m = elim (Option-cases (lookup b.group m)) [
  | inl e ↦ ground (
    arith,
    e,
    eq_iff b.group g,
    lookup-group_snapshots g bs m,
    lookup-group_snapshots g bs (insert b.group (b.binding_name ∷ []) m),
    lookup-insert b.group g (b.binding_name ∷ []) m,
  )
  | inr (ns, e) ↦ ground (
    arith,
    e,
    eq_iff b.group g,
    lookup-group_snapshots g bs m,
    lookup-group_snapshots g bs (insert b.group (ns ++ b.binding_name ∷ []) m),
    lookup-insert b.group g (ns ++ b.binding_name ∷ []) m,
    append_assoc ns (b.binding_name ∷ []) (names_in g bs),
  )
]

fresh-nil : (seen : List String) → fresh seen [] ≡ []
unfolding fresh
fresh-nil seen = refl

lookup-nil : (g : String) → lookup {V = List String} g [] ≡ none
unfolding lookup
lookup-nil g = refl

-- The includes of a binding of a group are, with the groups of all the bindings, its own ones and
-- then the names of the kubernetes bindings of its group that are not among them, each once and
-- in order. A binding without a group keeps its own.
pub merged-group_snapshots :
    (bs : List OnKubernetesEventConfig) (g : String) (includes : List String)
    → merged (group_snapshots bs []) g includes
      ≡ (if g == "" then includes else includes ++ fresh includes (names_in g bs))
merged-group_snapshots bs g includes = go (names_in g bs) refl
  where
    go :
        (ns : List String)
        → names_in g bs ≡ ns
        → merged (group_snapshots bs []) g includes
          ≡ (if g == "" then includes else includes ++ fresh includes (names_in g bs))
    go [] e = ground (
      arith,
      e,
      lookup-nil g,
      lookup-group_snapshots g bs [],
      append-nil includes,
      fresh-nil includes,
    )
    go (n ∷ ns) e = ground (
      arith,
      e,
      lookup-nil g,
      lookup-group_snapshots g bs [],
      merge_arrays-fresh includes (n ∷ ns),
    )
