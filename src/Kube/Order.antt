-- ===== src/Kube/Order.antt =====
-- `ByNamespaceAndName` of shell-operator/pkg/kube_events_manager/types/types.go, the order of the
-- objects in a snapshot, and `Bytes`, their size.
use Prim.Native.String.{len}
use argodemo.Common.{
  ℕ, ◌+◌, ◌≡◌, ◌⊎◌, Bool, true, false, none, some, if◌then◌else◌, arith, less_text,
  less_text-StrictWeak, StrictWeak, Option-cases, inl, inr, Dict, [], ◌∷◌,
}
use argodemo.Kube.Types.{Object, ObjectAndFilterResult}

-- `Less` of two objects that are there.
unfoldable pub less_object : Object → Object → Bool
less_object p q =
    if less_text p.namespace q.namespace
    then true
    else if less_text q.namespace p.namespace
    then false
    else less_text p.name q.name

unfoldable pub less : ObjectAndFilterResult → ObjectAndFilterResult → Bool
unfolding less_object
less p q = elim p.object [
  | none ↦ less_text p.resource_id q.resource_id
  | some a ↦ elim q.object [
    | none ↦ less_text p.resource_id q.resource_id
    | some b ↦ less_object a b
  ]
]

-- The size of the objects that an informer has cached.
unfoldable pub bytes : Dict ObjectAndFilterResult → ℕ
bytes [] = 0
bytes ((k, o) ∷ os) = (len o.filter_result + o.object_bytes) + bytes os

abbrev has_object : ObjectAndFilterResult → Bool
has_object p = elim p.object [ none ↦ false | some a ↦ true ]

less_object-StrictWeak : StrictWeak less_object
unfolding less_object
less_object-StrictWeak = record {
  asym = λ p q h. ground (
    arith,
    h,
    less_text-StrictWeak.asym p.namespace q.namespace,
    less_text-StrictWeak.asym p.name q.name,
  );
  cotrans = λ p q r h. ground (
    arith,
    h,
    less_text-StrictWeak.asym p.namespace r.namespace,
    less_text-StrictWeak.asym q.namespace r.namespace,
    less_text-StrictWeak.cotrans p.namespace q.namespace r.namespace,
    less_text-StrictWeak.cotrans r.namespace p.namespace q.namespace,
    less_text-StrictWeak.cotrans q.namespace r.namespace p.namespace,
    less_text-StrictWeak.cotrans p.name q.name r.name,
  );
}

-- Among results that all have their object, or that all have none, `Less` is asymmetric, and a
-- third result is behind the lesser or before the greater one, so that `sort.Sort` may use it.
-- Where some results have an object and others have none, this is not stated.
pub less-StrictWeak :
    (p q r : ObjectAndFilterResult)
    → has_object p ≡ has_object q
    → has_object q ≡ has_object r
    → less p q ≡ true
    → (less q p ≡ false) × ((less p r ≡ true) ⊎ (less r q ≡ true))
unfolding less
less-StrictWeak p q r e f h = elim (Option-cases p.object) [
  | inl u ↦ elim (Option-cases q.object) [
    | inl v ↦ elim (Option-cases r.object) [
      | inl w ↦ ground (
        arith,
        u,
        v,
        w,
        h,
        less_text-StrictWeak.asym p.resource_id q.resource_id,
        less_text-StrictWeak.cotrans p.resource_id q.resource_id r.resource_id,
      )
      | inr (c, w) ↦ absurd (ground (arith, v, w, f))
    ]
    | inr (b, v) ↦ absurd (ground (arith, u, v, e))
  ]
  | inr (a, u) ↦ elim (Option-cases q.object) [
    | inl v ↦ absurd (ground (arith, u, v, e))
    | inr (b, v) ↦ elim (Option-cases r.object) [
      | inl w ↦ absurd (ground (arith, v, w, f))
      | inr (c, w) ↦
          ground (
            arith,
            u,
            v,
            w,
            h,
            less_object-StrictWeak.asym a b,
            less_object-StrictWeak.cotrans a b c,
          )
    ]
  ]
]
