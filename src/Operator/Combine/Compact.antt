-- ===== src/Operator/Combine/Compact.antt =====
-- Compaction of binding contexts by group.
use argodemo.Common.{
  ◌∙◌, ◌≡◌, refl, String, Bool, false, not, ◌&&◌, List, [], ◌∷◌, ◌==◌, eq_iff, arith, keep, any,
  Bool-cases, inl, inr,
}
use argodemo.Task.Context.{BindingContext}
use argodemo.Operator.Combine.{compact}

abbrev group : BindingContext → String
group c = c.metadata.group

abbrev pub ungrouped : BindingContext → Bool
ungrouped c = c.metadata.group == ""

abbrev pub in_group : String → BindingContext → Bool
in_group g c = c.metadata.group == g

-- No two neighbours are of the same group.
abbrev pub IsCompact : List BindingContext → Type 0
IsCompact [] = Unit
IsCompact (c ∷ []) = Unit
IsCompact (c ∷ d ∷ cs) =
    ((not (c.metadata.group == "") && d.metadata.group == c.metadata.group) ≡ false)
    × IsCompact (d ∷ cs)

-- The first context that is left is of the group of the first one.
compact-head :
    (cs : List BindingContext) (c : BindingContext)
    → (x : BindingContext) × (xs : List BindingContext) × (compact (c ∷ cs) ≡ x ∷ xs)
      × (x.metadata.group ≡ c.metadata.group)
unfolding compact
compact-head [] c = (c, [], refl, refl)
compact-head (d ∷ cs) c =
    elim (Bool-cases (not (c.metadata.group == "") && d.metadata.group == c.metadata.group)) [
      | inl e ↦
          (let (x, xs, p, q) = compact-head cs d in
            (x, xs, rw e p, q ∙ (eq_iff d.metadata.group c.metadata.group).0 (ground arith)))
      | inr e ↦ (c, compact (d ∷ cs), rw e, refl)
    ]

compact-IsCompact : (l : List BindingContext) → IsCompact (compact l)
unfolding compact
compact-IsCompact [] = tt
compact-IsCompact (c ∷ []) = tt
compact-IsCompact (c ∷ d ∷ cs) =
    elim (Bool-cases (not (c.metadata.group == "") && d.metadata.group == c.metadata.group)) [
      | inl e ↦ rw (e, IsCompact) (compact-IsCompact (d ∷ cs))
      | inr e ↦
          (let (x, xs, p, q) = compact-head cs d in
            rw (e, p, IsCompact) (rw q e, rw p at (compact-IsCompact (d ∷ cs))))
    ]

compact-ungrouped : (l : List BindingContext) → keep ungrouped (compact l) ≡ keep ungrouped l
unfolding compact
compact-ungrouped [] = refl
compact-ungrouped (c ∷ []) = refl
compact-ungrouped (c ∷ d ∷ cs) = ground (arith, compact-ungrouped (d ∷ cs))

compact-in_group :
    (g : String) (l : List BindingContext) → any (in_group g) (compact l) ≡ any (in_group g) l
unfolding compact
compact-in_group g [] = refl
compact-in_group g (c ∷ []) = refl
compact-in_group g (c ∷ d ∷ cs) =
    ground (arith, compact-in_group g (d ∷ cs), eq_iff d.metadata.group c.metadata.group)

-- After compaction no two neighbours are of one group, the contexts without a group are those
-- there were, in their order, and the same groups are present.
pub compact_lem :
    (l : List BindingContext) (g : String)
    → IsCompact (compact l)
      × (keep ungrouped (compact l) ≡ keep ungrouped l)
      × (any (in_group g) (compact l) ≡ any (in_group g) l)
compact_lem l g = (compact-IsCompact l, compact-ungrouped l, compact-in_group g l)
