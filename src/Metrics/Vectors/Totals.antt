-- ===== src/Metrics/Vectors/Totals.antt =====
-- What the counters of shell-operator/pkg/metric_storage/metric_storage.go hold after the calls
-- that batches of operations make.
use argodemo.Common.{
  ◌≡◌, refl, arith, String, Bool, false, not, ◌&&◌, List, [], ◌∷◌, Option, none, some,
  if◌then◌else◌, ◌==◌, eq_iff, eq_refl, ap, ◌∙◌, Dict, lookup, insert, lookup-insert, Option-cases,
  Bool-cases, inl, inr,
}
use argodemo.Metrics.Storage.{Call, counter_add, gauge_set}
use argodemo.Metrics.Vectors.{
  Prometheus, Vec, Vectors, or_else, label_names, counter, register_counter, write_counter,
  vector_counter_add, vector_gauge_set, perform, perform_all,
}

module _ {F : Type 0} (lib : Prometheus F) where
  -- The labels select the child of a vector with the label names.
  abbrev pub selects : List String → Dict String → String → Bool
  selects names labels ch = elim (lib.child names labels) [ none ↦ false | some c ↦ c == ch ]

  -- The sum of the values that the calls add to a child of a counter, the negative ones left out.
  pub total : List String → String → String → List (Call F) → F → F
  total names metric ch [] x = x
  total names metric ch (counter_add n v labels ∷ cs) x =
      total names metric ch cs (
        if n == metric && (selects names labels ch && not (lib.negative v))
        then lib.plus x v
        else x)
  total names metric ch (gauge_set n v labels ∷ cs) x = total names metric ch cs x

  -- The value of a child, which starts at zero.
  abbrev pub value : Vec F → String → F
  value vec ch = or_else (lookup ch vec.children) lib.zero

  -- A counter with the label names and the value of a child.
  record Holds (names : List String) (metric ch : String) (x : F) (m : Vectors F) : Type 0 where
    vec : Vec F
    found : lookup metric m.counters ≡ some vec
    same_names : vec.label_names ≡ names
    has_value : value vec ch ≡ x

  vector_gauge_set-counters :
      (n : String) (v : F) (labels : Dict String) (m : Vectors F)
      → (vector_gauge_set lib n v labels m).counters ≡ m.counters
  unfolding vector_gauge_set
  vector_gauge_set-counters n v labels m = elim (Option-cases (lookup n m.gauges)) [
    | inr (vec, e) ↦ (elim (Option-cases (lib.child vec.label_names labels)) [
      | inl f ↦ ground (arith, e, f)
      | inr (c, f) ↦ ground (arith, e, f)
    ])
    | inl e ↦ ground (arith, e)
  ]

  abbrev added : F → Vec F → String → F
  added v vec c = if lib.negative v then value vec c else lib.plus (value vec c) v

  -- What an addition leaves of the vector of its metric.
  abbrev after_add : F → Dict String → Vec F → Vec F
  after_add v labels vec = elim (lib.child vec.label_names labels) [
    | none ↦ vec
    | some c ↦ record vec { children = insert c (added v vec c) vec.children }
  ]

  vector_counter_add-same :
      (metric : String) (v : F) (labels : Dict String) (m : Vectors F) (vec : Vec F)
      → lookup metric m.counters ≡ some vec
      → lookup metric (vector_counter_add lib metric v labels m).counters
        ≡ some (after_add v labels vec)
  unfolding vector_counter_add counter
  vector_counter_add-same metric v labels m vec e =
      elim (Option-cases (lib.child vec.label_names labels)) [
        | inl f ↦ ground (arith, e, f)
        | inr (c, f) ↦ ground (
          arith,
          e,
          f,
          eq_refl metric,
          lookup-insert metric metric
              (record vec { children = insert c (added v vec c) vec.children }) m.counters,
        )
      ]

  write_counter-other :
      (metric n : String) (labels : Dict String) (f : F → F) (found : Option (Vec F) × Vectors F)
      → (n == metric) ≡ false
      → lookup metric (write_counter lib n labels f found).counters ≡ lookup metric found.1.counters
  write_counter-other metric n labels f (none, m) e = refl
  write_counter-other metric n labels f (some vec, m) e =
      elim (Option-cases (lib.child vec.label_names labels)) [
        | inl g ↦ ground (arith, g)
        | inr (c, g) ↦ ground (
          arith,
          e,
          g,
          eq_iff n metric,
          lookup-insert n metric
              (record vec {
                children = insert c (f (or_else (lookup c vec.children) lib.zero)) vec.children;
              })
              m.counters,
        )
      ]

  counter-other :
      (metric n : String) (labels : Dict String) (m : Vectors F)
      → (n == metric) ≡ false
      → lookup metric (counter lib n labels m).1.counters ≡ lookup metric m.counters
  unfolding counter register_counter
  counter-other metric n labels m e = elim (Option-cases (lookup n m.counters)) [
    | inr (vec, f) ↦ ground (arith, f)
    | inl f ↦ ground (
      arith,
      e,
      f,
      eq_iff n metric,
      lookup-insert n metric (record { label_names = label_names lib labels; children = [] })
          m.counters,
    )
  ]

  vector_counter_add-other :
      (metric n : String) (v : F) (labels : Dict String) (m : Vectors F)
      → (n == metric) ≡ false
      → lookup metric (vector_counter_add lib n v labels m).counters ≡ lookup metric m.counters
  unfolding vector_counter_add
  vector_counter_add-other metric n v labels m e =
      write_counter-other metric n labels (λ x. if lib.negative v then x else lib.plus x v)
        (counter lib n labels m) e
      ∙ counter-other metric n labels m e

  value-after_add :
      (v : F) (labels : Dict String) (vec : Vec F) (ch : String)
      → value (after_add v labels vec) ch ≡ (
          if selects vec.label_names labels ch && not (lib.negative v)
          then lib.plus (value vec ch) v
          else value vec ch)
  value-after_add v labels vec ch = elim (Option-cases (lib.child vec.label_names labels)) [
    | inl f ↦ ground (arith, f)
    | inr (c, f) ↦ ground (arith, f, lookup-insert c ch (added v vec c) vec.children, eq_iff c ch)
  ]

  after_add-label_names :
      (v : F) (labels : Dict String) (vec : Vec F)
      → (after_add v labels vec).label_names ≡ vec.label_names
  after_add-label_names v labels vec = elim (Option-cases (lib.child vec.label_names labels)) [
    | inl f ↦ ground (arith, f)
    | inr (c, f) ↦ ground (arith, f)
  ]

  vector_counter_add-Holds :
      (names : List String) (metric ch : String) (x : F) (n : String) (v : F) (labels : Dict String)
      (m : Vectors F)
      → Holds names metric ch x m
      → Holds names metric ch
          (if n == metric && (selects names labels ch && not (lib.negative v))
            then lib.plus x v
            else x)
          (vector_counter_add lib n v labels m)
  vector_counter_add-Holds names metric ch x n v labels m h = elim (Bool-cases (n == metric)) [
    | inr e ↦ record {
      vec = h.vec;
      found = vector_counter_add-other metric n v labels m e ∙ h.found;
      same_names = h.same_names;
      has_value = ground (arith, e, h.has_value);
    }
    | inl e ↦
        (let same : n ≡ metric = ground (arith, e, eq_iff n metric) in
          record {
            vec = after_add v labels h.vec;
            found = rw same (vector_counter_add-same metric v labels m h.vec h.found);
            same_names = after_add-label_names v labels h.vec ∙ h.same_names;
            has_value =
                ground (arith, e, h.same_names, h.has_value, value-after_add v labels h.vec ch);
          })
  ]

  perform_all-Holds :
      (names : List String) (metric ch : String) (calls : List (Call F)) (x : F) (m : Vectors F)
      → Holds names metric ch x m
      → Holds names metric ch (total names metric ch calls x) (perform_all lib calls m)
  unfolding perform_all perform total
  perform_all-Holds names metric ch [] x m h = h
  perform_all-Holds names metric ch (counter_add n v labels ∷ cs) x m h =
      perform_all-Holds names metric ch cs _ (vector_counter_add lib n v labels m)
        (vector_counter_add-Holds names metric ch x n v labels m h)
  perform_all-Holds names metric ch (gauge_set n v labels ∷ cs) x m h =
      perform_all-Holds names metric ch cs x (vector_gauge_set lib n v labels m) (record {
        vec = h.vec;
        found = ap (lookup metric) (vector_gauge_set-counters n v labels m) ∙ h.found;
        same_names = h.same_names;
        has_value = h.has_value;
      })

  -- A registered counter stays registered over any calls, with the label names that it has, and
  -- each of its children holds what it held before and the sum of the values that are added to
  -- it: those of calls with the metric's name, with labels that select the child, and not
  -- negative.
  pub perform_all-total :
      (metric ch : String) (calls : List (Call F)) (m : Vectors F) (vec : Vec F)
      → lookup metric m.counters ≡ some vec
      → (vec' : Vec F) × (lookup metric (perform_all lib calls m).counters ≡ some vec')
        × (vec'.label_names ≡ vec.label_names)
        × (value vec' ch ≡ total vec.label_names metric ch calls (value vec ch))
  perform_all-total metric ch calls m vec h =
      let r =
        perform_all-Holds vec.label_names metric ch calls (value vec ch) m
          (record { vec = vec; found = h; same_names = refl; has_value = refl }) in
      (r.vec, r.found, r.same_names, r.has_value)
