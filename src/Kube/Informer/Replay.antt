-- ===== src/Kube/Informer/Replay.antt =====
-- What a client that only sees the fired events knows of an informer's cache.
use argodemo.Common.{
  arith, ◌≡◌, refl, subst, String, Bool, true, false, List, [], ◌∷◌, Option, none, some,
  if◌then◌else◌, eq_iff, Dict, lookup, insert, delete, lookup-insert, lookup-delete, Outcome, ok,
  ◌>>=◌, Option-cases, Bool-cases, inl, inr,
}
use argodemo.Kube.Types.{
  Object, ObjectAndFilterResult, remove_full_object, KubeEvent, WatchEventType, added, modified,
  deleted, unset,
}
use argodemo.Kube.Informer.{
  Filters, Received, unstructured, final_state_unknown, foreign, Informer, handle_watch_event,
  handle_object, handle_filtered, store_and_fire, fire, should_fire_event, cached_result,
  apply_filter, resource_id, unchanged,
}

-- The client keeps a checksum for each resource id of the events it is told of.
unfoldable pub see_object : WatchEventType → ObjectAndFilterResult → Dict String → Dict String
see_object deleted r view = delete r.resource_id view
see_object _ r view = insert r.resource_id r.checksum view

unfoldable pub see : Option KubeEvent → Dict String → Dict String
unfolding see_object
see none view = view
see (some ev) view = elim ev.watch_events [
  | [] ↦ view
  | e ∷ es ↦ (elim ev.objects [ [] ↦ view | r ∷ rs ↦ see_object e r view ])
]

abbrev checksum_at : String → Informer → Option String
checksum_at id ei = elim (lookup id ei.cached_objects) [ none ↦ none | some r ↦ some r.checksum ]

abbrev pub Agree : Informer → Dict String → Type 0
Agree ei view = (id : String) → lookup id view ≡ checksum_at id ei

-- A sequence of handler calls, each seen by the client.
unfoldable pub watch :
    Filters
    → Informer
    → Dict String
    → List (Received × WatchEventType)
    → Outcome (Informer × Dict String)
unfolding see
watch env ei view [] = ok (ei, view)
watch env ei view ((x, e) ∷ xs) =
    handle_watch_event env ei x e >>= λ r. watch env r.1 (see r.0 view) xs

abbrev pub AllTypes : Informer → Type 0
AllTypes ei =
    (should_fire_event ei added ≡ true)
    × (should_fire_event ei modified ≡ true)
    × (should_fire_event ei deleted ≡ true)

-- What the client library calls the handlers with: one of the three types, and an object or
-- the last known state of one.
abbrev pub Real : WatchEventType → Type 0
Real unset = ⊥
Real _ = Unit

abbrev pub IsObject : Received → Type 0
IsObject (unstructured o) = Unit
IsObject (final_state_unknown (unstructured o)) = Unit
IsObject _ = ⊥

abbrev pub AllReal : List (Received × WatchEventType) → Type 0
AllReal [] = Unit
AllReal ((x, e) ∷ xs) = IsObject x × Real e × AllReal xs

apply_filter-id :
    (env : Filters) (jq : String) (fn : Option (Object → Option String)) (o : Object)
    (r : ObjectAndFilterResult)
    → apply_filter env jq fn o ≡ some r
    → r.resource_id ≡ resource_id env o
unfolding apply_filter resource_id
apply_filter-id env jq fn o r h = ground arith

cached_result-id :
    (env : Filters) (ei : Informer) (o : Object) (r : ObjectAndFilterResult)
    → cached_result env ei o ≡ some r
    → r.resource_id ≡ resource_id env o
unfolding cached_result remove_full_object
cached_result-id env ei o r h =
    elim (Option-cases (apply_filter env ei.monitor.jq_filter ei.monitor.filter_func o)) [
      | inl e ↦ ground (arith, e)
      | inr (a, e) ↦
          ground (arith, e, apply_filter-id env ei.monitor.jq_filter ei.monitor.filter_func o a e)
    ]

-- What the cache and the client hold after an object is stored under its id.
seen-insert :
    (ei : Informer) (r : ObjectAndFilterResult) (view : Dict String) (other : String)
    → Agree ei view
    → lookup other (insert r.resource_id r.checksum view)
      ≡ checksum_at other (record ei { cached_objects = insert r.resource_id r ei.cached_objects })
seen-insert ei r view other agree = ground (
  arith,
  lookup-insert r.resource_id other r.checksum view,
  lookup-insert r.resource_id other r ei.cached_objects,
  agree other,
)

unchanged-insert :
    (env : Filters) (ei : Informer) (id : String) (r : ObjectAndFilterResult) (other : String)
    → unchanged env ei id r.checksum ≡ true
    → checksum_at other (record ei { cached_objects = insert id r ei.cached_objects })
      ≡ checksum_at other ei
unchanged-insert env ei id r other h = elim (Option-cases (lookup id ei.cached_objects)) [
  | inl e ↦ ground (arith, e)
  | inr (c, e) ↦ ground (
    arith,
    e,
    eq_iff c.checksum r.checksum,
    eq_iff id other,
    lookup-insert id other r ei.cached_objects,
  )
]

seen-delete :
    (ei : Informer) (id : String) (view : Dict String) (other : String)
    → Agree ei view
    → lookup other (delete id view)
      ≡ checksum_at other (record ei { cached_objects = delete id ei.cached_objects })
seen-delete ei id view other agree =
    ground
      (arith, lookup-delete id other view, lookup-delete id other ei.cached_objects, agree other)

handle_filtered-Agree :
    (env : Filters) (ei : Informer) (e : WatchEventType) (r : ObjectAndFilterResult)
    (view : Dict String)
    → Real e
    → AllTypes ei
    → Agree ei view
    → Agree
        (handle_filtered env ei r.resource_id e r).1
        (see (handle_filtered env ei r.resource_id e r).0 view)
unfolding handle_filtered store_and_fire fire see see_object
handle_filtered-Agree env ei added r view he h agree other =
    elim (Bool-cases (unchanged env ei r.resource_id r.checksum)) [
      | inl u ↦ ground (arith, u, unchanged-insert env ei r.resource_id r other u, agree other)
      | inr u ↦ ground (arith, u, h.0, seen-insert ei r view other agree)
    ]
handle_filtered-Agree env ei modified r view he h agree other =
    elim (Bool-cases (unchanged env ei r.resource_id r.checksum)) [
      | inl u ↦ ground (arith, u, unchanged-insert env ei r.resource_id r other u, agree other)
      | inr u ↦ ground (arith, u, h.1, seen-insert ei r view other agree)
    ]
handle_filtered-Agree env ei deleted r view he h agree other =
    ground (arith, h.2, seen-delete ei r.resource_id view other agree)
handle_filtered-Agree env ei unset r view he h agree other = elim he [ ]

abbrev stored_if_ok :
    Filters → Informer → WatchEventType → Option ObjectAndFilterResult → Option KubeEvent × Informer
stored_if_ok env ei e none = (none, ei)
stored_if_ok env ei e (some r) = handle_filtered env ei r.resource_id e r

handle_object-stored_if_ok :
    (env : Filters) (ei : Informer) (o : Object) (e : WatchEventType)
    → stored_if_ok env ei e (cached_result env ei o) ≡ handle_object env ei o e
unfolding handle_object
handle_object-stored_if_ok env ei o e = elim (Option-cases (cached_result env ei o)) [
  | inl c ↦ ground (arith, c)
  | inr (r, c) ↦ ground (arith, c, cached_result-id env ei o r c)
]

stored_if_ok-Agree :
    (env : Filters) (ei : Informer) (e : WatchEventType) (c : Option ObjectAndFilterResult)
    (view : Dict String)
    → Real e
    → AllTypes ei
    → Agree ei view
    → Agree (stored_if_ok env ei e c).1 (see (stored_if_ok env ei e c).0 view)
unfolding see
stored_if_ok-Agree env ei e none view he h agree = agree
stored_if_ok-Agree env ei e (some r) view he h agree =
    handle_filtered-Agree env ei e r view he h agree

handle_object-Agree :
    (env : Filters) (ei : Informer) (o : Object) (e : WatchEventType) (view : Dict String)
    → Real e
    → AllTypes ei
    → Agree ei view
    → Agree (handle_object env ei o e).1 (see (handle_object env ei o e).0 view)
handle_object-Agree env ei o e view he h agree =
    subst (λ p. Agree p.1 (see p.0 view)) (handle_object-stored_if_ok env ei o e)
      (stored_if_ok-Agree env ei e (cached_result env ei o) view he h agree)

handle_object-AllTypes :
    (env : Filters) (ei : Informer) (o : Object) (e : WatchEventType)
    → AllTypes ei
    → AllTypes (handle_object env ei o e).1
unfolding handle_object handle_filtered store_and_fire fire should_fire_event
handle_object-AllTypes env ei o e h =
    (ground (arith, h.0), ground (arith, h.1), ground (arith, h.2))

-- One call leaves the client in agreement with the cache.
abbrev Kept : Dict String → Outcome (Option KubeEvent × Informer) → Type 0
Kept view out =
    (r : Option KubeEvent × Informer) × (out ≡ ok r) × AllTypes r.1 × Agree r.1 (see r.0 view)

object-Kept :
    (env : Filters) (ei : Informer) (o : Object) (e : WatchEventType) (view : Dict String)
    (stopped : Bool)
    → Real e
    → AllTypes ei
    → Agree ei view
    → Kept view (if stopped then ok (none, ei) else ok (handle_object env ei o e))
unfolding see
object-Kept env ei o e view true he h agree = ((none, ei), refl, h, agree)
object-Kept env ei o e view false he h agree = (
  handle_object env ei o e,
  refl,
  handle_object-AllTypes env ei o e h,
  handle_object-Agree env ei o e view he h agree,
)

handle_watch_event-Kept :
    (env : Filters) (ei : Informer) (x : Received) (e : WatchEventType) (view : Dict String)
    → IsObject x
    → Real e
    → AllTypes ei
    → Agree ei view
    → Kept view (handle_watch_event env ei x e)
unfolding handle_watch_event
handle_watch_event-Kept env ei (unstructured o) e view hx he h agree =
    object-Kept env ei o e view ei.stopped he h agree
handle_watch_event-Kept env ei (final_state_unknown (unstructured o)) e view hx he h agree =
    object-Kept env ei o e view ei.stopped he h agree
handle_watch_event-Kept env ei (final_state_unknown (final_state_unknown _)) e view hx he h agree =
    elim hx [ ]
handle_watch_event-Kept env ei (final_state_unknown foreign) e view hx he h agree = elim hx [ ]
handle_watch_event-Kept env ei foreign e view hx he h agree = elim hx [ ]

-- A client that starts with the checksums of the cache and applies every fired event to them has
-- the checksums of the cache after any sequence of handler calls, if the monitor watches all
-- three event types and the handlers are given objects. No call panics then.
pub watch-Agree :
    (env : Filters) (ei : Informer) (view : Dict String) (xs : List (Received × WatchEventType))
    → AllReal xs
    → AllTypes ei
    → Agree ei view
    → (r : Informer × Dict String) × (watch env ei view xs ≡ ok r) × Agree r.0 r.1
unfolding watch
watch-Agree env ei view [] hx h agree = ((ei, view), refl, agree)
watch-Agree env ei view ((x, e) ∷ xs) hx h agree =
    let s = handle_watch_event-Kept env ei x e view hx.0 hx.1 h agree in
    let t = watch-Agree env s.0.1 (see s.0.0 view) xs hx.2 s.2 s.3 in (t.0, rw (s.1, t.1), t.2)
