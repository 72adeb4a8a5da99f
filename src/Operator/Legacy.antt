-- ===== src/Operator/Legacy.antt =====
-- The way of an event to a hook of the legacy version: from the informer (resource_informer.go)
-- through the binding controller to the fields of the binding context (binding_context.go).
use argodemo.Common.{
  arith, ◌≡◌, String, Bool, false, [], ◌∷◌, none, some, ok, panic, Option-cases, inl, inr,
}
use argodemo.Kube.Types.{
  Object, ObjectAndFilterResult, KubeEvent, WatchEventType, added, modified, deleted, unset, event,
  remove_full_object,
}
use argodemo.Kube.Informer.{
  Filters, Received, unstructured, final_state_unknown, foreign, Informer, handle_watch_event,
  handle_object, handle_filtered, store_and_fire, fire, cached_result, apply_filter, resource_id,
}
use argodemo.Task.Context.{convert_binding_context_list, context_map, map_v0, resource_fields}
use argodemo.Hook.Kubernetes.{MonitorLink, convert_kube_event_to_binding_context}

-- The event carries one object, which was dropped from memory.
abbrev Dropped : KubeEvent → Type 0
Dropped ev =
    (r : ObjectAndFilterResult) × (e : WatchEventType) × (ev.objects ≡ r ∷ [])
    × (ev.watch_events ≡ e ∷ [])
    × (r.object ≡ none)

cached_result-dropped :
    (env : Filters) (ei : Informer) (o : Object) (r : ObjectAndFilterResult)
    → ei.monitor.keep_full_objects_in_memory ≡ false
    → cached_result env ei o ≡ some r
    → r.object ≡ none
unfolding cached_result remove_full_object
cached_result-dropped env ei o r k h =
    elim (Option-cases (apply_filter env ei.monitor.jq_filter ei.monitor.filter_func o)) [
      | inl e ↦ ground (arith, e)
      | inr (a, e) ↦ ground (arith, e, k)
    ]

handle_filtered-fired :
    (env : Filters) (ei : Informer) (id : String) (e : WatchEventType) (r : ObjectAndFilterResult)
    (ev : KubeEvent)
    → (handle_filtered env ei id e r).0 ≡ some ev
    → (ev.objects ≡ r ∷ []) × (ev.watch_events ≡ e ∷ [])
unfolding handle_filtered store_and_fire fire
handle_filtered-fired env ei id added r ev h = (ground (arith, h), ground (arith, h))
handle_filtered-fired env ei id modified r ev h = (ground (arith, h), ground (arith, h))
handle_filtered-fired env ei id deleted r ev h = (ground (arith, h), ground (arith, h))
handle_filtered-fired env ei id unset r ev h = (ground (arith, h), ground (arith, h))

handle_object-Dropped :
    (env : Filters) (ei : Informer) (o : Object) (e : WatchEventType) (ev : KubeEvent)
    → ei.monitor.keep_full_objects_in_memory ≡ false
    → (handle_object env ei o e).0 ≡ some ev
    → Dropped ev
unfolding handle_object
handle_object-Dropped env ei o e ev k h = elim (Option-cases (cached_result env ei o)) [
  | inl c ↦ (let bad : ⊥ = ground (arith, c, h) in elim bad [ ])
  | inr (r, c) ↦
      (let f = handle_filtered-fired env ei (resource_id env o) e r ev (ground (arith, c, h)) in
        (r, e, f.0, f.1, cached_result-dropped env ei o r k c))
]

Dropped-panic :
    (valid_json : String → Bool) (ev : KubeEvent) (link : MonitorLink)
    → Dropped ev
    → convert_binding_context_list valid_json "v0"
        (convert_kube_event_to_binding_context (record ev { type = event }) link)
      ≡ panic
unfolding convert_binding_context_list context_map map_v0 resource_fields
    convert_kube_event_to_binding_context
Dropped-panic valid_json ev link (r, e, o, w, d) = ground (arith, o, w, d)

handle_watch_event-object :
    (env : Filters) (ei ei' : Informer) (x : Received) (e : WatchEventType) (ev : KubeEvent)
    → handle_watch_event env ei x e ≡ ok (some ev, ei')
    → (o : Object) × ((handle_object env ei o e).0 ≡ some ev)
unfolding handle_watch_event
handle_watch_event-object env ei ei' (unstructured o) e ev h = (o, ground (arith, h))
handle_watch_event-object env ei ei' (final_state_unknown (unstructured o)) e ev h =
    (o, ground (arith, h))
handle_watch_event-object env ei ei' (final_state_unknown (final_state_unknown y)) e ev h =
    let bad : ⊥ = ground (arith, h) in elim bad [ ]
handle_watch_event-object env ei ei' (final_state_unknown foreign) e ev h =
    let bad : ⊥ = ground (arith, h) in elim bad [ ]
handle_watch_event-object env ei ei' foreign e ev h =
    let bad : ⊥ = ground (arith, h) in elim bad [ ]

-- If the monitor drops objects from memory, an event that its informer fires makes the conversion
-- of the binding contexts for a hook of version v0 panic.
pub handle_watch_event-panic :
    (env : Filters) (valid_json : String → Bool) (ei ei' : Informer) (x : Received)
    (e : WatchEventType) (ev : KubeEvent) (link : MonitorLink)
    → ei.monitor.keep_full_objects_in_memory ≡ false
    → handle_watch_event env ei x e ≡ ok (some ev, ei')
    → convert_binding_context_list valid_json "v0"
        (convert_kube_event_to_binding_context (record ev { type = event }) link)
      ≡ panic
handle_watch_event-panic env valid_json ei ei' x e ev link k h =
    let (o, fired) = handle_watch_event-object env ei ei' x e ev h in
    Dropped-panic valid_json ev link (handle_object-Dropped env ei o e ev k fired)
