-- ===== src/Kube/EventText.antt =====
-- `String` of a kube event of shell-operator/pkg/kube_events_manager/types/types.go, which the
-- operator evaluates for each event. A text is the list of its pieces.
use argodemo.Common.{
  ◌≡◌, ◌≢◌, refl, String, List, [], ◌∷◌, ◌++◌, Option, none, some, length, Outcome, ok, panic,
}
use argodemo.Kube.Types.{
  KubeEvent, KubeEventType, WatchEventType, Object, ObjectAndFilterResult, synchronization,
}
use argodemo.Task.Description.{Piece, lit, number}

abbrev watch_event_text : WatchEventType → String
watch_event_text WatchEventType.added = "Added"
watch_event_text WatchEventType.modified = "Modified"
watch_event_text WatchEventType.deleted = "Deleted"
watch_event_text WatchEventType.unset = ""

abbrev involved : Object → List Piece
involved o = lit " for " ∷ lit o.namespace ∷ lit "/" ∷ lit o.kind ∷ lit "/" ∷ lit o.name ∷ []

abbrev single_text : List WatchEventType → Option Object → List Piece
single_text (w ∷ ws) (some o) =
    (lit "Event '" ∷ lit (watch_event_text w) ∷ lit "'" ∷ []) ++ involved o
single_text (w ∷ ws) none = lit "Event '" ∷ lit (watch_event_text w) ∷ lit "' without object" ∷ []
single_text [] (some o) = lit "Event with no kubernetes event type" ∷ involved o
single_text [] none = lit "Event with no kubernetes event type" ∷ []

abbrev event_text : List WatchEventType → List ObjectAndFilterResult → List Piece
event_text ws (r ∷ []) = single_text ws r.object
event_text [] rs = lit "Event without objects and kubernetes event type" ∷ []
event_text (w ∷ ws) rs = lit "Event '" ∷ lit (watch_event_text w) ∷ lit "' without objects" ∷ []

-- The kind of the first object, which panics if the object was dropped.
abbrev synchronization_text : List ObjectAndFilterResult → Outcome (List Piece)
synchronization_text [] = ok (lit "Synchronization with 0 objects" ∷ [])
synchronization_text (r ∷ rs) = elim r.object [
  | none ↦ panic
  | some o ↦ ok (
      lit "Synchronization with "
      ∷ number (length (r ∷ rs))
      ∷ lit " objects of kind '"
      ∷ lit o.kind
      ∷ lit "'"
      ∷ [])
]

-- A type that has no name in the source is the empty text.
unfoldable pub kube_event_text : KubeEvent → Outcome (List Piece)
kube_event_text ev = elim ev.type [
  | KubeEventType.synchronization ↦ synchronization_text ev.objects
  | KubeEventType.event ↦ ok (event_text ev.watch_events ev.objects)
  | KubeEventType.unset ↦
      ok
        (lit "unknown type: '" ∷ lit "" ∷ lit "' from monitor '" ∷ lit ev.monitor_id ∷ lit "'" ∷ [])
]

-- Only the text of a Synchronization can panic.
pub kube_event_text-ok :
    (ev : KubeEvent)
    → ev.type ≢ synchronization
    → (text : List Piece) × (kube_event_text ev ≡ ok text)
unfolding kube_event_text
kube_event_text-ok ev h = by_type ev.type h
  where
    by_type :
        (type : KubeEventType)
        → type ≢ synchronization
        → (text : List Piece) × ((elim type as (λ t. Outcome (List Piece)) [
          | KubeEventType.synchronization ↦ synchronization_text ev.objects
          | KubeEventType.event ↦ ok (event_text ev.watch_events ev.objects)
          | KubeEventType.unset ↦ ok (
              lit "unknown type: '"
              ∷ lit ""
              ∷ lit "' from monitor '"
              ∷ lit ev.monitor_id
              ∷ lit "'"
              ∷ [])
        ])
            ≡ ok text)
    by_type KubeEventType.synchronization n = absurd (n refl)
    by_type KubeEventType.event n = (_, refl)
    by_type KubeEventType.unset n = (_, refl)
