-- ===== src/Kube/Informer.antt =====
-- shell-operator/pkg/kube_events_manager/resource_informer.go, filter.go and `ResourceId` of
-- util.go: the cache of one resource informer and the events that it fires. The metrics, the
-- locks and the Kubernetes client are left out: a list of objects is an argument.
pub mod Replay
use argodemo.Common.{
  ℕ, String, Bool, true, false, not, ◌&&◌, ◌||◌, List, [], ◌∷◌, Option, none, some, if◌then◌else◌,
  ◌==◌, Dict, lookup, insert, delete, any, Outcome, ok, panic, ◌>>=◌,
}
use argodemo.Kube.Types.{
  Object, ObjectAndFilterResult, remove_full_object, KubeEvent, WatchEventType, KubeEventType,
  added, modified, deleted, unset,
}
use argodemo.Kube.Monitor.{MonitorConfig}
use argodemo.Kube.Context.{Context}

-- The code that is not in the repository: `json.Marshal` and the length of a text, libjq, the
-- hex text of an MD5 sum, and `Sprintf("%s/%s/%s")`.
pub record Filters : Type 0 where
  pub marshal : Object → Option String
  pub text_length : String → ℕ
  pub jq : String → String → Option String
  pub checksum : String → String
  pub join : String → String → String → String

-- What the client library hands to a handler: an object, the last known state of a deleted one,
-- or a value of another type.
pub data Received : Type 0 where
  unstructured : Object → Received
  final_state_unknown : Received → Received
  foreign : Received

pub record Informer : Type 0 where
  pub monitor : MonitorConfig
  pub cached_objects : Dict ObjectAndFilterResult
  pub ctx : Context
  pub started : Bool
  pub stopped : Bool

unfoldable pub new_resource_informer : MonitorConfig → Informer
new_resource_informer m = record {
  monitor = m;
  cached_objects = [];
  ctx = [];
  started = false;
  stopped = false;
}

-- The context that is derived from the argument is left out: only `Stop` of the informer cancels
-- it by itself.
unfoldable pub with_context : Context → Informer → Informer
with_context ctx ei = record ei { ctx = ctx }

unfoldable pub start_informer : Informer → Informer
start_informer ei = record ei { started = true }

unfoldable pub pause_handle_events : Informer → Informer
pause_handle_events ei = record ei { stopped = true }

abbrev pub same_event : WatchEventType → WatchEventType → Bool
same_event added added = true
same_event modified modified = true
same_event deleted deleted = true
same_event unset unset = true
same_event _ _ = false

unfoldable pub should_fire_event : Informer → WatchEventType → Bool
should_fire_event ei e = any (same_event e) ei.monitor.event_types

module _ (env : Filters) where
  unfoldable pub resource_id : Object → String
  resource_id o = env.join o.namespace o.kind o.name

  abbrev filtered_result : String → Object → String → String → String → ObjectAndFilterResult
  filtered_result jq o json filtered sum = record {
    jq_filter = jq;
    checksum = sum;
    resource_id = resource_id o;
    remove_object = false;
    object = some o;
    filter_result = filtered;
    object_bytes = env.text_length json;
  }

  -- `none` is an error. The filter function of a monitor is nil where it is `none`.
  unfoldable pub apply_filter :
      String → Option (Object → Option String) → Object → Option ObjectAndFilterResult
  unfolding resource_id
  apply_filter jq filter_func o = elim (env.marshal o) [
    | none ↦ none
    | some json ↦ (elim filter_func [
      | some fn ↦ (elim (fn o) [
        | none ↦ none
        | some filtered ↦ some (filtered_result jq o json filtered (env.checksum filtered))
      ])
      | none ↦
          (if jq == ""
            then some (filtered_result jq o json "" (env.checksum json))
            else (elim (env.jq jq json) [
              | none ↦ none
              | some filtered ↦ some (filtered_result jq o json filtered (env.checksum filtered))
            ]))
    ])
  ]

  unfoldable pub cached_result : Informer → Object → Option ObjectAndFilterResult
  unfolding apply_filter remove_full_object
  cached_result ei o = elim (apply_filter ei.monitor.jq_filter ei.monitor.filter_func o) [
    | none ↦ none
    | some r ↦ some (if not ei.monitor.keep_full_objects_in_memory then remove_full_object r else r)
  ]

  -- The objects of the list, filtered; an error leaves the cache alone.
  unfoldable pub filter_all :
      Informer → List Object → Dict ObjectAndFilterResult → Option (Dict ObjectAndFilterResult)
  filter_all ei [] m = some m
  filter_all ei (o ∷ os) m = elim (cached_result ei o) [
    | none ↦ none
    | some r ↦ filter_all ei os (insert r.resource_id r m)
  ]

  unfoldable pub save_all :
      Dict ObjectAndFilterResult → Dict ObjectAndFilterResult → Dict ObjectAndFilterResult
  save_all [] cache = cache
  save_all ((k, v) ∷ m) cache = save_all m (insert k v cache)

  -- `LoadExistedObjects` on the listed objects; `none` is a failed list. True is an error.
  unfoldable pub load_existed_objects : Informer → Option (List Object) → Bool × Informer
  unfolding filter_all save_all
  load_existed_objects ei none = (true, ei)
  load_existed_objects ei (some os) = elim (filter_all ei os []) [
    | none ↦ (true, ei)
    | some m ↦ (false, record ei { cached_objects = save_all m ei.cached_objects })
  ]

  unfoldable pub fire :
      Informer → WatchEventType → ObjectAndFilterResult → Option KubeEvent × Informer
  unfolding should_fire_event
  fire ei e r = (
    if should_fire_event ei e
        then some (record {
          monitor_id = ei.monitor.monitor_id;
          type = KubeEventType.unset;
          watch_events = e ∷ [];
          objects = r ∷ [];
        })
        else none,
    ei,
  )

  -- The object is in the cache with the same checksum.
  abbrev pub unchanged : Informer → String → String → Bool
  unchanged ei id sum = elim (lookup id ei.cached_objects) [
    | none ↦ false
    | some c ↦ c.checksum == sum
  ]

  unfoldable pub store_and_fire :
      Informer → String → WatchEventType → ObjectAndFilterResult → Option KubeEvent × Informer
  unfolding fire
  store_and_fire ei id e r =
      let stored = record ei { cached_objects = insert id r ei.cached_objects } in
      if unchanged ei id r.checksum then (none, stored) else fire stored e r

  unfoldable pub handle_filtered :
      Informer → String → WatchEventType → ObjectAndFilterResult → Option KubeEvent × Informer
  unfolding fire store_and_fire
  handle_filtered ei id added r = store_and_fire ei id added r
  handle_filtered ei id modified r = store_and_fire ei id modified r
  handle_filtered ei id deleted r =
      fire (record ei { cached_objects = delete id ei.cached_objects }) deleted r
  handle_filtered ei id unset r = fire ei unset r

  unfoldable pub handle_object : Informer → Object → WatchEventType → Option KubeEvent × Informer
  unfolding cached_result resource_id handle_filtered
  handle_object ei o e = elim (cached_result ei o) [
    | none ↦ (none, ei)
    | some r ↦ handle_filtered ei (resource_id o) e r
  ]

  abbrev unwrap : Received → Received
  unwrap (final_state_unknown x) = x
  unwrap x = x

  -- `HandleWatchEvent`: the event for the callback, if any. The type assertion panics on a value
  -- that is not an object after one unwrapping.
  unfoldable pub handle_watch_event :
      Informer → Received → WatchEventType → Outcome (Option KubeEvent × Informer)
  unfolding handle_object
  handle_watch_event ei x e =
      if ei.stopped
      then ok (none, ei)
      else (elim (unwrap x) [ unstructured o ↦ ok (handle_object ei o e) | _ ↦ panic ])
