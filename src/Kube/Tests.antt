-- ===== src/Kube/Tests.antt =====
-- A small cluster and the theorems about its monitors applied. A filter result is the object's
-- body, and a checksum is the text itself.
use argodemo.Kube.Resync.{second, randomized_resync_period, randomized_resync_period_range}
use argodemo.Common.{
  ◌⊎◌, less_text, ◌≡◌, ◌*◌, ◌-◌, ◌+◌, ◌≤◌, arith, refl, String, List, [], ◌∷◌, none, some, Dict, ok,
  length, lookup, has_key, All, false, true, not, ◌&&◌,
}
use argodemo.Kube.Order.{less, less_object, less-StrictWeak}
use argodemo.Kube.Types.{
  ObjectAndFilterResult, Object, WatchEventType, added, modified, deleted, incremental,
}
use argodemo.Kube.Monitor.{
  MonitorConfig, no_monitor, namespaces, names, format_field_selector_ok, adjust_field_selector,
}
use argodemo.Kube.Informer.{
  Filters, Received, unstructured, final_state_unknown, Informer, new_resource_informer,
  with_context, should_fire_event, load_existed_objects,
}
use argodemo.Kube.Informer.Replay.{watch, Agree, watch-Agree}
use argodemo.Kube.MonitorState.{
  Client, Monitor, create_informers, or_any, new_monitor, start, stop, start_under,
  namespace_deleted,
}
use argodemo.Kube.MonitorState.Namespaces.{
  NamespaceChange, appeared, gone, follow, exists_after, follow-start,
}
use argodemo.Kube.MonitorState.Stopping.{running, follow-running, stop-start}
use argodemo.Kube.MonitorState.Created.{existed}

abbrev pub filters : Filters
filters = record {
  marshal = λ o. some o.body;
  text_length = λ s. 1;
  jq = λ q s. some s;
  checksum = λ s. s;
  join = λ a b c. c;
}

abbrev pub client : Client
client = record {
  discovers = λ v k. true;
  format_label_selector = λ l. some "";
  list = λ v k ns rs l. some [];
  list_namespaces = λ l. some ("web" ∷ []);
  sort = λ l. l;
}

abbrev pub monitor : MonitorConfig
monitor = record no_monitor {
  monitor_id = "m";
  event_types = added ∷ modified ∷ deleted ∷ [];
  name_selector = some ("a" ∷ "b" ∷ []);
  mode = incremental;
}

abbrev pub pod : String → String → Object
pod name body = record { namespace = "default"; kind = "Pod"; name = name; body = body }

abbrev events : List (Received × WatchEventType)
events =
    (unstructured (pod "a" "1"), added)
    ∷ (unstructured (pod "a" "1"), modified)
    ∷ (unstructured (pod "a" "2"), modified)
    ∷ (final_state_unknown (unstructured (pod "a" "2")), deleted)
    ∷ []

watch-Agree_example :
    (r : Informer × Dict String) × (watch filters (new_resource_informer monitor) [] events ≡ ok r)
    × Agree r.0 r.1
unfolding new_resource_informer should_fire_event lookup
watch-Agree_example =
    watch-Agree filters (new_resource_informer monitor) [] events
      (tt, tt, (tt, tt, (tt, tt, (tt, tt, tt)))) (refl, refl, refl) (λ id. refl)

abbrev static_monitor : Monitor
static_monitor = record (new_monitor monitor) {
  resource_informers =
      with_context (0 ∷ []) (new_resource_informer monitor)
      ∷ with_context (0 ∷ []) (new_resource_informer monitor)
      ∷ [];
}

-- The namespaces by a label selector.
abbrev labelled : MonitorConfig
labelled = record monitor {
  namespace_selector = some (record {
    name_selector = none;
    label_selector = some (record { match_labels = []; match_expressions = [] });
  });
}

-- The informers of the namespace that the client lists.
abbrev varying : List Informer
varying =
    with_context (0 ∷ []) (new_resource_informer labelled)
    ∷ with_context (0 ∷ []) (new_resource_informer labelled)
    ∷ []

abbrev varying_monitor : Monitor
varying_monitor = record (new_monitor labelled) {
  namespace_informer = some (record {
    existed_objects = ("web", true) ∷ [];
    ctx = 0 ∷ [];
    started = false;
    stopped = false;
    handles = true;
  });
  varying_informers = ("web", varying) ∷ [];
}

static_monitor-created : create_informers filters client monitor ≡ some static_monitor
unfolding create_informers new_monitor namespaces names format_field_selector_ok
    adjust_field_selector load_existed_objects
static_monitor-created = refl

varying_monitor-created : create_informers filters client labelled ≡ some varying_monitor
unfolding create_informers new_monitor new_resource_informer namespaces argodemo.Common.insert
    has_key names format_field_selector_ok adjust_field_selector load_existed_objects
varying_monitor-created = refl

abbrev changes : List NamespaceChange
changes = appeared "db" ∷ gone "web" ∷ appeared "web" ∷ gone "db" ∷ []

follow-start_example :
    has_key "web" (follow filters client changes (start [] varying_monitor)).varying_informers
    ≡ exists_after "web" changes (existed varying_monitor "web")
      && not (has_key "web" varying_monitor.static_namespaces)
follow-start_example =
    follow-start filters client labelled varying_monitor [] varying_monitor-created "web" changes

abbrev now : Monitor
now = follow filters client (appeared "db" ∷ []) (start [] varying_monitor)

follow-running_example :
    All (λ i. running now.contexts i ≡ true) (start_under (2 ∷ 1 ∷ []) varying)
    × All
        (λ i. running (namespace_deleted "web" now).contexts i ≡ false)
        (start_under (2 ∷ 1 ∷ []) varying)
unfolding follow lookup argodemo.Kube.MonitorState.namespace_added has_key start new_monitor
    argodemo.Common.insert
follow-running_example =
    follow-running filters client labelled varying_monitor (appeared "db" ∷ []) "web"
      (start_under (2 ∷ 1 ∷ []) varying) varying_monitor-created refl refl

stop-start_example :
    All
      (λ i. running (stop (start [] static_monitor)).contexts i ≡ true)
      (stop (start [] static_monitor)).resource_informers
stop-start_example = stop-start filters client monitor static_monitor static_monitor-created

randomized_resync_period_range_example :
    (2 * (3600 * second) ≤ randomized_resync_period (λ n. n - 1) (λ n. 0))
    × (randomized_resync_period (λ n. n - 1) (λ n. 0) + 15 * second ≤ 4 * (3600 * second))
randomized_resync_period_range_example =
    randomized_resync_period_range (λ n. n - 1) (λ n. 0) (λ n h. omega (arith, h)) (λ n h. h)

abbrev result : String → String → ObjectAndFilterResult
result namespace name = record {
  jq_filter = "";
  checksum = "";
  resource_id = name;
  remove_object = false;
  object = some (record { namespace = namespace; kind = "Pod"; name = name; body = "" });
  filter_result = "";
  object_bytes = 0;
}

less-StrictWeak_example :
    (less (result "b" "a") (result "a" "b") ≡ false)
    × ((less (result "a" "b") (result "b" "c") ≡ true)
        ⊎ (less (result "b" "c") (result "b" "a") ≡ true))
unfolding less less_object less_text
less-StrictWeak_example =
    less-StrictWeak (result "a" "b") (result "b" "a") (result "b" "c") refl refl refl
