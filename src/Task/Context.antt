-- ===== src/Task/Context.antt =====
-- shell-operator/pkg/hook/binding_context/binding_context.go: what a hook is told of an event.
use argodemo.Common.{
  String, Bool, true, false, List, [], ◌∷◌, ◌||◌, not, Option, none, some, if◌then◌else◌, ◌==◌,
  Dict, insert, Outcome, ok, panic, ◌>>=◌,
}
use argodemo.Kube.Types.{
  WatchEventType, KubeEventType, ObjectAndFilterResult, Object, Value, text, object_map,
}

-- shell-operator/pkg/hook/types/bindings.go; `unset` is the empty string.
pub data BindingType : Type 0 where
  schedule on_startup kubernetes unset : BindingType

pub record ContextMetadata : Type 0 where
  pub version : String
  pub binding_type : BindingType
  pub jq_filter : String
  pub include_snapshots : List String
  pub include_all_snapshots : Bool
  pub group : String

pub record BindingContext : Type 0 where
  pub metadata : ContextMetadata
  pub binding : String
  pub type : KubeEventType
  pub watch_event : WatchEventType
  pub objects : List ObjectAndFilterResult
  pub snapshots : Dict (List ObjectAndFilterResult)

abbrev pub no_metadata : ContextMetadata
no_metadata = record {
  version = "";
  binding_type = BindingType.unset;
  jq_filter = "";
  include_snapshots = [];
  include_all_snapshots = false;
  group = "";
}

-- The zero value of the struct.
abbrev pub no_context : BindingContext
no_context = record {
  metadata = no_metadata;
  binding = "";
  type = KubeEventType.unset;
  watch_event = WatchEventType.unset;
  objects = [];
  snapshots = [];
}

abbrev pub is_empty {ℓ} : {A : Type ℓ} → List A → Bool
is_empty [] = true
is_empty (x ∷ xs) = false

abbrev pub is_kubernetes : BindingType → Bool
is_kubernetes kubernetes = true
is_kubernetes _ = false

abbrev event_name : WatchEventType → String
event_name WatchEventType.added = "Added"
event_name WatchEventType.modified = "Modified"
event_name WatchEventType.deleted = "Deleted"
event_name WatchEventType.unset = ""

-- `for k, v := range objMap { res[k] = v }`
unfoldable pub copy_into : Dict Value → Dict Value → Dict Value
copy_into [] res = res
copy_into ((k, v) ∷ m) res = copy_into m (insert k v res)

-- The last part of `MapV1`, for a `kubernetes` binding with an event type.
unfoldable pub kubernetes_fields :
    (String → Bool) → BindingContext → KubeEventType → Dict Value → Dict Value
kubernetes_fields valid_json bc KubeEventType.unset res = res
kubernetes_fields valid_json bc KubeEventType.synchronization res =
    let typed = insert "type" (text "Synchronization") res in
    let watched =
      if event_name bc.watch_event == ""
      then typed
      else insert "watchEvent" (text (event_name bc.watch_event)) typed in
    insert "objects" (if is_empty bc.objects then Value.empty_list else Value.objects bc.objects)
      watched
kubernetes_fields valid_json bc KubeEventType.event res =
    let typed = insert "type" (text "Event") res in
    let watched =
      if event_name bc.watch_event == ""
      then typed
      else insert "watchEvent" (text (event_name bc.watch_event)) typed in
    elim bc.objects [
      | [] ↦
          if bc.metadata.jq_filter == ""
          then insert "object" Value.nil watched
          else insert "filterResult" (text "") (insert "object" Value.nil watched)
      | o ∷ os ↦ copy_into (object_map valid_json o) watched
    ]

unfoldable pub map_v1_kind :
    (String → Bool) → BindingContext → BindingType → Dict Value → Dict Value
unfolding kubernetes_fields
map_v1_kind valid_json bc BindingType.schedule res = insert "type" (text "Schedule") res
map_v1_kind valid_json bc BindingType.kubernetes res = kubernetes_fields valid_json bc bc.type res
map_v1_kind valid_json bc BindingType.on_startup res = res
map_v1_kind valid_json bc BindingType.unset res = res

abbrev is_on_startup : BindingType → Bool
is_on_startup on_startup = true
is_on_startup _ = false

unfoldable pub map_v1 : (String → Bool) → BindingContext → Dict Value
unfolding map_v1_kind
map_v1 valid_json bc =
    let named : Dict Value = insert "binding" (text bc.binding) [] in
    if is_on_startup bc.metadata.binding_type
    then named
    else let res : Dict Value =
        if not (is_empty bc.metadata.include_snapshots) || bc.metadata.include_all_snapshots
        then insert "snapshots"
            (if is_empty bc.snapshots then Value.empty_map else Value.snapshots bc.snapshots) named
        else named in
      if bc.metadata.group == ""
      then map_v1_kind valid_json bc bc.metadata.binding_type res
      else insert "type" (text "Group") (insert "binding" (text bc.metadata.group) res)

abbrev event_v0 : WatchEventType → String
event_v0 WatchEventType.added = "add"
event_v0 WatchEventType.modified = "update"
event_v0 WatchEventType.deleted = "delete"
event_v0 WatchEventType.unset = ""

-- `bc.Objects[0].Object.GetNamespace()` and its like dereference the object: nil panics.
unfoldable pub resource_fields : Option Object → Dict Value → Outcome (Dict Value)
resource_fields none res = panic
resource_fields (some o) res = ok (
    insert "resourceName" (text o.name)
      (insert "resourceKind" (text o.kind) (insert "resourceNamespace" (text o.namespace) res)))

unfoldable pub map_v0 : BindingContext → Outcome (Dict Value)
unfolding resource_fields
map_v0 bc =
    let named : Dict Value = insert "binding" (text bc.binding) [] in
    let res = insert "resourceEvent" (text (event_v0 bc.watch_event)) named in
    if is_kubernetes bc.metadata.binding_type
    then elim bc.objects [ [] ↦ ok res | o ∷ os ↦ resource_fields o.object res ]
    else ok named

-- `Map`: a context without a version has no fields.
unfoldable pub context_map : (String → Bool) → BindingContext → Outcome (Dict Value)
unfolding map_v0 map_v1
context_map valid_json bc =
    if bc.metadata.version == "v0"
    then map_v0 bc
    else if bc.metadata.version == "v1"
    then ok (map_v1 valid_json bc)
    else ok []

unfoldable pub convert_binding_context_list :
    (String → Bool) → String → List BindingContext → Outcome (List (Dict Value))
convert_binding_context_list valid_json version [] = ok []
convert_binding_context_list valid_json version (bc ∷ bcs) = do
  m ← context_map valid_json (record bc { metadata = record bc.metadata { version = version } })
  ms ← convert_binding_context_list valid_json version bcs
  ok (m ∷ ms)
