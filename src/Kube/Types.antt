-- ===== src/Kube/Types.antt =====
-- shell-operator/pkg/kube_events_manager/types/types.go: objects with their filter results, and
-- kube events. A Go string type with constants is a data type; `unset` is the empty string.
use argodemo.Common.{
  ℕ, String, Bool, true, List, [], Option, none, if◌then◌else◌, ◌==◌, not, Dict, insert,
}

pub data WatchEventType : Type 0 where
  added modified deleted unset : WatchEventType

pub data KubeEventType : Type 0 where
  synchronization event unset : KubeEventType

pub data KubeEventMode : Type 0 where
  v0 incremental unset : KubeEventMode

-- What the code reads of an unstructured object; `body` stands for the rest of it.
pub record Object : Type 0 where
  pub namespace : String
  pub kind : String
  pub name : String
  pub body : String

pub record ObjectAndFilterResult : Type 0 where
  pub jq_filter : String
  pub checksum : String
  pub resource_id : String
  pub remove_object : Bool
  pub object : Option Object
  pub filter_result : String
  pub object_bytes : ℕ

unfoldable pub remove_full_object : ObjectAndFilterResult → ObjectAndFilterResult
remove_full_object o = record o { object = none; object_bytes = 0; remove_object = true }

pub record KubeEvent : Type 0 where
  pub monitor_id : String
  pub type : KubeEventType
  pub watch_events : List WatchEventType
  pub objects : List ObjectAndFilterResult

-- A value under a key of the maps that are marshalled to JSON for a hook. `parsed s` is the
-- value that the JSON text `s` encodes.
pub data Value : Type 0 where
  text : String → Value
  nil empty_map empty_list : Value
  snapshots : Dict (List ObjectAndFilterResult) → Value
  objects : List ObjectAndFilterResult → Value
  object : Option Object → Value
  parsed : String → Value

-- `json.Unmarshal` is a parameter: whether a text is valid JSON.
unfoldable pub object_map : (String → Bool) → ObjectAndFilterResult → Dict Value
object_map valid_json o =
    let m : Dict Value = if not o.remove_object then insert "object" (object o.object) [] else [] in
    if o.jq_filter == ""
    then m
    else if o.filter_result == ""
    then insert "filterResult" nil m
    else if valid_json o.filter_result
    then insert "filterResult" (parsed o.filter_result) m
    else insert "filterResult" nil m
