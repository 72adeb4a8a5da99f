-- ===== src/Kube/Monitor.antt =====
-- shell-operator/pkg/kube_events_manager/monitor_config.go and the selectors of types/types.go,
-- with `FormatFieldSelector` of util.go and `adjustFieldSelector` of resource_informer.go.
use argodemo.Common.{
  ◌≡◌, refl, String, Bool, true, false, not, ◌&&◌, ◌||◌, List, [], ◌∷◌, ◌++◌, Option, none, some,
  if◌then◌else◌, ◌==◌, arith, Dict,
}
use argodemo.Kube.Types.{
  Object, WatchEventType, KubeEventMode, incremental, added, modified, deleted,
}

-- The selector type of the Kubernetes library, which the code only copies and formats.
pub record LabelSelector : Type 0 where
  pub match_labels : Dict String
  pub match_expressions : List String

pub record FieldSelectorRequirement : Type 0 where
  pub field : String
  pub operator : String
  pub value : String

-- A name selector is its `matchNames`, a field selector its `matchExpressions`.
pub record NamespaceSelector : Type 0 where
  pub name_selector : Option (List String)
  pub label_selector : Option LabelSelector

pub record MonitorConfig : Type 0 where
  pub monitor_id : String
  pub debug_name : String
  pub event_types : List WatchEventType
  pub api_version : String
  pub kind : String
  pub name_selector : Option (List String)
  pub namespace_selector : Option NamespaceSelector
  pub label_selector : Option LabelSelector
  pub field_selector : Option (List FieldSelectorRequirement)
  pub jq_filter : String
  pub mode : KubeEventMode
  pub keep_full_objects_in_memory : Bool
  pub filter_func : Option (Object → Option String)

abbrev pub no_monitor : MonitorConfig
no_monitor = record {
  monitor_id = "";
  debug_name = "";
  event_types = [];
  api_version = "";
  kind = "";
  name_selector = none;
  namespace_selector = none;
  label_selector = none;
  field_selector = none;
  jq_filter = "";
  mode = KubeEventMode.unset;
  keep_full_objects_in_memory = false;
  filter_func = none;
}

-- `none` is a nil slice.
unfoldable pub with_event_types : Option (List WatchEventType) → MonitorConfig → MonitorConfig
with_event_types none c = record c { event_types = added ∷ modified ∷ deleted ∷ [] }
with_event_types (some types) c = record c { event_types = types }

unfoldable pub with_name_selector : Option (List String) → MonitorConfig → MonitorConfig
with_name_selector none c = c
with_name_selector (some names) c = record c { name_selector = some names }

unfoldable pub with_namespace_selector : Option NamespaceSelector → MonitorConfig → MonitorConfig
with_namespace_selector none c = c
with_namespace_selector (some s) c = record c {
  namespace_selector =
      some (record { name_selector = s.name_selector; label_selector = s.label_selector });
}

unfoldable pub with_field_selector :
    Option (List FieldSelectorRequirement) → MonitorConfig → MonitorConfig
with_field_selector none c = c
with_field_selector (some rs) c = record c { field_selector = some rs }

unfoldable pub add_field_selector_requirement :
    String → String → String → MonitorConfig → MonitorConfig
add_field_selector_requirement field op value c = record c {
  field_selector = some (
      elim c.field_selector [ none ↦ [] | some rs ↦ rs ]
      ++ (record { field = field; operator = op; value = value }) ∷ []);
}

unfoldable pub with_label_selector : Option LabelSelector → MonitorConfig → MonitorConfig
with_label_selector none c = c
with_label_selector (some s) c = record c {
  label_selector =
      some (record { match_labels = s.match_labels; match_expressions = s.match_expressions });
}

abbrev pub is_nil {ℓ} : {A : Type ℓ} → Option A → Bool
is_nil none = true
is_nil (some a) = false

abbrev empty_names : Option (List String) → Bool
empty_names (some []) = true
empty_names _ = false

unfoldable pub is_any_namespace : MonitorConfig → Bool
is_any_namespace c = elim c.namespace_selector [
  | none ↦ true
  | some s ↦ (is_nil s.name_selector && is_nil s.label_selector) || empty_names s.name_selector
]

unfoldable pub names : MonitorConfig → List String
names c = elim c.name_selector [ none ↦ [] | some ns ↦ ns ]

abbrev or_all : Option (List String) → List String
or_all none = "" ∷ []
or_all (some []) = "" ∷ []
or_all (some (n ∷ ns)) = n ∷ ns

unfoldable pub namespaces : MonitorConfig → List String
namespaces c = elim c.namespace_selector [
  | none ↦ "" ∷ []
  | some s ↦ if not (is_nil s.label_selector) then [] else or_all s.name_selector
]

-- The assignment of the default is overwritten by the one that follows it.
unfoldable pub with_mode : KubeEventMode → MonitorConfig → MonitorConfig
with_mode KubeEventMode.unset c = record (record c { mode = incremental }) {
  mode = KubeEventMode.unset;
}
with_mode mode c = record c { mode = mode }

-- Whether `FormatFieldSelector` succeeds: every operator is known.
unfoldable pub known_operators : List FieldSelectorRequirement → Bool
known_operators [] = true
known_operators (r ∷ rs) =
    ((r.operator == "=" || (r.operator == "==" || r.operator == "Equals"))
      || (r.operator == "!=" || r.operator == "NotEquals"))
    && known_operators rs

unfoldable pub format_field_selector_ok : Option (List FieldSelectorRequirement) → Bool
unfolding known_operators
format_field_selector_ok none = true
format_field_selector_ok (some rs) = known_operators rs

unfoldable pub adjust_field_selector :
    Option (List FieldSelectorRequirement) → String → Option (List FieldSelectorRequirement)
adjust_field_selector selector name =
    if name == ""
    then selector
    else some (
        elim selector [ none ↦ [] | some rs ↦ rs ]
        ++ (record { field = "metadata.name"; operator = "="; value = name }) ∷ [])

-- With a label selector for namespaces, no namespace is watched from the start. Without one, any
-- namespace is watched, by the empty name, if the monitor is for any namespace, and exactly the
-- names of the selector otherwise.
pub namespaces-is_any_namespace :
    (c : MonitorConfig) (s : NamespaceSelector)
    → c.namespace_selector ≡ some s
    → namespaces c ≡ (
        if not (is_nil s.label_selector)
        then []
        else if is_any_namespace c
        then "" ∷ []
        else elim s.name_selector [ none ↦ [] | some ns ↦ ns ])
unfolding namespaces is_any_namespace
namespaces-is_any_namespace c s e = ground (arith, e)

-- A field selector is accepted with the name of an object added to it exactly if it is accepted
-- without.
pub adjust_field_selector-ok :
    (selector : Option (List FieldSelectorRequirement)) (name : String)
    → format_field_selector_ok (adjust_field_selector selector name)
      ≡ format_field_selector_ok selector
unfolding format_field_selector_ok adjust_field_selector
adjust_field_selector-ok none name = ground arith
adjust_field_selector-ok (some rs) name = ground (arith, snoc rs)
  where
    snoc :
        (rs : List FieldSelectorRequirement)
        → known_operators
            (rs ++ (record { field = "metadata.name"; operator = "="; value = name }) ∷ [])
          ≡ known_operators rs
    snoc [] = refl
    snoc (r ∷ rs) = ground (arith, snoc rs)
