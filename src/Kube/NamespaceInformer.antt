-- ===== src/Kube/NamespaceInformer.antt =====
-- shell-operator/pkg/kube_events_manager/namespace_informer.go: the namespaces that match a label
-- selector. The client's list of them is an argument, and the functions that the monitor sets are
-- functions on a state of any type.
use argodemo.Common.{
  String, Bool, true, false, List, [], ◌∷◌, Option, none, some, if◌then◌else◌, Dict, insert,
  Outcome, ok, panic,
}
use argodemo.Kube.Context.{Context}

-- What the client library hands to the handlers: a namespace, the last known state of a deleted
-- one, or a value of another type.
pub data ReceivedNamespace : Type 0 where
  namespace : String → ReceivedNamespace
  final_state_unknown : ReceivedNamespace → ReceivedNamespace
  foreign : ReceivedNamespace

-- `handles` is whether the add and delete functions are set.
pub record NamespaceInformer : Type 0 where
  pub existed_objects : Dict Bool
  pub ctx : Context
  pub started : Bool
  pub stopped : Bool
  pub handles : Bool

unfoldable pub new_namespace_informer : Context → NamespaceInformer
new_namespace_informer ctx = record {
  existed_objects = [];
  ctx = ctx;
  started = false;
  stopped = false;
  handles = false;
}

unfoldable pub mark_existed : List String → Dict Bool → Dict Bool
mark_existed [] marks = marks
mark_existed (ns ∷ rest) marks = mark_existed rest (insert ns true marks)

-- `format` is the text of the label selector and `list` gives the namespaces that it selects; a
-- `none` of them is an error.
unfoldable pub create_namespace_informer :
    Option String → (String → Option (List String)) → NamespaceInformer → Option NamespaceInformer
unfolding mark_existed
create_namespace_informer none list ni = none
create_namespace_informer (some format) list ni = elim (list format) [
  | none ↦ none
  | some names ↦
      some (record ni { handles = true; existed_objects = mark_existed names ni.existed_objects })
]

abbrev unwrap : ReceivedNamespace → ReceivedNamespace
unwrap (final_state_unknown x) = x
unwrap x = x

module _ {S : Type 0} (call : String → S → S) where
  -- The type assertion panics on a value that is not a namespace.
  unfoldable pub on_add : NamespaceInformer → ReceivedNamespace → S → Outcome S
  on_add ni x s =
      if ni.stopped
      then ok s
      else (elim x [ namespace name ↦ ok (if ni.handles then call name s else s) | _ ↦ panic ])

  unfoldable pub on_delete : NamespaceInformer → ReceivedNamespace → S → Outcome S
  unfolding on_add
  on_delete ni x s = if ni.stopped then ok s else (elim (unwrap x) [
    | namespace name ↦ ok (if ni.handles then call name s else s)
    | _ ↦ panic
  ])

unfoldable pub start_namespace_informer : NamespaceInformer → NamespaceInformer
start_namespace_informer ni = record ni { started = true }

unfoldable pub stop_namespace_informer : NamespaceInformer → NamespaceInformer
stop_namespace_informer ni = record ni { stopped = true }

unfoldable pub pause_namespace_informer : NamespaceInformer → NamespaceInformer
pause_namespace_informer ni = record ni { stopped = true }
