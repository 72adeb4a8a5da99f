-- ===== src/Kube/MonitorState.antt =====
-- shell-operator/pkg/kube_events_manager/monitor.go, with `CreateSharedInformer` and
-- `GetExistedObjects` of resource_informer.go: the informers of a monitor, those of the namespaces
-- that come and go included.
pub mod Created
pub mod Namespaces
pub mod Running
pub mod Stopping
use argodemo.Common.{
  ◌*◌, ◌+◌, ◌≡◌, refl, arith, length, length-append, Option-cases, inl, inr, String, Bool, true,
  false, not, ◌&&◌, List, [], ◌∷◌, ◌++◌, map, Option, none, some, if◌then◌else◌, ◌==◌, Dict, lookup,
  insert, delete, has_key,
}
use argodemo.Kube.Types.{Object, ObjectAndFilterResult}
use argodemo.Kube.Monitor.{
  MonitorConfig, LabelSelector, FieldSelectorRequirement, namespaces, names, adjust_field_selector,
  format_field_selector_ok,
}
use argodemo.Kube.Context.{Context, Contexts, with_cancel, cancel, done}
use argodemo.Kube.Informer.{
  Filters, Informer, new_resource_informer, pause_handle_events, load_existed_objects, with_context,
  start_informer,
}
use argodemo.Kube.NamespaceInformer.{
  NamespaceInformer, new_namespace_informer, create_namespace_informer, start_namespace_informer,
  pause_namespace_informer,
}

-- The Kubernetes client: discovery of an API version and kind, the text of a label selector, and
-- the objects of a kind in a namespace that match the selectors, and the
-- namespaces that match one. `none` is an error. `sort` is
-- `sort.Sort` by namespace and name.
pub record Client : Type 0 where
  pub discovers : String → String → Bool
  pub format_label_selector : Option LabelSelector → Option String
  pub list :
      String
      → String
      → String
      → Option (List FieldSelectorRequirement)
      → String
      → Option (List Object)
  pub list_namespaces : String → Option (List String)
  pub sort : List ObjectAndFilterResult → List ObjectAndFilterResult

-- The cancel functions of `cancel_for_ns` are the contexts that they cancel, and `cancel` of the
-- monitor is that of `ctx`.
pub record Monitor : Type 0 where
  pub config : MonitorConfig
  pub resource_informers : List Informer
  pub namespace_informer : Option NamespaceInformer
  pub varying_informers : Dict (List Informer)
  pub static_namespaces : Dict Bool
  pub cancel_for_ns : Dict Context
  pub ctx : Context
  pub contexts : Contexts

-- `NewMonitor`, `WithContext` of the root context and `WithConfig`.
unfoldable pub new_monitor : MonitorConfig → Monitor
new_monitor m = record {
  config = m;
  resource_informers = [];
  namespace_informer = none;
  varying_informers = [];
  static_namespaces = [];
  cancel_for_ns = [];
  ctx = 0 ∷ [];
  contexts = record { next = 1; cancelled = [] };
}

abbrev cached : Dict ObjectAndFilterResult → List ObjectAndFilterResult
cached [] = []
cached ((k, o) ∷ m) = o ∷ cached m

abbrev all_cached : List Informer → List ObjectAndFilterResult
all_cached [] = []
all_cached (i ∷ is) = cached i.cached_objects ++ all_cached is

abbrev all_varying : Dict (List Informer) → List ObjectAndFilterResult
all_varying [] = []
all_varying ((ns, is) ∷ rest) = all_cached is ++ all_varying rest

abbrev pub or_any : List String → List String
or_any [] = "" ∷ []
or_any (n ∷ ns) = n ∷ ns

-- The label selector of the namespaces, if there is one.
abbrev pub namespace_labels : MonitorConfig → Option LabelSelector
namespace_labels m = elim m.namespace_selector [ none ↦ none | some s ↦ s.label_selector ]

abbrev pub or_nil : Option (List Informer) → List Informer
or_nil none = []
or_nil (some is) = is

-- Informers that are started under a context.
abbrev pub start_under : Context → List Informer → List Informer
start_under ctx is = map (λ i. start_informer (with_context ctx i)) is

-- The loop of `Start` over the varying informers, which may range over them in any order.
unfoldable pub start_varying :
    Context
    → Dict (List Informer)
    → Dict Context
    → Contexts
    → Dict (List Informer) × Dict Context × Contexts
unfolding start_informer with_context
start_varying ctx [] cancels cs = ([], cancels, cs)
start_varying ctx ((ns, is) ∷ rest) cancels cs =
    let later = start_varying ctx rest cancels cs in
    let (own, cs') = with_cancel ctx later.2 in
    ((ns, start_under own is) ∷ later.0, insert ns own later.1, cs')

-- `parent` is the context of the manager.
unfoldable pub start : Context → Monitor → Monitor
unfolding start_varying start_informer start_namespace_informer
start parent m =
    let (own, cs) = with_cancel parent m.contexts in
    let varying = start_varying own m.varying_informers m.cancel_for_ns cs in
    record m {
      ctx = own;
      resource_informers = map start_informer m.resource_informers;
      varying_informers = varying.0;
      cancel_for_ns = varying.1;
      contexts = varying.2;
      namespace_informer = elim m.namespace_informer [
        | none ↦ none
        | some ni ↦ some (start_namespace_informer ni)
      ];
    }

unfoldable pub stop : Monitor → Monitor
stop m = record m { contexts = cancel m.ctx m.contexts }

abbrev pause_varying : Dict (List Informer) → Dict (List Informer)
pause_varying [] = []
pause_varying ((ns, is) ∷ rest) = (ns, map pause_handle_events is) ∷ pause_varying rest

unfoldable pub pause : Monitor → Monitor
unfolding pause_handle_events pause_namespace_informer
pause m = record m {
  resource_informers = map pause_handle_events m.resource_informers;
  varying_informers = pause_varying m.varying_informers;
  namespace_informer = elim m.namespace_informer [
    | none ↦ none
    | some ni ↦ some (pause_namespace_informer ni)
  ];
}

-- The function for a namespace that is deleted.
unfoldable pub namespace_deleted : String → Monitor → Monitor
namespace_deleted ns m =
    if has_key ns m.static_namespaces then m else (elim (lookup ns m.cancel_for_ns) [
      | none ↦ m
      | some own ↦ record m {
        contexts = cancel own m.contexts;
        varying_informers = delete ns m.varying_informers;
        cancel_for_ns = delete ns m.cancel_for_ns;
      }
    ])

module _ (env : Filters) (client : Client) where
  unfoldable pub create_shared_informer : MonitorConfig → String → String → Option Informer
  create_shared_informer m ns name =
      if client.discovers m.api_version m.kind
      then (elim (client.format_label_selector m.label_selector) [
        | none ↦ none
        | some labels ↦
            (let fields = adjust_field_selector m.field_selector name in
              let loaded =
                load_existed_objects env (new_resource_informer m)
                  (client.list m.api_version m.kind ns fields labels) in
              if format_field_selector_ok fields && not loaded.0 then some loaded.1 else none)
      ])
      else none

  -- The informers are given the context of the monitor.
  unfoldable pub create_each :
      MonitorConfig → Context → String → List String → Option (List Informer)
  unfolding create_shared_informer with_context
  create_each m ctx ns [] = some []
  create_each m ctx ns (name ∷ rest) = elim (create_shared_informer m ns name) [
    | none ↦ none
    | some i ↦ (elim (create_each m ctx ns rest) [
      | none ↦ none
      | some is ↦ some (with_context ctx i ∷ is)
    ])
  ]

  unfoldable pub create_informers_for_namespace : Monitor → String → Option (List Informer)
  unfolding create_each
  create_informers_for_namespace m ns = create_each m.config m.ctx ns (or_any (names m.config))

  unfoldable pub create_static : List String → Monitor → Option Monitor
  unfolding create_informers_for_namespace
  create_static [] m = some m
  create_static (ns ∷ rest) m = elim (create_informers_for_namespace m ns) [
    | none ↦ none
    | some is ↦ create_static rest (record m {
      static_namespaces =
          if ns == "" then m.static_namespaces else insert ns true m.static_namespaces;
      resource_informers = m.resource_informers ++ is;
    })
  ]

  -- An error leaves no informers for the namespace.
  unfoldable pub create_varying : Dict Bool → Monitor → Monitor
  unfolding create_informers_for_namespace
  create_varying [] m = m
  create_varying ((ns, existed) ∷ rest) m = create_varying rest (
      if has_key ns m.static_namespaces then m else record m {
        varying_informers =
            insert ns (or_nil (create_informers_for_namespace m ns)) m.varying_informers;
      })

  unfoldable pub create_informers : MonitorConfig → Option Monitor
  unfolding create_static create_varying new_monitor new_namespace_informer
      create_namespace_informer
  create_informers c = elim (create_static (namespaces c) (new_monitor c)) [
    | none ↦ none
    | some m ↦ (elim (namespace_labels c) [
      | none ↦ some m
      | some labels ↦
          (elim (create_namespace_informer (client.format_label_selector (some labels))
            client.list_namespaces (new_namespace_informer m.ctx)) [
              | none ↦ none
              | some ni ↦
                  some
                    (create_varying ni.existed_objects (record m { namespace_informer = some ni }))
            ])
    ])
  ]

  -- The function for a namespace that is added.
  unfoldable pub namespace_added : String → Monitor → Monitor
  unfolding create_informers_for_namespace start_informer with_context
  namespace_added ns m =
      if has_key ns m.static_namespaces
      then m
      else if has_key ns m.varying_informers
      then m
      else (let is = or_nil (create_informers_for_namespace m ns) in
          let (own, cs) = with_cancel m.ctx m.contexts in
          record m {
            contexts = cs;
            cancel_for_ns = insert ns own m.cancel_for_ns;
            varying_informers = insert ns (start_under own is) m.varying_informers;
          })

  unfoldable pub get_existed_objects : Monitor → List ObjectAndFilterResult
  get_existed_objects m =
      client.sort (all_cached m.resource_informers ++ all_varying m.varying_informers)
