-- ===== src/Hook/Kubernetes.antt =====
-- shell-operator/pkg/hook/controller/kubernetes_bindings_controller.go: the kubernetes bindings
-- of one hook. Where the kube events manager is used, it is passed on as a value.
pub mod Monitors
pub mod Snapshots
pub mod Synchronized
use argodemo.Common.{
  arith, ℕ, ◌≡◌, ◌↔◌, refl, String, Bool, true, false, not, ◌&&◌, List, [], ◌∷◌, ◌++◌, map, Option,
  none, some, if◌then◌else◌, ◌==◌, eq_iff, eq_refl, Dict, lookup, insert, delete, has_key,
  lookup-insert, has_key-lookup, Bool-cases, Option-cases, inl, inr, Outcome, ok, panic, ◌>>=◌,
  length,
}
use argodemo.Kube.Types.{
  WatchEventType, KubeEventType, KubeEvent, ObjectAndFilterResult, synchronization, event,
}
use argodemo.Kube.Monitor.{MonitorConfig}
use argodemo.Kube.Informer.{Filters}
use argodemo.Kube.Manager.{Manager, add_monitor, has_monitor, start_monitor, stop_monitor}
use argodemo.Kube.MonitorState.{Client, get_existed_objects}
use argodemo.Task.Context.{BindingContext, BindingType, no_metadata, no_context}
use argodemo.Hook.Bindings.{OnKubernetesEventConfig, BindingExecutionInfo}

pub record MonitorLink : Type 0 where
  pub binding_name : String
  pub monitor_id : String
  pub include_snapshots : List String
  pub allow_failure : Bool
  pub jq_filter : String
  pub queue_name : String
  pub group : String
  pub wait_for_synchronization : Bool

pub record KubernetesBindingsController : Type 0 where
  pub binding_monitor_links : Dict MonitorLink
  pub kubernetes_bindings : List OnKubernetesEventConfig

abbrev link_of : OnKubernetesEventConfig → MonitorLink
link_of config = record {
  binding_name = config.binding_name;
  monitor_id = config.monitor.monitor_id;
  include_snapshots = config.include_snapshots_from;
  allow_failure = config.allow_failure;
  jq_filter = config.monitor.jq_filter;
  queue_name = config.queue;
  group = config.group;
  wait_for_synchronization = config.wait_for_synchronization;
}

abbrev context_of : KubeEvent → MonitorLink → WatchEventType → BindingContext
context_of ev link watch_event = record {
  metadata = record no_metadata {
    jq_filter = link.jq_filter;
    binding_type = BindingType.kubernetes;
    include_snapshots = link.include_snapshots;
    group = link.group;
  };
  binding = link.binding_name;
  type = ev.type;
  watch_event = watch_event;
  objects = ev.objects;
  snapshots = [];
}

-- One context for the first event of a monitor, one for each watch event of a later one, and none
-- for an event without a type.
unfoldable pub convert_kube_event_to_binding_context : KubeEvent → MonitorLink → List BindingContext
convert_kube_event_to_binding_context ev link = elim ev.type [
  | synchronization ↦ context_of ev link WatchEventType.unset ∷ []
  | event ↦ map (context_of ev link) ev.watch_events
  | KubeEventType.unset ↦ []
]

unfoldable pub can_handle_event : KubernetesBindingsController → KubeEvent → Bool
can_handle_event c ev = has_key ev.monitor_id c.binding_monitor_links

unfoldable pub handle_event : KubernetesBindingsController → KubeEvent → BindingExecutionInfo
unfolding convert_kube_event_to_binding_context
handle_event c ev = elim (lookup ev.monitor_id c.binding_monitor_links) [
  | none ↦ record {
    binding_context = [];
    include_snapshots = [];
    allow_failure = false;
    queue_name = "";
    binding = "";
    group = "";
    wait_for_synchronization = false;
  }
  | some link ↦ record {
    binding_context = convert_kube_event_to_binding_context ev link;
    include_snapshots = link.include_snapshots;
    allow_failure = link.allow_failure;
    queue_name = link.queue_name;
    binding = link.binding_name;
    group = link.group;
    wait_for_synchronization = link.wait_for_synchronization;
  }
]

unfoldable pub start_monitors_of : Dict MonitorLink → Manager → Outcome Manager
start_monitors_of [] mgr = ok mgr
start_monitors_of ((id, link) ∷ ls) mgr = start_monitor mgr id >>= λ m. start_monitors_of ls m

unfoldable pub start_monitors : KubernetesBindingsController → Manager → Outcome Manager
unfolding start_monitors_of
start_monitors c mgr = start_monitors_of c.binding_monitor_links mgr

unfoldable pub stop_monitors_of : Dict MonitorLink → Manager → Manager
stop_monitors_of [] mgr = mgr
stop_monitors_of ((id, link) ∷ ls) mgr = stop_monitors_of ls (stop_monitor mgr id)

unfoldable pub stop_monitors : KubernetesBindingsController → Manager → Manager
unfolding stop_monitors_of
stop_monitors c mgr = stop_monitors_of c.binding_monitor_links mgr

unfoldable pub binding_names : KubernetesBindingsController → List String
binding_names c = map (λ b. b.binding_name) c.kubernetes_bindings

module _ (env : Filters) (client : Client) where
  -- The links and the monitors of the bindings before a failing one stay.
  unfoldable pub enable_each :
      List OnKubernetesEventConfig
      → KubernetesBindingsController
      → Manager
      → Option (List BindingExecutionInfo) × KubernetesBindingsController × Manager
  unfolding handle_event
  enable_each [] c mgr = (some [], c, mgr)
  enable_each (b ∷ bs) c mgr = elim (add_monitor env client mgr b.monitor) [
    | none ↦ (none, c, mgr)
    | some added ↦
        (let c' = record c {
          binding_monitor_links = insert b.monitor.monitor_id (link_of b) c.binding_monitor_links;
        } in
          let later = enable_each bs c' added.1 in
          (
            elim added.0 [
              | none ↦ later.0
              | some first ↦
                  (if not b.execute_hook_on_synchronization then later.0 else (elim later.0 [
                    | none ↦ none
                    | some infos ↦ some (handle_event c' first ∷ infos)
                  ]))
            ],
            later.1,
            later.2,
          ))
  ]

  unfoldable pub enable_kubernetes_bindings :
      KubernetesBindingsController
      → Manager
      → Option (List BindingExecutionInfo) × KubernetesBindingsController × Manager
  unfolding enable_each
  enable_kubernetes_bindings c mgr = enable_each c.kubernetes_bindings c mgr

  -- The last binding of the name that has a monitor gives the snapshot, else it is empty.
  unfoldable pub snapshot_of :
      Manager
      → List OnKubernetesEventConfig
      → String
      → List ObjectAndFilterResult
      → List ObjectAndFilterResult
  snapshot_of mgr [] name found = found
  snapshot_of mgr (b ∷ bs) name found = snapshot_of mgr bs name (
      if name == b.binding_name
      then (elim (lookup b.monitor.monitor_id mgr.monitors) [
        | none ↦ found
        | some m ↦ get_existed_objects env client m
      ])
      else found)

  unfoldable pub snapshots_into :
      KubernetesBindingsController
      → Manager
      → List String
      → Dict (List ObjectAndFilterResult)
      → Dict (List ObjectAndFilterResult)
  unfolding snapshot_of
  snapshots_into c mgr [] res = res
  snapshots_into c mgr (name ∷ rest) res =
      snapshots_into c mgr rest (insert name (snapshot_of mgr c.kubernetes_bindings name []) res)

  unfoldable pub snapshots_from :
      KubernetesBindingsController → Manager → List String → Dict (List ObjectAndFilterResult)
  unfolding snapshots_into
  snapshots_from c mgr names = snapshots_into c mgr names []

  unfoldable pub snapshots :
      KubernetesBindingsController → Manager → Dict (List ObjectAndFilterResult)
  unfolding snapshots_from binding_names
  snapshots c mgr = snapshots_from c mgr (binding_names c)
