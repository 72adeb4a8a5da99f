-- ===== src/Hook/Kubernetes/Synchronized.antt =====
-- The first events of the bindings of a hook, and what its controller makes of them.
use argodemo.Common.{
  arith, ◌≡◌, refl, ap, ◌∙◌, String, Bool, true, false, not, ◌&&◌, List, [], ◌∷◌, ◌++◌, Option,
  none, some, if◌then◌else◌, any, Dict, lookup, insert, lookup-insert, eq_refl, has_key, ◌⊎◌,
  Option-cases, Bool-cases, inl, inr, ◌==◌,
}
use argodemo.Kube.Types.{KubeEvent, KubeEventMode, WatchEventType, synchronization}
use argodemo.Kube.Monitor.{MonitorConfig, namespaces}
use argodemo.Kube.Informer.{Filters, Informer}
use argodemo.Kube.NamespaceInformer.{create_namespace_informer, new_namespace_informer}
use argodemo.Kube.Manager.{Manager, add_monitor, make_kube_event}
use argodemo.Kube.MonitorState.{
  Client, Monitor, namespace_labels, create_informers, create_static, create_varying, new_monitor,
  create_informers_for_namespace, get_existed_objects, or_nil,
}
use argodemo.Task.Context.{BindingContext, BindingType, no_metadata}
use argodemo.Hook.Bindings.{OnKubernetesEventConfig, BindingExecutionInfo}
use argodemo.Hook.Kubernetes.{
  KubernetesBindingsController, link_of, handle_event, enable_each,
  convert_kube_event_to_binding_context,
}

abbrev is_v0 : KubeEventMode → Bool
is_v0 KubeEventMode.v0 = true
is_v0 KubeEventMode.incremental = false
is_v0 KubeEventMode.unset = false

-- The binding asks for a run with the objects that exist when it is enabled.
abbrev pub synchronizes : OnKubernetesEventConfig → Bool
synchronizes b = b.execute_hook_on_synchronization && not (is_v0 b.monitor.mode)

-- The two ways of a type that depends on a test.
pub if-then : (Then Else : Type 0) (b : Bool) → b ≡ true → (if b then Then else Else) → Then
if-then Then Else true e h = h
if-then Then Else false e h = ground (arith, e)

pub if-else : (Then Else : Type 0) (b : Bool) → b ≡ false → (if b then Then else Else) → Else
if-else Then Else true e h = ground (arith, e)
if-else Then Else false e h = h

module _ (env : Filters) (client : Client) where
  -- The informers of the monitor cannot be made.
  abbrev pub fails : OnKubernetesEventConfig → Bool
  fails b = elim (create_informers env client b.monitor) [ none ↦ true | some m ↦ false ]

  -- All objects that the new monitor holds, under the name of the binding.
  abbrev pub synchronization_context : OnKubernetesEventConfig → Monitor → BindingContext
  synchronization_context b m = record {
    metadata = record no_metadata {
      jq_filter = b.monitor.jq_filter;
      binding_type = BindingType.kubernetes;
      include_snapshots = b.include_snapshots_from;
      group = b.group;
    };
    binding = b.binding_name;
    type = synchronization;
    watch_event = WatchEventType.unset;
    objects = get_existed_objects env client m;
    snapshots = [];
  }

  abbrev pub info_of : OnKubernetesEventConfig → Monitor → BindingExecutionInfo
  info_of b m = record {
    binding_context = synchronization_context b m ∷ [];
    include_snapshots = b.include_snapshots_from;
    allow_failure = b.allow_failure;
    queue_name = b.queue;
    binding = b.binding_name;
    group = b.group;
    wait_for_synchronization = b.wait_for_synchronization;
  }

  -- For each binding that synchronizes, in order, an element that stands for it and its monitor.
  abbrev pub EachSynchronized :
      {A : Type 0}
      → (OnKubernetesEventConfig → Monitor → A → Type 0)
      → List OnKubernetesEventConfig
      → List A
      → Type 0
  EachSynchronized StandsFor [] xs = xs ≡ []
  EachSynchronized {A = A} StandsFor (b ∷ bs) xs =
      (m : Monitor) × (create_informers env client b.monitor ≡ some m)
      × (if synchronizes b
          then ((x : A) × (later : List A) × (xs ≡ x ∷ later)
              × StandsFor b m x
              × EachSynchronized StandsFor bs later)
          else EachSynchronized StandsFor bs xs)

  create_static-config :
      (nss : List String) (m m' : Monitor)
      → create_static env client nss m ≡ some m'
      → m'.config ≡ m.config
  unfolding create_static
  create_static-config [] m m' e = ground (arith, e)
  create_static-config (ns ∷ nss) m m' e =
      elim (Option-cases (create_informers_for_namespace env client m ns)) [
        | inl f ↦ ground (arith, e, f)
        | inr (is, f) ↦
            create_static-config nss
              (record m {
                static_namespaces =
                    if ns == "" then m.static_namespaces else insert ns true m.static_namespaces;
                resource_informers = m.resource_informers ++ is;
              })
              m' (ground (arith, e, f))
      ]

  if-config :
      (known : Bool) (m : Monitor) (is : Dict (List Informer))
      → (if known then m else record m { varying_informers = is }).config ≡ m.config
  if-config true m is = refl
  if-config false m is = refl

  create_varying-config :
      (nss : Dict Bool) (m : Monitor) → (create_varying env client nss m).config ≡ m.config
  unfolding create_varying
  create_varying-config [] m = refl
  create_varying-config ((ns, existed) ∷ nss) m =
      create_varying-config nss (
        if has_key ns m.static_namespaces then m else record m {
          varying_informers =
              insert ns (or_nil (create_informers_for_namespace env client m ns))
                m.varying_informers;
        })
      ∙ if-config (has_key ns m.static_namespaces) m
          (insert ns (or_nil (create_informers_for_namespace env client m ns)) m.varying_informers)

  create_informers-config :
      (c : MonitorConfig) (m : Monitor) → create_informers env client c ≡ some m → m.config ≡ c
  unfolding create_informers new_monitor
  create_informers-config c m e =
      elim (Option-cases (create_static env client (namespaces c) (new_monitor c))) [
        | inl f ↦ ground (arith, e, f)
        | inr (n, f) ↦
            (let fixed = create_static-config (namespaces c) (new_monitor c) n f in
              elim (Option-cases (namespace_labels c)) [
                | inl g ↦ ground (arith, e, f, g, fixed)
                | inr (labels, g) ↦
                    (elim (Option-cases (
                      create_namespace_informer (client.format_label_selector (some labels))
                        client.list_namespaces (new_namespace_informer n.ctx))) [
                          | inl h ↦ ground (arith, e, f, g, h)
                          | inr (ni, h) ↦ ground (
                            arith,
                            e,
                            f,
                            g,
                            h,
                            fixed,
                            create_varying-config ni.existed_objects
                                (record n { namespace_informer = some ni }),
                          )
                        ])
              ])
      ]

  handle_event-found :
      (b : OnKubernetesEventConfig) (c : KubernetesBindingsController) (ev : KubeEvent)
      → lookup ev.monitor_id c.binding_monitor_links ≡ some (link_of b)
      → handle_event c ev ≡ record {
        binding_context = convert_kube_event_to_binding_context ev (link_of b);
        include_snapshots = b.include_snapshots_from;
        allow_failure = b.allow_failure;
        queue_name = b.queue;
        binding = b.binding_name;
        group = b.group;
        wait_for_synchronization = b.wait_for_synchronization;
      }
  unfolding handle_event
  handle_event-found b c ev e = rw (e, handle_event) refl

  lookup-inserted :
      {V : Type 0} (k : String) (v : V) (m : Dict V) → lookup k (insert k v m) ≡ some v
  lookup-inserted k v m = lookup-insert k k v m ∙ ground (arith, eq_refl k)

  abbrev linked :
      OnKubernetesEventConfig → KubernetesBindingsController → KubernetesBindingsController
  linked b c = record c {
    binding_monitor_links = insert b.monitor.monitor_id (link_of b) c.binding_monitor_links;
  }

  abbrev first_event : Monitor → KubeEvent
  first_event m = record {
    monitor_id = m.config.monitor_id;
    type = synchronization;
    watch_events = [];
    objects = get_existed_objects env client m;
  }

  handle_event-info :
      (b : OnKubernetesEventConfig) (c : KubernetesBindingsController) (m : Monitor)
      → m.config ≡ b.monitor
      → handle_event (linked b c) (first_event m) ≡ info_of b m
  unfolding convert_kube_event_to_binding_context
  handle_event-info b c m e = handle_event-found b (linked b c) (first_event m) (
      ap (λ (m : MonitorConfig). lookup m.monitor_id (linked b c).binding_monitor_links) e
      ∙ lookup-inserted b.monitor.monitor_id (link_of b) c.binding_monitor_links)

  abbrev added : Manager → OnKubernetesEventConfig → Monitor → Manager
  added mgr b m = record mgr { monitors = insert b.monitor.monitor_id m mgr.monitors }

  -- The first event of a new monitor, which there is unless the mode is `v0`.
  make_kube_event-first :
      (m : Monitor)
      → make_kube_event env client m none
        ≡ (if is_v0 m.config.mode then none else some (first_event m))
  unfolding make_kube_event
  make_kube_event-first m = by_mode m.config.mode
    where
      by_mode :
          (mode : KubeEventMode)
          → (elim mode as (λ x. Option KubeEvent) [
            | KubeEventMode.v0 ↦ none
            | _ ↦ some (first_event m)
          ])
            ≡ (if is_v0 mode then none else some (first_event m))
      by_mode KubeEventMode.v0 = refl
      by_mode KubeEventMode.incremental = refl
      by_mode KubeEventMode.unset = refl

  abbrev pub Enabling : List OnKubernetesEventConfig → Option (List BindingExecutionInfo) → Type 0
  Enabling bs out =
      (out ≡ none) × (any fails bs ≡ true)
      ⊎ (infos : List BindingExecutionInfo) × (out ≡ some infos)
        × EachSynchronized (λ b m info. info ≡ info_of b m) bs infos

  pub enable_each-Enabling :
      (bs : List OnKubernetesEventConfig) (c : KubernetesBindingsController) (mgr : Manager)
      → Enabling bs (enable_each env client bs c mgr).0
  unfolding enable_each add_monitor
  enable_each-Enabling [] c mgr = inr ([], refl, refl)
  enable_each-Enabling (b ∷ bs) c mgr =
      elim (Option-cases (create_informers env client b.monitor)) [
        | inl e ↦ inl (ground (arith, e), ground (arith, e))
        | inr (m, e) ↦
            (let config = create_informers-config b.monitor m e in
              let first =
                make_kube_event-first m
                ∙ ap (λ (c : MonitorConfig). if is_v0 c.mode then none else some (first_event m))
                    config in
              elim (enable_each-Enabling bs (linked b c) (added mgr b m)) [
                | inl (f, g) ↦ inl (ground (arith, e, first, f), ground (arith, g))
                | inr (infos, f, each) ↦ elim (Bool-cases (synchronizes b)) [
                  | inl s ↦ inr (
                    info_of b m ∷ infos,
                    ground (arith, e, first, f, s, handle_event-info b c m config),
                    (m, e, rw s (info_of b m, infos, refl, refl, each)),
                  )
                  | inr s ↦ inr (infos, ground (arith, e, first, f, s), (m, e, rw s each))
                ]
              ])
      ]
