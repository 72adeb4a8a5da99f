-- ===== src/Hook/Kubernetes/Monitors.antt =====
-- The monitors that a hook has enabled are known to the kube events manager, and the snapshots
-- that a binding asks for.
use argodemo.Common.{
  arith, ◌≡◌, refl, subst, ◌∙◌, String, Bool, true, false, List, [], ◌∷◌, Option, none, some,
  if◌then◌else◌, ◌==◌, eq_refl, Dict, lookup, insert, has_key, has_key-lookup, has_key-insert,
  Option-cases, inl, inr, ok, ap, ◌>>=◌, eq_iff,
}
use argodemo.Kube.Types.{KubeEvent}
use argodemo.Kube.Monitor.{MonitorConfig}
use argodemo.Kube.Informer.{Filters}
use argodemo.Kube.Manager.{Manager, add_monitor, start_monitor}
use argodemo.Kube.MonitorState.{Client, create_informers, start}
use argodemo.Hook.Bindings.{OnKubernetesEventConfig}
use argodemo.Hook.Kubernetes.{
  MonitorLink, link_of, KubernetesBindingsController, enable_each, enable_kubernetes_bindings,
  start_monitors, start_monitors_of,
}

-- Every linked monitor is one of the manager's.
abbrev pub Linked : Dict MonitorLink → Manager → Type 0
Linked [] mgr = Unit
Linked ((id, link) ∷ ls) mgr = (has_key id mgr.monitors ≡ true) × Linked ls mgr

abbrev pub More : Manager → Manager → Type 0
More mgr mgr' = (id : String) → has_key id mgr.monitors ≡ true → has_key id mgr'.monitors ≡ true

-- The managers know the same monitors.
abbrev pub Same : Manager → Manager → Type 0
Same mgr mgr' = (id : String) → has_key id mgr'.monitors ≡ has_key id mgr.monitors

pub Linked-More :
    (ls : Dict MonitorLink) (mgr mgr' : Manager) → More mgr mgr' → Linked ls mgr → Linked ls mgr'
Linked-More [] mgr mgr' h l = l
Linked-More ((id, link) ∷ ls) mgr mgr' h l = (h id l.0, Linked-More ls mgr mgr' h l.1)

Linked-if :
    (b : Bool) (ls ms : Dict MonitorLink) (mgr : Manager)
    → Linked ls mgr
    → Linked ms mgr
    → Linked (if b then ls else ms) mgr
Linked-if true ls ms mgr h k = h
Linked-if false ls ms mgr h k = k

Linked-insert :
    (k : String) (v : MonitorLink) (ls : Dict MonitorLink) (mgr : Manager)
    → has_key k mgr.monitors ≡ true
    → Linked ls mgr
    → Linked (insert k v ls) mgr
unfolding insert
Linked-insert k v [] mgr hk l = (hk, l)
Linked-insert k v ((j, w) ∷ ls) mgr hk l =
    Linked-if (j == k) ((k, v) ∷ ls) ((j, w) ∷ insert k v ls) mgr (hk, l.1)
      (l.0, Linked-insert k v ls mgr hk l.1)

module _ (env : Filters) (client : Client) where
  add_monitor-More :
      (mgr : Manager) (m : MonitorConfig) (first : Option KubeEvent) (mgr' : Manager)
      → add_monitor env client mgr m ≡ some (first, mgr')
      → More mgr mgr' × (has_key m.monitor_id mgr'.monitors ≡ true)
  unfolding add_monitor
  add_monitor-More mgr m first mgr' h = elim (Option-cases (create_informers env client m)) [
    | inl e ↦ ground (arith, e)
    | inr (mon, e) ↦ (
      λ id k. ground (arith, e, has_key-insert m.monitor_id id mon mgr.monitors),
      ground (
        arith,
        e,
        has_key-insert m.monitor_id m.monitor_id mon mgr.monitors,
        eq_refl m.monitor_id,
      ),
    )
  ]

  abbrev linked_to :
      KubernetesBindingsController → OnKubernetesEventConfig → KubernetesBindingsController
  linked_to c b = record c {
    binding_monitor_links = insert b.monitor.monitor_id (link_of b) c.binding_monitor_links;
  }

  -- The controller and the manager after the bindings are enabled.
  state :
      List OnKubernetesEventConfig
      → KubernetesBindingsController
      → Manager
      → KubernetesBindingsController × Manager
  state bs c mgr = ((enable_each env client bs c mgr).1, (enable_each env client bs c mgr).2)

  state_after :
      OnKubernetesEventConfig
      → List OnKubernetesEventConfig
      → KubernetesBindingsController
      → Manager
      → Option (Option KubeEvent × Manager)
      → KubernetesBindingsController × Manager
  state_after b bs c mgr none = (c, mgr)
  state_after b bs c mgr (some a) = state bs (linked_to c b) a.1

  state-state_after :
      (b : OnKubernetesEventConfig) (bs : List OnKubernetesEventConfig)
      (c : KubernetesBindingsController) (mgr : Manager)
      → state_after b bs c mgr (add_monitor env client mgr b.monitor) ≡ state (b ∷ bs) c mgr
  unfolding enable_each state state_after
  state-state_after b bs c mgr = ground arith

  LinkedState : KubernetesBindingsController × Manager → Type 0
  LinkedState s = Linked s.0.binding_monitor_links s.1

  state-LinkedState :
      (bs : List OnKubernetesEventConfig) (c : KubernetesBindingsController) (mgr : Manager)
      → Linked c.binding_monitor_links mgr
      → LinkedState (state bs c mgr)
  unfolding enable_each state LinkedState state_after
  state-LinkedState [] c mgr l = l
  state-LinkedState (b ∷ bs) c mgr l =
      subst LinkedState (state-state_after b bs c mgr)
        (go (add_monitor env client mgr b.monitor) refl (λ c' m l'. state-LinkedState bs c' m l'))
    where
      go :
          (o : Option (Option KubeEvent × Manager))
          → add_monitor env client mgr b.monitor ≡ o
          → ((c' : KubernetesBindingsController) (m : Manager)
              → Linked c'.binding_monitor_links m
              → LinkedState (state bs c' m))
          → LinkedState (state_after b bs c mgr o)
      go none e later = l
      go (some (first, mgr')) e later =
          let h = add_monitor-More mgr b.monitor first mgr' e in
          later (linked_to c b) mgr' (
            Linked-insert b.monitor.monitor_id (link_of b) c.binding_monitor_links mgr' h.1
              (Linked-More c.binding_monitor_links mgr mgr' h.0 l))

  state-More :
      (bs : List OnKubernetesEventConfig) (c : KubernetesBindingsController) (mgr : Manager)
      → More mgr (state bs c mgr).1
  unfolding enable_each state state_after
  state-More [] c mgr = λ id h. h
  state-More (b ∷ bs) c mgr =
      subst (λ (s : KubernetesBindingsController × Manager). More mgr s.1)
        (state-state_after b bs c mgr)
        (go (add_monitor env client mgr b.monitor) refl (state-More bs (linked_to c b)))
    where
      go :
          (o : Option (Option KubeEvent × Manager))
          → add_monitor env client mgr b.monitor ≡ o
          → ((m : Manager) → More m (state bs (linked_to c b) m).1)
          → More mgr (state_after b bs c mgr o).1
      go none e later = λ id h. h
      go (some (first, mgr')) e later =
          let more = add_monitor-More mgr b.monitor first mgr' e in
          λ id h. later mgr' id (more.0 id h)

  -- Enabling the bindings links the controller to monitors of the manager, which forgets none.
  pub enable_kubernetes_bindings-Linked :
      (c : KubernetesBindingsController) (mgr : Manager)
      → Linked c.binding_monitor_links mgr
      → Linked
          (enable_kubernetes_bindings env client c mgr).1.binding_monitor_links
          (enable_kubernetes_bindings env client c mgr).2
        × More mgr (enable_kubernetes_bindings env client c mgr).2
  unfolding enable_kubernetes_bindings state LinkedState
  enable_kubernetes_bindings-Linked c mgr l =
      (state-LinkedState c.kubernetes_bindings c mgr l, state-More c.kubernetes_bindings c mgr)

  start_monitor-known :
      (mgr : Manager) (id : String)
      → has_key id mgr.monitors ≡ true
      → (mgr' : Manager) × (start_monitor mgr id ≡ ok mgr') × Same mgr mgr'
  unfolding start_monitor
  start_monitor-known mgr id h = elim (Option-cases (lookup id mgr.monitors)) [
    | inl e ↦ (let bad : ⊥ = ground (arith, e, h, has_key-lookup id mgr.monitors) in elim bad [ ])
    | inr (m, e) ↦ (
      record mgr { monitors = insert id (start [] m) mgr.monitors },
      ground (arith, e),
      λ j. ground (arith, h, has_key-insert id j (start [] m) mgr.monitors, eq_iff id j),
    )
  ]

  start_monitors_of-Linked :
      (ls : Dict MonitorLink) (mgr : Manager)
      → Linked ls mgr
      → (mgr' : Manager) × (start_monitors_of ls mgr ≡ ok mgr') × Same mgr mgr'
  unfolding start_monitors_of
  start_monitors_of-Linked [] mgr l = (mgr, refl, λ id. refl)
  start_monitors_of-Linked ((id, link) ∷ ls) mgr l =
      let (one, e, same) = start_monitor-known mgr id l.0 in
      let (all, f, same') =
        start_monitors_of-Linked ls one (Linked-More ls mgr one (λ j h. same j ∙ h) l.1) in
      (all, ap (λ o. o >>= start_monitors_of ls) e ∙ f, λ j. same' j ∙ same j)

  -- After the kubernetes bindings of a hook whose links were known are enabled, with or without an
  -- error, every link of the hook is to a monitor that the manager knows, and starting them does
  -- not panic and keeps the ids of the manager's monitors.
  pub start_monitors-enable_kubernetes_bindings :
      (c : KubernetesBindingsController) (mgr : Manager)
      → Linked c.binding_monitor_links mgr
      → (mgr' : Manager) × (start_monitors
            (enable_kubernetes_bindings env client c mgr).1
            (enable_kubernetes_bindings env client c mgr).2
          ≡ ok mgr')
        × Same (enable_kubernetes_bindings env client c mgr).2 mgr'
  unfolding start_monitors enable_kubernetes_bindings state LinkedState
  start_monitors-enable_kubernetes_bindings c mgr l =
      start_monitors_of-Linked _ _ (state-LinkedState c.kubernetes_bindings c mgr l)
