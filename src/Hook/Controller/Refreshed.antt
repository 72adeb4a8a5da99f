-- ===== src/Hook/Controller/Refreshed.antt =====
-- `UpdateSnapshots` of shell-operator/pkg/hook/controller/hook_controller.go: which snapshots the
-- contexts of a hook are given.
use argodemo.Common.{
  ◌≡◌, refl, sym, ap, ◌∙◌, arith, String, true, false, List, [], ◌∷◌, ◌++◌, map, any, All,
  Bool-cases, none, some, if◌then◌else◌, ◌==◌, eq_refl, lookup, ◌⊎◌, inl, inr,
}
use argodemo.Kube.Types.{ObjectAndFilterResult}
use argodemo.Kube.Informer.{Filters}
use argodemo.Kube.Manager.{Manager}
use argodemo.Kube.MonitorState.{Client, Monitor, get_existed_objects}
use argodemo.Task.Context.{BindingContext, BindingType}
use argodemo.Hook.Bindings.{ScheduleConfig, OnKubernetesEventConfig}
use argodemo.Hook.Schedules.{ScheduleBindingsController}
use argodemo.Hook.Kubernetes.{KubernetesBindingsController, snapshot_of}
use argodemo.Hook.Kubernetes.Snapshots.{lookup-snapshots_from}
use argodemo.Hook.Controller.{
  includes_of_kubernetes, includes_of_schedule, included_for, update_snapshots, refreshed,
}
use argodemo.Hook.Manager.{Hook}

-- The names that a binding includes: that of the type and the name, and the first such one.
pub data Declares {F : Type 0} (h : Hook F) : BindingType → String → List String → Type 0 where
  by_kubernetes :
      (c : KubernetesBindingsController) (front back : List OnKubernetesEventConfig)
      (b : OnKubernetesEventConfig)
      → h.kubernetes_controller ≡ some c
      → c.kubernetes_bindings ≡ front ++ b ∷ back
      → All (λ x. (b.binding_name == x.binding_name) ≡ false) front
      → Declares h BindingType.kubernetes b.binding_name b.include_snapshots_from
  by_schedule :
      (c : ScheduleBindingsController) (front back : List ScheduleConfig) (b : ScheduleConfig)
      → h.schedule_controller ≡ some c
      → c.schedule_bindings ≡ front ++ b ∷ back
      → All (λ x. (b.binding_name == x.binding_name) ≡ false) front
      → Declares h BindingType.schedule b.binding_name b.include_snapshots_from
  by_startup : (name : String) → Declares h BindingType.on_startup name []

-- The binding has another name, or no monitor.
abbrev pub Unwatched : Manager → String → OnKubernetesEventConfig → Type 0
Unwatched mgr name b =
    ((name == b.binding_name) ≡ false) ⊎ (lookup b.monitor.monitor_id mgr.monitors ≡ none)

-- What the monitor of the last binding of the name that has one holds, or nothing without one.
pub data Holds (env : Filters) (client : Client) (mgr : Manager) (bs : List OnKubernetesEventConfig)
    (name : String) : List ObjectAndFilterResult → Type 0 where
  holds :
      (front back : List OnKubernetesEventConfig) (b : OnKubernetesEventConfig) (m : Monitor)
      → bs ≡ front ++ b ∷ back
      → b.binding_name ≡ name
      → lookup b.monitor.monitor_id mgr.monitors ≡ some m
      → All (Unwatched mgr name) back
      → Holds env client mgr bs name (get_existed_objects env client m)
  holds_nothing : All (Unwatched mgr name) bs → Holds env client mgr bs name []

includes_of_kubernetes-first :
    (front back : List OnKubernetesEventConfig) (b : OnKubernetesEventConfig)
    → All (λ x. (b.binding_name == x.binding_name) ≡ false) front
    → includes_of_kubernetes (front ++ b ∷ back) b.binding_name ≡ b.include_snapshots_from
unfolding includes_of_kubernetes
includes_of_kubernetes-first [] back b h = rw (eq_refl b.binding_name) refl
includes_of_kubernetes-first (x ∷ front) back b h =
    rw h.0 (includes_of_kubernetes-first front back b h.1)

includes_of_schedule-first :
    (front back : List ScheduleConfig) (b : ScheduleConfig)
    → All (λ x. (b.binding_name == x.binding_name) ≡ false) front
    → includes_of_schedule (front ++ b ∷ back) b.binding_name ≡ b.include_snapshots_from
unfolding includes_of_schedule
includes_of_schedule-first [] back b h = rw (eq_refl b.binding_name) refl
includes_of_schedule-first (x ∷ front) back b h =
    rw h.0 (includes_of_schedule-first front back b h.1)

module _ {F : Type 0} (h : Hook F) where
  included_for-Declares :
      (type : BindingType) (name : String) (names : List String)
      → Declares h type name names
      → included_for h type name ≡ names
  unfolding included_for
  included_for-Declares _ _ _ (by_kubernetes c front back b e f first) =
      rw (e, f) (includes_of_kubernetes-first front back b first)
  included_for-Declares _ _ _ (by_schedule c front back b e f first) =
      rw (e, f) (includes_of_schedule-first front back b first)
  included_for-Declares _ _ _ (by_startup name) = refl

module _ (env : Filters) (client : Client) (mgr : Manager) (name : String) where
  snapshot_of-Unwatched :
      (bs : List OnKubernetesEventConfig) (found : List ObjectAndFilterResult)
      → All (Unwatched mgr name) bs
      → snapshot_of env client mgr bs name found ≡ found
  unfolding snapshot_of
  snapshot_of-Unwatched [] found u = refl
  snapshot_of-Unwatched (b ∷ bs) found (inl e, u) = rw e (snapshot_of-Unwatched bs found u)
  snapshot_of-Unwatched (b ∷ bs) found (inr e, u) = elim (Bool-cases (name == b.binding_name)) [
    | inl s ↦ rw (s, e) (snapshot_of-Unwatched bs found u)
    | inr s ↦ rw s (snapshot_of-Unwatched bs found u)
  ]

  snapshot_of-last :
      (back : List OnKubernetesEventConfig) (b : OnKubernetesEventConfig) (m : Monitor)
      (found : List ObjectAndFilterResult)
      → (name == b.binding_name) ≡ true
      → lookup b.monitor.monitor_id mgr.monitors ≡ some m
      → All (Unwatched mgr name) back
      → snapshot_of env client mgr (b ∷ back) name found ≡ get_existed_objects env client m
  unfolding snapshot_of
  snapshot_of-last back b m found e f u =
      rw (e, f) (snapshot_of-Unwatched back (get_existed_objects env client m) u)

  snapshot_of-front :
      (front back : List OnKubernetesEventConfig) (b : OnKubernetesEventConfig) (m : Monitor)
      (found : List ObjectAndFilterResult)
      → (name == b.binding_name) ≡ true
      → lookup b.monitor.monitor_id mgr.monitors ≡ some m
      → All (Unwatched mgr name) back
      → snapshot_of env client mgr (front ++ b ∷ back) name found ≡ get_existed_objects env client m
  unfolding snapshot_of
  snapshot_of-front [] back b m found e f u = snapshot_of-last back b m found e f u
  snapshot_of-front (x ∷ front) back b m found e f u = snapshot_of-front front back b m _ e f u

  snapshot_of-Holds :
      (bs : List OnKubernetesEventConfig) (objects : List ObjectAndFilterResult)
      → Holds env client mgr bs name objects
      → snapshot_of env client mgr bs name [] ≡ objects
  snapshot_of-Holds bs _ (holds front back b m e named f u) =
      ap (λ bs. snapshot_of env client mgr bs name []) e
      ∙ snapshot_of-front front back b m [] (rw named (eq_refl name)) f u
  snapshot_of-Holds bs _ (holds_nothing u) = snapshot_of-Unwatched bs [] u

map-append :
    {A B : Type 0} (f : A → B) (front back : List A)
    → map f (front ++ back) ≡ map f front ++ map f back
map-append f [] back = refl
map-append f (x ∷ front) back = ap (◌∷◌ (f x)) (map-append f front back)

update_snapshots-some :
    {F : Type 0} (env : Filters) (client : Client) (mgr : Manager) (h : Hook F)
    (c : KubernetesBindingsController) (bcs : List BindingContext)
    → h.kubernetes_controller ≡ some c
    → update_snapshots env client mgr h bcs ≡ map (refreshed env client mgr h c) bcs
unfolding update_snapshots
update_snapshots-some env client mgr h c bcs e = ground (arith, e)

-- Before a hook with kubernetes bindings runs, a context that the first binding of its type and its
-- name stands behind is given new snapshots: of exactly the names that this binding includes, with
-- the objects that the monitor of the last binding of the name holds then, or with none where no
-- binding of the name has a monitor. The rest of the context stays, as does its place between the
-- others.
pub update_snapshots-Holds :
    {F : Type 0} (env : Filters) (client : Client) (mgr : Manager) (h : Hook F)
    (c : KubernetesBindingsController) (front back : List BindingContext) (bc : BindingContext)
    (names : List String) (name : String) (objects : List ObjectAndFilterResult)
    → h.kubernetes_controller ≡ some c
    → Declares h bc.metadata.binding_type bc.binding names
    → Holds env client mgr c.kubernetes_bindings name objects
    → (new : BindingContext) × (update_snapshots env client mgr h (front ++ bc ∷ back)
        ≡ update_snapshots env client mgr h front ++ new ∷ update_snapshots env client mgr h back)
      × (record new { snapshots = [] } ≡ record bc { snapshots = [] })
      × (lookup name new.snapshots ≡ (if any (λ n. n == name) names then some objects else none))
update_snapshots-Holds env client mgr h c front back bc names name objects e declares held =
    let found =
      lookup-snapshots_from env client c mgr (included_for h bc.metadata.binding_type bc.binding)
        name in
    let included = included_for-Declares h bc.metadata.binding_type bc.binding names declares in
    let all_of : List BindingContext → List BindingContext = map (refreshed env client mgr h c) in
    let updated = λ (bcs : List BindingContext). update_snapshots-some env client mgr h c bcs e in
    (
      refreshed env client mgr h c bc,
      updated (front ++ bc ∷ back)
          ∙ map-append (refreshed env client mgr h c) front (bc ∷ back)
          ∙ ap (λ bcs. bcs ++ refreshed env client mgr h c bc ∷ all_of back) (sym (updated front))
          ∙ ap
              (λ bcs.
                update_snapshots env client mgr h front ++ refreshed env client mgr h c bc ∷ bcs)
              (sym (updated back)),
      refl,
      found
          ∙ ap
              (λ ns.
                if any (λ n. n == name) ns
                then some (snapshot_of env client mgr c.kubernetes_bindings name [])
                else none)
              included
          ∙ ap (λ os. if any (λ n. n == name) names then some os else none)
              (snapshot_of-Holds env client mgr name c.kubernetes_bindings objects held),
    )
