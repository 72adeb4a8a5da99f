-- ===== src/Kube/MonitorState/Namespaces.antt =====
-- The namespaces that a started monitor of shell-operator/pkg/kube_events_manager/monitor.go
-- watches while namespaces appear and go.
use argodemo.Common.{
  ◌≡◌, refl, arith, String, Bool, true, false, not, ◌&&◌, ◌||◌, List, [], ◌∷◌, some, if◌then◌else◌,
  ◌==◌, Dict, has_key, has_key-insert, has_key-delete, has_key-lookup, eq_iff, Bool-cases, inl, inr,
}
use argodemo.Kube.Monitor.{MonitorConfig}
use argodemo.Kube.Context.{Context, Contexts, with_cancel}
use argodemo.Kube.Informer.{Filters, Informer}
use argodemo.Kube.MonitorState.{
  Client, Monitor, start_under, start_varying, start, namespace_added, namespace_deleted,
  create_informers, create_informers_for_namespace, or_nil,
}
use argodemo.Kube.MonitorState.Created.{existed, create_informers-Created}

pub data NamespaceChange : Type 0 where
  appeared gone : String → NamespaceChange

-- Whether a namespace exists after the changes, if it does before them.
pub exists_after : String → List NamespaceChange → Bool → Bool
exists_after ns [] exists = exists
exists_after ns (appeared n ∷ changes) exists =
    exists_after ns changes (if n == ns then true else exists)
exists_after ns (gone n ∷ changes) exists =
    exists_after ns changes (if n == ns then false else exists)

exists_after-cons :
    (ns : String) (c : NamespaceChange) (cs : List NamespaceChange) (exists : Bool)
    → exists_after ns (c ∷ cs) exists ≡ exists_after ns cs (exists_after ns (c ∷ []) exists)
unfolding exists_after
exists_after-cons ns (appeared n) cs exists = refl
exists_after-cons ns (gone n) cs exists = refl

-- Every namespace with varying informers has a cancel function, and no other.
abbrev pub Matched : Monitor → Type 0
Matched m = (ns : String) → has_key ns m.varying_informers ≡ has_key ns m.cancel_for_ns

start_varying-keys :
    (ns : String) (ctx : Context) (varying : Dict (List Informer)) (cancels : Dict Context)
    (cs : Contexts)
    → (has_key ns (start_varying ctx varying cancels cs).0 ≡ has_key ns varying)
      × (has_key ns (start_varying ctx varying cancels cs).1
          ≡ has_key ns varying || has_key ns cancels)
unfolding start_varying has_key
start_varying-keys ns ctx [] cancels cs = (refl, ground arith)
start_varying-keys ns ctx ((n, is) ∷ rest) cancels cs =
    let later = start_varying-keys ns ctx rest cancels cs in
    let r = start_varying ctx rest cancels cs in
    let own : Context = (with_cancel ctx r.2).0 in
    (ground (arith, later.0), ground (arith, later.1, has_key-insert n ns own r.1, eq_iff n ns))

start-varying_informers :
    (ns : String) (parent : Context) (m : Monitor)
    → has_key ns (start parent m).varying_informers ≡ has_key ns m.varying_informers
unfolding start
start-varying_informers ns parent m =
    let (own, cs) = with_cancel parent m.contexts in
    (start_varying-keys ns own m.varying_informers m.cancel_for_ns cs).0

start-Matched : (parent : Context) (m : Monitor) → m.cancel_for_ns ≡ [] → Matched (start parent m)
unfolding start has_key
start-Matched parent m e ns =
    let (own, cs) = with_cancel parent m.contexts in
    ground (arith, e, start_varying-keys ns own m.varying_informers m.cancel_for_ns cs)

start-static_namespaces :
    (parent : Context) (m : Monitor) → (start parent m).static_namespaces ≡ m.static_namespaces
unfolding start
start-static_namespaces parent m = refl

module _ (env : Filters) (client : Client) where
  unfoldable pub change : NamespaceChange → Monitor → Monitor
  change (appeared ns) m = namespace_added env client ns m
  change (gone ns) m = namespace_deleted ns m

  unfoldable pub follow : List NamespaceChange → Monitor → Monitor
  unfolding change
  follow [] m = m
  follow (c ∷ cs) m = follow cs (change c m)

  change-static_namespaces :
      (c : NamespaceChange) (m : Monitor) → (change c m).static_namespaces ≡ m.static_namespaces
  unfolding change namespace_added namespace_deleted
  change-static_namespaces (appeared ns) m = ground arith
  change-static_namespaces (gone ns) m = ground arith

  change-Matched : (c : NamespaceChange) (m : Monitor) → Matched m → Matched (change c m)
  unfolding change namespace_added namespace_deleted
  change-Matched (appeared n) m matched ns = ground (
    arith,
    matched ns,
    has_key-insert n ns
        (start_under (with_cancel m.ctx m.contexts).0
          (or_nil (create_informers_for_namespace env client m n)))
        m.varying_informers,
    has_key-insert n ns (with_cancel m.ctx m.contexts).0 m.cancel_for_ns,
  )
  change-Matched (gone n) m matched ns = ground (
    arith,
    matched ns,
    has_key-delete n ns m.varying_informers,
    has_key-delete n ns m.cancel_for_ns,
  )

  -- One change, for a namespace that has no static informers.
  change-watched :
      (ns : String) (c : NamespaceChange) (m : Monitor)
      → Matched m
      → has_key ns m.static_namespaces ≡ false
      → has_key ns (change c m).varying_informers
        ≡ exists_after ns (c ∷ []) (has_key ns m.varying_informers)
  unfolding change namespace_added namespace_deleted exists_after
  change-watched ns (appeared n) m matched free = ground (
    arith,
    eq_iff n ns,
    has_key-insert n ns
        (start_under (with_cancel m.ctx m.contexts).0
          (or_nil (create_informers_for_namespace env client m n)))
        m.varying_informers,
  )
  change-watched ns (gone n) m matched free = ground (
    arith,
    eq_iff n ns,
    matched n,
    has_key-lookup n m.cancel_for_ns,
    has_key-delete n ns m.varying_informers,
  )

  change-static :
      (ns : String) (c : NamespaceChange) (m : Monitor)
      → has_key ns m.static_namespaces ≡ true
      → has_key ns (change c m).varying_informers ≡ has_key ns m.varying_informers
  unfolding change namespace_added namespace_deleted
  change-static ns (appeared n) m static = ground (
    arith,
    eq_iff n ns,
    has_key-insert n ns
        (start_under (with_cancel m.ctx m.contexts).0
          (or_nil (create_informers_for_namespace env client m n)))
        m.varying_informers,
  )
  change-static ns (gone n) m static =
      ground (arith, eq_iff n ns, has_key-delete n ns m.varying_informers)

  -- While namespaces appear and go, a monitor whose cancel functions match its varying informers
  -- has varying informers for exactly the namespaces that exist, if it has for those that existed,
  -- but for the namespaces with static informers, where nothing changes.
  follow-exists_after :
      (ns : String) (changes : List NamespaceChange) (m : Monitor)
      → Matched m
      → has_key ns (follow changes m).varying_informers ≡ (
          if has_key ns m.static_namespaces
          then has_key ns m.varying_informers
          else exists_after ns changes (has_key ns m.varying_informers))
  unfolding follow exists_after
  follow-exists_after ns [] m matched = ground arith
  follow-exists_after ns (c ∷ cs) m matched =
      let later = follow-exists_after ns cs (change c m) (change-Matched c m matched) in
      elim (Bool-cases (has_key ns m.static_namespaces)) [
        | inl e ↦ ground (arith, e, later, change-static ns c m e, change-static_namespaces c m)
        | inr e ↦ ground (
          arith,
          e,
          later,
          change-watched ns c m matched e,
          change-static_namespaces c m,
          exists_after-cons ns c cs (has_key ns m.varying_informers),
        )
      ]

  -- A monitor that is created without an error and then started has, after any sequence of
  -- namespaces that appear and go, varying informers for exactly the namespaces that exist by the
  -- changes and the first list and that have no static informers.
  pub follow-start :
      (c : MonitorConfig) (mon : Monitor) (parent : Context)
      → create_informers env client c ≡ some mon
      → (ns : String) (changes : List NamespaceChange)
      → has_key ns (follow changes (start parent mon)).varying_informers
        ≡ exists_after ns changes (existed mon ns) && not (has_key ns mon.static_namespaces)
  follow-start c mon parent h ns changes =
      let (fresh, exactly) = create_informers-Created env client c mon h in
      let matched = start-Matched parent mon fresh.no_cancels in
      elim (Bool-cases (has_key ns mon.static_namespaces)) [
        | inl e ↦ ground (
          arith,
          e,
          exactly ns,
          follow-exists_after ns changes (start parent mon) matched,
          start-varying_informers ns parent mon,
          start-static_namespaces parent mon,
        )
        | inr e ↦ ground (
          arith,
          e,
          exactly ns,
          follow-exists_after ns changes (start parent mon) matched,
          start-varying_informers ns parent mon,
          start-static_namespaces parent mon,
        )
      ]
