-- ===== src/Kube/MonitorState/Created.antt =====
-- The monitors that `CreateInformers` of shell-operator/pkg/kube_events_manager/monitor.go makes.
use argodemo.Common.{
  ◌*◌, ◌+◌, ◌≡◌, refl, arith, length, length-append, Option-cases, inl, inr, String, Bool, true,
  List, [], ◌∷◌, ◌++◌, none, some, if◌then◌else◌, ◌==◌, Dict, insert, has_key, All, has_key-insert,
  ◌||◌, ◌&&◌, not, eq_iff, All-append, subst, false, none,
}
use argodemo.Kube.Monitor.{MonitorConfig, namespaces, names}
use argodemo.Kube.Context.{Context}
use argodemo.Kube.Informer.{Filters, Informer, with_context}
use argodemo.Kube.NamespaceInformer.{
  NamespaceInformer, new_namespace_informer, create_namespace_informer,
}
use argodemo.Kube.MonitorState.{
  Client, Monitor, new_monitor, namespace_labels, or_any, or_nil, create_shared_informer,
  create_each, create_informers_for_namespace, create_static, create_varying, create_informers,
}

-- What a monitor has when it is created: contexts of its own, and none for a namespace.
pub record Fresh (m : Monitor) : Type 0 where
  pub own_context : m.ctx ≡ 0 ∷ []
  pub contexts_fresh : m.contexts ≡ record { next = 1; cancelled = [] }
  pub no_cancels : m.cancel_for_ns ≡ []
  pub under_own : All (λ i. i.ctx ≡ 0 ∷ []) m.resource_informers

abbrev pub Unwatched : Monitor → Type 0
Unwatched m = (m.varying_informers ≡ []) × (m.namespace_informer ≡ none)

-- The namespaces that the namespace informer has listed.
abbrev pub existed : Monitor → String → Bool
existed m ns = elim m.namespace_informer [ none ↦ false | some ni ↦ has_key ns ni.existed_objects ]

-- The entries of the new monitor's namespaces are those that exist.
abbrev pub Exactly : String → Monitor → Type 0
Exactly ns m = has_key ns m.varying_informers ≡ existed m ns && not (has_key ns m.static_namespaces)

abbrev pub Created : Monitor → Type 0
Created m = Fresh m × ((ns : String) → Exactly ns m)

module _ (env : Filters) (client : Client) where
  create_each-length :
      (m : MonitorConfig) (ctx : Context) (ns : String) (rest : List String) (is : List Informer)
      → create_each env client m ctx ns rest ≡ some is
      → length is ≡ length rest
  unfolding create_each
  create_each-length m ctx ns [] is h = ground (arith, h)
  create_each-length m ctx ns (name ∷ rest) is h =
      elim (Option-cases (create_shared_informer env client m ns name)) [
        | inl e ↦ ground (arith, e)
        | inr (i, e) ↦ (elim (Option-cases (create_each env client m ctx ns rest)) [
          | inl f ↦ ground (arith, e, f)
          | inr (js, f) ↦ ground (arith, e, f, create_each-length m ctx ns rest js f)
        ])
      ]

  -- The static informers that a loop over namespaces adds.
  create_static-length :
      (nss : List String) (m after : Monitor)
      → create_static env client nss m ≡ some after
      → length after.resource_informers
        ≡ length m.resource_informers + length nss * length (or_any (names m.config))
  unfolding create_static create_informers_for_namespace
  create_static-length [] m after h = ground (arith, h)
  create_static-length (ns ∷ rest) m after h =
      elim (Option-cases (create_informers_for_namespace env client m ns)) [
        | inl e ↦ ground (arith, e)
        | inr (js, e) ↦
            (let next : Monitor = record m {
              static_namespaces =
                  if ns == "" then m.static_namespaces else insert ns true m.static_namespaces;
              resource_informers = m.resource_informers ++ js;
            } in
              let later : create_static env client rest next ≡ some after = ground (arith, e, h) in
              ground (
                arith,
                create_each-length m.config m.ctx ns (or_any (names m.config)) js e,
                create_static-length rest next after later,
                length-append m.resource_informers js,
              ))
      ]

  abbrev with_varying : Monitor → String → Monitor
  with_varying m ns = record m {
    varying_informers =
        insert ns (or_nil (create_informers_for_namespace env client m ns)) m.varying_informers;
  }

  -- What the informers of the namespaces leave alone.
  abbrev Kept : Monitor → Monitor → Type 0
  Kept m after =
      (after.resource_informers ≡ m.resource_informers)
      × (after.static_namespaces ≡ m.static_namespaces)
      × (after.namespace_informer ≡ m.namespace_informer)

  create_varying-Kept : (nss : Dict Bool) (m : Monitor) → Kept m (create_varying env client nss m)
  unfolding create_varying
  create_varying-Kept [] m = (refl, refl, refl)
  create_varying-Kept ((ns, existed) ∷ rest) m =
      let same = create_varying-Kept rest m in
      let other = create_varying-Kept rest (with_varying m ns) in
      (
        ground (arith, same.0, other.0),
        ground (arith, same.1, other.1),
        ground (arith, same.2, other.2),
      )

  -- The namespaces that exist and have no static informers are given their own.
  pub has_key-create_varying :
      (ns : String) (nss : Dict Bool) (m : Monitor)
      → has_key ns (create_varying env client nss m).varying_informers
        ≡ has_key ns m.varying_informers || has_key ns nss && not (has_key ns m.static_namespaces)
  unfolding create_varying has_key
  has_key-create_varying ns [] m = ground arith
  has_key-create_varying ns ((k, existed) ∷ rest) m = ground (
    arith,
    has_key-create_varying ns rest m,
    has_key-create_varying ns rest (with_varying m k),
    has_key-insert k ns (or_nil (create_informers_for_namespace env client m k))
        m.varying_informers,
    eq_iff k ns,
  )

  create_each-ctx :
      (m : MonitorConfig) (ctx : Context) (ns : String) (rest : List String) (is : List Informer)
      → create_each env client m ctx ns rest ≡ some is
      → All (λ i. i.ctx ≡ ctx) is
  unfolding create_each with_context
  create_each-ctx m ctx ns [] is h = ground (arith, h)
  create_each-ctx m ctx ns (name ∷ rest) is h =
      elim (Option-cases (create_shared_informer env client m ns name)) [
        | inl e ↦ ground (arith, e)
        | inr (i, e) ↦ (elim (Option-cases (create_each env client m ctx ns rest)) [
          | inl f ↦ ground (arith, e, f)
          | inr (js, f) ↦
              (let p : with_context ctx i ∷ js ≡ is = ground (arith, e, f, h) in
                subst (All (λ i. i.ctx ≡ ctx)) p (refl, create_each-ctx m ctx ns rest js f))
        ])
      ]

  create_static-Fresh :
      (nss : List String) (m after : Monitor)
      → create_static env client nss m ≡ some after
      → Fresh m
      → Unwatched m
      → Fresh after × Unwatched after
  unfolding create_static create_informers_for_namespace
  create_static-Fresh [] m after h fresh none_varying =
      subst (λ m. Fresh m × Unwatched m) (ground (arith, h)) (fresh, none_varying)
  create_static-Fresh (ns ∷ rest) m after h fresh none_varying =
      elim (Option-cases (create_informers_for_namespace env client m ns)) [
        | inl e ↦ ground (arith, e)
        | inr (js, e) ↦
            (let next : Monitor = record m {
              static_namespaces =
                  if ns == "" then m.static_namespaces else insert ns true m.static_namespaces;
              resource_informers = m.resource_informers ++ js;
            } in
              let later : create_static env client rest next ≡ some after = ground (arith, e, h) in
              let own =
                subst (λ c. All (λ i. i.ctx ≡ c) js) fresh.own_context
                  (create_each-ctx m.config m.ctx ns (or_any (names m.config)) js e) in
              create_static-Fresh rest next after later
                (record {
                  own_context = fresh.own_context;
                  contexts_fresh = fresh.contexts_fresh;
                  no_cancels = fresh.no_cancels;
                  under_own =
                      All-append (λ i. i.ctx ≡ 0 ∷ []) m.resource_informers js fresh.under_own own;
                })
                none_varying)
      ]

  create_varying-Fresh :
      (nss : Dict Bool) (m : Monitor) → Fresh m → Fresh (create_varying env client nss m)
  unfolding create_varying
  create_varying-Fresh [] m fresh = fresh
  create_varying-Fresh ((ns, existed) ∷ rest) m fresh =
      create_varying-Fresh rest _ (with_or m ns (has_key ns m.static_namespaces) fresh)
    where
      with_or :
          (m : Monitor) (ns : String) (b : Bool)
          → Fresh m
          → Fresh (if b then m else with_varying m ns)
      with_or m ns true fresh = fresh
      with_or m ns false fresh = record {
        own_context = fresh.own_context;
        contexts_fresh = fresh.contexts_fresh;
        no_cancels = fresh.no_cancels;
        under_own = fresh.under_own;
      }

  -- The two ways in which a monitor is created.
  create_informers-cases {ℓ} :
      (Holds : Monitor → Type ℓ) (c : MonitorConfig) (mon : Monitor)
      → create_informers env client c ≡ some mon
      → ((m : Monitor) → create_static env client (namespaces c) (new_monitor c) ≡ some m → Holds m)
      → ((m : Monitor) (ni : NamespaceInformer)
          → create_static env client (namespaces c) (new_monitor c) ≡ some m
          → Holds (
              create_varying env client ni.existed_objects
                (record m { namespace_informer = some ni })))
      → Holds mon
  unfolding create_informers
  create_informers-cases Holds c mon h static by_labels =
      elim (Option-cases (create_static env client (namespaces c) (new_monitor c))) [
        | inl e ↦ ground (arith, e)
        | inr (m, e) ↦ (elim (Option-cases (namespace_labels c)) [
          | inl f ↦ subst Holds (ground (arith, e, f, h)) (static m e)
          | inr (labels, f) ↦
              (elim (Option-cases (
                create_namespace_informer (client.format_label_selector (some labels))
                  client.list_namespaces (new_namespace_informer m.ctx))) [
                    | inl g ↦ ground (arith, e, f, g)
                    | inr (ni, g) ↦ subst Holds (ground (arith, e, f, g, h)) (by_labels m ni e)
                  ])
        ])
      ]

  abbrev with_ni : Monitor → NamespaceInformer → Monitor
  with_ni m ni = record m { namespace_informer = some ni }

  Unwatched-Exactly : (ns : String) (m : Monitor) → Unwatched m → Exactly ns m
  unfolding has_key
  Unwatched-Exactly ns m (e, f) = ground (arith, e, f)

  create_varying-Exactly :
      (ns : String) (m : Monitor) (ni : NamespaceInformer)
      → m.varying_informers ≡ []
      → Exactly ns (create_varying env client ni.existed_objects (with_ni m ni))
  unfolding has_key
  create_varying-Exactly ns m ni e = ground (
    arith,
    e,
    has_key-create_varying ns ni.existed_objects (with_ni m ni),
    create_varying-Kept ni.existed_objects (with_ni m ni),
  )

  new_monitor-Fresh : (c : MonitorConfig) → Fresh (new_monitor c) × Unwatched (new_monitor c)
  unfolding new_monitor
  new_monitor-Fresh c = (
    record { own_context = refl; contexts_fresh = refl; no_cancels = refl; under_own = tt },
    (refl, refl),
  )

  pub create_informers-Created :
      (c : MonitorConfig) (mon : Monitor) → create_informers env client c ≡ some mon → Created mon
  create_informers-Created c mon h =
      create_informers-cases Created c mon h
        (λ m e.
          let (fresh, (none_varying, none_informer)) = start_of m e in
          (fresh, λ ns. Unwatched-Exactly ns m (none_varying, none_informer)))
        (λ m ni e.
          let (fresh, (none_varying, none_informer)) = start_of m e in
          (
            create_varying-Fresh ni.existed_objects (with_ni m ni) (record {
              own_context = fresh.own_context;
              contexts_fresh = fresh.contexts_fresh;
              no_cancels = fresh.no_cancels;
              under_own = fresh.under_own;
            }),
            λ ns. create_varying-Exactly ns m ni none_varying,
          ))
    where
      start_of :
          (m : Monitor)
          → create_static env client (namespaces c) (new_monitor c) ≡ some m
          → Fresh m × Unwatched m
      start_of m e =
          create_static-Fresh (namespaces c) (new_monitor c) m e (new_monitor-Fresh c).0
            (new_monitor-Fresh c).1

  -- A monitor whose informers are created has one for each namespace and each object name, or
  -- for each namespace where no object names are given.
  pub create_informers-length :
      (m : MonitorConfig) (mon : Monitor)
      → create_informers env client m ≡ some mon
      → length mon.resource_informers ≡ length (namespaces m) * length (or_any (names m))
  unfolding new_monitor
  create_informers-length m mon h =
      create_informers-cases
        (λ mon. length mon.resource_informers ≡ length (namespaces m) * length (or_any (names m))) m
        mon h (λ mon e. ground (arith, create_static-length (namespaces m) (new_monitor m) mon e))
        (λ mon ni e. ground (
          arith,
          create_static-length (namespaces m) (new_monitor m) mon e,
          (create_varying-Kept ni.existed_objects (record mon { namespace_informer = some ni })).0,
        ))
