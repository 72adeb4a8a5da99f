-- ===== src/Kube/MonitorState/Running.antt =====
-- The contexts of a started monitor of shell-operator/pkg/kube_events_manager/monitor.go, and of
-- the informers of its namespaces.
use argodemo.Common.{
  ℕ, suc, ◌<◌, ◌≡◌, refl, sym, arith, String, true, false, List, [], ◌∷◌, none, some, has_key,
  if◌then◌else◌, ◌==◌, Dict, lookup, insert, delete, lookup-insert, lookup-delete, eq_iff,
  Bool-cases, Option-cases, inl, inr, All, subst, ◌≢◌,
}
use argodemo.Kube.Context.{Context, Contexts, with_cancel, cancel, done, member, done-cancel}
use argodemo.Kube.Informer.{Filters, Informer, start_informer, with_context}
use argodemo.Kube.MonitorState.{
  Client, Monitor, start_under, start_varying, start, namespace_added, namespace_deleted,
  create_informers_for_namespace, or_nil,
}
use argodemo.Kube.MonitorState.Created.{Fresh}
use argodemo.Kube.MonitorState.Namespaces.{NamespaceChange, appeared, gone, change, follow}

-- The informers are started under a context.
abbrev pub Under : Context → List Informer → Type 0
Under ctx is = All (λ i. (i.ctx ≡ ctx) × (i.started ≡ true)) is

-- Every cancel function is for a context that the monitor has derived from its own and not
-- cancelled, no two namespaces share one, and the informers of a namespace are started under
-- the context of its cancel function.
pub record Running (ctx : Context) (varying : Dict (List Informer)) (cancels : Dict Context)
    (cs : Contexts) : Type 0 where
  pub own_alive : done ctx cs ≡ false
  pub older : (n : ℕ) → member n ctx ≡ true → n < cs.next
  pub bounded : (n : ℕ) → member n cs.cancelled ≡ true → n < cs.next
  pub derived :
      (ns : String) (own : Context)
      → lookup ns cancels ≡ some own
      → (n : ℕ) × (own ≡ n ∷ ctx)
        × (n < cs.next)
        × (member n ctx ≡ false)
        × (member n cs.cancelled ≡ false)
  pub apart :
      (a b : String) (own : Context)
      → lookup a cancels ≡ some own
      → lookup b cancels ≡ some own
      → a ≡ b
  pub under :
      (ns : String) (is : List Informer)
      → lookup ns varying ≡ some is
      → (own : Context) × (lookup ns cancels ≡ some own) × Under own is

start_under-Under : (ctx : Context) (is : List Informer) → Under ctx (start_under ctx is)
unfolding start_informer with_context
start_under-Under ctx [] = tt
start_under-Under ctx (i ∷ is) = ((refl, refl), start_under-Under ctx is)

module _ (ctx : Context) where
  -- The context that is derived next is not one of a cancel function that is there.
  next-fresh :
      (a : String) (own : Context) (varying : Dict (List Informer)) (cancels : Dict Context)
      (cs : Contexts)
      → Running ctx varying cancels cs
      → lookup a cancels ≡ some own
      → own ≢ cs.next ∷ ctx
  next-fresh a own varying cancels cs r h e =
      let (n, f, lt, new, alive) = r.derived a own h in ground (arith, e, f, lt)

  -- A namespace is given a new context and informers.
  add-Running :
      (ns : String) (is : List Informer) (varying varying' : Dict (List Informer))
      (cancels : Dict Context) (cs : Contexts)
      → Running ctx varying cancels cs
      → ((other : String)
          → lookup other varying'
            ≡ (if ns == other then some (start_under (cs.next ∷ ctx) is) else lookup other varying))
      → Running ctx varying' (insert ns (cs.next ∷ ctx) cancels) (record cs { next = suc cs.next })
  add-Running ns is varying varying' cancels cs r look = record {
    own_alive = r.own_alive;
    older = λ n h. ground (arith, r.older n h);
    bounded = λ n h. ground (arith, r.bounded n h);
    derived = λ a own h. elim (Bool-cases (ns == a)) [
      | inl e ↦ (
        cs.next,
        ground (arith, e, h, inserted a),
        omega arith,
        ground (arith, r.older cs.next),
        ground (arith, r.bounded cs.next),
      )
      | inr e ↦
          (let (n, f, lt, new, alive) = r.derived a own (ground (arith, e, h, inserted a)) in
            (n, f, omega (arith, lt), new, alive))
    ];
    apart = λ a b own h k. elim (Bool-cases (ns == a)) [
      | inl e ↦ (elim (Bool-cases (ns == b)) [
        | inl f ↦ ground (arith, e, f, eq_iff ns a, eq_iff ns b)
        | inr f ↦ absurd (
            next-fresh b own varying cancels cs r (ground (arith, f, k, inserted b))
              (ground (arith, e, h, inserted a)))
      ])
      | inr e ↦ (elim (Bool-cases (ns == b)) [
        | inl f ↦ absurd (
            next-fresh a own varying cancels cs r (ground (arith, e, h, inserted a))
              (ground (arith, f, k, inserted b)))
        | inr f ↦
            r.apart a b own (ground (arith, e, h, inserted a)) (ground (arith, f, k, inserted b))
      ])
    ];
    under = λ a js h. elim (Bool-cases (ns == a)) [
      | inl e ↦ (
        cs.next ∷ ctx,
        ground (arith, e, inserted a),
        subst (Under (cs.next ∷ ctx)) (ground (arith, e, h, look a))
            (start_under-Under (cs.next ∷ ctx) is),
      )
      | inr e ↦
          (let (own, f, u) = r.under a js (ground (arith, e, h, look a)) in
            (own, ground (arith, e, f, inserted a), u))
    ];
  }
    where
      inserted :
          (a : String)
          → lookup a (insert ns (cs.next ∷ ctx) cancels)
            ≡ (if ns == a then some (cs.next ∷ ctx) else lookup a cancels)
      inserted a = lookup-insert ns a (cs.next ∷ ctx) cancels

  -- The cancel function of a namespace is called, and its informers are forgotten.
  cancel-Running :
      (ns : String) (n : ℕ) (varying : Dict (List Informer)) (cancels : Dict Context)
      (cs : Contexts)
      → Running ctx varying cancels cs
      → lookup ns cancels ≡ some (n ∷ ctx)
      → Running ctx (delete ns varying) (delete ns cancels) (cancel (n ∷ ctx) cs)
  cancel-Running ns n varying cancels cs r found = record {
    own_alive =
        (let (m, e, lt, new, alive) = r.derived ns (n ∷ ctx) found in
          ground (arith, e, new, r.own_alive, done-cancel n ctx ctx cs));
    older = r.older;
    bounded = λ k h.
        (let (m, e, lt, new, alive) = r.derived ns (n ∷ ctx) found in
          ground (arith, e, lt, r.bounded k));
    derived = λ a own h.
        (let was : lookup a cancels ≡ some own = ground (arith, h, deleted a) in
          let (m, e, lt, new, alive) = r.derived a own was in
          (
            m,
            e,
            lt,
            new,
            ground (arith, alive, e, h, was, found, deleted a, eq_iff ns a, r.apart ns a own),
          ));
    apart = λ a b own h k.
        r.apart a b own (ground (arith, h, deleted a)) (ground (arith, k, deleted b));
    under = λ a js h.
        (let was : lookup a varying ≡ some js = ground (arith, h, lookup-delete ns a varying) in
          let (own, f, u) = r.under a js was in
          (own, ground (arith, h, f, deleted a, lookup-delete ns a varying), u));
  }
    where
      deleted :
          (a : String) → lookup a (delete ns cancels) ≡ (if ns == a then none else lookup a cancels)
      deleted a = lookup-delete ns a cancels

  start_varying-Running :
      (varying : Dict (List Informer)) (cs : Contexts)
      → Running ctx [] [] cs
      → Running ctx
          (start_varying ctx varying [] cs).0
          (start_varying ctx varying [] cs).1
          (start_varying ctx varying [] cs).2
  unfolding start_varying lookup
  start_varying-Running [] cs r = r
  start_varying-Running ((ns, is) ∷ rest) cs r =
      let later = start_varying ctx rest [] cs in
      add-Running ns is later.0 ((ns, start_under (later.2.next ∷ ctx) is) ∷ later.0) later.1
        later.2 (start_varying-Running rest cs r) (λ other. refl)

abbrev pub Alive : Monitor → Type 0
Alive m = Running m.ctx m.varying_informers m.cancel_for_ns m.contexts

-- Only the context of the monitor is derived, and none is cancelled.
begun : Running (1 ∷ []) [] [] (record { next = 2; cancelled = [] })
unfolding lookup
begun = record {
  own_alive = refl;
  older = λ n h. ground (arith, h);
  bounded = λ n h. ground (arith, h);
  derived = λ a own h. ground (arith, h);
  apart = λ a b own h k. ground (arith, h);
  under = λ a is h. ground (arith, h);
}

-- `start` under the context of the manager.
pub start-Alive : (m : Monitor) → Fresh m → Alive (start [] m)
unfolding start
start-Alive m fresh =
    subst (λ k. Began k m.contexts) (sym fresh.no_cancels)
      (subst (Began []) (sym fresh.contexts_fresh)
        (start_varying-Running (1 ∷ []) m.varying_informers _ begun))
  where
    Began : Dict Context → Contexts → Type 0
    Began cancels cs =
        let own = cs.next ∷ [] in
        let r = start_varying own m.varying_informers cancels (record cs { next = suc cs.next }) in
        Running own r.0 r.1 r.2

module _ (env : Filters) (client : Client) where
  added : String → Monitor → Monitor
  added ns m = record m {
    contexts = (with_cancel m.ctx m.contexts).1;
    cancel_for_ns = insert ns (with_cancel m.ctx m.contexts).0 m.cancel_for_ns;
    varying_informers =
        insert ns
          (start_under (with_cancel m.ctx m.contexts).0
            (or_nil (create_informers_for_namespace env client m ns)))
          m.varying_informers;
  }

  namespace_added-Alive :
      (ns : String) (m : Monitor) → Alive m → Alive (namespace_added env client ns m)
  unfolding namespace_added added
  namespace_added-Alive ns m alive = elim (Bool-cases (has_key ns m.static_namespaces)) [
    | inl e ↦
        (let same : m ≡ namespace_added env client ns m = ground (arith, e) in
          subst Alive same alive)
    | inr e ↦ (elim (Bool-cases (has_key ns m.varying_informers)) [
      | inl f ↦
          (let same : m ≡ namespace_added env client ns m = ground (arith, e, f) in
            subst Alive same alive)
      | inr f ↦
          (let is = or_nil (create_informers_for_namespace env client m ns) in
            let same : added ns m ≡ namespace_added env client ns m = ground (arith, e, f) in
            subst Alive same (
              add-Running m.ctx ns is m.varying_informers (added ns m).varying_informers
                m.cancel_for_ns m.contexts alive
                (λ other.
                  lookup-insert ns other (start_under (m.contexts.next ∷ m.ctx) is)
                    m.varying_informers)))
    ])
  ]

  namespace_deleted-Alive : (ns : String) (m : Monitor) → Alive m → Alive (namespace_deleted ns m)
  unfolding namespace_deleted
  namespace_deleted-Alive ns m alive = elim (Bool-cases (has_key ns m.static_namespaces)) [
    | inl e ↦ (let same : m ≡ namespace_deleted ns m = ground (arith, e) in subst Alive same alive)
    | inr e ↦ (elim (Option-cases (lookup ns m.cancel_for_ns)) [
      | inl f ↦
          (let same : m ≡ namespace_deleted ns m = ground (arith, e, f) in subst Alive same alive)
      | inr (own, f) ↦
          (let (n, g, lt, new, live) = alive.derived ns own f in
            let found : lookup ns m.cancel_for_ns ≡ some (n ∷ m.ctx) = ground (arith, f, g) in
            let gone : Monitor = record m {
              contexts = cancel (n ∷ m.ctx) m.contexts;
              varying_informers = delete ns m.varying_informers;
              cancel_for_ns = delete ns m.cancel_for_ns;
            } in
            let same : gone ≡ namespace_deleted ns m = ground (arith, e, found) in
            subst Alive same (
              cancel-Running m.ctx ns n m.varying_informers m.cancel_for_ns m.contexts alive found))
    ])
  ]

  pub follow-Alive :
      (changes : List NamespaceChange) (m : Monitor) → Alive m → Alive (follow env client changes m)
  unfolding follow change
  follow-Alive [] m alive = alive
  follow-Alive (appeared ns ∷ cs) m alive = follow-Alive cs _ (namespace_added-Alive ns m alive)
  follow-Alive (gone ns ∷ cs) m alive = follow-Alive cs _ (namespace_deleted-Alive ns m alive)
