-- ===== src/Hook/Init/Indexes.antt =====
-- What the indexes of the hook manager hold after `Init` of
-- shell-operator/pkg/hook/hook_manager.go, and that its events find their hooks.
use argodemo.Common.{
  ◌≡◌, refl, sym, ap, ◌∙◌, subst, arith, String, Bool, true, false, List, [], ◌∷◌, ◌++◌, append-nil,
  append_assoc, keep, keep-append, map, All, some, if◌then◌else◌, eq_refl, lookup, has_key,
  has_key-insert, has_key-lookup, Option-cases, Bool-cases, inl, inr, ok,
}
use argodemo.Kube.Types.{KubeEvent}
use argodemo.Kube.Informer.{Filters}
use argodemo.Kube.Manager.{Manager}
use argodemo.Kube.MonitorState.{Client}
use argodemo.Task.Context.{BindingType, on_startup, schedule, kubernetes}
use argodemo.Hook.Config.{Library, has_binding, bindings}
use argodemo.Hook.Config.Load.{Loader}
use argodemo.Hook.Bindings.{BindingExecutionInfo}
use argodemo.Hook.Manager.{
  Hook, HookManager, get_hook, kube_events_of, schedule_events_of, get_hooks_in_order,
  can_handle_kube_event, can_handle_schedule_event, hook_kube_event, hook_schedule_event,
}
use argodemo.Hook.Init.{
  HookFiles, no_hooks, index_bindings, register_hook, load_hook, init_each, init_hooks, load_all,
}

module _ {F : Type 0} where
  -- The hooks with a binding of a type.
  abbrev pub with_binding : BindingType → List (Hook F) → List (Hook F)
  with_binding t hooks = keep (λ h. has_binding h.config t) hooks

  -- The hook is found by its name.
  abbrev pub Known : HookManager F → Hook F → Type 0
  Known hm h = has_key h.name hm.hooks_by_name ≡ true

  -- The indexes of the manager are those of the hooks.
  pub record Indexed (hooks : List (Hook F)) (hm : HookManager F) : Type 0 where
    pub names : hm.hook_names_in_order ≡ map (λ h. h.name) hooks
    pub in_order : (t : BindingType) → hm.hooks_in_order t ≡ with_binding t hooks
    pub known : All (Known hm) hooks

  index_bindings-at :
      (h : Hook F) (index : BindingType → List (Hook F)) (t : BindingType)
      → index_bindings h (bindings h.config) index t
        ≡ index t ++ (if has_binding h.config t then h ∷ [] else [])
  unfolding index_bindings bindings has_binding
  index_bindings-at h index on_startup = ground (arith, append-nil (index on_startup))
  index_bindings-at h index schedule = ground (arith, append-nil (index schedule))
  index_bindings-at h index kubernetes = ground (arith, append-nil (index kubernetes))
  index_bindings-at h index BindingType.unset = ground (arith, append-nil (index BindingType.unset))

  map-append :
      (hs : List (Hook F)) (h : Hook F)
      → map (λ h. h.name) (hs ++ h ∷ []) ≡ map (λ h. h.name) hs ++ h.name ∷ []
  map-append [] h = refl
  map-append (g ∷ hs) h = ap (◌∷◌ g.name) (map-append hs h)

  All-Known :
      (h : Hook F) (hm : HookManager F) (hooks : List (Hook F))
      → All (Known hm) hooks
      → All (Known (register_hook h hm)) (hooks ++ h ∷ [])
  unfolding register_hook
  All-Known h hm [] a =
      (ground (arith, has_key-insert h.name h.name h hm.hooks_by_name, eq_refl h.name), tt)
  All-Known h hm (g ∷ hooks) (k, a) =
      (ground (arith, k, has_key-insert h.name g.name h hm.hooks_by_name), All-Known h hm hooks a)

  register_hook-Indexed :
      (h : Hook F) (hooks : List (Hook F)) (hm : HookManager F)
      → Indexed hooks hm
      → Indexed (hooks ++ h ∷ []) (register_hook h hm)
  unfolding register_hook
  register_hook-Indexed h hooks hm i = record {
    names = ap (λ ns. ns ++ h.name ∷ []) i.names ∙ sym (map-append hooks h);
    in_order = λ t.
        index_bindings-at h hm.hooks_in_order t
        ∙ ap (λ hs. hs ++ (if has_binding h.config t then h ∷ [] else [])) (i.in_order t)
        ∙ sym (keep-append (λ h. has_binding h.config t) hooks (h ∷ []));
    known = All-Known h hm hooks i.known;
  }

  pub All-with_binding :
      (hm : HookManager F) (t : BindingType) (hooks : List (Hook F))
      → All (Known hm) hooks
      → All (Known hm) (with_binding t hooks)
  All-with_binding hm t [] a = tt
  All-with_binding hm t (h ∷ hooks) (k, a) =
      All-if (has_binding h.config t) (k, All-with_binding hm t hooks a)
        (All-with_binding hm t hooks a)
    where
      All-if :
          (b : Bool)
          → All (Known hm) (h ∷ with_binding t hooks)
          → All (Known hm) (with_binding t hooks)
          → All (Known hm) (if b then h ∷ with_binding t hooks else with_binding t hooks)
      All-if true x y = x
      All-if false x y = y

module _ {F : Type 0} (env : Filters) (client : Client) (mgr : Manager) where
  pub kube_events_of-Known :
      (hm : HookManager F) (ev : KubeEvent) (hooks : List (Hook F))
      → All (Known hm) hooks
      → (infos : List (Hook F × BindingExecutionInfo)) × (kube_events_of env client mgr hm ev
            (map (λ h. h.name) hooks)
          ≡ ok infos)
  unfolding kube_events_of get_hook
  kube_events_of-Known hm ev [] a = ([], refl)
  kube_events_of-Known hm ev (h ∷ hooks) (k, a) =
      elim (Option-cases (lookup h.name hm.hooks_by_name)) [
        | inl e ↦ ground (arith, e, k, has_key-lookup h.name hm.hooks_by_name)
        | inr (g, e) ↦
            (let (infos, f) = kube_events_of-Known hm ev hooks a in
              elim (Bool-cases (can_handle_kube_event g ev)) [
                | inl c ↦ (
                  map (λ i. (g, i)) (hook_kube_event env client mgr g ev) ++ infos,
                  ground (arith, e, f, c),
                )
                | inr c ↦ (infos, ground (arith, e, f, c))
              ])
      ]

  pub schedule_events_of-Known :
      (hm : HookManager F) (crontab : String) (hooks : List (Hook F))
      → All (Known hm) hooks
      → (infos : List (Hook F × BindingExecutionInfo)) × (schedule_events_of env client mgr hm
            crontab
            (map (λ h. h.name) hooks)
          ≡ ok infos)
  unfolding schedule_events_of get_hook
  schedule_events_of-Known hm crontab [] a = ([], refl)
  schedule_events_of-Known hm crontab (h ∷ hooks) (k, a) =
      elim (Option-cases (lookup h.name hm.hooks_by_name)) [
        | inl e ↦ ground (arith, e, k, has_key-lookup h.name hm.hooks_by_name)
        | inr (g, e) ↦
            (let (infos, f) = schedule_events_of-Known hm crontab hooks a in
              elim (Bool-cases (can_handle_schedule_event g crontab)) [
                | inl c ↦ (
                  map (λ i. (g, i)) (hook_schedule_event env client mgr g crontab) ++ infos,
                  ground (arith, e, f, c),
                )
                | inr c ↦ (infos, ground (arith, e, f, c))
              ])
      ]

module _ {F : Type 0} (lib : Library) (loader : Loader F) (files : HookFiles) (dir : String) where
  init_each-Indexed :
      (paths : List String) (before : List (Hook F)) (hm after : HookManager F)
      → Indexed before hm
      → init_each lib loader files dir paths hm ≡ (false, after)
      → (hooks : List (Hook F)) × (load_all lib loader files dir paths ≡ some hooks)
        × Indexed (before ++ hooks) after
  unfolding init_each load_all
  init_each-Indexed [] before hm after i e = (
    [],
    refl,
    subst (λ hs. Indexed hs after) (sym (append-nil before))
        (subst (Indexed before) (ap (λ r. r.1) e) i),
  )
  init_each-Indexed (path ∷ paths) before hm after i e =
      elim (Option-cases (load_hook lib loader files dir path)) [
        | inl f ↦ ground (arith, e, f)
        | inr (h, f) ↦
            (let rest : init_each lib loader files dir paths (register_hook h hm) ≡ (false, after) =
                ground (arith, e, f) in
              let (hooks, g, later) =
                init_each-Indexed paths (before ++ h ∷ []) (register_hook h hm) after
                  (register_hook-Indexed h before hm i) rest in
              (
                h ∷ hooks,
                ground (arith, f, g),
                subst (λ hs. Indexed hs after) (append_assoc before (h ∷ []) hooks) later,
              ))
      ]

  -- When the hooks of a directory are initialised without an error, every one of its executable
  -- files is loaded; the names are those of the hooks in the sorted order of the paths; for each
  -- binding type the index holds, in that order, the hooks with such a binding; and every hook's
  -- name is found.
  pub init_hooks-Indexed :
      (hm : HookManager F)
      → init_hooks lib loader files dir ≡ (false, hm)
      → (paths : List String) × (files.executable_paths dir ≡ some paths)
        × (hooks : List (Hook F)) × (load_all lib loader files dir (files.sort paths) ≡ some hooks)
        × Indexed hooks hm
  unfolding init_hooks
  init_hooks-Indexed hm e = elim (Option-cases (files.executable_paths dir)) [
    | inl f ↦ ground (arith, e, f)
    | inr (paths, f) ↦
        (let (hooks, g, i) =
            init_each-Indexed (files.sort paths) [] no_hooks hm
              (record { names = refl; in_order = λ t. refl; known = tt }) (ground (arith, e, f)) in
          (paths, f, hooks, g, i))
  ]

  module _ (env : Filters) (client : Client) (mgr : Manager) where
    -- When the hooks are initialised without an error, the names of the hooks with kubernetes
    -- bindings and with schedules are given without an error, and no kubernetes event and no
    -- crontab that these hooks are asked about panics.
    pub init_hooks-events :
        (hm : HookManager F) (ev : KubeEvent) (crontab : String)
        (sort : List (Hook F) → List (Hook F))
        → init_hooks lib loader files dir ≡ (false, hm)
        → ((names : List String) × (get_hooks_in_order sort hm kubernetes ≡ some names)
            × (infos : List (Hook F × BindingExecutionInfo)) × (kube_events_of env client mgr hm ev
                  names
                ≡ ok infos))
          × ((names : List String) × (get_hooks_in_order sort hm schedule ≡ some names)
              × (infos : List (Hook F × BindingExecutionInfo)) × (schedule_events_of env client mgr
                    hm crontab names
                  ≡ ok infos))
    unfolding get_hooks_in_order
    init_hooks-events hm ev crontab sort e =
        let (paths, f, hooks, g, i) = init_hooks-Indexed hm e in
        let kube =
          kube_events_of-Known env client mgr hm ev (with_binding kubernetes hooks)
            (All-with_binding hm kubernetes hooks i.known) in
        let scheduled =
          schedule_events_of-Known env client mgr hm crontab (with_binding schedule hooks)
            (All-with_binding hm schedule hooks i.known) in
        (
          (
            map (λ h. h.name) (with_binding kubernetes hooks),
            ap (λ hs. some (map (λ h. h.name) hs)) (i.in_order kubernetes),
            kube.0,
            kube.1,
          ),
          (
            map (λ h. h.name) (with_binding schedule hooks),
            ap (λ hs. some (map (λ h. h.name) hs)) (i.in_order schedule),
            scheduled.0,
            scheduled.1,
          ),
        )
