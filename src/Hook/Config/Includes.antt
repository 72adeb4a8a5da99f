-- ===== src/Hook/Config/Includes.antt =====
-- The names that the bindings of an accepted configuration include.
use argodemo.Common.{
  arith, ℕ, suc, ◌≡◌, refl, String, List, [], ◌∷◌, none, All, ◌∙◌, subst, inl, inr, Dict,
}
use argodemo.Hook.Bindings.{ScheduleConfig, OnKubernetesEventConfig}
use argodemo.Hook.Config.{
  HookConfig, valid, and_then-valid, Checked-cases, Library, convert_on_startup,
}
use argodemo.Hook.Config.Checks.{count_bindings, check_include_snapshots-count_bindings}
use argodemo.Hook.Config.Groups.{group_snapshots, update_kubernetes}
use argodemo.Hook.Config.Version1.{
  HookConfigV1, OnKubernetesEventConfigV1, ScheduleConfigV1, convert_and_check_v1,
  check_all_includes, convert_schedules_v1, check_schedule_v1, convert_all_v1,
}

-- Each name is that of exactly one of the bindings.
abbrev pub Resolved : List OnKubernetesEventConfig → List String → Type 0
Resolved bs includes = All (λ include. count_bindings bs include ≡ 1) includes

count_bindings-update_kubernetes :
    (m : Dict (List String)) (bs : List OnKubernetesEventConfig) (include : String)
    → count_bindings (update_kubernetes m bs) include ≡ count_bindings bs include
unfolding count_bindings update_kubernetes
count_bindings-update_kubernetes m [] include = refl
count_bindings-update_kubernetes m (b ∷ bs) include =
    ground (arith, count_bindings-update_kubernetes m bs include)

Resolved-update_kubernetes :
    (m : Dict (List String)) (bs : List OnKubernetesEventConfig) (includes : List String)
    → Resolved bs includes
    → Resolved (update_kubernetes m bs) includes
Resolved-update_kubernetes m bs [] h = tt
Resolved-update_kubernetes m bs (i ∷ is) h =
    (count_bindings-update_kubernetes m bs i ∙ h.0, Resolved-update_kubernetes m bs is h.1)

module _ (lib : Library) where
  check_all_includes-Resolved :
      (m : Dict (List String)) (bs : List OnKubernetesEventConfig) (i : ℕ)
      (ks : List OnKubernetesEventConfigV1)
      → check_all_includes lib bs i ks ≡ none
      → All (λ k. Resolved (update_kubernetes m bs) k.include_snapshots_from) ks
  unfolding check_all_includes
  check_all_includes-Resolved m bs i [] h = tt
  check_all_includes-Resolved m bs i (k ∷ ks) h = (
    Resolved-update_kubernetes m bs k.include_snapshots_from (
        (check_include_snapshots-count_bindings bs k.include_snapshots_from).0 (ground (arith, h))),
    check_all_includes-Resolved m bs (suc i) ks (ground (arith, h)),
  )

  convert_schedules_v1-Resolved :
      (m : Dict (List String)) (bs : List OnKubernetesEventConfig) (i : ℕ)
      (ss : List ScheduleConfigV1) (rs : List ScheduleConfig)
      → convert_schedules_v1 lib bs i ss ≡ valid rs
      → All (λ s. Resolved (update_kubernetes m bs) s.include_snapshots_from) ss
  unfolding convert_schedules_v1 check_schedule_v1
  convert_schedules_v1-Resolved m bs i [] rs h = tt
  convert_schedules_v1-Resolved m bs i (s ∷ ss) rs h =
      elim (Checked-cases (convert_schedules_v1 lib bs (suc i) ss)) [
        | inl (later, e) ↦ (
          Resolved-update_kubernetes m bs s.include_snapshots_from (
              (check_include_snapshots-count_bindings bs s.include_snapshots_from).0
                (ground (arith, h, e))),
          convert_schedules_v1-Resolved m bs (suc i) ss later e,
        )
        | inr (x, e) ↦ (let bad : ⊥ = ground (arith, h, e) in elim bad [ ])
      ]

  -- Every name that a binding of an accepted configuration includes by its own list, be it one for
  -- Kubernetes objects or a schedule, is that of exactly one of the effective kubernetes bindings.
  pub convert_and_check_v1-Resolved :
      {F : Type 0} (c : HookConfigV1 F) (hc : HookConfig F)
      → convert_and_check_v1 lib c ≡ valid hc
      → All (λ k. Resolved hc.on_kubernetes_events k.include_snapshots_from) c.on_kubernetes_event
        × All (λ s. Resolved hc.on_kubernetes_events s.include_snapshots_from) c.schedule
  unfolding convert_and_check_v1
  convert_and_check_v1-Resolved c hc h =
      let s = and_then-valid (convert_on_startup c.on_startup) _ h in
      let t = and_then-valid (convert_all_v1 lib 0 c.on_kubernetes_event) _ s.2 in
      let n : check_all_includes lib t.0 0 c.on_kubernetes_event ≡ none = ground (arith, t.2) in
      let groups = group_snapshots t.0 [] in
      elim (Checked-cases (convert_schedules_v1 lib t.0 0 c.schedule)) [
        | inl (schedules, e) ↦
            (let eq : update_kubernetes groups t.0 ≡ hc.on_kubernetes_events =
                ground (arith, t.2, n, e) in
              subst
                (λ bs.
                  All (λ k. Resolved bs k.include_snapshots_from) c.on_kubernetes_event
                  × All (λ s. Resolved bs s.include_snapshots_from) c.schedule)
                eq
                (
                  check_all_includes-Resolved groups t.0 0 c.on_kubernetes_event n,
                  convert_schedules_v1-Resolved groups t.0 0 c.schedule schedules e,
                ))
        | inr (x, e) ↦ (let bad : ⊥ = ground (arith, t.2, n, e) in elim bad [ ])
      ]
