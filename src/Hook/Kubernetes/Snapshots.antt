-- ===== src/Hook/Kubernetes/Snapshots.antt =====
-- The snapshots that a binding context is given.
use argodemo.Common.{
  arith, ◌≡◌, refl, String, List, [], ◌∷◌, none, some, if◌then◌else◌, ◌==◌, eq_iff, Dict, lookup,
  insert, lookup-insert, any,
}
use argodemo.Kube.Types.{ObjectAndFilterResult}
use argodemo.Kube.Informer.{Filters}
use argodemo.Kube.Manager.{Manager}
use argodemo.Kube.MonitorState.{Client}
use argodemo.Hook.Kubernetes.{
  KubernetesBindingsController, snapshot_of, snapshots_into, snapshots_from,
}

module _ (env : Filters) (client : Client) where
  lookup-snapshots_into :
      (c : KubernetesBindingsController) (mgr : Manager) (names : List String)
      (res : Dict (List ObjectAndFilterResult)) (n : String)
      → lookup n (snapshots_into env client c mgr names res) ≡ (
          if any (λ m. m == n) names
          then some (snapshot_of env client mgr c.kubernetes_bindings n [])
          else lookup n res)
  unfolding snapshots_into
  lookup-snapshots_into c mgr [] res n = refl
  lookup-snapshots_into c mgr (m ∷ names) res n =
      let found = snapshot_of env client mgr c.kubernetes_bindings m [] in
      ground (
        arith,
        lookup-snapshots_into c mgr names (insert m found res) n,
        lookup-insert m n found res,
        eq_iff m n,
      )

  -- The snapshots of a list of binding names have a key for exactly the names of the list, with
  -- the objects that `snapshot_of` gives for the name alone, whatever the order and the repetitions
  -- of the list.
  pub lookup-snapshots_from :
      (c : KubernetesBindingsController) (mgr : Manager) (names : List String) (n : String)
      → lookup n (snapshots_from env client c mgr names) ≡ (
          if any (λ m. m == n) names
          then some (snapshot_of env client mgr c.kubernetes_bindings n [])
          else none)
  unfolding snapshots_from lookup
  lookup-snapshots_from c mgr names n = lookup-snapshots_into c mgr names [] n
