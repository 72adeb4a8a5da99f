-- ===== src/Kube/MonitorState/Stopping.antt =====
-- Which informers of a started monitor of shell-operator/pkg/kube_events_manager/monitor.go run:
-- those that are started and whose context is not done.
use argodemo.Common.{
  ◌≡◌, refl, arith, String, Bool, true, false, not, ◌&&◌, List, [], ◌∷◌, some, Dict, lookup,
  has_key, map, All, subst, sym,
}
use argodemo.Kube.Monitor.{MonitorConfig}
use argodemo.Kube.Context.{Context, Contexts, done}
use argodemo.Kube.Informer.{Filters, Informer, start_informer}
use argodemo.Kube.MonitorState.{
  Client, Monitor, start_varying, start, stop, namespace_deleted, create_informers,
}
use argodemo.Kube.MonitorState.Created.{Fresh, create_informers-Created}
use argodemo.Kube.MonitorState.Namespaces.{NamespaceChange, follow}
use argodemo.Kube.MonitorState.Running.{Under, Alive, start-Alive, follow-Alive}

abbrev pub running : Contexts → Informer → Bool
running cs i = i.started && not (done i.ctx cs)

Under-running :
    (own : Context) (cs : Contexts) (b : Bool) (is : List Informer)
    → done own cs ≡ not b
    → Under own is
    → All (λ i. running cs i ≡ b) is
Under-running own cs b [] d u = tt
Under-running own cs b (i ∷ is) d ((e, f), u) =
    (ground (arith, e, f, d), Under-running own cs b is d u)

Alive-running :
    (m : Monitor) (ns : String) (is : List Informer)
    → Alive m
    → lookup ns m.varying_informers ≡ some is
    → All (λ i. running m.contexts i ≡ true) is
Alive-running m ns is alive h =
    let (own, f, u) = alive.under ns is h in
    let (n, g, lt, new, live) = alive.derived ns own f in
    Under-running own m.contexts true is (ground (arith, g, live, alive.own_alive)) u

namespace_deleted-stopped :
    (m : Monitor) (ns : String) (is : List Informer)
    → Alive m
    → lookup ns m.varying_informers ≡ some is
    → has_key ns m.static_namespaces ≡ false
    → All (λ i. running (namespace_deleted ns m).contexts i ≡ false) is
unfolding namespace_deleted
namespace_deleted-stopped m ns is alive h free =
    let (own, f, u) = alive.under ns is h in
    let (n, g, lt, new, live) = alive.derived ns own f in
    Under-running own (namespace_deleted ns m).contexts false is (ground (arith, f, g, free)) u

start_varying-cancelled :
    (ctx : Context) (varying : Dict (List Informer)) (cancels : Dict Context) (cs : Contexts)
    → (start_varying ctx varying cancels cs).2.cancelled ≡ cs.cancelled
unfolding start_varying
start_varying-cancelled ctx [] cancels cs = refl
start_varying-cancelled ctx ((ns, is) ∷ rest) cancels cs =
    start_varying-cancelled ctx rest cancels cs

start-cancelled : (m : Monitor) → (start [] m).contexts.cancelled ≡ m.contexts.cancelled
unfolding start
start-cancelled m = start_varying-cancelled _ m.varying_informers m.cancel_for_ns _

start-resource_informers :
    (m : Monitor) → (start [] m).resource_informers ≡ map start_informer m.resource_informers
unfolding start
start-resource_informers m = refl

start-ctx : (m : Monitor) → Fresh m → (start [] m).ctx ≡ 1 ∷ []
unfolding start
start-ctx m fresh = ground (arith, fresh.contexts_fresh)

static-running :
    (is : List Informer) (cs : Contexts)
    → cs.cancelled ≡ 1 ∷ []
    → All (λ i. i.ctx ≡ 0 ∷ []) is
    → All (λ i. running cs i ≡ true) (map start_informer is)
unfolding start_informer
static-running [] cs e a = tt
static-running (i ∷ is) cs e (f, a) = (ground (arith, e, f), static-running is cs e a)

module _ (env : Filters) (client : Client) where
  -- While namespaces appear and go, the informers of every namespace that has varying informers
  -- run. When such a namespace goes, if it has no static informers, all of its own stop.
  pub follow-running :
      (c : MonitorConfig) (mon : Monitor) (changes : List NamespaceChange) (ns : String)
      (is : List Informer)
      → create_informers env client c ≡ some mon
      → lookup ns (follow env client changes (start [] mon)).varying_informers ≡ some is
      → has_key ns (follow env client changes (start [] mon)).static_namespaces ≡ false
      → All (λ i. running (follow env client changes (start [] mon)).contexts i ≡ true) is
        × All
            (λ i.
              running (namespace_deleted ns (follow env client changes (start [] mon))).contexts i
              ≡ false)
            is
  follow-running c mon changes ns is created h free =
      let (fresh, exactly) = create_informers-Created env client c mon created in
      let now = follow env client changes (start [] mon) in
      let alive = follow-Alive env client changes (start [] mon) (start-Alive mon fresh) in
      (Alive-running now ns is alive h, namespace_deleted-stopped now ns is alive h free)

  stop-cancelled : (mon : Monitor) → Fresh mon → (stop (start [] mon)).contexts.cancelled ≡ 1 ∷ []
  unfolding stop
  stop-cancelled mon fresh =
      ground (arith, start-ctx mon fresh, start-cancelled mon, fresh.contexts_fresh)

  -- A monitor that is created, started and stopped leaves all its static informers running.
  pub stop-start :
      (c : MonitorConfig) (mon : Monitor)
      → create_informers env client c ≡ some mon
      → All
          (λ i. running (stop (start [] mon)).contexts i ≡ true)
          (stop (start [] mon)).resource_informers
  unfolding stop
  stop-start c mon created =
      let (fresh, exactly) = create_informers-Created env client c mon created in
      subst (All (λ i. running (stop (start [] mon)).contexts i ≡ true))
        (sym (start-resource_informers mon))
        (static-running mon.resource_informers (stop (start [] mon)).contexts
          (stop-cancelled mon fresh) fresh.under_own)

  -- A monitor that is created, started and stopped leaves no informer of a namespace from the
  -- label selector running.
  pub stop-start_varying :
      (c : MonitorConfig) (mon : Monitor) (ns : String) (is : List Informer)
      → create_informers env client c ≡ some mon
      → lookup ns (stop (start [] mon)).varying_informers ≡ some is
      → All (λ i. running (stop (start [] mon)).contexts i ≡ false) is
  unfolding stop
  stop-start_varying c mon ns is created h =
      let (fresh, exactly) = create_informers-Created env client c mon created in
      let alive = start-Alive mon fresh in
      let (ctx, f, u) = alive.under ns is h in
      let (n, g, lt, new, live) = alive.derived ns ctx f in
      Under-running ctx (stop (start [] mon)).contexts false is
        (ground (arith, g, start-ctx mon fresh, stop-cancelled mon fresh)) u
