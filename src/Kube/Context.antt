-- ===== src/Kube/Context.antt =====
-- The contexts of Go's `context` package that shell-operator/pkg/kube_events_manager derives: a
-- context is its own number before those of its ancestors, and it is done when one of these is
-- cancelled.
use argodemo.Common.{ℕ, suc, Bool, false, List, [], ◌∷◌, any, nat_eq, ◌≡◌, refl, arith}

abbrev pub Context : Type 0
Context = List ℕ

-- The contexts of one monitor, numbered as they are derived.
pub record Contexts : Type 0 where
  pub next : ℕ
  pub cancelled : List ℕ

abbrev pub member : ℕ → List ℕ → Bool
member n ns = any (λ m. nat_eq n m) ns

-- `context.WithCancel`.
abbrev pub with_cancel : Context → Contexts → Context × Contexts
with_cancel parent cs = (cs.next ∷ parent, record cs { next = suc cs.next })

-- A call of the cancel function of a context.
abbrev pub cancel : Context → Contexts → Contexts
cancel [] cs = cs
cancel (n ∷ parents) cs = record cs { cancelled = n ∷ cs.cancelled }

abbrev pub done : Context → Contexts → Bool
done ctx cs = any (λ n. member n cs.cancelled) ctx

-- Cancelling a context leaves alone those that do not descend from it.
pub done-cancel :
    (n : ℕ) (parents ctx : Context) (cs : Contexts)
    → member n ctx ≡ false
    → done ctx (cancel (n ∷ parents) cs) ≡ done ctx cs
done-cancel n parents [] cs apart = refl
done-cancel n parents (m ∷ ctx) cs apart = ground (arith, done-cancel n parents ctx cs)
