-- ===== src/Queue/Dump/Order.antt =====
-- The order of the queues in the dump of shell-operator/pkg/task/dump/dump.go.
use argodemo.Common.{
  suc, ◌≡◌, refl, ap, ◌∙◌, sym, inl, inr, String, false, List, [], ◌∷◌, ◌++◌, some, map, ok, ◌>>=◌,
  arith, eq_iff, eq_refl, ◌==◌, Bool-cases, All, Dict, times, StrictWeak, Ordered, Sorts, less_text,
  less_text-StrictWeak,
}
use argodemo.Queue.{TaskQueue}
use argodemo.Queue.Set.{TaskQueueSet, get_main, get_by_name, iterate, others}
use argodemo.Queue.Dump.{
  less_queue, task_queue_to_text, queue_text, queue_texts, task_queue_set_to_text,
}

-- `Less` is a strict weak order, as `sort.Sort` asks.
less_queue-StrictWeak : StrictWeak less_queue
unfolding less_queue
less_queue-StrictWeak = record {
  asym = λ a b h. ground (arith, h, less_text-StrictWeak.asym a b);
  cotrans = λ a b c h. ground (arith, h, less_text-StrictWeak.cotrans a b c);
}

All-less_text :
    (y : String) (ys : List String)
    → (y == "main") ≡ false
    → times "main" ys ≡ 0
    → All (λ z. less_queue z y ≡ false) ys
    → All (λ z. less_text z y ≡ false) ys
unfolding less_queue
All-less_text y [] m e h = h
All-less_text y (z ∷ zs) m e h =
    (ground (arith, m, e, h.0), All-less_text y zs m (ground (arith, e)) h.1)

-- Away from the main queue the names are ordered as texts.
Ordered-less_text :
    (ys : List String) → times "main" ys ≡ 0 → Ordered less_queue ys → Ordered less_text ys
Ordered-less_text [] e o = o
Ordered-less_text (y ∷ ys) e o = (
  All-less_text y ys (ground (arith, e)) (ground (arith, e)) o.0,
  Ordered-less_text ys (ground (arith, e)) o.1,
)

main_behind :
    (y : String) (ys : List String)
    → All (λ z. less_queue z y ≡ false) ys
    → times "main" ys ≡ 1
    → less_queue "main" y ≡ false
main_behind y [] h e = absurd (omega (arith, e))
main_behind y (z ∷ zs) h e = elim (Bool-cases (z == "main")) [
  | inl m ↦ sym (ap (λ t. less_queue t y) ((eq_iff z "main").0 m)) ∙ h.0
  | inr m ↦ main_behind y zs h.1 (ground (arith, m, e))
]

main_first :
    (ys : List String)
    → times "main" ys ≡ 1
    → Ordered less_queue ys
    → (later : List String) × (ys ≡ "main" ∷ later)
      × Ordered less_text later
      × (times "main" later ≡ 0)
unfolding less_queue
main_first [] e o = absurd (omega (arith, e))
main_first (y ∷ ys) e o = elim (Bool-cases (y == "main")) [
  | inl m ↦
      let none_left : times "main" ys ≡ 0 = ground (arith, m, e) in
      (ys, ap (λ t. t ∷ ys) ((eq_iff y "main").0 m), Ordered-less_text ys none_left o.1, none_left)
  | inr m ↦ absurd (ground (arith, m, eq_refl "main", main_behind y ys o.0 (ground (arith, m, e))))
]

times-others : (qs : Dict TaskQueue) → times "main" (map (λ q. q.name) (others "main" qs)) ≡ 0
unfolding others
times-others [] = refl
times-others ((k, q) ∷ qs) = ground (arith, times-others qs)

abbrev names : TaskQueueSet → List String
names tqs = map (λ u. u.name) (iterate tqs)

iterate-main :
    (tqs : TaskQueueSet) (q : TaskQueue)
    → get_main tqs ≡ some q
    → iterate tqs ≡ q ∷ others tqs.main_name tqs.queues
unfolding iterate
iterate-main tqs q found = rw (found, iterate) refl

times-names :
    (tqs : TaskQueueSet) (q : TaskQueue)
    → tqs.main_name ≡ "main"
    → get_main tqs ≡ some q
    → q.name ≡ "main"
    → times "main" (names tqs) ≡ 1
times-names tqs q is_main found named =
    ap (λ qs. times "main" (map (λ u. u.name) qs))
      (iterate-main tqs q found ∙ ap (λ m. q ∷ others m tqs.queues) is_main)
    ∙ ap (λ n. times "main" (n ∷ map (λ u. u.name) (others "main" tqs.queues))) named
    ∙ ap suc (times-others tqs.queues)

queue_text-found :
    (tqs : TaskQueueSet) (q : TaskQueue) (name : String)
    → get_by_name tqs name ≡ some q
    → queue_text tqs name ≡ task_queue_to_text q
unfolding queue_text
queue_text-found tqs q name found = rw (found, queue_text) refl

queue_texts-main :
    (tqs : TaskQueueSet) (q : TaskQueue) (later : List String)
    → get_by_name tqs "main" ≡ some q
    → queue_texts tqs 0 ("main" ∷ later)
      ≡ (task_queue_to_text q >>= λ text. queue_texts tqs 1 later >>= λ rest. ok (text ++ rest))
unfolding queue_texts
queue_texts-main tqs q later found =
    ap (λ r. r >>= λ text. queue_texts tqs 1 later >>= λ rest. ok (text ++ rest))
      (queue_text-found tqs q "main" found)

-- With a main queue of the name "main", a dump begins with the text of that queue. The texts of
-- the other queues follow in the order of their names, and each name occurs in the dump as often
-- as `Iterate` visits a queue of that name.
pub task_queue_set_to_text-main :
    (sort : List String → List String)
    → Sorts less_queue sort
    → (tqs : TaskQueueSet) (q : TaskQueue) → tqs.main_name ≡ "main"
    → get_main tqs ≡ some q
    → q.name ≡ "main"
    → (later : List String) × Ordered less_text later
      × ((name : String)
          → times name ("main" ∷ later) ≡ times name (map (λ u. u.name) (iterate tqs)))
      × (task_queue_set_to_text sort tqs ≡ (
          task_queue_to_text q >>= λ text. queue_texts tqs 1 later >>= λ rest. ok (text ++ rest)))
unfolding task_queue_set_to_text get_main
task_queue_set_to_text-main sort sorts tqs q is_main found named =
    let (later, e, o, _) =
      main_first (sort (names tqs))
        (sorts.same "main" (names tqs) ∙ times-names tqs q is_main found named)
        (sorts.ordered less_queue-StrictWeak (names tqs)) in
    (
      later,
      o,
      λ name. ap (times name) (sym e) ∙ sorts.same name (names tqs),
      ap (queue_texts tqs 0) e
          ∙ queue_texts-main tqs q later (ap (get_by_name tqs) (sym is_main) ∙ found),
    )
