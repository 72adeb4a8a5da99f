-- ===== src/Operator/Startup.antt =====
-- shell-operator/pkg/shell-operator/operator.go, `PrepopulateMainQueue` and
-- `InitAndStartHookQueues`: the queues before the first event.
use argodemo.Common.{
  arith, ℕ, suc, ◌≡◌, ◌≢◌, sym, ap, ◌∙◌, refl, String, true, List, [], ◌∷◌, ◌++◌, map, Option, none,
  some, if◌then◌else◌, ◌==◌, eq_iff, eq_refl, any, Dict, lookup, insert, lookup-insert, Outcome, ok,
  panic, ◌>>=◌, Option-cases, inl, inr,
}
use argodemo.Task.{
  Task, new_task, no_hook_metadata, hook_run, enable_kubernetes_bindings, enable_schedule_bindings,
}
use argodemo.Task.Context.{no_context, no_metadata, on_startup, kubernetes, schedule}
use argodemo.Hook.Config.{has_binding}
use argodemo.Hook.Manager.{Hook, HookManager, get_hook, get_hooks_in_order}
use argodemo.Queue.{TaskQueue, Status, Context, unset}
use argodemo.Queue.Handle.{add_last_all}
use argodemo.Queue.Set.{
  TaskQueueSet, unstarted_queue, new_named_queue-set, with_main_name, new_named_queue, get_main,
  get_by_name, start_queue, start_by_name,
}

-- A task without its fresh id and the time at which it is queued.
abbrev pub Maker : Type 0
Maker = String → ℕ → Task

unfoldable pub startup_task : String → Maker
unfolding new_task
startup_task name id now = record (new_task id hook_run) {
  metadata = some (record no_hook_metadata {
    hook_name = name;
    binding_type = on_startup;
    binding_context =
        record no_context {
          binding = "onStartup";
          metadata = record no_metadata { binding_type = on_startup };
        }
        ∷ [];
  });
  queued_at = now;
}

unfoldable pub enable_kubernetes_task : String → Maker
unfolding new_task
enable_kubernetes_task name id now = record (new_task id enable_kubernetes_bindings) {
  metadata =
      some (record no_hook_metadata { hook_name = name; binding = "EnableKubernetesBindings" });
  queued_at = now;
}

unfoldable pub enable_schedule_task : String → Maker
unfolding new_task
enable_schedule_task name id now = record (new_task id enable_schedule_bindings) {
  metadata =
      some (record no_hook_metadata { hook_name = name; binding = "EnableScheduleBindings" });
  queued_at = now;
}

-- `ids` gives the id and the time of the n-th task.
unfoldable pub made : (ℕ → String × ℕ) → ℕ → List Maker → List Task
made ids n [] = []
made ids n (m ∷ ms) = m (ids n).0 (ids n).1 ∷ made ids (suc n) ms

module _ {F : Type 0} (sort : List (Hook F) → List (Hook F)) where
  -- The tasks that enable the bindings of each hook. A hook that is not found panics.
  unfoldable pub enable_tasks : HookManager F → List String → Outcome (List Maker)
  unfolding get_hook
  enable_tasks hm [] = ok []
  enable_tasks hm (name ∷ rest) =
      let later = enable_tasks hm rest in
      (elim (get_hook hm name) [
        | none ↦ panic
        | some h ↦
            (later >>= λ ms. ok (
              (if has_binding h.config kubernetes then enable_kubernetes_task name ∷ [] else [])
              ++ (if has_binding h.config schedule then enable_schedule_task name ∷ [] else [])
              ++ ms))
      ])

  unfoldable pub prepopulate_main_queue :
      (ℕ → String × ℕ) → HookManager F → TaskQueueSet → Outcome TaskQueueSet
  unfolding with_main_name new_named_queue get_main get_hooks_in_order enable_tasks
  prepopulate_main_queue ids hm tqs = new_named_queue (with_main_name tqs "main") "main" >>= λ tqs'.
      elim (get_hooks_in_order sort hm on_startup) [
        | none ↦ ok tqs'
        | some names ↦ enable_tasks hm hm.hook_names_in_order >>= λ ms. (elim (get_main tqs') [
          | none ↦ panic
          | some q ↦ ok (record tqs' {
            queues =
                insert "main" (add_last_all q (made ids 0 (map startup_task names ++ ms)))
                  tqs'.queues;
          })
        ])
      ]

  abbrev queues_of : (Hook F → List String) → HookManager F → List String → Outcome (List String)
  queues_of f hm [] = ok []
  queues_of f hm (name ∷ rest) =
      let later = queues_of f hm rest in
      (elim (get_hook hm name) [ none ↦ panic | some h ↦ (later >>= λ qs. ok (f h ++ qs)) ])

-- The body of both loops: a queue is made and started if there is none of the name.
unfoldable pub ensure_queue : TaskQueueSet → String → Outcome TaskQueueSet
unfolding get_by_name new_named_queue start_by_name
ensure_queue tqs name = elim (get_by_name tqs name) [
  | some q ↦ ok tqs
  | none ↦ (new_named_queue tqs name >>= λ made. start_by_name made name)
]

unfoldable pub ensure_queues : TaskQueueSet → List String → Outcome TaskQueueSet
unfolding ensure_queue
ensure_queues tqs [] = ok tqs
ensure_queues tqs (name ∷ rest) = ensure_queue tqs name >>= λ s. ensure_queues s rest

module _ {F : Type 0} (sort : List (Hook F) → List (Hook F)) where
  abbrev or_no_names : Option (List String) → List String
  or_no_names none = []
  or_no_names (some names) = names

  unfoldable pub init_and_start_hook_queues : HookManager F → TaskQueueSet → Outcome TaskQueueSet
  unfolding get_hooks_in_order ensure_queues
  init_and_start_hook_queues hm tqs = do
    schedules ←
        queues_of sort (λ h. map (λ b. b.queue) h.config.schedules) hm
          (or_no_names (get_hooks_in_order sort hm schedule))
    scheduled ← ensure_queues tqs schedules
    events ←
        queues_of sort (λ h. map (λ b. b.queue) h.config.on_kubernetes_events) hm
          (or_no_names (get_hooks_in_order sort hm kubernetes))
    ensure_queues scheduled events

-- A queue that was just made, with the context of the set, and started.
abbrev pub started_queue : Context → String → TaskQueue
started_queue context name = record {
  items = [];
  started = true;
  name = name;
  status = Status.empty;
  context = context;
}

start_by_name-new_named_queue :
    (tqs : TaskQueueSet) (name : String)
    → tqs.context ≢ unset
    → (s : TaskQueueSet) × ((new_named_queue tqs name >>= λ made. start_by_name made name) ≡ ok s)
      × (s.context ≡ tqs.context)
      × ((n : String)
          → get_by_name s n
            ≡ (if name == n then some (started_queue tqs.context n) else get_by_name tqs n))
unfolding start_by_name get_by_name start_queue
start_by_name-new_named_queue tqs name set =
    let q : TaskQueue = unstarted_queue tqs.context name in
    let m : Dict TaskQueue = insert name q tqs.queues in
    (
      record tqs { queues = insert name (started_queue tqs.context name) m },
      ap (λ o. o >>= λ made. start_by_name made name) (new_named_queue-set tqs name set)
          ∙ ground (arith, lookup-insert name name q tqs.queues, eq_refl name),
      refl,
      λ n. ground (
        arith,
        lookup-insert name n (started_queue tqs.context name) m,
        lookup-insert name n q tqs.queues,
        eq_iff name n,
      ),
    )

ensure_queue-get_by_name :
    (tqs : TaskQueueSet) (name : String)
    → tqs.context ≢ unset
    → (s : TaskQueueSet) × (ensure_queue tqs name ≡ ok s)
      × (s.context ≡ tqs.context)
      × ((n : String)
          → get_by_name s n ≡ elim (get_by_name tqs n) [
            | some q ↦ some q
            | none ↦ (if name == n then some (started_queue tqs.context n) else none)
          ])
unfolding ensure_queue get_by_name
ensure_queue-get_by_name tqs name set = elim (Option-cases (lookup name tqs.queues)) [
  | inr (p, e) ↦ (
    tqs,
    ground (arith, e),
    refl,
    λ n. elim (Option-cases (lookup n tqs.queues)) [
      | inl f ↦ ground (arith, e, f, eq_iff name n)
      | inr (q, f) ↦ ground (arith, f)
    ],
  )
  | inl e ↦
      (let s = start_by_name-new_named_queue tqs name set in
        (
          s.0,
          ground (arith, e, s.1),
          s.2,
          λ n. elim (Option-cases (lookup n tqs.queues)) [
            | inl f ↦ ground (arith, f, s.3 n)
            | inr (q, f) ↦ ground (arith, e, f, s.3 n, eq_iff name n)
          ],
        ))
]

-- In a set whose context is set, the queues that bindings name are there afterwards: a queue that
-- was there is left as it was, a new one is empty, has the context of the set and is started, no
-- other queue is made, and nothing panics.
pub ensure_queues-get_by_name :
    (tqs : TaskQueueSet) (names : List String)
    → tqs.context ≢ unset
    → (s : TaskQueueSet) × (ensure_queues tqs names ≡ ok s)
      × ((n : String)
          → get_by_name s n ≡ elim (get_by_name tqs n) [
            | some q ↦ some q
            | none ↦ (if any (λ m. m == n) names then some (started_queue tqs.context n) else none)
          ])
unfolding ensure_queues
ensure_queues-get_by_name tqs [] set = (
  tqs,
  refl,
  λ n. (elim (Option-cases (get_by_name tqs n)) [
    | inl e ↦ ground (arith, e)
    | inr (q, e) ↦ ground (arith, e)
  ]),
)
ensure_queues-get_by_name tqs (name ∷ rest) set =
    let s = ensure_queue-get_by_name tqs name set in
    let t = ensure_queues-get_by_name s.0 rest (λ e. set (sym s.2 ∙ e)) in
    (
      t.0,
      rw (s.1, t.1),
      λ n. elim (Option-cases (get_by_name tqs n)) [
        | inl e ↦ ground (arith, e, s.2, s.3 n, t.2 n)
        | inr (q, e) ↦ ground (arith, e, s.3 n, t.2 n)
      ],
    )
