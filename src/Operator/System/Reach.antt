-- ===== src/Operator/System/Reach.antt =====
-- The steps of a running operator of shell-operator/pkg/shell-operator, and what every world that
-- they reach has.
use argodemo.Common.{
  some, ◌≡◌, refl, sym, ◌∙◌, subst, arith, String, Option-cases, inl, inr, Outcome, ok, ◌>>=◌,
  >>=-eq-ok,
}
use argodemo.Kube.Types.{KubeEvent}
use argodemo.Kube.EventText.{kube_event_text}
use argodemo.Kube.Manager.{Manager}
use argodemo.Task.{Task, TaskType, hook_metadata_accessor}
use argodemo.Task.Context.{kubernetes, schedule}
use argodemo.Schedule.{ScheduleManager}
use argodemo.Hook.Kubernetes.Monitors.{Same, Linked-More}
use argodemo.Hook.Manager.{Hook, get_hook, get_hooks_in_order, kube_events_of, schedule_events_of}
use argodemo.Hook.Controller.{hook_enable_schedule_bindings}
use argodemo.Hook.Run
use argodemo.Queue.{Context, unset, live, done, Status, TaskQueue, get_first, update_task}
use argodemo.Queue.Handle.{TaskResult, Turn, stopped, again, after_handler}
use argodemo.Queue.Dump.{string}
use argodemo.Queue.Set.{get_by_name}
use argodemo.Operator.HookRun.{task_handle_hook_run}
use argodemo.Operator.Enable.{task_handle_enable_kubernetes_bindings}
use argodemo.Operator.Handler.{
  Setting, World, Moment, handle_hook_run, handle_enable_kubernetes, handle_enable_schedule,
  task_handler, handle_kube_event, handle_schedule_event, queue_turn, after_task, turned, or_nil,
  queued, event_tasks,
}
use argodemo.Operator.System.{
  Sound, with_hook, with_hook-Sound, task_handle_enable_kubernetes_bindings-Enabled,
}

module _ {F C : Type 0} (set : Setting F C) where
  -- An event of a manager, a turn of a queue, and what the informers do to the monitors, whose
  -- ids stay.
  pub data Step : World F C → World F C → Type 0 where
    kube_event :
        {w w' : World F C} (at : Moment) (ev : KubeEvent)
        → handle_kube_event set at ev w ≡ ok w'
        → Step w w'
    crontab :
        {w w' : World F C} (at : Moment) (spec : String)
        → handle_schedule_event set at spec w ≡ ok w'
        → Step w w'
    worker :
        {w w' : World F C} (at : Moment) (name : String)
        → queue_turn set at name w ≡ ok w'
        → Step w w'
    informers :
        {w : World F C} (mgr : Manager) → Same w.monitors mgr → Step w (record w { monitors = mgr })

  pub data Steps : World F C → World F C → Type 0 where
    here : {w : World F C} → Steps w w
    then : {u v w : World F C} → Step u v → Steps v w → Steps u w

  abbrev pub SoundWorld : World F C → Type 0
  SoundWorld w = Sound w.hooks w.monitors

  module _ (at : Moment) where
    handle_hook_run-Sound :
        (t : Task) (w : World F C) (out : TaskResult × Task × World F C)
        → SoundWorld w
        → handle_hook_run set at t w ≡ ok out
        → SoundWorld out.2
    unfolding handle_hook_run
    handle_hook_run-Sound t w out s e =
        let (r, f, g) =
          >>=-eq-ok
            (task_handle_hook_run set.library set.error_text
              (λ h type bcs. Run.hook_run set.process set.filters set.client w.monitors h bcs)
              w.hooks t at.now w.operator)
            _ e in
        let same : (record w { operator = r.2 }) ≡ out.2 = ground (arith, g) in
        subst SoundWorld same s

    abbrev enabled : Hook F → World F C → Task → Outcome (TaskResult × Task × Hook F × Manager)
    enabled h w t =
        task_handle_enable_kubernetes_bindings set.filters set.client set.log_labels at.now at.ids
          set.failure_message h w.monitors t

    abbrev pub after_enabled :
        String → World F C → TaskResult × Task × Hook F × Manager → TaskResult × Task × World F C
    after_enabled name w r =
        (r.0, r.1, record w { hooks = with_hook name r.2 w.hooks; monitors = r.3 })

    handle_enable_kubernetes-Sound :
        (t : Task) (w : World F C) (out : TaskResult × Task × World F C)
        → SoundWorld w
        → handle_enable_kubernetes set at t w ≡ ok out
        → SoundWorld out.2
    unfolding handle_enable_kubernetes
    handle_enable_kubernetes-Sound t w out s e =
        let name = (hook_metadata_accessor t.metadata).hook_name in
        elim (Option-cases (get_hook w.hooks name)) [
          | inl f ↦ ground (arith, e, f)
          | inr (h, f) ↦
              (let bound : (enabled h w t >>= λ r. ok (after_enabled name w r)) ≡ ok out =
                  ground (arith, e, f) in
                let (r, g, k) =
                  >>=-eq-ok (enabled h w t) (λ r. ok (after_enabled name w r)) bound in
                let (more, links) =
                  task_handle_enable_kubernetes_bindings-Enabled set.filters set.client
                    set.log_labels at.now at.ids set.failure_message h w.monitors t r
                    (λ c. s.linked name h c f) g in
                let same : (after_enabled name w r).2 ≡ out.2 = ground (arith, k) in
                subst SoundWorld same
                  (with_hook-Sound name r.2 w.hooks w.monitors r.3 s more links))
        ]

    hook_enable_schedule_bindings-kubernetes_controller :
        (h : Hook F) (sm : ScheduleManager C)
        → (hook_enable_schedule_bindings set.cron h sm).0.kubernetes_controller
          ≡ h.kubernetes_controller
    unfolding hook_enable_schedule_bindings
    hook_enable_schedule_bindings-kubernetes_controller h sm =
        elim (Option-cases h.schedule_controller) [
          | inl e ↦ ground (arith, e)
          | inr (c, e) ↦ ground (arith, e)
        ]

    handle_enable_schedule-Sound :
        (t : Task) (w : World F C) (out : TaskResult × Task × World F C)
        → SoundWorld w
        → handle_enable_schedule set at t w ≡ ok out
        → SoundWorld out.2
    unfolding handle_enable_schedule hook_enable_schedule_bindings
    handle_enable_schedule-Sound t w out s e =
        let name = (hook_metadata_accessor t.metadata).hook_name in
        elim (Option-cases (get_hook w.hooks name)) [
          | inl f ↦ ground (arith, e, f)
          | inr (h, f) ↦
              (let r = hook_enable_schedule_bindings set.cron h w.schedules in
                let w' : World F C = record w {
                  hooks = with_hook name r.0 w.hooks;
                  schedules = r.1;
                } in
                let same : w' ≡ out.2 = ground (arith, e, f) in
                subst SoundWorld same (
                  with_hook-Sound name r.0 w.hooks w.monitors w.monitors s (λ id k. k)
                    (λ c k. s.linked name h c f (
                      sym (hook_enable_schedule_bindings-kubernetes_controller h w.schedules)
                      ∙ k))))
        ]

    task_handler-Sound :
        (t : Task) (w : World F C) (out : TaskResult × Task × World F C)
        → SoundWorld w
        → task_handler set at t w ≡ ok out
        → SoundWorld out.2
    unfolding task_handler
    task_handler-Sound t w out s e = by_type t.type e
      where
        by_type :
            (type : TaskType)
            → (elim type as (λ x. Outcome (TaskResult × Task × World F C)) [
              | TaskType.hook_run ↦ handle_hook_run set at t w
              | TaskType.enable_kubernetes_bindings ↦ handle_enable_kubernetes set at t w
              | TaskType.enable_schedule_bindings ↦ handle_enable_schedule set at t w
            ])
              ≡ ok out
            → SoundWorld out.2
        by_type TaskType.hook_run e = handle_hook_run-Sound t w out s e
        by_type TaskType.enable_kubernetes_bindings e = handle_enable_kubernetes-Sound t w out s e
        by_type TaskType.enable_schedule_bindings e = handle_enable_schedule-Sound t w out s e

    turned-Sound :
        (name : String) (turn : Turn) (w : World F C)
        → SoundWorld w
        → SoundWorld (turned set at name turn w)
    turned-Sound name (stopped q) w s = s
    turned-Sound name (again q delay) w s = s

    after_task-Sound :
        (name : String) (t : Task) (r : TaskResult × Task × World F C) (w' : World F C)
        → SoundWorld r.2
        → after_task set at name t r ≡ ok w'
        → SoundWorld w'
    unfolding after_task
    after_task-Sound name t r w' s e =
        elim (Option-cases (get_by_name r.2.operator.task_queues name)) [
          | inl f ↦ (let same : r.2 ≡ w' = ground (arith, e, f) in subst SoundWorld same s)
          | inr (q, f) ↦
              (let q' : TaskQueue = record q { items = update_task t.id (λ x. r.1) q.items } in
                let bound : (after_handler q' r.1 r.0 at.random >>= λ turn.
                ok (turned set at name turn r.2))
                    ≡ ok w' =
                  ground (arith, e, f) in
                let (turn, g, k) =
                  >>=-eq-ok (after_handler q' r.1 r.0 at.random)
                    (λ turn. ok (turned set at name turn r.2)) bound in
                let same : turned set at name turn r.2 ≡ w' = ground (arith, k) in
                subst SoundWorld same (turned-Sound name turn r.2 s))
        ]

    queue_turn-Sound :
        (name : String) (w w' : World F C)
        → SoundWorld w
        → queue_turn set at name w ≡ ok w'
        → SoundWorld w'
    unfolding queue_turn
    queue_turn-Sound name w w' s e = elim (Option-cases (get_by_name w.operator.task_queues name)) [
      | inl f ↦ (let same : w ≡ w' = ground (arith, e, f) in subst SoundWorld same s)
      | inr (q, f) ↦ by_context q f q.context refl
    ]
      where
        by_context :
            (q : TaskQueue)
            → get_by_name w.operator.task_queues name ≡ some q
            → (c : Context) → q.context ≡ c
            → SoundWorld w'
        by_context q f unset c = ground (arith, e, f, c)
        by_context q f done c =
            let stopped_w : World F C =
              turned set at name (stopped (record q { status = Status.stop })) w in
            let same : stopped_w ≡ w' = ground (arith, e, f, c) in
            subst SoundWorld same
              (turned-Sound name (stopped (record q { status = Status.stop })) w s)
        by_context q f live c = elim (Option-cases (get_first q)) [
          | inl g ↦ (let same : w ≡ w' = ground (arith, e, f, c, g) in subst SoundWorld same s)
          | inr (t, g) ↦
              (let whole : (string q >>= λ shown.
              task_handler set at t w >>= after_task set at name t)
                    ≡ ok w' =
                  ground (arith, e, f, c, g) in
                let (shown, made, bound) =
                  >>=-eq-ok (string q)
                    (λ shown. task_handler set at t w >>= after_task set at name t) whole in
                let (r, h, k) =
                  >>=-eq-ok (task_handler set at t w) (after_task set at name t) bound in
                after_task-Sound name t r w' (task_handler-Sound t w r s h) k)
        ]

    handle_kube_event-Sound :
        (ev : KubeEvent) (w w' : World F C)
        → SoundWorld w
        → handle_kube_event set at ev w ≡ ok w'
        → SoundWorld w'
    unfolding handle_kube_event
    handle_kube_event-Sound ev w w' s e =
        let (shown, made, rest) = >>=-eq-ok (kube_event_text ev) _ e in
        let (infos, f, g) =
          >>=-eq-ok
            (kube_events_of set.filters set.client w.monitors w.hooks ev
              (or_nil set at (get_hooks_in_order set.sort w.hooks kubernetes)))
            _ rest in
        let same : queued set at (event_tasks set at kubernetes 0 infos) w ≡ w' =
          ground (arith, g) in
        subst SoundWorld same s

    handle_schedule_event-Sound :
        (spec : String) (w w' : World F C)
        → SoundWorld w
        → handle_schedule_event set at spec w ≡ ok w'
        → SoundWorld w'
    unfolding handle_schedule_event
    handle_schedule_event-Sound spec w w' s e =
        let (infos, f, g) =
          >>=-eq-ok
            (schedule_events_of set.filters set.client w.monitors w.hooks spec
              (or_nil set at (get_hooks_in_order set.sort w.hooks schedule)))
            _ e in
        let same : queued set at (event_tasks set at schedule 0 infos) w ≡ w' = ground (arith, g) in
        subst SoundWorld same s

  -- The informers change no id.
  informers-Sound :
      (w : World F C) (mgr : Manager)
      → SoundWorld w
      → Same w.monitors mgr
      → SoundWorld (record w { monitors = mgr })
  informers-Sound w mgr s same = record {
    known = s.known;
    linked = λ name h c f g.
        Linked-More c.binding_monitor_links w.monitors mgr (λ id k. same id ∙ k)
          (s.linked name h c f g);
  }

  Step-Sound : (w w' : World F C) → Step w w' → SoundWorld w → SoundWorld w'
  Step-Sound w w' (kube_event at ev e) s = handle_kube_event-Sound at ev w w' s e
  Step-Sound w w' (crontab at spec e) s = handle_schedule_event-Sound at spec w w' s e
  Step-Sound w w' (worker at name e) s = queue_turn-Sound at name w w' s e
  Step-Sound w w' (informers mgr same) s = informers-Sound w mgr s same

  pub Steps-Sound : (w w' : World F C) → Steps w w' → SoundWorld w → SoundWorld w'
  Steps-Sound w w' here s = s
  Steps-Sound w w' (then {v = v} step steps) s = Steps-Sound v w' steps (Step-Sound w v step s)
