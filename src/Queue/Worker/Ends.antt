-- ===== src/Queue/Worker/Ends.antt =====
-- The loop of `waitForTask` of task_queue.go ends once its context is cancelled.
use argodemo.Common.{
  ℕ, ◌≡◌, ◌≢◌, refl, arith, Bool, true, false, List, [], ◌∷◌, ◌++◌, if◌then◌else◌, none, not, ◌&&◌,
  nat_eq,
}
use argodemo.Queue.{
  TaskQueue, Slot, Status, Context, add_last, is_empty, get_first, stop_queue, live, done, unset,
}
use argodemo.Queue.Worker.{
  Event, delay_fires, done_fires, second_fires, adds, stops, Waited, got, wait_loop, wait_for_task,
  on_context,
}

abbrev Returns : Waited → Type 0
Returns w = (s : Slot) × (q : TaskQueue) × (w ≡ got s q)

Returns-if : (b : Bool) (v w : Waited) → Returns v → Returns w → Returns (if b then v else w)
Returns-if true v w r s = r
Returns-if false v w r s = s

Returns-context :
    (c : Context) (q : TaskQueue) (w : Waited) → c ≢ unset → Returns w → Returns (on_context c q w)
Returns-context done q w set r = (none, q, refl)
Returns-context live q w set r = r
Returns-context unset q w set r = absurd (set refl)

-- A cancelled context stays cancelled, and its channel is ready.
done-Returns :
    (es rest : List Event) (orig : Status) (delay : ℕ) (q : TaskQueue)
    → q.context ≡ done
    → Returns (wait_loop (es ++ done_fires ∷ rest) orig delay q)
unfolding wait_loop add_last stop_queue
done-Returns [] rest orig delay q e = (none, q, ground (arith, e))
done-Returns (delay_fires ∷ es) rest orig delay q e =
    Returns-if (is_empty q) _ _ (done-Returns es rest orig 0 q e) (get_first q, q, refl)
done-Returns (done_fires ∷ es) rest orig delay q e = (none, q, ground (arith, e))
done-Returns (second_fires n ∷ es) rest orig delay q e = done-Returns es rest orig delay _ e
done-Returns (adds t ∷ es) rest orig delay q e = done-Returns es rest orig delay _ e
done-Returns (stops ∷ es) rest orig delay q e =
    done-Returns es rest orig delay (stop_queue q) (ground (arith, e))

stop_queue-done : (q : TaskQueue) → q.context ≢ unset → (stop_queue q).context ≡ done
unfolding stop_queue
stop_queue-done q set = ground (arith, set)

stops-Returns :
    (es between rest : List Event) (orig : Status) (delay : ℕ) (q : TaskQueue)
    → q.context ≢ unset
    → Returns (wait_loop (es ++ stops ∷ (between ++ done_fires ∷ rest)) orig delay q)
unfolding wait_loop add_last
stops-Returns [] between rest orig delay q set =
    done-Returns between rest orig delay (stop_queue q) (stop_queue-done q set)
stops-Returns (delay_fires ∷ es) between rest orig delay q set =
    Returns-if (is_empty q) _ _ (stops-Returns es between rest orig 0 q set) (get_first q, q, refl)
stops-Returns (done_fires ∷ es) between rest orig delay q set =
    Returns-context q.context q _ set (stops-Returns es between rest orig delay q set)
stops-Returns (second_fires n ∷ es) between rest orig delay q set =
    stops-Returns es between rest orig delay _ set
stops-Returns (adds t ∷ es) between rest orig delay q set =
    stops-Returns es between rest orig delay _ set
stops-Returns (stops ∷ es) between rest orig delay q set =
    stops-Returns es between rest orig delay (stop_queue q)
      (λ u. ground (arith, u, stop_queue-done q set))

-- The wait for a task ends: whatever else happens before, between and after, once the queue's
-- context, which was set, is cancelled and its channel is picked, `waitForTask` has returned.
pub wait_for_task-Returns :
    (es between rest : List Event) (delay : ℕ) (q : TaskQueue)
    → q.context ≢ unset
    → (s : Slot) × (q' : TaskQueue) × (wait_for_task
          (es ++ stops ∷ (between ++ done_fires ∷ rest))
          delay
          q
        ≡ got s q')
unfolding wait_for_task
wait_for_task-Returns es between rest delay q set = Returns-context q.context q _ set (
    Returns-if (not (is_empty q) && nat_eq delay 0) _ _ (get_first q, q, refl)
      (stops-Returns es between rest q.status delay q set))
