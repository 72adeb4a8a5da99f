-- ===== src/Queue/Set/Wait.antt =====
-- `WaitStopWithTimeout` of shell-operator/pkg/task/queue/queue_set.go.
use argodemo.Common.{
  ◌≡◌, refl, ◌&&◌, inl, inr, Bool, true, false, List, [], ◌∷◌, Option, some, none, arith,
  if◌then◌else◌, Bool-cases, any, Dict,
}
use argodemo.Queue.{TaskQueue, Status}
use argodemo.Queue.Set.{TaskQueueSet}

-- The test of `WaitStopWithTimeout`.
is_stop : Status → Bool
is_stop Status.stop = true
is_stop _ = false

all_stopped_in : Dict TaskQueue → Bool
all_stopped_in [] = true
all_stopped_in ((k, q) ∷ qs) = is_stop q.status && all_stopped_in qs

unfoldable pub all_stopped : TaskQueueSet → Bool
unfolding all_stopped_in is_stop
all_stopped tqs = all_stopped_in tqs.queues

-- What `WaitStopWithTimeout` waits for: a tick of a tenth of a second, at which the queues are
-- looked at as they are then, or the timeout.
pub data Tick : Type 0 where
  check : TaskQueueSet → Tick
  timeout : Tick

-- The ticks that are left when it returns, or `none` while it waits.
unfoldable pub wait_stop_with_timeout : List Tick → Option (List Tick)
wait_stop_with_timeout [] = none
wait_stop_with_timeout (timeout ∷ ts) = some ts
wait_stop_with_timeout (check tqs ∷ ts) =
    if all_stopped tqs then some ts else wait_stop_with_timeout ts

abbrev is_timeout : Tick → Bool
is_timeout timeout = true
is_timeout (check tqs) = false

-- It returns once the timeout fires, whatever the queues do.
wait_stop_with_timeout-Returns :
    (ts : List Tick)
    → any is_timeout ts ≡ true
    → (later : List Tick) × (wait_stop_with_timeout ts ≡ some later)
unfolding wait_stop_with_timeout
wait_stop_with_timeout-Returns [] h = absurd (ground (arith, h))
wait_stop_with_timeout-Returns (timeout ∷ ts) h = (ts, refl)
wait_stop_with_timeout-Returns (check tqs ∷ ts) h = elim (Bool-cases (all_stopped tqs)) [
  | inl e ↦ (ts, rw e refl)
  | inr e ↦ let (later, r) = wait_stop_with_timeout-Returns ts h in (later, rw e r)
]
