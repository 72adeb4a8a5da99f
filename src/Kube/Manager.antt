-- ===== src/Kube/Manager.antt =====
-- shell-operator/pkg/kube_events_manager/kube_events_manager.go: the monitors by their ids.
use argodemo.Common.{
  String, Bool, List, [], ◌∷◌, Option, none, some, Dict, lookup, insert, delete, has_key, Outcome,
  ok, panic,
}
use argodemo.Kube.Types.{KubeEvent, KubeEventMode, synchronization, event}
use argodemo.Kube.Monitor.{MonitorConfig}
use argodemo.Kube.Informer.{Filters}
use argodemo.Kube.MonitorState.{
  Client, Monitor, create_informers, get_existed_objects, start, stop, pause,
}

-- `removed` holds the monitors that `StopMonitor` has stopped: their informers may still run. The
-- context of the manager is never cancelled, and is the root.
pub record Manager : Type 0 where
  pub monitors : Dict Monitor
  pub removed : List Monitor

unfoldable pub has_monitor : Manager → String → Bool
has_monitor mgr id = has_key id mgr.monitors

unfoldable pub get_monitor : Manager → String → Option Monitor
get_monitor mgr id = lookup id mgr.monitors

-- A monitor that is missing is a nil interface, and its method call panics.
unfoldable pub start_monitor : Manager → String → Outcome Manager
unfolding start
start_monitor mgr id = elim (lookup id mgr.monitors) [
  | none ↦ panic
  | some m ↦ ok (record mgr { monitors = insert id (start [] m) mgr.monitors })
]

abbrev started : Dict Monitor → Dict Monitor
started [] = []
started ((k, m) ∷ ms) = (k, start [] m) ∷ started ms

unfoldable pub start_all : Manager → Manager
unfolding start
start_all mgr = record mgr { monitors = started mgr.monitors }

unfoldable pub stop_monitor : Manager → String → Manager
unfolding stop
stop_monitor mgr id = elim (lookup id mgr.monitors) [
  | none ↦ mgr
  | some m ↦ record mgr { monitors = delete id mgr.monitors; removed = stop m ∷ mgr.removed }
]

abbrev paused : Dict Monitor → Dict Monitor
paused [] = []
paused ((k, m) ∷ ms) = (k, pause m) ∷ paused ms

unfoldable pub pause_all : Manager → Manager
unfolding pause
pause_all mgr = record mgr { monitors = paused mgr.monitors }

module _ (env : Filters) (client : Client) where
  -- The event of an informer, or `none` for the first event of a new monitor.
  unfoldable pub make_kube_event : Monitor → Option KubeEvent → Option KubeEvent
  unfolding get_existed_objects
  make_kube_event m (some ev) = some (record ev { type = event })
  make_kube_event m none = elim m.config.mode [
    | KubeEventMode.v0 ↦ none
    | _ ↦ some (record {
      monitor_id = m.config.monitor_id;
      type = synchronization;
      watch_events = [];
      objects = get_existed_objects env client m;
    })
  ]

  -- The outer `none` is an error.
  unfoldable pub add_monitor : Manager → MonitorConfig → Option (Option KubeEvent × Manager)
  unfolding create_informers make_kube_event
  add_monitor mgr m = elim (create_informers env client m) [
    | none ↦ none
    | some monitor ↦ some (
      make_kube_event monitor none,
      record mgr { monitors = insert m.monitor_id monitor mgr.monitors },
    )
  ]
