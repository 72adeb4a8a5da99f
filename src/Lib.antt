-- ===== src/Lib.antt =====
-- The core of shell-operator, which runs shell hooks on events of a Kubernetes cluster: the Go
-- code under shell-operator/pkg.
--
-- How the program works. Each hook has a configuration with bindings. A binding to Kubernetes
-- objects becomes a monitor with informers, whose events go to a channel, as the ticks of
-- crontabs do. For each event the hook manager asks the controllers of the hooks what to run; the
-- answers become tasks at the tails of named queues. A worker for each queue hands the head task
-- to the operator's handler, which runs the hook with the binding contexts of the task, merged
-- with those of the tasks behind it, and sends the metrics that the hook wrote. A task that fails
-- stays at the head and is tried again after a delay that grows.
--
-- The files, with the directories of shell-operator/pkg that they are about:
--   Common      shared tests, lists, dictionaries and code that panics
--   Kube        kube_events_manager: Types (types/types.go), Monitor (monitor_config.go), Informer
--               (resource_informer.go, filter.go), NamespaceInformer (namespace_informer.go),
--               Context (Go's contexts), MonitorState (monitor.go), Resync (util.go), Manager
--               (kube_events_manager.go), Order (the order of objects in types/types.go),
--               EventText (the text of an event)
--   Task        task/task.go and hook/task_metadata, with their texts in Description; Context:
--               hook/binding_context
--   Backoff     the delay before a retry, by the number of failures
--   Queue       task/queue: task_queue.go, its worker in Handle and Worker, queue_set.go in Set; the
--               queue as the list of its tasks in Refinement; the texts of queues in Dump
--               (task/dump/dump.go)
--   Metrics     metric_storage: Operation, Vault, Storage and Vectors
--   Schedule    schedule_manager
--   Hook        hook: Bindings, Schedules and Kubernetes (controller), Config (hook_config.go, and
--               config/versioned_untyped.go in its Load), Manager (hook_manager.go), Controller
--               (hook_controller.go), Run (hook.go), Init (hook_manager.go)
--   Operator    shell-operator: Combine, HookRun and Enable (operator.go, the handlers of tasks),
--               Legacy (the way of an event to a v0 hook),
--               Events (operator.go, manager_events_handler.go), Startup (operator.go), Handler and
--               System (operator.go: the handlers put together, and the steps of a running
--               operator)
--
-- How code corresponds to definitions. A struct is a record with the words of the source in snake
-- case, and a method a function of the same name from the state to the state. A Go string type
-- with constants is a data type, and `unset` its empty string. A nil pointer is `none`. A map is
-- an association list, whose order is one of those in which Go ranges over it. An error is `none`
-- or a constructor, and a panic, as by a nil pointer, is the `panic` of `Outcome`. Pointers to a
-- task are found again in a queue by the task's id, which is a random UUID and an argument here,
-- as are times. Numbers are natural numbers without a bound, but for the counters of metrics, whose
-- addition wraps at 2 ^ 64: no other number of the modelled code comes near the end of a machine
-- word. Floating-point numbers are a type parameter.
--
-- Loops are recursion on the lists they range over. The wait of a worker for a task runs on the
-- list of the events of its timers and its queue, and the loop of a queue on the list of the
-- results of its handler, so that no fuel is needed.
--
-- Contexts of Go are numbers with those of their ancestors, and a context is done when one of them
-- is cancelled. An informer runs when it is started and its context is not done. A running operator
-- is a relation of steps between worlds: an event of a manager, a turn of a queue, a change that
-- informers make; goroutines that take turns are steps in any order.
--
-- What is not modelled: locks, logs, channels and time metrics; the files and the process of a
-- hook, YAML and its schemas, which are parameters; the construction of the operator from flags,
-- the debug server, and the HTTP handler of the metrics, which is input and output. The Kubernetes
-- client, cron, jq, Prometheus, sorting and hashing are parameters: the records `Client`,
-- `Filters`, `Cron`, `Library`, `Prometheus`, `Loader`, `Process` and `HookFiles`.
pub mod Common
pub mod Kube
pub mod Task
pub mod Backoff
pub mod Queue
pub mod Metrics
pub mod Schedule
pub mod Hook
pub mod Operator
