-- ===== src/Hook/Bindings.antt =====
-- shell-operator/pkg/hook/types/bindings.go and the types of the binding controllers.
use argodemo.Common.{String, Bool, List}
use argodemo.Task.Context.{BindingContext}
use argodemo.Schedule.{ScheduleEntry}
use argodemo.Kube.Monitor.{MonitorConfig}

pub record ScheduleConfig : Type 0 where
  pub binding_name : String
  pub allow_failure : Bool
  pub schedule_entry : ScheduleEntry
  pub include_snapshots_from : List String
  pub queue : String
  pub group : String

pub record OnKubernetesEventConfig : Type 0 where
  pub binding_name : String
  pub allow_failure : Bool
  pub monitor : MonitorConfig
  pub include_snapshots_from : List String
  pub queue : String
  pub group : String
  pub execute_hook_on_synchronization : Bool
  pub wait_for_synchronization : Bool
  pub keep_full_objects_in_memory : Bool

-- What a task is made of. `IncludeAllSnapshots` is never set, and left out.
pub record BindingExecutionInfo : Type 0 where
  pub binding_context : List BindingContext
  pub include_snapshots : List String
  pub allow_failure : Bool
  pub queue_name : String
  pub binding : String
  pub group : String
  pub wait_for_synchronization : Bool
