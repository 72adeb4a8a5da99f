-- ===== src/Task.antt =====
-- shell-operator/pkg/task/task.go and shell-operator/pkg/hook/task_metadata/task_metadata.go.
pub mod Context
pub mod Description
use argodemo.Common.{
  ℕ, ◌+◌, String, Bool, false, List, [], ◌++◌, ◌∷◌, Option, none, some, Dict, insert,
}
use Context.{BindingContext, BindingType}

pub data TaskType : Type 0 where
  hook_run enable_kubernetes_bindings enable_schedule_bindings : TaskType

pub record HookMetadata : Type 0 where
  pub hook_name : String
  pub binding : String
  pub group : String
  pub binding_type : BindingType
  pub binding_context : List BindingContext
  pub allow_failure : Bool

-- A task holds hook metadata or none: no other type of metadata is made in the repository.
pub record Task : Type 0 where
  pub id : String
  pub type : TaskType
  pub log_labels : Dict String
  pub failure_count : ℕ
  pub failure_message : String
  pub queue_name : String
  pub queued_at : ℕ
  pub metadata : Option HookMetadata

-- The fresh id is an argument: it is a random UUID.
unfoldable pub new_task : String → TaskType → Task
new_task id type = record {
  id = id;
  type = type;
  log_labels = insert "task.id" id [];
  failure_count = 0;
  failure_message = "";
  queue_name = "";
  queued_at = 0;
  metadata = none;
}

abbrev pub no_hook_metadata : HookMetadata
no_hook_metadata = record {
  hook_name = "";
  binding = "";
  group = "";
  binding_type = BindingType.unset;
  binding_context = [];
  allow_failure = false;
}

-- `HookMetadataAccessor`: the zero value where the task has none.
unfoldable pub hook_metadata_accessor : Option HookMetadata → HookMetadata
hook_metadata_accessor none = no_hook_metadata
hook_metadata_accessor (some m) = m

unfoldable pub increment_failure_count : Task → Task
increment_failure_count t = record t { failure_count = t.failure_count + 1 }
