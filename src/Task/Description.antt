-- ===== src/Task/Description.antt =====
-- The descriptions of tasks of shell-operator/pkg/task/task.go and of their metadata of
-- shell-operator/pkg/hook/task_metadata/task_metadata.go. A text is the list of the pieces that
-- are written one behind the other, so that numbers and durations keep their values.
use argodemo.Common.{ℕ, String, List, [], ◌∷◌, ◌++◌, none, some, if◌then◌else◌, ◌==◌, nat_eq}
use argodemo.Task.{Task, TaskType, HookMetadata}
use argodemo.Task.Context.{BindingType}

-- `%s` of a text, `%d`, `%2d`, `%10.10s` and the text of a duration.
pub data Piece : Type 0 where
  lit clipped : String → Piece
  number padded duration : ℕ → Piece

abbrev pub task_type_text : TaskType → String
task_type_text TaskType.hook_run = "HookRun"
task_type_text TaskType.enable_kubernetes_bindings = "EnableKubernetesBindings"
task_type_text TaskType.enable_schedule_bindings = "EnableScheduleBindings"

abbrev pub binding_type_text : BindingType → String
binding_type_text BindingType.schedule = "schedule"
binding_type_text BindingType.on_startup = "onStartup"
binding_type_text BindingType.kubernetes = "kubernetes"
binding_type_text BindingType.unset = ""

unfoldable pub metadata_description : HookMetadata → List Piece
metadata_description m =
    let group : List Piece = if m.group == "" then [] else lit ":group=" ∷ lit m.group ∷ [] in
    let binding : List Piece = if m.binding == "" then [] else lit ":" ∷ lit m.binding ∷ [] in
    (lit (binding_type_text m.binding_type) ∷ lit ":" ∷ lit m.hook_name ∷ []) ++ group ++ binding

unfoldable pub get_description : Task → List Piece
unfolding metadata_description
get_description t =
    let metadata : List Piece = elim t.metadata [
      | none ↦ []
      | some m ↦ lit ":" ∷ metadata_description m
    ] in
    let message : List Piece =
      if t.failure_message == "" then [] else lit ":" ∷ lit t.failure_message ∷ [] in
    let failures : List Piece =
      if nat_eq t.failure_count 0
      then []
      else lit ":failures " ∷ number t.failure_count ∷ message in
    (lit (task_type_text t.type) ∷ lit ":" ∷ lit t.queue_name ∷ []) ++ metadata ++ failures
