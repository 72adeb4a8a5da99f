-- ===== src/Hook/LoadTests.antt =====
-- A directory with one hook, and the theorems about loading and running hooks applied.
use argodemo.Common.{
  ℕ, ◌≡◌, refl, String, true, false, ◌++◌, any, none, if◌then◌else◌, ◌==◌, List, [], ◌∷◌, some,
  lookup, Dict,
}
use argodemo.Kube.Tests.{filters, client}
use argodemo.Task.Context.{BindingContext, no_context, no_metadata, kubernetes}
use argodemo.Hook.Tests.{lib, current, current_config, legacy, pods, nodes}
use argodemo.Hook.Config.Version1.{convert_and_check_v1}
use argodemo.Hook.Config.Load.{
  Untyped, text, Loader, loaded, load_and_validate, Declares, load_and_validate-version,
}
use argodemo.Hook.Manager.{Hook, HookManager}
use argodemo.Hook.Controller.{update_snapshots}
use argodemo.Hook.Controller.Refreshed.{by_kubernetes, holds, update_snapshots-Holds}
use argodemo.Hook.Bindings.{OnKubernetesEventConfig}
use argodemo.Hook.Kubernetes.{KubernetesBindingsController}
use argodemo.Kube.Manager.{Manager}
use argodemo.Kube.MonitorState.{new_monitor, get_existed_objects}
use argodemo.Hook.Init.{HookFiles, init_hooks, load_all}
use argodemo.Hook.Init.Indexes.{Indexed, init_hooks-Indexed}

abbrev raw : Dict Untyped
raw = ("configVersion", text "v1") ∷ []

abbrev pub loader : Loader ℕ
loader = record {
  unmarshal = λ content. some raw;
  unmarshal_v0 = λ content. some legacy;
  unmarshal_v1 = λ content. some current;
  validates = λ version obj. true;
}

current-loaded : load_and_validate lib loader "configVersion: v1" ≡ loaded current_config
unfolding load_and_validate convert_and_check_v1 lookup argodemo.Hook.Config.Checks.count_bindings
current-loaded = refl

load_and_validate-version_example :
    (obj : Dict Untyped) × (some raw ≡ some obj)
    × Declares obj "v1"
    × (loader.validates "v1" obj ≡ true)
load_and_validate-version_example =
    load_and_validate-version lib loader "configVersion: v1" current_config current-loaded

abbrev pub files : HookFiles
files = record {
  executable_paths = λ dir. some ("/hooks/h" ∷ []);
  relative = λ dir path. some "h";
  config_output = λ path. some "configVersion: v1";
  sort = λ paths. paths;
  monitor_ids = λ path. lib.monitor_id;
  schedule_ids = λ path. lib.schedule_id;
}

abbrev pub loaded_hook : Hook ℕ
loaded_hook = record {
  name = "h";
  config = current_config;
  kubernetes_controller = some (record {
    binding_monitor_links = [];
    kubernetes_bindings = current_config.on_kubernetes_events;
  });
  schedule_controller =
      some (record { schedule_links = []; schedule_bindings = current_config.schedules });
}

abbrev pub loaded_hooks : HookManager ℕ
loaded_hooks = (init_hooks lib loader files "/hooks").1

pub loaded_hooks-initialised : init_hooks lib loader files "/hooks" ≡ (false, loaded_hooks)
unfolding init_hooks load_and_validate convert_and_check_v1 lookup
    argodemo.Hook.Config.Checks.count_bindings
loaded_hooks-initialised = refl

init_hooks-Indexed_example :
    (paths : List String) × (some ("/hooks/h" ∷ []) ≡ some paths)
    × (hooks : List (Hook ℕ)) × (load_all lib loader files "/hooks" paths ≡ some hooks)
    × Indexed hooks loaded_hooks
init_hooks-Indexed_example =
    init_hooks-Indexed lib loader files "/hooks" loaded_hooks loaded_hooks-initialised

-- The first binding includes the snapshot of the second one.
abbrev including : OnKubernetesEventConfig
including = record pods { include_snapshots_from = "nodes" ∷ [] }

abbrev controller : KubernetesBindingsController
controller = record { binding_monitor_links = []; kubernetes_bindings = including ∷ nodes ∷ [] }

abbrev hook : Hook ℕ
hook = record loaded_hook { kubernetes_controller = some controller }

abbrev watching : Manager
watching = record { monitors = ("n", new_monitor nodes.monitor) ∷ []; removed = [] }

abbrev stale : BindingContext
stale = record no_context {
  binding = "pods";
  metadata = record no_metadata { binding_type = kubernetes };
  snapshots = ("old", []) ∷ [];
}

update_snapshots-Holds_example :
    (new : BindingContext) × (update_snapshots filters client watching hook
        (no_context ∷ stale ∷ [])
      ≡ update_snapshots filters client watching hook (no_context ∷ [])
        ++ new ∷ update_snapshots filters client watching hook [])
    × (record new { snapshots = [] } ≡ record stale { snapshots = [] })
    × (lookup "nodes" new.snapshots ≡ (
        if any (λ n. n == "nodes") ("nodes" ∷ [])
        then some (get_existed_objects filters client (new_monitor nodes.monitor))
        else none))
unfolding lookup
update_snapshots-Holds_example =
    update_snapshots-Holds filters client watching hook controller (no_context ∷ []) [] stale
      ("nodes" ∷ []) "nodes" (get_existed_objects filters client (new_monitor nodes.monitor)) refl
      (by_kubernetes controller [] (nodes ∷ []) including refl refl tt)
      (holds (including ∷ []) [] nodes (new_monitor nodes.monitor) refl refl refl tt)
