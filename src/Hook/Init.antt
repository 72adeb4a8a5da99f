-- ===== src/Hook/Init.antt =====
-- `Init` and `loadHook` of shell-operator/pkg/hook/hook_manager.go: the hooks of a directory and
-- their indexes. The labels for logs and metrics are left out.
pub mod Indexes
use argodemo.Common.{
  ◌≡◌, refl, sym, ap, ◌∙◌, subst, arith, ℕ, String, Bool, true, false, List, [], ◌∷◌, ◌++◌,
  append-nil, append_assoc, keep, keep-append, map, All, All-append, Option, none, some,
  if◌then◌else◌, ◌==◌, Dict, lookup, insert, has_key, has_key-insert, has_key-lookup, Option-cases,
  Bool-cases, inl, inr,
}
use argodemo.Task.Context.{BindingType, on_startup, schedule, kubernetes}
use argodemo.Hook.Config.{HookConfig, Library, has_binding, bindings}
use argodemo.Hook.Config.Load.{Loader, Loaded, loaded, failed, load_and_validate}
use argodemo.Hook.Manager.{Hook, HookManager, init_kubernetes_bindings, init_schedule_bindings}

-- The file system, the processes and the random ids: the executable files of a directory, the name
-- of a hook by its path, what it prints with `--config`, and the ids that are made for the bindings
-- of a hook while its file is loaded, by path and index. `none` is an error. `sort` is
-- `sort.Strings`.
pub record HookFiles : Type 0 where
  pub executable_paths : String → Option (List String)
  pub relative : String → String → Option String
  pub config_output : String → Option String
  pub sort : List String → List String
  pub monitor_ids : String → ℕ → String
  pub schedule_ids : String → ℕ → String

abbrev same_type : BindingType → BindingType → Bool
same_type BindingType.on_startup BindingType.on_startup = true
same_type BindingType.schedule BindingType.schedule = true
same_type BindingType.kubernetes BindingType.kubernetes = true
same_type BindingType.unset BindingType.unset = true
same_type _ _ = false

module _ {F : Type 0} where
  abbrev pub no_hooks : HookManager F
  no_hooks = record { hook_names_in_order = []; hooks_by_name = []; hooks_in_order = λ t. [] }

  -- The loop over the bindings of a hook.
  unfoldable pub index_bindings :
      Hook F → List BindingType → (BindingType → List (Hook F)) → BindingType → List (Hook F)
  index_bindings h [] index = index
  index_bindings h (b ∷ bs) index =
      index_bindings h bs (λ t. if same_type b t then index t ++ h ∷ [] else index t)

  unfoldable pub register_hook : Hook F → HookManager F → HookManager F
  unfolding index_bindings bindings
  register_hook h hm = record {
    hooks_in_order = index_bindings h (bindings h.config) hm.hooks_in_order;
    hooks_by_name = insert h.name h hm.hooks_by_name;
    hook_names_in_order = hm.hook_names_in_order ++ h.name ∷ [];
  }

module _ {F : Type 0} (lib : Library) (loader : Loader F) (files : HookFiles) (dir : String) where
  abbrev pub with_controllers : String → HookConfig F → Hook F
  with_controllers name c =
      init_schedule_bindings
        (init_kubernetes_bindings
          (record {
            name = name;
            config = c;
            kubernetes_controller = none;
            schedule_controller = none;
          })
          c.on_kubernetes_events)
        c.schedules

  -- Each hook has ids of its own.
  abbrev pub library_for : String → Library
  library_for path = record lib {
    monitor_id = files.monitor_ids path;
    schedule_id = files.schedule_ids path;
  }

  unfoldable pub load_hook : String → Option (Hook F)
  unfolding load_and_validate init_kubernetes_bindings init_schedule_bindings
  load_hook path = elim (files.relative dir path) [
    | none ↦ none
    | some name ↦ (elim (files.config_output path) [
      | none ↦ none
      | some output ↦ (elim (load_and_validate (library_for path) loader output) [
        | failed e ↦ none
        | loaded c ↦ some (with_controllers name c)
      ])
    ])
  ]

  -- True is an error; the hooks before it are registered.
  unfoldable pub init_each : List String → HookManager F → Bool × HookManager F
  unfolding load_hook register_hook
  init_each [] hm = (false, hm)
  init_each (path ∷ paths) hm = elim (load_hook path) [
    | none ↦ (true, hm)
    | some h ↦ init_each paths (register_hook h hm)
  ]

  unfoldable pub init_hooks : Bool × HookManager F
  unfolding init_each
  init_hooks = elim (files.executable_paths dir) [
    | none ↦ (true, no_hooks)
    | some paths ↦ init_each (files.sort paths) no_hooks
  ]

  -- The hooks of the paths, if each of them is loaded.
  pub load_all : List String → Option (List (Hook F))
  load_all [] = some []
  load_all (path ∷ paths) = elim (load_hook path) [
    | none ↦ none
    | some h ↦ (elim (load_all paths) [ none ↦ none | some hs ↦ some (h ∷ hs) ])
  ]
