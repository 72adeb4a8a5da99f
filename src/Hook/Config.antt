-- ===== src/Hook/Config.antt =====
-- shell-operator/pkg/hook/hook_config.go: the effective configuration of a hook. The texts of
-- errors are constructors; loading YAML and the schema validation before it are left out.
pub mod Checks
pub mod Groups
pub mod Version0
pub mod Version1
pub mod Includes
pub mod Load
use argodemo.Common.{
  ℕ, ◌≡◌, ◌⊎◌, inl, inr, refl, String, Bool, true, false, not, ◌&&◌, List, [], ◌∷◌, ◌++◌, Option,
  none, some, if◌then◌else◌, ◌==◌,
}
use argodemo.Kube.Monitor.{LabelSelector}
use argodemo.Task.Context.{BindingType, schedule, on_startup, kubernetes}
use argodemo.Hook.Bindings.{ScheduleConfig, OnKubernetesEventConfig}

pub record OnStartupConfig (F : Type 0) : Type 0 where
  pub binding_name : String
  pub allow_failure : Bool
  pub order : F

-- `F` is the type of floating-point numbers, which are only passed on here.
pub record HookConfig (F : Type 0) : Type 0 where
  pub version : String
  pub on_startup : Option (OnStartupConfig F)
  pub schedules : List ScheduleConfig
  pub on_kubernetes_events : List OnKubernetesEventConfig

-- An untyped value of the raw configuration.
pub data RawValue (F : Type 0) : Type 0 where
  null not_a_number : RawValue F
  number : F → RawValue F

pub data CheckError : Type 0 where
  crontab_is_invalid api_version_is_invalid label_selector_is_invalid field_selector_is_invalid :
      CheckError
  mutually_exclusive : CheckError
  binding_name_not_found : String → CheckError
  repeated_binding_name : ℕ → String → CheckError

pub data ConfigError : Type 0 where
  unsupported_value : ConfigError
  unsupported_event : String → ConfigError
  invalid_schedule invalid_kubernetes : ℕ → List CheckError → ConfigError
  invalid_include_snapshots : ℕ → List CheckError → ConfigError

pub data Checked {ℓ} (A : Type ℓ) : Type ℓ where
  valid : A → Checked A
  invalid : ConfigError → Checked A

abbrev pub and_then {ℓ κ} : {A : Type ℓ} {B : Type κ} → Checked A → (A → Checked B) → Checked B
and_then (valid a) f = f a
and_then (invalid e) f = invalid e

pub and_then-valid {ℓ κ} :
    {A : Type ℓ} {B : Type κ} (m : Checked A) (f : A → Checked B) {b : B}
    → and_then m f ≡ valid b
    → (a : A) × (m ≡ valid a) × (f a ≡ valid b)
and_then-valid (valid a) f h = (a, refl, h)
and_then-valid (invalid e) f h = cc

pub Checked-cases {ℓ} :
    {A : Type ℓ} (m : Checked A) → ((a : A) × (m ≡ valid a)) ⊎ ((e : ConfigError) × (m ≡ invalid e))
Checked-cases (valid a) = inl (a, refl)
Checked-cases (invalid e) = inr (e, refl)

-- The parsers of the libraries, a random id for the binding of an index, and the debug name of
-- a binding, which is formatted from its name and index.
pub record Library : Type 0 where
  pub parses_crontab : String → Bool
  pub parses_group_version : String → Bool
  pub formats_label_selector : LabelSelector → Bool
  pub monitor_id : ℕ → String
  pub schedule_id : ℕ → String
  pub monitor_debug_name : String → ℕ → String

abbrev pub or_default : String → String → String
or_default default name = if name == "" then default else name

abbrev pub nonempty {ℓ} : {A : Type ℓ} → List A → Bool
nonempty [] = false
nonempty (x ∷ xs) = true

module _ {F : Type 0} where
  unfoldable pub has_binding : HookConfig F → BindingType → Bool
  has_binding c on_startup = elim c.on_startup [ none ↦ false | some s ↦ true ]
  has_binding c schedule = nonempty c.schedules
  has_binding c kubernetes = nonempty c.on_kubernetes_events
  has_binding c BindingType.unset = false

  abbrev kept : HookConfig F → List BindingType → List BindingType
  kept c [] = []
  kept c (b ∷ bs) = if has_binding c b then b ∷ kept c bs else kept c bs

  unfoldable pub bindings : HookConfig F → List BindingType
  bindings c = kept c (on_startup ∷ schedule ∷ kubernetes ∷ [])

  unfoldable pub convert_on_startup : RawValue F → Checked (Option (OnStartupConfig F))
  convert_on_startup null = valid none
  convert_on_startup not_a_number = invalid unsupported_value
  convert_on_startup (number f) =
      valid (some (record { binding_name = "onStartup"; allow_failure = false; order = f }))
