-- ===== src/Hook/Config/Load.antt =====
-- shell-operator/pkg/hook/config/versioned_untyped.go, with `LoadAndValidate` and
-- `ConvertAndCheck` of shell-operator/pkg/hook/hook_config.go: a configuration from its text.
use argodemo.Common.{
  ◌≡◌, ◌⊎◌, inl, inr, arith, String, Bool, true, false, not, Option, none, some, if◌then◌else◌,
  ◌==◌, eq_iff, Dict, lookup, Option-cases, Bool-cases, sym, subst, ◌≢◌,
}
use argodemo.Hook.Config.{
  HookConfig, ConfigError, Checked, valid, invalid, Library, Checked-cases, convert_on_startup,
}
use argodemo.Hook.Config.Version0.{
  HookConfigV0, convert_and_check_v0, convert_all_v0, convert_schedules_v0,
}
use argodemo.Hook.Config.Version1.{
  HookConfigV1, convert_and_check_v1, convert_all_v1, check_all_includes, convert_schedules_v1,
}

-- A value of the map into which YAML is unmarshalled.
pub data Untyped : Type 0 where
  null other : Untyped
  text : String → Untyped

-- The YAML library, and the validation of a map by the schema of a version. `none` is an error.
pub record Loader (F : Type 0) : Type 0 where
  pub unmarshal : String → Option (Dict Untyped)
  pub unmarshal_v0 : String → Option (HookConfigV0 F)
  pub unmarshal_v1 : String → Option (HookConfigV1 F)
  pub validates : String → Dict Untyped → Bool

pub data LoadError : Type 0 where
  config_unmarshal config_version schema_validation unmarshal_hook_config : LoadError
  version_unsupported : LoadError
  not_valid : ConfigError → LoadError

pub data Loaded (F : Type 0) : Type 0 where
  loaded : HookConfig F → Loaded F
  failed : LoadError → Loaded F

-- The keys of `Schemas`.
unfoldable pub has_schema : String → Bool
has_schema version = if version == "v1" then true else version == "v0"

-- The value, whether it is found, and whether there is an error.
unfoldable pub get_string : Dict Untyped → String → String × Bool × Bool
get_string obj key = elim (lookup key obj) [
  | none ↦ ("", false, false)
  | some null ↦ ("", true, true)
  | some other ↦ ("", true, true)
  | some (text value) ↦ (value, true, false)
]

-- `VersionValidator` of the default.
unfoldable pub version_validator : String → Bool → Option String
unfolding has_schema
version_validator orig_ver found =
    let new_ver = if not found then "v0" else orig_ver in
    if has_schema new_ver then some new_ver else none

unfoldable pub load_config_version : Dict Untyped → Option String
unfolding get_string version_validator
load_config_version obj =
    let (value, found, err) = get_string obj "configVersion" in
    if err then none else version_validator value found

module _ {F : Type 0} (lib : Library) (loader : Loader F) where
  abbrev checked : Checked (HookConfig F) → Loaded F
  checked (valid c) = loaded c
  checked (invalid e) = failed (not_valid e)

  unfoldable pub convert_and_check : String → String → Loaded F
  convert_and_check version content =
      if version == "v0"
      then (elim (loader.unmarshal_v0 content) [
        | none ↦ failed unmarshal_hook_config
        | some c ↦ checked (convert_and_check_v0 lib c)
      ])
      else if version == "v1"
      then (elim (loader.unmarshal_v1 content) [
        | none ↦ failed unmarshal_hook_config
        | some c ↦ checked (convert_and_check_v1 lib c)
      ])
      else failed version_unsupported

  unfoldable pub load_and_validate : String → Loaded F
  unfolding load_config_version convert_and_check
  load_and_validate content = elim (loader.unmarshal content) [
    | none ↦ failed config_unmarshal
    | some obj ↦ (elim (load_config_version obj) [
      | none ↦ failed config_version
      | some version ↦
          (if loader.validates version obj
            then convert_and_check version content
            else failed schema_validation)
    ])
  ]

-- The version that a configuration declares: a missing key is for the legacy version.
abbrev pub Declares : Dict Untyped → String → Type 0
Declares obj version =
    ((lookup "configVersion" obj ≡ none) × (version ≡ "v0"))
    ⊎ (lookup "configVersion" obj ≡ some (text version))

load_config_version-Declares :
    (obj : Dict Untyped) (version : String)
    → load_config_version obj ≡ some version
    → Declares obj version × (has_schema version ≡ true)
unfolding load_config_version get_string version_validator
load_config_version-Declares obj version h = elim (Option-cases (lookup "configVersion" obj)) [
  | inl e ↦ (inl (e, ground (arith, e, h)), ground (arith, e, h))
  | inr (null, e) ↦ ground (arith, e, h)
  | inr (other, e) ↦ ground (arith, e, h)
  | inr (text v, e) ↦
      (let same : v ≡ version = ground (arith, e, h) in
        (inr (ground (arith, e, same)), ground (arith, e, h)))
]

module _ {F : Type 0} (lib : Library) (loader : Loader F) where
  convert_and_check_v0-version :
      (raw : HookConfigV0 F) (c : HookConfig F)
      → convert_and_check_v0 lib raw ≡ valid c
      → c.version ≡ "v0"
  unfolding convert_and_check_v0
  convert_and_check_v0-version raw c h = elim (Checked-cases (convert_on_startup raw.on_startup)) [
    | inr (err, e) ↦ ground (arith, e, h)
    | inl (startup, e) ↦ (elim (Checked-cases (convert_schedules_v0 lib 0 raw.schedule)) [
      | inr (err, f) ↦ ground (arith, e, f, h)
      | inl (schedules, f) ↦ (elim (Checked-cases (convert_all_v0 lib 0 raw.on_kubernetes_event)) [
        | inr (err, g) ↦ ground (arith, e, f, g, h)
        | inl (events, g) ↦ ground (arith, e, f, g, h)
      ])
    ])
  ]

  convert_and_check_v1-version :
      (raw : HookConfigV1 F) (c : HookConfig F)
      → convert_and_check_v1 lib raw ≡ valid c
      → c.version ≡ "v1"
  unfolding convert_and_check_v1
  convert_and_check_v1-version raw c h = elim (Checked-cases (convert_on_startup raw.on_startup)) [
    | inr (err, e) ↦ ground (arith, e, h)
    | inl (startup, e) ↦ (elim (Checked-cases (convert_all_v1 lib 0 raw.on_kubernetes_event)) [
      | inr (err, f) ↦ ground (arith, e, f, h)
      | inl (events, f) ↦
          (elim (Option-cases (check_all_includes lib events 0 raw.on_kubernetes_event)) [
            | inr (err, g) ↦ ground (arith, e, f, g, h)
            | inl g ↦ (elim (Checked-cases (convert_schedules_v1 lib events 0 raw.schedule)) [
              | inr (err, k) ↦ ground (arith, e, f, g, k, h)
              | inl (schedules, k) ↦ ground (arith, e, f, g, k, h)
            ])
          ])
    ])
  ]

  checked-loaded :
      (r : Checked (HookConfig F)) (c : HookConfig F)
      → checked lib loader r ≡ loaded c
      → r ≡ valid c
  checked-loaded (valid d) c h = ground (arith, h)
  checked-loaded (invalid e) c h = ground (arith, h)

  convert_and_check-version :
      (version content : String) (c : HookConfig F)
      → has_schema version ≡ true
      → convert_and_check lib loader version content ≡ loaded c
      → c.version ≡ version
  unfolding convert_and_check has_schema
  convert_and_check-version version content c s h = elim (Bool-cases (version == "v0")) [
    | inl e ↦ (elim (Option-cases (loader.unmarshal_v0 content)) [
      | inl f ↦ ground (arith, e, f, h)
      | inr (raw, f) ↦
          (let r : checked lib loader (convert_and_check_v0 lib raw) ≡ loaded c =
              ground (arith, e, f, h) in
            ground (
              arith,
              e,
              eq_iff version "v0",
              convert_and_check_v0-version raw c (checked-loaded _ c r),
            ))
    ])
    | inr e ↦ (elim (Option-cases (loader.unmarshal_v1 content)) [
      | inl f ↦ ground (arith, e, f, s, h)
      | inr (raw, f) ↦
          (let r : checked lib loader (convert_and_check_v1 lib raw) ≡ loaded c =
              ground (arith, e, f, s, h) in
            ground (
              arith,
              e,
              s,
              eq_iff version "v1",
              convert_and_check_v1-version raw c (checked-loaded _ c r),
            ))
    ])
  ]

  checked-supported :
      (r : Checked (HookConfig F)) → checked lib loader r ≢ failed version_unsupported
  checked-supported (valid c) h = ground (arith, h)
  checked-supported (invalid e) h = ground (arith, h)

  convert_and_check-supported :
      (version content : String)
      → has_schema version ≡ true
      → convert_and_check lib loader version content ≢ failed version_unsupported
  unfolding convert_and_check has_schema
  convert_and_check-supported version content s h = elim (Bool-cases (version == "v0")) [
    | inl e ↦ (elim (Option-cases (loader.unmarshal_v0 content)) [
      | inl f ↦ ground (arith, e, f, h)
      | inr (raw, f) ↦ checked-supported (convert_and_check_v0 lib raw) (ground (arith, e, f, h))
    ])
    | inr e ↦ (elim (Option-cases (loader.unmarshal_v1 content)) [
      | inl f ↦ ground (arith, e, f, s, h)
      | inr (raw, f) ↦ checked-supported (convert_and_check_v1 lib raw) (ground (arith, e, f, s, h))
    ])
  ]

  -- A configuration that is loaded has the version that its text declares, and satisfies the
  -- schema of that version.
  pub load_and_validate-version :
      (content : String) (c : HookConfig F)
      → load_and_validate lib loader content ≡ loaded c
      → (obj : Dict Untyped) × (loader.unmarshal content ≡ some obj)
        × Declares obj c.version
        × (loader.validates c.version obj ≡ true)
  unfolding load_and_validate
  load_and_validate-version content c h = elim (Option-cases (loader.unmarshal content)) [
    | inl e ↦ ground (arith, e, h)
    | inr (obj, e) ↦ (elim (Option-cases (load_config_version obj)) [
      | inl f ↦ ground (arith, e, f, h)
      | inr (version, f) ↦ (elim (Bool-cases (loader.validates version obj)) [
        | inr g ↦ ground (arith, e, f, g, h)
        | inl g ↦
            (let (declared, known) = load_config_version-Declares obj version f in
              let done : convert_and_check lib loader version content ≡ loaded c =
                ground (arith, e, f, g, h) in
              let same : version ≡ c.version =
                sym (convert_and_check-version version content c known done) in
              (
                obj,
                e,
                subst (Declares obj) same declared,
                subst (λ v. loader.validates v obj ≡ true) same g,
              ))
      ])
    ])
  ]

  -- The text of a configuration never ends in the error that its version is unsupported after
  -- the version is checked.
  pub load_and_validate-supported :
      (content : String) → load_and_validate lib loader content ≢ failed version_unsupported
  unfolding load_and_validate
  load_and_validate-supported content h = elim (Option-cases (loader.unmarshal content)) [
    | inl e ↦ ground (arith, e, h)
    | inr (obj, e) ↦ (elim (Option-cases (load_config_version obj)) [
      | inl f ↦ ground (arith, e, f, h)
      | inr (version, f) ↦ (elim (Bool-cases (loader.validates version obj)) [
        | inr g ↦ ground (arith, e, f, g, h)
        | inl g ↦
            convert_and_check-supported version content
              (load_config_version-Declares obj version f).1 (ground (arith, e, f, g, h))
      ])
    ])
  ]
