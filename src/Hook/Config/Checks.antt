-- ===== src/Hook/Config/Checks.antt =====
-- The checks of hook_config.go: `CheckIncludeSnapshots` and its count of binding names.
use argodemo.Common.{
  arith, ℕ, suc, ◌≡◌, ◌↔◌, refl, nat_eq, ltb, String, List, [], ◌∷◌, Option, none, some,
  if◌then◌else◌, ◌==◌, All,
}
use argodemo.Hook.Bindings.{OnKubernetesEventConfig}
use argodemo.Hook.Config.{CheckError, binding_name_not_found, repeated_binding_name}

unfoldable pub count_bindings : List OnKubernetesEventConfig → String → ℕ
count_bindings [] include = 0
count_bindings (b ∷ bs) include =
    if b.binding_name == include then suc (count_bindings bs include) else count_bindings bs include

-- The first include that is missing or repeated.
unfoldable pub check_include_snapshots :
    List OnKubernetesEventConfig → List String → Option CheckError
check_include_snapshots bs [] = none
check_include_snapshots bs (include ∷ rest) =
    let later = check_include_snapshots bs rest in
    if nat_eq (count_bindings bs include) 0
    then some (binding_name_not_found include)
    else if ltb 1 (count_bindings bs include)
    then some (repeated_binding_name (count_bindings bs include) include)
    else later

-- The includes are accepted exactly if each is the name of exactly one binding.
pub check_include_snapshots-count_bindings :
    (bs : List OnKubernetesEventConfig) (includes : List String)
    → (check_include_snapshots bs includes ≡ none)
      ↔ All (λ include. count_bindings bs include ≡ 1) includes
unfolding check_include_snapshots
check_include_snapshots-count_bindings bs includes = (there includes, back includes)
  where
    there :
        (is : List String)
        → check_include_snapshots bs is ≡ none
        → All (λ include. count_bindings bs include ≡ 1) is
    there [] h = tt
    there (i ∷ is) h = (ground (arith, h), there is (ground (arith, h)))

    back :
        (is : List String)
        → All (λ include. count_bindings bs include ≡ 1) is
        → check_include_snapshots bs is ≡ none
    back [] h = refl
    back (i ∷ is) h = ground (arith, h.0, back is h.1)
