-- ===== src/Common/Maps.antt =====
-- Go maps with text keys as association lists. A key stands at most once, since `insert`
-- overwrites; the order of the entries is one of those in which Go may range over the map.
use Prim.Native.String.{String}
use mathlib.Core.Path.{◌≡◌, refl}
use mathlib.Core.Bool.{Bool, true, false}
use mathlib.Core.Option.{Option, none, some}
use mathlib.Core.List.{List, [], ◌∷◌}
use native.Mathlib.Omega.{arith}
use text.Mathlib.Text.{◌==◌}
use text.Mathlib.TextEquality.{eq_iff}
use argodemo.Common.Tests.{if◌then◌else◌}

abbrev pub Dict {ℓ} : Type ℓ → Type ℓ
Dict V = List (String × V)

module _ {ℓ} {V : Type ℓ} where
  unfoldable pub lookup : String → Dict V → Option V
  lookup k [] = none
  lookup k ((j, v) ∷ m) = if j == k then some v else lookup k m

  unfoldable pub insert : String → V → Dict V → Dict V
  insert k v [] = (k, v) ∷ []
  insert k v ((j, w) ∷ m) = if j == k then (k, v) ∷ m else (j, w) ∷ insert k v m

  -- Every entry of the key goes.
  unfoldable pub delete : String → Dict V → Dict V
  delete k [] = []
  delete k ((j, w) ∷ m) = if j == k then delete k m else (j, w) ∷ delete k m

  unfoldable pub has_key : String → Dict V → Bool
  has_key k [] = false
  has_key k ((j, v) ∷ m) = if j == k then true else has_key k m

  pub lookup-insert :
      (key other : String) (value : V) (entries : Dict V)
      → lookup other (insert key value entries)
        ≡ (if key == other then some value else lookup other entries)
  unfolding lookup insert
  lookup-insert key other value [] = refl
  lookup-insert key other value ((k, v) ∷ entries) =
      let later = lookup-insert key other value entries in
      ground (arith, later, eq_iff k other, eq_iff key other, eq_iff k key)

  pub lookup-delete :
      (k j : String) (m : Dict V) → lookup j (delete k m) ≡ (if k == j then none else lookup j m)
  unfolding lookup delete
  lookup-delete k j [] = ground arith
  lookup-delete k j ((i, w) ∷ m) =
      ground (arith, eq_iff k j, eq_iff i k, eq_iff i j, lookup-delete k j m)

  pub has_key-lookup :
      (k : String) (m : Dict V) → has_key k m ≡ elim (lookup k m) [ none ↦ false | some _ ↦ true ]
  unfolding lookup has_key
  has_key-lookup k [] = refl
  has_key-lookup k ((j, v) ∷ m) = ground (arith, has_key-lookup k m)

  pub has_key-insert :
      (k j : String) (v : V) (m : Dict V)
      → has_key j (insert k v m) ≡ (if k == j then true else has_key j m)
  has_key-insert k j v m =
      ground (arith, has_key-lookup j (insert k v m), has_key-lookup j m, lookup-insert k j v m)

  pub has_key-delete :
      (k j : String) (m : Dict V) → has_key j (delete k m) ≡ (if k == j then false else has_key j m)
  has_key-delete k j m =
      ground (arith, has_key-lookup j (delete k m), has_key-lookup j m, lookup-delete k j m)
