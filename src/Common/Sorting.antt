-- ===== src/Common/Sorting.antt =====
-- `sort.Sort` of texts: what it promises, and insertion sort, which keeps the promise.
use Prim.Native.Nat.{ℕ, suc}
use Prim.Native.String.{String}
use mathlib.Core.Path.{◌≡◌, refl}
use mathlib.Core.Logic.{inl, inr}
use mathlib.Core.Bool.{Bool, false}
use mathlib.Core.List.{List, [], ◌∷◌}
use native.Mathlib.Omega.{arith}
use text.Mathlib.Text.{◌==◌}
use argodemo.Common.Tests.{if◌then◌else◌, Bool-cases}
use argodemo.Common.Lists.{All}
use argodemo.Common.Order.{StrictWeak, Ordered, All-map, StrictWeak-at_least}

abbrev pub times : String → List String → ℕ
times t [] = 0
times t (x ∷ xs) = if x == t then suc (times t xs) else times t xs

-- A strict weak order makes the result ordered, and each text occurs in it as often as before.
pub record Sorts (less : String → String → Bool) (sort : List String → List String) : Type 0 where
  pub same : (t : String) (xs : List String) → times t (sort xs) ≡ times t xs
  pub ordered : StrictWeak less → (xs : List String) → Ordered less (sort xs)

module _ (less : String → String → Bool) where
  place : String → List String → List String
  place x [] = x ∷ []
  place x (y ∷ ys) = if less y x then y ∷ place x ys else x ∷ y ∷ ys

  pub insertion_sort : List String → List String
  unfolding place
  insertion_sort [] = []
  insertion_sort (x ∷ xs) = place x (insertion_sort xs)

  times-place : (t x : String) (xs : List String) → times t (place x xs) ≡ times t (x ∷ xs)
  unfolding place
  times-place t x [] = refl
  times-place t x (y ∷ ys) = ground (arith, times-place t x ys)

  times-insertion_sort : (t : String) (xs : List String) → times t (insertion_sort xs) ≡ times t xs
  unfolding insertion_sort
  times-insertion_sort t [] = refl
  times-insertion_sort t (x ∷ xs) =
      ground (arith, times-place t x (insertion_sort xs), times-insertion_sort t xs)

  place-All :
      (Holds : String → Type 0) (x : String) (xs : List String)
      → Holds x
      → All Holds xs
      → All Holds (place x xs)
  unfolding place
  place-All Holds x [] h hs = (h, hs)
  place-All Holds x (y ∷ ys) h hs = elim (Bool-cases (less y x)) [
    | inl e ↦ rw e (hs.0, place-All Holds x ys h hs.1)
    | inr e ↦ rw e (h, hs)
  ]

  module _ (sw : StrictWeak less) where
    place-Ordered : (x : String) (xs : List String) → Ordered less xs → Ordered less (place x xs)
    unfolding place
    place-Ordered x [] o = (o, o)
    place-Ordered x (y ∷ ys) o = elim (Bool-cases (less y x)) [
      | inl e ↦
          rw e (place-All (λ z. less z y ≡ false) x ys (sw.asym y x e) o.0, place-Ordered x ys o.1)
      | inr e ↦ rw e ((e, All-map (λ z f. StrictWeak-at_least sw x y z e f) ys o.0), o)
    ]

    insertion_sort-Ordered : (xs : List String) → Ordered less (insertion_sort xs)
    unfolding insertion_sort
    insertion_sort-Ordered [] = tt
    insertion_sort-Ordered (x ∷ xs) =
        place-Ordered x (insertion_sort xs) (insertion_sort-Ordered xs)

  pub insertion_sort-Sorts : Sorts less insertion_sort
  insertion_sort-Sorts = record { same = times-insertion_sort; ordered = insertion_sort-Ordered }
