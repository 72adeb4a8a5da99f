-- ===== src/Common/Order.antt =====
-- What Go sorts by: the `Less` of a `sort.Interface` as a strict weak order, and `<` of texts,
-- which compares their characters from the left.
use Prim.Native.Char.{code}
use Prim.Native.Nat.{ℕ}
use Prim.Native.String.{String}
use mathlib.Core.Path.{◌≡◌, refl}
use mathlib.Core.Logic.{◌⊎◌, inl, inr}
use mathlib.Core.Bool.{Bool, true, false}
use mathlib.Core.List.{List, [], ◌∷◌}
use native.Mathlib.Omega.{arith}
use argodemo.Common.Tests.{ltb, if◌then◌else◌, Bool-cases}
use argodemo.Common.Lists.{All}

module _ {ℓ} {A : Type ℓ} where
  -- What `sort.Sort` asks of `Less`: asymmetry, and no element lies between two equivalent ones.
  pub record StrictWeak (less : A → A → Bool) : Type ℓ where
    pub asym : (a b : A) → less a b ≡ true → less b a ≡ false
    pub cotrans : (a b c : A) → less a b ≡ true → (less a c ≡ true) ⊎ (less c b ≡ true)

  -- No element is less than one in front of it.
  abbrev pub Ordered : (A → A → Bool) → List A → Type ℓ
  Ordered less [] = Unit
  Ordered less (x ∷ xs) = All (λ y. less y x ≡ false) xs × Ordered less xs

  pub All-map {κ} :
      {Holds Wanted : A → Type κ} (next : (a : A) → Holds a → Wanted a) (xs : List A)
      → All Holds xs
      → All Wanted xs
  All-map next [] h = h
  All-map next (x ∷ xs) h = (next x h.0, All-map next xs h.1)

  -- Being at least an element goes on to the elements behind.
  pub StrictWeak-at_least :
      {less : A → A → Bool}
      → StrictWeak less
      → (a b c : A) → less b a ≡ false
      → less c b ≡ false
      → less c a ≡ false
  StrictWeak-at_least {less} sw a b c e f = elim (Bool-cases (less c a)) [
    | inr h ↦ h
    | inl h ↦ elim (sw.cotrans c a b h) [
      | inl u ↦ ground (arith, f, u)
      | inr u ↦ ground (arith, e, u)
    ]
  ]

-- The code points of a text, which are in the order of the bytes that encode them.
abbrev pub codes : String → List ℕ
codes String.[] = []
codes (String.◌∷◌ c s) = code c ∷ codes s

abbrev pub less_codes : List ℕ → List ℕ → Bool
less_codes s [] = false
less_codes [] (b ∷ t) = true
less_codes (a ∷ s) (b ∷ t) = if ltb a b then true else if ltb b a then false else less_codes s t

unfoldable pub less_text : String → String → Bool
less_text s t = less_codes (codes s) (codes t)

less_codes-asym : (s t : List ℕ) → less_codes s t ≡ true → less_codes t s ≡ false
less_codes-asym s [] h = ground (arith, h)
less_codes-asym [] (b ∷ t) h = refl
less_codes-asym (a ∷ s) (b ∷ t) h = ground (arith, h, less_codes-asym s t)

less_codes-cotrans :
    (s t u : List ℕ) → less_codes s t ≡ true → (less_codes s u ≡ true) ⊎ (less_codes u t ≡ true)
less_codes-cotrans s [] u h = ground (arith, h)
less_codes-cotrans s (b ∷ t) [] h = inr refl
less_codes-cotrans [] (b ∷ t) (c ∷ u) h = inl refl
less_codes-cotrans (a ∷ s) (b ∷ t) (c ∷ u) h = ground (arith, h, less_codes-cotrans s t u)

pub less_text-StrictWeak : StrictWeak less_text
unfolding less_text
less_text-StrictWeak = record {
  asym = λ a b. less_codes-asym (codes a) (codes b);
  cotrans = λ a b c. less_codes-cotrans (codes a) (codes b) (codes c);
}
