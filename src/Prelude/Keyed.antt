-- ===== src/Prelude/Keyed.antt =====
-- Lists in which no key is repeated: the element under a key after a filter or a map.
use Prim.Native.String.{String}
use mathlib.Core.Path.{◌≡◌, refl, ap, ◌∙◌}
use mathlib.Core.Logic.{inl, inr}
use mathlib.Core.Bool.{Bool}
use mathlib.Core.Option.{Option, none, some}
use mathlib.Core.List.{List, [], ◌∷◌, map}
use native.Mathlib.Omega.{arith}
use text.Mathlib.TextEquality.{eq_iff}
use code_butler.Prelude.Tests.{Bool-cases, if◌then◌else◌}
use code_butler.Prelude.Lists.{filter}
use code_butler.Prelude.Sorted.{lookup, Distinct}

abbrev pub keep_if {ℓ} : {A : Type ℓ} → (A → Bool) → Option A → Option A
keep_if p none = none
keep_if p (some a) = if p a then some a else none

abbrev pub map_option {ℓ κ} : {A : Type ℓ} {B : Type κ} → (A → B) → Option A → Option B
map_option f none = none
map_option f (some a) = some (f a)

module _ {A : Type 0} (key : A → String) (p : A → Bool) where
  lookup-filter-none :
      (k : String) (xs : List A) → lookup key k xs ≡ none → lookup key k (filter p xs) ≡ none
  lookup-filter-none k [] e = refl
  lookup-filter-none k (x ∷ xs) e = ground (arith, lookup-filter-none k xs, e)

  pub lookup-filter :
      (k : String) (xs : List A)
      → Distinct key xs
      → lookup key k (filter p xs) ≡ keep_if p (lookup key k xs)
  lookup-filter k [] d = refl
  lookup-filter k (x ∷ xs) (fresh, d) =
      ground (arith, lookup-filter k xs d, fresh, lookup-filter-none (key x) xs, eq_iff (key x) k)

  pub Distinct-filter : (xs : List A) → Distinct key xs → Distinct key (filter p xs)
  Distinct-filter [] d = tt
  Distinct-filter (x ∷ xs) (fresh, d) =
      let rest = Distinct-filter xs d in
      elim (Bool-cases (p x)) [
        | inl e ↦ rw e (lookup-filter-none (key x) xs fresh, rest)
        | inr e ↦ rw e rest
      ]

module _ {A : Type 0} (key : A → String) (f : A → A) (same : (a : A) → key (f a) ≡ key a) where
  pub lookup-map :
      (k : String) (xs : List A) → lookup key k (map f xs) ≡ map_option f (lookup key k xs)
  unfolding map
  lookup-map k [] = refl
  lookup-map k (x ∷ xs) = ground (arith, same x, lookup-map k xs)

  pub Distinct-map : (xs : List A) → Distinct key xs → Distinct key (map f xs)
  unfolding map
  Distinct-map [] d = tt
  Distinct-map (x ∷ xs) (fresh, d) =
      (rw (same x) (lookup-map (key x) xs ∙ ap (map_option f) fresh), Distinct-map xs d)
