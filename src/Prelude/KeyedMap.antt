-- ===== src/Prelude/KeyedMap.antt =====
-- A `Map` whose values carry their own key, and the list of its values.
use Prim.Native.String.{String}
use mathlib.Core.Path.{◌≡◌, refl, ap, ◌∙◌}
use mathlib.Core.Logic.{inl, inr}
use mathlib.Core.Option.{none, some}
use mathlib.Core.List.{List, [], ◌∷◌}
use native.Mathlib.Omega.{arith}
use text.Mathlib.Text.{◌==◌}
use text.Mathlib.TextEquality.{eq_iff}
use code_butler.Prelude.Tests.{Bool-cases, if◌then◌else◌}
use code_butler.Prelude.Sorted.{lookup, Distinct}
use code_butler.Prelude.Assoc.{Assoc, get, put, get-put}

-- `map.values()`
abbrev pub values {ℓ} : {A : Type ℓ} → Assoc A → List A
values [] = []
values ((k, a) ∷ m) = a ∷ values m

module _ {A : Type 0} (key : A → String) where
  -- Each value stands under its own key, and no key is repeated.
  abbrev pub Keyed : Assoc A → Type 0
  Keyed [] = Unit
  Keyed ((k, a) ∷ m) = (key a ≡ k) × ((get m k ≡ none) × Keyed m)

  pub put-Keyed : (m : Assoc A) (k : String) (a : A) → key a ≡ k → Keyed m → Keyed (put m k a)
  unfolding put get
  put-Keyed [] k a q _ = (q, (refl, tt))
  put-Keyed ((j, b) ∷ m) k a q (at_j, (fresh, rest)) = elim (Bool-cases (j == k)) [
    | inl y ↦ let same = (eq_iff j k).0 y in rw y (q, (rw (← same) fresh, rest))
    | inr y ↦
        let fresh_put = get-put m k j a ∙ ground (arith, y, fresh, eq_iff j k, eq_iff k j) in
        rw y (at_j, (fresh_put, put-Keyed m k a q rest))
  ]

  pub get-Keyed : (m : Assoc A) (k : String) (a : A) → Keyed m → get m k ≡ some a → key a ≡ k
  unfolding get
  get-Keyed [] k a _ g = cc
  get-Keyed ((j, b) ∷ m) k a (at_j, (_, rest)) g =
      ground (arith, at_j, g, eq_iff j k, get-Keyed m k a rest)

  pub lookup-values : (m : Assoc A) (k : String) → Keyed m → lookup key k (values m) ≡ get m k
  unfolding get
  lookup-values [] k q = refl
  lookup-values ((j, a) ∷ m) k (at_j, (_, rest)) =
      rw at_j (ap (λ o. if j == k then some a else o) (lookup-values m k rest))

  pub Distinct-values : (m : Assoc A) → Keyed m → Distinct key (values m)
  Distinct-values [] q = tt
  Distinct-values ((j, a) ∷ m) (at_j, (fresh, rest)) =
      (rw at_j (lookup-values m j rest ∙ fresh), Distinct-values m rest)
