-- ===== src/Prelude/Upsert.antt =====
-- `insert ... on conflict do update`: the row that has the key is updated, or the new row is added.
use mathlib.Core.Path.{◌≡◌, refl}
use mathlib.Core.Bool.{Bool, true, false}
use mathlib.Core.Option.{Option, none, some}
use mathlib.Core.List.{List, [], ◌∷◌}
use native.Mathlib.Omega.{arith}
use code_butler.Prelude.Tests.{Bool-cases}
use code_butler.Prelude.Lists.{find?}
use mathlib.Core.Logic.{inl, inr}

module _ {ℓ} {A : Type ℓ} (matches : A → Bool) (update : A → A) (new : A) where
  unfoldable pub upsert : List A → List A
  upsert [] = new ∷ []
  upsert (x ∷ xs) = elim (matches x) [ true ↦ update x ∷ xs | false ↦ x ∷ upsert xs ]

  abbrev pub upserted : Option A → A
  upserted none = new
  upserted (some x) = update x

  -- The row that the table has under the key afterwards.
  pub find?-upsert :
      (xs : List A)
      → matches new ≡ true
      → ((x : A) → matches x ≡ true → matches (update x) ≡ true)
      → find? matches (upsert xs) ≡ some (upserted (find? matches xs))
  unfolding upsert
  find?-upsert [] h k = rw (find?, h) refl
  find?-upsert (x ∷ xs) h k = elim (Bool-cases (matches x)) [
    | inl e ↦ rw (find?, upsert, e, k x e) refl
    | inr e ↦ let rest = find?-upsert xs h k in rw (upsert, e) (ground (arith, rest))
  ]
