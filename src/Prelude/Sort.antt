-- ===== src/Prelude/Sort.antt =====
-- `[...texts].sort()` on ASCII texts: insertion into a sorted list.
pub use Prim.Native.Nat.{Ordering}
use Prim.Native.Nat.{ℕ}
use Prim.Native.String.{String, compare}
use mathlib.Core.Bool.{Bool, true, false}
use mathlib.Core.List.{List, [], ◌∷◌}
use code_butler.Prelude.Tests.{ltb, if◌then◌else◌}

abbrev pub text_leb : String → String → Bool
text_leb a b = elim (compare a b) [ Ordering.gt ↦ false | _ ↦ true ]

abbrev pub insert_text : String → List String → List String
insert_text t [] = t ∷ []
insert_text t (x ∷ xs) =
    let rest = insert_text t xs in if text_leb t x then t ∷ x ∷ xs else x ∷ rest

abbrev pub sort_texts : List String → List String
sort_texts [] = []
sort_texts (x ∷ xs) = insert_text x (sort_texts xs)

-- A comparison of numbers, and the first comparison that tells two values apart.
abbrev pub order_nat : ℕ → ℕ → Ordering
order_nat a b = if ltb a b then Ordering.lt else if ltb b a then Ordering.gt else Ordering.eq

abbrev pub then_by : Ordering → Ordering → Ordering
then_by Ordering.eq next = next
then_by first next = first

module _ {ℓ} {A : Type ℓ} (compare_by : A → A → Ordering) where
  abbrev pub insert_by : A → List A → List A
  insert_by x [] = x ∷ []
  insert_by x (y ∷ ys) =
      let rest = insert_by x ys in elim (compare_by x y) [ Ordering.gt ↦ y ∷ rest | _ ↦ x ∷ y ∷ ys ]

  -- `sort`, which is stable: what compares equal keeps its order.
  abbrev pub sort_by : List A → List A
  sort_by [] = []
  sort_by (x ∷ xs) = insert_by x (sort_by xs)
