-- ===== src/Rules/Merge/Texts.antt =====
-- rules/merge.ts: the sorted set of some texts depends only on which texts they are.
use Prim.Native.String.{compare}
use code_butler.Prelude.{
  String, not, none, some, List, [], ◌∷◌, filter, contains, as_set, contains-as_set, sort_by, ◌==◌,
  eq_iff, if◌then◌else◌, arith, ◌≡◌, refl, sym, ◌∙◌, Distinct-filter, lookup, Distinct, sort_eq,
  lookup-sort, Collation-compare,
}
use code_butler.Rules.Merge.{sorted_set}

abbrev itself : String → String
itself s = s

lookup-contains :
    (k : String) (xs : List String) → lookup itself k xs ≡ (if contains k xs then some k else none)
lookup-contains k [] = refl
lookup-contains k (x ∷ xs) = ground (arith, eq_iff x k, lookup-contains k xs)

lookup-filter_self :
    (x : String) (xs : List String) → lookup itself x (filter (λ y. not (y == x)) xs) ≡ none
lookup-filter_self x [] = refl
lookup-filter_self x (y ∷ ys) = ground (arith, lookup-filter_self x ys)

Distinct-as_set : (xs : List String) → Distinct itself (as_set xs)
Distinct-as_set [] = tt
Distinct-as_set (x ∷ xs) = (
  lookup-filter_self x (as_set xs),
  Distinct-filter itself (λ y. not (y == x)) (as_set xs) (Distinct-as_set xs),
)

lookup-as_set :
    (k : String) (xs : List String)
    → lookup itself k (as_set xs) ≡ (if contains k xs then some k else none)
lookup-as_set k xs = lookup-contains k (as_set xs) ∙ rw (contains-as_set k xs) refl

-- The same texts, in whatever order and however often.
abbrev pub SameTexts : List String → List String → Type 0
SameTexts xs ys = (a : String) → contains a xs ≡ contains a ys

pub sorted_set_eq : (xs ys : List String) → SameTexts xs ys → sorted_set xs ≡ sorted_set ys
unfolding sorted_set
sorted_set_eq xs ys same =
    sort_eq itself Collation-compare (as_set xs) (as_set ys) (Distinct-as_set xs)
      (Distinct-as_set ys) λ k. lookup-as_set k xs ∙ rw (same k) refl ∙ sym (lookup-as_set k ys)

pub contains-sorted_set :
    (a : String) (xs : List String) → contains a (sorted_set xs) ≡ contains a xs
unfolding sorted_set
contains-sorted_set a xs =
    let found = lookup-sort itself Collation-compare a (as_set xs) (Distinct-as_set xs) in
    ground (arith, found, lookup-contains a (sort_by compare (as_set xs)), lookup-as_set a xs)
