-- ===== src/Prelude/TextOrder.antt =====
-- The order of texts by their characters is a collation.
use Prim.Native.Nat.{Ordering}
use Prim.Native.String.compare
use Prim.Native.String.{String, [], ◌∷◌, compare}
use mathlib.Core.Path.{◌≡◌}
use native.Mathlib.Omega.{arith}
use text.Mathlib.TextEquality.{path_by_compare}
use text.Mathlib.TextPositions.{compare_refl}
use code_butler.Prelude.Sorted.{Collation}

compare-flip : (s t : String) → compare s t ≡ Ordering.gt → compare t s ≡ Ordering.lt
compare-flip [] [] h = absurd (ground arith)
compare-flip [] (d ∷ t) h = absurd (ground (arith, compare.nil-cons d t))
compare-flip (c ∷ s) [] h = compare.nil-cons c s
compare-flip (c ∷ s) (d ∷ t) h =
    ground (arith, compare.cons-cons c d s t, compare.cons-cons d c t s, compare-flip s t)

compare_trans :
    (s t u : String)
    → compare s t ≡ Ordering.lt
    → compare t u ≡ Ordering.lt
    → compare s u ≡ Ordering.lt
compare_trans [] [] u h k = k
compare_trans [] (d ∷ t) [] h k = absurd (ground (arith, compare.cons-nil d t))
compare_trans [] (d ∷ t) (e ∷ u) h k = compare.nil-cons e u
compare_trans (c ∷ s) [] u h k = absurd (ground (arith, compare.cons-nil c s))
compare_trans (c ∷ s) (d ∷ t) [] h k = absurd (ground (arith, compare.cons-nil d t))
compare_trans (c ∷ s) (d ∷ t) (e ∷ u) h k = ground (
  arith,
  compare.cons-cons c d s t,
  compare.cons-cons d e t u,
  compare.cons-cons c e s u,
  compare_trans s t u,
)

pub Collation-compare : Collation compare
Collation-compare = record {
  same = compare_refl;
  equal = path_by_compare;
  flip = compare-flip;
  trans = compare_trans;
}
