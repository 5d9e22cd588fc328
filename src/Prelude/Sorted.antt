-- ===== src/Prelude/Sorted.antt =====
-- Sorting by a text key in the order of `localeCompare`: lists without a repeated key that have the
-- same element under every key are sorted to the same list.
use Prim.Native.Nat.{Ordering}
use Prim.Native.String.{String}
use mathlib.Core.Path.{◌≡◌, refl, sym, ap₂, ◌∙◌}
use mathlib.Core.Logic.{◌⊎◌, inl, inr}
use mathlib.Core.Option.{Option, none, some}
use mathlib.Core.List.{List, [], ◌∷◌}
use native.Mathlib.Omega.{arith}
use text.Mathlib.Text.{◌==◌}
use text.Mathlib.TextEquality.{eq_iff}
use text.Mathlib.TextPositions.{eq_refl}
use code_butler.Prelude.Tests.{if◌then◌else◌}
use code_butler.Prelude.Lists.{All, find?}
use code_butler.Prelude.Sort.{insert_by, sort_by}

-- What a collation promises: a strict total order on texts.
pub record Collation (locale : String → String → Ordering) : Type 0 where
  pub same : (a : String) → locale a a ≡ Ordering.eq
  pub equal : (a b : String) → locale a b ≡ Ordering.eq → a ≡ b
  pub flip : (a b : String) → locale a b ≡ Ordering.gt → locale b a ≡ Ordering.lt
  pub trans :
      (a b c : String)
      → locale a b ≡ Ordering.lt
      → locale b c ≡ Ordering.lt
      → locale a c ≡ Ordering.lt

Ordering-cases : (o : Ordering) → ((o ≡ Ordering.lt) ⊎ (o ≡ Ordering.eq)) ⊎ (o ≡ Ordering.gt)
Ordering-cases Ordering.lt = inl (inl refl)
Ordering-cases Ordering.eq = inl (inr refl)
Ordering-cases Ordering.gt = inr refl

module _ {A : Type 0} (key : A → String) where
  abbrev pub lookup : String → List A → Option A
  lookup k = find? (λ x. key x == k)

  -- No key is repeated.
  abbrev pub Distinct : List A → Type 0
  Distinct [] = Unit
  Distinct (x ∷ xs) = (lookup (key x) xs ≡ none) × Distinct xs

module _ {A : Type 0} (key : A → String) {locale : String → String → Ordering}
    (o : Collation locale) where
  abbrev by_key : A → A → Ordering
  by_key x y = locale (key x) (key y)

  Above : String → List A → Type 0
  Above k = All (λ y. locale k (key y) ≡ Ordering.lt)

  Strict : List A → Type 0
  Strict [] = Unit
  Strict (x ∷ xs) = Above (key x) xs × Strict xs

  lookup-Above : (k : String) (xs : List A) → Above k xs → lookup key k xs ≡ none
  unfolding Above
  lookup-Above k [] a = refl
  lookup-Above k (x ∷ xs) (l, a) =
      let rest = lookup-Above k xs a in ground (arith, l, o.same k, eq_iff (key x) k)

  Above-trans : (j k : String) (xs : List A) → locale j k ≡ Ordering.lt → Above k xs → Above j xs
  unfolding Above
  Above-trans j k [] l a = tt
  Above-trans j k (x ∷ xs) l (b, a) = (o.trans j k (key x) l b, Above-trans j k xs l a)

  -- Where an element with a key of its own goes.
  insert-cases :
      (x y : A) (ys : List A)
      → lookup key (key x) (y ∷ ys) ≡ none
      → ((locale (key x) (key y) ≡ Ordering.lt) × (insert_by by_key x (y ∷ ys) ≡ x ∷ y ∷ ys))
        ⊎ ((locale (key y) (key x) ≡ Ordering.lt)
            × (insert_by by_key x (y ∷ ys) ≡ y ∷ insert_by by_key x ys))
  insert-cases x y ys fresh = elim (Ordering-cases (locale (key x) (key y))) [
    | inl (inl e) ↦ inl (e, rw (insert_by, e) refl)
    | inl (inr e) ↦
        absurd (ground (arith, fresh, o.equal (key x) (key y) e, eq_iff (key y) (key x)))
    | inr e ↦ inr (o.flip (key x) (key y) e, rw (insert_by, e) refl)
  ]

  Above-insert :
      (k : String) (x : A) (xs : List A)
      → locale k (key x) ≡ Ordering.lt
      → lookup key (key x) xs ≡ none
      → Above k xs
      → Above k (insert_by by_key x xs)
  unfolding Above
  Above-insert k x [] l fresh a = (l, tt)
  Above-insert k x (y ∷ ys) l fresh (b, a) =
      let rest = Above-insert k x ys l (ground (arith, fresh)) a in
      elim (insert-cases x y ys fresh) [
        | inl (_, e) ↦ rw e (l, (b, a))
        | inr (_, e) ↦ rw e (b, rest)
      ]

  insert-Strict :
      (x : A) (xs : List A)
      → lookup key (key x) xs ≡ none
      → Strict xs
      → Strict (insert_by by_key x xs)
  unfolding Strict Above
  insert-Strict x [] fresh s = (tt, tt)
  insert-Strict x (y ∷ ys) fresh (a, s) =
      let later : lookup key (key x) ys ≡ none = ground (arith, fresh) in
      let rest = insert-Strict x ys later s in
      elim (insert-cases x y ys fresh) [
        | inl (l, e) ↦ rw e ((l, Above-trans (key x) (key y) ys l a), (a, s))
        | inr (l, e) ↦ rw e (Above-insert (key y) x ys l later a, rest)
      ]

  lookup-insert :
      (k : String) (x : A) (xs : List A)
      → lookup key (key x) xs ≡ none
      → lookup key k (insert_by by_key x xs) ≡ (if key x == k then some x else lookup key k xs)
  lookup-insert k x [] fresh = refl
  lookup-insert k x (y ∷ ys) fresh =
      let rest = lookup-insert k x ys (ground (arith, fresh)) in
      elim (insert-cases x y ys fresh) [
        | inl (_, e) ↦ rw e refl
        | inr (_, e) ↦ rw e (
            ground (arith, rest, fresh, eq_iff (key y) k, eq_iff (key x) k, eq_iff (key y) (key x)))
      ]

  pub lookup-sort :
      (k : String) (xs : List A)
      → Distinct key xs
      → lookup key k (sort_by (λ x y. locale (key x) (key y)) xs) ≡ lookup key k xs
  lookup-sort k [] d = refl
  lookup-sort k (x ∷ xs) (fresh, d) =
      let in_rest = lookup-sort (key x) xs d in
      let at_k = lookup-sort k xs d in
      ground (arith, at_k, lookup-insert k x (sort_by by_key xs) (ground (arith, in_rest, fresh)))

  sort-Strict : (xs : List A) → Distinct key xs → Strict (sort_by by_key xs)
  unfolding Strict
  sort-Strict [] d = tt
  sort-Strict (x ∷ xs) (fresh, d) =
      let in_rest = lookup-sort (key x) xs d in
      insert-Strict x (sort_by by_key xs) (ground (arith, in_rest, fresh)) (sort-Strict xs d)

  lookup-key : (k : String) (x : A) (xs : List A) → lookup key k xs ≡ some x → key x ≡ k
  lookup-key k x [] e = cc
  lookup-key k x (y ∷ ys) e = ground (arith, lookup-key k x ys, eq_iff (key y) k)

  lookup-Above-some :
      (j k : String) (x : A) (xs : List A)
      → Above j xs
      → lookup key k xs ≡ some x
      → locale j k ≡ Ordering.lt
  unfolding Above
  lookup-Above-some j k x [] a e = cc
  lookup-Above-some j k x (y ∷ ys) (b, a) e =
      ground (arith, b, lookup-Above-some j k x ys a, eq_iff (key y) k)

  Strict-heads :
      (x y : A) (xs ys : List A)
      → Strict (x ∷ xs)
      → Strict (y ∷ ys)
      → ((k : String) → lookup key k (x ∷ xs) ≡ lookup key k (y ∷ ys))
      → x ≡ y
  unfolding Strict
  Strict-heads x y xs ys (a, _) (b, _) e =
      let at_x = e (key x) in
      let at_y = e (key y) in
      ground (
        arith,
        eq_refl (key x),
        eq_refl (key y),
        eq_iff (key x) (key y),
        eq_iff (key y) (key x),
        lookup-Above-some (key x) (key y) y xs a,
        lookup-Above-some (key y) (key x) x ys b,
        o.trans (key x) (key y) (key x),
        o.same (key x),
      )

  Strict-eq :
      (xs ys : List A)
      → Strict xs
      → Strict ys
      → ((k : String) → lookup key k xs ≡ lookup key k ys)
      → xs ≡ ys
  unfolding Strict
  Strict-eq [] [] s t e = refl
  Strict-eq [] (y ∷ ys) s t e = absurd (ground (arith, e (key y), eq_refl (key y)))
  Strict-eq (x ∷ xs) [] s t e = absurd (ground (arith, e (key x), eq_refl (key x)))
  Strict-eq (x ∷ xs) (y ∷ ys) s t e =
      let same = Strict-heads x y xs ys s t e in
      ap₂ ◌∷◌ same (
        Strict-eq xs ys s.1 t.1 λ k.
          let none_x = lookup-Above (key x) xs s.0 in
          let none_y = lookup-Above (key y) ys t.0 in
          let at_k = e k in ground (arith, eq_iff (key x) k, eq_iff (key y) k, same))

  -- What is sorted depends only on which element each key has.
  pub sort_eq :
      (xs ys : List A)
      → Distinct key xs
      → Distinct key ys
      → ((k : String) → lookup key k xs ≡ lookup key k ys)
      → sort_by (λ x y. locale (key x) (key y)) xs ≡ sort_by (λ x y. locale (key x) (key y)) ys
  sort_eq xs ys d f e =
      Strict-eq (sort_by by_key xs) (sort_by by_key ys) (sort-Strict xs d) (sort-Strict ys f)
        λ k. lookup-sort k xs d ∙ e k ∙ sym (lookup-sort k ys f)
