-- ===== src/Prelude/Lists.antt =====
-- Lists measured by native numbers, with Boolean searches; a list of texts stands for a `Set`.
use Prim.Native.Nat.{ℕ, zero, suc, ◌+◌, ◌≤◌, min}
use Prim.Native.String.{String}
use mathlib.Core.Path.{◌≡◌, refl, subst}
use mathlib.Core.Logic.{◌⊎◌, inl, inr}
use mathlib.Core.Bool.{Bool, true, false, not, ◌&&◌, ◌||◌}
use mathlib.Core.List.{List, [], ◌∷◌, ◌++◌}
use mathlib.Core.Option.{Option, none, some}
use native.Mathlib.Omega.{arith}
use text.Mathlib.Text.{◌==◌}
use text.Mathlib.TextEquality.{eq_iff}
use text.Mathlib.TextPositions.{eq_refl}
use code_butler.Prelude.Tests.{if◌then◌else◌}

module _ {ℓ} {A : Type ℓ} where
  abbrev pub length : List A → ℕ
  length [] = 0
  length (x ∷ xs) = suc (length xs)

  abbrev pub take : ℕ → List A → List A
  take zero xs = []
  take (suc n) [] = []
  take (suc n) (x ∷ xs) = x ∷ take n xs

  abbrev pub filter : (A → Bool) → List A → List A
  filter p [] = []
  filter p (x ∷ xs) = let rest = filter p xs in if p x then x ∷ rest else rest

  abbrev pub any : (A → Bool) → List A → Bool
  any p [] = false
  any p (x ∷ xs) = p x || any p xs

  abbrev pub all : (A → Bool) → List A → Bool
  all p [] = true
  all p (x ∷ xs) = p x && all p xs

  abbrev pub find? : (A → Bool) → List A → Option A
  find? p [] = none
  find? p (x ∷ xs) = if p x then some x else find? p xs

  abbrev pub All {κ} : (A → Type κ) → List A → Type κ
  All P [] = Unit
  All P (x ∷ xs) = P x × All P xs

  pub length-append : (xs ys : List A) → length (xs ++ ys) ≡ length xs + length ys
  length-append [] ys = omega arith
  length-append (x ∷ xs) ys = omega (arith, length-append xs ys)

  pub length-take : (n : ℕ) (xs : List A) → length (take n xs) ≡ min n (length xs)
  length-take zero xs = omega arith
  length-take (suc n) [] = omega arith
  length-take (suc n) (x ∷ xs) = omega (arith, length-take n xs)

  pub any-append : (p : A → Bool) (xs ys : List A) → any p (xs ++ ys) ≡ (any p xs || any p ys)
  any-append p [] ys = refl
  any-append p (x ∷ xs) ys = ground (arith, any-append p xs ys)

  pub length-filter-le : (p : A → Bool) (xs : List A) → length (filter p xs) ≤ length xs
  length-filter-le p [] = omega arith
  length-filter-le p (x ∷ xs) = ground (arith, length-filter-le p xs)

module _ {A : Type 0} where
  -- The element stands in the list.
  abbrev pub In : A → List A → Type 0
  In a [] = ⊥
  In a (x ∷ xs) = (x ≡ a) ⊎ In a xs

  pub All-In {κ} : (P : A → Type κ) (xs : List A) (a : A) → All P xs → In a xs → P a
  All-In P [] a h m = absurd m
  All-In P (x ∷ xs) a (h, _) (inl e) = subst P e h
  All-In P (x ∷ xs) a (_, hs) (inr m) = All-In P xs a hs m

-- `Set.has`
abbrev pub contains : String → List String → Bool
contains a = any (λ x. x == a)

-- `new Set(...)`: each text where it first stands.
abbrev pub as_set : List String → List String
as_set [] = []
as_set (x ∷ xs) = x ∷ filter (λ y. not (y == x)) (as_set xs)

contains-filter :
    (a x : String) (xs : List String)
    → contains a (filter (λ y. not (y == x)) xs) ≡ (contains a xs && not (a == x))
contains-filter a x [] = refl
contains-filter a x (y ∷ ys) =
    ground (arith, contains-filter a x ys, eq_iff y a, eq_iff y x, eq_iff a x)

pub contains-as_set : (a : String) (xs : List String) → contains a (as_set xs) ≡ contains a xs
contains-as_set a [] = refl
contains-as_set a (x ∷ xs) =
    ground (arith, contains-as_set a xs, contains-filter a x (as_set xs), eq_iff x a, eq_iff a x)

pub all-contains :
    (xs ys : List String)
    → ((a : String) → contains a xs ≡ true → contains a ys ≡ true)
    → all (λ a. contains a ys) xs ≡ true
all-contains [] ys f = refl
all-contains (x ∷ xs) ys f =
    let here = f x (ground (arith, eq_refl x)) in
    ground (arith, here, all-contains xs ys (λ a m. f a (ground (arith, m))))
