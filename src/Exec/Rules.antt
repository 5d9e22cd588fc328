-- ===== src/Exec/Rules.antt =====
-- Reasoning about effects: what a block leaves alone, and what holds of the state after it.
use code_butler.Prelude.{◌≡◌, refl, ◌∙◌, Bool, true, false, if◌then◌else◌}
use code_butler.Exec.{
  Failure, Result, ok, err, Exec, pure, throw, throw_if, gets, ◌>>=◌, ◌>>◌, rolled_back,
}

-- The part `f` of the state is the same after `m`, whether it returns or throws.
pub record Leaves {S A B : Type 0} (f : S → B) (m : Exec S A) : Type 0 where
  pub at : (s : S) → f (m s).1 ≡ f s

rolled_back-leaves :
    {S A B : Type 0} (f : S → B) (s t : S) (r : Result A)
    → f t ≡ f s
    → f (rolled_back s (r, t)).1 ≡ f s
rolled_back-leaves f s t (ok a) h = h
rolled_back-leaves f s t (err e) h = refl

module _ {S A B : Type 0} {f : S → B} where
  pub Leaves-pure : (a : A) → Leaves f (pure a)
  Leaves-pure a = record { at = λ s. refl }

  pub Leaves-throw : (e : Failure) → Leaves f (throw {A = A} e)
  Leaves-throw e = record { at = λ s. refl }

  pub Leaves-gets : (g : S → A) → Leaves f (gets g)
  Leaves-gets g = record { at = λ s. refl }

  pub Leaves-if :
      (b : Bool) (m n : Exec S A) → Leaves f m → Leaves f n → Leaves f (if b then m else n)
  Leaves-if true m n k l = k
  Leaves-if false m n k l = l

  pub Leaves-rolled_back : (m : Exec S A) → Leaves f m → Leaves f (λ s. rolled_back s (m s))
  Leaves-rolled_back m k = record {
    at = λ s. let (r, t) = m s in rolled_back-leaves f s t r (k.at s);
  }

module _ {S B : Type 0} {f : S → B} where
  pub Leaves-throw_if : (b : Bool) (e : Failure) → Leaves f (throw_if b e)
  Leaves-throw_if true e = record { at = λ s. refl }
  Leaves-throw_if false e = record { at = λ s. refl }

module _ {S A B C : Type 0} {f : S → B} where
  continue-Leaves :
      (r : Result A) (g : A → Exec S C) (s : S)
      → ((a : A) → Leaves f (g a))
      → f (((λ t. (r, t)) >>= g) s).1 ≡ f s
  continue-Leaves (ok a) g s k = (k a).at s
  continue-Leaves (err e) g s k = refl

  pub Leaves-bind :
      (m : Exec S A) (g : A → Exec S C)
      → Leaves f m
      → ((a : A) → Leaves f (g a))
      → Leaves f (m >>= g)
  Leaves-bind m g k l = record { at = λ s. let (r, t) = m s in continue-Leaves r g t l ∙ k.at s }

pub ruleset leaves_rules = (
  Leaves-pure, Leaves-throw, Leaves-gets, Leaves-if, Leaves-rolled_back, Leaves-throw_if,
  Leaves-bind,
)

module _ {S A C : Type 0} (P : S → Type 0) where
  continue_state :
      (r : Result A) (g : A → Exec S C) (s : S)
      → P s
      → ((a : A) → r ≡ ok a → P (g a s).1)
      → P (((λ t. (r, t)) >>= g) s).1
  continue_state (ok a) g s p k = k a refl
  continue_state (err e) g s p k = p

  -- What holds after the first part, and after the rest where the first part returned.
  pub bind_state :
      (m : Exec S A) (g : A → Exec S C) (s : S)
      → P (m s).1
      → ((a : A) → (m s).0 ≡ ok a → P (g a (m s).1).1)
      → P ((m >>= g) s).1
  bind_state m g s p k = continue_state (m s).0 g (m s).1 p k

module _ {S A : Type 0} (P : S → Type 0) where
  rolled_back_on : (r : Result A) (s t : S) → P s → P t → P (rolled_back s (r, t)).1
  rolled_back_on (ok a) s t p q = q
  rolled_back_on (err e) s t p q = p

  -- A transaction ends in the state before it or in the state that its work reached.
  pub rolled_back_state : (m : Exec S A) (s : S) → P s → P (m s).1 → P (rolled_back s (m s)).1
  rolled_back_state m s p q = rolled_back_on (m s).0 s (m s).1 p q

module _ {S A C : Type 0} where
  continue_ok :
      (r : Result A) (g : A → Exec S C) (s : S) {c : C}
      → (((λ t. (r, t)) >>= g) s).0 ≡ ok c
      → (a : A) × (r ≡ ok a) × ((g a s).0 ≡ ok c)
  continue_ok (ok a) g s h = (a, refl, h)
  continue_ok (err e) g s h = cc

  -- The parts of a block that returned.
  pub bind_ok :
      (m : Exec S A) (g : A → Exec S C) (s : S) {c : C}
      → ((m >>= g) s).0 ≡ ok c
      → (a : A) × ((m s).0 ≡ ok a) × ((g a (m s).1).0 ≡ ok c)
  bind_ok m g s h = continue_ok (m s).0 g (m s).1 h

-- A guard leaves the state as it is.
pub throw_if_after :
    {S A : Type 0} (P : S → Type 0) (b : Bool) (e : Failure) (m : Exec S A) (s : S)
    → P s
    → P (m s).1
    → P ((throw_if b e >> m) s).1
throw_if_after P true e m s p q = p
throw_if_after P false e m s p q = q

module _ {S A : Type 0} where
  rolled_back_ok_on :
      (r : Result A) (s t : S) {a : A}
      → (rolled_back s (r, t)).0 ≡ ok a
      → (r ≡ ok a) × ((rolled_back s (r, t)).1 ≡ t)
  rolled_back_ok_on (ok a) s t h = (h, refl)
  rolled_back_ok_on (err e) s t h = cc

  -- A transaction that returns ends in the state that its work reached.
  pub rolled_back_ok :
      (m : Exec S A) (s : S) {a : A}
      → (rolled_back s (m s)).0 ≡ ok a
      → ((m s).0 ≡ ok a) × ((rolled_back s (m s)).1 ≡ (m s).1)
  rolled_back_ok m s h = rolled_back_ok_on (m s).0 s (m s).1 h
