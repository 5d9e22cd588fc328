-- ===== src/Exec/Post.antt =====
-- Reasoning about what a computation that returns has achieved.
use code_butler.Prelude.{◌≡◌, refl, Bool, true, false, if◌then◌else◌}
use code_butler.Exec.{Failure, Result, ok, err, Exec, pure, throw, ◌>>=◌, rolled_back}
use code_butler.Exec.Rules.{Leaves, rolled_back_ok}

-- Where `m` begins in a state with `P` and returns, the value and the state that it ends in have `Q`.
pub record Ends {S A : Type 0} (P : S → Type 0) (Q : A → S → Type 0) (m : Exec S A) : Type 0 where
  pub at : (s : S) → P s → (a : A) → (m s).0 ≡ ok a → Q a (m s).1

module _ {S A C : Type 0} where
  continue_ends :
      (Q : C → S → Type 0) (r : Result A) (g : A → Exec S C) (t : S) (c : C)
      → (((λ u. (r, u)) >>= g) t).0 ≡ ok c
      → ((a : A) → r ≡ ok a → (g a t).0 ≡ ok c → Q c (g a t).1)
      → Q c (((λ u. (r, u)) >>= g) t).1
  continue_ends Q (ok a) g t c h k = k a refl h
  continue_ends Q (err e) g t c h k = cc

  pub Ends-bind :
      {P : S → Type 0} (R : A → S → Type 0) {Q : C → S → Type 0} (m : Exec S A) (g : A → Exec S C)
      → Ends P R m
      → ((a : A) → Ends (R a) Q (g a))
      → Ends P Q (m >>= g)
  Ends-bind R {Q = Q} m g k l = record {
    at = λ s p c h.
        continue_ends Q (m s).0 g (m s).1 c h (λ a e e'. (l a).at (m s).1 (k.at s p a e) c e');
  }

module _ {S A : Type 0} {P : S → Type 0} {Q : A → S → Type 0} where
  pub Ends-pure : (a : A) → ((s : S) → P s → Q a s) → Ends P Q (pure a)
  Ends-pure a k = record { at = λ s p b h. let e : a ≡ b = cc in rw (← e) (k s p) }

  pub Ends-throw : (e : Failure) → Ends P Q (throw e)
  Ends-throw e = record { at = λ s p a h. cc }

  pub Ends-if :
      (b : Bool) (m n : Exec S A)
      → (b ≡ true → Ends P Q m)
      → (b ≡ false → Ends P Q n)
      → Ends P Q (if b then m else n)
  Ends-if true m n k l = k refl
  Ends-if false m n k l = l refl

  pub Ends-transaction : (m : Exec S A) → Ends P Q m → Ends P Q (λ s. rolled_back s (m s))
  Ends-transaction m k = record {
    at = λ s p a h. let (e, same) = rolled_back_ok m s h in rw same (k.at s p a e);
  }

-- What depends only on the part that `m` leaves alone holds after it.
pub Ends-Leaves :
    {S A B : Type 0} {f : S → B} (P : B → Type 0) (m : Exec S A)
    → Leaves f m
    → Ends (λ s. P (f s)) (λ _ s. P (f s)) m
Ends-Leaves P m k = record { at = λ s p a h. rw (k.at s) p }
