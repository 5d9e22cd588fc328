-- ===== src/Exec.antt =====
-- Code that reads and writes the project database and may throw. What was written before a throw
-- stays in the state beside the error, until a transaction rolls it back.
pub mod Rules
pub mod Post
use code_butler.Prelude.{Bool, true, false}

-- The errors that the modelled code throws, one constructor for each message.
pub data Failure : Type 0 where
  unknown_memory relates_itself read_only_layer invalid_timestamp invalid_source_id : Failure
  invalid_actor : Failure
  invalid_status replacement_not_allowed replacement_required supersedes_itself : Failure
  different_replacement original_not_current replacement_not_current supersession_cycle : Failure
  out_of_fuel no_core_memory undo_needs_one : Failure
  reason_required supersedes_not_allowed not_current_memory not_in_branch_layer : Failure

pub data Result {ℓ} (A : Type ℓ) : Type ℓ where
  ok : A → Result A
  err : Failure → Result A

abbrev pub Exec : Type 0 → Type 0 → Type 0
Exec S A = S → Result A × S

module _ {S A : Type 0} where
  abbrev pub pure : A → Exec S A
  pure a s = (ok a, s)

  abbrev pub throw : Failure → Exec S A
  throw e s = (err e, s)

module _ {S A B : Type 0} where
  abbrev continue : Result A → (A → Exec S B) → Exec S B
  continue (ok a) f s = f a s
  continue (err e) f s = (err e, s)

  infixl 10 ◌>>=◌ ◌>>◌
  abbrev pub ◌>>=◌ : Exec S A → (A → Exec S B) → Exec S B
  ◌>>=◌ m f s = let (r, s') = m s in continue r f s'

  abbrev pub ◌>>◌ : Exec S A → Exec S B → Exec S B
  m >> n = m >>= λ _. n

abbrev pub gets : {S A : Type 0} → (S → A) → Exec S A
gets f s = (ok (f s), s)

abbrev pub modify : {S : Type 0} → (S → S) → Exec S (Unit {0})
modify f s = (ok tt, f s)

-- `if (b) throw e`
abbrev pub throw_if : {S : Type 0} → Bool → Failure → Exec S (Unit {0})
throw_if true e = throw e
throw_if false e = pure tt

-- The state after a throw is the state before the work.
abbrev pub rolled_back : {S A : Type 0} → S → Result A × S → Result A × S
rolled_back before (ok a, after) = (ok a, after)
rolled_back before (err e, after) = (err e, before)
