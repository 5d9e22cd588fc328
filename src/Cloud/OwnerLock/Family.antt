-- ===== src/Cloud/OwnerLock/Family.antt =====
-- Families indexed by a process or a token, changed at one index.
use code_butler.Prelude.{ℕ}
use mathlib.Core.Logic.{ite}
use native.Mathlib.Decide.{ℕ_discrete}

abbrev pub update : {A : Type 0} → (ℕ → A) → ℕ → A → ℕ → A
update f i a j = ite (ℕ_discrete i j) a (f j)
