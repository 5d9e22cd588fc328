-- ===== src/Cloud/OwnerLock/Exclusion.antt =====
-- cloud/sync-owner.ts: at most one living process owns the automatic sync of a checkout.
use code_butler.Prelude.{ℕ, some, true, false, arith, ◌≡◌}
use code_butler.Cloud.OwnerLock.{System, Reach}
use code_butler.Cloud.OwnerLock.Inv.{holds, Reach-Inv}

-- In every state that any interleaving of the instances' file operations and deaths reaches, two
-- living instances that both own the automatic sync are the same one, and owner.json has its token.
pub mutual_exclusion :
    {s : System}
    → Reach s
    → (i j : ℕ) → s.dead i ≡ false
    → s.dead j ≡ false
    → holds (s.pc i) ≡ true
    → holds (s.pc j) ≡ true
    → (i ≡ j) × (s.files.owner ≡ some i)
mutual_exclusion r i j li lj hi hj =
    let at_i = (Reach-Inv r).held i li hi in
    let at_j = (Reach-Inv r).held j lj hj in (ground arith, at_i)
