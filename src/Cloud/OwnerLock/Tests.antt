-- ===== src/Cloud/OwnerLock/Tests.antt =====
-- Schedules of two instances, and the theorems about them at these.
use code_butler.Prelude.{ℕ, false, some, ◌≡◌, refl}
use code_butler.Cloud.OwnerLock.{
  begin, link_wins, link_exists, read_owner, looks_dead, link_reaper, System, move, die, stay,
  later, Reach,
}
use code_butler.Cloud.OwnerLock.Inv.{holds}
use code_butler.Cloud.OwnerLock.Exclusion.{mutual_exclusion}
use code_butler.Cloud.OwnerLock.Recovery.{Orphaned-stays}
use native.Mathlib.Decide.{ℕ_discrete}

runs : Unit {0}
unfolding ℕ_discrete
runs = tt

-- Instance 0 acquires the lock.
abbrev taken : (s : System) × Reach s
unfolding runs
taken = (_, later (later stay (move 0 refl (begin refl))) (move 0 refl (link_wins refl)))

mutual_exclusion_example : ◌≡◌ {A = ℕ} 0 0 × (taken.0.files.owner ≡ some 0)
unfolding runs
mutual_exclusion_example = mutual_exclusion taken.1 0 0 refl refl refl refl

-- It dies.
abbrev dead_owner : (s : System) × Reach s
unfolding runs
dead_owner = (_, later taken.1 (die 0))

-- Instance 1 finds the lock, links reap-0, and dies.
abbrev orphan : (s : System) × Reach s
unfolding runs
orphan = (
  _,
  later
      (later
        (later
          (later
            (later (later dead_owner.1 (move 1 refl (begin refl))) (move 1 refl (link_exists refl)))
            (move 1 refl (read_owner refl)))
          (move 1 refl (looks_dead refl)))
        (move 1 refl (link_reaper refl refl)))
      (die 1),
)

Orphaned-stays_example : holds (orphan.0.pc 2) ≡ false
unfolding runs
Orphaned-stays_example =
    Orphaned-stays {r = 1} {t = 0} orphan.1
      (record { lock = refl; owner_dead = refl; reaper_dead = refl; at_work = refl }) stay 2 refl
