-- ===== src/Cloud/OwnerLock.antt =====
-- cloud/sync-owner.ts: the lock file owner.json, by which one process at a time runs the automatic
-- sync of a checkout. Each file operation of `acquire` and `release` is one step; any number of
-- processes interleave, and any of them may die between two steps. cloud/gate.ts reaps the lock of
-- a dead owner the same way.
pub mod Family
pub mod Inv
pub mod Exclusion
pub mod Recovery
mod Tests
use code_butler.Prelude.{ℕ, zero, suc, Bool, true, false, Option, none, some, ◌≡◌, ◌≢◌}
use code_butler.Cloud.OwnerLock.Family.{update}

-- owner.json with the token of the process that linked it, and which files reap-<token> exist.
-- Instance `i` of `AutomaticSyncOwner` has the token `i`. It is barred where `activeGlobalWatcher`
-- finds a watcher on record, alive, that did not start it.
pub record LockFiles : Type 0 where
  pub owner : Option ℕ
  pub reapers : ℕ → Bool
  pub barred : ℕ → Bool

-- Where an instance stands, with the local variables that are live there: `n` is the number of
-- attempts that are left, `t` the token that `acquire` read.
pub data Pc : Type 0 where
  idle : Pc  -- `owned` is false
  trying : (n : ℕ) → Pc  -- the head of the loop
  found : (n : ℕ) → Pc  -- linking failed with EEXIST
  saw : (n t : ℕ) → Pc  -- before `processIsLive`
  reaping : (n t : ℕ) → Pc  -- before linking reap-<t>
  checking : (n t : ℕ) → Pc  -- before reading owner.json again
  removing : (n t : ℕ) → Pc  -- before unlinking owner.json
  removed : (n t : ℕ) → Pc  -- the inner `finally`
  owned : Pc
  releasing : Pc  -- start of `release`
  dropping : Pc  -- before the unlink of `release`

abbrev attempts : ℕ
attempts = 2

-- One file operation of instance `i`, given which processes have died.
pub data Move (i : ℕ) (dead : ℕ → Bool) (f : LockFiles) : Pc → LockFiles → Pc → Type 0 where
  begin : f.barred i ≡ false → Move i dead f idle f (trying attempts)
  refuse : f.barred i ≡ true → Move i dead f idle f idle
  link_wins :
      {n : ℕ} → f.owner ≡ none → Move i dead f (trying (suc n)) (record f { owner = some i }) owned
  link_exists : {n t : ℕ} → f.owner ≡ some t → Move i dead f (trying (suc n)) f (found n)
  give_up : Move i dead f (trying zero) f idle
  read_none : {n : ℕ} → f.owner ≡ none → Move i dead f (found n) f (trying n)
  read_owner : {n t : ℕ} → f.owner ≡ some t → Move i dead f (found n) f (saw n t)
  looks_live : {n t : ℕ} → Move i dead f (saw n t) f idle
  looks_dead : {n t : ℕ} → dead t ≡ true → Move i dead f (saw n t) f (reaping n t)
  reaper_gone : {n t : ℕ} → f.owner ≡ none → Move i dead f (reaping n t) f (trying n)
  reaper_exists : {n t : ℕ} → f.reapers t ≡ true → Move i dead f (reaping n t) f (trying n)
  link_reaper :
      {n t u : ℕ}
      → f.owner ≡ some u
      → f.reapers t ≡ false
      → Move i dead f (reaping n t) (record f { reapers = update f.reapers t true }) (checking n t)
  check_same : {n t : ℕ} → f.owner ≡ some t → Move i dead f (checking n t) f (removing n t)
  check_differs : {n t : ℕ} → f.owner ≢ some t → Move i dead f (checking n t) f (removed n t)
  unlink_owner : {n t : ℕ} → Move i dead f (removing n t) (record f { owner = none }) (removed n t)
  unlink_reaper :
      {n t : ℕ}
      → Move i dead f (removed n t) (record f { reapers = update f.reapers t false }) (trying n)
  keep : f.barred i ≡ false → Move i dead f owned f owned
  release : Move i dead f owned f releasing  -- also `acquire` of a barred instance
  release_same : f.owner ≡ some i → Move i dead f releasing f dropping
  release_differs : f.owner ≢ some i → Move i dead f releasing f idle
  release_unlink : Move i dead f dropping (record f { owner = none }) idle

pub record System : Type 0 where
  pub files : LockFiles
  pub pc : ℕ → Pc
  pub dead : ℕ → Bool

-- A living process makes a move, or dies, or the global watcher is started, stopped, or told of
-- another checkout.
pub data Step (s : System) : System → Type 0 where
  move :
      (i : ℕ) {f : LockFiles} {p : Pc}
      → s.dead i ≡ false
      → Move i s.dead s.files (s.pc i) f p
      → Step s (record s { files = f; pc = update s.pc i p })
  die : (i : ℕ) → Step s (record s { dead = update s.dead i true })
  watch : (barred : ℕ → Bool) → Step s (record s { files = record s.files { barred = barred } })

pub data Runs (s : System) : System → Type 0 where
  stay : Runs s s
  later : {t u : System} → Runs s t → Step t u → Runs s u

-- No process has started, no global watcher runs, and neither owner.json nor a file reap-<token> exists.
abbrev pub init : System
init = record {
  files = record { owner = none; reapers = λ _. false; barred = λ _. false };
  pc = λ _. idle;
  dead = λ _. false;
}

abbrev pub Reach : System → Type 0
Reach s = Runs init s
