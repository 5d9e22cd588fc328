-- ===== src/Cloud/OwnerLock/Recovery.antt =====
-- cloud/sync-owner.ts: what becomes of the lock of an instance that died.
use code_butler.Prelude.{ℕ, Bool, true, false, some, arith, ◌≡◌, refl}
use code_butler.Cloud.OwnerLock.{
  LockFiles, Pc, Move, begin, link_wins, unlink_owner, System, Step, move, die, watch, Runs, stay,
  later, Reach,
}
use code_butler.Cloud.OwnerLock.Inv.{holds, reaps, Inv, Reach-Inv}

pub Runs-trans : {s t u : System} → Runs s t → Runs t u → Runs s u
Runs-trans r stay = r
Runs-trans r (later q st) = later (Runs-trans r q) st

-- Instance `i` alone may come to stand at `p` with the files `f`.
record Gets (s : System) (i : ℕ) (f : LockFiles) (p : Pc) : Type 0 where
  pub last : System
  pub run : Runs s last
  pub alive : last.dead ≡ s.dead
  pub files_are : last.files ≡ f
  pub pc_is : last.pc i ≡ p

-- The instance `r` died while it reaped the lock of the dead process `t`.
pub record Orphaned (r t : ℕ) (s : System) : Type 0 where
  pub lock : s.files.owner ≡ some t
  pub owner_dead : s.dead t ≡ true
  pub reaper_dead : s.dead r ≡ true
  pub at_work : reaps (s.pc r) ≡ some t

module _ {f : LockFiles} {pc : ℕ → Pc} {dead : ℕ → Bool} (inv : Inv f pc dead) (i : ℕ) where
  open inv use {held, doomed, unique}

  Move-keeps_lock :
      {p p' : Pc} {f' : LockFiles} {r t : ℕ}
      → Move i dead f p f' p'
      → pc i ≡ p
      → dead i ≡ false
      → f.owner ≡ some t
      → dead t ≡ true
      → dead r ≡ true
      → reaps (pc r) ≡ some t
      → f'.owner ≡ some t
  Move-keeps_lock (begin _) e l o a b c = o
  Move-keeps_lock (link_wins g) e l o a b c = cc
  Move-keeps_lock {r} {t} (unlink_owner {t = u}) e l o a b c =
      ground (arith, doomed i u, unique i r t)
  Move-keeps_lock mv e l o a b c = ground (arith, held i)

Step-Orphaned :
    {s u : System} {r t : ℕ} → Inv s.files s.pc s.dead → Step s u → Orphaned r t s → Orphaned r t u
Step-Orphaned {s} {r} {t} inv (move i l mv) o = record {
  lock = Move-keeps_lock inv i mv refl l o.lock o.owner_dead o.reaper_dead o.at_work;
  owner_dead = o.owner_dead;
  reaper_dead = o.reaper_dead;
  at_work = ground (arith, l, o.reaper_dead, o.at_work);
}
Step-Orphaned inv (die i) o = record {
  lock = o.lock;
  owner_dead = ground (arith, o.owner_dead);
  reaper_dead = ground (arith, o.reaper_dead);
  at_work = o.at_work;
}
Step-Orphaned inv (watch barred) o = record {
  lock = o.lock;
  owner_dead = o.owner_dead;
  reaper_dead = o.reaper_dead;
  at_work = o.at_work;
}

Runs-Orphaned : {s u : System} {r t : ℕ} → Reach s → Runs s u → Orphaned r t s → Orphaned r t u
Runs-Orphaned g stay o = o
Runs-Orphaned g (later q st) o = Step-Orphaned (Reach-Inv (Runs-trans g q)) st (Runs-Orphaned g q o)

-- If an instance dies between linking and unlinking reap-<token> while owner.json still names the
-- dead process of that token, then in every later state no living instance owns the sync.
pub Orphaned-stays :
    {s u : System} {r t : ℕ}
    → Reach s
    → Orphaned r t s
    → Runs s u
    → (i : ℕ) → u.dead i ≡ false
    → holds (u.pc i) ≡ false
Orphaned-stays {u} {t} g o q i l =
    let after = Runs-Orphaned g q o in
    let at_i = (Reach-Inv (Runs-trans g q)).held i l in ground (arith, after.lock, after.owner_dead)
