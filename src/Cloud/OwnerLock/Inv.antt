-- ===== src/Cloud/OwnerLock/Inv.antt =====
-- What holds of the lock's files in every reachable state.
use code_butler.Prelude.{ℕ, Bool, true, false, Option, none, some, arith, ◌≡◌, ◌≢◌, refl}
use code_butler.Cloud.OwnerLock.Family.{update}
use code_butler.Cloud.OwnerLock.{
  LockFiles, Pc, reaping, checking, removing, removed, owned, releasing, dropping, Move, begin,
  link_wins, link_exists, looks_dead, link_reaper, check_same, unlink_owner, release_same,
  release_differs, System, Step, move, die, watch, stay, later, init, Reach,
}

-- `acquire` has returned true, and `release` has not ended.
abbrev pub holds : Pc → Bool
holds owned = true
holds releasing = true
holds dropping = true
holds _ = false

-- The token that an instance has found dead.
abbrev pub target : Pc → Option ℕ
target (reaping _ t) = some t
target (checking _ t) = some t
target (removing _ t) = some t
target (removed _ t) = some t
target _ = none

-- The token whose reaper file an instance has linked and not unlinked.
abbrev pub reaps : Pc → Option ℕ
reaps (checking _ t) = some t
reaps (removing _ t) = some t
reaps (removed _ t) = some t
reaps _ = none

-- The token whose lock an instance is about to unlink.
abbrev pub removes : Pc → Option ℕ
removes (removing _ t) = some t
removes _ = none

pub record Inv (f : LockFiles) (pc : ℕ → Pc) (dead : ℕ → Bool) : Type 0 where
  pub held : (i : ℕ) → dead i ≡ false → holds (pc i) ≡ true → f.owner ≡ some i
  pub sentenced : (i t : ℕ) → target (pc i) ≡ some t → dead t ≡ true
  pub marked : (i t : ℕ) → reaps (pc i) ≡ some t → f.reapers t ≡ true
  pub unique : (i j t : ℕ) → reaps (pc i) ≡ some t → reaps (pc j) ≡ some t → i ≡ j
  pub doomed : (i t : ℕ) → removes (pc i) ≡ some t → f.owner ≡ some t

-- The premise of a move, for the catch-all clauses below, which cannot name it.
abbrev Premise :
    {i : ℕ} {dead : ℕ → Bool} {f f' : LockFiles} {p p' : Pc} → Move i dead f p f' p' → Type 0
Premise {f} (link_wins _) = f.owner ≡ none
Premise {f} (link_exists {t} _) = f.owner ≡ some t
Premise {dead} (looks_dead {t} _) = dead t ≡ true
Premise {f} (link_reaper {t} _ _) = f.reapers t ≡ false
Premise {f} (check_same {t} _) = f.owner ≡ some t
Premise {i} {f} (release_same _) = f.owner ≡ some i
Premise {i} {f} (release_differs _) = f.owner ≢ some i
Premise _ = Unit

premise :
    {i : ℕ} {dead : ℕ → Bool} {f f' : LockFiles} {p p' : Pc} (mv : Move i dead f p f' p')
    → Premise mv
premise (link_wins g) = g
premise (link_exists g) = g
premise (looks_dead g) = g
premise (link_reaper _ g) = g
premise (check_same g) = g
premise (release_same g) = g
premise (release_differs g) = g
premise _ = tt

module _ {f : LockFiles} {pc : ℕ → Pc} {dead : ℕ → Bool} (inv : Inv f pc dead) (i : ℕ) where
  open inv use {held, sentenced, marked, unique, doomed}

  Move-held :
      {p p' : Pc} {f' : LockFiles}
      → Move i dead f p f' p'
      → pc i ≡ p
      → dead i ≡ false
      → (j : ℕ) → dead j ≡ false
      → holds (update pc i p' j) ≡ true
      → f'.owner ≡ some j
  Move-held (begin _) e l j a h = ground (arith, held j)
  Move-held (unlink_owner {t}) e l j a h = ground (arith, held j, doomed i t, sentenced i t)
  Move-held mv e l j a h = ground (arith, premise mv, held j, held i, doomed i j, sentenced i j)

  Move-sentenced :
      {p p' : Pc} {f' : LockFiles}
      → Move i dead f p f' p'
      → pc i ≡ p
      → (j t : ℕ) → target (update pc i p' j) ≡ some t
      → dead t ≡ true
  Move-sentenced (begin _) e j t h = ground (arith, sentenced j t)
  Move-sentenced mv e j t h = ground (arith, premise mv, sentenced j t, sentenced i t)

  Move-marked :
      {p p' : Pc} {f' : LockFiles}
      → Move i dead f p f' p'
      → pc i ≡ p
      → (j t : ℕ) → reaps (update pc i p' j) ≡ some t
      → f'.reapers t ≡ true
  Move-marked (begin _) e j t h = ground (arith, marked j t)
  Move-marked mv e j t h = ground (arith, marked j t, marked i t, unique i j t)

  Move-unique :
      {p p' : Pc} {f' : LockFiles}
      → Move i dead f p f' p'
      → pc i ≡ p
      → (j k t : ℕ) → reaps (update pc i p' j) ≡ some t
      → reaps (update pc i p' k) ≡ some t
      → j ≡ k
  Move-unique (begin _) e j k t hj hk = ground (arith, unique j k t)
  Move-unique mv e j k t hj hk =
      ground (arith, premise mv, unique j k t, unique i k t, unique j i t, marked j t, marked k t)

  Move-doomed :
      {p p' : Pc} {f' : LockFiles}
      → Move i dead f p f' p'
      → pc i ≡ p
      → dead i ≡ false
      → (j t : ℕ) → removes (update pc i p' j) ≡ some t
      → f'.owner ≡ some t
  Move-doomed (begin _) e l j t h = ground (arith, doomed j t)
  Move-doomed (unlink_owner {t = u}) e l j t h =
      ground (arith, doomed j t, doomed i u, unique i j t)
  Move-doomed mv e l j t h = ground (
    arith,
    premise mv,
    doomed j t,
    doomed i t,
    unique i j t,
    held i,
    sentenced j i,
    sentenced j t,
  )

  Move-Inv :
      {p' : Pc} {f' : LockFiles}
      → dead i ≡ false
      → Move i dead f (pc i) f' p'
      → Inv f' (update pc i p') dead
  Move-Inv l mv = record {
    held = Move-held mv refl l;
    sentenced = Move-sentenced mv refl;
    marked = Move-marked mv refl;
    unique = Move-unique mv refl;
    doomed = Move-doomed mv refl l;
  }

  die-Inv : Inv f pc (update dead i true)
  die-Inv = record {
    held = λ j a h. ground (arith, held j);
    sentenced = λ j t h. ground (arith, sentenced j t);
    marked = λ j t h. marked j t h;
    unique = λ j k t h g. unique j k t h g;
    doomed = λ j t h. doomed j t h;
  }

Inv-init : Inv init.files init.pc init.dead
Inv-init = record {
  held = λ i a h. cc;
  sentenced = λ i t h. cc;
  marked = λ i t h. cc;
  unique = λ i j t h g. cc;
  doomed = λ i t h. cc;
}

pub Step-Inv : {s t : System} → Step s t → Inv s.files s.pc s.dead → Inv t.files t.pc t.dead
Step-Inv (move i l mv) inv = Move-Inv inv i l mv
Step-Inv (die i) inv = die-Inv inv i
Step-Inv (watch barred) inv = record {
  held = inv.held;
  sentenced = inv.sentenced;
  marked = inv.marked;
  unique = inv.unique;
  doomed = inv.doomed;
}

pub Reach-Inv : {s : System} → Reach s → Inv s.files s.pc s.dead
Reach-Inv stay = Inv-init
Reach-Inv (later r st) = Step-Inv st (Reach-Inv r)
