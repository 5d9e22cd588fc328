-- ===== src/Cloud/SyncRequests/Pending.antt =====
-- No request is lost between the processes.
use code_butler.Prelude.{
  ℕ, suc, ◌≤◌, Bool, true, false, not, ◌&&◌, ◌||◌, Option, none, some, List, [], ◌∷◌, nat_eq, ltb,
  leb, any, ◌≡◌, refl, inl, inr, arith, Option-cases, Bool-cases, All,
}
use mathlib.Core.Path.{subst}
use code_butler.Cloud.SyncRequests.{
  SyncReason, SyncRequest, Files, automatic_sync_pending, request_automatic_sync, asks_remote,
  is_local, request_automatic_sync_if_absent, begun, begin_run, acknowledge, QuietStep, requested,
  requested_if_absent, acknowledged, QuietSteps, still, after, Reachable, at_first, quietly, by_run,
}

abbrev below : ℕ → Option ℕ → Bool
below n none = true
below n (some t) = ltb t n

abbrev pub request_below : ℕ → Option SyncRequest → Bool
request_below n none = true
request_below n (some r) = ltb r.token n

abbrev pub requested_from : ℕ → Option SyncRequest → Bool
requested_from n none = false
requested_from n (some r) = leb n r.token

-- The tokens in the files were drawn before `n`.
abbrev pub Old : ℕ → Files → Type 0
Old n f = (All (λ t. ltb t n ≡ true) f.runs) × (below n f.completed ≡ true) × (n ≤ f.drawn)

-- The request is newer than what the runs have read and what they have answered.
abbrev pub Newer : ℕ → Files → Type 0
Newer n f = Old n f × (requested_from n f.request ≡ true)

pub run_below :
    (n token : ℕ) (runs : List ℕ)
    → All (λ t. ltb t n ≡ true) runs
    → any (λ t. nat_eq t token) runs ≡ true
    → ltb token n ≡ true
run_below n token [] olds h = ground arith
run_below n token (t ∷ ts) (old, olds) h = ground (arith, run_below n token ts olds)

abbrev if_absent_asks : SyncReason → Files → Bool
if_absent_asks reason f =
    not (automatic_sync_pending f) || (is_local reason && asks_remote f.request)

pub if_absent-P :
    (P : Files → Type 0) (reason : SyncReason) (f : Files)
    → P (request_automatic_sync reason f)
    → P f
    → P (request_automatic_sync_if_absent reason f)
unfolding request_automatic_sync_if_absent
if_absent-P P reason f asks keeps = elim (Bool-cases (if_absent_asks reason f)) [
  | inl e ↦ rw (e, request_automatic_sync_if_absent) asks
  | inr e ↦ rw (e, request_automatic_sync_if_absent) keeps
]

pub Newer-request :
    (n : ℕ) (f : Files) (reason : SyncReason) → Old n f → Newer n (request_automatic_sync reason f)
unfolding request_automatic_sync
Newer-request n f reason (olds, done, le) = ((olds, done, omega arith), ground arith)

Newer-step : (n : ℕ) (f g : Files) → Newer n f → QuietStep f g → Newer n g
unfolding acknowledge
Newer-step n f _ (old, new) (requested reason) = Newer-request n f reason old
Newer-step n f _ (old, new) (requested_if_absent reason) =
    if_absent-P (Newer n) reason f (Newer-request n f reason old) (old, new)
Newer-step n f _ ((olds, done, le), new) (acknowledged token read) =
    ((olds, run_below n token f.runs olds read, le), new)

Newer-steps : (n : ℕ) (f g : Files) → Newer n f → QuietSteps f g → Newer n g
Newer-steps n f _ k still = k
Newer-steps n f g k (after {g = h} before step) = Newer-step n h g (Newer-steps n f h k before) step

pub Newer-pending : (n : ℕ) (f : Files) → Newer n f → automatic_sync_pending f ≡ true
unfolding automatic_sync_pending
Newer-pending n f ((olds, done, le), new) = elim (Option-cases f.request) [
  | inl e ↦ let new' = rw e at new in ground arith
  | inr (r, e) ↦ elim (Option-cases f.completed) [
    | inl c ↦ rw (e, c, automatic_sync_pending) refl
    | inr (t, c) ↦
        let new' = rw e at new in
        let done' = rw c at done in rw (e, c, automatic_sync_pending) (ground arith)
  ]
]

olds_suc : (n : ℕ) (ts : List ℕ) → All (λ t. ltb t n ≡ true) ts → All (λ t. ltb t (suc n) ≡ true) ts
olds_suc n [] olds = tt
olds_suc n (t ∷ ts) (old, olds) = (ground arith, olds_suc n ts olds)

below-suc : (n : ℕ) (o : Option ℕ) → below n o ≡ true → below (suc n) o ≡ true
below-suc n none h = refl
below-suc n (some t) h = ground arith

-- All tokens in the files have been drawn.
abbrev pub Drawn : Files → Type 0
Drawn f = Old f.drawn f × (request_below f.drawn f.request ≡ true)

Drawn-request :
    (f : Files) (reason : SyncReason) → Drawn f → Drawn (request_automatic_sync reason f)
unfolding request_automatic_sync
Drawn-request f reason ((olds, done, le), asked) =
    ((olds_suc f.drawn f.runs olds, below-suc f.drawn f.completed done, omega arith), ground arith)

Drawn-step : (f g : Files) → Drawn f → QuietStep f g → Drawn g
unfolding acknowledge
Drawn-step f _ d (requested reason) = Drawn-request f reason d
Drawn-step f _ d (requested_if_absent reason) =
    if_absent-P Drawn reason f (Drawn-request f reason d) d
Drawn-step f _ ((olds, done, le), asked) (acknowledged token read) =
    ((olds, run_below f.drawn token f.runs olds read, le), asked)

pub Drawn-run : (f : Files) → Drawn f → Drawn (begun f).1
Drawn-run f ((olds, done, le), asked) = elim (Option-cases f.request) [
  | inl e ↦ rw e ((olds, done, le), rw e at asked)
  | inr (r, e) ↦ let asked' = rw e at asked in rw e (((asked', olds), done, le), asked')
]

pub begin_run-begun :
    (owned : Bool) (f : Files) (o : Option ℕ × Files) → begin_run owned f ≡ some o → begun f ≡ o
unfolding begin_run
begin_run-begun true f o e = cc
begin_run-begun false f o e = cc

pub Reachable-Drawn : (f : Files) → Reachable f → Drawn f
Reachable-Drawn _ at_first = ((tt, refl, omega arith), refl)
Reachable-Drawn g (quietly {f = f} before step) = Drawn-step f g (Reachable-Drawn f before) step
Reachable-Drawn g (by_run {f = f} {token} owned before e) =
    subst (λ o. Drawn o.1) (begin_run-begun owned f (token, g) e)
      (Drawn-run f (Reachable-Drawn f before))

-- A request stays open until a run begins after it, whatever the processes do in between: they may
-- ask again, and runs that began earlier may acknowledge what they have read.
pub request_stays_pending :
    (f g : Files) (reason : SyncReason)
    → Reachable f
    → QuietSteps (request_automatic_sync reason f) g
    → automatic_sync_pending g ≡ true
request_stays_pending f g reason reach steps =
    let (old, asked) = Reachable-Drawn f reach in
    Newer-pending f.drawn g (
      Newer-steps f.drawn (request_automatic_sync reason f) g (Newer-request f.drawn f reason old)
        steps)

-- After a process asked for a sync that may be asked for already, a request is open, whatever the
-- processes did before.
pub request_if_absent-pending :
    (f : Files) (reason : SyncReason)
    → Reachable f
    → automatic_sync_pending (request_automatic_sync_if_absent reason f) ≡ true
unfolding request_automatic_sync_if_absent
request_if_absent-pending f reason reach =
    let (old, asked) = Reachable-Drawn f reach in
    let new =
      Newer-pending f.drawn (request_automatic_sync reason f)
        (Newer-request f.drawn f reason old) in
    elim (Bool-cases (if_absent_asks reason f)) [
      | inl e ↦ rw (e, request_automatic_sync_if_absent) new
      | inr e ↦ rw (e, request_automatic_sync_if_absent) (ground arith)
    ]
