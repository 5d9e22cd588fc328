-- ===== src/Cloud/SyncRequests/Answered.antt =====
-- What the acknowledgement of a run answers.
use code_butler.Prelude.{
  ℕ, Bool, true, false, Option, none, some, ◌≡◌, ◌⊎◌, ◌↔◌, refl, inl, inr, arith,
}
use mathlib.Core.Path.{subst}
use code_butler.Cloud.SyncRequests.{
  SyncReason, SyncRequest, Files, automatic_sync_pending, request_automatic_sync, token_of, begun,
  begin_run, acknowledge, QuietStep, requested, requested_if_absent, acknowledged, QuietSteps,
  still, after, Reachable,
}
use code_butler.Cloud.SyncRequests.Pending.{
  request_below, requested_from, Old, Newer, Drawn, run_below, if_absent-P, Newer-request,
  Newer-pending, Drawn-run, begin_run-begun, Reachable-Drawn,
}

-- The request is what it was, or newer.
abbrev Since : ℕ → Option SyncRequest → Files → Type 0
Since n request f = Old n f × ((f.request ≡ request) ⊎ (requested_from n f.request ≡ true))

Since-request :
    (n : ℕ) (request : Option SyncRequest) (f : Files) (reason : SyncReason)
    → Old n f
    → Since n request (request_automatic_sync reason f)
Since-request n request f reason old =
    let (old', new) = Newer-request n f reason old in (old', inr new)

Since-step :
    (n : ℕ) (request : Option SyncRequest) (f g : Files)
    → Since n request f
    → QuietStep f g
    → Since n request g
unfolding acknowledge
Since-step n request f _ (old, k) (requested reason) = Since-request n request f reason old
Since-step n request f _ (old, k) (requested_if_absent reason) =
    if_absent-P (Since n request) reason f (Since-request n request f reason old) (old, k)
Since-step n request f _ ((olds, done, le), k) (acknowledged token read) =
    ((olds, run_below n token f.runs olds read, le), k)

Since-steps :
    (n : ℕ) (request : Option SyncRequest) (f g : Files)
    → Since n request f
    → QuietSteps f g
    → Since n request g
Since-steps n request f _ k still = k
Since-steps n request f g k (after {g = h} before step) =
    Since-step n request h g (Since-steps n request f h k before) step

-- A newer request is not answered by a token that was drawn before it.
acknowledge-pending :
    (n : ℕ) (asked : Option SyncRequest) (f : Files)
    → Newer n f
    → request_below n asked ≡ true
    → automatic_sync_pending (acknowledge (token_of asked) f) ≡ true
unfolding acknowledge
acknowledge-pending n none f k b = Newer-pending n f k
acknowledge-pending n (some r) f ((olds, done, le), new) b =
    Newer-pending n (record f { completed = some r.token }) ((olds, b, le), new)

acknowledge-answered :
    (asked : Option SyncRequest) (f : Files)
    → f.request ≡ asked
    → automatic_sync_pending (acknowledge (token_of asked) f) ≡ false
unfolding automatic_sync_pending acknowledge
acknowledge-answered none f e = rw e refl
acknowledge-answered (some r) f e = rw e (ground arith)

begun-answers :
    (f g : Files)
    → Drawn f
    → QuietSteps (begun f).1 g
    → (automatic_sync_pending (acknowledge (begun f).0 g) ≡ false) ↔ (g.request ≡ f.request)
begun-answers f g d steps =
    let (old, below_all) = Drawn-run f d in
    let (old', k) = Since-steps f.drawn f.request (begun f).1 g (old, inl refl) steps in
    (
      λ closed. elim k [
        | inl same ↦ same
        | inr new ↦
            let still_open = acknowledge-pending f.drawn f.request g (old', new) d.1 in absurd cc
      ],
      λ same. acknowledge-answered f.request g same,
    )

-- Once a run has acknowledged the token that it read when it began, no request is open exactly if
-- request.json is what it was then, where no other run began meanwhile; the processes may have asked
-- again, and runs that began earlier may have acknowledged what they had read.
pub run_answers_request :
    (f g h : Files) (token : Option ℕ) (owned : Bool)
    → Reachable f
    → begin_run owned f ≡ some (token, g)
    → QuietSteps g h
    → (automatic_sync_pending (acknowledge token h) ≡ false) ↔ (h.request ≡ f.request)
run_answers_request f g h token owned reach e steps =
    subst
      (λ o.
        QuietSteps o.1 h
        → (automatic_sync_pending (acknowledge o.0 h) ≡ false) ↔ (h.request ≡ f.request))
      (begin_run-begun owned f (token, g) e) (begun-answers f h (Reachable-Drawn f reach)) steps
