-- ===== src/Cloud/SyncRequests.antt =====
-- cloud/sync-owner.ts: the requests for an automatic sync of a checkout, and the runs that answer
-- them. Several processes write these files, each file at once.
pub mod Pending
pub mod Answered
mod Tests
use code_butler.Prelude.{
  ℕ, suc, ◌+◌, ◌<◌, ◌≤◌, Bool, true, false, not, ◌&&◌, ◌||◌, Option, none, some, List, [], ◌∷◌,
  nat_eq, any, ◌≡◌, if◌then◌else◌,
}

pub data SyncReason : Type 0 where
  local remote : SyncReason

-- request.json; a random token stands by the number of its drawing.
pub record SyncRequest : Type 0 where
  pub token : ℕ
  pub reason : SyncReason

-- request.json and completed.json, and the tokens that the runs so far have read.
pub record Files : Type 0 where
  pub request : Option SyncRequest
  pub completed : Option ℕ
  pub runs : List ℕ
  pub drawn : ℕ

abbrev pub no_files : Files
no_files = record { request = none; completed = none; runs = []; drawn = 0 }

abbrev pub is_token : Option ℕ → ℕ → Bool
is_token none n = false
is_token (some m) n = nat_eq m n

abbrev pub open_request : Option SyncRequest → Option ℕ → Bool
open_request none completed = false
open_request (some r) completed = not (is_token completed r.token)

-- `automaticSyncPending`
unfoldable pub automatic_sync_pending : Files → Bool
automatic_sync_pending f = open_request f.request f.completed

unfoldable pub request_automatic_sync : SyncReason → Files → Files
request_automatic_sync reason f = record f {
  request = some (record { token = f.drawn; reason = reason });
  drawn = suc f.drawn;
}

abbrev pub is_local : SyncReason → Bool
is_local local = true
is_local remote = false

abbrev pub asks_remote : Option SyncRequest → Bool
asks_remote none = false
asks_remote (some r) = not (is_local r.reason)

-- A local change is not left to a request that came from another device.
unfoldable pub request_automatic_sync_if_absent : SyncReason → Files → Files
request_automatic_sync_if_absent reason f =
    if not (automatic_sync_pending f) || (is_local reason && asks_remote f.request)
    then request_automatic_sync reason f
    else f

-- `pending`
abbrev pub token_of : Option SyncRequest → Option ℕ
token_of none = none
token_of (some r) = some r.token

abbrev with_run : Option ℕ → List ℕ → List ℕ
with_run none runs = runs
with_run (some token) runs = token ∷ runs

-- A run reads the token that is requested, answered or not.
abbrev pub begun : Files → Option ℕ × Files
begun f = (token_of f.request, record f { runs = with_run (token_of f.request) f.runs })

-- `beginRun`, for a process that owns the sync or not; `none` is the error "Automatic sync owner is
-- not held". The token that the run has read is returned.
unfoldable pub begin_run : Bool → Files → Option (Option ℕ × Files)
begin_run owned f = if owned then some (begun f) else none

-- `acknowledge`
unfoldable pub acknowledge : Option ℕ → Files → Files
acknowledge none f = f
acknowledge (some token) f = record f { completed = some token }

-- What the processes do besides beginning a run; a run acknowledges only what it has read.
pub data QuietStep (f : Files) : Files → Type 0 where
  requested : (reason : SyncReason) → QuietStep f (request_automatic_sync reason f)
  requested_if_absent :
      (reason : SyncReason) → QuietStep f (request_automatic_sync_if_absent reason f)
  acknowledged :
      (token : ℕ)
      → any (λ t. nat_eq t token) f.runs ≡ true
      → QuietStep f (acknowledge (some token) f)

pub data QuietSteps (f : Files) : Files → Type 0 where
  still : QuietSteps f f
  after : {g h : Files} → QuietSteps f g → QuietStep g h → QuietSteps f h

-- The files that some interleaving of the processes leaves behind.
pub data Reachable : Files → Type 0 where
  at_first : Reachable no_files
  quietly : {f g : Files} → Reachable f → QuietStep f g → Reachable g
  by_run :
      {f g : Files} {token : Option ℕ} (owned : Bool)
      → Reachable f
      → begin_run owned f ≡ some (token, g)
      → Reachable g
