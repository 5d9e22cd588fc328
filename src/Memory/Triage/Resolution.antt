-- ===== src/Memory/Triage/Resolution.antt =====
-- memory/branch-triage.ts, `resolveBranchMemoryTriage`: what a resolution is given, what it asks of
-- the store, and what it gives back.
use code_butler.Prelude.{String, Option, List}
use code_butler.Exec.{Exec}
use code_butler.Memory.Facts.{Fact}
use code_butler.Memory.Lifecycle.{StatusInput}
use code_butler.Memory.Retention.{Category, Quality, Layer, Review}
use code_butler.Memory.Triage.{TriageItem, TriageAction}

-- `ResolveBranchMemoryTriageInput`
pub record ResolveInput : Type 0 where
  pub memory_id : String
  pub category : Category
  pub action : TriageAction
  pub reason : String
  pub supersedes_memory_id : Option String
  pub now : Option String

-- The quality that a discarded candidate gets.
pub record CandidateQuality : Type 0 where
  pub quality_status : Quality
  pub quality_reasons : List String
  pub last_verified_at : String

-- The event of a discarded candidate.
pub record Withdrawal : Type 0 where
  pub memory_id : String
  pub layer : String
  pub reason : String
  pub actor : String
  pub at : String
  pub memory_version : String

-- The parts of the store that a resolution calls, on the tables `W`.
pub record TriageStore (W : Type 0) : Type 0 where
  -- `contentPolicy.identifier`, `trim`, `parseNow` and `parseLayer`
  pub identifier : String → String
  pub trim : String → String
  pub parse_now : Option String → Option String
  pub parse_layer : String → Layer
  -- the listing of the candidates that wait, and `readMemory`
  pub find_candidate : String → W → Option Fact
  pub read_memory : String → W → Option Fact
  pub assert_writable_layer : Category → String → Exec W (Unit {0})
  pub promote_memory_candidate : String → String → Exec W Fact
  pub update_memory_layer : String → String → String → Exec W String
  pub update_memory_status : StatusInput → Exec W Fact
  -- the write that waits for the commit
  pub update_candidate_quality : String → CandidateQuality → Exec W (Unit {0})
  pub record_withdrawal : Withdrawal → Exec W (Unit {0})
  pub hash_operation_identifier : String → Exec W String

-- `metadata` of the completed operation.
pub record TriageOperation : Type 0 where
  pub memory_id_hash : String
  pub branch_hash : String
  pub reason_hash : String
  pub category : Category
  pub action : TriageAction
  pub promoted_memory_id_hash : Option String
  pub supersedes_memory_id_hash : Option String
  pub actor : String
  pub at : String

pub record TriageDb (W : Type 0) : Type 0 where
  pub reviews : List Review
  pub operations : List TriageOperation
  pub rest : W

-- What the action has produced.
pub record Resolution : Type 0 where
  pub candidate_after : Option Fact
  pub memory_after : Option Fact
  pub promoted_memory_id : Option String

-- `ResolveBranchMemoryTriageResult`
pub record ResolveResult : Type 0 where
  pub item : TriageItem
  pub action : TriageAction
  pub reviewed_at : String
  pub review_id : String
  pub supersedes_memory_id : Option String
  pub resolution : Resolution
