-- ===== src/Memory/Promotion.antt =====
-- memory/automatic-promotion.ts: which memories become shared durable memories on their own.
pub mod Core
pub mod Tables
pub mod CoreCandidate
pub mod Decide
pub mod Corroboration
pub mod Outright
pub mod Unrecorded
pub mod Plan
pub mod Apply
pub mod Replay
pub mod Undo
pub mod Undone
pub mod Tests
use code_butler.Prelude.{
  ℕ, ◌*◌, String, Bool, true, false, ◌&&◌, Option, none, some, List, [], ◌∷◌, ◌++◌, find?, nat_eq,
  ◌==◌, sort_texts,
}
use code_butler.Memory.BranchState.{BranchState}
use code_butler.Memory.Facts.{Fact}
use code_butler.Memory.Retention.{Category, category_eq}

-- `AutomaticPromotionDecisionKind`
pub data Verdict : Type 0 where
  promote converge defer skip : Verdict

abbrev pub verdict_eq : Verdict → Verdict → Bool
verdict_eq promote promote = true
verdict_eq converge converge = true
verdict_eq defer defer = true
verdict_eq skip skip = true
verdict_eq _ _ = false

-- `AutomaticPromotionConfig` with the two thresholds of `PromotionConfig`. Scores and confidences
-- between 0 and 1 stand by their multiples of one tenth of `unit`.
pub record PromotionPolicy : Type 0 where
  pub enabled : Bool
  pub min_score : ℕ
  pub merged_branches : Bool
  pub device_memories : Bool
  pub core_candidates : Bool
  pub single_source_min_confidence : Option ℕ
  pub confidence_threshold : ℕ
  pub min_source_categories : ℕ
  pub unit : ℕ

-- `policy.singleSourceMinConfidence ?? 0.9`
abbrev pub single_source_bar : PromotionPolicy → ℕ
single_source_bar policy = elim policy.single_source_min_confidence [
  | none ↦ 9 * policy.unit
  | some bar ↦ bar
]

-- `PlanItem`
pub record PlanItem : Type 0 where
  pub category : Category
  pub memory : Fact
  pub layer : String
  pub memory_version : String
  pub score : ℕ
  pub branch_state : Option BranchState

-- `AutomaticPromotionDecision`; the policy version is a constant.
pub record PromotionDecision : Type 0 where
  pub memory_id : String
  pub category : Category
  pub title : String
  pub current_layer : String
  pub memory_version : String
  pub decision : Verdict
  pub reason_codes : List String
  pub score : ℕ
  pub core_memory_id : Option String

abbrev pub promotion_policy_version : ℕ
promotion_policy_version = 2

-- `PromotionDecisionRow`, with the reason codes that its JSON text holds.
pub record PromotionDecisionRow : Type 0 where
  pub id : String
  pub memory_id : String
  pub category : Category
  pub memory_version : String
  pub policy_version : ℕ
  pub decision : Verdict
  pub reason_codes : List String
  pub target_layer : String
  pub core_memory_id : Option String
  pub decided_at : String
  pub actor : String

-- The key of the table.
abbrev pub has_key : String → Category → String → ℕ → PromotionDecisionRow → Bool
has_key memory_id category memory_version policy_version r =
    r.memory_id == memory_id
    && category_eq r.category category
    && r.memory_version == memory_version
    && nat_eq r.policy_version policy_version

unfoldable pub find_decision :
    List PromotionDecisionRow → String → Category → String → ℕ → Option PromotionDecisionRow
find_decision rows memory_id category memory_version policy_version =
    find? (has_key memory_id category memory_version policy_version) rows

-- `base`, with a decision.
abbrev pub decided_item : PlanItem → ℕ → Verdict → List String → Option String → PromotionDecision
decided_item item score verdict codes core_memory_id = record {
  memory_id = item.memory.id;
  category = item.category;
  title = item.memory.title;
  current_layer = item.layer;
  memory_version = item.memory_version;
  decision = verdict;
  reason_codes = codes;
  score = score;
  core_memory_id = core_memory_id;
}

-- `skip(...codes)`
abbrev pub skip_item : PlanItem → ℕ → List String → List String → PromotionDecision
skip_item item score reason_codes codes =
    decided_item item score skip (sort_texts (reason_codes ++ codes)) none
