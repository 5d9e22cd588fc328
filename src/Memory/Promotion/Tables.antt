-- ===== src/Memory/Promotion/Tables.antt =====
-- What a promotion decision reads, and the parts both kinds of item share.
use code_butler.Prelude.{
  ℕ, String, Bool, true, false, Option, none, some, List, [], ◌∷◌, ◌++◌, length, ◌==◌, sort_texts,
}
use code_butler.Memory.BranchState.{BranchState}
use code_butler.Memory.EvidenceMerge.{dedupe}
use code_butler.Memory.Facts.{Fact, Words, Scope}
use code_butler.Memory.Retention.{Quality, Review}
use code_butler.Memory.Reviews.{ReviewTables, ReviewContext}
use code_butler.Memory.Promotion.{
  promote, converge, defer, PlanItem, PromotionDecision, PromotionDecisionRow, decided_item,
}
use code_butler.Memory.Promotion.Core.{CoreMatch, no_match, equivalent, conflicting}

-- What the decisions read of the database.
pub record PromotionTables : Type 0 where
  pub decisions : List PromotionDecisionRow
  -- the branch reviews, the latest first
  pub triage_reviews : List Review
  pub reviews : ReviewTables
  pub candidates : List Fact
  pub memories : List Fact
  -- the current durable memories of the core layer
  pub core : List Fact

-- The runtime: texts, the order of times, whether a text is `like` a pattern, and the tokens of a memory's context, which hash its
-- evidence and files.
pub record Judge : Type 0 where
  pub words : Words
  pub later : String → String → Bool
  pub context : Fact → ReviewContext
  pub is_core : String → Bool
  pub sql_like : String → String → Bool

abbrev pub quality_text : Quality → String
quality_text Quality.active = "active"
quality_text Quality.needs_review = "needs_review"
quality_text Quality.quarantined = "quarantined"

abbrev pub is_active : Quality → Bool
is_active Quality.active = true
is_active _ = false

abbrev pub is_project : Scope → Bool
is_project Scope.project = true
is_project _ = false

abbrev pub is_merged : Option BranchState → Bool
is_merged (some BranchState.merged) = true
is_merged _ = false

-- `new Set(texts).size`
abbrev pub distinct : List String → ℕ
distinct ts = length (dedupe (λ a b. a == b) [] ts)

-- What remains to be decided of an item that may be shared.
abbrev pub reconcile : PlanItem → ℕ → List String → CoreMatch → PromotionDecision
reconcile item score codes no_match = decided_item item score promote (sort_texts codes) none
reconcile item score codes (equivalent m) =
    decided_item item score converge (sort_texts (codes ++ "converged_existing_core_fact" ∷ []))
      (some m.id)
reconcile item score codes (conflicting m) =
    decided_item item score defer (sort_texts (codes ++ "core_fact_conflict" ∷ [])) (some m.id)
