-- ===== src/Memory/Promotion/Decide.antt =====
-- `decide`: what is to become of one item.
use Prim.Native.String
use code_butler.Prelude.{
  String, Bool, not, ◌&&◌, ◌||◌, Option, none, some, List, [], ◌∷◌, ◌++◌, map, find?, leb, ltb,
  ◌==◌, if◌then◌else◌,
}
use code_butler.Storage.{current}
use code_butler.Storage.Events.{status_eq, status_text}
use code_butler.Memory.BranchState.{BranchState}
use code_butler.Memory.Retention.{candidate, promoted, category_eq, Review}
use code_butler.Memory.Promotion.{
  PromotionPolicy, PlanItem, PromotionDecision, PromotionDecisionRow, find_decision,
  promotion_policy_version, decided_item, skip_item,
}
use code_butler.Memory.Promotion.Core.{find_core_equivalent}
use code_butler.Memory.Promotion.Tables.{
  PromotionTables, Judge, quality_text, is_active, is_project, is_merged, distinct, reconcile,
}
use code_butler.Memory.Promotion.CoreCandidate.{decide_core_candidate}

module _ (policy : PromotionPolicy) where
  -- `sharedSignals`
  abbrev pub shared_signals : PlanItem → List String
  shared_signals item =
      (if is_project item.memory.scope then "project_scope" ∷ [] else [])
      ++ (if leb policy.min_source_categories
            (distinct (map (λ e. e.source_type) item.memory.evidence))
          then "corroborated_source_categories" ∷ []
          else [])
      ++ (if is_merged item.branch_state then "branch_merged_to_default" ∷ [] else [])

abbrev pub suppressing_action : String → Bool
suppressing_action action = action == "retain_branch" || action == "discard"

-- `findSuppressingReview`
unfoldable pub find_suppressing_review : List Review → PlanItem → Option String
find_suppressing_review reviews item =
    elim (find?
      (λ r.
        r.memory_id == item.memory.id
        && category_eq r.category item.category
        && r.memory_version == item.memory_version)
      reviews) [
        | none ↦ none
        | some r ↦ if suppressing_action r.action then some r.action else none
      ]

-- The branch is checked out, or it has commits that the default branch lacks.
abbrev pub branch_in_progress : Option BranchState → Option String
branch_in_progress (some BranchState.current) = some "branch_current"
branch_in_progress (some BranchState.active) = some "branch_active"
branch_in_progress _ = none

-- `lifecycleStatus` of a durable memory that is not current.
abbrev pub archived_status : PlanItem → Option String
archived_status item = elim item.category [
  | candidate ↦ none
  | promoted ↦
      if status_eq item.memory.lifecycle_status current
      then none
      else some (String.◌++◌ "lifecycle_" (status_text item.memory.lifecycle_status))
]

module _ (judge : Judge) (policy : PromotionPolicy) (tables : PromotionTables) where
  -- The steps 4 to 7, for an item with a shared signal.
  abbrev pub decide_shared : PlanItem → List String → PromotionDecision
  decide_shared item codes = elim (find_suppressing_review tables.triage_reviews item) [
    | some action ↦
        skip_item item item.score codes
          (String.◌++◌ (String.◌++◌ "suppressed_by_" action) "_review" ∷ [])
    | none ↦ elim (branch_in_progress item.branch_state) [
      | some code ↦ skip_item item item.score codes (code ∷ [])
      | none ↦
          if ltb item.score policy.min_score
          then skip_item item item.score codes ("below_minimum_score" ∷ [])
          else reconcile item item.score (codes ++ "meets_minimum_score" ∷ [])
              (find_core_equivalent judge.words item.memory tables.core)
    ]
  ]

  abbrev pub decide_signals : PlanItem → List String → List String → PromotionDecision
  decide_signals item codes [] = skip_item item item.score codes ("no_shared_signal" ∷ [])
  decide_signals item codes (s ∷ signals) = decide_shared item (codes ++ s ∷ signals)

  -- `decide`, for an item outside the core layer without a recorded decision.
  unfoldable pub decide_local : PlanItem → PromotionDecision
  unfolding find_suppressing_review
  decide_local item =
      if not (is_active item.memory.quality_status)
      then skip_item item item.score []
          (String.◌++◌ "quality_" (quality_text item.memory.quality_status) ∷ [])
      else elim (archived_status item) [
        | some code ↦ skip_item item item.score ("active_quality" ∷ []) (code ∷ [])
        | none ↦
            if ltb item.memory.confidence policy.confidence_threshold
            then skip_item item item.score ("active_quality" ∷ [])
                ("below_confidence_threshold" ∷ [])
            else decide_signals item ("active_quality" ∷ "meets_confidence_threshold" ∷ [])
                (shared_signals policy item)
      ]

  -- A recorded decision stands.
  abbrev pub recorded_decision : PlanItem → PromotionDecisionRow → PromotionDecision
  recorded_decision item row =
      decided_item item item.score row.decision row.reason_codes row.core_memory_id

  abbrev pub is_core_candidate : PlanItem → Bool
  is_core_candidate item = category_eq item.category candidate && judge.is_core item.layer

  unfoldable pub decide : PlanItem → PromotionDecision
  unfolding decide_local
  decide item =
      elim (find_decision tables.decisions item.memory.id item.category item.memory_version
        promotion_policy_version) [
          | some row ↦ recorded_decision item row
          | none ↦
              if is_core_candidate item
              then decide_core_candidate judge policy tables item
              else decide_local item
        ]
