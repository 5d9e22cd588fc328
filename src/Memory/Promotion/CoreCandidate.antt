-- ===== src/Memory/Promotion/CoreCandidate.antt =====
-- `decideCoreCandidate`: a candidate of the core layer is shared once it is corroborated.
use Prim.Native.String
use text.Mathlib.Text.{starts_with}
use code_butler.Prelude.{
  ℕ, String, Bool, false, not, ◌&&◌, ◌||◌, Option, none, some, List, [], ◌∷◌, map, find?, any, leb,
  ◌==◌, if◌then◌else◌, is_some,
}
use code_butler.Storage.{current, superseded, retracted}
use code_butler.Memory.Facts.{Fact}
use code_butler.Memory.Retention.{candidate, category_eq}
use code_butler.Memory.Reviews.{ReviewRow, ReviewSummary, in_force, current_memory_review}
use code_butler.Memory.Promotion.{
  PromotionPolicy, single_source_bar, PlanItem, PromotionDecision, skip_item,
}
use code_butler.Memory.Promotion.Core.{find_core_equivalent}
use code_butler.Memory.Promotion.Tables.{
  PromotionTables, Judge, quality_text, is_active, distinct, reconcile,
}

-- What may corroborate a candidate of the core layer.
pub record Support : Type 0 where
  pub human : Bool
  pub ai_verified : Bool
  pub ai_corrected : Bool
  pub ai_review : Bool
  pub independent : Bool

-- The codes to promote with, or to skip with.
pub data Backing : Type 0 where
  backed unbacked : List String → Backing

abbrev pub verified_review : Option ReviewSummary → Option ReviewSummary
verified_review none = none
verified_review (some r) = if r.action == "verify" && r.current then some r else none

-- Verifications by a person.
abbrev pub by_human : Option ReviewSummary → Option ReviewSummary
by_human none = none
by_human (some r) = if r.actor == "desktop" || r.actor == "cli" then some r else none

abbrev pub by_ai : Option ReviewSummary → Bool
by_ai none = false
by_ai (some r) = r.actor == "ai"

abbrev pub ai_written : Fact → Bool
ai_written m = starts_with m.dedupe_key "ai-reconciliation:"

-- `like` of SQL ignores the case of ASCII letters.
abbrev pub low_signal : Judge → Fact → Bool
low_signal judge m =
    judge.sql_like m.dedupe_key "deterministic:docs:%"
    || judge.sql_like m.dedupe_key "deterministic:config:%"

abbrev pub replaced_by : String → ReviewRow → Bool
replaced_by id r = elim r.replacement_memory_id [
  | none ↦ false
  | some i ↦ elim r.replacement_category [
    | none ↦ false
    | some c ↦ i == id && category_eq c candidate
  ]
]

module _ (policy : PromotionPolicy) where
  -- Step 3.
  abbrev pub backing : ℕ → Support → Backing
  backing confidence s =
      let enough = leb policy.confidence_threshold confidence in
      let alone = leb (single_source_bar policy) confidence in
      if s.human
      then backed ("human_verified" ∷ [])
      else if s.independent && enough
      then backed ("independent_sources" ∷ "meets_confidence_threshold" ∷ [])
      else if s.ai_verified && alone
      then backed ("ai_verified_current" ∷ "meets_single_source_confidence" ∷ [])
      else if s.ai_corrected && alone
      then backed ("ai_corrected_replacement" ∷ "meets_single_source_confidence" ∷ [])
      else if s.independent
      then unbacked ("independent_sources" ∷ "below_confidence_threshold" ∷ [])
      else if s.ai_verified
      then unbacked ("ai_verified_current" ∷ "below_single_source_confidence" ∷ [])
      else if s.ai_corrected
      then unbacked ("ai_corrected_replacement" ∷ "below_single_source_confidence" ∷ [])
      else if s.ai_review
      then unbacked ("ai_self_verified" ∷ [])
      else unbacked ("no_corroboration" ∷ [])

module _ (judge : Judge) (policy : PromotionPolicy) (tables : PromotionTables) where
  abbrev pub verified : PlanItem → Option ReviewSummary
  verified item =
      verified_review
        (current_memory_review tables.reviews candidate item.memory.id (judge.context item.memory))

  -- `store.readMemory(memory.promotedMemoryId)`
  abbrev pub durable_copy : Fact → Option Fact
  durable_copy m = elim m.promoted_memory_id [
    | none ↦ none
    | some id ↦ find? (λ d. d.id == id) tables.memories
  ]

  abbrev pub verified_since : Option ReviewSummary → Fact → Bool
  verified_since none copy = false
  verified_since (some r) copy = judge.later r.reviewed_at copy.status_changed_at

  -- The code of a durable copy that keeps the candidate from being promoted.
  abbrev pub withdrawn_copy : Option ReviewSummary → Option Fact → Option String
  withdrawn_copy human none = none
  withdrawn_copy human (some copy) = elim copy.lifecycle_status [
    | current ↦ none
    | superseded ↦ some "durable_copy_superseded"
    | retracted ↦ if verified_since human copy then none else some "previously_withdrawn"
  ]

  -- `hasCurrentAiCorrection`
  unfoldable pub has_current_ai_correction : String → Bool
  has_current_ai_correction id =
      any
        (λ r.
          replaced_by id r
          && r.action == "correct"
          && r.actor == "ai"
          && category_eq r.category candidate
          && any (λ m. m.id == r.memory_id && not (low_signal judge m)) tables.candidates
          && in_force tables.reviews r)
        tables.reviews.reviews

  unfoldable pub support_of : PlanItem → Support
  unfolding has_current_ai_correction
  support_of item =
      let seen = verified item in
      record {
        human = is_some (by_human seen);
        ai_verified = by_ai seen && not (ai_written item.memory);
        ai_corrected = ai_written item.memory && has_current_ai_correction item.memory.id;
        ai_review = by_ai seen && ai_written item.memory;
        independent = leb 2 (distinct (map (λ e. e.source_id) item.memory.evidence));
      }

  abbrev pub decide_backing : PlanItem → Backing → PromotionDecision
  decide_backing item (unbacked codes) =
      skip_item item item.memory.confidence ("core_candidate" ∷ "active_quality" ∷ []) codes
  decide_backing item (backed codes) =
      reconcile item item.memory.confidence ("core_candidate" ∷ "active_quality" ∷ codes)
        (find_core_equivalent judge.words item.memory tables.core)

  unfoldable pub decide_core_candidate : PlanItem → PromotionDecision
  unfolding support_of
  decide_core_candidate item =
      if not (is_active item.memory.quality_status)
      then skip_item item item.memory.confidence ("core_candidate" ∷ [])
          (String.◌++◌ "quality_" (quality_text item.memory.quality_status) ∷ [])
      else elim (withdrawn_copy (by_human (verified item)) (durable_copy item.memory)) [
        | some code ↦
            skip_item item item.memory.confidence ("core_candidate" ∷ "active_quality" ∷ [])
              (code ∷ [])
        | none ↦ decide_backing item (backing policy item.memory.confidence (support_of item))
      ]
