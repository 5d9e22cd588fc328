-- ===== src/Memory/Promotion/Unrecorded.antt =====
-- `decide` of memory/automatic-promotion.ts, where no decision is on record for the item.
use code_butler.Prelude.{true, false, not, ◌&&◌, Option, none, ◌≡◌, refl}
use code_butler.Memory.Promotion.{
  PromotionPolicy, PlanItem, PromotionDecisionRow, find_decision, promotion_policy_version,
}
use code_butler.Memory.Promotion.Tables.{PromotionTables, Judge, is_active}
use code_butler.Memory.Promotion.CoreCandidate.{support_of, decide_core_candidate}
use code_butler.Memory.Promotion.Decide.{decide, decide_local, is_core_candidate}
use code_butler.Memory.Promotion.Corroboration.{
  acts, corroborated, against, decide_core_candidate-corroborated,
}
use code_butler.Memory.Promotion.Outright.{eligible, decide_local-eligible}

-- The decision that a run under this version of the policy recorded for the item.
abbrev pub decision_on_record : PromotionTables → PlanItem → Option PromotionDecisionRow
decision_on_record tables item =
    find_decision tables.decisions item.memory.id item.category item.memory_version
      promotion_policy_version

module _ (judge : Judge) (policy : PromotionPolicy) (tables : PromotionTables) where
  decide-core_candidate :
      (item : PlanItem)
      → decision_on_record tables item ≡ none
      → is_core_candidate judge policy tables item ≡ true
      → decide judge policy tables item ≡ decide_core_candidate judge policy tables item
  unfolding decide
  decide-core_candidate item unrecorded core = rw (decide, unrecorded, core) refl

  decide-local :
      (item : PlanItem)
      → decision_on_record tables item ≡ none
      → is_core_candidate judge policy tables item ≡ false
      → decide judge policy tables item ≡ decide_local judge policy tables item
  unfolding decide
  decide-local item unrecorded outside = rw (decide, unrecorded, outside) refl

  -- Where no decision is on record for a core candidate, it is acted on exactly if its quality is
  -- active, no durable copy of it is superseded, or retracted without a later verification by a
  -- person, and it is corroborated.
  pub decide-corroborated :
      (item : PlanItem)
      → decision_on_record tables item ≡ none
      → is_core_candidate judge policy tables item ≡ true
      → acts (decide judge policy tables item).decision ≡ (
          is_active item.memory.quality_status
          && not (against judge policy tables item)
          && corroborated policy item.memory.confidence (support_of judge policy tables item))
  decide-corroborated item unrecorded core =
      rw (decide-core_candidate item unrecorded core)
        (decide_core_candidate-corroborated judge policy tables item)

  -- Where no decision is on record for an item that is not a core candidate, it is acted on
  -- exactly if its quality is active, it is not an archived memory, its confidence reaches the
  -- threshold, it has a shared signal, no branch review keeps it local, its branch is not in
  -- progress, and its score reaches the minimum.
  pub decide-eligible :
      (item : PlanItem)
      → decision_on_record tables item ≡ none
      → is_core_candidate judge policy tables item ≡ false
      → acts (decide judge policy tables item).decision ≡ eligible judge policy tables item
  decide-eligible item unrecorded outside =
      rw (decide-local item unrecorded outside) (decide_local-eligible judge policy tables item)
