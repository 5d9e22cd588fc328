-- ===== src/Memory/Promotion/Apply.antt =====
-- `applyAutomaticPromotion`: a decision is carried out and recorded in one transaction.
use code_butler.Prelude.{
  String, Bool, true, false, ◌&&◌, Option, none, some, List, [], ◌∷◌, ◌++◌, contains, ◌==◌,
  sort_texts, upsert, if◌then◌else◌,
}
use code_butler.Exec.{Failure, ok, Exec, pure, throw, ◌>>=◌, ◌>>◌, modify, rolled_back}
use code_butler.Memory.EvidenceMerge.{dedupe}
use code_butler.Memory.Retention.{Category, candidate, promoted}
use code_butler.Memory.Promotion.{
  Verdict, promote, converge, defer, skip, verdict_eq, PromotionDecision, PromotionDecisionRow,
  find_decision, has_key, promotion_policy_version,
}

-- The decisions on record, and the rest of the database.
pub record PromotionDb (W : Type 0) : Type 0 where
  pub decisions : List PromotionDecisionRow
  pub rest : W

-- The durable memory of a promoted candidate.
pub record PromotedCopy : Type 0 where
  pub id : String
  pub withdrawn : Bool

-- What applying a decision calls of the store. None of it writes `promotion_decisions`.
pub record PromotionStore (W : Type 0) : Type 0 where
  pub promote_memory_candidate : String → Exec W PromotedCopy
  pub restore_memory : String → Exec W Unit
  pub move_to_core : String → List String → Exec W String
  -- the candidate is promoted, and stands for the durable memory
  pub link_candidate : String → String → Exec W Unit
  pub quality_reasons : Category → String → W → Option (List String)
  pub update_memory_quality : Category → String → List String → Exec W Unit
  pub record_completed_operation : PromotionDecision → Option String → Exec W Unit

-- `ApplyAutomaticPromotionResult`
pub record ApplyResult : Type 0 where
  pub memory_id : String
  pub category : Category
  pub decision : Verdict
  pub applied : Bool
  pub reason_codes : List String
  pub promoted_memory_id : Option String
  pub core_memory_id : Option String

abbrev pub is_core_skip : PromotionDecision → Bool
is_core_skip d = verdict_eq d.decision skip && contains "core_candidate" d.reason_codes

abbrev pub unapplied : PromotionDecision → ApplyResult
unapplied d = record {
  memory_id = d.memory_id;
  category = d.category;
  decision = d.decision;
  applied = false;
  reason_codes = d.reason_codes;
  promoted_memory_id = none;
  core_memory_id = if is_core_skip d then none else d.core_memory_id;
}

abbrev pub applied_as : PromotionDecision → Option String → ApplyResult
applied_as d promoted_id = record {
  memory_id = d.memory_id;
  category = d.category;
  decision = d.decision;
  applied = true;
  reason_codes = d.reason_codes;
  promoted_memory_id = promoted_id;
  core_memory_id = d.core_memory_id;
}

abbrev pub d_key : PromotionDecision → PromotionDecisionRow → Bool
d_key d = has_key d.memory_id d.category d.memory_version promotion_policy_version

-- `decision.coreMemoryId ?? promotedMemoryId`
abbrev pub core_id : PromotionDecision → Option String → Option String
core_id d promoted_id = elim d.core_memory_id [ some id ↦ some id | none ↦ promoted_id ]

abbrev pub target_layer : PromotionDecision → String
target_layer d = if verdict_eq d.decision promote then "core" else d.current_layer

abbrev pub decision_row :
    String → String → String → PromotionDecision → Option String → PromotionDecisionRow
decision_row fresh decided_at actor d promoted_id = record {
  id = fresh;
  memory_id = d.memory_id;
  category = d.category;
  memory_version = d.memory_version;
  policy_version = promotion_policy_version;
  decision = d.decision;
  reason_codes = d.reason_codes;
  target_layer = target_layer d;
  core_memory_id = core_id d promoted_id;
  decided_at = decided_at;
  actor = actor;
}

-- `do update set`: the key stays, the other columns are the new ones.
abbrev pub refreshed : PromotionDecisionRow → PromotionDecisionRow → PromotionDecisionRow
refreshed new old = record {
  id = new.id;
  memory_id = old.memory_id;
  category = old.category;
  memory_version = old.memory_version;
  policy_version = old.policy_version;
  decision = new.decision;
  reason_codes = new.reason_codes;
  target_layer = new.target_layer;
  core_memory_id = new.core_memory_id;
  decided_at = new.decided_at;
  actor = new.actor;
}

abbrev pub on_record : PromotionDecision → Option PromotionDecisionRow → Bool
on_record d none = false
on_record d (some row) = verdict_eq row.decision d.decision

module _ {W : Type 0} where
  abbrev pub with_rest : List PromotionDecisionRow → W → PromotionDb W
  with_rest decisions rest = record { decisions = decisions; rest = rest }

  -- Work on the rest of the database.
  unfoldable pub in_store : {A : Type 0} → Exec W A → Exec (PromotionDb W) A
  in_store m db = let (r, rest) = m db.rest in (r, with_rest db.decisions rest)

  unfoldable pub upsert_decision :
      PromotionDecision → PromotionDecisionRow → PromotionDb W → PromotionDb W
  upsert_decision d row db = with_rest (upsert (d_key d) (refreshed row) row db.decisions) db.rest

module _ {W : Type 0} (store : PromotionStore W) where
  abbrev promote_candidate : PromotionDecision → Exec W String
  promote_candidate d = do
    copy ← store.promote_memory_candidate d.memory_id
    (if copy.withdrawn then store.restore_memory copy.id else pure tt)
    pure copy.id

  abbrev pub promote_to_core : PromotionDecision → Exec W String
  promote_to_core d = elim d.category [
    | candidate ↦ promote_candidate d
    | promoted ↦ store.move_to_core d.memory_id d.reason_codes
  ]

  abbrev pub converge_on_core : PromotionDecision → Exec W Unit
  converge_on_core d = elim d.core_memory_id [
    | none ↦ throw Failure.no_core_memory
    | some id ↦ elim d.category [
      | candidate ↦ store.link_candidate d.memory_id id
      | promoted ↦ pure tt
    ]
  ]

  abbrev pub conflict_reasons : List String → List String
  conflict_reasons reasons =
      sort_texts (dedupe (λ a b. a == b) [] (reasons ++ "automatic_promotion_conflict" ∷ []))

  abbrev pub mark_needs_review : PromotionDecision → Exec W Unit
  mark_needs_review d rest = elim (store.quality_reasons d.category d.memory_id rest) [
    | none ↦ (ok tt, rest)
    | some reasons ↦
        store.update_memory_quality d.category d.memory_id (conflict_reasons reasons) rest
  ]

  -- What the verdict asks for, with the memory that a promotion yields.
  abbrev pub carry_out : PromotionDecision → Exec W (Option String)
  carry_out d = elim d.decision [
    | promote ↦ do id ← promote_to_core d; pure (some id)
    | converge ↦ do converge_on_core d; pure none
    | defer ↦ do mark_needs_review d; pure none
    | skip ↦ pure none
  ]

  module _ (fresh decided_at actor : String) where
    unfoldable pub record_decision : PromotionDecision → Exec (PromotionDb W) ApplyResult
    unfolding upsert_decision in_store
    record_decision d = do
      promoted_id ← in_store (carry_out d)
      modify (upsert_decision d (decision_row fresh decided_at actor d promoted_id))
      in_store (store.record_completed_operation d (core_id d promoted_id))
      pure (applied_as d promoted_id)

    abbrev pub apply_once : PromotionDecision → Exec (PromotionDb W) ApplyResult
    apply_once d db =
        if on_record d (
          find_decision db.decisions d.memory_id d.category d.memory_version
            promotion_policy_version)
        then (ok (unapplied d), db)
        else record_decision d db

    unfoldable pub apply_automatic_promotion : PromotionDecision → Exec (PromotionDb W) ApplyResult
    unfolding record_decision
    apply_automatic_promotion d db =
        if is_core_skip d then (ok (unapplied d), db) else rolled_back db (apply_once d db)
