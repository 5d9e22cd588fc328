-- ===== src/Memory/Promotion/Corroboration.antt =====
-- What makes a candidate of the core layer a shared memory.
use code_butler.Prelude.{
  ℕ, String, Bool, true, false, not, ◌&&◌, ◌||◌, Option, none, some, List, ◌∷◌, leb, is_some, ◌≡◌,
  refl, arith, Bool-cases, Option-cases, inl, inr,
}
use code_butler.Storage.{LifecycleStatus, current, superseded, retracted}
use code_butler.Storage.Events.{status_eq}
use code_butler.Memory.Facts.{Fact}
use code_butler.Memory.Reviews.{ReviewSummary}
use code_butler.Memory.Promotion.{
  Verdict, skip, verdict_eq, PromotionPolicy, single_source_bar, PlanItem,
}
use code_butler.Memory.Promotion.Core.{
  CoreMatch, no_match, equivalent, conflicting, find_core_equivalent,
}
use code_butler.Memory.Promotion.Tables.{PromotionTables, Judge, is_active, reconcile}
use code_butler.Memory.Promotion.CoreCandidate.{
  Support, Backing, backed, unbacked, backing, support_of, decide_backing, decide_core_candidate,
  withdrawn_copy, verified_since, durable_copy, by_human, verified,
}

-- A decision that changes a memory or marks it for review.
abbrev pub acts : Verdict → Bool
acts v = not (verdict_eq v skip)

-- A person verified it, its sources are independent, or an AI review of a memory that the AI did not
-- write vouches for it; without a person the confidence has to reach a bar.
abbrev pub corroborated : PromotionPolicy → ℕ → Support → Bool
corroborated policy confidence s =
    s.human
    || (s.independent && leb policy.confidence_threshold confidence)
    || ((s.ai_verified || s.ai_corrected) && leb (single_source_bar policy) confidence)

abbrev is_backed : Backing → Bool
is_backed (backed codes) = true
is_backed (unbacked codes) = false

backing-corroborated :
    (policy : PromotionPolicy) (confidence : ℕ) (s : Support)
    → is_backed (backing policy confidence s) ≡ corroborated policy confidence s
backing-corroborated policy confidence s = ground arith

pub reconcile-acts :
    (item : PlanItem) (score : ℕ) (codes : List String) (m : CoreMatch)
    → acts (reconcile item score codes m).decision ≡ true
reconcile-acts item score codes no_match = refl
reconcile-acts item score codes (equivalent m) = refl
reconcile-acts item score codes (conflicting m) = refl

module _ (judge : Judge) (policy : PromotionPolicy) (tables : PromotionTables) where
  decide_backing-acts :
      (item : PlanItem) (b : Backing)
      → acts (decide_backing judge policy tables item b).decision ≡ is_backed b
  decide_backing-acts item (unbacked codes) = refl
  decide_backing-acts item (backed codes) =
      reconcile-acts item item.memory.confidence ("core_candidate" ∷ "active_quality" ∷ codes)
        (find_core_equivalent judge.words item.memory tables.core)

  -- The durable copy was replaced, or it was withdrawn and no person verified the candidate since.
  abbrev pub copy_against : Option ReviewSummary → Option Fact → Bool
  copy_against human none = false
  copy_against human (some copy) =
      status_eq copy.lifecycle_status superseded
      || (status_eq copy.lifecycle_status retracted
          && not (verified_since judge policy tables human copy))

  withdrawn_copy-copy_against :
      (human : Option ReviewSummary) (copy : Option Fact)
      → is_some (withdrawn_copy judge policy tables human copy) ≡ copy_against human copy
  withdrawn_copy-copy_against human none = refl
  withdrawn_copy-copy_against human (some copy) = on_status copy copy.lifecycle_status refl
    where
      on_status :
          (copy : Fact) (s : LifecycleStatus)
          → copy.lifecycle_status ≡ s
          → is_some (withdrawn_copy judge policy tables human (some copy))
            ≡ copy_against human (some copy)
      on_status copy current e = rw e refl
      on_status copy superseded e = rw e refl
      on_status copy retracted e = rw e (ground arith)

  abbrev pub against : PlanItem → Bool
  against item =
      copy_against (by_human (verified judge policy tables item))
        (durable_copy judge policy tables item.memory)

  -- The tests that `decide` makes of a core candidate, without a decision on record, come to this.
  pub decide_core_candidate-corroborated :
      (item : PlanItem)
      → acts (decide_core_candidate judge policy tables item).decision ≡ (
          is_active item.memory.quality_status
          && not (against item)
          && corroborated policy item.memory.confidence (support_of judge policy tables item))
  unfolding decide_core_candidate
  decide_core_candidate-corroborated item =
      let last =
        backing-corroborated policy item.memory.confidence (support_of judge policy tables item) in
      let step =
        decide_backing-acts item
          (backing policy item.memory.confidence (support_of judge policy tables item)) in
      let told =
        withdrawn_copy-copy_against (by_human (verified judge policy tables item))
          (durable_copy judge policy tables item.memory) in
      elim (Bool-cases (is_active item.memory.quality_status)) [
        | inr e ↦ rw (e) refl
        | inl e ↦
            elim (Option-cases (
              withdrawn_copy judge policy tables (by_human (verified judge policy tables item))
                (durable_copy judge policy tables item.memory))) [
                  | inl w ↦ rw (e, ← told, w, ← last) step
                  | inr (code, w) ↦ rw (e, ← told, w) refl
                ]
      ]
