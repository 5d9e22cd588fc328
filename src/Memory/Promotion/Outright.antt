-- ===== src/Memory/Promotion/Outright.antt =====
-- When a memory outside the core layer is shared, and what a promotion may not do to the core layer.
use code_butler.Prelude.{
  ℕ, String, Bool, true, false, not, ◌&&◌, none, List, [], ◌∷◌, leb, ltb, is_some, ◌≡◌, refl, arith,
  Bool-cases, Option-cases, inl, inr, ◌++◌, any,
}
use code_butler.Memory.Promotion.{
  Verdict, promote, PromotionPolicy, PlanItem, find_decision, promotion_policy_version,
}
use code_butler.Memory.Promotion.Core.{
  CoreMatch, no_match, equivalent, conflicting, find_core_equivalent, find_core_equivalent-none,
  same_subject, related,
}
use code_butler.Memory.Promotion.Tables.{PromotionTables, Judge, is_active, reconcile}
use code_butler.Memory.Promotion.CoreCandidate.{
  Backing, backed, unbacked, backing, support_of, decide_backing, decide_core_candidate,
  withdrawn_copy, durable_copy, by_human, verified,
}
use code_butler.Memory.Promotion.Decide.{
  decide, decide_local, decide_shared, decide_signals, shared_signals, find_suppressing_review,
  branch_in_progress, archived_status, is_core_candidate,
}
use code_butler.Memory.Promotion.Corroboration.{acts, reconcile-acts}

abbrev some_signal : List String → Bool
some_signal [] = false
some_signal (s ∷ signals) = true

module _ (judge : Judge) (policy : PromotionPolicy) (tables : PromotionTables) where
  -- No branch review keeps it local, its branch is not in progress, and its score is high enough.
  abbrev settled : PlanItem → Bool
  settled item =
      not (is_some (find_suppressing_review tables.triage_reviews item))
      && not (is_some (branch_in_progress item.branch_state))
      && leb policy.min_score item.score

  abbrev pub eligible : PlanItem → Bool
  eligible item =
      is_active item.memory.quality_status
      && not (is_some (archived_status item))
      && leb policy.confidence_threshold item.memory.confidence
      && some_signal (shared_signals policy item)
      && settled item

  decide_shared-settled :
      (item : PlanItem) (codes : List String)
      → acts (decide_shared judge policy tables item codes).decision ≡ settled item
  decide_shared-settled item codes =
      let last =
        reconcile-acts item item.score (codes ++ "meets_minimum_score" ∷ [])
          (find_core_equivalent judge.words item.memory tables.core) in
      elim (Option-cases (find_suppressing_review tables.triage_reviews item)) [
        | inr (action, e) ↦ rw (decide_shared, e) refl
        | inl e ↦ elim (Option-cases (branch_in_progress item.branch_state)) [
          | inr (code, f) ↦ rw (decide_shared, e, f) refl
          | inl f ↦ elim (Bool-cases (ltb item.score policy.min_score)) [
            | inl g ↦ rw (decide_shared, e, f, g) (ground arith)
            | inr g ↦ rw (decide_shared, e, f, g, last) (ground arith)
          ]
        ]
      ]

  decide_signals-settled :
      (item : PlanItem) (codes signals : List String)
      → acts (decide_signals judge policy tables item codes signals).decision
        ≡ (some_signal signals && settled item)
  decide_signals-settled item codes [] = refl
  decide_signals-settled item codes (s ∷ signals) =
      decide_shared-settled item (codes ++ s ∷ signals)

  -- The tests that `decide` makes of such an item, without a decision on record, come to this.
  pub decide_local-eligible :
      (item : PlanItem) → acts (decide_local judge policy tables item).decision ≡ eligible item
  unfolding decide_local
  decide_local-eligible item =
      let last =
        decide_signals-settled item ("active_quality" ∷ "meets_confidence_threshold" ∷ [])
          (shared_signals policy item) in
      elim (Bool-cases (is_active item.memory.quality_status)) [
        | inr e ↦ rw (e) refl
        | inl e ↦ elim (Option-cases (archived_status item)) [
          | inr (code, f) ↦ rw (e, f) refl
          | inl f ↦ elim (Bool-cases (ltb item.memory.confidence policy.confidence_threshold)) [
            | inl g ↦ rw (e, f, g) (ground arith)
            | inr g ↦ rw (e, f, g, last) (ground arith)
          ]
        ]
      ]

  -- A promotion for which the core layer holds no fact about the subject that is the same or contrary.
  abbrev Unopposed : PlanItem → Verdict → Type 0
  Unopposed item v =
      v ≡ promote → find_core_equivalent judge.words item.memory tables.core ≡ no_match

  reconcile-Unopposed :
      (item : PlanItem) (score : ℕ) (codes : List String) (m : CoreMatch)
      → (reconcile item score codes m).decision ≡ promote
      → m ≡ no_match
  reconcile-Unopposed item score codes no_match h = refl
  reconcile-Unopposed item score codes (equivalent m) h = cc
  reconcile-Unopposed item score codes (conflicting m) h = cc

  decide_backing-Unopposed :
      (item : PlanItem) (b : Backing)
      → Unopposed item (decide_backing judge policy tables item b).decision
  decide_backing-Unopposed item (unbacked codes) h = cc
  decide_backing-Unopposed item (backed codes) h =
      reconcile-Unopposed item item.memory.confidence ("core_candidate" ∷ "active_quality" ∷ codes)
        (find_core_equivalent judge.words item.memory tables.core) h

  decide_core_candidate-Unopposed :
      (item : PlanItem) → Unopposed item (decide_core_candidate judge policy tables item).decision
  unfolding decide_core_candidate
  decide_core_candidate-Unopposed item =
      let last =
        decide_backing-Unopposed item
          (backing policy item.memory.confidence (support_of judge policy tables item)) in
      elim (Bool-cases (is_active item.memory.quality_status)) [
        | inr e ↦ rw (e) (λ h. cc)
        | inl e ↦
            elim (Option-cases (
              withdrawn_copy judge policy tables (by_human (verified judge policy tables item))
                (durable_copy judge policy tables item.memory))) [
                  | inl w ↦ rw (e, w) last
                  | inr (code, w) ↦ rw (e, w) (λ h. cc)
                ]
      ]

  decide_shared-Unopposed :
      (item : PlanItem) (codes : List String)
      → Unopposed item (decide_shared judge policy tables item codes).decision
  decide_shared-Unopposed item codes h =
      let last =
        reconcile-Unopposed item item.score (codes ++ "meets_minimum_score" ∷ [])
          (find_core_equivalent judge.words item.memory tables.core) in
      elim (Option-cases (find_suppressing_review tables.triage_reviews item)) [
        | inr (action, e) ↦ let h' = rw (decide_shared, e) at h in cc
        | inl e ↦ elim (Option-cases (branch_in_progress item.branch_state)) [
          | inr (code, f) ↦ let h' = rw (decide_shared, e, f) at h in cc
          | inl f ↦ elim (Bool-cases (ltb item.score policy.min_score)) [
            | inl g ↦ let h' = rw (decide_shared, e, f, g) at h in cc
            | inr g ↦ last (rw (decide_shared, e, f, g) at h)
          ]
        ]
      ]

  decide_signals-Unopposed :
      (item : PlanItem) (codes signals : List String)
      → Unopposed item (decide_signals judge policy tables item codes signals).decision
  decide_signals-Unopposed item codes [] h = cc
  decide_signals-Unopposed item codes (s ∷ signals) h =
      decide_shared-Unopposed item (codes ++ s ∷ signals) h

  decide_local-Unopposed :
      (item : PlanItem) → Unopposed item (decide_local judge policy tables item).decision
  unfolding decide_local
  decide_local-Unopposed item =
      let last =
        decide_signals-Unopposed item ("active_quality" ∷ "meets_confidence_threshold" ∷ [])
          (shared_signals policy item) in
      elim (Bool-cases (is_active item.memory.quality_status)) [
        | inr e ↦ rw (e) (λ h. cc)
        | inl e ↦ elim (Option-cases (archived_status item)) [
          | inr (code, f) ↦ rw (e, f) (λ h. cc)
          | inl f ↦ elim (Bool-cases (ltb item.memory.confidence policy.confidence_threshold)) [
            | inl g ↦ rw (e, f, g) (λ h. cc)
            | inr g ↦ rw (e, f, g) last
          ]
        ]
      ]

  -- Where no decision is on record for an item and it is to be promoted, no core memory about the
  -- same subject states the same as it, by its key or by its summary, or contradicts it.
  pub decide-related :
      (item : PlanItem)
      → find_decision tables.decisions item.memory.id item.category item.memory_version
          promotion_policy_version
        ≡ none
      → (decide judge policy tables item).decision ≡ promote
      → any
          (λ c. same_subject judge.words item.memory c && related judge.words item.memory c)
          tables.core
        ≡ false
  unfolding decide
  decide-related item unrecorded h =
      let (to, from) = find_core_equivalent-none judge.words item.memory tables.core in
      let h' = rw (decide, unrecorded) at h in
      elim (Bool-cases (is_core_candidate judge policy tables item)) [
        | inl c ↦ let h'' = rw (c) at h' in to (decide_core_candidate-Unopposed item h'')
        | inr c ↦ let h'' = rw (c) at h' in to (decide_local-Unopposed item h'')
      ]
