-- ===== src/Memory/Triage/Retained.antt =====
-- A memory that a review keeps on its branch is left there by the policies.
use code_butler.Prelude.{
  ℕ, String, Bool, true, false, Option, none, some, List, ◌≡◌, refl, ◌∙◌, arith, find?,
  find?-upsert, upserted, eq_refl, is_some,
}
use code_butler.Memory.BranchState.{Git, GitBranchFacts}
use code_butler.Memory.Retention.{
  Category, candidate, promoted, category_eq, Review, Item, Policy, suppressed, decide, skip,
}
use code_butler.Memory.Promotion.{PromotionPolicy, PlanItem}
use code_butler.Memory.Promotion.Tables.{PromotionTables, Judge}
use code_butler.Memory.Promotion.Decide.{
  decide as decide_promotion, find_suppressing_review, is_core_candidate,
}
use code_butler.Memory.Promotion.Corroboration.{acts}
use code_butler.Memory.Promotion.Unrecorded.{decision_on_record, decide-eligible}
use code_butler.Memory.Triage.{
  TriageItem, find_review, TriageAction, action_text, has_review_key, upsert_review,
}

category_eq_refl : (c : Category) → category_eq c c ≡ true
category_eq_refl candidate = refl
category_eq_refl promoted = refl

-- The review on record for the item has the action of the latest review.
pub review_on_record :
    (item : TriageItem) (action : TriageAction) (reviews : List Review)
    → (r : Review) × (find?
          (has_review_key item.memory.id item.category item.memory_version)
          (upsert_review item action reviews)
        ≡ some r)
      × (r.action ≡ action_text action)
unfolding upsert_review
review_on_record item action reviews =
    let p = has_review_key item.memory.id item.category item.memory_version in
    let u : Review → Review = λ old. record old { action = action_text action } in
    let new : Review = record {
      memory_id = item.memory.id;
      category = item.category;
      memory_version = item.memory_version;
      action = action_text action;
    } in
    let a = eq_refl item.memory.id in
    let b = eq_refl item.memory_version in
    let c = category_eq_refl item.category in
    (
      upserted p u new (find? p reviews),
      find?-upsert p u new reviews (ground arith) (λ x h. h),
      kept p u new (find? p reviews) (λ x. refl) refl,
    )
  where
    kept :
        (p : Review → Bool) (u : Review → Review) (new : Review) (o : Option Review)
        → ((x : Review) → (u x).action ≡ action_text action)
        → new.action ≡ action_text action
        → (upserted p u new o).action ≡ action_text action
    kept p u new none h k = k
    kept p u new (some x) h k = h x

suppressed_by :
    (reviews : List Review) (kept : Item) (r : Review)
    → find? (has_review_key kept.memory.id kept.category kept.memory_version) reviews ≡ some r
    → r.action ≡ "retain_branch"
    → suppressed reviews kept ≡ true
unfolding suppressed
suppressed_by reviews kept r e a = rw (suppressed, e, a) refl

suppressing_by :
    (reviews : List Review) (planned : PlanItem) (r : Review)
    → find? (has_review_key planned.memory.id planned.category planned.memory_version) reviews
      ≡ some r
    → r.action ≡ "retain_branch"
    → is_some (find_suppressing_review reviews planned) ≡ true
unfolding find_suppressing_review
suppressing_by reviews planned r e a = rw (find_suppressing_review, e, a) refl

-- Where the review on record for a version of a memory retains it on its branch, the retention
-- policy skips that version of the memory, and the promotion policy skips it as well, if it has no
-- decision on record and is not a core candidate.
pub find_review-decide :
    (item : TriageItem) (reviews : List Review) (r : Review) (git : Git) (parse_date : String → ℕ)
    (policy : Policy) (facts : GitBranchFacts) (now : ℕ) (kept : Item) (judge : Judge)
    (sharing : PromotionPolicy) (tables : PromotionTables) (planned : PlanItem)
    → find_review reviews item ≡ some r
    → r.action ≡ "retain_branch"
    → kept.memory.id ≡ item.memory.id
    → kept.category ≡ item.category
    → kept.memory_version ≡ item.memory_version
    → planned.memory.id ≡ item.memory.id
    → planned.category ≡ item.category
    → planned.memory_version ≡ item.memory_version
    → tables.triage_reviews ≡ reviews
    → decision_on_record tables planned ≡ none
    → is_core_candidate judge sharing tables planned ≡ false
    → ((decide git parse_date reviews policy facts now kept).decision ≡ skip)
      × (acts (decide_promotion judge sharing tables planned).decision ≡ false)
unfolding decide
find_review-decide item reviews r git parse_date policy facts now kept judge sharing tables planned
      found action i c v i' c' v' same unrecorded outside =
    let e : find? (has_review_key kept.memory.id kept.category kept.memory_version) reviews
        ≡ some r =
      cc in
    let e' : find? (has_review_key planned.memory.id planned.category planned.memory_version)
          tables.triage_reviews
        ≡ some r =
      cc in
    (
      rw (suppressed_by reviews kept r e action) refl,
      decide-eligible judge sharing tables planned unrecorded outside
          ∙ rw (suppressing_by tables.triage_reviews planned r e' action) (ground arith),
    )
