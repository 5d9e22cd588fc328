-- ===== src/Memory/Triage/Resolved.antt =====
-- memory/branch-triage.ts, `resolveBranchMemoryTriage`: what a resolution that returns has done.
use code_butler.Prelude.{
  ℕ, ap, ◌∙◌, String, false, not, ◌&&◌, Option, none, some, List, ◌==◌, is_some, ◌≡◌,
}
use code_butler.Exec.{
  Exec, ok, pure, throw_if, ◌>>◌, modify, reason_required, supersedes_not_allowed,
}
use code_butler.Exec.Post.{Ends, Ends-bind, Ends-pure, Ends-transaction}
use code_butler.Memory.Retention.{Review, Item, Policy, decide, skip}
use code_butler.Memory.Triage.{TriageItem, retain_branch, action_text, find_review}
use code_butler.Memory.Triage.Retained.{review_on_record, find_review-decide}
use code_butler.Memory.BranchState.{Git, GitBranchFacts}
use code_butler.Memory.Promotion.{PromotionPolicy, PlanItem}
use code_butler.Memory.Promotion.Tables.{PromotionTables, Judge}
use code_butler.Memory.Promotion.Decide.{decide as decide_promotion, is_core_candidate}
use code_butler.Memory.Promotion.Unrecorded.{decision_on_record}
use code_butler.Memory.Promotion.Corroboration.{acts}
use code_butler.Memory.Triage.Resolution.{
  ResolveInput, ResolveResult, TriageStore, TriageDb, Resolution,
}
use code_butler.Memory.Triage.Resolve.{
  in_store, carry_out, log_item, logged, record_item, reviewed, resolved, resolve_item,
  resolve_in_transaction, read_triage_item, is_promotion, resolve_at, resolve_branch_memory_triage,
  triage_operation,
}

module _ {W : Type 0} (store : TriageStore W) (actor review_id : String)
    (input : ResolveInput) where
  -- The review of the item has the action of the input.
  abbrev OnRecord : TriageItem → List Review → Type 0
  OnRecord item reviews =
      (r : Review) × (find_review reviews item ≡ some r) × (r.action ≡ action_text input.action)

  abbrev Recorded : ResolveResult → TriageDb W → Type 0
  Recorded r s = OnRecord r.item s.reviews

  in_store-Ends :
      {A : Type 0} (P : List Review → Type 0) (m : Exec W A)
      → Ends (λ s. P s.reviews) (λ _ s. P s.reviews) (in_store m)
  unfolding in_store
  in_store-Ends P m = record { at = λ s p a h. p }

  log_item-Ends :
      (at reason : String) (item : TriageItem) (resolution : Resolution)
      → Ends
          (λ s. OnRecord item s.reviews)
          (λ _ s. OnRecord item s.reviews)
          (log_item store actor at reason input item resolution)
  log_item-Ends at reason item resolution =
      Ends-bind (λ _ s. OnRecord item s.reviews)
        (in_store (
          triage_operation store actor at reason item input.action resolution.promoted_memory_id
            input.supersedes_memory_id))
        (λ o. modify (logged store actor at reason o)) (in_store-Ends (OnRecord item) _)
        λ o. record { at = λ s p u h. p }

  record_item-Ends :
      (at reason : String) (item : TriageItem) (resolution : Resolution)
      → Ends
          (λ _. Unit {0})
          Recorded
          (record_item store actor at reason review_id input item resolution)
  record_item-Ends at reason item resolution =
      Ends-bind (λ _ s. OnRecord item s.reviews)
        (modify (reviewed store actor at reason item input.action))
        (λ _.
          log_item store actor at reason input item resolution
          >> pure (resolved store actor at reason review_id input item resolution))
        (record { at = λ s p u h. review_on_record item input.action s.reviews })
        λ _.
          Ends-bind (λ _ s. OnRecord item s.reviews)
            (log_item store actor at reason input item resolution)
            (λ _. pure (resolved store actor at reason review_id input item resolution))
            (log_item-Ends at reason item resolution)
            λ _. Ends-pure (resolved store actor at reason review_id input item resolution) λ s p. p

  resolve_item-Ends :
      (at reason : String) (item : TriageItem)
      → Ends (λ _. Unit {0}) Recorded (resolve_item store actor at reason review_id input item)
  resolve_item-Ends at reason item =
      Ends-bind (λ _ _. Unit {0})
        (in_store (carry_out store actor at reason input.action input.supersedes_memory_id item))
        (record_item store actor at reason review_id input item) (record { at = λ s p a h. tt })
        λ resolution. record_item-Ends at reason item resolution

  resolve_at-Ends :
      (reason : String) (o : Option String)
      → Ends (λ _. Unit {0}) Recorded (resolve_at store actor review_id reason input o)
  unfolding resolve_in_transaction
  resolve_at-Ends reason none = record { at = λ s p a h. cc }
  resolve_at-Ends reason (some at) =
      Ends-transaction (resolve_in_transaction store actor at reason review_id input) (
        Ends-bind (λ _ _. Unit {0})
          (in_store (read_triage_item store input.memory_id input.category))
          (resolve_item store actor at reason review_id input) (record { at = λ s p a h. tt })
          λ item. resolve_item-Ends at reason item)

  resolve-Ends :
      Ends (λ _. Unit {0}) Recorded (resolve_branch_memory_triage store actor review_id input)
  unfolding resolve_branch_memory_triage
  resolve-Ends =
      Ends-bind (λ _ _. Unit {0}) (throw_if (store.trim input.reason == "") reason_required) _
        (record { at = λ s p a h. tt })
        λ _.
          Ends-bind (λ _ _. Unit {0})
            (throw_if (not (is_promotion input.action) && is_some input.supersedes_memory_id)
              supersedes_not_allowed)
            _ (record { at = λ s p a h. tt })
            λ _. resolve_at-Ends (store.trim input.reason) (store.parse_now input.now)

-- When a resolution returns, the review on record for that version of the memory has the action
-- that was asked for.
pub resolve_branch_memory_triage-find_review :
    {W : Type 0} (store : TriageStore W) (actor review_id : String) (input : ResolveInput)
    (s : TriageDb W) (result : ResolveResult)
    → (resolve_branch_memory_triage store actor review_id input s).0 ≡ ok result
    → (r : Review) × (find_review
          (resolve_branch_memory_triage store actor review_id input s).1.reviews
          result.item
        ≡ some r)
      × (r.action ≡ action_text input.action)
resolve_branch_memory_triage-find_review store actor review_id input s result h =
    (resolve-Ends store actor review_id input).at s tt result h

-- After a resolution that retains a memory on its branch has returned, the retention policy skips
-- that version of the memory, and so does the promotion policy, if it has no decision on record for
-- that version and the memory is not a core candidate, whatever the policies, the state of the
-- branches and the earlier reviews are.
pub resolve_branch_memory_triage-decide :
    {W : Type 0} (store : TriageStore W) (actor review_id : String) (input : ResolveInput)
    (s : TriageDb W) (result : ResolveResult) (git : Git) (parse_date : String → ℕ)
    (policy : Policy) (facts : GitBranchFacts) (now : ℕ) (kept : Item) (judge : Judge)
    (sharing : PromotionPolicy) (tables : PromotionTables) (planned : PlanItem)
    → input.action ≡ retain_branch
    → (resolve_branch_memory_triage store actor review_id input s).0 ≡ ok result
    → kept.memory.id ≡ result.item.memory.id
    → kept.category ≡ result.item.category
    → kept.memory_version ≡ result.item.memory_version
    → planned.memory.id ≡ result.item.memory.id
    → planned.category ≡ result.item.category
    → planned.memory_version ≡ result.item.memory_version
    → tables.triage_reviews ≡ (resolve_branch_memory_triage store actor review_id input s).1.reviews
    → decision_on_record tables planned ≡ none
    → is_core_candidate judge sharing tables planned ≡ false
    → ((decide git parse_date
          (resolve_branch_memory_triage store actor review_id input s).1.reviews
          policy
          facts
          now
          kept).decision
        ≡ skip)
      × (acts (decide_promotion judge sharing tables planned).decision ≡ false)
resolve_branch_memory_triage-decide store actor review_id input s result git parse_date policy facts
      now kept judge sharing tables planned retained returned i c v i' c' v' same unrecorded
      outside =
    let (r, found, action) =
      resolve_branch_memory_triage-find_review store actor review_id input s result returned in
    find_review-decide result.item _ r git parse_date policy facts now kept judge sharing tables
      planned found (action ∙ ap action_text retained) i c v i' c' v' same unrecorded outside
