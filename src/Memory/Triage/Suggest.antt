-- ===== src/Memory/Triage/Suggest.antt =====
-- `suggestBranchMemoryTriage`: the memories of branches, with what to do with each.
use code_butler.Prelude.{
  ℕ, suc, String, Bool, true, false, not, ◌&&◌, Option, none, some, List, [], ◌∷◌, ◌++◌, filter,
  length, take, ◌==◌, if◌then◌else◌, Ordering, order_nat, then_by, sort_by, is_some, text_leb,
}
use code_butler.Prelude.Assoc.{Assoc, get, put}
use code_butler.Memory.BranchState.{BranchState}
use code_butler.Memory.Facts.{Fact}
use code_butler.Memory.Retention.{Layer, Review}
use code_butler.Memory.Triage.{
  TriageItem, TriageSuggestion, list_branch_triage_items, latest_memory_at_by_branch, triage_score,
  recommend_action, find_review, state_priority, compare_suggestions,
}

abbrev pub in_progress : BranchState → Bool
in_progress BranchState.active = true
in_progress BranchState.current = true
in_progress _ = false

-- `SuggestBranchMemoryTriageInput`, checked; no limit is `none`.
pub record TriageInput : Type 0 where
  pub branch : Option String
  pub include_active : Bool
  pub include_reviewed : Bool
  pub limit : Option ℕ

-- `BranchMemoryTriageGroup`
pub record TriageGroup : Type 0 where
  pub branch : String
  pub branch_state : BranchState
  pub latest_memory_at : String
  pub suggestions : List TriageSuggestion

-- `SuggestBranchMemoryTriageResult`
pub record TriageResult : Type 0 where
  pub scanned : ℕ
  pub eligible : ℕ
  pub reviewed_hidden : ℕ
  pub groups : List TriageGroup
  pub suggestions : List TriageSuggestion

abbrev pub on_branch : Option String → TriageItem → Bool
on_branch none item = true
on_branch (some name) item = item.branch == name

abbrev pub at_most {ℓ} : {A : Type ℓ} → Option ℕ → List A → List A
at_most none xs = xs
at_most (some n) xs = take n xs

-- What the loop over the items has collected.
pub record Collected : Type 0 where
  pub reviewed_hidden : ℕ
  pub suggestions : List TriageSuggestion

module _ (input : TriageInput) (high : ℕ) (reviews : List Review)
    (state_of : String → BranchState) where
  abbrev pub score_suggestion : TriageItem → TriageSuggestion
  score_suggestion item = record {
    item = item;
    branch_state = state_of item.branch;
    reviewed = is_some (find_review reviews item);
    score = triage_score high item (state_of item.branch);
    recommended_action = recommend_action high item (state_of item.branch);
  }

  abbrev pub collect_one : TriageItem → Collected → Collected
  collect_one item c =
      if not input.include_active && in_progress (state_of item.branch)
      then c
      else if is_some (find_review reviews item) && not input.include_reviewed
      then record c { reviewed_hidden = suc c.reviewed_hidden }
      else record c { suggestions = c.suggestions ++ score_suggestion item ∷ [] }

  pub collect_from : Collected → List TriageItem → Collected
  collect_from c [] = c
  collect_from c (item ∷ items) = collect_from (collect_one item c) items

abbrev pub later_text : String → String → String
later_text a b = if text_leb a b then b else a

abbrev pub add_suggestion : Assoc TriageGroup → TriageSuggestion → Assoc TriageGroup
add_suggestion groups s = put groups s.item.branch (elim (get groups s.item.branch) [
  | none ↦ record {
    branch = s.item.branch;
    branch_state = s.branch_state;
    latest_memory_at = s.item.latest_memory_at;
    suggestions = s ∷ [];
  }
  | some g ↦ record g {
    suggestions = g.suggestions ++ s ∷ [];
    latest_memory_at = later_text g.latest_memory_at s.item.latest_memory_at;
  }
])

abbrev group_suggestions_from : Assoc TriageGroup → List TriageSuggestion → Assoc TriageGroup
group_suggestions_from groups [] = groups
group_suggestions_from groups (s ∷ rest) = group_suggestions_from (add_suggestion groups s) rest

abbrev values_of : Assoc TriageGroup → List TriageGroup
values_of [] = []
values_of ((key, g) ∷ groups) = g ∷ values_of groups

-- `groupSuggestions`; `locale` is `localeCompare`.
pub group_suggestions : (String → String → Ordering) → List TriageSuggestion → List TriageGroup
group_suggestions locale suggestions =
    sort_by
      (λ a b.
        then_by (order_nat (state_priority a.branch_state) (state_priority b.branch_state))
          (locale a.branch b.branch))
      (values_of (group_suggestions_from [] suggestions))

-- `classify` is `classifyBranch` on a branch and the latest time of its memories.
pub suggest_branch_memory_triage :
    TriageInput
    → ℕ
    → (String → Layer)
    → (String → String → BranchState)
    → (String → String → Ordering)
    → List Review
    → List Fact
    → List Fact
    → TriageResult
unfolding group_suggestions collect_from
suggest_branch_memory_triage input high parse_layer classify locale reviews candidates durable =
    let items =
      filter (on_branch input.branch) (list_branch_triage_items parse_layer candidates durable) in
    let latest = latest_memory_at_by_branch items in
    let state_of : String → BranchState =
      λ name. elim (get latest name) [ none ↦ BranchState.unknown | some at ↦ classify name at ] in
    let found =
      collect_from input high reviews state_of (record { reviewed_hidden = 0; suggestions = [] })
        items in
    let sorted = sort_by (compare_suggestions locale) found.suggestions in
    let limited = at_most input.limit sorted in
    record {
      scanned = length items;
      eligible = length sorted;
      reviewed_hidden = found.reviewed_hidden;
      groups = group_suggestions locale limited;
      suggestions = limited;
    }
