-- ===== src/Memory/Triage.antt =====
-- memory/branch-triage.ts: what becomes of the memories of a branch.
pub mod Suggest
pub mod Retained
pub mod Resolution
pub mod Resolve
pub mod Resolved
mod Tests
use code_butler.Prelude.{
  ℕ, ◌+◌, min, String, Bool, true, false, not, ◌&&◌, ◌||◌, Option, none, some, List, [], ◌∷◌, ◌++◌,
  find?, filter, length, leb, take, ◌==◌, if◌then◌else◌, Ordering, order_nat, then_by, sort_by,
  upsert, is_some, text_leb,
}
use code_butler.Prelude.Assoc.{Assoc, get, put}
use code_butler.Storage.{or_else, current}
use code_butler.Storage.Events.{status_eq}
use code_butler.Memory.BranchState.{BranchState}
use code_butler.Memory.BranchState
use code_butler.Memory.Facts.{Fact, Scope}
use code_butler.Memory.Retention.{
  Category, candidate, promoted, category_eq, Quality, Layer, Review,
}

-- `BranchTriageAction`
pub data TriageAction : Type 0 where
  promote_to_core discard retain_branch : TriageAction

abbrev pub action_text : TriageAction → String
action_text promote_to_core = "promote_to_core"
action_text discard = "discard"
action_text retain_branch = "retain_branch"

-- `TriageItem`
pub record TriageItem : Type 0 where
  pub category : Category
  pub memory : Fact
  pub branch : String
  pub layer : String
  pub latest_memory_at : String
  pub memory_version : String

abbrev latest_of : Category → Fact → String
latest_of candidate m = m.updated_at
latest_of promoted m = m.promoted_at

abbrev triage_version : Category → Fact → String
triage_version candidate m = m.updated_at
triage_version promoted m = m.lifecycle_generation

-- `toTriageItem`: only the memories of branch layers.
unfoldable pub to_triage_item : (String → Layer) → Category → Fact → Option TriageItem
to_triage_item parse_layer category m = elim (parse_layer (or_else m.layer "core")) [
  | Layer.core ↦ none
  | Layer.device d ↦ none
  | Layer.branch name d ↦ some (record {
    category = category;
    memory = m;
    branch = name;
    layer = or_else m.layer "core";
    latest_memory_at = latest_of category m;
    memory_version = triage_version category m;
  })
]

abbrev triage_items_of : (String → Layer) → Category → List Fact → List TriageItem
triage_items_of parse_layer category [] = []
triage_items_of parse_layer category (m ∷ ms) =
    let rest = triage_items_of parse_layer category ms in
    elim (to_triage_item parse_layer category m) [ none ↦ rest | some item ↦ item ∷ rest ]

-- `listBranchTriageItems`, on the candidates that wait and on the durable memories that are current.
pub list_branch_triage_items : (String → Layer) → List Fact → List Fact → List TriageItem
unfolding to_triage_item
list_branch_triage_items parse_layer candidates durable =
    triage_items_of parse_layer candidate candidates
    ++ triage_items_of parse_layer promoted
        (filter (λ m. status_eq m.lifecycle_status current) durable)

-- The latest time of each branch.
abbrev pub note_latest : Assoc String → TriageItem → Assoc String
note_latest latest item = elim (get latest item.branch) [
  | none ↦ put latest item.branch item.latest_memory_at
  | some at ↦
      if text_leb item.latest_memory_at at
      then latest
      else put latest item.branch item.latest_memory_at
]

abbrev latest_from : Assoc String → List TriageItem → Assoc String
latest_from latest [] = latest
latest_from latest (item ∷ items) = latest_from (note_latest latest item) items

pub latest_memory_at_by_branch : List TriageItem → Assoc String
latest_memory_at_by_branch items = latest_from [] items

-- The score of a state, in hundredths.
abbrev pub state_score : BranchState → ℕ
state_score BranchState.merged = 35
state_score BranchState.stale = 25
state_score BranchState.active = 10
state_score BranchState.current = 5
state_score BranchState.unknown = 0

abbrev pub is_active : Quality → Bool
is_active Quality.active = true
is_active _ = false

abbrev pub is_quarantined : Quality → Bool
is_quarantined Quality.quarantined = true
is_quarantined _ = false

abbrev pub is_project : Scope → Bool
is_project Scope.project = true
is_project _ = false

abbrev pub left_behind : BranchState → Bool
left_behind BranchState.merged = true
left_behind BranchState.stale = true
left_behind _ = false

abbrev pub is_stale : BranchState → Bool
is_stale BranchState.stale = true
is_stale _ = false

-- The score of `scoreSuggestion` in hundredths; `high` is 0.8 on the scale of the confidences.
pub triage_score : ℕ → TriageItem → BranchState → ℕ
triage_score high item state = min 100 (
    40
    + state_score state
    + (if is_active item.memory.quality_status then 15 else 0)
    + (if leb high item.memory.confidence then 10 else 0)
    + (if is_project item.memory.scope then 10 else 0))

pub recommend_action : ℕ → TriageItem → BranchState → TriageAction
recommend_action high item state =
    if is_quarantined item.memory.quality_status
    then discard
    else if left_behind state
        && is_active item.memory.quality_status
        && leb high item.memory.confidence
    then promote_to_core
    else if is_stale state && not (is_active item.memory.quality_status)
    then discard
    else retain_branch

-- `BranchMemoryTriageSuggestion`, without the texts that explain it.
pub record TriageSuggestion : Type 0 where
  pub item : TriageItem
  pub branch_state : BranchState
  pub reviewed : Bool
  pub score : ℕ
  pub recommended_action : TriageAction

abbrev pub state_priority : BranchState → ℕ
state_priority BranchState.merged = 0
state_priority BranchState.stale = 1
state_priority BranchState.unknown = 2
state_priority BranchState.active = 3
state_priority BranchState.current = 4

abbrev category_text : Category → String
category_text candidate = "candidate"
category_text promoted = "promoted"

-- The order of the suggestions; `locale` is `localeCompare`.
abbrev pub compare_suggestions :
    (String → String → Ordering) → TriageSuggestion → TriageSuggestion → Ordering
compare_suggestions locale a b =
    then_by (order_nat (state_priority a.branch_state) (state_priority b.branch_state)) (
      then_by (order_nat b.score a.score) (
        then_by (locale a.item.branch b.item.branch) (
          then_by (locale (category_text a.item.category) (category_text b.item.category)) (
            then_by (locale a.item.memory.title b.item.memory.title)
              (locale a.item.memory.id b.item.memory.id)))))

abbrev pub has_review_key : String → Category → String → Review → Bool
has_review_key memory_id category memory_version r =
    r.memory_id == memory_id
    && category_eq r.category category
    && r.memory_version == memory_version

-- `findReview`, on the reviews of the table with the latest first.
abbrev pub find_review : List Review → TriageItem → Option Review
find_review reviews item =
    find? (has_review_key item.memory.id item.category item.memory_version) reviews

-- `upsertReview`, in the columns that the policies read.
pub upsert_review : TriageItem → TriageAction → List Review → List Review
upsert_review item action reviews =
    upsert (has_review_key item.memory.id item.category item.memory_version)
      (λ old. record old { action = action_text action })
      (record {
        memory_id = item.memory.id;
        category = item.category;
        memory_version = item.memory_version;
        action = action_text action;
      })
      reviews
