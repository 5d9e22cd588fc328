-- ===== src/Memory/Retention.antt =====
-- memory/layer-retention.ts: which memories of this device's own layers are archived.
pub mod Due
pub mod Apply
pub mod Plan
pub mod Archived
mod Collected
pub mod Tests
use Prim.Native.String
use code_butler.Prelude.{
  ℕ, ◌-◌, ◌/◌, String, Bool, true, false, not, ◌&&◌, ◌||◌, Option, none, some, List, [], ◌∷◌, ◌++◌,
  find?, filter, contains, leb, ltb, ◌==◌, if◌then◌else◌,
}
use code_butler.Storage.{LifecycleStatus, current}
use code_butler.Storage.Events.{status_eq, status_text}
use code_butler.Memory.BranchState
use code_butler.Memory.BranchState.{
  BranchState, Git, GitBranchFacts, day, local_branch_exists, classify_branch,
}

pub data Category : Type 0 where
  candidate promoted : Category

pub data DecisionKind : Type 0 where
  archive skip : DecisionKind

pub data Quality : Type 0 where
  active needs_review quarantined : Quality

-- `LayerRetentionConfig`; `true` stands for "archive" and `none` for `null`.
pub record Policy : Type 0 where
  pub enabled : Bool
  pub grace_days : ℕ
  pub archive_deleted : Bool
  pub archive_merged : Bool
  pub branch_max_idle_days : Option ℕ
  pub device_max_idle_days : Option ℕ

-- `ParsedMemoryLayer`
pub data Layer : Type 0 where
  core : Layer
  device : String → Layer
  branch : String → Option String → Layer

-- A candidate or a durable memory, in the columns that the policy reads.
pub record StoredMemory : Type 0 where
  pub id : String
  pub layer : Option String
  pub lifecycle_status : LifecycleStatus
  pub quality_status : Quality
  pub updated_at : String
  pub status_changed_at : String
  pub lifecycle_generation : String

-- `RetentionItem`; a device layer has no branch.
pub record Item : Type 0 where
  pub category : Category
  pub memory : StoredMemory
  pub layer : String
  pub branch : Option String
  pub memory_version : String
  pub last_touched_at : String

pub record Review : Type 0 where
  pub memory_id : String
  pub category : Category
  pub memory_version : String
  pub action : String

pub record Decision : Type 0 where
  pub decision : DecisionKind
  pub reason_codes : List String
  pub idle_days : ℕ
  pub branch_state : Option BranchState

abbrev pub category_eq : Category → Category → Bool
category_eq candidate candidate = true
category_eq promoted promoted = true
category_eq _ _ = false

abbrev pub is_quarantined : Quality → Bool
is_quarantined quarantined = true
is_quarantined _ = false

abbrev pub version_of : Category → StoredMemory → String
version_of candidate m = m.updated_at
version_of promoted m = m.lifecycle_generation

abbrev pub touched_of : Category → StoredMemory → String
touched_of candidate m = m.updated_at
touched_of promoted m = m.status_changed_at

abbrev layer_text : Option String → String
layer_text none = "core"
layer_text (some l) = l

abbrev item_on : Category → StoredMemory → Option String → Item
item_on category m branch_name = record {
  category = category;
  memory = m;
  layer = layer_text m.layer;
  branch = branch_name;
  memory_version = version_of category m;
  last_touched_at = touched_of category m;
}

-- `toItem`: the core layer is not collected. The layers in the tables are well-formed, so parsing
-- one does not throw.
pub to_item : (String → Layer) → Category → StoredMemory → Option Item
to_item parse_layer category m = elim (parse_layer (layer_text m.layer)) [
  | core ↦ none
  | device _ ↦ some (item_on category m none)
  | branch name _ ↦ some (item_on category m (some name))
]

abbrev pub items_of : (String → Layer) → Category → List StoredMemory → List Item
items_of parse_layer category [] = []
items_of parse_layer category (m ∷ ms) =
    let rest = items_of parse_layer category ms in
    elim (to_item parse_layer category m) [ none ↦ rest | some item ↦ item ∷ rest ]

-- `collectItems`, on the candidates that wait and on the durable memories that are current.
pub collect_items :
    (String → Layer) → List String → List StoredMemory → List StoredMemory → List Item
unfolding to_item
collect_items parse_layer peers candidates promoted_memories =
    filter (λ item. not (contains item.layer peers))
      (items_of parse_layer candidate candidates ++ items_of parse_layer promoted promoted_memories)

-- `findSuppressingReview`, on the reviews of the table with the latest first.
unfoldable pub suppressed : List Review → Item → Bool
suppressed reviews item =
    elim (find?
      (λ r.
        r.memory_id == item.memory.id
        && category_eq r.category item.category
        && r.memory_version == item.memory_version)
      reviews) [ none ↦ false | some r ↦ r.action == "retain_branch" ]

abbrev pub past_limit : Option ℕ → ℕ → Bool
past_limit none idle = false
past_limit (some most) idle = leb most idle

abbrev pub skip_with : ℕ → Option BranchState → String → Decision
skip_with idle state code = record {
  decision = skip;
  reason_codes = code ∷ [];
  idle_days = idle;
  branch_state = state;
}

abbrev pub archive_with : ℕ → Option BranchState → List String → Decision
archive_with idle state codes = record {
  decision = archive;
  reason_codes = codes;
  idle_days = idle;
  branch_state = state;
}

module _ (git : Git) (parse_date : String → ℕ) (reviews : List Review) (policy : Policy)
    (facts : GitBranchFacts) where
  -- The rules for a branch layer past the grace period, by the state of the branch.
  decide_branch : String → ℕ → BranchState → Decision
  decide_branch name idle BranchState.unknown =
      skip_with idle (some BranchState.unknown) "branch_state_unknown"
  decide_branch name idle BranchState.current =
      skip_with idle (some BranchState.current) "branch_current"
  decide_branch name idle BranchState.active =
      skip_with idle (some BranchState.active) "branch_active"
  decide_branch name idle BranchState.merged =
      if policy.archive_merged
      then archive_with idle (some BranchState.merged)
          ("branch_merged_to_default" ∷ "idle_past_grace_period" ∷ [])
      else skip_with idle (some BranchState.merged) "branch_merged_left_to_promotion"
  decide_branch name idle BranchState.stale =
      if policy.archive_deleted && not (local_branch_exists git facts name)
      then archive_with idle (some BranchState.stale)
          ("branch_deleted" ∷ "idle_past_grace_period" ∷ [])
      else if past_limit policy.branch_max_idle_days idle
      then archive_with idle (some BranchState.stale) ("branch_idle_past_max_age" ∷ [])
      else skip_with idle (some BranchState.stale) "branch_retained_by_policy"

  decide_device : ℕ → Decision
  decide_device idle =
      if past_limit policy.device_max_idle_days idle
      then archive_with idle none ("device_idle_past_max_age" ∷ [])
      else skip_with idle none "device_retention_disabled"

  abbrev pub idle_days_at : ℕ → Item → ℕ
  idle_days_at now item = (now - parse_date item.last_touched_at) / day

  abbrev pub state_at : ℕ → Item → String → BranchState
  state_at now item name =
      classify_branch git name (parse_date item.last_touched_at) facts policy.grace_days now

  abbrev pub branch_state_at : ℕ → Item → Option BranchState
  branch_state_at now item = elim item.branch [
    | none ↦ none
    | some name ↦ some (state_at now item name)
  ]

  -- What was archived some other way is left alone.
  abbrev pub archived_already : Item → Bool
  archived_already item = elim item.category [
    | promoted ↦ not (status_eq item.memory.lifecycle_status current)
    | candidate ↦ is_quarantined item.memory.quality_status
  ]

  abbrev pub archived_code : Item → String
  archived_code item = elim item.category [
    | promoted ↦ String.◌++◌ "lifecycle_" (status_text item.memory.lifecycle_status)
    | candidate ↦ "already_quarantined"
  ]

  unfoldable pub decide : ℕ → Item → Decision
  unfolding suppressed decide_branch decide_device
  decide now item =
      let idle = idle_days_at now item in
      let state = branch_state_at now item in
      if suppressed reviews item
      then skip_with idle state "suppressed_by_retain_branch_review"
      else if archived_already item
      then skip_with idle state (archived_code item)
      else if ltb idle policy.grace_days
      then skip_with idle state "within_grace_period"
      else elim item.branch [
        | none ↦ decide_device idle
        | some name ↦ decide_branch name idle (state_at now item name)
      ]
