-- ===== src/Memory/Promotion/Plan.antt =====
-- `planAutomaticPromotions` and `runAutomaticPromotions`: from the memories to the summary of a run.
use code_butler.Prelude.{
  ℕ, suc, max, String, Bool, true, false, not, ◌&&◌, Option, none, some, List, [], ◌∷◌, ◌++◌, map,
  filter, contains, length, ◌==◌, if◌then◌else◌, Ordering, order_nat, then_by, sort_by, find?,
}
use code_butler.Exec.{Result, ok, err}
use code_butler.Memory.BranchState.{BranchState}
use code_butler.Memory.Facts.{Fact}
use code_butler.Memory.Retention.{Category, candidate, promoted, category_eq, Layer}
use code_butler.Memory.Promotion.{
  Verdict, promote, converge, defer, skip, PromotionPolicy, PlanItem, PromotionDecision,
}
use code_butler.Memory.Promotion.Tables.{PromotionTables, Judge}
use code_butler.Memory.Promotion.Decide.{decide}
use code_butler.Memory.Promotion.Apply.{
  PromotionDb, PromotionStore, ApplyResult, apply_automatic_promotion,
}

-- A suggestion of the layer scorer or of the triage of branches.
pub record ScoredMemory : Type 0 where
  pub category : Category
  pub memory_id : String
  pub score : ℕ
  pub branch_state : Option BranchState

-- What the plan reads beside the tables of the decisions: the scores, the candidates and the durable
-- memories, and the layers of the other devices.
pub record PlanInput : Type 0 where
  pub layer_scores : List ScoredMemory
  pub triage : List ScoredMemory
  pub waiting : List Fact
  pub durable : List Fact
  pub peers : List String
  pub parse_layer : String → Layer

abbrev pub scored : List ScoredMemory → Category → String → Option ScoredMemory
scored rows category id = find? (λ s. category_eq s.category category && s.memory_id == id) rows

abbrev score_of : Option ScoredMemory → ℕ
score_of none = 0
score_of (some s) = s.score

abbrev state_of : Option ScoredMemory → Option BranchState
state_of none = none
state_of (some s) = s.branch_state

abbrev layer_of : Fact → String
layer_of m = elim m.layer [ none ↦ "core" | some l ↦ l ]

abbrev version_of : Category → Fact → String
version_of candidate m = m.updated_at
version_of promoted m = m.lifecycle_generation

abbrev pub plan_item : PlanInput → Category → Fact → PlanItem
plan_item input category m = record {
  category = category;
  memory = m;
  layer = layer_of m;
  memory_version = version_of category m;
  score =
      max (score_of (scored input.layer_scores category m.id))
        (score_of (scored input.triage category m.id));
  branch_state = state_of (scored input.triage category m.id);
}

-- The layers whose memories this device may promote by itself.
abbrev pub plans_layer : PromotionPolicy → PlanInput → PlanItem → Bool
plans_layer policy input item = elim (input.parse_layer item.layer) [
  | Layer.core ↦ category_eq item.category candidate && policy.core_candidates
  | Layer.device d ↦ not (contains item.layer input.peers) && policy.device_memories
  | Layer.branch b d ↦ not (contains item.layer input.peers) && policy.merged_branches
]

pub collect_plan_items : PromotionPolicy → PlanInput → List PlanItem
collect_plan_items policy input =
    filter (plans_layer policy input) (
      map (plan_item input candidate) input.waiting ++ map (plan_item input promoted) input.durable)

abbrev pub decision_priority : Verdict → ℕ
decision_priority promote = 0
decision_priority converge = 1
decision_priority defer = 2
decision_priority skip = 3

abbrev category_text : Category → String
category_text candidate = "candidate"
category_text promoted = "promoted"

-- The order of a plan; `locale` is `localeCompare`.
abbrev pub compare_decisions :
    (String → String → Ordering) → PromotionDecision → PromotionDecision → Ordering
compare_decisions locale a b =
    then_by (order_nat (decision_priority a.decision) (decision_priority b.decision)) (
      then_by (order_nat b.score a.score) (
        then_by (locale (category_text a.category) (category_text b.category))
          (then_by (locale a.title b.title) (locale a.memory_id b.memory_id))))

pub record PromotionPlan : Type 0 where
  pub scanned : ℕ
  pub decisions : List PromotionDecision
  pub enabled : Bool

module _ (judge : Judge) (policy : PromotionPolicy) (tables : PromotionTables)
    (input : PlanInput) where
  pub plan_automatic_promotions : (String → String → Ordering) → PromotionPlan
  unfolding collect_plan_items
  plan_automatic_promotions locale =
      if policy.enabled
      then record {
        scanned = length (collect_plan_items policy input);
        decisions =
            sort_by (compare_decisions locale)
              (map (decide judge policy tables) (collect_plan_items policy input));
        enabled = true;
      }
      else record { scanned = 0; decisions = []; enabled = false }

-- `AutomaticPromotionSummary`, with the category that a warning names.
pub record PromotionSummary : Type 0 where
  pub scanned : ℕ
  pub promoted : ℕ
  pub converged : ℕ
  pub deferred : ℕ
  pub skipped : ℕ
  pub warnings : List Category

abbrev pub one_more : Verdict → PromotionSummary → PromotionSummary
one_more promote s = record s { promoted = suc s.promoted }
one_more converge s = record s { converged = suc s.converged }
one_more defer s = record s { deferred = suc s.deferred }
one_more skip s = record s { skipped = suc s.skipped }

abbrev pub counted : PromotionDecision → Result ApplyResult → PromotionSummary → PromotionSummary
counted d (ok r) s = if r.applied then one_more d.decision s else s
counted d (err e) s = record s { warnings = s.warnings ++ d.category ∷ [] }

module _ {W : Type 0} (store : PromotionStore W) (fresh : PromotionDecision → String)
    (decided_at actor : String) where
  -- The loop over the plan: what one decision throws becomes a warning.
  unfoldable pub run_decisions :
      List PromotionDecision → PromotionSummary → PromotionDb W → PromotionSummary × PromotionDb W
  run_decisions [] s db = (s, db)
  run_decisions (d ∷ ds) s db =
      let (r, db') = apply_automatic_promotion store (fresh d) decided_at actor d db in
      run_decisions ds (counted d r s) db'

abbrev pub fresh_summary : ℕ → PromotionSummary
fresh_summary scanned = record {
  scanned = scanned;
  promoted = 0;
  converged = 0;
  deferred = 0;
  skipped = 0;
  warnings = [];
}

-- The tables that a plan reads of the database, with the decisions on record.
pub run_automatic_promotions :
    {W : Type 0}
    → PromotionStore W
    → (PromotionDecision → String)
    → String
    → String
    → Judge
    → PromotionPolicy
    → (PromotionDb W → PromotionTables)
    → (PromotionDb W → PlanInput)
    → (String → String → Ordering)
    → PromotionDb W
    → PromotionSummary × PromotionDb W
unfolding plan_automatic_promotions run_decisions
run_automatic_promotions store fresh decided_at actor judge policy tables input locale db =
    let plan = plan_automatic_promotions judge policy (tables db) (input db) locale in
    run_decisions store fresh decided_at actor plan.decisions (fresh_summary plan.scanned) db
