-- ===== src/Memory/Retention/Plan.antt =====
-- `planLayerRetention` and `runLayerRetention`: from the memories to the summary of a run.
use code_butler.Prelude.{
  ℕ, suc, String, Bool, true, false, Option, none, some, List, [], ◌∷◌, ◌++◌, map, filter, length,
  if◌then◌else◌, Ordering, order_nat, then_by, sort_by,
}
use code_butler.Exec.{Result, ok, err}
use code_butler.Storage.{Env}
use code_butler.Memory.Retention.{Category, Policy, Item, Decision, DecisionKind, archive, skip}
use code_butler.Memory.Retention.Apply.{
  RetentionDecision, RetentionDb, RetentionResult, is_skip, apply_layer_retention, category_text,
}

-- The parts of the policy that a project configures or a caller overrides.
pub record PolicyPatch : Type 0 where
  pub enabled : Option Bool
  pub grace_days : Option ℕ
  pub archive_deleted : Option Bool
  pub archive_merged : Option Bool
  pub branch_max_idle_days : Option (Option ℕ)
  pub device_max_idle_days : Option (Option ℕ)

abbrev pub default_policy : Policy
default_policy = record {
  enabled = false;
  grace_days = 30;
  archive_deleted = false;
  archive_merged = false;
  branch_max_idle_days = none;
  device_max_idle_days = none;
}

abbrev pub given {ℓ} : {A : Type ℓ} → Option A → A → A
given none d = d
given (some a) d = a

-- `resolvePolicy`
pub resolve_policy : Option Policy → PolicyPatch → Policy
resolve_policy config patch =
    let configured = given config default_policy in
    record {
      enabled = given patch.enabled configured.enabled;
      grace_days = given patch.grace_days configured.grace_days;
      archive_deleted = given patch.archive_deleted configured.archive_deleted;
      archive_merged = given patch.archive_merged configured.archive_merged;
      branch_max_idle_days = given patch.branch_max_idle_days configured.branch_max_idle_days;
      device_max_idle_days = given patch.device_max_idle_days configured.device_max_idle_days;
    }

abbrev pub decision_priority : DecisionKind → ℕ
decision_priority archive = 0
decision_priority skip = 1

-- The order of a plan; `locale` is `localeCompare`.
abbrev pub compare_decisions :
    (String → String → Ordering) → RetentionDecision → RetentionDecision → Ordering
compare_decisions locale a b =
    then_by (order_nat (decision_priority a.decision) (decision_priority b.decision)) (
      then_by (order_nat b.idle_days a.idle_days) (
        then_by (locale (category_text a.category) (category_text b.category))
          (then_by (locale a.title b.title) (locale a.memory_id b.memory_id))))

-- The decision with the memory that it is about.
abbrev pub decided_item : (Item → String) → Item → Decision → RetentionDecision
decided_item title item d = record {
  memory_id = item.memory.id;
  category = item.category;
  title = title item;
  layer = item.layer;
  memory_version = item.memory_version;
  decision = d.decision;
  reason_codes = d.reason_codes;
  idle_days = d.idle_days;
}

pub record RetentionPlan : Type 0 where
  pub scanned : ℕ
  pub decisions : List RetentionDecision
  pub enabled : Bool

pub plan_layer_retention :
    Policy
    → (Item → Decision)
    → (Item → String)
    → (String → String → Ordering)
    → List Item
    → RetentionPlan
plan_layer_retention policy decide title locale items =
    if policy.enabled
    then record {
      scanned = length items;
      decisions =
          sort_by (compare_decisions locale) (map (λ i. decided_item title i (decide i)) items);
      enabled = true;
    }
    else record { scanned = 0; decisions = []; enabled = false }

-- `LayerRetentionSummary`, with the category that a warning names.
pub record RetentionSummary : Type 0 where
  pub scanned : ℕ
  pub archived : ℕ
  pub skipped : ℕ
  pub warnings : List Category

abbrev pub counted :
    RetentionDecision → Result RetentionResult → RetentionSummary → RetentionSummary
counted d (ok r) s = if r.applied then record s { archived = suc s.archived } else s
counted d (err e) s = record s { warnings = s.warnings ++ d.category ∷ [] }

module _ (env : Env) (fresh : RetentionDecision → String) (decided_at actor : String) where
  -- The loop over the plan: what one decision throws becomes a warning.
  pub run_decisions :
      List RetentionDecision → RetentionSummary → RetentionDb → RetentionSummary × RetentionDb
  run_decisions [] s db = (s, db)
  run_decisions (d ∷ ds) s db =
      let (r, db') = apply_layer_retention env (fresh d) decided_at actor d db in
      if is_skip d.decision then run_decisions ds s db else run_decisions ds (counted d r s) db'

  pub run_layer_retention : RetentionPlan → RetentionDb → RetentionSummary × RetentionDb
  unfolding run_decisions
  run_layer_retention plan db =
      run_decisions plan.decisions
        (record {
          scanned = plan.scanned;
          archived = 0;
          skipped = length (filter (λ d. is_skip d.decision) plan.decisions);
          warnings = [];
        })
        db
