-- ===== src/Memory/Triage/Tests.antt =====
-- A memory of a merged branch that a review keeps there.
use code_butler.Prelude.{some, none, List, ◌*◌, false, [], ◌≡◌, refl}
use code_butler.Memory.BranchState.{BranchState, day}
use code_butler.Memory.Retention.{promoted, skip, decide}
use code_butler.Memory.Retention.Tests.{empty_git, touched_at_zero, policy, facts, item}
use code_butler.Memory.Promotion.{PlanItem, find_decision}
use code_butler.Memory.Promotion.Tests.{judge, policy as sharing, tables, local_item, fact}
use code_butler.Memory.Promotion.Decide.{decide as decide_promotion}
use code_butler.Memory.Promotion.Corroboration.{acts}
use code_butler.Memory.Promotion.Tables.{PromotionTables}
use code_butler.Memory.Triage.{
  TriageItem, retain_branch, promote_to_core, to_triage_item, triage_score, recommend_action,
}
use code_butler.Memory.Triage.Resolution.{ResolveInput, ResolveResult, TriageStore, TriageDb}
use code_butler.Memory.Triage.Resolve.{
  in_store, carry_out, read_triage_item, resolve_in_transaction, resolve_branch_memory_triage,
}
use code_butler.Memory.Triage.Resolved.{resolve_branch_memory_triage-decide}
use code_butler.Exec.{pure}
use code_butler.Storage.{current}
use code_butler.Memory.Retention.{Layer, Review}

abbrev reviewed : TriageItem
reviewed = record {
  category = promoted;
  memory = record (fact "m" "The cache is warm." []) {
    layer = some "branch/feature";
    lifecycle_status = current;
    lifecycle_generation = "g";
    promoted_at = "t";
  };
  branch = "feature";
  layer = "branch/feature";
  latest_memory_at = "t";
  memory_version = "g";
}

-- The same version of the memory, as the promotion policy plans it.
abbrev planned : PlanItem
planned = record local_item { category = promoted; memory_version = "g" }

recommended : recommend_action 8 reviewed BranchState.merged ≡ promote_to_core
unfolding recommend_action
recommended = refl

scored_full : triage_score 8 reviewed BranchState.merged ≡ 100
unfolding triage_score
scored_full = refl

-- A store that holds one durable memory of the branch.
abbrev one_memory : TriageStore (Unit {0})
one_memory = record {
  identifier = λ t. t;
  trim = λ t. t;
  parse_now = λ o. some "now";
  parse_layer = λ t. Layer.branch "feature" none;
  find_candidate = λ id w. none;
  read_memory = λ id w. some reviewed.memory;
  assert_writable_layer = λ c id. pure tt;
  promote_memory_candidate = λ id actor. pure reviewed.memory;
  update_memory_layer = λ id reason actor. pure id;
  update_memory_status = λ i. pure reviewed.memory;
  update_candidate_quality = λ id q. pure tt;
  record_withdrawal = λ w. pure tt;
  hash_operation_identifier = λ id. pure id;
}

abbrev keep_it : ResolveInput
keep_it = record {
  memory_id = "m";
  category = promoted;
  action = retain_branch;
  reason = "in use";
  supersedes_memory_id = none;
  now = none;
}

abbrev before : TriageDb (Unit {0})
before = record { reviews = []; operations = []; rest = tt }

abbrev result : ResolveResult
result = record {
  item = reviewed;
  action = retain_branch;
  reviewed_at = "now";
  review_id = "review";
  supersedes_memory_id = none;
  resolution = record {
    candidate_after = none;
    memory_after = some reviewed.memory;
    promoted_memory_id = none;
  };
}

runs : Unit {0}
unfolding in_store carry_out read_triage_item to_triage_item resolve_in_transaction
    resolve_branch_memory_triage find_decision
runs = tt

abbrev after : List Review
after = (resolve_branch_memory_triage one_memory "person" "review" keep_it before).1.reviews

abbrev after_review : PromotionTables
after_review = record tables { triage_reviews = after }

resolve_branch_memory_triage-decide_example :
    ((decide empty_git touched_at_zero after policy facts (40 * day) item).decision ≡ skip)
    × (acts (decide_promotion judge sharing after_review planned).decision ≡ false)
unfolding runs
resolve_branch_memory_triage-decide_example =
    resolve_branch_memory_triage-decide one_memory "person" "review" keep_it before result empty_git
      touched_at_zero policy facts (40 * day) item judge sharing after_review planned refl refl refl
      refl refl refl refl refl refl refl refl
