-- ===== src/Memory/Promotion/Tests.antt =====
-- Runs of the promotion of memories.
use code_butler.Prelude.{
  String, true, false, not, ◌&&◌, none, some, List, [], ◌∷◌, ◌≡◌, refl, ◌==◌, ◌↔◌, any, upsert,
}
use code_butler.Prelude.Assoc.{get, put}
use code_butler.Exec.{Result, ok}
use code_butler.Storage.{current}
use code_butler.Storage.Events.{read_memory, record_memory_event}
use code_butler.Storage.Lifecycle.{update_memory_lifecycle, write_row, updated_row}
use code_butler.Storage.OperationLog.{record_completed_operation, hash_operation_identifier}
use code_butler.Storage.PeerLayer.{assert_writable_layer, is_peer_layer}
use code_butler.Storage.Relations.{list_memory_relations}
use code_butler.Memory.BranchState.{BranchState}
use code_butler.Memory.EvidenceMerge.{EvidenceRef, dedupe}
use code_butler.Memory.Facts.{
  Fact, Words, Scope, scope_key, memory_subject_group_key, create_memory_subject_key, same_summary,
  memory_facts_conflict,
}
use code_butler.Memory.Facts.Groups.{group_by_subject, group_of}
use code_butler.Memory.Lifecycle.{update_memory_status, lifecycle_status, apply_status}
use code_butler.Memory.Lifecycle.Tests.{plain_env, memory}
use code_butler.Memory.Retention.{candidate, Quality}
use code_butler.Memory.Reviews.{current_memory_review, read_latest_review}
use code_butler.Memory.Promotion.{
  promote, skip, PromotionPolicy, PlanItem, PromotionDecision, find_decision,
  promotion_policy_version,
}
use code_butler.Memory.Promotion.Core.{
  no_match, find_core_equivalent, find_core_equivalent-none, same_subject, related,
}
use code_butler.Memory.Promotion.Tables.{PromotionTables, Judge, is_active}
use code_butler.Memory.Promotion.CoreCandidate.{
  decide_core_candidate, support_of, has_current_ai_correction,
}
use code_butler.Memory.Promotion.Corroboration.{acts, corroborated, against}
use code_butler.Memory.Promotion.Decide.{
  decide, decide_local, find_suppressing_review, is_core_candidate,
}
use code_butler.Memory.Promotion.Outright.{decide-related, eligible}
use code_butler.Memory.Promotion.Unrecorded.{
  decision_on_record, decide-corroborated, decide-eligible,
}
use code_butler.Memory.Promotion.Apply.{
  PromotionDb, PromotionStore, ApplyResult, apply_automatic_promotion, record_decision,
  upsert_decision, in_store, unapplied, applied_as,
}
use code_butler.Memory.Promotion.Replay.{
  apply_automatic_promotion-unapplied, apply_automatic_promotion-decide,
}
use code_butler.Memory.Promotion.Undo.{
  UndoDb, in_db, undone, already_undone, undo_promotion, withdraw_copy, reopen_candidate,
}
use code_butler.Memory.Promotion.Undone.{Withdrawn, undo_promotion-already_undone}
use code_butler.Memory.Promotion.Plan.{run_decisions, fresh_summary}

abbrev words : Words
words = record {
  normalize_summary = λ t. t;
  title_key = λ t. t;
  scope_json = λ s. "scope";
  sha256 = λ t. t;
}

abbrev reference : String → EvidenceRef
reference id = record { source_type = "docs"; source_id = id; locator = none }

abbrev pub fact : String → String → List EvidenceRef → Fact
fact id summary evidence = record {
  id = id;
  kind = "decision";
  title = "Ports";
  summary = summary;
  layer = none;
  scope = Scope.project;
  evidence = evidence;
  confidence = 8;
  quality_status = Quality.active;
  quality_reasons = [];
  dedupe_key = id;
  subject_key = none;
  updated_at = "2026-01-01";
  promoted_memory_id = none;
  lifecycle_status = current;
  lifecycle_generation = "g";
  status_changed_at = "2026-01-01";
  promoted_at = "2026-01-01";
}

abbrev pub judge : Judge
judge = record {
  words = words;
  later = λ a b. not (a == b);
  context = λ m. record { memory_version = "v"; accepted_tokens = "t" ∷ [] };
  is_core = λ l. l == "core";
  sql_like = λ text pattern. text == pattern;
}

abbrev pub policy : PromotionPolicy
policy = record {
  enabled = true;
  min_score = 7;
  merged_branches = true;
  device_memories = true;
  core_candidates = true;
  single_source_min_confidence = none;
  confidence_threshold = 7;
  min_source_categories = 2;
  unit = 1;
}

abbrev core_fact : Fact
core_fact = fact "c" "The port is 80." (reference "b" ∷ [])

abbrev pub tables : PromotionTables
tables = record {
  decisions = [];
  triage_reviews = [];
  reviews = record { reviews = []; compensations = [] };
  candidates = [];
  memories = [];
  core = core_fact ∷ [];
}

-- Two sources support it.
abbrev pub item : PlanItem
item = record {
  category = candidate;
  memory = record (fact "m" "The cache is warm." (reference "a" ∷ reference "b" ∷ [])) {
    title = "Cache";
  };
  layer = "core";
  memory_version = "v";
  score = 9;
  branch_state = none;
}

-- A memory of a merged branch.
abbrev pub local_item : PlanItem
local_item = record item { layer = "branch:x"; branch_state = some BranchState.merged }

runs : Unit {0}
unfolding decide decide_local decide_core_candidate find_suppressing_review
    has_current_ai_correction support_of find_core_equivalent group_by_subject group_of scope_key
    memory_subject_group_key create_memory_subject_key same_summary memory_facts_conflict
    current_memory_review read_latest_review find_decision apply_automatic_promotion record_decision
    upsert_decision in_store undo_promotion withdraw_copy reopen_candidate in_db
    update_memory_status lifecycle_status apply_status update_memory_lifecycle
    record_completed_operation assert_writable_layer read_memory is_peer_layer write_row updated_row
    record_memory_event hash_operation_identifier list_memory_relations run_decisions dedupe get put
    upsert
runs = tt

promoted_outright : (decide judge policy tables item).decision ≡ promote
unfolding runs
promoted_outright = refl

unsupported :
    (decide judge policy tables
      (record item { memory = fact "m" "x" (reference "a" ∷ []) })).decision
    ≡ skip
unfolding runs
unsupported = refl

find_core_equivalent-none_example :
    (find_core_equivalent words item.memory tables.core ≡ no_match) ↔ (
      any (λ c. same_subject words item.memory c && related words item.memory c) tables.core
      ≡ false)
find_core_equivalent-none_example = find_core_equivalent-none words item.memory tables.core

unrecorded :
    find_decision tables.decisions item.memory.id item.category item.memory_version
      promotion_policy_version
    ≡ none
unfolding runs
unrecorded = refl

core_item : is_core_candidate judge policy tables item ≡ true
unfolding runs
core_item = refl

decide-corroborated_example : acts (decide judge policy tables item).decision ≡ (
    is_active item.memory.quality_status
    && not (against judge policy tables item)
    && corroborated policy item.memory.confidence (support_of judge policy tables item))
decide-corroborated_example = decide-corroborated judge policy tables item unrecorded core_item

unrecorded_here : decision_on_record tables local_item ≡ none
unfolding runs
unrecorded_here = refl

outside_core : is_core_candidate judge policy tables local_item ≡ false
unfolding runs
outside_core = refl

decide-eligible_example :
    acts (decide judge policy tables local_item).decision ≡ eligible judge policy tables local_item
decide-eligible_example =
    decide-eligible judge policy tables local_item unrecorded_here outside_core

decide-related_example :
    any (λ c. same_subject words item.memory c && related words item.memory c) tables.core ≡ false
decide-related_example = decide-related judge policy tables item unrecorded promoted_outright

-- A store of the ids that were promoted.
abbrev store : PromotionStore (List String)
store = record {
  promote_memory_candidate = λ id ids. (ok (record { id = id; withdrawn = false }), id ∷ ids);
  restore_memory = λ id ids. (ok tt, ids);
  move_to_core = λ id codes ids. (ok id, id ∷ ids);
  link_candidate = λ id core ids. (ok tt, ids);
  quality_reasons = λ category id ids. none;
  update_memory_quality = λ category id reasons ids. (ok tt, ids);
  record_completed_operation = λ d id ids. (ok tt, ids);
}

abbrev decision : PromotionDecision
decision = record {
  memory_id = "m";
  category = candidate;
  title = "Cache";
  current_layer = "core";
  memory_version = "v";
  decision = promote;
  reason_codes = [];
  score = 8;
  core_memory_id = none;
}

abbrev start : PromotionDb (List String)
start = record { decisions = []; rest = [] }

abbrev first : Result ApplyResult × PromotionDb (List String)
first = apply_automatic_promotion store "id" "t" "system" decision start

applied_first : first.0 ≡ ok (applied_as decision (some "m"))
unfolding runs
applied_first = refl

promoted_once : first.1.rest ≡ "m" ∷ []
unfolding runs
promoted_once = refl

apply_automatic_promotion-unapplied_example :
    apply_automatic_promotion store "id'" "t'" "cli" decision first.1
    ≡ (ok (unapplied decision), first.1)
apply_automatic_promotion-unapplied_example =
    apply_automatic_promotion-unapplied store "id" "id'" "t" "t'" "system" "cli" decision start
      (applied_as decision (some "m")) applied_first

apply_automatic_promotion-decide_example :
    (decide judge policy (record tables { decisions = first.1.decisions }) item).decision ≡ promote
apply_automatic_promotion-decide_example =
    apply_automatic_promotion-decide store "id" "t" "system" decision start
      (applied_as decision (some "m")) judge policy
      (record tables { decisions = first.1.decisions }) item refl applied_first refl refl refl refl

ran :
    (run_decisions store
      (λ d. "id")
      "t"
      "system"
      (decision ∷ decision ∷ [])
      (fresh_summary 2)
      start).0.promoted
    ≡ 1
unfolding runs
ran = refl

abbrev promoted_db : UndoDb
promoted_db = record {
  db = record {
    memories = memory "d" current ∷ [];
    relations = [];
    peer_layers = [];
    events = [];
    operations = [];
    after_commit = [];
    drawn = 0;
  };
  candidates =
      record { id = "m"; promoted = true; promoted_memory_id = some "d"; updated_at = "t" } ∷ [];
}

undone_first : (undo_promotion plain_env "u" "cli" "m" "d" promoted_db).0 ≡ ok undone
unfolding runs
undone_first = refl

undo_promotion-already_undone_example :
    Withdrawn plain_env "m" "d" (undo_promotion plain_env "u" "cli" "m" "d" promoted_db).1
    × (undo_promotion plain_env "u'" "cli" "m" "d"
          (undo_promotion plain_env "u" "cli" "m" "d" promoted_db).1
        ≡ (ok already_undone, (undo_promotion plain_env "u" "cli" "m" "d" promoted_db).1))
undo_promotion-already_undone_example =
    undo_promotion-already_undone plain_env "m" "d" "u" "u'" "cli" "cli" promoted_db undone_first
