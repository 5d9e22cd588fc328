-- ===== src/Memory/Retention/Tests.antt =====
-- Runs of the retention policy.
use code_butler.Prelude.{
  ℕ, ◌*◌, ◌≤◌, String, true, false, Option, some, none, [], ◌∷◌, ◌≡◌, refl, ◌↔◌, contains, All,
  ◌==◌, if◌then◌else◌,
}
use code_butler.Storage.{current}
use code_butler.Memory.BranchState.{Git, GitBranchFacts, day, local_branch_exists, classify_branch}
use code_butler.Memory.Retention.{
  promoted, archive, skip, active, Policy, Item, StoredMemory, Layer, core, device, branch,
  suppressed, decide_branch, decide_device, idle_days_at, archived_already, decide, to_item,
  collect_items,
}
use code_butler.Prelude.{upsert}
use code_butler.Exec.{ok}
use code_butler.Storage.Events.{read_memory, record_memory_event}
use code_butler.Storage.Lifecycle.{update_memory_lifecycle, write_row, updated_row}
use code_butler.Storage.OperationLog.{record_completed_operation, hash_operation_identifier}
use code_butler.Storage.PeerLayer.{assert_writable_layer, is_peer_layer}
use code_butler.Storage.Relations.{list_memory_relations}
use code_butler.Memory.Lifecycle.{update_memory_status, lifecycle_status, apply_status}
use code_butler.Memory.Lifecycle.Tests.{plain_env, memory as durable}
use code_butler.Memory.Retention.Apply.{
  RetentionDecision, RetentionDb, RetentionResult, apply_layer_retention, archive_memory, in_tables,
  left_alone,
}
use code_butler.Memory.Retention.Archived.{
  Retracted, apply_layer_retention-Retracted, apply_layer_retention-left_alone,
}
use code_butler.Memory.Retention.Due.{Due, decide-archive}
use code_butler.Memory.Retention.Collected.{is_core, collect_items-own}

-- A repository without the branch that is asked for.
abbrev pub empty_git : Git
empty_git path args = some 1

abbrev pub touched_at_zero : String → ℕ
touched_at_zero t = 0

abbrev pub policy : Policy
policy = record {
  enabled = true;
  grace_days = 30;
  archive_deleted = true;
  archive_merged = false;
  branch_max_idle_days = none;
  device_max_idle_days = none;
}

abbrev pub facts : GitBranchFacts
facts = record {
  available = true;
  repo_path = some "/repo";
  current_branch = some "main";
  default_branch = some "main";
}

abbrev memory : String → Option String → StoredMemory
memory id layer = record {
  id = id;
  layer = layer;
  lifecycle_status = current;
  quality_status = active;
  updated_at = "t";
  status_changed_at = "t";
  lifecycle_generation = "g";
}

abbrev pub item : Item
item = record {
  category = promoted;
  memory = memory "m" (some "branch/feature");
  layer = "branch/feature";
  branch = some "feature";
  memory_version = "g";
  last_touched_at = "t";
}

abbrev layers : String → Layer
layers t =
    if t == "core" then core else if t == "device/a" then device "a" else branch "feature" none

runs : Unit {0}
unfolding decide decide_branch decide_device suppressed local_branch_exists classify_branch to_item
    collect_items
runs = tt

archived : (decide empty_git touched_at_zero [] policy facts (40 * day) item).decision ≡ archive
unfolding runs
archived = refl

in_grace : (decide empty_git touched_at_zero [] policy facts (20 * day) item).decision ≡ skip
unfolding runs
in_grace = refl

decide-archive_example :
    ((decide empty_git touched_at_zero [] policy facts (40 * day) item).decision ≡ archive) ↔ (
      (suppressed [] item ≡ false)
      × (archived_already empty_git touched_at_zero [] policy facts item ≡ false)
      × (30 ≤ idle_days_at empty_git touched_at_zero [] policy facts (40 * day) item)
      × Due empty_git touched_at_zero [] policy facts (40 * day) item)
decide-archive_example = decide-archive empty_git touched_at_zero [] policy facts (40 * day) item

collect_items-own_example :
    All
      (λ i. (is_core (layers i.layer) ≡ false) × (contains i.layer ("device/a" ∷ []) ≡ false))
      (collect_items layers
        ("device/a" ∷ [])
        (memory "a" (some "device/a") ∷ [])
        (memory "b" none ∷ memory "c" (some "branch/feature") ∷ []))
collect_items-own_example =
    collect_items-own layers ("device/a" ∷ []) (memory "a" (some "device/a") ∷ [])
      (memory "b" none ∷ memory "c" (some "branch/feature") ∷ [])

-- A durable memory of a device layer, and the decision to archive it.
abbrev due : RetentionDecision
due = record {
  memory_id = "d";
  category = promoted;
  title = "Cache";
  layer = "device:x";
  memory_version = "g";
  decision = archive;
  reason_codes = "device_idle_past_max_age" ∷ [];
  idle_days = 40;
}

abbrev stored : RetentionDb
stored = record {
  db = record {
    memories = durable "d" current ∷ [];
    relations = [];
    peer_layers = [];
    events = [];
    operations = [];
    after_commit = [];
    drawn = 0;
  };
  decisions = [];
  candidates = [];
  quarantines = [];
  operations = [];
}

applies : Unit {0}
unfolding apply_layer_retention archive_memory in_tables update_memory_status lifecycle_status
    apply_status update_memory_lifecycle record_completed_operation assert_writable_layer
    read_memory is_peer_layer write_row updated_row record_memory_event hash_operation_identifier
    list_memory_relations upsert
applies = tt

abbrev done : RetentionResult
done = record (left_alone due) { applied = true }

archived_once : (apply_layer_retention plain_env "id" "t" "system" due stored).0 ≡ ok done
unfolding applies
archived_once = refl

apply_layer_retention-Retracted_example :
    Retracted plain_env due (apply_layer_retention plain_env "id" "t" "system" due stored).1
apply_layer_retention-Retracted_example =
    apply_layer_retention-Retracted plain_env "id" "t" "system" due stored done archived_once refl
      refl

apply_layer_retention-left_alone_example :
    apply_layer_retention plain_env "id'" "t'" "cli" due
      (apply_layer_retention plain_env "id" "t" "system" due stored).1
    ≡ (ok (left_alone due), (apply_layer_retention plain_env "id" "t" "system" due stored).1)
apply_layer_retention-left_alone_example =
    apply_layer_retention-left_alone plain_env "id" "id'" "t" "t'" "system" "cli" due stored done
      archived_once
