-- ===== src/Memory/Lifecycle/Tests.antt =====
-- Runs of a change of status.
use code_butler.Prelude.{String, true, some, none, [], ◌∷◌, ◌≡◌, refl, not, ◌==◌}
use code_butler.Exec.{ok, err, Failure}
use code_butler.Storage.{
  Env, Db, DurableMemory, LifecycleStatus, current, superseded, MemoryRelation, supersedes,
}
use code_butler.Storage.Events.{record_memory_event, read_memory}
use code_butler.Storage.Lifecycle.{update_memory_lifecycle, write_row, updated_row}
use code_butler.Storage.OperationLog.{record_completed_operation, hash_operation_identifier}
use code_butler.Storage.Relations.{
  insert_relation, note_replacement, add_memory_relation, list_memory_relations,
}
use code_butler.Storage.PeerLayer.{assert_writable_layer, is_peer_layer}
use code_butler.Memory.Supersession.{would_create_supersession_cycle, IsAcyclic}
use code_butler.Memory.Supersession.Acyclic.{acyclic_check, acyclic_check-IsAcyclic}
use code_butler.Memory.Lifecycle.{
  StatusInput, lifecycle_status, apply_status, write_supersession, update_memory_status,
}
use code_butler.Memory.Lifecycle.Frame.{supersessions}
use code_butler.Memory.Lifecycle.Outcome.{update_memory_status-Held}
use code_butler.Memory.Lifecycle.Graph.{update_memory_status-IsAcyclic}

-- Identifiers that are kept as they are, and listings in the order of insertion.
abbrev pub plain_env : Env
plain_env = record {
  identifier = λ id. id;
  text = λ t. t;
  now = "2026-01-09T00:00:00.000Z";
  random_uuid = λ n. "uuid";
  sha256 = λ t. t;
  join_key = λ parts. "key";
  is_iso = λ t. true;
  is_source_id = λ id. not (id == "");
  order_relations = λ rows. rows;
  order_events = λ rows. rows;
}

abbrev pub memory : String → LifecycleStatus → DurableMemory
memory id status = record {
  id = id;
  layer = none;
  lifecycle_status = status;
  valid_from = "2026-01-01T00:00:00.000Z";
  valid_until = none;
  status_reason = none;
  status_changed_at = "2026-01-01T00:00:00.000Z";
  lifecycle_generation = "g";
}

abbrev supersession : String → String → MemoryRelation
supersession from to = record {
  id = from;
  from_memory_id = from;
  to_memory_id = to;
  relation_type = supersedes;
  created_at = "2026-01-01T00:00:00.000Z";
  reason = none;
}

abbrev pub two_current : Db
two_current = record {
  memories = memory "new" current ∷ memory "old" current ∷ memory "older" superseded ∷ [];
  relations = supersession "old" "older" ∷ [];
  peer_layers = [];
  events = [];
  operations = [];
  after_commit = [];
  drawn = 0;
}

abbrev pub replace : String → String → StatusInput
replace old new = record {
  memory_id = old;
  status = "superseded";
  reason = "newer";
  replacement_memory_id = some new;
  now = "2026-01-02T00:00:00.000Z";
  actor = none;
}

runs : Unit {0}
unfolding update_memory_status lifecycle_status apply_status update_memory_lifecycle
    add_memory_relation record_completed_operation assert_writable_layer
    would_create_supersession_cycle list_memory_relations read_memory is_peer_layer
    write_supersession write_row updated_row record_memory_event insert_relation note_replacement
    hash_operation_identifier
runs = tt

replaced_once :
    (update_memory_status plain_env (replace "old" "new") two_current).1.relations
    ≡ supersession "old" "older"
      ∷ record (supersession "new" "old") {
        id = "memory-relation-uuid";
        created_at = "2026-01-02T00:00:00.000Z";
        reason = some "newer";
      }
      ∷ []
unfolding runs
replaced_once = refl

update_memory_status-IsAcyclic_example :
    IsAcyclic
      (supersessions (update_memory_status plain_env (replace "old" "new") two_current).1.relations)
unfolding acyclic_check would_create_supersession_cycle
update_memory_status-IsAcyclic_example =
    update_memory_status-IsAcyclic plain_env (λ p rows. refl) (replace "old" "new") two_current refl
      (λ id e. refl) (acyclic_check-IsAcyclic (supersessions two_current.relations) refl)

self_replacement :
    (update_memory_status plain_env (replace "old" "old") two_current).0
    ≡ err Failure.supersedes_itself
unfolding runs
self_replacement = refl

replaced_result :
    (update_memory_status plain_env (replace "old" "new") two_current).0
    ≡ ok (record (memory "old" superseded) {
      valid_until = some "2026-01-02T00:00:00.000Z";
      status_reason = some "newer";
      status_changed_at = "2026-01-02T00:00:00.000Z";
      lifecycle_generation = "uuid";
    })
unfolding runs
replaced_result = refl

named : lifecycle_status (replace "old" "new").status ≡ some superseded
unfolding runs
named = refl

update_memory_status-Held_example :
    (superseded ≡ superseded)
    × (read_memory plain_env
          (update_memory_status plain_env (replace "old" "new") two_current).1
          "old"
        ≡ some (record (memory "old" superseded) {
          valid_until = some "2026-01-02T00:00:00.000Z";
          status_reason = some "newer";
          status_changed_at = "2026-01-02T00:00:00.000Z";
          lifecycle_generation = "uuid";
        }))
update_memory_status-Held_example =
    update_memory_status-Held plain_env (replace "old" "new") superseded two_current
      (record (memory "old" superseded) {
        valid_until = some "2026-01-02T00:00:00.000Z";
        status_reason = some "newer";
        status_changed_at = "2026-01-02T00:00:00.000Z";
        lifecycle_generation = "uuid";
      })
      named replaced_result
