-- ===== src/Memory/Lifecycle.antt =====
-- memory/lifecycle-service.ts: the status of a memory changes in one transaction.
pub mod Frame
pub mod Supersede
pub mod Steps
pub mod Graph
pub mod Written
pub mod Outcome
pub mod Tests
use code_butler.Prelude.{
  ℕ, String, Bool, true, false, not, ◌&&◌, ◌||◌, Option, none, some, List, [], ◌∷◌, ◌++◌, any, ◌==◌,
  if◌then◌else◌, is_some, inl, inr, Option-cases,
}
use code_butler.Exec.{
  Exec, ◌>>=◌, ◌>>◌, pure, throw, throw_if, gets, modify, unknown_memory, invalid_status,
  replacement_not_allowed, replacement_required, supersedes_itself, different_replacement,
  original_not_current, replacement_not_current, supersession_cycle, out_of_fuel,
}
use code_butler.Exec.Rules.{bind_state, throw_if_after, rolled_back_state}
use code_butler.Storage.{
  Env, Db, LifecycleStatus, current, superseded, retracted, DurableMemory, supersedes,
  MemoryRelation, with_transaction, truthy, or_else,
}
use code_butler.Storage.Events.{status_eq, read_memory}
use code_butler.Storage.OperationLog.{
  hash_operation_identifier, hash_if_given, record_completed_operation,
}
use code_butler.Storage.Lifecycle.{LifecycleUpdate, required, update_memory_lifecycle}
use code_butler.Storage.Relations.{
  RelationInput, RelationFilter, add_memory_relation, list_memory_relations, delete_memory_relation,
}
use code_butler.Storage.PeerLayer.{assert_writable_layer}
use code_butler.Memory.Supersession.{would_create_supersession_cycle}

-- `UpdateMemoryStatusInput`; the status is checked at run time.
pub record StatusInput : Type 0 where
  pub memory_id : String
  pub status : String
  pub reason : String
  pub replacement_memory_id : Option String
  pub now : String
  pub actor : Option String

-- `isMemoryLifecycleStatus`, with the status that the text names.
unfoldable pub lifecycle_status : String → Option LifecycleStatus
lifecycle_status text =
    if text == "current"
    then some current
    else if text == "superseded"
    then some superseded
    else if text == "retracted"
    then some retracted
    else none

abbrev pub supersedes_only : RelationFilter
supersedes_only = record {
  from_memory_id = none;
  to_memory_id = none;
  relation_type = some supersedes;
}

-- Whether the replacement that is asked for is the one that stands, and the only one.
pub compatible_replay : List MemoryRelation → String → String → Bool
compatible_replay rs replacement original =
    any (λ r. r.from_memory_id == replacement && r.to_memory_id == original) rs
    && not (any (λ r. r.to_memory_id == original && not (r.from_memory_id == replacement)) rs)

abbrev pub supersessions_of : String → RelationFilter
supersessions_of id = record {
  from_memory_id = none;
  to_memory_id = some id;
  relation_type = some supersedes;
}

-- The arguments of the two writes of a supersession.
abbrev pub supersession_update : StatusInput → String → LifecycleUpdate
supersession_update input replacement_id = record {
  lifecycle_status = superseded;
  valid_from = none;
  valid_until = some (some input.now);
  status_reason = some (some input.reason);
  status_changed_at = some input.now;
  actor = input.actor;
  replacement_memory_id = some replacement_id;
}

abbrev pub supersession_relation : StatusInput → String → RelationInput
supersession_relation input replacement_id = record {
  from_memory_id = replacement_id;
  to_memory_id = input.memory_id;
  relation_type = supersedes;
  created_at = some input.now;
  reason = some input.reason;
}

-- The argument of the write of another status.
abbrev pub status_update : StatusInput → LifecycleStatus → LifecycleUpdate
status_update input status = record {
  lifecycle_status = status;
  valid_from = none;
  valid_until = some (if status_eq status current then none else some input.now);
  status_reason = some (some input.reason);
  status_changed_at = some input.now;
  actor = input.actor;
  replacement_memory_id = none;
}

module _ (env : Env) where
  -- `recordLifecycleChange`
  pub record_lifecycle_change : StatusInput → LifecycleStatus → LifecycleStatus → Exec Db (Unit {0})
  record_lifecycle_change input previous_status new_status = do
    memory_hash ← hash_operation_identifier env input.memory_id
    replacement_hash ← hash_if_given env input.replacement_memory_id
    record_completed_operation env (or_else input.actor "system") memory_hash previous_status
        new_status replacement_hash input.now

  -- `scheduleEmbeddingCleanup`: the callback waits for the commit.
  pub schedule_embedding_cleanup : String → Exec Db (Unit {0})
  schedule_embedding_cleanup id =
      modify (λ (db : Db). record db { after_commit = db.after_commit ++ id ∷ [] })

  -- The guards on a supersession; `none` goes on to the writes.
  pub check_supersession :
      List MemoryRelation → DurableMemory → DurableMemory → String → String → Exec Db (Unit {0})
  check_supersession rs memory replacement replacement_id memory_id = do
    throw_if (not (status_eq memory.lifecycle_status current)) original_not_current
    throw_if (not (status_eq replacement.lifecycle_status current)) replacement_not_current
    elim (would_create_supersession_cycle rs replacement_id memory_id) [
      | none ↦ throw out_of_fuel
      | some cycle ↦ throw_if cycle supersession_cycle
    ]

  -- The entry in the log, and the clean-up.
  pub note_change : StatusInput → LifecycleStatus → LifecycleStatus → Exec Db (Unit {0})
  unfolding record_lifecycle_change schedule_embedding_cleanup
  note_change input previous_status new_status = do
    record_lifecycle_change input previous_status new_status
    schedule_embedding_cleanup input.memory_id

  -- The writes of a supersession.
  unfoldable pub write_supersession : StatusInput → DurableMemory → String → Exec Db DurableMemory
  unfolding note_change
  write_supersession input memory replacement_id = do
    updated ← update_memory_lifecycle env input.memory_id (supersession_update input replacement_id)
    add_memory_relation env (supersession_relation input replacement_id)
    note_change input memory.lifecycle_status superseded
    pure updated

  unfoldable pub supersede_by : StatusInput → DurableMemory → String → Exec Db DurableMemory
  unfolding check_supersession
  supersede_by input memory replacement_id = do
    throw_if (replacement_id == input.memory_id) supersedes_itself
    replacement ← λ (db : Db). required (read_memory env db replacement_id) db
    rs ← gets (list_memory_relations env supersedes_only)
    throw_if
        (status_eq memory.lifecycle_status superseded
          && not (compatible_replay rs replacement_id input.memory_id))
        different_replacement
    if status_eq memory.lifecycle_status superseded then pure memory else do
      check_supersession rs memory replacement replacement_id input.memory_id
      write_supersession input memory replacement_id

  unfoldable pub supersede : StatusInput → DurableMemory → Exec Db DurableMemory
  unfolding supersede_by
  supersede input memory = elim (truthy input.replacement_memory_id) [
    | none ↦ throw replacement_required
    | some replacement_id ↦ supersede_by input memory replacement_id
  ]

  -- The loop that takes the relations away when a memory is restored.
  pub delete_relations : List MemoryRelation → Exec Db (Unit {0})
  delete_relations [] = pure tt
  delete_relations (r ∷ rs) = do delete_memory_relation env r.id; delete_relations rs

  -- The writes of a change to `current` or to `retracted`.
  pub write_status :
      StatusInput → LifecycleStatus → DurableMemory → List MemoryRelation → Exec Db DurableMemory
  unfolding delete_relations note_change
  write_status input status memory incoming = do
    if status_eq status current then delete_relations incoming else pure tt
    updated ← update_memory_lifecycle env input.memory_id (status_update input status)
    note_change input memory.lifecycle_status status
    pure updated

  unfoldable pub change_status :
      StatusInput → LifecycleStatus → DurableMemory → Exec Db DurableMemory
  unfolding write_status
  change_status input status memory =
      if status_eq status memory.lifecycle_status then pure memory else do
        incoming ← gets (list_memory_relations env (supersessions_of input.memory_id))
        write_status input status memory incoming

  -- The work of the transaction.
  unfoldable pub apply_status : StatusInput → LifecycleStatus → Exec Db DurableMemory
  unfolding supersede change_status
  apply_status input status = do
    memory ← λ (db : Db). required (read_memory env db input.memory_id) db
    assert_writable_layer env input.memory_id
    if status_eq status superseded
        then supersede input memory
        else change_status input status memory

  unfoldable pub update_memory_status : StatusInput → Exec Db DurableMemory
  update_memory_status input = elim (lifecycle_status input.status) [
    | none ↦ throw invalid_status
    | some status ↦ do
      throw_if (not (status_eq status superseded) && is_some input.replacement_memory_id)
          replacement_not_allowed
      with_transaction (apply_status input status)
  ]
