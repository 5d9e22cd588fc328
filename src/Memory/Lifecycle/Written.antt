-- ===== src/Memory/Lifecycle/Written.antt =====
-- The memory that the writes of a change of status leave in the table.
use code_butler.Prelude.{String, Option, none, some, List, refl, ap}
use code_butler.Exec.{pure, ◌>>=◌}
use code_butler.Exec.Rules.{Leaves, leaves_rules}
use code_butler.Exec.Post.{Ends, Ends-bind, Ends-pure, Ends-Leaves}
use code_butler.Storage.{Env, Db, LifecycleStatus, superseded, DurableMemory, MemoryRelation}
use code_butler.Storage.OperationLog.{
  hash_operation_identifier, hash_if_given, record_completed_operation,
}
use code_butler.Storage.Relations.{add_memory_relation}
use code_butler.Storage.Frame.{
  memories-record_completed_operation, state-hash_operation_identifier, tables-add_memory_relation,
}
use code_butler.Storage.Written.{Held, update_memory_lifecycle-Held}
use code_butler.Memory.Lifecycle.{
  StatusInput, record_lifecycle_change, schedule_embedding_cleanup, note_change,
  supersession_update, supersession_relation, status_update, write_supersession, write_status,
}

module _ (env : Env) (input : StatusInput) where
  Leaves-note_change :
      (a b : LifecycleStatus) → Leaves (λ (db : Db). db.memories) (note_change env input a b)
  unfolding note_change record_lifecycle_change schedule_embedding_cleanup
  Leaves-note_change a b = search (leaves_rules, hash, hashes, log, cleanup)
    where
      hash : (id : String) → Leaves (λ (db : Db). db.memories) (hash_operation_identifier env id)
      hash id = record {
        at = λ db. ap (λ (d : Db). d.memories) (state-hash_operation_identifier env id db);
      }

      hashes : (id : Option String) → Leaves (λ (db : Db). db.memories) (hash_if_given env id)
      hashes none = record { at = λ db. refl }
      hashes (some id) = search (leaves_rules, hash)

      log :
          (actor h : String) (x y : LifecycleStatus) (r : Option String) (at : String)
          → Leaves (λ (db : Db). db.memories) (record_completed_operation env actor h x y r at)
      log actor h x y r at = record {
        at = memories-record_completed_operation env actor h x y r at;
      }

      cleanup :
          (id : String) → Leaves (λ (db : Db). db.memories) (schedule_embedding_cleanup env id)
      cleanup id = record { at = λ db. refl }

  abbrev pub Stored : LifecycleStatus → DurableMemory → Db → Type 0
  Stored status m db = Held status (env.identifier input.memory_id) m db.memories

  pub finish-Stored :
      (a b status : LifecycleStatus) (m : DurableMemory)
      → Ends (Stored status m) (λ u. Stored status u) (note_change env input a b >>= λ _. pure m)
  finish-Stored a b status m =
      Ends-bind (λ _. Stored status m) (note_change env input a b) (λ _. pure m)
        (Ends-Leaves (Held status (env.identifier input.memory_id) m) (note_change env input a b)
          (Leaves-note_change a b))
        (λ _. Ends-pure m (λ s p. p))

  pub write_supersession-Stored :
      (memory : DurableMemory) (replacement_id : String)
      → Ends (λ _. Unit) (Stored superseded) (write_supersession env input memory replacement_id)
  unfolding write_supersession
  write_supersession-Stored memory replacement_id =
      Ends-bind (Stored superseded) _ _
        (update_memory_lifecycle-Held env input.memory_id
          (supersession_update input replacement_id))
        (λ m.
          Ends-bind (λ _. Stored superseded m) _ _ (relate m)
            (λ _. finish-Stored memory.lifecycle_status superseded superseded m))
    where
      relate :
          (m : DurableMemory)
          → Ends
              (Stored superseded m)
              (λ _. Stored superseded m)
              (add_memory_relation env (supersession_relation input replacement_id))
      relate m =
          Ends-Leaves (Held superseded (env.identifier input.memory_id) m)
            (add_memory_relation env (supersession_relation input replacement_id))
            (record {
              at = λ db.
                  (tables-add_memory_relation env (supersession_relation input replacement_id)
                    db).0;
            })

  pub write_status-Stored :
      (status : LifecycleStatus) (memory : DurableMemory) (incoming : List MemoryRelation)
      → Ends (λ _. Unit) (Stored status) (write_status env input status memory incoming)
  unfolding write_status
  write_status-Stored status memory incoming =
      Ends-bind (λ _ _. Unit) _ _ (record { at = λ s p a h. tt })
        (λ _.
          Ends-bind (Stored status) _ _
            (update_memory_lifecycle-Held env input.memory_id (status_update input status))
            (λ m. finish-Stored memory.lifecycle_status status status m))
