-- ===== src/Storage/Frame.antt =====
-- Which tables each operation leaves alone, whether it returns or throws.
use code_butler.Prelude.{
  String, Option, [], ◌∷◌, ◌++◌, ◌≡◌, refl, suc, arith, ◌⊎◌, inl, inr, ◌==◌, find?, Bool-cases,
  Option-cases,
}
use code_butler.Exec.{ok}
use code_butler.Storage.{Env, Db, LifecycleStatus, DurableMemory, MemoryRelation}
use code_butler.Storage.Events.{EventInput, record_memory_event, read_row}
use code_butler.Storage.OperationLog.{hash_operation_identifier, record_completed_operation}
use code_butler.Storage.Lifecycle.{LifecycleUpdate, update_memory_lifecycle}
use code_butler.Storage.Relations.{
  RelationInput, relation_row, same_relation, note_replacement, insert_relation,
  add_memory_relation, delete_memory_relation,
}
use code_butler.Storage.PeerLayer.{assert_writable_layer}

module _ (env : Env) where
  pub relations-record_memory_event :
      (e : EventInput) (db : Db) → (record_memory_event env e db).1.relations ≡ db.relations
  unfolding record_memory_event
  relations-record_memory_event e db = ground arith

  pub memories-record_memory_event :
      (e : EventInput) (db : Db) → (record_memory_event env e db).1.memories ≡ db.memories
  unfolding record_memory_event
  memories-record_memory_event e db = ground arith

  pub ok-record_memory_event : (e : EventInput) (db : Db) → (record_memory_event env e db).0 ≡ ok tt
  unfolding record_memory_event
  ok-record_memory_event e db = refl

  pub relations-update_memory_lifecycle :
      (id : String) (change : LifecycleUpdate) (db : Db)
      → (update_memory_lifecycle env id change db).1.relations ≡ db.relations
  unfolding update_memory_lifecycle record_memory_event
  relations-update_memory_lifecycle id change db = ground arith

  pub relations-record_completed_operation :
      (actor hash : String) (a b : LifecycleStatus) (replacement : Option String) (at : String)
      (db : Db)
      → (record_completed_operation env actor hash a b replacement at db).1.relations ≡ db.relations
  unfolding record_completed_operation
  relations-record_completed_operation actor hash a b replacement at db = ground arith

  pub memories-record_completed_operation :
      (actor hash : String) (a b : LifecycleStatus) (replacement : Option String) (at : String)
      (db : Db)
      → (record_completed_operation env actor hash a b replacement at db).1.memories ≡ db.memories
  unfolding record_completed_operation
  memories-record_completed_operation actor hash a b replacement at db = ground arith

  pub state-hash_operation_identifier :
      (id : String) (db : Db) → (hash_operation_identifier env id db).1 ≡ db
  unfolding hash_operation_identifier
  state-hash_operation_identifier id db = ground arith

  pub state-assert_writable_layer :
      (id : String) (db : Db) → (assert_writable_layer env id db).1 ≡ db
  unfolding assert_writable_layer
  state-assert_writable_layer id db = ground arith

  pub memories-note_replacement :
      (row : MemoryRelation) (a b : DurableMemory) (db : Db)
      → (note_replacement env row a b db).1.memories ≡ db.memories
  unfolding note_replacement record_memory_event
  memories-note_replacement row a b db = ground arith

  pub relations-note_replacement :
      (row : MemoryRelation) (a b : DurableMemory) (db : Db)
      → (note_replacement env row a b db).1.relations ≡ db.relations
  unfolding note_replacement record_memory_event
  relations-note_replacement row a b db = ground arith

  pub memories-insert_relation :
      (row : MemoryRelation) (a b : DurableMemory) (db : Db)
      → (insert_relation env row a b db).1.memories ≡ db.memories
  unfolding insert_relation
  memories-insert_relation row a b db = ground (
    arith,
    memories-note_replacement row a b (record db { relations = db.relations ++ row ∷ [] }),
  )

  pub relations-insert_relation :
      (row : MemoryRelation) (a b : DurableMemory) (db : Db)
      → (insert_relation env row a b db).1.relations ≡ db.relations ++ row ∷ []
  unfolding insert_relation
  relations-insert_relation row a b db = ground (
    arith,
    relations-note_replacement row a b (record db { relations = db.relations ++ row ∷ [] }),
  )

  module _ (input : RelationInput) (db : Db) where
    abbrev pub added_row : MemoryRelation
    added_row =
        relation_row env input (env.identifier input.from_memory_id)
          (env.identifier input.to_memory_id) (env.random_uuid db.drawn)

    -- A relation is added at most, and no memory changes.
    pub tables-add_memory_relation :
        ((add_memory_relation env input db).1.memories ≡ db.memories)
        × (((add_memory_relation env input db).1.relations ≡ db.relations)
            ⊎ ((add_memory_relation env input db).1.relations ≡ db.relations ++ added_row ∷ []))
    unfolding add_memory_relation
    tables-add_memory_relation =
        let from = env.identifier input.from_memory_id in
        let to = env.identifier input.to_memory_id in
        let drawn = record db { drawn = suc db.drawn } in
        let held = find? (same_relation from to input.relation_type) db.relations in
        elim (Bool-cases (from == to)) [
          | inl same ↦ rw same (refl, inl refl)
          | inr apart ↦ rw apart (elim (Option-cases (read_row env db from)) [
            | inl e ↦ rw e (refl, inl refl)
            | inr (a, e) ↦ rw e (elim (Option-cases (read_row env db to)) [
              | inl g ↦ rw g (refl, inl refl)
              | inr (b, g) ↦ rw g (elim (Option-cases held) [
                | inl k ↦ rw k (
                    ground (
                      arith,
                      memories-insert_relation added_row b a drawn,
                      relations-insert_relation added_row b a drawn,
                    ))
                | inr (row, k) ↦ rw k (refl, inl refl)
              ])
            ])
          ])
        ]

  pub memories-delete_memory_relation :
      (id : String) (db : Db) → (delete_memory_relation env id db).1.memories ≡ db.memories
  unfolding delete_memory_relation
  memories-delete_memory_relation id db = refl
