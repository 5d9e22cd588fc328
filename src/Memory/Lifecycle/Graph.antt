-- ===== src/Memory/Lifecycle/Graph.antt =====
-- A change of status keeps the graph of supersessions without a cycle.
use code_butler.Prelude.{
  String, true, false, not, none, some, List, [], ◌∷◌, filter, ◌==◌, ◌≡◌, ◌⊎◌, inl, inr,
  if◌then◌else◌, arith, Bool-cases, Option-cases,
}
use code_butler.Exec.{pure, ◌>>=◌, ◌>>◌, read_only_layer}
use code_butler.Exec.Rules.{Leaves, leaves_rules, bind_state, throw_if_after}
use code_butler.Storage.{
  Env, Db, Orders, LifecycleStatus, current, superseded, DurableMemory, MemoryRelation, truthy,
}
use code_butler.Storage.Events.{status_eq, read_memory}
use code_butler.Storage.PeerLayer.{assert_writable_layer}
use code_butler.Storage.Lifecycle.{update_memory_lifecycle}
use code_butler.Storage.Relations.{list_memory_relations, delete_memory_relation}
use code_butler.Memory.Supersession.{IsAcyclic}
use code_butler.Memory.Supersession.Acyclic.{Fewer, Fewer-IsAcyclic}
use code_butler.Memory.Lifecycle.{
  StatusInput, note_change, supersede, delete_relations, change_status, update_memory_status,
  supersessions_of, apply_status, write_status, status_update,
}
use code_butler.Memory.Lifecycle.Steps.{update_memory_status_state}
use code_butler.Memory.Lifecycle.Frame.{supersessions, Leaves-update, relations-note_change}
use code_butler.Memory.Lifecycle.Supersede.{supersede_by-IsAcyclic}

module _ (env : Env) where
  Leaves-note :
      (input : StatusInput) (a b : LifecycleStatus)
      → Leaves (λ (t : Db). t.relations) (note_change env input a b)
  Leaves-note input a b = record { at = relations-note_change env input a b }

  delete-Fewer :
      (id : String) (rs : List MemoryRelation)
      → Fewer (supersessions (filter (λ r. not (r.id == id)) rs)) (supersessions rs)
  delete-Fewer id [] a b e = e
  delete-Fewer id (r ∷ rs) a b e = ground (arith, delete-Fewer id rs a b)

  delete_relations-Fewer :
      (incoming : List MemoryRelation) (db : Db)
      → Fewer
          (supersessions (delete_relations env incoming db).1.relations)
          (supersessions db.relations)
  unfolding delete_relations delete_memory_relation
  delete_relations-Fewer [] db a b e = e
  delete_relations-Fewer (r ∷ rs) db a b e =
      delete-Fewer (env.identifier r.id) db.relations a b
        (delete_relations-Fewer rs (delete_memory_relation env r.id db).1 a b e)

  write_status-Fewer :
      (input : StatusInput) (status : LifecycleStatus) (memory : DurableMemory)
      (incoming : List MemoryRelation) (db : Db)
      → Fewer
          (supersessions (write_status env input status memory incoming db).1.relations)
          (supersessions db.relations)
  unfolding write_status
  write_status-Fewer input status memory incoming db =
      bind_state P (if status_eq status current then delete_relations env incoming else pure tt) _
        db (cleared (Bool-cases (status_eq status current)))
        (λ _ _. rw (rest.at _) (cleared (Bool-cases (status_eq status current))))
    where
      P : Db → Type 0
      P t = Fewer (supersessions t.relations) (supersessions db.relations)

      cleared :
          (status_eq status current ≡ true) ⊎ (status_eq status current ≡ false)
          → P ((if status_eq status current then delete_relations env incoming else pure tt) db).1
      cleared (inl e) = rw e (delete_relations-Fewer incoming db)
      cleared (inr e) = rw e (λ a b h. h)

      rest :
          Leaves
            (λ (t : Db). t.relations)
            (do
              updated ← update_memory_lifecycle env input.memory_id (status_update input status)
              note_change env input memory.lifecycle_status status
              pure updated)
      rest = search (leaves_rules, Leaves-update env, Leaves-note)

  change_status-IsAcyclic :
      (input : StatusInput) (status : LifecycleStatus) (memory : DurableMemory) (db : Db)
      → IsAcyclic (supersessions db.relations)
      → IsAcyclic (supersessions (change_status env input status memory db).1.relations)
  unfolding change_status
  change_status-IsAcyclic input status memory db k =
      let incoming = list_memory_relations env (supersessions_of input.memory_id) db in
      elim (Bool-cases (status_eq status memory.lifecycle_status)) [
        | inl same ↦ rw same k
        | inr new ↦ rw new (
            Fewer-IsAcyclic
              (supersessions (write_status env input status memory incoming db).1.relations)
              (supersessions db.relations) (write_status-Fewer input status memory incoming db) k)
      ]

  apply_status-IsAcyclic :
      Orders env
      → (input : StatusInput) (status : LifecycleStatus) (db : Db)
      → env.identifier input.memory_id ≡ input.memory_id
      → ((id : String) → truthy input.replacement_memory_id ≡ some id → env.identifier id ≡ id)
      → IsAcyclic (supersessions db.relations)
      → IsAcyclic (supersessions (apply_status env input status db).1.relations)
  unfolding apply_status supersede assert_writable_layer
  apply_status-IsAcyclic orders input status db canon canon' k =
      elim (Option-cases (read_memory env db input.memory_id)) [
        | inl missing ↦ rw missing k
        | inr (memory, found) ↦ rw found (
            throw_if_after P _ read_only_layer
              (if status_eq status superseded
                then supersede env input memory
                else change_status env input status memory)
              db k
              (chosen memory (Bool-cases (status_eq status superseded))
                (Option-cases (truthy input.replacement_memory_id))))
      ]
    where
      P : Db → Type 0
      P t = IsAcyclic (supersessions t.relations)

      chosen :
          (memory : DurableMemory)
          → (status_eq status superseded ≡ true) ⊎ (status_eq status superseded ≡ false)
          → (truthy input.replacement_memory_id ≡ none)
            ⊎ ((id : String) × (truthy input.replacement_memory_id ≡ some id))
          → P
              ((if status_eq status superseded
                  then supersede env input memory
                  else change_status env input status memory)
                db).1
      chosen memory (inr other) _ = rw other (change_status-IsAcyclic input status memory db k)
      chosen memory (inl e) (inl absent) = rw e (rw (absent, supersede) k)
      chosen memory (inl e) (inr (id, given)) = rw e (
          rw (given, supersede)
            (supersede_by-IsAcyclic env orders input memory id db (canon' id given) canon k))

  -- Where no memory is superseded by way of itself, none is after a change of status either,
  -- whether it returns or throws. The listing keeps the rows of the table, and the identifiers of
  -- the request are those that the store keeps.
  pub update_memory_status-IsAcyclic :
      Orders env
      → (input : StatusInput) (db : Db) → env.identifier input.memory_id ≡ input.memory_id
      → ((id : String) → truthy input.replacement_memory_id ≡ some id → env.identifier id ≡ id)
      → IsAcyclic (supersessions db.relations)
      → IsAcyclic (supersessions (update_memory_status env input db).1.relations)
  update_memory_status-IsAcyclic orders input db canon canon' k =
      update_memory_status_state env (λ t. IsAcyclic (supersessions t.relations)) input db k
        (λ status. apply_status-IsAcyclic orders input status db canon canon' k)
