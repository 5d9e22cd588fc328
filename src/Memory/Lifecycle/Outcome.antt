-- ===== src/Memory/Lifecycle/Outcome.antt =====
-- What a change of status has achieved when it returns.
use code_butler.Prelude.{
  String, true, not, ◌&&◌, Option, none, some, List, find?, ◌==◌, ◌≡◌, refl, sym, ap, arith, inl,
  inr, Option-cases, is_some,
}
use code_butler.Exec.{
  Exec, ok, supersedes_itself, different_replacement, replacement_required, replacement_not_allowed,
  pure, throw_if, gets, ◌>>=◌, ◌>>◌,
}
use code_butler.Exec.Rules.{Leaves, Leaves-throw_if, Leaves-gets}
use code_butler.Exec.Post.{
  Ends, Ends-bind, Ends-pure, Ends-throw, Ends-if, Ends-transaction, Ends-Leaves,
}
use code_butler.Storage.{
  Env, Db, LifecycleStatus, current, superseded, retracted, DurableMemory, MemoryRelation,
  with_transaction, truthy,
}
use code_butler.Storage.Events.{read_row, read_memory, status_eq}
use code_butler.Storage.Lifecycle.{required}
use code_butler.Storage.Relations.{list_memory_relations}
use code_butler.Storage.Frame.{state-assert_writable_layer}
use code_butler.Memory.Lifecycle.{
  StatusInput, lifecycle_status, check_supersession, write_supersession, supersede_by, supersede,
  change_status, apply_status, update_memory_status, supersedes_only, compatible_replay,
  supersessions_of,
}
use code_butler.Memory.Lifecycle.Written.{Stored, write_supersession-Stored, write_status-Stored}

module _ (env : Env) (input : StatusInput) where
  -- The table holds this memory, whatever its status.
  abbrev Start : DurableMemory → List DurableMemory → Type 0
  Start memory ms = find? (λ x. x.id == env.identifier input.memory_id) ms ≡ some memory

  same_status : (a b : LifecycleStatus) → status_eq a b ≡ true → a ≡ b
  same_status current current h = refl
  same_status superseded superseded h = refl
  same_status retracted retracted h = refl
  same_status current superseded h = ground arith
  same_status current retracted h = ground arith
  same_status superseded current h = ground arith
  same_status superseded retracted h = ground arith
  same_status retracted current h = ground arith
  same_status retracted superseded h = ground arith

  weaken :
      {P : Db → Type 0} {Q : DurableMemory → Db → Type 0} (m : Exec Db DurableMemory)
      → Ends (λ _. Unit) Q m
      → Ends P Q m
  weaken m k = record { at = λ s p. k.at s tt }

  required-Leaves :
      (o : Db → Option DurableMemory)
      → Leaves (λ (db : Db). db.memories) (λ (db : Db). required (o db) db)
  required-Leaves o = record { at = λ db. at_option (o db) db }
    where
      at_option : (o : Option DurableMemory) (db : Db) → (required o db).1.memories ≡ db.memories
      at_option none db = refl
      at_option (some m) db = refl

  supersede_by-Stored :
      (memory : DurableMemory) (replacement_id : String)
      → Ends
          (λ db. Start memory db.memories)
          (Stored env input superseded)
          (supersede_by env input memory replacement_id)
  unfolding supersede_by
  supersede_by-Stored memory replacement_id =
      Ends-bind (λ _ db. Start memory db.memories) itself _
        (Ends-Leaves (Start memory) itself (Leaves-throw_if _ _))
        (λ _.
          Ends-bind (λ _ db. Start memory db.memories) read _
            (Ends-Leaves (Start memory) read
              (required-Leaves (λ db. read_memory env db replacement_id)))
            (λ replacement.
              Ends-bind (λ _ db. Start memory db.memories) listed _
                (Ends-Leaves (Start memory) listed (Leaves-gets _))
                (λ rs.
                  Ends-bind (λ _ db. Start memory db.memories) (other rs) _
                    (Ends-Leaves (Start memory) (other rs) (Leaves-throw_if _ _))
                    (λ _.
                      Ends-if (status_eq memory.lifecycle_status superseded) (pure memory)
                        (go rs replacement)
                        (λ e.
                          Ends-pure memory
                            (λ s p. (same_status memory.lifecycle_status superseded e, p)))
                        (λ e.
                          Ends-bind (λ _ _. Unit) (checks rs replacement)
                            (λ _. write_supersession env input memory replacement_id)
                            (record { at = λ s p a h. tt })
                            (λ _. write_supersession-Stored env input memory replacement_id))))))
    where
      itself : Exec Db (Unit {0})
      itself = throw_if (replacement_id == input.memory_id) supersedes_itself

      read : Exec Db DurableMemory
      read = λ (db : Db). required (read_memory env db replacement_id) db

      listed : Exec Db (List MemoryRelation)
      listed = gets (list_memory_relations env supersedes_only)

      other : List MemoryRelation → Exec Db (Unit {0})
      other rs =
          throw_if
            (status_eq memory.lifecycle_status superseded
              && not (compatible_replay rs replacement_id input.memory_id))
            different_replacement

      checks : List MemoryRelation → DurableMemory → Exec Db (Unit {0})
      checks rs replacement =
          check_supersession env rs memory replacement replacement_id input.memory_id

      go : List MemoryRelation → DurableMemory → Exec Db DurableMemory
      go rs replacement =
          checks rs replacement >>= λ _. write_supersession env input memory replacement_id

  supersede-Stored :
      (memory : DurableMemory)
      → Ends
          (λ db. Start memory db.memories)
          (Stored env input superseded)
          (supersede env input memory)
  unfolding supersede
  supersede-Stored memory = elim (Option-cases (truthy input.replacement_memory_id)) [
    | inl e ↦ rw (e, supersede) (Ends-throw replacement_required)
    | inr (id, e) ↦ rw (e, supersede) (supersede_by-Stored memory id)
  ]

  change_status-Stored :
      (status : LifecycleStatus) (memory : DurableMemory)
      → Ends
          (λ db. Start memory db.memories)
          (Stored env input status)
          (change_status env input status memory)
  unfolding change_status
  change_status-Stored status memory =
      Ends-if (status_eq status memory.lifecycle_status) _ _
        (λ e. Ends-pure memory (λ s p. (sym (same_status status memory.lifecycle_status e), p)))
        (λ e.
          Ends-bind (λ _ _. Unit)
            (gets (list_memory_relations env (supersessions_of input.memory_id))) _
            (record { at = λ s p a h. tt })
            (λ incoming. write_status-Stored env input status memory incoming))

  required_found :
      (o : Option DurableMemory) (db : Db) {m : DurableMemory}
      → (required o db).0 ≡ ok m
      → o ≡ some m
  required_found none db h = cc
  required_found (some a) db h = cc

  apply_status-Stored :
      (status : LifecycleStatus)
      → Ends (λ _. Unit) (Stored env input status) (apply_status env input status)
  unfolding apply_status read_memory read_row
  apply_status-Stored status =
      Ends-bind (λ memory db. Start memory db.memories) _ _ read
        (λ memory.
          Ends-bind (λ _ db. Start memory db.memories) _ _
            (Ends-Leaves (Start memory) _ (record {
              at = λ db.
                  ap (λ (d : Db). d.memories) (state-assert_writable_layer env input.memory_id db);
            }))
            (λ _.
              Ends-if (status_eq status superseded) _ _
                (λ e. rw (same_status status superseded e) (supersede-Stored memory))
                (λ e. change_status-Stored status memory)))
    where
      read :
          Ends
            (λ _. Unit)
            (λ memory db. Start memory db.memories)
            (λ (db : Db). required (read_memory env db input.memory_id) db)
      read = record {
        at = λ db p m h.
            let same = (required-Leaves (λ (d : Db). read_memory env d input.memory_id)).at db in
            rw same (required_found (read_memory env db input.memory_id) db h);
      }

  guarded-Stored :
      (status : LifecycleStatus)
      → Ends
          (λ _. Unit)
          (Stored env input status)
          (throw_if
              (not (status_eq status superseded) && is_some input.replacement_memory_id)
              replacement_not_allowed
            >> with_transaction (apply_status env input status))
  guarded-Stored status =
      Ends-bind (λ _ _. Unit)
        (throw_if (not (status_eq status superseded) && is_some input.replacement_memory_id)
          replacement_not_allowed)
        (λ _. with_transaction (apply_status env input status)) (record { at = λ s p a h. tt })
        (λ _. Ends-transaction (apply_status env input status) (apply_status-Stored status))

  -- A change of status that returns gives back the memory that the store then holds, and it has the
  -- status that was asked for.
  pub update_memory_status-Held :
      (status : LifecycleStatus) (db : Db) (m : DurableMemory)
      → lifecycle_status input.status ≡ some status
      → (update_memory_status env input db).0 ≡ ok m
      → (m.lifecycle_status ≡ status)
        × (read_memory env (update_memory_status env input db).1 input.memory_id ≡ some m)
  unfolding update_memory_status read_memory read_row
  update_memory_status-Held status db m named h =
      let h' = rw (named, update_memory_status) at h in
      rw (named, update_memory_status) ((guarded-Stored status).at db tt m h')
