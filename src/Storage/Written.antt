-- ===== src/Storage/Written.antt =====
-- What `updateMemoryLifecycle` has written when it returns.
use code_butler.Prelude.{
  String, some, List, [], ◌∷◌, find?, ◌==◌, ◌≡◌, refl, arith, inl, inr, Bool-cases,
}
use code_butler.Exec.{ok}
use code_butler.Exec.Post.{Ends}
use code_butler.Storage.{Env, Db, LifecycleStatus, DurableMemory}
use code_butler.Storage.Events.{read_row, record_memory_event}
use code_butler.Storage.Lifecycle.{LifecycleUpdate, updated_row, write_row, update_memory_lifecycle}

-- The table holds this memory under the identifier, with the status.
abbrev pub Held : LifecycleStatus → String → DurableMemory → List DurableMemory → Type 0
Held status id m ms = (m.lifecycle_status ≡ status) × (find? (λ x. x.id == id) ms ≡ some m)

module _ (env : Env) where
  find?-write_row :
      (change : LifecycleUpdate) (generation id : String) (ms : List DurableMemory)
      (m : DurableMemory)
      → find? (λ x. x.id == id) (write_row env change generation id ms) ≡ some m
      → m.lifecycle_status ≡ change.lifecycle_status
  unfolding write_row updated_row
  find?-write_row change generation id [] m h = cc
  find?-write_row change generation id (x ∷ xs) m h = elim (Bool-cases (x.id == id)) [
    | inl e ↦
        let h' = rw e at h in
        let same : updated_row env change generation x ≡ m = ground arith in rw (← same) refl
    | inr e ↦ let h' = rw (e, e) at h in find?-write_row change generation id xs m h'
  ]

  written : LifecycleUpdate → String → Db → List DurableMemory
  written change id db =
      write_row env change (env.random_uuid db.drawn) (env.identifier id) db.memories

  update_memory_lifecycle-written :
      (id : String) (change : LifecycleUpdate) (db : Db) (m : DurableMemory)
      → (update_memory_lifecycle env id change db).0 ≡ ok m
      → (find? (λ x. x.id == env.identifier id) (written change id db) ≡ some m)
        × ((update_memory_lifecycle env id change db).1.memories ≡ written change id db)
  unfolding update_memory_lifecycle read_row written record_memory_event
  update_memory_lifecycle-written id change db m h = ground arith

  -- The memory that an update returns is the one that is read back, and it has the status.
  pub update_memory_lifecycle-Held :
      (id : String) (change : LifecycleUpdate)
      → Ends
          (λ _. Unit)
          (λ m db. Held change.lifecycle_status (env.identifier id) m db.memories)
          (update_memory_lifecycle env id change)
  unfolding written
  update_memory_lifecycle-Held id change = record {
    at = λ db p m h.
        let (found, same) = update_memory_lifecycle-written id change db m h in
        (
          find?-write_row change (env.random_uuid db.drawn) (env.identifier id) db.memories m found,
          rw same found,
        );
  }
