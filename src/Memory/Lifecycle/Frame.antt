-- ===== src/Memory/Lifecycle/Frame.antt =====
-- What the parts of a change of status do to the table of relations.
use code_butler.Prelude.{
  String, Bool, ◌&&◌, ◌||◌, Option, none, some, List, [], ◌∷◌, ◌++◌, any, any-append, filter, ◌==◌,
  ◌≡◌, refl, ap, ◌∙◌, ◌⊎◌, inl, inr, arith,
}
use code_butler.Exec.{Exec, pure, ◌>>=◌}
use code_butler.Exec.Rules.{Leaves, leaves_rules, bind_state}
use code_butler.Storage.{
  Env, Db, LifecycleStatus, superseded, DurableMemory, supersedes, MemoryRelation,
}
use code_butler.Storage.Events.{type_eq}
use code_butler.Storage.Frame.{
  relations-update_memory_lifecycle, relations-record_completed_operation,
  state-hash_operation_identifier, added_row, tables-add_memory_relation,
}
use code_butler.Storage.OperationLog.{
  hash_operation_identifier, hash_if_given, record_completed_operation,
}
use code_butler.Storage.Lifecycle.{LifecycleUpdate, update_memory_lifecycle}
use code_butler.Storage.Relations.{add_memory_relation}
use code_butler.Memory.Supersession.{edge}
use code_butler.Memory.Lifecycle.{
  StatusInput, record_lifecycle_change, schedule_embedding_cleanup, write_supersession, note_change,
  supersession_update, supersession_relation,
}

-- The relations of the type `supersedes`.
abbrev pub supersessions : List MemoryRelation → List MemoryRelation
supersessions = filter (λ r. type_eq r.relation_type supersedes)

pub relations_of : Db → List MemoryRelation
relations_of db = db.relations

module _ (env : Env) where
  pub Leaves-record_lifecycle_change :
      (input : StatusInput) (a b : LifecycleStatus)
      → Leaves relations_of (record_lifecycle_change env input a b)
  unfolding record_lifecycle_change relations_of
  Leaves-record_lifecycle_change input a b = search (leaves_rules, hash, hashes, log)
    where
      hash : (id : String) → Leaves (λ (db : Db). db.relations) (hash_operation_identifier env id)
      hash id = record {
        at = λ db. ap (λ (d : Db). d.relations) (state-hash_operation_identifier env id db);
      }

      hashes : (id : Option String) → Leaves (λ (db : Db). db.relations) (hash_if_given env id)
      hashes none = record { at = λ db. refl }
      hashes (some id) = search (leaves_rules, hash)

      log :
          (actor h : String) (x y : LifecycleStatus) (r : Option String) (at : String)
          → Leaves (λ (db : Db). db.relations) (record_completed_operation env actor h x y r at)
      log actor h x y r at = record {
        at = relations-record_completed_operation env actor h x y r at;
      }

  pub Leaves-schedule : (id : String) → Leaves relations_of (schedule_embedding_cleanup env id)
  unfolding schedule_embedding_cleanup relations_of
  Leaves-schedule id = record { at = λ db. refl }

  pub Leaves-update :
      (id : String) (change : LifecycleUpdate)
      → Leaves (λ (t : Db). t.relations) (update_memory_lifecycle env id change)
  Leaves-update id change = record { at = relations-update_memory_lifecycle env id change }

  pub relations-note_change :
      (input : StatusInput) (a b : LifecycleStatus) (db : Db)
      → (note_change env input a b db).1.relations ≡ db.relations
  relations-note_change input a b =
      (unfold note_change relations_of in
        let l : Leaves relations_of (note_change env input a b) =
          search (leaves_rules, Leaves-record_lifecycle_change, Leaves-schedule) in
        l.at)

abbrev replaces : String → String → MemoryRelation → Bool
replaces a b r =
    type_eq r.relation_type supersedes && (r.from_memory_id == a && r.to_memory_id == b)

pub edge-supersessions :
    (rs : List MemoryRelation) (a b : String) → edge (supersessions rs) a b ≡ any (replaces a b) rs
edge-supersessions [] a b = refl
edge-supersessions (r ∷ rs) a b = ground (arith, edge-supersessions rs a b)

pub edge-append :
    (rs : List MemoryRelation) (row : MemoryRelation) (a b : String)
    → row.relation_type ≡ supersedes
    → edge (supersessions (rs ++ row ∷ [])) a b
      ≡ (edge (supersessions rs) a b || (row.from_memory_id == a && row.to_memory_id == b))
edge-append rs row a b h = ground (
  arith,
  edge-supersessions rs a b,
  edge-supersessions (rs ++ row ∷ []) a b,
  any-append (replaces a b) rs (row ∷ []),
)

-- What a supersession may do to the table: add one relation, from the replacement.
unfoldable pub Grown : Db → String → String → Db → Type 0
Grown db from to t =
    (t.relations ≡ db.relations)
    ⊎ ((row : MemoryRelation) × (row.from_memory_id ≡ from)
        × (row.to_memory_id ≡ to)
        × (row.relation_type ≡ supersedes)
        × (t.relations ≡ db.relations ++ row ∷ []))

module _ (env : Env) where
  pub Grown-write_supersession :
      (input : StatusInput) (memory : DurableMemory) (replacement_id : String) (db : Db)
      → Grown db
          (env.identifier replacement_id)
          (env.identifier input.memory_id)
          (write_supersession env input memory replacement_id db).1
  unfolding write_supersession Grown
  Grown-write_supersession input memory replacement_id db =
      bind_state (Grown db p o) (update_memory_lifecycle env input.memory_id change)
        (λ updated. relate >>= λ _. finish >>= λ _. pure updated) db
        (inl (relations-update_memory_lifecycle env input.memory_id change db))
        (λ updated _.
          bind_state (Grown db p o) relate (λ _. finish >>= λ _. pure updated) (marked db)
            (grown db)
            (λ r _.
              let t = (relate (marked db)).1 in
              bind_state (Grown db p o) finish (λ _. pure updated) t (rest t (grown db))
                (λ _ _. rest t (grown db))))
    where
      p : String
      p = env.identifier replacement_id

      o : String
      o = env.identifier input.memory_id

      change : LifecycleUpdate
      change = supersession_update input replacement_id

      relate : Exec Db MemoryRelation
      relate = add_memory_relation env (supersession_relation input replacement_id)

      finish : Exec Db (Unit {0})
      finish = note_change env input memory.lifecycle_status superseded

      marked : Db → Db
      marked s = (update_memory_lifecycle env input.memory_id change s).1

      grown : (s : Db) → Grown s p o (relate (marked s)).1
      grown s =
          let (_, g) =
            tables-add_memory_relation env (supersession_relation input replacement_id)
              (marked s) in
          let same = relations-update_memory_lifecycle env input.memory_id change s in
          elim g [
            | inl e ↦ inl (e ∙ same)
            | inr e ↦
                let row = added_row env (supersession_relation input replacement_id) (marked s) in
                inr (row, refl, refl, refl, e ∙ ap (λ rs. rs ++ row ∷ []) same)
          ]

      rest : (t : Db) → Grown db p o t → Grown db p o (finish t).1
      rest t g = rw (relations-note_change env input memory.lifecycle_status superseded t) g
