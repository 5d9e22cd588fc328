-- ===== src/Memory/Lifecycle/Supersede.antt =====
-- A supersession adds a relation only where no chain of relations leads back along it.
use code_butler.Prelude.{
  String, true, false, some, List, [], ◌∷◌, ◌++◌, filter, ◌==◌, ◌≡◌, refl, ◌∙◌, inl, inr, arith,
  Bool-cases, Option-cases,
}
use code_butler.Exec.{◌>>◌}
use code_butler.Storage.{Env, Db, Orders, current, superseded, DurableMemory, MemoryRelation}
use code_butler.Storage.Events.{status_eq, read_memory}
use code_butler.Storage.Relations.{list_memory_relations, selects}
use code_butler.Memory.Supersession.{would_create_supersession_cycle, edge, Reach, IsAcyclic}
use code_butler.Memory.Supersession.Search.{search_correct}
use code_butler.Memory.Supersession.Acyclic.{Reach-fewer, added-IsAcyclic}
use code_butler.Memory.Lifecycle.{
  StatusInput, check_supersession, write_supersession, supersede_by, supersedes_only,
  compatible_replay,
}
use code_butler.Memory.Lifecycle.Frame.{supersessions, Grown, edge-append, Grown-write_supersession}

module _ (env : Env) where
  -- The graph that the search sees is the graph of the table.
  edge-listed :
      Orders env
      → (db : Db) (a b : String)
      → edge (list_memory_relations env supersedes_only db) a b
        ≡ edge (supersessions db.relations) a b
  unfolding list_memory_relations
  edge-listed orders db a b = orders _ _ ∙ same db.relations
    where
      same :
          (rs : List MemoryRelation)
          → edge (filter (selects env.identifier supersedes_only) rs) a b
            ≡ edge (supersessions rs) a b
      same [] = refl
      same (r ∷ rs) = (unfold selects in ground (arith, same rs))

  Grown-IsAcyclic :
      (db t : Db) (p o : String)
      → IsAcyclic (supersessions db.relations)
      → ¬ Reach (supersessions db.relations) o p
      → Grown db p o t
      → IsAcyclic (supersessions t.relations)
  unfolding Grown
  Grown-IsAcyclic db t p o k none_back (inl e) = rw e k
  Grown-IsAcyclic db t p o k none_back (inr (row, f, g, h, e)) = rw e (
      added-IsAcyclic (supersessions db.relations) (supersessions (db.relations ++ row ∷ [])) p o
        (λ a b. rw (← f, ← g) (edge-append db.relations row a b h)) k none_back)

  no_way_back :
      Orders env
      → (db : Db) (p o : String)
      → would_create_supersession_cycle (list_memory_relations env supersedes_only db) p o
        ≡ some false
      → ¬ Reach (supersessions db.relations) o p
  no_way_back orders db p o h r =
      let listed = list_memory_relations env supersedes_only db in
      let found = (search_correct listed p o).1.1 (
        Reach-fewer (supersessions db.relations) listed (λ a b e. edge-listed orders db a b ∙ e)
          r) in
      cc (found, h)

  checked-IsAcyclic :
      Orders env
      → (input : StatusInput) (memory replacement : DurableMemory) (id : String) (db : Db)
      → env.identifier id ≡ id
      → env.identifier input.memory_id ≡ input.memory_id
      → IsAcyclic (supersessions db.relations)
      → IsAcyclic (
          supersessions
            ((check_supersession env
                  (list_memory_relations env supersedes_only db)
                  memory
                  replacement
                  id
                  input.memory_id
                >> write_supersession env input memory id)
              db).1.relations)
  unfolding check_supersession
  checked-IsAcyclic orders input memory replacement id db canon canon' k =
      let listed = list_memory_relations env supersedes_only db in
      elim (Bool-cases (status_eq memory.lifecycle_status current)) [
        | inr gone ↦ rw gone k
        | inl live ↦ rw live (elim (Bool-cases (status_eq replacement.lifecycle_status current)) [
          | inr gone ↦ rw gone k
          | inl live' ↦
              rw live'
                (elim (Option-cases (would_create_supersession_cycle listed id input.memory_id)) [
                  | inl stuck ↦ rw stuck k
                  | inr (true, cycle) ↦ rw cycle k
                  | inr (false, none_back) ↦ rw none_back (
                      Grown-IsAcyclic db _ id input.memory_id k
                        (no_way_back orders db id input.memory_id none_back)
                        (rw (canon, canon') at (Grown-write_supersession env input memory id db)))
                ])
        ])
      ]

  pub supersede_by-IsAcyclic :
      Orders env
      → (input : StatusInput) (memory : DurableMemory) (id : String) (db : Db)
      → env.identifier id ≡ id
      → env.identifier input.memory_id ≡ input.memory_id
      → IsAcyclic (supersessions db.relations)
      → IsAcyclic (supersessions (supersede_by env input memory id db).1.relations)
  unfolding supersede_by
  supersede_by-IsAcyclic orders input memory id db canon canon' k =
      let listed = list_memory_relations env supersedes_only db in
      elim (Bool-cases (id == input.memory_id)) [
        | inl same ↦ rw same k
        | inr apart ↦ rw apart (elim (Option-cases (read_memory env db id)) [
          | inl missing ↦ rw missing k
          | inr (replacement, found) ↦
              rw found (elim (Bool-cases (status_eq memory.lifecycle_status superseded)) [
                | inl replay ↦
                    rw replay (elim (Bool-cases (compatible_replay listed id input.memory_id)) [
                      | inl good ↦ rw good k
                      | inr bad ↦ rw bad k
                    ])
                | inr first ↦
                    rw first
                      (checked-IsAcyclic orders input memory replacement id db canon canon' k)
              ])
        ])
      ]
