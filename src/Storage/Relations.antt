-- ===== src/Storage/Relations.antt =====
-- storage/lifecycle-store.ts: the relations between memories.
use Prim.Native.String
use mathlib.Core.Option
use code_butler.Prelude.{
  String, Bool, true, not, ◌&&◌, Option, none, some, List, [], ◌∷◌, ◌++◌, any, filter, find?, ◌==◌,
  if◌then◌else◌,
}
use code_butler.Exec.{Exec, ok, ◌>>=◌, ◌>>◌, pure, throw_if, gets, modify, relates_itself}
use code_butler.Storage.{
  Env, Db, DurableMemory, RelationType, supersedes, MemoryRelation, replaced, MemoryEvent,
  with_transaction, or_else,
}
use code_butler.Storage.Events.{type_eq, is_replaced, draw, record_memory_event, read_row}
use code_butler.Storage.Lifecycle.{required}

pub record RelationInput : Type 0 where
  pub from_memory_id : String
  pub to_memory_id : String
  pub relation_type : RelationType
  pub created_at : Option String
  pub reason : Option String

-- The filter of `listMemoryRelations`; what is absent matches every row.
pub record RelationFilter : Type 0 where
  pub from_memory_id : Option String
  pub to_memory_id : Option String
  pub relation_type : Option RelationType

abbrev pub same_relation : String → String → RelationType → MemoryRelation → Bool
same_relation from to type r =
    r.from_memory_id == from && r.to_memory_id == to && type_eq r.relation_type type

-- The row of `memory_events` that a change of status at the same time has written.
abbrev captured_event : DurableMemory → MemoryEvent → Bool
captured_event original e =
    is_replaced e.kind && e.memory_id == original.id && e.occurred_at == original.status_changed_at

-- `update memory_events set related_memory_id = ?, ... where id = ?`
unfoldable pub relate_event : DurableMemory → String → List MemoryEvent → List MemoryEvent
relate_event replacement id [] = []
relate_event replacement id (e ∷ es) =
    (if e.id == id
      then record e {
        related_memory_id = some replacement.id;
        related_category = some "promoted";
        related_layer = some (or_else replacement.layer "core");
      }
      else e)
    ∷ relate_event replacement id es

matches : Option String → String → Bool
matches none value = true
matches (some wanted) value = value == wanted

matches_type : Option RelationType → RelationType → Bool
matches_type none type = true
matches_type (some wanted) type = type_eq type wanted

-- The predicates of `listMemoryRelations`, on one row.
unfoldable pub selects : (String → String) → RelationFilter → MemoryRelation → Bool
unfolding matches matches_type
selects identifier wanted r =
    matches (Option.map identifier wanted.from_memory_id) r.from_memory_id
    && matches (Option.map identifier wanted.to_memory_id) r.to_memory_id
    && matches_type wanted.relation_type r.relation_type

-- The row that is inserted, under the canonical identifiers.
abbrev pub relation_row : Env → RelationInput → String → String → String → MemoryRelation
relation_row env input from to uuid = record {
  id = String.◌++◌ "memory-relation-" uuid;
  from_memory_id = from;
  to_memory_id = to;
  relation_type = input.relation_type;
  created_at = or_else input.created_at env.now;
  reason = Option.map env.text input.reason;
}

module _ (env : Env) where
  -- The event of a replacement: the row that the change of status wrote, or else a new one.
  unfoldable pub note_replacement :
      MemoryRelation → DurableMemory → DurableMemory → Exec Db (Unit {0})
  unfolding relate_event
  note_replacement row original replacement db =
      elim (find? (captured_event original) (env.order_events db.events)) [
        | some e ↦ (ok tt, record db { events = relate_event replacement e.id db.events })
        | none ↦
            record_memory_event env
              (record {
                kind = replaced;
                memory_id = original.id;
                category = "promoted";
                layer = or_else original.layer "core";
                related_memory_id = some replacement.id;
                related_category = some "promoted";
                related_layer = replacement.layer;
                from = none;
                to = none;
                reason = row.reason;
                actor = none;
                at = some row.created_at;
                key = some (String.◌++◌ "replacement:" row.id);
              })
              db
      ]

  -- The new row, and the event of the replacement.
  unfoldable pub insert_relation :
      MemoryRelation → DurableMemory → DurableMemory → Exec Db MemoryRelation
  insert_relation row original replacement = do
    modify (λ (db : Db). record db { relations = db.relations ++ row ∷ [] })
    if type_eq row.relation_type supersedes
        then note_replacement row original replacement
        else pure tt
    pure row

  -- `insert ... on conflict do nothing`, and the row that is there then.
  unfoldable pub add_memory_relation : RelationInput → Exec Db MemoryRelation
  add_memory_relation input = with_transaction do
    let from = env.identifier input.from_memory_id
    let to = env.identifier input.to_memory_id
    throw_if (from == to) relates_itself
    replacement ← λ (db : Db). required (read_row env db from) db
    original ← λ (db : Db). required (read_row env db to) db
    uuid ← draw env
    held ← gets (λ (db : Db). find? (same_relation from to input.relation_type) db.relations)
    elim held [
      | some row ↦ pure row
      | none ↦ insert_relation (relation_row env input from to uuid) original replacement
    ]

  unfoldable pub list_memory_relations : RelationFilter → Db → List MemoryRelation
  unfolding selects
  list_memory_relations wanted db =
      env.order_relations (filter (selects env.identifier wanted) db.relations)

  -- `delete from memory_relations where id = ?`; the result says whether a row was there.
  unfoldable pub delete_memory_relation : String → Exec Db Bool
  delete_memory_relation id = with_transaction λ (db : Db). (
    ok (any (λ r. r.id == env.identifier id) db.relations),
    record db { relations = filter (λ r. not (r.id == env.identifier id)) db.relations },
  )
