-- ===== src/Storage/Lifecycle.antt =====
-- storage/lifecycle-store.ts. SQL statements act on lists of rows; each function is a transaction.
use mathlib.Core.Option
use code_butler.Prelude.{String, Option, none, some, List, [], ◌∷◌, ◌==◌, if◌then◌else◌}
use code_butler.Exec.{Exec, ◌>>=◌, ◌>>◌, pure, throw, gets, modify, unknown_memory}
use code_butler.Storage.{
  Env, Db, LifecycleStatus, current, superseded, retracted, DurableMemory, EventKind, replaced,
  withdrawn, restored, with_transaction, truthy, or_else,
}
use code_butler.Storage.Events.{
  status_eq, draw, EventInput, status_text, record_memory_event, read_row,
}

-- `undefined` keeps the stored value (`none`), and `null` clears it (`some none`).
pub record LifecycleUpdate : Type 0 where
  pub lifecycle_status : LifecycleStatus
  pub valid_from : Option String
  pub valid_until : Option (Option String)
  pub status_reason : Option (Option String)
  pub status_changed_at : Option String
  pub actor : Option String
  pub replacement_memory_id : Option String

-- The kind of event that a change into a status records.
event_of : LifecycleStatus → EventKind
event_of superseded = replaced
event_of retracted = withdrawn
event_of current = restored

abbrev pub required : Option DurableMemory → Exec Db DurableMemory
required none = throw unknown_memory
required (some m) = pure m

module _ (env : Env) where
  -- The columns that the statement sets.
  unfoldable pub updated_row : LifecycleUpdate → String → DurableMemory → DurableMemory
  updated_row change generation m = record m {
    lifecycle_status = change.lifecycle_status;
    valid_from = or_else change.valid_from m.valid_from;
    valid_until = or_else change.valid_until m.valid_until;
    status_reason = or_else (Option.map (Option.map env.text) change.status_reason) m.status_reason;
    status_changed_at = or_else change.status_changed_at env.now;
    lifecycle_generation = generation;
  }

  -- `update memories set ... where id = ?`
  unfoldable pub write_row :
      LifecycleUpdate → String → String → List DurableMemory → List DurableMemory
  write_row change generation id [] = []
  write_row change generation id (m ∷ ms) =
      (if m.id == id then updated_row change generation m else m)
      ∷ write_row change generation id ms

  replacement_row : Db → Option String → Option DurableMemory
  replacement_row db none = none
  replacement_row db (some id) = read_row env db id

  status_event :
      String → LifecycleUpdate → DurableMemory → DurableMemory → Option DurableMemory → EventInput
  unfolding event_of
  status_event canonical change existing updated replacement = record {
    kind = event_of updated.lifecycle_status;
    memory_id = canonical;
    category = "promoted";
    layer = or_else updated.layer "core";
    related_memory_id = Option.map (λ r. r.id) replacement;
    related_category = Option.map (λ _. "promoted") replacement;
    related_layer = Option.bind replacement (λ r. r.layer);
    from = some (status_text existing.lifecycle_status);
    to = some (status_text updated.lifecycle_status);
    reason = updated.status_reason;
    actor = change.actor;
    at = some updated.status_changed_at;
    key = none;
  }

  unfoldable pub update_memory_lifecycle : String → LifecycleUpdate → Exec Db DurableMemory
  unfolding status_event replacement_row
  update_memory_lifecycle id change = with_transaction do
    let canonical = env.identifier id
    existing ← λ (db : Db). required (read_row env db canonical) db
    generation ← draw env
    modify (λ (db : Db). record db { memories = write_row change generation canonical db.memories })
    updated ← λ (db : Db). required (read_row env db canonical) db
    replacement ← gets (λ (db : Db). replacement_row db (truthy change.replacement_memory_id))
    if status_eq existing.lifecycle_status updated.lifecycle_status
        then pure tt
        else record_memory_event env (status_event canonical change existing updated replacement)
    pure updated
