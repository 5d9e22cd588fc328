-- ===== src/Storage/Events.antt =====
-- `recordMemoryEvent` of memory/events.ts, the reading of a memory by its key, and tests on enums.
use Prim.Native.String
use mathlib.Core.Option
use code_butler.Prelude.{
  suc, String, Bool, true, false, Option, [], ◌∷◌, ◌++◌, any, find?, ◌==◌, if◌then◌else◌,
}
use code_butler.Exec.{Exec, ok}
use code_butler.Storage.{
  Env, Db, LifecycleStatus, current, superseded, retracted, DurableMemory, RelationType, supersedes,
  potentially_contradicts, EventKind, replaced, withdrawn, restored, MemoryEvent, truthy, or_else,
}

abbrev pub status_eq : LifecycleStatus → LifecycleStatus → Bool
status_eq current current = true
status_eq superseded superseded = true
status_eq retracted retracted = true
status_eq _ _ = false

abbrev pub type_eq : RelationType → RelationType → Bool
type_eq supersedes supersedes = true
type_eq potentially_contradicts potentially_contradicts = true
type_eq _ _ = false

abbrev pub is_replaced : EventKind → Bool
is_replaced replaced = true
is_replaced _ = false

-- A draw from `randomUUID`.
abbrev pub draw : Env → Exec Db String
draw env db = (ok (env.random_uuid db.drawn), record db { drawn = suc db.drawn })

pub record EventInput : Type 0 where
  pub kind : EventKind
  pub memory_id : String
  pub category : String
  pub layer : String
  pub related_memory_id : Option String
  pub related_category : Option String
  pub related_layer : Option String
  pub from : Option String
  pub to : Option String
  pub reason : Option String
  pub actor : Option String
  pub at : Option String
  pub key : Option String

kind_text : EventKind → String
kind_text EventKind.coverage = "coverage"
kind_text EventKind.made_durable = "made_durable"
kind_text EventKind.sharing_changed = "sharing_changed"
kind_text replaced = "replaced"
kind_text withdrawn = "withdrawn"
kind_text restored = "restored"
kind_text EventKind.corrected = "corrected"
kind_text EventKind.wording_accepted = "wording_accepted"
kind_text EventKind.wording_undone = "wording_undone"

unfoldable pub status_text : LifecycleStatus → String
status_text current = "current"
status_text superseded = "superseded"
status_text retracted = "retracted"

module _ (env : Env) where
  event_key : EventInput → String → String
  unfolding kind_text
  event_key input at = or_else input.key (
      env.join_key (
        kind_text input.kind
        ∷ input.category
        ∷ input.memory_id
        ∷ or_else input.related_memory_id ""
        ∷ or_else input.from ""
        ∷ or_else input.to ""
        ∷ at
        ∷ []))

  event_row : EventInput → MemoryEvent
  unfolding event_key
  event_row input =
      let at = or_else input.at env.now in
      record {
        id = String.◌++◌ "event-" (env.sha256 (event_key input at));
        kind = input.kind;
        memory_id = env.identifier input.memory_id;
        category = input.category;
        layer = env.identifier input.layer;
        related_memory_id = Option.map env.identifier (truthy input.related_memory_id);
        related_category = input.related_category;
        related_layer = Option.map env.identifier (truthy input.related_layer);
        from_value = Option.map env.text (truthy input.from);
        to_value = Option.map env.text (truthy input.to);
        reason = env.text (or_else input.reason "");
        actor = or_else input.actor "system";
        occurred_at = at;
      }

  -- `insert or ignore`: a row with the same id is kept.
  unfoldable pub record_memory_event : EventInput → Exec Db (Unit {0})
  unfolding event_row
  record_memory_event input db =
      let row = event_row input in
      (
        ok tt,
        if any (λ e. e.id == row.id) db.events
            then db
            else record db { events = db.events ++ row ∷ [] },
      )

  -- `readMemoryRow`, by the primary key.
  unfoldable pub read_row : Db → String → Option DurableMemory
  read_row db id = find? (λ m. m.id == id) db.memories

  unfoldable pub read_memory : Db → String → Option DurableMemory
  unfolding read_row
  read_memory db id = read_row db (env.identifier id)
