-- ===== src/Storage.antt =====
-- The rows of the project database that the lifecycle code reads and writes (types.ts,
-- storage/lifecycle-store.ts, memory/events.ts, operations/log.ts), and what the code takes from
-- outside: the content policy, random identifiers, digests, and the order of SQL listings.
pub mod Events
pub mod OperationLog
pub mod Lifecycle
pub mod Relations
pub mod PeerLayer
pub mod Frame
pub mod Written
pub mod Transactions
use code_butler.Prelude.{ℕ, String, ◌≡◌, Bool, Option, none, some, List, any, ◌==◌, if◌then◌else◌}
use code_butler.Exec.{Exec, rolled_back}

-- What the callers of `withTransaction` rely on: a throw undoes every write. The code of
-- storage/transactions.ts itself, with its savepoints, is in Storage/Transactions.
abbrev pub with_transaction : {S A : Type 0} → Exec S A → Exec S A
with_transaction work s = rolled_back s (work s)

-- A value that is present and not the empty text.
abbrev pub truthy : Option String → Option String
truthy none = none
truthy (some t) = if t == "" then none else some t

abbrev pub or_else : {A : Type 0} → Option A → A → A
or_else none d = d
or_else (some a) d = a

pub data LifecycleStatus : Type 0 where
  current superseded retracted : LifecycleStatus

-- `DurableMemory`; the extracted text, the evidence and the quality stand in no test here.
pub record DurableMemory : Type 0 where
  pub id : String
  pub layer : Option String
  pub lifecycle_status : LifecycleStatus
  pub valid_from : String
  pub valid_until : Option String
  pub status_reason : Option String
  pub status_changed_at : String
  pub lifecycle_generation : String

pub data RelationType : Type 0 where
  supersedes potentially_contradicts : RelationType

pub record MemoryRelation : Type 0 where
  pub id : String
  pub from_memory_id : String
  pub to_memory_id : String
  pub relation_type : RelationType
  pub created_at : String
  pub reason : Option String

pub data EventKind : Type 0 where
  coverage made_durable sharing_changed replaced withdrawn restored corrected : EventKind
  wording_accepted wording_undone : EventKind

pub record MemoryEvent : Type 0 where
  pub id : String
  pub kind : EventKind
  pub memory_id : String
  pub category : String
  pub layer : String
  pub related_memory_id : Option String
  pub related_category : Option String
  pub related_layer : Option String
  pub from_value : Option String
  pub to_value : Option String
  pub reason : String
  pub actor : String
  pub occurred_at : String

-- A completed row of `operation_log` of the type `lifecycle_change`.
pub record OperationEntry : Type 0 where
  pub id : String
  pub actor : String
  pub memory_id_hash : String
  pub previous_status : LifecycleStatus
  pub new_status : LifecycleStatus
  pub replacement_memory_id_hash : Option String
  pub started_at : String
  pub completed_at : String

pub record Db : Type 0 where
  pub memories : List DurableMemory
  pub relations : List MemoryRelation
  pub peer_layers : List String
  pub events : List MemoryEvent
  pub operations : List OperationEntry
  -- the memories whose embedding clean-up waits for the commit
  pub after_commit : List String
  -- the random identifiers drawn so far
  pub drawn : ℕ

pub record Env : Type 0 where
  pub identifier : String → String
  pub text : String → String
  -- `new Date().toISOString()`
  pub now : String
  pub random_uuid : ℕ → String
  pub sha256 : String → String
  -- the key of an event, joined by a NUL character
  pub join_key : List String → String
  -- `Date.parse` and `toISOString` give the text back
  pub is_iso : String → Bool
  -- the check of `assertRawSourceId`
  pub is_source_id : String → Bool
  -- `order by created_at asc, id asc` and `order by id`
  pub order_relations : List MemoryRelation → List MemoryRelation
  pub order_events : List MemoryEvent → List MemoryEvent

-- An SQL listing holds the rows of the table, in some order.
abbrev pub Orders : Env → Type 0
Orders env =
    (p : MemoryRelation → Bool) (rows : List MemoryRelation)
    → any p (env.order_relations rows) ≡ any p rows
