-- ===== src/Storage/OperationLog.antt =====
-- operations/log.ts: the completed entry of a lifecycle change. Its metadata are statuses and digests,
-- so that `validateOperationMetadata` accepts them.
use Prim.Native.String
use code_butler.Prelude.{String, not, Option, none, some, List, contains, [], ◌∷◌, ◌++◌}
use code_butler.Exec.{
  Exec, ◌>>=◌, ◌>>◌, pure, throw_if, modify, invalid_actor, invalid_timestamp, invalid_source_id,
}
use code_butler.Storage.{Env, Db, LifecycleStatus, with_transaction}
use code_butler.Storage.Events.{draw}

-- `OPERATION_ACTORS`
abbrev pub operation_actors : List String
operation_actors = "cli" ∷ "mcp" ∷ "desktop" ∷ "system" ∷ "ai" ∷ []

module _ (env : Env) where
  unfoldable pub hash_operation_identifier : String → Exec Db String
  hash_operation_identifier id = do
    throw_if (not (env.is_source_id id)) invalid_source_id
    pure (env.sha256 id)

  -- The digest of an identifier that may be absent.
  abbrev pub hash_if_given : Option String → Exec Db (Option String)
  hash_if_given none = pure none
  hash_if_given (some id) = do hash ← hash_operation_identifier id; pure (some hash)

  -- `beginOperation` and then `completeOperation`, at the same time.
  unfoldable pub record_completed_operation :
      String
      → String
      → LifecycleStatus
      → LifecycleStatus
      → Option String
      → String
      → Exec Db (Unit {0})
  record_completed_operation actor memory_id_hash previous_status new_status replacement at =
      with_transaction do
        throw_if (not (contains actor operation_actors)) invalid_actor
        throw_if (not (env.is_iso at)) invalid_timestamp
        uuid ← draw env
        modify (λ (db : Db). record db {
          operations =
              db.operations
              ++ record {
                id = String.◌++◌ "operation-" uuid;
                actor = actor;
                memory_id_hash = memory_id_hash;
                previous_status = previous_status;
                new_status = new_status;
                replacement_memory_id_hash = replacement;
                started_at = at;
                completed_at = at;
              }
                ∷ [];
        })
