-- ===== src/Memory/Retention/Apply.antt =====
-- `applyLayerRetention` and `runLayerRetention`: what is due is archived, and this is recorded.
use Prim.Native.String
use code_butler.Prelude.{
  ℕ, String, Bool, true, false, ◌&&◌, Option, none, some, List, [], ◌∷◌, ◌++◌, find?, is_some, ◌==◌,
  nat_eq, sort_texts, upsert, if◌then◌else◌,
}
use code_butler.Exec.{ok, Exec, pure, ◌>>=◌, ◌>>◌, modify, rolled_back}
use code_butler.Storage.{Env, Db, withdrawn}
use code_butler.Storage.Events.{record_memory_event}
use code_butler.Storage.OperationLog.{hash_operation_identifier}
use code_butler.Memory.EvidenceMerge.{dedupe}
use code_butler.Memory.Lifecycle.{StatusInput, update_memory_status}
use code_butler.Memory.Retention.{
  Category, candidate, promoted, category_eq, DecisionKind, archive, skip,
}

-- `LayerRetentionDecision`; the policy version is a constant.
pub record RetentionDecision : Type 0 where
  pub memory_id : String
  pub category : Category
  pub title : String
  pub layer : String
  pub memory_version : String
  pub decision : DecisionKind
  pub reason_codes : List String
  pub idle_days : ℕ

abbrev pub retention_policy_version : ℕ
retention_policy_version = 1

-- `RetentionDecisionRow`, with the reason codes that its JSON text holds.
pub record RetentionDecisionRow : Type 0 where
  pub id : String
  pub memory_id : String
  pub category : Category
  pub memory_version : String
  pub policy_version : ℕ
  pub decision : DecisionKind
  pub reason_codes : List String
  pub layer : String
  pub decided_at : String
  pub actor : String

-- The completed row of `operation_log` of the type `layer_retention`.
pub record RetentionOperation : Type 0 where
  pub actor : String
  pub memory_id_hash : String
  pub category : String
  pub decision : DecisionKind
  pub reason_codes_hash : String
  pub completed_at : String

-- A candidate with its quality reasons, or the reasons that it is quarantined with.
pub record CandidateReasons : Type 0 where
  pub id : String
  pub quality_reasons : List String

-- The tables, and the quarantines that wait for the commit.
pub record RetentionDb : Type 0 where
  pub db : Db
  pub decisions : List RetentionDecisionRow
  pub candidates : List CandidateReasons
  pub quarantines : List CandidateReasons
  pub operations : List RetentionOperation

-- `ApplyLayerRetentionResult`
pub record RetentionResult : Type 0 where
  pub memory_id : String
  pub category : Category
  pub decision : DecisionKind
  pub applied : Bool
  pub reason_codes : List String

-- Work on the tables of the lifecycle.
unfoldable pub in_tables : {A : Type 0} → Exec Db A → Exec RetentionDb A
in_tables m s = let (r, db) = m s.db in (r, record s { db = db })

abbrev pub has_key : RetentionDecision → RetentionDecisionRow → Bool
has_key d r =
    r.memory_id == d.memory_id
    && category_eq r.category d.category
    && r.memory_version == d.memory_version
    && nat_eq r.policy_version retention_policy_version

abbrev pub find_decision :
    List RetentionDecisionRow → RetentionDecision → Option RetentionDecisionRow
find_decision rows d = find? (has_key d) rows

abbrev pub decision_row : String → String → String → RetentionDecision → RetentionDecisionRow
decision_row fresh decided_at actor d = record {
  id = fresh;
  memory_id = d.memory_id;
  category = d.category;
  memory_version = d.memory_version;
  policy_version = retention_policy_version;
  decision = d.decision;
  reason_codes = d.reason_codes;
  layer = d.layer;
  decided_at = decided_at;
  actor = actor;
}

-- `do update set`: the key stays, the other columns are the new ones.
abbrev pub refreshed : RetentionDecisionRow → RetentionDecisionRow → RetentionDecisionRow
refreshed new old = record new {
  memory_id = old.memory_id;
  category = old.category;
  memory_version = old.memory_version;
  policy_version = old.policy_version;
}

abbrev pub upsert_decision : RetentionDecision → RetentionDecisionRow → RetentionDb → RetentionDb
upsert_decision d row s = record s {
  decisions = upsert (has_key d) (refreshed row) row s.decisions;
}

abbrev pub left_alone : RetentionDecision → RetentionResult
left_alone d = record {
  memory_id = d.memory_id;
  category = d.category;
  decision = d.decision;
  applied = false;
  reason_codes = d.reason_codes;
}

abbrev pub join_texts : String → List String → String
join_texts separator [] = ""
join_texts separator (t ∷ []) = t
join_texts separator (t ∷ t' ∷ ts) =
    String.◌++◌ t (String.◌++◌ separator (join_texts separator (t' ∷ ts)))

abbrev pub archive_reason : RetentionDecision → String
archive_reason d =
    String.◌++◌ "Layer retention archive (policy v1): "
      (String.◌++◌ (join_texts ", " d.reason_codes) ".")

abbrev pub category_text : Category → String
category_text candidate = "candidate"
category_text promoted = "promoted"

abbrev pub table_text : Category → String
table_text candidate = "candidates"
table_text promoted = "memories"

-- The key of the event.
abbrev pub retention_key : RetentionDecision → String
retention_key d =
    join_texts ":"
      ("retention" ∷ category_text d.category ∷ d.memory_id ∷ d.memory_version ∷ "1" ∷ [])

abbrev pub quarantined_reasons : List String → List String
quarantined_reasons reasons =
    sort_texts (dedupe (λ a b. a == b) [] (reasons ++ "layer_retention_archived" ∷ []))

abbrev pub is_skip : DecisionKind → Bool
is_skip skip = true
is_skip archive = false

module _ (env : Env) (fresh decided_at actor : String) where
  abbrev pub retraction : RetentionDecision → StatusInput
  retraction d = record {
    memory_id = d.memory_id;
    status = "retracted";
    reason = archive_reason d;
    replacement_memory_id = none;
    now = decided_at;
    actor = some actor;
  }

  -- The quarantine of a candidate waits for the commit; the event is written at once.
  abbrev pub withdraw_candidate : RetentionDecision → CandidateReasons → Exec RetentionDb Unit
  withdraw_candidate d c = do
    modify (λ s. record s {
      quarantines =
          s.quarantines
          ++ record { id = d.memory_id; quality_reasons = quarantined_reasons c.quality_reasons }
            ∷ [];
    })
    in_tables (
        record_memory_event env (record {
          kind = withdrawn;
          memory_id = d.memory_id;
          category = "candidate";
          layer = d.layer;
          related_memory_id = none;
          related_category = none;
          related_layer = none;
          from = none;
          to = none;
          reason = some (archive_reason d);
          actor = some actor;
          at = some decided_at;
          key = some (retention_key d);
        }))

  abbrev pub archive_candidate : RetentionDecision → Exec RetentionDb Unit
  archive_candidate d s = elim (find? (λ c. c.id == d.memory_id) s.candidates) [
    | none ↦ (ok tt, s)
    | some c ↦ withdraw_candidate d c s
  ]

  unfoldable pub archive_memory : RetentionDecision → Exec RetentionDb Unit
  unfolding in_tables
  archive_memory d = elim d.category [
    | promoted ↦ do in_tables (update_memory_status env (retraction d)); pure tt
    | candidate ↦ archive_candidate d
  ]

  abbrev pub logged : RetentionDecision → String → RetentionDb → RetentionDb
  logged d hash s = record s {
    operations =
        s.operations
        ++ record {
          actor = actor;
          memory_id_hash = hash;
          category = table_text d.category;
          decision = d.decision;
          reason_codes_hash = env.sha256 (join_texts "," (sort_texts d.reason_codes));
          completed_at = decided_at;
        }
          ∷ [];
  }

  abbrev pub log_retention : RetentionDecision → Exec RetentionDb Unit
  log_retention d = do
    hash ← in_tables (hash_operation_identifier env d.memory_id)
    modify (logged d hash)

  abbrev pub archive_and_record : RetentionDecision → Exec RetentionDb RetentionResult
  archive_and_record d = do
    archive_memory d
    modify (upsert_decision d (decision_row fresh decided_at actor d))
    log_retention d
    pure (record (left_alone d) { applied = true })

  abbrev pub apply_in_transaction : RetentionDecision → Exec RetentionDb RetentionResult
  apply_in_transaction d s =
      if is_skip d.decision
      then (ok (left_alone d), s)
      else if is_some (find_decision s.decisions d)
      then (ok (left_alone d), s)
      else archive_and_record d s

  unfoldable pub apply_layer_retention : RetentionDecision → Exec RetentionDb RetentionResult
  unfolding archive_memory
  apply_layer_retention d s = rolled_back s (apply_in_transaction d s)
