-- ===== src/Memory/Triage/Resolve.antt =====
-- memory/branch-triage.ts, `resolveBranchMemoryTriage`: a person's decision on one memory of a
-- branch.
use code_butler.Prelude.{
  String, Bool, true, false, not, ◌&&◌, Option, none, some, [], ◌∷◌, ◌++◌, ◌==◌, sort_texts, as_set,
  is_some,
}
use code_butler.Exec.{
  Exec, ok, pure, throw, throw_if, ◌>>=◌, ◌>>◌, modify, rolled_back, reason_required,
  supersedes_not_allowed, not_current_memory, not_in_branch_layer, invalid_timestamp,
  unknown_memory,
}
use code_butler.Storage.{current}
use code_butler.Storage.Events.{status_eq}
use code_butler.Memory.Facts.{Fact}
use code_butler.Memory.Retention.{Category, candidate, promoted, quarantined}
use code_butler.Memory.Triage.{
  TriageItem, TriageAction, promote_to_core, discard, retain_branch, to_triage_item, upsert_review,
}
use code_butler.Memory.Triage.Resolution.{
  ResolveInput, CandidateQuality, TriageStore, TriageOperation, TriageDb, Resolution, ResolveResult,
}

abbrev pub is_promotion : TriageAction → Bool
is_promotion promote_to_core = true
is_promotion _ = false

abbrev pub discard_reason : String
discard_reason = "branch_triage_discarded"

module _ {W : Type 0} where
  -- Work on the tables of the store.
  unfoldable pub in_store : {A : Type 0} → Exec W A → Exec (TriageDb W) A
  in_store m s = let (r, w) = m s.rest in (r, record s { rest = w })

module _ {W : Type 0} (store : TriageStore W) where
  abbrev pub read_row : Category → String → W → Option Fact
  read_row candidate id w = store.find_candidate id w
  read_row promoted id w = store.read_memory id w

  abbrev pub not_current : Category → Fact → Bool
  not_current candidate m = false
  not_current promoted m = not (status_eq m.lifecycle_status current)

  abbrev pub as_item : Option TriageItem → Exec W TriageItem
  as_item none = throw not_in_branch_layer
  as_item (some item) = pure item

  abbrev pub check_found : Category → String → Option Fact → Exec W TriageItem
  check_found category id none = throw unknown_memory
  check_found category id (some m) = do
    throw_if (not_current category m) not_current_memory
    item ← as_item (to_triage_item store.parse_layer category m)
    store.assert_writable_layer category id
    pure item

  unfoldable pub read_triage_item : String → Category → Exec W TriageItem
  read_triage_item raw_id category w =
      let id = store.identifier raw_id in check_found category id (read_row category id w) w

  module _ (actor reviewed_at reason : String) where
    abbrev pub supersede_old : Option String → String → Exec W (Unit {0})
    supersede_old none promoted_id = pure tt
    supersede_old (some old) promoted_id = do
      store.update_memory_status (record {
        memory_id = old;
        status = "superseded";
        reason = reason;
        replacement_memory_id = some promoted_id;
        now = reviewed_at;
        actor = some actor;
      })
      pure tt

    abbrev pub promote_item : TriageItem → Exec W (Option Fact × String)
    promote_item item = elim item.category [
      | candidate ↦ do m ← store.promote_memory_candidate item.memory.id actor; pure (some m, m.id)
      | promoted ↦ do
        moved ← store.update_memory_layer item.memory.id reason actor
        λ w. (ok (store.read_memory moved w, moved), w)
    ]

    abbrev pub quarantine : TriageItem → CandidateQuality
    quarantine item = record {
      quality_status = quarantined;
      quality_reasons = sort_texts (as_set (item.memory.quality_reasons ++ (discard_reason ∷ [])));
      last_verified_at = reviewed_at;
    }

    abbrev pub discard_item : TriageItem → Exec W Resolution
    discard_item item = elim item.category [
      | candidate ↦ do
        store.update_candidate_quality item.memory.id (quarantine item)
        store.record_withdrawal (record {
          memory_id = item.memory.id;
          layer = item.layer;
          reason = reason;
          actor = actor;
          at = reviewed_at;
          memory_version = item.memory_version;
        })
        pure (record {
          candidate_after = some (record item.memory {
            quality_status = quarantined;
            quality_reasons = (quarantine item).quality_reasons;
          });
          memory_after = none;
          promoted_memory_id = none;
        })
      | promoted ↦ do
        m ← store.update_memory_status (record {
          memory_id = item.memory.id;
          status = "retracted";
          reason = reason;
          replacement_memory_id = none;
          now = reviewed_at;
          actor = some actor;
        })
        pure (record { candidate_after = none; memory_after = some m; promoted_memory_id = none })
    ]

    abbrev pub keep_item : TriageItem → Resolution
    keep_item item = elim item.category [
      | candidate ↦ record {
        candidate_after = some item.memory;
        memory_after = none;
        promoted_memory_id = none;
      }
      | promoted ↦ record {
        candidate_after = none;
        memory_after = some item.memory;
        promoted_memory_id = none;
      }
    ]

    -- The three actions.
    unfoldable pub carry_out : TriageAction → Option String → TriageItem → Exec W Resolution
    carry_out promote_to_core supersedes item = do
      (m, promoted_id) ← promote_item item
      supersede_old supersedes promoted_id
      pure (record {
        candidate_after = none;
        memory_after = m;
        promoted_memory_id = some promoted_id;
      })
    carry_out discard supersedes item = discard_item item
    carry_out retain_branch supersedes item = pure (keep_item item)

    abbrev pub hash_if_given : Option String → Exec W (Option String)
    hash_if_given none = pure none
    hash_if_given (some id) = do hash ← store.hash_operation_identifier id; pure (some hash)

    -- The completed operation, with what it hides.
    abbrev pub triage_operation :
        TriageItem → TriageAction → Option String → Option String → Exec W TriageOperation
    triage_operation item action promoted_id supersedes = do
      memory_hash ← store.hash_operation_identifier item.memory.id
      branch_hash ← store.hash_operation_identifier item.branch
      reason_hash ← store.hash_operation_identifier reason
      promoted_hash ← hash_if_given promoted_id
      supersedes_hash ← hash_if_given supersedes
      pure (record {
        memory_id_hash = memory_hash;
        branch_hash = branch_hash;
        reason_hash = reason_hash;
        category = item.category;
        action = action;
        promoted_memory_id_hash = promoted_hash;
        supersedes_memory_id_hash = supersedes_hash;
        actor = actor;
        at = reviewed_at;
      })

    abbrev pub reviewed : TriageItem → TriageAction → TriageDb W → TriageDb W
    reviewed item action s = record s { reviews = upsert_review item action s.reviews }

    abbrev pub logged : TriageOperation → TriageDb W → TriageDb W
    logged o s = record s { operations = s.operations ++ (o ∷ []) }

    abbrev pub log_item : ResolveInput → TriageItem → Resolution → Exec (TriageDb W) (Unit {0})
    log_item input item resolution = do
      o ← in_store (
          triage_operation item input.action resolution.promoted_memory_id
            input.supersedes_memory_id)
      modify (logged o)

    abbrev pub resolved : String → ResolveInput → TriageItem → Resolution → ResolveResult
    resolved review_id input item resolution = record {
      item = item;
      action = input.action;
      reviewed_at = reviewed_at;
      review_id = review_id;
      supersedes_memory_id = input.supersedes_memory_id;
      resolution = resolution;
    }

    abbrev pub record_item :
        String → ResolveInput → TriageItem → Resolution → Exec (TriageDb W) ResolveResult
    record_item review_id input item resolution = do
      modify (reviewed item input.action)
      log_item input item resolution
      pure (resolved review_id input item resolution)

    abbrev pub resolve_item : String → ResolveInput → TriageItem → Exec (TriageDb W) ResolveResult
    resolve_item review_id input item = do
      resolution ← in_store (carry_out input.action input.supersedes_memory_id item)
      record_item review_id input item resolution

    unfoldable pub resolve_in_transaction : String → ResolveInput → Exec (TriageDb W) ResolveResult
    unfolding in_store carry_out read_triage_item
    resolve_in_transaction review_id input = do
      item ← in_store (read_triage_item input.memory_id input.category)
      resolve_item review_id input item

  abbrev pub resolve_at :
      String → String → String → ResolveInput → Option String → Exec (TriageDb W) ResolveResult
  resolve_at actor review_id reason input none s = throw invalid_timestamp s
  resolve_at actor review_id reason input (some reviewed_at) s =
      rolled_back s (resolve_in_transaction actor reviewed_at reason review_id input s)

  -- `resolveBranchMemoryTriage`; the actor and the random identifier of the review are given.
  unfoldable pub resolve_branch_memory_triage :
      String → String → ResolveInput → Exec (TriageDb W) ResolveResult
  resolve_branch_memory_triage actor review_id input = do
    throw_if (store.trim input.reason == "") reason_required
    throw_if (not (is_promotion input.action) && is_some input.supersedes_memory_id)
        supersedes_not_allowed
    resolve_at actor review_id (store.trim input.reason) input (store.parse_now input.now)
