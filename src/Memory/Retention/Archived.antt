-- ===== src/Memory/Retention/Archived.antt =====
-- What an applied retention decision has achieved.
use code_butler.Prelude.{
  String, true, false, some, List, ◌≡◌, refl, ap, ◌∙◌, ◌⊎◌, arith, Bool-cases, inl, inr,
  find?-upsert, eq_refl, is_some,
}
use code_butler.Exec.{ok, pure, ◌>>◌, modify}
use code_butler.Exec.Rules.{Leaves, bind_state}
use code_butler.Exec.Post.{Ends, Ends-bind, Ends-pure, Ends-transaction, Ends-Leaves}
use code_butler.Storage.{Env, Db, DurableMemory, retracted}
use code_butler.Storage.Events.{read_memory}
use code_butler.Storage.OperationLog.{hash_operation_identifier}
use code_butler.Storage.Frame.{state-hash_operation_identifier}
use code_butler.Memory.Lifecycle.{lifecycle_status, update_memory_status}
use code_butler.Memory.Lifecycle.Outcome.{update_memory_status-Held}
use code_butler.Memory.Retention.{Category, candidate, promoted, category_eq}
use code_butler.Memory.Retention.Apply.{
  RetentionDecision, RetentionDecisionRow, RetentionDb, RetentionResult, in_tables, has_key,
  find_decision, decision_row, refreshed, upsert_decision, left_alone, retraction, archive_memory,
  logged, log_retention, archive_and_record, is_skip, apply_in_transaction, apply_layer_retention,
}

category_eq_refl : (c : Category) → category_eq c c ≡ true
category_eq_refl candidate = refl
category_eq_refl promoted = refl

named :
    (env : Env) (fresh decided_at actor : String) (d : RetentionDecision)
    → lifecycle_status (retraction env fresh decided_at actor d).status ≡ some retracted
unfolding lifecycle_status
named env fresh decided_at actor d = refl

abbrev Recorded : RetentionDecision → RetentionDb → Type 0
Recorded d s = is_some (find_decision s.decisions d) ≡ true

-- The store holds the memory, and it is retracted.
abbrev pub Retracted : Env → RetentionDecision → RetentionDb → Type 0
Retracted env d s =
    (m : DurableMemory) × (read_memory env s.db d.memory_id ≡ some m)
    × (m.lifecycle_status ≡ retracted)

-- A memory that is archived is retracted; a candidate is quarantined after the commit.
abbrev pub ArchivedAs : Env → RetentionDecision → Category → RetentionDb → Type 0
ArchivedAs env d promoted s = Retracted env d s
ArchivedAs env d candidate s = Unit

module _ (env : Env) (fresh decided_at actor : String) where
  upsert_decision-Recorded :
      (d : RetentionDecision) (s : RetentionDb)
      → Recorded d (upsert_decision d (decision_row fresh decided_at actor d) s)
  upsert_decision-Recorded d s =
      let a = eq_refl d.memory_id in
      let b = eq_refl d.memory_version in
      let c = category_eq_refl d.category in
      let row = decision_row fresh decided_at actor d in
      rw (find?-upsert (has_key d) (refreshed row) row s.decisions (ground arith) (λ x h. h)) refl

  archive_memory-ArchivedAs :
      (d : RetentionDecision) (c : Category)
      → d.category ≡ c
      → Ends
          (λ s. Unit {0})
          (λ u s. ArchivedAs env d c s)
          (archive_memory env fresh decided_at actor d)
  unfolding archive_memory in_tables
  archive_memory-ArchivedAs d candidate e = record { at = λ s p u h. tt }
  archive_memory-ArchivedAs d promoted e = rw e (
      Ends-bind (λ m s. Retracted env d s)
        (in_tables (update_memory_status env (retraction env fresh decided_at actor d)))
        (λ m. pure tt)
        (record {
          at = λ s p m h.
              let (status, held) =
                update_memory_status-Held env (retraction env fresh decided_at actor d) retracted
                  s.db m (named env fresh decided_at actor d) h in
              (m, held, status);
        })
        (λ m. Ends-pure tt (λ s h. h)))

  abbrev Kept : Type 0
  Kept = Db × List RetentionDecisionRow

  abbrev kept : RetentionDb → Kept
  kept s = (s.db, s.decisions)

  -- The log touches neither the memories nor the decisions.
  log_retention-Leaves :
      (d : RetentionDecision) → Leaves kept (log_retention env fresh decided_at actor d)
  unfolding in_tables
  log_retention-Leaves d = record {
    at = λ s.
        bind_state (λ t. kept t ≡ kept s) (in_tables (hash_operation_identifier env d.memory_id))
          (λ hash. modify (logged env fresh decided_at actor d hash)) s
          (rw (state-hash_operation_identifier env d.memory_id s.db) refl)
          (λ hash h. rw (state-hash_operation_identifier env d.memory_id s.db) refl);
  }

  -- What holds when the decision has been carried out and recorded.
  abbrev Carried : RetentionDecision → Kept → Type 0
  Carried d k =
      ((d.category ≡ promoted)
        → (m : DurableMemory) × (read_memory env k.0 d.memory_id ≡ some m)
          × (m.lifecycle_status ≡ retracted))
      × (is_some (find_decision k.1 d) ≡ true)

  archive_and_record-Carried :
      (d : RetentionDecision)
      → Ends
          (λ s. Unit {0})
          (λ r s. Carried d (kept s))
          (archive_and_record env fresh decided_at actor d)
  archive_and_record-Carried d =
      Ends-bind (λ u s. (d.category ≡ promoted) → Retracted env d s)
        (archive_memory env fresh decided_at actor d)
        (λ u.
          modify (upsert_decision d (decision_row fresh decided_at actor d))
          >> (log_retention env fresh decided_at actor d
              >> pure (record (left_alone d) { applied = true })))
        (record { at = λ s p u h e. (archive_memory-ArchivedAs d promoted e).at s tt u h })
        (λ u.
          Ends-bind (λ v s. Carried d (kept s))
            (modify (upsert_decision d (decision_row fresh decided_at actor d)))
            (λ v.
              log_retention env fresh decided_at actor d
              >> pure (record (left_alone d) { applied = true }))
            (record { at = λ s p v h. (p, upsert_decision-Recorded d s) })
            (λ v.
              Ends-bind (λ w s. Carried d (kept s)) (log_retention env fresh decided_at actor d)
                (λ w. pure (record (left_alone d) { applied = true }))
                (Ends-Leaves (Carried d) (log_retention env fresh decided_at actor d)
                  (log_retention-Leaves d))
                (λ w. Ends-pure (record (left_alone d) { applied = true }) (λ s h. h))))

  abbrev AppliedRetracts : RetentionDecision → RetentionResult → RetentionDb → Type 0
  AppliedRetracts d r s = r.applied ≡ true → d.category ≡ promoted → Retracted env d s

  abbrev Finished : RetentionDecision → RetentionDb → Type 0
  Finished d s = (is_skip d.decision ≡ true) ⊎ Recorded d s

  untouched :
      (d : RetentionDecision) (s : RetentionDb) (r : RetentionResult)
      → ok (left_alone d) ≡ ok r
      → AppliedRetracts d r s
  untouched d s r h applied =
      let e : left_alone d ≡ r = cc in
      let bad : false ≡ true = ap (λ x. x.applied) e ∙ applied in cc

  apply_in_transaction-Finished :
      (d : RetentionDecision)
      → Ends
          (λ s. Unit {0})
          (λ r s. Finished d s × AppliedRetracts d r s)
          (apply_in_transaction env fresh decided_at actor d)
  apply_in_transaction-Finished d = record {
    at = λ s p r h. elim (Bool-cases (is_skip d.decision)) [
      | inl e ↦ let h' = rw e at h in rw e (inl refl, untouched d s r h')
      | inr e ↦ elim (Bool-cases (is_some (find_decision s.decisions d))) [
        | inl f ↦ let h' = rw (e, f) at h in rw (e, f) (inr f, untouched d s r h')
        | inr f ↦
            let h' = rw (e, f) at h in
            let (retracts, recorded) = (archive_and_record-Carried d).at s tt r h' in
            rw (e, f) (inr recorded, λ applied. retracts)
      ]
    ];
  }

  apply_layer_retention-Finished :
      (d : RetentionDecision) (s : RetentionDb) (r : RetentionResult)
      → (apply_layer_retention env fresh decided_at actor d s).0 ≡ ok r
      → Finished d (apply_layer_retention env fresh decided_at actor d s).1
        × AppliedRetracts d r (apply_layer_retention env fresh decided_at actor d s).1
  unfolding apply_layer_retention
  apply_layer_retention-Finished d s r h =
      (Ends-transaction (apply_in_transaction env fresh decided_at actor d)
          (apply_in_transaction-Finished d)).at
        s tt r h

  Finished-left_alone :
      (d : RetentionDecision) (s : RetentionDb)
      → Finished d s
      → apply_layer_retention env fresh decided_at actor d s ≡ (ok (left_alone d), s)
  unfolding apply_layer_retention
  Finished-left_alone d s (inl e) = rw e refl
  Finished-left_alone d s (inr f) = elim (Bool-cases (is_skip d.decision)) [
    | inl e ↦ rw e refl
    | inr e ↦ rw (e, f) refl
  ]

  -- Where a decision on a durable memory is applied, the store then holds the memory, and it is
  -- retracted.
  pub apply_layer_retention-Retracted :
      (d : RetentionDecision) (s : RetentionDb) (r : RetentionResult)
      → (apply_layer_retention env fresh decided_at actor d s).0 ≡ ok r
      → r.applied ≡ true
      → d.category ≡ promoted
      → Retracted env d (apply_layer_retention env fresh decided_at actor d s).1
  apply_layer_retention-Retracted d s r h applied category =
      let (finished, retracts) = apply_layer_retention-Finished d s r h in retracts applied category

-- After a retention decision was applied without an error, applying it again, at any time and by
-- anyone, returns that nothing was applied and leaves the database as it is.
pub apply_layer_retention-left_alone :
    (env : Env) (fresh fresh' decided_at decided_at' actor actor' : String) (d : RetentionDecision)
    (s : RetentionDb) (r : RetentionResult)
    → (apply_layer_retention env fresh decided_at actor d s).0 ≡ ok r
    → apply_layer_retention env fresh' decided_at' actor' d
        (apply_layer_retention env fresh decided_at actor d s).1
      ≡ (ok (left_alone d), (apply_layer_retention env fresh decided_at actor d s).1)
apply_layer_retention-left_alone env fresh fresh' decided_at decided_at' actor actor' d s r h =
    let (finished, retracts) = apply_layer_retention-Finished env fresh decided_at actor d s r h in
    Finished-left_alone env fresh' decided_at' actor' d
      (apply_layer_retention env fresh decided_at actor d s).1 finished
