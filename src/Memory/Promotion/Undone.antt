-- ===== src/Memory/Promotion/Undone.antt =====
-- What undoing a promotion has achieved.
use code_butler.Prelude.{
  String, true, false, not, ◌&&◌, ◌||◌, Option, none, some, List, [], ◌∷◌, ◌==◌, ◌≡◌, refl, arith,
  Bool-cases, inl, inr, if◌then◌else◌,
}
use code_butler.Exec.{ok, pure, ◌>>◌, modify}
use code_butler.Exec.Post.{Ends, Ends-bind, Ends-pure, Ends-transaction, Ends-if}
use code_butler.Storage.{Env, DurableMemory, current, retracted}
use code_butler.Storage.Events.{status_eq, read_memory}
use code_butler.Memory.Lifecycle.{update_memory_status, lifecycle_status}
use code_butler.Memory.Lifecycle.Outcome.{update_memory_status-Held}
use code_butler.Memory.Promotion.Undo.{
  CandidateRow, UndoDb, in_db, Outcome, undone, already_undone, changed_since, reopen_candidate,
  retraction, find_candidate, names_copy, withdraw_copy, undo_found, undo_read, undo_promotion,
}

abbrev reopened : String → CandidateRow → CandidateRow
reopened now c = record c { promoted = false; updated_at = now }

find_candidate-reopen_candidate :
    (id now : String) (cs : List CandidateRow) (c : CandidateRow)
    → find_candidate cs id ≡ some c
    → find_candidate (reopen_candidate id now cs) id ≡ some (reopened now c)
unfolding reopen_candidate
find_candidate-reopen_candidate id now [] c h = cc
find_candidate-reopen_candidate id now (x ∷ xs) c h = elim (Bool-cases (x.id == id)) [
  | inl e ↦ let h' = rw e at h in let same : x ≡ c = cc in rw (e, same) (rw (← same) (rw e refl))
  | inr e ↦ let h' = rw e at h in rw (e) (rw e (find_candidate-reopen_candidate id now xs c h'))
]

named : (id now actor : String) → lifecycle_status (retraction id now actor).status ≡ some retracted
unfolding lifecycle_status
named id now actor = refl

module _ (env : Env) (memory_id durable_id : String) where
  -- The candidate is there, and it stands for the durable memory.
  abbrev Named : UndoDb → Type 0
  Named s =
      (c : CandidateRow) × (find_candidate s.candidates memory_id ≡ some c)
      × (names_copy c durable_id ≡ true)

  abbrev CopyRetracted : UndoDb → Type 0
  CopyRetracted s =
      (d : DurableMemory) × (read_memory env s.db durable_id ≡ some d)
      × (d.lifecycle_status ≡ retracted)

  -- The durable memory is retracted, and its candidate is a candidate again.
  abbrev pub Withdrawn : UndoDb → Type 0
  Withdrawn s =
      ((c : CandidateRow) × (find_candidate s.candidates memory_id ≡ some c)
        × (names_copy c durable_id ≡ true)
        × (c.promoted ≡ false))
      × CopyRetracted s

  module _ (now actor : String) where
    retract-CopyRetracted :
        Ends Named
          (λ m s. Named s × CopyRetracted s)
          (in_db (update_memory_status env (retraction durable_id now actor)))
    unfolding in_db
    retract-CopyRetracted = record {
      at = λ s p m h.
          let (status, held) =
            update_memory_status-Held env (retraction durable_id now actor) retracted s.db m
              (named durable_id now actor) h in
          (p, (m, held, status));
    }

    reopen-Withdrawn :
        Ends
          (λ s. Named s × CopyRetracted s)
          (λ _ s. Withdrawn s)
          (modify (λ s. record s { candidates = reopen_candidate memory_id now s.candidates }))
    reopen-Withdrawn = record {
      at = λ s p u h.
          let ((c, found, names), copy) = p in
          (
            (
              reopened now c,
              find_candidate-reopen_candidate memory_id now s.candidates c found,
              names,
              refl,
            ),
            copy,
          );
    }

    withdraw_copy-Withdrawn :
        Ends Named (λ _ s. Withdrawn s) (withdraw_copy env now actor memory_id durable_id)
    unfolding withdraw_copy
    withdraw_copy-Withdrawn =
        Ends-bind (λ m s. Named s × CopyRetracted s)
          (in_db (update_memory_status env (retraction durable_id now actor)))
          (λ m.
            modify (λ s. record s { candidates = reopen_candidate memory_id now s.candidates })
            >> pure undone)
          retract-CopyRetracted
          (λ m.
            Ends-bind (λ _ s. Withdrawn s)
              (modify (λ s. record s { candidates = reopen_candidate memory_id now s.candidates }))
              (λ u. pure undone) reopen-Withdrawn (λ u. Ends-pure undone (λ s h. h)))

    -- With the outcome that it promises.
    abbrev Promised : Outcome → UndoDb → Type 0
    Promised o s = o ≡ undone → Withdrawn s

    other : {P : UndoDb → Type 0} (o : Outcome) → (o ≡ undone → ⊥) → Ends P Promised (pure o)
    other o differs = Ends-pure o (λ s p e. elim (differs e) [ ])

    undo_found-Promised :
        (c : CandidateRow) (d : DurableMemory)
        → Ends
            (λ s. find_candidate s.candidates memory_id ≡ some c)
            Promised
            (undo_found env now actor c d memory_id durable_id)
    undo_found-Promised c d =
        Ends-if (not (names_copy c durable_id)) (pure changed_since)
          (if not c.promoted && status_eq d.lifecycle_status retracted
            then pure already_undone
            else if not c.promoted || not (status_eq d.lifecycle_status current)
            then pure changed_since
            else withdraw_copy env now actor memory_id durable_id)
          (λ e. other changed_since (λ h. cc))
          (λ names.
            Ends-if (not c.promoted && status_eq d.lifecycle_status retracted) (pure already_undone)
              (if not c.promoted || not (status_eq d.lifecycle_status current)
                then pure changed_since
                else withdraw_copy env now actor memory_id durable_id)
              (λ e. other already_undone (λ h. cc))
              (λ e.
                Ends-if (not c.promoted || not (status_eq d.lifecycle_status current))
                  (pure changed_since) (withdraw_copy env now actor memory_id durable_id)
                  (λ e. other changed_since (λ h. cc))
                  (λ e. record {
                    at = λ s p o h e'. withdraw_copy-Withdrawn.at s (c, p, ground arith) o h;
                  })))

    undo_read-Promised :
        (c : Option CandidateRow) (d : Option DurableMemory)
        → Ends
            (λ s. find_candidate s.candidates memory_id ≡ c)
            Promised
            (undo_read env now actor c d memory_id durable_id)
    undo_read-Promised (some c) (some d) = undo_found-Promised c d
    undo_read-Promised (some c) none = other changed_since (λ h. cc)
    undo_read-Promised none (some d) = other changed_since (λ h. cc)
    undo_read-Promised none none = other changed_since (λ h. cc)

    pub undo_promotion-Withdrawn :
        (s : UndoDb)
        → (undo_promotion env now actor memory_id durable_id s).0 ≡ ok undone
        → Withdrawn (undo_promotion env now actor memory_id durable_id s).1
    unfolding undo_promotion
    undo_promotion-Withdrawn s h =
        (Ends-transaction
            (λ t.
              undo_read env now actor (find_candidate s.candidates memory_id)
                (read_memory env s.db durable_id) memory_id durable_id t)
            (undo_read-Promised (find_candidate s.candidates memory_id)
              (read_memory env s.db durable_id))).at
          s refl undone h refl

    Withdrawn-already_undone :
        (s : UndoDb)
        → Withdrawn s
        → undo_promotion env now actor memory_id durable_id s ≡ (ok already_undone, s)
    unfolding undo_promotion
    Withdrawn-already_undone s ((c, found, names, reopened), (d, read, status)) =
        rw (found, read, names, reopened, status) refl

  -- Where undoing a promotion has the outcome `undone`, the durable memory is retracted, its
  -- candidate is a candidate again, and undoing the promotion once more, at any time and by anyone,
  -- has the outcome `already_undone` and leaves the database as it is.
  pub undo_promotion-already_undone :
      (now now' actor actor' : String) (s : UndoDb)
      → (undo_promotion env now actor memory_id durable_id s).0 ≡ ok undone
      → Withdrawn (undo_promotion env now actor memory_id durable_id s).1
        × (undo_promotion env now' actor' memory_id durable_id
              (undo_promotion env now actor memory_id durable_id s).1
            ≡ (ok already_undone, (undo_promotion env now actor memory_id durable_id s).1))
  undo_promotion-already_undone now now' actor actor' s h =
      let w = undo_promotion-Withdrawn now actor s h in
      (
        w,
        Withdrawn-already_undone now' actor' (undo_promotion env now actor memory_id durable_id s).1
            w,
      )
