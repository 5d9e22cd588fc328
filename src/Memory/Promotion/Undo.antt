-- ===== src/Memory/Promotion/Undo.antt =====
-- `undoAutomaticPromotions`: the durable copies of core candidates are withdrawn again.
use code_butler.Prelude.{
  ℕ, ◌-◌, String, Bool, true, false, not, ◌&&◌, ◌||◌, Option, none, some, List, [], ◌∷◌, ◌++◌,
  contains, leb, length, filter, find?, ◌==◌, if◌then◌else◌, is_some, any,
}
use code_butler.Exec.{Failure, Exec, pure, throw_if, ◌>>=◌, ◌>>◌, modify, rolled_back}
use code_butler.Storage.{Env, Db, DurableMemory, current, retracted}
use code_butler.Storage.Events.{status_eq, read_memory}
use code_butler.Memory.Lifecycle.{StatusInput, update_memory_status}
use code_butler.Memory.Retention.{candidate, category_eq}
use code_butler.Memory.Promotion.{promote, verdict_eq, PromotionDecisionRow}

-- A row of `memory_candidates`, in the columns that undoing reads and writes.
pub record CandidateRow : Type 0 where
  pub id : String
  pub promoted : Bool
  pub promoted_memory_id : Option String
  pub updated_at : String

pub record UndoDb : Type 0 where
  pub db : Db
  pub candidates : List CandidateRow

-- Work on the rest of the database.
unfoldable pub in_db : {A : Type 0} → Exec Db A → Exec UndoDb A
in_db m s = let (r, db) = m s.db in (r, record { db = db; candidates = s.candidates })

pub data Outcome : Type 0 where
  undone already_undone changed_since : Outcome

abbrev pub is_undone : Outcome → Bool
is_undone undone = true
is_undone _ = false

-- `UndoAutomaticPromotionItem`
pub record UndoItem : Type 0 where
  pub memory_id : String
  pub durable_memory_id : String
  pub outcome : Outcome

-- `update memory_candidates set promotion_state = 'candidate', updated_at = ? where id = ?`
unfoldable pub reopen_candidate : String → String → List CandidateRow → List CandidateRow
reopen_candidate id now [] = []
reopen_candidate id now (c ∷ cs) =
    (if c.id == id then record c { promoted = false; updated_at = now } else c)
    ∷ reopen_candidate id now cs

abbrev pub retraction : String → String → String → StatusInput
retraction id now actor = record {
  memory_id = id;
  status = "retracted";
  reason = "Automatic promotion undone.";
  replacement_memory_id = none;
  now = now;
  actor = some actor;
}

abbrev pub find_candidate : List CandidateRow → String → Option CandidateRow
find_candidate rows id = find? (λ c. c.id == id) rows

abbrev pub names_copy : CandidateRow → String → Bool
names_copy c id = elim c.promoted_memory_id [ none ↦ false | some i ↦ i == id ]

module _ (env : Env) (now actor : String) where
  -- The two writes.
  unfoldable pub withdraw_copy : String → String → Exec UndoDb Outcome
  unfolding in_db reopen_candidate
  withdraw_copy memory_id durable_id = do
    in_db (update_memory_status env (retraction durable_id now actor))
    modify (λ s. record s { candidates = reopen_candidate memory_id now s.candidates })
    pure undone

  abbrev pub undo_found : CandidateRow → DurableMemory → String → String → Exec UndoDb Outcome
  undo_found c d memory_id durable_id =
      if not (names_copy c durable_id)
      then pure changed_since
      else if not c.promoted && status_eq d.lifecycle_status retracted
      then pure already_undone
      else if not c.promoted || not (status_eq d.lifecycle_status current)
      then pure changed_since
      else withdraw_copy memory_id durable_id

  abbrev pub undo_read :
      Option CandidateRow → Option DurableMemory → String → String → Exec UndoDb Outcome
  undo_read (some c) (some d) memory_id durable_id = undo_found c d memory_id durable_id
  undo_read _ _ memory_id durable_id = pure changed_since

  abbrev undo_in_transaction : String → String → Exec UndoDb Outcome
  undo_in_transaction memory_id durable_id s =
      undo_read (find_candidate s.candidates memory_id) (read_memory env s.db durable_id) memory_id
        durable_id s

  -- One round of the loop.
  unfoldable pub undo_promotion : String → String → Exec UndoDb Outcome
  unfolding withdraw_copy
  undo_promotion memory_id durable_id s = rolled_back s (undo_in_transaction memory_id durable_id s)

  pub undo_all : List (String × String) → Exec UndoDb (List UndoItem)
  unfolding undo_promotion
  undo_all [] = pure []
  undo_all ((memory_id, durable_id) ∷ rest) = do
    outcome ← undo_promotion memory_id durable_id
    items ← undo_all rest
    pure (
        record { memory_id = memory_id; durable_memory_id = durable_id; outcome = outcome } ∷ items)

-- The promotions to undo: since a time, or of one candidate.
pub record UndoInput : Type 0 where
  pub since : Option String
  pub memory_id : Option String

module _ (not_before : String → String → Bool) where
  abbrev pub wanted : UndoInput → PromotionDecisionRow → Bool
  wanted input r =
      verdict_eq r.decision promote
      && category_eq r.category candidate
      && leb 2 r.policy_version
      && elim input.since [
        | some since ↦ not_before r.decided_at since
        | none ↦ elim input.memory_id [ none ↦ false | some id ↦ r.memory_id == id ]
      ]

-- The latest promotion of each core candidate, from rows with the latest first.
pub latest_promotions : List (String × String) → List PromotionDecisionRow → List (String × String)
latest_promotions seen [] = seen
latest_promotions seen (r ∷ rows) = elim r.core_memory_id [
  | none ↦ latest_promotions seen rows
  | some core_id ↦
      if any (λ p. p.0 == r.memory_id) seen || not (contains "core_candidate" r.reason_codes)
      then latest_promotions seen rows
      else latest_promotions (seen ++ (r.memory_id, core_id) ∷ []) rows
]

pub record UndoResult : Type 0 where
  pub undone : ℕ
  pub skipped : ℕ
  pub items : List UndoItem

abbrev undo_result : List UndoItem → UndoResult
undo_result items =
    let n = length (filter (λ i. is_undone i.outcome) items) in
    record { undone = n; skipped = length items - n; items = items }

-- `undoAutomaticPromotions`, on the rows of the decisions with the latest first; the times are valid.
pub undo_automatic_promotions :
    Env
    → (String → String → Bool)
    → List PromotionDecisionRow
    → UndoInput
    → String
    → String
    → Exec UndoDb UndoResult
unfolding undo_all latest_promotions
undo_automatic_promotions env not_before rows input now actor = do
  throw_if
      (is_some input.since && is_some input.memory_id
        || not (is_some input.since || is_some input.memory_id))
      Failure.undo_needs_one
  items ← undo_all env now actor (latest_promotions [] (filter (wanted not_before input) rows))
  pure (undo_result items)
