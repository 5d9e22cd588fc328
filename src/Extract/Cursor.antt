-- ===== src/Extract/Cursor.antt =====
-- extract/cursor.ts: how far this device has extracted each conversation.
pub mod Laws
pub mod Ready
pub mod Again
mod Tests
use code_butler.Prelude.{
  ℕ, zero, suc, ◌+◌, ◌-◌, ◌*◌, String, Bool, true, false, not, ◌&&◌, ◌||◌, Option, none, some, List,
  [], ◌∷◌, length, filter, find?, contains, any, leb, ltb, nat_eq, min, ◌==◌, if◌then◌else◌,
  is_some,
}
use code_butler.Prelude.Assoc.{Assoc, get, put, remove}

-- A row of `chunks`; the index is the position of the message.
pub record Chunk : Type 0 where
  pub source_id : String
  pub chunk_index : ℕ
  pub text : String
  pub metadata_json : String

-- `CursorRow`
pub record CursorRow : Type 0 where
  pub extracted_chunks : ℕ
  pub last_chunk_hash : String
  pub updated_at : String

-- A row of `extraction_runs`; `failed` stands for an error that is not null.
pub record Run : Type 0 where
  pub started_at : String
  pub failed : Bool
  pub source_ids_json : String

-- The two databases, in the tables that the cursor reads and writes. Jobs and links are those of
-- conversations, by the id of the source.
pub record Store : Type 0 where
  pub chunks : List Chunk
  pub cursors : Assoc CursorRow
  pub runs : List Run
  pub job_sources : List String
  pub linked_sources : List String

-- `ExtractionCursor`
pub record ExtractionCursor : Type 0 where
  pub extracted_chunks : ℕ
  pub updated_at : Option String

-- The runtime: hashes, dates in milliseconds, JSON, the `like` of SQL and the orders of listings.
pub record Runtime : Type 0 where
  pub sha256 : String → String
  pub parse_date : String → Option ℕ
  pub timestamp : String → Option String
  pub mentions : String → String → Bool
  pub order_chunks : List Chunk → List Chunk
  pub latest_first : List Run → List Run

module _ (runtime : Runtime) where
  pub chunk_text_hash : String → String
  chunk_text_hash text = runtime.sha256 text

  abbrev pub chunks_of : Store → String → List Chunk
  chunks_of store id = filter (λ c. c.source_id == id) store.chunks

  abbrev pub chunk_count : Store → String → ℕ
  chunk_count store id = length (chunks_of store id)

  pub chunk_hash_at : Store → String → ℕ → Option String
  unfolding chunk_text_hash
  chunk_hash_at store id index =
      elim (find? (λ c. c.source_id == id && nat_eq c.chunk_index index) store.chunks) [
        | none ↦ none
        | some c ↦ some (chunk_text_hash c.text)
      ]

  pub last_successful_run : Store → String → Option String
  last_successful_run store id =
      elim (find? (λ r. not r.failed && runtime.mentions r.source_ids_json id)
        (runtime.latest_first store.runs)) [ none ↦ none | some r ↦ some r.started_at ]

  -- The time of a message, where it has one.
  abbrev pub message_time : Chunk → Option ℕ
  message_time c = elim (runtime.timestamp c.metadata_json) [
    | none ↦ none
    | some t ↦ runtime.parse_date t
  ]

  abbrev pub before_run : ℕ → Option ℕ → Bool
  before_run ran_at none = false
  before_run ran_at (some at) = leb at ran_at

  -- The loop of `seedFromRunLog`.
  pub covered : ℕ → List Chunk → ℕ
  covered ran_at [] = 0
  covered ran_at (c ∷ cs) =
      let rest = covered ran_at cs in if before_run ran_at (message_time c) then suc rest else 0

  abbrev run_time : Option String → Option ℕ
  run_time none = none
  run_time (some t) = runtime.parse_date t

  pub seed_from_run_log : Store → String → ℕ
  unfolding last_successful_run covered
  seed_from_run_log store id = elim (run_time (last_successful_run store id)) [
    | none ↦ 0
    | some ran_at ↦ covered ran_at (runtime.order_chunks (chunks_of store id))
  ]

  pub was_extracted : Store → String → Bool
  unfolding last_successful_run
  was_extracted store id =
      is_some (last_successful_run store id) || contains id store.linked_sources

  abbrev pub text_is : Option String → String → Bool
  text_is none t = false
  text_is (some s) t = s == t

  -- The part of `readExtractionCursor` for a conversation that has a row.
  abbrev pub check_row : Store → String → CursorRow → ExtractionCursor
  check_row store id row =
      if leb row.extracted_chunks 0
      then record { extracted_chunks = 0; updated_at = some row.updated_at }
      else if ltb (chunk_count store id) row.extracted_chunks
          || not (text_is (chunk_hash_at store id (row.extracted_chunks - 1)) row.last_chunk_hash)
      then record { extracted_chunks = 0; updated_at = none }
      else record { extracted_chunks = row.extracted_chunks; updated_at = some row.updated_at }

  pub read_extraction_cursor : Store → String → ExtractionCursor
  unfolding seed_from_run_log chunk_hash_at
  read_extraction_cursor store id = elim (get store.cursors id) [
    | none ↦ record {
      extracted_chunks = min (seed_from_run_log store id) (chunk_count store id);
      updated_at = none;
    }
    | some row ↦ check_row store id row
  ]

  abbrev pub last_hash : Store → String → ℕ → Option String
  last_hash store id zero = some ""
  last_hash store id (suc n) = chunk_hash_at store id n

  pub advance_extraction_cursor : String → ℕ → String → Store → Store
  unfolding chunk_hash_at
  advance_extraction_cursor id n now store = elim (last_hash store id n) [
    | none ↦ store
    | some hash ↦ record store {
      cursors =
          put store.cursors id
            (record { extracted_chunks = n; last_chunk_hash = hash; updated_at = now });
    }
  ]

  pub seed_extraction_cursor_before_reimport : String → String → Store → Store
  unfolding was_extracted advance_extraction_cursor
  seed_extraction_cursor_before_reimport id now store =
      if is_some (get store.cursors id) || contains id store.job_sources
      then store
      else if nat_eq (chunk_count store id) 0 || not (was_extracted store id)
      then store
      else advance_extraction_cursor id (chunk_count store id) now store

  pub reset_extraction_cursors : List String → String → Store → Store
  unfolding advance_extraction_cursor
  reset_extraction_cursors [] now store = store
  reset_extraction_cursors (id ∷ ids) now store =
      reset_extraction_cursors ids now (advance_extraction_cursor id 0 now store)

  pub forget_extraction_cursors : List String → Store → Store
  forget_extraction_cursors [] store = store
  forget_extraction_cursors (id ∷ ids) store =
      forget_extraction_cursors ids (record store { cursors = remove store.cursors id })
