-- ===== src/Extract/Cursor/Tests.antt =====
-- Runs of the cursor on a conversation of two messages.
use code_butler.Prelude.{
  ℕ, ◌*◌, String, true, false, some, none, List, [], ◌∷◌, ◌++◌, ◌≡◌, ◌≢◌, ◌⊎◌, ◌↔◌, ◌+◌, ◌≤◌, refl,
  ap, arith, is_some, ◌==◌,
}
use code_butler.Prelude.Assoc.{get, put}
use code_butler.Extract.Cursor.{
  Chunk, CursorRow, Store, Runtime, chunk_text_hash, chunk_hash_at, last_successful_run, covered,
  seed_from_run_log, was_extracted, read_extraction_cursor, last_hash, advance_extraction_cursor,
  seed_extraction_cursor_before_reimport, reset_extraction_cursors,
}
use code_butler.Extract.Cursor.Laws.{read-advance, read-grown, reset_starts_over}
use code_butler.Extract.Cursor.Ready.{ExtractionJob, ExtractionPolicy, ready_for_extraction}
use code_butler.Extract.Cursor.Again.{after_extraction, ready_again}

-- Texts are their own hashes, and "1" and "2" are the dates.
abbrev runtime : Runtime
runtime = record {
  sha256 = λ t. t;
  parse_date = λ t. elim (t == "1") [
    | true ↦ some 1
    | false ↦ elim (t == "2") [ true ↦ some 2 | false ↦ none ]
  ];
  timestamp = λ t. some t;
  mentions = λ json id. json == id;
  order_chunks = λ cs. cs;
  latest_first = λ rs. rs;
}

abbrev chunk : ℕ → String → String → Chunk
chunk n text at = record { source_id = "talk"; chunk_index = n; text = text; metadata_json = at }

abbrev talk : List Chunk
talk = chunk 0 "hello" "1" ∷ chunk 1 "there" "2" ∷ []

abbrev store : Store
store = record {
  chunks = talk;
  cursors = [];
  runs = record { started_at = "1"; failed = false; source_ids_json = "talk" } ∷ [];
  job_sources = [];
  linked_sources = [];
}

abbrev row : CursorRow
row = record { extracted_chunks = 2; last_chunk_hash = "there"; updated_at = "2" }

abbrev recorded_store : Store
recorded_store = record store { cursors = ("talk", row) ∷ [] }

runs : Unit {0}
unfolding chunk_text_hash chunk_hash_at last_successful_run covered seed_from_run_log was_extracted
    read_extraction_cursor advance_extraction_cursor seed_extraction_cursor_before_reimport
    reset_extraction_cursors ready_for_extraction get put
runs = tt

seeded : (read_extraction_cursor runtime store "talk").extracted_chunks ≡ 1
unfolding runs
seeded = refl

last_there : last_hash runtime store "talk" 2 ≢ none
unfolding runs
last_there e = grind arith

read-advance_example :
    read_extraction_cursor runtime (advance_extraction_cursor runtime "talk" 2 "2" store) "talk"
    ≡ record { extracted_chunks = 2; updated_at = some "2" }
read-advance_example = read-advance runtime store "talk" 2 "2" (omega arith) last_there

found : get recorded_store.cursors "talk" ≡ some row
unfolding runs
found = refl

matched :
    (read_extraction_cursor runtime recorded_store "talk").extracted_chunks ≡ row.extracted_chunks
unfolding runs
matched = refl

read-grown_example :
    read_extraction_cursor runtime
      (record recorded_store { chunks = talk ++ chunk 2 "again" "2" ∷ [] })
      "talk"
    ≡ read_extraction_cursor runtime recorded_store "talk"
read-grown_example =
    read-grown runtime recorded_store "talk" row (chunk 2 "again" "2" ∷ []) found matched

seed_moves : seed_extraction_cursor_before_reimport runtime "talk" "2" store ≢ store
unfolding runs
seed_moves e =
    let moved : true ≡ false = ap (λ (s : Store). is_some (get s.cursors "talk")) e in ground arith

reset_starts_over_example :
    read_extraction_cursor runtime
      (seed_extraction_cursor_before_reimport runtime "talk" "2"
        (reset_extraction_cursors runtime ("talk" ∷ []) "1" store))
      "talk"
    ≡ record { extracted_chunks = 0; updated_at = some "1" }
reset_starts_over_example = reset_starts_over runtime ("talk" ∷ []) "talk" "1" "2" store refl

abbrev job : ExtractionJob
job = record { is_conversation = true; source_id = "talk"; enqueued_at = some "1" }

abbrev policy : ExtractionPolicy
policy = record {
  conversation_quiet_minutes = 5;
  conversation_max_wait_minutes = 60;
  max_delta_chunks = 40;
}

waits : ready_for_extraction runtime store job policy true 2 ≡ false
unfolding runs
waits = refl

ready_again_example :
    (ready_for_extraction runtime
        (after_extraction runtime "talk" 2 "2" (chunk 2 "again" "2" ∷ []) store)
        job
        policy
        true
        (6 * 60000)
      ≡ true)
    ↔ ((1 + 5 * 60000 ≤ 6 * 60000) ⊎ (2 + 60 * 60000 ≤ 6 * 60000) ⊎ (2 + 40 ≤ 2 + 1))
ready_again_example =
    ready_again runtime store job policy 2 "2" (chunk 2 "again" "2" ∷ []) (6 * 60000) 1 2 refl
      (omega arith) last_there refl refl
