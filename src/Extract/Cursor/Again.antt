-- ===== src/Extract/Cursor/Again.antt =====
-- extract/cursor.ts: when a conversation is extracted again.
use code_butler.Prelude.{
  ℕ, ◌+◌, ◌*◌, ◌≤◌, String, true, none, some, List, ◌++◌, length, filter, ◌==◌, ◌≡◌, ◌≢◌, ◌⊎◌, ◌↔◌,
  ◌∙◌, ap, refl, inl, inr, arith, eq_refl, Option-cases,
}
use code_butler.Prelude.Assoc.{get, get-put}
use code_butler.Extract.Cursor.{
  Chunk, Store, Runtime, chunk_count, read_extraction_cursor, last_hash, advance_extraction_cursor,
}
use code_butler.Extract.Cursor.Laws.{length-filter-append, read-advance, read-grown}
use code_butler.Extract.Cursor.Ready.{
  ExtractionJob, ExtractionPolicy, ready_for_extraction, time_of,
}

module _ (runtime : Runtime) where
  -- The first `n` messages of a conversation were extracted at `done`, and then messages came.
  abbrev pub after_extraction : String → ℕ → String → List Chunk → Store → Store
  after_extraction id n done new store =
      let advanced = advance_extraction_cursor runtime id n done store in
      record advanced { chunks = advanced.chunks ++ new }

  advance-get :
      (store : Store) (id done h : String) (n : ℕ)
      → last_hash runtime store id n ≡ some h
      → get (advance_extraction_cursor runtime id n done store).cursors id
        ≡ some (record { extracted_chunks = n; last_chunk_hash = h; updated_at = done })
  unfolding advance_extraction_cursor
  advance-get store id done h n e =
      rw (e, advance_extraction_cursor)
        (get-put store.cursors id id
            (record { extracted_chunks = n; last_chunk_hash = h; updated_at = done })
          ∙ rw (eq_refl id) refl)

  advance-chunks :
      (store : Store) (id done : String) (n : ℕ)
      → (advance_extraction_cursor runtime id n done store).chunks ≡ store.chunks
  unfolding advance_extraction_cursor
  advance-chunks store id done n = elim (Option-cases (last_hash runtime store id n)) [
    | inl e ↦ rw (e, advance_extraction_cursor) refl
    | inr (h, e) ↦ rw (e, advance_extraction_cursor) refl
  ]

  read-after_extraction :
      (store : Store) (id done : String) (n : ℕ) (new : List Chunk)
      → n ≤ chunk_count runtime store id
      → last_hash runtime store id n ≢ none
      → read_extraction_cursor runtime (after_extraction id n done new store) id
        ≡ record { extracted_chunks = n; updated_at = some done }
  read-after_extraction store id done n new le there =
      let back = read-advance runtime store id n done le there in
      elim (Option-cases (last_hash runtime store id n)) [
        | inl e ↦ absurd (there e)
        | inr (h, e) ↦
            read-grown runtime (advance_extraction_cursor runtime id n done store) id
              (record { extracted_chunks = n; last_chunk_hash = h; updated_at = done }) new
              (advance-get store id done h n e) (ap (λ c. c.extracted_chunks) back)
            ∙ back
      ]

  count-after_extraction :
      (store : Store) (id done : String) (n : ℕ) (new : List Chunk)
      → chunk_count runtime (after_extraction id n done new store) id
        ≡ chunk_count runtime store id + length (filter (λ c. c.source_id == id) new)
  count-after_extraction store id done n new =
      rw (advance-chunks store id done n)
        (length-filter-append (λ (c : Chunk). c.source_id == id) store.chunks new)

  -- After the first messages of a conversation were extracted and further messages came, a job for
  -- it that has to honour the quiet window is ready exactly if the quiet time since it was queued is
  -- over, the longest wait since that extraction is over, or the messages that were not extracted
  -- reach the limit, where the two times are dates.
  pub ready_again :
      (store : Store) (job : ExtractionJob) (policy : ExtractionPolicy) (n : ℕ) (done : String)
      (new : List Chunk) (now queued finished : ℕ)
      → job.is_conversation ≡ true
      → n ≤ chunk_count runtime store job.source_id
      → last_hash runtime store job.source_id n ≢ none
      → time_of runtime job.enqueued_at ≡ some queued
      → runtime.parse_date done ≡ some finished
      → (ready_for_extraction runtime
            (after_extraction job.source_id n done new store)
            job
            policy
            true
            now
          ≡ true)
        ↔ ((queued + policy.conversation_quiet_minutes * 60000 ≤ now)
            ⊎ (finished + policy.conversation_max_wait_minutes * 60000 ≤ now)
            ⊎ (n + policy.max_delta_chunks
                ≤ chunk_count runtime store job.source_id
                  + length (filter (λ c. c.source_id == job.source_id) new)))
  unfolding ready_for_extraction
  ready_again store job policy n done new now queued finished talk le there q f =
      rw
        (
          ready_for_extraction,
          talk,
          q,
          read-after_extraction store job.source_id done n new le there,
          count-after_extraction store job.source_id done n new,
          f,
        )
        (ground arith)
