-- ===== src/Extract/Cursor/Ready.antt =====
-- `readyForExtraction` of extract/cursor.ts: whether a conversation is extracted now.
use code_butler.Prelude.{
  ℕ, ◌+◌, ◌-◌, ◌*◌, ◌≤◌, String, Bool, true, false, not, ◌||◌, Option, none, some, ◌≡◌, leb, arith,
  if◌then◌else◌,
}
use code_butler.Extract.Cursor.{Store, Runtime, read_extraction_cursor, chunk_count}

-- `ExtractionJob`, in the fields that are read here.
pub record ExtractionJob : Type 0 where
  pub is_conversation : Bool
  pub source_id : String
  pub enqueued_at : Option String

-- `ExtractionConfig`, in the fields that are read here.
pub record ExtractionPolicy : Type 0 where
  pub conversation_quiet_minutes : ℕ
  pub conversation_max_wait_minutes : ℕ
  pub max_delta_chunks : ℕ

module _ (runtime : Runtime) where
  abbrev pub time_of : Option String → Option ℕ
  time_of none = runtime.parse_date ""
  time_of (some t) = runtime.parse_date t

  -- `minutesSince(value) >= minutes`, for a value that is no date as `absent`.
  abbrev pub waited : Bool → ℕ → ℕ → Option ℕ → Bool
  waited absent now minutes none = absent
  waited absent now minutes (some at) = leb (at + minutes * 60000) now

  -- The cursor never passes the end, so the messages that wait are a plain difference.
  unfoldable pub ready_for_extraction : Store → ExtractionJob → ExtractionPolicy → Bool → ℕ → Bool
  ready_for_extraction store job policy honor_quiet_window now =
      if not job.is_conversation || not honor_quiet_window
      then true
      else if waited true now policy.conversation_quiet_minutes (time_of job.enqueued_at)
      then true
      else let cursor = read_extraction_cursor runtime store job.source_id in
        if waited false now policy.conversation_max_wait_minutes (time_of cursor.updated_at)
        then true
        else leb policy.max_delta_chunks
            (chunk_count runtime store job.source_id - cursor.extracted_chunks)

  waited_later :
      (absent : Bool) (now after minutes : ℕ) (at : Option ℕ)
      → now ≤ after
      → waited absent now minutes at ≡ true
      → waited absent after minutes at ≡ true
  waited_later absent now after minutes none le h = h
  waited_later absent now after minutes (some at) le h = ground arith

  -- A conversation that is extracted now would be extracted at any later time, if nothing is
  -- stored in between.
  pub ready_later :
      (store : Store) (job : ExtractionJob) (policy : ExtractionPolicy) (honor : Bool)
      (now after : ℕ)
      → now ≤ after
      → ready_for_extraction store job policy honor now ≡ true
      → ready_for_extraction store job policy honor after ≡ true
  unfolding ready_for_extraction
  ready_later store job policy honor now after le h =
      let cursor = read_extraction_cursor runtime store job.source_id in
      ground (
        arith,
        waited_later true now after policy.conversation_quiet_minutes (time_of job.enqueued_at) le,
        waited_later false now after policy.conversation_max_wait_minutes
            (time_of cursor.updated_at) le,
      )
