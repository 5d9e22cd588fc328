-- ===== src/Extract/Cursor/Laws.antt =====
-- What a cursor says of the messages that are stored.
use code_butler.Prelude.{
  ℕ, zero, suc, ◌+◌, ◌-◌, ◌≤◌, String, Bool, true, false, not, ◌&&◌, ◌||◌, none, some, List, [],
  ◌∷◌, ◌++◌, ◌≡◌, ◌≢◌, refl, inl, inr, length, filter, find?, contains, nat_eq, ◌==◌, arith,
  eq_refl, if◌then◌else◌, is_some, Option-cases, Bool-cases, All, take,
}
use code_butler.Prelude.Assoc.{get, put, get-put}
use code_butler.Extract.Cursor.{
  Chunk, CursorRow, Store, Runtime, chunk_count, chunk_hash_at, covered, was_extracted, check_row,
  read_extraction_cursor, last_hash, advance_extraction_cursor,
  seed_extraction_cursor_before_reimport, reset_extraction_cursors, text_is, before_run,
  message_time,
}

module _ {ℓ} {A : Type ℓ} (p : A → Bool) where
  pub length-filter-append :
      (xs ys : List A) → length (filter p (xs ++ ys)) ≡ length (filter p xs) + length (filter p ys)
  length-filter-append [] ys = omega arith
  length-filter-append (x ∷ xs) ys = ground (arith, length-filter-append xs ys)

  find?-append : (xs ys : List A) (a : A) → find? p xs ≡ some a → find? p (xs ++ ys) ≡ some a
  find?-append [] ys a h = ground arith
  find?-append (x ∷ xs) ys a h = ground (arith, find?-append xs ys a)

module _ (runtime : Runtime) where
  -- The cursor never lies past the messages that are stored.
  pub read_cursor-le :
      (store : Store) (id : String)
      → (read_extraction_cursor runtime store id).extracted_chunks ≤ chunk_count runtime store id
  unfolding read_extraction_cursor
  read_cursor-le store id = elim (Option-cases (get store.cursors id)) [
    | inl e ↦ rw (e, read_extraction_cursor) (omega arith)
    | inr (row, e) ↦ rw (e, read_extraction_cursor) (ground arith)
  ]

  recorded : ℕ → String → String → CursorRow
  recorded n h now = record { extracted_chunks = n; last_chunk_hash = h; updated_at = now }

  moved : Store → String → CursorRow → Store
  moved store id row = record store { cursors = put store.cursors id row }

  advance-moved :
      (store : Store) (id : String) (n : ℕ) (now h : String)
      → last_hash runtime store id n ≡ some h
      → advance_extraction_cursor runtime id n now store ≡ moved store id (recorded n h now)
  unfolding advance_extraction_cursor moved recorded
  advance-moved store id n now h e = rw (e, advance_extraction_cursor) refl

  get-moved :
      (store : Store) (id : String) (row : CursorRow)
      → read_extraction_cursor runtime (moved store id row) id
        ≡ check_row runtime (moved store id row) id row
  unfolding read_extraction_cursor moved
  get-moved store id row =
      rw (get-put store.cursors id id row, eq_refl id, read_extraction_cursor) refl

  hash-moved :
      (store : Store) (id : String) (row : CursorRow) (n : ℕ) (h : String)
      → chunk_hash_at runtime store id n ≡ some h
      → text_is runtime (chunk_hash_at runtime (moved store id row) id n) h ≡ true
  unfolding moved chunk_hash_at
  hash-moved store id row n h e = rw (e, chunk_hash_at, moved) (eq_refl h)

  check_row-recorded :
      (store : Store) (id : String) (n : ℕ) (now h : String)
      → n ≤ chunk_count runtime store id
      → last_hash runtime store id n ≡ some h
      → check_row runtime (moved store id (recorded n h now)) id (recorded n h now)
        ≡ record { extracted_chunks = n; updated_at = some now }
  unfolding moved recorded chunk_hash_at
  check_row-recorded store id zero now h le e = refl
  check_row-recorded store id (suc n) now h le e =
      let same = hash-moved store id (recorded (suc n) h now) n h e in ground arith

  -- A conversation whose first messages were recorded as extracted is read back with that number,
  -- where these messages are stored.
  pub read-advance :
      (store : Store) (id : String) (n : ℕ) (now : String)
      → n ≤ chunk_count runtime store id
      → last_hash runtime store id n ≢ none
      → read_extraction_cursor runtime (advance_extraction_cursor runtime id n now store) id
        ≡ record { extracted_chunks = n; updated_at = some now }
  unfolding read_extraction_cursor advance_extraction_cursor
  read-advance store id n now le there = elim (Option-cases (last_hash runtime store id n)) [
    | inl e ↦ elim (there e) [ ]
    | inr (h, e) ↦
        rw (advance-moved store id n now h e, get-moved store id (recorded n h now))
          (check_row-recorded store id n now h le e)
  ]

  grown : Store → List Chunk → Store
  grown store new = record store { chunks = store.chunks ++ new }

  hash-grown :
      (store : Store) (id h : String) (new : List Chunk) (n : ℕ)
      → text_is runtime (chunk_hash_at runtime store id n) h ≡ true
      → text_is runtime (chunk_hash_at runtime (grown store new) id n) h ≡ true
  unfolding grown chunk_hash_at
  hash-grown store id h new n same =
      let p = λ (c : Chunk). c.source_id == id && nat_eq c.chunk_index n in
      elim (Option-cases (find? p store.chunks)) [
        | inl e ↦ let same' = rw (e, chunk_hash_at) at same in ground arith
        | inr (c, e) ↦
            let same' = rw (e, chunk_hash_at) at same in
            rw (find?-append p store.chunks new c e, chunk_hash_at, grown) same'
      ]

  count-grown :
      (store : Store) (id : String) (new : List Chunk)
      → chunk_count runtime store id ≤ chunk_count runtime (grown store new) id
  unfolding grown
  count-grown store id new =
      omega (arith, length-filter-append (λ (c : Chunk). c.source_id == id) store.chunks new)

  check_row-grown :
      (store : Store) (id : String) (row : CursorRow) (new : List Chunk)
      → (check_row runtime store id row).extracted_chunks ≡ row.extracted_chunks
      → check_row runtime (grown store new) id row ≡ check_row runtime store id row
  check_row-grown store id row new valid = ground (
    arith,
    count-grown store id new,
    hash-grown store id row.last_chunk_hash new (row.extracted_chunks - 1),
  )

  -- New messages at the end leave the cursor of a conversation as it is, where what was recorded
  -- still matched the messages.
  pub read-grown :
      (store : Store) (id : String) (row : CursorRow) (new : List Chunk)
      → get store.cursors id ≡ some row
      → (read_extraction_cursor runtime store id).extracted_chunks ≡ row.extracted_chunks
      → read_extraction_cursor runtime (record store { chunks = store.chunks ++ new }) id
        ≡ read_extraction_cursor runtime store id
  unfolding read_extraction_cursor grown
  read-grown store id row new e valid =
      let valid' = rw (e, read_extraction_cursor) at valid in
      rw (e, read_extraction_cursor) (check_row-grown store id row new valid')

  -- No message that a run is taken to have covered is later than the run.
  pub covered-old :
      (ran_at : ℕ) (cs : List Chunk)
      → All
          (λ c. before_run runtime ran_at (message_time runtime c) ≡ true)
          (take (covered runtime ran_at cs) cs)
  unfolding covered
  covered-old ran_at [] = tt
  covered-old ran_at (c ∷ cs) =
      elim (Bool-cases (before_run runtime ran_at (message_time runtime c))) [
        | inl e ↦ rw (e, covered) (e, covered-old ran_at cs)
        | inr e ↦ rw (e, covered) tt
      ]

  -- A conversation is seeded before its messages are replaced only if it has no cursor and no job
  -- that waits, it has messages, and there is a sign that it was extracted.
  pub seed_needs_proof :
      (store : Store) (id now : String)
      → seed_extraction_cursor_before_reimport runtime id now store ≢ store
      → (get store.cursors id ≡ none)
        × (contains id store.job_sources ≡ false)
        × (1 ≤ chunk_count runtime store id)
        × (was_extracted runtime store id ≡ true)
  unfolding seed_extraction_cursor_before_reimport
  seed_needs_proof store id now moved_on =
      elim (Bool-cases (is_some (get store.cursors id) || contains id store.job_sources)) [
        | inl e ↦ elim (moved_on (rw (e, seed_extraction_cursor_before_reimport) refl)) [ ]
        | inr e ↦
            elim (Bool-cases
              (nat_eq (chunk_count runtime store id) 0 || not (was_extracted runtime store id))) [
                | inl f ↦
                    elim (moved_on (rw (e, f, seed_extraction_cursor_before_reimport) refl)) [ ]
                | inr f ↦ (ground arith, ground arith, ground arith, ground arith)
              ]
      ]

  get-rewound :
      (store : Store) (i id now : String)
      → get (advance_extraction_cursor runtime i 0 now store).cursors id
        ≡ (if i == id then some (recorded 0 "" now) else get store.cursors id)
  unfolding advance_extraction_cursor recorded
  get-rewound store i id now = get-put store.cursors i id (recorded 0 "" now)

  stays_rewound :
      (ids : List String) (id now : String) (store : Store)
      → get store.cursors id ≡ some (recorded 0 "" now)
      → get (reset_extraction_cursors runtime ids now store).cursors id ≡ some (recorded 0 "" now)
  unfolding reset_extraction_cursors
  stays_rewound [] id now store e = e
  stays_rewound (i ∷ ids) id now store e =
      stays_rewound ids id now (advance_extraction_cursor runtime i 0 now store)
        (let step = get-rewound store i id now in ground arith)

  get-reset :
      (ids : List String) (id now : String) (store : Store)
      → contains id ids ≡ true
      → get (reset_extraction_cursors runtime ids now store).cursors id ≡ some (recorded 0 "" now)
  unfolding reset_extraction_cursors
  get-reset [] id now store m = ground arith
  get-reset (i ∷ ids) id now store m =
      let next = advance_extraction_cursor runtime i 0 now store in
      elim (Bool-cases (i == id)) [
        | inl e ↦
            stays_rewound ids id now next (let step = get-rewound store i id now in ground arith)
        | inr e ↦ get-reset ids id now next (ground arith)
      ]

  -- A conversation that was reset is extracted from its first message, also after the step that
  -- seeds a cursor before a conversation is imported again.
  pub reset_starts_over :
      (ids : List String) (id now later : String) (store : Store)
      → contains id ids ≡ true
      → read_extraction_cursor runtime
          (seed_extraction_cursor_before_reimport runtime id later
            (reset_extraction_cursors runtime ids now store))
          id
        ≡ record { extracted_chunks = 0; updated_at = some now }
  unfolding read_extraction_cursor seed_extraction_cursor_before_reimport recorded
  reset_starts_over ids id now later store m =
      rw (get-reset ids id now store m, seed_extraction_cursor_before_reimport)
        (rw (get-reset ids id now store m, read_extraction_cursor) refl)
