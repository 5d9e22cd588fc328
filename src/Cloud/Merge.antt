-- ===== src/Cloud/Merge.antt =====
-- cloud/merge.ts: what a three-way merge decides about one row of the shared database.
pub mod Apply
pub mod Laws
pub mod Adopted
pub mod Converges
pub mod Hold
mod Tests
use code_butler.Prelude.{
  ℕ, String, Bool, true, false, not, ◌&&◌, ◌||◌, Option, none, some, List, [], ◌∷◌, contains, all,
  ◌==◌, if◌then◌else◌,
}
use code_butler.Prelude.Assoc.{Assoc, get}
use code_butler.Cloud.Row.{Value, null, text, Row, text_value, identical}

pub data MergeAction : Type 0 where
  take_remote keep_local insert_remote delete_local flag_conflict : MergeAction

pub data Reason : Type 0 where
  both_added_same_key deleted_remotely_edited_locally converged_equivalent_fact : Reason
  edited_on_both_sides : Reason

pub data RowDecision : Type 0 where
  unchanged : RowDecision
  decided : MergeAction → Option Reason → RowDecision

abbrev pub merge_tables : List String
merge_tables =
    "sources" ∷ "chunks" ∷ "commits" ∷ "decisions" ∷ "memories" ∷ "memory_candidates"
    ∷ "memory_review_resolutions" ∷ "memory_review_resolution_compensations" ∷ "memory_links"
    ∷ "memory_relations" ∷ "relations" ∷ "temporary_memories" ∷ "temporary_memory_links"
    ∷ "memory_events" ∷ "memory_topics" ∷ "memory_topic_links" ∷ []

-- `MEMORY_TABLES`
abbrev pub memory_tables : List String
memory_tables = "memories" ∷ "memory_candidates" ∷ []

-- `parseStatement` and the Unicode functions of the runtime.
pub record Reader : Type 0 where
  pub normalize_summary : String → String
  pub trim : String → String
  pub parse_statement : Option Value → String → Option (String × List (String × Option String))
  -- `Object.entries(...).sort(...)`, by the key
  pub sort_fields : List (String × Option String) → List (String × Option String)

-- `String(value ?? "")` of a text column; other values do not occur in these columns.
abbrev pub column_text : Row → String → String
column_text row column = elim (text_value (get row column)) [ none ↦ "" | some t ↦ t ]

abbrev pub trim_fields : Reader → List (String × Option String) → List (String × Option String)
trim_fields reader [] = []
trim_fields reader ((k, none) ∷ fs) = (k, none) ∷ trim_fields reader fs
trim_fields reader ((k, some v) ∷ fs) = (k, some (reader.trim v)) ∷ trim_fields reader fs

abbrev pub option_eq : Option String → Option String → Bool
option_eq none none = true
option_eq (some a) (some b) = a == b
option_eq _ _ = false

abbrev pub fields_eq : List (String × Option String) → List (String × Option String) → Bool
fields_eq [] [] = true
fields_eq ((k, v) ∷ fs) ((j, w) ∷ gs) = k == j && option_eq v w && fields_eq fs gs
fields_eq _ _ = false

pub record StatementFact : Type 0 where
  pub text : String
  pub fields : List (String × Option String)

-- The JSON texts of two facts are the same.
abbrev pub fact_eq : StatementFact → StatementFact → Bool
fact_eq f g = f.text == g.text && fields_eq f.fields g.fields

abbrev fact_of : Reader → Row → Option (String × List (String × Option String)) → StatementFact
fact_of reader row none = record {
  text = reader.normalize_summary (column_text row "summary");
  fields = [];
}
fact_of reader row (some (t, fs)) = record {
  text = reader.normalize_summary t;
  fields = trim_fields reader (reader.sort_fields fs);
}

pub statement_fact : Reader → Row → StatementFact
statement_fact reader row =
    fact_of reader row (reader.parse_statement (get row "statement_json") (column_text row "type"))

-- The columns that say when a row was written, the most telling first.
abbrev pub time_columns : List String
time_columns = "status_changed_at" ∷ "updated_at" ∷ "promoted_at" ∷ "created_at" ∷ []

-- The loop of `newer`; `later` is the order of JavaScript texts.
pub newer_by : (String → String → Bool) → List String → Row → Row → Bool
newer_by later [] candidate against = false
newer_by later (column ∷ columns) candidate against =
    let rest = newer_by later columns candidate against in
    elim (text_value (get candidate column)) [
      | none ↦ rest
      | some left ↦ elim (text_value (get against column)) [
        | none ↦ rest
        | some right ↦ if left == right then rest else later left right
      ]
    ]

pub newer : (String → String → Bool) → Row → Row → Bool
unfolding newer_by
newer later = newer_by later time_columns

module _ (reader : Reader) (later : String → String → Bool) where
  pub equivalent : Row → Row → Bool
  equivalent here there =
      column_text here "type" == column_text there "type"
      && reader.normalize_summary (column_text here "title")
        == reader.normalize_summary (column_text there "title")
      && reader.normalize_summary (column_text here "summary")
        == reader.normalize_summary (column_text there "summary")
      && fact_eq (statement_fact reader here) (statement_fact reader there)

  pub conflict : String → Row → Row → Reason → RowDecision
  conflict table here there reason =
      if contains table memory_tables
      then (if equivalent here there
          then (if newer later there here
              then decided take_remote (some converged_equivalent_fact)
              else decided keep_local (some converged_equivalent_fact))
          else decided flag_conflict (some reason))
      else (if newer later there here
          then decided take_remote (some reason)
          else decided keep_local (some reason))

  -- The branches of `decideRow` for a row that the ancestor lacks, and for one that it has.
  decide_added : String → Option Row → Option Row → RowDecision
  decide_added table none none = unchanged
  decide_added table (some here) none = decided keep_local none
  decide_added table none (some there) = decided insert_remote none
  decide_added table (some here) (some there) = conflict table here there both_added_same_key

  decide_known : String → Option Row → Option Row → Row → RowDecision
  decide_known table none there base = unchanged
  decide_known table (some here) none base =
      if identical here base
      then decided delete_local none
      else decided delete_local (some deleted_remotely_edited_locally)
  decide_known table (some here) (some there) base =
      if identical here base
      then decided take_remote none
      else if identical there base
      then decided keep_local none
      else conflict table here there edited_on_both_sides

  same_sides : Option Row → Option Row → Bool
  same_sides (some here) (some there) = identical here there
  same_sides _ _ = false

  pub decide_row : String → Option Row → Option Row → Option Row → RowDecision
  unfolding decide_added decide_known same_sides
  decide_row table here there none =
      if same_sides here there then unchanged else decide_added table here there
  decide_row table here there (some base) =
      if same_sides here there then unchanged else decide_known table here there base
