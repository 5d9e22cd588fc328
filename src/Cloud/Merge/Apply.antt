-- ===== src/Cloud/Merge/Apply.antt =====
-- cloud/merge.ts, `mergeCore`: what becomes of one row when its decision is applied.
use Prim.Native.String
use code_butler.Prelude.{
  String, Bool, true, false, not, ◌&&◌, Option, none, some, List, [], ◌∷◌, contains, ◌==◌,
  if◌then◌else◌,
}
use code_butler.Prelude.Assoc.{Assoc, get, put}
use code_butler.Cloud.Row.{Value, text, Row, text_value}
use code_butler.Cloud.Merge.{
  take_remote, insert_remote, keep_local, flag_conflict, delete_local, RowDecision, unchanged,
  decided, memory_tables, Reader, fact_eq, statement_fact, newer,
}

-- The ids of this device for rows that the other device holds under another id, keyed by the table
-- and that id.
abbrev pub Aliases : Type 0
Aliases = Assoc String

abbrev alias_key : String → String → String
alias_key table id = String.◌++◌ (String.◌++◌ table ":") id

abbrev renamed : String → Row → Option String → Row
renamed field row none = row
renamed field row (some id) = put row field (text id)

abbrev alias_in : Aliases → String → Option String → Option String
alias_in aliases table none = none
alias_in aliases table (some id) = get aliases (alias_key table id)

-- `remap`; a field that keeps its value is left as it is.
abbrev pub remap : Aliases → String → String → Row → Row
remap aliases field table row =
    renamed field row (alias_in aliases table (text_value (get row field)))

-- A text of the row; other values are told from every text here.
abbrev is_text : Option String → String → Bool
is_text none expected = false
is_text (some t) expected = t == expected

-- `categoryTable`
abbrev category_table : Option String → String
category_table category =
    if is_text category "candidate"
    then "memory_candidates"
    else if is_text category "temporary"
    then "temporary_memories"
    else "memories"

abbrev category_column : Row → String → String
category_column row column = category_table (text_value (get row column))

-- The tables whose rows name memories by a category and an id.
abbrev categorised_tables : List String
categorised_tables =
    "memory_events" ∷ "memory_topic_links" ∷ "memory_review_resolutions"
    ∷ "memory_review_resolution_compensations" ∷ []

-- The row of the other device, with its references by the ids of this device.
unfoldable pub remapped : Aliases → String → Row → Row
remapped aliases table row =
    if table == "memory_candidates"
    then remap aliases "promoted_memory_id" "memories" row
    else if table == "memory_relations"
    then remap aliases "to_memory_id" "memories" (remap aliases "from_memory_id" "memories" row)
    else if table == "memory_links"
    then remap aliases "owner_id"
        (if is_text (text_value (get row "owner_kind")) "candidate"
          then "memory_candidates"
          else "memories")
        row
    else if table == "temporary_memory_links"
    then remap aliases "memory_id" "temporary_memories" row
    else if contains table categorised_tables
    then remap aliases "replacement_memory_id" (category_column row "replacement_category") (
        remap aliases "related_memory_id" (category_column row "related_category")
          (remap aliases "memory_id" (category_column row "category") row))
    else row

-- What this device holds then under the id of the row, and under the other id of a duplicate, and
-- whether the row is left to a person.
pub record Applied : Type 0 where
  pub held : Option Row
  pub held_elsewhere : Option Row
  pub for_review : Bool

abbrev with_id : Row → Option Value → Row
with_id row none = row
with_id row (some id) = put row "id" id

module _ (reader : Reader) (later : String → String → Bool) (aliases : Aliases)
    (table : String) where
  -- Adopting the row `there`, where this device holds `duplicate` with the same natural key.
  unfoldable pub adopt_row : Option Row → Row → Option Row → Applied
  unfolding remapped
  adopt_row here there none = record {
    held = some (remapped aliases table there);
    held_elsewhere = none;
    for_review = false;
  }
  adopt_row here there (some duplicate) =
      if contains table memory_tables
        && not (fact_eq (statement_fact reader duplicate) (statement_fact reader there))
      then record { held = here; held_elsewhere = some duplicate; for_review = true }
      else record {
        held = here;
        held_elsewhere = some (
            if contains table memory_tables && newer later (remapped aliases table there) duplicate
            then with_id (remapped aliases table there) (get duplicate "id")
            else duplicate);
        for_review = false;
      }

  abbrev stays : Option Row → Option Row → Bool → Option Applied
  stays held duplicate for_review =
      some (record { held = held; held_elsewhere = duplicate; for_review = for_review })

  abbrev adopt_there : Option Row → Option Row → Option Row → Option Applied
  adopt_there here none duplicate = none
  adopt_there here (some there) duplicate = some (adopt_row here there duplicate)

  -- `none` is the error "Cloud merge cannot adopt a missing row". `duplicate` is what
  -- `heldUnderAnotherId` finds for the row of the other device.
  unfoldable pub apply_row : RowDecision → Option Row → Option Row → Option Row → Option Applied
  unfolding adopt_row
  apply_row unchanged here there duplicate = stays here duplicate false
  apply_row (decided take_remote _) here there duplicate = adopt_there here there duplicate
  apply_row (decided insert_remote _) here there duplicate = adopt_there here there duplicate
  apply_row (decided keep_local _) here there duplicate = stays here duplicate false
  apply_row (decided flag_conflict _) here there duplicate = stays here duplicate true
  apply_row (decided delete_local _) here there duplicate = stays none duplicate false
