-- ===== src/Cloud/Merge/Adopted.antt =====
-- cloud/merge.ts: what this device holds once the decision on a row has been applied.
use code_butler.Prelude.{
  String, Bool, true, false, Option, none, some, [], map_option, ◌≡◌, refl, ◌⊎◌, inl, inr, ◌≢◌, ap,
  contains, arith, Bool-cases, Option-cases,
}
use code_butler.Prelude.Assoc.{get}
use code_butler.Cloud.Row.{Row, text_value, identical}
use code_butler.Cloud.Merge.{
  take_remote, insert_remote, keep_local, flag_conflict, delete_local, Reason, RowDecision,
  unchanged, decided, memory_tables, Reader, fact_eq, statement_fact, equivalent, decide_row,
}
use code_butler.Cloud.Merge.Apply.{Aliases, Applied, remap, remapped, adopt_row, apply_row}
use code_butler.Cloud.Merge.Laws.{
  agrees, kept_from, settled, adopted_row_is_there, decide_row-two_edits,
}
use code_butler.Cloud.Merge.Converges.{flagged, one_newer, decide_row-converges}

remap_none : (field table : String) (row : Row) → remap [] field table row ≡ row
unfolding get
remap_none field table row = elim (Option-cases (text_value (get row field))) [
  | inl e ↦ rw e refl
  | inr (id, e) ↦ rw e refl
]

remapped_none : (table : String) (row : Row) → remapped [] table row ≡ row
unfolding remapped
remapped_none table row = simp (remapped, remap_none) (ground arith)

module _ (reader : Reader) (later : String → String → Bool) (table : String) where
  apply_row-settled :
      (decision : RowDecision) (here there : Option Row)
      → ((r : Option Reason) → decision ≡ decided take_remote r → there ≢ none)
      → ((r : Option Reason) → decision ≡ decided insert_remote r → there ≢ none)
      → map_option (λ a. a.held) (apply_row reader later [] table decision here there none)
        ≡ some (settled decision here there)
  unfolding apply_row adopt_row
  apply_row-settled unchanged here there t i = refl
  apply_row-settled (decided keep_local r) here there t i = refl
  apply_row-settled (decided flag_conflict r) here there t i = refl
  apply_row-settled (decided delete_local r) here there t i = refl
  apply_row-settled (decided take_remote r) here none t i = absurd (t r refl refl)
  apply_row-settled (decided take_remote r) here (some there) t i =
      ap (λ x. some (some x)) (remapped_none table there)
  apply_row-settled (decided insert_remote r) here none t i = absurd (i r refl refl)
  apply_row-settled (decided insert_remote r) here (some there) t i =
      ap (λ x. some (some x)) (remapped_none table there)

  -- What the device whose row is `here` holds after the merge, where it holds no row of the other
  -- device under another id: there is no alias and no duplicate.
  abbrev pub after_merge : Option Row → Option Row → Option Row → Option (Option Row)
  after_merge here there base =
      map_option (λ a. a.held)
        (apply_row reader later [] table (decide_row reader later table here there base) here there
          none)

  after_merge-settled :
      (here there base : Option Row)
      → after_merge here there base
        ≡ some (settled (decide_row reader later table here there base) here there)
  after_merge-settled here there base =
      apply_row-settled (decide_row reader later table here there base) here there
        (λ r e. adopted_row_is_there reader later table here there base take_remote r e refl)
        λ r e. adopted_row_is_there reader later table here there base insert_remote r e refl

  -- A row that the ancestor has and that one side lacks is gone after the merge, whatever the
  -- other side did to it.
  pub deletion_wins :
      (aliases : Aliases) (here there duplicate : Option Row) (base : Row)
      → (here ≡ none) ⊎ (there ≡ none)
      → map_option
          (λ a. a.held)
          (apply_row reader later aliases table
            (decide_row reader later table here there (some base))
            here
            there
            duplicate)
        ≡ some none
  unfolding decide_row apply_row
  deletion_wins aliases none there duplicate base h = refl
  deletion_wins aliases (some here) none duplicate base h =
      elim (Bool-cases (identical here base)) [ inl e ↦ rw e refl | inr e ↦ rw e refl ]
  deletion_wins aliases (some here) (some there) duplicate base h = ground arith

  -- This device holds a row of a memory table with the same natural key under another id, and it
  -- states something else.
  abbrev pub Divergent : Option Row → Option Row → Type 0
  Divergent there duplicate =
      (t d : Row) × (there ≡ some t)
      × (duplicate ≡ some d)
      × (contains table memory_tables ≡ true)
      × (fact_eq (statement_fact reader d) (statement_fact reader t) ≡ false)

  -- Both devices hold the row of a memory table, with values that differ from each other and from
  -- the ancestor's and that do not state the same fact.
  abbrev pub TwoEdits : Option Row → Option Row → Option Row → Type 0
  TwoEdits here there base =
      (h t : Row) × (here ≡ some h)
      × (there ≡ some t)
      × (contains table memory_tables ≡ true)
      × (identical h t ≡ false)
      × (equivalent reader later h t ≡ false)
      × (kept_from base h ≡ false)
      × (kept_from base t ≡ false)

  adopt_row-for_review :
      (aliases : Aliases) (here duplicate : Option Row) (t : Row)
      → (adopt_row reader later aliases table here t duplicate).for_review ≡ true
      → Divergent (some t) duplicate
  unfolding adopt_row
  adopt_row-for_review aliases here none t f = cc
  adopt_row-for_review aliases here (some d) t f = (t, d, refl, refl, ground arith, ground arith)

  flagged_by :
      (aliases : Aliases) (decision : RowDecision) (here there duplicate : Option Row) (a : Applied)
      → apply_row reader later aliases table decision here there duplicate ≡ some a
      → a.for_review ≡ true
      → ((r : Option Reason) × (decision ≡ decided flag_conflict r)) ⊎ Divergent there duplicate
  unfolding apply_row
  flagged_by aliases unchanged here there duplicate a e f = cc
  flagged_by aliases (decided keep_local r) here there duplicate a e f = cc
  flagged_by aliases (decided delete_local r) here there duplicate a e f = cc
  flagged_by aliases (decided flag_conflict r) here there duplicate a e f = inl (r, refl)
  flagged_by aliases (decided take_remote r) here none duplicate a e f = cc
  flagged_by aliases (decided insert_remote r) here none duplicate a e f = cc
  flagged_by aliases (decided take_remote r) here (some t) duplicate a e f =
      inr (adopt_row-for_review aliases here duplicate t cc)
  flagged_by aliases (decided insert_remote r) here (some t) duplicate a e f =
      inr (adopt_row-for_review aliases here duplicate t cc)

  -- A row is left to a person only if it is a memory or a candidate, and either both devices hold
  -- it with values that differ from each other and from the ancestor's and that do not state the
  -- same fact, or the other device holds it, and this device holds one with the same natural key
  -- under another id that states something else.
  pub flagged_needs_divergence :
      (aliases : Aliases) (here there base duplicate : Option Row) (a : Applied)
      → apply_row reader later aliases table
          (decide_row reader later table here there base)
          here
          there
          duplicate
        ≡ some a
      → a.for_review ≡ true
      → TwoEdits here there base ⊎ Divergent there duplicate
  flagged_needs_divergence aliases here there base duplicate a e f =
      elim (flagged_by aliases (decide_row reader later table here there base) here there duplicate
        a e f) [
          | inl (r, d) ↦ inl (decide_row-two_edits reader later table here there base r d)
          | inr d ↦ inr d
        ]

-- The two devices, each with its own row as the local one, both apply their decisions and then
-- hold the same row, before dangling references are repaired: where no row of one database is held
-- by the other under another id, the row is not flagged, and of two rows that both sides hold one is
-- newer, for an asymmetric order of texts. A row that both devices hold already may differ in the
-- order of its columns.
pub merge_converges :
    (reader : Reader) (later : String → String → Bool) (table : String)
    (here there base : Option Row)
    → ((a b : String) → later a b ≡ true → later b a ≡ false)
    → flagged (decide_row reader later table here there base) ≡ false
    → one_newer later here there ≡ true
    → (mine theirs : Option Row) × (after_merge reader later table here there base ≡ some mine)
      × (after_merge reader later table there here base ≡ some theirs)
      × ((mine ≡ theirs) ⊎ (agrees mine theirs ≡ true))
merge_converges reader later table here there base asym free order = (
  settled (decide_row reader later table here there base) here there,
  settled (decide_row reader later table there here base) there here,
  after_merge-settled reader later table here there base,
  after_merge-settled reader later table there here base,
  decide_row-converges reader later asym table here there base free order,
)
