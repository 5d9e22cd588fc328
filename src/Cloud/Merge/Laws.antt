-- ===== src/Cloud/Merge/Laws.antt =====
-- What `decideRow` does with deletions, with edits on one side, and with competing edits.
use code_butler.Prelude.{
  String, Bool, true, false, Option, none, some, ◌≡◌, ◌≢◌, refl, ◌⊎◌, inl, inr, contains, arith,
  if◌then◌else◌,
}
use code_butler.Cloud.Row.{Row, identical}
use code_butler.Cloud.Merge.{
  MergeAction, take_remote, insert_remote, flag_conflict, Reason, keep_local, delete_local,
  RowDecision, unchanged, decided, memory_tables, Reader, equivalent, conflict, decide_row,
}

-- The two devices hold the same row, or neither holds one.
abbrev pub agrees : Option Row → Option Row → Bool
agrees none none = true
agrees (some a) (some b) = identical a b
agrees _ _ = false

-- The row is what the ancestor holds.
abbrev pub kept_from : Option Row → Row → Bool
kept_from none row = false
kept_from (some base) row = identical row base

-- The actions that write the other device's row.
abbrev pub adopts : MergeAction → Bool
adopts take_remote = true
adopts insert_remote = true
adopts _ = false

-- What the row is on this device after the decision, if it is held under no other id.
abbrev pub settled : RowDecision → Option Row → Option Row → Option Row
settled unchanged here there = here
settled (decided take_remote _) here there = there
settled (decided insert_remote _) here there = there
settled (decided keep_local _) here there = here
settled (decided flag_conflict _) here there = here
settled (decided delete_local _) here there = none

module _ (reader : Reader) (later : String → String → Bool) (table : String) where
  -- Where one side lacks a row of the ancestor, the decision leaves none.
  pub decide_row-deletion :
      (here there : Option Row) (base : Row)
      → (here ≡ none) ⊎ (there ≡ none)
      → settled (decide_row reader later table here there (some base)) here there ≡ none
  unfolding decide_row
  decide_row-deletion none there base h = refl
  decide_row-deletion (some here) none base h = ground arith
  decide_row-deletion (some here) (some there) base h = ground arith

  -- Of two rows that differ, the one that was edited is kept, where only one side edited the row
  -- of the ancestor.
  pub one_sided_edit :
      (here there base : Row)
      → identical here there ≡ false
      → (identical here base ≡ true) ⊎ (identical there base ≡ true)
      → settled
          (decide_row reader later table (some here) (some there) (some base))
          (some here)
          (some there)
        ≡ (if identical here base then some there else some here)
  unfolding decide_row
  one_sided_edit here there base apart (inl h) = ground arith
  one_sided_edit here there base apart (inr h) = ground arith

  -- `decideRow` flags only competing edits of a memory or a candidate.
  pub decide_row-two_edits :
      (here there base : Option Row) (r : Option Reason)
      → decide_row reader later table here there base ≡ decided flag_conflict r
      → (h t : Row) × (here ≡ some h)
        × (there ≡ some t)
        × (contains table memory_tables ≡ true)
        × (identical h t ≡ false)
        × (equivalent reader later h t ≡ false)
        × (kept_from base h ≡ false)
        × (kept_from base t ≡ false)
  unfolding decide_row conflict
  decide_row-two_edits none none none r e = ground arith
  decide_row-two_edits none (some t) none r e = ground arith
  decide_row-two_edits (some h) none none r e = ground arith
  decide_row-two_edits none there (some b) r e = ground arith
  decide_row-two_edits (some h) none (some b) r e = ground arith
  decide_row-two_edits (some h) (some t) none r e =
      (h, t, refl, refl, ground arith, ground arith, ground arith, refl, refl)
  decide_row-two_edits (some h) (some t) (some b) r e =
      (h, t, refl, refl, ground arith, ground arith, ground arith, ground arith, ground arith)

  -- A row of the other device is adopted only where it has one.
  pub adopted_row_is_there :
      (here there base : Option Row) (action : MergeAction) (r : Option Reason)
      → decide_row reader later table here there base ≡ decided action r
      → adopts action ≡ true
      → there ≢ none
  unfolding decide_row
  adopted_row_is_there none none none action r e a n = ground arith
  adopted_row_is_there (some h) none none action r e a n = ground arith
  adopted_row_is_there here (some t) base action r e a n = cc
  adopted_row_is_there none none (some b) action r e a n = ground arith
  adopted_row_is_there (some h) none (some b) action r e a n = ground arith
