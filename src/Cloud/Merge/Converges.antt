-- ===== src/Cloud/Merge/Converges.antt =====
-- The decisions of two devices on the same three rows.
use code_butler.Prelude.{
  String, Bool, true, false, ◌||◌, Option, none, some, List, [], ◌∷◌, ◌≡◌, refl, ◌⊎◌, inl, inr,
  ◌==◌, arith, eq_iff, Bool-cases, Option-cases,
}
use code_butler.Prelude.Assoc.{get}
use code_butler.Cloud.Row.{Row, text_value, identical}
use code_butler.Cloud.Row.Laws.{identical_sym, identical_trans}
use code_butler.Cloud.Merge.{
  flag_conflict, Reason, RowDecision, decided, Reader, column_text, option_eq, fields_eq,
  statement_fact, newer_by, time_columns, newer, both_added_same_key, edited_on_both_sides,
  equivalent, conflict, decide_row,
}
use code_butler.Cloud.Merge.Laws.{agrees, settled}

option_eq_sym : (a b : Option String) → option_eq a b ≡ option_eq b a
option_eq_sym none none = refl
option_eq_sym (some a) none = refl
option_eq_sym none (some b) = refl
option_eq_sym (some a) (some b) = ground (arith, eq_iff a b, eq_iff b a)

fields_eq_sym : (fs gs : List (String × Option String)) → fields_eq fs gs ≡ fields_eq gs fs
fields_eq_sym [] [] = refl
fields_eq_sym ((k, v) ∷ fs) [] = refl
fields_eq_sym [] ((j, w) ∷ gs) = refl
fields_eq_sym ((k, v) ∷ fs) ((j, w) ∷ gs) =
    ground (arith, eq_iff k j, eq_iff j k, option_eq_sym v w, fields_eq_sym fs gs)

text_eq_sym : (a b : String) → (a == b) ≡ (b == a)
text_eq_sym a b = ground (arith, eq_iff a b, eq_iff b a)

abbrev pub flagged : RowDecision → Bool
flagged (decided flag_conflict _) = true
flagged _ = false

-- Of two rows, one was written later by its times.
abbrev pub one_newer : (String → String → Bool) → Option Row → Option Row → Bool
one_newer later (some h) (some t) = newer later h t || newer later t h
one_newer later _ _ = true

module _ (reader : Reader) (later : String → String → Bool)
    (asym : (a b : String) → later a b ≡ true → later b a ≡ false) where
  equivalent_sym : (h t : Row) → equivalent reader later h t ≡ equivalent reader later t h
  unfolding equivalent
  equivalent_sym h t =
      let f = statement_fact reader h in
      let g = statement_fact reader t in
      ground (
        arith,
        text_eq_sym (column_text h "type") (column_text t "type"),
        text_eq_sym (reader.normalize_summary (column_text h "title"))
            (reader.normalize_summary (column_text t "title")),
        text_eq_sym (reader.normalize_summary (column_text h "summary"))
            (reader.normalize_summary (column_text t "summary")),
        text_eq_sym f.text g.text,
        fields_eq_sym f.fields g.fields,
      )

  newer_by_asym :
      (columns : List String) (a b : Row)
      → newer_by later columns a b ≡ true
      → newer_by later columns b a ≡ false
  unfolding newer_by
  newer_by_asym [] a b h = refl
  newer_by_asym (c ∷ cs) a b h = elim (Option-cases (text_value (get a c))) [
    | inl e ↦ ground (arith, newer_by_asym cs a b)
    | inr (x, e) ↦ elim (Option-cases (text_value (get b c))) [
      | inl f ↦ ground (arith, newer_by_asym cs a b)
      | inr (y, f) ↦ ground (arith, newer_by_asym cs a b, asym x y, eq_iff x y, eq_iff y x)
    ]
  ]

  newer_asym : (a b : Row) → newer later a b ≡ true → newer later b a ≡ false
  unfolding newer
  newer_asym a b h = newer_by_asym time_columns a b h

  -- Both devices settle a competing edit on one of the two rows, the same one.
  conflict_converges :
      (table : String) (h t : Row) (r : Reason)
      → (newer later h t || newer later t h) ≡ true
      → flagged (conflict reader later table h t r) ≡ false
      → settled (conflict reader later table h t r) (some h) (some t)
        ≡ settled (conflict reader later table t h r) (some t) (some h)
  unfolding conflict
  conflict_converges table h t r one_newer free =
      ground (arith, equivalent_sym h t, newer_asym h t, newer_asym t h)

  -- The decisions of the two devices agree on the row, where none is a flag.
  pub decide_row-converges :
      (table : String) (here there base : Option Row)
      → flagged (decide_row reader later table here there base) ≡ false
      → one_newer later here there ≡ true
      → (settled (decide_row reader later table here there base) here there
          ≡ settled (decide_row reader later table there here base) there here)
        ⊎ (agrees
              (settled (decide_row reader later table here there base) here there)
              (settled (decide_row reader later table there here base) there here)
            ≡ true)
  unfolding decide_row
  decide_row-converges table none none none free order = inl refl
  decide_row-converges table (some h) none none free order = inl refl
  decide_row-converges table none (some t) none free order = inl refl
  decide_row-converges table none none (some b) free order = inl refl
  decide_row-converges table (some h) none (some b) free order = ground arith
  decide_row-converges table none (some t) (some b) free order = ground arith
  decide_row-converges table (some h) (some t) none free order = elim (Bool-cases (identical h t)) [
    | inl same ↦ rw (same, ← identical_sym h t, same) (inr same)
    | inr apart ↦
        let free' = rw apart at free in
        rw (apart, ← identical_sym h t, apart)
          (inl (conflict_converges table h t both_added_same_key order free'))
  ]
  decide_row-converges table (some h) (some t) (some b) free order =
      elim (Bool-cases (identical h t)) [
        | inl same ↦ rw (same, ← identical_sym h t, same) (inr same)
        | inr apart ↦ inl (
            rw (apart, ← identical_sym h t, apart)
              (ground (
                arith,
                identical_trans h b t,
                identical_sym t b,
                conflict_converges table h t edited_on_both_sides order,
              )))
      ]
